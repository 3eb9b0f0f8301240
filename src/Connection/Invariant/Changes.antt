-- ===== src/Connection/Invariant/Changes.antt =====
-- The handlers of settings, windows, resets and the end of a stream.
use rust_http.Prelude.{
  ℕ, ◌≡◌, refl, sym, ap, ◌∙◌, arith, List, [], ◌∷◌, Option, none, some, inl, inr, Bool, true, false,
  Bool-cases, Option-cases,
}
use rust_http.Prelude.Int.{ℤ, pos}
use rust_http.Prelude.Outcome.{Outcome, ok, bind-ok}
use rust_http.Error.{Error}
use rust_http.Window.{try_increase, eq_ℤ}
use rust_http.Frame.ErrorCode.{flow_control_error}
use rust_http.Frame.FrameType.{HttpFrameType}
use rust_http.Frame.FrameType
use rust_http.Frame.RstStream.{RstStreamFrame}
use rust_http.Frame.Settings
use rust_http.Frame.Settings.{HttpSetting, SettingsFrame}
use rust_http.Frame.WindowUpdate.{WindowUpdateFrame}
use rust_http.Hpack.StaticTable.{Header}
use rust_http.Stream.Outgoing.{HttpStreamCommon}
use rust_http.Stream.Map
use rust_http.Stream.Map.{StreamMap, get_mut, has_stream}
use rust_http.Stream.Map.Reach as Steps
use rust_http.Stream.Closed
use rust_http.Stream.Closed.{ClosedStreams}
use rust_http.Stream.Closed.Invariant as ClosedInvariant
use rust_http.Connection.{Conn, send_frame_and_notify, send_goaway, get_stream_maybe_send_error}
use rust_http.Connection.Read.{
  process_settings_ack, change_windows, before_setting, too_large, apply_settings,
  process_settings_req, process_settings, window_raised, raise_window, process_conn_window_update,
  reset_stream, closed_by_peer, process_rst_stream_frame,
}
use rust_http.Connection.Invariant.{
  Keeps, Keeps-refl, Keeps-trans, send-Keeps, send_goaway-Keeps, streams-Keeps,
  send_rst_stream-Keeps,
}
use rust_http.Connection.Invariant.Handlers.{Same-Keeps, get_stream-Keeps}
use rust_http.Connection.Dispatch.{ended, close_found}

pub ok_injective : {A : Type 0} {a b : A} → Path (Outcome Error A) (ok a) (ok b) → a ≡ b
ok_injective e = cc e

closed_add-IsValid :
    (s s' : ClosedStreams) (id : ℕ)
    → ClosedInvariant.IsValid s
    → Closed.add s id ≡ some s'
    → ClosedInvariant.IsValid s'
closed_add-IsValid s s' id v e =
    let (t, te, tv, _) = ClosedInvariant.add-IsValid s id v in
    let q : t ≡ s' = cc (te, e) in rw (← q) tv

closed_by_peer-Keeps : (c c' : Conn) (id : ℕ) → closed_by_peer c id ≡ ok c' → Keeps c c'
unfolding closed_by_peer
closed_by_peer-Keeps c c' id e = elim (Option-cases (Closed.add (c.peer_closed_streams) id)) [
  | inl n ↦ absurd (ground (arith, rw n at e))
  | inr (s, a) ↦
      let q : record c { peer_closed_streams = s } ≡ c' = ground (arith, rw a at e) in
      rw (← q) (record {
        valid = λ v. record {
          streams = v.streams;
          closed = closed_add-IsValid (c.peer_closed_streams) s id (v.closed) a;
        };
        silent = λ _. refl;
      })
]

change_windows-Keeps : (c c' : Conn) (delta : ℤ) → change_windows c delta ≡ ok c' → Keeps c c'
unfolding change_windows
change_windows-Keeps c c' delta e = elim (Bool-cases (eq_ℤ delta (pos 0))) [
  | inl z ↦ Same-Keeps c c' (ground (arith, rw z at e))
  | inr z ↦ elim (Option-cases (Map.add_out_window (c.streams) delta)) [
    | inl n ↦ absurd (ground (arith, rw (z, n) at e))
    | inr (m, a) ↦
        let q : record c { streams = m } ≡ c' = ground (arith, rw (z, a) at e) in
        rw (← q) (streams-Keeps c m (Steps.windows_added (c.streams) m delta a))
  ]
]

before_setting-Keeps : (c c' : Conn) (s : HttpSetting) → before_setting c s ≡ ok c' → Keeps c c'
unfolding before_setting
before_setting-Keeps c c' (Settings.initial_window_size n) e = change_windows-Keeps c c' _ e
before_setting-Keeps c c' (Settings.header_table_size n) e = Same-Keeps c c' (ground (arith, e))
before_setting-Keeps c c' (Settings.enable_push n) e = Same-Keeps c c' (ground (arith, e))
before_setting-Keeps c c' (Settings.max_concurrent_streams n) e =
    Same-Keeps c c' (ground (arith, e))
before_setting-Keeps c c' (Settings.max_frame_size n) e = Same-Keeps c c' (ground (arith, e))
before_setting-Keeps c c' (Settings.max_header_list_size n) e = Same-Keeps c c' (ground (arith, e))

apply_settings-Keeps :
    (c c' : Conn) (settings : List HttpSetting) → apply_settings c settings ≡ ok c' → Keeps c c'
unfolding apply_settings
apply_settings-Keeps c c' [] e =
    let q : send_frame_and_notify c (Settings.serialize_into Settings.new_ack) ≡ c' =
      ground (arith, e) in
    rw (← q) (send-Keeps c _)
apply_settings-Keeps c c' (s ∷ settings) e = elim (Bool-cases (too_large s)) [
  | inl b ↦
      let q : send_goaway c flow_control_error ≡ c' = ground (arith, rw b at e) in
      rw (← q) (send_goaway-Keeps c flow_control_error)
  | inr b ↦
      let (c1, e1, r) = bind-ok (before_setting c s) _ (c') (rw b at e) in
      let stored : Conn = record c1 { peer_settings = Settings.apply (c1.peer_settings) s } in
      Keeps-trans (before_setting-Keeps c c1 s e1) (
        Keeps-trans (Same-Keeps c1 stored (refl, refl, refl))
          (apply_settings-Keeps stored c' settings r))
]

pub process_settings-Keeps :
    (c c' : Conn) (f : SettingsFrame) → process_settings c f ≡ ok c' → Keeps c c'
unfolding process_settings process_settings_ack process_settings_req
process_settings-Keeps c c' f e = elim (Bool-cases (Settings.is_ack f)) [
  | inl a ↦ Same-Keeps c c' (ground (arith, rw a at e))
  | inr n ↦ apply_settings-Keeps c c' (f.settings) (rw n at e)
]

pub conn_window-Keeps :
    (c c' : Conn) (f : WindowUpdateFrame) → process_conn_window_update c f ≡ ok c' → Keeps c c'
unfolding process_conn_window_update
conn_window-Keeps c c' f e = elim (Option-cases (try_increase (c.out_window_size) (f.increment))) [
  | inl n ↦
      let q : send_goaway c flow_control_error ≡ c' = ground (arith, e, n) in
      rw (← q) (send_goaway-Keeps c flow_control_error)
  | inr (w, a) ↦ Same-Keeps c c' (ground (arith, e, a))
]

window_raised-Keeps :
    (c : Conn) (f : WindowUpdateFrame) (s : HttpStreamCommon (List Header))
    → get_mut (c.streams) (f.stream_id) ≡ some s
    → Keeps c (
        (window_raised c f
          (Map.try_increase_window_size (c.streams) (f.stream_id) s (f.increment))).0)
unfolding window_raised
window_raised-Keeps c f s found =
    elim (Option-cases (Map.try_increase_window_size (c.streams) (f.stream_id) s (f.increment))) [
      | inl n ↦ rw n (send_rst_stream-Keeps c (f.stream_id) flow_control_error)
      | inr (m, a) ↦ rw a (
          streams-Keeps c m
            (Steps.window_increased (c.streams) m (f.stream_id) s (f.increment) found a))
    ]

pub raise_window-Keeps :
    (c : Conn) (f : WindowUpdateFrame) (o : Option (HttpStreamCommon (List Header)))
    → o ≡ get_mut (c.streams) (f.stream_id)
    → Keeps c ((raise_window f (c, o)).0)
unfolding raise_window
raise_window-Keeps c f none found = Keeps-refl c
raise_window-Keeps c f (some s) found = window_raised-Keeps c f s (sym found)

reset_stream-Keeps :
    (c : Conn) (o : Option (HttpStreamCommon (List Header))) (id : ℕ)
    → Keeps c (reset_stream (c, o) id)
unfolding reset_stream
reset_stream-Keeps c none id = Keeps-refl c
reset_stream-Keeps c (some s) id = streams-Keeps c _ (Steps.reset (c.streams) id s)

pub rst_stream-Keeps :
    (c c' : Conn) (f : RstStreamFrame) (b : Bool)
    → process_rst_stream_frame c f ≡ ok (c', b)
    → Keeps c c'
unfolding process_rst_stream_frame
rst_stream-Keeps c c' f b e =
    let found = get_stream_maybe_send_error c (f.stream_id) FrameType.rst_stream in
    let before = reset_stream found (f.stream_id) in
    let (c1, e1, r) = bind-ok (closed_by_peer before (f.stream_id)) _ (c', b) e in
    let q : c1 ≡ c' = ground (arith, r) in
    Keeps-trans (get_stream-Keeps c (f.stream_id) FrameType.rst_stream) (
      Keeps-trans (reset_stream-Keeps (found.0) (found.1) (f.stream_id))
        (closed_by_peer-Keeps before c' (f.stream_id) (e1 ∙ ap ok q)))

close_found-Keeps :
    (c : Conn) (id : ℕ) (o : Option (HttpStreamCommon (List Header)))
    → o ≡ get_mut (c.streams) id
    → Keeps c (close_found c id o)
close_found-Keeps c id none e = Keeps-refl c
close_found-Keeps c id (some s) e = streams-Keeps c _ (Steps.remote_closed (c.streams) id s (sym e))

pub ended-Keeps :
    (c c' : Conn) (id : ℕ) (end_of_stream found : Bool)
    → ended id end_of_stream (c, found) ≡ ok c'
    → Keeps c c'
unfolding ended
ended-Keeps c c' id false found e = let q : c ≡ c' = ground (arith, e) in rw (← q) (Keeps-refl c)
ended-Keeps c c' id true false e = closed_by_peer-Keeps c c' id e
ended-Keeps c c' id true true e =
    let shut : Conn = close_found c id (get_mut (c.streams) id) in
    Keeps-trans (close_found-Keeps c id (get_mut (c.streams) id) refl)
      (closed_by_peer-Keeps shut c' id e)
