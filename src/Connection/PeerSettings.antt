-- ===== src/Connection/PeerSettings.antt =====
-- What the settings of the peer do to the windows of the streams.
use rust_http.Prelude.{
  ℕ, ◌+◌, ◌≤◌, ◌≡◌, refl, arith, List, [], ◌∷◌, ◌++◌, some, inl, inr, true, false, Bool-cases,
  Option-cases, not, All, if◌then◌else◌,
}
use rust_http.Prelude.Int.{ℤ, pos, ◌+ℤ◌, ◌-ℤ◌, pos_part, neg_part}
use rust_http.Prelude.Outcome.{ok, assert, bind-ok}
use rust_http.Window.{eq_ℤ, max_window_size}
use rust_http.Window.Laws.{try_add_iff}
use rust_http.Frame.Header.{pack_header}
use rust_http.Frame.Settings
use rust_http.Frame.Settings.{HttpSetting, HttpSettings, SettingsFrame}
use rust_http.Hpack.StaticTable.{Header}
use rust_http.Stream.Outgoing.{HttpStreamCommon}
use rust_http.Stream.Map
use rust_http.Stream.Map.{StreamMap, get_mut, with_window, add_out_window}
use rust_http.Stream.Map.Entries.{lookup-add_windows}
use rust_http.Codec.QueuedWrite.{QueuedWrite, queue_not_goaway}
use rust_http.Connection.{Conn, send_frame_and_notify}
use rust_http.Connection.InWindow.{as_i32_small}
use rust_http.Connection.Read.{
  change_windows, before_setting, too_large, apply_settings, process_settings_req,
}

-- The window moved as the initial size of windows did: `w' - new = w - old`.
abbrev pub IsShifted : ℤ → ℤ → ℕ → ℕ → Type 0
IsShifted w w' old new = pos_part w' + neg_part w + old ≡ pos_part w + neg_part w' + new

-- Each stream is there afterwards, with only its window moved.
abbrev pub Shifts : Conn → Conn → ℕ → ℕ → Type 0
Shifts c c' old new =
    (id : ℕ) (s : HttpStreamCommon (List Header))
    → get_mut (c.streams) id ≡ some s
    → (w : ℤ) × (get_mut (c'.streams) id ≡ some (with_window s w))
      × IsShifted (s.out_window_size) w old new

sum-IsShifted : (w : ℤ) (old new : ℕ) → IsShifted w (w +ℤ (pos new -ℤ pos old)) old new
unfolding ◌+ℤ◌ ◌-ℤ◌
sum-IsShifted w old new = ground arith

no_difference : (old new : ℕ) → eq_ℤ (pos new -ℤ pos old) (pos 0) ≡ true → old ≡ new
unfolding ◌-ℤ◌ eq_ℤ
no_difference old new h = ground (arith, h)

-- No setting changes anything but the settings, the queue and the windows.
Shifts-refl : (c : Conn) (n : ℕ) → Shifts c c n n
Shifts-refl c n id s found = (s.out_window_size, found, omega arith)

Shifts-trans : (a b c : Conn) (k l m : ℕ) → Shifts a b k l → Shifts b c l m → Shifts a c k m
Shifts-trans a b c k l m f g id s found =
    let (w, there, shifted) = f id s found in
    let (v, after, again) = g id (with_window s w) there in
    (v, after, omega (arith, shifted, again))

unchanged :
    (c c' : Conn)
    → c ≡ c'
    → Shifts c c' (c.peer_settings.initial_window_size) (c.peer_settings.initial_window_size)
      × (c'.peer_settings ≡ c.peer_settings)
      × (c'.queued_write ≡ c.queued_write)
unchanged c c' e = rw (← e) (Shifts-refl c (c.peer_settings.initial_window_size), refl, refl)

change_windows-Shifts :
    (c c' : Conn) (old new : ℕ)
    → change_windows c (pos new -ℤ pos old) ≡ ok c'
    → Shifts c c' old new
      × (c'.peer_settings ≡ c.peer_settings)
      × (c'.queued_write ≡ c.queued_write)
unfolding change_windows add_out_window
change_windows-Shifts c c' old new e =
    let delta = pos new -ℤ pos old in
    elim (Bool-cases (eq_ℤ delta (pos 0))) [
      | inl z ↦
          let q : c ≡ c' = ground (arith, rw z at e) in
          let n : old ≡ new = no_difference old new z in rw (← q, n) (Shifts-refl c new, refl, refl)
      | inr z ↦ elim (Option-cases (Map.add_windows (c.streams.map) delta)) [
        | inl n ↦ absurd (ground (arith, rw (z, n) at e))
        | inr (fs, a) ↦
            let m : StreamMap (List Header) = record {
              map = fs;
              writable_streams = Map.writable_ids fs;
            } in
            let q : record c { streams = m } ≡ c' = ground (arith, rw (z, a) at e) in
            rw (← q) (
              λ id s found.
                  let (w, sum, there) = lookup-add_windows (c.streams.map) fs delta id s a found in
                  let r = ((try_add_iff (s.out_window_size) delta w).0 sum).0 in
                  (w, there, rw r (sum-IsShifted (s.out_window_size) old new)),
              refl,
              refl,
            )
      ]
    ]

-- What the setting is for the windows.
abbrev size_after : HttpSettings → HttpSetting → ℕ
size_after settings setting = (Settings.apply settings setting).initial_window_size

before_setting-Shifts :
    (c c' : Conn) (setting : HttpSetting)
    → c.peer_settings.initial_window_size ≤ max_window_size
    → too_large setting ≡ false
    → before_setting c setting ≡ ok c'
    → Shifts c c' (c.peer_settings.initial_window_size) (size_after (c.peer_settings) setting)
      × (c'.peer_settings ≡ c.peer_settings)
      × (c'.queued_write ≡ c.queued_write)
unfolding before_setting
before_setting-Shifts c c' (Settings.initial_window_size new) b t e =
    let old = c.peer_settings.initial_window_size in
    change_windows-Shifts c c' old new
      (rw (as_i32_small new (ground (arith, t)), as_i32_small old (omega (arith, b))) at e)
before_setting-Shifts c c' (Settings.header_table_size n) b t e = unchanged c c' (ground (arith, e))
before_setting-Shifts c c' (Settings.enable_push n) b t e = unchanged c c' (ground (arith, e))
before_setting-Shifts c c' (Settings.max_concurrent_streams n) b t e =
    unchanged c c' (ground (arith, e))
before_setting-Shifts c c' (Settings.max_frame_size n) b t e = unchanged c c' (ground (arith, e))
before_setting-Shifts c c' (Settings.max_header_list_size n) b t e =
    unchanged c c' (ground (arith, e))

-- No setting is a window size above the bound.
abbrev pub NoneTooLarge : List HttpSetting → Type 0
NoneTooLarge settings = All (λ s. too_large s ≡ false) settings

small_after :
    (settings : HttpSettings) (s : HttpSetting)
    → settings.initial_window_size ≤ max_window_size
    → too_large s ≡ false
    → size_after settings s ≤ max_window_size
small_after settings (Settings.initial_window_size new) b t = ground (arith, t)
small_after settings (Settings.header_table_size n) b t = b
small_after settings (Settings.enable_push n) b t = b
small_after settings (Settings.max_concurrent_streams n) b t = b
small_after settings (Settings.max_frame_size n) b t = b
small_after settings (Settings.max_header_list_size n) b t = b

-- The octets of a SETTINGS frame with ACK.
abbrev ack_octets : List ℕ
ack_octets = 0 ∷ 0 ∷ 0 ∷ 4 ∷ 1 ∷ 0 ∷ 0 ∷ 0 ∷ 0 ∷ []

-- The queue with ACK behind what is queued; after a GOAWAY frame the queue stays as it is.
abbrev pub with_ack : QueuedWrite → QueuedWrite
with_ack q = if q.goaway_queued then q else record q { buf = q.buf ++ ack_octets }

queue-with_ack :
    (q : QueuedWrite) → queue_not_goaway q (Settings.serialize_into Settings.new_ack) ≡ with_ack q
unfolding queue_not_goaway Settings.serialize_into Settings.write_settings Settings.get_header
    pack_header Settings.payload_len
queue-with_ack q = refl

-- What a handled frame of settings leads to: the settings are applied in order, ACK is queued, and
-- the window of every stream moved as the initial size did.
abbrev pub Applied : Conn → Conn → List HttpSetting → Type 0
Applied c c' settings =
    (c'.peer_settings ≡ Settings.apply_settings (c.peer_settings) settings)
    × (c'.queued_write ≡ with_ack (c.queued_write))
    × Shifts c c' (c.peer_settings.initial_window_size) (c'.peer_settings.initial_window_size)

apply_settings-Applied :
    (c c' : Conn) (settings : List HttpSetting)
    → c.peer_settings.initial_window_size ≤ max_window_size
    → NoneTooLarge settings
    → apply_settings c settings ≡ ok c'
    → Applied c c' settings
unfolding apply_settings Settings.apply_settings
apply_settings-Applied c c' [] b t e =
    let q : send_frame_and_notify c (Settings.serialize_into Settings.new_ack) ≡ c' =
      ground (arith, e) in
    rw (← q)
      (refl, queue-with_ack (c.queued_write), λ id s found. (s.out_window_size, found, omega arith))
apply_settings-Applied c c' (s ∷ settings) b t e =
    let (c1, e1, r) = bind-ok (before_setting c s) _ c' (rw (t.0) at e) in
    let (shifts, same, queue) = before_setting-Shifts c c1 s b (t.0) e1 in
    let stored : Conn = record c1 { peer_settings = Settings.apply (c1.peer_settings) s } in
    let (final, acked, rest) =
      apply_settings-Applied stored c' settings (rw same (small_after (c.peer_settings) s b (t.0)))
        (t.1) r in
    (
      rw (← same) final,
      rw (← queue) acked,
      Shifts-trans c stored c' (c.peer_settings.initial_window_size)
          (size_after (c1.peer_settings) s) (c'.peer_settings.initial_window_size) (rw same shifts)
          rest,
    )

-- Where the peer's settings so far and all of the frame are within the bound of a window size, and the
-- frame of settings is handled, they are applied in order; the octets of one ACK are queued and
-- nothing else, or nothing at all where a GOAWAY frame is queued already; and every stream is still
-- there, with only its window changed: by as much as the initial window size changed.
pub process_settings_req-Applied :
    (c c' : Conn) (f : SettingsFrame)
    → c.peer_settings.initial_window_size ≤ max_window_size
    → NoneTooLarge (f.settings)
    → process_settings_req c f ≡ ok c'
    → Applied c c' (f.settings)
unfolding process_settings_req
process_settings_req-Applied c c' f b t e =
    let (_, _, r) = bind-ok (assert (not (Settings.is_ack f))) _ c' e in
    apply_settings-Applied c c' (f.settings) b t r
