-- ===== src/Stream/Map/Reach.antt =====
-- The operations of the map as steps, and what holds of every map that they reach.
use rust_http.Prelude.{ℕ, ◌≡◌, refl, arith, sym, some, inl, inr, Bool, Bool-cases}
use mathlib.Core.Option
use rust_http.Prelude.Int.{ℤ}
use rust_http.Frame.ErrorCode.{ErrorCode}
use rust_http.Window.{try_increase}
use rust_http.Stream.Queue.{DataOrHeaders}
use rust_http.Stream.Outgoing.{HttpStreamCommon, is_writable, pop_outg}
use rust_http.Stream.Closed.{has}
use rust_http.Stream.Closed.Invariant.{IsNodup}
use rust_http.Stream.Map.{
  StreamMap, new, lookup, get_mut, sync_writable, with_window, insert, has_stream, remove_stream,
  add_out_window, same_bool, popped_from, pop_outg_maybe_remove, PoppedFrom, rst_received_remove,
  try_increase_window_size, push_back, push_back_part, close_outgoing, close_remote,
}
use rust_http.Stream.Map.Synced.{
  IsValid, writable_at, sync_writable-IsValid, remove_entry-IsValid, insert_at-IsValid,
  add_out_window-IsValid, remove_if_closed-IsValid, close_remote-IsValid,
}

-- One operation that does not panic, at any arguments. `remove_local_streams_with_id_gt` is not one
-- of them: see Stream/Map/Goaway.
pub data Step {H : Type 0} : StreamMap H → StreamMap H → Type 0 where
  inserted :
      (m m' : StreamMap H) (id : ℕ) (s : HttpStreamCommon H) → insert m id s ≡ some m' → Step m m'
  removed : (m : StreamMap H) (id : ℕ) → Step m (remove_stream m id)
  windows_added : (m m' : StreamMap H) (delta : ℤ) → add_out_window m delta ≡ some m' → Step m m'
  popped :
      (m : StreamMap H) (id : ℕ) (s : HttpStreamCommon H) (conn : ℤ) (r : PoppedFrom H)
      → get_mut m id ≡ some s
      → pop_outg_maybe_remove m id s conn ≡ some r
      → Step m (r.0.0)
  reset :
      (m : StreamMap H) (id : ℕ) (s : HttpStreamCommon H) → Step m ((rst_received_remove m id s).0)
  window_increased :
      (m m' : StreamMap H) (id : ℕ) (s : HttpStreamCommon H) (increment : ℕ)
      → get_mut m id ≡ some s
      → try_increase_window_size m id s increment ≡ some m'
      → Step m m'
  pushed :
      (m : StreamMap H) (id : ℕ) (s : HttpStreamCommon H) (frame : DataOrHeaders H)
      → get_mut m id ≡ some s
      → Step m (push_back m id s frame)
  pushed_part :
      (m : StreamMap H) (id : ℕ) (s : HttpStreamCommon H) (content : DataOrHeaders H) (last : Bool)
      → get_mut m id ≡ some s
      → Step m (push_back_part m id s content last)
  outgoing_closed :
      (m : StreamMap H) (id : ℕ) (s : HttpStreamCommon H) (error_code : ErrorCode)
      → get_mut m id ≡ some s
      → Step m (close_outgoing m id s error_code)
  remote_closed :
      (m : StreamMap H) (id : ℕ) (s : HttpStreamCommon H)
      → get_mut m id ≡ some s
      → Step m (close_remote m id s)

pub data Reach {H : Type 0} : StreamMap H → Type 0 where
  start : Reach new
  next : {m m' : StreamMap H} → Reach m → Step m m' → Reach m'

module _ {H : Type 0} where
  remove_stream-IsValid : (m : StreamMap H) (id : ℕ) → IsValid m → IsValid (remove_stream m id)
  unfolding remove_stream
  remove_stream-IsValid m id v = elim (Bool-cases (has_stream (get_mut m id))) [
    | inl e ↦ rw e (remove_entry-IsValid m id v)
    | inr e ↦ rw e v
  ]

  pop_outg_maybe_remove-IsValid :
      (m : StreamMap H) (id : ℕ) (s : HttpStreamCommon H) (conn : ℤ) (r : PoppedFrom H)
      → get_mut m id ≡ some s
      → pop_outg_maybe_remove m id s conn ≡ some r
      → IsValid m
      → IsValid (r.0.0)
  unfolding pop_outg_maybe_remove popped_from
  pop_outg_maybe_remove-IsValid m id s conn r found e v =
      elim (Bool-cases (same_bool (is_writable s) (has (m.writable_streams) id))) [
        | inl good ↦
            let t =
              (Option.map-eq-some_iff (popped_from m id) (pop_outg s conn)).0 (rw good at e) in
            rw (sym (t.2)) (
              remove_if_closed-IsValid (sync_writable m id (t.0.0)) id (t.0.0)
                (sync_writable-IsValid m id s (t.0.0) found v))
        | inr bad ↦ absurd (ground (arith, e, bad))
      ]

  try_increase_window_size-IsValid :
      (m m' : StreamMap H) (id : ℕ) (s : HttpStreamCommon H) (increment : ℕ)
      → get_mut m id ≡ some s
      → try_increase_window_size m id s increment ≡ some m'
      → IsValid m
      → IsValid m'
  unfolding try_increase_window_size
  try_increase_window_size-IsValid m m' id s increment found e v =
      let t =
        (Option.map-eq-some_iff (λ w. sync_writable m id (with_window s w))
            (try_increase (s.out_window_size) increment)).0
          e in
      rw (sym (t.2)) (sync_writable-IsValid m id s (with_window s (t.0)) found v)

  pub Step-IsValid : {m m' : StreamMap H} → Step m m' → IsValid m → IsValid m'
  unfolding insert rst_received_remove push_back push_back_part close_outgoing
  Step-IsValid (inserted m m' id s e) v = insert_at-IsValid m m' id s (lookup (m.map) id) refl e v
  Step-IsValid (removed m id) v = remove_stream-IsValid m id v
  Step-IsValid (windows_added m m' delta e) v = add_out_window-IsValid m m' delta e v
  Step-IsValid (popped m id s conn r found e) v =
      pop_outg_maybe_remove-IsValid m id s conn r found e v
  Step-IsValid (reset m id s) v = remove_entry-IsValid m id v
  Step-IsValid (window_increased m m' id s increment found e) v =
      try_increase_window_size-IsValid m m' id s increment found e v
  Step-IsValid (pushed m id s frame found) v = sync_writable-IsValid m id s _ found v
  Step-IsValid (pushed_part m id s content last found) v = sync_writable-IsValid m id s _ found v
  Step-IsValid (outgoing_closed m id s error_code found) v = sync_writable-IsValid m id s _ found v
  Step-IsValid (remote_closed m id s found) v = close_remote-IsValid m id s found v

  -- In every map that the operations reach from the empty one, by any sequence of them that does not
  -- panic and without `remove_local_streams_with_id_gt`, the set of writable streams holds exactly
  -- the streams that are there and writable, and no key is there twice.
  pub Reach-IsValid : {m : StreamMap H} → Reach m → IsValid m
  Reach-IsValid start = record {
    synced = λ id. unfold has lookup writable_at in refl;
    distinct = unfold IsNodup in tt;
  }
  Reach-IsValid (next r step) = Step-IsValid step (Reach-IsValid r)
