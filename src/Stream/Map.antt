-- ===== src/Stream/Map.antt =====
-- `StreamMap` and `HttpStreamRef` of httpbis/src/common/stream_map.rs. The hash map is a list of
-- entries; the set `writable_streams` is a list, in which `insert` puts what is not in it yet. A
-- reference to a stream is the map, with the key and the value of the entry as arguments of each
-- operation, which gives the map afterwards. `none` is a panic where a comment says so. The windows
-- shared with the tasks of senders, and the channel to the receiver of a message, are not kept.
pub mod Entries
pub mod Synced
pub mod Reach
pub mod Goaway
use rust_http.Prelude.{
  ℕ, ◌≡◌, List, [], ◌∷◌, Option, none, some, ltb, ◌==◌, not, ◌&&◌, ◌||◌, if◌then◌else◌, Bool, true,
  false,
}
use mathlib.Core.Option
use rust_http.Prelude.Int.{ℤ}
use rust_http.Frame.ErrorCode.{ErrorCode}
use rust_http.Window.{try_add, try_increase}
use rust_http.Stream.State
use rust_http.Stream.State.{StreamState, is_closed}
use rust_http.Stream.Role.{ClientOrServer, init_where, is_locally}
use rust_http.Stream.Queue.{DataOrHeaders, StreamQueue}
use rust_http.Stream.Queue
use rust_http.Stream.Outgoing.{HttpStreamCommon, HttpStreamCommand, Popped, is_writable, pop_outg}
use rust_http.Stream.Closed.{has, remove}

pub record StreamMap (H : Type 0) : Type 0 where
  pub map : List (ℕ × HttpStreamCommon H)
  pub writable_streams : List ℕ

-- `HashSetShallowClone::insert` and `remove` of the set.
unfoldable pub mark : List ℕ → ℕ → Bool → List ℕ
mark set id true = if has set id then set else id ∷ set
mark set id false = remove set id

-- `s > id && T::init_where(s) == InitWhere::Locally`
abbrev pub is_local_gt : ClientOrServer → ℕ → ℕ → Bool
is_local_gt me id s = ltb id s && is_locally (init_where me s)

abbrev pub same_bool : Bool → Bool → Bool
same_bool a b = if a then b else not b

-- The map, the stream where it is still there, the window of the connection, and the command.
abbrev pub PoppedFrom : Type 0 → Type 0
PoppedFrom H = (StreamMap H × Option (HttpStreamCommon H)) × ℤ × Option (HttpStreamCommand H)

module _ {H : Type 0} where
  abbrev pub new : StreamMap H
  new = record { map = []; writable_streams = [] }

  unfoldable pub lookup : List (ℕ × HttpStreamCommon H) → ℕ → Option (HttpStreamCommon H)
  lookup [] id = none
  lookup (e ∷ es) id = if e.0 == id then some (e.1) else lookup es id

  -- An entry's value replaced.
  unfoldable pub put :
      List (ℕ × HttpStreamCommon H) → ℕ → HttpStreamCommon H → List (ℕ × HttpStreamCommon H)
  put [] id s = []
  put (e ∷ es) id s = let rest = put es id s in if e.0 == id then (id, s) ∷ rest else e ∷ rest

  unfoldable pub erase : List (ℕ × HttpStreamCommon H) → ℕ → List (ℕ × HttpStreamCommon H)
  erase [] id = []
  erase (e ∷ es) id = let rest = erase es id in if e.0 == id then rest else e ∷ rest

  abbrev pub get_mut : StreamMap H → ℕ → Option (HttpStreamCommon H)
  get_mut m id = lookup (m.map) id

  -- The stream of the entry was changed to `s`: `sync_writable` of the reference.
  abbrev pub sync_writable : StreamMap H → ℕ → HttpStreamCommon H → StreamMap H
  sync_writable m id s = record {
    map = put (m.map) id s;
    writable_streams = mark (m.writable_streams) id (is_writable s);
  }

  unfoldable pub insert_at :
      StreamMap H → ℕ → HttpStreamCommon H → Option (HttpStreamCommon H) → Option (StreamMap H)
  insert_at m id s (some old) = none
  insert_at m id s none =
      some (
        sync_writable (record { map = (id, s) ∷ m.map; writable_streams = m.writable_streams }) id
          s)

  -- `none` is the panic of a stream that exists already.
  unfoldable pub insert : StreamMap H → ℕ → HttpStreamCommon H → Option (StreamMap H)
  insert m id s = insert_at m id s (lookup (m.map) id)

  -- `HttpStreamRef::remove`
  abbrev pub remove_entry : StreamMap H → ℕ → StreamMap H
  remove_entry m id = record {
    map = erase (m.map) id;
    writable_streams = remove (m.writable_streams) id;
  }

  abbrev pub has_stream : Option (HttpStreamCommon H) → Bool
  has_stream none = false
  has_stream (some s) = true

  unfoldable pub remove_stream : StreamMap H → ℕ → StreamMap H
  remove_stream m id = if has_stream (get_mut m id) then remove_entry m id else m

  abbrev pub get_stream_state : StreamMap H → ℕ → Option StreamState
  get_stream_state m id = Option.map (λ s. s.state) (get_mut m id)

  -- `sync_is_writable`: the ids of the streams that are writable.
  unfoldable pub writable_ids : List (ℕ × HttpStreamCommon H) → List ℕ
  writable_ids [] = []
  writable_ids (e ∷ es) =
      let rest = writable_ids es in if is_writable (e.1) then e.0 ∷ rest else rest

  abbrev pub with_window : HttpStreamCommon H → ℤ → HttpStreamCommon H
  with_window s w = record { state = s.state; out_window_size = w; outgoing = s.outgoing }

  -- `none` is the panic of a window that overflows.
  unfoldable pub add_windows :
      List (ℕ × HttpStreamCommon H) → ℤ → Option (List (ℕ × HttpStreamCommon H))
  add_windows [] delta = some []
  add_windows (e ∷ es) delta =
      let rest = add_windows es delta in
      Option.bind (try_add (e.1.out_window_size) delta)
        (λ w. Option.map (λ rest. (e.0, with_window (e.1) w) ∷ rest) rest)

  unfoldable pub add_out_window : StreamMap H → ℤ → Option (StreamMap H)
  add_out_window m delta =
      Option.map (λ es. record { map = es; writable_streams = writable_ids es })
        (add_windows (m.map) delta)

  unfoldable pub split_local :
      ClientOrServer
      → ℕ
      → List (ℕ × HttpStreamCommon H)
      → List (ℕ × HttpStreamCommon H) × List (ℕ × HttpStreamCommon H)
  split_local me id [] = ([], [])
  split_local me id (e ∷ es) =
      let rest = split_local me id es in
      if is_local_gt me id (e.0) then (e ∷ rest.0, rest.1) else (rest.0, e ∷ rest.1)

  -- The streams removed, and the map afterwards: the set of writable streams stays as it was.
  unfoldable pub remove_local_streams_with_id_gt :
      ClientOrServer → StreamMap H → ℕ → List (ℕ × HttpStreamCommon H) × StreamMap H
  remove_local_streams_with_id_gt me m id =
      let split = split_local me id (m.map) in
      (split.0, record { map = split.1; writable_streams = m.writable_streams })

  -- The map, and the stream where it is still there.
  unfoldable pub remove_if_closed :
      StreamMap H → ℕ → HttpStreamCommon H → StreamMap H × Option (HttpStreamCommon H)
  remove_if_closed m id s = if is_closed (s.state) then (remove_entry m id, none) else (m, some s)

  -- The stream after its step is synced, and removed if it is closed.
  unfoldable pub popped_from : StreamMap H → ℕ → Popped H → PoppedFrom H
  popped_from m id r = (remove_if_closed (sync_writable m id (r.0)) id (r.0), r.1, r.2)

  -- `none` is a panic: of `check_state`, or of `pop_outg`.
  unfoldable pub pop_outg_maybe_remove :
      StreamMap H → ℕ → HttpStreamCommon H → ℤ → Option (PoppedFrom H)
  pop_outg_maybe_remove m id s conn =
      if same_bool (is_writable s) (has (m.writable_streams) id)
      then Option.map (popped_from m id) (pop_outg s conn)
      else none

  -- The map, and the size of the data dropped.
  unfoldable pub rst_received_remove : StreamMap H → ℕ → HttpStreamCommon H → StreamMap H × ℕ
  rst_received_remove m id s = (remove_entry m id, s.outgoing.size)

  -- `none` is `Err(())`, which leaves the map as it was.
  unfoldable pub try_increase_window_size :
      StreamMap H → ℕ → HttpStreamCommon H → ℕ → Option (StreamMap H)
  try_increase_window_size m id s increment =
      Option.map (λ w. sync_writable m id (with_window s w))
        (try_increase (s.out_window_size) increment)

  abbrev pub with_outgoing : HttpStreamCommon H → StreamQueue H → HttpStreamCommon H
  with_outgoing s q = record { state = s.state; out_window_size = s.out_window_size; outgoing = q }

  unfoldable pub push_back : StreamMap H → ℕ → HttpStreamCommon H → DataOrHeaders H → StreamMap H
  push_back m id s frame = sync_writable m id (with_outgoing s (Queue.push_back (s.outgoing) frame))

  unfoldable pub push_back_part :
      StreamMap H → ℕ → HttpStreamCommon H → DataOrHeaders H → Bool → StreamMap H
  push_back_part m id s content last =
      sync_writable m id (with_outgoing s (Queue.push_back_part (s.outgoing) content last))

  unfoldable pub close_outgoing : StreamMap H → ℕ → HttpStreamCommon H → ErrorCode → StreamMap H
  close_outgoing m id s error_code =
      sync_writable m id (with_outgoing s (Queue.close (s.outgoing) error_code))

  abbrev pub closed_remote : HttpStreamCommon H → HttpStreamCommon H
  closed_remote s = record {
    state = State.close_remote (s.state);
    out_window_size = s.out_window_size;
    outgoing = s.outgoing;
  }

  -- The set of writable streams changes only where the stream is removed.
  unfoldable pub close_remote : StreamMap H → ℕ → HttpStreamCommon H → StreamMap H
  close_remote m id s =
      (remove_if_closed
        (record { map = put (m.map) id (closed_remote s); writable_streams = m.writable_streams })
        id (closed_remote s)).0
