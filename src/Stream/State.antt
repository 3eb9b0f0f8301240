-- ===== src/Stream/State.antt =====
-- `StreamState` of httpbis/src/solicit/session.rs, and the two operations of
-- httpbis/src/common/stream.rs that close a side.
use rust_http.Prelude.{◌≡◌, refl, Bool, true, false}

pub data StreamState : Type 0 where
  idle reserved_local reserved_remote open_state half_closed_remote half_closed_local closed :
      StreamState

abbrev pub is_closed : StreamState → Bool
is_closed closed = true
is_closed _ = false

pub is_closed_local : StreamState → Bool
is_closed_local half_closed_local = true
is_closed_local closed = true
is_closed_local _ = false

pub is_closed_remote : StreamState → Bool
is_closed_remote half_closed_remote = true
is_closed_remote closed = true
is_closed_remote _ = false

pub close_local : StreamState → StreamState
close_local closed = closed
close_local half_closed_remote = closed
close_local _ = half_closed_local

pub close_remote : StreamState → StreamState
close_remote closed = closed
close_remote half_closed_local = closed
close_remote _ = half_closed_remote

-- In every state, closing a side closes that side, and leaves the other as it was: open or closed.
pub close-closed :
    (s : StreamState)
    → (is_closed_local (close_local s) ≡ true)
      × (is_closed_remote (close_local s) ≡ is_closed_remote s)
      × (is_closed_remote (close_remote s) ≡ true)
      × (is_closed_local (close_remote s) ≡ is_closed_local s)
      × (close_local (close_remote s) ≡ closed)
      × (close_remote (close_local s) ≡ closed)
unfolding is_closed_local is_closed_remote close_local close_remote
close-closed idle = (refl, refl, refl, refl, refl, refl)
close-closed reserved_local = (refl, refl, refl, refl, refl, refl)
close-closed reserved_remote = (refl, refl, refl, refl, refl, refl)
close-closed open_state = (refl, refl, refl, refl, refl, refl)
close-closed half_closed_remote = (refl, refl, refl, refl, refl, refl)
close-closed half_closed_local = (refl, refl, refl, refl, refl, refl)
close-closed closed = (refl, refl, refl, refl, refl, refl)
