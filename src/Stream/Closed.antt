-- ===== src/Stream/Closed.antt =====
-- `ClosedStreams` of httpbis/src/common/closed_streams.rs: the streams closed last, at most 100, the
-- oldest first. The hash set is a list, in which `insert` puts what is not in it yet. `none` is a
-- panic: of the `unwrap`, or of the assertion.
pub mod Invariant
use rust_http.Prelude.{
  ℕ, ◌+◌, ◌≡◌, List, [], ◌∷◌, ◌++◌, Option, none, some, length, ◌==◌, not, if◌then◌else◌, Bool,
  true, false,
}

pub record ClosedStreams : Type 0 where
  pub set : List ℕ
  pub lru : List ℕ

abbrev max_size : ℕ
max_size = 100

abbrev pub new : ClosedStreams
new = record { set = []; lru = [] }

unfoldable pub has : List ℕ → ℕ → Bool
has [] x = false
has (y ∷ ys) x = if y == x then true else has ys x

abbrev pub contains : ClosedStreams → ℕ → Bool
contains s stream_id = has (s.set) stream_id

-- `HashSet::remove`: the elements without `x`.
unfoldable pub remove : List ℕ → ℕ → List ℕ
remove [] x = []
remove (y ∷ ys) x = let rest = remove ys x in if y == x then rest else y ∷ rest

-- The oldest is popped from the queue `lru`, and removed from the set.
pub evict : List ℕ → List ℕ → ℕ → Option ClosedStreams
evict set [] stream_id = none
evict set (oldest ∷ lru) stream_id =
    if has set oldest
    then some (record { set = remove set oldest; lru = lru ++ stream_id ∷ [] })
    else none

pub add : ClosedStreams → ℕ → Option ClosedStreams
add s stream_id =
    if has (s.set) stream_id
    then some s
    else if length (s.lru) == max_size
    then evict (stream_id ∷ s.set) (s.lru) stream_id
    else some (record { set = stream_id ∷ s.set; lru = s.lru ++ stream_id ∷ [] })
