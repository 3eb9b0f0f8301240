-- ===== src/Stream/Queue.antt =====
-- `StreamQueue` of httpbis/src/common/stream_queue.rs. The headers of a message are of any type `H`:
-- the queue does not look into them.
use rust_http.Prelude.{
  ℕ, ◌+◌, ◌-◌, List, [], ◌∷◌, ◌++◌, Option, none, some, length, ltb, if◌then◌else◌, Bool,
}
use rust_http.Frame.ErrorCode.{ErrorCode, no_error}

pub data DataOrHeaders (H : Type 0) : Type 0 where
  headers : H → DataOrHeaders H
  data_part : List ℕ → DataOrHeaders H

abbrev pub data_size : {H : Type 0} → DataOrHeaders H → ℕ
data_size (headers h) = 0
data_size (data_part d) = length d

pub record StreamQueue (H : Type 0) : Type 0 where
  pub queue : List (DataOrHeaders H)
  pub end : Option ErrorCode
  pub size : ℕ

module _ {H : Type 0} where
  abbrev pub new : StreamQueue H
  new = record { queue = []; end = none; size = 0 }

  abbrev pub push_back : StreamQueue H → DataOrHeaders H → StreamQueue H
  push_back q part = elim (q.end) [
    | some e ↦ q
    | none ↦ record { queue = q.queue ++ part ∷ []; end = q.end; size = q.size + data_size part }
  ]

  abbrev pub push_front : StreamQueue H → DataOrHeaders H → StreamQueue H
  push_front q part = record { queue = part ∷ q.queue; end = q.end; size = q.size + data_size part }

  -- The outer `none` is the panic of a size below 0.
  abbrev pub pop_from :
      List (DataOrHeaders H)
      → Option ErrorCode
      → ℕ
      → Option (Option (DataOrHeaders H × StreamQueue H))
  pop_from [] e size = some none
  pop_from (part ∷ rest) e size =
      if ltb size (data_size part)
      then none
      else some (some (part, record { queue = rest; end = e; size = size - data_size part }))

  unfoldable pub pop_front : StreamQueue H → Option (Option (DataOrHeaders H × StreamQueue H))
  pop_front q = pop_from (q.queue) (q.end) (q.size)

  abbrev pub close : StreamQueue H → ErrorCode → StreamQueue H
  close q error_code = elim (q.end) [
    | some e ↦ q
    | none ↦ record { queue = q.queue; end = some error_code; size = q.size }
  ]

  abbrev pub push_back_part : StreamQueue H → DataOrHeaders H → Bool → StreamQueue H
  push_back_part q content last =
      let pushed = push_back q content in if last then close pushed no_error else pushed

  abbrev pub end_of : List (DataOrHeaders H) → Option ErrorCode → Option ErrorCode
  end_of [] e = e
  end_of (part ∷ rest) e = none

  -- `end()`: only when the queue is empty.
  abbrev pub end_if_empty : StreamQueue H → Option ErrorCode
  end_if_empty q = end_of (q.queue) (q.end)
