-- ===== src/Stream/Outgoing/Pop.antt =====
-- What `pop_outg` takes out of a stream.
use rust_http.Prelude.{
  ℕ, ◌-◌, ◌≤◌, ◌≡◌, refl, arith, inl, inr, List, [], ◌∷◌, ◌++◌, Option, none, some, length, false,
  Bool-cases, length-append, le→ltb_false,
}
use rust_http.Prelude.Int.{ℤ, pos, negsuc, ◌≤ℤ◌}
use rust_http.Frame.ErrorCode.{ErrorCode}
use rust_http.Window.{max_window_size}
use rust_http.Stream.State.{StreamState}
use rust_http.Stream.Queue.{
  DataOrHeaders, headers, data_part, data_size, StreamQueue, pop_front, end_if_empty,
}
use rust_http.Stream.Outgoing.{
  headers_command, HttpStreamCommon, sent, is_no_error, blocked, send_popped, pop_next,
  pop_outg_impl,
}
use rust_http.Stream.Outgoing.Delivery.{
  queued, octets_of, IsSized, StepDelivers, Delivers-none, pop_end-Delivers, stream,
  send_data-Delivers, no_octets,
}

module _ {H : Type 0} where
  abbrev pub queue_of : List (DataOrHeaders H) → Option ErrorCode → ℕ → StreamQueue H
  queue_of q e size = record { queue = q; end = e; size = size }

  pub pop_front-cons :
      (part : DataOrHeaders H) (rest : List (DataOrHeaders H)) (e : Option ErrorCode) (size : ℕ)
      → data_size part ≤ size
      → pop_front (queue_of (part ∷ rest) e size)
        ≡ some (some (part, queue_of rest e (size - data_size part)))
  unfolding pop_front
  pop_front-cons part rest e size h = rw (pop_front, le→ltb_false size (data_size part) h) refl

  -- The stream after its headers were sent.
  abbrev headers_sent :
      StreamState → ℤ → List (DataOrHeaders H) → Option ErrorCode → ℕ → H → HttpStreamCommon H
  headers_sent st w rest e size h =
      sent (stream st w (queue_of (headers h ∷ rest) e size)) w (queue_of rest e (size - 0))

  headers-Delivers :
      (st : StreamState) (w conn : ℤ) (h : H) (rest : List (DataOrHeaders H)) (e : Option ErrorCode)
      (size : ℕ)
      → size ≡ length (queued rest)
      → StepDelivers (stream st w (queue_of (headers h ∷ rest) e size)) conn (
          send_popped
            (stream st w (queue_of (headers h ∷ rest) e size))
            conn
            (pop_front (queue_of (headers h ∷ rest) e size)))
  unfolding octets_of queued
  headers-Delivers st w conn h rest e size z =
      rw (pop_front-cons (headers h) rest e size (omega arith)) (
        (
          headers_sent st w rest e size h,
          conn,
          some (headers_command h (is_no_error (end_if_empty (queue_of rest e (size - 0))))),
        ),
        refl,
        Delivers-none (stream st w (queue_of (headers h ∷ rest) e size))
            (headers_sent st w rest e size h) conn
            (some (headers_command h (is_no_error (end_if_empty (queue_of rest e (size - 0))))))
            refl refl refl (omega (arith, z)),
      )

  pub data-Delivers :
      (st : StreamState) (w conn : ℤ) (d : List ℕ) (rest : List (DataOrHeaders H))
      (e : Option ErrorCode) (size : ℕ)
      → w ≤ℤ pos max_window_size
      → conn ≤ℤ pos max_window_size
      → size ≡ length (d ++ queued rest)
      → blocked w conn ≡ false
      → StepDelivers (stream st w (queue_of (data_part d ∷ rest) e size)) conn (
          send_popped
            (stream st w (queue_of (data_part d ∷ rest) e size))
            conn
            (pop_front (queue_of (data_part d ∷ rest) e size)))
  unfolding queued blocked
  data-Delivers st (pos w) (pos c) d rest e size hw hc z b =
      let l = length-append d (queued rest) in
      rw (pop_front-cons (data_part d) rest e size (omega (arith, l, z))) (
        send_data-Delivers st w c d (queue_of (data_part d ∷ rest) e size)
          (queue_of rest e (size - length d)) (omega (arith, hw)) (omega (arith, hc)) refl
          (omega (arith, l, z)))
  data-Delivers st (negsuc w) conn d rest e size hw hc z b = absurd (ground (arith, b))
  data-Delivers st (pos w) (negsuc c) d rest e size hw hc z b = absurd (ground (arith, b))

  next-Delivers :
      (st : StreamState) (w conn : ℤ) (q : List (DataOrHeaders H)) (e : Option ErrorCode) (size : ℕ)
      → w ≤ℤ pos max_window_size
      → conn ≤ℤ pos max_window_size
      → size ≡ length (queued q)
      → StepDelivers
          (stream st w (queue_of q e size))
          conn
          (pop_next (stream st w (queue_of q e size)) conn q)
  unfolding pop_next queued
  next-Delivers st w conn [] e size hw hc z =
      pop_end-Delivers (stream st w (queue_of [] e size)) conn e z
  next-Delivers st w conn (headers h ∷ rest) e size hw hc z =
      headers-Delivers st w conn h rest e size z
  next-Delivers st w conn (data_part d ∷ rest) e size hw hc z = elim (Bool-cases (blocked w conn)) [
    | inl b ↦ (
      (stream st w (queue_of (data_part d ∷ rest) e size), conn, none),
      rw (pop_next, b) refl,
      Delivers-none (stream st w (queue_of (data_part d ∷ rest) e size))
          (stream st w (queue_of (data_part d ∷ rest) e size)) conn none (no_octets H) refl refl z,
    )
    | inr b ↦ rw (pop_next, b) (data-Delivers st w conn d rest e size hw hc z b)
  ]

  -- For windows within the protocol's bound and a queue whose stored size is right, a step always
  -- ends without a panic. It sends a part of the data at the front of the queue, in order, and what
  -- it sends together with what stays is the data that was queued: none is lost. Both windows shrink
  -- by the length of what was sent, and neither goes below 0 by it.
  pub pop_outg_impl-Delivers :
      (s : HttpStreamCommon H) (conn : ℤ)
      → s.out_window_size ≤ℤ pos max_window_size
      → conn ≤ℤ pos max_window_size
      → IsSized (s.outgoing)
      → StepDelivers s conn (pop_outg_impl s conn)
  unfolding pop_outg_impl
  pop_outg_impl-Delivers s conn hw hc z =
      next-Delivers (s.state) (s.out_window_size) conn (s.outgoing.queue) (s.outgoing.end)
        (s.outgoing.size) hw hc z
