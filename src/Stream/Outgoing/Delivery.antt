-- ===== src/Stream/Outgoing/Delivery.antt =====
-- What a step of a stream is to deliver, and that sending data delivers it.
use rust_http.Prelude.{
  ℕ, ◌-◌, ◌%◌, ◌^◌, ◌≤◌, ◌<◌, ◌≡◌, refl, sym, arith, inl, inr, List, [], ◌∷◌, ◌++◌, Option, none,
  some, length, take, drop, ltb, Bool-cases, append_assoc, length-append, length-take,
  take-append-drop, ltb→lt,
}
use rust_http.Prelude.Int.{ℤ, pos, pos_part, ◌≤ℤ◌, ◌+ℤ◌, ◌-ℤ◌}
use rust_http.Frame.ErrorCode.{ErrorCode}
use rust_http.Window.{try_decrease_to_non_negative, as_i32, max_window_size}
use rust_http.Window.Laws.{try_decrease_to_non_negative_iff}
use rust_http.Stream.State.{StreamState, is_closed_local, close_local}
use rust_http.Stream.Queue.{
  DataOrHeaders, headers, data_part, StreamQueue, push_front, end_if_empty,
}
use rust_http.Stream.Outgoing.{
  HttpStreamCommand, data_command, HttpStreamCommon, Popped, sent, is_no_error, end_command,
  pop_end, send_piece, send_data, min_ℤ,
}

abbrev smaller : ℕ → ℕ → ℕ
smaller w c = pos_part (min_ℤ (pos w) (pos c))

try_decrease-pos :
    (a n : ℕ)
    → n ≤ a
    → a ≤ max_window_size
    → try_decrease_to_non_negative (pos a) (pos n) ≡ some (pos (a - n))
try_decrease-pos a n h k =
    let e : pos (a - n) ≡ pos a -ℤ pos n = unfold ◌-ℤ◌ in ground arith in
    (try_decrease_to_non_negative_iff (pos a) (pos n) (pos (a - n))).1 (e, omega arith, omega arith)

plus_zero : (a : ℤ) → a ≡ a +ℤ pos 0
unfolding ◌+ℤ◌
plus_zero a = ground arith

plus_back : (a n : ℕ) → n ≤ a → pos a ≡ pos (a - n) +ℤ pos n
unfolding ◌+ℤ◌
plus_back a n h = ground arith

small_cast : (n : ℕ) → n ≤ max_window_size → as_i32 (n % 2 ^ 32) ≡ pos n
unfolding as_i32
small_cast n h = ground arith

module _ {H : Type 0} where
  -- The octets of data in a queue, and in a command.
  unfoldable pub queued : List (DataOrHeaders H) → List ℕ
  queued [] = []
  queued (headers h ∷ rest) = queued rest
  queued (data_part d ∷ rest) = d ++ queued rest

  unfoldable pub octets_of : Option (HttpStreamCommand H) → List ℕ
  octets_of (some (data_command d last)) = d
  octets_of _ = []

pub no_octets : (H : Type 0) → octets_of {H = H} none ≡ []
unfolding octets_of
no_octets H = refl

octets_of-end : (H : Type 0) (e : ErrorCode) → octets_of (some (end_command {H = H} e)) ≡ []
unfolding octets_of
octets_of-end H e = ground arith

module _ {H : Type 0} where
  -- The stored size is that of the data.
  abbrev pub IsSized : StreamQueue H → Type 0
  IsSized q = q.size ≡ length (queued (q.queue))

  -- A step loses no data and invents none, both windows shrink by what was sent, and the stored size
  -- of the queue stays right. No window goes below 0 by it.
  abbrev Delivers : HttpStreamCommon H → ℤ → Popped H → Type 0
  Delivers s conn (s', conn', command) =
      (octets_of command ++ queued (s'.outgoing.queue) ≡ queued (s.outgoing.queue))
      × (s.out_window_size ≡ s'.out_window_size +ℤ pos (length (octets_of command)))
      × (conn ≡ conn' +ℤ pos (length (octets_of command)))
      × IsSized (s'.outgoing)
      × ((1 ≤ length (octets_of command)) → (pos 0 ≤ℤ s'.out_window_size) × (pos 0 ≤ℤ conn'))

  -- A step that sends no data.
  pub Delivers-none :
      (s s' : HttpStreamCommon H) (conn : ℤ) (command : Option (HttpStreamCommand H))
      → octets_of command ≡ []
      → queued (s'.outgoing.queue) ≡ queued (s.outgoing.queue)
      → s'.out_window_size ≡ s.out_window_size
      → IsSized (s'.outgoing)
      → Delivers s conn (s', conn, command)
  Delivers-none s s' conn command e q w z =
      rw (e, w)
        (q, plus_zero (s.out_window_size), plus_zero conn, z, λ l. absurd (omega (arith, l)))

  -- The outcome of a step: it ends, and delivers.
  abbrev pub StepDelivers : HttpStreamCommon H → ℤ → Option (Popped H) → Type 0
  StepDelivers s conn o = (r : Popped H) × (o ≡ some r) × Delivers s conn r

  abbrev closed_stream : HttpStreamCommon H → HttpStreamCommon H
  closed_stream s = record {
    state = close_local (s.state);
    out_window_size = s.out_window_size;
    outgoing = s.outgoing;
  }

  pub pop_end-Delivers :
      (s : HttpStreamCommon H) (conn : ℤ) (e : Option ErrorCode)
      → IsSized (s.outgoing)
      → StepDelivers s conn (pop_end s conn e)
  unfolding pop_end
  pop_end-Delivers s conn none z =
      ((s, conn, none), refl, Delivers-none s s conn none (no_octets H) refl refl z)
  pop_end-Delivers s conn (some e) z = elim (Bool-cases (is_closed_local (s.state))) [
    | inl c ↦ (
      (s, conn, none),
      rw (pop_end, c) refl,
      Delivers-none s s conn none (no_octets H) refl refl z,
    )
    | inr c ↦ (
      (closed_stream s, conn, some (end_command e)),
      rw (pop_end, c) refl,
      Delivers-none s (closed_stream s) conn (some (end_command e)) (octets_of-end H e) refl refl z,
    )
  ]

  abbrev pub stream : StreamState → ℤ → StreamQueue H → HttpStreamCommon H
  stream state window q = record { state = state; out_window_size = window; outgoing = q }

  send_piece-Delivers :
      (st : StreamState) (w c : ℕ) (piece : List ℕ) (o q : StreamQueue H)
      → w ≤ max_window_size
      → c ≤ max_window_size
      → length piece ≤ w
      → length piece ≤ c
      → piece ++ queued (q.queue) ≡ queued (o.queue)
      → IsSized q
      → StepDelivers
          (stream st (pos w) o)
          (pos c)
          (send_piece (stream st (pos w) o) (pos c) piece q)
  unfolding send_piece octets_of
  send_piece-Delivers st w c piece o q hw hc lw lc same z =
      let n = length piece in
      let cast : as_i32 (length piece % 2 ^ 32) ≡ pos (length piece) =
        small_cast (length piece) (omega arith) in
      (
        (
          sent (stream st (pos w) o) (pos (w - n)) q,
          pos (c - n),
          some (data_command piece (is_no_error (end_if_empty q))),
        ),
        rw (send_piece, cast, try_decrease-pos w n lw hw, cast, try_decrease-pos c n lc hc) refl,
        (same, plus_back w n lw, plus_back c n lc, z, λ _. (omega arith, omega arith)),
      )

  -- Of data the smaller window's worth is sent, and the rest stays at the front.
  pub send_data-Delivers :
      (st : StreamState) (w c : ℕ) (d : List ℕ) (o q : StreamQueue H)
      → w ≤ max_window_size
      → c ≤ max_window_size
      → queued (o.queue) ≡ d ++ queued (q.queue)
      → IsSized q
      → StepDelivers (stream st (pos w) o) (pos c) (send_data (stream st (pos w) o) (pos c) d q)
  unfolding send_data queued
  send_data-Delivers st w c d o q hw hc total z =
      let m = smaller w c in
      let small : (smaller w c ≤ w) × (smaller w c ≤ c) = ground arith in
      elim (Bool-cases (ltb (smaller w c) (length d))) [
        | inl t ↦
            let lt : smaller w c < length d = ltb→lt (smaller w c) (length d) t in
            let l : length (take (smaller w c) d) ≡ smaller w c =
              length-take (smaller w c) d (omega arith) in
            let whole : take (smaller w c) d ++ (drop (smaller w c) d ++ queued (q.queue))
                ≡ queued (o.queue) =
              rw
                (
                  sym (
                      append_assoc (take (smaller w c) d) (drop (smaller w c) d)
                        (queued (q.queue))),
                  take-append-drop (smaller w c) d,
                )
                (sym total) in
            rw (send_data, t)
              (send_piece-Delivers st w c (take (smaller w c) d) o
                (push_front q (data_part (drop (smaller w c) d))) hw hc (omega (arith, l, small.0))
                (omega (arith, l, small.1)) whole
                (omega (arith, z, length-append (drop (smaller w c) d) (queued (q.queue)))))
        | inr t ↦
            rw (send_data, t)
              (send_piece-Delivers st w c d o q hw hc (ground (arith, t, small.0))
                (ground (arith, t, small.1)) (sym total) z)
      ]
