-- ===== src/Stream/Outgoing/Assertions.antt =====
-- The assertions of `pop_outg`.
use rust_http.Prelude.{
  ℕ, ◌-◌, ◌≤◌, ◌≡◌, ◌≢◌, ◌↔◌, refl, arith, inl, inr, List, [], ◌∷◌, Option, none, some, length, ltb,
  ◌==◌, ◌||◌, if◌then◌else◌, Bool, true, false, Bool-cases, length-append,
}
use rust_http.Prelude.Int.{ℤ, pos, ltb_ℤ, ◌≤ℤ◌}
use rust_http.Frame.ErrorCode.{ErrorCode}
use rust_http.Window.{max_window_size, eq_ℤ}
use rust_http.Stream.State.{StreamState, is_closed_local}
use rust_http.Stream.Queue.{DataOrHeaders, headers, data_part, StreamQueue, pop_front}
use rust_http.Stream.Outgoing.{
  HttpStreamCommon, Popped, writable_front, is_writable, blocked, pop_end, send_piece, send_data,
  send_popped, pop_next, pop_outg_impl, check_popped, pop_outg,
}
use rust_http.Stream.Outgoing.Delivery.{queued, IsSized, stream}
use rust_http.Stream.Outgoing.Pop.{queue_of, pop_front-cons, data-Delivers}

-- Two statements that do not hold.
neither_holds : {A B : Type 0} → ¬ A → ¬ B → A ↔ B
neither_holds a b = (λ x. absurd (a x), λ y. absurd (b y))

neither : {A : Type 0} (b : Bool) (x y z : A) → x ≢ z → y ≢ z → (if b then x else y) ≢ z
neither true x y z h k = h
neither false x y z h k = k

module _ {H : Type 0} where
  -- Where the data at the front is empty, the stream's window is, and the connection's is not.
  abbrev pub Stuck : HttpStreamCommon H → ℤ → Type 0
  Stuck s conn =
      (rest : List (DataOrHeaders H)) × (s.outgoing.queue ≡ data_part [] ∷ rest)
      × (s.out_window_size ≤ℤ pos 0)
      × (pos 1 ≤ℤ conn)

  -- Sent data is a command.
  send_piece-command :
      (s s' : HttpStreamCommon H) (conn conn' : ℤ) (piece : List ℕ) (q : StreamQueue H)
      → send_piece s conn piece q ≢ some (s', conn', none)
  unfolding send_piece
  send_piece-command s s' conn conn' piece q = λ e. ground (arith, e)

  send_data-command :
      (s s' : HttpStreamCommon H) (conn conn' : ℤ) (d : List ℕ) (q : StreamQueue H)
      → send_data s conn d q ≢ some (s', conn', none)
  unfolding send_data
  send_data-command s s' conn conn' d q =
      neither (ltb _ (length d)) _ _ (some (s', conn', none))
        (send_piece-command s s' conn conn' _ _) (send_piece-command s s' conn conn' _ _)

  -- A command from a writable stream passes.
  check-some :
      (conn : ℤ) (o : Option (Popped H))
      → o ≢ none
      → ((s : HttpStreamCommon H) (c : ℤ) → o ≢ some (s, c, none))
      → check_popped true conn o ≢ none
  unfolding check_popped
  check-some conn none n k = λ _. n refl
  check-some conn (some (s, c, none)) n k = λ _. k s c refl
  check-some conn (some (s, c, some command)) n k = λ e. ground (arith, e)

  blocked-check :
      (writable : Bool) (conn : ℤ) (s : HttpStreamCommon H)
      → pos 0 ≤ℤ conn
      → (check_popped writable conn (some (s, conn, none)) ≡ none)
        ↔ ((writable ≡ true) × (pos 1 ≤ℤ conn))
  unfolding check_popped eq_ℤ
  blocked-check writable conn s h = ground arith

  end-check :
      (st : StreamState) (w conn : ℤ) (e : Option ErrorCode) (s : HttpStreamCommon H)
      → s.state ≡ st
      → check_popped (writable_front {H = H} [] e st w) conn (pop_end s conn e) ≢ none
  unfolding check_popped writable_front pop_end
  end-check st w conn none s h = λ q. ground (arith, q)
  end-check st w conn (some e) s h = elim (Bool-cases (is_closed_local st)) [
    | inl c ↦ rw (h, c) (λ q. ground (arith, q))
    | inr c ↦ rw (h, c) (λ q. ground (arith, q))
  ]

  blocked-Stuck :
      (st : StreamState) (w conn : ℤ) (d : List ℕ) (rest : List (DataOrHeaders H))
      (e : Option ErrorCode) (size : ℕ)
      → blocked w conn ≡ true
      → ((((length d == 0) || ltb_ℤ (pos 0) w) ≡ true) × (pos 1 ≤ℤ conn))
        ↔ Stuck (stream st w (queue_of (data_part d ∷ rest) e size)) conn
  unfolding blocked
  blocked-Stuck st w conn [] rest e size b =
      (λ (t, c). (rest, refl, ground (arith, b, c), c), λ (rest', q, l, c). (refl, c))
  blocked-Stuck st w conn (x ∷ xs) rest e size b =
      (λ (t, c). absurd (ground (arith, t, b, c)), λ (rest', q, l, c). absurd (ground (arith, q)))

  open-command :
      (st : StreamState) (w conn : ℤ) (d : List ℕ) (rest : List (DataOrHeaders H))
      (e : Option ErrorCode) (size : ℕ)
      → length d ≤ size
      → (s' : HttpStreamCommon H) (c : ℤ)
      → send_popped
          (stream st w (queue_of (data_part d ∷ rest) e size))
          conn
          (pop_front (queue_of (data_part d ∷ rest) e size))
        ≢ some (s', c, none)
  open-command st w conn d rest e size h s' c = rw (pop_front-cons (data_part d) rest e size h) (
      send_data-command (stream st w (queue_of (data_part d ∷ rest) e size)) s' conn c d
        (queue_of rest e (size - length d)))

  front-panic :
      (st : StreamState) (w conn : ℤ) (q : List (DataOrHeaders H)) (e : Option ErrorCode) (size : ℕ)
      → w ≤ℤ pos max_window_size
      → conn ≤ℤ pos max_window_size
      → pos 0 ≤ℤ conn
      → size ≡ length (queued q)
      → (check_popped
            (writable_front q e st w)
            conn
            (pop_next (stream st w (queue_of q e size)) conn q)
          ≡ none)
        ↔ Stuck (stream st w (queue_of q e size)) conn
  unfolding pop_next writable_front queued check_popped
  front-panic st w conn [] e size hw hc h z =
      neither_holds (end-check st w conn e (stream st w (queue_of [] e size)) refl)
        (λ (rest, q, _, _). ground (arith, q))
  front-panic st w conn (headers h ∷ rest) e size hw hc nonneg z =
      neither_holds
        (rw (pop_front-cons (headers h) rest e size (omega arith)) (λ q. ground (arith, q)))
        (λ (rest, q, _, _). ground (arith, q))
  front-panic st w conn (data_part d ∷ rest) e size hw hc nonneg z =
      elim (Bool-cases (blocked w conn)) [
        | inl b ↦
            let i =
              blocked-check ((length d == 0) || ltb_ℤ (pos 0) w) conn
                (stream st w (queue_of (data_part d ∷ rest) e size)) nonneg in
            let j = blocked-Stuck st w conn d rest e size b in
            rw (pop_next, b) (λ p. j.0 (i.0 p), λ p. i.1 (j.1 p))
        | inr b ↦
            let (r, ends, _) = data-Delivers st w conn d rest e size hw hc z b in
            let above : ((length d == 0) || ltb_ℤ (pos 0) w) ≡ true =
              unfold blocked in ground (arith, b) in
            rw (pop_next, b, above)
              (neither_holds
                (check-some conn _ (λ n. ground (arith, n, ends))
                  (open-command st w conn d rest e size
                    (omega (arith, z, length-append d (queued rest)))))
                (λ (rest', q, l, c). unfold blocked in ground (arith, b, l)))
      ]

  -- A step of a build with assertions panics if and only if the data at the front of the queue is
  -- empty, the stream's window is not above 0, and the connection's is: then `is_writable` holds, and
  -- `pop_outg_impl` gives nothing. The windows are within the bound, the connection's not below 0.
  pub pop_outg_panic_iff :
      (s : HttpStreamCommon H) (conn : ℤ)
      → s.out_window_size ≤ℤ pos max_window_size
      → conn ≤ℤ pos max_window_size
      → pos 0 ≤ℤ conn
      → IsSized (s.outgoing)
      → (pop_outg s conn ≡ none) ↔ Stuck s conn
  unfolding pop_outg pop_outg_impl is_writable
  pop_outg_panic_iff s conn hw hc h z =
      front-panic (s.state) (s.out_window_size) conn (s.outgoing.queue) (s.outgoing.end)
        (s.outgoing.size) hw hc h z
