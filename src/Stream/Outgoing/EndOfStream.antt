-- ===== src/Stream/Outgoing/EndOfStream.antt =====
-- The flag that ends a stream.
use rust_http.Prelude.{
  ℕ, ◌≡◌, refl, arith, inl, inr, List, [], ◌∷◌, Option, none, some, length, ltb, ◌%◌, ◌^◌,
  if◌then◌else◌, Bool, true, false, Option-cases,
}
use rust_http.Prelude.Int.{ℤ}
use rust_http.Frame.ErrorCode.{ErrorCode}
use rust_http.Window.{try_decrease_to_non_negative, as_i32}
use rust_http.Stream.State.{is_closed_local, close_local, close-closed}
use rust_http.Stream.Queue.{DataOrHeaders, headers, data_part, StreamQueue, pop_front, end_of}
use rust_http.Stream.Outgoing.{
  HttpStreamCommand, headers_command, data_command, rst, HttpStreamCommon, Popped, sent,
  is_no_error, blocked, end_command, pop_end, send_piece, send_data, send_popped, pop_next,
  pop_outg_impl,
}

module _ {H : Type 0} where
  -- Whether a command ends the stream: the flag, or a reset.
  abbrev pub ends_stream : HttpStreamCommand H → Bool
  ends_stream (headers_command h last) = last
  ends_stream (data_command d last) = last
  ends_stream (rst e) = true

  -- What a step that ends the stream leaves.
  abbrev pub Ended : HttpStreamCommon H → Type 0
  Ended s = (s.outgoing.queue ≡ []) × (is_closed_local (s.state) ≡ true)

  -- Of any result: a command that ends the stream leaves it ended.
  abbrev pub EndsProperly : Option (Popped H) → Type 0
  EndsProperly none = Unit {0}
  EndsProperly (some (s, conn, none)) = Unit {0}
  EndsProperly (some (s, conn, some c)) = ends_stream c ≡ true → Ended s

  sent-Ended :
      (s : HttpStreamCommon H) (w : ℤ) (q : List (DataOrHeaders H)) (e : Option ErrorCode)
      (size : ℕ)
      → is_no_error (end_of q e) ≡ true
      → Ended (sent s w (record { queue = q; end = e; size = size }))
  sent-Ended s w [] e size h = (refl, rw h ((close-closed (s.state)).0))
  sent-Ended s w (x ∷ q) e size h = absurd (ground (arith, h))

  send_piece-EndsProperly :
      (s : HttpStreamCommon H) (conn : ℤ) (piece : List ℕ) (q : StreamQueue H)
      → EndsProperly (send_piece s conn piece q)
  unfolding send_piece
  send_piece-EndsProperly s conn piece q =
      elim (Option-cases
        (try_decrease_to_non_negative (s.out_window_size) (as_i32 (length piece % 2 ^ 32)))) [
          | inl e ↦ rw (send_piece, e) tt
          | inr (w, e) ↦
              elim (Option-cases
                (try_decrease_to_non_negative conn (as_i32 (length piece % 2 ^ 32)))) [
                  | inl f ↦ rw (send_piece, e, f) tt
                  | inr (c, f) ↦ rw (send_piece, e, f) (sent-Ended s w (q.queue) (q.end) (q.size))
                ]
        ]

  if-EndsProperly :
      (b : Bool) (x y : Option (Popped H))
      → EndsProperly x
      → EndsProperly y
      → EndsProperly (if b then x else y)
  if-EndsProperly true x y h k = h
  if-EndsProperly false x y h k = k

  send_popped-EndsProperly :
      (s : HttpStreamCommon H) (conn : ℤ) (o : Option (Option (DataOrHeaders H × StreamQueue H)))
      → EndsProperly (send_popped s conn o)
  unfolding send_data
  send_popped-EndsProperly s conn none = tt
  send_popped-EndsProperly s conn (some none) = tt
  send_popped-EndsProperly s conn (some (some (headers h, q))) =
      sent-Ended s (s.out_window_size) (q.queue) (q.end) (q.size)
  send_popped-EndsProperly s conn (some (some (data_part d, q))) =
      if-EndsProperly (ltb _ (length d)) _ _ (send_piece-EndsProperly s conn _ _)
        (send_piece-EndsProperly s conn d q)

  pop_end-EndsProperly :
      (s : HttpStreamCommon H) (conn : ℤ) (e : Option ErrorCode)
      → s.outgoing.queue ≡ []
      → EndsProperly (pop_end s conn e)
  unfolding pop_end
  pop_end-EndsProperly s conn none h = tt
  pop_end-EndsProperly s conn (some e) h =
      if-EndsProperly (is_closed_local (s.state)) _ _ tt (ended e)
    where
      ended :
          (e : ErrorCode)
          → ends_stream (end_command e) ≡ true
          → Ended (record {
            state = close_local (s.state);
            out_window_size = s.out_window_size;
            outgoing = s.outgoing;
          })
      ended e t = (h, (close-closed (s.state)).0)

  next-EndsProperly :
      (s : HttpStreamCommon H) (conn : ℤ) (q : List (DataOrHeaders H))
      → s.outgoing.queue ≡ q
      → EndsProperly (pop_next s conn q)
  unfolding pop_next
  next-EndsProperly s conn [] h = pop_end-EndsProperly s conn (s.outgoing.end) h
  next-EndsProperly s conn (headers x ∷ rest) h =
      send_popped-EndsProperly s conn (pop_front (s.outgoing))
  next-EndsProperly s conn (data_part d ∷ rest) h =
      if-EndsProperly (blocked (s.out_window_size) conn) _ _ tt
        (send_popped-EndsProperly s conn (pop_front (s.outgoing)))

  -- From any stream, a step whose command ends the stream, by its flag or as a reset, leaves an empty
  -- queue and a stream that is closed locally.
  pub pop_outg_impl-EndsProperly :
      (s : HttpStreamCommon H) (conn : ℤ) → EndsProperly (pop_outg_impl s conn)
  unfolding pop_outg_impl
  pop_outg_impl-EndsProperly s conn = next-EndsProperly s conn (s.outgoing.queue) refl
