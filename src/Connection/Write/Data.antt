-- ===== src/Connection/Write/Data.antt =====
-- The frames of data that are queued.
use rust_http.Prelude.{
  ℕ, zero, suc, ◌-◌, ◌≤◌, ◌<◌, ◌≡◌, refl, arith, List, [], ◌∷◌, ◌++◌, All, length, take, drop, inl,
  inr, ◌&&◌, Bool, true, false, Bool-cases, append_assoc, append-nil, length-take, length-drop,
  take-append-drop, take_all, drop_all,
}
use rust_http.Prelude.Outcome.{ok}
use rust_http.Frame.Data as DataFrames
use rust_http.Frame.HeadersMulti.{Run}
use rust_http.Frame.HeadersMulti.Split.{joined}
use rust_http.Codec.QueuedWrite.{QueuedWrite, queue_not_goaway}
use rust_http.Connection.{Conn}
use rust_http.Connection.Write.{
  data_frame, queue_data, is_last, write_pieces, queue_pieces, write_part_data,
}

-- The octets of one frame.
abbrev pub frame_octets : ℕ → List ℕ → Bool → List ℕ
frame_octets stream_id piece end_stream =
    DataFrames.serialize_into (data_frame stream_id piece end_stream) []

-- Frames of the pieces, END_STREAM on the last one only.
abbrev pub frames_octets : ℕ → Bool → List (List ℕ) → List ℕ
frames_octets stream_id end_stream [] = []
frames_octets stream_id end_stream (piece ∷ []) = frame_octets stream_id piece end_stream
frames_octets stream_id end_stream (piece ∷ next ∷ pieces) =
    frame_octets stream_id piece false ++ frames_octets stream_id end_stream (next ∷ pieces)

-- A frame is appended to what is queued.
serialize_append :
    (f : DataFrames.DataFrame) (b : List ℕ)
    → DataFrames.serialize_into f b ≡ b ++ DataFrames.serialize_into f []
unfolding DataFrames.serialize_into
serialize_append f b = elim (Bool-cases (DataFrames.is_padded f)) [
  | inl p ↦ simp (p, append_assoc)
  | inr p ↦ simp (p, append_assoc)
]

abbrev open_queue : List ℕ → QueuedWrite
open_queue buf = record { buf = buf; goaway_queued = false }

queue_data-open :
    (buf : List ℕ) (stream_id : ℕ) (piece : List ℕ) (end_stream : Bool)
    → queue_data (open_queue buf) stream_id piece end_stream
      ≡ open_queue (buf ++ frame_octets stream_id piece end_stream)
unfolding queue_not_goaway
queue_data-open buf stream_id piece end_stream =
    rw (serialize_append (data_frame stream_id piece end_stream) buf) refl

abbrev pub is_nonempty {ℓ} : {A : Type ℓ} → List A → Bool
is_nonempty [] = false
is_nonempty (x ∷ xs) = true

-- Whether there is a frame to queue: there is data, or the stream ends.
abbrev pub is_sent : Bool → List ℕ → Bool
is_sent true octets = true
is_sent false octets = is_nonempty octets

-- The queue after the frames of some pieces, which joined are the octets and are within the limit;
-- `sent` says whether there are any.
record IsSplit (max stream_id : ℕ) (end_stream : Bool) (buf octets : List ℕ) (sent : Bool)
    (r : Run QueuedWrite) : Type 0 where
  pieces : List (List ℕ)
  joined_eq : joined pieces ≡ octets
  within : All (λ p. length p ≤ max) pieces
  counted : is_nonempty pieces ≡ sent
  result : r ≡ ok (open_queue (buf ++ frames_octets stream_id end_stream pieces))

more_frames :
    (stream_id : ℕ) (end_stream : Bool) (piece : List ℕ) (pieces : List (List ℕ))
    → 1 ≤ length (joined pieces)
    → frames_octets stream_id end_stream (piece ∷ pieces)
      ≡ frame_octets stream_id piece false ++ frames_octets stream_id end_stream pieces
more_frames stream_id end_stream piece [] h = absurd (omega arith)
more_frames stream_id end_stream piece (next ∷ pieces) h = refl

last_fits : (max : ℕ) (octets : List ℕ) → is_last max octets ≡ true → length octets ≤ max
unfolding is_last
last_fits max octets h = ground (arith, h)

not_last_fits : (max : ℕ) (octets : List ℕ) → is_last max octets ≡ false → max < length octets
unfolding is_last
not_last_fits max octets h = ground (arith, h)

step :
    (fuel max stream_id : ℕ) (end_stream : Bool) (q : QueuedWrite) (x : ℕ) (octets : List ℕ)
    → write_pieces (suc fuel) max stream_id end_stream q (x ∷ octets)
      ≡ write_pieces fuel max stream_id end_stream
          (queue_data q stream_id (take max (x ∷ octets)) (is_last max (x ∷ octets) && end_stream))
          (drop max (x ∷ octets))
unfolding write_pieces
step fuel max stream_id end_stream q x octets = refl

no_step :
    (fuel max stream_id : ℕ) (end_stream : Bool) (q : QueuedWrite)
    → write_pieces fuel max stream_id end_stream q [] ≡ ok q
unfolding write_pieces
no_step zero max stream_id end_stream q = refl
no_step (suc fuel) max stream_id end_stream q = refl

write_pieces-IsSplit :
    (fuel max stream_id : ℕ) (end_stream : Bool) (buf octets : List ℕ)
    → 1 ≤ max
    → length octets ≤ fuel
    → IsSplit max stream_id end_stream buf octets
        (is_nonempty octets)
        (write_pieces fuel max stream_id end_stream (open_queue buf) octets)
write_pieces-IsSplit fuel max stream_id end_stream buf [] m h = record {
  pieces = [];
  joined_eq = refl;
  within = tt;
  counted = refl;
  result = rw (no_step fuel max stream_id end_stream (open_queue buf), append-nil buf) refl;
}
write_pieces-IsSplit zero max stream_id end_stream buf (x ∷ octets) m h = absurd (omega arith)
write_pieces-IsSplit (suc fuel) max stream_id end_stream buf (x ∷ octets) m h =
    let all : List ℕ = x ∷ octets in
    elim (Bool-cases (is_last max all)) [
      | inl fits ↦
          let small : length all ≤ max = last_fits max all fits in
          record {
            pieces = all ∷ [];
            joined_eq = append-nil all;
            within = (small, tt);
            counted = refl;
            result =
                rw
                  (
                    step fuel max stream_id end_stream (open_queue buf) x octets,
                    fits,
                    drop_all max all small,
                    take_all max all small,
                    no_step fuel max stream_id end_stream
                        (queue_data (open_queue buf) stream_id all end_stream),
                    queue_data-open buf stream_id all end_stream,
                  )
                  refl;
          }
      | inr larger ↦
          let big : max < length all = not_last_fits max all larger in
          let left : length (drop max all) ≡ length all - max = length-drop max all in
          let now : List ℕ = take max all in
          let w =
            write_pieces-IsSplit fuel max stream_id end_stream
              (buf ++ frame_octets stream_id now false) (drop max all) m (omega (arith, left)) in
          record {
            pieces = now ∷ w.pieces;
            joined_eq = rw (w.joined_eq) (take-append-drop max all);
            within = (omega (arith, length-take max all (omega arith)), w.within);
            counted = refl;
            result =
                rw
                  (
                    step fuel max stream_id end_stream (open_queue buf) x octets,
                    larger,
                    queue_data-open buf stream_id now false,
                    w.result,
                    more_frames stream_id end_stream now (w.pieces)
                        (rw (w.joined_eq) (omega (arith, left))),
                    append_assoc buf,
                  )
                  refl;
          }
    ]

queue_pieces-IsSplit :
    (max stream_id : ℕ) (end_stream : Bool) (buf octets : List ℕ)
    → 1 ≤ max
    → IsSplit max stream_id end_stream buf octets
        (is_sent end_stream octets)
        (queue_pieces max stream_id end_stream (open_queue buf) octets)
unfolding queue_pieces
queue_pieces-IsSplit max stream_id true buf [] m = record {
  pieces = [] ∷ [];
  joined_eq = refl;
  within = (omega arith, tt);
  counted = refl;
  result = rw (queue_data-open buf stream_id [] true) refl;
}
queue_pieces-IsSplit max stream_id true buf (x ∷ octets) m =
    write_pieces-IsSplit (length (x ∷ octets)) max stream_id true buf (x ∷ octets) m (omega arith)
queue_pieces-IsSplit max stream_id false buf octets m =
    write_pieces-IsSplit (length octets) max stream_id false buf octets m (omega arith)

-- Where no GOAWAY frame is queued and the peer's limit on frames is not 0, data is queued without a
-- panic, and the loop ends: as DATA frames behind what is queued, whose bodies joined are the data and
-- each are within the limit, with END_STREAM on the last one only, and only where the stream ends. There is a
-- frame exactly where there is data or the stream ends.
pub write_part_data-split :
    (c : Conn) (stream_id : ℕ) (octets : List ℕ) (end_stream : Bool)
    → c.queued_write.goaway_queued ≡ false
    → 1 ≤ c.peer_settings.max_frame_size
    → (pieces : List (List ℕ)) × (joined pieces ≡ octets)
      × All (λ p. length p ≤ c.peer_settings.max_frame_size) pieces
      × (is_nonempty pieces ≡ is_sent end_stream octets)
      × (write_part_data c stream_id octets end_stream
          ≡ ok (record c {
            queued_write = record {
              buf = c.queued_write.buf ++ frames_octets stream_id end_stream pieces;
              goaway_queued = false;
            };
          }))
unfolding write_part_data
write_part_data-split c stream_id octets end_stream g m =
    let w =
      queue_pieces-IsSplit (c.peer_settings.max_frame_size) stream_id end_stream
        (c.queued_write.buf) octets m in
    let q : c.queued_write ≡ open_queue (c.queued_write.buf) = rw (← g) refl in
    (w.pieces, w.joined_eq, w.within, w.counted, rw (q, w.result) refl)
