-- ===== src/Frame/HeadersMulti/Split.antt =====
-- What the frames of a block of headers hold: pieces of the octets, in order, each within the limit.
use rust_http.Prelude.{
  ℕ, zero, suc, ◌+◌, ◌-◌, ◌%◌, ◌^◌, ◌≤◌, ◌<◌, ◌≡◌, refl, sym, ◌∙◌, arith, List, [], ◌∷◌, ◌++◌, All,
  length, take, drop, some, min, le→leb, Bool, true, false, append_assoc, append-nil, length-append,
  length-take, length-drop, take-append, drop-append, take-append-drop,
}
use rust_http.Prelude.Outcome.{ok, ◌>>=◌}
use rust_http.Frame.Flags
use rust_http.Frame.Flags.{Flags}
use rust_http.Frame.Header.{FrameHeader, pack_header}
use rust_http.Frame.Headers.{HeadersFlag, headers_flag, end_headers}
use rust_http.Frame.HeadersMulti.{
  HeadersFrameType, headers, continuation, frame_type, flags_of, EncodeBuf, patch_buf, empty_header,
  open_frame, finish_frame, rem_in_current_frame, next_frame, write_all, Run, HeadersMultiFrame,
  write_frames,
}

patch_buf-append :
    (a b c d : List ℕ)
    → length b ≡ length d
    → patch_buf (a ++ (b ++ c)) (length a) d ≡ some (a ++ (d ++ c))
unfolding patch_buf
patch_buf-append a b c d e =
    let behind : drop (length a + length d) (a ++ (b ++ c)) ≡ c =
      rw (← e, ← length-append a b, ← append_assoc a b c) (drop-append (a ++ b) c) in
    rw
      (
        le→leb (length a + length d) (length (a ++ (b ++ c)))
            (omega (arith, length-append a (b ++ c), length-append b c, e)),
        take-append a (b ++ c),
        behind,
      )
      refl

length-pack_header : (h : FrameHeader) → length (pack_header h) ≡ 9
unfolding pack_header
length-pack_header h = refl

-- A frame with its header, as it is written.
unfoldable pub frame_octets : ℕ → Flags HeadersFlag → HeadersFrameType → Bool → List ℕ → List ℕ
frame_octets stream_id flags t last piece =
    pack_header (record {
      payload_len = length piece;
      frame_type = frame_type t;
      flags = flags_of t flags last;
      stream_id = stream_id;
    })
    ++ piece

-- The frames of a list of pieces, of which the first is given apart.
unfoldable pub frames_octets :
    ℕ → Flags HeadersFlag → HeadersFrameType → List ℕ → List (List ℕ) → List ℕ
frames_octets stream_id flags t piece [] = frame_octets stream_id flags t true piece
frames_octets stream_id flags t piece (next ∷ pieces) =
    frame_octets stream_id flags t false piece
    ++ frames_octets stream_id flags continuation next pieces

abbrev pub joined : List (List ℕ) → List ℕ
joined [] = []
joined (piece ∷ pieces) = piece ++ joined pieces

module _ (stream_id : ℕ) (flags : Flags HeadersFlag) (max : ℕ) where
  -- The buffer with a frame open, behind the octets `front` and with `payload` in it.
  abbrev opened : HeadersFrameType → List ℕ → List ℕ → EncodeBuf
  opened t front payload = record {
    current_frame_type = t;
    current_frame_offset = length front;
    stream_id = stream_id;
    flags = flags;
    builder = front ++ (pack_header empty_header ++ payload);
    max_frame_size = max;
  }

  -- The buffer with the frame finished.
  abbrev finished : HeadersFrameType → List ℕ → List ℕ → Bool → EncodeBuf
  finished t front payload last = record {
    current_frame_type = t;
    current_frame_offset = length front;
    stream_id = stream_id;
    flags = flags;
    builder = front ++ frame_octets stream_id flags t last payload;
    max_frame_size = max;
  }

  length-opened :
      (front payload : List ℕ)
      → length (front ++ (pack_header empty_header ++ payload)) - length front ≡ 9 + length payload
  length-opened front payload = omega (
    arith,
    length-append front (pack_header empty_header ++ payload),
    length-append (pack_header empty_header) payload,
    length-pack_header empty_header,
  )

  rem-opened :
      (t : HeadersFrameType) (front payload : List ℕ)
      → length payload ≤ max
      → rem_in_current_frame (opened t front payload) ≡ ok (max - length payload)
  unfolding rem_in_current_frame
  rem-opened t front payload h = rw (length-opened front payload) (ground (arith, h))

  finish-opened :
      (t : HeadersFrameType) (front payload : List ℕ) (last : Bool)
      → Flags.is_set flags end_headers ≡ false
      → 9 + length payload < 2 ^ 32
      → finish_frame (opened t front payload) last ≡ ok (finished t front payload last)
  unfolding finish_frame frame_octets
  finish-opened t front payload last e small =
      let total : (length (front ++ (pack_header empty_header ++ payload)) - length front) % 2 ^ 32
          ≡ 9 + length payload =
        omega (arith, length-opened front payload) in
      let back : 9 + length payload - 9 ≡ length payload = omega arith in
      let h : FrameHeader = record {
        payload_len = length payload;
        frame_type = frame_type t;
        flags = flags_of t flags last;
        stream_id = stream_id;
      } in
      let same : length (pack_header empty_header) ≡ length (pack_header h) =
        length-pack_header empty_header ∙ sym (length-pack_header h) in
      rw
        (
          total,
          le→leb 9 (9 + length payload) (omega arith),
          e,
          back,
          patch_buf-append front (pack_header empty_header) payload (pack_header h) same,
        )
        refl

  open-finished :
      (t : HeadersFrameType) (front payload : List ℕ) (last : Bool)
      → record (open_frame (finished t front payload last)) { current_frame_type = continuation }
        ≡ opened continuation (front ++ frame_octets stream_id flags t last payload) []
  open-finished t front payload last = rw (append-nil) refl

  append-opened :
      (t : HeadersFrameType) (front payload bytes : List ℕ)
      → record (opened t front payload) {
        builder = (front ++ (pack_header empty_header ++ payload)) ++ bytes;
      }
        ≡ opened t front (payload ++ bytes)
  append-opened t front payload bytes =
      rw
        (
          append_assoc front (pack_header empty_header ++ payload) bytes,
          append_assoc (pack_header empty_header) payload bytes,
        )
        refl

  -- The end of `write_frames`.
  abbrev closing : Run EncodeBuf → Run (List ℕ)
  closing run = run >>= λ b. finish_frame b true >>= λ b. ok (b.builder)

  -- What a run leaves in the buffer once its last frame is finished: pieces of the octets, within the
  -- limit.
  record IsSplit (t : HeadersFrameType) (front octets : List ℕ) (run : Run EncodeBuf) : Type 0 where
    pub piece : List ℕ
    pub pieces : List (List ℕ)
    pub joined_eq : piece ++ joined pieces ≡ octets
    pub within : All (λ p. length p ≤ max) (piece ∷ pieces)
    pub result : closing run ≡ ok (front ++ frames_octets stream_id flags t piece pieces)

  module _ (plain : Flags.is_set flags end_headers ≡ false) (small : max < 2 ^ 24) where
    next_frame-IsSplit :
        (loop : EncodeBuf → List ℕ → Run EncodeBuf) (t : HeadersFrameType)
        (front payload left : List ℕ)
        → length payload ≤ max
        → ((front : List ℕ)
            → 1 ≤ length left
            → IsSplit continuation front left (loop (opened continuation front []) left))
        → IsSplit t front (payload ++ left) (next_frame loop (opened t front payload) left)
    unfolding next_frame frames_octets
    next_frame-IsSplit loop t front payload [] h rec = record {
      piece = payload;
      pieces = [];
      joined_eq = refl;
      within = (h, tt);
      result = rw (finish-opened t front payload true plain (omega arith)) refl;
    }
    next_frame-IsSplit loop t front payload (x ∷ left) h rec =
        let w = rec (front ++ frame_octets stream_id flags t false payload) (omega arith) in
        record {
          piece = payload;
          pieces = w.piece ∷ w.pieces;
          joined_eq = rw (w.joined_eq) refl;
          within = (h, w.within);
          result =
              rw
                (
                  finish-opened t front payload false plain (omega arith),
                  open-finished t front payload false,
                  w.result,
                  append_assoc front,
                )
                refl;
        }

    -- `room` is 1 where there may be room in the open frame: a round then takes an octet.
    write_all-IsSplit :
        (fuel room : ℕ) (t : HeadersFrameType) (front payload bytes : List ℕ)
        → 1 ≤ max
        → room ≤ 1
        → room + length payload ≤ max
        → 2 + length bytes ≤ fuel + room
        → IsSplit t front (payload ++ bytes) (write_all fuel (opened t front payload) bytes)
    unfolding write_all
    write_all-IsSplit zero room t front payload bytes m r h enough = absurd (omega arith)
    write_all-IsSplit (suc fuel) room t front payload bytes m r h enough =
        let n : ℕ = min (length bytes) (max - length payload) in
        let part : length (take n bytes) ≡ n = length-take n bytes (omega arith) in
        let left : length (drop n bytes) ≡ length bytes - n = length-drop n bytes in
        let whole : payload ++ bytes ≡ (payload ++ take n bytes) ++ drop n bytes =
          rw (append_assoc payload (take n bytes) (drop n bytes), take-append-drop n bytes) refl in
        rw
          (
            rem-opened t front payload (omega arith),
            append-opened t front payload (take n bytes),
            whole,
          )
          (next_frame-IsSplit (write_all fuel) t front (payload ++ take n bytes) (drop n bytes)
            (omega (arith, length-append payload (take n bytes), part))
            (λ front some_left.
              write_all-IsSplit fuel 1 continuation front [] (drop n bytes) m (omega arith)
                (omega arith) (omega (arith, left, some_left))))

-- Where the frames are within the bound of the protocol and END_HEADERS is not set yet, writing the
-- octets does not panic and ends: behind what was there come a HEADERS frame and CONTINUATION frames,
-- whose payloads are within the limit and joined are the octets.
pub write_frames-split :
    (f : HeadersMultiFrame) (octets builder : List ℕ)
    → Flags.is_set (f.flags) end_headers ≡ false
    → 1 ≤ f.max_frame_size
    → f.max_frame_size < 2 ^ 24
    → (piece : List ℕ) × (pieces : List (List ℕ)) × (piece ++ joined pieces ≡ octets)
      × All (λ p. length p ≤ f.max_frame_size) (piece ∷ pieces)
      × (write_frames f octets builder
          ≡ ok (builder ++ frames_octets (f.stream_id) (f.flags) headers piece pieces))
unfolding write_frames
write_frames-split f octets builder plain m small =
    let w =
      write_all-IsSplit (f.stream_id) (f.flags) (f.max_frame_size) plain small (2 + length octets) 0
        headers builder [] octets m (omega arith) (omega arith) (omega arith) in
    (
      w.piece,
      w.pieces,
      w.joined_eq,
      w.within,
      rw (← append-nil (pack_header empty_header)) (w.result),
    )
