-- ===== src/Codec/Join/Total.antt =====
-- The loop that joins frames ends.
use rust_http.Prelude.{
  ℕ, suc, zero, ◌<◌, ◌≡◌, ◌≢◌, refl, arith, List, length, Option, none, some, inl, inr,
  Option-cases, take,
}
use rust_http.Prelude.Outcome.{Outcome, ok, diverged, ◌>>=◌, ok_ends, Outcome-cases}
use rust_http.Error.{Error, parsed}
use rust_http.Frame.Header.{unpack_header, frame_header_len}
use rust_http.Frame.Error.{ParseFrameResult}
use rust_http.Frame.Raw.{RawFrame}
use rust_http.Frame.HttpFrame.{HttpFrame, from_raw}
use rust_http.Frame.HttpFrame.Total.{from_raw_ends}
use rust_http.Codec.FramedRead.{cut_frame, poll_raw_frame, parse_cut, poll_http_frame}
use rust_http.Codec.FramedRead.Wire.{poll_http_frame_shorter}
use rust_http.Codec.Join.{
  Continuable, Joined, complete, more, join, joined, after, Polled, poll_loop, poll_joined,
}

-- As `bind_ends`, where what comes first is known.
bind_ends_ok :
    {E A B : Type 0} (m : Outcome E A) (f : A → Outcome E B)
    → m ≢ diverged
    → ((a : A) → m ≡ ok a → f a ≢ diverged)
    → (m >>= f) ≢ diverged
bind_ends_ok m f h k = elim (Outcome-cases m) [
  | inl (inl (a, e)) ↦ rw e (k a e)
  | inl (inr (x, e)) ↦ rw e (λ d. cc d)
  | inr (inl e) ↦ rw e (λ d. cc d)
  | inr (inr e) ↦ absurd (h e)
]

parsed_ends : {A : Type 0} (r : ParseFrameResult A) → r ≢ diverged → parsed r ≢ diverged
parsed_ends r h = elim (Outcome-cases r) [
  | inl (inl (a, e)) ↦ rw e (λ d. cc d)
  | inl (inr (x, e)) ↦ rw e (λ d. cc d)
  | inr (inl e) ↦ rw e (λ d. cc d)
  | inr (inr e) ↦ absurd (h e)
]

parse_cut_ends : (o : Option (RawFrame × List ℕ)) → parse_cut o ≢ diverged
unfolding parse_cut
parse_cut_ends none = ok_ends _
parse_cut_ends (some (raw, rest)) =
    bind_ends_ok (parsed (from_raw raw)) _ (parsed_ends (from_raw raw) (from_raw_ends raw))
      (λ _ _. ok_ends _)

poll_raw_frame_ends : (max : ℕ) (buf : List ℕ) → poll_raw_frame max buf ≢ diverged
unfolding poll_raw_frame cut_frame
poll_raw_frame_ends max buf = elim (Option-cases (unpack_header (take frame_header_len buf))) [
  | inl n ↦ λ e. ground (arith, e, n)
  | inr h ↦ λ e. ground (arith, e, h.1)
]

poll_http_frame_ends : (max : ℕ) (buf : List ℕ) → poll_http_frame max buf ≢ diverged
unfolding poll_http_frame
poll_http_frame_ends max buf =
    bind_ends_ok (poll_raw_frame max buf) parse_cut (poll_raw_frame_ends max buf)
      (λ o _. parse_cut_ends o)

join_ends : (h : Option Continuable) (f : HttpFrame) → join h f ≢ diverged
unfolding join
join_ends none f = λ e. ground (arith, e)
join_ends (some h) f = λ e. ground (arith, e)

abbrev Loop : Type 0
Loop = Option Continuable → List ℕ → Outcome Error Polled

joined_ends :
    (k : Loop) (rest : List ℕ) (j : Joined)
    → ((h : Option Continuable) → k h rest ≢ diverged)
    → joined k rest j ≢ diverged
unfolding joined
joined_ends k rest (complete f) l = ok_ends _
joined_ends k rest (more c) l = l (some c)

after_ends :
    (k : Loop) (h : Option Continuable) (buf : List ℕ) (o : Option (HttpFrame × List ℕ))
    → ((f : HttpFrame) (rest : List ℕ) (h : Option Continuable)
        → o ≡ some (f, rest)
        → k h rest ≢ diverged)
    → after k h buf o ≢ diverged
unfolding after
after_ends k h buf none l = ok_ends _
after_ends k h buf (some (f, rest)) l =
    bind_ends_ok (join h f) (joined k rest) (join_ends h f)
      (λ j _. joined_ends k rest j (λ h. l f rest h refl))

-- Fuel above the length of the buffer is enough.
loop_ends :
    (n max : ℕ) (h : Option Continuable) (buf : List ℕ)
    → length buf < n
    → poll_loop n max h buf ≢ diverged
unfolding poll_loop
loop_ends zero max h buf l = absurd (omega arith)
loop_ends (suc n) max h buf l =
    bind_ends_ok (poll_http_frame max buf) (after (poll_loop n max) h buf)
      (poll_http_frame_ends max buf)
      (λ o oe. after_ends (poll_loop n max) h buf o (λ f rest h' e.
        let shorter = poll_http_frame_shorter max buf f rest (rw (← e) oe) in
        loop_ends n max h' rest (omega arith)))

-- From any state and on any octets the loop that joins frames ends: a poll gives a frame, is
-- pending, fails, or panics.
pub poll_joined_ends :
    (max : ℕ) (h : Option Continuable) (buf : List ℕ) → poll_joined max h buf ≢ diverged
unfolding poll_joined
poll_joined_ends max h buf = loop_ends (suc (length buf)) max h buf (omega arith)
