-- ===== src/Codec/Join/Polls.antt =====
-- The loop ends, and what it gives does not depend on how the octets arrive.
use rust_http.Prelude.{
  ℕ, suc, zero, ◌≤◌, ◌<◌, ◌≡◌, refl, ◌∙◌, arith, List, ◌++◌, length, Option, none, some,
  length-append,
}
use rust_http.Prelude.Outcome.{Outcome, ok, bind-ok, bind-cong}
use rust_http.Error.{Error}
use rust_http.Frame.HttpFrame.{HttpFrame}
use rust_http.Codec.FramedRead.{poll_http_frame}
use rust_http.Codec.FramedRead.Wire.{poll_http_frame_shorter, poll_http_frame-append}
use rust_http.Codec.Join.{
  Continuable, Joined, complete, more, join, joined, after, Polled, poll_loop, poll_joined,
}

abbrev Loop : Type 0
Loop = Option Continuable → List ℕ → Outcome Error Polled

joined-cong :
    (k l : Loop) (rest : List ℕ) (j : Joined)
    → ((h : Option Continuable) → k h rest ≡ l h rest)
    → joined k rest j ≡ joined l rest j
unfolding joined
joined-cong k l rest (complete f) e = refl
joined-cong k l rest (more c) e = e (some c)

-- The rest of the loop matters only behind the frame that was cut off.
after-cong :
    (k l : Loop) (h : Option Continuable) (buf : List ℕ) (o : Option (HttpFrame × List ℕ))
    → ((f : HttpFrame) (rest : List ℕ) (h : Option Continuable)
        → o ≡ some (f, rest)
        → k h rest ≡ l h rest)
    → after k h buf o ≡ after l h buf o
unfolding after
after-cong k l h buf none e = refl
after-cong k l h buf (some (f, rest)) e =
    bind-cong (join h f) (joined k rest) (joined l rest)
      (λ j _. joined-cong k l rest j (λ h. e f rest h refl))

-- Any fuel above the length of the buffer gives the same.
poll_loop_fuel :
    (n m max : ℕ) (h : Option Continuable) (buf : List ℕ)
    → length buf < n
    → length buf < m
    → poll_loop n max h buf ≡ poll_loop m max h buf
unfolding poll_loop
poll_loop_fuel zero m max h buf a b = absurd (omega arith)
poll_loop_fuel (suc n) zero max h buf a b = absurd (omega arith)
poll_loop_fuel (suc n) (suc m) max h buf a b = bind-cong (poll_http_frame max buf) _ _ (λ o oe.
    after-cong (poll_loop n max) (poll_loop m max) h buf o (λ f rest h' e.
      let shorter = poll_http_frame_shorter max buf f rest (rw (← e) oe) in
      poll_loop_fuel n m max h' rest (omega arith) (omega arith)))

abbrev resume_from : ℕ → Option HttpFrame → Option Continuable → List ℕ → Outcome Error Polled
resume_from max (some f) h buf = ok (record { frame = some f; header_opt = h; buf = buf })
resume_from max none h buf = poll_joined max h buf

-- What a poll leads to when more octets have arrived: a frame that was given stays given, and a
-- pending poll is resumed from its state.
abbrev pub resume : ℕ → Polled → List ℕ → Outcome Error Polled
resume max p octets = resume_from max (p.frame) (p.header_opt) (p.buf ++ octets)

joined-append :
    (n k max : ℕ) (rest octets : List ℕ) (p : Polled) (j : Joined)
    → joined (poll_loop n max) rest j ≡ ok p
    → ((h : Option Continuable)
        → poll_loop n max h rest ≡ ok p
        → poll_loop k max h (rest ++ octets) ≡ resume max p octets)
    → joined (poll_loop k max) (rest ++ octets) j ≡ resume max p octets
unfolding joined
joined-append n k max rest octets p (complete f) e rec =
    let q : record { frame = some f; header_opt = none; buf = rest } ≡ p = cc e in rw (← q) refl
joined-append n k max rest octets p (more c) e rec = rec (some c) e

-- What is given from `o` with the octets `octets` behind.
after-append :
    (n k max : ℕ) (h : Option Continuable) (buf octets : List ℕ) (p : Polled)
    (o : Option (HttpFrame × List ℕ))
    → poll_http_frame max buf ≡ ok o
    → after (poll_loop n max) h buf o ≡ ok p
    → length (buf ++ octets) ≤ k
    → ((h : Option Continuable) (rest : List ℕ)
        → length (rest ++ octets) < k
        → poll_loop n max h rest ≡ ok p
        → poll_loop k max h (rest ++ octets) ≡ resume max p octets)
    → poll_loop (suc k) max h (buf ++ octets) ≡ resume max p octets
unfolding after poll_joined
after-append n k max h buf octets p none oe e l rec =
    let q : record { frame = none; header_opt = h; buf = buf } ≡ p = cc e in
    rw (← q) (
      poll_loop_fuel (suc k) (suc (length (buf ++ octets))) max h (buf ++ octets) (omega arith)
        (omega arith))
after-append n k max h buf octets p (some (f, rest)) oe e l rec =
    let (j, je, q) = bind-ok (join h f) (joined (poll_loop n max) rest) p e in
    let shorter = poll_http_frame_shorter max buf f rest oe in
    let here : poll_loop (suc k) max h (buf ++ octets)
        ≡ joined (poll_loop k max) (rest ++ octets) j =
      unfold poll_loop in rw (poll_http_frame-append max buf octets f rest oe, je) refl in
    here
    ∙ joined-append n k max rest octets p j q
        (λ h e. rec h rest (omega (arith, length-append rest octets, length-append buf octets)) e)

poll_loop-append :
    (n k max : ℕ) (h : Option Continuable) (buf octets : List ℕ) (p : Polled)
    → poll_loop n max h buf ≡ ok p
    → length (buf ++ octets) < k
    → poll_loop k max h (buf ++ octets) ≡ resume max p octets
unfolding poll_loop
poll_loop-append zero k max h buf octets p e l = absurd (cc e)
poll_loop-append (suc n) zero max h buf octets p e l = absurd (omega arith)
poll_loop-append (suc n) (suc k) max h buf octets p e l =
    let (o, oe, q) = bind-ok (poll_http_frame max buf) (after (poll_loop n max) h buf) p e in
    after-append n k max h buf octets p o oe q (omega arith)
      (λ h rest short r. poll_loop-append n k max h rest octets p r short)

-- How the octets arrive does not matter: whatever a poll of some octets ended in, a frame or a
-- pending state, the poll of the same octets with more behind them gives what the first leads to
-- with these, the frame or the poll that the state resumes.
pub poll_joined-append :
    (max : ℕ) (h : Option Continuable) (buf octets : List ℕ) (p : Polled)
    → poll_joined max h buf ≡ ok p
    → poll_joined max h (buf ++ octets) ≡ resume max p octets
unfolding poll_joined
poll_joined-append max h buf octets p e =
    poll_loop-append (suc (length buf)) (suc (length (buf ++ octets))) max h buf octets p e
      (omega arith)
