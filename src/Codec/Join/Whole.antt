-- ===== src/Codec/Join/Whole.antt =====
-- The reader gives no CONTINUATION frame.
use rust_http.Prelude.{
  ℕ, suc, zero, ◌≡◌, refl, arith, List, length, Option, none, some, Bool, true, false,
}
use rust_http.Prelude.Outcome.{Outcome, ok, bind-ok}
use rust_http.Error.{Error}
use rust_http.Frame.HttpFrame.{HttpFrame}
use rust_http.Codec.FramedRead.{poll_http_frame}
use rust_http.Codec.Join.{
  Continuable, Joined, complete, more, join, joined, after, Polled, poll_loop, poll_joined,
  with_fragment, continue_with, ContinuableFrame, headers, push_promise,
}

abbrev pub is_continuation : HttpFrame → Bool
is_continuation (HttpFrame.continuation f) = true
is_continuation _ = false

-- A poll gives no CONTINUATION frame.
abbrev pub IsWhole : Option HttpFrame → Type 0
IsWhole none = Unit {0}
IsWhole (some f) = is_continuation f ≡ false

whole_fragment : (bs : List ℕ) (f : ContinuableFrame) → is_continuation (with_fragment bs f) ≡ false
whole_fragment bs (headers f) = refl
whole_fragment bs (push_promise f) = refl

join-IsWhole :
    (h : Option Continuable) (f g : HttpFrame)
    → join h f ≡ ok (complete g)
    → is_continuation g ≡ false
unfolding join continue_with
join-IsWhole h f g e = ground (arith, e)

joined-IsWhole :
    (k : Option Continuable → List ℕ → Outcome Error Polled) (h : Option Continuable)
    (f : HttpFrame) (rest : List ℕ) (j : Joined) (p : Polled)
    → join h f ≡ ok j
    → joined k rest j ≡ ok p
    → ((h : Option Continuable) → k h rest ≡ ok p → IsWhole (p.frame))
    → IsWhole (p.frame)
unfolding joined
joined-IsWhole k h f rest (complete g) p je e rec =
    let q : record { frame = some g; header_opt = none; buf = rest } ≡ p = cc e in
    rw (← q) (join-IsWhole h f g je)
joined-IsWhole k h f rest (more c) p je e rec = rec (some c) e

after-IsWhole :
    (k : Option Continuable → List ℕ → Outcome Error Polled) (h : Option Continuable) (buf : List ℕ)
    (p : Polled) (o : Option (HttpFrame × List ℕ))
    → after k h buf o ≡ ok p
    → ((h : Option Continuable) (rest : List ℕ) → k h rest ≡ ok p → IsWhole (p.frame))
    → IsWhole (p.frame)
unfolding after
after-IsWhole k h buf p none e rec =
    let q : record { frame = none; header_opt = h; buf = buf } ≡ p = cc e in rw (← q) tt
after-IsWhole k h buf p (some (f, rest)) e rec =
    let (j, je, q) = bind-ok (join h f) (joined k rest) p e in
    joined-IsWhole k h f rest j p je q (λ h e. rec h rest e)

loop-IsWhole :
    (n max : ℕ) (h : Option Continuable) (buf : List ℕ) (p : Polled)
    → poll_loop n max h buf ≡ ok p
    → IsWhole (p.frame)
unfolding poll_loop
loop-IsWhole zero max h buf p e = absurd (ground (arith, e))
loop-IsWhole (suc n) max h buf p e =
    let (o, oe, q) = bind-ok (poll_http_frame max buf) (after (poll_loop n max) h buf) p e in
    after-IsWhole (poll_loop n max) h buf p o q (λ h rest e. loop-IsWhole n max h rest p e)

-- From any state and on any octets, a poll that neither fails nor panics is pending or gives a frame
-- that is not CONTINUATION, so that the decoding reader does not come to its `unreachable!`.
pub poll_joined-IsWhole :
    (max : ℕ) (h : Option Continuable) (buf : List ℕ) (p : Polled)
    → poll_joined max h buf ≡ ok p
    → IsWhole (p.frame)
unfolding poll_joined
poll_joined-IsWhole max h buf p e = loop-IsWhole (suc (length buf)) max h buf p e
