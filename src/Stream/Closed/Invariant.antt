-- ===== src/Stream/Closed/Invariant.antt =====
-- The set and the queue of the closed streams hold the same.
use rust_http.Prelude.{
  ℕ, ◌-◌, ◌≤◌, ◌<◌, ◌≡◌, refl, sym, ap, arith, inl, inr, List, [], ◌∷◌, ◌++◌, some, length, drop,
  ◌==◌, not, if◌then◌else◌, true, false, ◌&&◌, ◌||◌, Bool-cases, ==_iff, length-append,
}
use rust_http.Stream.Closed.{ClosedStreams, has, remove, evict, add}

-- No stream twice.
unfoldable pub IsNodup : List ℕ → Type 0
IsNodup [] = Unit {0}
IsNodup (x ∷ xs) = (has xs x ≡ false) × IsNodup xs

pub record IsValid (s : ClosedStreams) : Type 0 where
  pub same : (x : ℕ) → has (s.set) x ≡ has (s.lru) x
  pub nodup : IsNodup (s.lru)
  pub bounded : length (s.lru) ≤ 100

has-append : (xs : List ℕ) (y x : ℕ) → has (xs ++ y ∷ []) x ≡ (has xs x || (y == x))
unfolding has
has-append [] y x = ground arith
has-append (z ∷ zs) y x = ground (arith, has-append zs y x)

pub has-remove : (xs : List ℕ) (y x : ℕ) → has (remove xs y) x ≡ (has xs x && not (y == x))
unfolding has remove
has-remove [] y x = refl
has-remove (z ∷ zs) y x = ground (arith, has-remove zs y x)

IsNodup-append : (xs : List ℕ) (y : ℕ) → IsNodup xs → has xs y ≡ false → IsNodup (xs ++ y ∷ [])
unfolding IsNodup has
IsNodup-append [] y n h = (refl, tt)
IsNodup-append (z ∷ zs) y n h =
    (rw (has-append zs y z) (ground (arith, n.0, h)), IsNodup-append zs y (n.1) (ground (arith, h)))

-- The oldest is not in the rest of the queue, nor is it the new one.
evicted :
    (set lru : List ℕ) (o y x : ℕ)
    → ((x : ℕ) → has set x ≡ has (o ∷ lru) x)
    → has lru o ≡ false
    → has (o ∷ lru) y ≡ false
    → (has (y ∷ set) x && not (o == x)) ≡ (has lru x || (y == x))
unfolding has
evicted set lru o y x same out absent = elim (Bool-cases (o == x)) [
  | inl e ↦
      let q : has lru o ≡ has lru x = ap (has lru) ((==_iff o x).0 e) in
      ground (arith, e, q, out, absent)
  | inr e ↦ ground (arith, e, same x)
]

evict-IsValid :
    (set lru : List ℕ) (y : ℕ)
    → ((x : ℕ) → has set x ≡ has lru x)
    → IsNodup lru
    → length lru ≡ 100
    → has set y ≡ false
    → (s : ClosedStreams) × (evict (y ∷ set) lru y ≡ some s)
      × IsValid s
      × (s.lru ≡ drop 1 lru ++ y ∷ [])
unfolding evict IsNodup
evict-IsValid set [] y same n l h = absurd (omega (arith, l))
evict-IsValid set (o ∷ lru) y same n l h =
    let absent : has (o ∷ lru) y ≡ false = rw (sym (same y)) h in
    let there : has (y ∷ set) o ≡ true = unfold has in (ground (arith, same o)) in
    (
      record { set = remove (y ∷ set) o; lru = lru ++ y ∷ [] },
      rw there refl,
      record {
        same = λ x.
            rw (has-remove (y ∷ set) o x, has-append lru y x)
              (unfold has in evicted set lru o y x same (n.0) absent);
        nodup = IsNodup-append lru y (n.1) (unfold has in ground (arith, absent));
        bounded = omega (arith, length-append lru (y ∷ []), l);
      },
      refl,
    )

-- The queue after a stream: as it was where the stream is in it, and else with the stream at the end,
-- behind the last 99.
abbrev pub recent : ClosedStreams → ℕ → List ℕ
recent s y = if has (s.lru) y then s.lru else drop (length (s.lru) - 99) (s.lru) ++ y ∷ []

-- Adding a stream to a record whose set and queue hold the same streams, none twice and at most 100,
-- does not panic and leaves such a record. A stream that was there changes nothing; another goes to
-- the end of the queue, behind the last 99.
pub add-IsValid :
    (s : ClosedStreams) (y : ℕ)
    → IsValid s
    → (s' : ClosedStreams) × (add s y ≡ some s') × IsValid s' × (s'.lru ≡ recent s y)
unfolding add
add-IsValid s y v = elim (Bool-cases (has (s.set) y)) [
  | inl e ↦ (s, rw (add, e) refl, v, rw (sym (v.same y), e) refl)
  | inr e ↦ elim (Bool-cases (length (s.lru) == 100)) [
    | inl f ↦
        let full : length (s.lru) ≡ 100 = (==_iff (length (s.lru)) 100).0 f in
        let (s', evicts, valid, queue) =
          evict-IsValid (s.set) (s.lru) y (v.same) (v.nodup) full e in
        (s', rw (add, e, f) evicts, valid, rw (sym (v.same y), e, full) queue)
    | inr f ↦
        let fewer : length (s.lru) < 100 = ground (arith, f, v.bounded) in
        let none_dropped : length (s.lru) - 99 ≡ 0 = omega (arith, fewer) in
        (
          record { set = y ∷ s.set; lru = s.lru ++ y ∷ [] },
          rw (add, e, f) refl,
          record {
            same = λ x. rw (has-append (s.lru) y x) (unfold has in ground (arith, v.same x));
            nodup = IsNodup-append (s.lru) y (v.nodup) (rw (sym (v.same y)) e);
            bounded = omega (arith, length-append (s.lru) (y ∷ []), fewer);
          },
          rw (sym (v.same y), e, none_dropped) refl,
        )
  ]
]
