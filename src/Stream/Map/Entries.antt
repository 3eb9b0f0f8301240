-- ===== src/Stream/Map/Entries.antt =====
-- The entries of the map and the set of ids, at one id.
use rust_http.Prelude.{
  ℕ, ◌≡◌, refl, arith, ap, List, [], ◌∷◌, none, some, ◌==◌, Bool-cases, ==_iff, inl, inr, Bool,
  true, false, if◌then◌else◌,
}
use mathlib.Core.Option
use rust_http.Prelude.Int.{ℤ}
use rust_http.Window.{try_add}
use rust_http.Stream.Outgoing.{HttpStreamCommon}
use rust_http.Stream.Closed.{has, remove}
use rust_http.Stream.Closed.Invariant.{IsNodup, has-remove}
use rust_http.Stream.Map.{lookup, put, erase, mark, add_windows, with_window}

module _ {H : Type 0} where
  pub lookup-put_self :
      (es : List (ℕ × HttpStreamCommon H)) (id : ℕ) (old s : HttpStreamCommon H)
      → lookup es id ≡ some old
      → lookup (put es id s) id ≡ some s
  unfolding lookup put
  lookup-put_self [] id old s h = absurd (ground (arith, h))
  lookup-put_self (e ∷ es) id old s h = ground (arith, h, lookup-put_self es id old s)

  pub lookup-put_ne :
      (es : List (ℕ × HttpStreamCommon H)) (id j : ℕ) (s : HttpStreamCommon H)
      → (id == j) ≡ false
      → lookup (put es id s) j ≡ lookup es j
  unfolding lookup put
  lookup-put_ne [] id j s h = refl
  lookup-put_ne (e ∷ es) id j s h = ground (arith, h, lookup-put_ne es id j s h)

  pub lookup-erase_self :
      (es : List (ℕ × HttpStreamCommon H)) (id : ℕ) → lookup (erase es id) id ≡ none
  unfolding lookup erase
  lookup-erase_self [] id = refl
  lookup-erase_self (e ∷ es) id = ground (arith, lookup-erase_self es id)

  pub lookup-erase_ne :
      (es : List (ℕ × HttpStreamCommon H)) (id j : ℕ)
      → (id == j) ≡ false
      → lookup (erase es id) j ≡ lookup es j
  unfolding lookup erase
  lookup-erase_ne [] id j h = refl
  lookup-erase_ne (e ∷ es) id j h = ground (arith, h, lookup-erase_ne es id j h)

  abbrev pub keys : List (ℕ × HttpStreamCommon H) → List ℕ
  keys [] = []
  keys (e ∷ es) = e.0 ∷ keys es

  pub keys-put :
      (es : List (ℕ × HttpStreamCommon H)) (id : ℕ) (s : HttpStreamCommon H)
      → keys (put es id s) ≡ keys es
  unfolding put
  keys-put [] id s = refl
  keys-put (e ∷ es) id s = elim (Bool-cases (e.0 == id)) [
    | inl h ↦ rw (h, (==_iff (e.0) id).0 h, keys-put es id s) refl
    | inr h ↦ rw (h, keys-put es id s) refl
  ]

  pub keys-erase :
      (es : List (ℕ × HttpStreamCommon H)) (id : ℕ) → keys (erase es id) ≡ remove (keys es) id
  unfolding erase remove
  keys-erase [] id = refl
  keys-erase (e ∷ es) id = elim (Bool-cases (e.0 == id)) [
    | inl h ↦ rw (h, keys-erase es id) refl
    | inr h ↦ rw (h, keys-erase es id) refl
  ]

  pub has-keys-none :
      (es : List (ℕ × HttpStreamCommon H)) (id : ℕ) → lookup es id ≡ none → has (keys es) id ≡ false
  unfolding lookup has
  has-keys-none [] id h = refl
  has-keys-none (e ∷ es) id h = ground (arith, h, has-keys-none es id)

  pub lookup-none :
      (es : List (ℕ × HttpStreamCommon H)) (id : ℕ) → has (keys es) id ≡ false → lookup es id ≡ none
  unfolding lookup has
  lookup-none [] id h = refl
  lookup-none (e ∷ es) id h = ground (arith, h, lookup-none es id)

pub IsNodup-remove : (xs : List ℕ) (x : ℕ) → IsNodup xs → IsNodup (remove xs x)
unfolding IsNodup remove
IsNodup-remove [] x n = tt
IsNodup-remove (y ∷ ys) x n = elim (Bool-cases (y == x)) [
  | inl h ↦ rw h (IsNodup-remove ys x (n.1))
  | inr h ↦ rw h ((rw (has-remove ys x y) (ground (arith, n.0)), IsNodup-remove ys x (n.1)))
]

has-mark-true :
    (set : List ℕ) (id j : ℕ) → has (mark set id true) j ≡ (if id == j then true else has set j)
unfolding mark has
has-mark-true set id j = elim (Bool-cases (id == j)) [
  | inl e ↦
      let q : has set id ≡ has set j = ap (has set) ((==_iff id j).0 e) in ground (arith, e, q)
  | inr e ↦ ground (arith, e)
]

pub has-mark :
    (set : List ℕ) (id : ℕ) (b : Bool) (j : ℕ)
    → has (mark set id b) j ≡ (if id == j then b else has set j)
has-mark set id true j = has-mark-true set id j
has-mark set id false j =
    let e : mark set id false ≡ remove set id = unfold mark in refl in
    rw (e, has-remove set id j) (ground arith)

-- The windows of all streams are changed by the same.
pub lookup-add_windows :
    {H : Type 0} (es fs : List (ℕ × HttpStreamCommon H)) (delta : ℤ) (id : ℕ)
    (s : HttpStreamCommon H)
    → add_windows es delta ≡ some fs
    → lookup es id ≡ some s
    → (w : ℤ) × (try_add (s.out_window_size) delta ≡ some w)
      × (lookup fs id ≡ some (with_window s w))
unfolding add_windows lookup
lookup-add_windows [] fs delta id s e h = absurd (ground (arith, h))
lookup-add_windows (x ∷ es) fs delta id s e h =
    let r = (Option.bind-eq-some_iff (try_add (x.1.out_window_size) delta) _).0 e in
    let t =
      (Option.map-eq-some_iff (λ rest. (x.0, with_window (x.1) (r.0)) ∷ rest)
          (add_windows es delta)).0
        (r.2) in
    elim (Bool-cases (x.0 == id)) [
      | inl b ↦
          let q : x.1 ≡ s = ground (arith, rw b at h) in
          (r.0, rw (← q) (r.1), rw (← t.2, b, q) refl)
      | inr b ↦
          let i = lookup-add_windows es (t.0) delta id s (t.1) (rw b at h) in
          (i.0, i.1, rw (← t.2, b) (i.2))
    ]
