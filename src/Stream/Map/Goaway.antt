-- ===== src/Stream/Map/Goaway.antt =====
-- What `remove_local_streams_with_id_gt` removes, and what it leaves.
use rust_http.Prelude.{
  ℕ, ◌≡◌, ◌∙◌, ap, refl, arith, sym, List, [], ◌∷◌, none, inl, inr, true, false, ◌==◌, Bool-cases,
  ==_iff, if◌then◌else◌,
}
use rust_http.Stream.Role.{ClientOrServer}
use rust_http.Stream.Outgoing.{HttpStreamCommon}
use rust_http.Stream.Closed.{has}
use rust_http.Stream.Map.{
  StreamMap, lookup, get_mut, is_local_gt, split_local, remove_local_streams_with_id_gt,
}
use rust_http.Stream.Map.Synced.{IsSynced, writable_at}

module _ {H : Type 0} where
  lookup-split_local :
      (me : ClientOrServer) (id j : ℕ) (es : List (ℕ × HttpStreamCommon H))
      → (lookup ((split_local me id es).0) j ≡ (if is_local_gt me id j then lookup es j else none))
        × (lookup ((split_local me id es).1) j
            ≡ (if is_local_gt me id j then none else lookup es j))
  unfolding lookup split_local
  lookup-split_local me id j [] = (ground arith, ground arith)
  lookup-split_local me id j (e ∷ es) =
      let rest = lookup-split_local me id j es in
      elim (Bool-cases (e.0 == j)) [
        | inl same ↦
            let q : is_local_gt me id j ≡ is_local_gt me id (e.0) =
              ap (is_local_gt me id) (sym ((==_iff (e.0) j).0 same)) in
            elim (Bool-cases (is_local_gt me id (e.0))) [
              | inl local ↦
                  let c : is_local_gt me id j ≡ true = q ∙ local in
                  (rw (local, c, same) refl, rw (local, c) (rw c at (rest.1)))
              | inr kept ↦
                  let c : is_local_gt me id j ≡ false = q ∙ kept in
                  (rw (kept, c) (rw c at (rest.0)), rw (kept, c, same) refl)
            ]
        | inr other ↦ elim (Bool-cases (is_local_gt me id (e.0))) [
          | inl local ↦ rw (local, other) (rest)
          | inr kept ↦ rw (kept, other) (rest)
        ]
      ]

  -- `remove_local_streams_with_id_gt` gives back exactly the streams of this side above the id, and
  -- leaves exactly the others in the map, but the set of writable streams stays as it was: from a map
  -- where the two agree, a writable stream that was removed stays in the set, and is not in the map.
  pub remove_local_streams_with_id_gt-lookup :
      (me : ClientOrServer) (m : StreamMap H) (id j : ℕ)
      → IsSynced m
      → (lookup ((remove_local_streams_with_id_gt me m id).0) j
          ≡ (if is_local_gt me id j then get_mut m j else none))
        × (get_mut ((remove_local_streams_with_id_gt me m id).1) j
            ≡ (if is_local_gt me id j then none else get_mut m j))
        × (has ((remove_local_streams_with_id_gt me m id).1.writable_streams) j
            ≡ writable_at (get_mut m j))
  unfolding remove_local_streams_with_id_gt
  remove_local_streams_with_id_gt-lookup me m id j v =
      let split = lookup-split_local me id j (m.map) in (split.0, split.1, v j)
