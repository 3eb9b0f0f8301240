-- ===== src/Stream/Map/Synced.antt =====
-- The set of writable streams agrees with the streams of the map.
use rust_http.Prelude.{
  ℕ, ◌≡◌, refl, arith, ap, sym, List, [], ◌∷◌, Option, none, some, ◌==◌, Bool-cases, ==_iff, inl,
  inr, not, Bool, false,
}
use mathlib.Core.Option
use rust_http.Prelude.Int.{ℤ}
use rust_http.Frame.ErrorCode.{ErrorCode}
use rust_http.Window.{try_add}
use rust_http.Stream.State
use rust_http.Stream.State.{StreamState, is_closed, close-closed}
use rust_http.Stream.Queue.{DataOrHeaders, headers, data_part}
use rust_http.Stream.Outgoing.{HttpStreamCommon, writable_front, is_writable}
use rust_http.Stream.Closed.{has}
use rust_http.Stream.Closed.Invariant.{IsNodup, has-remove}
use rust_http.Stream.Map.{
  StreamMap, lookup, put, erase, sync_writable, insert_at, remove_entry, writable_ids, add_windows,
  add_out_window, with_window, remove_if_closed, get_mut, close_remote, closed_remote,
}
use rust_http.Stream.Map.Entries.{
  lookup-put_self, lookup-put_ne, lookup-erase_self, lookup-erase_ne, has-mark, keys, keys-put,
  keys-erase, has-keys-none, lookup-none, IsNodup-remove,
}

module _ {H : Type 0} where
  -- Whether there is a stream, and it is writable.
  unfoldable pub writable_at : Option (HttpStreamCommon H) → Bool
  writable_at none = false
  writable_at (some s) = is_writable s

  abbrev pub IsSynced : StreamMap H → Type 0
  IsSynced m = (id : ℕ) → has (m.writable_streams) id ≡ writable_at (lookup (m.map) id)

  -- It is enough that the other streams agree.
  sync_writable-IsSynced :
      (m : StreamMap H) (id : ℕ) (old s : HttpStreamCommon H)
      → get_mut m id ≡ some old
      → ((j : ℕ) → (id == j) ≡ false → has (m.writable_streams) j ≡ writable_at (lookup (m.map) j))
      → IsSynced (sync_writable m id s)
  unfolding writable_at
  sync_writable-IsSynced m id old s found h j = elim (Bool-cases (id == j)) [
    | inl e ↦
        let same : lookup (put (m.map) id s) j ≡ some s =
          rw (sym ((==_iff id j).0 e)) (lookup-put_self (m.map) id old s found) in
        rw (has-mark (m.writable_streams) id (is_writable s) j, same, e) refl
    | inr e ↦
        rw (has-mark (m.writable_streams) id (is_writable s) j, lookup-put_ne (m.map) id j s e, e)
          (h j e)
  ]

  remove_entry-IsSynced : (m : StreamMap H) (id : ℕ) → IsSynced m → IsSynced (remove_entry m id)
  unfolding writable_at
  remove_entry-IsSynced m id h j = elim (Bool-cases (id == j)) [
    | inl e ↦
        let gone : lookup (erase (m.map) id) j ≡ none =
          rw (sym ((==_iff id j).0 e)) (lookup-erase_self (m.map) id) in
        rw (has-remove (m.writable_streams) id j, gone, e) (ground arith)
    | inr e ↦
        rw (has-remove (m.writable_streams) id j, lookup-erase_ne (m.map) id j e, e)
          (ground (arith, h j))
  ]

  -- What holds between the operations: the set holds the streams that are writable, and no key is
  -- there twice, as in any hash map.
  pub record IsValid (m : StreamMap H) : Type 0 where
    pub synced : IsSynced m
    pub distinct : IsNodup (keys (m.map))

  pub sync_writable-IsValid :
      (m : StreamMap H) (id : ℕ) (old s : HttpStreamCommon H)
      → get_mut m id ≡ some old
      → IsValid m
      → IsValid (sync_writable m id s)
  sync_writable-IsValid m id old s found v = record {
    synced = sync_writable-IsSynced m id old s found (λ j _. v.synced j);
    distinct = rw (keys-put (m.map) id s) (v.distinct);
  }

  pub remove_entry-IsValid : (m : StreamMap H) (id : ℕ) → IsValid m → IsValid (remove_entry m id)
  remove_entry-IsValid m id v = record {
    synced = remove_entry-IsSynced m id (v.synced);
    distinct = rw (keys-erase (m.map) id) (IsNodup-remove (keys (m.map)) id (v.distinct));
  }

  -- A value that is writable just where the old one was.
  pub put-IsValid :
      (m : StreamMap H) (id : ℕ) (old s : HttpStreamCommon H)
      → get_mut m id ≡ some old
      → is_writable s ≡ is_writable old
      → IsValid m
      → IsValid (record { map = put (m.map) id s; writable_streams = m.writable_streams })
  unfolding writable_at
  put-IsValid m id old s found same v = record {
    synced = λ j. elim (Bool-cases (id == j)) [
      | inl e ↦
          let q : id ≡ j = (==_iff id j).0 e in
          let there : lookup (put (m.map) id s) j ≡ some s =
            rw (sym q) (lookup-put_self (m.map) id old s found) in
          let before : lookup (m.map) j ≡ some old = rw (sym q) found in
          rw there (cc (v.synced j, before, same))
      | inr e ↦ rw (lookup-put_ne (m.map) id j s e) (v.synced j)
    ];
    distinct = rw (keys-put (m.map) id s) (v.distinct);
  }

  pub insert_at-IsValid :
      (m m' : StreamMap H) (id : ℕ) (s : HttpStreamCommon H) (old : Option (HttpStreamCommon H))
      → lookup (m.map) id ≡ old
      → insert_at m id s old ≡ some m'
      → IsValid m
      → IsValid m'
  unfolding insert_at
  insert_at-IsValid m m' id s (some old) found e v = absurd (cc e)
  insert_at-IsValid m m' id s none vacant e v =
      let wider : StreamMap H = record {
        map = (id, s) ∷ m.map;
        writable_streams = m.writable_streams;
      } in
      let first : lookup ((id, s) ∷ m.map) id ≡ some s = unfold lookup in ground arith in
      let others : (j : ℕ)
          → (id == j) ≡ false
          → has (m.writable_streams) j ≡ writable_at (lookup ((id, s) ∷ m.map) j) =
        λ j ne. unfold lookup in rw ne (v.synced j) in
      let q : sync_writable wider id s ≡ m' = cc e in
      rw (sym q) (record {
        synced = sync_writable-IsSynced wider id s s first others;
        distinct =
            rw (keys-put ((id, s) ∷ m.map) id s)
              (unfold IsNodup in (has-keys-none (m.map) id vacant, v.distinct));
      })

  has-writable_ids :
      (es : List (ℕ × HttpStreamCommon H)) (id : ℕ)
      → IsNodup (keys es)
      → has (writable_ids es) id ≡ writable_at (lookup es id)
  unfolding IsNodup has writable_ids lookup writable_at
  has-writable_ids [] id n = refl
  has-writable_ids (e ∷ es) id n = elim (Bool-cases (e.0 == id)) [
    | inl h ↦
        let q : has (keys es) id ≡ false = rw (sym ((==_iff (e.0) id).0 h)) (n.0) in
        ground (arith, h, has-writable_ids es id (n.1), ap writable_at (lookup-none es id q))
    | inr h ↦ ground (arith, h, has-writable_ids es id (n.1))
  ]

  -- A change of the windows keeps the keys.
  keys-add_windows :
      (es fs : List (ℕ × HttpStreamCommon H)) (delta : ℤ)
      → add_windows es delta ≡ some fs
      → keys fs ≡ keys es
  unfolding add_windows
  keys-add_windows [] fs delta e = ground (arith, e)
  keys-add_windows (x ∷ es) fs delta e =
      let r = (Option.bind-eq-some_iff (try_add (x.1.out_window_size) delta) _).0 e in
      let t =
        (Option.map-eq-some_iff (λ rest. (x.0, with_window (x.1) (r.0)) ∷ rest)
            (add_windows es delta)).0
          (r.2) in
      rw (sym (t.2), keys-add_windows es (t.0) delta (t.1)) refl

  pub add_out_window-IsValid :
      (m m' : StreamMap H) (delta : ℤ) → add_out_window m delta ≡ some m' → IsValid m → IsValid m'
  unfolding add_out_window
  add_out_window-IsValid m m' delta e v =
      let r =
        (Option.map-eq-some_iff (λ es. record { map = es; writable_streams = writable_ids es })
            (add_windows (m.map) delta)).0
          e in
      let n : IsNodup (keys (r.0)) = rw (keys-add_windows (m.map) (r.0) delta (r.1)) (v.distinct) in
      rw (sym (r.2)) (record { synced = λ id. has-writable_ids (r.0) id n; distinct = n })

  pub remove_if_closed-IsValid :
      (m : StreamMap H) (id : ℕ) (s : HttpStreamCommon H)
      → IsValid m
      → IsValid ((remove_if_closed m id s).0)
  unfolding remove_if_closed
  remove_if_closed-IsValid m id s v = elim (Bool-cases (is_closed (s.state))) [
    | inl e ↦ rw e (remove_entry-IsValid m id v)
    | inr e ↦ rw e v
  ]

  front-closed_remote :
      (q : List (DataOrHeaders H)) (e : Option ErrorCode) (state : StreamState) (w : ℤ)
      → writable_front q e (State.close_remote state) w ≡ writable_front q e state w
  unfolding writable_front
  front-closed_remote [] none state w = refl
  front-closed_remote [] (some e) state w = ap not ((close-closed state).3)
  front-closed_remote (headers h ∷ q) e state w = refl
  front-closed_remote (data_part d ∷ q) e state w = refl

  -- Whether a stream is writable depends on the local side only.
  is_writable-closed_remote :
      (s : HttpStreamCommon H) → is_writable (closed_remote s) ≡ is_writable s
  unfolding is_writable
  is_writable-closed_remote s =
      front-closed_remote (s.outgoing.queue) (s.outgoing.end) (s.state) (s.out_window_size)

  pub close_remote-IsValid :
      (m : StreamMap H) (id : ℕ) (s : HttpStreamCommon H)
      → get_mut m id ≡ some s
      → IsValid m
      → IsValid (close_remote m id s)
  unfolding close_remote
  close_remote-IsValid m id s found v =
      remove_if_closed-IsValid
        (record { map = put (m.map) id (closed_remote s); writable_streams = m.writable_streams })
        id (closed_remote s)
        (put-IsValid m id s (closed_remote s) found (is_writable-closed_remote s) v)
