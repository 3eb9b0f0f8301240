-- ===== src/Connection/StreamIds.antt =====
-- The ids of the streams that this side starts.
use rust_http.Prelude.{
  ℕ, ◌+◌, ◌%◌, ◌^◌, ◌<◌, ◌≡◌, refl, arith, inl, inr, ◌⊎◌, ◌==◌, Bool-cases, if◌then◌else◌, false,
  ==_iff,
}
use rust_http.Stream.Role.{ClientOrServer, client, server, locally, init_where, first_stream_id}
use rust_http.Connection.{Conn, next_local_stream_id}

-- No stream was started yet, or the last one is of this side.
abbrev pub IsLocal : Conn → Type 0
IsLocal c = (c.last_local_stream_id ≡ 0) ⊎ (init_where (c.role) (c.last_local_stream_id) ≡ locally)

first-locally : (role : ClientOrServer) → init_where role (first_stream_id role) ≡ locally
first-locally client = refl
first-locally server = refl

next-locally :
    (role : ClientOrServer) (id : ℕ)
    → init_where role id ≡ locally
    → init_where role (id + 2) ≡ locally
next-locally client id h = ground (arith, h)
next-locally server id h = ground (arith, h)

not_none :
    (role : ClientOrServer) (last : ℕ)
    → (last ≡ 0) ⊎ (init_where role last ≡ locally)
    → (last == 0) ≡ false
    → init_where role last ≡ locally
not_none role last (inl z) n = absurd (ground (arith, z, n))
not_none role last (inr h) n = h

abbrev next_id : ClientOrServer → ℕ → ℕ
next_id role last = if last == 0 then first_stream_id role else (last + 2) % 2 ^ 32

first_positive : (role : ClientOrServer) → 0 < first_stream_id role
first_positive client = omega arith
first_positive server = omega arith

next_id-fresh :
    (role : ClientOrServer) (last : ℕ)
    → (last ≡ 0) ⊎ (init_where role last ≡ locally)
    → last + 2 < 2 ^ 32
    → (init_where role (next_id role last) ≡ locally) × (last < next_id role last)
next_id-fresh role last l fits = elim (Bool-cases (last == 0)) [
  | inl z ↦
      let q : last ≡ 0 = (==_iff last 0).0 z in
      rw z (first-locally role, omega (arith, q, first_positive role))
  | inr n ↦
      let small : (last + 2) % 2 ^ 32 ≡ last + 2 = omega (arith, fits) in
      rw (n, small) (next-locally role last (not_none role last l n), omega arith)
]

-- Where the last id is of this side, or there was none, and the next id fits 32 bits, the next one is
-- of this side, is above it, and becomes the last.
pub next_local_stream_id-fresh :
    (c : Conn)
    → IsLocal c
    → c.last_local_stream_id + 2 < 2 ^ 32
    → (init_where (c.role) ((next_local_stream_id c).0) ≡ locally)
      × (c.last_local_stream_id < (next_local_stream_id c).0)
      × ((next_local_stream_id c).1.last_local_stream_id ≡ (next_local_stream_id c).0)
      × IsLocal ((next_local_stream_id c).1)
next_local_stream_id-fresh c l fits =
    let (own, above) = next_id-fresh (c.role) (c.last_local_stream_id) l fits in
    (own, above, refl, inr own)
