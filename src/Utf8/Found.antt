-- ===== src/Utf8/Found.antt =====
-- The encoding of a scalar value is found where it stands.
use alcove.Base.{
  ℕ, ◌+◌, ◌*◌, ◌/◌, ◌%◌, ◌<◌, ◌≤◌, ◌≡◌, List, ◌∷◌, ◌++◌, some, arith, ltb, length, Bool-cases, inl,
  inr, ◌>>=◌, ltb→lt,
}
use alcove.Utf8.{encode, rejected}
use alcove.Utf8.Bytes.{encode_sums, is_continuation_iff, push_bits_sum}
use alcove.Utf8.Scalar.{IsScalar, scalar_at, strict_lead_ranges}

module _ (cp : ℕ) (t : List ℕ) where
  found_two :
      0x80 ≤ cp → cp < 0x800 → scalar_at ((192 + cp / 64) ∷ (128 + cp % 64) ∷ t) ≡ some (cp, 2)
  unfolding scalar_at rejected
  found_two lo hi =
      let b : ℕ = 192 + cp / 64 in
      let x : ℕ = 128 + cp % 64 in
      ground (arith, strict_lead_ranges b, is_continuation_iff x, push_bits_sum (b % 32) x)

  found_three :
      IsScalar cp
      → 0x800 ≤ cp
      → cp < 0x10000
      → scalar_at ((224 + cp / 4096) ∷ (128 + cp / 64 % 64) ∷ (128 + cp % 64) ∷ t) ≡ some (cp, 3)
  unfolding scalar_at rejected
  found_three sc lo hi =
      let b : ℕ = 224 + cp / 4096 in
      let x : ℕ = 128 + cp / 64 % 64 in
      let y : ℕ = 128 + cp % 64 in
      ground (
        arith,
        strict_lead_ranges b,
        is_continuation_iff x,
        is_continuation_iff y,
        push_bits_sum (b % 16) x,
        push_bits_sum (b % 16 * 64 + x % 64) y,
      )

  found_four :
      cp ≤ 0x10FFFF
      → 0x10000 ≤ cp
      → scalar_at (
          (240 + cp / 262144) ∷ (128 + cp / 4096 % 64) ∷ (128 + cp / 64 % 64) ∷ (128 + cp % 64) ∷ t)
        ≡ some (cp, 4)
  unfolding scalar_at rejected
  found_four hi lo =
      let b : ℕ = 240 + cp / 262144 in
      let x : ℕ = 128 + cp / 4096 % 64 in
      let y : ℕ = 128 + cp / 64 % 64 in
      let z : ℕ = 128 + cp % 64 in
      ground (
        arith,
        strict_lead_ranges b,
        is_continuation_iff x,
        is_continuation_iff y,
        is_continuation_iff z,
        push_bits_sum (b % 8) x,
        push_bits_sum (b % 8 * 64 + x % 64) y,
        push_bits_sum ((b % 8 * 64 + x % 64) * 64 + y % 64) z,
      )

  -- An encoded scalar value is found.
  pub scalar_at-encode : IsScalar cp → scalar_at (encode cp ++ t) ≡ some (cp, length (encode cp))
  unfolding scalar_at
  scalar_at-encode sc = rw (encode_sums cp (omega arith)) (elim (Bool-cases (ltb cp 0x80)) [
    | inl a ↦ rw (a, ◌>>=◌, a)
    | inr na ↦ elim (Bool-cases (ltb cp 0x800)) [
      | inl b ↦ rw (na, b) (found_two (ground arith) (ltb→lt _ _ b))
      | inr nb ↦ elim (Bool-cases (ltb cp 0x10000)) [
        | inl c ↦ rw (na, nb, c) (found_three sc (ground arith) (ltb→lt _ _ c))
        | inr nc ↦ rw (na, nb, nc) (found_four sc.0 (ground arith))
      ]
    ]
  ])
