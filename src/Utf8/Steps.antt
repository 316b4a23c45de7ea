-- ===== src/Utf8/Steps.antt =====
-- One round of `utf8_valid`, in terms of the scalar value that starts at its offset.
use alcove.Base.{
  ℕ, zero, suc, ◌+◌, ◌-◌, ◌<◌, ◌≤◌, ◌≡◌, refl, List, ◌∷◌, ◌++◌, Option, none, some, true, false,
  arith, ltb, length, get_elem?, get_elem?-append, get_elem?_within, Bool-cases, Option-cases, inl,
  inr, ◌>>=◌,
}
use alcove.Utf8.{
  Verdict, invalid, strict_lead, valid_rest, rejected, valid_loop, is_continuation, push_bits,
}
use alcove.Utf8.Scalar.{strict_lead_ranges, scalar_at}

module _ (pre r : List ℕ) where
  pub valid_rest_shift :
      (left k cp : ℕ) → valid_rest (pre ++ r) (length pre) left k cp ≡ valid_rest r 0 left k cp
  unfolding valid_rest
  valid_rest_shift zero k cp = refl
  valid_rest_shift (suc left) k cp =
      let z : 0 + k ≡ k = omega arith in
      rw (get_elem?-append pre r k, z)
        (elim (Option-cases (get_elem? r k)) [
          | inl e ↦ rw e
          | inr (cc, e) ↦ elim (Bool-cases (is_continuation cc)) [
            | inl t ↦ rw (e, ◌>>=◌, t) (valid_rest_shift left (k + 1) (push_bits cp cc))
            | inr f ↦ rw (e, ◌>>=◌, f)
          ]
        ])

valid_rest_total :
    (r : List ℕ) (left k cp : ℕ)
    → k + left ≤ length r
    → (q : Option ℕ) × (valid_rest r 0 left k cp ≡ some q)
unfolding valid_rest
valid_rest_total r zero k cp h = (some cp, refl)
valid_rest_total r (suc left) k cp h =
    let z : 0 + k ≡ k = omega arith in
    let (cc, e) = get_elem?_within r k (omega arith) in
    elim (Bool-cases (is_continuation cc)) [
      | inl t ↦
          let (q, run) = valid_rest_total r left (k + 1) (push_bits cp cc) (omega arith) in
          (q, rw (z, e, ◌>>=◌, t) run)
      | inr f ↦ (none, rw (z, e, ◌>>=◌, f))
    ]

-- What the loop does at an offset where `found` starts.
abbrev pub goes_on : ℕ → List ℕ → ℕ → ℕ → Option (ℕ × ℕ) → Option Verdict
goes_on fuel p n i none = some (invalid i)
goes_on fuel p n i (some (cp, len)) = valid_loop fuel p n (i + len)

module _ (fuel : ℕ) (p : List ℕ) (n i c : ℕ) (r : List ℕ) (inside : ltb i n ≡ true)
    (start : get_elem? p i ≡ some c) (room : (len : ℕ) → ltb n (i + len) ≡ ltb (length (c ∷ r)) len)
    (shift : (left k cp : ℕ) → valid_rest p i left k cp ≡ valid_rest (c ∷ r) 0 left k cp) where
  valid_step_read :
      (len cp least : ℕ) (q : Option ℕ)
      → valid_rest (c ∷ r) 0 (len - 1) 1 cp ≡ some q
      → ltb (length (c ∷ r)) len ≡ false
      → ltb c 0x80 ≡ false
      → strict_lead c ≡ some (len, cp, least)
      → valid_loop (suc fuel) p n i ≡ goes_on fuel p n i (scalar_at (c ∷ r))
  unfolding valid_loop scalar_at
  valid_step_read len cp least none run fits high lead =
      rw (inside, valid_loop, start, ◌>>=◌, high, lead, room, fits, shift, run, ◌>>=◌)
  valid_step_read len cp least (some cp') run fits high lead =
      rw (inside, valid_loop, start, ◌>>=◌, high, lead, room, fits, shift, run, ◌>>=◌)
        (elim (Bool-cases (rejected cp' least)) [ inl t ↦ rw t | inr f ↦ rw f ])

  pub valid_step : c < 256 → valid_loop (suc fuel) p n i ≡ goes_on fuel p n i (scalar_at (c ∷ r))
  unfolding valid_loop scalar_at
  valid_step byte = elim (Bool-cases (ltb c 0x80)) [
    | inl a ↦ rw (inside, valid_loop, start, ◌>>=◌, a)
    | inr na ↦ elim (Option-cases (strict_lead c)) [
      | inl e ↦ rw (inside, valid_loop, start, ◌>>=◌, na, e)
      | inr (l, e) ↦ elim (Bool-cases (ltb (length (c ∷ r)) l.0)) [
        | inl t ↦ rw (inside, valid_loop, start, ◌>>=◌, na, e, room, t)
        | inr f ↦
            let some_byte : 0 < l.0 = ground (arith, strict_lead_ranges c) in
            let (q, run) = valid_rest_total (c ∷ r) (l.0 - 1) 1 l.1 (ground arith) in
            valid_step_read l.0 l.1 l.2 q run f na e
      ]
    ]
  ]
