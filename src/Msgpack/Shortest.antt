-- ===== src/Msgpack/Shortest.antt =====
-- `mp_encode_int` writes the shortest form that `mp_decode` reads as the same fixnum.
use alcove.Base.{
  ℕ, ◌+◌, ◌-◌, ◌*◌, ◌^◌, ◌<◌, ◌≤◌, ◌≡◌, refl, sym, ◌∙◌, List, Option, none, some, false, ◌||◌,
  arith, get_elem?, length, ltb, leb, ◌==◌, Bool-cases, Option-cases, inl, inr, ◌>>=◌, ℤ, pos,
  negsuc,
}
use alcove.Msgpack.{
  encode_int, get_be, sext, Number, fixnum, float_of, number, decode_unsigned, decode_signed,
  int_arm, decode_int,
}
use alcove.Msgpack.Lengths.{
  AreBytes, get_be-lt, length_positive, length_negative, number_inv, sext_one-Within,
  sext_two-Within, sext_four-Within, Within-one, Within-two, Within-four, at_most_nine,
}

module _ (b : List ℕ) (bytes : AreBytes b) (k : ℕ) (z : ℤ) (j : ℕ) where
  decode_unsigned_inv :
      (nb : ℕ)
      → nb ≤ 8
      → decode_unsigned b k nb ≡ some (some (fixnum z, j))
      → (uv : ℕ) × (z ≡ pos uv) × (j ≡ k + nb) × (uv < 2 ^ (nb * 8))
  unfolding decode_unsigned
  decode_unsigned_inv nb le run = elim (Bool-cases (ltb (length b) (k + nb))) [
    | inl short ↦ let cut : decode_unsigned b k nb ≡ some none = rw short refl in cc
    | inr room ↦ elim (Option-cases (get_be b k nb)) [
      | inl outside ↦ let stuck : decode_unsigned b k nb ≡ none = rw (room, outside) refl in cc
      | inr (uv, got) ↦ elim (Bool-cases (ltb nb 8 || ltb uv (2 ^ 63))) [
        | inr wide ↦
            let float : decode_unsigned b k nb ≡ some (some (float_of (pos uv), k + nb)) =
              rw (room, got, ◌>>=◌, wide) refl in
            cc
        | inl narrow ↦
            let whole : decode_unsigned b k nb ≡ some (some (number (pos uv), k + nb)) =
              rw (room, got, ◌>>=◌, narrow) refl in
            let is : number (pos uv) ≡ fixnum z = cc in
            (uv, sym (number_inv (pos uv) z is), cc, get_be-lt b bytes nb k uv le got)
      ]
    ]
  ]

  decode_signed_inv :
      (nb : ℕ)
      → nb ≤ 8
      → decode_signed b k nb ≡ some (some (fixnum z, j))
      → (v : ℕ) × (z ≡ sext v nb) × (j ≡ k + nb) × (v < 2 ^ (nb * 8))
  unfolding decode_signed
  decode_signed_inv nb le run = elim (Bool-cases (ltb (length b) (k + nb))) [
    | inl short ↦ let cut : decode_signed b k nb ≡ some none = rw short refl in cc
    | inr room ↦ elim (Option-cases (get_be b k nb)) [
      | inl outside ↦ let stuck : decode_signed b k nb ≡ none = rw (room, outside) refl in cc
      | inr (v, got) ↦
          let whole : decode_signed b k nb ≡ some (some (number (sext v nb), k + nb)) =
            rw (room, got, ◌>>=◌) refl in
          let is : number (sext v nb) ≡ fixnum z = cc in
          (v, sym (number_inv (sext v nb) z is), cc, get_be-lt b bytes nb k v le got)
    ]
  ]

  abbrev Short : Type 0
  Short = k + length (encode_int z) ≤ j + 1

  short_unsigned :
      (nb : ℕ)
      → nb ≤ 8
      → ((n : ℕ) → n < 2 ^ (nb * 8) → length (encode_int (pos n)) ≤ nb + 1)
      → decode_unsigned b k nb ≡ some (some (fixnum z, j))
      → Short
  short_unsigned nb le bound run =
      let (uv, is, at_j, small) = decode_unsigned_inv nb le run in
      rw (is, at_j) (omega (arith, bound uv small))

  short_signed :
      (nb : ℕ)
      → nb ≤ 8
      → ((v : ℕ) → v < 2 ^ (nb * 8) → length (encode_int (sext v nb)) ≤ nb + 1)
      → decode_signed b k nb ≡ some (some (fixnum z, j))
      → Short
  short_signed nb le bound run =
      let (v, is, at_j, small) = decode_signed_inv nb le run in
      rw (is, at_j) (omega (arith, bound v small))

  short_one :
      (w : ℤ)
      → length (encode_int w) ≤ 1
      → ◌≡◌ {A = Option (Option (Number × ℕ))}
          (some (some (fixnum w, k)))
          (some (some (fixnum z, j)))
      → Short
  short_one w one run =
      let is : w ≡ z = cc in let at_j : k ≡ j = cc in rw (← is, ← at_j) (omega (arith, one))

  short_negative :
      (c : ℕ)
      → leb c 0x7F ≡ false
      → leb 0xE0 c ≡ false
      → (c == 0xCC) ≡ false
      → (c == 0xCD) ≡ false
      → (c == 0xCE) ≡ false
      → (c == 0xCF) ≡ false
      → int_arm b k c ≡ some (some (fixnum z, j))
      → Short
  unfolding int_arm
  short_negative c a0 a1 a2 a3 a4 a5 run = elim (Bool-cases (c == 0xD0)) [
    | inl t ↦
        short_signed 1 (omega arith) (λ v h. Within-one (sext v 1) (sext_one-Within v h))
          (sym (rw (a0, a1, a2, a3, a4, a5, t) refl) ∙ run)
    | inr a6 ↦ elim (Bool-cases (c == 0xD1)) [
      | inl t ↦
          short_signed 2 (omega arith) (λ v h. Within-two (sext v 2) (sext_two-Within v h))
            (sym (rw (a0, a1, a2, a3, a4, a5, a6, t) refl) ∙ run)
      | inr a7 ↦ elim (Bool-cases (c == 0xD2)) [
        | inl t ↦
            short_signed 4 (omega arith) (λ v h. Within-four (sext v 4) (sext_four-Within v h))
              (sym (rw (a0, a1, a2, a3, a4, a5, a6, a7, t) refl) ∙ run)
        | inr a8 ↦ elim (Bool-cases (c == 0xD3)) [
          | inl t ↦
              short_signed 8 (omega arith) (λ v h. at_most_nine (sext v 8))
                (sym (rw (a0, a1, a2, a3, a4, a5, a6, a7, a8, t) refl) ∙ run)
          | inr a9 ↦
              let other : int_arm b k c ≡ some none =
                rw (a0, a1, a2, a3, a4, a5, a6, a7, a8, a9) refl in
              cc
        ]
      ]
    ]
  ]

  -- The arms behind the one-byte forms.
  short_long :
      (c : ℕ)
      → leb c 0x7F ≡ false
      → leb 0xE0 c ≡ false
      → int_arm b k c ≡ some (some (fixnum z, j))
      → Short
  unfolding int_arm
  short_long c a0 a1 run = elim (Bool-cases (c == 0xCC)) [
    | inl t ↦
        short_unsigned 1 (omega arith) (λ n h. (length_positive n).1 h)
          (sym (rw (a0, a1, t) refl) ∙ run)
    | inr a2 ↦ elim (Bool-cases (c == 0xCD)) [
      | inl t ↦
          short_unsigned 2 (omega arith) (λ n h. (length_positive n).2 h)
            (sym (rw (a0, a1, a2, t) refl) ∙ run)
      | inr a3 ↦ elim (Bool-cases (c == 0xCE)) [
        | inl t ↦
            short_unsigned 4 (omega arith) (λ n h. (length_positive n).3 h)
              (sym (rw (a0, a1, a2, a3, t) refl) ∙ run)
        | inr a4 ↦ elim (Bool-cases (c == 0xCF)) [
          | inl t ↦
              short_unsigned 8 (omega arith) (λ n h. (length_positive n).4)
                (sym (rw (a0, a1, a2, a3, a4, t) refl) ∙ run)
          | inr a5 ↦ short_negative c a0 a1 a2 a3 a4 a5 run
        ]
      ]
    ]
  ]

  short_arm : (c : ℕ) → c < 256 → int_arm b k c ≡ some (some (fixnum z, j)) → Short
  unfolding int_arm
  short_arm c lt run = elim (Bool-cases (leb c 0x7F)) [
    | inl t ↦ short_one (pos c) ((length_positive c).0 (ground arith)) (sym (rw t refl) ∙ run)
    | inr a0 ↦ elim (Bool-cases (leb 0xE0 c)) [
      | inl t ↦
          short_one (negsuc (255 - c)) ((length_negative (255 - c)).0 (ground arith))
            (sym (rw (a0, t) refl) ∙ run)
      | inr a1 ↦ short_long c a0 a1 run
    ]
  ]

-- No encoding that the integer arms of mp_decode read as a fixnum, from a buffer of bytes, is
-- shorter than the one that mp_encode_int writes.
pub encode_int-shortest :
    (b : List ℕ) (i : ℕ) (z : ℤ) (j : ℕ)
    → AreBytes b
    → decode_int b i ≡ some (some (fixnum z, j))
    → i + length (encode_int z) ≤ j
unfolding decode_int
encode_int-shortest b i z j bytes run = elim (Bool-cases (leb (length b) i)) [
  | inl outside ↦ let cut : decode_int b i ≡ some none = rw outside refl in cc
  | inr inside ↦ elim (Option-cases (get_elem? b i)) [
    | inl nothing ↦ let stuck : decode_int b i ≡ none = rw (inside, nothing) refl in cc
    | inr (c, here) ↦
        let arm : int_arm b (i + 1) c ≡ some (some (fixnum z, j)) =
          sym (rw (inside, here, ◌>>=◌) refl) ∙ run in
        omega (arith, short_arm b bytes (i + 1) z j c (bytes i c here) arm)
  ]
]
