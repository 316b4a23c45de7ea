-- ===== src/Msgpack/Roundtrip.antt =====
-- The integers round trip through the bytes of MessagePack.
use alcove.Base.{
  ℕ, ◌+◌, ◌-◌, ◌^◌, ◌<◌, ◌≡◌, refl, sym, ap, ◌∙◌, List, some, true, false, arith, length, ltb, leb,
  Bool-cases, inl, inr, u8, ℤ, pos, negsuc, to_u64, IsInt64,
}
use alcove.Fixnum.Laws.{fits}
use alcove.Msgpack.{encode_int, Number, fixnum, int_arm, decode_int}
use alcove.Msgpack.Bytes.{Holds}
use alcove.Msgpack.Integers.{
  sext_one, sext_two, sext_four, sext_eight, sext_positive, number_fits, Written, unsigned_form,
  signed_form, short_form,
}

module _ (b : List ℕ) (i : ℕ) where
  positive_form : (n : ℕ) → n < 2 ^ 63 → Holds b i (encode_int (pos n)) → Written b i (pos n)
  unfolding encode_int int_arm
  positive_form n small = elim (Bool-cases (ltb n 128)) [
    | inl t0 ↦ short_form b i (pos n) (u8 n) (rw t0) (
        let whole : u8 n ≡ n = ground arith in
        let low : leb n 0x7F ≡ true = ground arith in
        rw (whole, low)
          (ap (λ (z : Number). some (some (z, i + 1)))
            (sym (number_fits (pos n) small (ground arith)))))
    | inr f0 ↦ elim (Bool-cases (leb n 0xFF)) [
      | inl t1 ↦ unsigned_form b i n 0xCC 1 (rw (f0, t1)) (λ k. refl) (omega arith) (ground arith)
      | inr f1 ↦ elim (Bool-cases (leb n 0xFFFF)) [
        | inl t2 ↦
            unsigned_form b i n 0xCD 2 (rw (f0, f1, t2)) (λ k. refl) (omega arith) (ground arith)
        | inr f2 ↦ elim (Bool-cases (leb n 0xFFFFFFFF)) [
          | inl t3 ↦
              unsigned_form b i n 0xCE 4 (rw (f0, f1, f2, t3)) (λ k. refl) (omega arith)
                (ground arith)
          | inr f3 ↦
              signed_form b i (pos n) 0xD3 8 (rw (f0, f1, f2, f3)) (λ k. refl) (omega arith)
                (sext_positive n small)
        ]
      ]
    ]
  ]

  negative_form : (m : ℕ) → m < 2 ^ 63 → Holds b i (encode_int (negsuc m)) → Written b i (negsuc m)
  unfolding encode_int int_arm
  negative_form m small = elim (Bool-cases (ltb m 32)) [
    | inl t0 ↦ short_form b i (negsuc m) (u8 (to_u64 (negsuc m))) (rw t0) (
        let byte : u8 (to_u64 (negsuc m)) ≡ 255 - m = ground arith in
        let high : leb (255 - m) 0x7F ≡ false = ground arith in
        let lead : leb 0xE0 (255 - m) ≡ true = ground arith in
        let back : 255 - (255 - m) ≡ m = ground arith in
        rw (byte, high, lead, back)
          (ap (λ (z : Number). some (some (z, i + 1)))
            (sym (number_fits (negsuc m) small (ground arith)))))
    | inr f0 ↦ elim (Bool-cases (ltb m 128)) [
      | inl t1 ↦
          signed_form b i (negsuc m) 0xD0 1 (rw (f0, t1)) (λ k. refl) (omega arith)
            (sext_one m (ground arith))
      | inr f1 ↦ elim (Bool-cases (ltb m 32768)) [
        | inl t2 ↦
            signed_form b i (negsuc m) 0xD1 2 (rw (f0, f1, t2)) (λ k. refl) (omega arith)
              (sext_two m (ground arith))
        | inr f2 ↦ elim (Bool-cases (ltb m 2147483648)) [
          | inl t3 ↦
              signed_form b i (negsuc m) 0xD2 4 (rw (f0, f1, f2, t3)) (λ k. refl) (omega arith)
                (sext_four m (ground arith))
          | inr f3 ↦
              signed_form b i (negsuc m) 0xD3 8 (rw (f0, f1, f2, f3)) (λ k. refl) (omega arith)
                (sext_eight m small)
        ]
      ]
    ]
  ]

  -- Where a buffer holds what mp_encode_int wrote of a fixnum, the integer arms of mp_decode
  -- return that fixnum and the position behind it.
  pub decode_int-encode_int :
      (v : ℤ)
      → IsInt64 v
      → fits v ≡ true
      → Holds b i (encode_int v)
      → decode_int b i ≡ some (some (fixnum v, i + length (encode_int v)))
  decode_int-encode_int (pos n) small h held =
      positive_form n small held
      ∙ ap (λ (z : Number). some (some (z, i + length (encode_int (pos n)))))
          (number_fits (pos n) small h)
  decode_int-encode_int (negsuc m) small h held =
      negative_form m small held
      ∙ ap (λ (z : Number). some (some (z, i + length (encode_int (negsuc m)))))
          (number_fits (negsuc m) small h)
