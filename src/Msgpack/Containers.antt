-- ===== src/Msgpack/Containers.antt =====
-- The arms of `mp_decode` for arrays and maps at the prefixes that the encoder writes.
use alcove.Base.{
  ℕ, suc, ◌+◌, ◌*◌, ◌%◌, ◌^◌, ◌≤◌, ◌≡◌, refl, ap, ◌∙◌, List, [], ◌∷◌, ◌++◌, some, false, arith,
  get_elem?-lt, length, ℤ,
}
use alcove.Msgpack.{put_be, put_sized}
use alcove.Msgpack.Bytes.{Holds, length-put_be}
use alcove.Msgpack.Value.{Value}
use alcove.Msgpack.Decode.{
  Decoded, is_int, decode_sized, decode_array, decode_map, decode_arm, decode,
}
use alcove.Msgpack.Sizes.{
  fixed, one_byte, two_bytes, four_bytes, put_sized-Prefix, array_lead, map_lead,
}
use alcove.Msgpack.Arms.{sized_container, at_lead, below, arm_at}

module _ (double_of : ℤ → ℕ) (widen : ℕ → ℕ) (left : ℕ) (b : List ℕ) (i : ℕ) where
  -- The decoder is at the elements, with the bytes of the elements in front of it.
  abbrev pub AtElements : (ℕ → ℕ → Decoded Value) → ℕ → List ℕ → List ℕ → Type 0
  AtElements go n head s =
      (decode double_of widen (suc left) b i ≡ go n (i + length head))
      × Holds b (i + length head) s
      × (i + length head ≤ length b)

  tagged_container :
      (go : ℕ → ℕ → Decoded Value) (n : ℕ) (s head : List ℕ) (tag nb : ℕ)
      → head ≡ tag ∷ put_be n nb
      → arm_at double_of widen left b i tag ≡ decode_sized go b (i + 1) nb
      → nb ≤ 8
      → n % 2 ^ (nb * 8) ≡ n
      → n ≤ length s
      → Holds b i (head ++ s)
      → AtElements go n head s
  tagged_container go n s head tag nb is arm small low few h =
      let (here, rest) = rw is at h in
      let (run, elements, le) =
        sized_container b (i + 1) s (omega (arith, get_elem?-lt b i tag here)) n nb go small low few
          rest in
      let size : i + 1 + nb ≡ i + length head = rw is (omega (arith, length-put_be n nb)) in
      (
        at_lead double_of widen left b i tag here ∙ arm ∙ run ∙ ap (go n) size,
        rw size at elements,
        rw size at le,
      )

  fixed_container :
      (go : ℕ → ℕ → Decoded Value) (n : ℕ) (s head : List ℕ) (lead : ℕ)
      → head ≡ lead ∷ []
      → arm_at double_of widen left b i lead ≡ go n (i + 1)
      → Holds b i (head ++ s)
      → AtElements go n head s
  fixed_container go n s head lead is arm h =
      let (here, rest) = rw is at h in
      let size : i + 1 ≡ i + length head = rw is refl in
      let inside : i + 1 ≤ length b = omega (arith, get_elem?-lt b i lead here) in
      (
        at_lead double_of widen left b i lead here ∙ arm ∙ ap (go n) size,
        rw size at rest,
        rw size at inside,
      )

  pub array_Reads :
      (n : ℕ) (s head : List ℕ)
      → put_sized 0x90 16 0 0xDC 0xDD n ≡ some head
      → n ≤ length s
      → Holds b i (head ++ s)
      → AtElements (decode_array (below double_of widen left b i)) n head s
  unfolding decode_arm
  array_Reads n s head sized few h = elim (put_sized-Prefix 0x90 16 0 0xDC 0xDD n head sized) [
    | fixed lt at ↦
        let (lead, text, mask, low) = array_lead n lt in
        let no_int : is_int (144 + n) ≡ false = ground arith in
        fixed_container (decode_array (below double_of widen left b i)) n s head (144 + n)
          (at ∙ ap (λ z. z ∷ []) lead) (rw (no_int, text, mask, low) refl) h
    | one_byte no_tier _ _ ↦ absurd (cc)
    | two_bytes small at ↦
        tagged_container (decode_array (below double_of widen left b i)) n s head 0xDC 2 at refl
          (omega arith) (omega arith) few h
    | four_bytes small at ↦
        tagged_container (decode_array (below double_of widen left b i)) n s head 0xDD 4 at refl
          (omega arith) (omega arith) few h
  ]

  pub map_Reads :
      (n : ℕ) (s head : List ℕ)
      → put_sized 0x80 16 0 0xDE 0xDF n ≡ some head
      → n ≤ length s
      → Holds b i (head ++ s)
      → AtElements (decode_map (below double_of widen left b i)) n head s
  unfolding decode_arm
  map_Reads n s head sized few h = elim (put_sized-Prefix 0x80 16 0 0xDE 0xDF n head sized) [
    | fixed lt at ↦
        let (lead, text, array, mask, low) = map_lead n lt in
        let no_int : is_int (128 + n) ≡ false = ground arith in
        fixed_container (decode_map (below double_of widen left b i)) n s head (128 + n)
          (at ∙ ap (λ z. z ∷ []) lead) (rw (no_int, text, array, mask, low) refl) h
    | one_byte no_tier _ _ ↦ absurd (cc)
    | two_bytes small at ↦
        tagged_container (decode_map (below double_of widen left b i)) n s head 0xDE 2 at refl
          (omega arith) (omega arith) few h
    | four_bytes small at ↦
        tagged_container (decode_map (below double_of widen left b i)) n s head 0xDF 4 at refl
          (omega arith) (omega arith) few h
  ]
