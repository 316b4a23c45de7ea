-- ===== src/Msgpack/Arms.antt =====
-- The arms of `mp_decode` at what the encoder writes.
use alcove.Base.{
  ℕ, suc, ◌+◌, ◌-◌, ◌*◌, ◌%◌, ◌^◌, ◌≤◌, ◌≡◌, refl, sym, ap, ◌∙◌, List, ◌∷◌, ◌++◌, Option, none,
  some, false, arith, ltb, leb, get_elem?, get_elem?-lt, length, length-append, Bool-cases,
  Option-cases, inl, inr, ◌>>=◌, ℤ,
}
use alcove.Msgpack.{put_be, put_sized, fixnum, int_arm, decode_int}
use alcove.Msgpack.Bytes.{Holds, Holds-length, length-put_be}
use alcove.Msgpack.Value.{Value, number, string, blob, encode_text}
use alcove.Msgpack.Decode.{
  Decoded, decoded, read_size, is_int, decode_fixstr, decode_string, decode_blob, decode_sized,
  decode_arm, decode,
}
use alcove.Msgpack.Sizes.{
  Holds-append, slice-Holds, read_size-put_be, fixed, one_byte, two_bytes, four_bytes,
  put_sized-Prefix, text_lead,
}

pub >>=-eq-some {ℓ κ} :
    {A : Type ℓ} {B : Type κ} (r : Option A) (f : A → Option B) {b : B}
    → (r >>= f) ≡ some b
    → (a : A) × (r ≡ some a) × (f a ≡ some b)
>>=-eq-some none f e = cc
>>=-eq-some (some a) f e = (a, refl, e)

-- A size and the bytes behind it.
sized_at :
    (b : List ℕ) (k n nb : ℕ) (s : List ℕ)
    → k ≤ length b
    → nb ≤ 8
    → n % 2 ^ (nb * 8) ≡ n
    → Holds b k (put_be n nb ++ s)
    → (read_size b k nb ≡ some (some (n, k + nb)))
      × Holds b (k + nb) s
      × (k + nb + length s ≤ length b)
sized_at b k n nb s le small low h =
    let (size, rest) = Holds-append b k (put_be n nb) s h in
    let e : k + length (put_be n nb) ≡ k + nb = ap (λ z. k + z) (length-put_be n nb) in
    let rest' : Holds b (k + nb) s = rw e at rest in
    let inside = Holds-length b k (put_be n nb) le size in
    (
      read_size-put_be b k n nb le small low size,
      rest',
      Holds-length b (k + nb) s (omega (arith, e, inside)) rest',
    )

module _ (b : List ℕ) (k : ℕ) (s : List ℕ) (le : k ≤ length b) where
  string_at :
      (nb : ℕ)
      → nb ≤ 8
      → length s % 2 ^ (nb * 8) ≡ length s
      → length s ≤ 2147483647
      → Holds b k (put_be (length s) nb ++ s)
      → decode_string b k nb ≡ some (some (string s, k + nb + length s))
  unfolding decode_string
  string_at nb small low short h =
      let (size, rest, room) = sized_at b k (length s) nb s le small low h in
      let fits : ltb (length b - (k + nb)) (length s) ≡ false = ground arith in
      let int : ltb 2147483647 (length s) ≡ false = ground arith in
      rw (size, decoded, fits, int, slice-Holds b (k + nb) s rest) refl

  blob_at :
      (nb : ℕ)
      → nb ≤ 8
      → length s % 2 ^ (nb * 8) ≡ length s
      → Holds b k (put_be (length s) nb ++ s)
      → decode_blob b k nb ≡ some (some (blob s, k + nb + length s))
  unfolding decode_blob
  blob_at nb small low h =
      let (size, rest, room) = sized_at b k (length s) nb s le small low h in
      let fits : ltb (length b - (k + nb)) (length s) ≡ false = ground arith in
      rw (size, decoded, fits, slice-Holds b (k + nb) s rest) refl

  fixstr_at : Holds b k s → decode_fixstr b k (length s) ≡ some (some (string s, k + length s))
  unfolding decode_fixstr
  fixstr_at h =
      let fits : ltb (length b) (k + length s) ≡ false = ground (arith, Holds-length b k s le h) in
      rw (fits, slice-Holds b k s h) refl

  -- An array or a map behind its size, with at least as many bytes as elements.
  pub sized_container :
      (n nb : ℕ) (go : ℕ → ℕ → Decoded Value)
      → nb ≤ 8
      → n % 2 ^ (nb * 8) ≡ n
      → n ≤ length s
      → Holds b k (put_be n nb ++ s)
      → (decode_sized go b k nb ≡ go n (k + nb)) × Holds b (k + nb) s × (k + nb ≤ length b)
  unfolding decode_sized
  sized_container n nb go small low few h =
      let (size, rest, room) = sized_at b k n nb s le small low h in
      let fits : ltb (length b - (k + nb)) n ≡ false = ground arith in
      (rw (size, decoded, fits) refl, rest, omega arith)

module _ (double_of : ℤ → ℕ) (widen : ℕ → ℕ) (left : ℕ) (b : List ℕ) (i : ℕ) where
  abbrev pub below : ℕ → Decoded Value
  below = decode double_of widen left b

  abbrev pub arm_at : ℕ → Decoded Value
  arm_at c = decode_arm double_of widen below b (i + 1) c

  pub at_lead : (c : ℕ) → get_elem? b i ≡ some c → decode double_of widen (suc left) b i ≡ arm_at c
  unfolding decode
  at_lead c here =
      let inside : leb (length b) i ≡ false = ground (arith, get_elem?-lt b i c here) in
      rw (inside, here, ◌>>=◌) refl

  int_lead : (k c : ℕ) → is_int c ≡ false → int_arm b k c ≡ some none
  unfolding int_arm
  int_lead k c no_int = ground arith

  -- An integer that the integer arms read.
  pub int_Reads :
      (v : ℤ) (j : ℕ)
      → decode_int b i ≡ some (some (fixnum v, j))
      → decode double_of widen (suc left) b i ≡ some (some (number v, j))
  unfolding decode_int decode_arm
  int_Reads v j run = elim (Bool-cases (leb (length b) i)) [
    | inl outside ↦ let cut : decode_int b i ≡ some none = rw outside refl in absurd (cc)
    | inr inside ↦ elim (Option-cases (get_elem? b i)) [
      | inl nothing ↦ let stuck : decode_int b i ≡ none = rw (inside, nothing) refl in absurd (cc)
      | inr (c, here) ↦
          let arm : int_arm b (i + 1) c ≡ some (some (fixnum v, j)) =
            sym (rw (inside, here, ◌>>=◌) refl) ∙ run in
          elim (Bool-cases (is_int c)) [
            | inl yes_int ↦ at_lead c here ∙ rw (yes_int, arm, decoded) refl
            | inr no_int ↦ let never = int_lead (i + 1) c no_int in absurd (cc)
          ]
    ]
  ]

  -- A text behind a tag and a size of `nb` bytes.
  tagged_string :
      (s bytes : List ℕ) (tag nb : ℕ)
      → bytes ≡ (tag ∷ put_be (length s) nb) ++ s
      → arm_at tag ≡ decode_string b (i + 1) nb
      → nb ≤ 8
      → length s % 2 ^ (nb * 8) ≡ length s
      → length s ≤ 2147483647
      → i ≤ length b
      → Holds b i bytes
      → decode double_of widen (suc left) b i ≡ some (some (string s, i + length bytes))
  tagged_string s bytes tag nb is arm small low short le h =
      let (here, rest) = rw is at h in
      let size : i + 1 + nb + length s ≡ i + length bytes =
        rw is
          (omega (arith, length-append (put_be (length s) nb) s, length-put_be (length s) nb)) in
      at_lead tag here
      ∙ arm
      ∙ string_at b (i + 1) s (omega (arith, get_elem?-lt b i tag here)) nb small low short rest
      ∙ ap (λ z. some (some (string s, z))) size

  -- What encode_text writes.
  pub text_Reads :
      (s bytes : List ℕ)
      → encode_text s ≡ some bytes
      → length s ≤ 2147483647
      → i ≤ length b
      → Holds b i bytes
      → decode double_of widen (suc left) b i ≡ some (some (string s, i + length bytes))
  unfolding encode_text decode_arm
  text_Reads s bytes e short le h =
      let (head, sized, done) =
        >>=-eq-some (put_sized 0xA0 32 0xD9 0xDA 0xDB (length s)) (λ z. some (z ++ s)) e in
      let is : bytes ≡ head ++ s = cc in
      elim (put_sized-Prefix 0xA0 32 0xD9 0xDA 0xDB (length s) head sized) [
        | fixed lt at ↦
            let (lead, mask, low) = text_lead (length s) lt in
            let whole : bytes ≡ (160 + length s) ∷ s =
              is ∙ ap (λ z. z ++ s) at ∙ ap (λ z. z ∷ s) lead in
            let (here, rest) = rw whole at h in
            let no_int : is_int (160 + length s) ≡ false = ground arith in
            let size : i + 1 + length s ≡ i + length bytes = rw whole (omega arith) in
            at_lead (160 + length s) here
            ∙ rw (no_int, mask, low)
                (fixstr_at b (i + 1) s (omega (arith, get_elem?-lt b i (160 + length s) here)) rest)
            ∙ ap (λ z. some (some (string s, z))) size
        | one_byte _ small at ↦
            tagged_string s bytes 0xD9 1 (is ∙ ap (λ z. z ++ s) at) refl (omega arith) (omega arith)
              short le h
        | two_bytes small at ↦
            tagged_string s bytes 0xDA 2 (is ∙ ap (λ z. z ++ s) at) refl (omega arith) (omega arith)
              short le h
        | four_bytes small at ↦
            tagged_string s bytes 0xDB 4 (is ∙ ap (λ z. z ++ s) at) refl (omega arith) (omega arith)
              short le h
      ]

  tagged_blob :
      (s bytes : List ℕ) (tag nb : ℕ)
      → bytes ≡ (tag ∷ put_be (length s) nb) ++ s
      → arm_at tag ≡ decode_blob b (i + 1) nb
      → nb ≤ 8
      → length s % 2 ^ (nb * 8) ≡ length s
      → i ≤ length b
      → Holds b i bytes
      → decode double_of widen (suc left) b i ≡ some (some (blob s, i + length bytes))
  tagged_blob s bytes tag nb is arm small low le h =
      let (here, rest) = rw is at h in
      let size : i + 1 + nb + length s ≡ i + length bytes =
        rw is
          (omega (arith, length-append (put_be (length s) nb) s, length-put_be (length s) nb)) in
      at_lead tag here
      ∙ arm
      ∙ blob_at b (i + 1) s (omega (arith, get_elem?-lt b i tag here)) nb small low rest
      ∙ ap (λ z. some (some (blob s, z))) size

  pub blob_Reads :
      (s head : List ℕ)
      → put_sized 0 0 0xC4 0xC5 0xC6 (length s) ≡ some head
      → i ≤ length b
      → Holds b i (head ++ s)
      → decode double_of widen (suc left) b i ≡ some (some (blob s, i + length (head ++ s)))
  unfolding decode_arm
  blob_Reads s head sized le h = elim (put_sized-Prefix 0 0 0xC4 0xC5 0xC6 (length s) head sized) [
    | fixed lt at ↦ absurd (omega arith)
    | one_byte _ small at ↦
        tagged_blob s (head ++ s) 0xC4 1 (ap (λ z. z ++ s) at) refl (omega arith) (omega arith) le h
    | two_bytes small at ↦
        tagged_blob s (head ++ s) 0xC5 2 (ap (λ z. z ++ s) at) refl (omega arith) (omega arith) le h
    | four_bytes small at ↦
        tagged_blob s (head ++ s) 0xC6 4 (ap (λ z. z ++ s) at) refl (omega arith) (omega arith) le h
  ]
