-- ===== src/Msgpack/Lengths.antt =====
-- How long the integers of MessagePack are written, and how large the numbers are that are read.
use alcove.Base.{
  ℕ, zero, suc, ◌+◌, ◌*◌, ◌^◌, ◌<◌, ◌≤◌, ◌≡◌, refl, sym, ◌∙◌, List, none, some, arith, get_elem?,
  length, ltb, Bool-cases, Option-cases, inl, inr, u64, ◌<<◌, ◌>>=◌, ℤ, pos, negsuc, to_u64,
}
use native.Mathlib.Nat.{one-le-pow, pow-le-pow_right, mul-le-mul_right}
use alcove.Fixnum.{fix_fits}
use alcove.Msgpack.{encode_int, get_from, get_be, sext, fixnum, float_of, number}
use alcove.Msgpack.Bytes.{length-put_be, push_byte, power_byte}

-- Every cell of the buffer is a byte.
abbrev pub AreBytes : List ℕ → Type 0
AreBytes b = (i x : ℕ) → get_elem? b i ≡ some x → x < 256

module _ (b : List ℕ) (bytes : AreBytes b) where
  get_from-lt :
      (n acc i v : ℕ)
      → (acc + 1) * 2 ^ (n * 8) ≤ 2 ^ 64
      → get_from acc b i n ≡ some v
      → v < (acc + 1) * 2 ^ (n * 8)
  unfolding get_from
  get_from-lt zero acc i v small run = let e : acc ≡ v = cc in omega (arith, e)
  get_from-lt (suc n) acc i v small run = elim (Option-cases (get_elem? b i)) [
    | inl outside ↦ let stuck : get_from acc b i (suc n) ≡ none = rw (outside, get_from) in cc
    | inr (d, here) ↦
        let p = 2 ^ (n * 8) in
        let positive : 0 < p = one-le-pow (n * 8) 2 (omega arith) in
        let (pushed, small') =
          push_byte acc d p positive (bytes i d here) (rw power_byte at small) in
        let step : get_from (acc * 256 + d) b (i + 1) n ≡ some v =
          sym (rw (here, get_from, ◌>>=◌, pushed) refl) ∙ run in
        let ih = get_from-lt n (acc * 256 + d) (i + 1) v small' step in
        rw (power_byte n) (omega (arith, mul-le-mul_right p (bytes i d here)))
  ]

  pub get_be-lt : (n i v : ℕ) → n ≤ 8 → get_be b i n ≡ some v → v < 2 ^ (n * 8)
  unfolding get_be
  get_be-lt n i v le run =
      let few : n * 8 ≤ 64 = omega arith in
      let most : 2 ^ (n * 8) ≤ 2 ^ 64 = pow-le-pow_right (omega arith) few in
      omega (arith, get_from-lt n 0 i v (omega arith) run)

-- How long a number is written.
pub length_positive :
    (n : ℕ)
    → (n < 128 → length (encode_int (pos n)) ≤ 1)
      × (n < 2 ^ 8 → length (encode_int (pos n)) ≤ 2)
      × (n < 2 ^ 16 → length (encode_int (pos n)) ≤ 3)
      × (n < 2 ^ 32 → length (encode_int (pos n)) ≤ 5)
      × (length (encode_int (pos n)) ≤ 9)
unfolding encode_int
length_positive n =
    let w = to_u64 (pos n) in
    ground (arith, length-put_be w 1, length-put_be w 2, length-put_be w 4, length-put_be w 8)

pub length_negative :
    (m : ℕ)
    → (m < 32 → length (encode_int (negsuc m)) ≤ 1)
      × (m < 2 ^ 7 → length (encode_int (negsuc m)) ≤ 2)
      × (m < 2 ^ 15 → length (encode_int (negsuc m)) ≤ 3)
      × (m < 2 ^ 31 → length (encode_int (negsuc m)) ≤ 5)
      × (length (encode_int (negsuc m)) ≤ 9)
unfolding encode_int
length_negative m =
    let w = to_u64 (negsuc m) in
    ground (arith, length-put_be w 1, length-put_be w 2, length-put_be w 4, length-put_be w 8)

pub number_inv : (w z : ℤ) → number w ≡ fixnum z → w ≡ z
unfolding number
number_inv w z e = elim (Bool-cases (fix_fits w)) [
  | inl t ↦ let is : fixnum w ≡ fixnum z = sym (rw t refl) ∙ e in cc
  | inr f ↦ let is : float_of w ≡ fixnum z = sym (rw f refl) ∙ e in cc
]

-- The values of at most so many bits.
abbrev pub Within : ℕ → ℤ → Type 0
Within p (pos n) = n < p
Within p (negsuc m) = m < p

pub sext_one-Within : (v : ℕ) → v < 2 ^ 8 → Within (2 ^ 7) (sext v 1)
unfolding sext
sext_one-Within v lt = elim (Bool-cases (ltb (u64 (v << 56)) (2 ^ 63))) [
  | inl t ↦ rw t (ground arith)
  | inr f ↦ rw f (ground arith)
]

pub sext_two-Within : (v : ℕ) → v < 2 ^ 16 → Within (2 ^ 15) (sext v 2)
unfolding sext
sext_two-Within v lt = elim (Bool-cases (ltb (u64 (v << 48)) (2 ^ 63))) [
  | inl t ↦ rw t (ground arith)
  | inr f ↦ rw f (ground arith)
]

pub sext_four-Within : (v : ℕ) → v < 2 ^ 32 → Within (2 ^ 31) (sext v 4)
unfolding sext
sext_four-Within v lt = elim (Bool-cases (ltb (u64 (v << 32)) (2 ^ 63))) [
  | inl t ↦ rw t (ground arith)
  | inr f ↦ rw f (ground arith)
]

pub Within-one : (z : ℤ) → Within (2 ^ 7) z → length (encode_int z) ≤ 2
Within-one (pos n) h = (length_positive n).1 (omega arith)
Within-one (negsuc m) h = (length_negative m).1 (omega arith)

pub Within-two : (z : ℤ) → Within (2 ^ 15) z → length (encode_int z) ≤ 3
Within-two (pos n) h = (length_positive n).2 (omega arith)
Within-two (negsuc m) h = (length_negative m).2 (omega arith)

pub Within-four : (z : ℤ) → Within (2 ^ 31) z → length (encode_int z) ≤ 5
Within-four (pos n) h = (length_positive n).3 (omega arith)
Within-four (negsuc m) h = (length_negative m).3 (omega arith)

pub at_most_nine : (z : ℤ) → length (encode_int z) ≤ 9
at_most_nine (pos n) = (length_positive n).4
at_most_nine (negsuc m) = (length_negative m).4
