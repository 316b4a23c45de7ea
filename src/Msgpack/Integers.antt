-- ===== src/Msgpack/Integers.antt =====
-- Decoding what `mp_encode_int` wrote.
use alcove.Base.{
  ℕ, ◌+◌, ◌-◌, ◌*◌, ◌/◌, ◌%◌, ◌^◌, ◌<◌, ◌≤◌, ◌≡◌, refl, ap, ◌∙◌, List, [], ◌∷◌, Option, some, true,
  false, arith, get_elem?, length, ltb, leb, get_elem?-lt, u64, ◌<<◌, ◌>>=◌, ℤ, pos, negsuc, to_u64,
  to_i64, shift_right, IsInt64,
}
use alcove.Fixnum.Laws.{fits, fix_fits-fits}
use alcove.Msgpack.{
  put_be, encode_int, sext, Number, fixnum, number, decode_unsigned, decode_signed, int_arm,
  decode_int,
}
use alcove.Msgpack.Bytes.{Holds, Holds-length, length-put_be, get_be-put_be}

-- A word with its top bit set, shifted back down.
shift_down :
    (x sh y m : ℕ)
    → u64 (x << sh) ≡ y
    → 2 ^ 63 ≤ y
    → (2 ^ 64 - 1 - y) / 2 ^ sh ≡ m
    → shift_right (to_i64 (u64 (x << sh))) sh ≡ negsuc m
shift_down x sh y m shifted high back =
    let top : ltb y (2 ^ 63) ≡ false = ground arith in
    ap (λ (z : ℕ). shift_right (to_i64 z) sh) shifted ∙ rw top (ap negsuc back)

-- The sign extension of the low bytes of a negative number, for each width.
pub sext_one : (m : ℕ) → m < 2 ^ 7 → sext (to_u64 (negsuc m) % 2 ^ (1 * 8)) 1 ≡ negsuc m
unfolding sext
sext_one m lt =
    shift_down _ 56 ((2 ^ 8 - 1 - m) * 2 ^ 56) m (omega arith) (omega arith) (omega arith)

pub sext_two : (m : ℕ) → m < 2 ^ 15 → sext (to_u64 (negsuc m) % 2 ^ (2 * 8)) 2 ≡ negsuc m
unfolding sext
sext_two m lt =
    shift_down _ 48 ((2 ^ 16 - 1 - m) * 2 ^ 48) m (omega arith) (omega arith) (omega arith)

pub sext_four : (m : ℕ) → m < 2 ^ 31 → sext (to_u64 (negsuc m) % 2 ^ (4 * 8)) 4 ≡ negsuc m
unfolding sext
sext_four m lt =
    shift_down _ 32 ((2 ^ 32 - 1 - m) * 2 ^ 32) m (omega arith) (omega arith) (omega arith)

pub sext_eight : (m : ℕ) → m < 2 ^ 63 → sext (to_u64 (negsuc m) % 2 ^ (8 * 8)) 8 ≡ negsuc m
unfolding sext
sext_eight m lt = shift_down _ 0 (2 ^ 64 - 1 - m) m (omega arith) (omega arith) (omega arith)

pub sext_positive : (n : ℕ) → n < 2 ^ 63 → sext (to_u64 (pos n) % 2 ^ (8 * 8)) 8 ≡ pos n
unfolding sext
sext_positive n lt =
    let whole : u64 ((n % 2 ^ 64 % 2 ^ 64) << 0) ≡ n = omega arith in
    let low : ltb n (2 ^ 63) ≡ true = ground arith in
    let same : n / 2 ^ 0 ≡ n = omega arith in
    ap (λ (z : ℕ). shift_right (to_i64 z) 0) whole ∙ rw low (ap pos same)

pub number_fits : (v : ℤ) → IsInt64 v → fits v ≡ true → number v ≡ fixnum v
unfolding number
number_fits v small h = rw (fix_fits-fits v small ∙ h) refl

module _ (b : List ℕ) (i w : ℕ) (le : i ≤ length b) where
  decode_unsigned-put_be :
      (nb : ℕ)
      → nb < 8
      → Holds b i (put_be w nb)
      → decode_unsigned b i nb ≡ some (some (number (pos (w % 2 ^ (nb * 8))), i + nb))
  unfolding decode_unsigned
  decode_unsigned-put_be nb lt h =
      let room : ltb (length b) (i + nb) ≡ false =
        ground (arith, Holds-length b i (put_be w nb) le h, length-put_be w nb) in
      let narrow : ltb nb 8 ≡ true = ground arith in
      rw (room, get_be-put_be nb w b i (omega arith) h, ◌>>=◌, narrow) refl

  decode_signed-put_be :
      (nb : ℕ)
      → nb ≤ 8
      → Holds b i (put_be w nb)
      → decode_signed b i nb ≡ some (some (number (sext (w % 2 ^ (nb * 8)) nb), i + nb))
  unfolding decode_signed
  decode_signed-put_be nb lt h =
      let room : ltb (length b) (i + nb) ≡ false =
        ground (arith, Holds-length b i (put_be w nb) le h, length-put_be w nb) in
      rw (room, get_be-put_be nb w b i (omega arith) h, ◌>>=◌) refl

module _ (b : List ℕ) (i : ℕ) where
  abbrev pub Written : ℤ → Type 0
  Written v = decode_int b i ≡ some (some (number v, i + length (encode_int v)))

  at_lead :
      (c : ℕ) (r : Option (Option (Number × ℕ)))
      → get_elem? b i ≡ some c
      → int_arm b (i + 1) c ≡ r
      → decode_int b i ≡ r
  unfolding decode_int
  at_lead c r here arm =
      let inside : leb (length b) i ≡ false = ground (arith, get_elem?-lt b i c here) in
      rw (inside, here, ◌>>=◌) arm

  -- A form with a lead byte and `nb` bytes.
  long_form :
      (v : ℤ) (c w nb : ℕ)
      → encode_int v ≡ c ∷ put_be w nb
      → (Holds b (i + 1) (put_be w nb)
          → i + 1 ≤ length b
          → int_arm b (i + 1) c ≡ some (some (number v, i + 1 + nb)))
      → Holds b i (encode_int v)
      → Written v
  long_form v c w nb e arm h =
      let (here, rest) = rw e at h in
      let within = get_elem?-lt b i c here in
      let size : i + 1 + nb ≡ i + length (encode_int v) =
        rw e (omega (arith, length-put_be w nb)) in
      at_lead c _ here (arm rest (omega arith)) ∙ ap (λ (z : ℕ). some (some (number v, z))) size

  pub unsigned_form :
      (n c nb : ℕ)
      → encode_int (pos n) ≡ c ∷ put_be (to_u64 (pos n)) nb
      → ((k : ℕ) → int_arm b k c ≡ decode_unsigned b k nb)
      → nb < 8
      → to_u64 (pos n) % 2 ^ (nb * 8) ≡ n
      → Holds b i (encode_int (pos n))
      → Written (pos n)
  unsigned_form n c nb e arm lt low = long_form (pos n) c (to_u64 (pos n)) nb e λ h le.
      arm (i + 1)
      ∙ decode_unsigned-put_be b (i + 1) (to_u64 (pos n)) le nb lt h
      ∙ ap (λ (z : ℕ). some (some (number (pos z), i + 1 + nb))) low

  pub signed_form :
      (v : ℤ) (c nb : ℕ)
      → encode_int v ≡ c ∷ put_be (to_u64 v) nb
      → ((k : ℕ) → int_arm b k c ≡ decode_signed b k nb)
      → nb ≤ 8
      → sext (to_u64 v % 2 ^ (nb * 8)) nb ≡ v
      → Holds b i (encode_int v)
      → Written v
  signed_form v c nb e arm le8 low = long_form v c (to_u64 v) nb e λ h le.
      arm (i + 1)
      ∙ decode_signed-put_be b (i + 1) (to_u64 v) le nb le8 h
      ∙ ap (λ (z : ℤ). some (some (number z, i + 1 + nb))) low

  -- A form of one byte.
  pub short_form :
      (v : ℤ) (c : ℕ)
      → encode_int v ≡ c ∷ []
      → int_arm b (i + 1) c ≡ some (some (number v, i + 1))
      → Holds b i (encode_int v)
      → Written v
  short_form v c e arm h =
      let (here, rest) = rw e at h in
      let size : i + 1 ≡ i + length (encode_int v) = rw e refl in
      at_lead c _ here arm ∙ ap (λ (z : ℕ). some (some (number v, z))) size
