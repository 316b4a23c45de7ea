-- ===== src/Fixnum/Laws.antt =====
-- What fits a tagged integer, and that no two kinds of tagged word are mistaken for each other.
use alcove.Base.{
  ℕ, ◌+◌, ◌-◌, ◌*◌, ◌/◌, ◌%◌, ◌^◌, ◌<◌, ◌≡◌, refl, ap, ◌∙◌, Bool, true, false, arith, bit_and,
  bit_or, bit_or_shift, bit_and_mask, u32, u64, ◌<<◌, ◌>>◌, ℤ, pos, negsuc, eq_ℤ, ltb, to_u64,
  if◌then◌else◌, IsInt64, Bool-cases, inl, inr,
}
use alcove.Fixnum.{is_number, is_char, make_fix, fix_val, fix_fits, make_char, char_val}

-- A shifted word has room for its tag.
tagged : (w t : ℕ) → t < 8 → bit_or (u64 (w << 3)) t ≡ w % 2 ^ 61 * 8 + t
tagged w t lt =
    let shifted : u64 (w << 3) ≡ w % 2 ^ 61 * 2 ^ 3 = omega arith in
    ap (λ (z : ℕ). bit_or z t) shifted ∙ bit_or_shift 3 (w % 2 ^ 61) t lt

make_fix_lem : (v : ℤ) → make_fix v ≡ to_u64 v % 2 ^ 61 * 8 + 1
unfolding make_fix
make_fix_lem v = tagged (to_u64 v) 1 (omega arith)

-- The range of 61 bits.
abbrev pub fits : ℤ → Bool
fits (pos n) = ltb n (2 ^ 60)
fits (negsuc n) = ltb n (2 ^ 60)

-- The signed reading of 61 bits.
abbrev signed : ℕ → ℤ
signed x = if ltb x (2 ^ 60) then pos x else negsuc (2 ^ 61 - 1 - x)

fix_val_lem : (x : ℕ) → x < 2 ^ 61 → fix_val (x * 8 + 1) ≡ signed x
unfolding fix_val
fix_val_lem x lt = elim (Bool-cases (ltb x (2 ^ 60))) [
  | inl t ↦
      let low : ltb (x * 8 + 1) (2 ^ 63) ≡ true = ground arith in
      let e : (x * 8 + 1) / 2 ^ 3 ≡ x = omega arith in rw (low, t) (ap pos e)
  | inr f ↦
      let high : ltb (x * 8 + 1) (2 ^ 63) ≡ false = ground arith in
      let e : (2 ^ 64 - 1 - (x * 8 + 1)) / 2 ^ 3 ≡ 2 ^ 61 - 1 - x = omega arith in
      rw (high, f) (ap negsuc e)
]

fix_val-make_fix_lem : (v : ℤ) → fix_val (make_fix v) ≡ signed (to_u64 v % 2 ^ 61)
fix_val-make_fix_lem v = ap fix_val (make_fix_lem v) ∙ fix_val_lem (to_u64 v % 2 ^ 61) (omega arith)

-- FIX_VAL of MAKE_FIX is the value, for every value in the range of 61 bits.
pub fix_val-make_fix : (v : ℤ) → fits v ≡ true → fix_val (make_fix v) ≡ v
fix_val-make_fix (pos n) h =
    let e : n % 2 ^ 64 % 2 ^ 61 ≡ n = ground arith in
    fix_val-make_fix_lem (pos n) ∙ ap signed e ∙ rw h refl
fix_val-make_fix (negsuc n) h =
    let e : (2 ^ 64 - 1 - n % 2 ^ 64) % 2 ^ 61 ≡ 2 ^ 61 - 1 - n = ground arith in
    let high : ltb (2 ^ 61 - 1 - n) (2 ^ 60) ≡ false = ground arith in
    let back : 2 ^ 61 - 1 - (2 ^ 61 - 1 - n) ≡ n = ground arith in
    fix_val-make_fix_lem (negsuc n) ∙ ap signed e ∙ rw high (ap negsuc back)

-- FIX_FITS accepts an int64_t exactly where it is in the range of 61 bits.
pub fix_fits-fits : (v : ℤ) → IsInt64 v → fix_fits v ≡ fits v
unfolding fix_fits
fix_fits-fits v h = ap (λ (z : ℤ). eq_ℤ z v) (fix_val-make_fix_lem v) ∙ by_sign v h
  where
    by_sign : (v : ℤ) → IsInt64 v → eq_ℤ (signed (to_u64 v % 2 ^ 61)) v ≡ fits v
    by_sign (pos n) h = ground arith
    by_sign (negsuc n) h = ground arith

-- A tagged integer is a number and no character, and a tagged character the other way round.
pub tags_apart :
    (v : ℤ) (c : ℕ)
    → (is_number (make_fix v) ≡ true)
      × (is_char (make_fix v) ≡ false)
      × (is_char (make_char c) ≡ true)
      × (is_number (make_char c) ≡ false)
unfolding is_number is_char make_char
tags_apart v c =
    let fix_tag : bit_and (make_fix v) 7 ≡ 1 =
      ap (λ (z : ℕ). bit_and z 7) (make_fix_lem v)
      ∙ bit_and_mask 3 (to_u64 v % 2 ^ 61 * 8 + 1)
      ∙ omega arith in
    let char_tag : bit_and (make_char c) 7 ≡ 2 =
      ap (λ (z : ℕ). bit_and z 7) (tagged (u32 c) 2 (omega arith))
      ∙ bit_and_mask 3 (u32 c % 2 ^ 61 * 8 + 2)
      ∙ omega arith in
    (rw fix_tag refl, rw fix_tag refl, rw char_tag refl, rw char_tag refl)

-- CHAR_VAL of MAKE_CHAR is the codepoint, for every codepoint of 32 bits.
pub char_val-make_char : (c : ℕ) → c < 2 ^ 32 → char_val (make_char c) ≡ c
unfolding char_val make_char
char_val-make_char c lt =
    ap (λ (z : ℕ). u32 (z >> 3)) (tagged (u32 c) 2 (omega arith)) ∙ omega arith
