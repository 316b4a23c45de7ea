-- ===== src/Fixnum.antt =====
-- The tagged small integers of alcove.h, on a target with 64-bit pointers.
pub mod Laws
mod Tests
use alcove.Base.{
  ℕ, ◌+◌, ◌%◌, ◌^◌, Bool, bit_and, bit_or, u32, u64, ◌<<◌, ◌>>◌, ℤ, eq_ℤ, ◌==◌, to_u64, to_i64,
  shift_right,
}

abbrev pub tag_mask : ℕ
tag_mask = 7

abbrev pub tag_fix : ℕ
tag_fix = 1

abbrev pub tag_char : ℕ
tag_char = 2

-- `TAG`, `isnumber` and `ischar`
unfoldable pub tag : ℕ → ℕ
tag e = bit_and e tag_mask

unfoldable pub is_number : ℕ → Bool
unfolding tag
is_number e = tag e == tag_fix

unfoldable pub is_char : ℕ → Bool
unfolding tag
is_char e = tag e == tag_char

-- `MAKE_FIX`
unfoldable pub make_fix : ℤ → ℕ
make_fix v = bit_or (u64 (to_u64 v << 3)) tag_fix

-- `FIX_VAL`
unfoldable pub fix_val : ℕ → ℤ
fix_val e = shift_right (to_i64 e) 3

-- `FIX_FITS`
unfoldable pub fix_fits : ℤ → Bool
unfolding fix_val make_fix
fix_fits v = eq_ℤ (fix_val (make_fix v)) v

-- `MAKE_CHAR`
unfoldable pub make_char : ℕ → ℕ
make_char c = bit_or (u64 (u32 c << 3)) tag_char

-- `CHAR_VAL`
unfoldable pub char_val : ℕ → ℕ
char_val e = u32 (e >> 3)
