-- ===== src/Fixnum/Tests.antt =====
-- Tagged words at the ends of their ranges.
use alcove.Base.{◌-◌, ◌^◌, ◌≡◌, refl, true, false, arith, pos, negsuc}
use alcove.Fixnum.{is_number, is_char, make_fix, fix_val, fix_fits, make_char}
use alcove.Fixnum.Laws.{fits, fix_fits-fits, tags_apart}

at_the_ends :
    (fix_fits (pos (2 ^ 60 - 1)) ≡ true)
    × (fix_fits (pos (2 ^ 60)) ≡ false)
    × (fix_fits (negsuc (2 ^ 60 - 1)) ≡ true)
    × (fix_fits (negsuc (2 ^ 60)) ≡ false)
unfolding fix_fits
at_the_ends = (refl, refl, refl, refl)

minus_two : fix_val (make_fix (negsuc 1)) ≡ negsuc 1
unfolding fix_val make_fix
minus_two = refl

fix_fits-fits_example : fix_fits (pos (2 ^ 62)) ≡ fits (pos (2 ^ 62))
fix_fits-fits_example = fix_fits-fits (pos (2 ^ 62)) (omega arith)

tags_apart_example :
    (is_number (make_fix (negsuc 0)) ≡ true)
    × (is_char (make_fix (negsuc 0)) ≡ false)
    × (is_char (make_char 233) ≡ true)
    × (is_number (make_char 233) ≡ false)
tags_apart_example = tags_apart (negsuc 0) 233
