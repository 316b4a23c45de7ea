-- ===== src/Msgpack/Tests.antt =====
-- Integers on the wire.
use alcove.Base.{
  ℕ, ℤ, List, zero, suc, ◌≤◌, ◌+◌, ◌*◌, ◌^◌, ◌≡◌, refl, [], ◌∷◌, none, some, arith, pos, negsuc,
  length,
}
use alcove.Fixnum.{fix_fits}
use alcove.Msgpack.{put_sized, encode_int, get_be, decode_int, float_of, int_arm, decode_unsigned}
use alcove.Msgpack.Lengths.{AreBytes}
use alcove.Msgpack.Value.{
  Value, truth, number, string, pair, dict, no_items, item, null_item, no_fields, field,
  encode_text, encode_1, encode, count_items, count_fields,
}
use alcove.Msgpack.Decode.{
  decode_items, decode_fields, decode_array, decode_map, decode_fixstr, decode_arm, decode,
  decode_all, c_text, insert_field,
}
use alcove.Msgpack.Wire.{wire}
use alcove.Msgpack.Whole.{decode_all-encode}
use alcove.Msgpack.Total.{Progresses, decode-Progresses}
use alcove.Msgpack.Shortest.{encode_int-shortest}

on_the_wire :
    (encode_int (pos 127) ≡ 0x7F ∷ [])
    × (encode_int (pos 300) ≡ 0xCD ∷ 0x01 ∷ 0x2C ∷ [])
    × (encode_int (negsuc 31) ≡ 0xE0 ∷ [])
    × (encode_int (negsuc 32) ≡ 0xD0 ∷ 0xDF ∷ [])
unfolding encode_int
on_the_wire = (refl, refl, refl, refl)

-- A string of 40 bytes, a blob of 3, and an array of 16.
prefixes :
    (put_sized 0xA0 32 0xD9 0xDA 0xDB 40 ≡ some (0xD9 ∷ 40 ∷ []))
    × (put_sized 0 0 0xC4 0xC5 0xC6 3 ≡ some (0xC4 ∷ 3 ∷ []))
    × (put_sized 0x90 16 0 0xDC 0xDD 16 ≡ some (0xDC ∷ 0 ∷ 16 ∷ []))
unfolding put_sized
prefixes = (refl, refl, refl)

-- A truncated number, and a 64-bit number that no fixnum holds.
at_the_edge :
    (decode_int (0xCD ∷ 1 ∷ []) 0 ≡ some none)
    × (decode_int (0xCF ∷ 255 ∷ 0 ∷ 0 ∷ 0 ∷ 0 ∷ 0 ∷ 0 ∷ 0 ∷ []) 0
        ≡ some (some (float_of (pos (255 * 2 ^ 56)), 9)))
unfolding decode_int int_arm decode_unsigned get_be
at_the_edge = (refl, refl)

small_bytes : AreBytes (0xCD ∷ 0 ∷ 5 ∷ [])
small_bytes zero x at = let e : 0xCD ≡ x = cc in rw (← e) (omega arith)
small_bytes (suc zero) x at = let e : 0 ≡ x = cc in rw (← e) (omega arith)
small_bytes (suc (suc zero)) x at = let e : 5 ≡ x = cc in rw (← e) (omega arith)
small_bytes (suc (suc (suc i))) x at = cc

-- A wasteful 5.
encode_int-shortest_example : 0 + length (encode_int (pos 5)) ≤ 3
unfolding decode_int int_arm decode_unsigned get_be fix_fits
encode_int-shortest_example = encode_int-shortest (0xCD ∷ 0 ∷ 5 ∷ []) 0 (pos 5) 3 small_bytes refl

-- (300 "hi" {"k" t})
abbrev sample : Value
sample =
    pair (number (pos 300))
      (item (string (104 ∷ 105 ∷ [])) (item (dict (field (107 ∷ []) truth no_fields)) no_items))

abbrev sample_bytes : List ℕ
sample_bytes = 0x93 ∷ 0xCD ∷ 0x01 ∷ 0x2C ∷ 0xA2 ∷ 104 ∷ 105 ∷ 0x81 ∷ 0xA1 ∷ 107 ∷ 0xC3 ∷ []

sample_encoded : encode sample ≡ some sample_bytes
unfolding encode encode_1 encode_text put_sized encode_int count_items count_fields
sample_encoded = refl

-- (1 NULL 2) is written as (1).
cut_list :
    encode (pair (number (pos 1)) (null_item (item (number (pos 2)) no_items)))
    ≡ some (0x91 ∷ 1 ∷ [])
unfolding encode encode_1 put_sized encode_int count_items
cut_list = refl

abbrev no_double : ℤ → ℕ
no_double v = 0

abbrev same_bits : ℕ → ℕ
same_bits bits = bits

-- A key that comes twice keeps its last value, and a value that is cut off is refused.
decoded_maps :
    (decode_all no_double same_bits (0x82 ∷ 0xA1 ∷ 107 ∷ 1 ∷ 0xA1 ∷ 107 ∷ 2 ∷ [])
      ≡ some (some (dict (field (107 ∷ []) (number (pos 2)) no_fields))))
    × (decode_all no_double same_bits (0x92 ∷ 1 ∷ []) ≡ some none)
    × (decode_all no_double same_bits (0xC0 ∷ 0xC0 ∷ []) ≡ some none)
unfolding decode_all decode decode_arm decode_map decode_array decode_items decode_fields
    decode_fixstr int_arm c_text insert_field
decoded_maps = (refl, refl, refl)

decode_all-encode_example : decode_all no_double same_bits sample_bytes ≡ some (some (wire sample))
decode_all-encode_example =
    decode_all-encode no_double same_bits sample sample_bytes sample_encoded (
      (omega arith, refl),
      (omega arith, ((((λ e. absurd (omega arith)), tt), omega arith, tt, tt, tt), tt)),
    )

decode-Progresses_example :
    Progresses (0x92 ∷ 1 ∷ []) 0 (decode no_double same_bits 513 (0x92 ∷ 1 ∷ []) 0)
decode-Progresses_example =
    decode-Progresses (0x92 ∷ 1 ∷ []) no_double same_bits 513 0 (omega arith)
