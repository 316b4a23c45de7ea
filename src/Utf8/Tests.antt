-- ===== src/Utf8/Tests.antt =====
-- utf8.h at concrete inputs: tests, and the theorems at inputs that meet their hypotheses.
use alcove.Base.{ℕ, ◌+◌, ◌≡◌, ◌↔◌, refl, List, [], ◌∷◌, ◌++◌, some, arith, length, pos, ◌≤◌}
use alcove.Utf8.{
  encode, decode_at, decode_stream, strlen, index, byte_offset, count_bytes, utf8_valid, Verdict,
  valid, invalid,
}
use alcove.Utf8.Decode.{MovesIn, decode_at_moves, decode_at-encode}
use alcove.Utf8.Walk.{encode_all, strlen_total}
use alcove.Utf8.Stream.{Takes, decode_stream_cut}
use alcove.Utf8.Scalar.{AreScalar}
use alcove.Utf8.Validity.{Describes, utf8_valid-Describes, utf8_valid_iff}

-- "é€" followed by an emoji, as codepoints.
abbrev three : List ℕ
three = 0xE9 ∷ 0x20AC ∷ 0x1F600 ∷ []

encode_euro : encode 0x20AC ≡ 0xE2 ∷ 0x82 ∷ 0xAC ∷ []
unfolding encode
encode_euro = refl

-- A lead byte with no continuation is returned as it is, one byte on.
decode_stray : decode_at (0xC3 ∷ 0x41 ∷ []) 0 ≡ some (0xC3, 1)
unfolding decode_at
decode_stray = refl

-- An overlong NUL, a surrogate and a truncated sequence, with their offsets.
reject_three :
    (utf8_valid (0x41 ∷ 0xC0 ∷ 0x80 ∷ []) ≡ some (invalid 1))
    × (utf8_valid (0xED ∷ 0xA0 ∷ 0x80 ∷ []) ≡ some (invalid 0))
    × (utf8_valid (0x41 ∷ 0x42 ∷ 0xE2 ∷ 0x82 ∷ []) ≡ some (invalid 2))
unfolding utf8_valid
reject_three = (refl, refl, refl)

three_walk :
    (strlen (encode_all three) ≡ some 3)
    × (index (encode_all three) (pos 1) ≡ some (some 0x20AC))
    × (byte_offset (encode_all three) (pos 2) ≡ some 5)
    × (count_bytes (encode_all three) 5 ≡ some 2)
unfolding strlen index byte_offset count_bytes encode_all encode decode_at
three_walk = (refl, refl, refl, refl)

decode_at-encode_example :
    decode_at ((0x41 ∷ []) ++ (encode 0x20AC ++ 0x42 ∷ [])) 1
    ≡ some (0x20AC, 1 + length (encode 0x20AC))
decode_at-encode_example = decode_at-encode (0x41 ∷ []) (0x42 ∷ []) 0x20AC (omega arith)

decode_at_moves_example : MovesIn (0xC3 ∷ 0x41 ∷ []) 0 (decode_at (0xC3 ∷ 0x41 ∷ []) 0)
decode_at_moves_example = decode_at_moves (0xC3 ∷ 0x41 ∷ []) 0 (omega arith) (omega arith)

strlen_total_example : (m : ℕ) × (strlen (0xE2 ∷ 0x41 ∷ []) ≡ some m) × (m ≤ 2)
strlen_total_example = strlen_total (0xE2 ∷ 0x41 ∷ []) (omega arith)

-- A lead whose second byte is missing, and one whose third is.
cut_streams :
    (decode_stream 0xC3 (0x41 ∷ []) ≡ (3, 0x41 ∷ []))
    × (decode_stream 0xE2 (0x82 ∷ 0x41 ∷ []) ≡ (130, 0x41 ∷ []))
unfolding decode_stream
cut_streams = (refl, refl)

decode_stream_cut_example : Takes 2 2 (0x82 ∷ 0x41 ∷ []) (decode_stream 0xE2 (0x82 ∷ 0x41 ∷ []))
decode_stream_cut_example =
    decode_stream_cut 0xE2 (0x82 ∷ 0x41 ∷ []) (omega arith) (omega arith)
      (omega arith, (omega arith, tt))

utf8_valid-Describes_example :
    (v : Verdict) × (utf8_valid (0x41 ∷ 0xC0 ∷ 0x80 ∷ []) ≡ some v)
    × Describes (0x41 ∷ 0xC0 ∷ 0x80 ∷ []) 0 v
utf8_valid-Describes_example = utf8_valid-Describes (0x41 ∷ 0xC0 ∷ 0x80 ∷ []) (omega arith)

utf8_valid_iff_example :
    (utf8_valid (0xE2 ∷ 0x82 ∷ 0xAC ∷ []) ≡ some valid)
    ↔ ((cps : List ℕ) × AreScalar cps × (0xE2 ∷ 0x82 ∷ 0xAC ∷ [] ≡ encode_all cps))
utf8_valid_iff_example = utf8_valid_iff (0xE2 ∷ 0x82 ∷ 0xAC ∷ []) (omega arith)
