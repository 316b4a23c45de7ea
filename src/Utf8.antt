-- ===== src/Utf8.antt =====
-- utf8.h: the lenient encoder and decoder, the functions on codepoint positions, and the strict
-- validity test.
pub mod Bytes
pub mod Decode
pub mod Walk
mod Tests
pub mod Stream
pub mod Scalar
pub mod Found
pub mod Steps
pub mod Validity
use alcove.Base.{
  ℕ, zero, suc, ◌+◌, ◌≤◌, ◌<◌, List, [], ◌∷◌, ◌++◌, Option, none, some, Bool, true, false, ◌&&◌,
  ◌||◌, ltb, leb, ◌==◌, if◌then◌else◌, bit_and, bit_or, u8, u32, ◌<<◌, ◌>>◌, ◌>>=◌, get_elem?,
  length, ℤ, pos, negsuc, ltb_ℤ, eq_ℤ, ◌-◌,
}

-- `utf8_encode`: the bytes written to `out`; the returned count is the length of the list.
unfoldable pub encode : ℕ → List ℕ
encode cp =
    if ltb cp 0x80
    then u8 cp ∷ []
    else if ltb cp 0x800
    then u8 (bit_or 0xC0 (cp >> 6)) ∷ u8 (bit_or 0x80 (bit_and cp 0x3F)) ∷ []
    else if ltb cp 0x10000
    then u8 (bit_or 0xE0 (cp >> 12))
      ∷ u8 (bit_or 0x80 (bit_and (cp >> 6) 0x3F))
      ∷ u8 (bit_or 0x80 (bit_and cp 0x3F))
      ∷ []
    else u8 (bit_or 0xF0 (cp >> 18))
      ∷ u8 (bit_or 0x80 (bit_and (cp >> 12) 0x3F))
      ∷ u8 (bit_or 0x80 (bit_and (cp >> 6) 0x3F))
      ∷ u8 (bit_or 0x80 (bit_and cp 0x3F))
      ∷ []

-- A read of a NUL-terminated text: the terminator stands behind the last byte, and a read past
-- it is a fault.
unfoldable pub read : List ℕ → ℕ → Option ℕ
read [] zero = some 0
read [] (suc i) = none
read (c ∷ s) zero = some c
read (c ∷ s) (suc i) = read s i

-- What a lead byte announces: the payload bits and the number of continuation bytes.
unfoldable pub lead : ℕ → Option (ℕ × ℕ)
lead c =
    if bit_and c 0xE0 == 0xC0
    then some (bit_and c 0x1F, 1)
    else if bit_and c 0xF0 == 0xE0
    then some (bit_and c 0x0F, 2)
    else if bit_and c 0xF8 == 0xF0
    then some (bit_and c 0x07, 3)
    else none

unfoldable pub is_continuation : ℕ → Bool
is_continuation c = bit_and c 0xC0 == 0x80

-- `cp = (cp << 6) | (cc & 0x3F)`
unfoldable pub push_bits : ℕ → ℕ → ℕ
push_bits cp cc = bit_or (u32 (cp << 6)) (bit_and cc 0x3F)

-- The loop of `utf8_decode_at` at index `i`, with `left` bytes to read; the lead byte is `c`.
unfoldable pub decode_rest : List ℕ → ℕ → ℕ → ℕ → ℕ → ℕ → Option (ℕ × ℕ)
decode_rest s off c zero i cp = some (cp, off + i)
decode_rest s off c (suc left) i cp = read s (off + i) >>= λ cc. elim (is_continuation cc) [
  | true ↦ decode_rest s off c left (i + 1) (push_bits cp cc)
  | false ↦ some (c, off + 1)
]

-- `utf8_decode_at`: the codepoint and the new offset.
unfoldable pub decode_at : List ℕ → ℕ → Option (ℕ × ℕ)
unfolding decode_rest read lead is_continuation push_bits
decode_at s off = read s off >>= λ c.
    if ltb c 0x80
    then some (c, off + 1)
    else elim (lead c) [ none ↦ some (c, off + 1) | some (cp, n) ↦ decode_rest s off c n 1 cp ]

-- The loop of `utf8_decode_stream`: the stream is what is left to read, `getc` takes its first
-- byte and `ungetc` puts it back.
unfoldable pub stream_rest : ℕ → ℕ → List ℕ → ℕ × List ℕ
stream_rest zero cp stream = (cp, stream)
stream_rest (suc left) cp [] = (cp, [])
stream_rest (suc left) cp (cc ∷ stream) = elim (is_continuation cc) [
  | true ↦ stream_rest left (push_bits cp cc) stream
  | false ↦ (cp, cc ∷ stream)
]

-- `utf8_decode_stream`: the codepoint and what is left of the stream.
unfoldable pub decode_stream : ℕ → List ℕ → ℕ × List ℕ
unfolding stream_rest lead is_continuation push_bits
decode_stream first stream =
    if ltb first 0x80
    then (first, stream)
    else elim (lead first) [ none ↦ (u8 first, stream) | some (cp, n) ↦ stream_rest n cp stream ]

-- The loop of `utf8_strlen`, on fuel.
unfoldable pub strlen_loop : ℕ → List ℕ → ℕ → ℕ → Option ℕ
strlen_loop zero s off n = none
strlen_loop (suc fuel) s off n = read s off >>= λ c. elim (c == 0) [
  | true ↦ some n
  | false ↦ decode_at s off >>= λ r. strlen_loop fuel s r.1 (n + 1)
]

-- `utf8_strlen`. Each round moves forward, so one round more than there are bytes is enough.
unfoldable pub strlen : List ℕ → Option ℕ
unfolding strlen_loop
strlen s = strlen_loop (length s + 1) s 0 0

-- The loop of `utf8_index`; the inner `none` is the returned 0.
unfoldable pub index_loop : ℕ → List ℕ → ℤ → ℕ → ℕ → Option (Option ℕ)
index_loop zero s i off k = none
index_loop (suc fuel) s i off k = read s off >>= λ c. elim (c == 0) [
  | true ↦ some none
  | false ↦ decode_at s off >>= λ r. elim (eq_ℤ (pos k) i) [
    | true ↦ some (some r.0)
    | false ↦ index_loop fuel s i r.1 (k + 1)
  ]
]

-- `utf8_index`: no codepoint stands at a negative index.
unfoldable pub index : List ℕ → ℤ → Option (Option ℕ)
unfolding index_loop
index s i = if ltb_ℤ i (pos 0) then some none else index_loop (length s + 1) s i 0 0

-- The loop of `utf8_byte_offset`.
unfoldable pub byte_offset_loop : ℕ → List ℕ → ℤ → ℕ → ℕ → Option ℕ
byte_offset_loop zero s i off k = none
byte_offset_loop (suc fuel) s i off k = read s off >>= λ c. elim (c == 0) [
  | true ↦ some off
  | false ↦ elim (ltb_ℤ (pos k) i) [
    | false ↦ some off
    | true ↦ decode_at s off >>= λ r. byte_offset_loop fuel s i r.1 (k + 1)
  ]
]

-- `utf8_byte_offset`
unfoldable pub byte_offset : List ℕ → ℤ → Option ℕ
unfolding byte_offset_loop
byte_offset s i = byte_offset_loop (length s + 1) s i 0 0

-- The loop of `utf8_count_bytes`: the byte at `off` is read only below `nbytes`.
unfoldable pub count_bytes_loop : ℕ → List ℕ → ℕ → ℕ → ℕ → Option ℕ
count_bytes_loop zero s nbytes off n = none
count_bytes_loop (suc fuel) s nbytes off n = elim (ltb off nbytes) [
  | false ↦ some n
  | true ↦ read s off >>= λ c. elim (c == 0) [
    | true ↦ some n
    | false ↦ decode_at s off >>= λ r. count_bytes_loop fuel s nbytes r.1 (n + 1)
  ]
]

-- `utf8_count_bytes`
unfoldable pub count_bytes : List ℕ → ℕ → Option ℕ
unfolding count_bytes_loop
count_bytes s nbytes = count_bytes_loop (length s + 1) s nbytes 0 0

-- The verdict of `utf8_valid`, with the offset that it stores in `*bad`.
pub data Verdict : Type 0 where
  valid : Verdict
  invalid : ℕ → Verdict

-- What `utf8_valid` takes from a lead byte: the length, the payload bits and the least codepoint
-- that needs this length.
unfoldable pub strict_lead : ℕ → Option (ℕ × ℕ × ℕ)
strict_lead c =
    if bit_and c 0xE0 == 0xC0
    then some (2, bit_and c 0x1F, 0x80)
    else if bit_and c 0xF0 == 0xE0
    then some (3, bit_and c 0x0F, 0x800)
    else if bit_and c 0xF8 == 0xF0
    then some (4, bit_and c 0x07, 0x10000)
    else none

-- The `for` loop of `utf8_valid` at index `k`: the codepoint, or `none` in the inner option at a
-- byte that is no continuation.
unfoldable pub valid_rest : List ℕ → ℕ → ℕ → ℕ → ℕ → Option (Option ℕ)
valid_rest p i zero k cp = some (some cp)
valid_rest p i (suc left) k cp = get_elem? p (i + k) >>= λ cc. elim (is_continuation cc) [
  | true ↦ valid_rest p i left (k + 1) (push_bits cp cc)
  | false ↦ some none
]

-- Overlong, out of range, or a surrogate.
unfoldable pub rejected : ℕ → ℕ → Bool
rejected cp least = ltb cp least || ltb 0x10FFFF cp || (leb 0xD800 cp && leb cp 0xDFFF)

-- The loop of `utf8_valid` over the `n` bytes of `p`.
unfoldable pub valid_loop : ℕ → List ℕ → ℕ → ℕ → Option Verdict
valid_loop zero p n i = none
valid_loop (suc fuel) p n i = elim (ltb i n) [
  | false ↦ some valid
  | true ↦ get_elem? p i >>= λ c. elim (ltb c 0x80) [
    | true ↦ valid_loop fuel p n (i + 1)
    | false ↦ elim (strict_lead c) [
      | none ↦ some (invalid i)
      | some (len, cp, least) ↦ elim (ltb n (i + len)) [
        | true ↦ some (invalid i)
        | false ↦ valid_rest p i (len - 1) 1 cp >>= λ r. elim r [
          | none ↦ some (invalid i)
          | some cp' ↦ elim (rejected cp' least) [
            | true ↦ some (invalid i)
            | false ↦ valid_loop fuel p n (i + len)
          ]
        ]
      ]
    ]
  ]
]

-- `utf8_valid`
unfoldable pub utf8_valid : List ℕ → Option Verdict
unfolding valid_loop strict_lead valid_rest rejected is_continuation push_bits
utf8_valid p = valid_loop (length p + 1) p (length p) 0
