-- ===== src/Utf8/Bytes.antt =====
-- What the bit tests of utf8.h say of a byte, as ranges of numbers, and the bytes of the encoder
-- as sums.
use alcove.Base.{
  ℕ, ◌+◌, ◌*◌, ◌/◌, ◌%◌, ◌^◌, ◌<◌, ◌≡◌, refl, [], ◌∷◌, none, some, Bool, true, false, ◌&&◌, ltb,
  leb, ◌==◌, if◌then◌else◌, bit_and, bit_or, arith, passes, passes-lt, u8, bit_and_mask,
  bit_or_shift,
}
use alcove.Utf8.{encode, lead, is_continuation, push_bits}

-- Equality of tests, to compare two of them at every byte.
same : Bool → Bool → Bool
same true b = b
same false b = if b then false else true

same_eq : (a b : Bool) → same a b ≡ true → a ≡ b
unfolding same
same_eq a b h = ground arith

byte_table :
    (p q : ℕ → Bool) → passes (λ c. same (p c) (q c)) 256 ≡ true → (c : ℕ) → c < 256 → p c ≡ q c
byte_table p q table c h = same_eq (p c) (q c) (passes-lt (λ c. same (p c) (q c)) 256 c h table)

pub lead_two : (c : ℕ) → c < 256 → (bit_and c 0xE0 == 0xC0) ≡ (leb 0xC0 c && ltb c 0xE0)
unfolding passes same
lead_two = byte_table (λ c. bit_and c 0xE0 == 0xC0) (λ c. leb 0xC0 c && ltb c 0xE0) refl

pub lead_three : (c : ℕ) → c < 256 → (bit_and c 0xF0 == 0xE0) ≡ (leb 0xE0 c && ltb c 0xF0)
unfolding passes same
lead_three = byte_table (λ c. bit_and c 0xF0 == 0xE0) (λ c. leb 0xE0 c && ltb c 0xF0) refl

pub lead_four : (c : ℕ) → c < 256 → (bit_and c 0xF8 == 0xF0) ≡ (leb 0xF0 c && ltb c 0xF8)
unfolding passes same
lead_four = byte_table (λ c. bit_and c 0xF8 == 0xF0) (λ c. leb 0xF0 c && ltb c 0xF8) refl

pub is_continuation_iff : (c : ℕ) → c < 256 → is_continuation c ≡ (leb 0x80 c && ltb c 0xC0)
unfolding passes same is_continuation
is_continuation_iff = byte_table (λ c. is_continuation c) (λ c. leb 0x80 c && ltb c 0xC0) refl

pub lead_ranges :
    (c : ℕ)
    → c < 256
    → lead c ≡ (
        if leb 0xC0 c && ltb c 0xE0
        then some (c % 32, 1)
        else if leb 0xE0 c && ltb c 0xF0
        then some (c % 16, 2)
        else if leb 0xF0 c && ltb c 0xF8
        then some (c % 8, 3)
        else none)
unfolding lead
lead_ranges c h = rw (
  lead_two c h,
  lead_three c h,
  lead_four c h,
  bit_and_mask 5 c,
  bit_and_mask 4 c,
  bit_and_mask 3 c,
)

-- Six more bits: the shift does not wrap below 2 ^ 26.
pub push_bits_sum : (cp cc : ℕ) → cp < 2 ^ 26 → push_bits cp cc ≡ cp * 64 + cc % 64
unfolding push_bits
push_bits_sum cp cc h = ground (arith, bit_and_mask 6 cc, bit_or_shift 6 cp (cc % 64))

tail_byte : (x : ℕ) → u8 (bit_or 0x80 (bit_and x 0x3F)) ≡ 128 + x % 64
tail_byte x = ground (arith, bit_and_mask 6 x, bit_or_shift 6 2 (x % 64))

-- The bytes of `encode`, as sums.
pub encode_sums :
    (cp : ℕ)
    → cp < 2 ^ 21
    → encode cp ≡ (
        if ltb cp 0x80
        then cp ∷ []
        else if ltb cp 0x800
        then (192 + cp / 64) ∷ (128 + cp % 64) ∷ []
        else if ltb cp 0x10000
        then (224 + cp / 4096) ∷ (128 + cp / 64 % 64) ∷ (128 + cp % 64) ∷ []
        else (240 + cp / 262144)
          ∷ (128 + cp / 4096 % 64)
          ∷ (128 + cp / 64 % 64)
          ∷ (128 + cp % 64)
          ∷ [])
unfolding encode
encode_sums cp h =
    rw (tail_byte cp, tail_byte (cp / 2 ^ 6), tail_byte (cp / 2 ^ 12))
      (ground (
        arith,
        bit_or_shift 5 6 (cp / 2 ^ 6),
        bit_or_shift 4 14 (cp / 2 ^ 12),
        bit_or_shift 3 30 (cp / 2 ^ 18),
      ))
