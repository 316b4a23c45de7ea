-- ===== src/Utf8/Scalar.antt =====
-- The scalar value that starts a run of bytes, as `utf8_valid` reads it, and what it says of them.
use alcove.Base.{
  ℕ, ◌+◌, ◌-◌, ◌*◌, ◌%◌, ◌<◌, ◌≤◌, ◌≡◌, ◌⊎◌, List, [], ◌∷◌, ◌++◌, Option, none, some, true, false,
  arith, dec_lt, ltb, leb, length, drop, get_elem?, ◌>>=◌, lt→ltb, if◌then◌else◌, ◌&&◌,
  bit_and_mask,
}
use alcove.Utf8.{encode, strict_lead, valid_rest, rejected}
use alcove.Utf8.Bytes.{
  encode_sums, is_continuation_iff, lead_two, lead_three, lead_four, push_bits_sum,
}

pub strict_lead_ranges :
    (c : ℕ)
    → c < 256
    → strict_lead c ≡ (
        if leb 0xC0 c && ltb c 0xE0
        then some (2, c % 32, 0x80)
        else if leb 0xE0 c && ltb c 0xF0
        then some (3, c % 16, 0x800)
        else if leb 0xF0 c && ltb c 0xF8
        then some (4, c % 8, 0x10000)
        else none)
unfolding strict_lead
strict_lead_ranges c h = rw (
  lead_two c h,
  lead_three c h,
  lead_four c h,
  bit_and_mask 5 c,
  bit_and_mask 4 c,
  bit_and_mask 3 c,
)

-- A Unicode scalar value: a codepoint that is no surrogate.
abbrev pub IsScalar : ℕ → Type 0
IsScalar cp = (cp ≤ 0x10FFFF) × ((cp < 0xD800) ⊎ (0xDFFF < cp))

abbrev pub AreScalar : List ℕ → Type 0
AreScalar [] = Unit
AreScalar (cp ∷ cps) = IsScalar cp × AreScalar cps

abbrev pub AreBytes : List ℕ → Type 0
AreBytes [] = Unit
AreBytes (c ∷ s) = (c < 256) × AreBytes s

encode_one : (c : ℕ) → c < 0x80 → encode c ≡ c ∷ []
encode_one c h = rw (encode_sums c (omega arith)) (ground arith)

encode_two :
    (c x : ℕ)
    → 192 ≤ c
    → c < 224
    → 128 ≤ x
    → x < 192
    → 0x80 ≤ c % 32 * 64 + x % 64
    → encode (c % 32 * 64 + x % 64) ≡ c ∷ x ∷ []
encode_two c x a b d e h = ground (arith, encode_sums (c % 32 * 64 + x % 64))

encode_three :
    (c x y : ℕ)
    → 224 ≤ c
    → c < 240
    → 128 ≤ x
    → x < 192
    → 128 ≤ y
    → y < 192
    → 0x800 ≤ (c % 16 * 64 + x % 64) * 64 + y % 64
    → encode ((c % 16 * 64 + x % 64) * 64 + y % 64) ≡ c ∷ x ∷ y ∷ []
encode_three c x y a b d e f g h =
    ground (arith, encode_sums ((c % 16 * 64 + x % 64) * 64 + y % 64))

encode_four :
    (c x y z : ℕ)
    → 240 ≤ c
    → c < 248
    → 128 ≤ x
    → x < 192
    → 128 ≤ y
    → y < 192
    → 128 ≤ z
    → z < 192
    → 0x10000 ≤ ((c % 8 * 64 + x % 64) * 64 + y % 64) * 64 + z % 64
    → encode (((c % 8 * 64 + x % 64) * 64 + y % 64) * 64 + z % 64) ≡ c ∷ x ∷ y ∷ z ∷ []
encode_four c x y z a b d e f g k l h =
    ground (arith, encode_sums (((c % 8 * 64 + x % 64) * 64 + y % 64) * 64 + z % 64))

-- The scalar value that starts a run of bytes, with the length of its encoding.
unfoldable pub scalar_at : List ℕ → Option (ℕ × ℕ)
unfolding valid_rest
scalar_at r = get_elem? r 0 >>= λ c.
    if ltb c 0x80
    then some (c, 1)
    else strict_lead c >>= λ l.
        if ltb (length r) l.0
        then none
        else valid_rest r 0 (l.0 - 1) 1 l.1 >>= λ q.
            q >>= λ cp. if rejected cp l.2 then none else some (cp, l.0)

-- The kinds of first bytes.
data Class (c : ℕ) : Type 0 where
  ascii : ltb c 0x80 ≡ true → Class c
  two : ltb c 0x80 ≡ false → 192 ≤ c → c < 224 → strict_lead c ≡ some (2, c % 32, 0x80) → Class c
  three : ltb c 0x80 ≡ false → 224 ≤ c → c < 240 → strict_lead c ≡ some (3, c % 16, 0x800) → Class c
  four : ltb c 0x80 ≡ false → 240 ≤ c → c < 248 → strict_lead c ≡ some (4, c % 8, 0x10000) → Class c
  no_lead : ltb c 0x80 ≡ false → strict_lead c ≡ none → Class c

classify : (c : ℕ) → c < 256 → Class c
classify c h = elim (dec_lt c 0x80) [
  | yes a ↦ ascii (lt→ltb _ _ a)
  | no a ↦ elim (dec_lt c 192) [
    | yes b ↦ no_lead (ground arith) (ground (arith, strict_lead_ranges c))
    | no b ↦ elim (dec_lt c 224) [
      | yes d ↦ two (ground arith) (omega arith) d (ground (arith, strict_lead_ranges c))
      | no d ↦ elim (dec_lt c 240) [
        | yes e ↦ three (ground arith) (omega arith) e (ground (arith, strict_lead_ranges c))
        | no e ↦ elim (dec_lt c 248) [
          | yes f ↦ four (ground arith) (omega arith) f (ground (arith, strict_lead_ranges c))
          | no f ↦ no_lead (ground arith) (ground (arith, strict_lead_ranges c))
        ]
      ]
    ]
  ]
]

-- `r` starts with the encoding of the scalar value `cp`, which takes `len` bytes.
pub record Starts (r : List ℕ) (cp len : ℕ) : Type 0 where
  pub scalar : IsScalar cp
  pub split : r ≡ encode cp ++ drop len r
  pub size : length (encode cp) ≡ len

module _ (cp len c : ℕ) where
  Starts-two :
      (r : List ℕ)
      → AreBytes r
      → ltb c 0x80 ≡ false
      → 192 ≤ c
      → c < 224
      → strict_lead c ≡ some (2, c % 32, 0x80)
      → scalar_at (c ∷ r) ≡ some (cp, len)
      → Starts (c ∷ r) cp len
  unfolding scalar_at rejected
  Starts-two [] b high lo hi lead h = ground arith
  Starts-two (x ∷ t) b high lo hi lead h =
      ground (arith, is_continuation_iff x, push_bits_sum (c % 32) x, encode_two c x)

  Starts-three :
      (r : List ℕ)
      → AreBytes r
      → ltb c 0x80 ≡ false
      → 224 ≤ c
      → c < 240
      → strict_lead c ≡ some (3, c % 16, 0x800)
      → scalar_at (c ∷ r) ≡ some (cp, len)
      → Starts (c ∷ r) cp len
  unfolding scalar_at rejected
  Starts-three [] b high lo hi lead h = ground arith
  Starts-three (x ∷ []) b high lo hi lead h = ground arith
  Starts-three (x ∷ y ∷ t) b high lo hi lead h = ground (
    arith,
    is_continuation_iff x,
    is_continuation_iff y,
    push_bits_sum (c % 16) x,
    push_bits_sum (c % 16 * 64 + x % 64) y,
    encode_three c x y,
  )

  Starts-four :
      (r : List ℕ)
      → AreBytes r
      → ltb c 0x80 ≡ false
      → 240 ≤ c
      → c < 248
      → strict_lead c ≡ some (4, c % 8, 0x10000)
      → scalar_at (c ∷ r) ≡ some (cp, len)
      → Starts (c ∷ r) cp len
  unfolding scalar_at rejected
  Starts-four [] b high lo hi lead h = ground arith
  Starts-four (x ∷ []) b high lo hi lead h = ground arith
  Starts-four (x ∷ y ∷ []) b high lo hi lead h = ground arith
  Starts-four (x ∷ y ∷ z ∷ t) b high lo hi lead h = ground (
    arith,
    is_continuation_iff x,
    is_continuation_iff y,
    is_continuation_iff z,
    push_bits_sum (c % 8) x,
    push_bits_sum (c % 8 * 64 + x % 64) y,
    push_bits_sum ((c % 8 * 64 + x % 64) * 64 + y % 64) z,
    encode_four c x y z,
  )

  Starts-cons :
      (r : List ℕ)
      → AreBytes r
      → Class c
      → scalar_at (c ∷ r) ≡ some (cp, len)
      → Starts (c ∷ r) cp len
  unfolding scalar_at
  Starts-cons r b (ascii low) h = ground (arith, encode_one c)
  Starts-cons r b (two high lo hi lead) h = Starts-two r b high lo hi lead h
  Starts-cons r b (three high lo hi lead) h = Starts-three r b high lo hi lead h
  Starts-cons r b (four high lo hi lead) h = Starts-four r b high lo hi lead h
  Starts-cons r b (no_lead high lead) h = ground arith

pub scalar_at-Starts :
    (r : List ℕ) (cp len : ℕ) → AreBytes r → scalar_at r ≡ some (cp, len) → Starts r cp len
unfolding scalar_at
scalar_at-Starts [] cp len b h = cc
scalar_at-Starts (c ∷ r) cp len b h = Starts-cons cp len c r b.1 (classify c b.0) h
