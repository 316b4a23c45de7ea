-- ===== src/Hamt/Bits.antt =====
-- The bitmap operations of a node: what `| bit` and `& ~bit` do to the tests and to the positions.
use alcove.Base.{
  ℕ, suc, ◌+◌, ◌-◌, ◌/◌, ◌^◌, ◌<◌, ◌≤◌, ◌≡◌, ◌≢◌, refl, ◌∙◌, bit_and, true, false, arith,
  bit_and_mask, dec_lt,
}
use alcove.Hamt.{hash_index, popcount, present, position, with_bit, without_bit}
use alcove.Hamt.Digits.{
  digit, rank, power, digit-lt, bit_and-digit, popcount-rank, popcount-whole, bit_or-sum,
  bit_and-difference, digit-sum_self, digit-sum_other, rank-sum_below, rank-sum_above, rank_mono,
  rank_strict, digit-sum_flip, sum-lt, digit_zero, popcount-zero,
}

pub index-lt : (hash shift : ℕ) → hash_index hash shift < 32
unfolding hash_index
index-lt hash shift = omega (arith, bit_and_mask 5 (hash / 2 ^ shift))

pub present-true : (b i : ℕ) → present b i ≡ true → digit b i ≡ 1
unfolding present
present-true b i h = grind (arith, bit_and-digit i b, digit-lt i b)

pub present-false : (b i : ℕ) → present b i ≡ false → digit b i ≡ 0
unfolding present
present-false b i h = grind (arith, bit_and-digit i b, digit-lt i b, power i)

present-digit : (b i : ℕ) → digit b i ≡ 1 → present b i ≡ true
unfolding present
present-digit b i h = grind (arith, bit_and-digit i b, power i)

pub position-rank : (b i : ℕ) → i < 32 → position b i ≡ rank b i
unfolding position
position-rank b i lt = popcount-rank 32 i b (omega arith)

-- Set bits stand at different positions, all of them below the number of set bits.
pub position_strict :
    (b i j : ℕ) → i < j → j < 32 → present b i ≡ true → position b i < position b j
position_strict b i j lt small h = omega (
  arith,
  position-rank b i (omega arith),
  position-rank b j small,
  rank_strict i j b lt (present-true b i h),
)

pub position_mono : (b i j : ℕ) → i ≤ j → j < 32 → position b i ≤ position b j
position_mono b i j le small =
    omega (arith, position-rank b i (omega arith), position-rank b j small, rank_mono i j b le)

pub position-lt : (b i : ℕ) → i < 32 → present b i ≡ true → position b i < popcount 32 b
position-lt b i small h = omega (
  arith,
  position-rank b i small,
  popcount-whole 32 b,
  rank_strict i 32 b small (present-true b i h),
)

pub position-le : (b i : ℕ) → i < 32 → position b i ≤ popcount 32 b
position-le b i small =
    omega (arith, position-rank b i small, popcount-whole 32 b, rank_mono i 32 b (omega arith))

pub position_apart :
    (b i j : ℕ)
    → i ≢ j
    → i < 32
    → j < 32
    → present b i ≡ true
    → present b j ≡ true
    → position b i ≢ position b j
position_apart b i j ne small top p q e = elim (dec_lt i j) [
  | yes lt ↦ absurd (omega (arith, e, position_strict b i j lt top p))
  | no ge ↦
      let lt : j < i = omega (arith, ne, ge) in
      absurd (omega (arith, e, position_strict b j i lt small q))
]

module _ (b i : ℕ) (small : i < 32) (free : present b i ≡ false) where
  zero_digit : digit b i ≡ 0
  zero_digit = present-false b i free

  pub with_bit-sum : with_bit b i ≡ b + 2 ^ i
  unfolding with_bit
  with_bit-sum = bit_or-sum i b zero_digit

  pub present-with_bit_self : present (with_bit b i) i ≡ true
  present-with_bit_self =
      rw with_bit-sum (present-digit (b + 2 ^ i) i (digit-sum_self i b zero_digit))

  pub present-with_bit : (j : ℕ) → i ≢ j → present (with_bit b i) j ≡ present b j
  unfolding present
  present-with_bit j ne =
      rw
        (
          with_bit-sum,
          bit_and-digit j (b + 2 ^ i),
          bit_and-digit j b,
          digit-sum_other i j b zero_digit ne,
        )
        refl

  pub position-with_bit_below : (j : ℕ) → j ≤ i → position (with_bit b i) j ≡ position b j
  position-with_bit_below j le =
      rw
        (
          with_bit-sum,
          position-rank (b + 2 ^ i) j (omega arith),
          position-rank b j (omega arith),
          rank-sum_below i j b le,
        )
        refl

  pub position-with_bit_above :
      (j : ℕ) → i < j → j < 32 → position (with_bit b i) j ≡ suc (position b j)
  position-with_bit_above j lt top =
      rw
        (
          with_bit-sum,
          position-rank (b + 2 ^ i) j top,
          position-rank b j top,
          rank-sum_above i j b lt zero_digit,
        )
        refl

  pub popcount-with_bit : popcount 32 (with_bit b i) ≡ suc (popcount 32 b)
  popcount-with_bit =
      rw
        (
          with_bit-sum,
          popcount-whole 32 (b + 2 ^ i),
          popcount-whole 32 b,
          rank-sum_above i 32 b small zero_digit,
        )
        refl

  pub with_bit-lt : b < 2 ^ 32 → with_bit b i < 2 ^ 32
  with_bit-lt word = rw with_bit-sum (sum-lt 32 i b small word zero_digit)

  pub with_bit-pos : 0 < with_bit b i
  with_bit-pos = omega (arith, with_bit-sum, power i)

-- Clearing a bit that is set undoes setting it.
module _ (b i : ℕ) (small : i < 32) (word : b < 2 ^ 32) (set : present b i ≡ true) where
  without_sum : without_bit b i + 2 ^ i ≡ b
  unfolding without_bit
  without_sum = bit_and-difference 32 i b small word (present-true b i set)

  pub present-without_bit : present (without_bit b i) i ≡ false
  unfolding present
  present-without_bit =
      let one : digit (without_bit b i + 2 ^ i) i ≡ 1 = rw without_sum (present-true b i set) in
      let none_left : digit (without_bit b i) i ≡ 0 =
        omega (arith, digit-sum_flip i (without_bit b i)) in
      grind (arith, bit_and-digit i (without_bit b i))

  pub with_bit-without_bit : with_bit (without_bit b i) i ≡ b
  with_bit-without_bit = with_bit-sum (without_bit b i) i small present-without_bit ∙ without_sum

  pub without_bit-lt : without_bit b i < 2 ^ 32
  without_bit-lt = omega (arith, without_sum)

-- The bitmap of no slots.
pub present-zero : (i : ℕ) → present 0 i ≡ false
unfolding present
present-zero i = grind (arith, bit_and-digit i 0, digit_zero i)

pub position-zero : (i : ℕ) → position 0 i ≡ 0
unfolding position
position-zero i =
    let low : bit_and 0 (2 ^ i - 1) ≡ 0 = grind (arith, bit_and_mask i 0, power i) in
    rw (low, popcount-zero 32) refl

pub popcount_empty : popcount 32 0 ≡ 0
popcount_empty = popcount-zero 32
