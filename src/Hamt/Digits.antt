-- ===== src/Hamt/Digits.antt =====
-- The bits of a bitmap: their tests, and the positions counted by `__builtin_popcount`.
use alcove.Base.{
  ℕ, zero, suc, ◌+◌, ◌-◌, ◌*◌, ◌/◌, ◌%◌, ◌^◌, ◌<◌, ◌≤◌, ◌≡◌, ◌≢◌, refl, ap, ◌∙◌, bit_and, bit_or,
  arith, bit_and_halve, bit_or_halve, bit_and-zero, bit_or-zero, bit_and_mask,
}
use native.Mathlib.Nat.{pow-suc, one-le-pow}
use alcove.Hamt.{popcount}

-- The digit at an index, and the digits below it added up.
unfoldable pub digit : ℕ → ℕ → ℕ
digit b zero = b % 2
digit b (suc i) = digit (b / 2) i

unfoldable pub rank : ℕ → ℕ → ℕ
rank b zero = 0
rank b (suc i) = b % 2 + rank (b / 2) i

pub digit-lt : (i b : ℕ) → digit b i < 2
unfolding digit
digit-lt zero b = omega arith
digit-lt (suc i) b = digit-lt i (b / 2)

pub power : (i : ℕ) → 0 < 2 ^ i
power i = one-le-pow i 2 (omega arith)

pub bit_and-digit : (i b : ℕ) → bit_and b (2 ^ i) ≡ digit b i * 2 ^ i
unfolding digit
bit_and-digit zero b = omega (arith, bit_and_halve b 1, bit_and-zero (b / 2))
bit_and-digit (suc i) b =
    let p = pow-suc 2 i in
    let half : 2 ^ suc i / 2 ≡ 2 ^ i = omega (arith, p) in
    let even : 2 ^ suc i % 2 ≡ 0 = omega (arith, p) in
    let ih : bit_and (b / 2) (2 ^ suc i / 2) ≡ digit (b / 2) i * 2 ^ i =
      rw half (bit_and-digit i (b / 2)) in
    let twice : digit (b / 2) i * 2 ^ suc i ≡ digit (b / 2) i * 2 ^ i * 2 =
      omega (arith, ap (λ (t : ℕ). digit (b / 2) i * t) p) in
    omega (arith, bit_and_halve b (2 ^ suc i), ih, even, twice)

mask_half : (i : ℕ) → (2 ^ suc i - 1) / 2 ≡ 2 ^ i - 1
mask_half i = omega (arith, pow-suc 2 i, power i)

mask_odd : (i : ℕ) → (2 ^ suc i - 1) % 2 ≡ 1
mask_odd i = omega (arith, pow-suc 2 i, power i)

pub popcount-zero : (n : ℕ) → popcount n 0 ≡ 0
unfolding popcount
popcount-zero zero = refl
popcount-zero (suc n) = omega (arith, popcount-zero n)

pub popcount-rank : (w i b : ℕ) → i ≤ w → popcount w (bit_and b (2 ^ i - 1)) ≡ rank b i
unfolding popcount rank
popcount-rank w zero b le = rw bit_and-zero (popcount-zero w)
popcount-rank zero (suc i) b le = absurd (omega arith)
popcount-rank (suc w) (suc i) b le =
    let h = bit_and_halve b (2 ^ suc i - 1) in
    let odd = mask_odd i in
    let low : bit_and b (2 ^ suc i - 1) % 2 ≡ b % 2 = omega (arith, h, odd) in
    let inner : bit_and b (2 ^ suc i - 1) / 2 ≡ bit_and (b / 2) ((2 ^ suc i - 1) / 2) =
      omega (arith, h) in
    let high : bit_and b (2 ^ suc i - 1) / 2 ≡ bit_and (b / 2) (2 ^ i - 1) =
      inner ∙ ap (bit_and (b / 2)) (mask_half i) in
    rw (low, high, popcount-rank w i (b / 2) (omega arith)) refl

pub popcount-whole : (w b : ℕ) → popcount w b ≡ rank b w
unfolding popcount rank
popcount-whole zero b = refl
popcount-whole (suc w) b = rw (popcount-whole w (b / 2)) refl

pub bit_or-sum : (i b : ℕ) → digit b i ≡ 0 → bit_or b (2 ^ i) ≡ b + 2 ^ i
unfolding digit
bit_or-sum zero b e = omega (arith, bit_or_halve b 1, bit_or-zero (b / 2))
bit_or-sum (suc i) b e =
    let p = pow-suc 2 i in
    let half : 2 ^ suc i / 2 ≡ 2 ^ i = omega (arith, p) in
    let even : 2 ^ suc i % 2 ≡ 0 = omega (arith, p) in
    let ih : bit_or (b / 2) (2 ^ suc i / 2) ≡ b / 2 + 2 ^ i = rw half (bit_or-sum i (b / 2) e) in
    omega (arith, bit_or_halve b (2 ^ suc i), ih, even, p)

bit_and-ones : (w b : ℕ) → b < 2 ^ w → bit_and b (2 ^ w - 1) ≡ b
bit_and-ones w b lt = grind (arith, bit_and_mask w b)

power_lt : (i w : ℕ) → i < w → 2 ^ i < 2 ^ w
power_lt i zero lt = absurd (omega arith)
power_lt zero (suc w) lt = omega (arith, pow-suc 2 w, power w)
power_lt (suc i) (suc w) lt = omega (arith, pow-suc 2 w, pow-suc 2 i, power_lt i w (omega arith))

pub bit_and-difference :
    (w i b : ℕ) → i < w → b < 2 ^ w → digit b i ≡ 1 → bit_and b (2 ^ w - 1 - 2 ^ i) + 2 ^ i ≡ b
unfolding digit
bit_and-difference zero i b lt small e = absurd (omega arith)
bit_and-difference (suc w) zero b lt small e =
    let p = pow-suc 2 w in
    let half : (2 ^ suc w - 1 - 2 ^ 0) / 2 ≡ 2 ^ w - 1 = omega (arith, p, power w) in
    let even : (2 ^ suc w - 1 - 2 ^ 0) % 2 ≡ 0 = omega (arith, p, power w) in
    let ih : bit_and (b / 2) ((2 ^ suc w - 1 - 2 ^ 0) / 2) ≡ b / 2 =
      rw half (bit_and-ones w (b / 2) (omega (arith, p))) in
    omega (arith, bit_and_halve b (2 ^ suc w - 1 - 2 ^ 0), ih, even)
bit_and-difference (suc w) (suc i) b lt small e =
    let p = pow-suc 2 w in
    let q = pow-suc 2 i in
    let below : 2 ^ i < 2 ^ w = power_lt i w (omega arith) in
    let half : (2 ^ suc w - 1 - 2 ^ suc i) / 2 ≡ 2 ^ w - 1 - 2 ^ i = omega (arith, p, q, below) in
    let odd : (2 ^ suc w - 1 - 2 ^ suc i) % 2 ≡ 1 = omega (arith, p, q, below) in
    let ih : bit_and (b / 2) ((2 ^ suc w - 1 - 2 ^ suc i) / 2) + 2 ^ i ≡ b / 2 =
      rw half (bit_and-difference w i (b / 2) (omega arith) (omega (arith, p)) e) in
    omega (arith, bit_and_halve b (2 ^ suc w - 1 - 2 ^ suc i), ih, odd, q)

pub digit-sum_self : (i b : ℕ) → digit b i ≡ 0 → digit (b + 2 ^ i) i ≡ 1
unfolding digit
digit-sum_self zero b e = omega arith
digit-sum_self (suc i) b e =
    let half : (b + 2 ^ suc i) / 2 ≡ b / 2 + 2 ^ i = omega (arith, pow-suc 2 i) in
    rw half (digit-sum_self i (b / 2) e)

pub digit-sum_other : (i j b : ℕ) → digit b i ≡ 0 → i ≢ j → digit (b + 2 ^ i) j ≡ digit b j
unfolding digit
digit-sum_other zero zero b e ne = absurd (ne refl)
digit-sum_other zero (suc j) b e ne =
    let half : (b + 2 ^ 0) / 2 ≡ b / 2 = omega arith in rw half refl
digit-sum_other (suc i) zero b e ne = omega (arith, pow-suc 2 i)
digit-sum_other (suc i) (suc j) b e ne =
    let half : (b + 2 ^ suc i) / 2 ≡ b / 2 + 2 ^ i = omega (arith, pow-suc 2 i) in
    rw half (digit-sum_other i j (b / 2) e (λ q. ne (ap suc q)))

pub rank-sum_below : (i j b : ℕ) → j ≤ i → rank (b + 2 ^ i) j ≡ rank b j
unfolding rank
rank-sum_below i zero b le = refl
rank-sum_below zero (suc j) b le = absurd (omega arith)
rank-sum_below (suc i) (suc j) b le =
    let half : (b + 2 ^ suc i) / 2 ≡ b / 2 + 2 ^ i = omega (arith, pow-suc 2 i) in
    let low : (b + 2 ^ suc i) % 2 ≡ b % 2 = omega (arith, pow-suc 2 i) in
    rw (half, low, rank-sum_below i j (b / 2) (omega arith)) refl

pub rank-sum_above : (i j b : ℕ) → i < j → digit b i ≡ 0 → rank (b + 2 ^ i) j ≡ suc (rank b j)
unfolding rank digit
rank-sum_above i zero b lt e = absurd (omega arith)
rank-sum_above zero (suc j) b lt e =
    let half : (b + 2 ^ 0) / 2 ≡ b / 2 = omega arith in
    let low : (b + 2 ^ 0) % 2 ≡ suc (b % 2) = omega arith in rw (half, low) (omega arith)
rank-sum_above (suc i) (suc j) b lt e =
    let half : (b + 2 ^ suc i) / 2 ≡ b / 2 + 2 ^ i = omega (arith, pow-suc 2 i) in
    let low : (b + 2 ^ suc i) % 2 ≡ b % 2 = omega (arith, pow-suc 2 i) in
    rw (half, low) (omega (arith, rank-sum_above i j (b / 2) (omega arith) e))

pub rank_mono : (i j b : ℕ) → i ≤ j → rank b i ≤ rank b j
unfolding rank
rank_mono zero j b le = omega arith
rank_mono (suc i) zero b le = absurd (omega arith)
rank_mono (suc i) (suc j) b le = omega (arith, rank_mono i j (b / 2) (omega arith))

pub rank_strict : (i j b : ℕ) → i < j → digit b i ≡ 1 → rank b i < rank b j
unfolding rank digit
rank_strict i zero b lt e = absurd (omega arith)
rank_strict zero (suc j) b lt e = omega arith
rank_strict (suc i) (suc j) b lt e = omega (arith, rank_strict i j (b / 2) (omega arith) e)

pub digit-sum_flip : (i b : ℕ) → digit (b + 2 ^ i) i + digit b i ≡ 1
unfolding digit
digit-sum_flip zero b = omega arith
digit-sum_flip (suc i) b =
    let half : (b + 2 ^ suc i) / 2 ≡ b / 2 + 2 ^ i = omega (arith, pow-suc 2 i) in
    rw half (digit-sum_flip i (b / 2))

pub sum-lt : (w i b : ℕ) → i < w → b < 2 ^ w → digit b i ≡ 0 → b + 2 ^ i < 2 ^ w
unfolding digit
sum-lt zero i b lt small e = absurd (omega arith)
sum-lt (suc w) zero b lt small e = omega (arith, pow-suc 2 w)
sum-lt (suc w) (suc i) b lt small e = omega (
  arith,
  pow-suc 2 w,
  pow-suc 2 i,
  sum-lt w i (b / 2) (omega arith) (omega (arith, pow-suc 2 w)) e,
)

pub digit_zero : (i : ℕ) → digit 0 i ≡ 0
unfolding digit
digit_zero zero = refl
digit_zero (suc i) = digit_zero i
