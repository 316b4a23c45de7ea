-- ===== src/Base/Bits.antt =====
-- The bit operations of C at variables: a low mask is a remainder, and `|` of a shifted value and
-- a value below the shift is a sum. Over a byte a fact is checked at every value.
use Prim.Native.Nat.{
  ℕ, zero, suc, ◌+◌, ◌-◌, ◌*◌, ◌/◌, ◌%◌, ◌^◌, ◌≤◌, ◌<◌, min, max, bit_and, bit_or, digits, bitwise,
  bit_and-bitwise, bit_or-bitwise,
}
use mathlib.Core.Path.{◌≡◌, refl, ap}
use mathlib.Core.Bool.{Bool, true, ◌&&◌}
use native.Mathlib.Nat.{pow-suc, one-le-pow}
use native.Mathlib.Omega.{arith}

-- A test that is run at the numbers below a bound, the last one first.
unfoldable pub passes : (ℕ → Bool) → ℕ → Bool
passes test zero = true
passes test (suc last) = test last && passes test last

pub passes-lt :
    (test : ℕ → Bool) (bound i : ℕ) → i < bound → passes test bound ≡ true → test i ≡ true
unfolding passes
passes-lt test zero i within table = absurd (omega arith)
passes-lt test (suc last) i within table = ground (arith, passes-lt test last i)

-- More fuel than digits changes nothing.
module _ (ends : ℕ → ℕ) (join : ℕ → ℕ → ℕ) where
  fuel_irrelevant : (f g x y : ℕ) → x ≤ f → x ≤ g → digits ends join f x y ≡ digits ends join g x y
  fuel_irrelevant zero zero x y p q = refl
  fuel_irrelevant zero (suc g) zero y p q = refl
  fuel_irrelevant zero (suc g) (suc x) y p q = absurd (omega arith)
  fuel_irrelevant (suc f) zero zero y p q = refl
  fuel_irrelevant (suc f) zero (suc x) y p q = absurd (omega arith)
  fuel_irrelevant (suc f) (suc g) zero y p q = refl
  fuel_irrelevant (suc f) (suc g) (suc x) y p q =
      rw (fuel_irrelevant f g (suc x / 2) (y / 2) (omega arith) (omega arith))

  lowest_digit :
      (x y : ℕ)
      → bitwise ends join (suc x) y
        ≡ bitwise ends join (suc x / 2) (y / 2) * 2 + join (suc x % 2) (y % 2)
  lowest_digit x y =
      let same = fuel_irrelevant x (suc x / 2) (suc x / 2) (y / 2) (omega arith) (omega arith) in
      omega (arith, same)

-- The lowest digit of `&` and of `|`.
pub bit_and_halve : (x y : ℕ) → bit_and x y ≡ bit_and (x / 2) (y / 2) * 2 + min (x % 2) (y % 2)
bit_and_halve zero y = simp bit_and-bitwise (omega arith)
bit_and_halve (suc x) y = simp bit_and-bitwise (lowest_digit (λ _. 0) min x y)

pub bit_or_halve : (x y : ℕ) → bit_or x y ≡ bit_or (x / 2) (y / 2) * 2 + max (x % 2) (y % 2)
bit_or_halve zero y = simp bit_or-bitwise (omega arith)
bit_or_halve (suc x) y = simp bit_or-bitwise (lowest_digit (λ b. b) max x y)

bit_and-zero_below : (n x : ℕ) → x ≤ n → bit_and x 0 ≡ 0
bit_and-zero_below zero zero h = refl
bit_and-zero_below zero (suc x) h = absurd (omega arith)
bit_and-zero_below (suc n) x h =
    omega (arith, bit_and_halve x 0, bit_and-zero_below n (x / 2) (omega arith))

pub bit_and-zero : (x : ℕ) → bit_and x 0 ≡ 0
bit_and-zero x = bit_and-zero_below x x (omega arith)

bit_or-zero_below : (n x : ℕ) → x ≤ n → bit_or x 0 ≡ x
bit_or-zero_below zero zero h = refl
bit_or-zero_below zero (suc x) h = absurd (omega arith)
bit_or-zero_below (suc n) x h =
    omega (arith, bit_or_halve x 0, bit_or-zero_below n (x / 2) (omega arith))

pub bit_or-zero : (x : ℕ) → bit_or x 0 ≡ x
bit_or-zero x = bit_or-zero_below x x (omega arith)

doubled : (k q : ℕ) → q * 2 ^ suc k ≡ q * 2 ^ k * 2
doubled k q = omega (arith, ap (λ (t : ℕ). q * t) (pow-suc 2 k))

-- A mask of `k` ones drops what stands above the low `k` bits.
bit_and_split : (k q r : ℕ) → r < 2 ^ k → bit_and (q * 2 ^ k + r) (2 ^ k - 1) ≡ r
bit_and_split zero q r h = rw bit_and-zero (omega arith)
bit_and_split (suc k) q r h =
    let power = pow-suc 2 k in
    let ih = bit_and_split k q (r / 2) (omega (arith, power)) in
    ground (
      arith,
      power,
      doubled k q,
      one-le-pow k 2,
      ih,
      bit_and_halve (q * 2 ^ suc k + r) (2 ^ suc k - 1),
    )

-- `x & (2 ^ k - 1)`.
pub bit_and_mask : (k x : ℕ) → bit_and x (2 ^ k - 1) ≡ x % 2 ^ k
bit_and_mask k x =
    let pos : 0 < 2 ^ k = one-le-pow k 2 (omega arith) in
    ground (arith, pos, bit_and_split k (x / 2 ^ k) (x % 2 ^ k))

-- `(q << k) | r` where `r` has at most `k` bits.
pub bit_or_shift : (k q r : ℕ) → r < 2 ^ k → bit_or (q * 2 ^ k) r ≡ q * 2 ^ k + r
bit_or_shift zero q r h = ground (arith, bit_or-zero q)
bit_or_shift (suc k) q r h =
    let ih = bit_or_shift k q (r / 2) (omega (arith, pow-suc 2 k)) in
    ground (arith, doubled k q, bit_or_halve (q * 2 ^ suc k) r, ih)
