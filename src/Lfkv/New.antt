-- ===== src/Lfkv/New.antt =====
-- `lfkv_new`: which sizes it takes, and the table that it makes.
use alcove.Base.{
  ℕ, zero, suc, ◌-◌, ◌^◌, ◌/◌, ◌%◌, ◌<◌, ◌≤◌, ◌≡◌, ◌≢◌, refl, sym, ap, ◌∙◌, List, [], Option, none,
  some, false, arith, length, length-replicate, get_elem?, replicate, ◌==◌, bit_and, bit_and_halve,
  bit_and_mask, Returns, dec_lt, ℕ_discrete, ltb, ltb→lt, passes, passes-lt,
}
use native.Mathlib.Nat.{mod_self, one-le-pow, pow-suc}
use alcove.Lfkv.Defs.{Slot, Lfkv, new}
use alcove.Lfkv.Slots.{occurrences, view, live_count}
use alcove.Lfkv.Valid.{IsValid}
use alcove.Lfkv.Write.{Models}

bit_and_self_below : (n x : ℕ) → x ≤ n → bit_and x x ≡ x
bit_and_self_below zero x h = let e : x ≡ 0 = omega arith in rw e refl
bit_and_self_below (suc n) x h =
    omega (arith, bit_and_halve x x, bit_and_self_below n (x / 2) (omega arith))

-- A number that shares no bit with its predecessor is a power of two.
power_below : (n x : ℕ) → x ≤ n → 0 < x → bit_and x (x - 1) ≡ 0 → (b : ℕ) × (x ≡ 2 ^ b)
power_below zero x h p e = absurd (omega arith)
power_below (suc n) x h p e = elim (ℕ_discrete (x % 2) 0) [
  | yes even ↦
      let half : (x - 1) / 2 ≡ x / 2 - 1 = omega arith in
      let none_shared : bit_and (x / 2) (x / 2 - 1) ≡ 0 =
        omega (arith, bit_and_halve x (x - 1), ap (bit_and (x / 2)) half) in
      let (b, is) = power_below n (x / 2) (omega arith) (omega arith) none_shared in
      (suc b, ap (λ (z : ℕ). z) (omega (arith, is, pow-suc 2 b)))
  | no odd ↦
      let half : (x - 1) / 2 ≡ x / 2 = omega arith in
      (
        0,
        omega (
          arith,
          bit_and_halve x (x - 1),
          ap (bit_and (x / 2)) half,
          bit_and_self_below x (x / 2) (omega arith),
        ),
      )
]

vacant_view : (n : ℕ) (q : List ℕ) → view (replicate n none) q ≡ none
unfolding view
vacant_view zero q = refl
vacant_view (suc n) q = vacant_view n q

vacant_occurrences : (n : ℕ) (q : List ℕ) → occurrences (replicate n none) q ≡ 0
unfolding occurrences
vacant_occurrences zero q = refl
vacant_occurrences (suc n) q = omega (arith, vacant_occurrences n q)

vacant_live : (n : ℕ) → live_count (replicate n none) ≡ 0
unfolding live_count
vacant_live zero = refl
vacant_live (suc n) = omega (arith, vacant_live n)

vacant_cell :
    (n i : ℕ) (s : Slot) → get_elem? (replicate {A = Option Slot} n none) i ≢ some (some s)
vacant_cell zero i s = λ e. cc
vacant_cell (suc n) zero s = λ e. cc
vacant_cell (suc n) (suc i) s = vacant_cell n i s

below_word : (b : ℕ) → b < 64 → 2 ^ b < 2 ^ 64
unfolding passes
below_word b h = ltb→lt (2 ^ b) (2 ^ 64) (passes-lt (λ c. ltb (2 ^ c) (2 ^ 64)) 64 b h refl)

module _ (b : ℕ) (kv : Lfkv) (slots : kv.slots ≡ replicate (2 ^ b) none)
    (mask : kv.mask ≡ 2 ^ b - 1) (count : kv.count ≡ 0) (small : b < 64) where
  new-IsValid : IsValid kv
  new-IsValid = record {
    bits = b;
    width = rw (slots, length-replicate);
    masked = mask;
    small = rw (slots, length-replicate) (below_word b small);
    counted = count ∙ sym (rw slots (vacant_live (2 ^ b)));
    once = λ q. rw (slots, vacant_occurrences (2 ^ b) q) (omega arith);
    placed = λ i s cell. absurd (vacant_cell (2 ^ b) i s (rw slots at cell));
  }

  pub empty-Models : Models kv (λ q. none)
  empty-Models = record { valid = new-IsValid; reads = λ q. rw slots (vacant_view (2 ^ b) q) }

-- lfkv_new makes an empty well-formed table of each size that is a power of two below 2^64.
pub new-Models :
    (b : ℕ) → b < 64 → Returns (new (2 ^ b)) λ kv. Models kv (λ q. none) × (length kv.slots ≡ 2 ^ b)
unfolding new
new-Models b small =
    let positive : (2 ^ b == 0) ≡ false = ground (arith, one-le-pow b 2 (omega arith)) in
    let power : bit_and (2 ^ b) (2 ^ b - 1) ≡ 0 = bit_and_mask b (2 ^ b) ∙ mod_self (2 ^ b) in
    (
      record {
        slots = replicate (2 ^ b) none;
        mask = 2 ^ b - 1;
        count = 0;
        retired = [];
        events = [];
      },
      simp (positive, power),
      (empty-Models b _ refl refl refl small, length-replicate (2 ^ b) none),
    )

-- lfkv_new makes a table of no size but a power of two.
pub new-power : (n : ℕ) (kv : Lfkv) → new n ≡ some kv → (b : ℕ) × (n ≡ 2 ^ b)
unfolding new
new-power n kv run = elim (dec_lt 0 n) [
  | no p ↦ ground arith
  | yes p ↦ elim (ℕ_discrete (bit_and n (n - 1)) 0) [
    | yes e ↦ power_below n n (omega arith) p e
    | no ne ↦ ground arith
  ]
]
