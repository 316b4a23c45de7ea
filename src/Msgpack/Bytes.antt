-- ===== src/Msgpack/Bytes.antt =====
-- Big-endian numbers: reading back what was written.
use alcove.Base.{
  ℕ, zero, suc, ◌+◌, ◌*◌, ◌/◌, ◌%◌, ◌^◌, ◌<◌, ◌≤◌, ◌≡◌, refl, ap, ◌∙◌, List, [], ◌∷◌, some, arith,
  get_elem?, length, get_elem?-lt, bit_or, bit_or_shift, u64, ◌<<◌, ◌>>=◌,
}
use native.Mathlib.Nat.{
  div-add-mod, mul-add-mod_self_left, mod-eq_of_lt, mod-lt, pow-suc, one-le-pow, mul-le-mul_right,
  pow-le-pow_right,
}
use alcove.Msgpack.{put_be, get_from, get_be}

-- The buffer holds the bytes from `i` on.
abbrev pub Holds : List ℕ → ℕ → List ℕ → Type 0
Holds b i [] = Unit
Holds b i (x ∷ xs) = (get_elem? b i ≡ some x) × Holds b (i + 1) xs

pub Holds-length :
    (b : List ℕ) (i : ℕ) (xs : List ℕ) → i ≤ length b → Holds b i xs → i + length xs ≤ length b
Holds-length b i [] le h = omega arith
Holds-length b i (x ∷ xs) le (here, h) =
    omega (arith, Holds-length b (i + 1) xs (omega (arith, get_elem?-lt b i x here)) h)

pub length-put_be : (v n : ℕ) → length (put_be v n) ≡ n
unfolding put_be
length-put_be v zero = refl
length-put_be v (suc n) = ap suc (length-put_be v n)

-- The low digits of `v` to the base `p`, and one digit of eight bits more.
mod-digit : (v p : ℕ) → 0 < p → v % (p * 256) ≡ v / p % 256 * p + v % p
mod-digit v p positive =
    let low = mod-lt v positive in
    let digit : v / p % 256 + 1 ≤ 256 = omega arith in
    let fits = mul-le-mul_right p digit in
    let whole = div-add-mod v p in
    let split : v / p ≡ 256 * (v / p / 256) + v / p % 256 = omega arith in
    let parts : v ≡ p * 256 * (v / p / 256) + (v / p % 256 * p + v % p) =
      omega (arith, whole, ap (λ (z : ℕ). p * z) split) in
    ap (λ (z : ℕ). z % (p * 256)) parts
    ∙ mul-add-mod_self_left (p * 256) (v / p / 256) (v / p % 256 * p + v % p)
    ∙ mod-eq_of_lt (omega arith)

-- One byte shifted in.
pub push_byte :
    (acc d p : ℕ)
    → 0 < p
    → d < 256
    → (acc + 1) * (p * 256) ≤ 2 ^ 64
    → (bit_or (u64 (acc << 8)) d ≡ acc * 256 + d) × ((acc * 256 + d + 1) * p ≤ 2 ^ 64)
push_byte acc d p positive lt small =
    let once : 1 * ((acc + 1) * 256) ≤ p * ((acc + 1) * 256) =
      mul-le-mul_right ((acc + 1) * 256) positive in
    let shifted : u64 (acc << 8) ≡ acc * 2 ^ 8 = mod-eq_of_lt (omega arith) in
    let more = mul-le-mul_right p lt in
    (ap (λ (z : ℕ). bit_or z d) shifted ∙ bit_or_shift 8 acc d lt, omega arith)

pub power_byte : (n : ℕ) → 2 ^ (suc n * 8) ≡ 2 ^ (n * 8) * 256
power_byte n =
    let e : suc n * 8 ≡ suc (suc (suc (suc (suc (suc (suc (suc (n * 8)))))))) = omega arith in
    ap (λ (z : ℕ). 2 ^ z) e ∙ simp pow-suc (omega arith)

get_from-put_be :
    (n acc v : ℕ) (b : List ℕ) (i : ℕ)
    → (acc + 1) * 2 ^ (n * 8) ≤ 2 ^ 64
    → Holds b i (put_be v n)
    → get_from acc b i n ≡ some (acc * 2 ^ (n * 8) + v % 2 ^ (n * 8))
unfolding get_from put_be
get_from-put_be zero acc v b i small h = ap some (omega arith)
get_from-put_be (suc n) acc v b i small (here, h) =
    let p = 2 ^ (n * 8) in
    let positive : 0 < p = one-le-pow (n * 8) 2 (omega arith) in
    let d = v / p % 256 in
    let (pushed, small') = push_byte acc d p positive (omega arith) (rw power_byte at small) in
    let ih = get_from-put_be n (acc * 256 + d) v b (i + 1) small' h in
    rw (here, ◌>>=◌, pushed, ih) (ap some (rw (power_byte n, mod-digit v p positive) (omega arith)))

-- mp_get_be of up to eight bytes reads back the low bytes that mp_put_be wrote.
pub get_be-put_be :
    (n v : ℕ) (b : List ℕ) (i : ℕ)
    → n ≤ 8
    → Holds b i (put_be v n)
    → get_be b i n ≡ some (v % 2 ^ (n * 8))
unfolding get_be
get_be-put_be n v b i le h =
    let few : n * 8 ≤ 64 = omega arith in
    let most : 2 ^ (n * 8) ≤ 2 ^ 64 = pow-le-pow_right (omega arith) few in
    get_from-put_be n 0 v b i (omega (arith, most)) h ∙ ap some (omega arith)
