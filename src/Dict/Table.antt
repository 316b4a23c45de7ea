-- ===== src/Dict/Table.antt =====
-- The buckets of a table as one list of entries.
use alcove.Base.{
  ℕ, zero, suc, ◌+◌, ◌-◌, ◌^◌, ◌<◌, ◌≡◌, ◌≢◌, refl, List, [], ◌∷◌, ◌++◌, some, arith, length,
  length-append, get_elem?, get_or, set, replicate, if◌then◌else◌, ◌==◌, bit_and_mask,
}
use mathlib.Core.Option.{or_else}
use native.Mathlib.Nat.{one-le-pow, mod-lt}
use alcove.Hash.{bernstein_hash}
use alcove.Dict.{Keyval, find, slot}
use alcove.Dict.Chain.{occurs, occurs-append, find-append, find-none}

-- With a mask of ones, the slot is the hash modulo the size.
pub slot-lt : (e : ℕ) (key : List ℕ) → slot (2 ^ e - 1) key < 2 ^ e
slot-lt e key = rw bit_and_mask (mod-lt (bernstein_hash key) (one-le-pow e 2 (omega arith)))

module _ {ℓ} {A : Type ℓ} where
  pub get_elem?-get_or :
      (xs : List A) (i : ℕ) (d : A) → i < length xs → get_elem? xs i ≡ some (get_or xs i d)
  get_elem?-get_or [] i d h = absurd (omega arith)
  get_elem?-get_or (x ∷ xs) zero d h = refl
  get_elem?-get_or (x ∷ xs) (suc i) d h = get_elem?-get_or xs i d (omega arith)

  pub get_or-at : (xs : List A) (i : ℕ) (d x : A) → get_elem? xs i ≡ some x → get_or xs i d ≡ x
  get_or-at [] i d x h = cc
  get_or-at (y ∷ xs) zero d x h = cc
  get_or-at (y ∷ xs) (suc i) d x h = get_or-at xs i d x h

  pub get_or-set :
      (xs : List A) (i n : ℕ) (v d : A)
      → i < length xs
      → get_or (set xs i v) n d ≡ (if i == n then v else get_or xs n d)
  get_or-set [] i n v d h = absurd (omega arith)
  get_or-set (x ∷ xs) zero zero v d h = refl
  get_or-set (x ∷ xs) zero (suc n) v d h = ground arith
  get_or-set (x ∷ xs) (suc i) zero v d h = ground arith
  get_or-set (x ∷ xs) (suc i) (suc n) v d h = ground (arith, get_or-set xs i n v d (omega arith))

  pub get_or-replicate : (m n : ℕ) (d : A) → get_or (replicate m d) n d ≡ d
  get_or-replicate zero n d = refl
  get_or-replicate (suc m) zero d = refl
  get_or-replicate (suc m) (suc n) d = get_or-replicate m n d

module _ {ℓ} {V : Type ℓ} where
  abbrev pub all_entries : List (List (Keyval V)) → List (Keyval V)
  all_entries [] = []
  all_entries (c ∷ cs) = c ++ all_entries cs

  abbrev pub bucket : List (List (Keyval V)) → ℕ → List (Keyval V)
  bucket t i = get_or t i []

  pub length-all_entries-set :
      (t : List (List (Keyval V))) (i : ℕ) (c : List (Keyval V))
      → i < length t
      → length (all_entries (set t i c)) + length (bucket t i) ≡ length (all_entries t) + length c
  length-all_entries-set [] i c h = absurd (omega arith)
  length-all_entries-set (b ∷ t) zero c h =
      omega (arith, length-append c (all_entries t), length-append b (all_entries t))
  length-all_entries-set (b ∷ t) (suc i) c h = omega (
    arith,
    length-all_entries-set t i c (omega arith),
    length-append b (all_entries (set t i c)),
    length-append b (all_entries t),
  )

  pub all_entries-replicate : (n : ℕ) → all_entries (replicate n []) ≡ []
  all_entries-replicate zero = refl
  all_entries-replicate (suc n) = all_entries-replicate n

  module _ (j : List ℕ) where
    occurs-nowhere :
        (t : List (List (Keyval V)))
        → ((n : ℕ) → occurs j (bucket t n) ≡ 0)
        → occurs j (all_entries t) ≡ 0
    occurs-nowhere [] h = refl
    occurs-nowhere (c ∷ t) h =
        omega (arith, h 0, occurs-append j c (all_entries t), occurs-nowhere t (λ n. h (suc n)))

    -- Where a key stands in one bucket only, the table knows what that bucket knows.
    pub occurs-all_entries :
        (t : List (List (Keyval V))) (i : ℕ)
        → ((n : ℕ) → i ≢ n → occurs j (bucket t n) ≡ 0)
        → occurs j (all_entries t) ≡ occurs j (bucket t i)
    occurs-all_entries [] i h = refl
    occurs-all_entries (c ∷ t) zero h = omega (
      arith,
      occurs-append j c (all_entries t),
      occurs-nowhere t (λ n. h (suc n) (λ e. omega arith)),
    )
    occurs-all_entries (c ∷ t) (suc i) h = omega (
      arith,
      h 0 (λ e. omega arith),
      occurs-append j c (all_entries t),
      occurs-all_entries t i (λ n ne. h (suc n) (λ e. ne (omega arith))),
    )

    pub find-all_entries :
        (t : List (List (Keyval V))) (i : ℕ)
        → ((n : ℕ) → i ≢ n → occurs j (bucket t n) ≡ 0)
        → find j (all_entries t) ≡ find j (bucket t i)
    unfolding or_else
    find-all_entries [] i h = refl
    find-all_entries (c ∷ t) zero h =
        let none_left =
          find-none j (all_entries t) (occurs-nowhere t (λ n. h (suc n) (λ e. omega arith))) in
        ground (arith, find-append j c (all_entries t), none_left)
    find-all_entries (c ∷ t) (suc i) h =
        let none_here = find-none j c (h 0 (λ e. omega arith)) in
        ground (
          arith,
          none_here,
          find-append j c (all_entries t),
          find-all_entries t i (λ n ne. h (suc n) (λ e. ne (omega arith))),
        )
