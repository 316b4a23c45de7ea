-- ===== src/Hamt/Valid.antt =====
-- What the map asks of the keys, and well-formed nodes.
use alcove.Base.{
  ℕ, ◌+◌, ◌^◌, ◌<◌, ◌≤◌, ◌≡◌, ◌≢◌, ◌⊎◌, refl, sym, ap, ◌∙◌, Option, none, some, Bool, true, false,
  ◌&&◌, Bool-cases, inl, inr,
}
use alcove.Hamt.{
  hash_index, HamtNode, node, HamtSlot, entry, child, HamtSlots, no_slots, slot, slots_length,
  popcount, bucket_get,
}

pub both_ways : (a b : Bool) → (a ≡ true → b ≡ true) → (b ≡ true → a ≡ true) → a ≡ b
both_ways true true f g = refl
both_ways true false f g = sym (f refl)
both_ways false true f g = g refl
both_ways false false f g = refl

-- `isequal` is reflexive, symmetric and transitive, and "equal values must hash equal".
pub record IsKeyed {ℓ} {K : Type ℓ} (isequal : K → K → Bool) (hashkey : K → ℕ) : Type ℓ where
  pub reflexive : (a : K) → isequal a a ≡ true
  pub symmetric : (a b : K) → isequal a b ≡ true → isequal b a ≡ true
  pub transitive : (a b c : K) → isequal a b ≡ true → isequal b c ≡ true → isequal a c ≡ true
  pub hashed : (a b : K) → isequal a b ≡ true → hashkey a ≡ hashkey b

module _ {ℓ} {K : Type ℓ} (isequal : K → K → Bool) (hashkey : K → ℕ)
    (laws : IsKeyed isequal hashkey) where
  pub isequal_flip : (a b : K) → isequal a b ≡ isequal b a
  isequal_flip a b = both_ways (isequal a b) (isequal b a) (laws.symmetric a b) (laws.symmetric b a)

  pub isequal_left : (a b c : K) → isequal a b ≡ true → isequal a c ≡ isequal b c
  isequal_left a b c e =
      both_ways (isequal a c) (isequal b c) (laws.transitive b a c (laws.symmetric a b e))
        (laws.transitive a b c e)

  pub isequal_right : (a b c : K) → isequal b c ≡ true → isequal a b ≡ isequal a c
  isequal_right a b c e = isequal_flip a b ∙ isequal_left b c a e ∙ isequal_flip c a

  -- Equal keys have one index.
  pub same_index :
      (k j : K) (shift : ℕ)
      → isequal k j ≡ true
      → hash_index (hashkey j) shift ≡ hash_index (hashkey k) shift
  same_index k j shift e = ap (λ (h : ℕ). hash_index h shift) (sym (laws.hashed k j e))

  -- Keys of different indices are not equal.
  pub other_index :
      (k j : K) (shift : ℕ)
      → hash_index (hashkey j) shift ≢ hash_index (hashkey k) shift
      → isequal k j ≡ false
  other_index k j shift ne = elim (Bool-cases (isequal k j)) [
    | inl e ↦ absurd (ne (ap (λ (h : ℕ). hash_index h shift) (sym (laws.hashed k j e))))
    | inr e ↦ e
  ]

-- A table of a branch: its bitmap is a word that is not 0, and has a bit for each slot.
pub record IsBranch {ℓ} {K V : Type ℓ} (shift bitmap : ℕ) (ss : HamtSlots K V) : Type 0 where
  pub nonzero : 0 < bitmap
  pub word : bitmap < 2 ^ 32
  pub shallow : shift < 32
  pub full : slots_length ss ≡ popcount 32 bitmap

abbrev pub is_none {ℓ} : {A : Type ℓ} → Option A → Bool
is_none none = true
is_none (some a) = false

module _ {ℓ} {K V : Type ℓ} (isequal : K → K → Bool) where
  unfoldable pub absent : HamtSlots K V → K → Bool
  absent ss key = is_none (bucket_get isequal ss key)

  -- A bucket holds entries only, no two of them with equal keys.
  unfoldable pub is_distinct : HamtSlots K V → Bool
  is_distinct no_slots = true
  is_distinct (slot (child n) ss) = false
  is_distinct (slot (entry k v) ss) = absent ss k && is_distinct ss

  -- A bucket comes after the last of the hash bits, and a branch before.
  pub record IsBucket (shift bitmap : ℕ) (ss : HamtSlots K V) : Type 0 where
    pub marked : bitmap ≡ 0
    pub deep : 32 ≤ shift
    pub distinct : is_distinct ss ≡ true

  unfoldable mutual
    pub IsNode : ℕ → HamtNode K V → Type 0
    IsNode shift (node bitmap ss) =
        IsBucket shift bitmap ss ⊎ (IsBranch shift bitmap ss × AreSlots (shift + 5) ss)

    pub AreSlots : ℕ → HamtSlots K V → Type 0
    AreSlots shift no_slots = Unit
    AreSlots shift (slot s ss) = IsSlot shift s × AreSlots shift ss

    pub IsSlot : ℕ → HamtSlot K V → Type 0
    IsSlot shift (entry k v) = Unit
    IsSlot shift (child n) = IsNode shift n
