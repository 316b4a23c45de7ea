-- ===== src/Dict/Chain.antt =====
-- Chains of the hash table: what is found, and how often a key occurs.
use alcove.Base.{
  ℕ, zero, suc, ◌+◌, ◌≤◌, ◌≡◌, refl, sym, ap, ◌∙◌, List, [], ◌∷◌, ◌++◌, none, some, true, false,
  arith, if◌then◌else◌, length, get_elem?, bytes_eq, bytes_eq_refl, eq_of_bytes_eq, Bool-cases, inl,
  inr,
}
use mathlib.Core.Option.{or_else}
use alcove.Dict.{Keyval, find, modify, remove}

module _ {ℓ} {V : Type ℓ} where
  abbrev pub occurs : List ℕ → List (Keyval V) → ℕ
  occurs j [] = 0
  occurs j (k ∷ ks) = (if bytes_eq j k.key then 1 else 0) + occurs j ks

  pub find-none : (j : List ℕ) (ks : List (Keyval V)) → occurs j ks ≡ 0 → find j ks ≡ none
  unfolding find
  find-none j [] h = refl
  find-none j (k ∷ ks) h = ground (arith, find-none j ks)

  pub occurs-none : (j : List ℕ) (ks : List (Keyval V)) → find j ks ≡ none → occurs j ks ≡ 0
  unfolding find
  occurs-none j [] h = refl
  occurs-none j (k ∷ ks) h = ground (arith, occurs-none j ks)

  pub find-key : (j : List ℕ) (ks : List (Keyval V)) (k : Keyval V) → find j ks ≡ some k → k.key ≡ j
  unfolding find
  find-key j [] k h = cc
  find-key j (n ∷ ks) k h = ground (arith, find-key j ks k, eq_of_bytes_eq j n.key)

  -- What is found stands in the chain, and a node in the chain counts.
  pub find-place :
      (j : List ℕ) (ks : List (Keyval V)) (k : Keyval V)
      → find j ks ≡ some k
      → (i : ℕ) × (get_elem? ks i ≡ some k)
  unfolding find
  find-place j [] k h = cc
  find-place j (n ∷ ks) k h = elim (Bool-cases (bytes_eq j n.key)) [
    | inl e ↦ (0, sym (rw e refl) ∙ h)
    | inr e ↦ let (i, at) = find-place j ks k (sym (rw e refl) ∙ h) in (suc i, at)
  ]

  pub occurs-place :
      (j : List ℕ) (ks : List (Keyval V)) (i : ℕ) (k : Keyval V)
      → get_elem? ks i ≡ some k
      → k.key ≡ j
      → 1 ≤ occurs j ks
  occurs-place j [] i k at e = cc
  occurs-place j (n ∷ ks) zero k at e =
      let is : n ≡ k = cc in
      let mine : bytes_eq j n.key ≡ true = rw (is, e) (bytes_eq_refl j) in ground arith
  occurs-place j (n ∷ ks) (suc i) k at e = omega (arith, occurs-place j ks i k at e)

  pub occurs-append :
      (j : List ℕ) (xs ys : List (Keyval V)) → occurs j (xs ++ ys) ≡ occurs j xs + occurs j ys
  occurs-append j [] ys = omega arith
  occurs-append j (x ∷ xs) ys = omega (arith, occurs-append j xs ys)

  pub find-append :
      (j : List ℕ) (xs ys : List (Keyval V)) → find j (xs ++ ys) ≡ or_else (find j xs) (find j ys)
  unfolding find or_else
  find-append j [] ys = refl
  find-append j (x ∷ xs) ys = ground (arith, find-append j xs ys)

-- The comparisons of two keys with a third one, where one of them is an equality.
same_key : (a b c : List ℕ) → bytes_eq a b ≡ true → bytes_eq c b ≡ bytes_eq c a
same_key a b c h = ap (bytes_eq c) (sym (eq_of_bytes_eq a b h))

other_key : (a b c : List ℕ) → bytes_eq a b ≡ true → bytes_eq c a ≡ false → bytes_eq c b ≡ false
other_key a b c h n = same_key a b c h ∙ n

module _ {ℓ} {V : Type ℓ} (key : List ℕ) where
  module _ (f : Keyval V → Keyval V) (keeps : (n : Keyval V) → (f n).key ≡ n.key) where
    pub occurs-modify :
        (j : List ℕ) (ks : List (Keyval V)) → occurs j (modify f key ks) ≡ occurs j ks
    unfolding modify
    occurs-modify j [] = refl
    occurs-modify j (k ∷ ks) = ground (arith, keeps k, occurs-modify j ks)

    pub length-modify : (ks : List (Keyval V)) → length (modify f key ks) ≡ length ks
    unfolding modify
    length-modify [] = refl
    length-modify (k ∷ ks) = ground (arith, length-modify ks)

    pub find-modify_self :
        (ks : List (Keyval V)) (k : Keyval V)
        → find key ks ≡ some k
        → find key (modify f key ks) ≡ some (f k)
    unfolding find modify
    find-modify_self [] k h = cc
    find-modify_self (n ∷ ks) k h = elim (Bool-cases (bytes_eq key n.key)) [
      | inl e ↦
          let is : n ≡ k = ground arith in
          let here : bytes_eq key (f n).key ≡ true = ap (bytes_eq key) (keeps n) ∙ e in
          rw (e, here) (ap (λ (z : Keyval V). some (f z)) is)
      | inr e ↦ rw (e, e) (find-modify_self ks k (sym (rw e refl) ∙ h))
    ]

    pub find-modify_ne :
        (j : List ℕ) (ks : List (Keyval V))
        → bytes_eq j key ≡ false
        → find j (modify f key ks) ≡ find j ks
    unfolding find modify
    find-modify_ne j [] h = refl
    find-modify_ne j (n ∷ ks) h = elim (Bool-cases (bytes_eq key n.key)) [
      | inl e ↦ let apart = other_key key n.key j e h in rw (e, keeps n, apart) refl
      | inr e ↦ rw (e, find-modify_ne j ks h) refl
    ]

  pub length-remove :
      (ks : List (Keyval V)) (k : Keyval V)
      → find key ks ≡ some k
      → suc (length (remove key ks)) ≡ length ks
  unfolding find remove
  length-remove [] k h = cc
  length-remove (n ∷ ks) k h = ground (arith, length-remove ks k)

  pub occurs-remove-le :
      (j : List ℕ) (ks : List (Keyval V)) → occurs j (remove key ks) ≤ occurs j ks
  unfolding remove
  occurs-remove-le j [] = omega arith
  occurs-remove-le j (n ∷ ks) = ground (arith, occurs-remove-le j ks)

  pub find-remove_self :
      (ks : List (Keyval V)) → occurs key ks ≤ 1 → find key (remove key ks) ≡ none
  unfolding find remove
  find-remove_self [] h = refl
  find-remove_self (n ∷ ks) h = ground (arith, find-remove_self ks, find-none key ks)

  pub find-remove_ne :
      (j : List ℕ) (ks : List (Keyval V))
      → bytes_eq j key ≡ false
      → find j (remove key ks) ≡ find j ks
  unfolding find remove
  find-remove_ne j [] h = refl
  find-remove_ne j (n ∷ ks) h = elim (Bool-cases (bytes_eq key n.key)) [
    | inl e ↦ rw (e, other_key key n.key j e h) refl
    | inr e ↦ rw (e, find-remove_ne j ks h) refl
  ]
