-- ===== src/Hamt/Bucket.antt =====
-- The collision buckets.
use alcove.Base.{
  ℕ, suc, ◌≡◌, ◌⊎◌, refl, ap, ◌∙◌, Option, none, some, Bool, true, false, ◌&&◌, if◌then◌else◌,
  Bool-cases, inl, inr, arith,
}
use alcove.Hamt.{
  entry, child, HamtSlots, no_slots, slot, slots_length, bucket_get, bucket_assoc, bucket_remove,
}
use alcove.Hamt.Size.{size_slots}
use alcove.Hamt.Valid.{
  IsKeyed, isequal_flip, isequal_left, isequal_right, absent, is_none, is_distinct,
}

split_and : (a b : Bool) → (a && b) ≡ true → (a ≡ true) × (b ≡ true)
split_and true b e = (refl, e)
split_and false b e = cc

none_of {ℓ} : {A : Type ℓ} (o : Option A) → is_none o ≡ true → o ≡ none
none_of none e = refl
none_of (some a) e = cc

absent_nothing {ℓ} :
    {K : Type ℓ} (V : Type ℓ) (isequal : K → K → Bool) (key : K)
    → absent {V = V} isequal no_slots key ≡ true
unfolding absent bucket_get
absent_nothing V isequal key = refl

module _ {ℓ} {K V : Type ℓ} (isequal : K → K → Bool) (hashkey : K → ℕ)
    (laws : IsKeyed isequal hashkey) where
  pub bucket_assoc-reads :
      (ss : HamtSlots K V) (key : K) (val : V) (j : K)
      → bucket_get isequal (bucket_assoc isequal ss key val).0 j
        ≡ (if isequal key j then some val else bucket_get isequal ss j)
  unfolding bucket_assoc bucket_get
  bucket_assoc-reads no_slots key val j = refl
  bucket_assoc-reads (slot (child n) ss) key val j = bucket_assoc-reads ss key val j
  bucket_assoc-reads (slot (entry k v) ss) key val j = elim (Bool-cases (isequal k key)) [
    | inl e ↦
        rw (e, isequal_left isequal hashkey laws k key j e)
          (elim (Bool-cases (isequal key j)) [ inl p ↦ rw p refl | inr p ↦ rw p refl ])
    | inr e ↦
        rw (e, bucket_assoc-reads ss key val j)
          (elim (Bool-cases (isequal key j)) [
            | inl p ↦ rw (p, ← isequal_right isequal hashkey laws k key j p, e) refl
            | inr p ↦ rw p refl
          ])
  ]

  pub bucket_get-equal :
      (ss : HamtSlots K V) (j k : K)
      → isequal j k ≡ true
      → bucket_get isequal ss j ≡ bucket_get isequal ss k
  unfolding bucket_get
  bucket_get-equal no_slots j k e = refl
  bucket_get-equal (slot (child n) ss) j k e = bucket_get-equal ss j k e
  bucket_get-equal (slot (entry i v) ss) j k e =
      rw (isequal_right isequal hashkey laws i j k e, bucket_get-equal ss j k e) refl

  pub absent-none :
      (ss : HamtSlots K V) (key : K)
      → absent isequal ss key ≡ true
      → bucket_get isequal ss key ≡ none
  unfolding absent
  absent-none ss key e = none_of (bucket_get isequal ss key) e

  absent-entry :
      (k : K) (v : V) (ss : HamtSlots K V) (key : K)
      → absent isequal (slot (entry k v) ss) key
        ≡ (if isequal k key then false else absent isequal ss key)
  unfolding absent bucket_get
  absent-entry k v ss key = elim (Bool-cases (isequal k key)) [
    | inl e ↦ rw e refl
    | inr e ↦ rw e refl
  ]

  absent-bucket_assoc :
      (ss : HamtSlots K V) (key : K) (val : V) (j : K)
      → isequal key j ≡ false
      → absent isequal (bucket_assoc isequal ss key val).0 j ≡ absent isequal ss j
  unfolding absent
  absent-bucket_assoc ss key val j e = rw (bucket_assoc-reads ss key val j, e) refl

  pub bucket_assoc-distinct :
      (ss : HamtSlots K V) (key : K) (val : V)
      → is_distinct isequal ss ≡ true
      → is_distinct isequal (bucket_assoc isequal ss key val).0 ≡ true
  unfolding bucket_assoc is_distinct
  bucket_assoc-distinct no_slots key val d = rw (absent_nothing V isequal key) refl
  bucket_assoc-distinct (slot (child n) ss) key val d = d
  bucket_assoc-distinct (slot (entry k v) ss) key val d = elim (Bool-cases (isequal k key)) [
    | inl e ↦ rw e d
    | inr e ↦
        let (new, rest) = split_and (absent isequal ss k) (is_distinct isequal ss) d in
        let flipped : isequal key k ≡ false = isequal_flip isequal hashkey laws key k ∙ e in
        rw (e, absent-bucket_assoc ss key val k flipped, new)
          (bucket_assoc-distinct ss key val rest)
  ]

  pub bucket_assoc-added :
      (ss : HamtSlots K V) (key : K) (val : V)
      → (bucket_assoc isequal ss key val).1 ≡ absent isequal ss key
  unfolding bucket_assoc absent bucket_get
  bucket_assoc-added no_slots key val = refl
  bucket_assoc-added (slot (child n) ss) key val = bucket_assoc-added ss key val
  bucket_assoc-added (slot (entry k v) ss) key val = elim (Bool-cases (isequal k key)) [
    | inl e ↦ rw e refl
    | inr e ↦ rw e (bucket_assoc-added ss key val)
  ]

  -- What the removal leaves.
  pub record Removed (ss : HamtSlots K V) (key : K) (rest : HamtSlots K V) : Type ℓ where
    pub shorter : slots_length ss ≡ suc (slots_length rest)
    pub fewer : size_slots ss ≡ suc (size_slots rest)
    pub found : absent isequal ss key ≡ false
    pub distinct : is_distinct isequal rest ≡ true
    pub reads :
        (j : K)
        → bucket_get isequal rest j ≡ (if isequal key j then none else bucket_get isequal ss j)

  remove_first :
      (k : K) (v : V) (ss : HamtSlots K V) (key : K)
      → isequal k key ≡ true
      → absent isequal ss k ≡ true
      → is_distinct isequal ss ≡ true
      → Removed (slot (entry k v) ss) key ss
  unfolding slots_length bucket_get size_slots
  remove_first k v ss key e new d = record {
    shorter = refl;
    fewer = omega arith;
    found = rw (absent-entry k v ss key, e) refl;
    distinct = d;
    reads = λ j. elim (Bool-cases (isequal key j)) [
      | inl p ↦
          let same = laws.transitive k key j e p in
          rw (p, ← bucket_get-equal ss k j same) (absent-none ss k new)
      | inr p ↦ rw (isequal_left isequal hashkey laws k key j e, p) refl
    ];
  }

  remove_later :
      (k : K) (v : V) (ss : HamtSlots K V) (key : K) (rest : HamtSlots K V)
      → isequal k key ≡ false
      → absent isequal ss k ≡ true
      → Removed ss key rest
      → Removed (slot (entry k v) ss) key (slot (entry k v) rest)
  unfolding slots_length bucket_get is_distinct absent size_slots
  remove_later k v ss key rest e new r = record {
    shorter = ap suc r.shorter;
    fewer = omega (arith, r.fewer);
    found = rw e r.found;
    distinct =
        let apart : isequal key k ≡ false = isequal_flip isequal hashkey laws key k ∙ e in
        rw (r.reads k, apart, new) r.distinct;
    reads = λ j. elim (Bool-cases (isequal key j)) [
      | inl p ↦ rw (r.reads j, p, ← isequal_right isequal hashkey laws k key j p, e) refl
      | inr p ↦ rw (r.reads j, p) refl
    ];
  }

  pub Removed-or-absent :
      (ss : HamtSlots K V) (key : K)
      → is_distinct isequal ss ≡ true
      → (bucket_remove isequal ss key ≡ none × absent isequal ss key ≡ true)
        ⊎ ((rest : HamtSlots K V) × (bucket_remove isequal ss key ≡ some rest)
            × Removed ss key rest)
  unfolding bucket_remove is_distinct
  Removed-or-absent no_slots key d = inl (refl, absent_nothing V isequal key)
  Removed-or-absent (slot (child n) ss) key d = cc
  Removed-or-absent (slot (entry k v) ss) key d =
      let (new, rest_distinct) = split_and (absent isequal ss k) (is_distinct isequal ss) d in
      elim (Bool-cases (isequal k key)) [
        | inl e ↦ inr (ss, rw e refl, remove_first k v ss key e new rest_distinct)
        | inr e ↦ elim (Removed-or-absent ss key rest_distinct) [
          | inl (eq, gone) ↦ inl (rw (e, eq) refl, rw (absent-entry k v ss key, e) gone)
          | inr (rest, eq, r) ↦
              inr (slot (entry k v) rest, rw (e, eq) refl, remove_later k v ss key rest e new r)
        ]
      ]
