-- ===== src/Hamt/Refine.antt =====
-- The map operations against maps from keys to values.
use alcove.Base.{
  ℕ, ◌+◌, ◌-◌, ◌≡◌, refl, sym, ap, ◌∙◌, Option, none, some, Bool, true, false, if◌then◌else◌, arith,
  inl, inr, Bool-cases,
}
use alcove.Hamt.{
  HamtNode, entry, Hamt, hash_index, DissocOutcome, unchanged, emptied, replaced, dissoc_node,
  hamt_get, hamt_assoc, hamt_dissoc,
}
use mathlib.Core.Path.{subst}
use alcove.Hamt.Bits.{index-lt}
use alcove.Hamt.Valid.{IsKeyed, is_none, IsNode, IsSlot}
use alcove.Hamt.Size.{size_node, size_slots, size_slot}
use alcove.Hamt.Merge.{single-IsNode, single_entry-reads}
use alcove.Hamt.Assoc.{node-Put}
use alcove.Hamt.Erased.{Erased, ErasedNode}
use alcove.Hamt.Dissoc.{node-Erased}

abbrev pub one_if : Bool → ℕ
one_if b = if b then 1 else 0

module _ {ℓ} {K V : Type ℓ} (isequal : K → K → Bool) (hashkey : K → ℕ)
    (laws : IsKeyed isequal hashkey) where
  unfoldable pub IsRoot : Option (HamtNode K V) → Type 0
  IsRoot none = Unit
  IsRoot (some n) = IsNode isequal 0 n

  unfoldable pub size_root : Option (HamtNode K V) → ℕ
  size_root none = 0
  size_root (some n) = size_node n

  -- The trie is well-formed, its count is the number of its entries, and it reads as the map.
  pub record Models (h : Hamt K V) (m : K → Option V) : Type ℓ where
    pub valid : IsRoot h.root
    pub counted : h.count ≡ size_root h.root
    pub reads : (j : K) → hamt_get isequal hashkey h j ≡ m j

  -- A map with a value for a key, and a map without a key.
  abbrev pub put : K → V → (K → Option V) → K → Option V
  put key val m j = if isequal key j then some val else m j

  abbrev pub drop : K → (K → Option V) → K → Option V
  drop key m j = if isequal key j then none else m j

  root_assoc-refines :
      (root : Option (HamtNode K V)) (c : ℕ) (m : K → Option V) (key : K) (val : V)
      → Models (record { root = root; count = c }) m
      → Models
          (hamt_assoc isequal hashkey (record { root = root; count = c }) key val)
          (put key val m)
        × ((hamt_assoc isequal hashkey (record { root = root; count = c }) key val).count
            ≡ c + one_if (is_none (m key)))
  unfolding hamt_assoc hamt_get IsRoot size_root size_node size_slots size_slot IsSlot
  root_assoc-refines none c m key val ok = (
    record {
      valid =
          single-IsNode isequal hashkey laws (hash_index (hashkey key) 0) 0 (entry key val)
            (index-lt (hashkey key) 0) (omega arith) tt;
      counted = omega (arith, ok.counted);
      reads = λ j.
          single_entry-reads isequal hashkey laws 0 key val j
          ∙ ap (λ (o : Option V). if isequal key j then some val else o) (ok.reads j);
    },
    ap (λ (o : Option V). c + one_if (is_none o)) (ok.reads key),
  )
  root_assoc-refines (some n) c m key val ok =
      let put = node-Put isequal hashkey laws key val n 0 ok.valid in
      let w = put.write in
      (
        record {
          valid = put.valid;
          counted = omega (arith, w.size, ok.counted);
          reads = λ j.
              w.reads j ∙ ap (λ (o : Option V). if isequal key j then some val else o) (ok.reads j);
        },
        ap (λ (t : Bool). c + one_if t) (w.flag ∙ ap is_none (ok.reads key)),
      )

  -- hamt-assoc, on a map whose trie is well formed, whose count is the number of its entries and
  -- which reads as a map from keys to values, gives such a map again, in which the key holds the
  -- value and every key not equal to it reads as before; the count goes up by one where the key
  -- was absent and stays where it was present. The comparison of keys is an equivalence and equal
  -- keys have equal hashes.
  pub hamt_assoc-refines :
      (h : Hamt K V) (m : K → Option V) (key : K) (val : V)
      → Models h m
      → Models (hamt_assoc isequal hashkey h key val) (put key val m)
        × ((hamt_assoc isequal hashkey h key val).count ≡ h.count + one_if (is_none (m key)))
  hamt_assoc-refines h m key val ok = root_assoc-refines h.root h.count m key val ok

  -- An empty version of a key reads the same without it.
  drop_absent :
      (m : K → Option V) (key : K)
      → ((j : K) → isequal key j ≡ true → m j ≡ none)
      → (j : K) → m j ≡ drop key m j
  drop_absent m key gone j = elim (Bool-cases (isequal key j)) [
    | inl e ↦ rw e (gone j e)
    | inr e ↦ rw e refl
  ]

  outcome : Hamt K V → DissocOutcome (HamtNode K V) → Hamt K V
  outcome h unchanged = h
  outcome h emptied = record { root = none; count = h.count - 1 }
  outcome h (replaced n) = record { root = some n; count = h.count - 1 }

  hamt_dissoc-outcome :
      (n : HamtNode K V) (c : ℕ) (key : K)
      → hamt_dissoc isequal hashkey (record { root = some n; count = c }) key
        ≡ outcome (record { root = some n; count = c }) (dissoc_node isequal n key (hashkey key) 0)
  unfolding hamt_dissoc outcome
  hamt_dissoc-outcome n c key = refl

  -- The version after a removal, and its count.
  abbrev Dropped : (K → Option V) → K → ℕ → Hamt K V → Type ℓ
  Dropped m key before h =
      Models h (drop key m) × (h.count + (if is_none (m key) then 0 else 1) ≡ before)

  outcome-Dropped :
      (n : HamtNode K V) (c : ℕ) (m : K → Option V) (key : K) (o : DissocOutcome (HamtNode K V))
      → Models (record { root = some n; count = c }) m
      → ErasedNode isequal hashkey laws key 0 n o
      → Dropped m key c (outcome (record { root = some n; count = c }) o)
  unfolding outcome Erased ErasedNode hamt_get IsRoot size_root
  outcome-Dropped n c m key unchanged ok gone =
      let absent = λ (j : K) (e : isequal key j ≡ true). sym (ok.reads j) ∙ gone j e in
      (
        record {
          valid = ok.valid;
          counted = ok.counted;
          reads = λ j. ok.reads j ∙ drop_absent m key absent j;
        },
        rw (absent key (laws.reflexive key)) (omega arith),
      )
  outcome-Dropped n c m key emptied ok (was, others, one) =
      let found : is_none (m key) ≡ false = ap is_none (sym (ok.reads key)) ∙ was in
      (
        record {
          valid = tt;
          counted = omega (arith, ok.counted, one);
          reads = λ j. elim (Bool-cases (isequal key j)) [
            | inl e ↦ rw e refl
            | inr apart ↦ rw apart (sym (others j apart) ∙ ok.reads j)
          ];
        },
        rw found (omega (arith, ok.counted, one)),
      )
  outcome-Dropped n c m key (replaced new) ok (was, reads, size, valid) =
      let found : is_none (m key) ≡ false = ap is_none (sym (ok.reads key)) ∙ was in
      (
        record {
          valid = valid;
          counted = omega (arith, ok.counted, size);
          reads =
              λ j. reads j ∙ ap (λ (o : Option V). if isequal key j then none else o) (ok.reads j);
        },
        rw found (omega (arith, ok.counted, size)),
      )

  root_dissoc-refines :
      (root : Option (HamtNode K V)) (c : ℕ) (m : K → Option V) (key : K)
      → Models (record { root = root; count = c }) m
      → Dropped m key c (hamt_dissoc isequal hashkey (record { root = root; count = c }) key)
  unfolding hamt_dissoc hamt_get IsNode IsRoot
  root_dissoc-refines none c m key ok = (
    record {
      valid = ok.valid;
      counted = ok.counted;
      reads = λ j. ok.reads j ∙ drop_absent m key (λ i e. sym (ok.reads i)) j;
    },
    rw (← ok.reads key) (omega arith),
  )
  root_dissoc-refines (some n) c m key ok =
      subst (Dropped m key c) (sym (hamt_dissoc-outcome n c key)) (
        outcome-Dropped n c m key (dissoc_node isequal n key (hashkey key) 0) ok
          (node-Erased isequal hashkey laws key n 0 ok.valid))

  -- hamt-dissoc, on a map whose trie is well formed, whose count is the number of its entries and
  -- which reads as a map from keys to values, gives such a map again, in which the key is absent
  -- and every key not equal to it reads as before; the count goes down by one where the key was
  -- present and stays where it was absent. The comparison of keys is an equivalence and equal
  -- keys have equal hashes.
  pub hamt_dissoc-refines :
      (h : Hamt K V) (m : K → Option V) (key : K)
      → Models h m
      → Models (hamt_dissoc isequal hashkey h key) (drop key m)
        × ((hamt_dissoc isequal hashkey h key).count + (if is_none (m key) then 0 else 1) ≡ h.count)
  hamt_dissoc-refines h m key ok = root_dissoc-refines h.root h.count m key ok
