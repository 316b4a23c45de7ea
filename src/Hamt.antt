-- ===== src/Hamt.antt =====
-- hamt.h: the persistent map. A node is its bitmap and its slots, whose number is `n`, and a map
-- version is a value, so that sharing and reference counts are left out. Keys are of any type, with
-- the comparison `isequal` and the hash `hamt_hashkey` as parameters, which Keys fills. A position
-- past the slots reads as no slot; Bits and Valid are about why the code computes none. A stored
-- value is not NULL, which the code reads as absent, and the commands' error for a key that is not a
-- number comes before the calls that are here.
pub mod Digits
pub mod Bits
pub mod Valid
pub mod Bucket
pub mod Positions
pub mod Place
pub mod Size
pub mod Fill
pub mod Merge
pub mod Assoc
pub mod Erased
pub mod Vacate
pub mod Dissoc
pub mod Refine
pub mod Walk
pub mod Keys
mod Tests
use alcove.Base.{
  ℕ, zero, suc, ◌+◌, ◌-◌, ◌*◌, ◌/◌, ◌%◌, ◌^◌, bit_and, bit_or, Option, none, some, Bool, true,
  false, not, leb, ltb, ◌==◌, if◌then◌else◌,
}

mutual
  -- `hamt_node`
  pub data HamtNode {ℓ} (K V : Type ℓ) : Type ℓ where
    node : ℕ → HamtSlots K V → HamtNode K V

  -- `hamt_slot`: an entry, or a child where the key is NULL.
  pub data HamtSlot {ℓ} (K V : Type ℓ) : Type ℓ where
    entry : K → V → HamtSlot K V
    child : HamtNode K V → HamtSlot K V

  pub data HamtSlots {ℓ} (K V : Type ℓ) : Type ℓ where
    no_slots : HamtSlots K V
    slot : HamtSlot K V → HamtSlots K V → HamtSlots K V

-- `hamt_t`; the root is NULL for the empty map.
pub record Hamt {ℓ} (K V : Type ℓ) : Type ℓ where
  pub root : Option (HamtNode K V)
  pub count : ℕ

-- `(hash >> shift) & HAMT_MASK`
unfoldable pub hash_index : ℕ → ℕ → ℕ
hash_index hash shift = bit_and (hash / 2 ^ shift) 31

-- `__builtin_popcount` of a number of that many bits.
unfoldable pub popcount : ℕ → ℕ → ℕ
popcount zero x = 0
popcount (suc bits) x = x % 2 + popcount bits (x / 2)

-- `bitmap & bit`, for the bit of an index.
unfoldable pub present : ℕ → ℕ → Bool
present bitmap i = not (bit_and bitmap (2 ^ i) == 0)

-- `__builtin_popcount(bitmap & (bit - 1))`
unfoldable pub position : ℕ → ℕ → ℕ
position bitmap i = popcount 32 (bit_and bitmap (2 ^ i - 1))

-- `bitmap | bit`
unfoldable pub with_bit : ℕ → ℕ → ℕ
with_bit bitmap i = bit_or bitmap (2 ^ i)

-- `bitmap & ~bit`
unfoldable pub without_bit : ℕ → ℕ → ℕ
without_bit bitmap i = bit_and bitmap (2 ^ 32 - 1 - 2 ^ i)

-- What a removal does to a node: nothing, with `*removed` 0; or a NULL or a new node, with 1.
pub data DissocOutcome {ℓ} (A : Type ℓ) : Type ℓ where
  unchanged : DissocOutcome A
  emptied : DissocOutcome A
  replaced : A → DissocOutcome A

module _ {ℓ} {K V : Type ℓ} where
  -- `n`
  unfoldable pub slots_length : HamtSlots K V → ℕ
  slots_length no_slots = 0
  slots_length (slot s ss) = suc (slots_length ss)

  unfoldable pub insert_at : ℕ → HamtSlot K V → HamtSlots K V → HamtSlots K V
  insert_at zero new ss = slot new ss
  insert_at (suc pos) new no_slots = slot new no_slots
  insert_at (suc pos) new (slot s ss) = slot s (insert_at pos new ss)

  -- The write to a slot of `hamt_node_copy`.
  unfoldable pub replace_at : ℕ → HamtSlot K V → HamtSlots K V → HamtSlots K V
  replace_at pos new no_slots = no_slots
  replace_at zero new (slot s ss) = slot new ss
  replace_at (suc pos) new (slot s ss) = slot s (replace_at pos new ss)

  -- `hamt_node_without`
  unfoldable pub remove_at : ℕ → HamtSlots K V → HamtSlots K V
  remove_at pos no_slots = no_slots
  remove_at zero (slot s ss) = ss
  remove_at (suc pos) (slot s ss) = slot s (remove_at pos ss)

  unfoldable pub two_slots : HamtSlot K V → HamtSlot K V → HamtSlots K V
  two_slots a b = slot a (slot b no_slots)

  -- What a result does to the slot or to the node that holds it.
  unfoldable pub child_outcome : DissocOutcome (HamtNode K V) → DissocOutcome (HamtSlot K V)
  child_outcome unchanged = unchanged
  child_outcome emptied = emptied
  child_outcome (replaced n) = replaced (child n)

  unfoldable pub node_outcome :
      ℕ → HamtSlots K V → ℕ → DissocOutcome (HamtSlot K V) → DissocOutcome (HamtNode K V)
  node_outcome bitmap ss i unchanged = unchanged
  node_outcome bitmap ss i emptied =
      if slots_length ss == 1
      then emptied
      else replaced (node (without_bit bitmap i) (remove_at (position bitmap i) ss))
  node_outcome bitmap ss i (replaced s) =
      replaced (node bitmap (replace_at (position bitmap i) s ss))

  -- `hamt_merge`; the rounds are the levels that the hash bits leave.
  unfoldable pub hamt_merge : ℕ → K → V → ℕ → K → V → ℕ → ℕ → HamtNode K V
  hamt_merge zero k1 v1 h1 k2 v2 h2 shift = node 0 (two_slots (entry k1 v1) (entry k2 v2))
  hamt_merge (suc rounds) k1 v1 h1 k2 v2 h2 shift =
      let deeper = hamt_merge rounds k1 v1 h1 k2 v2 h2 (shift + 5) in
      let i1 = hash_index h1 shift in
      let i2 = hash_index h2 shift in
      if leb 32 shift
      then node 0 (two_slots (entry k1 v1) (entry k2 v2))
      else if i1 == i2
      then node (2 ^ i1) (slot (child deeper) no_slots)
      else node (bit_or (2 ^ i1) (2 ^ i2)) (
          if ltb i1 i2
          then two_slots (entry k1 v1) (entry k2 v2)
          else two_slots (entry k2 v2) (entry k1 v1))

  module _ (isequal : K → K → Bool) where
    -- The loops over a collision bucket, whose slots are entries.
    unfoldable pub bucket_get : HamtSlots K V → K → Option V
    bucket_get no_slots key = none
    bucket_get (slot (child n) ss) key = bucket_get ss key
    bucket_get (slot (entry k v) ss) key = if isequal k key then some v else bucket_get ss key

    unfoldable pub bucket_assoc : HamtSlots K V → K → V → HamtSlots K V × Bool
    bucket_assoc no_slots key val = (slot (entry key val) no_slots, true)
    bucket_assoc (slot (child n) ss) key val =
        let (rest, added) = bucket_assoc ss key val in (slot (child n) rest, added)
    bucket_assoc (slot (entry k v) ss) key val =
        let (rest, added) = bucket_assoc ss key val in
        if isequal k key then (slot (entry k val) ss, false) else (slot (entry k v) rest, added)

    unfoldable pub bucket_remove : HamtSlots K V → K → Option (HamtSlots K V)
    bucket_remove no_slots key = none
    bucket_remove (slot (child n) ss) key = elim (bucket_remove ss key) [
      | none ↦ none
      | some rest ↦ some (slot (child n) rest)
    ]
    bucket_remove (slot (entry k v) ss) key =
        if isequal k key
        then some ss
        else elim (bucket_remove ss key) [ none ↦ none | some rest ↦ some (slot (entry k v) rest) ]

    unfoldable pub bucket_dissoc : HamtSlots K V → K → DissocOutcome (HamtNode K V)
    bucket_dissoc ss key = elim (bucket_remove ss key) [
      | none ↦ unchanged
      | some rest ↦ if slots_length ss == 1 then emptied else replaced (node 0 rest)
    ]

    -- `hamt_node_get`, and its steps at the slot of a position.
    unfoldable mutual
      pub get_node : HamtNode K V → K → ℕ → ℕ → Option V
      get_node (node bitmap ss) key hash shift =
          if bitmap == 0
          then bucket_get ss key
          else if present bitmap (hash_index hash shift)
          then get_at ss (position bitmap (hash_index hash shift)) key hash (shift + 5)
          else none

      pub get_at : HamtSlots K V → ℕ → K → ℕ → ℕ → Option V
      get_at no_slots pos key hash shift = none
      get_at (slot s ss) zero key hash shift = get_slot s key hash shift
      get_at (slot s ss) (suc pos) key hash shift = get_at ss pos key hash shift

      pub get_slot : HamtSlot K V → K → ℕ → ℕ → Option V
      get_slot (entry k v) key hash shift = if isequal k key then some v else none
      get_slot (child n) key hash shift = get_node n key hash shift

    -- `hamt_node_dissoc` at a node, and what it does to the slot of a position.
    unfoldable mutual
      pub dissoc_node : HamtNode K V → K → ℕ → ℕ → DissocOutcome (HamtNode K V)
      dissoc_node (node bitmap ss) key hash shift =
          let i = hash_index hash shift in
          let at_slot = dissoc_at ss (position bitmap i) key hash (shift + 5) in
          if bitmap == 0
          then bucket_dissoc ss key
          else if present bitmap i
          then node_outcome bitmap ss i at_slot
          else unchanged

      pub dissoc_at : HamtSlots K V → ℕ → K → ℕ → ℕ → DissocOutcome (HamtSlot K V)
      dissoc_at no_slots pos key hash shift = unchanged
      dissoc_at (slot s ss) zero key hash shift = dissoc_slot s key hash shift
      dissoc_at (slot s ss) (suc pos) key hash shift = dissoc_at ss pos key hash shift

      pub dissoc_slot : HamtSlot K V → K → ℕ → ℕ → DissocOutcome (HamtSlot K V)
      dissoc_slot (entry k v) key hash shift = if isequal k key then emptied else unchanged
      dissoc_slot (child n) key hash shift = child_outcome (dissoc_node n key hash shift)

    module _ (hamt_hashkey : K → ℕ) where
      -- `hamt_node_assoc` at a node, with `*added`.
      unfoldable mutual
        pub assoc_node : HamtNode K V → K → V → ℕ → ℕ → HamtNode K V × Bool
        assoc_node (node bitmap ss) key val hash shift =
            let i = hash_index hash shift in
            let (bucket, new) = bucket_assoc ss key val in
            let (slots, added) = assoc_at ss (position bitmap i) key val hash (shift + 5) in
            if bitmap == 0
            then (node 0 bucket, new)
            else if present bitmap i
            then (node bitmap slots, added)
            else (node (with_bit bitmap i) (insert_at (position bitmap i) (entry key val) ss), true)

        pub assoc_at : HamtSlots K V → ℕ → K → V → ℕ → ℕ → HamtSlots K V × Bool
        assoc_at no_slots pos key val hash shift = (no_slots, false)
        assoc_at (slot s ss) zero key val hash shift =
            let (new, added) = assoc_slot s key val hash shift in (slot new ss, added)
        assoc_at (slot s ss) (suc pos) key val hash shift =
            let (rest, added) = assoc_at ss pos key val hash shift in (slot s rest, added)

        pub assoc_slot : HamtSlot K V → K → V → ℕ → ℕ → HamtSlot K V × Bool
        assoc_slot (entry k v) key val hash shift =
            if isequal k key
            then (entry k val, false)
            else (child (hamt_merge 7 k v (hamt_hashkey k) key val hash shift), true)
        assoc_slot (child n) key val hash shift =
            let (new, added) = assoc_node n key val hash shift in (child new, added)

      -- The calls on a map: `hamtgetcmd`, `hamtassoccmd` and `hamtdissoccmd` behind their checks.
      unfoldable pub hamt_get : Hamt K V → K → Option V
      hamt_get h key = elim h.root [ none ↦ none | some n ↦ get_node n key (hamt_hashkey key) 0 ]

      unfoldable pub hamt_assoc : Hamt K V → K → V → Hamt K V
      hamt_assoc h key val = elim h.root [
        | none ↦ record {
          root = some (node (2 ^ hash_index (hamt_hashkey key) 0) (slot (entry key val) no_slots));
          count = h.count + 1;
        }
        | some n ↦
            let (new, added) = assoc_node n key val (hamt_hashkey key) 0 in
            record { root = some new; count = h.count + (if added then 1 else 0) }
      ]

      unfoldable pub hamt_dissoc : Hamt K V → K → Hamt K V
      hamt_dissoc h key = elim h.root [
        | none ↦ h
        | some n ↦ elim (dissoc_node n key (hamt_hashkey key) 0) [
          | unchanged ↦ h
          | emptied ↦ record { root = none; count = h.count - 1 }
          | replaced new ↦ record { root = some new; count = h.count - 1 }
        ]
      ]
