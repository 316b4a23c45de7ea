-- ===== src/Hamt/Erased.antt =====
-- What a removal says of a node and of a slot: how the version before reads, and the new one.
use alcove.Base.{ℕ, suc, ◌≡◌, refl, Option, none, Bool, true, false, if◌then◌else◌, arith}
use alcove.Hamt.{
  HamtNode, HamtSlot, HamtSlots, no_slots, slot, slots_length, get_node, get_at, get_slot,
  bucket_get, DissocOutcome, unchanged, emptied, replaced,
}
use alcove.Hamt.Valid.{IsKeyed, is_none, IsNode, IsSlot}
use alcove.Hamt.Size.{size_node, size_slots, size_slot, size_at}

pub size_none {ℓ} : {K V : Type ℓ} (ss : HamtSlots K V) → slots_length ss ≡ 0 → size_slots ss ≡ 0
unfolding size_slots slots_length
size_none no_slots e = refl
size_none (slot s ss) e = absurd (omega arith)

pub bucket_nothing {ℓ} :
    {K V : Type ℓ} (isequal : K → K → Bool) (ss : HamtSlots K V)
    → slots_length ss ≡ 0
    → (j : K) → bucket_get isequal ss j ≡ none
unfolding bucket_get slots_length
bucket_nothing isequal no_slots e j = refl
bucket_nothing isequal (slot s ss) e j = absurd (omega arith)

module _ {ℓ} {K V : Type ℓ} (isequal : K → K → Bool) (hashkey : K → ℕ)
    (laws : IsKeyed isequal hashkey) (key : K) where
  abbrev pub at_node : ℕ → HamtNode K V → K → Option V
  at_node shift n j = get_node isequal n j (hashkey j) shift

  abbrev pub at_slot : ℕ → HamtSlot K V → K → Option V
  at_slot shift s j = get_slot isequal s j (hashkey j) shift

  abbrev pub at_position : ℕ → HamtSlots K V → ℕ → K → Option V
  at_position shift ss p j = get_at isequal ss p j (hashkey j) shift

  -- What an outcome says of the map before, and of what it is replaced by.
  module _ {A : Type ℓ} (old : K → Option V) (before : ℕ) (read : A → K → Option V) (size : A → ℕ)
      (valid : A → Type 0) where
    unfoldable pub Erased : DissocOutcome A → Type ℓ
    Erased unchanged = (j : K) → isequal key j ≡ true → old j ≡ none
    Erased emptied =
        (is_none (old key) ≡ false)
        × ((j : K) → isequal key j ≡ false → old j ≡ none)
        × (before ≡ 1)
    Erased (replaced a) =
        (is_none (old key) ≡ false)
        × ((j : K) → read a j ≡ (if isequal key j then none else old j))
        × (before ≡ suc (size a))
        × valid a

  unfoldable pub ErasedNode : ℕ → HamtNode K V → DissocOutcome (HamtNode K V) → Type ℓ
  ErasedNode shift n =
      Erased (at_node shift n) (size_node n) (at_node shift) size_node (IsNode isequal shift)

  unfoldable pub ErasedAt : ℕ → HamtSlots K V → ℕ → DissocOutcome (HamtSlot K V) → Type ℓ
  ErasedAt shift ss p =
      Erased (at_position shift ss p) (size_at ss p) (at_slot shift) size_slot
        (IsSlot isequal shift)

  unfoldable pub ErasedSlot : ℕ → HamtSlot K V → DissocOutcome (HamtSlot K V) → Type ℓ
  ErasedSlot shift s =
      Erased (at_slot shift s) (size_slot s) (at_slot shift) size_slot (IsSlot isequal shift)
