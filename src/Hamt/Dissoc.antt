-- ===== src/Hamt/Dissoc.antt =====
-- `hamt_node_dissoc`: what the new version reads as, `*removed`, and that nodes stay well-formed.
use alcove.Base.{
  ℕ, zero, suc, ◌+◌, ◌<◌, ◌≡◌, refl, sym, ap, ◌∙◌, none, Bool, true, false, ◌==◌, if◌then◌else◌,
  arith, ℕ_discrete, Bool-cases, inl, inr,
}
use alcove.Hamt.{
  HamtNode, node, HamtSlot, entry, child, HamtSlots, no_slots, slot, slots_length, hash_index,
  present, position, replace_at, get_node, get_at, get_slot, bucket_get, bucket_dissoc,
  DissocOutcome, unchanged, emptied, replaced, child_outcome, dissoc_node, dissoc_at, dissoc_slot,
}
use alcove.Hamt.Valid.{
  IsKeyed, isequal_left, isequal_right, same_index, IsBucket, IsNode, IsSlot, AreSlots, absent,
}
use alcove.Hamt.Bucket.{Removed, Removed-or-absent, absent-none, bucket_get-equal}
use alcove.Hamt.Place.{get_node-branch}
use alcove.Hamt.Size.{size_node, size_slot, size_at}
use alcove.Hamt.Fill.{branch_clear}
use alcove.Hamt.Erased.{size_none, bucket_nothing, Erased, ErasedNode, ErasedAt, ErasedSlot}
use alcove.Hamt.Vacate.{outcome-Erased, inside}

module _ {ℓ} {K V : Type ℓ} (isequal : K → K → Bool) (hashkey : K → ℕ)
    (laws : IsKeyed isequal hashkey) (key : K) where
  module _ (shift : ℕ) (ss : HamtSlots K V) (ok : IsBucket isequal shift 0 ss) where
    bucket_unchanged :
        absent isequal ss key ≡ true
        → ErasedNode isequal hashkey laws key shift (node 0 ss) unchanged
    unfolding Erased ErasedNode get_node
    bucket_unchanged gone = λ j e.
        sym (bucket_get-equal isequal hashkey laws ss key j e)
        ∙ absent-none isequal hashkey laws ss key gone

    bucket_last :
        (rest : HamtSlots K V)
        → Removed isequal hashkey laws ss key rest
        → slots_length ss ≡ 1
        → ErasedNode isequal hashkey laws key shift (node 0 ss) emptied
    unfolding Erased ErasedNode get_node size_node absent
    bucket_last rest r one =
        let none_left : slots_length rest ≡ 0 = omega (arith, r.shorter, one) in
        (
          r.found,
          (λ j apart.
              sym (r.reads j ∙ ap (λ (t : Bool). if t then none else bucket_get isequal ss j) apart)
              ∙ bucket_nothing isequal rest none_left j),
          omega (arith, r.fewer, size_none rest none_left),
        )

    bucket_left :
        (rest : HamtSlots K V)
        → Removed isequal hashkey laws ss key rest
        → ErasedNode isequal hashkey laws key shift (node 0 ss) (replaced (node 0 rest))
    unfolding Erased ErasedNode get_node size_node absent IsNode
    bucket_left rest r = (
      r.found,
      r.reads,
      r.fewer,
      inl (record { marked = refl; deep = ok.deep; distinct = r.distinct }),
    )

    bucket-Erased :
        ErasedNode isequal hashkey laws key shift (node 0 ss) (bucket_dissoc isequal ss key)
    unfolding bucket_dissoc ErasedNode
    bucket-Erased = elim (Removed-or-absent isequal hashkey laws ss key ok.distinct) [
      | inl (e, gone) ↦ rw (bucket_dissoc, e) (bucket_unchanged gone)
      | inr (rest, e, r) ↦ elim (ℕ_discrete (slots_length ss) 1) [
        | yes one ↦
            let single : (slots_length ss == 1) ≡ true = ground arith in
            rw (bucket_dissoc, e, single) (bucket_last rest r one)
        | no ne ↦
            let several : (slots_length ss == 1) ≡ false = ground arith in
            rw (bucket_dissoc, e, several) (bucket_left rest r)
      ]
    ]

  entry-Erased :
      (shift : ℕ) (k : K) (v : V)
      → ErasedSlot isequal hashkey laws key shift
          (entry k v)
          (dissoc_slot isequal (entry k v) key (hashkey key) shift)
  unfolding dissoc_slot Erased ErasedSlot get_slot size_slot
  entry-Erased shift k v = elim (Bool-cases (isequal k key)) [
    | inl e ↦
        rw e (
          rw e refl,
          (λ j apart. rw (isequal_left isequal hashkey laws k key j e, apart) refl),
          refl,
        )
    | inr e ↦ rw e (λ j same. rw (← isequal_right isequal hashkey laws k key j same, e) refl)
  ]

  child-Erased :
      (shift : ℕ) (n : HamtNode K V) (o : DissocOutcome (HamtNode K V))
      → ErasedNode isequal hashkey laws key shift n o
      → ErasedSlot isequal hashkey laws key shift (child n) (child_outcome o)
  unfolding child_outcome Erased ErasedSlot ErasedNode get_slot size_slot IsSlot
  child-Erased shift n unchanged h = h
  child-Erased shift n emptied h = h
  child-Erased shift n (replaced new) h = h

  mutual
    unfolding dissoc_node IsNode replace_at slots_length get_at size_at Erased ErasedNode ErasedAt
        ErasedSlot

    pub node-Erased :
        (n : HamtNode K V) (shift : ℕ)
        → IsNode isequal shift n
        → ErasedNode isequal hashkey laws key shift n
            (dissoc_node isequal n key (hashkey key) shift)
    node-Erased (node bitmap ss) shift (inl bucket) =
        rw bucket.marked (bucket-Erased shift ss (rw bucket.marked at bucket))
    node-Erased (node bitmap ss) shift (inr (branch, oks)) =
        let nonzero : (bitmap == 0) ≡ false = let p = branch.nonzero in ground arith in
        elim (Bool-cases (present bitmap (hash_index (hashkey key) shift))) [
          | inl set ↦
              rw (nonzero, set)
                (outcome-Erased isequal hashkey laws key bitmap shift ss set branch oks
                  (dissoc_at isequal ss (position bitmap (hash_index (hashkey key) shift)) key
                    (hashkey key) (shift + 5))
                  (at-Erased ss (position bitmap (hash_index (hashkey key) shift)) (shift + 5)
                    (inside isequal hashkey laws key bitmap shift ss set branch oks) oks))
          | inr free ↦
              rw (nonzero, free)
                (λ j e.
                  get_node-branch isequal bitmap ss j (hashkey j) shift branch.nonzero
                  ∙ branch_clear isequal hashkey laws bitmap ss j (hashkey j) shift
                      (hash_index (hashkey key) shift)
                      (same_index isequal hashkey laws key j shift e) free)
        ]

    at-Erased :
        (ss : HamtSlots K V) (p shift : ℕ)
        → p < slots_length ss
        → AreSlots isequal shift ss
        → ErasedAt isequal hashkey laws key shift ss p
            (dissoc_at isequal ss p key (hashkey key) shift)
    at-Erased no_slots p shift lt oks = absurd (omega arith)
    at-Erased (slot s ss) zero shift lt (ok, oks) = slot-Erased s shift ok
    at-Erased (slot s ss) (suc p) shift lt (ok, oks) = at-Erased ss p shift (omega arith) oks

    slot-Erased :
        (s : HamtSlot K V) (shift : ℕ)
        → IsSlot isequal shift s
        → ErasedSlot isequal hashkey laws key shift s
            (dissoc_slot isequal s key (hashkey key) shift)
    slot-Erased (entry k v) shift ok = entry-Erased shift k v
    slot-Erased (child n) shift ok =
        child-Erased shift n (dissoc_node isequal n key (hashkey key) shift)
          (node-Erased n shift ok)
