-- ===== src/Hamt/Vacate.antt =====
-- A branch after the removal from the slot of an index.
use alcove.Base.{
  ℕ, suc, ◌+◌, ◌<◌, ◌≡◌, ◌≢◌, refl, sym, ap, ◌∙◌, Option, none, Bool, true, false, ◌==◌,
  if◌then◌else◌, arith, ℕ_discrete, Bool-cases, inl, inr,
}
use alcove.Hamt.{
  HamtNode, node, HamtSlot, HamtSlots, slots_length, hash_index, popcount, present, position,
  without_bit, insert_at, remove_at, DissocOutcome, unchanged, emptied, replaced, node_outcome,
}
use alcove.Hamt.Bits.{
  index-lt, position-lt, popcount_empty, popcount-with_bit, position-with_bit_below,
  present-without_bit, with_bit-without_bit, without_bit-lt,
}
use alcove.Hamt.Valid.{
  IsKeyed, other_index, same_index, is_none, IsBranch, IsNode, IsSlot, AreSlots,
}
use alcove.Hamt.Positions.{
  length-insert_at, length-replace_at, insert-remove, AreSlots-replace_at, AreSlots-remove_at,
}
use alcove.Hamt.Place.{
  branch_get, get_node-branch, inserted, replacing, insert_other, replace_same, replace_other,
}
use alcove.Hamt.Size.{size_node, size_at, size-remove_at, size-replace_at}
use alcove.Hamt.Fill.{branch_clear}
use alcove.Hamt.Erased.{size_none, at_node, at_slot, at_position, Erased, ErasedNode, ErasedAt}

module _ {ℓ} {K V : Type ℓ} (isequal : K → K → Bool) (hashkey : K → ℕ)
    (laws : IsKeyed isequal hashkey) (key : K) where
  module _ (bitmap shift : ℕ) (ss : HamtSlots K V)
      (set : present bitmap (hash_index (hashkey key) shift) ≡ true)
      (branch : IsBranch shift bitmap ss) (oks : AreSlots isequal (shift + 5) ss) where
    abbrev pos : ℕ
    pos = position bitmap (hash_index (hashkey key) shift)

    small : hash_index (hashkey key) shift < 32
    small = index-lt (hashkey key) shift

    pub inside : pos < slots_length ss
    inside =
        omega (arith, branch.full, position-lt bitmap (hash_index (hashkey key) shift) small set)

    abbrev remaining : HamtSlots K V
    remaining = remove_at pos ss

    abbrev bits : ℕ
    bits = without_bit bitmap (hash_index (hashkey key) shift)

    bits_free : present bits (hash_index (hashkey key) shift) ≡ false
    bits_free = present-without_bit bitmap (hash_index (hashkey key) shift) small branch.word set

    rest_shorter : slots_length ss ≡ suc (slots_length remaining)
    rest_shorter =
        let (s, e) = insert-remove pos ss inside in
        ap slots_length (sym e) ∙ length-insert_at pos s remaining

    rest_full : slots_length remaining ≡ popcount 32 bits
    rest_full =
        let more = popcount-with_bit bits (hash_index (hashkey key) shift) small bits_free in
        let back =
          ap (popcount 32)
            (with_bit-without_bit bitmap (hash_index (hashkey key) shift) small branch.word set) in
        omega (arith, rest_shorter, branch.full, more, back)

    -- The branch is one with the slot put into what is left.
    put_back :
        (s : HamtSlot K V)
        → insert_at pos s remaining ≡ ss
        → node bitmap ss ≡ inserted bits (hash_index (hashkey key) shift) s remaining
    put_back s e =
        let back =
          with_bit-without_bit bitmap (hash_index (hashkey key) shift) small branch.word set in
        let same : position bits (hash_index (hashkey key) shift) ≡ pos =
          sym (
            position-with_bit_below bits (hash_index (hashkey key) shift) small bits_free
              (hash_index (hashkey key) shift) (omega arith))
          ∙ ap (λ (b : ℕ). position b (hash_index (hashkey key) shift)) back in
        rw (same, e, back) refl

    taken :
        (j : K)
        → hash_index (hashkey j) shift ≡ hash_index (hashkey key) shift
        → at_node isequal hashkey laws key shift (node bitmap ss) j
          ≡ at_position isequal hashkey laws key (shift + 5) ss pos j
    unfolding branch_get
    taken j e =
        rw (get_node-branch isequal bitmap ss j (hashkey j) shift branch.nonzero, e, set) refl

    elsewhere :
        (j : K)
        → hash_index (hashkey j) shift ≢ hash_index (hashkey key) shift
        → at_node isequal hashkey laws key shift (node bitmap ss) j
          ≡ branch_get isequal bits remaining j (hashkey j) shift
    elsewhere j ne =
        let (s, e) = insert-remove pos ss inside in
        ap (λ (n : HamtNode K V). at_node isequal hashkey laws key shift n j) (put_back s e)
        ∙ insert_other isequal bits (hash_index (hashkey key) shift) s remaining j (hashkey j) shift
            bits_free rest_full ne small

    bits_pos : 0 < slots_length remaining → 0 < bits
    bits_pos more = elim (ℕ_discrete bits 0) [
      | yes e ↦ absurd (omega (arith, rest_full, more, popcount_empty, ap (popcount 32) e))
      | no ne ↦ omega (arith, ne)
    ]

    rest_empty :
        slots_length remaining ≡ 0
        → (j : K) (h : ℕ) → branch_get isequal bits remaining j h shift ≡ none
    unfolding branch_get
    rest_empty e j h = elim (Bool-cases (present bits (hash_index h shift))) [
      | inl there ↦ absurd (
          omega
            (arith, e, rest_full, position-lt bits (hash_index h shift) (index-lt h shift) there))
      | inr free ↦ rw free refl
    ]

    replace-reads :
        (s : HamtSlot K V)
        → ((j : K)
            → at_slot isequal hashkey laws key (shift + 5) s j ≡ (
                if isequal key j
                then none
                else at_position isequal hashkey laws key (shift + 5) ss pos j))
        → (j : K)
        → at_node isequal hashkey laws key shift
            (replacing bitmap (hash_index (hashkey key) shift) s ss)
            j
          ≡ (if isequal key j
              then none
              else at_node isequal hashkey laws key shift (node bitmap ss) j)
    replace-reads s reads j =
        elim (ℕ_discrete (hash_index (hashkey j) shift) (hash_index (hashkey key) shift)) [
          | yes e ↦
              replace_same isequal bitmap (hash_index (hashkey key) shift) s ss j (hashkey j) shift
                branch.nonzero set e branch.full
              ∙ reads j
              ∙ ap (λ (o : Option V). if isequal key j then none else o) (sym (taken j e))
          | no ne ↦
              replace_other isequal bitmap (hash_index (hashkey key) shift) s ss j (hashkey j) shift
                branch.nonzero set ne small
              ∙ sym (
                  ap
                    (λ (t : Bool).
                      if t then none else at_node isequal hashkey laws key shift (node bitmap ss) j)
                    (other_index isequal hashkey laws key j shift ne))
        ]

    replace-IsNode :
        (s : HamtSlot K V)
        → IsSlot isequal (shift + 5) s
        → IsNode isequal shift (replacing bitmap (hash_index (hashkey key) shift) s ss)
    unfolding IsNode
    replace-IsNode s ok = inr (
      record {
        nonzero = branch.nonzero;
        word = branch.word;
        shallow = branch.shallow;
        full = length-replace_at pos s ss ∙ branch.full;
      },
      AreSlots-replace_at isequal (shift + 5) pos s ss ok oks,
    )

    rest-IsNode : 0 < slots_length remaining → IsNode isequal shift (node bits remaining)
    unfolding IsNode
    rest-IsNode more = inr (
      record {
        nonzero = bits_pos more;
        word = without_bit-lt bitmap (hash_index (hashkey key) shift) small branch.word set;
        shallow = branch.shallow;
        full = rest_full;
      },
      AreSlots-remove_at isequal (shift + 5) pos ss oks,
    )

    module _
        (others : (j : K)
          → isequal key j ≡ false
          → at_position isequal hashkey laws key (shift + 5) ss pos j ≡ none) where
      left_clear :
          (j : K)
          → hash_index (hashkey j) shift ≡ hash_index (hashkey key) shift
          → branch_get isequal bits remaining j (hashkey j) shift ≡ none
      left_clear j e =
          branch_clear isequal hashkey laws bits remaining j (hashkey j) shift
            (hash_index (hashkey key) shift) e bits_free

      left_other :
          (j : K)
          → isequal key j ≡ false
          → at_node isequal hashkey laws key shift (node bitmap ss) j
            ≡ branch_get isequal bits remaining j (hashkey j) shift
      left_other j apart =
          elim (ℕ_discrete (hash_index (hashkey j) shift) (hash_index (hashkey key) shift)) [
            | yes e ↦ taken j e ∙ others j apart ∙ sym (left_clear j e)
            | no ne ↦ elsewhere j ne
          ]

      left_reads :
          (j : K)
          → branch_get isequal bits remaining j (hashkey j) shift ≡ (
              if isequal key j
              then none
              else at_node isequal hashkey laws key shift (node bitmap ss) j)
      left_reads j = elim (Bool-cases (isequal key j)) [
        | inl e ↦ rw e (left_clear j (same_index isequal hashkey laws key j shift e))
        | inr apart ↦ rw apart (sym (left_other j apart))
      ]

      emptied-Erased :
          is_none (at_position isequal hashkey laws key (shift + 5) ss pos key) ≡ false
          → size_at ss pos ≡ 1
          → ErasedNode isequal hashkey laws key shift
              (node bitmap ss)
              (node_outcome bitmap ss (hash_index (hashkey key) shift) emptied)
      unfolding node_outcome Erased ErasedNode size_node
      emptied-Erased was one = elim (ℕ_discrete (slots_length ss) 1) [
        | yes e ↦
            let single : (slots_length ss == 1) ≡ true = ground arith in
            let none_left : slots_length remaining ≡ 0 = omega (arith, rest_shorter, e) in
            rw single (
              ap is_none (taken key refl) ∙ was,
              (λ j apart. left_other j apart ∙ rest_empty none_left j (hashkey j)),
              omega (arith, one, size-remove_at pos ss inside, size_none remaining none_left),
            )
        | no ne ↦
            let several : (slots_length ss == 1) ≡ false = ground arith in
            let more : 0 < slots_length remaining = omega (arith, rest_shorter, ne) in
            rw several (
              ap is_none (taken key refl) ∙ was,
              (λ j.
                  get_node-branch isequal bits remaining j (hashkey j) shift (bits_pos more)
                  ∙ left_reads j),
              omega (arith, one, size-remove_at pos ss inside),
              rest-IsNode more,
            )
      ]

    pub outcome-Erased :
        (o : DissocOutcome (HamtSlot K V))
        → ErasedAt isequal hashkey laws key (shift + 5) ss pos o
        → ErasedNode isequal hashkey laws key shift
            (node bitmap ss)
            (node_outcome bitmap ss (hash_index (hashkey key) shift) o)
    unfolding node_outcome Erased ErasedNode ErasedAt size_node
    outcome-Erased unchanged kept =
        λ j e. taken j (same_index isequal hashkey laws key j shift e) ∙ kept j e
    outcome-Erased (replaced s) (was, reads, size, ok) = (
      ap is_none (taken key refl) ∙ was,
      replace-reads s reads,
      omega (arith, size, size-replace_at pos s ss inside),
      replace-IsNode s ok,
    )
    outcome-Erased emptied (was, others, one) = emptied-Erased others was one
