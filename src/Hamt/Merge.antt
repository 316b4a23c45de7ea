-- ===== src/Hamt/Merge.antt =====
-- The nodes that `hamt_merge` builds for two entries with different keys.
use alcove.Base.{
  ℕ, zero, suc, ◌+◌, ◌*◌, ◌^◌, ◌<◌, ◌≤◌, ◌≡◌, ◌≢◌, refl, sym, ap, ◌∙◌, Option, none, some, Bool,
  true, false, ◌==◌, ltb, leb, if◌then◌else◌, arith, ℕ_discrete, dec_lt, bit_or, Bool-cases, inl,
  inr,
}
use alcove.Hamt.{
  HamtNode, node, HamtSlot, entry, child, HamtSlots, no_slots, slot, slots_length, two_slots,
  hash_index, popcount, present, position, with_bit, insert_at, get_node, get_slot, bucket_get,
  hamt_merge,
}
use alcove.Hamt.Bits.{
  index-lt, present-zero, position-zero, popcount_empty, with_bit-sum, with_bit-lt,
  popcount-with_bit, present-with_bit, position-with_bit_above, position-with_bit_below,
}
use alcove.Hamt.Valid.{
  IsKeyed, isequal_flip, isequal_left, other_index, IsNode, IsSlot, AreSlots, is_distinct, absent,
}
use alcove.Hamt.Place.{branch_get, get_node-branch, inserted, insert_same, insert_other}
use alcove.Hamt.Size.{size_node, size-insert_at}
use mathlib.Core.Path.{subst}
use native.Mathlib.Nat.{one-le-pow}
use alcove.Hamt.Fill.{inserted-IsNode, insert_entry-reads, branch_clear}

module _ {ℓ} {K V : Type ℓ} (isequal : K → K → Bool) (hashkey : K → ℕ)
    (laws : IsKeyed isequal hashkey) where
  -- A node with one slot.
  abbrev pub single : ℕ → HamtSlot K V → HamtNode K V
  single i s = node (2 ^ i) (slot s no_slots)

  pub single-inserted : (i : ℕ) (s : HamtSlot K V) → i < 32 → inserted 0 i s no_slots ≡ single i s
  unfolding insert_at
  single-inserted i s small =
      rw (with_bit-sum 0 i small (present-zero i), position-zero i)
        (ap (λ (b : ℕ). node b (slot s no_slots)) (omega arith))

  pub single-IsNode :
      (i shift : ℕ) (s : HamtSlot K V)
      → i < 32
      → shift < 32
      → IsSlot isequal (shift + 5) s
      → IsNode isequal shift (single i s)
  unfolding slots_length AreSlots
  single-IsNode i shift s small top ok = subst (IsNode isequal shift) (single-inserted i s small) (
      inserted-IsNode isequal hashkey laws 0 i shift s no_slots small top (omega arith)
        (present-zero i) (sym popcount_empty) ok tt)

  single-reads :
      (i shift : ℕ) (s : HamtSlot K V) (j : K)
      → i < 32
      → hash_index (hashkey j) shift ≡ i
      → get_node isequal (single i s) j (hashkey j) shift
        ≡ get_slot isequal s j (hashkey j) (shift + 5)
  unfolding slots_length
  single-reads i shift s j small e = rw (← single-inserted i s small) (
      insert_same isequal 0 i s no_slots j (hashkey j) shift (present-zero i) (sym popcount_empty)
        e)

  single-misses :
      (i shift : ℕ) (s : HamtSlot K V) (j : K)
      → i < 32
      → hash_index (hashkey j) shift ≢ i
      → get_node isequal (single i s) j (hashkey j) shift ≡ none
  unfolding slots_length
  single-misses i shift s j small ne = rw (← single-inserted i s small) (
      insert_other isequal 0 i s no_slots j (hashkey j) shift (present-zero i) (sym popcount_empty)
        ne small
      ∙ branch_clear isequal hashkey laws 0 no_slots j (hashkey j) shift
          (hash_index (hashkey j) shift) refl (present-zero (hash_index (hashkey j) shift)))

  pub single_entry-reads :
      (shift : ℕ) (k : K) (v : V) (j : K)
      → get_node isequal (single (hash_index (hashkey k) shift) (entry k v)) j (hashkey j) shift
        ≡ (if isequal k j then some v else none)
  unfolding get_slot
  single_entry-reads shift k v j =
      elim (ℕ_discrete (hash_index (hashkey j) shift) (hash_index (hashkey k) shift)) [
        | yes e ↦
            single-reads (hash_index (hashkey k) shift) shift (entry k v) j
              (index-lt (hashkey k) shift) e
        | no ne ↦ rw (other_index isequal hashkey laws k j shift ne) (
            single-misses (hash_index (hashkey k) shift) shift (entry k v) j
              (index-lt (hashkey k) shift) ne)
      ]

  module _ (k1 : K) (v1 : V) (k2 : K) (v2 : V) where
    -- What the node of two entries reads as.
    abbrev pub pair_reads : K → Option V
    pair_reads j = if isequal k1 j then some v1 else if isequal k2 j then some v2 else none

    pub record IsPair (shift : ℕ) (n : HamtNode K V) : Type ℓ where
      pub valid : IsNode isequal shift n
      pub reads : (j : K) → get_node isequal n j (hashkey j) shift ≡ pair_reads j
      pub size : size_node n ≡ 2

    module _ (differ : isequal k1 k2 ≡ false) where
      other_differs : isequal k2 k1 ≡ false
      other_differs = isequal_flip isequal hashkey laws k2 k1 ∙ differ

      pair_distinct : is_distinct isequal (two_slots (entry k1 v1) (entry k2 v2)) ≡ true
      unfolding two_slots is_distinct absent bucket_get
      pair_distinct = rw other_differs refl

      bucket-IsPair :
          (shift : ℕ) → 32 ≤ shift → IsPair shift (node 0 (two_slots (entry k1 v1) (entry k2 v2)))
      unfolding two_slots size_node get_node bucket_get IsNode
      bucket-IsPair shift deep = record {
        valid = inl (record { marked = refl; deep = deep; distinct = pair_distinct });
        reads = λ j. refl;
        size = refl;
      }

      module _ (shift : ℕ) (top : shift < 32)
          (ne : hash_index (hashkey k1) shift ≢ hash_index (hashkey k2) shift) where
        abbrev i1 : ℕ
        i1 = hash_index (hashkey k1) shift

        abbrev i2 : ℕ
        i2 = hash_index (hashkey k2) shift

        abbrev first : HamtSlots K V
        first = slot (entry k1 v1) no_slots

        one_bit : with_bit 0 i1 ≡ 2 ^ i1
        one_bit = with_bit-sum 0 i1 (index-lt (hashkey k1) shift) (present-zero i1) ∙ omega arith

        second_free : present (2 ^ i1) i2 ≡ false
        second_free = rw (← one_bit) (
            present-with_bit 0 i1 (index-lt (hashkey k1) shift) (present-zero i1) i2 ne
            ∙ present-zero i2)

        one_full : slots_length first ≡ popcount 32 (2 ^ i1)
        unfolding slots_length
        one_full = rw (← one_bit) (
            sym (
              popcount-with_bit 0 i1 (index-lt (hashkey k1) shift) (present-zero i1)
              ∙ ap suc popcount_empty))

        first_branch :
            (j : K)
            → branch_get isequal (2 ^ i1) first j (hashkey j) shift
              ≡ (if isequal k1 j then some v1 else none)
        first_branch j =
            sym (
              get_node-branch isequal (2 ^ i1) first j (hashkey j) shift
                (one-le-pow i1 2 (omega arith)))
            ∙ single_entry-reads shift k1 v1 j

        split-IsPair : IsPair shift (inserted (2 ^ i1) i2 (entry k2 v2) first)
        unfolding IsNode slots_length size_node
        split-IsPair = record {
          valid =
              inserted-IsNode isequal hashkey laws (2 ^ i1) i2 shift (entry k2 v2) first
                (index-lt (hashkey k2) shift) top one_word second_free one_full tt (tt, tt);
          reads = λ j.
              insert_entry-reads isequal hashkey laws (2 ^ i1) shift k2 v2 first j second_free
                one_full
              ∙ ap (λ (o : Option V). if isequal k2 j then some v2 else o) (first_branch j)
              ∙ swap_reads j;
          size = size-insert_at (position (2 ^ i1) i2) (entry k2 v2) first;
        }
          where
            one_word : 2 ^ i1 < 2 ^ 32
            one_word =
                rw (← one_bit)
                  (with_bit-lt 0 i1 (index-lt (hashkey k1) shift) (present-zero i1) (omega arith))

            swap_reads :
                (j : K)
                → (if isequal k2 j then some v2 else if isequal k1 j then some v1 else none)
                  ≡ pair_reads j
            swap_reads j = elim (Bool-cases (isequal k1 j)) [
              | inl e ↦
                  let apart : isequal k2 j ≡ false =
                    isequal_flip isequal hashkey laws k2 j
                    ∙ sym (isequal_left isequal hashkey laws k1 j k2 e)
                    ∙ differ in
                  rw (e, apart) refl
              | inr e ↦ rw e refl
            ]

        second_above : i1 < i2 → position (2 ^ i1) i2 ≡ 1
        second_above lt = rw (← one_bit) (
            position-with_bit_above 0 i1 (index-lt (hashkey k1) shift) (present-zero i1) i2 lt
              (index-lt (hashkey k2) shift)
            ∙ ap suc (position-zero i2))

        second_below : i2 ≤ i1 → position (2 ^ i1) i2 ≡ 0
        second_below le = rw (← one_bit) (
            position-with_bit_below 0 i1 (index-lt (hashkey k1) shift) (present-zero i1) i2 le
            ∙ position-zero i2)

        split_node :
            node (bit_or (2 ^ i1) (2 ^ i2)) (
              if ltb i1 i2
              then two_slots (entry k1 v1) (entry k2 v2)
              else two_slots (entry k2 v2) (entry k1 v1))
            ≡ inserted (2 ^ i1) i2 (entry k2 v2) first
        unfolding with_bit two_slots insert_at
        split_node = elim (dec_lt i1 i2) [
          | yes lt ↦ let below : ltb i1 i2 ≡ true = ground arith in rw (below, second_above lt) refl
          | no ge ↦
              let above : ltb i1 i2 ≡ false = ground arith in
              rw (above, second_below (omega arith)) refl
        ]

      -- One index for both keys.
      module _ (shift : ℕ) (deeper : HamtNode K V) (top : shift < 32)
          (e : hash_index (hashkey k1) shift ≡ hash_index (hashkey k2) shift)
          (ok : IsPair (shift + 5) deeper) where
        descend-IsPair : IsPair shift (single (hash_index (hashkey k1) shift) (child deeper))
        unfolding IsNode size_node get_slot
        descend-IsPair = record {
          valid =
              single-IsNode (hash_index (hashkey k1) shift) shift (child deeper)
                (index-lt (hashkey k1) shift) top ok.valid;
          reads = λ j.
              elim (ℕ_discrete (hash_index (hashkey j) shift) (hash_index (hashkey k1) shift)) [
                | yes same ↦
                    single-reads (hash_index (hashkey k1) shift) shift (child deeper) j
                      (index-lt (hashkey k1) shift) same
                    ∙ ok.reads j
                | no ne ↦
                    let ne2 : hash_index (hashkey j) shift ≢ hash_index (hashkey k2) shift =
                      λ q. ne (q ∙ sym e) in
                    rw
                      (
                        other_index isequal hashkey laws k1 j shift ne,
                        other_index isequal hashkey laws k2 j shift ne2,
                      )
                      (single-misses (hash_index (hashkey k1) shift) shift (child deeper) j
                        (index-lt (hashkey k1) shift) ne)
              ];
          size = omega (arith, ok.size);
        }

      -- hamt_merge, of two entries whose keys are not equal, with rounds enough to reach 32 bits
      -- from its shift, builds a well-formed node, whose collision bucket, if it has one, comes
      -- after all 32 bits of the hash; the node holds two entries and reads as them and as no
      -- others.
      pub hamt_merge-IsPair :
          (rounds shift : ℕ)
          → 32 ≤ shift + 5 * rounds
          → IsPair shift (hamt_merge rounds k1 v1 (hashkey k1) k2 v2 (hashkey k2) shift)
      unfolding hamt_merge
      hamt_merge-IsPair zero shift enough = bucket-IsPair shift (omega arith)
      hamt_merge-IsPair (suc rounds) shift enough = elim (dec_lt shift 32) [
        | no deep ↦
            let over : leb 32 shift ≡ true = ground arith in
            rw over (bucket-IsPair shift (omega arith))
        | yes top ↦
            let under : leb 32 shift ≡ false = ground arith in
            elim (ℕ_discrete (hash_index (hashkey k1) shift) (hash_index (hashkey k2) shift)) [
              | yes e ↦
                  let same : (hash_index (hashkey k1) shift == hash_index (hashkey k2) shift)
                      ≡ true =
                    ground arith in
                  rw (under, same)
                    (descend-IsPair shift
                      (hamt_merge rounds k1 v1 (hashkey k1) k2 v2 (hashkey k2) (shift + 5)) top e
                      (hamt_merge-IsPair rounds (shift + 5) (omega arith)))
              | no ne ↦
                  let apart : (hash_index (hashkey k1) shift == hash_index (hashkey k2) shift)
                      ≡ false =
                    ground arith in
                  rw (under, apart, split_node shift top ne) (split-IsPair shift top ne)
            ]
      ]
