-- ===== src/Hamt/Fill.antt =====
-- A slot put at a free index of a branch, and the nodes that `hamt_merge` builds.
use alcove.Base.{
  ℕ, suc, ◌+◌, ◌^◌, ◌<◌, ◌≡◌, refl, sym, ap, ◌∙◌, Option, none, some, Bool, false, if◌then◌else◌,
  ℕ_discrete, inr,
}
use alcove.Hamt.{
  node, HamtSlot, entry, HamtSlots, slots_length, hash_index, popcount, present, position, with_bit,
  insert_at, get_node, get_slot,
}
use alcove.Hamt.Bits.{index-lt, with_bit-lt, with_bit-pos, popcount-with_bit}
use alcove.Hamt.Valid.{IsKeyed, other_index, IsBranch, IsNode, IsSlot, AreSlots}
use alcove.Hamt.Positions.{length-insert_at, AreSlots-insert_at}
use alcove.Hamt.Place.{branch_get, inserted, insert_same, insert_other}

module _ {ℓ} {K V : Type ℓ} (isequal : K → K → Bool) (hashkey : K → ℕ)
    (laws : IsKeyed isequal hashkey) where
  pub branch_clear :
      (b : ℕ) (ss : HamtSlots K V) (j : K) (h shift i : ℕ)
      → hash_index h shift ≡ i
      → present b i ≡ false
      → branch_get isequal b ss j h shift ≡ none
  unfolding branch_get
  branch_clear b ss j h shift i e free = rw (e, free) refl

  pub inserted-IsBranch :
      (b i shift : ℕ) (s : HamtSlot K V) (ss : HamtSlots K V)
      → i < 32
      → shift < 32
      → b < 2 ^ 32
      → present b i ≡ false
      → slots_length ss ≡ popcount 32 b
      → IsBranch shift (with_bit b i) (insert_at (position b i) s ss)
  inserted-IsBranch b i shift s ss small top word free full = record {
    nonzero = with_bit-pos b i small free;
    word = with_bit-lt b i small free word;
    shallow = top;
    full =
        length-insert_at (position b i) s ss ∙ ap suc full ∙ sym (popcount-with_bit b i small free);
  }

  pub inserted-IsNode :
      (b i shift : ℕ) (s : HamtSlot K V) (ss : HamtSlots K V)
      → i < 32
      → shift < 32
      → b < 2 ^ 32
      → present b i ≡ false
      → slots_length ss ≡ popcount 32 b
      → IsSlot isequal (shift + 5) s
      → AreSlots isequal (shift + 5) ss
      → IsNode isequal shift (inserted b i s ss)
  unfolding IsNode
  inserted-IsNode b i shift s ss small top word free full ok oks = inr (
    inserted-IsBranch b i shift s ss small top word free full,
    AreSlots-insert_at isequal (shift + 5) (position b i) s ss ok oks,
  )

  at_entry :
      (k : K) (v : V) (j : K) (h shift : ℕ) (other : Option V)
      → other ≡ none
      → get_slot isequal (entry k v) j h shift ≡ (if isequal k j then some v else other)
  unfolding get_slot
  at_entry k v j h shift other e = rw e refl

  -- An entry put at its own index.
  pub insert_entry-reads :
      (b shift : ℕ) (k : K) (v : V) (ss : HamtSlots K V) (j : K)
      → present b (hash_index (hashkey k) shift) ≡ false
      → slots_length ss ≡ popcount 32 b
      → get_node isequal
          (node
            (with_bit b (hash_index (hashkey k) shift))
            (insert_at (position b (hash_index (hashkey k) shift)) (entry k v) ss))
          j
          (hashkey j)
          shift
        ≡ (if isequal k j then some v else branch_get isequal b ss j (hashkey j) shift)
  insert_entry-reads b shift k v ss j free full =
      elim (ℕ_discrete (hash_index (hashkey j) shift) (hash_index (hashkey k) shift)) [
        | yes e ↦
            insert_same isequal b (hash_index (hashkey k) shift) (entry k v) ss j (hashkey j) shift
              free full e
            ∙ at_entry k v j (hashkey j) (shift + 5) (branch_get isequal b ss j (hashkey j) shift)
                (branch_clear b ss j (hashkey j) shift (hash_index (hashkey k) shift) e free)
        | no ne ↦
            insert_other isequal b (hash_index (hashkey k) shift) (entry k v) ss j (hashkey j) shift
              free full ne (index-lt (hashkey k) shift)
            ∙ sym (
                ap (λ (t : Bool). if t then some v else branch_get isequal b ss j (hashkey j) shift)
                  (other_index isequal hashkey laws k j shift ne))
      ]
