-- ===== src/Hamt/Assoc.antt =====
-- `hamt_node_assoc`: what the new version reads as, `*added`, and that nodes stay well-formed.
use alcove.Base.{
  ℕ, zero, suc, ◌+◌, ◌<◌, ◌≡◌, refl, sym, ap, ◌∙◌, Option, none, some, Bool, true, false, ◌==◌,
  if◌then◌else◌, arith, ℕ_discrete, Bool-cases, inl, inr,
}
use alcove.Hamt.{
  HamtNode, node, HamtSlot, entry, child, HamtSlots, no_slots, slot, slots_length, hash_index,
  present, position, replace_at, get_node, get_at, get_slot, bucket_assoc, assoc_node, assoc_at,
  assoc_slot,
}
use alcove.Hamt.Bits.{index-lt, position-lt}
use alcove.Hamt.Valid.{
  IsKeyed, isequal_flip, isequal_left, other_index, is_none, IsBranch, IsBucket, IsNode, IsSlot,
  AreSlots, absent,
}
use alcove.Hamt.Bucket.{bucket_assoc-reads, bucket_assoc-distinct, bucket_assoc-added}
use alcove.Hamt.Positions.{length-replace_at, AreSlots-replace_at}
use alcove.Hamt.Place.{
  branch_get, get_node-branch, inserted, replacing, replace_same, replace_other,
}
use alcove.Hamt.Size.{size_node, size_slots, size_slot, size_at, size-insert_at, size-replace_at}
use alcove.Hamt.Fill.{inserted-IsNode, insert_entry-reads, branch_clear}
use alcove.Hamt.Merge.{hamt_merge-IsPair}

module _ {ℓ} {K V : Type ℓ} (isequal : K → K → Bool) (hashkey : K → ℕ)
    (laws : IsKeyed isequal hashkey) (key : K) (val : V) where
  -- A map before and after a write, with `*added` and the numbers of entries.
  pub record Written (old new : K → Option V) (added : Bool) (before after : ℕ) : Type ℓ where
    pub reads : (j : K) → new j ≡ (if isequal key j then some val else old j)
    pub flag : added ≡ is_none (old key)
    pub size : after ≡ before + (if added then 1 else 0)

  abbrev pub at_node : HamtNode K V → ℕ → K → Option V
  at_node n shift j = get_node isequal n j (hashkey j) shift

  abbrev at_slot : HamtSlot K V → ℕ → K → Option V
  at_slot s shift j = get_slot isequal s j (hashkey j) shift

  abbrev at_position : HamtSlots K V → ℕ → ℕ → K → Option V
  at_position ss p shift j = get_at isequal ss p j (hashkey j) shift

  abbrev at : ℕ → ℕ
  at shift = hash_index (hashkey key) shift

  bucket_assoc-size :
      (ss : HamtSlots K V)
      → size_slots (bucket_assoc isequal ss key val).0
        ≡ size_slots ss + (if (bucket_assoc isequal ss key val).1 then 1 else 0)
  unfolding bucket_assoc size_slots
  bucket_assoc-size no_slots = refl
  bucket_assoc-size (slot (child n) ss) = omega (arith, bucket_assoc-size ss)
  bucket_assoc-size (slot (entry k v) ss) = elim (Bool-cases (isequal k key)) [
    | inl e ↦ rw e (omega arith)
    | inr e ↦ rw e (omega (arith, bucket_assoc-size ss))
  ]

  -- A write at the slot of an index that is taken.
  module _ (bitmap shift : ℕ) (ss : HamtSlots K V) (set : present bitmap (at shift) ≡ true) where
    module _ (branch : IsBranch shift bitmap ss) where
      inside : position bitmap (at shift) < slots_length ss
      inside =
          omega
            (arith, branch.full, position-lt bitmap (at shift) (index-lt (hashkey key) shift) set)

      taken :
          (j : K)
          → hash_index (hashkey j) shift ≡ at shift
          → at_node (node bitmap ss) shift j
            ≡ at_position ss (position bitmap (at shift)) (shift + 5) j
      unfolding branch_get
      taken j e =
          rw (get_node-branch isequal bitmap ss j (hashkey j) shift branch.nonzero, e, set) refl

      replace-Written :
          (s : HamtSlot K V) (added : Bool)
          → Written
              (at_position ss (position bitmap (at shift)) (shift + 5))
              (at_slot s (shift + 5))
              added
              (size_at ss (position bitmap (at shift)))
              (size_slot s)
          → Written
              (at_node (node bitmap ss) shift)
              (at_node (replacing bitmap (at shift) s ss) shift)
              added
              (size_slots ss)
              (size_slots (replace_at (position bitmap (at shift)) s ss))
      replace-Written s added w = record {
        reads = λ j. elim (ℕ_discrete (hash_index (hashkey j) shift) (at shift)) [
          | yes e ↦
              replace_same isequal bitmap (at shift) s ss j (hashkey j) shift branch.nonzero set e
                branch.full
              ∙ w.reads j
              ∙ ap (λ (o : Option V). if isequal key j then some val else o) (sym (taken j e))
          | no ne ↦
              replace_other isequal bitmap (at shift) s ss j (hashkey j) shift branch.nonzero set ne
                (index-lt (hashkey key) shift)
              ∙ sym (
                  ap (λ (t : Bool). if t then some val else at_node (node bitmap ss) shift j)
                    (other_index isequal hashkey laws key j shift ne))
        ];
        flag = w.flag ∙ ap is_none (sym (taken key refl));
        size = omega (arith, w.size, size-replace_at (position bitmap (at shift)) s ss inside);
      }

      replace-IsNode :
          (s : HamtSlot K V)
          → IsSlot isequal (shift + 5) s
          → AreSlots isequal (shift + 5) ss
          → IsNode isequal shift (replacing bitmap (at shift) s ss)
      unfolding IsNode
      replace-IsNode s ok oks = inr (
        record {
          nonzero = branch.nonzero;
          word = branch.word;
          shallow = branch.shallow;
          full = length-replace_at (position bitmap (at shift)) s ss ∙ branch.full;
        },
        AreSlots-replace_at isequal (shift + 5) (position bitmap (at shift)) s ss ok oks,
      )

  -- What `assoc_at` makes of the slot at a position.
  record Put (shift p : ℕ) (ss : HamtSlots K V) (result : HamtSlots K V × Bool) : Type ℓ where
    new : HamtSlot K V
    written : result.0 ≡ replace_at p new ss
    valid : IsSlot isequal shift new
    write :
        Written (at_position ss p shift) (at_slot new shift) result.1 (size_at ss p) (size_slot new)

  pub record PutNode (shift : ℕ) (n : HamtNode K V) (result : HamtNode K V × Bool) : Type ℓ where
    pub valid : IsNode isequal shift result.0
    pub write :
        Written
          (at_node n shift)
          (at_node result.0 shift)
          result.1
          (size_node n)
          (size_node result.0)

  record PutSlot (shift : ℕ) (s : HamtSlot K V) (result : HamtSlot K V × Bool) : Type ℓ where
    valid : IsSlot isequal shift result.0
    write :
        Written
          (at_slot s shift)
          (at_slot result.0 shift)
          result.1
          (size_slot s)
          (size_slot result.0)

  bucket-Put :
      (shift : ℕ) (ss : HamtSlots K V)
      → IsBucket isequal shift 0 ss
      → PutNode shift
          (node 0 ss)
          (node 0 (bucket_assoc isequal ss key val).0, (bucket_assoc isequal ss key val).1)
  unfolding IsNode get_node size_node absent
  bucket-Put shift ss ok = record {
    valid = inl (record {
      marked = ok.marked;
      deep = ok.deep;
      distinct = bucket_assoc-distinct isequal hashkey laws ss key val ok.distinct;
    });
    write = record {
      reads = bucket_assoc-reads isequal hashkey laws ss key val;
      flag = bucket_assoc-added isequal hashkey laws ss key val;
      size = bucket_assoc-size ss;
    };
  }

  free-Put :
      (bitmap shift : ℕ) (ss : HamtSlots K V)
      → IsBranch shift bitmap ss
      → AreSlots isequal (shift + 5) ss
      → present bitmap (at shift) ≡ false
      → PutNode shift (node bitmap ss) (inserted bitmap (at shift) (entry key val) ss, true)
  unfolding IsSlot size_node
  free-Put bitmap shift ss ok oks free = record {
    valid =
        inserted-IsNode isequal hashkey laws bitmap (at shift) shift (entry key val) ss
          (index-lt (hashkey key) shift) ok.shallow ok.word free ok.full tt oks;
    write = record {
      reads = λ j.
          insert_entry-reads isequal hashkey laws bitmap shift key val ss j free ok.full
          ∙ ap (λ (o : Option V). if isequal key j then some val else o)
              (sym (get_node-branch isequal bitmap ss j (hashkey j) shift ok.nonzero));
      flag = sym (
          ap is_none (
            get_node-branch isequal bitmap ss key (hashkey key) shift ok.nonzero
            ∙ branch_clear isequal hashkey laws bitmap ss key (hashkey key) shift (at shift) refl
                free));
      size = omega (arith, size-insert_at (position bitmap (at shift)) (entry key val) ss);
    };
  }

  again :
      (v : V) (b : Bool)
      → (if b then some val else none) ≡ (if b then some val else if b then some v else none)
  again v true = refl
  again v false = refl

  swapped :
      (k : K) (v : V)
      → isequal k key ≡ false
      → (j : K)
      → (if isequal k j then some v else if isequal key j then some val else none)
        ≡ (if isequal key j then some val else if isequal k j then some v else none)
  swapped k v e j = elim (Bool-cases (isequal k j)) [
    | inl p ↦
        let apart : isequal key j ≡ false =
          isequal_flip isequal hashkey laws key j
          ∙ sym (isequal_left isequal hashkey laws k j key p)
          ∙ e in
        rw (p, apart) refl
    | inr p ↦ rw p refl
  ]

  entry-Put :
      (shift : ℕ) (k : K) (v : V)
      → PutSlot shift
          (entry k v)
          (assoc_slot isequal hashkey (entry k v) key val (hashkey key) shift)
  unfolding assoc_slot get_slot IsSlot size_slot
  entry-Put shift k v = elim (Bool-cases (isequal k key)) [
    | inl e ↦ rw e (record {
      valid = tt;
      write = record {
        reads = λ j. rw (isequal_left isequal hashkey laws k key j e) (again v (isequal key j));
        flag = rw e refl;
        size = refl;
      };
    })
    | inr e ↦
        let pair = hamt_merge-IsPair isequal hashkey laws k v key val e 7 shift (omega arith) in
        rw e (record {
          valid = pair.valid;
          write = record {
            reads = λ j. pair.reads j ∙ swapped k v e j;
            flag = rw e refl;
            size = pair.size;
          };
        })
  ]

  mutual
    unfolding assoc_node IsNode size_node replace_at slots_length get_at size_at

    pub node-Put :
        (n : HamtNode K V) (shift : ℕ)
        → IsNode isequal shift n
        → PutNode shift n (assoc_node isequal hashkey n key val (hashkey key) shift)
    node-Put (node bitmap ss) shift (inl bucket) =
        rw bucket.marked (bucket-Put shift ss (rw bucket.marked at bucket))
    node-Put (node bitmap ss) shift (inr (branch, oks)) =
        let nonzero : (bitmap == 0) ≡ false = let p = branch.nonzero in ground arith in
        elim (Bool-cases (present bitmap (at shift))) [
          | inl set ↦
              let put =
                at-Put ss (position bitmap (at shift)) (shift + 5)
                  (inside bitmap shift ss set branch) oks in
              rw (nonzero, set, put.written)
                (record {
                  valid = replace-IsNode bitmap shift ss set branch put.new put.valid oks;
                  write = replace-Written bitmap shift ss set branch put.new _ put.write;
                })
          | inr free ↦ rw (nonzero, free) (free-Put bitmap shift ss branch oks free)
        ]

    at-Put :
        (ss : HamtSlots K V) (p shift : ℕ)
        → p < slots_length ss
        → AreSlots isequal shift ss
        → Put shift p ss (assoc_at isequal hashkey ss p key val (hashkey key) shift)
    at-Put no_slots p shift lt oks = absurd (omega arith)
    at-Put (slot s ss) zero shift lt (ok, oks) =
        let put = slot-Put s shift ok in
        record {
          new = (assoc_slot isequal hashkey s key val (hashkey key) shift).0;
          written = refl;
          valid = put.valid;
          write = put.write;
        }
    at-Put (slot s ss) (suc p) shift lt (ok, oks) =
        let put = at-Put ss p shift (omega arith) oks in
        record {
          new = put.new;
          written = ap (slot s) put.written;
          valid = put.valid;
          write = put.write;
        }

    slot-Put :
        (s : HamtSlot K V) (shift : ℕ)
        → IsSlot isequal shift s
        → PutSlot shift s (assoc_slot isequal hashkey s key val (hashkey key) shift)
    slot-Put (entry k v) shift ok = entry-Put shift k v
    slot-Put (child n) shift ok =
        let put = node-Put n shift ok in record { valid = put.valid; write = put.write }
