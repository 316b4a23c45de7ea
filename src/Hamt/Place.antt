-- ===== src/Hamt/Place.antt =====
-- Reading a branch: the slot of an index, when a slot is put at it and when one is replaced.
use alcove.Base.{
  ℕ, ◌+◌, ◌<◌, ◌≡◌, ◌≢◌, refl, sym, Option, none, Bool, true, false, ◌==◌, if◌then◌else◌, arith,
  dec_lt, Bool-cases, inl, inr,
}
use alcove.Hamt.{
  HamtNode, node, HamtSlot, HamtSlots, slots_length, hash_index, popcount, present, position,
  with_bit, insert_at, replace_at, get_node, get_at, get_slot,
}
use alcove.Hamt.Bits.{
  index-lt, position-le, position-lt, position_strict, present-with_bit_self, present-with_bit,
  position-with_bit_below, position-with_bit_above, with_bit-pos, position_mono, position_apart,
}
use alcove.Hamt.Positions.{
  get_at-insert_self, get_at-insert_below, get_at-insert_above, get_at-replace_self,
  get_at-replace_other,
}

module _ {ℓ} {K V : Type ℓ} where
  -- A branch with a slot put at an index, and with the slot of an index replaced.
  abbrev pub inserted : ℕ → ℕ → HamtSlot K V → HamtSlots K V → HamtNode K V
  inserted b i s ss = node (with_bit b i) (insert_at (position b i) s ss)

  abbrev pub replacing : ℕ → ℕ → HamtSlot K V → HamtSlots K V → HamtNode K V
  replacing b i s ss = node b (replace_at (position b i) s ss)

module _ {ℓ} {K V : Type ℓ} (isequal : K → K → Bool) where
  -- `hamt_node_get` behind its test for a bucket.
  unfoldable pub branch_get : ℕ → HamtSlots K V → K → ℕ → ℕ → Option V
  branch_get b ss key h shift =
      if present b (hash_index h shift)
      then get_at isequal ss (position b (hash_index h shift)) key h (shift + 5)
      else none

  pub get_node-branch :
      (b : ℕ) (ss : HamtSlots K V) (key : K) (h shift : ℕ)
      → 0 < b
      → get_node isequal (node b ss) key h shift ≡ branch_get b ss key h shift
  unfolding get_node branch_get
  get_node-branch b ss key h shift lt =
      let nonzero : (b == 0) ≡ false = ground arith in rw nonzero refl

  module _ (b i : ℕ) (s : HamtSlot K V) (ss : HamtSlots K V) (key : K) (h shift : ℕ) where
    module _ (free : present b i ≡ false) (full : slots_length ss ≡ popcount 32 b) where
      pub insert_same :
          hash_index h shift ≡ i
          → get_node isequal (inserted b i s ss) key h shift ≡ get_slot isequal s key h (shift + 5)
      unfolding branch_get
      insert_same e =
          let small : i < 32 = rw (← e) (index-lt h shift) in
          rw
            (
              get_node-branch (with_bit b i) (insert_at (position b i) s ss) key h shift
                  (with_bit-pos b i small free),
              e,
              present-with_bit_self b i small free,
              position-with_bit_below b i small free i (omega arith),
            )
            (get_at-insert_self isequal (position b i) s ss key h (shift + 5)
              (omega (arith, full, position-le b i small)))

      insert_other_slot :
          (j : ℕ)
          → j ≢ i
          → i < 32
          → j < 32
          → present b j ≡ true
          → get_at isequal
              (insert_at (position b i) s ss)
              (position (with_bit b i) j)
              key
              h
              (shift + 5)
            ≡ get_at isequal ss (position b j) key h (shift + 5)
      insert_other_slot j ne small top set = elim (dec_lt j i) [
        | yes lt ↦ rw (position-with_bit_below b i small free j (omega arith)) (
            get_at-insert_below isequal (position b i) (position b j) s ss key h (shift + 5)
              (position_strict b j i lt small set) (omega (arith, full, position-le b i small)))
        | no ge ↦
            let lt : i < j = omega (arith, ne, ge) in
            rw (position-with_bit_above b i small free j lt top) (
              get_at-insert_above isequal (position b i) (position b j) s ss key h (shift + 5)
                (position_mono b i j (omega arith) top))
      ]

      pub insert_other :
          hash_index h shift ≢ i
          → i < 32
          → get_node isequal (inserted b i s ss) key h shift ≡ branch_get b ss key h shift
      unfolding branch_get
      insert_other ne small =
          let apart : i ≢ hash_index h shift = λ e. ne (sym e) in
          rw
            (
              get_node-branch (with_bit b i) (insert_at (position b i) s ss) key h shift
                  (with_bit-pos b i small free),
              present-with_bit b i small free (hash_index h shift) apart,
            )
            (elim (Bool-cases (present b (hash_index h shift))) [
              | inl set ↦
                  rw set (insert_other_slot (hash_index h shift) ne small (index-lt h shift) set)
              | inr clear ↦ rw clear refl
            ])

  module _ (b i : ℕ) (s : HamtSlot K V) (ss : HamtSlots K V) (key : K) (h shift : ℕ)
      (some_bit : 0 < b) (set : present b i ≡ true) where
    pub replace_same :
        hash_index h shift ≡ i
        → slots_length ss ≡ popcount 32 b
        → get_node isequal (replacing b i s ss) key h shift ≡ get_slot isequal s key h (shift + 5)
    unfolding branch_get
    replace_same e full =
        let small : i < 32 = rw (← e) (index-lt h shift) in
        rw (get_node-branch b (replace_at (position b i) s ss) key h shift some_bit, e, set)
          (get_at-replace_self isequal (position b i) s ss key h (shift + 5)
            (omega (arith, full, position-lt b i small set)))

    pub replace_other :
        hash_index h shift ≢ i
        → i < 32
        → get_node isequal (replacing b i s ss) key h shift
          ≡ get_node isequal (node b ss) key h shift
    unfolding branch_get
    replace_other ne small =
        rw
          (
            get_node-branch b (replace_at (position b i) s ss) key h shift some_bit,
            get_node-branch b ss key h shift some_bit,
          )
          (elim (Bool-cases (present b (hash_index h shift))) [
            | inl here ↦
                let apart =
                  position_apart b i (hash_index h shift) (λ e. ne (sym e)) small (index-lt h shift)
                    set here in
                rw here (
                  get_at-replace_other isequal (position b i) (position b (hash_index h shift)) s ss
                    key h (shift + 5) apart)
            | inr clear ↦ rw clear refl
          ])
