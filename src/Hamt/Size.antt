-- ===== src/Hamt/Size.antt =====
-- The number of entries below a node.
use alcove.Base.{ℕ, zero, suc, ◌+◌, ◌<◌, ◌≡◌, refl, arith}
use alcove.Hamt.{
  HamtNode, node, HamtSlot, entry, child, HamtSlots, no_slots, slot, slots_length, insert_at,
  replace_at, remove_at,
}

module _ {ℓ} {K V : Type ℓ} where
  unfoldable mutual
    pub size_node : HamtNode K V → ℕ
    size_node (node bitmap ss) = size_slots ss

    pub size_slots : HamtSlots K V → ℕ
    size_slots no_slots = 0
    size_slots (slot s ss) = size_slot s + size_slots ss

    pub size_slot : HamtSlot K V → ℕ
    size_slot (entry k v) = 1
    size_slot (child n) = size_node n

  unfoldable pub size_at : HamtSlots K V → ℕ → ℕ
  size_at no_slots p = 0
  size_at (slot s ss) zero = size_slot s
  size_at (slot s ss) (suc p) = size_at ss p

  pub size-insert_at :
      (p : ℕ) (s : HamtSlot K V) (ss : HamtSlots K V)
      → size_slots (insert_at p s ss) ≡ size_slot s + size_slots ss
  unfolding insert_at size_slots
  size-insert_at zero s ss = refl
  size-insert_at (suc p) s no_slots = refl
  size-insert_at (suc p) s (slot t ss) = omega (arith, size-insert_at p s ss)

  pub size-remove_at :
      (p : ℕ) (ss : HamtSlots K V)
      → p < slots_length ss
      → size_slots ss ≡ size_at ss p + size_slots (remove_at p ss)
  unfolding remove_at size_slots size_at slots_length
  size-remove_at p no_slots lt = absurd (omega arith)
  size-remove_at zero (slot t ss) lt = refl
  size-remove_at (suc p) (slot t ss) lt = omega (arith, size-remove_at p ss (omega arith))

  pub size-replace_at :
      (p : ℕ) (s : HamtSlot K V) (ss : HamtSlots K V)
      → p < slots_length ss
      → size_slots (replace_at p s ss) + size_at ss p ≡ size_slots ss + size_slot s
  unfolding replace_at size_slots size_at slots_length
  size-replace_at p s no_slots lt = absurd (omega arith)
  size-replace_at zero s (slot t ss) lt = omega arith
  size-replace_at (suc p) s (slot t ss) lt = omega (arith, size-replace_at p s ss (omega arith))
