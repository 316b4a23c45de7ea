-- ===== src/Hamt/Positions.antt =====
-- Reading a slot past an insertion, a replacement or a removal at a position.
use alcove.Base.{ℕ, zero, suc, ◌<◌, ◌≤◌, ◌≡◌, ◌≢◌, refl, ap, Bool, arith}
use alcove.Hamt.{
  HamtSlot, HamtSlots, no_slots, slot, slots_length, insert_at, replace_at, remove_at, get_at,
  get_slot,
}
use alcove.Hamt.Valid.{AreSlots, IsSlot}

module _ {ℓ} {K V : Type ℓ} where
  pub length-insert_at :
      (p : ℕ) (s : HamtSlot K V) (ss : HamtSlots K V)
      → slots_length (insert_at p s ss) ≡ suc (slots_length ss)
  unfolding insert_at slots_length
  length-insert_at zero s ss = refl
  length-insert_at (suc p) s no_slots = refl
  length-insert_at (suc p) s (slot t ss) = ap suc (length-insert_at p s ss)

  pub length-replace_at :
      (p : ℕ) (s : HamtSlot K V) (ss : HamtSlots K V)
      → slots_length (replace_at p s ss) ≡ slots_length ss
  unfolding replace_at slots_length
  length-replace_at zero s no_slots = refl
  length-replace_at (suc p) s no_slots = refl
  length-replace_at zero s (slot t ss) = refl
  length-replace_at (suc p) s (slot t ss) = ap suc (length-replace_at p s ss)

  -- The slot that a removal takes out goes back in.
  pub insert-remove :
      (p : ℕ) (ss : HamtSlots K V)
      → p < slots_length ss
      → (s : HamtSlot K V) × (insert_at p s (remove_at p ss) ≡ ss)
  unfolding insert_at remove_at slots_length
  insert-remove p no_slots lt = absurd (omega arith)
  insert-remove zero (slot t ss) lt = (t, refl)
  insert-remove (suc p) (slot t ss) lt =
      let (s, e) = insert-remove p ss (omega arith) in (s, ap (slot t) e)

  module _ (isequal : K → K → Bool) where
    pub get_at-insert_self :
        (p : ℕ) (s : HamtSlot K V) (ss : HamtSlots K V) (k : K) (h shift : ℕ)
        → p ≤ slots_length ss
        → get_at isequal (insert_at p s ss) p k h shift ≡ get_slot isequal s k h shift
    unfolding insert_at slots_length get_at
    get_at-insert_self zero s ss k h shift le = refl
    get_at-insert_self (suc p) s no_slots k h shift le = absurd (omega arith)
    get_at-insert_self (suc p) s (slot t ss) k h shift le =
        get_at-insert_self p s ss k h shift (omega arith)

    pub get_at-insert_below :
        (p q : ℕ) (s : HamtSlot K V) (ss : HamtSlots K V) (k : K) (h shift : ℕ)
        → q < p
        → p ≤ slots_length ss
        → get_at isequal (insert_at p s ss) q k h shift ≡ get_at isequal ss q k h shift
    unfolding insert_at slots_length get_at
    get_at-insert_below zero q s ss k h shift lt le = absurd (omega arith)
    get_at-insert_below (suc p) q s no_slots k h shift lt le = absurd (omega arith)
    get_at-insert_below (suc p) zero s (slot t ss) k h shift lt le = refl
    get_at-insert_below (suc p) (suc q) s (slot t ss) k h shift lt le =
        get_at-insert_below p q s ss k h shift (omega arith) (omega arith)

    pub get_at-insert_above :
        (p q : ℕ) (s : HamtSlot K V) (ss : HamtSlots K V) (k : K) (h shift : ℕ)
        → p ≤ q
        → get_at isequal (insert_at p s ss) (suc q) k h shift ≡ get_at isequal ss q k h shift
    unfolding insert_at get_at
    get_at-insert_above zero q s ss k h shift le = refl
    get_at-insert_above (suc p) q s no_slots k h shift le = refl
    get_at-insert_above (suc p) zero s (slot t ss) k h shift le = absurd (omega arith)
    get_at-insert_above (suc p) (suc q) s (slot t ss) k h shift le =
        get_at-insert_above p q s ss k h shift (omega arith)

    pub get_at-replace_self :
        (p : ℕ) (s : HamtSlot K V) (ss : HamtSlots K V) (k : K) (h shift : ℕ)
        → p < slots_length ss
        → get_at isequal (replace_at p s ss) p k h shift ≡ get_slot isequal s k h shift
    unfolding replace_at slots_length get_at
    get_at-replace_self p s no_slots k h shift lt = absurd (omega arith)
    get_at-replace_self zero s (slot t ss) k h shift lt = refl
    get_at-replace_self (suc p) s (slot t ss) k h shift lt =
        get_at-replace_self p s ss k h shift (omega arith)

    pub get_at-replace_other :
        (p q : ℕ) (s : HamtSlot K V) (ss : HamtSlots K V) (k : K) (h shift : ℕ)
        → p ≢ q
        → get_at isequal (replace_at p s ss) q k h shift ≡ get_at isequal ss q k h shift
    unfolding replace_at get_at
    get_at-replace_other p q s no_slots k h shift ne = refl
    get_at-replace_other zero zero s (slot t ss) k h shift ne = absurd (ne refl)
    get_at-replace_other zero (suc q) s (slot t ss) k h shift ne = refl
    get_at-replace_other (suc p) zero s (slot t ss) k h shift ne = refl
    get_at-replace_other (suc p) (suc q) s (slot t ss) k h shift ne =
        get_at-replace_other p q s ss k h shift (λ e. ne (ap suc e))

    pub AreSlots-insert_at :
        (d p : ℕ) (s : HamtSlot K V) (ss : HamtSlots K V)
        → IsSlot isequal d s
        → AreSlots isequal d ss
        → AreSlots isequal d (insert_at p s ss)
    unfolding insert_at AreSlots
    AreSlots-insert_at d zero s ss ok oks = (ok, oks)
    AreSlots-insert_at d (suc p) s no_slots ok oks = (ok, oks)
    AreSlots-insert_at d (suc p) s (slot t ss) ok (is, oks) =
        (is, AreSlots-insert_at d p s ss ok oks)

    pub AreSlots-replace_at :
        (d p : ℕ) (s : HamtSlot K V) (ss : HamtSlots K V)
        → IsSlot isequal d s
        → AreSlots isequal d ss
        → AreSlots isequal d (replace_at p s ss)
    unfolding replace_at AreSlots
    AreSlots-replace_at d zero s no_slots ok oks = oks
    AreSlots-replace_at d (suc p) s no_slots ok oks = oks
    AreSlots-replace_at d zero s (slot t ss) ok (is, oks) = (ok, oks)
    AreSlots-replace_at d (suc p) s (slot t ss) ok (is, oks) =
        (is, AreSlots-replace_at d p s ss ok oks)

    pub AreSlots-remove_at :
        (d p : ℕ) (ss : HamtSlots K V) → AreSlots isequal d ss → AreSlots isequal d (remove_at p ss)
    unfolding remove_at AreSlots
    AreSlots-remove_at d zero no_slots oks = oks
    AreSlots-remove_at d (suc p) no_slots oks = oks
    AreSlots-remove_at d zero (slot t ss) (is, oks) = oks
    AreSlots-remove_at d (suc p) (slot t ss) (is, oks) = (is, AreSlots-remove_at d p ss oks)
