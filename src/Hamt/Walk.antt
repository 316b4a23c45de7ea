-- ===== src/Hamt/Walk.antt =====
-- `hamt_node_foreach`: the walk over the entries, and the calls that stop it.
use alcove.Base.{
  ℕ, ◌≡◌, refl, sym, ◌∙◌, List, [], ◌∷◌, ◌++◌, Bool, true, false, if◌then◌else◌, arith, length,
  length-append, Option, some, none, Bool-cases, inl, inr,
}
use alcove.Hamt.{HamtNode, node, HamtSlot, entry, child, HamtSlots, no_slots, slot, Hamt}
use alcove.Hamt.Valid.{IsKeyed}
use alcove.Hamt.Refine.{Models, size_root}
use alcove.Hamt.Size.{size_node, size_slots, size_slot}

last_step {ℓ} : {S : Type ℓ} (r : S × Bool) → r ≡ (if r.1 then (r.0, true) else (r.0, false))
last_step (s, true) = refl
last_step (s, false) = refl

module _ {ℓ} {K V : Type ℓ} {S : Type ℓ} (visit : K → V → S → S × Bool) where
  -- The visitor gives the new state of its context, and whether the walk goes on.
  unfoldable mutual
    pub foreach_node : HamtNode K V → S → S × Bool
    foreach_node (node bitmap ss) ctx = foreach_slots ss ctx

    pub foreach_slots : HamtSlots K V → S → S × Bool
    foreach_slots no_slots ctx = (ctx, true)
    foreach_slots (slot s ss) ctx =
        let (next, more) = foreach_slot s ctx in
        if more then foreach_slots ss next else (next, false)

    pub foreach_slot : HamtSlot K V → S → S × Bool
    foreach_slot (entry k v) ctx = visit k v ctx
    foreach_slot (child n) ctx = foreach_node n ctx

  -- The call on a root, which may be NULL.
  unfoldable pub foreach_root : Option (HamtNode K V) → S → S × Bool
  foreach_root none ctx = (ctx, true)
  foreach_root (some n) ctx = foreach_node n ctx

  -- A loop over a list of entries that the visitor stops.
  unfoldable pub walk : List (K × V) → S → S × Bool
  walk [] ctx = (ctx, true)
  walk (e ∷ es) ctx =
      let (next, more) = visit e.0 e.1 ctx in if more then walk es next else (next, false)

module _ {ℓ} {K V : Type ℓ} where
  -- The entries, in the order of the slots.
  unfoldable mutual
    pub entries : HamtNode K V → List (K × V)
    entries (node bitmap ss) = entries_slots ss

    pub entries_slots : HamtSlots K V → List (K × V)
    entries_slots no_slots = []
    entries_slots (slot s ss) = entries_slot s ++ entries_slots ss

    pub entries_slot : HamtSlot K V → List (K × V)
    entries_slot (entry k v) = (k, v) ∷ []
    entries_slot (child n) = entries n

  unfoldable pub entries_root : Option (HamtNode K V) → List (K × V)
  entries_root none = []
  entries_root (some n) = entries n

  mutual
    unfolding entries size_node

    length-entries : (n : HamtNode K V) → length (entries n) ≡ size_node n
    length-entries (node bitmap ss) = length-entries_slots ss

    length-entries_slots : (ss : HamtSlots K V) → length (entries_slots ss) ≡ size_slots ss
    length-entries_slots no_slots = refl
    length-entries_slots (slot s ss) = omega (
      arith,
      length-append (entries_slot s) (entries_slots ss),
      length-entries_slot s,
      length-entries_slots ss,
    )

    length-entries_slot : (s : HamtSlot K V) → length (entries_slot s) ≡ size_slot s
    length-entries_slot (entry k v) = refl
    length-entries_slot (child n) = length-entries n

module _ {ℓ} {K V : Type ℓ} {S : Type ℓ} (visit : K → V → S → S × Bool) where
  walk-append :
      (xs ys : List (K × V)) (ctx : S)
      → walk visit (xs ++ ys) ctx ≡ (
          if (walk visit xs ctx).1
          then walk visit ys (walk visit xs ctx).0
          else ((walk visit xs ctx).0, false))
  unfolding walk
  walk-append [] ys ctx = refl
  walk-append (e ∷ es) ys ctx = elim (Bool-cases (visit e.0 e.1 ctx).1) [
    | inl more ↦ rw more (walk-append es ys (visit e.0 e.1 ctx).0)
    | inr stop ↦ rw stop refl
  ]

  mutual
    unfolding foreach_node entries walk

    node-walk : (n : HamtNode K V) (ctx : S) → foreach_node visit n ctx ≡ walk visit (entries n) ctx
    node-walk (node bitmap ss) ctx = slots-walk ss ctx

    slots-walk :
        (ss : HamtSlots K V) (ctx : S)
        → foreach_slots visit ss ctx ≡ walk visit (entries_slots ss) ctx
    slots-walk no_slots ctx = refl
    slots-walk (slot s ss) ctx =
        rw
          (
            walk-append (entries_slot s) (entries_slots ss) ctx,
            ← slot-walk s ctx,
            ← slots-walk ss (foreach_slot visit s ctx).0,
          )
          refl

    slot-walk :
        (s : HamtSlot K V) (ctx : S) → foreach_slot visit s ctx ≡ walk visit (entries_slot s) ctx
    slot-walk (entry k v) ctx = last_step (visit k v ctx)
    slot-walk (child n) ctx = node-walk n ctx

  module _ (isequal : K → K → Bool) (hashkey : K → ℕ) (laws : IsKeyed isequal hashkey) where
    root-walk :
        (root : Option (HamtNode K V)) (ctx : S)
        → foreach_root visit root ctx ≡ walk visit (entries_root root) ctx
    unfolding foreach_root walk entries_root
    root-walk none ctx = refl
    root-walk (some n) ctx = node-walk n ctx

    length-entries_root :
        (root : Option (HamtNode K V))
        → length (entries_root root) ≡ size_root isequal hashkey laws root
    unfolding entries_root size_root
    length-entries_root none = refl
    length-entries_root (some n) = length-entries n

    -- hamt_node_foreach, with any visitor and on a map whose count is the number of its entries,
    -- is a loop over the list of the entries, which ends where the visitor stops it, and the list
    -- is as long as the count of the map.
    pub foreach-walk :
        (h : Hamt K V) (m : K → Option V) (ctx : S)
        → Models isequal hashkey laws h m
        → (foreach_root visit h.root ctx ≡ walk visit (entries_root h.root) ctx)
          × (length (entries_root h.root) ≡ h.count)
    foreach-walk h m ctx ok = (root-walk h.root ctx, length-entries_root h.root ∙ sym ok.counted)
