-- ===== src/Lfkv/Set.antt =====
-- `lfkv_set` against the map of the table.
use alcove.Base.{
  ℕ, ◌+◌, ◌^◌, ◌%◌, ◌<◌, ◌≤◌, ◌≡◌, refl, sym, ap, ◌∙◌, List, Option, none, some, Bool, true, false,
  arith, length, get_elem?, Returns, ℤ, pos, negsuc,
}
use alcove.Hash.{bernstein_hash}
use alcove.Lfkv.Defs.{Entry, Slot, Lfkv, Probe, probe, slot_replace_entry}
use alcove.Lfkv.Ops.{Alloc, publish, Scan, claim, reusable, lfkv_set}
use alcove.Lfkv.Slots.{found, found-le-occurrences, occurrences, live_count, view-eq-none}
use alcove.Lfkv.Probe.{Walked, Tomb, Outcome, hit, miss, crowded, probe-Outcome, miss_unseen}
use alcove.Lfkv.Write.{Map, update, Models}
use alcove.Lfkv.Current.{Hit, located-Hit}
use alcove.Lfkv.Claim.{Walked-NoFree, Claimed, claimed_same, claimed_full, claim-Claimed}
use alcove.Lfkv.Insert.{
  Walked-Reaches, publish-Models, replace-Models, all_live, crowded_cell, plain_entry,
}

-- What `lfkv_set` promises: the key holds the new entry; or the table is as before, since the key
-- is absent and every slot is live, or an allocation failed.
pub data Inserted (kv : Lfkv) (m : Map) (k : List ℕ) (e : Entry) (alloc : Alloc) (r : ℤ × Lfkv)
    : Type 0 where
  inserted : r.0 ≡ pos 0 → Models r.1 (update m k (some e)) → Inserted kv m k e alloc r
  no_space :
      r ≡ (negsuc 0, kv)
      → m k ≡ none
      → live_count kv.slots ≡ length kv.slots
      → Inserted kv m k e alloc r
  no_entry : r ≡ (negsuc 0, kv) → alloc.entry_ok ≡ false → Inserted kv m k e alloc r
  no_slot : r ≡ (negsuc 0, kv) → alloc.slot_ok ≡ false → m k ≡ none → Inserted kv m k e alloc r

module _ (kv : Lfkv) (m : Map) (md : Models kv m) (k : List ℕ) (short : length k < 2 ^ 32)
    (val : ℕ) where
  abbrev cells : List (Option Slot)
  cells = kv.slots

  abbrev Set : Alloc → Type 0
  Set alloc = Returns (lfkv_set kv k val alloc) (Inserted kv m k (plain_entry val) alloc)

  module _ (p : Probe) (run : probe kv k ≡ some p) where
    set-Hit :
        (b : Bool) (s : Slot) (e : Entry)
        → p.slot ≡ some s
        → Hit cells k p.idx s e
        → Set (record { entry_ok = true; slot_ok = b })
    unfolding lfkv_set
    set-Hit b s e is h = (
      (pos 0, slot_replace_entry kv p.idx s (plain_entry val)),
      simp (run, is),
      inserted refl (replace-Models kv m md k p.idx s e (plain_entry val) h),
    )

    module _ (is : p.slot ≡ none) (unseen : occurrences cells k ≡ 0) where
      absent : m k ≡ none
      absent = sym (md.reads k) ∙ view-eq-none k cells unseen

      set_no_slot : Set (record { entry_ok = true; slot_ok = false })
      unfolding lfkv_set
      set_no_slot = ((negsuc 0, kv), simp (run, is), no_slot refl refl absent)

      module _ (n : ℕ) (le : n ≤ length cells) (w : Walked cells (bernstein_hash k) k n) where
        set_tombstone :
            (t : ℕ)
            → p.tombstone_idx ≡ some t
            → Tomb cells (bernstein_hash k) n (some t)
            → Set (record { entry_ok = true; slot_ok = true })
        unfolding lfkv_set reusable
        set_tombstone t at_t (d, s, lt, arrives, cell, dead) = (
          (pos 0, publish kv t k (plain_entry val)),
          simp (run, is, at_t, cell, dead),
          inserted refl (
              publish-Models kv m md k t (some s) (plain_entry val) cell (ap found dead) unseen
                (rw arrives at (Walked-Reaches cells k n d w (omega arith) (omega arith))) short),
        )

        set_free :
            n < length cells
            → (bernstein_hash k + n) % length cells ≡ p.idx
            → get_elem? cells p.idx ≡ some none
            → p.tombstone_idx ≡ none
            → Set (record { entry_ok = true; slot_ok = true })
        unfolding lfkv_set reusable claim
        set_free lt arrives cell no_tomb = (
          (pos 0, publish kv p.idx k (plain_entry val)),
          simp (run, is, no_tomb, cell),
          inserted refl (
              publish-Models kv m md k p.idx none (plain_entry val) cell refl unseen
                (rw arrives at (Walked-Reaches cells k n n w (omega arith) lt)) short),
        )

      set_full :
          p.idx ≡ bernstein_hash k % length cells
          → Walked cells (bernstein_hash k) k (length cells)
          → p.tombstone_idx ≡ none
          → Tomb cells (bernstein_hash k) (length cells) none
          → Set (record { entry_ok = true; slot_ok = true })
      unfolding lfkv_set reusable
      set_full idx w no_tomb t =
          let (r, run', out) =
            claim-Claimed kv md.valid k (Walked-NoFree cells (bernstein_hash k) k w) in
          by_claim r run' out
        where
          at_idx :
              {r : Option Scan}
              → claim 2 kv k (bernstein_hash k % length cells) ≡ r
              → claim 2 kv k p.idx ≡ r
          at_idx run' = ap (claim 2 kv k) idx ∙ run'

          by_claim :
              (r : Scan)
              → claim 2 kv k (bernstein_hash k % length cells) ≡ some r
              → Claimed cells k 0 (length cells) r
              → Set (record { entry_ok = true; slot_ok = true })
          by_claim r run' (claimed_full e rest) = (
            (negsuc 0, kv),
            simp (run, is, no_tomb, at_idx run', e),
            no_space refl absent (all_live cells (crowded_cell cells (bernstein_hash k) k w t)),
          )
          by_claim r run' (claimed_same d meet e) =
              let alive =
                crowded_cell cells (bernstein_hash k) k w t _ (some meet.slot) meet.cell in
              let here = found-le-occurrences k cells _ (some meet.slot) meet.cell in
              absurd (ground (arith, meet.keyed))

  set_walk :
      (p : Probe) (n : ℕ) (tomb : Option ℕ)
      → probe kv k ≡ some p
      → p.slot ≡ none
      → occurrences cells k ≡ 0
      → n ≤ length cells
      → Walked cells (bernstein_hash k) k n
      → p.tombstone_idx ≡ tomb
      → Tomb cells (bernstein_hash k) n tomb
      → (p.tombstone_idx ≡ none
          → Tomb cells (bernstein_hash k) n none
          → Set (record { entry_ok = true; slot_ok = true }))
      → Set (record { entry_ok = true; slot_ok = true })
  set_walk p n none run is unseen le w at_t t otherwise = otherwise at_t t
  set_walk p n (some i) run is unseen le w at_t t otherwise =
      set_tombstone p run is unseen n le w i at_t t

  set_alloc :
      (a b : Bool) (p : Probe)
      → probe kv k ≡ some p
      → Outcome cells k p
      → Set (record { entry_ok = a; slot_ok = b })
  unfolding lfkv_set
  set_alloc false b p run out = ((negsuc 0, kv), refl, no_entry refl refl)
  set_alloc true b p run (hit s e is cell held same) =
      set-Hit p run b s e is (located-Hit kv k p.idx s e md.valid cell held same)
  set_alloc true false p run (miss n is lt arrives vacant w t) =
      set_no_slot p run is (miss_unseen kv md.valid k p (miss n is lt arrives vacant w t) is)
  set_alloc true true p run (miss n is lt arrives vacant w t) =
      let unseen = miss_unseen kv md.valid k p (miss n is lt arrives vacant w t) is in
      set_walk p n p.tombstone_idx run is unseen (omega arith) w refl t
        (λ no_tomb _. set_free p run is unseen n (omega arith) w lt arrives vacant no_tomb)
  set_alloc true false p run (crowded is idx w t) =
      set_no_slot p run is (miss_unseen kv md.valid k p (crowded is idx w t) is)
  set_alloc true true p run (crowded is idx w t) =
      let unseen = miss_unseen kv md.valid k p (crowded is idx w t) is in
      set_walk p (length cells) p.tombstone_idx run is unseen (omega arith) w refl t
        (λ no_tomb t'. set_full p run is unseen idx w no_tomb t')

  -- lfkv_set, on a well-formed table that reads as a map and for a key shorter than 2^32 bytes,
  -- returns: it gives 0 with the map updated at the key and nowhere else, or -1 with the table
  -- unchanged, and then an allocation failed or the key is absent and every slot is live.
  pub set-refines :
      (alloc : Alloc) → Returns (lfkv_set kv k val alloc) (Inserted kv m k (plain_entry val) alloc)
  set-refines alloc =
      let (p, run, out) = probe-Outcome kv md.valid k in
      set_alloc alloc.entry_ok alloc.slot_ok p run out
