-- ===== src/Lfkv/SetNx.antt =====
-- `lfkv_set_nx` against the map of the table, with a free cell.
use alcove.Base.{
  ℕ, suc, ◌^◌, ◌<◌, ◌≡◌, refl, sym, ap, ◌∙◌, List, Option, none, some, true, false, arith, length,
  get_elem?, set, bytes_eq_refl, Bool-cases, inl, inr, Returns, ℤ, ℕ_discrete, get_elem?-set_ne,
}
use alcove.Hash.{bernstein_hash}
use alcove.Lfkv.Defs.{Entry, Slot, Lfkv, Probe, probe, slot_retire_entry, entry_expired}
use alcove.Lfkv.Ops.{Alloc, publish, same_key, claim, lfkv_set_nx, never}
use alcove.Lfkv.Slots.{view-eq-none}
use alcove.Lfkv.Probe.{Outcome, hit, miss, crowded, probe-Outcome, miss_unseen}
use alcove.Lfkv.Write.{Map, update, Models}
use alcove.Lfkv.Current.{located-Hit, retire-Models, seen_entry}
use alcove.Lfkv.Claim.{Walked-NoFree}
use alcove.Lfkv.Refine.{Does}
use alcove.Lfkv.Insert.{Walked-Reaches, publish-Models, plain_entry}

abbrev pub both : Alloc
both = record { entry_ok = true; slot_ok = true }

-- The key stays absent once its expired entry is gone.
pub seen_retired :
    (m : Map) (k : List ℕ) (now : ℤ) → seen_entry never (update m k none) k now ≡ none
seen_retired m k now = rw (bytes_eq_refl k, seen_entry)

module _ (kv : Lfkv) (k : List ℕ) (val : ℕ) (now : ℤ) (p : Probe) (run : probe kv k ≡ some p)
    (fuel : ℕ) where
  pub nx_expired :
      (s : Slot) (e : Entry)
      → p.slot ≡ some s
      → s.entry ≡ some e
      → entry_expired e now ≡ true
      → lfkv_set_nx (suc fuel) kv k val now both
        ≡ lfkv_set_nx fuel (slot_retire_entry kv p.idx s e) k val now both
  unfolding lfkv_set_nx
  nx_expired s e is held x = simp (run, is, held, x)

  nx_live :
      (s : Slot) (e : Entry)
      → p.slot ≡ some s
      → s.entry ≡ some e
      → entry_expired e now ≡ false
      → lfkv_set_nx (suc fuel) kv k val now both ≡ some (0, kv)
  unfolding lfkv_set_nx
  nx_live s e is held x = simp (run, is, held, x)

  nx_free :
      p.slot ≡ none
      → get_elem? kv.slots p.idx ≡ some none
      → lfkv_set_nx (suc fuel) kv k val now both ≡ some (1, publish kv p.idx k (plain_entry val))
  unfolding lfkv_set_nx claim
  nx_free is cell = simp (run, is, cell)

  pub nx_same :
      (i : ℕ) (s : Slot)
      → p.slot ≡ none
      → claim 2 kv k p.idx ≡ some (same_key i s)
      → lfkv_set_nx (suc fuel) kv k val now both ≡ lfkv_set_nx fuel kv k val now both
  unfolding lfkv_set_nx
  nx_same i s is claims = simp (run, is, claims)

-- What the insertion does where the table has a free cell.
abbrev pub inserted_nx : Map → List ℕ → ℕ → ℤ → ℕ × Map
inserted_nx m k val now = elim (seen_entry never m k now) [
  | none ↦ (1, update m k (some (plain_entry val)))
  | some e ↦ (0, m)
]

abbrev pub HasFree : List (Option Slot) → Type 0
HasFree cs = (i : ℕ) × (get_elem? cs i ≡ some none)

module _ (k : List ℕ) (short : length k < 2 ^ 32) (val : ℕ) (now : ℤ) where
  nx_absent :
      (kv : Lfkv) (m : Map) (fuel : ℕ)
      → Models kv m
      → m k ≡ none
      → HasFree kv.slots
      → Returns
          (lfkv_set_nx (suc fuel) kv k val now both)
          λ r. Does r (1, update m k (some (plain_entry val)))
  nx_absent kv m fuel md unknown (j, vacant) =
      let (p, run, out) = probe-Outcome kv md.valid k in by_outcome p run out
    where
      by_outcome :
          (p : Probe)
          → probe kv k ≡ some p
          → Outcome kv.slots k p
          → Returns
              (lfkv_set_nx (suc fuel) kv k val now both)
              λ r. Does r (1, update m k (some (plain_entry val)))
      by_outcome p run (hit s e is cell held same) =
          cc (md.reads k, (located-Hit kv k p.idx s e md.valid cell held same).viewed)
      by_outcome p run (miss n is lt arrives cell w t) = (
        _,
        nx_free kv k val now p run fuel is cell,
        (
          refl,
          publish-Models kv m md k p.idx none (plain_entry val) cell refl
              (miss_unseen kv md.valid k p (miss n is lt arrives cell w t) is)
              (rw arrives at (Walked-Reaches kv.slots k n n w (omega arith) lt)) short,
        ),
      )
      by_outcome p run (crowded is idx w t) =
          absurd (Walked-NoFree kv.slots (bernstein_hash k) k w j vacant)

  kept_free :
      (cs : List (Option Slot)) (i : ℕ) (s t : Slot)
      → get_elem? cs i ≡ some (some s)
      → HasFree cs
      → HasFree (set cs i (some t))
  kept_free cs i s t cell (j, vacant) = elim (ℕ_discrete i j) [
    | yes e ↦ cc (ap (get_elem? cs) e)
    | no ne ↦ (j, get_elem?-set_ne cs (some t) ne ∙ vacant)
  ]

  retired_free :
      (kv : Lfkv) (i : ℕ) (s : Slot) (e : Entry)
      → get_elem? kv.slots i ≡ some (some s)
      → HasFree kv.slots
      → HasFree (slot_retire_entry kv i s e).slots
  unfolding slot_retire_entry
  retired_free kv i s e cell vacant = kept_free kv.slots i s _ cell vacant

  twice :
      (m : Map) (kv : Lfkv)
      → Models kv (update (update m k none) k (some (plain_entry val)))
      → Models kv (update m k (some (plain_entry val)))
  twice m kv md = record { valid = md.valid; reads = λ q. ground (arith, md.reads q) }

  gone_entry :
      (m : Map) (e : Entry)
      → m k ≡ some e
      → entry_expired e now ≡ true
      → seen_entry never m k now ≡ none
  gone_entry m e known x = rw (known, seen_entry, x)

  nx_new :
      (m : Map) (r : ℕ × Lfkv)
      → seen_entry never m k now ≡ none
      → Does r (1, update m k (some (plain_entry val)))
      → Does r (inserted_nx m k val now)
  nx_new m r unseen does = rw (unseen, inserted_nx) does

  -- What each outcome of the first probe leads to, where the table has a free cell.
  nx_probed :
      (kv : Lfkv) (m : Map)
      → Models kv m
      → HasFree kv.slots
      → (p : Probe) → probe kv k ≡ some p
      → Outcome kv.slots k p
      → Returns (lfkv_set_nx 2 kv k val now both) λ r. Does r (inserted_nx m k val now)
  nx_probed kv m md vacant p run (hit s e is cell held same) =
      let h = located-Hit kv k p.idx s e md.valid cell held same in
      let known : m k ≡ some e = sym (md.reads k) ∙ h.viewed in
      elim (Bool-cases (entry_expired e now)) [
        | inr live ↦ (
          (0, kv),
          nx_live kv k val now p run 1 s e is held live,
          (rw (known, inserted_nx, seen_entry, live), rw (known, inserted_nx, seen_entry, live) md),
        )
        | inl x ↦
            let (r, run', (result, md')) =
              nx_absent (slot_retire_entry kv p.idx s e) (update m k none) 0
                (retire-Models kv m md k p.idx s e h) (rw (bytes_eq_refl k))
                (retired_free kv p.idx s e cell vacant) in
            (
              r,
              nx_expired kv k val now p run 1 s e is held x ∙ run',
              nx_new m r (gone_entry m e known x) (result, twice m r.1 md'),
            )
      ]
  nx_probed kv m md vacant p run (miss n is lt arrives cell w t) =
      let unknown : m k ≡ none =
        sym (md.reads k)
        ∙ view-eq-none k kv.slots
            (miss_unseen kv md.valid k p (miss n is lt arrives cell w t) is) in
      let (r, run', does) = nx_absent kv m 1 md unknown vacant in
      (r, run', nx_new m r (rw (unknown, seen_entry)) does)
  nx_probed kv m md (j, vacant) p run (crowded is idx w t) =
      absurd (Walked-NoFree kv.slots (bernstein_hash k) k w j vacant)

  -- lfkv_set_nx, on a well-formed table that reads as a map and has a NULL slot, for a key
  -- shorter than 2^32 bytes and with allocations that succeed, returns within two rounds: it
  -- stores the value exactly where the key is absent or its entry is expired, and changes no
  -- other key.
  pub set_nx-refines :
      (kv : Lfkv) (m : Map)
      → Models kv m
      → HasFree kv.slots
      → Returns (lfkv_set_nx 2 kv k val now both) λ r. Does r (inserted_nx m k val now)
  set_nx-refines kv m md vacant =
      let (p, run, out) = probe-Outcome kv md.valid k in nx_probed kv m md vacant p run out
