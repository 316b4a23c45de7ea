-- ===== src/Lfkv/Evict.antt =====
-- `lfkv_evict_expired` and `lfkv_clear` against the map of the table, and an empty table.
use alcove.Base.{
  ℕ, zero, suc, ◌+◌, ◌≡◌, refl, sym, ap, ◌∙◌, List, [], ◌∷◌, Option, none, some, Bool, true, false,
  arith, length, get_elem?, get_elem?-lt, Option-cases, Bool-cases, inl, inr, ◌>>=◌, Returns,
  dec_lt, ℤ, ◌⊎◌, bytes_eq_refl,
}
use alcove.Lfkv.Defs.{Entry, Slot, Lfkv, slot_retire_entry, entry_expired}
use alcove.Lfkv.Ops.{evict_from, lfkv_evict_expired, clear_from, lfkv_clear}
use alcove.Lfkv.Slots.{found, live, occurrences, live_count, view-eq-none, occurrences-cell}
use alcove.Lfkv.Write.{Map, Models}
use alcove.Lfkv.Current.{located-Hit}
use alcove.Lfkv.Sweep.{sweep, kept_by, Swept, sweep-Swept}

-- A sweep of all the cells leaves no entry that it drops.
Swept-Models :
    (drops : Entry → Bool) (m : Map) (kv : Lfkv) (r : ℕ × Lfkv)
    → Swept drops m 0 (length kv.slots) kv r
    → Models r.1 (λ q. kept_by drops (m q))
Swept-Models drops m kv r sw = record {
  valid = sw.models.valid;
  reads = λ q. sw.models.reads q ∙ by_drop q (sw.drop q);
}
  where
    still_there : (q : List ℕ) (e : Entry) → sw.after q ≡ some e → drops e ≡ false
    still_there q e known = elim (dec_lt 0 (occurrences r.1.slots q)) [
      | no p ↦ cc (sw.models.reads q, view-eq-none q r.1.slots (omega arith))
      | yes p ↦
          let (i, s, f, cell, same, held) = occurrences-cell q r.1.slots p in
          let h = located-Hit r.1 q i s f sw.models.valid cell held same in
          let is : e ≡ f = cc (h.viewed, sw.models.reads q) in
          rw is (
            sw.clean i (some s) (omega arith)
              (omega (arith, sw.size, get_elem?-lt r.1.slots i (some s) cell)) cell s f refl held)
    ]

    by_drop :
        (q : List ℕ)
        → (sw.after q ≡ m q) ⊎ (sw.after q ≡ kept_by drops (m q))
        → sw.after q ≡ kept_by drops (m q)
    by_drop q (inr z) = z
    by_drop q (inl z) = elim (Option-cases (sw.after q)) [
      | inl gone ↦ ground arith
      | inr (e, known) ↦ ground (arith, still_there q e known)
    ]

-- One round of a loop over the cells, by what the cell holds.
by_cell {ℓ} :
    {P : Type ℓ} (kv : Lfkv) (i : ℕ)
    → (get_elem? kv.slots i ≡ none → P)
    → (get_elem? kv.slots i ≡ some none → P)
    → ((s : Slot) → get_elem? kv.slots i ≡ some (some s) → s.entry ≡ none → P)
    → ((s : Slot) (e : Entry) → get_elem? kv.slots i ≡ some (some s) → s.entry ≡ some e → P)
    → P
by_cell {P} kv i outside vacant dead held = from (get_elem? kv.slots i) refl
  where
    from_slot :
        (s : Slot) (o : Option Entry) → get_elem? kv.slots i ≡ some (some s) → s.entry ≡ o → P
    from_slot s none cell is = dead s cell is
    from_slot s (some e) cell is = held s e cell is

    from : (c : Option (Option Slot)) → get_elem? kv.slots i ≡ c → P
    from none cell = outside cell
    from (some none) cell = vacant cell
    from (some (some s)) cell = from_slot s s.entry cell refl

evict_from-sweep :
    (left i : ℕ) (kv : Lfkv) (now : ℤ)
    → evict_from left i kv now ≡ sweep (λ e. entry_expired e now) left i kv
unfolding evict_from sweep
evict_from-sweep zero i kv now = refl
evict_from-sweep (suc left) i kv now =
    by_cell kv i (λ cell. simp cell) (λ cell. simp cell (evict_from-sweep left (i + 1) kv now))
      (λ s cell held. simp (cell, held) (evict_from-sweep left (i + 1) kv now))
      (λ s e cell held. elim (Bool-cases (entry_expired e now)) [
        | inl x ↦
            simp (cell, held, x, evict_from-sweep left (i + 1) (slot_retire_entry kv i s e) now)
        | inr x ↦ simp (cell, held, x) (evict_from-sweep left (i + 1) kv now)
      ])

forget_number :
    (o : Option (ℕ × Lfkv))
    → ((o >>= λ (r : ℕ × Lfkv). some (r.0 + 1, r.1)) >>= λ (r : ℕ × Lfkv). some r.1)
      ≡ (o >>= λ (r : ℕ × Lfkv). some r.1)
forget_number none = refl
forget_number (some r) = refl

clear_from-sweep :
    (left i : ℕ) (kv : Lfkv)
    → clear_from left i kv ≡ (sweep (λ e. true) left i kv >>= λ (r : ℕ × Lfkv). some r.1)
unfolding clear_from sweep
clear_from-sweep zero i kv = refl
clear_from-sweep (suc left) i kv =
    by_cell kv i (λ cell. simp cell) (λ cell. simp cell (clear_from-sweep left (i + 1) kv))
      (λ s cell held. simp (cell, held) (clear_from-sweep left (i + 1) kv))
      (λ s e cell held.
        simp (cell, held)
          (clear_from-sweep left (i + 1) (slot_retire_entry kv i s e)
            ∙ sym (forget_number (sweep (λ e'. true) left (i + 1) (slot_retire_entry kv i s e)))))

none_live :
    (cs : List (Option Slot))
    → ((i : ℕ) (c : Option Slot) → get_elem? cs i ≡ some c → live c ≡ 0)
    → live_count cs ≡ 0
unfolding live_count
none_live [] h = refl
none_live (c ∷ cs) h = omega (arith, h 0 c refl, none_live cs (λ i. h (suc i)))

module _ (kv : Lfkv) (m : Map) (md : Models kv m) where
  -- lfkv_evict_expired, on a well-formed table that reads as a map, removes the keys whose
  -- entries are expired, keeps the others as they are, and returns by how much the count of live
  -- keys went down.
  pub evict_expired-refines :
      (now : ℤ)
      → Returns (lfkv_evict_expired kv now) λ r.
        Models r.1 (λ q. kept_by (λ e. entry_expired e now) (m q)) × (r.0 + r.1.count ≡ kv.count)
  unfolding lfkv_evict_expired
  evict_expired-refines now =
      let (r, run, sw) =
        sweep-Swept (λ e. entry_expired e now) m (length kv.slots) 0 kv md (omega arith) in
      (
        r,
        evict_from-sweep (length kv.slots) 0 kv now ∙ run,
        (Swept-Models (λ e. entry_expired e now) m kv r sw, sw.number),
      )

  -- lfkv_clear, on a well-formed table, leaves a well-formed table in which no key is live and
  -- whose count is 0.
  pub clear-refines : Returns (lfkv_clear kv) λ kv'. Models kv' (λ q. none) × (kv'.count ≡ 0)
  unfolding lfkv_clear
  clear-refines =
      let (r, run, sw) = sweep-Swept (λ e. true) m (length kv.slots) 0 kv md (omega arith) in
      let md' = Swept-Models (λ e. true) m kv r sw in
      (
        r.1,
        clear_from-sweep (length kv.slots) 0 kv ∙ rw (run),
        (
          record { valid = md'.valid; reads = λ q. md'.reads q ∙ all_gone (m q) },
          md'.valid.counted ∙ none_live r.1.slots (no_entry r md'),
        ),
      )
    where
      all_gone : (o : Option Entry) → kept_by (λ e. true) o ≡ none
      all_gone none = refl
      all_gone (some e) = refl

      no_entry :
          (r : ℕ × Lfkv)
          → Models r.1 (λ q. kept_by (λ e. true) (m q))
          → (i : ℕ) (c : Option Slot) → get_elem? r.1.slots i ≡ some c
          → live c ≡ 0
      no_entry r md' i none cell = refl
      no_entry r md' i (some s) cell = elim (Option-cases (s.entry)) [
        | inl dead ↦ ap found dead
        | inr (e, held) ↦ cc (
          (located-Hit r.1 s.key i s e md'.valid cell held (bytes_eq_refl s.key)).viewed,
          md'.reads s.key,
          all_gone (m s.key),
        )
      ]
