-- ===== src/Lfkv/Current.antt =====
-- How the operations on a live key begin, against the map of the table.
use alcove.Base.{
  ℕ, ◌+◌, ◌^◌, ◌<◌, ◌≤◌, ◌≡◌, refl, sym, ap, ◌∙◌, List, Option, none, some, Bool, true, arith,
  get_elem?, set, bytes_eq, eq_of_bytes_eq, Bool-cases, inl, inr, if◌then◌else◌, ℤ, ◌>>=◌, Returns,
}
use alcove.Lfkv.Defs.{Entry, Slot, Lfkv, Probe, probe, entry_expired, slot_retire_entry, decrement}
use alcove.Lfkv.Ops.{enter, exchange}
use alcove.Lfkv.Slots.{
  entry_at, found, view, live_count, view-eq-none, view-eq-entry_at, found-le-occurrences,
  live-le-live_count, live_count-le,
}
use alcove.Lfkv.Valid.{IsPlaced, IsValid}
use alcove.Lfkv.Probe.{Outcome, hit, miss, crowded, probe-Outcome, miss_unseen}
use alcove.Lfkv.Write.{Map, update, Models, Writable, written-Models}

-- The slot `s` at `i` holds the live entry `e` of the key `k`.
pub record Hit (cs : List (Option Slot)) (k : List ℕ) (i : ℕ) (s : Slot) (e : Entry) : Type 0 where
  pub keyed : s.key ≡ k
  pub entry : s.entry ≡ some e
  pub placed : IsPlaced cs i s
  pub writable : Writable cs k i (some s)
  pub viewed : view cs k ≡ some e

pub located-Hit :
    (kv : Lfkv) (k : List ℕ) (i : ℕ) (s : Slot) (e : Entry)
    → IsValid kv
    → get_elem? kv.slots i ≡ some (some s)
    → s.entry ≡ some e
    → bytes_eq s.key k ≡ true
    → Hit kv.slots k i s e
located-Hit kv k i s e v cell held same = record {
  keyed = keyed;
  entry = held;
  placed = place;
  writable = record {
    here = cell;
    only = λ q other. rw (keyed, other);
    alone = omega (arith, v.once k, found-le-occurrences k kv.slots i (some s) cell, ap found seen);
    reached = rw keyed at (place.reached);
  };
  viewed = view-eq-entry_at k kv.slots i (some s) e cell seen (v.once k);
}
  where
    keyed : s.key ≡ k
    keyed = eq_of_bytes_eq s.key k same

    place : IsPlaced kv.slots i s
    place = v.placed i s cell

    seen : entry_at k (some s) ≡ some e
    seen = rw (same, held)

-- The entry of `k` that an operation sees at the time `now`.
abbrev pub seen_entry : (Entry → Bool) → Map → List ℕ → ℤ → Option Entry
seen_entry skips m k now = elim (m k) [
  | none ↦ none
  | some e ↦ if skips e then none else if entry_expired e now then none else some e
]

-- The map after an expired entry of `k` is retired.
abbrev pub settled : (Entry → Bool) → Map → List ℕ → ℤ → Map
settled skips m k now = elim (m k) [
  | none ↦ m
  | some e ↦ if skips e then m else if entry_expired e now then update m k none else m
]

decrement_lem : (c : ℕ) → 0 < c → c < 2 ^ 64 → decrement c + 1 ≡ c
unfolding decrement
decrement_lem c lo hi = omega arith

module _ (kv : Lfkv) (m : Map) (md : Models kv m) (k : List ℕ) where
  pub Models-update :
      (kv' : Lfkv) (o : Option Entry)
      → Models kv' (update (view kv.slots) k o)
      → Models kv' (update m k o)
  Models-update kv' o w = record {
    valid = w.valid;
    reads = λ q. ground (arith, w.reads q, md.reads q);
  }

  module _ (i : ℕ) (s : Slot) (e : Entry) (h : Hit kv.slots k i s e) where
    -- Any table that differs in the entry of the slot, with the count to match.
    pub hit-Models :
        (kv' : Lfkv) (o : Option Entry)
        → kv'.slots ≡ set kv.slots i (some (record s { entry = o }))
        → kv'.mask ≡ kv.mask
        → kv'.count + 1 ≡ kv.count + found o
        → Models kv' (update m k o)
    hit-Models kv' o same_slots same_mask counts = Models-update kv' o (
        written-Models kv md.valid k i (some s) h.writable (record s { entry = o }) h.keyed
          h.placed.hashed h.placed.sized kv' same_slots same_mask (omega (arith, ap found h.entry)))

    pub decrement-Hit : decrement kv.count + 1 ≡ kv.count + 0
    decrement-Hit =
        decrement_lem kv.count (omega (arith, md.valid.counted, one_live))
          (omega (arith, md.valid.counted, md.valid.small, live_count-le kv.slots))
        ∙ omega arith
      where
        one_live : 1 ≤ live_count kv.slots
        one_live =
            omega (arith, ap found h.entry, live-le-live_count kv.slots i (some s) h.writable.here)

    pub retire-Models : Models (slot_retire_entry kv i s e) (update m k none)
    unfolding slot_retire_entry
    retire-Models = hit-Models (slot_retire_entry kv i s e) none refl refl decrement-Hit

    pub exchange-Models : (e' : Entry) → Models (exchange kv i s e (some e')) (update m k (some e'))
    unfolding exchange
    exchange-Models e' = hit-Models (exchange kv i s e (some e')) (some e') refl refl refl

-- What `enter` comes back with: the key is not seen, or it is, in a slot of the unchanged table.
pub data Entered (skips : Entry → Bool) (kv : Lfkv) (m : Map) (k : List ℕ) (now : ℤ)
    (r : Option (ℕ × Slot × Entry) × Lfkv) : Type 0 where
  gone :
      r.0 ≡ none
      → seen_entry skips m k now ≡ none
      → Models r.1 (settled skips m k now)
      → Entered skips kv m k now r
  kept :
      (i : ℕ) (s : Slot) (e : Entry)
      → r.0 ≡ some (i, s, e)
      → r.1 ≡ kv
      → seen_entry skips m k now ≡ some e
      → Hit kv.slots k i s e
      → Entered skips kv m k now r

module _ (skips : Entry → Bool) (kv : Lfkv) (m : Map) (md : Models kv m) (k : List ℕ)
    (now : ℤ) where
  enter-Hit :
      (p : Probe) (s : Slot) (e : Entry)
      → probe kv k ≡ some p
      → p.slot ≡ some s
      → Hit kv.slots k p.idx s e
      → Returns (enter skips kv k now) (Entered skips kv m k now)
  unfolding enter
  enter-Hit p s e run is h =
      let known : m k ≡ some e = sym (md.reads k) ∙ h.viewed in
      elim (Bool-cases (skips e)) [
        | inl t ↦ (
          (none, kv),
          simp (run, is, h.entry, t),
          gone refl (rw (known, seen_entry, t)) (rw (known, settled, t) md),
        )
        | inr f ↦ elim (Bool-cases (entry_expired e now)) [
          | inl x ↦ (
            (none, slot_retire_entry kv p.idx s e),
            simp (run, is, h.entry, f, x),
            gone refl (rw (known, seen_entry, f, x))
                (rw (known, settled, f, x) (retire-Models kv m md k p.idx s e h)),
          )
          | inr y ↦ (
            (some (p.idx, s, e), kv),
            simp (run, is, h.entry, f, y),
            kept p.idx s e refl refl (rw (known, seen_entry, f, y)) h,
          )
        ]
      ]

  pub enter-Entered : Returns (enter skips kv k now) (Entered skips kv m k now)
  unfolding enter
  enter-Entered = let (p, run, out) = probe-Outcome kv md.valid k in by_outcome p run out
    where
      absent :
          (p : Probe)
          → probe kv k ≡ some p
          → p.slot ≡ none
          → Outcome kv.slots k p
          → Returns (enter skips kv k now) (Entered skips kv m k now)
      absent p run is out =
          let unknown : m k ≡ none =
            sym (md.reads k) ∙ view-eq-none k kv.slots (miss_unseen kv md.valid k p out is) in
          (
            (none, kv),
            rw (run, ◌>>=◌, is),
            gone refl (rw (unknown, seen_entry)) (rw (unknown, settled) md),
          )

      by_outcome :
          (p : Probe)
          → probe kv k ≡ some p
          → Outcome kv.slots k p
          → Returns (enter skips kv k now) (Entered skips kv m k now)
      by_outcome p run (hit s e is cell held same) =
          enter-Hit p s e run is (located-Hit kv k p.idx s e md.valid cell held same)
      by_outcome p run (miss n is lt at_i free w t) = absent p run is (miss n is lt at_i free w t)
      by_outcome p run (crowded is at_i w t) = absent p run is (crowded is at_i w t)
