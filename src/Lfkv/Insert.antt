-- ===== src/Lfkv/Insert.antt =====
-- What the insertions of lfkv.c write, against the map of the table.
use alcove.Base.{
  ℕ, suc, ◌+◌, ◌^◌, ◌%◌, ◌<◌, ◌≤◌, ◌≡◌, refl, sym, ap, ◌∙◌, List, [], ◌∷◌, Option, none, some,
  arith, length, get_elem?, get_elem?-lt, set, Option-cases, inl, inr, pos,
}
use native.Mathlib.Nat.{mod-eq_of_lt}
use alcove.Hash.{bernstein_hash}
use alcove.Lfkv.Defs.{Entry, Slot, Lfkv, increment, stored, slot_replace_entry}
use alcove.Lfkv.Ops.{slot_alloc, publish}
use alcove.Lfkv.Slots.{entry_at, live, occurrences, live_count, live_count-lt}
use alcove.Lfkv.Valid.{Reaches}
use alcove.Lfkv.Probe.{Walked, Tomb}
use alcove.Lfkv.Write.{Map, update, Models, written-Models}
use alcove.Lfkv.Current.{Hit, hit-Models, Models-update}
use alcove.Lfkv.Claim.{round_of}

entry_at_dead : (q : List ℕ) (c : Option Slot) → live c ≡ 0 → entry_at q c ≡ none
entry_at_dead q none h = refl
entry_at_dead q (some s) h = ground arith

increment_lem : (c : ℕ) → c + 1 < 2 ^ 64 → increment c ≡ c + 1
unfolding increment
increment_lem c h = mod-eq_of_lt h

-- A walk that comes to the cell `i` has met no free cell.
pub Walked-Reaches :
    (cs : List (Option Slot)) (k : List ℕ) (n d : ℕ)
    → Walked cs (bernstein_hash k) k n
    → d ≤ n
    → d < length cs
    → Reaches cs (bernstein_hash k) ((bernstein_hash k + d) % length cs)
Walked-Reaches cs k n d w le lt = record {
  rounds = d;
  within = lt;
  arrives = refl;
  taken = λ e p is. let q : e < n = omega arith in cc ((w e q).cell);
}

module _ (kv : Lfkv) (m : Map) (md : Models kv m) (k : List ℕ) where
  -- A fresh slot over a cell that holds no live entry, where the key is live nowhere.
  pub publish-Models :
      (i : ℕ) (old : Option Slot) (e : Entry)
      → get_elem? kv.slots i ≡ some old
      → live old ≡ 0
      → occurrences kv.slots k ≡ 0
      → Reaches kv.slots (bernstein_hash k) i
      → length k < 2 ^ 32
      → Models (publish kv i k e) (update m k (some e))
  unfolding publish
  publish-Models i old e cell dead unseen r short =
      Models-update kv m md k (publish kv i k e) (some e) (
        written-Models kv md.valid k i old
          record {
            here = cell;
            only = λ q other. entry_at_dead q old dead;
            alone = rw (entry_at_dead k old dead) unseen;
            reached = r;
          }
          (slot_alloc k e) refl refl (mod-eq_of_lt short) (publish kv i k e) refl refl counts)
    where
      counts : increment kv.count + live old ≡ kv.count + 1
      counts =
          rw
            (increment_lem kv.count
              (omega (arith, md.valid.counted, md.valid.small, live_count-lt kv.slots i old cell)))
            (omega arith)

  pub replace-Models :
      (i : ℕ) (s : Slot) (old e : Entry)
      → Hit kv.slots k i s old
      → Models (slot_replace_entry kv i s e) (update m k (some e))
  unfolding slot_replace_entry
  replace-Models i s old e h =
      simp (h.entry, slot_replace_entry)
        (hit-Models kv m md k i s old h
          (record kv {
            slots = set kv.slots i (some (record s { entry = some e }));
            retired = old ∷ kv.retired;
            events = stored s.key e.val ∷ kv.events;
          })
          (some e) refl refl refl)

abbrev pub plain_entry : ℕ → Entry
plain_entry val = record { val = val; expiry_us = pos 0 }

pub all_live :
    (cs : List (Option Slot))
    → ((i : ℕ) (c : Option Slot) → get_elem? cs i ≡ some c → live c ≡ 1)
    → live_count cs ≡ length cs
unfolding live_count
all_live [] h = refl
all_live (c ∷ cs) h = omega (arith, h 0 c refl, all_live cs (λ i. h (suc i)))

-- A walk round the whole table that has met no tombstone has met a live slot in each cell.
pub crowded_cell :
    (cs : List (Option Slot)) (h : ℕ) (k : List ℕ)
    → Walked cs h k (length cs)
    → Tomb cs h (length cs) none
    → (i : ℕ) (c : Option Slot) → get_elem? cs i ≡ some c
    → live c ≡ 1
crowded_cell cs h k w t i c cell =
    let (d, lt, at_i) = round_of (length cs) h i (get_elem?-lt cs i c cell) in
    let here = (w d lt).cell in
    let is : some (w d lt).slot ≡ c = cc (ap (get_elem? cs) at_i, here, cell) in
    elim (Option-cases ((w d lt).slot.entry)) [
      | inl dead ↦ absurd (t d _ lt here dead)
      | inr (e, held) ↦ ap live (sym is) ∙ rw held refl
    ]
