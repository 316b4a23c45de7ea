-- ===== src/Lfkv/Probe.antt =====
-- What `probe` probe_loop-Finds in a well-formed table.
use alcove.Base.{
  ℕ, zero, suc, ◌+◌, ◌-◌, ◌^◌, ◌%◌, ◌<◌, ◌≡◌, ◌≢◌, refl, ap, ◌∙◌, List, Option, none, some, true,
  false, arith, length, get_elem?, get_elem?_within, bytes_eq, eq_of_bytes_eq, bit_and,
  bit_and_mask, Bool-cases, inl, inr, ◌>>=◌, ◌⊎◌, dec_lt,
}
use native.Mathlib.Nat.{mod-add-mod, mod-lt, one-le-pow}
use alcove.Hash.{bernstein_hash}
use alcove.Lfkv.Defs.{Entry, Slot, Lfkv, Probe, probe_loop, probe, keep_first}
use alcove.Lfkv.Slots.{occurrences, occurrences-cell}
use alcove.Lfkv.Valid.{cell_at, IsPlaced, IsValid, slot_key_eq_lem}

-- The probe has looked at the first `n` cells and went on: each holds a slot, a tombstone or one
-- with another key.
pub record Passed (cs : List (Option Slot)) (h : ℕ) (k : List ℕ) (d : ℕ) : Type 0 where
  pub slot : Slot
  pub cell : cell_at cs h d ≡ some (some slot)
  pub elsewhere : (slot.entry ≡ none) ⊎ (bytes_eq slot.key k ≡ false)

abbrev pub Walked : List (Option Slot) → ℕ → List ℕ → ℕ → Type 0
Walked cs h k n = (d : ℕ) → d < n → Passed cs h k d

-- What the tombstone index says after `n` cells.
abbrev pub Tomb : List (Option Slot) → ℕ → ℕ → Option ℕ → Type 0
Tomb cs h n none = (d : ℕ) (s : Slot) → d < n → cell_at cs h d ≡ some (some s) → s.entry ≢ none
Tomb cs h n (some t) =
    (d : ℕ) × (s : Slot) × (d < n)
    × ((h + d) % length cs ≡ t)
    × (get_elem? cs t ≡ some (some s))
    × (s.entry ≡ none)

-- The key is live in the slot found; or it is live nowhere, and the probe ended at a free cell, or
-- after all the cells.
pub data Outcome (cs : List (Option Slot)) (k : List ℕ) (p : Probe) : Type 0 where
  hit :
      (s : Slot) (e : Entry)
      → p.slot ≡ some s
      → get_elem? cs p.idx ≡ some (some s)
      → s.entry ≡ some e
      → bytes_eq s.key k ≡ true
      → Outcome cs k p
  miss :
      (n : ℕ)
      → p.slot ≡ none
      → n < length cs
      → (bernstein_hash k + n) % length cs ≡ p.idx
      → get_elem? cs p.idx ≡ some none
      → Walked cs (bernstein_hash k) k n
      → Tomb cs (bernstein_hash k) n p.tombstone_idx
      → Outcome cs k p
  crowded :
      p.slot ≡ none
      → p.idx ≡ bernstein_hash k % length cs
      → Walked cs (bernstein_hash k) k (length cs)
      → Tomb cs (bernstein_hash k) (length cs) p.tombstone_idx
      → Outcome cs k p

module _ (cs : List (Option Slot)) (h : ℕ) where
  Walked-suc : (k : List ℕ) (n : ℕ) → Walked cs h k n → Passed cs h k n → Walked cs h k (n + 1)
  Walked-suc k n w p d lt = elim (dec_lt d n) [
    | yes q ↦ w d q
    | no q ↦ let e : d ≡ n = omega arith in rw e p
  ]

  Tomb-kept :
      (n : ℕ) (tomb : Option ℕ) (s : Slot)
      → Tomb cs h n tomb
      → cell_at cs h n ≡ some (some s)
      → s.entry ≡ none
      → Tomb cs h (n + 1) (keep_first tomb ((h + n) % length cs))
  unfolding keep_first
  Tomb-kept n none s t cell dead = (n, s, omega arith, refl, cell, dead)
  Tomb-kept n (some i) s (d, r, lt, at_i, cell', dead') cell dead =
      (d, r, omega arith, at_i, cell', dead')

  Tomb-passed :
      (n : ℕ) (tomb : Option ℕ) (s : Slot)
      → Tomb cs h n tomb
      → cell_at cs h n ≡ some (some s)
      → s.entry ≢ none
      → Tomb cs h (n + 1) tomb
  Tomb-passed n none s t cell alive = λ d r lt cell'. elim (dec_lt d n) [
    | yes q ↦ t d r q cell'
    | no q ↦
        let e : d ≡ n = omega arith in let same : r ≡ s = cc (ap (cell_at cs h) e) in rw same alive
  ]
  Tomb-passed n (some i) s (d, r, lt, at_i, cell', dead') cell alive =
      (d, r, omega arith, at_i, cell', dead')

-- The code steps by `(i + 1) & mask`.
pub mask_step : (n bits i : ℕ) → n ≡ 2 ^ bits → bit_and i (2 ^ bits - 1) ≡ i % n
mask_step n bits i e = rw e (bit_and_mask bits i)

module _ (kv : Lfkv) (v : IsValid kv) (k : List ℕ) where
  abbrev cells : List (Option Slot)
  cells = kv.slots

  abbrev h : ℕ
  h = bernstein_hash k

  pub nonempty : 0 < length cells
  nonempty = rw v.width (one-le-pow v.bits 2 (omega arith))

  pub masks : (i : ℕ) → bit_and i kv.mask ≡ i % length cells
  masks i = rw v.masked (mask_step (length cells) v.bits i v.width)

  pub next_cell :
      (n : ℕ) → bit_and ((h + n) % length cells + 1) kv.mask ≡ (h + (n + 1)) % length cells
  next_cell n =
      let e : h + n + 1 ≡ h + (n + 1) = omega arith in
      masks _ ∙ mod-add-mod (h + n) (length cells) 1 ∙ ap (λ (t : ℕ). t % length cells) e

  -- The loop at round `n` returns, with the outcome that it should.
  abbrev Finds : ℕ → ℕ → Option ℕ → Type 0
  Finds left n tomb =
      (p : Probe) × (probe_loop left kv h k ((h + n) % length cells) tomb ≡ some p)
      × Outcome cells k p

  module _ (left n : ℕ) (tomb : Option ℕ) (more : n < length cells) (w : Walked cells h k n)
      (t : Tomb cells h n tomb)
      (next : (tomb' : Option ℕ)
        → Walked cells h k (n + 1)
        → Tomb cells h (n + 1) tomb'
        → Finds left (n + 1) tomb') where
    Finds-slot :
        (s : Slot) (o : Option Entry)
        → cell_at cells h n ≡ some (some s)
        → s.entry ≡ o
        → Finds (suc left) n tomb
    unfolding probe_loop
    Finds-slot s none cell e =
        let passed =
          Walked-suc cells h k n w (record { slot = s; cell = cell; elsewhere = inl e }) in
        let (p, run, out) =
          next (keep_first tomb ((h + n) % length cells)) passed
            (Tomb-kept cells h n tomb s t cell e) in
        (p, rw (cell, probe_loop, ◌>>=◌, e, next_cell n) run, out)
    Finds-slot s (some ent) cell e = elim (Bool-cases (bytes_eq s.key k)) [
      | inl same ↦
          let hit_key = slot_key_eq_lem s k pl.hashed pl.sized ∙ same in
          (
            record { slot = some s; idx = (h + n) % length cells; tombstone_idx = tomb },
            simp (cell, e, hit_key),
            hit s ent refl cell e same,
          )
      | inr other ↦
          let miss_key = slot_key_eq_lem s k pl.hashed pl.sized ∙ other in
          let passed =
            Walked-suc cells h k n w (record { slot = s; cell = cell; elsewhere = inr other }) in
          let (p, run, out) = next tomb passed (Tomb-passed cells h n tomb s t cell (λ d. cc)) in
          (p, rw (cell, probe_loop, ◌>>=◌, e, miss_key, next_cell n) run, out)
    ]
      where
        pl : IsPlaced cells ((h + n) % length cells) s
        pl = v.placed ((h + n) % length cells) s cell

    Finds-cell : (c : Option Slot) → cell_at cells h n ≡ some c → Finds (suc left) n tomb
    unfolding probe_loop
    Finds-cell none cell = (
      record { slot = none; idx = (h + n) % length cells; tombstone_idx = tomb },
      rw (cell, probe_loop),
      miss n refl more refl cell w t,
    )
    Finds-cell (some s) cell = Finds-slot s s.entry cell refl

  probe_loop-Finds :
      (left n : ℕ) (tomb : Option ℕ)
      → n + left ≡ length cells
      → Walked cells h k n
      → Tomb cells h n tomb
      → Finds left n tomb
  unfolding probe_loop
  probe_loop-Finds zero n tomb size w t =
      let e : n ≡ length cells = omega arith in
      (
        record { slot = none; idx = bit_and h kv.mask; tombstone_idx = tomb },
        refl,
        crowded refl (masks h) (rw e at w) (rw e at t),
      )
  probe_loop-Finds (suc left) n tomb size w t =
      let (c, cell) = get_elem?_within cells ((h + n) % length cells) (mod-lt (h + n) nonempty) in
      Finds-cell left n tomb (omega arith) w t
        (λ tomb' w' t'. probe_loop-Finds left (n + 1) tomb' (omega arith) w' t') c cell

  -- The probe returns, with the outcome that it should.
  pub probe-Outcome : (p : Probe) × (probe kv k ≡ some p) × Outcome cells k p
  unfolding probe
  probe-Outcome =
      let e : h + 0 ≡ h = omega arith in
      let (p, run, out) =
        probe_loop-Finds (length cells) 0 none (omega arith) (λ d lt. absurd (omega arith))
          (λ d s lt. absurd (omega arith)) in
      (p, rw masks (rw e at run), out)

  Passed-elsewhere :
      {d : ℕ} {s : Slot} {e : Entry}
      → Passed cells h k d
      → cell_at cells h d ≡ some (some s)
      → s.entry ≡ some e
      → bytes_eq s.key k ≡ true
      → ⊥
  Passed-elsewhere {s = s} p cell held same =
      let is : p.slot ≡ s = cc (p.cell, cell) in
      elim (p.elsewhere) [
        | inl dead ↦ cc (ap (λ (z : Slot). z.entry) is)
        | inr other ↦ cc (ap (λ (z : Slot). bytes_eq z.key k) is)
      ]

  -- A walk that ends at a free cell, or has seen all cells, has seen every slot of the key.
  unseen :
      (n : ℕ)
      → Walked cells h k n
      → (n < length cells → cell_at cells h n ≡ some none)
      → occurrences cells k ≡ 0
  unseen n w stop = elim (dec_lt 0 (occurrences cells k)) [
    | no p ↦ omega arith
    | yes p ↦
        let (i, s, ent, cell, same, held) = occurrences-cell k cells p in
        let r = (v.placed i s cell).reached in
        let hashes = ap bernstein_hash (eq_of_bytes_eq s.key k same) in
        let here : cell_at cells h r.rounds ≡ some (some s) =
          cc (ap (get_elem? cells) r.arrives, cell) in
        elim (dec_lt r.rounds n) [
          | yes q ↦ absurd (Passed-elsewhere (w r.rounds q) here held same)
          | no q ↦
              let free = stop (omega (arith, r.within)) in
              elim (dec_lt n r.rounds) [
                | yes before ↦
                    absurd (r.taken n before (ap (λ (z : ℕ). cell_at cells z n) hashes ∙ free))
                | no after ↦
                    let e : n ≡ r.rounds = omega arith in cc (ap (cell_at cells h) e, free, here)
              ]
        ]
  ]

  -- A probe that probe_loop-Finds no slot has looked at every slot of the key.
  pub miss_unseen : (p : Probe) → Outcome cells k p → p.slot ≡ none → occurrences cells k ≡ 0
  miss_unseen p (hit s e at_s cell held same) is_none = cc
  miss_unseen p (miss n e lt arrives free w t) is_none = unseen n w (λ _. rw (arrives) free)
  miss_unseen p (crowded e idx w t) is_none = unseen (length cells) w (λ lt. absurd (omega arith))
