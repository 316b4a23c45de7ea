-- ===== src/Lfkv/Write.antt =====
-- One write of a slot keeps a table well formed, and updates the map at one key.
use alcove.Base.{
  ℕ, ◌+◌, ◌%◌, ◌<◌, ◌≤◌, ◌≡◌, ◌≢◌, refl, sym, ap, ◌∙◌, List, Option, none, some, false, arith,
  length, get_elem?, get_elem?-lt, get_elem?-set_self, get_elem?-set_ne, length-set, set, bytes_eq,
  bytes_eq_refl, eq_of_bytes_eq, Bool-cases, inl, inr, ℕ_discrete, if◌then◌else◌,
}
use alcove.Hash.{bernstein_hash}
use alcove.Lfkv.Defs.{Entry, Slot, Lfkv}
use alcove.Lfkv.Slots.{
  entry_at, found, live, or_entry, left_over, view, occurrences, occurrences-set, view-set,
  view-eq-none, live_count-set,
}
use alcove.Lfkv.Valid.{cell_at, Reaches, IsPlaced, IsValid}

-- The abstract table.
abbrev pub Map : Type 0
Map = List ℕ → Option Entry

abbrev pub update : Map → List ℕ → Option Entry → Map
update m k o q = if bytes_eq k q then o else m q

-- The table is well formed, and reads as `m`.
pub record Models (kv : Lfkv) (m : Map) : Type 0 where
  pub valid : IsValid kv
  pub reads : (q : List ℕ) → view kv.slots q ≡ m q

module _ (cs : List (Option Slot)) (i : ℕ) (s : Slot) where
  cell_at-set_taken :
      (h e : ℕ)
      → cell_at cs h e ≢ some none
      → i < length cs
      → cell_at (set cs i (some s)) h e ≢ some none
  cell_at-set_taken h e taken lt = rw length-set (elim (ℕ_discrete i ((h + e) % length cs)) [
    | yes same ↦ rw (← same, get_elem?-set_self cs i (some s) lt) (λ d. cc)
    | no other ↦ rw (get_elem?-set_ne cs (some s) other) taken
  ])

  Reaches-set : (h j : ℕ) → i < length cs → Reaches cs h j → Reaches (set cs i (some s)) h j
  Reaches-set h j lt r = record {
    rounds = r.rounds;
    within = rw length-set r.within;
    arrives = rw length-set r.arrives;
    taken = λ e p. cell_at-set_taken h e (r.taken e p) lt;
  }

-- The cell holds no live entry of another key than `k`.
abbrev pub OnlyHolds : List ℕ → Option Slot → Type 0
OnlyHolds k c = (q : List ℕ) → bytes_eq k q ≡ false → entry_at q c ≡ none

-- A slot for `k` may be written over the cell `old` at `i`.
pub record Writable (cs : List (Option Slot)) (k : List ℕ) (i : ℕ) (old : Option Slot)
    : Type 0 where
  pub here : get_elem? cs i ≡ some old
  pub only : OnlyHolds k old
  pub alone : occurrences cs k ≡ found (entry_at k old)
  pub reached : Reaches cs (bernstein_hash k) i

found-le-one : (o : Option Entry) → found o ≤ 1
found-le-one none = omega arith
found-le-one (some e) = omega arith

or_entry-none : (o : Option Entry) → or_entry o none ≡ o
or_entry-none none = refl
or_entry-none (some e) = refl

nothing_left :
    (cs : List (Option Slot)) (k : List ℕ) (o : Option Entry)
    → occurrences cs k ≡ found o
    → left_over o (view cs k) ≡ none
nothing_left cs k none h = view-eq-none k cs h
nothing_left cs k (some e) h = refl

module _ (kv : Lfkv) (v : IsValid kv) (k : List ℕ) (i : ℕ) (old : Option Slot)
    (wr : Writable kv.slots k i old) (s : Slot) (keyed : s.key ≡ k) where
  abbrev written : List (Option Slot)
  written = set kv.slots i (some s)

  entry_at_other : (q : List ℕ) → bytes_eq k q ≡ false → entry_at q (some s) ≡ none
  entry_at_other q e = rw (keyed, e)

  entry_at_self : entry_at k (some s) ≡ s.entry
  entry_at_self = rw (keyed, bytes_eq_refl k)

  occurrences-written : (q : List ℕ) → occurrences written q ≤ 1
  occurrences-written q = elim (Bool-cases (bytes_eq k q)) [
    | inl same ↦ rw (← eq_of_bytes_eq k q same) (
        omega (
          arith,
          occurrences-set k kv.slots i (some s) old wr.here,
          wr.alone,
          found-le-one (entry_at k (some s)),
        ))
    | inr other ↦
        let before = ap found (wr.only q other) in
        let after = ap found (entry_at_other q other) in
        omega (arith, occurrences-set q kv.slots i (some s) old wr.here, v.once q)
  ]

  view-written : (q : List ℕ) → view written q ≡ update (view kv.slots) k s.entry q
  view-written q =
      let seen = view-set q kv.slots i (some s) old wr.here (v.once q) (occurrences-written q) in
      elim (Bool-cases (bytes_eq k q)) [
        | inr other ↦ seen ∙ rw (other, entry_at_other q other, wr.only q other)
        | inl same ↦ seen ∙ rw (same, ← eq_of_bytes_eq k q same) (view_self)
      ]
    where
      view_self :
          or_entry (entry_at k (some s)) (left_over (entry_at k old) (view kv.slots k)) ≡ s.entry
      view_self =
          ap (or_entry (entry_at k (some s))) (nothing_left kv.slots k (entry_at k old) wr.alone)
          ∙ or_entry-none (entry_at k (some s))
          ∙ entry_at_self

  module _ (hashed : s.khash ≡ bernstein_hash s.key) (sized : s.klen ≡ length s.key) where
    IsPlaced-written :
        (j : ℕ) (t : Slot) → get_elem? written j ≡ some (some t) → IsPlaced written j t
    IsPlaced-written j t cell = elim (ℕ_discrete i j) [
      | yes e ↦
          let self = get_elem?-set_self kv.slots i (some s) (get_elem?-lt kv.slots i old wr.here) in
          let same : s ≡ t = cc (self, ap (get_elem? written) e, cell) in rw (← same, ← e) place
      | no ne ↦
          let old_place = v.placed j t (sym (get_elem?-set_ne kv.slots (some s) ne) ∙ cell) in
          record {
            hashed = old_place.hashed;
            sized = old_place.sized;
            reached =
                Reaches-set kv.slots i s (bernstein_hash t.key) j
                  (get_elem?-lt kv.slots i old wr.here) old_place.reached;
          }
    ]
      where
        place : IsPlaced written i s
        place = record {
          hashed = hashed;
          sized = sized;
          reached =
              Reaches-set kv.slots i s (bernstein_hash s.key) i
                (get_elem?-lt kv.slots i old wr.here) (rw keyed wr.reached);
        }

    -- The table after the write is well formed, and its map is updated at `k`.
    pub written-Models :
        (kv' : Lfkv)
        → kv'.slots ≡ written
        → kv'.mask ≡ kv.mask
        → kv'.count + live old ≡ kv.count + live (some s)
        → Models kv' (update (view kv.slots) k s.entry)
    written-Models kv' same_slots same_mask counts = record {
      valid = record {
        bits = v.bits;
        width = rw (same_slots, length-set) v.width;
        masked = same_mask ∙ v.masked;
        small = rw (same_slots, length-set) v.small;
        counted =
            rw same_slots
              (omega (arith, v.counted, live_count-set kv.slots i (some s) old wr.here));
        once = λ q. rw same_slots (occurrences-written q);
        placed = λ j t cell. rw same_slots (IsPlaced-written j t (rw same_slots at cell));
      };
      reads = λ q. rw same_slots (view-written q);
    }
