-- ===== src/Lfkv/Slots.antt =====
-- What the slots mean as a map from keys to entries, read off the whole array with no regard to
-- hashes, and what a write to one slot does to it.
use alcove.Base.{
  ℕ, zero, suc, ◌+◌, ◌<◌, ◌≤◌, ◌≡◌, refl, List, [], ◌∷◌, Option, none, some, true, arith, length,
  get_elem?, set, bytes_eq, if◌then◌else◌, Option-cases, inl, inr, get_elem?-set_self, get_elem?-lt,
}
use alcove.Lfkv.Defs.{Entry, Slot}

-- The entry of a cell, if it is live and its key is `q`.
abbrev pub entry_at : List ℕ → Option Slot → Option Entry
entry_at q none = none
entry_at q (some s) = if bytes_eq s.key q then s.entry else none

abbrev pub found : Option Entry → ℕ
found none = 0
found (some e) = 1

abbrev pub or_entry : Option Entry → Option Entry → Option Entry
or_entry none b = b
or_entry (some e) b = some e

-- The entry of `q`: the first that a walk over all slots meets.
unfoldable pub view : List (Option Slot) → List ℕ → Option Entry
view [] q = none
view (c ∷ cs) q = or_entry (entry_at q c) (view cs q)

-- How often `q` is live.
unfoldable pub occurrences : List (Option Slot) → List ℕ → ℕ
occurrences [] q = 0
occurrences (c ∷ cs) q = found (entry_at q c) + occurrences cs q

-- The number of live slots.
abbrev pub live : Option Slot → ℕ
live none = 0
live (some s) = found s.entry

unfoldable pub live_count : List (Option Slot) → ℕ
live_count [] = 0
live_count (c ∷ cs) = live c + live_count cs

module _ (q : List ℕ) where
  pub view-eq-none : (cs : List (Option Slot)) → occurrences cs q ≡ 0 → view cs q ≡ none
  unfolding view occurrences
  view-eq-none [] h = refl
  view-eq-none (c ∷ cs) h = ground (arith, view-eq-none cs)

  pub occurrences-eq-zero : (cs : List (Option Slot)) → view cs q ≡ none → occurrences cs q ≡ 0
  unfolding view occurrences
  occurrences-eq-zero [] h = refl
  occurrences-eq-zero (c ∷ cs) h = ground (arith, occurrences-eq-zero cs)

  pub occurrences-set :
      (cs : List (Option Slot)) (i : ℕ) (c old : Option Slot)
      → get_elem? cs i ≡ some old
      → occurrences (set cs i c) q + found (entry_at q old)
        ≡ occurrences cs q + found (entry_at q c)
  unfolding occurrences
  occurrences-set [] i c old h = cc
  occurrences-set (d ∷ cs) zero c old h = ground arith
  occurrences-set (d ∷ cs) (suc i) c old h = omega (arith, occurrences-set cs i c old h)

  -- A key that is live in one slot is read from that slot.
  pub view-eq-entry_at :
      (cs : List (Option Slot)) (i : ℕ) (c : Option Slot) (e : Entry)
      → get_elem? cs i ≡ some c
      → entry_at q c ≡ some e
      → occurrences cs q ≤ 1
      → view cs q ≡ some e
  unfolding view occurrences
  view-eq-entry_at [] i c e h live_here once = cc
  view-eq-entry_at (d ∷ cs) zero c e h live_here once = ground arith
  view-eq-entry_at (d ∷ cs) (suc i) c e h live_here once =
      ground (arith, view-eq-entry_at cs i c e h live_here, view-eq-none cs)

  view-set_silent :
      (cs : List (Option Slot)) (i : ℕ) (c old : Option Slot)
      → get_elem? cs i ≡ some old
      → entry_at q old ≡ none
      → entry_at q c ≡ none
      → view (set cs i c) q ≡ view cs q
  unfolding view
  view-set_silent [] i c old h a b = cc
  view-set_silent (d ∷ cs) zero c old h a b = ground arith
  view-set_silent (d ∷ cs) (suc i) c old h a b = rw (view-set_silent cs i c old h a b)

-- What is left of the entry of a key once the cell that holds it is overwritten.
abbrev pub left_over : Option Entry → Option Entry → Option Entry
left_over none v = v
left_over (some e) v = none

-- A write of the cell `c` over the cell `old`, where no key is live twice before or after.
pub view-set :
    (q : List ℕ) (cs : List (Option Slot)) (i : ℕ) (c old : Option Slot)
    → get_elem? cs i ≡ some old
    → occurrences cs q ≤ 1
    → occurrences (set cs i c) q ≤ 1
    → view (set cs i c) q ≡ or_entry (entry_at q c) (left_over (entry_at q old) (view cs q))
view-set q cs i c old h before after = elim (Option-cases (entry_at q c)) [
  | inr (e, here) ↦ rw here (
      view-eq-entry_at q (set cs i c) i c e (get_elem?-set_self cs i c (get_elem?-lt cs i old h))
        here after)
  | inl silent ↦ elim (Option-cases (entry_at q old)) [
    | inl e ↦ rw (silent, e) (view-set_silent q cs i c old h e silent)
    | inr (o, e) ↦
        let gone : occurrences (set cs i c) q ≡ 0 =
          ground (arith, occurrences-set q cs i c old h) in
        rw (silent, e) (view-eq-none q (set cs i c) gone)
  ]
]

pub live_count-set :
    (cs : List (Option Slot)) (i : ℕ) (c old : Option Slot)
    → get_elem? cs i ≡ some old
    → live_count (set cs i c) + live old ≡ live_count cs + live c
unfolding live_count
live_count-set [] i c old h = cc
live_count-set (d ∷ cs) zero c old h = ground arith
live_count-set (d ∷ cs) (suc i) c old h = omega (arith, live_count-set cs i c old h)

pub live_count-le : (cs : List (Option Slot)) → live_count cs ≤ length cs
unfolding live_count
live_count-le [] = omega arith
live_count-le (c ∷ cs) = ground (arith, live_count-le cs)

pub live_count-lt :
    (cs : List (Option Slot)) (i : ℕ) (old : Option Slot)
    → get_elem? cs i ≡ some old
    → live_count cs + 1 ≤ length cs + live old
unfolding live_count
live_count-lt [] i old h = cc
live_count-lt (d ∷ cs) zero old h = ground (arith, live_count-le cs)
live_count-lt (d ∷ cs) (suc i) old h = ground (arith, live_count-lt cs i old h)

pub live-le-live_count :
    (cs : List (Option Slot)) (i : ℕ) (old : Option Slot)
    → get_elem? cs i ≡ some old
    → live old ≤ live_count cs
unfolding live_count
live-le-live_count [] i old h = cc
live-le-live_count (d ∷ cs) zero old h = ground arith
live-le-live_count (d ∷ cs) (suc i) old h = omega (arith, live-le-live_count cs i old h)

-- A key that is live is live in some cell.
pub occurrences-cell :
    (q : List ℕ) (cs : List (Option Slot))
    → 0 < occurrences cs q
    → (i : ℕ) × (s : Slot) × (e : Entry) × (get_elem? cs i ≡ some (some s))
      × (bytes_eq s.key q ≡ true)
      × (s.entry ≡ some e)
unfolding occurrences
occurrences-cell q [] h = absurd (omega arith)
occurrences-cell q (c ∷ cs) h = elim (Option-cases (entry_at q c)) [
  | inr (e, here) ↦ from_cell c e here
  | inl silent ↦
      let (i, s, e, cell, same, held) = occurrences-cell q cs (ground arith) in
      (suc i, s, e, cell, same, held)
]
  where
    from_cell :
        (d : Option Slot) (e : Entry)
        → entry_at q d ≡ some e
        → (i : ℕ) × (s : Slot) × (e : Entry) × (get_elem? (d ∷ cs) i ≡ some (some s))
          × (bytes_eq s.key q ≡ true)
          × (s.entry ≡ some e)
    from_cell none e here = cc
    from_cell (some s) e here = (0, s, e, refl, ground arith, ground arith)

pub found-le-occurrences :
    (q : List ℕ) (cs : List (Option Slot)) (i : ℕ) (c : Option Slot)
    → get_elem? cs i ≡ some c
    → found (entry_at q c) ≤ occurrences cs q
unfolding occurrences
found-le-occurrences q [] i c h = cc
found-le-occurrences q (d ∷ cs) zero c h = ground arith
found-le-occurrences q (d ∷ cs) (suc i) c h = omega (arith, found-le-occurrences q cs i c h)
