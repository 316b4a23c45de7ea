-- ===== src/Lfkv/Visit.antt =====
-- `lfkv_foreach` against the map of the table.
use alcove.Base.{
  ℕ, zero, suc, ◌+◌, ◌≤◌, ◌≡◌, refl, ap, ◌∙◌, List, [], ◌∷◌, Option, none, some, Bool, true, arith,
  ◌||◌, ◌==◌, length, get_elem?, get_elem?_within, drop, bytes_eq, Option-cases, Bool-cases, inl,
  inr, if◌then◌else◌, Returns, ℤ,
}
use alcove.Lfkv.Defs.{Entry, Slot, Lfkv, entry_expired}
use alcove.Lfkv.Ops.{foreach_from, lfkv_foreach}
use alcove.Lfkv.Slots.{entry_at, found, view, occurrences, view-eq-none}
use alcove.Lfkv.Write.{Map, Models}

-- The callback that notes what it is given, the last key first.
abbrev pub note : List (List ℕ × Entry) → List ℕ → Entry → List (List ℕ × Entry) × Bool
note seen k e = ((k, e) ∷ seen, true)

-- The entry that a visit at `now` shows.
abbrev pub shown : ℤ → Option Entry → Option Entry
shown now none = none
shown now (some e) = if e.val == 0 || entry_expired e now then none else some e

-- How often the key was noted.
abbrev pub visits : List ℕ → List (List ℕ × Entry) → ℕ
visits q [] = 0
visits q (n ∷ ns) = (if bytes_eq n.0 q then 1 else 0) + visits q ns

shown_count : ℤ → List (Option Slot) → List ℕ → ℕ
shown_count now [] q = 0
shown_count now (c ∷ cs) q = found (shown now (entry_at q c)) + shown_count now cs q

drop-get_elem? {ℓ} :
    {A : Type ℓ} (xs : List A) (i : ℕ) (a : A)
    → get_elem? xs i ≡ some a
    → drop i xs ≡ a ∷ drop (suc i) xs
drop-get_elem? [] i a at = cc
drop-get_elem? (x ∷ xs) zero a at = let e : x ≡ a = cc in rw e refl
drop-get_elem? (x ∷ xs) (suc i) a at = drop-get_elem? xs i a at

drop_all {ℓ} : {A : Type ℓ} (xs : List A) (i : ℕ) → i ≡ length xs → drop i xs ≡ []
drop_all [] zero e = refl
drop_all [] (suc i) e = refl
drop_all (x ∷ xs) zero e = absurd (omega arith)
drop_all (x ∷ xs) (suc i) e = drop_all xs i (omega arith)

module _ (kv : Lfkv) (now : ℤ) (q : List ℕ) where
  -- The rounds from `i` on note `q` as often as the cells from `i` on show it.
  abbrev Noted : ℕ → ℕ → List (List ℕ × Entry) → Type 0
  Noted left i st =
      Returns (foreach_from left i kv now note st)
        λ r. visits q r ≡ visits q st + shown_count now (drop i kv.slots) q

  shown_next :
      (i : ℕ) (c : Option Slot)
      → get_elem? kv.slots i ≡ some c
      → shown_count now (drop i kv.slots) q
        ≡ found (shown now (entry_at q c)) + shown_count now (drop (i + 1) kv.slots) q
  unfolding shown_count
  shown_next i c at =
      let e : suc i ≡ i + 1 = omega arith in
      ap (λ (cs : List (Option Slot)). shown_count now cs q) (drop-get_elem? kv.slots i c at)
      ∙ ap (λ (k : ℕ). found (shown now (entry_at q c)) + shown_count now (drop k kv.slots) q) e

  module _ (left i : ℕ) (st : List (List ℕ × Entry))
      (next : (st' : List (List ℕ × Entry)) → Noted left (i + 1) st') where
    note_skip :
        (c : Option Slot)
        → get_elem? kv.slots i ≡ some c
        → found (shown now (entry_at q c)) ≡ 0
        → foreach_from (suc left) i kv now note st ≡ foreach_from left (i + 1) kv now note st
        → Noted (suc left) i st
    note_skip c at silent step =
        let (r, run, count) = next st in
        (r, step ∙ run, omega (arith, count, shown_next i c at, silent))

    note_slot :
        (s : Slot) (o : Option Entry)
        → get_elem? kv.slots i ≡ some (some s)
        → s.entry ≡ o
        → Noted (suc left) i st
    unfolding foreach_from
    note_slot s none at held = note_skip (some s) at (ground arith) (simp (at, held))
    note_slot s (some e) at held = elim (Bool-cases (e.val == 0 || entry_expired e now)) [
      | inl hidden ↦ note_skip (some s) at (ground arith) (simp (at, held, hidden))
      | inr plain ↦
          let (r, run, count) = next ((s.key, e) ∷ st) in
          (r, simp (at, held, plain) run, ground (arith, count, shown_next i (some s) at))
    ]

    note_cell : (c : Option Slot) → get_elem? kv.slots i ≡ some c → Noted (suc left) i st
    unfolding foreach_from
    note_cell none at = note_skip none at refl (simp at)
    note_cell (some s) at = note_slot s s.entry at refl

  note_from :
      (left i : ℕ) (st : List (List ℕ × Entry)) → i + left ≡ length kv.slots → Noted left i st
  unfolding foreach_from shown_count
  note_from zero i st size = (st, refl, rw (drop_all kv.slots i (omega arith)) (omega arith))
  note_from (suc left) i st size =
      let (c, at) = get_elem?_within kv.slots i (omega arith) in
      note_cell left i st (λ st'. note_from left (i + 1) st' (omega arith)) c at

shown_count-view :
    (now : ℤ) (cs : List (Option Slot)) (q : List ℕ)
    → occurrences cs q ≤ 1
    → shown_count now cs q ≡ found (shown now (view cs q))
unfolding shown_count view occurrences
shown_count-view now [] q once = refl
shown_count-view now (c ∷ cs) q once = elim (Option-cases (entry_at q c)) [
  | inl silent ↦ let ih = shown_count-view now cs q (ground arith) in rw silent (omega (arith, ih))
  | inr (e, here) ↦
      let ih = shown_count-view now cs q (ground arith) in
      let gone = view-eq-none q cs (ground arith) in
      let nothing : shown_count now cs q ≡ 0 = ih ∙ rw gone refl in rw here (omega (arith, nothing))
]

-- lfkv_foreach with a callback that notes each key, on a well-formed table that reads as a map,
-- returns; it has shown a key once where the map has an entry with a value that is not expired,
-- and else not at all.
pub foreach-visits :
    (kv : Lfkv) (m : Map) (now : ℤ)
    → Models kv m
    → Returns (lfkv_foreach kv now note []) λ r. (q : List ℕ) → visits q r ≡ found (shown now (m q))
unfolding lfkv_foreach
foreach-visits kv m now md =
    let (r, run, _) = note_from kv now [] (length kv.slots) 0 [] (omega arith) in
    (
      r,
      run,
      λ q.
          let (s, run', count) = note_from kv now q (length kv.slots) 0 [] (omega arith) in
          let same : r ≡ s = cc in
          let shows = shown_count-view now kv.slots q (md.valid.once q) in
          let total : visits q s ≡ shown_count now kv.slots q = omega (arith, count) in
          ap (visits q) same
          ∙ total
          ∙ shows
          ∙ ap (λ (o : Option Entry). found (shown now o)) (md.reads q),
    )
