-- ===== src/Lfkv/Hang.antt =====
-- `lfkv_set_nx` in a table that has no NULL slot, while its allocations succeed.
use alcove.Base.{
  ℕ, zero, suc, ◌%◌, ◌≡◌, refl, sym, ap, ◌∙◌, List, Option, none, some, true, arith, length,
  get_elem?, get_elem?-lt, bytes_eq, Bool-cases, inl, inr, ℤ, ℕ_discrete, get_elem?-set_self,
  get_elem?-set_ne,
}
use alcove.Hash.{bernstein_hash}
use alcove.Lfkv.Defs.{Entry, Slot, Lfkv, Probe, probe, slot_retire_entry, entry_expired}
use alcove.Lfkv.Ops.{Scan, same_key, claim, lfkv_set_nx, never}
use alcove.Lfkv.Valid.{IsValid}
use alcove.Lfkv.Probe.{Outcome, hit, miss, crowded, probe-Outcome}
use alcove.Lfkv.Write.{Map, update, Models}
use alcove.Lfkv.Current.{located-Hit, retire-Models, seen_entry}
use alcove.Lfkv.Claim.{round_of, NoFree, Claimed, claimed_same, claimed_full, claim-Claimed}
use alcove.Lfkv.SetNx.{both, seen_retired, nx_expired, nx_same}

-- Some slot has the key, live or not.
abbrev pub Occupies : List ℕ → List (Option Slot) → Type 0
Occupies k cs = (i : ℕ) × (s : Slot) × (get_elem? cs i ≡ some (some s)) × (bytes_eq s.key k ≡ true)

Occupies-NoFree :
    (kv : Lfkv) (k : List ℕ)
    → IsValid kv
    → NoFree kv.slots
    → Occupies k kv.slots
    → (i : ℕ) × (s : Slot) × (claim 2 kv k (bernstein_hash k % length kv.slots)
        ≡ some (same_key i s))
Occupies-NoFree kv k v busy (i, s, cell, same) =
    let (r, run, out) = claim-Claimed kv v k busy in by_claim r run out
  where
    by_claim :
        (r : Scan)
        → claim 2 kv k (bernstein_hash k % length kv.slots) ≡ some r
        → Claimed kv.slots k 0 (length kv.slots) r
        → (i : ℕ) × (s : Slot) × (claim 2 kv k (bernstein_hash k % length kv.slots)
            ≡ some (same_key i s))
    by_claim r run (claimed_same d meet e) = (_, _, run ∙ ap some e)
    by_claim r run (claimed_full e others) =
        let (d, lt, at_i) =
          round_of (length kv.slots) (bernstein_hash k) i (get_elem?-lt kv.slots i (some s) cell) in
        let meet = others d (omega arith) (omega arith) in
        let is : meet.slot ≡ s = cc (ap (get_elem? kv.slots) at_i, meet.cell, cell) in
        cc (ap (λ (z : Slot). bytes_eq z.key k) is, meet.keyed)

retired_busy :
    (kv : Lfkv) (i : ℕ) (s : Slot) (e : Entry)
    → get_elem? kv.slots i ≡ some (some s)
    → NoFree kv.slots
    → NoFree (slot_retire_entry kv i s e).slots
unfolding slot_retire_entry
retired_busy kv i s e cell busy j = elim (ℕ_discrete i j) [
  | yes same ↦ λ is. cc (
    ap (get_elem? (slot_retire_entry kv i s e).slots) same,
    get_elem?-set_self kv.slots i (some (record s { entry = none }))
        (get_elem?-lt kv.slots i (some s) cell),
  )
  | no ne ↦ λ is. busy j (sym (get_elem?-set_ne kv.slots _ ne) ∙ is)
]

retired-Occupies :
    (kv : Lfkv) (k : List ℕ) (i : ℕ) (s : Slot) (e : Entry)
    → get_elem? kv.slots i ≡ some (some s)
    → bytes_eq s.key k ≡ true
    → Occupies k (slot_retire_entry kv i s e).slots
unfolding slot_retire_entry
retired-Occupies kv k i s e cell same =
    (i, _, get_elem?-set_self kv.slots i _ (get_elem?-lt kv.slots i (some s) cell), same)

loop_round :
    (fuel : ℕ) (kv : Lfkv) (m : Map) (k : List ℕ) (val : ℕ) (now : ℤ)
    → Models kv m
    → NoFree kv.slots
    → Occupies k kv.slots
    → seen_entry never m k now ≡ none
    → ((kv' : Lfkv) (m' : Map)
        → Models kv' m'
        → NoFree kv'.slots
        → Occupies k kv'.slots
        → seen_entry never m' k now ≡ none
        → lfkv_set_nx fuel kv' k val now both ≡ none)
    → (p : Probe) → probe kv k ≡ some p
    → Outcome kv.slots k p
    → lfkv_set_nx (suc fuel) kv k val now both ≡ none
loop_round fuel kv m k val now md busy occupied unseen next p run (hit s e is cell held same) =
    let h = located-Hit kv k p.idx s e md.valid cell held same in
    let known : m k ≡ some e = sym (md.reads k) ∙ h.viewed in
    elim (Bool-cases (entry_expired e now)) [
      | inr live ↦
          let there : seen_entry never m k now ≡ some e = rw (known, seen_entry, live) in cc
      | inl x ↦
          nx_expired kv k val now p run fuel s e is held x
          ∙ next (slot_retire_entry kv p.idx s e) (update m k none)
              (retire-Models kv m md k p.idx s e h) (retired_busy kv p.idx s e cell busy)
              (retired-Occupies kv k p.idx s e cell same) (seen_retired m k now)
    ]
loop_round fuel kv m k val now md busy occupied unseen next p run (miss n is lt arrives cell w t) =
    absurd (busy p.idx cell)
loop_round fuel kv m k val now md busy occupied unseen next p run (crowded is idx w t) =
    let (i, s, claims) = Occupies-NoFree kv k md.valid busy occupied in
    nx_same kv k val now p run fuel i s is (ap (claim 2 kv k) idx ∙ claims)
    ∙ next kv m md busy occupied unseen

-- On a well-formed table with no NULL slot, for a key that is absent or expired and that some
-- slot still carries, lfkv_set_nx, while its allocations succeed, has no result after any number
-- of rounds: it does not return.
pub set_nx-loops :
    (fuel : ℕ) (kv : Lfkv) (m : Map) (k : List ℕ) (val : ℕ) (now : ℤ)
    → Models kv m
    → NoFree kv.slots
    → Occupies k kv.slots
    → seen_entry never m k now ≡ none
    → lfkv_set_nx fuel kv k val now both ≡ none
unfolding lfkv_set_nx
set_nx-loops zero kv m k val now md busy occupied unseen = refl
set_nx-loops (suc fuel) kv m k val now md busy occupied unseen =
    let (p, run, out) = probe-Outcome kv md.valid k in
    loop_round fuel kv m k val now md busy occupied unseen
      (λ kv' m'. set_nx-loops fuel kv' m' k val now) p run out
