-- ===== src/Lfkv/Claim.antt =====
-- The loop that claims a slot, in a table that has no free cell.
use alcove.Base.{
  ℕ, zero, suc, ◌+◌, ◌-◌, ◌%◌, ◌<◌, ◌≤◌, ◌≡◌, ◌≢◌, refl, sym, ap, ◌∙◌, List, Option, none, some,
  Bool, true, false, arith, length, get_elem?, get_elem?-lt, get_elem?_within, bytes_eq, ◌>>=◌,
  Returns, dec_lt,
}
use native.Mathlib.Nat.{mod-add-mod, mod-lt, mod-eq_of_lt, add-mod_right}
use alcove.Hash.{bernstein_hash}
use alcove.Lfkv.Defs.{Slot, Lfkv, slot_key_eq}
use alcove.Lfkv.Ops.{Scan, free, same_key, full, scan, claim}
use alcove.Lfkv.Valid.{cell_at, IsValid, slot_key_eq_lem}
use alcove.Lfkv.Probe.{Walked, nonempty, next_cell}

-- Every cell comes up in some round.
pub round_of : (n h i : ℕ) → i < n → (d : ℕ) × (d < n) × ((h + d) % n ≡ i)
round_of n h i lt =
    let positive : 0 < n = omega arith in
    let below = mod-lt h positive in
    elim (dec_lt i (h % n)) [
      | no p ↦
          let e : h % n + (i - h % n) ≡ i = omega arith in
          (i - h % n, omega arith, sym (mod-add-mod h n (i - h % n)) ∙ rw e (mod-eq_of_lt lt))
      | yes p ↦
          let e : h % n + (i + n - h % n) ≡ i + n = omega arith in
          (
            i + n - h % n,
            omega arith,
            sym (mod-add-mod h n (i + n - h % n)) ∙ rw e (add-mod_right i n ∙ mod-eq_of_lt lt),
          )
    ]

-- No cell is NULL.
abbrev pub NoFree : List (Option Slot) → Type 0
NoFree cs = (i : ℕ) → get_elem? cs i ≢ some none

pub Walked-NoFree :
    (cs : List (Option Slot)) (h : ℕ) (k : List ℕ) → Walked cs h k (length cs) → NoFree cs
Walked-NoFree cs h k w i is =
    let (d, lt, at_i) = round_of (length cs) h i (get_elem?-lt cs i none is) in
    cc (ap (get_elem? cs) at_i, (w d lt).cell)

-- A round in which the scan meets a slot with the key, or with another key.
pub record Meets (cs : List (Option Slot)) (k : List ℕ) (same : Bool) (d : ℕ) : Type 0 where
  pub slot : Slot
  pub cell : cell_at cs (bernstein_hash k) d ≡ some (some slot)
  pub keyed : bytes_eq slot.key k ≡ same

-- What a search for the key ends with: a slot with the key, or after it has met only other keys.
pub data Claimed (cs : List (Option Slot)) (k : List ℕ) (n left : ℕ) (r : Scan) : Type 0 where
  claimed_same :
      (d : ℕ) (m : Meets cs k true d)
      → r ≡ same_key ((bernstein_hash k + d) % length cs) m.slot
      → Claimed cs k n left r
  claimed_full :
      r ≡ full → ((d : ℕ) → n ≤ d → d < n + left → Meets cs k false d) → Claimed cs k n left r

Claimed-suc :
    (cs : List (Option Slot)) (k : List ℕ) (n left : ℕ) (r : Scan)
    → Meets cs k false n
    → Claimed cs k (n + 1) left r
    → Claimed cs k n (suc left) r
Claimed-suc cs k n left r here (claimed_same d m e) = claimed_same d m e
Claimed-suc cs k n left r here (claimed_full e rest) = claimed_full e λ d lo hi. elim (dec_lt n d) [
  | yes p ↦ rest d (omega arith) (omega arith)
  | no p ↦ let same : d ≡ n = omega arith in rw same here
]

module _ (kv : Lfkv) (v : IsValid kv) (k : List ℕ) (busy : NoFree kv.slots) where
  meets : (d : ℕ) → (b : Bool) × Meets kv.slots k b d
  meets d =
      let (c, cell) =
        get_elem?_within kv.slots ((bernstein_hash k + d) % length kv.slots)
          (mod-lt (bernstein_hash k + d) (nonempty kv v k)) in
      from c cell
    where
      from :
          (c : Option Slot)
          → cell_at kv.slots (bernstein_hash k) d ≡ some c
          → (b : Bool) × Meets kv.slots k b d
      from none cell = absurd (busy _ cell)
      from (some s) cell = (bytes_eq s.key k, record { slot = s; cell = cell; keyed = refl })

  key_test :
      (b : Bool) (d : ℕ) (m : Meets kv.slots k b d) → slot_key_eq m.slot (bernstein_hash k) k ≡ b
  key_test b d m =
      let p = v.placed _ m.slot m.cell in slot_key_eq_lem m.slot k p.hashed p.sized ∙ m.keyed

  scan-Meets :
      (b : Bool) (left n : ℕ)
      → Meets kv.slots k b n
      → Returns
          (scan left kv k ((bernstein_hash k + (n + 1)) % length kv.slots))
          (Claimed kv.slots k (n + 1) left)
      → Returns
          (scan (suc left) kv k ((bernstein_hash k + n) % length kv.slots))
          (Claimed kv.slots k n (suc left))
  unfolding scan
  scan-Meets true left n m rest =
      (_, rw (m.cell, scan, ◌>>=◌, key_test true n m), claimed_same n m refl)
  scan-Meets false left n m (r, run, out) = (
    r,
    rw (m.cell, scan, ◌>>=◌, key_test false n m, next_cell kv v k n) run,
    Claimed-suc kv.slots k n left r m out,
  )

  scan-Claimed :
      (left n : ℕ)
      → Returns
          (scan left kv k ((bernstein_hash k + n) % length kv.slots))
          (Claimed kv.slots k n left)
  unfolding scan
  scan-Claimed zero n = (full, refl, claimed_full refl (λ d lo hi. absurd (omega arith)))
  scan-Claimed (suc left) n =
      let (b, m) = meets n in scan-Meets b left n m (scan-Claimed left (n + 1))

  claim_rest :
      (r : Scan)
      → Meets kv.slots k false 0
      → Claimed kv.slots k 1 (length kv.slots) r
      → Returns
          (elim r [
            | free j ↦ claim 1 kv k j
            | same_key j t ↦ some (same_key j t)
            | full ↦ some full
          ])
          (Claimed kv.slots k 0 (length kv.slots))
  claim_rest r here (claimed_same d m e) = (_, rw e, claimed_same d m refl)
  claim_rest r here (claimed_full e rest) = (
    full,
    rw e,
    claimed_full refl (λ d lo hi. elim (dec_lt 0 d) [
      | yes p ↦ rest d (omega arith) (omega arith)
      | no p ↦ let same : d ≡ 0 = omega arith in rw same here
    ]),
  )

  claim-Meets :
      (b : Bool)
      → Meets kv.slots k b 0
      → Returns
          (claim 2 kv k ((bernstein_hash k + 0) % length kv.slots))
          (Claimed kv.slots k 0 (length kv.slots))
  unfolding claim
  claim-Meets true m = (_, rw (m.cell, claim, ◌>>=◌, key_test true 0 m), claimed_same 0 m refl)
  claim-Meets false m =
      let (r, run, out) = scan-Claimed (length kv.slots) 1 in
      let (r', run', out') = claim_rest r m out in
      (r', rw (m.cell, claim, ◌>>=◌, key_test false 0 m, next_cell kv v k 0, run) run', out')

  -- A claim that starts where the probe does ends at a slot with the key, or it probe_loop-Finds none.
  pub claim-Claimed :
      Returns
        (claim 2 kv k (bernstein_hash k % length kv.slots))
        (Claimed kv.slots k 0 (length kv.slots))
  claim-Claimed =
      let e : bernstein_hash k + 0 ≡ bernstein_hash k = omega arith in
      let (b, m) = meets 0 in rw e at (claim-Meets b m)
