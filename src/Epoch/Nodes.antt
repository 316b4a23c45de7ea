-- ===== src/Epoch/Nodes.antt =====
-- Which pointers wait in the retire lists, and what a walk over one list does to them.
use alcove.Base.{
  ℕ, zero, suc, ◌+◌, ◌-◌, ◌^◌, ◌<◌, ◌≤◌, ◌≡◌, List, [], ◌∷◌, some, arith, ltb, ◌==◌, if◌then◌else◌,
  get_elem?, set, take, Bool-cases, inl, inr, ◌⊎◌, ltb→lt, u64,
}
use alcove.Epoch.{Node, Thread, gc_walk, min_from}

-- A node for `p` of an epoch `lo` or later.
abbrev pub Queued : ℕ → ℕ → List Node → Type 0
Queued p lo [] = ⊥
Queued p lo (n ∷ ns) = ((n.ptr ≡ p) × (lo ≤ n.retire_epoch)) ⊎ Queued p lo ns

-- How often `p` stands in a list of nodes, and in a list of pointers.
abbrev pub copies : ℕ → List Node → ℕ
copies p [] = 0
copies p (n ∷ ns) = (if n.ptr == p then 1 else 0) + copies p ns

abbrev pub times : ℕ → List ℕ → ℕ
times p [] = 0
times p (q ∷ qs) = (if q == p then 1 else 0) + times p qs

unfoldable pub pending : ℕ → List Thread → ℕ
pending p [] = 0
pending p (t ∷ ts) = copies p t.retired + pending p ts

-- `p` waits in the list of some thread, in a node of the epoch `lo` or later.
pub record Waits (p lo : ℕ) (ts : List Thread) : Type 0 where
  pub owner : ℕ
  pub thread : Thread
  pub at : get_elem? ts owner ≡ some thread
  pub queued : Queued p lo thread.retired

module _ (p : ℕ) where
  pub pending-set :
      (ts : List Thread) (i : ℕ) (t old : Thread)
      → get_elem? ts i ≡ some old
      → pending p (set ts i t) + copies p old.retired ≡ pending p ts + copies p t.retired
  unfolding pending
  pending-set [] i t old h = cc
  pending-set (u ∷ ts) zero t old h = let same : u ≡ old = cc in rw same (omega arith)
  pending-set (u ∷ ts) (suc i) t old h = omega (arith, pending-set ts i t old h)

  pub Queued-copies : (lo : ℕ) (ns : List Node) → Queued p lo ns → 1 ≤ copies p ns
  Queued-copies lo [] q = absurd q
  Queued-copies lo (n ∷ ns) (inl (e, le)) = ground arith
  Queued-copies lo (n ∷ ns) (inr q) = omega (arith, Queued-copies lo ns q)

  pub copies-le-pending :
      (ts : List Thread) (i : ℕ) (t : Thread)
      → get_elem? ts i ≡ some t
      → copies p t.retired ≤ pending p ts
  unfolding pending
  copies-le-pending [] i t h = cc
  copies-le-pending (u ∷ ts) zero t h = let same : u ≡ t = cc in rw same (omega arith)
  copies-le-pending (u ∷ ts) (suc i) t h = omega (arith, copies-le-pending ts i t h)

  -- A walk frees what it does not keep.
  pub copies-gc_walk :
      (safe : ℕ) (ns : List Node) (count : ℕ)
      → copies p (gc_walk safe ns count).kept + times p (gc_walk safe ns count).freed ≡ copies p ns
  unfolding gc_walk
  copies-gc_walk safe [] count = omega arith
  copies-gc_walk safe (n ∷ ns) count = elim (Bool-cases (ltb n.retire_epoch safe)) [
    | inl t ↦ rw t (omega (arith, copies-gc_walk safe ns (u64 (count + 2 ^ 64 - 1))))
    | inr f ↦ rw f (omega (arith, copies-gc_walk safe ns count))
  ]

  -- It keeps the nodes of the epoch `safe` and later.
  pub Queued-gc_walk :
      (safe lo : ℕ) (ns : List Node) (count : ℕ)
      → safe ≤ lo
      → Queued p lo ns
      → Queued p lo (gc_walk safe ns count).kept
  unfolding gc_walk
  Queued-gc_walk safe lo [] count le q = q
  Queued-gc_walk safe lo (n ∷ ns) count le q = elim (Bool-cases (ltb n.retire_epoch safe)) [
    | inl t ↦ rw t (
        dropped q (ltb→lt n.retire_epoch safe t)
          (Queued-gc_walk safe lo ns (u64 (count + 2 ^ 64 - 1)) le))
    | inr f ↦ rw f (kept _ q (Queued-gc_walk safe lo ns count le))
  ]
    where
      dropped :
          {P : Type 0} → Queued p lo (n ∷ ns) → n.retire_epoch < safe → (Queued p lo ns → P) → P
      dropped (inl (e, old)) lt next = absurd (omega arith)
      dropped (inr q) lt next = next q

      kept :
          (ms : List Node)
          → Queued p lo (n ∷ ns)
          → (Queued p lo ns → Queued p lo ms)
          → Queued p lo (n ∷ ms)
      kept ms (inl here) next = inl here
      kept ms (inr q) next = inr (next q)

-- All the nodes of a list are of epochs below `bound`.
abbrev pub Before : ℕ → List Node → Type 0
Before bound [] = Unit
Before bound (n ∷ ns) = (n.retire_epoch < bound) × Before bound ns

pub Before-le : (a b : ℕ) (ns : List Node) → a ≤ b → Before a ns → Before b ns
Before-le a b [] le h = h
Before-le a b (n ∷ ns) le (lt, h) = (omega arith, Before-le a b ns le h)

pub Before-gc_walk :
    (bound safe : ℕ) (ns : List Node) (count : ℕ)
    → Before bound ns
    → Before bound (gc_walk safe ns count).kept
unfolding gc_walk
Before-gc_walk bound safe [] count h = h
Before-gc_walk bound safe (n ∷ ns) count (lt, h) = elim (Bool-cases (ltb n.retire_epoch safe)) [
  | inl t ↦ rw t (Before-gc_walk bound safe ns (u64 (count + 2 ^ 64 - 1)) h)
  | inr f ↦ rw f (lt, Before-gc_walk bound safe ns count h)
]

-- The minimum is no larger than where it starts, nor than a quiescent epoch that is set.
pub min_from-le : (mn : ℕ) (ts : List Thread) → min_from mn ts ≤ mn
unfolding min_from
min_from-le mn [] = omega arith
min_from-le mn (t ∷ ts) =
    ground (arith, min_from-le mn ts, min_from-le t.quiescent ts, ltb→lt t.quiescent mn)

-- What the minimum becomes at a thread.
abbrev pub lower : ℕ → ℕ → ℕ
lower mn q = if q == 0 then mn else if ltb q mn then q else mn

lower-le : (mn q : ℕ) → 0 < q → lower mn q ≤ q
lower-le mn q p = ground arith

pub min_from-quiescent :
    (ts : List Thread) (n i : ℕ) (t : Thread) (mn : ℕ)
    → get_elem? ts i ≡ some t
    → i < n
    → 0 < t.quiescent
    → min_from mn (take n ts) ≤ t.quiescent
unfolding min_from
min_from-quiescent [] n i t mn at lt p = cc
min_from-quiescent (u ∷ ts) zero i t mn at lt p = absurd (omega arith)
min_from-quiescent (u ∷ ts) (suc n) zero t mn at lt p =
    let same : u ≡ t = cc in
    rw same
      (omega (arith, min_from-le (lower mn t.quiescent) (take n ts), lower-le mn t.quiescent p))
min_from-quiescent (u ∷ ts) (suc n) (suc i) t mn at lt p =
    min_from-quiescent ts n i t (lower mn u.quiescent) at (omega arith) p
