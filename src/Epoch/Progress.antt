-- ===== src/Epoch/Progress.antt =====
-- A collection frees everything once all threads have been at a quiescent point.
use alcove.Base.{
  ℕ, zero, suc, ◌+◌, ◌-◌, ◌^◌, ◌<◌, ◌≤◌, ◌≡◌, refl, ap, List, [], ◌∷◌, some, false, arith, ◌==◌,
  get_elem?, set, take, get_elem?-lt, get_elem?_within, get_elem?-set_self, ltb, lt→ltb, u64,
  Returns,
}
use alcove.Epoch.{
  Node, Thread, Epoch, gc_walk, min_from, epoch_min_quiescent, uint64_max, epoch_max_threads,
  epoch_gc, pointers,
}
use alcove.Epoch.Nodes.{Before, lower}
use alcove.Epoch.World.{IsValid}
use alcove.Epoch.Collect.{min_quiescent-le}

gc_walk-Before :
    (safe bound : ℕ) (ns : List Node) (count : ℕ)
    → bound ≤ safe
    → Before bound ns
    → ((gc_walk safe ns count).kept ≡ []) × ((gc_walk safe ns count).freed ≡ pointers ns)
unfolding gc_walk pointers
gc_walk-Before safe bound [] count le h = (refl, refl)
gc_walk-Before safe bound (n ∷ ns) count le (lt, h) =
    let old = lt→ltb n.retire_epoch safe (omega arith) in
    let (a, b) = gc_walk-Before safe bound ns (u64 (count + 2 ^ 64 - 1)) le h in
    rw old (a, ap (◌∷◌ n.ptr) b)

lower-ge : (mn q g : ℕ) → g ≤ mn → g ≤ q → g ≤ lower mn q
lower-ge mn q g a b = ground arith

min_from-ge :
    (ts : List Thread) (n g mn : ℕ)
    → g ≤ mn
    → ((j : ℕ) (t : Thread) → get_elem? ts j ≡ some t → j < n → g ≤ t.quiescent)
    → g ≤ min_from mn (take n ts)
unfolding min_from
min_from-ge [] zero g mn le h = le
min_from-ge [] (suc n) g mn le h = le
min_from-ge (t ∷ ts) zero g mn le h = le
min_from-ge (t ∷ ts) (suc n) g mn le h =
    min_from-ge ts n g (lower mn t.quiescent)
      (lower-ge mn t.quiescent g le (h 0 t refl (omega arith)))
      (λ j u at lt. h (suc j) u at (omega arith))

least :
    (e : Epoch) (i : ℕ)
    → IsValid e
    → i < e.nthreads
    → e.global < uint64_max
    → ((j : ℕ) (t : Thread)
        → get_elem? e.threads j ≡ some t
        → j < e.nthreads
        → t.quiescent ≡ e.global)
    → e.global ≤ epoch_min_quiescent e
unfolding epoch_min_quiescent
least e i v lt room ticked =
    let some_thread : (e.nthreads == 0) ≡ false = ground arith in
    let few : ltb epoch_max_threads e.nthreads ≡ false = ground (arith, v.counted) in
    rw (few, some_thread)
      (min_from-ge e.threads e.nthreads e.global uint64_max (omega arith)
        (λ j t at l. omega (arith, ticked j t at l)))

-- Once every registered thread has ticked since the last retirement, a collection by a registered
-- thread empties its retire list and frees the pointers of the list in order; the state is well
-- formed, and the epoch counter below its largest value.
pub epoch_gc-frees_all :
    (e : Epoch) (i : ℕ)
    → IsValid e
    → i < e.nthreads
    → e.global < uint64_max
    → ((j : ℕ) (t : Thread)
        → get_elem? e.threads j ≡ some t
        → j < e.nthreads
        → t.quiescent ≡ e.global)
    → Returns (epoch_gc (some i) e) λ r.
      (t u : Thread) × (get_elem? e.threads i ≡ some t)
      × (get_elem? r.1.threads i ≡ some u)
      × (u.retired ≡ [])
      × (r.0 ≡ pointers t.retired)
unfolding epoch_gc
epoch_gc-frees_all e i v lt room ticked =
    let (t, at) = get_elem?_within e.threads i (omega (arith, v.sized, v.counted)) in go t at
  where
    go :
        (t : Thread)
        → get_elem? e.threads i ≡ some t
        → Returns (epoch_gc (some i) e) λ r.
          (t u : Thread) × (get_elem? e.threads i ≡ some t)
          × (get_elem? r.1.threads i ≡ some u)
          × (u.retired ≡ [])
          × (r.0 ≡ pointers t.retired)
    go t at =
        let most = min_quiescent-le e i t v at lt in
        let usable : (epoch_min_quiescent e == uint64_max) ≡ false =
          ground (arith, ticked i t at lt) in
        let (emptied, freed) =
          gc_walk-Before (epoch_min_quiescent e) e.global t.retired t.retire_count
            (least e i v lt room ticked) (v.early i t at) in
        let w = gc_walk (epoch_min_quiescent e) t.retired t.retire_count in
        let u : Thread = record t { retired = w.kept; retire_count = w.count } in
        (
          (w.freed, record e { threads = set e.threads i u }),
          simp (usable, at),
          (
            t,
            u,
            at,
            get_elem?-set_self e.threads i u (get_elem?-lt e.threads i t at),
            emptied,
            freed,
          ),
        )
