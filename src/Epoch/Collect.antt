-- ===== src/Epoch/Collect.antt =====
-- A collection of epoch.c frees only what no thread holds.
use alcove.Base.{
  ℕ, ◌<◌, ◌≤◌, ◌≡◌, refl, List, [], some, true, false, arith, ◌==◌, get_elem?, set,
  get_elem?_within, inl, inr, ◌⊎◌, Bool-cases, ltb, Returns,
}
use alcove.Epoch.{
  Thread, Epoch, Walk, gc_walk, epoch_min_quiescent, uint64_max, epoch_max_threads, epoch_gc,
}
use alcove.Epoch.Nodes.{
  times, pending, Waits, Before-gc_walk, Queued-gc_walk, copies-gc_walk, Queued-copies,
  copies-le-pending, pending-set, min_from-quiescent,
}
use alcove.Epoch.World.{World, IsValid, Safe, Waits-set}
use alcove.Epoch.Change.{Change, Change-Safe}

pub Waits-pending : (p lo : ℕ) (ts : List Thread) → Waits p lo ts → 1 ≤ pending p ts
Waits-pending p lo ts w = omega (
  arith,
  copies-le-pending p ts w.owner w.thread w.at,
  Queued-copies p lo w.thread.retired w.queued,
)

-- The minimum is no larger than the quiescent epoch of a registered thread.
pub min_quiescent-le :
    (e : Epoch) (i : ℕ) (t : Thread)
    → IsValid e
    → get_elem? e.threads i ≡ some t
    → i < e.nthreads
    → epoch_min_quiescent e ≤ t.quiescent
unfolding epoch_min_quiescent
min_quiescent-le e i t v at lt =
    let some_thread : (e.nthreads == 0) ≡ false = ground arith in
    let few : ltb epoch_max_threads e.nthreads ≡ false = ground (arith, v.counted) in
    rw (few, some_thread)
      (min_from-quiescent e.threads e.nthreads i t uint64_max at lt (v.quiet i t at lt).0)

-- What a collection does to the pointers it frees: each is freed once, is in no list any more and
-- not outside, and no thread holds it.
pub record Released (w : World) (e' : Epoch) (freed : List ℕ) (p : ℕ) : Type 0 where
  pub once : times p freed ≡ 1
  pub unlisted : pending p e'.threads ≡ 0
  pub inside : w.outside p ≡ false
  pub unheld : (k : ℕ) → w.holds k p ≡ false

abbrev pub Collected : World → List ℕ × Epoch → Type 0
Collected w r = Safe (record w { epoch = r.1 }) × ((p : ℕ) → 0 < times p r.0 → Released w r.1 r.0 p)

module _ (w : World) (s : Safe w) (i : ℕ) (lt : i < w.epoch.nthreads) (t : Thread)
    (at : get_elem? w.epoch.threads i ≡ some t) where
  abbrev walk : Walk
  walk = gc_walk (epoch_min_quiescent w.epoch) t.retired t.retire_count

  abbrev swept : Thread
  swept = record t { retired = walk.kept; retire_count = walk.count }

  abbrev after_gc : World
  after_gc = record w { epoch = record w.epoch { threads = set w.epoch.threads i swept } }

  gc-Change : Change w after_gc i t swept
  gc-Change = record {
    at = at;
    threads = refl;
    later = omega arith;
    bounded = s.valid.bounded;
    more = omega arith;
    counted = s.valid.counted;
    others = λ j l ne. l;
    known = lt;
    quiet = s.valid.quiet i t at lt;
    early =
        Before-gc_walk w.epoch.global (epoch_min_quiescent w.epoch) t.retired t.retire_count
          (s.valid.early i t at);
    single =
        λ p. omega (arith, copies-gc_walk p (epoch_min_quiescent w.epoch) t.retired t.retire_count);
    holds = λ k p h. h;
    same_view = λ p h. refl;
    keeps = λ k p u at_k lt_k there. elim there [
      | inl out ↦ inl out
      | inr waits ↦ inr (
          Waits-set p u.quiescent w.epoch.threads i t swept at
            (Queued-gc_walk p (epoch_min_quiescent w.epoch) u.quiescent t.retired t.retire_count
              (min_quiescent-le w.epoch k u s.valid at_k lt_k))
            waits)
    ];
  }

  module _ (p : ℕ) (some_freed : 0 < times p walk.freed) where
    freed_once : (times p walk.freed ≡ 1) × (pending p after_gc.epoch.threads ≡ 0)
    freed_once =
        let walked = copies-gc_walk p (epoch_min_quiescent w.epoch) t.retired t.retire_count in
        let within = copies-le-pending p w.epoch.threads i t at in
        let total = pending-set p w.epoch.threads i swept t at in
        (omega (arith, s.single p), omega (arith, s.single p))

    freed_inside : w.outside p ≡ false
    freed_inside =
        let walked = copies-gc_walk p (epoch_min_quiescent w.epoch) t.retired t.retire_count in
        let within = copies-le-pending p w.epoch.threads i t at in ground (arith, s.single p)

    nowhere : {lo : ℕ} → (w.outside p ≡ true) ⊎ Waits p lo after_gc.epoch.threads → ⊥
    nowhere (inl out) = cc freed_inside
    nowhere {lo} (inr waits) =
        omega (arith, Waits-pending p lo after_gc.epoch.threads waits, freed_once.1)

    gc-Released : Released w after_gc.epoch walk.freed p
    gc-Released = record {
      once = freed_once.0;
      unlisted = freed_once.1;
      inside = freed_inside;
      unheld = λ k. elim (Bool-cases (w.holds k p)) [
        | inr f ↦ f
        | inl h ↦
            absurd (nowhere ((Change-Safe w after_gc i t swept s gc-Change).held k p h).where_is)
      ];
    }

-- A collection keeps the invariant, and frees only what no thread holds.
pub gc-Collected :
    (w : World) (i : ℕ)
    → Safe w
    → i < w.epoch.nthreads
    → Returns (epoch_gc (some i) w.epoch) (Collected w)
unfolding epoch_gc
gc-Collected w i s lt = elim (Bool-cases (epoch_min_quiescent w.epoch == uint64_max)) [
  | inl none_safe ↦ (([], w.epoch), rw none_safe, (s, λ p h. absurd (omega arith)))
  | inr some_safe ↦
      let (t, at) =
        get_elem?_within w.epoch.threads i (omega (arith, s.valid.sized, s.valid.counted)) in
      (
        ((walk w s i lt t at).freed, (after_gc w s i lt t at).epoch),
        simp (some_safe, at),
        (
          Change-Safe w (after_gc w s i lt t at) i t (swept w s i lt t at) s
              (gc-Change w s i lt t at),
          gc-Released w s i lt t at,
        ),
      )
]
