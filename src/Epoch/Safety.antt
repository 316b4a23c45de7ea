-- ===== src/Epoch/Safety.antt =====
-- No thread holds a pointer that is freed, whatever the order of steps.
use alcove.Base.{
  ℕ, zero, suc, ◌+◌, ◌<◌, ◌≤◌, ◌≡◌, refl, ap, some, true, arith, ◌==◌, ◌&&◌, get_elem?, replicate,
  get_elem?_within, ℕ_discrete, inl, inr, ◌⊎◌, Bool-cases, Returns,
}
use alcove.Epoch.{Thread, initial, unregistered, epoch_gc}
use alcove.Epoch.Nodes.{times, pending, Waits}
use alcove.Epoch.World.{
  World, Step, registers, allocates, loads, retires, ticks, collects, Reachable, starts, steps,
  start, bit, IsValid, Safe,
}
use alcove.Epoch.Collect.{Waits-pending, Released, gc-Collected}
use alcove.Epoch.Moves.{tick-Collected, retire-Safe}
use alcove.Epoch.Register.{register-Safe}

Step-Safe : (w w' : World) → Safe w → Step w w' → Safe w'
Step-Safe w w' s (registers i e' run) = register-Safe w i e' s run
Step-Safe w w' s (allocates p fresh unlisted) = record {
  valid = s.valid;
  single = λ q. elim (ℕ_discrete q p) [
    | yes e ↦ rw e (ground (arith, unlisted))
    | no ne ↦ ground (arith, s.single q)
  ];
  held = λ k q h.
      let before = s.held k q h in
      record {
        thread = before.thread;
        at = before.at;
        known = before.known;
        where_is = elim (before.where_is) [ inl out ↦ inl (ground arith) | inr waits ↦ inr waits ];
      };
}
Step-Safe w w' s (loads i p lt out) = record {
  valid = s.valid;
  single = s.single;
  held = λ k q h. elim (Bool-cases (k == i && q == p)) [
    | inr other ↦ s.held k q (rw other at h)
    | inl this ↦
        let (t, at) =
          get_elem?_within w.epoch.threads i (omega (arith, s.valid.sized, s.valid.counted)) in
        let same_k : k ≡ i = ground arith in
        let same_q : q ≡ p = ground arith in
        rw (same_k, same_q) (record { thread = t; at = at; known = lt; where_is = inl out })
  ];
}
Step-Safe w w' s (retires i p ok freed e' lt out room run) =
    let (r, run', safe) = retire-Safe w i p ok s lt out room in
    let same : r ≡ (freed, e') = cc in rw same at safe
Step-Safe w w' s (ticks i freed e' lt run) =
    let (r, run', (safe, _)) = tick-Collected w i s lt in
    let same : r ≡ (freed, e') = cc in rw same at safe
Step-Safe w w' s (collects i freed e' lt run) =
    let (r, run', (safe, _)) = gc-Collected w i s lt in
    let same : r ≡ (freed, e') = cc in rw same at safe

in_replicate {ℓ} :
    {A : Type ℓ} (n : ℕ) (a : A) (j : ℕ) (b : A) → get_elem? (replicate n a) j ≡ some b → b ≡ a
in_replicate zero a j b at = cc
in_replicate (suc n) a zero b at = cc
in_replicate (suc n) a (suc j) b at = in_replicate n a j b at

none_pending : (n p : ℕ) → pending p (replicate n unregistered) ≡ 0
unfolding pending
none_pending zero p = refl
none_pending (suc n) p = omega (arith, none_pending n p)

pub start-IsValid : IsValid initial
start-IsValid = record {
  sized = refl;
  counted = omega arith;
  started = omega arith;
  bounded = omega arith;
  quiet = λ j t at lt. absurd (omega arith);
  idle = λ j t at le. ap (λ (u : Thread). u.retired) (in_replicate 64 unregistered j t at);
  early = λ j t at. rw (ap (λ (u : Thread). u.retired) (in_replicate 64 unregistered j t at)) tt;
}

start-Safe : Safe start
start-Safe = record {
  valid = start-IsValid;
  single = λ p. rw (none_pending 64 p) (omega arith);
  held = λ i p h. cc;
}

pub Reachable-Safe : (w : World) → Reachable w → Safe w
Reachable-Safe w starts = start-Safe
Reachable-Safe w' (steps {w} r st) = Step-Safe w w' (Reachable-Safe w r) st

-- In a state that threads reach by registering, allocating, loading, retiring, ticking and
-- collecting in any order, a pointer that a thread has loaded since its last tick is still
-- allocated: it is outside, or waits in exactly one retire list.
pub held-allocated :
    (w : World) (i p : ℕ)
    → Reachable w
    → w.holds i p ≡ true
    → pending p w.epoch.threads + bit (w.outside p) ≡ 1
held-allocated w i p r h =
    let s = Reachable-Safe w r in
    let held = s.held i p h in omega (arith, s.single p, one_at_least held.where_is)
  where
    one_at_least :
        {lo : ℕ}
        → (w.outside p ≡ true) ⊎ Waits p lo w.epoch.threads
        → 1 ≤ pending p w.epoch.threads + bit (w.outside p)
    one_at_least (inl out) = rw out (omega arith)
    one_at_least {lo} (inr waits) = omega (arith, Waits-pending p lo w.epoch.threads waits)

-- In a state that threads reach by registering, allocating, loading, retiring, ticking and
-- collecting in any order, a collection by a registered thread returns; each pointer that it
-- frees it frees once, and no thread holds it and no retire list has it any more.
pub epoch_gc-Released :
    (w : World) (i : ℕ)
    → Reachable w
    → i < w.epoch.nthreads
    → Returns (epoch_gc (some i) w.epoch) λ r. (p : ℕ) → 0 < times p r.0 → Released w r.1 r.0 p
epoch_gc-Released w i r lt =
    let (a, run, (safe, released)) = gc-Collected w i (Reachable-Safe w r) lt in (a, run, released)
