-- ===== src/Epoch/Register.antt =====
-- What a registration does to the invariant.
use alcove.Base.{
  ℕ, zero, suc, ◌+◌, ◌≡◌, refl, ap, List, [], ◌∷◌, none, some, false, arith, get_elem?, set,
  get_elem?-lt, get_elem?_within, get_elem?-set_self, inl, inr, Bool-cases, leb,
}
use alcove.Epoch.{Thread, Epoch, epoch_max_threads, epoch_update_quiescent, epoch_register}
use alcove.Epoch.World.{World, Safe, Waits-set, let_go}
use alcove.Epoch.Change.{Change-Safe}

set-set {ℓ} : {A : Type ℓ} (xs : List A) (i : ℕ) (a b : A) → set (set xs i a) i b ≡ set xs i b
set-set [] i a b = refl
set-set (x ∷ xs) zero a b = refl
set-set (x ∷ xs) (suc i) a b = ap (◌∷◌ x) (set-set xs i a b)

module _ (w : World) (s : Safe w) (t : Thread)
    (at : get_elem? w.epoch.threads w.epoch.nthreads ≡ some t)
    (room : leb epoch_max_threads w.epoch.nthreads ≡ false) where
  abbrev n : ℕ
  n = w.epoch.nthreads

  abbrev fresh : Thread
  fresh = record { quiescent = w.epoch.global; retired = []; retire_count = 0 }

  abbrev registered : Epoch
  registered = record w.epoch {
    nthreads = n + 1;
    threads = set (set w.epoch.threads n (record t { quiescent = w.epoch.global })) n fresh;
  }

  register_run : epoch_register none w.epoch ≡ some (some n, registered)
  unfolding epoch_register epoch_update_quiescent
  register_run =
      let now =
        get_elem?-set_self w.epoch.threads n (record t { quiescent = w.epoch.global })
          (get_elem?-lt w.epoch.threads n t at) in
      simp (room, at, now)

  abbrev joined : World
  joined = record w { epoch = registered; holds = let_go w.holds n }

  joined-Safe : Safe joined
  joined-Safe =
      let once = set-set w.epoch.threads n (record t { quiescent = w.epoch.global }) fresh in
      Change-Safe w joined n t fresh s record {
        at = at;
        threads = once;
        later = omega arith;
        bounded = s.valid.bounded;
        more = omega arith;
        counted = ground (arith, s.valid.sized);
        others = λ j l ne. ground arith;
        known = omega arith;
        quiet = (s.valid.started, omega arith);
        early = tt;
        single = λ p. omega arith;
        holds = λ k p h. ground arith;
        same_view = λ p h. absurd (ground arith);
        keeps = λ k p u at_k lt_k there. elim there [
          | inl out ↦ inl out
          | inr waits ↦ inr (
              rw once (
                Waits-set p u.quiescent w.epoch.threads n t fresh at
                  (λ q. rw (s.valid.idle n t at (omega arith)) at q) waits))
        ];
      }

pub register-Safe :
    (w : World) (i : ℕ) (e' : Epoch)
    → Safe w
    → epoch_register none w.epoch ≡ some (some i, e')
    → Safe (record w { epoch = e'; holds = let_go w.holds i })
unfolding epoch_register
register-Safe w i e' s run = elim (Bool-cases (leb epoch_max_threads w.epoch.nthreads)) [
  | inl crowded ↦
      let none_left : epoch_register none w.epoch ≡ some (none, w.epoch) = simp crowded in cc
  | inr room ↦
      let (t, at) =
        get_elem?_within w.epoch.threads w.epoch.nthreads (ground (arith, s.valid.sized)) in
      let joins = register_run w s t at room in
      let same_i : i ≡ w.epoch.nthreads = cc in
      let same_e : e' ≡ registered w s t at room = cc in
      rw (same_i, same_e) (joined-Safe w s t at room)
]
