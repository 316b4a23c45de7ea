-- ===== src/Epoch/Change.antt =====
-- A step that changes one thread keeps the invariant.
use alcove.Base.{
  ℕ, ◌+◌, ◌^◌, ◌<◌, ◌≤◌, ◌≡◌, ◌≢◌, sym, ap, ◌∙◌, some, true, arith, get_elem?, set, length-set,
  get_elem?-lt, get_elem?-set_self, get_elem?-set_ne, ℕ_discrete, ◌⊎◌,
}
use alcove.Epoch.{Thread}
use alcove.Epoch.Nodes.{copies, pending-set, Waits, Before, Before-le}
use alcove.Epoch.World.{World, bit, IsValid, Held, Safe}

-- The new thread `t'` at `i`, with the global epoch, the number of threads and the ghosts after.
pub record Change (w w' : World) (i : ℕ) (t t' : Thread) : Type 0 where
  pub at : get_elem? w.epoch.threads i ≡ some t
  pub threads : w'.epoch.threads ≡ set w.epoch.threads i t'
  pub later : w.epoch.global ≤ w'.epoch.global
  pub bounded : w'.epoch.global < 2 ^ 64
  pub more : w.epoch.nthreads ≤ w'.epoch.nthreads
  pub counted : w'.epoch.nthreads ≤ 64
  pub others : (j : ℕ) → j < w'.epoch.nthreads → j ≢ i → j < w.epoch.nthreads
  pub known : i < w'.epoch.nthreads
  pub quiet : (0 < t'.quiescent) × (t'.quiescent ≤ w'.epoch.global)
  pub early : Before w'.epoch.global t'.retired
  pub single :
      (p : ℕ) → copies p t'.retired + bit (w'.outside p) ≤ copies p t.retired + bit (w.outside p)
  pub holds : (k p : ℕ) → w'.holds k p ≡ true → w.holds k p ≡ true
  pub same_view : (p : ℕ) → w'.holds i p ≡ true → t'.quiescent ≡ t.quiescent
  -- What a thread held at the quiescent epoch `q` is still there.
  pub keeps :
      (k p : ℕ) (u : Thread)
      → get_elem? w.epoch.threads k ≡ some u
      → k < w.epoch.nthreads
      → (w.outside p ≡ true) ⊎ Waits p u.quiescent w.epoch.threads
      → (w'.outside p ≡ true) ⊎ Waits p u.quiescent w'.epoch.threads

module _ (w w' : World) (i : ℕ) (t t' : Thread) (s : Safe w) (c : Change w w' i t t') where
  at_self : get_elem? w'.epoch.threads i ≡ some t'
  at_self =
      rw c.threads (get_elem?-set_self w.epoch.threads i t' (get_elem?-lt w.epoch.threads i t c.at))

  -- A thread after the step is the changed one, or it was there before.
  by_thread {ℓ} :
      {P : Type ℓ} (j : ℕ) (u : Thread)
      → get_elem? w'.epoch.threads j ≡ some u
      → (j ≡ i → u ≡ t' → P)
      → (j ≢ i → get_elem? w.epoch.threads j ≡ some u → P)
      → P
  by_thread j u at self other = elim (ℕ_discrete i j) [
    | yes e ↦ self (sym e) (cc (ap (get_elem? w'.epoch.threads) e, at_self))
    | no ne ↦
        other (λ e. ne (sym e)) (sym (get_elem?-set_ne w.epoch.threads t' ne) ∙ rw c.threads at at)
  ]

  Change-IsValid : IsValid w'.epoch
  Change-IsValid = record {
    sized = rw (c.threads, length-set) s.valid.sized;
    counted = c.counted;
    started = omega (arith, s.valid.started, c.later);
    bounded = c.bounded;
    quiet = λ j u at lt.
        by_thread j u at (λ e is. rw is c.quiet)
          (λ ne at'.
            let (a, b) = s.valid.quiet j u at' (c.others j lt ne) in (a, omega (arith, c.later)));
    idle = λ j u at le.
        by_thread j u at (λ e is. absurd (omega (arith, c.known)))
          (λ ne at'. s.valid.idle j u at' (omega (arith, c.more)));
    early = λ j u at.
        by_thread j u at (λ e is. rw is c.early)
          (λ ne at'.
            Before-le w.epoch.global w'.epoch.global u.retired c.later (s.valid.early j u at'));
  }

  Change-Held : (k p : ℕ) → w'.holds k p ≡ true → Held w'.epoch w'.outside k p
  Change-Held k p h = elim (ℕ_discrete i k) [
    | yes e ↦
        let u_is : before.thread ≡ t = cc (ap (get_elem? w.epoch.threads) e, c.at, before.at) in
        let same : before.thread.quiescent ≡ t'.quiescent =
          ap (λ (u : Thread). u.quiescent) u_is ∙ sym (c.same_view p (rw e h)) in
        record {
          thread = t';
          at = rw (← e) at_self;
          known = rw (← e) c.known;
          where_is = rw same at (c.keeps k p before.thread before.at before.known before.where_is);
        }
    | no ne ↦ record {
      thread = before.thread;
      at = rw c.threads (get_elem?-set_ne w.epoch.threads t' ne ∙ before.at);
      known = omega (arith, before.known, c.more);
      where_is = c.keeps k p before.thread before.at before.known before.where_is;
    }
  ]
    where
      before : Held w.epoch w.outside k p
      before = s.held k p (c.holds k p h)

  pub Change-Safe : Safe w'
  Change-Safe = record {
    valid = Change-IsValid;
    single = λ p.
        rw c.threads
          (omega (arith, pending-set p w.epoch.threads i t' t c.at, c.single p, s.single p));
    held = Change-Held;
  }
