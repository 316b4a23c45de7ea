-- ===== src/Epoch/Moves.antt =====
-- What a tick and a retirement do to the invariant.
use alcove.Base.{
  ℕ, suc, ◌+◌, ◌^◌, ◌<◌, ◌≡◌, refl, sym, ap, ◌∙◌, List, [], ◌∷◌, some, Bool, true, false, arith,
  if◌then◌else◌, get_elem?, set, get_elem?-lt, get_elem?_within, get_elem?-set_self, ℕ_discrete,
  inl, inr, Bool-cases, leb, u64, ◌>>=◌, Returns,
}
use native.Mathlib.Nat.{mod-eq_of_lt}
use alcove.Epoch.{
  Thread, epoch_gc_threshold, epoch_gc, epoch_tick, epoch_update_quiescent, epoch_retire,
}
use alcove.Epoch.Nodes.{Waits, Before-le}
use alcove.Epoch.World.{World, Safe, Waits-set, let_go, put}
use alcove.Epoch.Change.{Change-Safe}
use alcove.Epoch.Collect.{Collected, gc-Collected}

Waits-grow :
    (p lo : ℕ) (ts : List Thread) (i : ℕ) (t : Thread) (q : ℕ)
    → get_elem? ts i ≡ some t
    → Waits p lo ts
    → Waits p lo (set ts i (record t { quiescent = q }))
Waits-grow p lo ts i t q at w = Waits-set p lo ts i t (record t { quiescent = q }) at (λ h. h) w

module _ (w : World) (s : Safe w) (i : ℕ) (lt : i < w.epoch.nthreads) (t : Thread)
    (at : get_elem? w.epoch.threads i ≡ some t) where
  -- At a quiescent point the thread lets go of what it holds.
  abbrev quiet : World
  quiet = record w {
    epoch = record w.epoch {
      threads = set w.epoch.threads i (record t { quiescent = w.epoch.global });
    };
    holds = let_go w.holds i;
  }

  quiet-Safe : Safe quiet
  quiet-Safe =
      Change-Safe w quiet i t (record t { quiescent = w.epoch.global }) s
        record {
          at = at;
          threads = refl;
          later = omega arith;
          bounded = s.valid.bounded;
          more = omega arith;
          counted = s.valid.counted;
          others = λ j l ne. l;
          known = lt;
          quiet = (
            omega (arith, (s.valid.quiet i t at lt).0, (s.valid.quiet i t at lt).1),
            omega arith,
          );
          early = s.valid.early i t at;
          single = λ p. omega arith;
          holds = λ k p h. ground arith;
          same_view = λ p h. absurd (ground arith);
          keeps = λ k p u at_k lt_k there. elim there [
            | inl out ↦ inl out
            | inr waits ↦ inr (Waits-grow p u.quiescent w.epoch.threads i t w.epoch.global at waits)
          ];
        }

  module _ (p : ℕ) (out : w.outside p ≡ true) (room : w.epoch.global + 1 < 2 ^ 64) where
    abbrev queue : Thread
    queue = record t {
      retired = record { ptr = p; retire_epoch = w.epoch.global } ∷ t.retired;
      retire_count = u64 (t.retire_count + 1);
    }

    abbrev retired : World
    retired = record w {
      epoch = record w.epoch {
        global = u64 (w.epoch.global + 1);
        threads = set w.epoch.threads i queue;
      };
      outside = put w.outside p false;
    }

    bumped : u64 (w.epoch.global + 1) ≡ w.epoch.global + 1
    bumped = mod-eq_of_lt room

    retired-Safe : Safe retired
    retired-Safe = Change-Safe w retired i t queue s record {
      at = at;
      threads = refl;
      later = rw bumped (omega arith);
      bounded = rw bumped room;
      more = omega arith;
      counted = s.valid.counted;
      others = λ j l ne. l;
      known = lt;
      quiet = ((s.valid.quiet i t at lt).0, rw bumped (omega (arith, (s.valid.quiet i t at lt).1)));
      early = (
        rw bumped (omega arith),
        Before-le w.epoch.global (u64 (w.epoch.global + 1)) t.retired (rw bumped (omega arith))
            (s.valid.early i t at),
      );
      single = λ q. ground (arith, ap w.outside);
      holds = λ k q h. h;
      same_view = λ q h. refl;
      keeps = λ k q u at_k lt_k there. elim there [
        | inl out_q ↦ elim (ℕ_discrete q p) [
          | yes e ↦ inr record {
            owner = i;
            thread = queue;
            at = get_elem?-set_self w.epoch.threads i queue (get_elem?-lt w.epoch.threads i t at);
            queued = inl (sym e, (s.valid.quiet k u at_k lt_k).1);
          }
          | no ne ↦ inl (ground arith)
        ]
        | inr waits ↦ inr (Waits-set q u.quiescent w.epoch.threads i t queue at (λ h. inr h) waits)
      ];
    }

-- A node that cannot be allocated moves the counter only.
leak-Safe :
    (w : World)
    → Safe w
    → w.epoch.global + 1 < 2 ^ 64
    → Safe (record w { epoch = record w.epoch { global = u64 (w.epoch.global + 1) } })
leak-Safe w s room =
    let bump : u64 (w.epoch.global + 1) ≡ w.epoch.global + 1 = mod-eq_of_lt room in
    record {
      valid = record {
        sized = s.valid.sized;
        counted = s.valid.counted;
        started = rw bump (omega arith);
        bounded = rw bump room;
        quiet =
            λ j t at lt. let (a, b) = s.valid.quiet j t at lt in (a, rw bump (omega (arith, b)));
        idle = s.valid.idle;
        early = λ j t at.
            Before-le w.epoch.global (u64 (w.epoch.global + 1)) t.retired (rw bump (omega arith))
              (s.valid.early j t at);
      };
      single = s.single;
      held = λ k p h.
          let before = s.held k p h in
          record {
            thread = before.thread;
            at = before.at;
            known = before.known;
            where_is = before.where_is;
          };
    }

tick-gc :
    (w : World) (i : ℕ) (s : Safe w) (lt : i < w.epoch.nthreads) (t : Thread)
    (at : get_elem? w.epoch.threads i ≡ some t)
    → leb epoch_gc_threshold t.retire_count ≡ true
    → epoch_tick (some i) w.epoch ≡ epoch_gc (some i) (quiet w s i lt t at).epoch
unfolding epoch_tick epoch_update_quiescent
tick-gc w i s lt t at many =
    let now =
      get_elem?-set_self w.epoch.threads i (record t { quiescent = w.epoch.global })
        (get_elem?-lt w.epoch.threads i t at) in
    simp (at, now, ◌>>=◌, many)

tick_at :
    (w : World) (i : ℕ) (s : Safe w) (lt : i < w.epoch.nthreads) (t : Thread)
    → get_elem? w.epoch.threads i ≡ some t
    → Returns (epoch_tick (some i) w.epoch) (Collected (record w { holds = let_go w.holds i }))
unfolding epoch_tick epoch_update_quiescent
tick_at w i s lt t at =
    let now =
      get_elem?-set_self w.epoch.threads i (record t { quiescent = w.epoch.global })
        (get_elem?-lt w.epoch.threads i t at) in
    let safe = quiet-Safe w s i lt t at in
    elim (Bool-cases (leb epoch_gc_threshold t.retire_count)) [
      | inr few ↦ (
        ([], (quiet w s i lt t at).epoch),
        simp (at, now, ◌>>=◌, few),
        (safe, λ p h. absurd (omega arith)),
      )
      | inl many ↦
          let (r, run, (safe', released)) = gc-Collected (quiet w s i lt t at) i safe lt in
          (
            r,
            tick-gc w i s lt t at many ∙ run,
            (
              safe',
              λ p h.
                  let q = released p h in
                  record {
                    once = q.once;
                    unlisted = q.unlisted;
                    inside = q.inside;
                    unheld = q.unheld;
                  },
            ),
          )
    ]

-- A tick keeps the invariant, and what it frees no thread holds once the caller has let go.
pub tick-Collected :
    (w : World) (i : ℕ)
    → Safe w
    → i < w.epoch.nthreads
    → Returns (epoch_tick (some i) w.epoch) (Collected (record w { holds = let_go w.holds i }))
tick-Collected w i s lt =
    let (t, at) =
      get_elem?_within w.epoch.threads i (omega (arith, s.valid.sized, s.valid.counted)) in
    tick_at w i s lt t at

pub retire-Safe :
    (w : World) (i p : ℕ) (ok : Bool)
    → Safe w
    → i < w.epoch.nthreads
    → w.outside (suc p) ≡ true
    → w.epoch.global + 1 < 2 ^ 64
    → Returns (epoch_retire (some i) (suc p) ok w.epoch) λ r.
      Safe
        (record w { epoch = r.1; outside = if ok then put w.outside (suc p) false else w.outside })
unfolding epoch_retire
retire-Safe w i p true s lt out room =
    let (t, at) =
      get_elem?_within w.epoch.threads i (omega (arith, s.valid.sized, s.valid.counted)) in
    (
      ([], (retired w s i lt t at (suc p) out room).epoch),
      simp at,
      retired-Safe w s i lt t at (suc p) out room,
    )
retire-Safe w i p false s lt out room =
    let e' = record w.epoch { global = u64 (w.epoch.global + 1) } in
    (([], e'), refl, leak-Safe w s room)
