-- ===== src/Epoch/Tests.antt =====
-- One thread registers, loads a pointer, and retires it.
use alcove.Base.{
  zero, suc, ap, ℕ, ◌+◌, ◌<◌, ◌≡◌, refl, List, [], ◌∷◌, some, true, false, arith, replicate,
  Returns, get_elem?,
}
use alcove.Epoch.{
  Node, Thread, Epoch, unregistered, epoch_register, epoch_update_quiescent, epoch_retire, epoch_gc,
  epoch_tick, pointers,
}
use alcove.Epoch.Nodes.{times, pending}
use alcove.Epoch.World.{
  World, registers, allocates, loads, retires, ticks, Reachable, starts, steps, start, bit, let_go,
  put, hold,
}
use alcove.Epoch.Collect.{Released}
use alcove.Epoch.Safety.{Reachable-Safe, held-allocated, epoch_gc-Released}
use alcove.Epoch.Progress.{epoch_gc-frees_all}

abbrev one_thread : ℕ → ℕ → List Node → ℕ → Epoch
one_thread g q retired count = record {
  global = g;
  nthreads = 1;
  threads =
      record { quiescent = q; retired = retired; retire_count = count } ∷ replicate 63 unregistered;
}

abbrev seven : List Node
seven = record { ptr = 7; retire_epoch = 1 } ∷ []

-- The thread has loaded the pointer 7 and retired it, in the epoch 1.
abbrev retired_seven : World
retired_seven = record {
  epoch = one_thread 2 1 seven 1;
  outside = put (put start.outside 7 true) 7 false;
  holds = hold (let_go start.holds 0) 0 7;
}

reach_retired : Reachable retired_seven
unfolding epoch_register epoch_update_quiescent epoch_retire pending
reach_retired =
    steps
      (steps (steps (steps starts (registers 0 (one_thread 1 1 [] 0) refl)) (allocates 7 refl refl))
        (loads 0 7 (omega arith) refl))
      (retires 0 6 true [] (one_thread 2 1 seven 1) (omega arith) refl (omega arith) refl)

-- Then it has ticked.
abbrev ticked_seven : World
ticked_seven = record retired_seven {
  epoch = one_thread 2 2 seven 1;
  holds = let_go retired_seven.holds 0;
}

reach_ticked : Reachable ticked_seven
unfolding epoch_tick epoch_update_quiescent
reach_ticked = steps reach_retired (ticks 0 [] (one_thread 2 2 seven 1) (omega arith) refl)

-- The pointer is freed after the tick, and not before.
freed_seven :
    (epoch_gc (some 0) retired_seven.epoch ≡ some ([], retired_seven.epoch))
    × (epoch_gc (some 0) ticked_seven.epoch ≡ some (7 ∷ [], one_thread 2 2 [] 0))
unfolding epoch_gc
freed_seven = (refl, refl)

held-allocated_example : pending 7 retired_seven.epoch.threads + bit (retired_seven.outside 7) ≡ 1
held-allocated_example = held-allocated retired_seven 0 7 reach_retired refl

epoch_gc-Released_example :
    Returns
      (epoch_gc (some 0) ticked_seven.epoch)
      λ r. (p : ℕ) → 0 < times p r.0 → Released ticked_seven r.1 r.0 p
epoch_gc-Released_example = epoch_gc-Released ticked_seven 0 reach_ticked (omega arith)

all_ticked :
    (j : ℕ) (t : Thread) → get_elem? ticked_seven.epoch.threads j ≡ some t → j < 1 → t.quiescent ≡ 2
all_ticked zero t at lt =
    let same : record { quiescent = 2; retired = seven; retire_count = 1 } ≡ t = cc in
    cc (ap (λ (u : Thread). u.quiescent) same)
all_ticked (suc j) t at lt = absurd (omega arith)

epoch_gc-frees_all_example : Returns (epoch_gc (some 0) ticked_seven.epoch) λ r.
    (t u : Thread) × (get_elem? ticked_seven.epoch.threads 0 ≡ some t)
    × (get_elem? r.1.threads 0 ≡ some u)
    × (u.retired ≡ [])
    × (r.0 ≡ pointers t.retired)
epoch_gc-frees_all_example =
    epoch_gc-frees_all ticked_seven.epoch 0 (Reachable-Safe ticked_seven reach_ticked).valid
      (omega arith) (omega arith) all_ticked
