-- ===== src/Epoch.antt =====
-- epoch.c: epoch-based reclamation. Each operation is one run of its code, with the pointers that it
-- hands to their freers; `none` is a fault.
pub mod Nodes
pub mod World
pub mod Change
pub mod Collect
pub mod Moves
pub mod Register
pub mod Safety
pub mod Progress
mod Tests
use alcove.Base.{
  ℕ, zero, suc, ◌+◌, ◌-◌, ◌^◌, List, [], ◌∷◌, Option, none, some, Bool, true, false, ltb, leb, ◌==◌,
  if◌then◌else◌, get_elem?, set, take, replicate, u64, ◌>>=◌,
}

-- `epoch_retire_t`; the list is the chain of `next`.
pub record Node : Type 0 where
  pub ptr : ℕ
  pub retire_epoch : ℕ

-- `epoch_thread_t`: a quiescent epoch of 0 is unregistered.
pub record Thread : Type 0 where
  pub quiescent : ℕ
  pub retired : List Node
  pub retire_count : ℕ

-- The three shared variables. `epoch_my_idx` is an argument of the operations, and `none` is -1.
pub record Epoch : Type 0 where
  pub global : ℕ
  pub nthreads : ℕ
  pub threads : List Thread

abbrev pub epoch_max_threads : ℕ
epoch_max_threads = 64

abbrev pub epoch_gc_threshold : ℕ
epoch_gc_threshold = 1024

abbrev pub uint64_max : ℕ
uint64_max = 2 ^ 64 - 1

abbrev pub unregistered : Thread
unregistered = record { quiescent = 0; retired = []; retire_count = 0 }

-- The variables at the start of the program.
abbrev pub initial : Epoch
initial = record { global = 1; nthreads = 0; threads = replicate epoch_max_threads unregistered }

unfoldable pub epoch_update_quiescent : Epoch → ℕ → Option Epoch
epoch_update_quiescent e idx = get_elem? e.threads idx >>= λ t.
    some (record e { threads = set e.threads idx (record t { quiescent = e.global }) })

-- The new index, or -1, with the state. The retire list of the slot is emptied.
unfoldable pub epoch_register : Option ℕ → Epoch → Option (Option ℕ × Epoch)
unfolding epoch_update_quiescent
epoch_register (some idx) e = some (some idx, e)
epoch_register none e =
    if leb epoch_max_threads e.nthreads
    then some (none, e)
    else epoch_update_quiescent (record e { nthreads = e.nthreads + 1 }) e.nthreads >>= λ e'.
        get_elem? e'.threads e.nthreads >>= λ t. some (
          some e.nthreads,
          record e' {
            threads = set e'.threads e.nthreads (record t { retired = []; retire_count = 0 });
          },
        )

-- The loop of `epoch_min_quiescent` over the threads left.
unfoldable pub min_from : ℕ → List Thread → ℕ
min_from mn [] = mn
min_from mn (t ∷ ts) =
    let q = t.quiescent in
    let mn' = if q == 0 then mn else if ltb q mn then q else mn in min_from mn' ts

unfoldable pub epoch_min_quiescent : Epoch → ℕ
unfolding min_from
epoch_min_quiescent e =
    let n = if ltb epoch_max_threads e.nthreads then epoch_max_threads else e.nthreads in
    if n == 0 then uint64_max else min_from uint64_max (take n e.threads)

-- What a walk over a retire list leaves: the list, its count, and the pointers freed in order.
pub record Walk : Type 0 where
  pub kept : List Node
  pub count : ℕ
  pub freed : List ℕ

-- The loop of `epoch_gc`.
unfoldable pub gc_walk : ℕ → List Node → ℕ → Walk
gc_walk safe [] count = record { kept = []; count = count; freed = [] }
gc_walk safe (cur ∷ rest) count =
    if ltb cur.retire_epoch safe
    then (let w = gc_walk safe rest (u64 (count + 2 ^ 64 - 1)) in
        record w { freed = cur.ptr ∷ w.freed })
    else let w = gc_walk safe rest count in record w { kept = cur ∷ w.kept }

unfoldable pub epoch_gc : Option ℕ → Epoch → Option (List ℕ × Epoch)
unfolding epoch_min_quiescent gc_walk
epoch_gc none e = some ([], e)
epoch_gc (some idx) e =
    let safe = epoch_min_quiescent e in
    if safe == uint64_max
    then some ([], e)
    else get_elem? e.threads idx >>= λ t.
        let w = gc_walk safe t.retired t.retire_count in
        some (
          w.freed,
          record e {
            threads = set e.threads idx (record t { retired = w.kept; retire_count = w.count });
          },
        )

unfoldable pub epoch_tick : Option ℕ → Epoch → Option (List ℕ × Epoch)
unfolding epoch_update_quiescent
epoch_tick none e = some ([], e)
epoch_tick (some idx) e = epoch_update_quiescent e idx >>= λ e'. get_elem? e'.threads idx >>= λ t.
    elim (leb epoch_gc_threshold t.retire_count) [
      | true ↦ epoch_gc (some idx) e'
      | false ↦ some ([], e')
    ]

-- `ok` says whether the allocation of the node succeeds.
unfoldable pub epoch_retire : Option ℕ → ℕ → Bool → Epoch → Option (List ℕ × Epoch)
epoch_retire me zero ok e = some ([], e)
epoch_retire none (suc p) ok e = some (suc p ∷ [], e)
epoch_retire (some idx) (suc p) ok e =
    let r = e.global in
    let e' = record e { global = u64 (r + 1) } in
    if ok
    then (get_elem? e'.threads idx >>= λ t.
        let node : Node = record { ptr = suc p; retire_epoch = r } in
        some (
          [],
          record e' {
            threads =
                set e'.threads idx (record t {
                  retired = node ∷ t.retired;
                  retire_count = u64 (t.retire_count + 1);
                });
          },
        ))
    else some ([], e')

-- The pointers of a retire list, in order.
unfoldable pub pointers : List Node → List ℕ
pointers [] = []
pointers (cur ∷ rest) = cur.ptr ∷ pointers rest

unfoldable pub epoch_drain_all : Option ℕ → Epoch → Option (List ℕ × Epoch)
unfolding pointers
epoch_drain_all none e = some ([], e)
epoch_drain_all (some idx) e = get_elem? e.threads idx >>= λ t. some (
  pointers t.retired,
  record e { threads = set e.threads idx (record t { retired = []; retire_count = 0 }) },
)
