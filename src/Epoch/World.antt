-- ===== src/Epoch/World.antt =====
-- Threads that share pointers and retire them: every order of steps, one operation at a time.
use alcove.Base.{
  ℕ, suc, ◌+◌, ◌^◌, ◌<◌, ◌≤◌, ◌≡◌, ap, ◌∙◌, List, [], none, some, Bool, true, false, ◌==◌, ◌&&◌,
  if◌then◌else◌, get_elem?, set, length, get_elem?-lt, get_elem?-set_self, get_elem?-set_ne,
  ℕ_discrete, ◌⊎◌,
}
use alcove.Epoch.{Thread, Epoch, initial, epoch_register, epoch_tick, epoch_retire, epoch_gc}
use alcove.Epoch.Nodes.{Queued, pending, Waits, Before}

-- `outside p`: the pointer is allocated and in no retire list. `holds i p`: the thread `i` has
-- loaded the pointer since its last quiescent point.
pub record World : Type 0 where
  pub epoch : Epoch
  pub outside : ℕ → Bool
  pub holds : ℕ → ℕ → Bool

abbrev pub put : (ℕ → Bool) → ℕ → Bool → ℕ → Bool
put f p b q = if q == p then b else f q

abbrev pub hold : (ℕ → ℕ → Bool) → ℕ → ℕ → ℕ → ℕ → Bool
hold f i p k q = if k == i && q == p then true else f k q

abbrev pub let_go : (ℕ → ℕ → Bool) → ℕ → ℕ → ℕ → Bool
let_go f i k q = if k == i then false else f k q

-- One step of some thread. A thread that retires has made the pointer unreachable before; should the
-- node's allocation fail the pointer stays where it is. The epoch counter is not exhausted.
pub data Step (w : World) : World → Type 0 where
  registers :
      (i : ℕ) (e' : Epoch)
      → epoch_register none w.epoch ≡ some (some i, e')
      → Step w (record w { epoch = e'; holds = let_go w.holds i })
  allocates :
      (p : ℕ)
      → w.outside p ≡ false
      → pending p w.epoch.threads ≡ 0
      → Step w (record w { outside = put w.outside p true })
  loads :
      (i p : ℕ)
      → i < w.epoch.nthreads
      → w.outside p ≡ true
      → Step w (record w { holds = hold w.holds i p })
  retires :
      (i p : ℕ) (ok : Bool) (freed : List ℕ) (e' : Epoch)
      → i < w.epoch.nthreads
      → w.outside (suc p) ≡ true
      → w.epoch.global + 1 < 2 ^ 64
      → epoch_retire (some i) (suc p) ok w.epoch ≡ some (freed, e')
      → Step w
          (record w { epoch = e'; outside = if ok then put w.outside (suc p) false else w.outside })
  ticks :
      (i : ℕ) (freed : List ℕ) (e' : Epoch)
      → i < w.epoch.nthreads
      → epoch_tick (some i) w.epoch ≡ some (freed, e')
      → Step w (record w { epoch = e'; holds = let_go w.holds i })
  collects :
      (i : ℕ) (freed : List ℕ) (e' : Epoch)
      → i < w.epoch.nthreads
      → epoch_gc (some i) w.epoch ≡ some (freed, e')
      → Step w (record w { epoch = e' })

abbrev pub start : World
start = record { epoch = initial; outside = λ p. false; holds = λ i p. false }

pub data Reachable : World → Type 0 where
  starts : Reachable start
  steps : {w w' : World} → Reachable w → Step w w' → Reachable w'

abbrev pub bit : Bool → ℕ
bit true = 1
bit false = 0

pub record IsValid (e : Epoch) : Type 0 where
  pub sized : length e.threads ≡ 64
  pub counted : e.nthreads ≤ 64
  pub started : 0 < e.global
  pub bounded : e.global < 2 ^ 64
  pub quiet :
      (j : ℕ) (t : Thread)
      → get_elem? e.threads j ≡ some t
      → j < e.nthreads
      → (0 < t.quiescent) × (t.quiescent ≤ e.global)
  pub idle : (j : ℕ) (t : Thread) → get_elem? e.threads j ≡ some t → e.nthreads ≤ j → t.retired ≡ []
  pub early : (j : ℕ) (t : Thread) → get_elem? e.threads j ≡ some t → Before e.global t.retired

-- The thread `i` may use `p`: the pointer is outside, or waits in a node of an epoch that is not
-- before the thread's quiescent epoch.
pub record Held (e : Epoch) (outside : ℕ → Bool) (i p : ℕ) : Type 0 where
  pub thread : Thread
  pub at : get_elem? e.threads i ≡ some thread
  pub known : i < e.nthreads
  pub where_is : (outside p ≡ true) ⊎ Waits p thread.quiescent e.threads

pub record Safe (w : World) : Type 0 where
  pub valid : IsValid w.epoch
  pub single : (p : ℕ) → pending p w.epoch.threads + bit (w.outside p) ≤ 1
  pub held : (i p : ℕ) → w.holds i p ≡ true → Held w.epoch w.outside i p

pub Waits-set :
    (p lo : ℕ) (ts : List Thread) (i : ℕ) (t t' : Thread)
    → get_elem? ts i ≡ some t
    → (Queued p lo t.retired → Queued p lo t'.retired)
    → Waits p lo ts
    → Waits p lo (set ts i t')
Waits-set p lo ts i t t' at keeps w = elim (ℕ_discrete i w.owner) [
  | yes e ↦
      let same : w.thread ≡ t = cc (ap (get_elem? ts) e, w.at, at) in
      record {
        owner = i;
        thread = t';
        at = get_elem?-set_self ts i t' (get_elem?-lt ts i t at);
        queued = keeps (rw same at (w.queued));
      }
  | no ne ↦ record {
    owner = w.owner;
    thread = w.thread;
    at = get_elem?-set_ne ts t' ne ∙ w.at;
    queued = w.queued;
  }
]
