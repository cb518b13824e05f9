-- ===== src/Grading/Driver.antt =====
-- grading/grading.cpp: class Sync, with the class Latch of grading/common.hpp in it, and the workers
-- and the master of `measure`.
pub mod Counts
pub mod Stage
pub mod Rounds
pub mod Moves
pub mod Reports
pub mod Runs
pub mod Phase
pub mod Measure
pub mod Outcome
pub mod Ends
pub mod Progress
pub mod Tests
use software_transactional_m.Prelude.{
  ℕ, zero, suc, ◌+◌, ◌≡◌, ◌≢◌, ◌⊎◌, Bool, true, false, Option, none, some, List, [], ◌∷◌, ◌++◌, ltb,
  ◌==◌, if◌then◌else◌, All,
}
use software_transactional_m.Grading.Chrono.{Chrono, Reading, start, stop, get_tick, invalid_tick}

-- `Sync::Status`
pub data Status : Type 0 where
  wait run abort done fail quit : Status

-- `raised` is the state of `donelatch`. A message is its address, `none` is `nullptr`.
pub record Sync : Type 0 where
  pub nbworkers : ℕ
  pub nbready : ℕ
  pub status : Status
  pub errmsg : Option ℕ
  pub runtime : Chrono
  pub raised : Bool

-- Where a worker is. In `worker_wait`: the first loop; before the count; as the last one, before each
-- of its two stores; the second loop. Then in the workload. In `worker_notify`: before each store for
-- an error; before the count; as the last one, before it clears the count, reads the status, stores
-- it (two places), stops the clock and raises the latch. At last, out of its function.
pub data Place : Type 0 where
  spins ready resets starts waits runs stores aborts notifies clears judges settles_done
        settles_fail stops raises left :
      Place

-- A worker: how often it has been ready, the error that it reports, and whether an exception made it.
pub record Worker : Type 0 where
  pub place : Place
  pub rounds : ℕ
  pub error : Option ℕ
  pub threw : Bool

abbrev pub worker : Place → ℕ → Option ℕ → Bool → Worker
worker p n e x = record { place = p; rounds = n; error = e; threw = x }

-- What a worker does in its `n`-th round, the first one being 1.
pub data Task : Type 0 where
  init check unreachable : Task
  run_again : ℕ → Task

unfoldable pub task : (nbrepeats n : ℕ) → Task
task nbrepeats zero = unreachable
task nbrepeats (suc zero) = init
task nbrepeats (suc (suc count)) =
    if ltb count nbrepeats
    then run_again count
    else if count == nbrepeats
    then check
    else unreachable

-- "Internal worker exception(s)"
abbrev pub internal : ℕ
internal = 1

-- Where a worker goes after `worker_notify`: to its next `worker_wait`, or out after an exception.
abbrev pub after_notify : Bool → Place
after_notify true = left
after_notify false = spins

-- The atomic operations of a worker, on the shared state.
pub data WorkerStep (nbrepeats : ℕ) : Sync → Worker → Sync → Worker → Type 0 where
  sees_wait :
      (s : Sync) (n : ℕ) (e : Option ℕ) (x : Bool)
      → s.status ≡ wait
      → WorkerStep nbrepeats s (worker spins n e x) s (worker ready n e x)
  sees_quit :
      (s : Sync) (n : ℕ) (e : Option ℕ) (x : Bool)
      → s.status ≡ quit
      → WorkerStep nbrepeats s (worker spins n e x) s (worker left n e x)
  ready_last :
      (s : Sync) (n : ℕ) (e : Option ℕ) (x : Bool)
      → s.nbready + 1 ≡ s.nbworkers
      → WorkerStep nbrepeats s
          (worker ready n e x)
          (record s { nbready = s.nbready + 1 })
          (worker resets (suc n) e x)
  is_ready :
      (s : Sync) (n : ℕ) (e : Option ℕ) (x : Bool)
      → s.nbready + 1 ≢ s.nbworkers
      → WorkerStep nbrepeats s
          (worker ready n e x)
          (record s { nbready = s.nbready + 1 })
          (worker waits (suc n) e x)
  resets_count :
      (s : Sync) (n : ℕ) (e : Option ℕ) (x : Bool)
      → WorkerStep nbrepeats s
          (worker resets n e x)
          (record s { nbready = 0 })
          (worker starts n e x)
  starts_all :
      (s : Sync) (n : ℕ) (e : Option ℕ) (x : Bool)
      → WorkerStep nbrepeats s (worker starts n e x) (record s { status = run }) (worker runs n e x)
  sees_run :
      (s : Sync) (n : ℕ) (e : Option ℕ) (x : Bool)
      → (s.status ≡ run) ⊎ (s.status ≡ abort)
      → WorkerStep nbrepeats s (worker waits n e x) s (worker runs n e x)
  succeeds :
      (s : Sync) (n : ℕ) (e : Option ℕ) (x : Bool)
      → task nbrepeats n ≢ unreachable
      → WorkerStep nbrepeats s (worker runs n e x) s (worker notifies n none false)
  reports :
      (s : Sync) (n : ℕ) (e : Option ℕ) (x : Bool) (message : ℕ)
      → task nbrepeats n ≢ unreachable
      → WorkerStep nbrepeats s (worker runs n e x) s (worker stores n (some message) false)
  throws :
      (s : Sync) (n : ℕ) (e : Option ℕ) (x : Bool)
      → WorkerStep nbrepeats s (worker runs n e x) s (worker stores n (some internal) true)
  stores_error :
      (s : Sync) (n : ℕ) (e : Option ℕ) (x : Bool)
      → WorkerStep nbrepeats s (worker stores n e x) (record s { errmsg = e }) (worker aborts n e x)
  aborts_run :
      (s : Sync) (n : ℕ) (e : Option ℕ) (x : Bool)
      → WorkerStep nbrepeats s
          (worker aborts n e x)
          (record s { status = abort })
          (worker notifies n e x)
  notifies_last :
      (s : Sync) (n : ℕ) (e : Option ℕ) (x : Bool)
      → s.nbready + 1 ≡ s.nbworkers
      → WorkerStep nbrepeats s
          (worker notifies n e x)
          (record s { nbready = s.nbready + 1 })
          (worker clears n e x)
  has_notified :
      (s : Sync) (n : ℕ) (e : Option ℕ) (x : Bool)
      → s.nbready + 1 ≢ s.nbworkers
      → WorkerStep nbrepeats s
          (worker notifies n e x)
          (record s { nbready = s.nbready + 1 })
          (worker (after_notify x) n e x)
  clears_count :
      (s : Sync) (n : ℕ) (e : Option ℕ) (x : Bool)
      → WorkerStep nbrepeats s
          (worker clears n e x)
          (record s { nbready = 0 })
          (worker judges n e x)
  sees_abort :
      (s : Sync) (n : ℕ) (e : Option ℕ) (x : Bool)
      → s.status ≡ abort
      → WorkerStep nbrepeats s (worker judges n e x) s (worker settles_fail n e x)
  sees_no_abort :
      (s : Sync) (n : ℕ) (e : Option ℕ) (x : Bool)
      → s.status ≢ abort
      → WorkerStep nbrepeats s (worker judges n e x) s (worker settles_done n e x)
  fails :
      (s : Sync) (n : ℕ) (e : Option ℕ) (x : Bool)
      → WorkerStep nbrepeats s
          (worker settles_fail n e x)
          (record s { status = fail })
          (worker stops n e x)
  finishes :
      (s : Sync) (n : ℕ) (e : Option ℕ) (x : Bool)
      → WorkerStep nbrepeats s
          (worker settles_done n e x)
          (record s { status = done })
          (worker stops n e x)
  stops_clock :
      (s : Sync) (n : ℕ) (e : Option ℕ) (x : Bool) (now : Reading)
      → WorkerStep nbrepeats s
          (worker stops n e x)
          (record s { runtime = stop s.runtime now })
          (worker raises n e x)
  raises_latch :
      (s : Sync) (n : ℕ) (e : Option ℕ) (x : Bool)
      → WorkerStep nbrepeats s
          (worker raises n e x)
          (record s { raised = true })
          (worker (after_notify x) n e x)

-- Where the master is: before the store of `master_notify`, before it starts the clock, in the wait
-- for the latch, after it; before and after the store of `master_join`, with the error; and at the
-- end of `measure`, by its return or by one of the two exceptions.
pub data MasterPlace : Type 0 where
  notifying timing waiting woken overrun unexpected : MasterPlace
  joining joined returned : Option ℕ → MasterPlace

-- The master: how many rounds it has begun, and the ticks that it was told.
pub record Master : Type 0 where
  pub at : MasterPlace
  pub round : ℕ
  pub ticks : List ℕ

-- The limits of `measure`.
pub record Limits : Type 0 where
  pub maxtick_init : ℕ
  pub maxtick_perf : ℕ
  pub maxtick_chck : ℕ

-- The limit of a round.
abbrev pub maxtick : Limits → Task → ℕ
maxtick l init = l.maxtick_init
maxtick l (run_again count) = l.maxtick_perf
maxtick l check = l.maxtick_chck
maxtick l unreachable = invalid_tick

-- Where the master goes after a round without an error: to the next one, or to the end.
unfoldable pub after_round : (nbrepeats round : ℕ) → MasterPlace
after_round nbrepeats round = if ltb round (nbrepeats + 2) then notifying else joining none

pub data MasterStep (nbrepeats : ℕ) (l : Limits) : Sync → Master → Sync → Master → Type 0 where
  notifies_all :
      (s : Sync) (r : ℕ) (ts : List ℕ)
      → MasterStep nbrepeats l s
          (record { at = notifying; round = r; ticks = ts })
          (record s { status = wait })
          (record { at = timing; round = suc r; ticks = ts })
  starts_clock :
      (s : Sync) (r : ℕ) (ts : List ℕ) (now : Reading)
      → MasterStep nbrepeats l s
          (record { at = timing; round = r; ticks = ts })
          (record s { runtime = start s.runtime now })
          (record { at = waiting; round = r; ticks = ts })
  takes :
      (s : Sync) (r : ℕ) (ts : List ℕ)
      → s.raised ≡ true
      → MasterStep nbrepeats l s
          (record { at = waiting; round = r; ticks = ts })
          (record s { raised = false })
          (record { at = woken; round = r; ticks = ts })
  overruns :
      (s : Sync) (r : ℕ) (ts : List ℕ)
      → s.raised ≡ false
      → maxtick l (task nbrepeats r) ≢ invalid_tick
      → MasterStep nbrepeats l s
          (record { at = waiting; round = r; ticks = ts })
          s
          (record { at = overrun; round = r; ticks = ts })
  receives_done :
      (s : Sync) (r : ℕ) (ts : List ℕ)
      → s.status ≡ done
      → MasterStep nbrepeats l s
          (record { at = woken; round = r; ticks = ts })
          s
          (record {
            at = after_round nbrepeats r;
            round = r;
            ticks = ts ++ get_tick s.runtime ∷ [];
          })
  receives_fail :
      (s : Sync) (r : ℕ) (ts : List ℕ)
      → s.status ≡ fail
      → MasterStep nbrepeats l s
          (record { at = woken; round = r; ticks = ts })
          s
          (record { at = joining s.errmsg; round = r; ticks = ts })
  receives_other :
      (s : Sync) (r : ℕ) (ts : List ℕ)
      → s.status ≢ done
      → s.status ≢ fail
      → MasterStep nbrepeats l s
          (record { at = woken; round = r; ticks = ts })
          s
          (record { at = unexpected; round = r; ticks = ts })
  joins :
      (s : Sync) (r : ℕ) (ts : List ℕ) (e : Option ℕ)
      → MasterStep nbrepeats l s
          (record { at = joining e; round = r; ticks = ts })
          (record s { status = quit })
          (record { at = joined e; round = r; ticks = ts })

pub record System : Type 0 where
  pub sync : Sync
  pub master : Master
  pub workers : List Worker

abbrev pub system : Sync → Master → List Worker → System
system s m ws = record { sync = s; master = m; workers = ws }

-- Any worker or the master moves; `measure` returns when all workers have.
pub data Step (nbrepeats : ℕ) (l : Limits) : System → System → Type 0 where
  works :
      {s s' : Sync} {w w' : Worker} (m : Master) (ts us : List Worker)
      → WorkerStep nbrepeats s w s' w'
      → Step nbrepeats l (system s m (ts ++ w ∷ us)) (system s' m (ts ++ w' ∷ us))
  leads :
      {s s' : Sync} {m m' : Master} (ws : List Worker)
      → MasterStep nbrepeats l s m s' m'
      → Step nbrepeats l (system s m ws) (system s' m' ws)
  returns :
      (s : Sync) (r : ℕ) (ts : List ℕ) (e : Option ℕ) (ws : List Worker)
      → All (λ w. w.place ≡ left) ws
      → Step nbrepeats l
          (system s (record { at = joined e; round = r; ticks = ts }) ws)
          (system s (record { at = returned e; round = r; ticks = ts }) ws)

pub data Reach (nbrepeats : ℕ) (l : Limits) (s : System) : System → Type 0 where
  here : Reach nbrepeats l s s
  next : {t u : System} → Reach nbrepeats l s t → Step nbrepeats l t u → Reach nbrepeats l s u

abbrev pub created : ℕ → List Worker
created zero = []
created (suc n) = worker spins 0 none false ∷ created n

-- `Sync`'s constructor, its threads, and the master before its first round.
abbrev pub begin : (nbthreads : ℕ) → Chrono → System
begin nbthreads c = record {
  sync = record {
    nbworkers = nbthreads;
    nbready = 0;
    status = done;
    errmsg = none;
    runtime = c;
    raised = false;
  };
  master = record { at = notifying; round = 0; ticks = [] };
  workers = created nbthreads;
}
