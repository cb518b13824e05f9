-- ===== src/Grading/Check.antt =====
-- check of class WorkloadBank in grading/workload.hpp: threads that count a shared counter down. The
-- barriers put the writes of the first thread before all others, and its last read after them.
pub mod Countdown
use software_transactional_m.Prelude.{
  ℕ, zero, suc, ◌+◌, ◌*◌, ◌-◌, ◌^◌, ◌≡◌, Bool, true, false, some, List, [], ◌∷◌, ◌++◌, ltb, ◌==◌,
}
use software_transactional_m.Grading.Transaction.{Tx, pure, ◌>>=◌, ◌>>◌, ok}
use software_transactional_m.Grading.Shared.{get, set}
use software_transactional_m.Grading.Store.{Store, run}
use software_transactional_m.Grading.Bank.{wrap}

-- The constant of that name in `check`.
abbrev pub nbtxperwrk : ℕ
nbtxperwrk = 100

-- The transactions on the counter at `start`.
unfoldable pub write_counter : (start init_counter : ℕ) → Tx (Unit {0})
write_counter start init_counter = set start init_counter

unfoldable pub counter_is : (start value : ℕ) → Tx Bool
counter_is start value = do counter ← get start; pure (counter == value)

unfoldable pub read_counter : (start : ℕ) → Tx ℕ
read_counter start = get start

unfoldable pub decrease : (start last : ℕ) → Tx Bool
decrease start last = do
  value ← get start
  elim (ltb last value) [
    | true ↦ pure false
    | false ↦ do set start (wrap (value + (2 ^ 64 - 1))); pure true
  ]

-- A thread in the loop: the rounds left, and what it has fetched.
pub data Worker : Type 0 where
  fetches : ℕ → Worker
  decreases : (rounds last : ℕ) → Worker
  violated : Worker

pub record Checking : Type 0 where
  pub memory : Store
  pub workers : List Worker

abbrev pub state : Store → List Worker → Worker → List Worker → Checking
state m ts t us = record { memory = m; workers = ts ++ (t ∷ us) }

-- A transaction of any thread, at once.
pub data Step (start : ℕ) : Checking → Checking → Type 0 where
  fetch :
      (m m' : Store) (ts us : List Worker) (r v : ℕ)
      → run (read_counter start) [] m ≡ some (ok v, m')
      → Step start (state m ts (fetches (suc r)) us) (state m' ts (decreases r v) us)
  succeed :
      (m m' : Store) (ts us : List Worker) (r last : ℕ)
      → run (decrease start last) [] m ≡ some (ok true, m')
      → Step start (state m ts (decreases r last) us) (state m' ts (fetches r) us)
  fail :
      (m m' : Store) (ts us : List Worker) (r last : ℕ)
      → run (decrease start last) [] m ≡ some (ok false, m')
      → Step start (state m ts (decreases r last) us) (state m' ts violated us)

pub data Reach (start : ℕ) (s : Checking) : Checking → Type 0 where
  here : Reach start s s
  next : {t u : Checking} → Reach start s t → Step start t u → Reach start s u

abbrev pub workers_of : ℕ → List Worker
workers_of zero = []
workers_of (suc nbworkers) = fetches nbtxperwrk ∷ workers_of nbworkers
