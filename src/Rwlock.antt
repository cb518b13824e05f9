-- ===== src/Rwlock.antt =====
-- 353055/readers_writer.h: a lock for many readers or one writer, from a mutex and two conditions.
-- What a thread does while it holds the mutex is one step.
pub mod Invariant
pub mod Tests
use software_transactional_m.Prelude.{
  ℕ, suc, ◌+◌, ◌-◌, ◌≡◌, refl, Bool, true, false, ◌||◌, List, [], ◌∷◌, ◌++◌, ltb, ◌==◌,
  if◌then◌else◌,
}

-- `readers` is an `int`; the threads are fewer than `INT_MAX`.
pub record RwLock : Type 0 where
  pub readers : ℕ
  pub writing : Bool

-- Where a thread is: outside; asleep in, or awake from, a wait of `readLock` or of `writeLock`; or
-- between a lock and its unlock.
pub data Phase : Type 0 where
  outside read_asleep read_awake reads write_asleep write_awake writes : Phase

abbrev pub init_rw_lock : RwLock
init_rw_lock = record { readers = 0; writing = false }

-- From the test of the loop on: the wait, or the way out with the lock.
unfoldable pub read_lock : RwLock → Phase × RwLock
read_lock l = if l.writing then (read_asleep, l) else (reads, record l { readers = l.readers + 1 })

unfoldable pub write_lock : RwLock → Phase × RwLock
write_lock l =
    if l.writing || ltb 0 l.readers
    then (write_asleep, l)
    else (writes, record l { writing = true })

-- The Boolean says whether `write_cond` is signalled.
unfoldable pub read_unlock : RwLock → Bool × RwLock
read_unlock l = (l.readers - 1 == 0, record l { readers = l.readers - 1 })

unfoldable pub write_unlock : RwLock → RwLock
write_unlock l = record l { writing = false }

-- `pthread_cond_broadcast(&read_cond)`
abbrev pub broadcast_read : List Phase → List Phase
broadcast_read [] = []
broadcast_read (read_asleep ∷ ps) = read_awake ∷ broadcast_read ps
broadcast_read (p ∷ ps) = p ∷ broadcast_read ps

abbrev code : Phase → ℕ
code outside = 0
code read_asleep = 1
code read_awake = 2
code reads = 3
code write_asleep = 4
code write_awake = 5
code writes = 6

abbrev pub one : Phase → Phase → ℕ
one p q = if code p == code q then 1 else 0

-- How many threads are in phase `p`.
abbrev pub number : Phase → List Phase → ℕ
number p [] = 0
number p (q ∷ qs) = one p q + number p qs

-- `pthread_cond_signal(&write_cond)` wakes one sleeper, if there is any.
pub data SignalWrite : List Phase → List Phase → Type 0 where
  nobody : (ps : List Phase) → number write_asleep ps ≡ 0 → SignalWrite ps ps
  wakes : (ps qs : List Phase) → SignalWrite (ps ++ write_asleep ∷ qs) (ps ++ write_awake ∷ qs)

pub record Threads : Type 0 where
  pub lock : RwLock
  pub phases : List Phase

-- One step of the thread between `ps` and `qs`. A wait may also end by itself.
pub data Step : Threads → Threads → Type 0 where
  starts_read :
      (l : RwLock) (ps qs : List Phase)
      → Step
          (record { lock = l; phases = ps ++ outside ∷ qs })
          (record { lock = (read_lock l).1; phases = ps ++ (read_lock l).0 ∷ qs })
  retries_read :
      (l : RwLock) (ps qs : List Phase)
      → Step
          (record { lock = l; phases = ps ++ read_awake ∷ qs })
          (record { lock = (read_lock l).1; phases = ps ++ (read_lock l).0 ∷ qs })
  ends_read :
      (l : RwLock) (ps qs : List Phase)
      → (read_unlock l).0 ≡ false
      → Step
          (record { lock = l; phases = ps ++ reads ∷ qs })
          (record { lock = (read_unlock l).1; phases = ps ++ outside ∷ qs })
  ends_last_read :
      (l : RwLock) (ps qs rs : List Phase)
      → (read_unlock l).0 ≡ true
      → SignalWrite (ps ++ outside ∷ qs) rs
      → Step
          (record { lock = l; phases = ps ++ reads ∷ qs })
          (record { lock = (read_unlock l).1; phases = rs })
  starts_write :
      (l : RwLock) (ps qs : List Phase)
      → Step
          (record { lock = l; phases = ps ++ outside ∷ qs })
          (record { lock = (write_lock l).1; phases = ps ++ (write_lock l).0 ∷ qs })
  retries_write :
      (l : RwLock) (ps qs : List Phase)
      → Step
          (record { lock = l; phases = ps ++ write_awake ∷ qs })
          (record { lock = (write_lock l).1; phases = ps ++ (write_lock l).0 ∷ qs })
  ends_write :
      (l : RwLock) (ps qs rs : List Phase)
      → SignalWrite (broadcast_read (ps ++ outside ∷ qs)) rs
      → Step
          (record { lock = l; phases = ps ++ writes ∷ qs })
          (record { lock = write_unlock l; phases = rs })
  wakes_read :
      (l : RwLock) (ps qs : List Phase)
      → Step
          (record { lock = l; phases = ps ++ read_asleep ∷ qs })
          (record { lock = l; phases = ps ++ read_awake ∷ qs })
  wakes_write :
      (l : RwLock) (ps qs : List Phase)
      → Step
          (record { lock = l; phases = ps ++ write_asleep ∷ qs })
          (record { lock = l; phases = ps ++ write_awake ∷ qs })

pub data Reach (s : Threads) : Threads → Type 0 where
  here : Reach s s
  next : {t u : Threads} → Reach s t → Step t u → Reach s u
