-- ===== src/Grading/Barrier.antt =====
-- class Barrier of grading/common.hpp: threads that call sync again and again.
pub mod Stage
pub mod Rounds
use software_transactional_m.Prelude.{ℕ, zero, suc, ◌+◌, ◌-◌, ◌≡◌, ◌≢◌, List, [], ◌∷◌, ◌++◌}

-- `Barrier::Mode`
pub data Mode : Type 0 where
  enter leave : Mode

pub record Barrier : Type 0 where
  pub cardinal : ℕ
  pub step : ℕ
  pub mode : Mode

-- Where a thread is in `sync`: outside; before the store or in the loop of the first part; past that
-- part; before the store or in the loop of the second.
pub data Place : Type 0 where
  outside sets_leave waits_leave leaves sets_enter waits_enter : Place

-- A thread, and how often it has returned from `sync`.
pub record Thread : Type 0 where
  pub place : Place
  pub syncs : ℕ

pub record Synced : Type 0 where
  pub barrier : Barrier
  pub threads : List Thread

abbrev pub state : Barrier → List Thread → Place → ℕ → List Thread → Synced
state b ts p n us = record { barrier = b; threads = ts ++ (record { place = p; syncs = n } ∷ us) }

-- The atomic operations of `sync`, by any of the threads.
pub data Step : Synced → Synced → Type 0 where
  enters_last :
      (b : Barrier) (ts us : List Thread) (n : ℕ)
      → b.step + 1 ≡ b.cardinal
      → Step (state b ts outside n us) (state (record b { step = b.step + 1 }) ts sets_leave n us)
  enters :
      (b : Barrier) (ts us : List Thread) (n : ℕ)
      → b.step + 1 ≢ b.cardinal
      → Step (state b ts outside n us) (state (record b { step = b.step + 1 }) ts waits_leave n us)
  opens :
      (b : Barrier) (ts us : List Thread) (n : ℕ)
      → Step (state b ts sets_leave n us) (state (record b { mode = leave }) ts leaves n us)
  sees_leave :
      (b : Barrier) (ts us : List Thread) (n : ℕ)
      → b.mode ≡ leave
      → Step (state b ts waits_leave n us) (state b ts leaves n us)
  leaves_last :
      (b : Barrier) (ts us : List Thread) (n : ℕ)
      → b.step - 1 ≡ 0
      → Step (state b ts leaves n us) (state (record b { step = b.step - 1 }) ts sets_enter n us)
  goes :
      (b : Barrier) (ts us : List Thread) (n : ℕ)
      → b.step - 1 ≢ 0
      → Step (state b ts leaves n us) (state (record b { step = b.step - 1 }) ts waits_enter n us)
  closes :
      (b : Barrier) (ts us : List Thread) (n : ℕ)
      → Step (state b ts sets_enter n us) (state (record b { mode = enter }) ts outside (suc n) us)
  sees_enter :
      (b : Barrier) (ts us : List Thread) (n : ℕ)
      → b.mode ≡ enter
      → Step (state b ts waits_enter n us) (state b ts outside (suc n) us)

pub data Reach (s : Synced) : Synced → Type 0 where
  here : Reach s s
  next : {t u : Synced} → Reach s t → Step t u → Reach s u

-- As many threads as the barrier was made for.
abbrev pub idle : ℕ → List Thread
idle zero = []
idle (suc n) = record { place = outside; syncs = 0 } ∷ idle n

abbrev pub start : ℕ → Synced
start cardinal = record {
  barrier = record { cardinal = cardinal; step = 0; mode = enter };
  threads = idle cardinal;
}
