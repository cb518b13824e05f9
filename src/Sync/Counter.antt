-- ===== src/Sync/Counter.antt =====
-- counter1.c to counter4.c of sync-examples/: threads that count together.
pub mod Total
pub mod Lost
use software_transactional_m.Prelude.{
  ℕ, zero, suc, ◌+◌, ◌*◌, ◌-◌, ◌≤◌, ◌<◌, ◌≡◌, refl, sym, ap, ◌∙◌, Bool, true, false, List, [], ◌∷◌,
  ◌++◌, arith,
}

-- A thread: the rounds that it has left, and where it is in its round: before it, inside of the lock
-- before the read of the counter, between the read and the write, and before the release.
pub data Thread : Type 0 where
  idle acquired wrote : ℕ → Thread
  has_read : (rounds local : ℕ) → Thread

pub record Counting : Type 0 where
  pub counter : ℕ
  pub held : Bool
  pub threads : List Thread

abbrev pub state : ℕ → Bool → List Thread → Thread → List Thread → Counting
state n held before t after = record { counter = n; held = held; threads = before ++ (t ∷ after) }

-- counter2.c: the statements of a round. Only one thread has the lock.
pub data Locked : Counting → Counting → Type 0 where
  acquires :
      (n r : ℕ) (before after : List Thread)
      → Locked (state n false before (idle (suc r)) after) (state n true before (acquired r) after)
  reads :
      (n r : ℕ) (held : Bool) (before after : List Thread)
      → Locked (state n held before (acquired r) after) (state n held before (has_read r n) after)
  writes :
      (n r local : ℕ) (held : Bool) (before after : List Thread)
      → Locked
          (state n held before (has_read r local) after)
          (state (local + 1) held before (wrote r) after)
  releases :
      (n r : ℕ) (held : Bool) (before after : List Thread)
      → Locked (state n held before (wrote r) after) (state n false before (idle r) after)

-- counter4.c: `atomic_fetch_add` is one step.
pub data Atomic : Counting → Counting → Type 0 where
  adds :
      (n r : ℕ) (held : Bool) (before after : List Thread)
      → Atomic (state n held before (idle (suc r)) after) (state (n + 1) held before (idle r) after)

-- counter1.c, and counter3.c: the read and the write are two steps, with no lock around them.
pub data Unlocked : Counting → Counting → Type 0 where
  reads :
      (n r : ℕ) (held : Bool) (before after : List Thread)
      → Unlocked
          (state n held before (idle (suc r)) after)
          (state n held before (has_read r n) after)
  writes :
      (n r local : ℕ) (held : Bool) (before after : List Thread)
      → Unlocked
          (state n held before (has_read r local) after)
          (state (local + 1) held before (idle r) after)

pub data Reach (Step : Counting → Counting → Type 0) (s : Counting) : Counting → Type 0 where
  here : Reach Step s s
  next : {t u : Counting} → Reach Step s t → Step t u → Reach Step s u

-- `main`: the threads that it creates, and that it has joined all of them.
abbrev pub created : (threads runs : ℕ) → List Thread
created zero runs = []
created (suc threads) runs = idle runs ∷ created threads runs

abbrev pub start : (threads runs : ℕ) → Counting
start threads runs = record { counter = 0; held = false; threads = created threads runs }

abbrev pub Joined : List Thread → Type 0
Joined [] = Unit
Joined (idle r ∷ ts) = (r ≡ 0) × Joined ts
Joined (acquired r ∷ ts) = ⊥
Joined (wrote r ∷ ts) = ⊥
Joined (has_read r local ∷ ts) = ⊥
