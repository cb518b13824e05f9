-- ===== src/Sync/Election.antt =====
-- election1.c to election4.c of sync-examples/, one round: threads that try to become its leader.
pub mod Leader
use software_transactional_m.Prelude.{
  ℕ, zero, suc, ◌+◌, ◌≡◌, ◌≢◌, Bool, true, false, List, [], ◌∷◌, ◌++◌, ◌==◌,
}

-- A thread, by its `tid`, in the round: before it, inside of the lock, past the test, past the write to
-- `leader`, past that to `nb_leaders`, and past the round.
pub data Place : Type 0 where
  before_round inside passed wrote noted after_round : Place

pub record Thread : Type 0 where
  pub tid : ℕ
  pub place : Place

-- `leader[r]` and `nb_leaders[r]`.
pub record Election : Type 0 where
  pub leader : ℕ
  pub nb_leaders : ℕ
  pub held : Bool
  pub threads : List Thread

abbrev pub at : ℕ → Place → Thread
at tid place = record { tid = tid; place = place }

abbrev pub state : (leader nb_leaders : ℕ) → Bool → List Thread → Thread → List Thread → Election
state l n held ts t us = record {
  leader = l;
  nb_leaders = n;
  held = held;
  threads = ts ++ (t ∷ us);
}

-- election2.c: the statements of a round, under the lock.
pub data Locked : Election → Election → Type 0 where
  acquires :
      (l n tid : ℕ) (ts us : List Thread)
      → Locked (state l n false ts (at tid before_round) us) (state l n true ts (at tid inside) us)
  passes :
      (l n tid : ℕ) (held : Bool) (ts us : List Thread)
      → l ≡ 0
      → Locked (state l n held ts (at tid inside) us) (state l n held ts (at tid passed) us)
  fails :
      (l n tid : ℕ) (held : Bool) (ts us : List Thread)
      → l ≢ 0
      → Locked (state l n held ts (at tid inside) us) (state l n held ts (at tid noted) us)
  leads :
      (l n tid : ℕ) (held : Bool) (ts us : List Thread)
      → Locked (state l n held ts (at tid passed) us) (state tid n held ts (at tid wrote) us)
  notes :
      (l n tid : ℕ) (held : Bool) (ts us : List Thread)
      → Locked (state l n held ts (at tid wrote) us) (state l (n + 1) held ts (at tid noted) us)
  releases :
      (l n tid : ℕ) (held : Bool) (ts us : List Thread)
      → Locked (state l n held ts (at tid noted) us) (state l n false ts (at tid after_round) us)

-- election4.c: the test and the write are one compare and swap.
pub data Atomic : Election → Election → Type 0 where
  swaps :
      (l n tid : ℕ) (held : Bool) (ts us : List Thread)
      → l ≡ 0
      → Atomic (state l n held ts (at tid before_round) us) (state tid n held ts (at tid wrote) us)
  fails :
      (l n tid : ℕ) (held : Bool) (ts us : List Thread)
      → l ≢ 0
      → Atomic
          (state l n held ts (at tid before_round) us)
          (state l n held ts (at tid after_round) us)
  notes :
      (l n tid : ℕ) (held : Bool) (ts us : List Thread)
      → Atomic
          (state l n held ts (at tid wrote) us)
          (state l (n + 1) held ts (at tid after_round) us)

-- election1.c and election3.c: the test and the write are two steps.
pub data Unlocked : Election → Election → Type 0 where
  passes :
      (l n tid : ℕ) (held : Bool) (ts us : List Thread)
      → l ≡ 0
      → Unlocked (state l n held ts (at tid before_round) us) (state l n held ts (at tid passed) us)
  fails :
      (l n tid : ℕ) (held : Bool) (ts us : List Thread)
      → l ≢ 0
      → Unlocked
          (state l n held ts (at tid before_round) us)
          (state l n held ts (at tid after_round) us)
  leads :
      (l n tid : ℕ) (held : Bool) (ts us : List Thread)
      → Unlocked (state l n held ts (at tid passed) us) (state tid n held ts (at tid wrote) us)
  notes :
      (l n tid : ℕ) (held : Bool) (ts us : List Thread)
      → Unlocked
          (state l n held ts (at tid wrote) us)
          (state l (n + 1) held ts (at tid after_round) us)

pub data Reach (Step : Election → Election → Type 0) (s : Election) : Election → Type 0 where
  here : Reach Step s s
  next : {t u : Election} → Reach Step s t → Step t u → Reach Step s u

-- The threads that `main` creates have the numbers from 1 on.
abbrev pub created : (first threads : ℕ) → List Thread
created first zero = []
created first (suc threads) = at first before_round ∷ created (first + 1) threads

abbrev pub start : ℕ → Election
start threads = record { leader = 0; nb_leaders = 0; held = false; threads = created 1 threads }
