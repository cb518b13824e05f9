-- ===== src/Grading/Driver/Runs.antt =====
-- Every step of a worker of class Sync (grading/grading.cpp) while the workers run, and while they rest.
use software_transactional_m.Prelude.{
  ℕ, ◌≡◌, refl, ◌⊎◌, inl, inr, Bool, true, false, Option, none, some, List, ◌∷◌, ◌++◌, arith,
}
use software_transactional_m.Grading.Driver.{
  Sync, spins, waits, runs, stores, notifies, clears, judges, stops, raises, left, Worker, worker,
  WorkerStep, sees_wait, sees_quit, ready_last, is_ready, resets_count, starts_all, sees_run,
  succeeds, reports, throws, stores_error, aborts_run, notifies_last, has_notified, clears_count,
  sees_abort, sees_no_abort, fails, finishes, stops_clock, raises_latch, internal,
}
use software_transactional_m.Grading.Driver.Counts.{
  total, Count-clears, over, clearing, judging, ending,
}
use software_transactional_m.Grading.Driver.Stage.{
  Blames, Runs, Rests, Running, Resting, All-here, Running-moves, Resting-moves,
}
use software_transactional_m.Grading.Driver.Rounds.{ended_well, ended_badly}
use software_transactional_m.Grading.Driver.Moves.{Owns}
use software_transactional_m.Grading.Driver.Reports.{
  silent, counted, speaks, warns, judges_fail, judges_done,
}
use software_transactional_m.Grading.Chrono.{stop}

-- A worker that an exception threw out has its error.
blame :
    (n : ℕ) (e : Option ℕ)
    → (◌≡◌ {A = Bool} true false) ⊎ Blames (worker left n e true)
    → Blames (worker left n e true)
blame n e (inl h) = cc
blame n e (inr h) = h

module _ (k r : ℕ) (ts us : List Worker) where
  abbrev pub After : (s s' : Sync) → Worker → Type 0
  After s s' w' =
      (Running r s' (ts ++ w' ∷ us)
        ⊎ (Resting r s' (ts ++ w' ∷ us) × (total ending (ts ++ w' ∷ us) ≡ 1)))
      × (s'.raised ≡ s.raised)

  running-within :
      {s s' : Sync} {w w' : Worker}
      → Running r s (ts ++ w ∷ us)
      → Owns w
      → WorkerStep k s w s' w'
      → Runs r w
      → After s s' w'
  running-within g o (sees_wait s n e x h) f = elim (g.so_far) [
    | inl (a, b) ↦ absurd (ground arith)
    | inr (a, b) ↦ absurd (ground arith)
  ]
  running-within g o (sees_quit s n e x h) f = elim (g.so_far) [
    | inl (a, b) ↦ absurd (ground arith)
    | inr (a, b) ↦ absurd (ground arith)
  ]
  running-within g o (ready_last s n e x h) f = elim f [ ]
  running-within g o (is_ready s n e x h) f = elim f [ ]
  running-within g o (resets_count s n e x) f = elim f [ ]
  running-within g o (starts_all s n e x) f = elim f [ ]
  running-within g o (sees_run s n e x h) f = (
    inl (
        silent r ts us s (worker waits n e x) (worker runs n e x) g f refl refl refl (ground arith)
          (ground arith) (λ m. ground arith) refl refl),
    refl,
  )
  running-within g o (succeeds s n e x h) f = (
    inl (
        silent r ts us s (worker runs n e x) (worker notifies n none false) g f refl refl refl
          (ground arith) (ground arith) (λ m. ground arith) refl refl),
    refl,
  )
  running-within g o (reports s n e x m h) f = (
    inl (
        silent r ts us s (worker runs n e x) (worker stores n (some m) false) g (f, (m, refl)) refl
          refl refl (ground arith) (ground arith) (λ j. ground arith) refl refl),
    refl,
  )
  running-within g o (throws s n e x) f = (
    inl (
        silent r ts us s (worker runs n e x) (worker stores n (some internal) true) g
          (f, (internal, refl)) refl refl refl (ground arith) (ground arith) (λ j. ground arith)
          refl refl),
    refl,
  )
  running-within g o (stores_error s n e x) f = (inl (speaks r ts us s n e x g f), refl)
  running-within g o (aborts_run s n e x) f = (inl (warns r ts us s n e x g f), refl)
  running-within g o (notifies_last s n e x h) f = (
    inl (
        counted r ts us s n e x (worker clears n e x) g f refl refl (inl (h, refl)) (ground arith)
          (ground arith) (λ j. ground arith) refl refl),
    refl,
  )
  running-within g o (has_notified s n e false h) f = (
    inl (
        counted r ts us s n e false (worker spins n e false) g f refl refl (inr (h, refl))
          (ground arith) (ground arith) (λ j. ground arith) refl refl),
    refl,
  )
  running-within g o (has_notified s n e true h) f = (
    inl (
        counted r ts us s n e true (worker left n e true) g (f, blame n e o) refl refl
          (inr (h, refl)) (ground arith) (ground arith) (λ j. ground arith) refl refl),
    refl,
  )
  running-within g o (clears_count s n e x) f = (
    inl (
        Running-moves r ts us (worker clears n e x) (worker judges n e x) s
          (record s { nbready = 0 }) g refl refl refl f
          (Count-clears clearing judging over s.nbready s.nbworkers ts us (worker clears n e x)
            (worker judges n e x) refl refl refl refl refl g.counts)
          (ground arith) (ground arith) (λ j. ground arith) refl refl),
    refl,
  )
  running-within g o (sees_abort s n e x h) f = (inl (judges_fail r ts us s n e x g h), refl)
  running-within g o (sees_no_abort s n e x h) f = (inl (judges_done r ts us s n e x g h), refl)
  running-within g o (fails s n e x) f = (inr (ended_badly r ts us n e x s g), refl)
  running-within g o (finishes s n e x) f = (inr (ended_well r ts us n e x s g), refl)
  running-within g o (stops_clock s n e x now) f = elim f [ ]
  running-within g o (raises_latch s n e x) f = elim f [ ]

  -- From the run the last worker leads on to the rest, with the latch down.
  pub Running-WorkerStep :
      {s s' : Sync} {w w' : Worker}
      → Running r s (ts ++ w ∷ us)
      → Owns w
      → WorkerStep k s w s' w'
      → After s s' w'
  Running-WorkerStep {w} g o st = running-within g o st (All-here (Runs r) ts us w g.fits)

  -- At rest only the last worker moves; it raises the latch and goes.
  abbrev pub Rested : (s s' : Sync) → (w w' : Worker) → Type 0
  Rested s s' w w' =
      Resting r s' (ts ++ w' ∷ us)
      × (ending w ≡ 1)
      × (((ending w' ≡ 1) × (s'.raised ≡ s.raised)) ⊎ ((ending w' ≡ 0) × (s'.raised ≡ true)))

  resting-within :
      {s s' : Sync} {w w' : Worker}
      → Resting r s (ts ++ w ∷ us)
      → Owns w
      → WorkerStep k s w s' w'
      → Rests r w
      → Rested s s' w w'
  resting-within g o (sees_wait s n e x h) f = elim (g.verdict) [
    | inl (a, b) ↦ absurd (ground arith)
    | inr (a, b) ↦ absurd (ground arith)
  ]
  resting-within g o (sees_quit s n e x h) f = elim (g.verdict) [
    | inl (a, b) ↦ absurd (ground arith)
    | inr (a, b) ↦ absurd (ground arith)
  ]
  resting-within g o (ready_last s n e x h) f = elim f [ ]
  resting-within g o (is_ready s n e x h) f = elim f [ ]
  resting-within g o (resets_count s n e x) f = elim f [ ]
  resting-within g o (starts_all s n e x) f = elim f [ ]
  resting-within g o (sees_run s n e x h) f = elim f [ ]
  resting-within g o (succeeds s n e x h) f = elim f [ ]
  resting-within g o (reports s n e x m h) f = elim f [ ]
  resting-within g o (throws s n e x) f = elim f [ ]
  resting-within g o (stores_error s n e x) f = elim f [ ]
  resting-within g o (aborts_run s n e x) f = elim f [ ]
  resting-within g o (notifies_last s n e x h) f = elim f [ ]
  resting-within g o (has_notified s n e x h) f = elim f [ ]
  resting-within g o (clears_count s n e x) f = elim f [ ]
  resting-within g o (sees_abort s n e x h) f = elim f [ ]
  resting-within g o (sees_no_abort s n e x h) f = elim f [ ]
  resting-within g o (fails s n e x) f = elim f [ ]
  resting-within g o (finishes s n e x) f = elim f [ ]
  resting-within g o (stops_clock s n e x now) f = (
    Resting-moves r ts us (worker stops n e x) (worker raises n e x) s
        (record s { runtime = stop s.runtime now }) g refl refl refl refl f (ground arith)
        (λ j. ground arith),
    refl,
    inl (refl, refl),
  )
  resting-within g o (raises_latch s n e false) f = (
    Resting-moves r ts us (worker raises n e false) (worker spins n e false) s
        (record s { raised = true }) g refl refl refl refl f (ground arith) (λ j. ground arith),
    refl,
    inr (refl, refl),
  )
  resting-within g o (raises_latch s n e true) f = (
    Resting-moves r ts us (worker raises n e true) (worker left n e true) s
        (record s { raised = true }) g refl refl refl refl (f, blame n e o) (ground arith)
        (λ j. ground arith),
    refl,
    inr (refl, refl),
  )

  pub Resting-WorkerStep :
      {s s' : Sync} {w w' : Worker}
      → Resting r s (ts ++ w ∷ us)
      → Owns w
      → WorkerStep k s w s' w'
      → Rested s s' w w'
  Resting-WorkerStep {w} g o st = resting-within g o st (All-here (Rests r) ts us w g.fits)
