-- ===== src/Grading/Driver/Outcome.antt =====
-- What `measure` (grading/grading.cpp) answers, and when a worker runs.
use software_transactional_m.Prelude.{
  ℕ, zero, suc, ◌+◌, ◌≡◌, ◌≢◌, ◌≤◌, ◌<◌, refl, ap, ◌⊎◌, inl, inr, Bool, false, Option, none, some,
  List, [], ◌∷◌, ◌++◌, All, All-mono, arith, Bool-cases, ==→eq, subst, ◌==◌,
}
use software_transactional_m.Grading.Chrono.{Chrono}
use software_transactional_m.Grading.Driver.{
  Sync, runs, left, Worker, worker, timing, waiting, overrun, unexpected, returned, MasterPlace,
  Master, Limits, system, Place, Reach, begin, task, unreachable,
}
use software_transactional_m.Grading.Driver.Counts.{total, told, says}
use software_transactional_m.Grading.Driver.Stage.{Gathers, Runs, Rests, All-here}
use software_transactional_m.Grading.Driver.Phase.{
  Busy, Quits, Ended, gathering, running, resting, waking, Phase, turning, taking, quitting,
}
use software_transactional_m.Grading.Driver.Measure.{begin-Inv, Reach-Inv}

-- Some worker satisfies `P`.
abbrev pub Some : (Worker → Type 0) → List Worker → Type 0
Some P [] = ⊥
Some P (w ∷ ws) = P w ⊎ Some P ws

spoken :
    (m n : ℕ) (p : Place) (e : Option ℕ) (x : Bool) → (says m (worker p n e x) ≡ 0) ⊎ (e ≡ some m)
spoken m n p none x = inl refl
spoken m n p (some v) x = elim (Bool-cases (v == m)) [
  | inl same ↦ inr (ap some (==→eq v m same))
  | inr other ↦ inl (rw other refl)
]

reporter : (m : ℕ) (ws : List Worker) → 0 < total (says m) ws → Some (λ w. w.error ≡ some m) ws
reporter m [] h = absurd (omega arith)
reporter m (w ∷ ws) h = elim (spoken m w.rounds w.place w.error w.threw) [
  | inl z ↦ inr (reporter m ws (omega arith))
  | inr e ↦ inl e
]

-- A worker that is out and told no error reports none.
silent_out :
    (r : ℕ) (ws : List Worker)
    → All (Quits r) ws
    → All (λ w. w.place ≡ left) ws
    → total told ws ≡ 0
    → All (λ w. (w.rounds ≡ r) × (w.error ≡ none)) ws
silent_out r [] q a h = tt
silent_out r (w ∷ ws) (q, qs) (a, b) h =
    let one : (w.rounds ≡ r) × (w.error ≡ none) = out w q a (omega arith) in
    (one, silent_out r ws qs b (omega arith))
  where
    out : (w : Worker) → Quits r w → w.place ≡ left → told w ≡ 0 → (w.rounds ≡ r) × (w.error ≡ none)
    out w q a h = ground arith

-- What the answer of `measure` means.
abbrev pub Answer : ℕ → List Worker → Option ℕ → Type 0
Answer k ws none = All (λ w. (w.rounds ≡ k + 2) × (w.error ≡ none)) ws
Answer k ws (some m) = Some (λ w. w.error ≡ some m) ws

-- When `measure` returns, whatever the workloads did and in any order of the atomic operations, all of
-- its threads are out of their functions. If it returns no error, each thread has been through all of
-- the rounds and reports no error; if it returns one, some thread reports it.
pub Reach-Answer :
    (k nbthreads : ℕ) (l : Limits) (c : Chrono) (s : Sync) (r : ℕ) (ts : List ℕ) (e : Option ℕ)
    (ws : List Worker)
    → Reach k l
        (begin nbthreads c)
        (system s (record { at = returned e; round = r; ticks = ts }) ws)
    → All (λ w. w.place ≡ left) ws × Answer k ws e
Reach-Answer k nbthreads l c s r ts e ws reach =
    at e ((Reach-Inv k l (begin-Inv k nbthreads c) reach).phase)
  where
    at :
        (e : Option ℕ)
        → Phase k s (record { at = returned e; round = r; ticks = ts }) ws
        → All (λ w. w.place ≡ left) ws × Answer k ws e
    at e (turning b g y) = elim y [ ]
    at e (taking g f d y) = elim y [ ]
    at none (quitting q a ((v, last), gone)) = (
      gone,
      subst (λ j. All (λ w. (w.rounds ≡ j) × (w.error ≡ none)) ws) last (silent_out r ws a gone v),
    )
    at (some m) (quitting q a (v, gone)) = (gone, reporter m ws v)

task_known : (k n : ℕ) → 0 < n → n ≤ k + 2 → task k n ≢ unreachable
unfolding task
task_known k zero h l e = absurd (omega arith)
task_known k (suc zero) h l e = cc
task_known k (suc (suc count)) h l e = ground arith

all_rounds : (r : ℕ) (ws : List Worker) → All (Runs r) ws → All (λ w. w.rounds ≡ r) ws
all_rounds r ws = All-mono (Runs r) (λ w. w.rounds ≡ r) (λ w f. ground arith) ws

-- Whenever a worker is in its workload, all workers have been ready in the round that the master began
-- last, there is a task for that round, and the master has no answer: the latch is down, and the
-- master is before its wait, in it or has given up.
pub Reach-runs_together :
    (k nbthreads : ℕ) (l : Limits) (c : Chrono) (s : Sync) (m : Master) (ts us : List Worker)
    (w : Worker)
    → Reach k l (begin nbthreads c) (system s m (ts ++ w ∷ us))
    → w.place ≡ runs
    → All (λ v. v.rounds ≡ m.round) (ts ++ w ∷ us)
      × (task k m.round ≢ unreachable)
      × (s.raised ≡ false)
      × ((m.at ≡ timing) ⊎ (m.at ≡ waiting) ⊎ (m.at ≡ overrun))
Reach-runs_together k nbthreads l c s m ts us w reach at =
    let i = Reach-Inv k l (begin-Inv k nbthreads c) reach in in_phase i.few i.phase
  where
    busy :
        (p : MasterPlace) (r : ℕ) (js : List ℕ)
        → Busy (record { at = p; round = r; ticks = js })
        → (p ≡ timing) ⊎ (p ≡ waiting) ⊎ (p ≡ overrun)
    busy p r js b = ground arith

    in_phase :
        m.round ≤ k + 2
        → Phase k s m (ts ++ w ∷ us)
        → All (λ v. v.rounds ≡ m.round) (ts ++ w ∷ us)
          × (task k m.round ≢ unreachable)
          × (s.raised ≡ false)
          × ((m.at ≡ timing) ⊎ (m.at ≡ waiting) ⊎ (m.at ≡ overrun))
    in_phase few (turning b (running g d) y) = (
      all_rounds m.round (ts ++ w ∷ us) g.fits,
      task_known k m.round b few,
      d,
      busy m.at m.round m.ticks y,
    )
    in_phase few (turning b (gathering g d) y) =
        let f = All-here (Gathers m.round) ts us w g.fits in absurd (ground arith)
    in_phase few (turning b (resting g e d) y) =
        let f = All-here (Rests m.round) ts us w g.fits in absurd (ground arith)
    in_phase few (turning b (waking g e d) y) =
        let f = All-here (Rests m.round) ts us w g.fits in absurd (ground arith)
    in_phase few (taking g e d y) =
        let f = All-here (Rests m.round) ts us w g.fits in absurd (ground arith)
    in_phase few (quitting q a y) =
        let f = All-here (Quits m.round) ts us w a in absurd (ground arith)

-- The master never finds a status other than those two.
pub Reach-expected :
    (k nbthreads : ℕ) (l : Limits) (c : Chrono) (s : Sync) (m : Master) (ws : List Worker)
    → Reach k l (begin nbthreads c) (system s m ws)
    → m.at ≢ unexpected
Reach-expected k nbthreads l c s m ws reach bad =
    in_phase ((Reach-Inv k l (begin-Inv k nbthreads c) reach).phase)
  where
    in_phase : Phase k s m ws → ⊥
    in_phase (turning b g y) = ground arith
    in_phase (taking g e d y) = ground arith
    in_phase (quitting q a y) =
        let z : Ended k m.round unexpected ws = subst (λ p. Ended k m.round p ws) bad y in z
