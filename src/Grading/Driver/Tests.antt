-- ===== src/Grading/Driver/Tests.antt =====
-- A run of `measure` (grading/grading.cpp) with one worker, in which the first transactions throw, and the
-- answers of `main` for two libraries.
use software_transactional_m.Prelude.{
  ℕ, ◌+◌, ◌*◌, ◌≡◌, ◌≢◌, ◌≤◌, refl, ◌⊎◌, Bool, true, false, Option, none, some, [], ◌∷◌, All, arith,
}
use software_transactional_m.Grading.Chrono.{Chrono, start, stop}
use software_transactional_m.Grading.Driver.{
  Sync, Status, wait, run, abort, done, fail, quit, spins, ready, resets, starts, runs, stores,
  aborts, notifies, clears, judges, settles_fail, stops, raises, left, worker, Worker, sees_wait,
  ready_last, resets_count, starts_all, throws, stores_error, aborts_run, notifies_last,
  clears_count, sees_abort, fails, stops_clock, raises_latch, MasterPlace, timing, waiting, woken,
  overrun, joining, joined, returned, Master, notifies_all, starts_clock, takes, receives_fail,
  joins, System, system, Step, works, leads, returns, Reach, here, next, begin, internal, task,
  unreachable, Limits,
}
use software_transactional_m.Grading.Driver.Outcome.{Answer, Reach-Answer, Reach-runs_together}
use software_transactional_m.Grading.Driver.Ends.{steps, steps-le}
use software_transactional_m.Grading.Driver.Progress.{Over, Reach-goes_on}
use software_transactional_m.Grading.Main.{no_limits, Measured, ticks, error, evaluate}

abbrev clock : Chrono
clock = record { total = 0; local = 0 }

abbrev at : (nbready : ℕ) → Status → Option ℕ → Chrono → Bool → Sync
at nbready status errmsg c raised = record {
  nbworkers = 1;
  nbready = nbready;
  status = status;
  errmsg = errmsg;
  runtime = c;
  raised = raised;
}

abbrev master : MasterPlace → ℕ → Master
master p r = record { at = p; round = r; ticks = [] }

abbrev Run : Sync → Master → Worker → Type 0
Run s m w = Reach 0 no_limits (begin 1 clock) (system s m (w ∷ []))

abbrev begun : Run (at 0 wait none clock false) (master timing 1) (worker spins 0 none false)
begun = next here (leads _ (notifies_all (at 0 done none clock false) 0 []))

abbrev timed :
    Run (at 0 wait none (start clock none) false) (master waiting 1) (worker spins 0 none false)
timed = next begun (leads _ (starts_clock (at 0 wait none clock false) 1 [] none))

abbrev sees :
    Run (at 0 wait none (start clock none) false) (master waiting 1) (worker ready 0 none false)
sees =
    next timed
      (works _ [] [] (sees_wait (at 0 wait none (start clock none) false) 0 none false refl))

abbrev counts :
    Run
      (at (0 + 1) wait none (start clock none) false)
      (master waiting 1)
      (worker resets 1 none false)
counts =
    next sees
      (works _ [] [] (ready_last (at 0 wait none (start clock none) false) 0 none false refl))

abbrev cleared :
    Run (at 0 wait none (start clock none) false) (master waiting 1) (worker starts 1 none false)
cleared =
    next counts
      (works _ [] [] (resets_count (at (0 + 1) wait none (start clock none) false) 1 none false))

abbrev runs_now :
    Run (at 0 run none (start clock none) false) (master waiting 1) (worker runs 1 none false)
runs_now =
    next cleared (works _ [] [] (starts_all (at 0 wait none (start clock none) false) 1 none false))

abbrev thrown :
    Run
      (at 0 run none (start clock none) false)
      (master waiting 1)
      (worker stores 1 (some internal) true)
thrown =
    next runs_now (works _ [] [] (throws (at 0 run none (start clock none) false) 1 none false))

abbrev stored :
    Run
      (at 0 run (some internal) (start clock none) false)
      (master waiting 1)
      (worker aborts 1 (some internal) true)
stored =
    next thrown
      (works _ [] [] (stores_error (at 0 run none (start clock none) false) 1 (some internal) true))

abbrev aborted :
    Run
      (at 0 abort (some internal) (start clock none) false)
      (master waiting 1)
      (worker notifies 1 (some internal) true)
aborted = next stored (
    works _ [] []
      (aborts_run (at 0 run (some internal) (start clock none) false) 1 (some internal) true))

abbrev notified :
    Run
      (at (0 + 1) abort (some internal) (start clock none) false)
      (master waiting 1)
      (worker clears 1 (some internal) true)
notified = next aborted (
    works _ [] [] (
      notifies_last (at 0 abort (some internal) (start clock none) false) 1 (some internal) true
        refl))

abbrev empty :
    Run
      (at 0 abort (some internal) (start clock none) false)
      (master waiting 1)
      (worker judges 1 (some internal) true)
empty = next notified (
    works _ [] [] (
      clears_count (at (0 + 1) abort (some internal) (start clock none) false) 1 (some internal)
        true))

abbrev judged :
    Run
      (at 0 abort (some internal) (start clock none) false)
      (master waiting 1)
      (worker settles_fail 1 (some internal) true)
judged = next empty (
    works _ [] [] (
      sees_abort (at 0 abort (some internal) (start clock none) false) 1 (some internal) true refl))

abbrev failed :
    Run
      (at 0 fail (some internal) (start clock none) false)
      (master waiting 1)
      (worker stops 1 (some internal) true)
failed = next judged (
    works _ [] []
      (fails (at 0 abort (some internal) (start clock none) false) 1 (some internal) true))

abbrev stopped :
    Run
      (at 0 fail (some internal) (stop (start clock none) none) false)
      (master waiting 1)
      (worker raises 1 (some internal) true)
stopped = next failed (
    works _ [] [] (
      stops_clock (at 0 fail (some internal) (start clock none) false) 1 (some internal) true none))

abbrev raised :
    Run
      (at 0 fail (some internal) (stop (start clock none) none) true)
      (master waiting 1)
      (worker left 1 (some internal) true)
raised = next stopped (
    works _ [] [] (
      raises_latch (at 0 fail (some internal) (stop (start clock none) none) false) 1
        (some internal) true))

abbrev took :
    Run
      (at 0 fail (some internal) (stop (start clock none) none) false)
      (master woken 1)
      (worker left 1 (some internal) true)
took =
    next raised
      (leads _ (takes (at 0 fail (some internal) (stop (start clock none) none) true) 1 [] refl))

abbrev answered :
    Run
      (at 0 fail (some internal) (stop (start clock none) none) false)
      (master (joining (some internal)) 1)
      (worker left 1 (some internal) true)
answered = next took (
    leads _
      (receives_fail (at 0 fail (some internal) (stop (start clock none) none) false) 1 [] refl))

abbrev quits :
    Run
      (at 0 quit (some internal) (stop (start clock none) none) false)
      (master (joined (some internal)) 1)
      (worker left 1 (some internal) true)
quits = next answered (
    leads _
      (joins (at 0 fail (some internal) (stop (start clock none) none) false) 1 [] (some internal)))

abbrev over :
    Run
      (at 0 quit (some internal) (stop (start clock none) none) false)
      (master (returned (some internal)) 1)
      (worker left 1 (some internal) true)
over = next quits (
    returns (at 0 quit (some internal) (stop (start clock none) none) false) 1 [] (some internal) _
      (refl, tt))

Reach-Answer_example :
    All (λ w. w.place ≡ left) (worker left 1 (some internal) true ∷ [])
    × Answer 0 (worker left 1 (some internal) true ∷ []) (some internal)
Reach-Answer_example =
    Reach-Answer 0 1 no_limits clock
      (at 0 quit (some internal) (stop (start clock none) none) false) 1 [] (some internal)
      (worker left 1 (some internal) true ∷ []) over

Reach-runs_together_example :
    All (λ v. v.rounds ≡ 1) (worker runs 1 none false ∷ [])
    × (task 0 1 ≢ unreachable)
    × (◌≡◌ {A = Bool} false false)
    × ((waiting ≡ timing) ⊎ (waiting ≡ waiting) ⊎ (waiting ≡ overrun))
Reach-runs_together_example =
    Reach-runs_together 0 1 no_limits clock (at 0 run none (start clock none) false)
      (master waiting 1) [] [] (worker runs 1 none false) runs_now refl

Reach-goes_on_example :
    Over waiting
    ⊎ ((t : System) × Step 0 no_limits
          (system
            (at 0 run none (start clock none) false)
            (master waiting 1)
            (worker runs 1 none false ∷ []))
          t)
Reach-goes_on_example =
    Reach-goes_on 0 1 no_limits clock
      (system (at 0 run none (start clock none) false) (master waiting 1)
        (worker runs 1 none false ∷ []))
      (omega arith) runs_now

steps-le_example : steps over ≤ (20 * 0 + 54) * 1 + 20 * 0 + 47
steps-le_example = steps-le 0 1 no_limits clock over

-- A library that takes 5, 6 and 7 ticks, and one that is in time.
abbrev reference : Limits → Measured
reference l = ticks 5 6 7

evaluate_two : evaluate 16 (reference ∷ reference ∷ []) no_limits ≡ 0
unfolding evaluate
evaluate_two = refl

evaluate_error : evaluate 16 (reference ∷ (λ l. error) ∷ []) no_limits ≡ 1
unfolding evaluate
evaluate_error = refl
