-- ===== src/Grading/Driver/Ends.antt =====
-- `measure` (grading/grading.cpp) ends: a run has only so many steps.
use software_transactional_m.Prelude.{
  ℕ, zero, suc, ◌+◌, ◌*◌, ◌≡◌, ◌≤◌, ◌<◌, refl, true, false, List, [], ◌∷◌, All, All-mono,
  Bool-cases, subst, inl, inr, ltb, arith,
}
use software_transactional_m.Grading.Chrono.{Chrono}
use software_transactional_m.Grading.Driver.{
  Place, spins, ready, resets, starts, waits, runs, stores, aborts, notifies, clears, judges,
  settles_done, settles_fail, stops, raises, left, Sync, Worker, WorkerStep, sees_wait, sees_quit,
  ready_last, is_ready, resets_count, starts_all, sees_run, succeeds, reports, throws, stores_error,
  aborts_run, notifies_last, has_notified, clears_count, sees_abort, sees_no_abort, fails, finishes,
  stops_clock, raises_latch, MasterPlace, notifying, timing, waiting, woken, overrun, unexpected,
  joining, joined, returned, Master, Limits, after_round, MasterStep, notifies_all, starts_clock,
  takes, overruns, receives_done, receives_fail, receives_other, joins, System, Step, works, leads,
  returns, Reach, here, next, created, begin,
}
use software_transactional_m.Grading.Driver.Counts.{total, total-split, any}
use software_transactional_m.Grading.Driver.Stage.{Gathers, Runs, Rests}
use software_transactional_m.Grading.Driver.Phase.{
  Quits, gathering, running, resting, waking, Phase, turning, taking, quitting,
}
use software_transactional_m.Grading.Driver.Measure.{Inv, begin-Inv, Reach-Inv}

-- The places in the order of a round, from its meeting on.
abbrev way : Place → ℕ
way resets = 1
way starts = 2
way waits = 2
way runs = 3
way stores = 4
way aborts = 5
way notifies = 6
way clears = 7
way judges = 8
way settles_done = 9
way settles_fail = 9
way stops = 10
way raises = 11
way spins = 12
way ready = 13
way left = 14

abbrev walked : Worker → ℕ
walked w = way w.place + 20 * w.rounds

WorkerStep-walked :
    (k : ℕ) {s s' : Sync} {w w' : Worker} → WorkerStep k s w s' w' → walked w < walked w'
WorkerStep-walked k (sees_wait s n e x h) = omega arith
WorkerStep-walked k (sees_quit s n e x h) = omega arith
WorkerStep-walked k (ready_last s n e x h) = omega arith
WorkerStep-walked k (is_ready s n e x h) = omega arith
WorkerStep-walked k (resets_count s n e x) = omega arith
WorkerStep-walked k (starts_all s n e x) = omega arith
WorkerStep-walked k (sees_run s n e x h) = omega arith
WorkerStep-walked k (succeeds s n e x h) = omega arith
WorkerStep-walked k (reports s n e x m h) = omega arith
WorkerStep-walked k (throws s n e x) = omega arith
WorkerStep-walked k (stores_error s n e x) = omega arith
WorkerStep-walked k (aborts_run s n e x) = omega arith
WorkerStep-walked k (notifies_last s n e x h) = omega arith
WorkerStep-walked k (has_notified s n e false h) = omega arith
WorkerStep-walked k (has_notified s n e true h) = omega arith
WorkerStep-walked k (clears_count s n e x) = omega arith
WorkerStep-walked k (sees_abort s n e x h) = omega arith
WorkerStep-walked k (sees_no_abort s n e x h) = omega arith
WorkerStep-walked k (fails s n e x) = omega arith
WorkerStep-walked k (finishes s n e x) = omega arith
WorkerStep-walked k (stops_clock s n e x now) = omega arith
WorkerStep-walked k (raises_latch s n e false) = omega arith
WorkerStep-walked k (raises_latch s n e true) = omega arith

abbrev stage : MasterPlace → ℕ
stage timing = 1
stage waiting = 2
stage woken = 3
stage notifying = 4
stage (joining e) = 5
stage (joined e) = 6
stage (returned e) = 7
stage overrun = 7
stage unexpected = 7

abbrev led : Master → ℕ
led m = stage m.at + 20 * m.round

after_round-stage : (k r : ℕ) → 4 ≤ stage (after_round k r)
unfolding after_round
after_round-stage k r = elim (Bool-cases (ltb r (k + 2))) [
  | inl e ↦ rw e (omega arith)
  | inr e ↦ rw e (omega arith)
]

MasterStep-led :
    (k : ℕ) (l : Limits) {s s' : Sync} {m m' : Master} → MasterStep k l s m s' m' → led m < led m'
MasterStep-led k l (notifies_all s r ts) = omega arith
MasterStep-led k l (starts_clock s r ts now) = omega arith
MasterStep-led k l (takes s r ts h) = omega arith
MasterStep-led k l (overruns s r ts h g) = omega arith
MasterStep-led k l (receives_done s r ts h) = omega (arith, after_round-stage k r)
MasterStep-led k l (receives_fail s r ts h) = omega arith
MasterStep-led k l (receives_other s r ts h g) = omega arith
MasterStep-led k l (joins s r ts e) = omega arith

abbrev far : System → ℕ
far s = led s.master + total walked s.workers

Step-far : (k : ℕ) (l : Limits) {s t : System} → Step k l s t → far s < far t
Step-far k l (works {w = w} {w' = w'} m ts us st) =
    omega (arith, WorkerStep-walked k st, total-split walked ts w us, total-split walked ts w' us)
Step-far k l (leads ws st) = omega (arith, MasterStep-led k l st)
Step-far k l (returns s r ts e ws gone) = omega arith

-- How many steps a run has.
abbrev pub steps : {k : ℕ} {l : Limits} {s t : System} → Reach k l s t → ℕ
steps here = 0
steps (next r st) = suc (steps r)

Reach-far : (k : ℕ) (l : Limits) {s t : System} (r : Reach k l s t) → steps r + far s ≤ far t
Reach-far k l here = omega arith
Reach-far k l (next r st) = omega (arith, Reach-far k l r, Step-far k l st)

-- No worker is ahead of the master.
few_rounds : (k : ℕ) (s : System) → Inv k s → All (λ w. w.rounds ≤ s.master.round) s.workers
few_rounds k s i = in_phase i.phase
  where
    in_phase : Phase k s.sync s.master s.workers → All (λ w. w.rounds ≤ s.master.round) s.workers
    in_phase (turning b (gathering g d) y) =
        All-mono (Gathers s.master.round) (λ w. w.rounds ≤ s.master.round) (λ w f. ground arith)
          s.workers g.fits
    in_phase (turning b (running g d) y) =
        All-mono (Runs s.master.round) (λ w. w.rounds ≤ s.master.round) (λ w f. ground arith)
          s.workers g.fits
    in_phase (turning b (resting g e d) y) =
        All-mono (Rests s.master.round) (λ w. w.rounds ≤ s.master.round) (λ w f. ground arith)
          s.workers g.fits
    in_phase (turning b (waking g e d) y) =
        All-mono (Rests s.master.round) (λ w. w.rounds ≤ s.master.round) (λ w f. ground arith)
          s.workers g.fits
    in_phase (taking g e d y) =
        All-mono (Rests s.master.round) (λ w. w.rounds ≤ s.master.round) (λ w f. ground arith)
          s.workers g.fits
    in_phase (quitting q a y) =
        All-mono (Quits s.master.round) (λ w. w.rounds ≤ s.master.round) (λ w f. ground arith)
          s.workers a

way-le : (p : Place) → way p ≤ 14
way-le p = ground arith

stage-le : (p : MasterPlace) → stage p ≤ 7
stage-le p = ground arith

walked-le :
    (b : ℕ) (ws : List Worker)
    → All (λ w. w.rounds ≤ b) ws
    → total walked ws ≤ (14 + 20 * b) * total any ws
walked-le b [] a = omega arith
walked-le b (w ∷ ws) (h, a) =
    let rest = walked-le b ws a in let this = way-le w.place in grind arith

-- The threads stay.
pub Step-any :
    (k : ℕ) (l : Limits) {s t : System} → Step k l s t → total any t.workers ≡ total any s.workers
Step-any k l (works {w = w} {w' = w'} m ts us st) =
    omega (arith, total-split any ts w us, total-split any ts w' us)
Step-any k l (leads ws st) = refl
Step-any k l (returns s r ts e ws gone) = refl

pub created-any : (n : ℕ) → total any (created n) ≡ n
created-any zero = refl
created-any (suc n) = omega (arith, created-any n)

pub Reach-any :
    (k n : ℕ) (l : Limits) (c : Chrono) {s : System}
    → Reach k l (begin n c) s
    → total any s.workers ≡ n
Reach-any k n l c here = created-any n
Reach-any k n l c (next r st) = omega (arith, Reach-any k n l c r, Step-any k l st)

-- `measure` ends. With `k` repetitions, no run of it has more atomic operations than this bound, which is
-- linear in the number of threads; a look at the status that sends a thread round its loop is none.
pub steps-le :
    (k nbthreads : ℕ) (l : Limits) (c : Chrono) {s : System} (r : Reach k l (begin nbthreads c) s)
    → steps r ≤ (20 * k + 54) * nbthreads + 20 * k + 47
steps-le k nbthreads l c {s} r =
    let i = Reach-Inv k l (begin-Inv k nbthreads c) r in
    let few = i.few in
    let close =
      All-mono (λ w. w.rounds ≤ s.master.round) (λ w. w.rounds ≤ k + 2) (λ w h. omega (arith, few))
        s.workers (few_rounds k s i) in
    let most : total walked s.workers ≤ (14 + 20 * (k + 2)) * total any s.workers =
      walked-le (k + 2) s.workers close in
    let all : total any s.workers ≡ nbthreads = Reach-any k nbthreads l c r in
    let most' : total walked s.workers ≤ (14 + 20 * (k + 2)) * nbthreads =
      subst (λ j. total walked s.workers ≤ (14 + 20 * (k + 2)) * j) all most in
    let far_le = Reach-far k l r in let stage_le = stage-le s.master.at in grind arith
