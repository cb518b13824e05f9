-- ===== src/Grading/Driver/Measure.antt =====
-- The master of `measure` (grading/grading.cpp), and what holds at every time.
use software_transactional_m.Prelude.{
  ℕ, zero, suc, ◌+◌, ◌≡◌, ◌≤◌, refl, sym, inl, inr, Bool, true, false, List, [], ◌∷◌, ◌++◌, All,
  arith, Bool-cases, ltb, ltb→lt,
}
use software_transactional_m.Grading.Chrono.{Chrono, start, get_tick}
use software_transactional_m.Grading.Driver.{
  wait, done, fail, Sync, spins, Worker, timing, joined, returned, Master, Limits, after_round,
  MasterStep, notifies_all, starts_clock, takes, overruns, receives_done, receives_fail,
  receives_other, joins, System, Step, works, leads, returns, Reach, here, next, created, begin,
}
use software_transactional_m.Grading.Driver.Counts.{
  total, total-split, any, resetting, starting, ending, told, says,
}
use software_transactional_m.Grading.Driver.Counts
use software_transactional_m.Grading.Driver.Stage.{Gathers, Rests, Resting, All-here, All-swap}
use software_transactional_m.Grading.Driver.Moves.{Owns, WorkerStep-Owns}
use software_transactional_m.Grading.Driver.Phase.{
  Verdict, Took, Quits, Turning, gathering, running, resting, waking, Phase, turning, taking,
  quitting, Phase-WorkerStep,
}

-- A worker at rest that told no error is ready for the next round.
next_round :
    (r : ℕ) (w : Worker)
    → Rests r w
    → told w ≡ 0
    → ending w ≡ 0
    → Gathers (suc r) w × (w.place ≡ spins)
next_round r w f a b = ground arith

all_next :
    (r : ℕ) (ws : List Worker)
    → All (Rests r) ws
    → total told ws ≡ 0
    → total ending ws ≡ 0
    → All (Gathers (suc r)) ws
      × (total resetting ws ≡ 0)
      × (total starting ws ≡ 0)
      × (total Counts.here ws ≡ 0)
all_next r [] f a b = (tt, refl, refl, refl)
all_next r (w ∷ ws) (f, fs) a b =
    let (g, p) = next_round r w f (omega arith) (omega arith) in
    let (gs, x, y, z) = all_next r ws fs (omega arith) (omega arith) in
    ((g, gs), ground arith, ground arith, ground arith)

Rests-quit : (r : ℕ) (ws : List Worker) → All (Rests r) ws → total ending ws ≡ 0 → All (Quits r) ws
Rests-quit r [] f a = tt
Rests-quit r (w ∷ ws) (f, fs) a =
    let rest = Rests-quit r ws fs (omega arith) in (one w f (omega arith), rest)
  where
    one : (w : Worker) → Rests r w → ending w ≡ 0 → Quits r w
    one w f a = ground arith

module _ (k : ℕ) (l : Limits) (ws : List Worker) where
  -- The master begins a round.
  begins :
      (s : Sync) (r : ℕ) (ts : List ℕ)
      → Resting r s ws
      → total ending ws ≡ 0
      → s.raised ≡ false
      → s.status ≡ done
      → Phase k (record s { status = wait }) (record { at = timing; round = suc r; ticks = ts }) ws
  begins s r ts g e d good =
      let quiet : total told ws ≡ 0 = elim (g.verdict) [
        | inl (a, b) ↦ b
        | inr (a, b) ↦ absurd (ground arith)
      ] in
      let (fits, x, y, z) = all_next r ws g.fits quiet e in
      turning (omega arith)
        (gathering
          (record {
            waiting = refl;
            all_here = g.all_here;
            fits = fits;
            counts = inl (x, y, omega (arith, g.cleared), omega (arith, g.cleared));
          })
          d)
        tt

  -- What it makes of the status.
  answers_done :
      (s : Sync) (r : ℕ) (ts : List ℕ)
      → Resting r s ws
      → s.status ≡ done
      → r ≤ k + 2
      → Took k s (record { at = after_round k r; round = r; ticks = ts }) ws
  unfolding after_round
  answers_done s r ts g good few =
      let quiet : total told ws ≡ 0 = elim (g.verdict) [
        | inl (a, b) ↦ b
        | inr (a, b) ↦ absurd (ground arith)
      ] in
      elim (Bool-cases (ltb r (k + 2))) [
        | inl more ↦ rw more (good, ltb→lt r (k + 2) more)
        | inr last ↦ rw last (quiet, ground arith)
      ]

  answers_fail : (s : Sync) (r : ℕ) → Resting r s ws → s.status ≡ fail → Verdict k r ws s.errmsg
  answers_fail s r g bad = elim (g.verdict) [
    | inl (a, b) ↦ absurd (ground arith)
    | inr (a, (m, is, says_it)) ↦ rw is says_it
  ]

  -- The clock is apart from the rest.
  Resting-same :
      (s : Sync) (r : ℕ) (c : Chrono) (up : Bool)
      → Resting r s ws
      → Resting r (record s { runtime = c; raised = up }) ws
  Resting-same s r c up g = record {
    all_here = g.all_here;
    fits = g.fits;
    cleared = g.cleared;
    verdict = g.verdict;
  }

  Turning-clock :
      (s : Sync) (r : ℕ) (c : Chrono) → Turning r s ws → Turning r (record s { runtime = c }) ws
  Turning-clock s r c (gathering g e) =
      gathering
        (record { waiting = g.waiting; all_here = g.all_here; fits = g.fits; counts = g.counts }) e
  Turning-clock s r c (running g e) =
      running
        (record {
          all_here = g.all_here;
          fits = g.fits;
          counts = g.counts;
          so_far = g.so_far;
          message = g.message;
          found = g.found;
          failed = g.failed;
        })
        e
  Turning-clock s r c (resting g f e) = resting (Resting-same s r c s.raised g) f e
  Turning-clock s r c (waking g f e) = waking (Resting-same s r c s.raised g) f e

  -- The latch is up: the round is over.
  took :
      (s : Sync) (r : ℕ)
      → Turning r s ws
      → s.raised ≡ true
      → Resting r (record s { raised = false }) ws × (total ending ws ≡ 0)
  took s r (gathering g e) h = absurd (ground arith)
  took s r (running g e) h = absurd (ground arith)
  took s r (resting g f e) h = absurd (ground arith)
  took s r (waking g f e) h = (Resting-same s r s.runtime false g, f)

  Phase-MasterStep :
      {s s' : Sync} {m m' : Master}
      → Phase k s m ws
      → m.round ≤ k + 2
      → MasterStep k l s m s' m'
      → Phase k s' m' ws × (m'.round ≤ k + 2)
  Phase-MasterStep (taking g e d y) few (notifies_all s r ts) =
      (begins s r ts g e d y.0, omega (arith, y.1))
  Phase-MasterStep (turning b g y) few (starts_clock s r ts now) =
      (turning b (Turning-clock s r (start s.runtime now) g) tt, few)
  Phase-MasterStep (turning b g y) few (takes s r ts up) =
      let (g', e) = took s r g up in (taking g' e refl b, few)
  Phase-MasterStep (turning b g y) few (overruns s r ts down late) = (turning b g tt, few)
  Phase-MasterStep (taking g e d y) few (receives_done s r ts good) =
      (taking g e d (answers_done s r (ts ++ get_tick s.runtime ∷ []) g good few), few)
  Phase-MasterStep (taking g e d y) few (receives_fail s r ts bad) =
      (taking g e d (answers_fail s r g bad), few)
  Phase-MasterStep (taking g e d y) few (receives_other s r ts not_done not_fail) =
      absurd (elim (g.verdict) [ inl (a, b) ↦ not_done a | inr (a, b) ↦ not_fail a ])
  Phase-MasterStep (taking g e d y) few (joins s r ts v) =
      (quitting refl (Rests-quit r ws g.fits e) y, few)
  Phase-MasterStep (turning b g y) few (notifies_all s r ts) = elim y [ ]
  Phase-MasterStep (turning b g y) few (receives_done s r ts good) = elim y [ ]
  Phase-MasterStep (turning b g y) few (receives_fail s r ts bad) = elim y [ ]
  Phase-MasterStep (turning b g y) few (receives_other s r ts x z) = elim y [ ]
  Phase-MasterStep (turning b g y) few (joins s r ts v) = elim y [ ]
  Phase-MasterStep (taking g e d y) few (starts_clock s r ts now) = elim y [ ]
  Phase-MasterStep (taking g e d y) few (takes s r ts up) = elim y [ ]
  Phase-MasterStep (taking g e d y) few (overruns s r ts down late) = elim y [ ]
  Phase-MasterStep (quitting q a y) few (notifies_all s r ts) = elim y [ ]
  Phase-MasterStep (quitting q a y) few (starts_clock s r ts now) = elim y [ ]
  Phase-MasterStep (quitting q a y) few (takes s r ts up) = elim y [ ]
  Phase-MasterStep (quitting q a y) few (overruns s r ts down late) = elim y [ ]
  Phase-MasterStep (quitting q a y) few (receives_done s r ts good) = elim y [ ]
  Phase-MasterStep (quitting q a y) few (receives_fail s r ts bad) = elim y [ ]
  Phase-MasterStep (quitting q a y) few (receives_other s r ts x z) = elim y [ ]
  Phase-MasterStep (quitting q a y) few (joins s r ts v) = elim y [ ]

pub record Inv (k : ℕ) (s : System) : Type 0 where
  pub phase : Phase k s.sync s.master s.workers
  pub owns : All Owns s.workers
  pub few : s.master.round ≤ k + 2

pub Step-Inv : (k : ℕ) (l : Limits) {s t : System} → Inv k s → Step k l s t → Inv k t
Step-Inv k l i (works {w = w} {w' = w'} m ts us st) = record {
  phase = Phase-WorkerStep k ts us m i.phase i.owns st;
  owns = All-swap Owns ts us w w' i.owns (WorkerStep-Owns k st (All-here Owns ts us w i.owns));
  few = i.few;
}
Step-Inv k l i (leads ws st) =
    let (p, few) = Phase-MasterStep k l ws i.phase i.few st in
    record { phase = p; owns = i.owns; few = few }
Step-Inv k l i (returns s r ts e ws gone) = record {
  phase = back (i.phase);
  owns = i.owns;
  few = i.few;
}
  where
    back :
        Phase k s (record { at = joined e; round = r; ticks = ts }) ws
        → Phase k s (record { at = returned e; round = r; ticks = ts }) ws
    back (turning b g y) = elim y [ ]
    back (taking g f d y) = elim y [ ]
    back (quitting q a y) = quitting q a (y, gone)

created_rest :
    (n : ℕ)
    → All (Rests 0) (created n)
      × All Owns (created n)
      × (total any (created n) ≡ n)
      × (total told (created n) ≡ 0)
      × (total ending (created n) ≡ 0)
created_rest zero = (tt, tt, refl, refl, refl)
created_rest (suc n) =
    let (a, b, c, d, e) = created_rest n in
    ((refl, a), (inl refl, b), omega (arith, c), omega (arith, d), omega (arith, e))

pub begin-Inv : (k nbthreads : ℕ) (c : Chrono) → Inv k (begin nbthreads c)
begin-Inv k nbthreads c =
    let (a, b, e, f, g) = created_rest nbthreads in
    record {
      phase =
          taking (record { all_here = sym e; fits = a; cleared = refl; verdict = inl (refl, f) }) g
            refl (refl, omega arith);
      owns = b;
      few = omega arith;
    }

pub Reach-Inv : (k : ℕ) (l : Limits) {s t : System} → Inv k s → Reach k l s t → Inv k t
Reach-Inv k l i here = i
Reach-Inv k l i (next r st) = Step-Inv k l (Reach-Inv k l i r) st
