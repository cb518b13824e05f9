-- ===== src/Grading/Driver/Progress.antt =====
-- `measure` (grading/grading.cpp) does not get stuck: while it goes on, a worker or the master can move.
use software_transactional_m.Prelude.{
  ℕ, suc, ◌+◌, ◌≡◌, ◌<◌, refl, ap, ◌⊎◌, inl, inr, Bool, true, Option, none, some, List, [], ◌∷◌,
  ◌++◌, All, arith, subst,
}
use software_transactional_m.Grading.Chrono.{Chrono, stop}
use software_transactional_m.Grading.Driver.{
  wait, run, abort, done, fail, quit, Sync, spins, ready, resets, starts, waits, runs, stores,
  aborts, notifies, clears, judges, settles_done, settles_fail, stops, raises, left, Worker, worker,
  WorkerStep, sees_wait, sees_quit, ready_last, is_ready, resets_count, starts_all, sees_run,
  throws, stores_error, aborts_run, notifies_last, has_notified, clears_count, sees_abort,
  sees_no_abort, fails, finishes, stops_clock, raises_latch, notifying, timing, waiting, woken,
  overrun, unexpected, joining, joined, returned, MasterPlace, Master, Limits, after_notify,
  internal, Status, notifies_all, starts_clock, takes, receives_done, receives_fail, joins, System,
  system, Place, Step, works, leads, returns, Reach, begin,
}
use software_transactional_m.Grading.Driver.Counts.{
  total, total-split, any, over, clearing, judging, resetting, starting, ending, told, says,
}
use software_transactional_m.Grading.Driver.Counts
use software_transactional_m.Grading.Driver.Stage.{Gathers, Runs, Gathering, Running, All-here}
use software_transactional_m.Grading.Driver.Phase.{
  Quits, Turning, gathering, running, resting, waking, Phase, turning, taking, quitting,
}
use software_transactional_m.Grading.Driver.Measure.{begin-Inv, Reach-Inv}
use software_transactional_m.Grading.Driver.Ends.{Reach-any}
use native.Mathlib.Decide.{dec_lt, ℕ_discrete}

-- Where a worker can move, for the shared state it finds.
abbrev CanMove : Sync → Place → Type 0
CanMove s spins = (s.status ≡ wait) ⊎ (s.status ≡ quit)
CanMove s waits = (s.status ≡ run) ⊎ (s.status ≡ abort)
CanMove s left = ⊥
CanMove s _ = Unit

Status-discrete : Discrete Status
Status-discrete = hlevel

-- The move that it then makes.
abbrev Moved : ℕ → Sync → Worker → Type 0
Moved k s w = (s' : Sync) × (w' : Worker) × WorkerStep k s w s' w'

move :
    (k : ℕ) (s : Sync) (p : Place) (n : ℕ) (e : Option ℕ) (x : Bool)
    → CanMove s p
    → Moved k s (worker p n e x)
move k s spins n e x (inl h) = (s, worker ready n e x, sees_wait s n e x h)
move k s spins n e x (inr h) = (s, worker left n e x, sees_quit s n e x h)
move k s ready n e x h = elim (ℕ_discrete (s.nbready + 1) s.nbworkers) [
  | yes last ↦
      (record s { nbready = s.nbready + 1 }, worker resets (suc n) e x, ready_last s n e x last)
  | no other ↦
      (record s { nbready = s.nbready + 1 }, worker waits (suc n) e x, is_ready s n e x other)
]
move k s resets n e x h = (record s { nbready = 0 }, worker starts n e x, resets_count s n e x)
move k s starts n e x h = (record s { status = run }, worker runs n e x, starts_all s n e x)
move k s waits n e x h = (s, worker runs n e x, sees_run s n e x h)
move k s runs n e x h = (s, worker stores n (some internal) true, throws s n e x)
move k s stores n e x h = (record s { errmsg = e }, worker aborts n e x, stores_error s n e x)
move k s aborts n e x h = (record s { status = abort }, worker notifies n e x, aborts_run s n e x)
move k s notifies n e x h = elim (ℕ_discrete (s.nbready + 1) s.nbworkers) [
  | yes last ↦
      (record s { nbready = s.nbready + 1 }, worker clears n e x, notifies_last s n e x last)
  | no other ↦ (
    record s { nbready = s.nbready + 1 },
    worker (after_notify x) n e x,
    has_notified s n e x other,
  )
]
move k s clears n e x h = (record s { nbready = 0 }, worker judges n e x, clears_count s n e x)
move k s judges n e x h = elim (Status-discrete s.status abort) [
  | yes bad ↦ (s, worker settles_fail n e x, sees_abort s n e x bad)
  | no good ↦ (s, worker settles_done n e x, sees_no_abort s n e x good)
]
move k s settles_done n e x h = (record s { status = done }, worker stops n e x, finishes s n e x)
move k s settles_fail n e x h = (record s { status = fail }, worker stops n e x, fails s n e x)
move k s stops n e x h =
    (record s { runtime = stop s.runtime none }, worker raises n e x, stops_clock s n e x none)
move k s raises n e x h =
    (record s { raised = true }, worker (after_notify x) n e x, raises_latch s n e x)
move k s left n e x h = elim h [ ]

-- A worker for which a sum is not zero, and one that a sum leaves out.
abbrev Found : (Worker → Type 0) → List Worker → Type 0
Found P ws = (ts : List Worker) × (us : List Worker) × (w : Worker) × (ws ≡ ts ++ w ∷ us) × P w

found_later : (P : Worker → Type 0) (w : Worker) (ws : List Worker) → Found P ws → Found P (w ∷ ws)
found_later P w ws (ts, us, v, e, p) = (w ∷ ts, us, v, ap (λ j. w ∷ j) e, p)

find : (f : Worker → ℕ) (ws : List Worker) → 0 < total f ws → Found (λ w. 0 < f w) ws
find f [] h = absurd (omega arith)
find f (w ∷ ws) h = elim (dec_lt 0 (f w)) [
  | yes p ↦ ([], ws, w, refl, p)
  | no p ↦ found_later (λ j. 0 < f j) w ws (find f ws (omega arith))
]

find_less :
    (f : Worker → ℕ) (ws : List Worker) → total f ws < total any ws → Found (λ w. f w ≡ 0) ws
find_less f [] h = absurd (omega arith)
find_less f (w ∷ ws) h = elim (dec_lt 0 (f w)) [
  | yes p ↦ found_later (λ j. f j ≡ 0) w ws (find_less f ws (omega arith))
  | no p ↦ ([], ws, w, refl, omega arith)
]

module _ (k : ℕ) (l : Limits) (m : Master) where
  abbrev Next : Sync → List Worker → Type 0
  Next s ws = (t : System) × Step k l (system s m ws) t

  -- A worker that is found where it can move.
  go : (s : Sync) (ws : List Worker) → Found (λ w. CanMove s w.place) ws → Next s ws
  go s ws (ts, us, w, e, can) =
      let (s', w', st) = move k s w.place w.rounds w.error w.threw can in
      rw e (system s' m (ts ++ w' ∷ us), works m ts us st)

  weaken :
      (P Q : Worker → Type 0) (R : Worker → Type 0) (ws : List Worker)
      → ((w : Worker) → R w → P w → Q w)
      → All R ws
      → Found P ws
      → Found Q ws
  weaken P Q R ws h all (ts, us, w, e, p) =
      (ts, us, w, e, h w (All-here R ts us w (subst (All R) e all)) p)

  held :
      (f : Worker → ℕ) (s : Sync) (ws : List Worker)
      → ((w : Worker) → 0 < f w → CanMove s w.place)
      → total f ws ≡ 1
      → Found (λ w. CanMove s w.place) ws
  held f s ws h one = let (ts, us, w, e, p) = find f ws (omega arith) in (ts, us, w, e, h w p)

  Gathering-goes :
      (r : ℕ) (s : Sync) (ws : List Worker) → 0 < total any ws → Gathering r s ws → Next s ws
  Gathering-goes r s ws pos g = go s ws (elim (g.counts) [
    | inl (a, b, c, d) ↦
        weaken (λ w. Counts.here w ≡ 0) (λ w. CanMove s w.place) (Gathers r) ws
          (λ w f z. at w.place w.rounds w.error w.threw f z) g.fits
          (find_less Counts.here ws (omega (arith, g.all_here)))
    | inr (inl (a, b, c)) ↦ held resetting s ws (λ w h. ground arith) a
    | inr (inr (a, b, c, d)) ↦ held starting s ws (λ w h. ground arith) b
  ])
    where
      at :
          (p : Place) (n : ℕ) (e : Option ℕ) (x : Bool)
          → Gathers r (worker p n e x)
          → Counts.here (worker p n e x) ≡ 0
          → CanMove s p
      at spins n e x f z = inl g.waiting
      at ready n e x f z = tt
      at p n e x f z = ground arith

  Running-goes :
      (r : ℕ) (s : Sync) (ws : List Worker) → 0 < total any ws → Running r s ws → Next s ws
  Running-goes r s ws pos g = go s ws (elim (g.counts) [
    | inl (a, b, c, d) ↦
        weaken (λ w. over w ≡ 0) (λ w. CanMove s w.place) (Runs r) ws
          (λ w f z. at w.place w.rounds w.error w.threw f z) g.fits
          (find_less over ws (omega (arith, g.all_here)))
    | inr (inl (a, b, c)) ↦ held clearing s ws (λ w h. ground arith) a
    | inr (inr (a, b, c, d)) ↦ held judging s ws (λ w h. ground arith) b
  ])
    where
      at :
          (p : Place) (n : ℕ) (e : Option ℕ) (x : Bool)
          → Runs r (worker p n e x)
          → over (worker p n e x) ≡ 0
          → CanMove s p
      at waits n e x f z = elim (g.so_far) [ inl (a, b) ↦ inl a | inr (a, b) ↦ inr a ]
      at p n e x f z = ground arith

  resting_goes : (s : Sync) (ws : List Worker) → total ending ws ≡ 1 → Next s ws
  resting_goes s ws one = go s ws (held ending s ws (λ w h. ground arith) one)

  -- In the wait for the latch a worker moves, or the latch is up.
  waiting_goes :
      (r : ℕ) (s : Sync) (ws : List Worker)
      → 0 < total any ws
      → Turning r s ws
      → Next s ws ⊎ (s.raised ≡ true)
  waiting_goes r s ws pos (gathering g d) = inl (Gathering-goes r s ws pos g)
  waiting_goes r s ws pos (running g d) = inl (Running-goes r s ws pos g)
  waiting_goes r s ws pos (resting g e d) = inl (resting_goes s ws e)
  waiting_goes r s ws pos (waking g e d) = inr d

  -- At the join a worker spins, or all are out.
  joining_goes :
      (r : ℕ) (s : Sync) (ws : List Worker)
      → s.status ≡ quit
      → All (Quits r) ws
      → All (λ w. w.place ≡ left) ws ⊎ Next s ws
  joining_goes r s ws q a = elim (outs ws a) [
    | inl gone ↦ inl gone
    | inr found ↦ inr (go s ws found)
  ]
    where
      outs :
          (vs : List Worker)
          → All (Quits r) vs
          → All (λ w. w.place ≡ left) vs ⊎ Found (λ w. CanMove s w.place) vs
      outs [] a = inl tt
      outs (v ∷ vs) (f, fs) = elim (outs vs fs) [
        | inr found ↦ inr (found_later (λ w. CanMove s w.place) v vs found)
        | inl gone ↦ elim (spot v.place v.rounds v.error v.threw f) [
          | inl out ↦ inl (out, gone)
          | inr can ↦ inr ([], vs, v, refl, can)
        ]
      ]
        where
          spot :
              (p : Place) (n : ℕ) (e : Option ℕ) (x : Bool)
              → Quits r (worker p n e x)
              → (p ≡ left) ⊎ CanMove s p
          spot left n e x f = inl refl
          spot spins n e x f = inr (inr q)
          spot p n e x f = ground arith

-- The ends of `measure`: its return, and the exception of a limit.
abbrev pub Over : MasterPlace → Type 0
Over p = (p ≡ overrun) ⊎ ((e : Option ℕ) × (p ≡ returned e))

Phase-goes :
    (k : ℕ) (l : Limits) (s : Sync) (p : MasterPlace) (r : ℕ) (js : List ℕ) (ws : List Worker)
    → 0 < total any ws
    → Phase k s (record { at = p; round = r; ticks = js }) ws
    → Over p ⊎ Next k l (record { at = p; round = r; ticks = js }) s ws
Phase-goes k l s timing r js ws pos (turning b g y) = inr (_, leads ws (starts_clock s r js none))
Phase-goes k l s waiting r js ws pos (turning b g y) =
    elim (waiting_goes k l (record { at = waiting; round = r; ticks = js }) r s ws pos g) [
      | inl n ↦ inr n
      | inr up ↦ inr (_, leads ws (takes s r js up))
    ]
Phase-goes k l s overrun r js ws pos (turning b g y) = inl (inl refl)
Phase-goes k l s notifying r js ws pos (taking g e d y) = inr (_, leads ws (notifies_all s r js))
Phase-goes k l s woken r js ws pos (taking g e d y) = elim (g.verdict) [
  | inl (a, b) ↦ inr (_, leads ws (receives_done s r js a))
  | inr (a, b) ↦ inr (_, leads ws (receives_fail s r js a))
]
Phase-goes k l s (joining v) r js ws pos (taking g e d y) = inr (_, leads ws (joins s r js v))
Phase-goes k l s (joined v) r js ws pos (quitting q a y) =
    elim (joining_goes k l (record { at = joined v; round = r; ticks = js }) r s ws q a) [
      | inl gone ↦ inr (_, returns s r js v ws gone)
      | inr n ↦ inr n
    ]
Phase-goes k l s (returned v) r js ws pos (quitting q a y) = inl (inr (v, refl))
Phase-goes k l s notifying r js ws pos (turning b g y) = elim y [ ]
Phase-goes k l s woken r js ws pos (turning b g y) = elim y [ ]
Phase-goes k l s (joining v) r js ws pos (turning b g y) = elim y [ ]
Phase-goes k l s (joined v) r js ws pos (turning b g y) = elim y [ ]
Phase-goes k l s (returned v) r js ws pos (turning b g y) = elim y [ ]
Phase-goes k l s unexpected r js ws pos (turning b g y) = elim y [ ]
Phase-goes k l s timing r js ws pos (taking g e d y) = elim y [ ]
Phase-goes k l s waiting r js ws pos (taking g e d y) = elim y [ ]
Phase-goes k l s overrun r js ws pos (taking g e d y) = elim y [ ]
Phase-goes k l s (joined v) r js ws pos (taking g e d y) = elim y [ ]
Phase-goes k l s (returned v) r js ws pos (taking g e d y) = elim y [ ]
Phase-goes k l s unexpected r js ws pos (taking g e d y) = elim y [ ]
Phase-goes k l s timing r js ws pos (quitting q a y) = elim y [ ]
Phase-goes k l s waiting r js ws pos (quitting q a y) = elim y [ ]
Phase-goes k l s overrun r js ws pos (quitting q a y) = elim y [ ]
Phase-goes k l s notifying r js ws pos (quitting q a y) = elim y [ ]
Phase-goes k l s woken r js ws pos (quitting q a y) = elim y [ ]
Phase-goes k l s (joining v) r js ws pos (quitting q a y) = elim y [ ]
Phase-goes k l s unexpected r js ws pos (quitting q a y) = elim y [ ]

-- No deadlock. With a thread at least, in every state that `measure` can reach, it has returned or has
-- given up at a limit, or some thread can do its next atomic operation.
pub Reach-goes_on :
    (k nbthreads : ℕ) (l : Limits) (c : Chrono) (s : System)
    → 0 < nbthreads
    → Reach k l (begin nbthreads c) s
    → Over s.master.at ⊎ ((t : System) × Step k l s t)
Reach-goes_on k nbthreads l c s pos reach =
    Phase-goes k l s.sync s.master.at s.master.round s.master.ticks s.workers
      (omega (arith, Reach-any k nbthreads l c reach))
      ((Reach-Inv k l (begin-Inv k nbthreads c) reach).phase)
