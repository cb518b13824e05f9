-- ===== src/Grading/Driver/Phase.antt =====
-- Where `measure` (grading/grading.cpp) is, master and workers together, and the steps of the workers.
use software_transactional_m.Prelude.{
  ℕ, ◌+◌, ◌≡◌, ◌<◌, refl, ◌∙◌, inl, inr, true, false, Option, none, some, List, ◌∷◌, ◌++◌, All,
  arith,
}
use software_transactional_m.Grading.Driver.{
  done, quit, Sync, spins, left, Worker, WorkerStep, sees_wait, sees_quit, ready_last, is_ready,
  resets_count, starts_all, sees_run, succeeds, reports, throws, stores_error, aborts_run,
  notifies_last, has_notified, clears_count, sees_abort, sees_no_abort, fails, finishes,
  stops_clock, raises_latch, notifying, timing, waiting, woken, overrun, unexpected, joining,
  joined, returned, MasterPlace, Master,
}
use software_transactional_m.Grading.Driver.Counts.{total, total-split, ending, told, says}
use software_transactional_m.Grading.Driver.Stage.{Gathering, Running, Resting, All-here, All-swap}
use software_transactional_m.Grading.Driver.Moves.{Owns, Gathering-WorkerStep}
use software_transactional_m.Grading.Driver.Runs.{Running-WorkerStep, Resting-WorkerStep}

-- The master has begun a round and has not been woken.
abbrev pub Busy : Master → Type 0
Busy m = elim (m.at) [ timing ↦ Unit {0} | waiting ↦ Unit {0} | overrun ↦ Unit {0} | _ ↦ ⊥ ]

-- What an answer says of the workers.
abbrev pub Verdict : (k r : ℕ) → List Worker → Option ℕ → Type 0
Verdict k r ws none = (total told ws ≡ 0) × (r ≡ k + 2)
Verdict k r ws (some m) = 0 < total (says m) ws

-- The master has been woken, and the workers are at rest.
abbrev pub Took : ℕ → Sync → Master → List Worker → Type 0
Took k s m ws = elim (m.at) [
  | woken ↦ 0 < m.round
  | notifying ↦ (s.status ≡ done) × (m.round < k + 2)
  | joining e ↦ Verdict k m.round ws e
  | _ ↦ ⊥
]

abbrev pub Quits : ℕ → Worker → Type 0
Quits r w = elim (w.place) [ spins ↦ w.rounds ≡ r | left ↦ w.rounds ≡ r | _ ↦ ⊥ ]

abbrev pub Ended : (k r : ℕ) → MasterPlace → List Worker → Type 0
Ended k r (joined e) ws = Verdict k r ws e
Ended k r (returned e) ws = Verdict k r ws e × All (λ w. w.place ≡ left) ws
Ended k r _ ws = ⊥

-- A round that has begun: the latch is up only at its end.
pub data Turning (r : ℕ) (s : Sync) (ws : List Worker) : Type 0 where
  gathering : Gathering r s ws → s.raised ≡ false → Turning r s ws
  running : Running r s ws → s.raised ≡ false → Turning r s ws
  resting : Resting r s ws → total ending ws ≡ 1 → s.raised ≡ false → Turning r s ws
  waking : Resting r s ws → total ending ws ≡ 0 → s.raised ≡ true → Turning r s ws

pub data Phase (k : ℕ) (s : Sync) (m : Master) (ws : List Worker) : Type 0 where
  turning : 0 < m.round → Turning m.round s ws → Busy m → Phase k s m ws
  taking :
      Resting m.round s ws → total ending ws ≡ 0 → s.raised ≡ false → Took k s m ws → Phase k s m ws
  quitting : s.status ≡ quit → All (Quits m.round) ws → Ended k m.round m.at ws → Phase k s m ws

module _ (k : ℕ) (ts us : List Worker) (m : Master) where
  -- A worker that quits changes neither sum.
  Quits-WorkerStep :
      {s s' : Sync} {w w' : Worker}
      → s.status ≡ quit
      → Quits m.round w
      → WorkerStep k s w s' w'
      → (s'.status ≡ quit)
        × Quits m.round w'
        × (w.place ≡ spins)
        × (told w ≡ told w')
        × ((j : ℕ) → says j w ≡ says j w')
  Quits-WorkerStep q f (sees_wait s n e x h) = absurd (ground arith)
  Quits-WorkerStep q f (sees_quit s n e x h) = (q, f, refl, ground arith, λ j. ground arith)
  Quits-WorkerStep q f (ready_last s n e x h) = elim f [ ]
  Quits-WorkerStep q f (is_ready s n e x h) = elim f [ ]
  Quits-WorkerStep q f (resets_count s n e x) = elim f [ ]
  Quits-WorkerStep q f (starts_all s n e x) = elim f [ ]
  Quits-WorkerStep q f (sees_run s n e x h) = elim f [ ]
  Quits-WorkerStep q f (succeeds s n e x h) = elim f [ ]
  Quits-WorkerStep q f (reports s n e x j h) = elim f [ ]
  Quits-WorkerStep q f (throws s n e x) = elim f [ ]
  Quits-WorkerStep q f (stores_error s n e x) = elim f [ ]
  Quits-WorkerStep q f (aborts_run s n e x) = elim f [ ]
  Quits-WorkerStep q f (notifies_last s n e x h) = elim f [ ]
  Quits-WorkerStep q f (has_notified s n e x h) = elim f [ ]
  Quits-WorkerStep q f (clears_count s n e x) = elim f [ ]
  Quits-WorkerStep q f (sees_abort s n e x h) = elim f [ ]
  Quits-WorkerStep q f (sees_no_abort s n e x h) = elim f [ ]
  Quits-WorkerStep q f (fails s n e x) = elim f [ ]
  Quits-WorkerStep q f (finishes s n e x) = elim f [ ]
  Quits-WorkerStep q f (stops_clock s n e x now) = elim f [ ]
  Quits-WorkerStep q f (raises_latch s n e x) = elim f [ ]

  Verdict-moves :
      (w w' : Worker) (r : ℕ) (e : Option ℕ)
      → told w ≡ told w'
      → ((j : ℕ) → says j w ≡ says j w')
      → Verdict k r (ts ++ w ∷ us) e
      → Verdict k r (ts ++ w' ∷ us) e
  Verdict-moves w w' r none a b (v, e) =
      (omega (arith, total-split told ts w us, total-split told ts w' us), e)
  Verdict-moves w w' r (some j) a b v =
      omega (arith, b j, total-split (says j) ts w us, total-split (says j) ts w' us)

  Ended-moves :
      (w w' : Worker) (r : ℕ) (at : MasterPlace)
      → w.place ≡ spins
      → told w ≡ told w'
      → ((j : ℕ) → says j w ≡ says j w')
      → Ended k r at (ts ++ w ∷ us)
      → Ended k r at (ts ++ w' ∷ us)
  Ended-moves w w' r (joined e) p a b v = Verdict-moves w w' r e a b v
  Ended-moves w w' r (returned e) p a b (v, gone) =
      let out = All-here (λ (x : Worker). x.place ≡ left) ts us w gone in absurd (cc)
  Ended-moves w w' r notifying p a b v = v
  Ended-moves w w' r timing p a b v = v
  Ended-moves w w' r waiting p a b v = v
  Ended-moves w w' r woken p a b v = v
  Ended-moves w w' r overrun p a b v = v
  Ended-moves w w' r unexpected p a b v = v
  Ended-moves w w' r (joining e) p a b v = v

  Turning-WorkerStep :
      {s s' : Sync} {w w' : Worker} (r : ℕ)
      → Turning r s (ts ++ w ∷ us)
      → All Owns (ts ++ w ∷ us)
      → WorkerStep k s w s' w'
      → Turning r s' (ts ++ w' ∷ us)
  Turning-WorkerStep r (gathering g l) o st =
      let (at, same) = Gathering-WorkerStep k r ts us g st in
      elim at [ inl g' ↦ gathering g' (same ∙ l) | inr g' ↦ running g' (same ∙ l) ]
  Turning-WorkerStep {w} r (running g l) o st =
      let (at, same) = Running-WorkerStep k r ts us g (All-here Owns ts us w o) st in
      elim at [ inl g' ↦ running g' (same ∙ l) | inr (g', e) ↦ resting g' e (same ∙ l) ]
  Turning-WorkerStep {w} {w'} r (resting g e l) o st =
      let (g', one, at) = Resting-WorkerStep k r ts us g (All-here Owns ts us w o) st in
      elim at [
        | inl (f, same) ↦
            resting g' (omega (arith, total-split ending ts w us, total-split ending ts w' us))
              (same ∙ l)
        | inr (f, up) ↦
            waking g' (omega (arith, total-split ending ts w us, total-split ending ts w' us)) up
      ]
  Turning-WorkerStep {w} r (waking g e l) o st =
      let (g', one, at) = Resting-WorkerStep k r ts us g (All-here Owns ts us w o) st in
      absurd (omega (arith, total-split ending ts w us))

  pub Phase-WorkerStep :
      {s s' : Sync} {w w' : Worker}
      → Phase k s m (ts ++ w ∷ us)
      → All Owns (ts ++ w ∷ us)
      → WorkerStep k s w s' w'
      → Phase k s' m (ts ++ w' ∷ us)
  Phase-WorkerStep (turning b g y) o st = turning b (Turning-WorkerStep m.round g o st) y
  Phase-WorkerStep {w} (taking g e l y) o st =
      let (g', one, at) = Resting-WorkerStep k m.round ts us g (All-here Owns ts us w o) st in
      absurd (omega (arith, total-split ending ts w us))
  Phase-WorkerStep {w} {w'} (quitting q a y) o st =
      let (q', f, p, t, j) = Quits-WorkerStep q (All-here (Quits m.round) ts us w a) st in
      quitting q' (All-swap (Quits m.round) ts us w w' a f) (Ended-moves w w' m.round m.at p t j y)
