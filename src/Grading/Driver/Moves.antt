-- ===== src/Grading/Driver/Moves.antt =====
-- Every step of a worker of class Sync (grading/grading.cpp), in each stage of a round.
use software_transactional_m.Prelude.{
  ℕ, suc, ◌+◌, ◌≡◌, refl, ◌⊎◌, inl, inr, false, List, ◌∷◌, ◌++◌, arith,
}
use software_transactional_m.Grading.Driver.{
  Sync, spins, ready, resets, starts, waits, Worker, worker, WorkerStep, sees_wait, sees_quit,
  ready_last, is_ready, resets_count, starts_all, sees_run, succeeds, reports, throws, stores_error,
  aborts_run, notifies_last, has_notified, clears_count, sees_abort, sees_no_abort, fails, finishes,
  stops_clock, raises_latch, internal,
}
use software_transactional_m.Grading.Driver.Counts.{
  Count-stays, Count-adds, Count-clears, here, resetting, starting,
}
use software_transactional_m.Grading.Driver.Stage.{
  Gathers, Blames, Gathering, Running, All-here, Gathering-moves,
}
use software_transactional_m.Grading.Driver.Rounds.{started, here-le}

-- A worker that came from an exception has an error to report.
abbrev pub Owns : Worker → Type 0
Owns w = (w.threw ≡ false) ⊎ Blames w

pub WorkerStep-Owns :
    (k : ℕ) {s s' : Sync} {w w' : Worker} → WorkerStep k s w s' w' → Owns w → Owns w'
WorkerStep-Owns k (succeeds s n e x t) o = inl refl
WorkerStep-Owns k (reports s n e x m t) o = inl refl
WorkerStep-Owns k (throws s n e x) o = inr (internal, refl)
WorkerStep-Owns k (sees_wait s n e x h) o = o
WorkerStep-Owns k (sees_quit s n e x h) o = o
WorkerStep-Owns k (ready_last s n e x h) o = o
WorkerStep-Owns k (is_ready s n e x h) o = o
WorkerStep-Owns k (resets_count s n e x) o = o
WorkerStep-Owns k (starts_all s n e x) o = o
WorkerStep-Owns k (sees_run s n e x h) o = o
WorkerStep-Owns k (stores_error s n e x) o = o
WorkerStep-Owns k (aborts_run s n e x) o = o
WorkerStep-Owns k (notifies_last s n e x h) o = o
WorkerStep-Owns k (has_notified s n e x h) o = o
WorkerStep-Owns k (clears_count s n e x) o = o
WorkerStep-Owns k (sees_abort s n e x h) o = o
WorkerStep-Owns k (sees_no_abort s n e x h) o = o
WorkerStep-Owns k (fails s n e x) o = o
WorkerStep-Owns k (finishes s n e x) o = o
WorkerStep-Owns k (stops_clock s n e x now) o = o
WorkerStep-Owns k (raises_latch s n e x) o = o

module _ (k r : ℕ) (ts us : List Worker) where
  -- From the gathering the last worker leads on to the run.
  pub Gathering-WorkerStep :
      {s s' : Sync} {w w' : Worker}
      → Gathering r s (ts ++ w ∷ us)
      → WorkerStep k s w s' w'
      → (Gathering r s' (ts ++ w' ∷ us) ⊎ Running r s' (ts ++ w' ∷ us)) × (s'.raised ≡ s.raised)
  Gathering-WorkerStep {w} g st = within g st (All-here (Gathers r) ts us w g.fits)
    where
      stays :
          (s : Sync) (w w' : Worker)
          → Gathering r s (ts ++ w ∷ us)
          → Gathers r w'
          → resetting w ≡ resetting w'
          → starting w ≡ starting w'
          → here w ≡ here w'
          → Gathering r s (ts ++ w' ∷ us)
      stays s w w' g fit a b c =
          Gathering-moves r ts us w w' s s g refl refl fit
            (Count-stays resetting starting here s.nbready s.nbworkers ts us w w' a b c g.counts)

      within :
          {s s' : Sync} {w w' : Worker}
          → Gathering r s (ts ++ w ∷ us)
          → WorkerStep k s w s' w'
          → Gathers r w
          → (Gathering r s' (ts ++ w' ∷ us) ⊎ Running r s' (ts ++ w' ∷ us)) × (s'.raised ≡ s.raised)
      within g (sees_wait s n e x h) f =
          (inl (stays s (worker spins n e x) (worker ready n e x) g f refl refl refl), refl)
      within g (sees_quit s n e x h) f = absurd (ground (arith, g.waiting))
      within g (ready_last s n e x h) f = (
        inl (
            Gathering-moves r ts us (worker ready n e x) (worker resets (suc n) e x) s
              (record s { nbready = s.nbready + 1 }) g refl refl f
              (Count-adds resetting starting here s.nbready s.nbworkers ts us (worker ready n e x)
                (worker resets (suc n) e x) g.all_here here-le refl refl refl refl refl
                (inl (h, refl)) g.counts)),
        refl,
      )
      within g (is_ready s n e x h) f = (
        inl (
            Gathering-moves r ts us (worker ready n e x) (worker waits (suc n) e x) s
              (record s { nbready = s.nbready + 1 }) g refl refl f
              (Count-adds resetting starting here s.nbready s.nbworkers ts us (worker ready n e x)
                (worker waits (suc n) e x) g.all_here here-le refl refl refl refl refl
                (inr (h, refl)) g.counts)),
        refl,
      )
      within g (resets_count s n e x) f = (
        inl (
            Gathering-moves r ts us (worker resets n e x) (worker starts n e x) s
              (record s { nbready = 0 }) g refl refl f
              (Count-clears resetting starting here s.nbready s.nbworkers ts us
                (worker resets n e x) (worker starts n e x) refl refl refl refl refl g.counts)),
        refl,
      )
      within g (starts_all s n e x) f = (inr (started r ts us n e x s g), refl)
      within g (sees_run s n e x (inl h)) f = absurd (ground (arith, g.waiting))
      within g (sees_run s n e x (inr h)) f = absurd (ground (arith, g.waiting))
      within g (succeeds s n e x h) f = elim f [ ]
      within g (reports s n e x m h) f = elim f [ ]
      within g (throws s n e x) f = elim f [ ]
      within g (stores_error s n e x) f = elim f [ ]
      within g (aborts_run s n e x) f = elim f [ ]
      within g (notifies_last s n e x h) f = elim f [ ]
      within g (has_notified s n e x h) f = elim f [ ]
      within g (clears_count s n e x) f = elim f [ ]
      within g (sees_abort s n e x h) f = elim f [ ]
      within g (sees_no_abort s n e x h) f = elim f [ ]
      within g (fails s n e x) f = elim f [ ]
      within g (finishes s n e x) f = elim f [ ]
      within g (stops_clock s n e x now) f = elim f [ ]
      within g (raises_latch s n e x) f = elim f [ ]
