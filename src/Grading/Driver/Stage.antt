-- ===== src/Grading/Driver/Stage.antt =====
-- The three stages of a round of class Sync (grading/grading.cpp): the workers gather, they run and
-- tell how it went, and they rest.
use software_transactional_m.Prelude.{
  ℕ, suc, ◌≡◌, ◌≤◌, ◌<◌, ◌⊎◌, inl, inr, some, List, ◌∷◌, ◌++◌, All, All-append, All-of_append,
  arith,
}
use software_transactional_m.Grading.Driver.{
  wait, run, abort, done, fail, Sync, spins, ready, resets, starts, waits, runs, stores, aborts,
  notifies, clears, judges, settles_done, settles_fail, stops, raises, left, Worker,
}
use software_transactional_m.Grading.Driver.Counts.{
  total, total-split, any, Count, here, resetting, starting, over, clearing, judging, finding,
  failing, said, told, says,
}

-- The worker of round `r`, or of the one before, where it may be in each stage.
abbrev pub Gathers : ℕ → Worker → Type 0
Gathers r w = elim (w.place) [
  | spins ↦ suc w.rounds ≡ r
  | ready ↦ suc w.rounds ≡ r
  | waits ↦ w.rounds ≡ r
  | resets ↦ w.rounds ≡ r
  | starts ↦ w.rounds ≡ r
  | _ ↦ ⊥
]

-- The worker reports an error.
abbrev pub Blames : Worker → Type 0
Blames w = (m : ℕ) × (w.error ≡ some m)

abbrev pub Runs : ℕ → Worker → Type 0
Runs r w = elim (w.place) [
  | waits ↦ w.rounds ≡ r
  | runs ↦ w.rounds ≡ r
  | stores ↦ (w.rounds ≡ r) × Blames w
  | aborts ↦ (w.rounds ≡ r) × Blames w
  | notifies ↦ w.rounds ≡ r
  | clears ↦ w.rounds ≡ r
  | judges ↦ w.rounds ≡ r
  | settles_done ↦ w.rounds ≡ r
  | settles_fail ↦ w.rounds ≡ r
  | spins ↦ w.rounds ≡ r
  | left ↦ (w.rounds ≡ r) × Blames w
  | _ ↦ ⊥
]

abbrev pub Rests : ℕ → Worker → Type 0
Rests r w = elim (w.place) [
  | stops ↦ w.rounds ≡ r
  | raises ↦ w.rounds ≡ r
  | spins ↦ w.rounds ≡ r
  | left ↦ (w.rounds ≡ r) × Blames w
  | _ ↦ ⊥
]

pub record Gathering (r : ℕ) (s : Sync) (ws : List Worker) : Type 0 where
  pub waiting : s.status ≡ wait
  pub all_here : s.nbworkers ≡ total any ws
  pub fits : All (Gathers r) ws
  pub counts : Count resetting starting here s.nbready s.nbworkers ws

-- What `errmsg` says, when someone has spoken.
abbrev pub Message : Sync → List Worker → Type 0
Message s ws = (m : ℕ) × (s.errmsg ≡ some m) × (0 < total (says m) ws)

pub record Running (r : ℕ) (s : Sync) (ws : List Worker) : Type 0 where
  pub all_here : s.nbworkers ≡ total any ws
  pub fits : All (Runs r) ws
  pub counts : Count clearing judging over s.nbready s.nbworkers ws
  pub so_far : ((s.status ≡ run) × (total told ws ≡ 0)) ⊎ ((s.status ≡ abort) × (0 < total told ws))
  pub message : (total said ws ≡ 0) ⊎ Message s ws
  pub found : (total finding ws ≡ 0) ⊎ (total told ws ≡ 0)
  pub failed : (total failing ws ≡ 0) ⊎ (0 < total told ws)

pub record Resting (r : ℕ) (s : Sync) (ws : List Worker) : Type 0 where
  pub all_here : s.nbworkers ≡ total any ws
  pub fits : All (Rests r) ws
  pub cleared : s.nbready ≡ 0
  pub verdict : ((s.status ≡ done) × (total told ws ≡ 0)) ⊎ ((s.status ≡ fail) × Message s ws)

module _ (P : Worker → Type 0) (ts us : List Worker) (w : Worker) where
  -- One worker of many, and another one in its place.
  pub All-here : All P (ts ++ w ∷ us) → P w
  All-here h = (All-of_append P ts (w ∷ us) h).1.0

  pub All-swap : (w' : Worker) → All P (ts ++ w ∷ us) → P w' → All P (ts ++ w' ∷ us)
  All-swap w' h p =
      let parts = All-of_append P ts (w ∷ us) h in All-append P ts (w' ∷ us) parts.0 (p, parts.1.1)

module _ (ts us : List Worker) (w w' : Worker) where
  pub Message-stays :
      (s : Sync)
      → ((m : ℕ) → says m w ≤ says m w')
      → Message s (ts ++ w ∷ us)
      → Message s (ts ++ w' ∷ us)
  Message-stays s same (m, e, lt) =
      (m, e, omega (arith, same m, total-split (says m) ts w us, total-split (says m) ts w' us))

module _ (r : ℕ) (ts us : List Worker) (w w' : Worker) where
  pub Gathering-moves :
      (s s' : Sync)
      → Gathering r s (ts ++ w ∷ us)
      → s'.status ≡ s.status
      → s'.nbworkers ≡ s.nbworkers
      → Gathers r w'
      → Count resetting starting here s'.nbready s.nbworkers (ts ++ w' ∷ us)
      → Gathering r s' (ts ++ w' ∷ us)
  Gathering-moves s s' g same e fit count = record {
    waiting = ground (arith, g.waiting);
    all_here = omega (arith, g.all_here, total-split any ts w us, total-split any ts w' us);
    fits = All-swap (Gathers r) ts us w w' g.fits fit;
    counts = rw e count;
  }

  -- A worker that runs moves and tells nothing.
  pub Running-moves :
      (s s' : Sync)
      → Running r s (ts ++ w ∷ us)
      → s'.status ≡ s.status
      → s'.errmsg ≡ s.errmsg
      → s'.nbworkers ≡ s.nbworkers
      → Runs r w'
      → Count clearing judging over s'.nbready s.nbworkers (ts ++ w' ∷ us)
      → told w' ≡ told w
      → said w' ≡ said w
      → ((m : ℕ) → says m w ≤ says m w')
      → finding w' ≡ finding w
      → failing w' ≡ failing w
      → Running r s' (ts ++ w' ∷ us)
  Running-moves s s' g same same_message e fit count t a m f d =
      let old = λ (h : Worker → ℕ). total-split h ts w us in
      let new = λ (h : Worker → ℕ). total-split h ts w' us in
      record {
        all_here = omega (arith, g.all_here, old any, new any);
        fits = All-swap (Runs r) ts us w w' g.fits fit;
        counts = rw e count;
        so_far = elim (g.so_far) [
          | inl (x, y) ↦ inl (ground arith, omega (arith, old told, new told))
          | inr (x, y) ↦ inr (ground arith, omega (arith, old told, new told))
        ];
        message = elim (g.message) [
          | inl y ↦ inl (omega (arith, old said, new said))
          | inr y ↦ inr (rw same_message (Message-stays ts us w w' s m y))
        ];
        found = elim (g.found) [
          | inl y ↦ inl (omega (arith, old finding, new finding))
          | inr y ↦ inr (omega (arith, old told, new told))
        ];
        failed = elim (g.failed) [
          | inl y ↦ inl (omega (arith, old failing, new failing))
          | inr y ↦ inr (omega (arith, old told, new told))
        ];
      }

  -- At rest the last one stops the clock and goes.
  pub Resting-moves :
      (s s' : Sync)
      → Resting r s (ts ++ w ∷ us)
      → s'.status ≡ s.status
      → s'.errmsg ≡ s.errmsg
      → s'.nbworkers ≡ s.nbworkers
      → s'.nbready ≡ s.nbready
      → Rests r w'
      → told w' ≡ told w
      → ((m : ℕ) → says m w ≤ says m w')
      → Resting r s' (ts ++ w' ∷ us)
  Resting-moves s s' g same same_message e clear fit t m =
      let old = λ (h : Worker → ℕ). total-split h ts w us in
      let new = λ (h : Worker → ℕ). total-split h ts w' us in
      record {
        all_here = omega (arith, g.all_here, old any, new any);
        fits = All-swap (Rests r) ts us w w' g.fits fit;
        cleared = omega (arith, g.cleared);
        verdict = elim (g.verdict) [
          | inl (x, y) ↦ inl (ground arith, omega (arith, old told, new told))
          | inr (x, y) ↦ inr (ground arith, rw same_message (Message-stays ts us w w' s m y))
        ];
      }
