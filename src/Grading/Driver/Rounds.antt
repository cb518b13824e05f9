-- ===== src/Grading/Driver/Rounds.antt =====
-- Class Sync (grading/grading.cpp): the worker that comes last starts the round, and ends it.
use software_transactional_m.Prelude.{
  ℕ, ◌+◌, ◌≡◌, ◌≤◌, refl, sym, ◌∙◌, inl, inr, Bool, Option, List, [], ◌∷◌, ◌++◌, All, All-mono,
  All-append, All-of_append, arith,
}
use software_transactional_m.Grading.Driver.{
  run, done, fail, Sync, starts, waits, runs, settles_done, settles_fail, stops, Worker, worker,
}
use software_transactional_m.Grading.Driver.Counts.{
  total, total-split, total_mono, any, Count-full, here, resetting, starting, over, clearing,
  judging, finding, failing, ending, said, told,
}
use software_transactional_m.Grading.Driver.Stage.{
  Gathers, Runs, Rests, Gathering, Message-stays, Running, Resting, All-here,
}

total-zero :
    (f : Worker → ℕ) (P : Worker → Type 0)
    → ((w : Worker) → P w → f w ≡ 0)
    → (ws : List Worker) → All P ws
    → total f ws ≡ 0
total-zero f P h [] a = refl
total-zero f P h (w ∷ ws) (p, a) = omega (arith, h w p, total-zero f P h ws a)

pub here-le : (w : Worker) → here w ≤ 1
here-le w = ground arith

pub over-le : (w : Worker) → over w ≤ 1
over-le w = ground arith

-- A worker that waits for the last one of its round.
abbrev Waits : ℕ → Worker → Type 0
Waits r w = (w.place ≡ waits) × (w.rounds ≡ r)

Waits-of_Gathers :
    (r : ℕ) (w : Worker) → Gathers r w → here w ≡ 1 → resetting w ≡ 0 → starting w ≡ 0 → Waits r w
Waits-of_Gathers r w g h a b = ground arith

Rests-of_Runs :
    (r : ℕ) (w : Worker)
    → Runs r w
    → over w ≡ 1
    → clearing w ≡ 0
    → judging w ≡ 0
    → Rests r w × (ending w ≡ 0)
Rests-of_Runs r w g h a b = ground arith

Runs-of_Waits : (r : ℕ) (w : Worker) → Waits r w → Runs r w
Runs-of_Waits r w (e, h) = rw e h

-- All have come, and none of these is the last one.
all_wait :
    (r : ℕ) (ws : List Worker)
    → All (Gathers r) ws
    → total here ws ≡ total any ws
    → total resetting ws ≡ 0
    → total starting ws ≡ 0
    → All (Waits r) ws
all_wait r [] g h a b = tt
all_wait r (w ∷ ws) (g, gs) h a b =
    let most = total_mono here any here-le ws in
    let one = here-le w in
    (
      Waits-of_Gathers r w g (omega arith) (omega arith) (omega arith),
      all_wait r ws gs (omega arith) (omega arith) (omega arith),
    )

all_rest :
    (r : ℕ) (ws : List Worker)
    → All (Runs r) ws
    → total over ws ≡ total any ws
    → total clearing ws ≡ 0
    → total judging ws ≡ 0
    → All (Rests r) ws × (total ending ws ≡ 0)
all_rest r [] g h a b = (tt, refl)
all_rest r (w ∷ ws) (g, gs) h a b =
    let most = total_mono over any over-le ws in
    let one = over-le w in
    let this = Rests-of_Runs r w g (omega arith) (omega arith) (omega arith) in
    let rest = all_rest r ws gs (omega arith) (omega arith) (omega arith) in
    ((this.0, rest.0), omega (arith, this.1, rest.1))

told-le_said : (w : Worker) → told w ≤ said w
told-le_said w = ground arith

-- Only this worker counts.
alone :
    (f : Worker → ℕ) (P : Worker → Type 0)
    → ((v : Worker) → P v → f v ≡ 0)
    → (ts us : List Worker) (w : Worker) → All P ts
    → All P us
    → total f (ts ++ w ∷ us) ≡ f w
alone f P h ts us w a b =
    omega (arith, total-split f ts w us, total-zero f P h ts a, total-zero f P h us b)

module _ (r : ℕ) (ts us : List Worker) (n : ℕ) (e : Option ℕ) (x : Bool) where
  others_wait :
      (s : Sync)
      → Gathering r s (ts ++ worker starts n e x ∷ us)
      → All (Waits r) ts × All (Waits r) us
  others_wait s g =
      let w = worker starts n e x in
      let full = Count-full resetting starting here s.nbready s.nbworkers ts us w w refl g.counts in
      let split = λ (f : Worker → ℕ). total-split f ts w us in
      let most = total_mono here any here-le ts in
      let most' = total_mono here any here-le us in
      let parts = All-of_append (Gathers r) ts (w ∷ us) g.fits in
      (
        all_wait r ts parts.0 (omega (arith, g.all_here, split here, split any))
            (omega (arith, split resetting)) (omega arith),
        all_wait r us parts.1.1 (omega (arith, g.all_here, split here, split any))
            (omega (arith, split resetting)) (omega arith),
      )

  told-runs : told (worker runs n e x) ≡ 0
  told-runs = ground arith

  said-runs : said (worker runs n e x) ≡ 0
  said-runs = ground arith

  -- The last worker starts the round.
  pub started :
      (s : Sync)
      → Gathering r s (ts ++ worker starts n e x ∷ us)
      → Running r (record s { status = run }) (ts ++ worker runs n e x ∷ us)
  started s g =
      let w = worker starts n e x in
      let w' = worker runs n e x in
      let (before, behind) = others_wait s g in
      let full = Count-full resetting starting here s.nbready s.nbworkers ts us w w refl g.counts in
      let none_of = λ (f : Worker → ℕ) (h : (v : Worker) → Waits r v → f v ≡ 0).
        alone f (Waits r) h ts us w' before behind in
      record {
        all_here = omega (arith, g.all_here, total-split any ts w us, total-split any ts w' us);
        fits =
            All-append (Runs r) ts (w' ∷ us)
              (All-mono (Waits r) (Runs r) (Runs-of_Waits r) ts before)
              (
                All-here (Gathers r) ts us w g.fits,
                All-mono (Waits r) (Runs r) (Runs-of_Waits r) us behind,
              );
        counts = inl (
          none_of clearing (λ v h. ground arith),
          none_of judging (λ v h. ground arith),
          full.0 ∙ sym (none_of over (λ v h. ground arith)),
          omega (arith, full.0),
        );
        so_far = inl (refl, none_of told (λ v h. ground arith) ∙ told-runs);
        message = inl (none_of said (λ v h. ground arith) ∙ said-runs);
        found = inl (none_of finding (λ v h. ground arith));
        failed = inl (none_of failing (λ v h. ground arith));
      }

  others_rest :
      (s : Sync) (w : Worker)
      → judging w ≡ 1
      → Running r s (ts ++ w ∷ us)
      → All (Rests r) ts
        × All (Rests r) us
        × (total ending ts + total ending us ≡ 0)
        × (s.nbready ≡ 0)
  others_rest s w j g =
      let full = Count-full clearing judging over s.nbready s.nbworkers ts us w w j g.counts in
      let split = λ (f : Worker → ℕ). total-split f ts w us in
      let most = total_mono over any over-le ts in
      let most' = total_mono over any over-le us in
      let one = over-le w in
      let parts = All-of_append (Runs r) ts (w ∷ us) g.fits in
      let before =
        all_rest r ts parts.0 (omega (arith, g.all_here, split over, split any))
          (omega (arith, split clearing)) (omega arith) in
      let behind =
        all_rest r us parts.1.1 (omega (arith, g.all_here, split over, split any))
          (omega (arith, split clearing)) (omega arith) in
      (before.0, behind.0, omega (arith, before.1, behind.1), full.0)

  -- The last worker ends it.
  pub ended_well :
      (s : Sync)
      → Running r s (ts ++ worker settles_done n e x ∷ us)
      → Resting r (record s { status = done }) (ts ++ worker stops n e x ∷ us)
        × (total ending (ts ++ worker stops n e x ∷ us) ≡ 1)
  ended_well s g =
      let w = worker settles_done n e x in
      let w' = worker stops n e x in
      let others = others_rest s w refl g in
      let same : told w ≡ told w' = ground arith in
      let old = λ (f : Worker → ℕ). total-split f ts w us in
      let new = λ (f : Worker → ℕ). total-split f ts w' us in
      (
        record {
          all_here = omega (arith, g.all_here, old any, new any);
          fits =
              All-append (Rests r) ts (w' ∷ us) others.0
                (All-here (Runs r) ts us w g.fits, others.1);
          cleared = others.3;
          verdict = elim (g.found) [
            | inl z ↦ absurd (omega (arith, old finding))
            | inr z ↦ inl (refl, omega (arith, old told, new told))
          ];
        },
        omega (arith, new ending),
      )

  pub ended_badly :
      (s : Sync)
      → Running r s (ts ++ worker settles_fail n e x ∷ us)
      → Resting r (record s { status = fail }) (ts ++ worker stops n e x ∷ us)
        × (total ending (ts ++ worker stops n e x ∷ us) ≡ 1)
  ended_badly s g =
      let w = worker settles_fail n e x in
      let w' = worker stops n e x in
      let others = others_rest s w refl g in
      let old = λ (f : Worker → ℕ). total-split f ts w us in
      let new = λ (f : Worker → ℕ). total-split f ts w' us in
      (
        record {
          all_here = omega (arith, g.all_here, old any, new any);
          fits =
              All-append (Rests r) ts (w' ∷ us) others.0
                (All-here (Runs r) ts us w g.fits, others.1);
          cleared = others.3;
          verdict = inr (
            refl,
            elim (g.failed) [
              | inl z ↦ absurd (omega (arith, old failing))
              | inr z ↦ elim (g.message) [
                | inl no_one ↦
                    absurd (omega (arith, total_mono told said told-le_said (ts ++ w ∷ us)))
                | inr says_it ↦ Message-stays ts us w w' s (λ m. ground arith) says_it
              ]
            ],
          );
        },
        omega (arith, new ending),
      )
