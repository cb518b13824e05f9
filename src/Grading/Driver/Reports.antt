-- ===== src/Grading/Driver/Reports.antt =====
-- Class Sync (grading/grading.cpp): how an error comes from a worker to the status.
use software_transactional_m.Prelude.{
  ℕ, ◌+◌, ◌≡◌, ◌≢◌, ◌≤◌, ◌<◌, refl, sym, ◌⊎◌, inl, inr, Bool, Option, List, ◌∷◌, ◌++◌, arith,
}
use software_transactional_m.Grading.Driver.{
  abort, Sync, stores, aborts, notifies, judges, settles_done, settles_fail, Worker, worker,
}
use software_transactional_m.Grading.Driver.Counts.{
  total, total-split, total_mono, any, Count-stays, Count-adds, Count-full, over, clearing, judging,
  finding, failing, said, told, says,
}
use software_transactional_m.Grading.Driver.Stage.{
  Blames, Runs, Message-stays, Running, All-here, All-swap, Running-moves,
}
use software_transactional_m.Grading.Driver.Rounds.{over-le}

finding-le : (w : Worker) → finding w ≤ judging w
finding-le w = ground arith

failing-le : (w : Worker) → failing w ≤ judging w
failing-le w = ground arith

module _ (r : ℕ) (ts us : List Worker) where
  -- A worker moves and tells nothing.
  pub silent :
      (s : Sync) (w w' : Worker)
      → Running r s (ts ++ w ∷ us)
      → Runs r w'
      → clearing w ≡ clearing w'
      → judging w ≡ judging w'
      → over w ≡ over w'
      → told w' ≡ told w
      → said w' ≡ said w
      → ((m : ℕ) → says m w ≤ says m w')
      → finding w' ≡ finding w
      → failing w' ≡ failing w
      → Running r s (ts ++ w' ∷ us)
  silent s w w' g fit a b c t d m f h =
      Running-moves r ts us w w' s s g refl refl refl fit
        (Count-stays clearing judging over s.nbready s.nbworkers ts us w w' a b c g.counts) t d m f
        h

  -- A worker that has notified is counted.
  pub counted :
      (s : Sync) (n : ℕ) (e : Option ℕ) (x : Bool) (w' : Worker)
      → Running r s (ts ++ worker notifies n e x ∷ us)
      → Runs r w'
      → judging w' ≡ 0
      → over w' ≡ 1
      → ((s.nbready + 1 ≡ s.nbworkers) × (clearing w' ≡ 1))
        ⊎ ((s.nbready + 1 ≢ s.nbworkers) × (clearing w' ≡ 0))
      → told w' ≡ told (worker notifies n e x)
      → said w' ≡ said (worker notifies n e x)
      → ((m : ℕ) → says m (worker notifies n e x) ≤ says m w')
      → finding w' ≡ 0
      → failing w' ≡ 0
      → Running r (record s { nbready = s.nbready + 1 }) (ts ++ w' ∷ us)
  counted s n e x w' g fit a b c t d m f h =
      let w = worker notifies n e x in
      Running-moves r ts us w w' s (record s { nbready = s.nbready + 1 }) g refl refl refl fit
        (Count-adds clearing judging over s.nbready s.nbworkers ts us w w' g.all_here over-le refl
          refl refl a b c g.counts)
        t d m f h

  -- The error goes to `errmsg`, and then the status tells of it.
  pub speaks :
      (s : Sync) (n : ℕ) (e : Option ℕ) (x : Bool)
      → Running r s (ts ++ worker stores n e x ∷ us)
      → (n ≡ r) × Blames (worker stores n e x)
      → Running r (record s { errmsg = e }) (ts ++ worker aborts n e x ∷ us)
  speaks s n e x g (at, (m, is)) =
      let w = worker stores n e x in
      let w' = worker aborts n e x in
      let old = λ (f : Worker → ℕ). total-split f ts w us in
      let new = λ (f : Worker → ℕ). total-split f ts w' us in
      let says_it : says m w' ≡ 1 = rw is (ground arith) in
      let told_as : told w' ≡ told w = ground arith in
      record {
        all_here = omega (arith, g.all_here, old any, new any);
        fits = All-swap (Runs r) ts us w w' g.fits (at, (m, is));
        counts =
            Count-stays clearing judging over s.nbready s.nbworkers ts us w w' refl refl refl
              g.counts;
        so_far = elim (g.so_far) [
          | inl (a, b) ↦ inl (a, omega (arith, old told, new told))
          | inr (a, b) ↦ inr (a, omega (arith, old told, new told))
        ];
        message = inr (m, is, omega (arith, new (says m)));
        found = elim (g.found) [
          | inl y ↦ inl (omega (arith, old finding, new finding))
          | inr y ↦ inr (omega (arith, old told, new told))
        ];
        failed = elim (g.failed) [
          | inl y ↦ inl (omega (arith, old failing, new failing))
          | inr y ↦ inr (omega (arith, old told, new told))
        ];
      }

  -- While a worker still runs, none is the last one.
  no_finding :
      (s : Sync) (n : ℕ) (e : Option ℕ) (x : Bool)
      → Running r s (ts ++ worker aborts n e x ∷ us)
      → total finding (ts ++ worker notifies n e x ∷ us) ≡ 0
  no_finding s n e x g =
      let w = worker aborts n e x in
      let w' = worker notifies n e x in
      let most = total_mono over any over-le ts in
      let most' = total_mono over any over-le us in
      let few = total_mono finding judging finding-le (ts ++ w ∷ us) in
      let none_yet : total judging (ts ++ w ∷ us) ≡ 0 = elim (g.counts) [
        | inl (a, b, c, d) ↦ b
        | inr (inl (a, b, c)) ↦ b
        | inr (inr (a, b, c, d)) ↦
            absurd (omega (arith, g.all_here, total-split over ts w us, total-split any ts w us))
      ] in
      omega (arith, total-split finding ts w us, total-split finding ts w' us)

  pub warns :
      (s : Sync) (n : ℕ) (e : Option ℕ) (x : Bool)
      → Running r s (ts ++ worker aborts n e x ∷ us)
      → (n ≡ r) × Blames (worker aborts n e x)
      → Running r (record s { status = abort }) (ts ++ worker notifies n e x ∷ us)
  warns s n e x g (at, (m, is)) =
      let w = worker aborts n e x in
      let w' = worker notifies n e x in
      let old = λ (f : Worker → ℕ). total-split f ts w us in
      let new = λ (f : Worker → ℕ). total-split f ts w' us in
      let tells : told w' ≡ 1 = rw is refl in
      let said_as : said w' ≡ said w = ground arith in
      record {
        all_here = omega (arith, g.all_here, old any, new any);
        fits = All-swap (Runs r) ts us w w' g.fits at;
        counts =
            Count-stays clearing judging over s.nbready s.nbworkers ts us w w' refl refl refl
              g.counts;
        so_far = inr (refl, omega (arith, new told));
        message = elim (g.message) [
          | inl y ↦ inl (omega (arith, old said, new said))
          | inr y ↦ inr (Message-stays ts us w w' s (λ j. ground arith) y)
        ];
        found = inl (no_finding s n e x g);
        failed = inr (omega (arith, new told));
      }

  -- The last worker reads the status.
  judged :
      (s : Sync) (n : ℕ) (e : Option ℕ) (x : Bool) (w' : Worker)
      → Running r s (ts ++ worker judges n e x ∷ us)
      → Runs r w'
      → clearing w' ≡ 0
      → judging w' ≡ 1
      → over w' ≡ 1
      → told w' ≡ told (worker judges n e x)
      → said w' ≡ said (worker judges n e x)
      → ((m : ℕ) → says m (worker judges n e x) ≤ says m w')
      → ((total finding (ts ++ w' ∷ us) ≡ 0) ⊎ (total told (ts ++ worker judges n e x ∷ us) ≡ 0))
      → ((total failing (ts ++ w' ∷ us) ≡ 0) ⊎ (0 < total told (ts ++ worker judges n e x ∷ us)))
      → Running r s (ts ++ w' ∷ us)
  judged s n e x w' g fit a b c t d m f h =
      let w = worker judges n e x in
      let old = λ (v : Worker → ℕ). total-split v ts w us in
      let new = λ (v : Worker → ℕ). total-split v ts w' us in
      record {
        all_here = omega (arith, g.all_here, old any, new any);
        fits = All-swap (Runs r) ts us w w' g.fits fit;
        counts =
            Count-stays clearing judging over s.nbready s.nbworkers ts us w w' (sym a) (sym b)
              (sym c) g.counts;
        so_far = elim (g.so_far) [
          | inl (y, z) ↦ inl (y, omega (arith, old told, new told))
          | inr (y, z) ↦ inr (y, omega (arith, old told, new told))
        ];
        message = elim (g.message) [
          | inl y ↦ inl (omega (arith, old said, new said))
          | inr y ↦ inr (Message-stays ts us w w' s m y)
        ];
        found = elim f [ inl y ↦ inl y | inr y ↦ inr (omega (arith, old told, new told)) ];
        failed = elim h [ inl y ↦ inl y | inr y ↦ inr (omega (arith, old told, new told)) ];
      }

  -- Before that, none has.
  undecided :
      (s : Sync) (n : ℕ) (e : Option ℕ) (x : Bool)
      → Running r s (ts ++ worker judges n e x ∷ us)
      → (total finding ts + total finding us ≡ 0) × (total failing ts + total failing us ≡ 0)
  undecided s n e x g =
      let w = worker judges n e x in
      let full = Count-full clearing judging over s.nbready s.nbworkers ts us w w refl g.counts in
      let a = total_mono finding judging finding-le ts in
      let b = total_mono finding judging finding-le us in
      let c = total_mono failing judging failing-le ts in
      let d = total_mono failing judging failing-le us in
      (omega (arith, full.3), omega (arith, full.3))

  pub judges_fail :
      (s : Sync) (n : ℕ) (e : Option ℕ) (x : Bool)
      → Running r s (ts ++ worker judges n e x ∷ us)
      → s.status ≡ abort
      → Running r s (ts ++ worker settles_fail n e x ∷ us)
  judges_fail s n e x g h =
      let w' = worker settles_fail n e x in
      let free = undecided s n e x g in
      judged s n e x w' g (All-here (Runs r) ts us (worker judges n e x) g.fits) refl refl refl
        (ground arith) (ground arith) (λ j. ground arith)
        (inl (omega (arith, free.0, total-split finding ts w' us)))
        (inr (elim (g.so_far) [ inl (a, b) ↦ absurd (ground arith) | inr (a, b) ↦ b ]))

  pub judges_done :
      (s : Sync) (n : ℕ) (e : Option ℕ) (x : Bool)
      → Running r s (ts ++ worker judges n e x ∷ us)
      → s.status ≢ abort
      → Running r s (ts ++ worker settles_done n e x ∷ us)
  judges_done s n e x g h =
      let w' = worker settles_done n e x in
      let free = undecided s n e x g in
      judged s n e x w' g (All-here (Runs r) ts us (worker judges n e x) g.fits) refl refl refl
        (ground arith) (ground arith) (λ j. ground arith)
        (inr (elim (g.so_far) [ inl (a, b) ↦ b | inr (a, b) ↦ absurd (h a) ]))
        (inl (omega (arith, free.1, total-split failing ts w' us)))
