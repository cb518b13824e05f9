-- ===== src/Grading/Check/Countdown.antt =====
-- check of grading/workload.hpp never complains of a library whose transactions are atomic.
use software_transactional_m.Prelude.{
  ℕ, zero, suc, ◌+◌, ◌*◌, ◌-◌, ◌^◌, ◌<◌, ◌≤◌, ◌≡◌, ◌≢◌, refl, sym, ap, ◌∙◌, true, some, List, [],
  ◌∷◌, ◌++◌, ltb-false, ◌==◌, ==_refl, All, All-mono, All-append, All-of_append, update,
  update_self, arith,
}
use software_transactional_m.Grading.Transaction.{ok}
use software_transactional_m.Grading.Store.{Store, run}
use software_transactional_m.Grading.Bank.{wrap}
use software_transactional_m.Grading.Check.{
  nbtxperwrk, write_counter, counter_is, read_counter, decrease, Worker, fetches, decreases,
  violated, Checking, Step, Reach, here, next, workers_of,
}

abbrev rounds : Worker → ℕ
rounds (fetches r) = r
rounds (decreases r last) = suc r
rounds violated = 0

abbrev pub total : List Worker → ℕ
total [] = 0
total (t ∷ ts) = rounds t + total ts

total-append : (ts us : List Worker) → total (ts ++ us) ≡ total ts + total us
total-append [] us = omega arith
total-append (t ∷ ts) us = omega (arith, total-append ts us)

-- The counter is at most what a thread has fetched, and no thread has complained.
abbrev Trusts : ℕ → Worker → Type 0
Trusts n (fetches r) = Unit
Trusts n (decreases r last) = n ≤ last
Trusts n violated = ⊥

Trusts-le : (n k : ℕ) → k ≤ n → (t : Worker) → Trusts n t → Trusts k t
Trusts-le n k h (fetches r) t = tt
Trusts-le n k h (decreases r last) t = omega arith
Trusts-le n k h violated t = elim t [ ]

record Inv (start : ℕ) (s : Checking) : Type 0 where
  counts : s.memory start ≡ total s.workers
  small : s.memory start < 2 ^ 64
  trusted : All (Trusts (s.memory start)) s.workers

run-decrease :
    (start last : ℕ) (m : Store)
    → m start ≤ last
    → run (decrease start last) [] m
      ≡ some (ok true, update m start (wrap (m start + (2 ^ 64 - 1))))
unfolding run decrease
run-decrease start last m h = rw (ltb-false last (m start) h, run) refl

run-read : (start : ℕ) (m : Store) → run (read_counter start) [] m ≡ some (ok (m start), m)
unfolding run read_counter
run-read start m = refl

Step-Inv : (start : ℕ) {s t : Checking} → Step start s t → Inv start s → Inv start t
Step-Inv start (Step.fetch m m' ts us r v ran) i =
    let made = run-read start m in
    let p : m start ≡ v = cc in
    let q : m ≡ m' = cc in
    let parts = All-of_append (Trusts (m start)) ts (fetches (suc r) ∷ us) i.trusted in
    rw (← q) (record {
      counts = omega (
        arith,
        i.counts,
        total-append ts (fetches (suc r) ∷ us),
        total-append ts (decreases r v ∷ us),
      );
      small = i.small;
      trusted =
          All-append (Trusts (m start)) ts (decreases r v ∷ us) parts.0 (omega arith, parts.1.1);
    })
Step-Inv start (Step.succeed m m' ts us r last ran) i =
    let parts = All-of_append (Trusts (m start)) ts (decreases r last ∷ us) i.trusted in
    let made = run-decrease start last m parts.1.0 in
    let q : update m start (wrap (m start + (2 ^ 64 - 1))) ≡ m' = cc in
    let down : m' start + 1 ≡ m start = omega (
      arith,
      ap (λ (f : Store). f start) (sym q),
      update_self m start (wrap (m start + (2 ^ 64 - 1))),
      i.small,
      i.counts,
      total-append ts (decreases r last ∷ us),
    ) in
    record {
      counts = omega (
        arith,
        down,
        i.counts,
        total-append ts (decreases r last ∷ us),
        total-append ts (fetches r ∷ us),
      );
      small = omega (arith, down, i.small);
      trusted =
          All-append (Trusts (m' start)) ts (fetches r ∷ us)
            (All-mono (Trusts (m start)) (Trusts (m' start))
              (Trusts-le (m start) (m' start) (omega arith)) ts parts.0)
            (
              tt,
              All-mono (Trusts (m start)) (Trusts (m' start))
                  (Trusts-le (m start) (m' start) (omega arith)) us parts.1.1,
            );
    }
Step-Inv start (Step.fail m m' ts us r last ran) i =
    let parts = All-of_append (Trusts (m start)) ts (decreases r last ∷ us) i.trusted in
    let made = run-decrease start last m parts.1.0 in absurd (cc)

workers-total : (n : ℕ) → total (workers_of n) ≡ nbtxperwrk * n
workers-total zero = refl
workers-total (suc n) = omega (arith, workers-total n)

workers-Trusts : (k n : ℕ) → All (Trusts k) (workers_of n)
workers-Trusts k zero = tt
workers-Trusts k (suc n) = (tt, workers-Trusts k n)

module _ (start nbworkers : ℕ) (few : nbtxperwrk * nbworkers < 2 ^ 64) (m : Store) where
  abbrev pub written : Store
  written = update m start (nbtxperwrk * nbworkers)

  abbrev pub begun : Checking
  begun = record { memory = written; workers = workers_of nbworkers }

  run-write : run (write_counter start (nbtxperwrk * nbworkers)) [] m ≡ some (ok tt, written)
  unfolding run write_counter
  run-write = refl

  Reach-Inv : {s : Checking} → Reach start begun s → Inv start s
  Reach-Inv here = record {
    counts = update_self m start (nbtxperwrk * nbworkers) ∙ sym (workers-total nbworkers);
    small = omega (arith, few, update_self m start (nbtxperwrk * nbworkers));
    trusted = workers-Trusts (written start) nbworkers;
  }
  Reach-Inv (next r st) = Step-Inv start st (Reach-Inv r)

  Trusts-ne : (n : ℕ) (t : Worker) → Trusts n t → t ≢ violated
  Trusts-ne n (fetches r) h e = cc
  Trusts-ne n (decreases r last) h e = cc
  Trusts-ne n violated h e = h

  -- The transactions of all threads in any order, each at once, from the counter that the first thread
  -- has written: no thread finds that the counter has grown, and the counter is the number of rounds
  -- that are left, so that it is zero when all threads are past their loops.
  pub Reach-counter_is :
      (s : Checking)
      → Reach start begun s
      → All (λ t. t ≢ violated) s.workers
        × (run (counter_is start (total s.workers)) [] s.memory ≡ some (ok true, s.memory))
  unfolding run counter_is
  Reach-counter_is s r =
      let i = Reach-Inv r in
      (
        All-mono (Trusts (s.memory start)) (λ t. t ≢ violated) (Trusts-ne (s.memory start))
            s.workers i.trusted,
        ap (λ b. some (ok b, s.memory))
            (ap (λ v. v == total s.workers) i.counts ∙ ==_refl (total s.workers)),
      )
