-- ===== src/Sync/Counter/Total.antt =====
-- With a lock (sync-examples/counter2.c) or atomic steps (counter4.c), every round is counted.
use software_transactional_m.Prelude.{
  All, All-append, All-of_append, ℕ, zero, suc, ◌+◌, ◌*◌, ◌≡◌, refl, ◌⊎◌, inl, inr, Bool, true,
  false, List, [], ◌∷◌, ◌++◌, arith,
}
use software_transactional_m.Sync.Counter.{
  Thread, idle, acquired, wrote, has_read, Counting, state, Locked, Atomic, adds, Reach, here, next,
  created, start, Joined,
}

-- The rounds that a thread has not counted yet, and whether it is inside of the lock.
abbrev rounds_left : Thread → ℕ
rounds_left (idle r) = r
rounds_left (acquired r) = suc r
rounds_left (has_read r local) = suc r
rounds_left (wrote r) = r

abbrev inside : Thread → ℕ
inside (idle r) = 0
inside (acquired r) = 1
inside (has_read r local) = 1
inside (wrote r) = 1

abbrev total : (Thread → ℕ) → List Thread → ℕ
total f [] = 0
total f (t ∷ ts) = f t + total f ts

-- What a thread has read is the counter.
abbrev Fresh : ℕ → Thread → Type 0
Fresh n (idle r) = Unit
Fresh n (acquired r) = Unit
Fresh n (wrote r) = Unit
Fresh n (has_read r local) = local ≡ n

abbrev AllFresh : ℕ → List Thread → Type 0
AllFresh n = All (Fresh n)

total-append : (f : Thread → ℕ) (ts us : List Thread) → total f (ts ++ us) ≡ total f ts + total f us
total-append f [] us = omega arith
total-append f (t ∷ ts) us = omega (arith, total-append f ts us)

-- Threads outside of the lock have read nothing.
outside-AllFresh : (n : ℕ) (ts : List Thread) → total inside ts ≡ 0 → AllFresh n ts
outside-AllFresh n [] h = tt
outside-AllFresh n (idle r ∷ ts) h = (tt, outside-AllFresh n ts (omega arith))
outside-AllFresh n (acquired r ∷ ts) h = absurd (omega arith)
outside-AllFresh n (has_read r local ∷ ts) h = absurd (omega arith)
outside-AllFresh n (wrote r ∷ ts) h = absurd (omega arith)

abbrev holders : Bool → ℕ
holders true = 1
holders false = 0

record Inv (all : ℕ) (s : Counting) : Type 0 where
  counted : s.counter + total rounds_left s.threads ≡ all
  alone : total inside s.threads ≡ holders s.held
  fresh : AllFresh s.counter s.threads

module _ (all n : ℕ) (before after : List Thread) where
  -- A step of the thread between `before` and `after`, while the others are outside or the counter stays.
  moves :
      (n' : ℕ) (held held' : Bool) (t t' : Thread)
      → Inv all (state n held before t after)
      → n' + rounds_left t' ≡ n + rounds_left t
      → inside t' + holders held ≡ inside t + holders held'
      → AllFresh n' before
      → Fresh n' t'
      → AllFresh n' after
      → Inv all (state n' held' before t' after)
  moves n' held held' t t' i e f b h a = record {
    counted = omega (
      arith,
      i.counted,
      total-append rounds_left before (t ∷ after),
      total-append rounds_left before (t' ∷ after),
    );
    alone = omega (
      arith,
      i.alone,
      total-append inside before (t ∷ after),
      total-append inside before (t' ∷ after),
    );
    fresh = All-append (Fresh n') before (t' ∷ after) b (h, a);
  }

  parts :
      (held : Bool) (t : Thread)
      → Inv all (state n held before t after)
      → AllFresh n before × Fresh n t × AllFresh n after
  parts held t i = let r = All-of_append (Fresh n) before (t ∷ after) i.fresh in (r.0, r.1.0, r.1.1)

  -- One thread inside: the others are outside.
  others :
      (held : Bool) (t : Thread)
      → inside t ≡ 1
      → Inv all (state n held before t after)
      → (total inside before ≡ 0) × (total inside after ≡ 0)
  others true t e i = (
    omega (arith, i.alone, total-append inside before (t ∷ after)),
    omega (arith, i.alone, total-append inside before (t ∷ after)),
  )
  others false t e i = absurd (omega (arith, i.alone, total-append inside before (t ∷ after)))

  held_true :
      (held : Bool) (t : Thread)
      → inside t ≡ 1
      → Inv all (state n held before t after)
      → held ≡ true
  held_true true t e i = refl
  held_true false t e i = absurd (omega (arith, i.alone, total-append inside before (t ∷ after)))

Locked-Inv : (all : ℕ) {s t : Counting} → Locked s t → Inv all s → Inv all t
Locked-Inv all (Locked.acquires n r before after) i =
    let p = parts all n before after false (idle (suc r)) i in
    moves all n before after n false true (idle (suc r)) (acquired r) i (omega arith) (omega arith)
      p.0 tt p.2
Locked-Inv all (Locked.reads n r held before after) i =
    let p = parts all n before after held (acquired r) i in
    moves all n before after n held held (acquired r) (has_read r n) i (omega arith) (omega arith)
      p.0 refl p.2
Locked-Inv all (Locked.writes n r local held before after) i =
    let p = parts all n before after held (has_read r local) i in
    let o = others all n before after held (has_read r local) refl i in
    moves all n before after (local + 1) held held (has_read r local) (wrote r) i
      (omega (arith, p.1)) (omega arith) (outside-AllFresh (local + 1) before o.0) tt
      (outside-AllFresh (local + 1) after o.1)
Locked-Inv all (Locked.releases n r held before after) i =
    let p = parts all n before after held (wrote r) i in
    let h = held_true all n before after held (wrote r) refl i in
    moves all n before after n held false (wrote r) (idle r) i (omega arith) (rw h (omega arith))
      p.0 tt p.2

created-rounds : (threads runs : ℕ) → total rounds_left (created threads runs) ≡ threads * runs
created-rounds zero runs = omega arith
created-rounds (suc threads) runs =
    let e : suc threads * runs ≡ runs + threads * runs = grind arith in
    omega (arith, created-rounds threads runs, e)

created-inside : (threads runs : ℕ) → total inside (created threads runs) ≡ 0
created-inside zero runs = refl
created-inside (suc threads) runs = omega (arith, created-inside threads runs)

start-Inv : (threads runs : ℕ) → Inv (threads * runs) (start threads runs)
start-Inv threads runs = record {
  counted = omega (arith, created-rounds threads runs);
  alone = created-inside threads runs;
  fresh = outside-AllFresh 0 (created threads runs) (created-inside threads runs);
}

Joined-rounds : (ts : List Thread) → Joined ts → total rounds_left ts ≡ 0
Joined-rounds [] h = refl
Joined-rounds (idle r ∷ ts) (e, h) = omega (arith, Joined-rounds ts h)
Joined-rounds (acquired r ∷ ts) h = elim h [ ]
Joined-rounds (wrote r ∷ ts) h = elim h [ ]
Joined-rounds (has_read r local ∷ ts) h = elim h [ ]

Reach-Inv :
    (threads runs : ℕ) {s : Counting} → Reach Locked (start threads runs) s → Inv (threads * runs) s
Reach-Inv threads runs here = start-Inv threads runs
Reach-Inv threads runs (next r st) = Locked-Inv (threads * runs) st (Reach-Inv threads runs r)

-- A step of counter4.c counts a round.
Atomic-counted :
    (all : ℕ) {s t : Counting}
    → Atomic s t
    → s.counter + total rounds_left s.threads ≡ all
    → t.counter + total rounds_left t.threads ≡ all
Atomic-counted all (adds n r held before after) e = omega (
  arith,
  total-append rounds_left before (idle (suc r) ∷ after),
  total-append rounds_left before (idle r ∷ after),
)

Reach-counted :
    (threads runs : ℕ) {s : Counting}
    → Reach Atomic (start threads runs) s
    → s.counter + total rounds_left s.threads ≡ threads * runs
Reach-counted threads runs here = (start-Inv threads runs).counted
Reach-counted threads runs (next r st) =
    Atomic-counted (threads * runs) st (Reach-counted threads runs r)

-- Any number of threads of counter2.c or of counter4.c, in any order of their steps: when all are
-- joined, the counter is the number of threads times the number of rounds. (As a number, which the
-- `int` of the source holds.)
pub Joined-counts :
    (threads runs : ℕ) (s : Counting)
    → Reach Locked (start threads runs) s ⊎ Reach Atomic (start threads runs) s
    → Joined s.threads
    → s.counter ≡ threads * runs
Joined-counts threads runs s (inl r) done =
    omega (arith, (Reach-Inv threads runs r).counted, Joined-rounds s.threads done)
Joined-counts threads runs s (inr r) done =
    omega (arith, Reach-counted threads runs r, Joined-rounds s.threads done)
