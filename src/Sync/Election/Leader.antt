-- ===== src/Sync/Election/Leader.antt =====
-- With a lock (sync-examples/election2.c) or a compare and swap (election4.c), there is one leader.
use software_transactional_m.Prelude.{
  ℕ, zero, suc, ◌+◌, ◌<◌, ◌≡◌, ◌≢◌, refl, ap, ◌⊎◌, inl, inr, Bool, true, false, List, [], ◌∷◌, ◌++◌,
  All, All-append, All-of_append, arith,
}
use software_transactional_m.Sync.Election.{
  Place, before_round, inside, passed, wrote, noted, after_round, Thread, Election, at, state,
  Locked, Atomic, Reach, here, next, created, start,
}

abbrev total : (Place → ℕ) → List Thread → ℕ
total f [] = 0
total f (t ∷ ts) = f t.place + total f ts

total-append : (f : Place → ℕ) (ts us : List Thread) → total f (ts ++ us) ≡ total f ts + total f us
total-append f [] us = omega arith
total-append f (t ∷ ts) us = omega (arith, total-append f ts us)

-- Inside of the lock, and between the two writes.
abbrev within : Place → ℕ
within before_round = 0
within inside = 1
within passed = 1
within wrote = 1
within noted = 1
within after_round = 0

abbrev to_note : Place → ℕ
to_note wrote = 1
to_note before_round = 0
to_note inside = 0
to_note passed = 0
to_note noted = 0
to_note after_round = 0

abbrev holders : Bool → ℕ
holders true = 1
holders false = 0

-- Whether there is a leader.
abbrev led : ℕ → ℕ
led zero = 0
led (suc l) = 1

-- What the place of a thread says of the leader, under the lock and with a compare and swap.
abbrev Says : ℕ → Place → Type 0
Says l before_round = Unit
Says l inside = Unit
Says l passed = l ≡ 0
Says l wrote = l ≢ 0
Says l noted = l ≢ 0
Says l after_round = l ≢ 0

abbrev Agrees : ℕ → Thread → Type 0
Agrees l t = (t.tid ≢ 0) × Says l t.place

record Inv (s : Election) : Type 0 where
  noted_once : s.nb_leaders + total to_note s.threads ≡ led s.leader
  alone : total within s.threads ≡ holders s.held
  agree : All (Agrees s.leader) s.threads

-- Threads outside of the lock agree with any leader.
outside-Agrees :
    (l l' : ℕ) (ts : List Thread)
    → l' ≢ 0
    → total within ts ≡ 0
    → All (Agrees l) ts
    → All (Agrees l') ts
outside-Agrees l l' [] ne h k = tt
outside-Agrees l l' (t ∷ ts) ne h (k, ks) =
    (outside t.place t.tid k (omega arith), outside-Agrees l l' ts ne (omega arith) ks)
  where
    outside : (p : Place) (tid : ℕ) → (tid ≢ 0) × Says l p → within p ≡ 0 → (tid ≢ 0) × Says l' p
    outside before_round tid a e = (a.0, tt)
    outside inside tid a e = absurd (omega arith)
    outside passed tid a e = absurd (omega arith)
    outside wrote tid a e = absurd (omega arith)
    outside noted tid a e = absurd (omega arith)
    outside after_round tid a e = (a.0, ne)

led-pos : (l : ℕ) → l ≢ 0 → led l ≡ 1
led-pos zero ne = absurd (ne refl)
led-pos (suc l) ne = refl

module _ (l n : ℕ) (ts us : List Thread) where
  moves :
      (l' n' : ℕ) (held held' : Bool) (tid : ℕ) (p p' : Place)
      → Inv (state l n held ts (at tid p) us)
      → n' + to_note p' + led l ≡ n + to_note p + led l'
      → within p' + holders held ≡ within p + holders held'
      → All (Agrees l') ts
      → Says l' p'
      → All (Agrees l') us
      → Inv (state l' n' held' ts (at tid p') us)
  moves l' n' held held' tid p p' i e f b h a = record {
    noted_once = omega (
      arith,
      i.noted_once,
      total-append to_note ts (at tid p ∷ us),
      total-append to_note ts (at tid p' ∷ us),
    );
    alone = omega (
      arith,
      i.alone,
      total-append within ts (at tid p ∷ us),
      total-append within ts (at tid p' ∷ us),
    );
    agree =
        All-append (Agrees l') ts (at tid p' ∷ us) b
          (((All-of_append (Agrees l) ts (at tid p ∷ us) i.agree).1.0.0, h), a);
  }

  parts :
      (held : Bool) (tid : ℕ) (p : Place)
      → Inv (state l n held ts (at tid p) us)
      → All (Agrees l) ts × Agrees l (at tid p) × All (Agrees l) us
  parts held tid p i =
      let r = All-of_append (Agrees l) ts (at tid p ∷ us) i.agree in (r.0, r.1.0, r.1.1)

  -- One thread inside: the lock is taken, and the others are outside.
  others :
      (held : Bool) (tid : ℕ) (p : Place)
      → within p ≡ 1
      → Inv (state l n held ts (at tid p) us)
      → (holders held ≡ 1) × (total within ts ≡ 0) × (total within us ≡ 0)
  others true tid p e i = (
    refl,
    omega (arith, i.alone, total-append within ts (at tid p ∷ us)),
    omega (arith, i.alone, total-append within ts (at tid p ∷ us)),
  )
  others false tid p e i = absurd (omega (arith, i.alone, total-append within ts (at tid p ∷ us)))

Locked-Inv : {s t : Election} → Locked s t → Inv s → Inv t
Locked-Inv (Locked.acquires l n tid ts us) i =
    let p = parts l n ts us false tid before_round i in
    moves l n ts us l n false true tid before_round inside i (omega arith) (omega arith) p.0 tt p.2
Locked-Inv (Locked.passes l n tid held ts us e) i =
    let p = parts l n ts us held tid inside i in
    moves l n ts us l n held held tid inside passed i (omega arith) (omega arith) p.0 e p.2
Locked-Inv (Locked.fails l n tid held ts us ne) i =
    let p = parts l n ts us held tid inside i in
    moves l n ts us l n held held tid inside noted i (omega arith) (omega arith) p.0 ne p.2
Locked-Inv (Locked.leads l n tid held ts us) i =
    let p = parts l n ts us held tid passed i in
    let o = others l n ts us held tid passed refl i in
    let ne : tid ≢ 0 = p.1.0 in
    moves l n ts us tid n held held tid passed wrote i (omega (arith, led-pos tid ne, ap led p.1.1))
      (omega arith) (outside-Agrees l tid ts ne o.1 p.0) ne (outside-Agrees l tid us ne o.2 p.2)
Locked-Inv (Locked.notes l n tid held ts us) i =
    let p = parts l n ts us held tid wrote i in
    moves l n ts us l (n + 1) held held tid wrote noted i (omega arith) (omega arith) p.0 p.1.1 p.2
Locked-Inv (Locked.releases l n tid held ts us) i =
    let p = parts l n ts us held tid noted i in
    let o = others l n ts us held tid noted refl i in
    moves l n ts us l n held false tid noted after_round i (omega arith) (omega (arith, o.0)) p.0
      p.1.1 p.2

created-totals :
    (f : Place → ℕ) → f before_round ≡ 0 → (first threads : ℕ) → total f (created first threads) ≡ 0
created-totals f e first zero = refl
created-totals f e first (suc threads) = omega (arith, created-totals f e (first + 1) threads)

created-Agrees : (l first threads : ℕ) → 0 < first → All (Agrees l) (created first threads)
created-Agrees l first zero h = tt
created-Agrees l first (suc threads) h =
    (((λ e. omega arith), tt), created-Agrees l (first + 1) threads (omega arith))

start-Inv : (threads : ℕ) → Inv (start threads)
start-Inv threads = record {
  noted_once = omega (arith, created-totals to_note refl 1 threads);
  alone = created-totals within refl 1 threads;
  agree = created-Agrees 0 1 threads (omega arith);
}

Reach-Inv : (threads : ℕ) {s : Election} → Reach Locked (start threads) s → Inv s
Reach-Inv threads here = start-Inv threads
Reach-Inv threads (next r st) = Locked-Inv st (Reach-Inv threads r)

-- With a compare and swap, a thread is before the round, between its writes, or past the round.
abbrev SaysAtomic : ℕ → Place → Type 0
SaysAtomic l before_round = Unit
SaysAtomic l inside = ⊥
SaysAtomic l passed = ⊥
SaysAtomic l wrote = l ≢ 0
SaysAtomic l noted = ⊥
SaysAtomic l after_round = l ≢ 0

abbrev AgreesAtomic : ℕ → Thread → Type 0
AgreesAtomic l t = (t.tid ≢ 0) × SaysAtomic l t.place

record InvAtomic (s : Election) : Type 0 where
  noted_once : s.nb_leaders + total to_note s.threads ≡ led s.leader
  agree : All (AgreesAtomic s.leader) s.threads

Says-led :
    (l l' tid : ℕ) (p : Place) → l' ≢ 0 → (tid ≢ 0) × SaysAtomic l p → (tid ≢ 0) × SaysAtomic l' p
Says-led l l' tid before_round ne a = (a.0, tt)
Says-led l l' tid inside ne a = elim a.1 [ ]
Says-led l l' tid passed ne a = elim a.1 [ ]
Says-led l l' tid wrote ne a = (a.0, ne)
Says-led l l' tid noted ne a = elim a.1 [ ]
Says-led l l' tid after_round ne a = (a.0, ne)

all-led :
    (l l' : ℕ) (ts : List Thread) → l' ≢ 0 → All (AgreesAtomic l) ts → All (AgreesAtomic l') ts
all-led l l' [] ne h = tt
all-led l l' (t ∷ ts) ne (h, hs) = (Says-led l l' t.tid t.place ne h, all-led l l' ts ne hs)

module _ (l n : ℕ) (held : Bool) (ts us : List Thread) where
  moves_atomic :
      (l' n' : ℕ) (tid : ℕ) (p p' : Place)
      → InvAtomic (state l n held ts (at tid p) us)
      → n' + to_note p' + led l ≡ n + to_note p + led l'
      → All (AgreesAtomic l') ts
      → SaysAtomic l' p'
      → All (AgreesAtomic l') us
      → InvAtomic (state l' n' held ts (at tid p') us)
  moves_atomic l' n' tid p p' i e b h a = record {
    noted_once = omega (
      arith,
      i.noted_once,
      total-append to_note ts (at tid p ∷ us),
      total-append to_note ts (at tid p' ∷ us),
    );
    agree =
        All-append (AgreesAtomic l') ts (at tid p' ∷ us) b
          (((All-of_append (AgreesAtomic l) ts (at tid p ∷ us) i.agree).1.0.0, h), a);
  }

  parts_atomic :
      (tid : ℕ) (p : Place)
      → InvAtomic (state l n held ts (at tid p) us)
      → All (AgreesAtomic l) ts × AgreesAtomic l (at tid p) × All (AgreesAtomic l) us
  parts_atomic tid p i =
      let r = All-of_append (AgreesAtomic l) ts (at tid p ∷ us) i.agree in (r.0, r.1.0, r.1.1)

Atomic-InvAtomic : {s t : Election} → Atomic s t → InvAtomic s → InvAtomic t
Atomic-InvAtomic (Atomic.swaps l n tid held ts us e) i =
    let p = parts_atomic l n held ts us tid before_round i in
    let ne : tid ≢ 0 = p.1.0 in
    moves_atomic l n held ts us tid n tid before_round wrote i
      (omega (arith, led-pos tid ne, ap led e)) (all-led l tid ts ne p.0) ne
      (all-led l tid us ne p.2)
Atomic-InvAtomic (Atomic.fails l n tid held ts us ne) i =
    let p = parts_atomic l n held ts us tid before_round i in
    moves_atomic l n held ts us l n tid before_round after_round i (omega arith) p.0 ne p.2
Atomic-InvAtomic (Atomic.notes l n tid held ts us) i =
    let p = parts_atomic l n held ts us tid wrote i in
    moves_atomic l n held ts us l (n + 1) tid wrote after_round i (omega arith) p.0 p.1.1 p.2

created-AgreesAtomic :
    (l first threads : ℕ) → 0 < first → All (AgreesAtomic l) (created first threads)
created-AgreesAtomic l first zero h = tt
created-AgreesAtomic l first (suc threads) h =
    (((λ e. omega arith), tt), created-AgreesAtomic l (first + 1) threads (omega arith))

Reach-InvAtomic : (threads : ℕ) {s : Election} → Reach Atomic (start threads) s → InvAtomic s
Reach-InvAtomic threads here = record {
  noted_once = omega (arith, created-totals to_note refl 1 threads);
  agree = created-AgreesAtomic 0 1 threads (omega arith);
}
Reach-InvAtomic threads (next r st) = Atomic-InvAtomic st (Reach-InvAtomic threads r)

-- All threads are past the round.
abbrev pub Over : List Thread → Type 0
Over = All (λ t. t.place ≡ after_round)

Over-to_note : (ts : List Thread) → Over ts → total to_note ts ≡ 0
Over-to_note [] h = refl
Over-to_note (t ∷ ts) (e, h) = omega (arith, ap to_note e, Over-to_note ts h)

one_leader :
    (s : Election) (t : Thread) (ts : List Thread)
    → s.threads ≡ t ∷ ts
    → Over (t ∷ ts)
    → s.leader ≢ 0
    → s.nb_leaders + total to_note s.threads ≡ led s.leader
    → (s.leader ≢ 0) × (s.nb_leaders ≡ 1)
one_leader s t ts e over ne h =
    (ne, omega (arith, h, led-pos s.leader ne, ap (total to_note) e, Over-to_note (t ∷ ts) over))

-- Any number of threads of election2.c or of election4.c, in any order of their steps: when there are
-- threads and all are past the round, there is a leader, and it was counted exactly once.
pub Over-one_leader :
    (threads : ℕ) (s : Election)
    → Reach Locked (start threads) s ⊎ Reach Atomic (start threads) s
    → (t : Thread) (ts : List Thread) → s.threads ≡ t ∷ ts
    → Over (t ∷ ts)
    → (s.leader ≢ 0) × (s.nb_leaders ≡ 1)
Over-one_leader threads s (inl r) t ts e over =
    let i = Reach-Inv threads r in
    let first = rw e at i.agree in one_leader s t ts e over (rw over.0 at first.0.1) i.noted_once
Over-one_leader threads s (inr r) t ts e over =
    let i = Reach-InvAtomic threads r in
    let first = rw e at i.agree in one_leader s t ts e over (rw over.0 at first.0.1) i.noted_once
