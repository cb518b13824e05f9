-- ===== src/Sync/Procon/Invariant.antt =====
-- The buffer of sync-examples/procon3.c hands every piece of data on.
use software_transactional_m.Prelude.{
  ◌==◌, ==→eq, ℕ, ◌+◌, ◌%◌, ◌<◌, ◌≤◌, ◌≡◌, ◌≢◌, refl, sym, ◌∙◌, Bool, true, false, List, [], ◌∷◌,
  ltb, ltb→lt, if◌then◌else◌, update, update_self, update_ne, arith, Bool-cases, inl, inr,
}
use software_transactional_m.Sync.Procon.{
  Buffers, Produce, at_test, at_fill, at_store, at_add, Consume, tests, loads, adds, System, Turn,
  produces, consumes, runs, produce, consume, step, run, initial,
}

-- Two rounds that are less than the size of the buffer apart have different places.
mod-ne : (size c p : ℕ) → c < p → p < c + size → p % size ≢ c % size
mod-ne size c p lo hi e = grind arith

-- The two threads are not about to use the same place.
abbrev pub NoRace : (size : ℕ) → Produce → Consume → Type 0
NoRace size (at_test p) c = Unit
NoRace size (at_fill p) c = Unit
NoRace size (at_add p) c = Unit
NoRace size (at_store p) (tests c) = Unit
NoRace size (at_store p) (adds c) = Unit
NoRace size (at_store p) (loads c) = p % size ≢ c % size

module _ {D : Type 0} (size : ℕ) where
  abbrev pub AtProducer : Produce → Buffers D → Type 0
  AtProducer (at_test r) b = (b.produced_until ≡ r) × (r ≤ b.consumed_until + size)
  AtProducer (at_fill r) b = (b.produced_until ≡ r) × (r < b.consumed_until + size)
  AtProducer (at_store r) b = (b.produced_until ≡ r) × (r < b.consumed_until + size)
  AtProducer (at_add r) b =
      (b.produced_until ≡ r) × (r < b.consumed_until + size) × (b.buffer (r % size) ≡ b.produced r)

  abbrev pub AtConsumer : Consume → Buffers D → Type 0
  AtConsumer (tests r) b = b.consumed_until ≡ r
  AtConsumer (loads r) b = (b.consumed_until ≡ r) × (r < b.produced_until)
  AtConsumer (adds r) b =
      (b.consumed_until ≡ r) × (r < b.produced_until) × (b.consumed r ≡ b.produced r)

  -- The counters count the rounds, the buffer holds what was produced and not yet consumed, and what
  -- was consumed is what was produced.
  pub record Holds (b : Buffers D) : Type 0 where
    pub behind : b.consumed_until ≤ b.produced_until
    pub ahead : b.produced_until ≤ b.consumed_until + size
    pub held :
        (j : ℕ) → b.consumed_until ≤ j → j < b.produced_until → b.buffer (j % size) ≡ b.produced j
    pub same : (j : ℕ) → j < b.consumed_until → b.consumed j ≡ b.produced j

  pub record Inv (s : System D) : Type 0 where
    pub producing : AtProducer s.producer s.shared
    pub consuming : AtConsumer s.consumer s.shared
    pub holds : Holds s.shared

  module _ (b : Buffers D) (h : Holds b) where
    -- A write of data of a round that is not counted yet.
    abbrev filled : ℕ → D → Buffers D
    filled r d = record b { produced = update b.produced r d }

    abbrev stored : ℕ → Buffers D
    stored r = record b { buffer = update b.buffer (r % size) (b.produced r) }

    abbrev loaded : ℕ → Buffers D
    loaded r = record b { consumed = update b.consumed r (b.buffer (r % size)) }

    filled-Holds : (r : ℕ) (d : D) → b.produced_until ≡ r → Holds (filled r d)
    filled-Holds r d e = record {
      behind = h.behind;
      ahead = h.ahead;
      held = λ j lo hi. h.held j lo hi ∙ sym (update_ne b.produced r j d (λ p. omega arith));
      same = λ j hi. h.same j hi ∙ sym (update_ne b.produced r j d (λ p. omega (arith, h.behind)));
    }

    filled-AtConsumer :
        (c : Consume) (r : ℕ) (d : D)
        → b.produced_until ≡ r
        → AtConsumer c b
        → AtConsumer c (filled r d)
    filled-AtConsumer (tests i) r d e k = k
    filled-AtConsumer (loads i) r d e k = k
    filled-AtConsumer (adds i) r d e (k, l, same) =
        (k, l, same ∙ sym (update_ne b.produced r i d (λ p. omega arith)))

    stored-Holds : (r : ℕ) → b.produced_until ≡ r → r < b.consumed_until + size → Holds (stored r)
    stored-Holds r e l = record {
      behind = h.behind;
      ahead = h.ahead;
      held = λ j lo hi.
          update_ne b.buffer (r % size) (j % size) (b.produced r)
            (mod-ne size j r (omega arith) (omega arith))
          ∙ h.held j lo hi;
      same = h.same;
    }

    stored-AtConsumer : (c : Consume) (r : ℕ) → AtConsumer c b → AtConsumer c (stored r)
    stored-AtConsumer (tests i) r k = k
    stored-AtConsumer (loads i) r k = k
    stored-AtConsumer (adds i) r k = k

    added-Holds :
        (r : ℕ)
        → b.produced_until ≡ r
        → r < b.consumed_until + size
        → b.buffer (r % size) ≡ b.produced r
        → Holds (record b { produced_until = b.produced_until + 1 })
    added-Holds r e l full = record {
      behind = omega (arith, h.behind);
      ahead = omega arith;
      held = λ j lo hi. elim (Bool-cases (j == r)) [
        | inl last ↦ rw (==→eq j r last) full
        | inr older ↦ h.held j lo (ground arith)
      ];
      same = h.same;
    }

    added-AtConsumer :
        (c : Consume)
        → AtConsumer c b
        → AtConsumer c (record b { produced_until = b.produced_until + 1 })
    added-AtConsumer (tests i) k = k
    added-AtConsumer (loads i) (k, l) = (k, omega arith)
    added-AtConsumer (adds i) (k, l, same) = (k, omega arith, same)

    loaded-Holds : (r : ℕ) → b.consumed_until ≡ r → Holds (loaded r)
    loaded-Holds r e = record {
      behind = h.behind;
      ahead = h.ahead;
      held = h.held;
      same =
          λ j hi. update_ne b.consumed r j (b.buffer (r % size)) (λ p. omega arith) ∙ h.same j hi;
    }

    loaded-AtProducer : (p : Produce) (r : ℕ) → AtProducer p b → AtProducer p (loaded r)
    loaded-AtProducer (at_test i) r k = k
    loaded-AtProducer (at_fill i) r k = k
    loaded-AtProducer (at_store i) r k = k
    loaded-AtProducer (at_add i) r k = k

    taken-Holds :
        (r : ℕ)
        → b.consumed_until ≡ r
        → r < b.produced_until
        → b.consumed r ≡ b.produced r
        → Holds (record b { consumed_until = b.consumed_until + 1 })
    taken-Holds r e l equal = record {
      behind = omega arith;
      ahead = omega (arith, h.ahead);
      held = λ j lo hi. h.held j (omega arith) hi;
      same = λ j hi. elim (Bool-cases (j == r)) [
        | inl last ↦ rw (==→eq j r last) equal
        | inr older ↦ h.same j (ground arith)
      ];
    }

    taken-AtProducer :
        (p : Produce)
        → AtProducer p b
        → AtProducer p (record b { consumed_until = b.consumed_until + 1 })
    taken-AtProducer (at_test i) (k, l) = (k, omega arith)
    taken-AtProducer (at_fill i) (k, l) = (k, omega arith)
    taken-AtProducer (at_store i) (k, l) = (k, omega arith)
    taken-AtProducer (at_add i) (k, l, full) = (k, omega arith, full)

  tested-AtProducer :
      (b : Buffers D) (r : ℕ)
      → b.produced_until ≡ r
      → r ≤ b.consumed_until + size
      → (more room : Bool) → (room ≡ true → r < b.consumed_until + size)
      → AtProducer (if more then (if room then at_fill r else at_test r) else at_test r) b
  tested-AtProducer b r e l false room h = (e, l)
  tested-AtProducer b r e l true false h = (e, l)
  tested-AtProducer b r e l true true h = (e, h refl)

  tested-AtConsumer :
      (b : Buffers D) (r : ℕ)
      → b.consumed_until ≡ r
      → (more there : Bool) → (there ≡ true → r < b.produced_until)
      → AtConsumer (if more then (if there then loads r else tests r) else tests r) b
  tested-AtConsumer b r e false there h = e
  tested-AtConsumer b r e true false h = e
  tested-AtConsumer b r e true true h = (e, h refl)

  produce-Inv :
      (p : Produce) (c : Consume) (b : Buffers D) (d : D)
      → AtProducer p b
      → AtConsumer c b
      → Holds b
      → AtProducer (produce size p d b).0 (produce size p d b).1
        × AtConsumer c (produce size p d b).1
        × Holds (produce size p d b).1
  unfolding produce
  produce-Inv (at_test r) c b d (e, l) k h = (
    tested-AtProducer b r e l (ltb r runs) (ltb r (b.consumed_until + size))
        (ltb→lt r (b.consumed_until + size)),
    k,
    h,
  )
  produce-Inv (at_fill r) c b d (e, l) k h =
      ((e, l), filled-AtConsumer b h c r d e k, filled-Holds b h r d e)
  produce-Inv (at_store r) c b d (e, l) k h = (
    (e, l, update_self b.buffer (r % size) (b.produced r)),
    stored-AtConsumer b h c r k,
    stored-Holds b h r e l,
  )
  produce-Inv (at_add r) c b d (e, l, full) k h =
      ((omega arith, omega arith), added-AtConsumer b h c k, added-Holds b h r e l full)

  consume-Inv :
      (p : Produce) (c : Consume) (b : Buffers D)
      → AtProducer p b
      → AtConsumer c b
      → Holds b
      → AtProducer p (consume size c b).1
        × AtConsumer (consume size c b).0 (consume size c b).1
        × Holds (consume size c b).1
  unfolding consume
  consume-Inv p (tests r) b k e h = (
    k,
    tested-AtConsumer b r e (ltb r runs) (ltb r b.produced_until) (ltb→lt r b.produced_until),
    h,
  )
  consume-Inv p (loads r) b k (e, l) h = (
    loaded-AtProducer b h p r k,
    (e, l, update_self b.consumed r (b.buffer (r % size)) ∙ h.held r (omega arith) l),
    loaded-Holds b h r e,
  )
  consume-Inv p (adds r) b k (e, l, equal) h =
      (taken-AtProducer b h p k, omega arith, taken-Holds b h r e l equal)

  pub step-Inv : (t : Turn D) (s : System D) → Inv s → Inv (step size t s)
  unfolding step
  step-Inv (produces d) s i =
      let r = produce-Inv s.producer s.consumer s.shared d i.producing i.consuming i.holds in
      record { producing = r.0; consuming = r.1; holds = r.2 }
  step-Inv consumes s i =
      let r = consume-Inv s.producer s.consumer s.shared i.producing i.consuming i.holds in
      record { producing = r.0; consuming = r.1; holds = r.2 }

  run_from-Inv : (ts : List (Turn D)) (s : System D) → Inv s → Inv (run size ts s)
  unfolding run
  run_from-Inv [] s i = i
  run_from-Inv (t ∷ ts) s i = run_from-Inv ts (step size t s) (step-Inv t s i)

  pub run-Inv : (blank : D) (ts : List (Turn D)) → Inv (run size ts (initial blank))
  run-Inv blank ts = run_from-Inv ts (initial blank) (record {
    producing = (refl, omega arith);
    consuming = refl;
    holds = record {
      behind = omega arith;
      ahead = omega arith;
      held = λ j lo hi. absurd (omega arith);
      same = λ j hi. absurd (omega arith);
    };
  })

  Inv-NoRace :
      (p : Produce) (c : Consume) (b : Buffers D)
      → AtProducer p b
      → AtConsumer c b
      → NoRace size p c
  Inv-NoRace (at_test p) c b h k = tt
  Inv-NoRace (at_fill p) c b h k = tt
  Inv-NoRace (at_add p) c b h k = tt
  Inv-NoRace (at_store p) (tests c) b h k = tt
  Inv-NoRace (at_store p) (adds c) b h k = tt
  Inv-NoRace (at_store p) (loads c) b h k = mod-ne size c p (omega arith) (omega arith)

  -- The buffer of procon3.c at any time of any run, for a buffer of any size: what was consumed in a
  -- round is what was produced in it, the producer is ahead of the consumer, by the size of the buffer
  -- at most, what was produced and not yet consumed is in the buffer, and when one thread is about to
  -- store and the other about to load, the places differ.
  pub run-Holds :
      (blank : D) (ts : List (Turn D))
      → (let s = run size ts (initial blank) in Holds s.shared × NoRace size s.producer s.consumer)
  run-Holds blank ts =
      let s = run size ts (initial blank) in
      let i = run-Inv blank ts in
      (i.holds, Inv-NoRace s.producer s.consumer s.shared i.producing i.consuming)
