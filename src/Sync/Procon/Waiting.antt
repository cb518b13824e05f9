-- ===== src/Sync/Procon/Waiting.antt =====
-- sync-examples/procon4.c: nobody waits in vain.
use software_transactional_m.Prelude.{
  ℕ, ◌+◌, ◌<◌, ◌≤◌, ◌≡◌, refl, sym, ap, ◌∙◌, Bool, true, false, ◌⊎◌, inl, inr, List, [], ◌∷◌, ltb,
  ltb→lt, lt→ltb, arith,
}
use software_transactional_m.Sync.Procon.{at_test, tests, System, runs, produce, consume, run}
use software_transactional_m.Sync.Procon.Invariant.{Holds, Inv, run-Inv}
use software_transactional_m.Sync.Procon.Round.{produce_round-Inv, consume_round-Inv}
use software_transactional_m.Sync.Procon.Locked.{
  Phase, awake, asleep, notifies, Locked, LockedTurn, wakes_producer, wakes_consumer, wake_up,
  produce_round, consume_round, can_produce, can_consume, turn, turns, locked_initial, produce_if,
  consume_if, producer_turn, consumer_turn,
}

wake_up-ne : (p : Phase) → wake_up p ≡ asleep → ⊥
wake_up-ne awake e = cc
wake_up-ne asleep e = cc
wake_up-ne notifies e = cc

ltb-false-le : (a b : ℕ) → ltb a b ≡ false → b ≤ a
ltb-false-le a b h = ground arith

-- A thread that sleeps and the phase of the other, whether that has rounds left, and whether it can go on.
abbrev pub HasWaker : (sleeper other : Phase) (more can : Bool) → Type 0
HasWaker awake other more can = Unit
HasWaker notifies other more can = Unit
HasWaker asleep other more can =
    (other ≡ notifies) ⊎ ((other ≡ awake) × (more ≡ true) × (can ≡ true))

module _ {D : Type 0} (size : ℕ) where
  -- The run of single statements that the turns stand for.
  abbrev unlocked : Locked D → System D
  unlocked s = record {
    producer = at_test s.round_p;
    consumer = tests s.round_c;
    shared = s.shared;
  }

  -- One who sleeps has a reason to, or is about to be woken.
  pub record Waits (s : Locked D) : Type 0 where
    pub counted_p : s.shared.produced_until ≡ s.round_p
    pub counted_c : s.shared.consumed_until ≡ s.round_c
    pub sleeps_p :
        s.phase_p ≡ asleep
        → (s.round_p < runs)
          × ((s.shared.consumed_until + size ≤ s.round_p) ⊎ (s.phase_c ≡ notifies))
    pub sleeps_c :
        s.phase_c ≡ asleep
        → (s.round_c < runs) × ((s.shared.produced_until ≤ s.round_c) ⊎ (s.phase_p ≡ notifies))

  -- The state between two turns: that of the statements, and the waits.
  pub record LockedInv (s : Locked D) : Type 0 where
    pub statements : Inv size (unlocked s)
    pub waits : Waits s

  module _ (s : Locked D) (i : LockedInv s) where
    abbrev w : Waits s
    w = i.waits

    produce_if-LockedInv :
        (d : D) (more room : Bool)
        → ltb s.round_p runs ≡ more
        → can_produce size s ≡ room
        → s.phase_p ≡ awake
        → LockedInv (produce_if size more room d s)
    unfolding produce_round produce
    produce_if-LockedInv d false room m r a = i
    produce_if-LockedInv d true false m r a = record {
      statements = i.statements;
      waits = record {
        counted_p = w.counted_p;
        counted_c = w.counted_c;
        sleeps_p = λ _. (
          ltb→lt s.round_p runs m,
          inl (ltb-false-le s.round_p (s.shared.consumed_until + size) r),
        );
        sleeps_c =
            λ e. ((w.sleeps_c e).0, elim (w.sleeps_c e).1 [ inl h ↦ inl h | inr n ↦ absurd (cc) ]);
      };
    }
    produce_if-LockedInv d true true m r a = record {
      statements =
          produce_round-Inv size s.round_p s.round_c s.shared i.statements d
            (ltb→lt s.round_p (s.shared.consumed_until + size) r);
      waits = record {
        counted_p = omega (arith, w.counted_p);
        counted_c = w.counted_c;
        sleeps_p = λ e. absurd (cc);
        sleeps_c = λ e. ((w.sleeps_c e).0, inr refl);
      };
    }

    consume_if-LockedInv :
        (more there : Bool)
        → ltb s.round_c runs ≡ more
        → can_consume size s ≡ there
        → s.phase_c ≡ awake
        → LockedInv (consume_if size more there s)
    unfolding consume_round consume
    consume_if-LockedInv false there m r a = i
    consume_if-LockedInv true false m r a = record {
      statements = i.statements;
      waits = record {
        counted_p = w.counted_p;
        counted_c = w.counted_c;
        sleeps_p =
            λ e. ((w.sleeps_p e).0, elim (w.sleeps_p e).1 [ inl h ↦ inl h | inr n ↦ absurd (cc) ]);
        sleeps_c =
            λ _. (ltb→lt s.round_c runs m, inl (ltb-false-le s.round_c s.shared.produced_until r));
      };
    }
    consume_if-LockedInv true true m r a = record {
      statements =
          consume_round-Inv size s.round_p s.round_c s.shared i.statements
            (ltb→lt s.round_c s.shared.produced_until r);
      waits = record {
        counted_p = w.counted_p;
        counted_c = omega (arith, w.counted_c);
        sleeps_p = λ e. ((w.sleeps_p e).0, inr refl);
        sleeps_c = λ e. absurd (cc);
      };
    }

    producer_turn-LockedInv :
        (d : D) (p : Phase) → s.phase_p ≡ p → LockedInv (producer_turn size p d s)
    producer_turn-LockedInv d awake e =
        produce_if-LockedInv d (ltb s.round_p runs) (can_produce size s) refl refl e
    producer_turn-LockedInv d asleep e = i
    producer_turn-LockedInv d notifies e = record {
      statements = i.statements;
      waits = record {
        counted_p = w.counted_p;
        counted_c = w.counted_c;
        sleeps_p = λ f. absurd (cc);
        sleeps_c = λ f. absurd (wake_up-ne s.phase_c f);
      };
    }

    consumer_turn-LockedInv : (p : Phase) → s.phase_c ≡ p → LockedInv (consumer_turn size p s)
    consumer_turn-LockedInv awake e =
        consume_if-LockedInv (ltb s.round_c runs) (can_consume size s) refl refl e
    consumer_turn-LockedInv asleep e = i
    consumer_turn-LockedInv notifies e = record {
      statements = i.statements;
      waits = record {
        counted_p = w.counted_p;
        counted_c = w.counted_c;
        sleeps_p = λ f. absurd (wake_up-ne s.phase_p f);
        sleeps_c = λ f. absurd (cc);
      };
    }

    turn-LockedInv : (t : LockedTurn D) → LockedInv (turn size t s)
    unfolding turn
    turn-LockedInv (LockedTurn.produces d) = producer_turn-LockedInv d s.phase_p refl
    turn-LockedInv LockedTurn.consumes = consumer_turn-LockedInv s.phase_c refl
    turn-LockedInv wakes_producer = record {
      statements = i.statements;
      waits = record {
        counted_p = w.counted_p;
        counted_c = w.counted_c;
        sleeps_p = λ f. absurd (wake_up-ne s.phase_p f);
        sleeps_c = λ f. (
          (w.sleeps_c f).0,
          elim (w.sleeps_c f).1 [ inl h ↦ inl h | inr n ↦ inr (ap wake_up n) ],
        );
      };
    }
    turn-LockedInv wakes_consumer = record {
      statements = i.statements;
      waits = record {
        counted_p = w.counted_p;
        counted_c = w.counted_c;
        sleeps_p = λ f. (
          (w.sleeps_p f).0,
          elim (w.sleeps_p f).1 [ inl h ↦ inl h | inr n ↦ inr (ap wake_up n) ],
        );
        sleeps_c = λ f. absurd (wake_up-ne s.phase_c f);
      };
    }

  turns_from-LockedInv :
      (ts : List (LockedTurn D)) (s : Locked D) → LockedInv s → LockedInv (turns size ts s)
  unfolding turns
  turns_from-LockedInv [] s i = i
  turns_from-LockedInv (t ∷ ts) s i = turns_from-LockedInv ts (turn size t s) (turn-LockedInv s i t)

  turns-LockedInv :
      (blank : D) (ts : List (LockedTurn D)) → LockedInv (turns size ts (locked_initial blank))
  unfolding run
  turns-LockedInv blank ts = turns_from-LockedInv ts (locked_initial blank) (record {
    statements = run-Inv size blank [];
    waits = record {
      counted_p = refl;
      counted_c = refl;
      sleeps_p = λ e. absurd (cc);
      sleeps_c = λ e. absurd (cc);
    };
  })

  module _ (some_room : 0 < size) (s : Locked D) (i : LockedInv s) where
    -- Where the consumer has nothing to take, the producer does not sleep unless the consumer wakes it.
    not_both :
        (p c : Phase) → s.phase_p ≡ p → s.phase_c ≡ c → c ≡ asleep → (p ≡ notifies) ⊎ (p ≡ awake)
    not_both awake c f e a = inr refl
    not_both notifies c f e a = inl refl
    not_both asleep c f e a = absurd (
        let sleeping : s.phase_c ≡ asleep = e ∙ a in
        elim (i.waits.sleeps_p f).1 [
          | inr n ↦ cc
          | inl full ↦ elim (i.waits.sleeps_c sleeping).1 [
            | inr n ↦ cc
            | inl empty ↦ omega (arith, i.waits.counted_p, i.waits.counted_c)
          ]
        ])

    awake_consumer : (c : Phase) → s.phase_c ≡ c → s.phase_p ≡ asleep → (c ≡ notifies) ⊎ (c ≡ awake)
    awake_consumer awake e f = inr refl
    awake_consumer notifies e f = inl refl
    awake_consumer asleep e f = elim (not_both asleep asleep f e refl) [
      | inl n ↦ absurd (cc)
      | inr n ↦ absurd (cc)
    ]

    consumer-HasWaker :
        (c p : Phase)
        → s.phase_c ≡ c
        → s.phase_p ≡ p
        → HasWaker c p (ltb s.round_p runs) (can_produce size s)
    consumer-HasWaker awake p e f = tt
    consumer-HasWaker notifies p e f = tt
    consumer-HasWaker asleep p e f = elim (i.waits.sleeps_c e).1 [
      | inr n ↦ inl (sym f ∙ n)
      | inl empty ↦ elim (not_both p asleep f e refl) [
        | inl n ↦ inl n
        | inr a ↦ inr (
          a,
          lt→ltb s.round_p runs (omega (arith, i.waits.counted_p, (i.waits.sleeps_c e).0)),
          lt→ltb s.round_p (s.shared.consumed_until + size)
              (omega (arith, i.waits.counted_p, i.waits.counted_c)),
        )
      ]
    ]

    producer-HasWaker :
        (p c : Phase)
        → s.phase_p ≡ p
        → s.phase_c ≡ c
        → HasWaker p c (ltb s.round_c runs) (can_consume size s)
    producer-HasWaker awake c f e = tt
    producer-HasWaker notifies c f e = tt
    producer-HasWaker asleep c f e = elim (i.waits.sleeps_p f).1 [
      | inr n ↦ inl (sym e ∙ n)
      | inl full ↦ elim (awake_consumer c e f) [
        | inl n ↦ inl n
        | inr a ↦ inr (
          a,
          lt→ltb s.round_c runs (omega (arith, i.waits.counted_c, (i.waits.sleeps_p f).0)),
          lt→ltb s.round_c s.shared.produced_until
              (omega (arith, i.waits.counted_p, i.waits.counted_c)),
        )
      ]
    ]

  -- The buffer of procon4.c under its lock, at any time of any run in which waits may also end by
  -- themselves: it holds what a buffer must (what was consumed is what was produced), and no wake-up is
  -- lost. If the consumer sleeps, then the producer is about to wake it, or it is awake, has rounds left
  -- and finds room; if the producer sleeps, then the consumer is about to wake it, or it is awake, has
  -- rounds left and finds data. The buffer has any size but zero.
  pub turns-HasWaker :
      0 < size
      → (blank : D) (ts : List (LockedTurn D))
      → (let s = turns size ts (locked_initial blank) in
          Holds size s.shared
          × HasWaker s.phase_c s.phase_p (ltb s.round_p runs) (can_produce size s)
          × HasWaker s.phase_p s.phase_c (ltb s.round_c runs) (can_consume size s))
  turns-HasWaker some_room blank ts =
      let s = turns size ts (locked_initial blank) in
      let i = turns-LockedInv blank ts in
      (
        i.statements.holds,
        consumer-HasWaker some_room s i s.phase_c s.phase_p refl refl,
        producer-HasWaker some_room s i s.phase_p s.phase_c refl refl,
      )
