-- ===== src/Sync/Procon/Locked.antt =====
-- sync-examples/procon4.c: the buffer under a lock. What a thread does between
-- lock_acquire and lock_release or lock_wait is one turn.
use software_transactional_m.Prelude.{ℕ, suc, ◌+◌, Bool, true, false, List, [], ◌∷◌, ltb}
use software_transactional_m.Sync.Procon.{
  Buffers, at_fill, at_store, at_add, loads, adds, runs, produce, consume, initial,
}

-- A thread that can run, that waits in lock_wait, or that is between lock_release and lock_wake_up.
pub data Phase : Type 0 where
  awake asleep notifies : Phase

pub record Locked (D : Type 0) : Type 0 where
  pub round_p : ℕ
  pub round_c : ℕ
  pub phase_p : Phase
  pub phase_c : Phase
  pub shared : Buffers D

-- Whose turn it is, or which wait ends by itself.
pub data LockedTurn (D : Type 0) : Type 0 where
  produces : D → LockedTurn D
  consumes : LockedTurn D
  wakes_producer wakes_consumer : LockedTurn D

-- lock_wake_up
abbrev pub wake_up : Phase → Phase
wake_up asleep = awake
wake_up p = p

module _ {D : Type 0} (buffer_size : ℕ) where
  -- The statements after the test, in one turn.
  unfoldable pub produce_round : ℕ → D → Buffers D → Buffers D
  unfolding produce
  produce_round r d b =
      let filled = (produce buffer_size (at_fill r) d b).1 in
      let stored = (produce buffer_size (at_store r) d filled).1 in
      (produce buffer_size (at_add r) d stored).1

  unfoldable pub consume_round : ℕ → Buffers D → Buffers D
  unfolding consume
  consume_round r b =
      let loaded = (consume buffer_size (loads r) b).1 in (consume buffer_size (adds r) loaded).1

  abbrev pub produce_if : (more room : Bool) → D → Locked D → Locked D
  produce_if false room d s = s
  produce_if true false d s = record s { phase_p = asleep }
  produce_if true true d s = record s {
    round_p = suc s.round_p;
    phase_p = notifies;
    shared = produce_round s.round_p d s.shared;
  }

  abbrev pub consume_if : (more there : Bool) → Locked D → Locked D
  consume_if false there s = s
  consume_if true false s = record s { phase_c = asleep }
  consume_if true true s = record s {
    round_c = suc s.round_c;
    phase_c = notifies;
    shared = consume_round s.round_c s.shared;
  }

  abbrev pub can_produce : Locked D → Bool
  can_produce s = ltb s.round_p (s.shared.consumed_until + buffer_size)

  abbrev pub can_consume : Locked D → Bool
  can_consume s = ltb s.round_c s.shared.produced_until

  -- A turn of the producer, by its phase, and one of the consumer.
  abbrev pub producer_turn : Phase → D → Locked D → Locked D
  producer_turn awake d s = produce_if (ltb s.round_p runs) (can_produce s) d s
  producer_turn asleep d s = s
  producer_turn notifies d s = record s { phase_p = awake; phase_c = wake_up s.phase_c }

  abbrev pub consumer_turn : Phase → Locked D → Locked D
  consumer_turn awake s = consume_if (ltb s.round_c runs) (can_consume s) s
  consumer_turn asleep s = s
  consumer_turn notifies s = record s { phase_c = awake; phase_p = wake_up s.phase_p }

  unfoldable pub turn : LockedTurn D → Locked D → Locked D
  unfolding produce_round consume_round
  turn (LockedTurn.produces d) s = producer_turn s.phase_p d s
  turn LockedTurn.consumes s = consumer_turn s.phase_c s
  turn wakes_producer s = record s { phase_p = wake_up s.phase_p }
  turn wakes_consumer s = record s { phase_c = wake_up s.phase_c }

  unfoldable pub turns : List (LockedTurn D) → Locked D → Locked D
  turns [] s = s
  turns (t ∷ ts) s = turns ts (turn t s)

abbrev pub locked_initial : {D : Type 0} → D → Locked D
locked_initial blank = record {
  round_p = 0;
  round_c = 0;
  phase_p = awake;
  phase_c = awake;
  shared = (initial blank).shared;
}
