-- ===== src/Sync/Procon/Busy.antt =====
-- sync-examples/procon2.c: the buffer under a lock, with threads that try again instead of waiting.
use software_transactional_m.Prelude.{
  ℕ, suc, ◌+◌, ◌≡◌, refl, Bool, true, false, List, [], ◌∷◌, ltb, ltb→lt,
}
use software_transactional_m.Sync.Procon.{
  Buffers, at_test, tests, System, Turn, produces, consumes, runs, run, initial,
}
use software_transactional_m.Sync.Procon.Invariant.{Holds, Inv, run-Inv}
use software_transactional_m.Sync.Procon.Locked.{produce_round, consume_round}
use software_transactional_m.Sync.Procon.Round.{produce_round-Inv, consume_round-Inv}

-- Between two turns, a thread is before lock_acquire in its round.
pub record Busy (D : Type 0) : Type 0 where
  pub round_p : ℕ
  pub round_c : ℕ
  pub shared : Buffers D

module _ {D : Type 0} (size : ℕ) where
  -- From lock_acquire to the next lock_release: the test, and the round if it holds.
  abbrev pub busy_produce : (more room : Bool) → D → Busy D → Busy D
  busy_produce true true d s = record s {
    round_p = suc s.round_p;
    shared = produce_round size s.round_p d s.shared;
  }
  busy_produce true false d s = s
  busy_produce false room d s = s

  abbrev pub busy_consume : (more there : Bool) → Busy D → Busy D
  busy_consume true true s = record s {
    round_c = suc s.round_c;
    shared = consume_round size s.round_c s.shared;
  }
  busy_consume true false s = s
  busy_consume false there s = s

  busy_turn : Turn D → Busy D → Busy D
  unfolding produce_round consume_round
  busy_turn (produces d) s =
      busy_produce (ltb s.round_p runs) (ltb s.round_p (s.shared.consumed_until + size)) d s
  busy_turn consumes s = busy_consume (ltb s.round_c runs) (ltb s.round_c s.shared.produced_until) s

  busy_turns : List (Turn D) → Busy D → Busy D
  busy_turns [] s = s
  busy_turns (t ∷ ts) s = busy_turns ts (busy_turn t s)

  -- The state of the single statements between two turns.
  abbrev statements : Busy D → System D
  statements s = record {
    producer = at_test s.round_p;
    consumer = tests s.round_c;
    shared = s.shared;
  }

  module _ (s : Busy D) (i : Inv size (statements s)) where
    busy_produce-Inv :
        (d : D) (more room : Bool)
        → ltb s.round_p (s.shared.consumed_until + size) ≡ room
        → Inv size (statements (busy_produce more room d s))
    busy_produce-Inv d true true e =
        produce_round-Inv size s.round_p s.round_c s.shared i d
          (ltb→lt s.round_p (s.shared.consumed_until + size) e)
    busy_produce-Inv d true false e = i
    busy_produce-Inv d false room e = i

    busy_consume-Inv :
        (more there : Bool)
        → ltb s.round_c s.shared.produced_until ≡ there
        → Inv size (statements (busy_consume more there s))
    busy_consume-Inv true true e =
        consume_round-Inv size s.round_p s.round_c s.shared i
          (ltb→lt s.round_c s.shared.produced_until e)
    busy_consume-Inv true false e = i
    busy_consume-Inv false there e = i

    busy_turn-Inv : (t : Turn D) → Inv size (statements (busy_turn t s))
    unfolding busy_turn
    busy_turn-Inv (produces d) =
        busy_produce-Inv d (ltb s.round_p runs) (ltb s.round_p (s.shared.consumed_until + size))
          refl
    busy_turn-Inv consumes =
        busy_consume-Inv (ltb s.round_c runs) (ltb s.round_c s.shared.produced_until) refl

  busy_turns-Inv :
      (ts : List (Turn D)) (s : Busy D)
      → Inv size (statements s)
      → Inv size (statements (busy_turns ts s))
  unfolding busy_turns
  busy_turns-Inv [] s i = i
  busy_turns-Inv (t ∷ ts) s i = busy_turns-Inv ts (busy_turn t s) (busy_turn-Inv s i t)

  -- The buffer of procon2.c holds what a buffer must, at any time of any run.
  busy_turns-Holds :
      (blank : D) (ts : List (Turn D))
      → Holds size
          (busy_turns ts
            (record { round_p = 0; round_c = 0; shared = (initial blank).shared })).shared
  unfolding run
  busy_turns-Holds blank ts =
      (busy_turns-Inv ts (record { round_p = 0; round_c = 0; shared = (initial blank).shared })
        (run-Inv size blank [])).holds
