-- ===== src/Sync/Procon/Round.antt =====
-- A whole round of the producer or of the consumer of sync-examples/procon2.c and procon4.c.
use software_transactional_m.Prelude.{ℕ, suc, ◌+◌, ◌<◌}
use software_transactional_m.Sync.Procon.{
  Buffers, at_test, at_fill, tests, loads, System, produces, consumes, step,
}
use software_transactional_m.Sync.Procon.Invariant.{Inv, step-Inv}
use software_transactional_m.Sync.Procon.Locked.{produce_round, consume_round}

module _ {D : Type 0} (size p c : ℕ) (b : Buffers D) where
  -- Both threads are before their tests, in the rounds `p` and `c`.
  abbrev pub between : System D
  between = record { producer = at_test p; consumer = tests c; shared = b }

  module _ (i : Inv size between) where
    pub produce_round-Inv :
        (d : D)
        → p < b.consumed_until + size
        → Inv size (record {
          producer = at_test (suc p);
          consumer = tests c;
          shared = produce_round size p d b;
        })
    unfolding produce_round step
    produce_round-Inv d room =
        let passed : Inv size (record { producer = at_fill p; consumer = tests c; shared = b }) =
          record { producing = (i.producing.0, room); consuming = i.consuming; holds = i.holds } in
        step-Inv size (produces d) _
          (step-Inv size (produces d) _ (step-Inv size (produces d) _ passed))

    pub consume_round-Inv :
        c < b.produced_until
        → Inv size (record {
          producer = at_test p;
          consumer = tests (suc c);
          shared = consume_round size c b;
        })
    unfolding consume_round step
    consume_round-Inv there =
        let passed : Inv size (record { producer = at_test p; consumer = loads c; shared = b }) =
          record { producing = i.producing; consuming = (i.consuming, there); holds = i.holds } in
        step-Inv size consumes _ (step-Inv size consumes _ passed)
