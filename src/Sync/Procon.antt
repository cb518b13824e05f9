-- ===== src/Sync/Procon.antt =====
-- procon1.c, procon2.c, procon3.c and procon4.c of sync-examples/: a producer and a consumer of a buffer.
pub mod Invariant
pub mod Busy
pub mod Free
pub mod Locked
pub mod Round
pub mod Waiting
use software_transactional_m.Prelude.{
  ℕ, suc, ◌+◌, ◌%◌, Bool, true, false, List, [], ◌∷◌, ltb, ◌==◌, if◌then◌else◌, update,
}

-- The variables of a program, for a type of data that is put in the buffer.
pub record Buffers (D : Type 0) : Type 0 where
  pub buffer : ℕ → D
  pub produced : ℕ → D
  pub consumed : ℕ → D
  pub produced_until : ℕ
  pub consumed_until : ℕ

-- Where a thread is in its round `r`: before the test, or before one of the statements after it.
pub data Produce : Type 0 where
  at_test at_fill at_store at_add : ℕ → Produce

pub data Consume : Type 0 where
  tests loads adds : ℕ → Consume

pub record System (D : Type 0) : Type 0 where
  pub producer : Produce
  pub consumer : Consume
  pub shared : Buffers D

-- Who runs; the producer with the data that it makes up.
pub data Turn (D : Type 0) : Type 0 where
  produces : D → Turn D
  consumes : Turn D

abbrev pub runs : ℕ
runs = 4096

module _ {D : Type 0} (buffer_size : ℕ) where
  -- One statement of `produce` and of `consume` of procon3.c.
  unfoldable pub produce : Produce → D → Buffers D → Produce × Buffers D
  produce (at_test r) d s = (
    if ltb r runs
        then (if ltb r (s.consumed_until + buffer_size) then at_fill r else at_test r)
        else at_test r,
    s,
  )
  produce (at_fill r) d s = (at_store r, record s { produced = update s.produced r d })
  produce (at_store r) d s =
      (at_add r, record s { buffer = update s.buffer (r % buffer_size) (s.produced r) })
  produce (at_add r) d s = (at_test (suc r), record s { produced_until = s.produced_until + 1 })

  unfoldable pub consume : Consume → Buffers D → Consume × Buffers D
  consume (tests r) s =
      (if ltb r runs then (if ltb r s.produced_until then loads r else tests r) else tests r, s)
  consume (loads r) s =
      (adds r, record s { consumed = update s.consumed r (s.buffer (r % buffer_size)) })
  consume (adds r) s = (tests (suc r), record s { consumed_until = s.consumed_until + 1 })

  unfoldable pub step : Turn D → System D → System D
  unfolding produce consume
  step (produces d) s =
      let (p, b) = produce s.producer d s.shared in record s { producer = p; shared = b }
  step consumes s =
      let (c, b) = consume s.consumer s.shared in record s { consumer = c; shared = b }

  unfoldable pub run : List (Turn D) → System D → System D
  run [] s = s
  run (t ∷ ts) s = run ts (step t s)

-- `main` before the threads start.
abbrev pub initial : {D : Type 0} → D → System D
initial blank = record {
  producer = at_test 0;
  consumer = tests 0;
  shared = record {
    buffer = λ _. blank;
    produced = λ _. blank;
    consumed = λ _. blank;
    produced_until = 0;
    consumed_until = 0;
  };
}
