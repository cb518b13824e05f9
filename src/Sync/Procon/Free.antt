-- ===== src/Sync/Procon/Free.antt =====
-- sync-examples/procon1.c: a producer and a consumer that wait for nothing.
use software_transactional_m.Prelude.{
  ℕ, suc, ◌%◌, ◌≡◌, ◌≢◌, refl, sym, List, [], ◌∷◌, ltb, if◌then◌else◌, update,
}
use software_transactional_m.Sync.Procon.{Buffers, Turn, produces, consumes, runs, initial}

-- Before the statements of its round, or before its last one.
pub data Making : Type 0 where
  fills stores : ℕ → Making

pub record Free (D : Type 0) : Type 0 where
  pub producer : Making
  pub round_c : ℕ
  pub shared : Buffers D

module _ {D : Type 0} (buffer_size : ℕ) where
  unfoldable pub free_produce : Making → D → Buffers D → Making × Buffers D
  free_produce (fills r) d s =
      if ltb r runs then (stores r, record s { produced = update s.produced r d }) else (fills r, s)
  free_produce (stores r) d s =
      (fills (suc r), record s { buffer = update s.buffer (r % buffer_size) (s.produced r) })

  unfoldable pub free_consume : ℕ → Buffers D → ℕ × Buffers D
  free_consume r s =
      if ltb r runs
      then (suc r, record s { consumed = update s.consumed r (s.buffer (r % buffer_size)) })
      else (r, s)

  unfoldable pub free_turn : Turn D → Free D → Free D
  unfolding free_produce free_consume
  free_turn (produces d) s =
      let (p, b) = free_produce s.producer d s.shared in record s { producer = p; shared = b }
  free_turn consumes s =
      let (r, b) = free_consume s.round_c s.shared in record s { round_c = r; shared = b }

  unfoldable pub free_run : List (Turn D) → Free D → Free D
  free_run [] s = s
  free_run (t ∷ ts) s = free_run ts (free_turn t s)

abbrev pub free_initial : {D : Type 0} → D → Free D
free_initial blank = record { producer = fills 0; round_c = 0; shared = (initial blank).shared }

module _ {D : Type 0} (buffer_size : ℕ) (blank d : D) where
  -- If the consumer has its first round before the producer, and the data are not what the buffer held
  -- before, both have ended the round and what was consumed is not what was produced.
  pub free_run-wrong :
      (s : Free D)
      → s ≡ free_run buffer_size (consumes ∷ produces d ∷ produces d ∷ []) (free_initial blank)
      → d ≢ blank
      → (s.shared.produced 0 ≡ d)
        × (s.shared.consumed 0 ≢ s.shared.produced 0)
        × (s.producer ≡ fills 1)
        × (s.round_c ≡ 1)
  unfolding free_run free_turn
  free_run-wrong s e other = rw e (refl, λ q. other (sym q), refl, refl)
