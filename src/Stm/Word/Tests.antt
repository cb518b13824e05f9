-- ===== src/Stm/Word/Tests.antt =====
-- A run of Stm.Word: a transaction commits 5; a reader begins and reads the word twice, while another
-- transaction takes a clock value and a third one locks the word.
use software_transactional_m.Prelude.{ℕ, ◌≡◌, refl, arith, [], ◌∷◌}
use software_transactional_m.Stm.Word.{
  nobody, locking, returned, State, fresh, at, others_tick, begins, samples, loads, finds_unlocked,
  finds_same, finds_old, goes_on, Reach, here, writes, reads, locks, ticks, copies, stamps, unlocks,
}
use software_transactional_m.Stm.Word.Snapshot.{Reach-returned, Reach-repeats}

abbrev read_once : State
read_once = record {
  value = 5;
  version = 1;
  global_clock = 1;
  owner = nobody;
  log = (1, 5) ∷ [];
  rv = 1;
  place = returned 5;
}

abbrev read_twice : State
read_twice = record {
  value = 5;
  version = 1;
  global_clock = 2;
  owner = locking;
  log = (1, 5) ∷ [];
  rv = 1;
  place = returned 5;
}

read_once-Reach : Reach (fresh 0) read_once
read_once-Reach =
    let r₁ = writes here (locks {s = fresh 0} refl) in
    let r₂ = writes r₁ (ticks 5 refl) in
    let r₃ = writes r₂ (copies refl) in
    let r₄ = writes r₃ (stamps refl) in
    let r₅ = writes r₄ (unlocks refl) in
    let r₆ = reads r₅ (begins refl) in
    let r₇ = reads r₆ (samples refl) in
    let r₈ = reads r₇ (loads refl) in
    let r₉ = reads r₈ (finds_unlocked refl refl) in
    reads (reads r₉ (finds_same refl refl)) (finds_old refl (omega arith))

read_twice-Reach : Reach read_once read_twice
read_twice-Reach =
    let r₁ = writes here (others_tick {s = read_once}) in
    let r₂ = reads r₁ (goes_on refl) in
    let r₃ = reads r₂ (samples refl) in
    let r₄ = reads r₃ (loads refl) in
    let r₅ = reads r₄ (finds_unlocked refl refl) in
    let r₆ = writes r₅ (locks refl) in
    reads (reads r₆ (finds_same refl refl)) (finds_old refl (omega arith))

Reach-returned_example : at 1 ((1, 5) ∷ []) ≡ 5
Reach-returned_example = Reach-returned 0 5 read_once read_once-Reach (omega arith) refl

Reach-repeats_example : ◌≡◌ {A = ℕ} 5 5
Reach-repeats_example =
    Reach-repeats 0 5 5 read_once read_twice read_once-Reach refl read_twice-Reach refl
      (omega arith)
