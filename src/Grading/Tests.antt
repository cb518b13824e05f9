-- ===== src/Grading/Tests.antt =====
-- The theorems on grading/ at concrete inputs: a library for a single thread.
use software_transactional_m.Prelude.{
  All, ◌==◌, ◌≢◌, ◌≤◌, ℕ, not, if◌then◌else◌, ◌+◌, ◌≡◌, refl, Bool, true, false, Option, none, some,
  inl, update, [], ◌∷◌, arith,
}
use software_transactional_m.Grading.Transaction.{
  Tx, ◌>>=◌, ◌>>◌, pure, Library, Alloc, success, abort, ok, transactional,
}
use software_transactional_m.Grading.Shared.{get, set}
use software_transactional_m.Grading.Store.{Store, cleared, run}
use software_transactional_m.Grading.Bank.{init_tx, long_tx, short_tx}
use software_transactional_m.Grading.Bank.Money.{Linked, number, any_debt}
use software_transactional_m.Grading.Bank.Frame.{IsBank}
use software_transactional_m.Grading.Bank.Retried.{closure, transactional-short_tx}
use software_transactional_m.Grading.Bank.Transfer.{locate, outcome, returns, run-short_tx}
use software_transactional_m.Grading.Bank.Changes.{Changed, alloc_tx-Changed}
use software_transactional_m.Grading.Bank.Serial.{Reached, initialised, Reached-long_tx}
use software_transactional_m.Grading.Barrier
use software_transactional_m.Grading.Barrier.{Synced}
use software_transactional_m.Grading.Barrier.Rounds.{entered, Reach-synced}
use software_transactional_m.Grading.Check.{
  read_counter, decrease, counter_is, fetches, violated, Step, Reach, here, next,
}
use software_transactional_m.Grading.Check.Countdown.{written, begun, Reach-counter_is}
use software_transactional_m.Grading.Check.Countdown

-- What is committed, and what the transaction that runs sees.
record Solo : Type 0 where
  memory : Store
  current : Option Store

abbrev solo_begin : Bool → Solo → Option ℕ × Solo
solo_begin ro s = (some 1, record s { current = some s.memory })

abbrev solo_end : ℕ → Solo → Bool × Solo
solo_end tx s = elim s.current [
  | none ↦ (false, s)
  | some m ↦ (true, record { memory = m; current = none })
]

abbrev solo_read : ℕ → ℕ → ℕ → Solo → Option ℕ × Solo
solo_read tx a size s = elim s.current [ none ↦ (none, s) | some m ↦ (some (m a), s) ]

abbrev solo_write : ℕ → ℕ → ℕ → ℕ → Solo → Bool × Solo
solo_write tx v size a s = elim s.current [
  | none ↦ (false, s)
  | some m ↦ (true, record s { current = some (update m a v) })
]

abbrev solo_alloc : ℕ → ℕ → Solo → Alloc × Solo
solo_alloc tx size s = elim s.current [
  | none ↦ (abort, s)
  | some m ↦ (success 4096, record s { current = some (cleared m 4096 size) })
]

abbrev solo_free : ℕ → ℕ → Solo → Bool × Solo
solo_free tx a s = elim s.current [ none ↦ (false, s) | some m ↦ (true, s) ]

abbrev solo : Library Solo
solo = record {
  tm_begin = solo_begin;
  tm_end = solo_end;
  tm_read = solo_read;
  tm_write = solo_write;
  tm_alloc = solo_alloc;
  tm_free = solo_free;
}

abbrev solo_view : Solo → ℕ → Option (Store × Store)
solo_view s tx = elim s.current [ none ↦ none | some m ↦ some (s.memory, m) ]

solo-eq_of_view :
    (s : Solo) (start m : Store) (tx : ℕ)
    → solo_view s tx ≡ some (start, m)
    → (s.memory ≡ start) × (s.current ≡ some m)
solo-eq_of_view s start m tx h = ground arith

module _ (s : Solo) (start m : Store) (tx : ℕ) (h : solo_view s tx ≡ some (start, m)) where
  abbrev committed : s.memory ≡ start
  committed = (solo-eq_of_view s start m tx h).0

  abbrev seen : s.current ≡ some m
  seen = (solo-eq_of_view s start m tx h).1

abbrev bump : Tx ℕ
bump = do v ← get 0; set 0 (v + 1); pure v

abbrev fresh : Solo
fresh = record { memory = λ _. 7; current = none }

-- A bank with two accounts of 10 at the address 64.
abbrev bank : Store
bank = update (update (update (λ _. 0) 64 2) 88 10) 96 10

bank-Linked : Linked bank 64 (64 ∷ [])
bank-Linked = (refl, (λ e. omega arith), refl)

bank-Reached : Reached 2 10 64 bank
unfolding init_tx run
bank-Reached = initialised (λ _. 0) bank refl refl refl

Reached-long_tx_example :
    run (long_tx 2 10 64 2 0) [] bank
    ≡ some (
      ok (
        not (any_debt bank (64 ∷ [])),
        if any_debt bank (64 ∷ []) then 0 else number bank (64 ∷ []),
      ),
      bank,
    )
Reached-long_tx_example =
    Reached-long_tx 2 10 64 (omega arith) (omega arith) (omega arith) (λ e. omega arith) bank
      (64 ∷ []) 2 0 [] bank-Reached bank-Linked (omega arith) (omega arith)

long_tx_result : run (long_tx 2 10 64 2 0) [] bank ≡ some (ok (true, 2), bank)
unfolding long_tx run
long_tx_result = refl

run-short_tx_example :
    run (short_tx 2 10 64 1 0 1) [] bank
    ≡ returns (outcome bank (locate bank (64 ∷ []) 0) (locate bank (64 ∷ []) 1))
run-short_tx_example =
    run-short_tx 2 10 64 bank [] 1 0 1 (64 ∷ []) bank-Linked (λ e. omega arith) (omega arith)

locate_result : locate bank (64 ∷ []) 1 ≡ 96
unfolding locate
locate_result = refl

bank-IsBank : IsBank 2 bank 64 (64 ∷ [])
bank-IsBank = record { linked = bank-Linked; within = (omega arith, tt); apart = (tt, tt) }

alloc_tx-Changed_example : Changed 2 10 64 1 1 bank 4096 [] (64 ∷ [])
alloc_tx-Changed_example =
    alloc_tx-Changed 2 10 64 1 1 bank 4096 [] (omega arith) (omega arith) (omega arith)
      (λ e. omega arith) (64 ∷ []) (λ e. omega arith) bank-IsBank (omega arith, tt) (omega arith)
      (omega arith) (inl (omega arith), tt)

-- Two threads, of which the first has entered the barrier.
abbrev one_entered : Synced
one_entered =
    Barrier.state (record { cardinal = 2; step = 1; mode = Barrier.enter }) [] Barrier.waits_leave 0
      (Barrier.idle 1)

one_entered-Reach : Barrier.Reach (Barrier.start 2) one_entered
one_entered-Reach = Barrier.next Barrier.here (
    Barrier.enters (record { cardinal = 2; step = 0; mode = Barrier.enter }) [] (Barrier.idle 1) 0
      (λ e. omega arith))

Reach-synced_example :
    All (λ a. All (λ b. a.syncs ≤ entered b.place b.syncs) one_entered.threads) one_entered.threads
Reach-synced_example = Reach-synced 2 one_entered one_entered-Reach

-- One thread has counted down once.
abbrev counting : Store
counting = written 64 1 (omega arith) (λ _. 0)

abbrev counted_down : Store
counted_down = update counting 64 99

one_less :
    Reach 64
      (begun 64 1 (omega arith) (λ _. 0))
      (record { memory = counted_down; workers = fetches 99 ∷ [] })
unfolding run read_counter decrease
one_less =
    next (next here (Step.fetch counting counting [] [] 99 100 refl))
      (Step.succeed counting counted_down [] [] 99 100 refl)

Reach-counter_is_example :
    All (λ t. t ≢ violated) (fetches 99 ∷ [])
    × (run (counter_is 64 (Countdown.total (fetches 99 ∷ []))) [] counted_down
        ≡ some (ok true, counted_down))
Reach-counter_is_example =
    Reach-counter_is 64 1 (omega arith) (λ _. 0)
      (record { memory = counted_down; workers = fetches 99 ∷ [] }) one_less

-- A library whose reads find 2 at the address 64 and are refused elsewhere; its state is the number of
-- reads.
abbrev refusing : Library ℕ
refusing = record {
  tm_begin = λ is_ro s. (some 1, 0);
  tm_end = λ tx s. (true, s);
  tm_read = λ tx source size s. if source == 64 then (some 2, 1) else (none, 2);
  tm_write = λ tx value size target s. (true, s);
  tm_alloc = λ tx size s. (abort, s);
  tm_free = λ tx target s. (true, s);
}

transactional-short_tx_example :
    transactional refusing 3 false (closure 2 10 64 1) (2 ∷ 3 ∷ []) 0
    ≡ transactional refusing 2 false (closure 2 10 64 1) (0 ∷ 1 ∷ []) 2
transactional-short_tx_example =
    transactional-short_tx 2 10 64 1 refusing 2 1 2 2 3 0 0 1 2 (refl, refl) (refl, refl)
      (refl, refl) (omega arith) (omega arith)
