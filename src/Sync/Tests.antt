-- ===== src/Sync/Tests.antt =====
-- The theorems on sync-examples/ at concrete inputs.
use software_transactional_m.Prelude.{
  ℕ, ◌*◌, ◌≡◌, ◌≢◌, refl, true, false, inl, inr, List, [], ◌∷◌, arith, ltb,
}
use software_transactional_m.Sync.Procon.{Turn, produces, consumes, step, run, initial, runs}
use software_transactional_m.Sync.Procon.Invariant.{Holds, NoRace, run-Holds}
use software_transactional_m.Sync.Procon.Locked.{
  LockedTurn, Locked, turns, locked_initial, can_produce, can_consume,
}
use software_transactional_m.Sync.Procon.Waiting.{HasWaker, turns-HasWaker}
use software_transactional_m.Sync.Counter
use software_transactional_m.Sync.Counter.Total.{Joined-counts}
use software_transactional_m.Sync.Election
use software_transactional_m.Sync.Election.Leader.{Over-one_leader}

-- One round of the producer, with the data 5, and one of the consumer.
abbrev one_round : List (Turn ℕ)
one_round = produces 5 ∷ produces 5 ∷ produces 5 ∷ produces 5 ∷ consumes ∷ consumes ∷ consumes ∷ []

run-Holds_example :
    Holds 1024 (run 1024 one_round (initial 0)).shared
    × NoRace 1024
        (run 1024 one_round (initial 0)).producer
        (run 1024 one_round (initial 0)).consumer
run-Holds_example = run-Holds 1024 0 one_round

one_round_result : (run 1024 one_round (initial 0)).shared.consumed 0 ≡ 5
unfolding run step
one_round_result = refl

-- The consumer comes first and sleeps.
abbrev two_turns : List (LockedTurn ℕ)
two_turns = LockedTurn.consumes ∷ LockedTurn.produces 5 ∷ []

abbrev after_two : Locked ℕ
after_two = turns 8 two_turns (locked_initial 0)

turns-HasWaker_example :
    Holds 8 after_two.shared
    × HasWaker after_two.phase_c after_two.phase_p
        (ltb after_two.round_p runs)
        (can_produce 8 after_two)
    × HasWaker after_two.phase_p after_two.phase_c
        (ltb after_two.round_c runs)
        (can_consume 8 after_two)
turns-HasWaker_example = turns-HasWaker 8 (omega arith) 0 two_turns

-- One thread counts once, under the lock.
abbrev counted : Counter.Counting
counted = Counter.state 1 false [] (Counter.idle 0) []

counted-Reach : Counter.Reach Counter.Locked (Counter.start 1 1) counted
counted-Reach =
    Counter.next
      (Counter.next
        (Counter.next (Counter.next Counter.here (Counter.Locked.acquires 0 0 [] []))
          (Counter.Locked.reads 0 0 true [] []))
        (Counter.Locked.writes 0 0 0 true [] []))
      (Counter.Locked.releases 1 0 true [] [])

Joined-counts_example : counted.counter ≡ 1 * 1
Joined-counts_example = Joined-counts 1 1 counted (inl counted-Reach) (refl, tt)

-- Two threads, of which the first leads.
abbrev first : Election.Thread
first = Election.at 1 Election.after_round

abbrev second : Election.Thread
second = Election.at 2 Election.after_round

abbrev elected : Election.Election
elected = record { leader = 1; nb_leaders = 1; held = false; threads = first ∷ second ∷ [] }

elected-Reach : Election.Reach Election.Atomic (Election.start 2) elected
elected-Reach =
    Election.next
      (Election.next
        (Election.next Election.here
          (Election.Atomic.swaps 0 0 1 false [] (Election.at 2 Election.before_round ∷ []) refl))
        (Election.Atomic.fails 1 0 2 false (Election.at 1 Election.wrote ∷ []) []
          (λ e. omega arith)))
      (Election.Atomic.notes 1 0 1 false [] (second ∷ []))

Over-one_leader_example : (elected.leader ≢ 0) × (elected.nb_leaders ≡ 1)
Over-one_leader_example =
    Over-one_leader 2 elected (inr elected-Reach) first (second ∷ []) refl (refl, (refl, tt))
