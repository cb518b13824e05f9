-- ===== src/Sync/Counter/Lost.antt =====
-- Without a lock (sync-examples/counter1.c and counter3.c), rounds are lost.
use software_transactional_m.Prelude.{ℕ, zero, suc, ◌+◌, ◌≡◌, false, [], ◌∷◌, arith}
use software_transactional_m.Sync.Counter.{
  Thread, idle, has_read, Counting, Unlocked, Reach, here, next, start,
}

abbrev pair : (counter : ℕ) (a b : Thread) → Counting
pair n a b = record { counter = n; held = false; threads = a ∷ b ∷ [] }

-- Both threads read before one of them writes.
same_round :
    (s : Counting) (n r : ℕ)
    → Reach Unlocked s (pair n (idle (suc r)) (idle (suc r)))
    → Reach Unlocked s (pair (n + 1) (idle r) (idle r))
same_round s n r reached =
    next
      (next
        (next (next reached (Unlocked.reads n r false [] (idle (suc r) ∷ [])))
          (Unlocked.reads n r false (has_read r n ∷ []) []))
        (Unlocked.writes n r n false [] (has_read r n ∷ [])))
      (Unlocked.writes (n + 1) r n false (idle r ∷ []) [])

same_rounds :
    (s : Counting) (r n : ℕ)
    → Reach Unlocked s (pair n (idle r) (idle r))
    → Reach Unlocked s (pair (n + r) (idle 0) (idle 0))
same_rounds s zero n reached = let e : n ≡ n + 0 = omega arith in rw (← e) reached
same_rounds s (suc r) n reached =
    let e : n + 1 + r ≡ n + suc r = omega arith in
    rw (← e) (same_rounds s r (n + 1) (same_round s n r reached))

-- Two threads without a lock can come to the end with half of what they are to count.
Unlocked-loses : (runs : ℕ) → Reach Unlocked (start 2 runs) (pair (0 + runs) (idle 0) (idle 0))
Unlocked-loses runs = same_rounds (start 2 runs) runs 0 here
