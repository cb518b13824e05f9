-- ===== src/Stm/Word/Snapshot.antt =====
-- What the reader of a word of Stm.Word may rely on, whatever the writers do between its accesses.
use software_transactional_m.Prelude.{ℕ, ◌^◌, ◌≡◌, ◌≢◌, refl, sym, ◌<◌, ◌≤◌, arith, subst, ap, ◌∙◌}
use software_transactional_m.Stm.Word.{
  outside, returned, State, fresh, at, Write, locks, backs_off, ticks, invalid, copies, stamps,
  unlocks, others_tick, Read, begins, samples, loads, finds_unlocked, finds_locked, finds_same,
  finds_other, finds_old, finds_new, goes_on, Reach, here, writes, reads,
}
use software_transactional_m.Stm.Word.Stage.{Closed, Settled, Seen, Settled-copy}
use software_transactional_m.Stm.Word.Invariant.{Reach-Inv, Reach-clock, fresh-Inv}

-- A word of a new segment, and any interleaving of the accesses of one reader with those of any number
-- of committing transactions, as long as the clock is below 2^32: whenever a pass of the loop of
-- tm_read over the word has got through its three tests, what the memcpy found is the value that the
-- word has at the clock value at which the reader's transaction began. Transactions that were still
-- committing then count, if they had taken their clock value.
pub Reach-returned :
    (clock v : ℕ) (s : State)
    → Reach (fresh clock) s
    → s.global_clock < 2 ^ 32
    → s.place ≡ returned v
    → at s.rv s.log ≡ v
Reach-returned clock v s r room e =
    let inv = Reach-Inv r room (fresh-Inv clock) in
    (subst (λ p. Seen p s.rv s.version s.owner s.log) e inv.seen).0

-- A reader with this `rv` that has begun, and for which the value at `rv` is settled.
abbrev Began : (rv v : ℕ) → State → Type 0
Began rv v s =
    (s.place ≢ outside) × (s.rv ≡ rv) × (rv ≤ s.global_clock) × Settled rv v s.owner s.log

module _ (rv v : ℕ) where
  Write-Began : {s t : State} → Write s t → Began rv v s → Began rv v t
  Write-Began (locks e) (p, q, le, h) = (p, q, le, (h.0, tt))
  Write-Began (backs_off e) (p, q, le, h) = (p, q, le, (h.0, tt))
  Write-Began (ticks v' e) (p, q, le, h) = (p, q, omega arith, (h.0, omega arith))
  Write-Began (invalid e) (p, q, le, h) = (p, q, le, (h.0, tt))
  Write-Began {s} (copies {wv = wv} {v = v'} e) (p, q, le, h) =
      (p, q, le, Settled-copy rv s.version s.log wv v' v (h.0, subst (Closed rv) e h.1))
  Write-Began (stamps e) (p, q, le, h) = (p, q, le, (h.0, tt))
  Write-Began (unlocks e) (p, q, le, h) = (p, q, le, (h.0, tt))
  Write-Began others_tick (p, q, le, h) = (p, q, omega arith, h)

  Read-Began : {s t : State} → Read s t → Began rv v s → Began rv v t
  Read-Began (begins e) (p, q, le, h) = absurd (p e)
  Read-Began (samples e) (p, q, le, h) = ((λ f. cc), q, le, h)
  Read-Began (loads e) (p, q, le, h) = ((λ f. cc), q, le, h)
  Read-Began (finds_unlocked e _) (p, q, le, h) = ((λ f. cc), q, le, h)
  Read-Began (finds_locked e _) (p, q, le, h) = ((λ f. cc), q, le, h)
  Read-Began (finds_same e _) (p, q, le, h) = ((λ f. cc), q, le, h)
  Read-Began (finds_other e _) (p, q, le, h) = ((λ f. cc), q, le, h)
  Read-Began (finds_old e _) (p, q, le, h) = ((λ f. cc), q, le, h)
  Read-Began (finds_new e _) (p, q, le, h) = ((λ f. cc), q, le, h)
  Read-Began (goes_on e) (p, q, le, h) = ((λ f. cc), q, le, h)

  Reach-Began : {s t : State} → Reach s t → Began rv v s → Began rv v t
  Reach-Began here h = h
  Reach-Began (writes r st) h = Write-Began st (Reach-Began r h)
  Reach-Began (reads r st) h = Read-Began st (Reach-Began r h)

-- Repeatable reads, for any interleaving as above. When a pass over the word has found `v` and a later
-- pass of the same transaction over it finds `v'`, whatever was committed between them, the two are the
-- same.
pub Reach-repeats :
    (clock v v' : ℕ) (s t : State)
    → Reach (fresh clock) s
    → s.place ≡ returned v
    → Reach s t
    → t.place ≡ returned v'
    → t.global_clock < 2 ^ 32
    → v ≡ v'
Reach-repeats clock v v' s t r found later found' room =
    let small : s.global_clock < 2 ^ 32 = omega (arith, Reach-clock later) in
    let inv = Reach-Inv r small (fresh-Inv clock) in
    let inv' = Reach-Inv later room inv in
    let seen = subst (λ p. Seen p s.rv s.version s.owner s.log) found inv.seen in
    let (_, same_rv, _, kept) = Reach-Began s.rv v later ((λ f. cc), refl, inv.begun, seen) in
    let seen' = subst (λ p. Seen p t.rv t.version t.owner t.log) found' inv'.seen in
    sym kept.0 ∙ ap (λ rv. at rv t.log) (sym same_rv) ∙ seen'.0
