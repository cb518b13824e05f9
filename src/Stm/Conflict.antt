-- ===== src/Stm/Conflict.antt =====
-- Of two transactions in conflict the first to commit wins, and one that runs alone commits.
use software_transactional_m.Prelude.{
  ℕ, ◌+◌, ◌%◌, ◌^◌, ◌≤◌, ◌<◌, ◌≡◌, refl, sym, ap, ◌∙◌, Bool, true, false, some, List, [], ◌∷◌,
  arith, ◌==◌, inl, inr, Bool-cases, subst, is_some,
}
use software_transactional_m.Stm.Types.{LlNode, World, Transaction, locks, versions, with_locks}
use software_transactional_m.Stm.Locks.{is_null}
use software_transactional_m.Stm.Locks.Acquire.{has, acquirable, marked}
use software_transactional_m.Stm.Commit.{tick, tm_end}
use software_transactional_m.Stm.Commit.Cases.{
  IsReady, committed, ticked, passes, attempt, tm_end-cases,
}
use software_transactional_m.Stm.Snapshot.{
  IsQuiet, HasRoom, Since-refl, tm_end-outcome, tm_end-keeps, IsReady-Since,
}
use software_transactional_m.Stm.Commit.Valid.{all_valid-old}

-- A read that does not stand ends the transaction, wherever it is in the read set.
stale-fails :
    (w : World) (t : Transaction) (k x : ℕ)
    → IsQuiet w
    → HasRoom w
    → IsReady w t
    → is_some t.filter ≡ true
    → t.is_ro ≡ false
    → is_null t.write_addresses ≡ false
    → has k x t.read_addresses ≡ true
    → t.rv < versions w.region k x
    → (r : Bool × World) × (tm_end w t ≡ some r) × (r.0 ≡ false)
stale-fails w t k x quiet room ready filtered rw_ wrote read newer = (
  attempt w t,
  tm_end-cases w t ready filtered ∙ rw (rw_, wrote),
  elim (Bool-cases (passes w t)) [
    | inl good ↦ absurd (contradiction good)
    | inr bad ↦ elim (Bool-cases (acquirable (locks w.region) t.write_addresses)) [
      | inl free ↦ rw (free, bad)
      | inr taken ↦ rw taken
    ]
  ],
)
  where
    contradiction : passes w t ≡ true → ⊥
    contradiction good = elim (Bool-cases (tick w.region == (t.rv + 1) % 2 ^ 32)) [
      | inl alone ↦ ground (arith, quiet.not_newer k x)
      | inr others ↦ ground (
        arith,
        others,
        all_valid-old (with_locks w.region (marked (locks w.region) t.write_addresses true))
            t.write_addresses t.rv t.read_addresses k x,
      )
    ]

-- First committer wins. When a transaction has written a word and committed, every other one that
-- was well formed before, had read the word and wrote something itself ends with false: no update
-- of the first is lost.
pub tm_end-first_wins :
    (w w' : World) (t₁ t₂ : Transaction) (k x : ℕ)
    → IsQuiet w
    → w.region.global_clock + 2 < 2 ^ 32
    → IsReady w t₁
    → t₁.is_ro ≡ false
    → has k x t₁.write_addresses ≡ true
    → tm_end w t₁ ≡ some (true, w')
    → IsReady w t₂
    → is_some t₂.filter ≡ true
    → t₂.is_ro ≡ false
    → is_null t₂.write_addresses ≡ false
    → t₂.rv ≤ w.region.global_clock
    → has k x t₂.read_addresses ≡ true
    → (r : Bool × World) × (tm_end w' t₂ ≡ some r) × (r.0 ≡ false)
tm_end-first_wins w w' t₁ t₂ k x quiet room ready₁ rw₁ wrote e ready₂ filtered rw₂ wrote₂ before
      read =
    let (quiet', later) = tm_end-keeps w t₁ quiet (omega arith) ready₁ e in
    let (clock, stamp) = first in
    stale-fails w' t₂ k x quiet' (omega arith)
      (IsReady-Since (later w (Since-refl w)) t₂ quiet' ready₂) filtered rw₂ wrote₂ read
      (omega arith)
  where
    some_write : (ns : List LlNode) → has k x ns ≡ true → is_null ns ≡ false
    some_write [] h = sym h
    some_write (n ∷ ns) h = refl

    is : (true, w') ≡ attempt w t₁
    is = tm_end-outcome w t₁ ready₁ e ∙ rw (rw₁, some_write t₁.write_addresses wrote)

    won : w' ≡ committed w t₁
    won = elim (Bool-cases (acquirable (locks w.region) t₁.write_addresses)) [
      | inl free ↦ elim (Bool-cases (passes w t₁)) [
        | inl good ↦
            let same : (true, w') ≡ (true, committed w t₁) = is ∙ rw (free, good) in
            ap (λ (p : Bool × World). p.1) same
        | inr bad ↦ absurd (
            let same : (true, w') ≡ (false, ticked w) = is ∙ rw (free, bad) in
            let no : true ≡ false = ap (λ (p : Bool × World). p.0) same in cc)
      ]
      | inr taken ↦ absurd (
          let same : (true, w') ≡ (false, w) = is ∙ rw taken in
          let no : true ≡ false = ap (λ (p : Bool × World). p.0) same in cc)
    ]

    first :
        (w'.region.global_clock ≡ w.region.global_clock + 1)
        × (versions w'.region k x ≡ w.region.global_clock + 1)
    first =
        subst
          (λ (u : World).
            (u.region.global_clock ≡ w.region.global_clock + 1)
            × (versions u.region k x ≡ w.region.global_clock + 1))
          (sym won) (omega arith, rw wrote (omega arith))

-- A transaction that ran alone commits: if no commit has moved the clock since it began, no lock is
-- held and no word stands twice in its write set, then its end returns true and publishes all of it.
pub tm_end-alone :
    (w : World) (t : Transaction)
    → IsQuiet w
    → HasRoom w
    → IsReady w t
    → is_some t.filter ≡ true
    → t.is_ro ≡ false
    → is_null t.write_addresses ≡ false
    → t.rv ≡ w.region.global_clock
    → acquirable (λ k x. false) t.write_addresses ≡ true
    → tm_end w t ≡ some (true, committed w t)
tm_end-alone w t quiet room ready filtered rw_ wrote alone distinct =
    let undisturbed : (tick w.region == (t.rv + 1) % 2 ^ 32) ≡ true = ground arith in
    tm_end-cases w t ready filtered ∙ rw (rw_, wrote, free t.write_addresses distinct, undisturbed)
  where
    free :
        (ns : List LlNode)
        → acquirable (λ k x. false) ns ≡ true
        → acquirable (locks w.region) ns ≡ true
    free [] h = refl
    free (n ∷ ns) h = ground (arith, quiet.unlocked n.corresponding_segment n.word_num, free ns)
