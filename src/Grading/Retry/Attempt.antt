-- ===== src/Grading/Retry/Attempt.antt =====
-- What one attempt of `transactional` comes to, over a library with the contract.
use software_transactional_m.Prelude.{
  ℕ, ◌≡◌, refl, sym, ap, Bool, true, false, Option, none, some, List, ◌⊎◌, inl, inr, subst,
}
use software_transactional_m.Grading.Transaction.{
  Tx, Exception, transaction_begin, transaction_retry, Result, ok, thrown, Library, Transaction,
  Left, leaves, terminates, execute, destroy, attempt,
}
use software_transactional_m.Grading.Store.{Store, run}
use software_transactional_m.Grading.Retry.Contract.{IsAtomic}
use software_transactional_m.Grading.Retry.Execution.{Ran, execute-Ran}

module _ {S : Type 0} (lib : Library S) (atomic : IsAtomic lib) where
  open atomic use {memory, view}

  -- The object of `class Transaction` at the begin of an attempt.
  abbrev pub opened : Bool → ℕ → Transaction
  opened is_ro tx = record { tx = tx; aborted = false; is_ro = is_ro }

  -- In the attempt from the state `s` the library let the transaction `tx` begin, the closure was
  -- executed to the result `r` in the state `moment`, and the end of the library that was called there
  -- succeeded, in the state `s'`. The closure took place at once: `r` and `after` are what it comes to
  -- on the store `before`, and the memory was `before` when the end was called and `after` when it
  -- returned, or nothing was written and the end left the memory as it was.
  pub record TookPlace {A : Type 0} (is_ro : Bool) (func : Tx A) (s : S) (r : Result A) (s' : S)
      : Type 0 where
    pub tx : ℕ
    pub object : Transaction
    pub moment : S
    pub began : (lib.tm_begin is_ro s).0 ≡ some tx
    pub executed :
        execute lib func (opened is_ro tx) (lib.tm_begin is_ro s).1 ≡ some (r, object, moment)
    pub ended : lib.tm_end object.tx moment ≡ (true, s')
    pub answers : List (Option ℕ)
    pub before : Store
    pub after : Store
    pub ran : run func answers before ≡ some (r, after)
    pub committed :
        ((memory moment ≡ before) × (memory s' ≡ after))
        ⊎ ((after ≡ before) × (memory s' ≡ memory moment))

  -- What an attempt can come to.
  abbrev pub Attempted : {A : Type 0} → Bool → Tx A → S → Option (Left A × S) → Type 0
  Attempted is_ro func s none = Unit
  Attempted is_ro func s (some (leaves r, s')) =
      (r ≡ thrown transaction_retry)
      ⊎ ((r ≡ thrown transaction_begin) ⊎ TookPlace is_ro func s r s')
  Attempted {A} is_ro func s (some (terminates, s')) =
      (x : Exception) × (answers : List (Option ℕ)) × (before : Store) × (after : Store) × (run func
          answers before
        ≡ some (thrown x, after))

  module _ {A : Type 0} (is_ro : Bool) (func : Tx A) (s : S) where
    module _ (tx : ℕ) (start : Store) (began : (lib.tm_begin is_ro s).0 ≡ some tx) where
      -- The end of the transaction succeeded.
      ended-TookPlace :
          (r : Result A) (t : Transaction) (moment : S) (answers : List (Option ℕ)) (m' : Store)
          → execute lib func (opened is_ro tx) (lib.tm_begin is_ro s).1 ≡ some (r, t, moment)
          → run func answers start ≡ some (r, m')
          → (lib.tm_end t.tx moment).0 ≡ true
          → ((memory moment ≡ start) × (memory (lib.tm_end t.tx moment).1 ≡ m'))
            ⊎ ((m' ≡ start) × (memory (lib.tm_end t.tx moment).1 ≡ memory moment))
          → TookPlace is_ro func s r (lib.tm_end t.tx moment).1
      ended-TookPlace r t moment answers m' executed ran done how = record {
        tx = tx;
        object = t;
        moment = moment;
        began = began;
        executed = executed;
        ended = ap (λ b. (b, (lib.tm_end t.tx moment).1)) done;
        answers = answers;
        before = start;
        after = m';
        ran = ran;
        committed = how;
      }

      destroy-Attempted :
          (o : Option (Result A × Transaction × S))
          → execute lib func (opened is_ro tx) (lib.tm_begin is_ro s).1 ≡ o
          → Ran lib atomic func start start o
          → Attempted is_ro func s (elim o as (λ _. Option (Left A × S)) [
            | none ↦ none
            | some (r, t, s) ↦ some (destroy lib r t s)
          ])
      unfolding destroy
      destroy-Attempted none e h = tt
      destroy-Attempted (some (r, t, s)) e (inl (again, aborted)) = rw aborted (inl again)
      destroy-Attempted (some (ok a, t, s)) e (inr (answers, m', ran, sees, going)) =
          elim (atomic.ends t.tx s start m' sees) [
            | inl failed ↦ rw (going, failed) (inl refl)
            | inr (done, how) ↦
                let took = ended-TookPlace (ok a) t s answers m' e ran done how in
                rw (going, done) (inr (inr took))
          ]
      destroy-Attempted (some (thrown x, t, s)) e (inr (answers, m', ran, sees, going)) =
          elim (atomic.ends t.tx s start m' sees) [
            | inl failed ↦ rw (going, failed) (x, answers, start, m', ran)
            | inr (done, how) ↦
                let took = ended-TookPlace (thrown x) t s answers m' e ran done how in
                rw (going, done) (inr (inr took))
          ]

    pub attempt-Attempted : Attempted is_ro func s (attempt lib is_ro func s)
    unfolding attempt
    attempt-Attempted =
        let s' = (lib.tm_begin is_ro s).1 in
        elim (atomic.begins is_ro s) [
          | inl refused ↦
              let step : attempt lib is_ro func s ≡ some (leaves (thrown transaction_begin), s') =
                rw (refused, attempt) in
              subst (Attempted is_ro func s) (sym step) (inr (inl refl))
          | inr (tx, began, start, sees) ↦
              let t = opened is_ro tx in
              let step : attempt lib is_ro func s
                  ≡ elim (execute lib func t s') as (λ _. Option (Left A × S)) [
                    | none ↦ none
                    | some (r, t, s) ↦ some (destroy lib r t s)
                  ] =
                rw (began, attempt) in
              subst (Attempted is_ro func s) (sym step) (
                destroy-Attempted tx start began _ refl
                  (execute-Ran lib atomic func t s' start start refl sees))
        ]
