-- ===== src/Grading/Bank/Init.antt =====
-- What the first transactions of the bank (grading/workload.hpp) do.
use software_transactional_m.Prelude.{
  ℕ, zero, suc, ◌+◌, ◌*◌, ◌-◌, ◌<◌, ◌≡◌, ◌≢◌, refl, ap, ◌∙◌, List, [], ◌∷◌, update, update_self,
  update_ne, arith, true, ◌==◌, ==_refl, Option, some,
}
use software_transactional_m.Grading.Transaction.{ok}
use software_transactional_m.Grading.Shared.{cell, after}
use software_transactional_m.Grading.Store.{Store, run}
use software_transactional_m.Grading.Bank.{fill, init_tx, init_check}
use software_transactional_m.Grading.Bank.Money.{funds, parity_at, accounts_at, money}
use software_transactional_m.Grading.Bank.Frame.{IsBank}

module _ (nbaccounts init_balance start : ℕ) where
  -- The memory after the loop.
  filled : Store → (accounts i rounds : ℕ) → Store
  filled m accounts i zero = m
  filled m accounts i (suc rounds) =
      filled (update m (cell accounts i) init_balance) accounts (i + 1) rounds

  run-fill :
      (m : Store) (accounts i rounds : ℕ) (answers : List (Option ℕ))
      → run (fill nbaccounts init_balance start accounts i rounds) answers m
        ≡ some (ok tt, filled m accounts i rounds)
  unfolding run fill filled
  run-fill m accounts i zero answers = refl
  run-fill m accounts i (suc rounds) answers =
      run-fill (update m (cell accounts i) init_balance) accounts (i + 1) rounds answers

  filled_below :
      (m : Store) (accounts i rounds x : ℕ)
      → x < cell accounts i
      → filled m accounts i rounds x ≡ m x
  unfolding filled
  filled_below m accounts i zero x h = refl
  filled_below m accounts i (suc rounds) x h =
      filled_below (update m (cell accounts i) init_balance) accounts (i + 1) rounds x (omega arith)
      ∙ update_ne m (cell accounts i) x init_balance (λ e. omega arith)

  filled_first :
      (m : Store) (accounts i rounds : ℕ)
      → filled m accounts i (suc rounds) (cell accounts i) ≡ init_balance
  unfolding filled
  filled_first m accounts i rounds =
      filled_below (update m (cell accounts i) init_balance) accounts (i + 1) rounds
        (cell accounts i) (omega arith)
      ∙ update_self m (cell accounts i) init_balance

  funds-filled :
      (m : Store) (accounts i rounds : ℕ)
      → funds (filled m accounts i rounds) accounts i rounds ≡ init_balance * rounds
  unfolding filled funds
  funds-filled m accounts i zero = omega arith
  funds-filled m accounts i (suc rounds) =
      let e : init_balance + init_balance * rounds ≡ init_balance * suc rounds = grind arith in
      omega (
        arith,
        filled_first m accounts i rounds,
        funds-filled (update m (cell accounts i) init_balance) accounts (i + 1) rounds,
        e,
      )

  -- The bank that `init` leaves.
  pub record IsInitial (m : Store) : Type 0 where
    pub bank : IsBank nbaccounts m start (start ∷ [])
    pub count : m start ≡ nbaccounts
    pub balance : money m (start ∷ []) ≡ init_balance * nbaccounts

  -- The first transaction of `init`, on a region that is zero but for what it writes, leaves one segment
  -- with all accounts at the initial balance, and the check of `init` then succeeds.
  pub init_tx-IsInitial :
      (m : Store) (answers : List (Option ℕ))
      → 0 < nbaccounts
      → start ≢ 0
      → m (after start) ≡ 0
      → m (parity_at start) ≡ 0
      → (m' : Store) × (run (init_tx nbaccounts init_balance start) answers m ≡ some (ok tt, m'))
        × IsInitial m'
        × (run (init_check nbaccounts init_balance start) answers m' ≡ some (ok true, m'))
  unfolding init_tx init_check run
  init_tx-IsInitial m answers some_room ne next parity =
      let counted = update m start nbaccounts in
      let m' = filled counted (accounts_at start) 0 nbaccounts in
      let below = λ (x : ℕ) (h : x < cell (accounts_at start) 0) (k : start ≢ x).
        filled_below counted (accounts_at start) 0 nbaccounts x h
        ∙ update_ne m start x nbaccounts k in
      let count : m' start ≡ nbaccounts =
        filled_below counted (accounts_at start) 0 nbaccounts start (omega arith)
        ∙ update_self m start nbaccounts in
      let e : nbaccounts ≡ suc (nbaccounts - 1) = omega arith in
      let first : m' (cell (accounts_at start) 0) ≡ init_balance =
        ap (λ n. filled counted (accounts_at start) 0 n (cell (accounts_at start) 0)) e
        ∙ filled_first counted (accounts_at start) 0 (nbaccounts - 1) in
      (
        m',
        run-fill counted (accounts_at start) 0 nbaccounts answers,
        record {
          bank = record {
            linked = (refl, ne, below (after start) (omega arith) (λ e. omega arith) ∙ next);
            within = (omega (arith, count), tt);
            apart = (tt, tt);
          };
          count = count;
          balance = rw count (
              omega (
                arith,
                below (parity_at start) (omega arith) (λ e. omega arith),
                parity,
                funds-filled counted (accounts_at start) 0 nbaccounts,
              ));
        },
        ap (λ b. some (ok b, m')) (ap (λ v. v == init_balance) first ∙ ==_refl init_balance),
      )
