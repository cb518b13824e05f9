-- ===== src/Grading/Bank/Balance.antt =====
-- A short transaction of the bank (grading/workload.hpp) keeps the bank and its money.
use software_transactional_m.Prelude.{
  ℕ, ◌+◌, ◌-◌, ◌<◌, ◌≤◌, ◌≡◌, ◌≢◌, refl, ◌∙◌, List, [], ◌∷◌, inl, inr, All, update, arith, Bool,
  true, ltb, ltb→lt, Option, some, length, Bool-cases,
}
use software_transactional_m.Grading.Transaction.{ok}
use software_transactional_m.Grading.Store.{Store, run}
use software_transactional_m.Grading.Bank.{wrap, is_positive, both_found, short_tx}
use software_transactional_m.Grading.Bank.Money.{money, number}
use software_transactional_m.Grading.Bank.Frame.{IsBank}
use software_transactional_m.Grading.Bank.Account.{Account, Account-Written}
use software_transactional_m.Grading.Bank.Transfer.{locate, moved, both_found_ne, run-short_tx}

-- The memory after a transaction: the same list of segments, as many accounts, and as much money.
pub record IsKept (nbaccounts : ℕ) (m m' : Store) (start : ℕ) (bs : List ℕ) : Type 0 where
  pub bank : IsBank nbaccounts m' start bs
  pub staffed : All (λ b. 0 < m b) bs → All (λ b. 0 < m' b) bs
  pub number_same : number m' bs ≡ number m bs
  pub money_same : wrap (money m' bs) ≡ wrap (money m bs)

lt-of_positive : (balance : ℕ) → is_positive balance ≡ true → 0 < balance
unfolding is_positive
lt-of_positive balance h = ground arith

locate-Account :
    (m : Store) (bs : List ℕ) (id : ℕ) → locate m bs id ≢ 0 → Account m bs (locate m bs id)
unfolding locate
locate-Account m [] id ne = absurd (ne refl)
locate-Account m (b ∷ bs) id ne = elim (Bool-cases (ltb id (m b))) [
  | inl here ↦ inl (id, ltb→lt id (m b) here, rw here refl)
  | inr later ↦ rw later (inr (locate-Account m bs (id - m b) (rw later at ne)))
]

module _ (nbaccounts start : ℕ) (m : Store) (bs : List ℕ)
    (bank : IsBank nbaccounts m start bs) where
  unchanged-IsKept : IsKept nbaccounts m m start bs
  unchanged-IsKept = record { bank = bank; staffed = λ h. h; number_same = refl; money_same = refl }

  module _ (p q : ℕ) (at_p : Account m bs p) (at_q : Account m bs q) where
    one_moved-IsKept :
        0 < m p
        → (taken : Store) → taken ≡ update m p (m p - 1)
        → IsKept nbaccounts m (update taken q (wrap (taken q + 1))) start bs
    one_moved-IsKept rich taken e = rw e (
        let m₁ = update m p (m p - 1) in
        let less = Account-Written nbaccounts m p (m p - 1) bs bank.within bank.apart at_p in
        let more =
          Account-Written nbaccounts m₁ q (wrap (m₁ q + 1)) bs less.within bank.apart
            (less.accounts_stay q at_q) in
        record {
          bank = record {
            linked = more.linked start (less.linked start bank.linked);
            within = more.within;
            apart = bank.apart;
          };
          staffed = λ h. more.staffed (less.staffed h);
          number_same = more.number_same ∙ less.number_same;
          money_same = omega (arith, less.money_moves, more.money_moves);
        })

    moved-IsKept : IsKept nbaccounts m (moved m p q) start bs
    unfolding moved
    moved-IsKept = elim (Bool-cases (is_positive (m p))) [
      | inl rich ↦
          rw rich (one_moved-IsKept (lt-of_positive (m p) rich) (update m p (m p - 1)) refl)
      | inr poor ↦ rw poor unchanged-IsKept
    ]

  -- A short transaction on a bank returns, and keeps the segments, the number of accounts and, modulo
  -- 2^64, the money, whatever the indices.
  pub short_tx-IsKept :
      (init_balance : ℕ) (answers : List (Option ℕ)) (fuel send_id recv_id : ℕ)
      → start ≢ 0
      → length bs ≤ fuel
      → (b : Bool) × (m' : Store) × (run
            (short_tx nbaccounts init_balance start fuel send_id recv_id)
            answers
            m
          ≡ some (ok b, m'))
        × IsKept nbaccounts m m' start bs
  short_tx-IsKept init_balance answers fuel send_id recv_id ne f =
      let p = locate m bs send_id in
      let q = locate m bs recv_id in
      (
        _,
        _,
        run-short_tx nbaccounts init_balance start m answers fuel send_id recv_id bs bank.linked ne
            f,
        elim (Bool-cases (both_found p q)) [
          | inl found ↦ rw found (
              let here = both_found_ne p q found in
              moved-IsKept p q (locate-Account m bs send_id here.0)
                (locate-Account m bs recv_id here.1))
          | inr missing ↦ rw missing unchanged-IsKept
        ],
      )
