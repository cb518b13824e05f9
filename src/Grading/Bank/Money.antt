-- ===== src/Grading/Bank/Money.antt =====
-- What a long transaction of the bank (grading/workload.hpp) computes.
use software_transactional_m.Prelude.{
  ℕ, zero, suc, ◌+◌, ◌*◌, ◌^◌, ◌<◌, ◌≡◌, ◌≢◌, refl, ap, ◌∙◌, Bool, true, false, ◌||◌, Option, none,
  some, List, [], ◌∷◌, ◌==◌, if◌then◌else◌, length, inl, inr, Bool-cases, arith, ==_false,
}
use software_transactional_m.Grading.Transaction.{Tx, ◌>>=◌, pure, ok}
use software_transactional_m.Grading.Shared.{cell, after}
use software_transactional_m.Grading.Store.{Store, run}
use software_transactional_m.Grading.Bank.{wrap, is_negative, sum_accounts, long_loop, long_tx}

-- The sum of the accounts from `i` on, and whether one of them is negative.
unfoldable pub funds : Store → (accounts i rounds : ℕ) → ℕ
funds m accounts i zero = 0
funds m accounts i (suc rounds) = m (cell accounts i) + funds m accounts (i + 1) rounds

unfoldable pub in_debt : Store → (accounts i rounds : ℕ) → Bool
in_debt m accounts i zero = false
in_debt m accounts i (suc rounds) =
    is_negative (m (cell accounts i)) || in_debt m accounts (i + 1) rounds

-- The parts of a segment.
abbrev pub parity_at : ℕ → ℕ
parity_at a = after (after a)

abbrev pub accounts_at : ℕ → ℕ
accounts_at a = after (after (after a))

-- The segments at the addresses `bs` are a list that starts at `a` and ends with a null pointer.
abbrev pub Linked : Store → (a : ℕ) → List ℕ → Type 0
Linked m a [] = a ≡ 0
Linked m a (b ∷ bs) = (a ≡ b) × (b ≢ 0) × Linked m (m (after b)) bs

-- The money, the number of accounts and the debts of a list of segments.
abbrev pub money : Store → List ℕ → ℕ
money m [] = 0
money m (b ∷ bs) = m (parity_at b) + funds m (accounts_at b) 0 (m b) + money m bs

abbrev pub number : Store → List ℕ → ℕ
number m [] = 0
number m (b ∷ bs) = m b + number m bs

abbrev pub any_debt : Store → List ℕ → Bool
any_debt m [] = false
any_debt m (b ∷ bs) = in_debt m (accounts_at b) 0 (m b) || any_debt m bs

wrap-add : (a b c : ℕ) → wrap (wrap (a + b) + c) ≡ wrap (a + (b + c))
wrap-add a b c = omega arith

wrap-add_left : (a b : ℕ) → wrap (wrap a + b) ≡ wrap (a + b)
wrap-add_left a b = omega arith

-- What the sum of the accounts is, or that there is none.
abbrev summed : Store → (accounts i rounds sum : ℕ) → Option ℕ
summed m accounts i rounds sum =
    if in_debt m accounts i rounds then none else some (wrap (sum + funds m accounts i rounds))

module _ {A : Type 0} (m : Store) (answers : List (Option ℕ)) (k : Option ℕ → Tx A) where
  -- One account, by whether it is negative.
  summed_step :
      (debt debts : Bool) (t : Tx (Option ℕ)) (total : ℕ)
      → run (t >>= k) answers m ≡ run (k (if debts then none else some total)) answers m
      → run ((if debt then pure none else t) >>= k) answers m
        ≡ run (k (if debt || debts then none else some total)) answers m
  unfolding run
  summed_step true debts t total h = refl
  summed_step false debts t total h = h

  module _ (accounts : ℕ) where
    run-sum_accounts :
        (i rounds sum : ℕ)
        → sum < 2 ^ 64
        → run (sum_accounts accounts i rounds sum >>= k) answers m
          ≡ run (k (summed m accounts i rounds sum)) answers m
    unfolding sum_accounts run funds in_debt
    run-sum_accounts i zero sum h = ap (λ s. run (k (some s)) answers m) (omega arith)
    run-sum_accounts i (suc rounds) sum h =
        summed_step (is_negative (m (cell accounts i))) (in_debt m accounts (i + 1) rounds)
          (sum_accounts accounts (i + 1) rounds (wrap (sum + m (cell accounts i))))
          (wrap (sum + funds m accounts i (suc rounds)))
          (run-sum_accounts (i + 1) rounds (wrap (sum + m (cell accounts i))) (omega arith)
            ∙ ap
                (λ s.
                  run (k (if in_debt m accounts (i + 1) rounds then none else some s)) answers m)
                (wrap-add sum (m (cell accounts i)) (funds m accounts (i + 1) rounds)))

-- The answer of a long transaction on a bank with this money, this number of accounts and such debts.
abbrev pub verdict : (init_balance nb : ℕ) (debts : Bool) (total accounts : ℕ) → Bool × ℕ
verdict init_balance nb debts total accounts =
    if debts
    then (false, nb)
    else (wrap total == wrap (init_balance * wrap accounts), wrap accounts)

-- It depends on the words that the sums leave.
verdict-eq_of_wrap :
    (init_balance nb : ℕ) (debts : Bool) (t t' n n' : ℕ)
    → wrap t ≡ wrap t'
    → wrap n ≡ wrap n'
    → verdict init_balance nb debts t n ≡ verdict init_balance nb debts t' n'
verdict-eq_of_wrap init_balance nb debts t t' n n' p q = rw (p, q) refl

module _ (nbaccounts init_balance start : ℕ) (m : Store) (answers : List (Option ℕ)) (nb : ℕ) where
  run-long_loop :
      (fuel a count sum : ℕ) (bs : List ℕ)
      → Linked m a bs
      → length bs < fuel
      → count < 2 ^ 64
      → sum < 2 ^ 64
      → run (long_loop nbaccounts init_balance start fuel nb a count sum) answers m
        ≡ some (
          ok (verdict init_balance nb (any_debt m bs) (sum + money m bs) (count + number m bs)),
          m,
        )
  unfolding run long_loop
  run-long_loop zero a count sum bs linked f c h = absurd (omega arith)
  run-long_loop (suc fuel) a count sum [] linked f c h =
      let p : sum ≡ wrap (sum + 0) = omega arith in
      let q : count ≡ wrap (count + 0) = omega arith in
      rw (linked, long_loop)
        (ap (λ z. some (ok (z == wrap (init_balance * count), count), m)) p
          ∙ ap (λ z. some (ok (wrap (sum + 0) == wrap (init_balance * z), z), m)) q)
  run-long_loop (suc fuel) a count sum (b ∷ bs) (e, ne, linked) f c h = rw e (
      rw (==_false b 0 ne, long_loop)
        (run-sum_accounts m answers _ (accounts_at b) 0 (m b) (wrap (sum + m (parity_at b)))
            (omega arith)
          ∙ elim (Bool-cases (in_debt m (accounts_at b) 0 (m b))) [
            | inl debt ↦ rw debt refl
            | inr fine ↦ rw fine (
                run-long_loop fuel (m (after b)) (wrap (count + m b))
                  (wrap (wrap (sum + m (parity_at b)) + funds m (accounts_at b) 0 (m b))) bs linked
                  (omega arith) (omega arith) (omega arith)
                ∙ ap (λ v. some (ok v, m))
                    (verdict-eq_of_wrap init_balance nb (any_debt m bs) _ _ _ _ (omega arith)
                      (omega arith)))
          ]))

  -- A long transaction on a list of segments, with more fuel than there are segments: it returns, and
  -- changes nothing. If an account is negative, it answers false and leaves its argument alone. Else
  -- its argument is the number of accounts, and it answers whether the money of all segments, parities
  -- included, is the initial balance as often as there are accounts, modulo 2^64.
  pub run-long_tx :
      (fuel : ℕ) (bs : List ℕ)
      → Linked m start bs
      → length bs < fuel
      → run (long_tx nbaccounts init_balance start fuel nb) answers m
        ≡ some (ok (verdict init_balance nb (any_debt m bs) (money m bs) (number m bs)), m)
  unfolding long_tx
  run-long_tx fuel bs linked f =
      run-long_loop fuel start 0 0 bs linked f (omega arith) (omega arith)
      ∙ ap (λ v. some (ok v, m))
          (verdict-eq_of_wrap init_balance nb (any_debt m bs) _ _ _ _ (omega arith) (omega arith))
