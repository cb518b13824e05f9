-- ===== src/Grading/Bank/Tail.antt =====
-- The last segments of a bank (grading/workload.hpp) after an account was added or removed.
use software_transactional_m.Prelude.{
  ℕ, zero, suc, ◌+◌, ◌^◌, ◌<◌, ◌≤◌, ◌≡◌, ◌≢◌, refl, sym, ap, ◌∙◌, List, [], ◌∷◌, All, update,
  update_self, update_ne, arith,
}
use software_transactional_m.Grading.Shared.{cell, after}
use software_transactional_m.Grading.Store.{Store}
use software_transactional_m.Grading.Bank.{wrap}
use software_transactional_m.Grading.Bank.Money.{funds, parity_at, accounts_at, money, number}
use software_transactional_m.Grading.Bank.Frame.{IsBank}
use software_transactional_m.Grading.Bank.Last.{left_in, new_parity, shrunk, grown}

pub funds_same :
    (m m' : Store) (accounts i n : ℕ)
    → ((j : ℕ) → i ≤ j → j < i + n → m' (cell accounts j) ≡ m (cell accounts j))
    → funds m' accounts i n ≡ funds m accounts i n
unfolding funds
funds_same m m' accounts i zero h = refl
funds_same m m' accounts i (suc n) h = omega (
  arith,
  h i (omega arith) (omega arith),
  funds_same m m' accounts (i + 1) n (λ j lo hi. h j (omega arith) (omega arith)),
)

pub funds-suc :
    (m : Store) (accounts i n : ℕ)
    → funds m accounts i (suc n) ≡ funds m accounts i n + m (cell accounts (i + n))
unfolding funds
funds-suc m accounts i zero = let e : i ≡ i + 0 = omega arith in rw (← e) (omega arith)
funds-suc m accounts i (suc n) =
    let e : i + 1 + n ≡ i + suc n = omega arith in
    omega (arith, funds-suc m accounts (i + 1) n, ap (λ k. m (cell accounts k)) e)

-- What becomes of the last segments `cs`: how many accounts and how much money there are.
pub record Gains (init_balance nbaccounts : ℕ) (m m' : Store) (c : ℕ) (cs cs' : List ℕ)
    : Type 0 where
  pub bank : IsBank nbaccounts m' c cs'
  pub staffed : All (λ b. 0 < m' b) cs'
  pub number_grows : number m' cs' ≡ number m cs + 1
  pub money_grows : wrap (money m' cs') ≡ wrap (money m cs + init_balance)

pub record Loses (init_balance nbaccounts : ℕ) (m m' : Store) (c : ℕ) (cs cs' : List ℕ)
    : Type 0 where
  pub bank : IsBank nbaccounts m' c cs'
  pub staffed : All (λ b. 0 < m' b) cs'
  pub number_shrinks : number m' cs' + 1 ≡ number m cs
  pub money_shrinks : wrap (money m' cs' + init_balance) ≡ wrap (money m cs)

module _ (init_balance nbaccounts : ℕ) (few : nbaccounts < 2 ^ 61) (m : Store) where
  module _ (l : ℕ) (bank : IsBank nbaccounts m l (l ∷ [])) where
    -- An account more in the last segment.
    module _ (room : m l < nbaccounts) where
      abbrev placed : Store
      placed = update m (cell (accounts_at l) (m l)) init_balance

      grown_else : (x : ℕ) → x ≢ l → x ≢ cell (accounts_at l) (m l) → grown init_balance m l x ≡ m x
      grown_else x p q =
          update_ne placed l x (wrap (m l + 1)) (λ e. p (sym e))
          ∙ update_ne m (cell (accounts_at l) (m l)) x init_balance (λ e. q (sym e))

      grown_count : grown init_balance m l l ≡ suc (m l)
      grown_count = update_self placed l (wrap (m l + 1)) ∙ omega arith

      grown_account : grown init_balance m l (cell (accounts_at l) (m l)) ≡ init_balance
      grown_account =
          update_ne placed l (cell (accounts_at l) (m l)) (wrap (m l + 1)) (λ e. omega arith)
          ∙ update_self m (cell (accounts_at l) (m l)) init_balance

      funds-grown :
          funds (grown init_balance m l) (accounts_at l) 0 (suc (m l))
          ≡ funds m (accounts_at l) 0 (m l) + init_balance
      funds-grown =
          let same = funds_same m (grown init_balance m l) (accounts_at l) 0 (m l) (λ j lo hi.
            grown_else (cell (accounts_at l) j) (λ e. omega arith) (λ e. omega arith)) in
          let e : 0 + m l ≡ m l = omega arith in
          omega (
            arith,
            funds-suc (grown init_balance m l) (accounts_at l) 0 (m l),
            same,
            ap (λ k. grown init_balance m l (cell (accounts_at l) k)) e,
            grown_account,
          )

      pub grown-Gains : Gains init_balance nbaccounts m (grown init_balance m l) l (l ∷ []) (l ∷ [])
      grown-Gains = record {
        bank = record {
          linked = (
            refl,
            bank.linked.1,
            grown_else (after l) (λ e. omega arith) (λ e. omega arith) ∙ bank.linked.2,
          );
          within = (rw grown_count room, tt);
          apart = (tt, tt);
        };
        staffed = (rw grown_count (omega arith), tt);
        number_grows = omega (arith, grown_count);
        money_grows = rw grown_count (
            omega
              (arith, funds-grown, grown_else (parity_at l) (λ e. omega arith) (λ e. omega arith)));
      }

    -- An account less in the last segment.
    module _ (more : 1 < m l) (affordable : init_balance < 2 ^ 64) where
      abbrev counted : Store
      counted = update m l (left_in init_balance m l)

      shrunk_else : (x : ℕ) → x ≢ l → x ≢ parity_at l → shrunk init_balance m l x ≡ m x
      shrunk_else x p q =
          update_ne counted (parity_at l) x (new_parity init_balance m l) (λ e. q (sym e))
          ∙ update_ne m l x (left_in init_balance m l) (λ e. p (sym e))

      shrunk_count : shrunk init_balance m l l ≡ left_in init_balance m l
      shrunk_count =
          update_ne counted (parity_at l) l (new_parity init_balance m l) (λ e. omega arith)
          ∙ update_self m l (left_in init_balance m l)

      shrunk_parity : shrunk init_balance m l (parity_at l) ≡ new_parity init_balance m l
      shrunk_parity = update_self counted (parity_at l) (new_parity init_balance m l)

      left-suc : suc (left_in init_balance m l) ≡ m l
      left-suc = omega (arith, bank.within.0)

      funds-shrunk :
          funds (shrunk init_balance m l) (accounts_at l) 0 (left_in init_balance m l)
            + m (cell (accounts_at l) (left_in init_balance m l))
          ≡ funds m (accounts_at l) 0 (m l)
      funds-shrunk =
          let n = left_in init_balance m l in
          let same = funds_same m (shrunk init_balance m l) (accounts_at l) 0 n (λ j lo hi.
            shrunk_else (cell (accounts_at l) j) (λ e. omega arith) (λ e. omega arith)) in
          let e : 0 + n ≡ n = omega arith in
          omega (
            arith,
            same,
            funds-suc m (accounts_at l) 0 n,
            ap (λ k. m (cell (accounts_at l) k)) e,
            ap (λ k. funds m (accounts_at l) 0 k) left-suc,
          )

      pub shrunk-Loses :
          Loses init_balance nbaccounts m (shrunk init_balance m l) l (l ∷ []) (l ∷ [])
      shrunk-Loses = record {
        bank = record {
          linked = (
            refl,
            bank.linked.1,
            shrunk_else (after l) (λ e. omega arith) (λ e. omega arith) ∙ bank.linked.2,
          );
          within = (omega (arith, shrunk_count, left-suc, bank.within.0), tt);
          apart = (tt, tt);
        };
        staffed = (rw shrunk_count (omega (arith, left-suc)), tt);
        number_shrinks = omega (arith, shrunk_count, left-suc);
        money_shrinks = rw shrunk_count (omega (arith, funds-shrunk, shrunk_parity));
      }
