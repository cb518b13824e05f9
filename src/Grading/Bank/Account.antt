-- ===== src/Grading/Bank/Account.antt =====
-- What the write of one account of a bank (grading/workload.hpp) changes.
use software_transactional_m.Prelude.{
  ℕ, zero, suc, ◌+◌, ◌<◌, ◌≤◌, ◌≡◌, refl, List, [], ◌∷◌, inl, inr, ◌⊎◌, All, update, update_self,
  update_ne, arith,
}
use software_transactional_m.Grading.Shared.{cell, after}
use software_transactional_m.Grading.Store.{Store}
use software_transactional_m.Grading.Bank.Money.{
  funds, Linked, parity_at, accounts_at, money, number,
}
use software_transactional_m.Grading.Bank.Frame.{
  Disjoint, Outside, Inside, Apart, Agree, Outside-of_Disjoint, Agree-update, funds-Agree,
  count-Agree, next-Agree, parity-Agree, Linked-Agree, within-Agree, staffed-Agree, number-Agree,
  money-Agree,
}

-- `p` is the address of an account.
abbrev pub Account : Store → List ℕ → ℕ → Type 0
Account m [] p = ⊥
Account m (b ∷ bs) p = ((j : ℕ) × (j < m b) × (p ≡ cell (accounts_at b) j)) ⊎ Account m bs p

module _ (m : Store) (x v : ℕ) where
  funds-update_above :
      (accounts i n : ℕ)
      → x < cell accounts i
      → funds (update m x v) accounts i n ≡ funds m accounts i n
  unfolding funds
  funds-update_above accounts i zero h = refl
  funds-update_above accounts i (suc n) h = omega (
    arith,
    update_ne m x (cell accounts i) v (λ same_place. omega arith),
    funds-update_above accounts (i + 1) n (omega arith),
  )

  pub funds-update :
      (accounts i n j : ℕ)
      → j < n
      → x ≡ cell accounts (i + j)
      → funds (update m x v) accounts i n + m x ≡ funds m accounts i n + v
  unfolding funds
  funds-update accounts i zero j lt e = absurd (omega arith)
  funds-update accounts i (suc n) zero lt e =
      let here : x ≡ cell accounts i = omega arith in
      rw (← here)
        (omega (arith, update_self m x v, funds-update_above accounts (i + 1) n (omega arith)))
  funds-update accounts i (suc n) (suc j) lt e = omega (
    arith,
    update_ne m x (cell accounts i) v (λ same_place. omega arith),
    funds-update accounts (i + 1) n j (omega arith) (omega arith),
  )

module _ (nbaccounts : ℕ) (m : Store) where
  Inside-Account :
      (b j p : ℕ) → m b ≤ nbaccounts → j < m b → p ≡ cell (accounts_at b) j → Inside nbaccounts p b
  Inside-Account b j p w lt e = (omega arith, omega arith)

  -- An account of other segments lies outside of this one.
  Outside-Account :
      (a p : ℕ) (bs : List ℕ)
      → Account m bs p
      → All (λ b. m b ≤ nbaccounts) bs
      → All (Disjoint nbaccounts a) bs
      → Outside nbaccounts p a
  Outside-Account a p [] acc w h = elim acc [ ]
  Outside-Account a p (b ∷ bs) (inl (j, lt, e)) (w, ws) (inl h, hs) = inr (omega arith)
  Outside-Account a p (b ∷ bs) (inl (j, lt, e)) (w, ws) (inr h, hs) = inl (omega arith)
  Outside-Account a p (b ∷ bs) (inr acc) (w, ws) (h, hs) = Outside-Account a p bs acc ws hs

  -- The memory after the write of `v` to the account at `p`.
  pub record Written (bs : List ℕ) (p v : ℕ) : Type 0 where
    pub linked : (a : ℕ) → Linked m a bs → Linked (update m p v) a bs
    pub within : All (λ b. update m p v b ≤ nbaccounts) bs
    pub staffed : All (λ b. 0 < m b) bs → All (λ b. 0 < update m p v b) bs
    pub number_same : number (update m p v) bs ≡ number m bs
    pub money_moves : money (update m p v) bs + m p ≡ money m bs + v
    pub accounts_stay : (q : ℕ) → Account m bs q → Account (update m p v) bs q

  module _ (p v : ℕ) where
    abbrev m' : Store
    m' = update m p v

    Account-Agree :
        (q : ℕ) (bs : List ℕ) → All (Agree nbaccounts m m') bs → Account m bs q → Account m' bs q
    Account-Agree q [] h acc = elim acc [ ]
    Account-Agree q (b ∷ bs) (same, h) (inl (j, lt, e)) =
        inl (j, rw (count-Agree nbaccounts m m' b same) lt, e)
    Account-Agree q (b ∷ bs) (same, h) (inr acc) = inr (Account-Agree q bs h acc)

    module _ (b : ℕ) (bs : List ℕ) (w : m b ≤ nbaccounts) (ws : All (λ b. m b ≤ nbaccounts) bs)
        (far : All (Disjoint nbaccounts b) bs) where
      Written-here : (j : ℕ) → j < m b → p ≡ cell (accounts_at b) j → Written (b ∷ bs) p v
      Written-here j lt e =
          let outside = Outside-of_Disjoint nbaccounts b p (Inside-Account b j p w lt e) bs far in
          let same = Agree-update nbaccounts m p v bs outside in
          let kept : m' b ≡ m b = update_ne m p b v (λ same_place. omega arith) in
          let next : m' (after b) ≡ m (after b) =
            update_ne m p (after b) v (λ same_place. omega arith) in
          let parity : m' (parity_at b) ≡ m (parity_at b) =
            update_ne m p (parity_at b) v (λ same_place. omega arith) in
          record {
            linked =
                λ a l. (l.0, l.1, rw next (Linked-Agree nbaccounts m m' (m (after b)) bs same l.2));
            within = (rw kept w, within-Agree nbaccounts m m' bs same ws);
            staffed = λ h. (rw kept h.0, staffed-Agree nbaccounts m m' bs same h.1);
            number_same = omega (arith, kept, number-Agree nbaccounts m m' bs same);
            money_moves = rw kept (
                omega (
                  arith,
                  parity,
                  funds-update m p v (accounts_at b) 0 (m b) j lt (omega arith),
                  money-Agree nbaccounts m m' bs same ws,
                ));
            accounts_stay = λ q acc. elim acc [
              | inl (i, less, f) ↦ inl (i, rw kept less, f)
              | inr later ↦ inr (Account-Agree q bs same later)
            ];
          }

      Written-later : Account m bs p → Written bs p v → Written (b ∷ bs) p v
      Written-later acc later =
          let same =
            (Agree-update nbaccounts m p v (b ∷ []) (Outside-Account b p bs acc ws far, tt)).0 in
          let kept : m' b ≡ m b = count-Agree nbaccounts m m' b same in
          record {
            linked = λ a l.
                (l.0, l.1, rw (next-Agree nbaccounts m m' b same) (later.linked (m (after b)) l.2));
            within = (rw kept w, later.within);
            staffed = λ h. (rw kept h.0, later.staffed h.1);
            number_same = omega (arith, kept, later.number_same);
            money_moves = rw kept (
                omega (
                  arith,
                  parity-Agree nbaccounts m m' b same,
                  funds-Agree nbaccounts m m' b same 0 (m b) (omega arith),
                  later.money_moves,
                ));
            accounts_stay = λ q acc. elim acc [
              | inl (i, less, f) ↦ inl (i, rw kept less, f)
              | inr other ↦ inr (later.accounts_stay q other)
            ];
          }

    pub Account-Written :
        (bs : List ℕ)
        → All (λ b. m b ≤ nbaccounts) bs
        → Apart nbaccounts bs
        → Account m bs p
        → Written bs p v
    Account-Written [] w apart acc = elim acc [ ]
    Account-Written (b ∷ bs) (w, ws) (far, apart) (inl (j, lt, e)) =
        Written-here b bs w ws far j lt e
    Account-Written (b ∷ bs) (w, ws) (far, apart) (inr acc) =
        Written-later b bs w ws far acc (Account-Written bs ws apart acc)
