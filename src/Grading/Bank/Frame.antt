-- ===== src/Grading/Bank/Frame.antt =====
-- The segments of a bank (grading/workload.hpp) in memory, and what a write leaves as it was.
use software_transactional_m.Prelude.{
  ℕ, zero, suc, ◌+◌, ◌<◌, ◌≤◌, ◌≡◌, refl, List, [], ◌∷◌, inl, inr, ◌⊎◌, All, update, update_ne,
  arith,
}
use software_transactional_m.Grading.Shared.{cell, after}
use software_transactional_m.Grading.Store.{Store}
use software_transactional_m.Grading.Bank.{size}
use software_transactional_m.Grading.Bank.Money.{
  funds, Linked, parity_at, accounts_at, money, number,
}

module _ (nbaccounts : ℕ) where
  -- Two blocks of the size of a segment do not overlap; an address lies outside a block.
  abbrev pub Disjoint : ℕ → ℕ → Type 0
  Disjoint a b = (a + size nbaccounts ≤ b) ⊎ (b + size nbaccounts ≤ a)

  abbrev pub Outside : ℕ → ℕ → Type 0
  Outside x b = (x < b) ⊎ (b + size nbaccounts ≤ x)

  abbrev pub Inside : ℕ → ℕ → Type 0
  Inside x b = (b ≤ x) × (x < b + size nbaccounts)

  abbrev pub Apart : List ℕ → Type 0
  Apart [] = Unit
  Apart (b ∷ bs) = All (Disjoint b) bs × Apart bs

  -- A bank in memory: a list of segments that do not overlap and hold no more accounts than fit.
  pub record IsBank (m : Store) (start : ℕ) (bs : List ℕ) : Type 0 where
    pub linked : Linked m start bs
    pub within : All (λ b. m b ≤ nbaccounts) bs
    pub apart : Apart bs

  -- A memory that is the same in a block.
  abbrev pub Agree : Store → Store → ℕ → Type 0
  Agree m m' b = (j : ℕ) → b ≤ j → j < b + size nbaccounts → m' j ≡ m j

  pub Outside-of_Disjoint :
      (b x : ℕ) → Inside x b → (cs : List ℕ) → All (Disjoint b) cs → All (Outside x) cs
  Outside-of_Disjoint b x i [] h = tt
  Outside-of_Disjoint b x i (c ∷ cs) (inl h, hs) =
      (inl (omega arith), Outside-of_Disjoint b x i cs hs)
  Outside-of_Disjoint b x i (c ∷ cs) (inr h, hs) =
      (inr (omega arith), Outside-of_Disjoint b x i cs hs)

  pub Agree-update :
      (m : Store) (x v : ℕ) (cs : List ℕ) → All (Outside x) cs → All (Agree m (update m x v)) cs
  Agree-update m x v [] h = tt
  Agree-update m x v (c ∷ cs) (o, h) = (
    (λ j lo hi. elim o [
      | inl below ↦ update_ne m x j v (λ e. omega arith)
      | inr above ↦ update_ne m x j v (λ e. omega arith)
    ]),
    Agree-update m x v cs h,
  )

  module _ (m m' : Store) where
    pub funds-Agree :
        (b : ℕ)
        → Agree m m' b
        → (i n : ℕ) → i + n ≤ nbaccounts
        → funds m' (accounts_at b) i n ≡ funds m (accounts_at b) i n
    unfolding funds
    funds-Agree b same i zero h = refl
    funds-Agree b same i (suc n) h = omega (
      arith,
      same (cell (accounts_at b) i) (omega arith) (omega arith),
      funds-Agree b same (i + 1) n (omega arith),
    )

    module _ (b : ℕ) (same : Agree m m' b) where
      pub count-Agree : m' b ≡ m b
      count-Agree = same b (omega arith) (omega arith)

      pub next-Agree : m' (after b) ≡ m (after b)
      next-Agree = same (after b) (omega arith) (omega arith)

      pub parity-Agree : m' (parity_at b) ≡ m (parity_at b)
      parity-Agree = same (parity_at b) (omega arith) (omega arith)

    pub Linked-Agree : (a : ℕ) (bs : List ℕ) → All (Agree m m') bs → Linked m a bs → Linked m' a bs
    Linked-Agree a [] h l = l
    Linked-Agree a (b ∷ bs) (same, h) (e, ne, l) =
        (e, ne, rw (next-Agree b same) (Linked-Agree (m (after b)) bs h l))

    pub within-Agree :
        (bs : List ℕ)
        → All (Agree m m') bs
        → All (λ b. m b ≤ nbaccounts) bs
        → All (λ b. m' b ≤ nbaccounts) bs
    within-Agree [] h w = tt
    within-Agree (b ∷ bs) (same, h) (w, ws) = (rw (count-Agree b same) w, within-Agree bs h ws)

    pub staffed-Agree :
        (bs : List ℕ) → All (Agree m m') bs → All (λ b. 0 < m b) bs → All (λ b. 0 < m' b) bs
    staffed-Agree [] h w = tt
    staffed-Agree (b ∷ bs) (same, h) (w, ws) = (rw (count-Agree b same) w, staffed-Agree bs h ws)

    pub number-Agree : (bs : List ℕ) → All (Agree m m') bs → number m' bs ≡ number m bs
    number-Agree [] h = refl
    number-Agree (b ∷ bs) (same, h) = omega (arith, count-Agree b same, number-Agree bs h)

    pub money-Agree :
        (bs : List ℕ)
        → All (Agree m m') bs
        → All (λ b. m b ≤ nbaccounts) bs
        → money m' bs ≡ money m bs
    money-Agree [] h w = refl
    money-Agree (b ∷ bs) (same, h) (w, ws) = rw (count-Agree b same) (
        omega (
          arith,
          parity-Agree b same,
          funds-Agree b same 0 (m b) (omega arith),
          money-Agree bs h ws,
        ))
