-- ===== src/Grading/Bank/Ends.antt =====
-- From the last segments of a bank (grading/workload.hpp) to the whole bank.
use software_transactional_m.Prelude.{
  All-append, All-of_append, ℕ, ◌<◌, ◌≤◌, refl, ◌∙◌, List, [], ◌∷◌, ◌++◌, inl, inr, All, update,
  update_ne, arith,
}
use software_transactional_m.Grading.Store.{Store, cleared}
use software_transactional_m.Grading.Bank.{size}
use software_transactional_m.Grading.Bank.Frame.{
  Disjoint, Inside, Outside, IsBank, Agree, staffed-Agree,
}
use software_transactional_m.Grading.Bank.Splice.{
  Leads-of_append, AllApart, Apart-of_append, splice-IsBank, splice-number, splice-money,
}
use software_transactional_m.Grading.Bank.Tail.{Gains, Loses}
use software_transactional_m.Grading.Bank.Resize.{cleared_out}

module _ (nbaccounts : ℕ) where
  pub Outside-before :
      (c x : ℕ)
      → Inside nbaccounts x c
      → (pre : List ℕ) → All (λ b. Disjoint nbaccounts b c) pre
      → All (Outside nbaccounts x) pre
  Outside-before c x i [] h = tt
  Outside-before c x i (b ∷ pre) (inl h, hs) = (inr (omega arith), Outside-before c x i pre hs)
  Outside-before c x i (b ∷ pre) (inr h, hs) = (inl (omega arith), Outside-before c x i pre hs)

  pub Agree-refl : (m : Store) (pre : List ℕ) → All (Agree nbaccounts m m) pre
  Agree-refl m [] = tt
  Agree-refl m (b ∷ pre) = ((λ j lo hi. refl), Agree-refl m pre)

  pub Agree-write :
      (m m₀ : Store) (x v : ℕ) (pre : List ℕ)
      → All (Outside nbaccounts x) pre
      → All (Agree nbaccounts m m₀) pre
      → All (Agree nbaccounts m (update m₀ x v)) pre
  Agree-write m m₀ x v [] h k = tt
  Agree-write m m₀ x v (b ∷ pre) (o, h) (k, ks) = (
    (λ j lo hi. elim o [
      | inl below ↦ update_ne m₀ x j v (λ e. omega arith) ∙ k j lo hi
      | inr above ↦ update_ne m₀ x j v (λ e. omega arith) ∙ k j lo hi
    ]),
    Agree-write m m₀ x v pre h ks,
  )

  pub Agree-cleared :
      (m : Store) (x : ℕ) (pre : List ℕ)
      → All (λ b. Disjoint nbaccounts b x) pre
      → All (Agree nbaccounts m (cleared m x (size nbaccounts))) pre
  Agree-cleared m x [] h = tt
  Agree-cleared m x (b ∷ pre) (d, h) = (
    (λ j lo hi. elim d [
      | inl below ↦ cleared_out m x (size nbaccounts) j (inl (omega arith))
      | inr above ↦ cleared_out m x (size nbaccounts) j (inr (omega arith))
    ]),
    Agree-cleared m x pre h,
  )

  pub first_apart :
      (pre : List ℕ) (c : ℕ) (cs : List ℕ)
      → AllApart nbaccounts pre (c ∷ cs)
      → All (λ b. Disjoint nbaccounts b c) pre
  first_apart [] c cs h = tt
  first_apart (b ∷ pre) c cs ((d, _), h) = (d, first_apart pre c cs h)

  pub rest_apart :
      (pre : List ℕ) (c : ℕ) (cs : List ℕ)
      → AllApart nbaccounts pre (c ∷ cs)
      → AllApart nbaccounts pre cs
  rest_apart [] c cs h = tt
  rest_apart (b ∷ pre) c cs ((_, d), h) = (d, rest_apart pre c cs h)

  pub both_apart :
      (pre : List ℕ) (c : ℕ) (cs : List ℕ)
      → All (λ b. Disjoint nbaccounts b c) pre
      → AllApart nbaccounts pre cs
      → AllApart nbaccounts pre (c ∷ cs)
  both_apart [] c cs h k = tt
  both_apart (b ∷ pre) c cs (h, hs) (k, ks) = ((h, k), both_apart pre c cs hs ks)

  pub none_apart : (pre : List ℕ) → AllApart nbaccounts pre []
  none_apart [] = tt
  none_apart (b ∷ pre) = (tt, none_apart pre)

  module _ (m : Store) (start : ℕ) (pre : List ℕ) (c : ℕ) (cs : List ℕ)
      (bank : IsBank nbaccounts m start (pre ++ (c ∷ cs))) where
    pub tail-IsBank : IsBank nbaccounts m c (c ∷ cs)
    tail-IsBank = record {
      linked = (Leads-of_append m start pre c cs bank.linked).1;
      within = (All-of_append (λ b. m b ≤ nbaccounts) pre (c ∷ cs) bank.within).1;
      apart = (Apart-of_append nbaccounts pre (c ∷ cs) bank.apart).2;
    }

    pub apart_before : AllApart nbaccounts pre (c ∷ cs)
    apart_before = (Apart-of_append nbaccounts pre (c ∷ cs) bank.apart).1

    module _ (init_balance : ℕ) (staffed : All (λ b. 0 < m b) (pre ++ (c ∷ cs))) (m' : Store)
        (cs' : List ℕ) (same : All (Agree nbaccounts m m') pre)
        (apart : AllApart nbaccounts pre (c ∷ cs')) where
      staffed_before : All (λ b. 0 < m' b) pre
      staffed_before =
          staffed-Agree nbaccounts m m' pre same
            (All-of_append (λ b. 0 < m b) pre (c ∷ cs) staffed).0

      pub splice-Gains :
          Gains init_balance nbaccounts m m' c (c ∷ cs) (c ∷ cs')
          → Gains init_balance nbaccounts m m' start (pre ++ (c ∷ cs)) (pre ++ (c ∷ cs'))
      splice-Gains g = record {
        bank = splice-IsBank nbaccounts m m' start pre c cs cs' bank same g.bank apart;
        staffed = All-append (λ b. 0 < m' b) pre (c ∷ cs') staffed_before g.staffed;
        number_grows =
            omega
              (arith, splice-number nbaccounts m m' start pre c cs cs' bank same, g.number_grows);
        money_grows =
            omega (arith, splice-money nbaccounts m m' start pre c cs cs' bank same, g.money_grows);
      }

      pub splice-Loses :
          Loses init_balance nbaccounts m m' c (c ∷ cs) (c ∷ cs')
          → Loses init_balance nbaccounts m m' start (pre ++ (c ∷ cs)) (pre ++ (c ∷ cs'))
      splice-Loses g = record {
        bank = splice-IsBank nbaccounts m m' start pre c cs cs' bank same g.bank apart;
        staffed = All-append (λ b. 0 < m' b) pre (c ∷ cs') staffed_before g.staffed;
        number_shrinks =
            omega
              (arith, splice-number nbaccounts m m' start pre c cs cs' bank same, g.number_shrinks);
        money_shrinks =
            omega
              (arith, splice-money nbaccounts m m' start pre c cs cs' bank same, g.money_shrinks);
      }
