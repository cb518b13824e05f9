-- ===== src/Grading/Bank/Splice.antt =====
-- A bank (grading/workload.hpp) whose last segments change.
use software_transactional_m.Prelude.{
  All-append, All-of_append, ℕ, ◌+◌, ◌≤◌, ◌≡◌, ◌≢◌, refl, List, [], ◌∷◌, ◌++◌, All, arith,
}
use software_transactional_m.Grading.Shared.{after}
use software_transactional_m.Grading.Store.{Store}
use software_transactional_m.Grading.Bank.Money.{Linked, money, number}
use software_transactional_m.Grading.Bank.Frame.{
  Disjoint, Apart, IsBank, Agree, next-Agree, within-Agree, number-Agree, money-Agree,
}

-- The segments `pre` lead from `a` to `c`.
abbrev pub Leads : Store → (a : ℕ) → List ℕ → ℕ → Type 0
Leads m a [] c = a ≡ c
Leads m a (b ∷ bs) c = (a ≡ b) × (b ≢ 0) × Leads m (m (after b)) bs c

pub Linked-append :
    (m : Store) (a : ℕ) (pre cs : List ℕ) (c : ℕ)
    → Leads m a pre c
    → Linked m c cs
    → Linked m a (pre ++ cs)
Linked-append m a [] cs c e l = rw e l
Linked-append m a (b ∷ pre) cs c (e, ne, h) l = (e, ne, Linked-append m (m (after b)) pre cs c h l)

pub Leads-of_append :
    (m : Store) (a : ℕ) (pre : List ℕ) (c : ℕ) (cs : List ℕ)
    → Linked m a (pre ++ (c ∷ cs))
    → Leads m a pre c × Linked m c (c ∷ cs)
Leads-of_append m a [] c cs (e, ne, l) = (e, (refl, ne, l))
Leads-of_append m a (b ∷ pre) c cs (e, ne, l) =
    let r = Leads-of_append m (m (after b)) pre c cs l in ((e, ne, r.0), r.1)

pub number-append :
    (m : Store) (pre cs : List ℕ) → number m (pre ++ cs) ≡ number m pre + number m cs
number-append m [] cs = omega arith
number-append m (b ∷ pre) cs = omega (arith, number-append m pre cs)

pub money-append : (m : Store) (pre cs : List ℕ) → money m (pre ++ cs) ≡ money m pre + money m cs
money-append m [] cs = omega arith
money-append m (b ∷ pre) cs = omega (arith, money-append m pre cs)

module _ (nbaccounts : ℕ) where
  abbrev pub AllApart : List ℕ → List ℕ → Type 0
  AllApart pre cs = All (λ b. All (Disjoint nbaccounts b) cs) pre

  pub Apart-append :
      (pre cs : List ℕ)
      → Apart nbaccounts pre
      → AllApart pre cs
      → Apart nbaccounts cs
      → Apart nbaccounts (pre ++ cs)
  Apart-append [] cs h k l = l
  Apart-append (b ∷ pre) cs (h, hs) (k, ks) l =
      (All-append (Disjoint nbaccounts b) pre cs h k, Apart-append pre cs hs ks l)

  pub Apart-of_append :
      (pre cs : List ℕ)
      → Apart nbaccounts (pre ++ cs)
      → Apart nbaccounts pre × AllApart pre cs × Apart nbaccounts cs
  Apart-of_append [] cs h = (tt, tt, h)
  Apart-of_append (b ∷ pre) cs (h, hs) =
      let r = Apart-of_append pre cs hs in
      let s = All-of_append (Disjoint nbaccounts b) pre cs h in ((s.0, r.0), (s.1, r.1), r.2)

  Leads-Agree :
      (m m' : Store) (a : ℕ) (pre : List ℕ) (c : ℕ)
      → All (Agree nbaccounts m m') pre
      → Leads m a pre c
      → Leads m' a pre c
  Leads-Agree m m' a [] c h l = l
  Leads-Agree m m' a (b ∷ pre) c (same, h) (e, ne, l) =
      (e, ne, rw (next-Agree nbaccounts m m' b same) (Leads-Agree m m' (m (after b)) pre c h l))

  -- The segments from `c` on are replaced by others that start at `c` too, and the segments before stay.
  module _ (m m' : Store) (start : ℕ) (pre : List ℕ) (c : ℕ) (cs cs' : List ℕ)
      (bank : IsBank nbaccounts m start (pre ++ (c ∷ cs)))
      (same : All (Agree nbaccounts m m') pre) where
    before : All (λ b. m b ≤ nbaccounts) pre
    before = (All-of_append (λ b. m b ≤ nbaccounts) pre (c ∷ cs) bank.within).0

    pub splice-IsBank :
        IsBank nbaccounts m' c (c ∷ cs')
        → AllApart pre (c ∷ cs')
        → IsBank nbaccounts m' start (pre ++ (c ∷ cs'))
    splice-IsBank tail apart = record {
      linked =
          Linked-append m' start pre (c ∷ cs') c
            (Leads-Agree m m' start pre c same (Leads-of_append m start pre c cs bank.linked).0)
            tail.linked;
      within =
          All-append (λ b. m' b ≤ nbaccounts) pre (c ∷ cs')
            (within-Agree nbaccounts m m' pre same before) tail.within;
      apart =
          Apart-append pre (c ∷ cs') (Apart-of_append pre (c ∷ cs) bank.apart).0 apart tail.apart;
    }

    pub splice-number :
        number m' (pre ++ (c ∷ cs')) + number m (c ∷ cs)
        ≡ number m (pre ++ (c ∷ cs)) + number m' (c ∷ cs')
    splice-number = omega (
      arith,
      number-append m' pre (c ∷ cs'),
      number-append m pre (c ∷ cs),
      number-Agree nbaccounts m m' pre same,
    )

    pub splice-money :
        money m' (pre ++ (c ∷ cs')) + money m (c ∷ cs)
        ≡ money m (pre ++ (c ∷ cs)) + money m' (c ∷ cs')
    splice-money = omega (
      arith,
      money-append m' pre (c ∷ cs'),
      money-append m pre (c ∷ cs),
      money-Agree nbaccounts m m' pre same before,
    )
