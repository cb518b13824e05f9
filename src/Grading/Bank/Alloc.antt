-- ===== src/Grading/Bank/Alloc.antt =====
-- What an allocation transaction of the bank (grading/workload.hpp) does.
use software_transactional_m.Prelude.{
  All-of_append, ℕ, zero, suc, ◌+◌, ◌^◌, ◌<◌, ◌≡◌, ◌≢◌, refl, ap, ◌∙◌, List, [], ◌∷◌, ◌++◌, All,
  update, arith, length, ltb, ◌&&◌, ==_false, if◌then◌else◌, Option,
}
use software_transactional_m.Grading.Transaction.{Tx}
use software_transactional_m.Grading.Shared.{cell, after}
use software_transactional_m.Grading.Store.{Store, run}
use software_transactional_m.Grading.Bank.{wrap, remove_account, add_account, alloc_loop}
use software_transactional_m.Grading.Bank.Money.{Linked, parity_at, accounts_at, number}
use software_transactional_m.Grading.Bank.Frame.{Disjoint, Inside, IsBank, Agree}
use software_transactional_m.Grading.Bank.Splice.{AllApart}
use software_transactional_m.Grading.Bank.Ends.{
  Outside-before, Agree-refl, Agree-write, Agree-cleared, first_apart, both_apart, none_apart,
  tail-IsBank, apart_before, splice-Gains, splice-Loses,
}
use software_transactional_m.Grading.Bank.Last.{segment_at, shrunk, dropped, grown, extended}
use software_transactional_m.Grading.Bank.Tail.{Gains, Loses, grown-Gains, shrunk-Loses}
use software_transactional_m.Grading.Bank.Resize.{dropped-Loses, extended-Gains}

-- The last of the segments, or `prev` if there is none.
abbrev pub last_or : ℕ → List ℕ → ℕ
last_or prev [] = prev
last_or prev (b ∷ bs) = last_or b bs

first_ne : (m : Store) (a : ℕ) (pre : List ℕ) (l : ℕ) → Linked m a (pre ++ (l ∷ [])) → a ≢ 0
first_ne m a [] l (e, ne, _) = rw e ne
first_ne m a (b ∷ pre) l (e, ne, _) = rw e ne

module _ (nbaccounts init_balance start trigger : ℕ) (m : Store) (answers : List (Option ℕ)) where
  -- What the loop does at the last segment.
  abbrev pub finish : (count prev l : ℕ) → Tx (Unit {0})
  finish count prev l =
      if ltb trigger count && ltb 2 count
      then remove_account nbaccounts init_balance start prev (segment_at l) (m l)
      else add_account nbaccounts init_balance start (segment_at l) (m l)

  pub run-alloc_loop :
      (fuel count prev a : ℕ) (pre : List ℕ) (l : ℕ)
      → Linked m a (pre ++ (l ∷ []))
      → length pre < fuel
      → run (alloc_loop nbaccounts init_balance start fuel trigger count prev a) answers m
        ≡ run (finish (wrap (count + number m (pre ++ (l ∷ [])))) (last_or prev pre) l) answers m
  unfolding run alloc_loop
  run-alloc_loop zero count prev a pre l linked f = absurd (omega arith)
  run-alloc_loop (suc fuel) count prev a [] l (e, _, end) f =
      let last : m (after a) ≡ 0 = rw e end in
      let total : m l ≡ m l + 0 = omega arith in rw (← total) (rw (← e) (rw (last, run) refl))
  run-alloc_loop (suc fuel) count prev a (b ∷ pre) l (e, _, linked) f =
      let linked' : Linked m (m (after a)) (pre ++ (l ∷ [])) = rw e linked in
      let total : wrap (wrap (count + m a) + number m (pre ++ (l ∷ [])))
          ≡ wrap (count + (m a + number m (pre ++ (l ∷ [])))) =
        omega arith in
      rw (← e) (
        rw (==_false (m (after a)) 0 (first_ne m (m (after a)) pre l linked'), run)
          (run-alloc_loop fuel (wrap (count + m a)) a (m (after a)) pre l linked' (omega arith)
            ∙ ap (λ n. run (finish n (last_or a pre) l) answers m) total))

-- The four ways in which the bank changes, from the change of its last segments.
module _ (nbaccounts init_balance : ℕ) (few : nbaccounts < 2 ^ 61) (m : Store) (start : ℕ)
    (pre : List ℕ) where
  module _ (l : ℕ) (bank : IsBank nbaccounts m start (pre ++ (l ∷ [])))
      (staffed : All (λ b. 0 < m b) (pre ++ (l ∷ []))) where
    abbrev apart : AllApart nbaccounts pre (l ∷ [])
    apart = apart_before nbaccounts m start pre l [] bank

    abbrev last : IsBank nbaccounts m l (l ∷ [])
    last = tail-IsBank nbaccounts m start pre l [] bank

    keep :
        (x v : ℕ) (m₀ : Store)
        → Inside nbaccounts x l
        → All (Agree nbaccounts m m₀) pre
        → All (Agree nbaccounts m (update m₀ x v)) pre
    keep x v m₀ i h =
        Agree-write nbaccounts m m₀ x v pre
          (Outside-before nbaccounts l x i pre (first_apart nbaccounts pre l [] apart)) h

    pub grow :
        m l < nbaccounts
        → Gains init_balance nbaccounts m
            (grown init_balance m l)
            start
            (pre ++ (l ∷ []))
            (pre ++ (l ∷ []))
    grow room =
        splice-Gains nbaccounts m start pre l [] bank init_balance staffed (grown init_balance m l)
          []
          (keep l _ _ (omega arith, omega arith)
            (keep (cell (accounts_at l) (m l)) _ m (omega arith, omega arith)
              (Agree-refl nbaccounts m pre)))
          apart (grown-Gains init_balance nbaccounts few m l last room)

    pub shrink :
        1 < m l
        → init_balance < 2 ^ 64
        → Loses init_balance nbaccounts m
            (shrunk init_balance m l)
            start
            (pre ++ (l ∷ []))
            (pre ++ (l ∷ []))
    shrink more affordable =
        splice-Loses nbaccounts m start pre l [] bank init_balance staffed (shrunk init_balance m l)
          []
          (keep (parity_at l) _ _ (omega arith, omega arith)
            (keep l _ m (omega arith, omega arith) (Agree-refl nbaccounts m pre)))
          apart (shrunk-Loses init_balance nbaccounts few m l last more affordable)

    pub extend :
        (x : ℕ)
        → 0 < nbaccounts
        → x ≢ 0
        → All (λ b. Disjoint nbaccounts b x) (pre ++ (l ∷ []))
        → Gains init_balance nbaccounts m
            (extended init_balance m nbaccounts l x)
            start
            (pre ++ (l ∷ []))
            (pre ++ (l ∷ x ∷ []))
    extend x some_room ne free =
        let parts = All-of_append (λ b. Disjoint nbaccounts b x) pre (l ∷ []) free in
        let inside =
          λ (y : ℕ) (i : Inside nbaccounts y x). Outside-before nbaccounts x y i pre parts.0 in
        splice-Gains nbaccounts m start pre l [] bank init_balance staffed
          (extended init_balance m nbaccounts l x) (x ∷ [])
          (Agree-write nbaccounts m _ (cell (accounts_at x) 0) init_balance pre
            (inside (cell (accounts_at x) 0) (omega arith, omega arith))
            (Agree-write nbaccounts m _ x 1 pre (inside x (omega arith, omega arith)) (
              keep (after l) x _ (omega arith, omega arith)
                (Agree-cleared nbaccounts m x pre parts.0))))
          (both_apart nbaccounts pre l (x ∷ []) (first_apart nbaccounts pre l [] apart)
            (both_apart nbaccounts pre x [] parts.0 (none_apart nbaccounts pre)))
          (extended-Gains init_balance nbaccounts few m l x last
            (All-of_append (λ b. 0 < m b) pre (l ∷ []) staffed).1.0 some_room ne parts.1.0)

  module _ (p l : ℕ) (bank : IsBank nbaccounts m start (pre ++ (p ∷ l ∷ [])))
      (staffed : All (λ b. 0 < m b) (pre ++ (p ∷ l ∷ []))) where
    pub drop :
        m l ≡ 1
        → init_balance < 2 ^ 64
        → Loses init_balance nbaccounts m
            (dropped init_balance m p l)
            start
            (pre ++ (p ∷ l ∷ []))
            (pre ++ (p ∷ []))
    drop one affordable =
        let apart = apart_before nbaccounts m start pre p (l ∷ []) bank in
        let before = first_apart nbaccounts pre p (l ∷ []) apart in
        splice-Loses nbaccounts m start pre p (l ∷ []) bank init_balance staffed
          (dropped init_balance m p l) []
          (Agree-write nbaccounts m _ (parity_at p) _ pre
            (Outside-before nbaccounts p (parity_at p) (omega arith, omega arith) pre before)
            (Agree-write nbaccounts m m (after p) 0 pre
              (Outside-before nbaccounts p (after p) (omega arith, omega arith) pre before)
              (Agree-refl nbaccounts m pre)))
          (both_apart nbaccounts pre p [] before (none_apart nbaccounts pre))
          (dropped-Loses init_balance nbaccounts few m p l
            (tail-IsBank nbaccounts m start pre p (l ∷ []) bank)
            (All-of_append (λ b. 0 < m b) pre (p ∷ l ∷ []) staffed).1.0 one affordable)
