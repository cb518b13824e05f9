-- ===== src/Grading/Bank/Changes.antt =====
-- Allocation transactions of the bank (grading/workload.hpp) keep the bank, and its balance.
use software_transactional_m.Prelude.{
  All-of_append, ℕ, ◌+◌, ◌^◌, ◌<◌, ◌≤◌, ◌≡◌, ◌≢◌, refl, ap, ◌∙◌, List, [], ◌∷◌, ◌++◌, inl, inr, All,
  arith, subst, length, length-append, Bool, true, false, ltb, ltb→lt, ◌&&◌, Option, some,
  Bool-cases,
}
use software_transactional_m.Grading.Transaction.{ok}
use software_transactional_m.Grading.Store.{Store, run}
use software_transactional_m.Grading.Bank.{wrap, alloc_tx}
use software_transactional_m.Grading.Bank.Money.{number}
use software_transactional_m.Grading.Bank.Frame.{Disjoint, IsBank}
use software_transactional_m.Grading.Bank.Last.{
  left_in, shrunk, dropped, grown, extended, run-remove_account, run-add_account,
}
use software_transactional_m.Grading.Bank.Tail.{Gains, Loses}
use software_transactional_m.Grading.Bank.Alloc.{
  last_or, finish, run-alloc_loop, grow, shrink, extend, drop,
}

-- A list that is not empty, by its last elements.
data Ends : List ℕ → Type 0 where
  one : (l : ℕ) → Ends (l ∷ [])
  two : (pre : List ℕ) (p l : ℕ) → Ends (pre ++ (p ∷ l ∷ []))

Ends-cons : (b : ℕ) {bs : List ℕ} → Ends bs → Ends (b ∷ bs)
Ends-cons b (one l) = two [] b l
Ends-cons b (two pre p l) = two (b ∷ pre) p l

ends : (b : ℕ) (bs : List ℕ) → Ends (b ∷ bs)
ends b [] = one b
ends b (c ∷ cs) = Ends-cons b (ends c cs)

last_or-append : (prev : ℕ) (pre : List ℕ) (p : ℕ) → last_or prev (pre ++ (p ∷ [])) ≡ p
last_or-append prev [] p = refl
last_or-append prev (b ∷ pre) p = last_or-append b pre p

append_two : (pre : List ℕ) (p l : ℕ) → (pre ++ (p ∷ [])) ++ (l ∷ []) ≡ pre ++ (p ∷ l ∷ [])
append_two [] p l = refl
append_two (b ∷ pre) p l = ap (λ bs. b ∷ bs) (append_two pre p l)

ltb-false-le : (a b : ℕ) → ltb a b ≡ false → b ≤ a
ltb-false-le a b h = ground arith

module _ (nbaccounts init_balance start trigger fuel : ℕ) (m : Store) (x : ℕ)
    (answers : List (Option ℕ)) where
  -- An account less where there are more than `trigger` and more than two, else an account more.
  abbrev pub Change : (remove : Bool) (bs : List ℕ) → Store → List ℕ → Type 0
  Change true bs m' bs' = Loses init_balance nbaccounts m m' start bs bs'
  Change false bs m' bs' = Gains init_balance nbaccounts m m' start bs bs'

  abbrev pub removes : List ℕ → Bool
  removes bs = ltb trigger (number m bs) && ltb 2 (number m bs)

  abbrev pub Changed : List ℕ → Type 0
  Changed bs =
      (bs' : List ℕ) × (m' : Store) × (run (alloc_tx nbaccounts init_balance start fuel trigger)
          (some x ∷ answers) m
        ≡ some (ok tt, m'))
      × Change (removes bs) bs m' bs'

  module _ (few : nbaccounts < 2 ^ 61) (affordable : init_balance < 2 ^ 64)
      (some_room : 0 < nbaccounts) (ne : x ≢ 0) where
    module _ (pre : List ℕ) (l : ℕ) (bank : IsBank nbaccounts m start (pre ++ (l ∷ [])))
        (staffed : All (λ b. 0 < m b) (pre ++ (l ∷ [])))
        (small : number m (pre ++ (l ∷ [])) < 2 ^ 64) (enough : length pre < fuel)
        (free : All (λ b. Disjoint nbaccounts b x) (pre ++ (l ∷ []))) where
      abbrev bs : List ℕ
      bs = pre ++ (l ∷ [])

      bounds : (0 < m l) × (m l ≤ nbaccounts)
      bounds = (
        (All-of_append (λ b. 0 < m b) pre (l ∷ []) staffed).1.0,
        (All-of_append (λ b. m b ≤ nbaccounts) pre (l ∷ []) bank.within).1.0,
      )

      more_left : ltb 0 (left_in init_balance m l) ≡ true → 1 < m l
      more_left h = omega (arith, ltb→lt 0 (left_in init_balance m l) h, bounds.0, bounds.1)

      one_left : ltb 0 (left_in init_balance m l) ≡ false → m l ≡ 1
      one_left h = omega (arith, ltb-false-le 0 (left_in init_balance m l) h, bounds.0, bounds.1)

      reaches :
          run (alloc_tx nbaccounts init_balance start fuel trigger) (some x ∷ answers) m
          ≡ run
              (finish nbaccounts init_balance start trigger m
                (some x ∷ answers)
                (number m bs)
                (last_or 0 pre)
                l)
              (some x ∷ answers)
              m
      unfolding alloc_tx
      reaches =
          let total : wrap (0 + number m bs) ≡ number m bs = omega arith in
          run-alloc_loop nbaccounts init_balance start trigger m (some x ∷ answers) fuel 0 0 start
            pre l bank.linked enough
          ∙ ap
              (λ n.
                run
                  (finish nbaccounts init_balance start trigger m (some x ∷ answers) n
                    (last_or 0 pre) l)
                  (some x ∷ answers) m)
              total

      changed :
          (m l ≡ 1
            → removes bs ≡ true
            → (bs' : List ℕ) × Loses init_balance nbaccounts m
                (dropped init_balance m (last_or 0 pre) l)
                start
                bs
                bs')
          → Changed bs
      changed drops = elim (Bool-cases (removes bs)) [
        | inl less ↦ elim (Bool-cases (ltb 0 (left_in init_balance m l))) [
          | inl some_left ↦ (
            bs,
            shrunk init_balance m l,
            reaches
                ∙ rw less (
                    run-remove_account init_balance m nbaccounts start (some x ∷ answers)
                      (last_or 0 pre) l
                    ∙ rw some_left refl),
            rw less (
                shrink nbaccounts init_balance few m start pre l bank staffed (more_left some_left)
                  affordable),
          )
          | inr none_left ↦
              let dropped_to = drops (one_left none_left) less in
              (
                dropped_to.0,
                dropped init_balance m (last_or 0 pre) l,
                reaches
                    ∙ rw less (
                        run-remove_account init_balance m nbaccounts start (some x ∷ answers)
                          (last_or 0 pre) l
                        ∙ rw none_left refl),
                rw less dropped_to.1,
              )
        ]
        | inr more ↦ elim (Bool-cases (ltb (m l) nbaccounts)) [
          | inl room ↦ (
            bs,
            grown init_balance m l,
            reaches
                ∙ rw more
                    (run-add_account init_balance m nbaccounts start answers x l ∙ rw room refl),
            rw more (
                grow nbaccounts init_balance few m start pre l bank staffed
                  (ltb→lt (m l) nbaccounts room)),
          )
          | inr full ↦ (
            pre ++ (l ∷ x ∷ []),
            extended init_balance m nbaccounts l x,
            reaches
                ∙ rw more
                    (run-add_account init_balance m nbaccounts start answers x l ∙ rw full refl),
            rw more
                (extend nbaccounts init_balance few m start pre l bank staffed x some_room ne free),
          )
        ]
      ]

    -- Of one segment with one account, nothing is removed.
    one_stays : (l : ℕ) → m l ≡ 1 → removes (l ∷ []) ≡ true → ⊥
    one_stays l e h = ground arith

    Changed-ends :
        (bs : List ℕ)
        → Ends bs
        → IsBank nbaccounts m start bs
        → All (λ b. 0 < m b) bs
        → number m bs < 2 ^ 64
        → length bs ≤ fuel
        → All (λ b. Disjoint nbaccounts b x) bs
        → Changed bs
    Changed-ends bs (one l) bank staffed small enough free =
        changed [] l bank staffed small (omega arith) free (λ e h. absurd (one_stays l e h))
    Changed-ends bs (two pre p l) bank staffed small enough free =
        let e = append_two pre p l in
        subst Changed e (
          changed (pre ++ (p ∷ [])) l (rw e bank) (rw e staffed) (rw e small)
            (omega (arith, length-append {0} (pre ++ (p ∷ [])) (l ∷ []), ap length e)) (rw e free)
            (λ single h. (
              pre ++ (p ∷ []),
              rw (e, last_or-append 0 pre p)
                  (drop nbaccounts init_balance few m start pre p l bank staffed single affordable),
            )))

    -- An allocation transaction on a bank whose segments all have an account, with fuel for each
    -- segment and an address for a new segment that overlaps with none, returns, and leaves such a bank.
    -- Where the bank has more accounts than `trigger` and than two, it has one account less, and the
    -- initial balance less money; else it has one account more, and the initial balance more money,
    -- parities included and modulo 2^64.
    pub alloc_tx-Changed :
        (bs : List ℕ)
        → start ≢ 0
        → IsBank nbaccounts m start bs
        → All (λ b. 0 < m b) bs
        → number m bs < 2 ^ 64
        → length bs ≤ fuel
        → All (λ b. Disjoint nbaccounts b x) bs
        → Changed bs
    alloc_tx-Changed [] h bank staffed small enough free = absurd (h bank.linked)
    alloc_tx-Changed (b ∷ bs) h bank staffed small enough free =
        Changed-ends (b ∷ bs) (ends b bs) bank staffed small enough free
