-- ===== src/Grading/Bank/Serial.antt =====
-- The bank (grading/workload.hpp) under any sequence of its transactions.
use software_transactional_m.Prelude.{
  ℕ, ◌+◌, ◌*◌, ◌^◌, ◌<◌, ◌≤◌, ◌≡◌, ◌≢◌, refl, sym, ap, ◌∙◌, List, [], ◌∷◌, All, arith, length, Bool,
  true, false, not, ==_refl, if◌then◌else◌, Option, some,
}
use software_transactional_m.Grading.Transaction.{ok}
use software_transactional_m.Grading.Shared.{after}
use software_transactional_m.Grading.Store.{Store, run}
use software_transactional_m.Grading.Bank.{wrap, long_tx, short_tx, alloc_tx, init_tx}
use software_transactional_m.Grading.Bank.Money.{
  Linked, parity_at, money, number, any_debt, verdict, run-long_tx,
}
use software_transactional_m.Grading.Bank.Frame.{Disjoint, IsBank}
use software_transactional_m.Grading.Bank.Balance.{short_tx-IsKept}
use software_transactional_m.Grading.Bank.Tail.{Gains, Loses}
use software_transactional_m.Grading.Bank.Changes.{Change, removes, alloc_tx-Changed}
use software_transactional_m.Grading.Bank.Init.{init_tx-IsInitial}

Linked-unique : (m : Store) (a : ℕ) (bs cs : List ℕ) → Linked m a bs → Linked m a cs → bs ≡ cs
Linked-unique m a [] [] h k = refl
Linked-unique m a [] (c ∷ cs) h (e, ne, k) = absurd (ne (sym e ∙ h))
Linked-unique m a (b ∷ bs) [] (e, ne, h) k = absurd (ne (sym e ∙ k))
Linked-unique m a (b ∷ bs) (c ∷ cs) (e, ne, h) (f, nf, k) =
    let p : b ≡ c = sym e ∙ f in
    let k' : Linked m (m (after b)) cs = rw p k in
    rw (p, Linked-unique m (m (after b)) bs cs h k') refl

module _ (nbaccounts init_balance start : ℕ) where
  -- The memories that the transactions of a bank lead to, one after the other, where the library gives
  -- new segments addresses of their own.
  pub data Reached : Store → Type 0 where
    initialised :
        (m m' : Store)
        → m (after start) ≡ 0
        → m (parity_at start) ≡ 0
        → run (init_tx nbaccounts init_balance start) [] m ≡ some (ok tt, m')
        → Reached m'
    transferred :
        (m m' : Store) (bs : List ℕ) (fuel send_id recv_id : ℕ) (b : Bool)
        → Reached m
        → Linked m start bs
        → length bs ≤ fuel
        → run (short_tx nbaccounts init_balance start fuel send_id recv_id) [] m ≡ some (ok b, m')
        → Reached m'
    allocated :
        (m m' : Store) (bs : List ℕ) (fuel trigger x : ℕ)
        → Reached m
        → Linked m start bs
        → length bs ≤ fuel
        → number m bs < 2 ^ 64
        → x ≢ 0
        → All (λ b. Disjoint nbaccounts b x) bs
        → run (alloc_tx nbaccounts init_balance start fuel trigger) (some x ∷ []) m
          ≡ some (ok tt, m')
        → Reached m'

  -- A bank in which every segment has an account, and as much money as the accounts had at first.
  pub record IsBalanced (m : Store) (bs : List ℕ) : Type 0 where
    pub bank : IsBank nbaccounts m start bs
    pub staffed : All (λ b. 0 < m b) bs
    pub balance : wrap (money m bs) ≡ wrap (init_balance * number m bs)

  mul_add_one : (n : ℕ) → init_balance * (n + 1) ≡ init_balance * n + init_balance
  mul_add_one n = grind arith

  Gains-IsBalanced :
      (m m' : Store) (bs bs' : List ℕ)
      → IsBalanced m bs
      → Gains init_balance nbaccounts m m' start bs bs'
      → IsBalanced m' bs'
  Gains-IsBalanced m m' bs bs' h g = record {
    bank = g.bank;
    staffed = g.staffed;
    balance =
        rw g.number_grows (omega (arith, g.money_grows, h.balance, mul_add_one (number m bs)));
  }

  Loses-IsBalanced :
      (m m' : Store) (bs bs' : List ℕ)
      → IsBalanced m bs
      → Loses init_balance nbaccounts m m' start bs bs'
      → IsBalanced m' bs'
  Loses-IsBalanced m m' bs bs' h g = record {
    bank = g.bank;
    staffed = g.staffed;
    balance =
        let before : wrap (money m bs) ≡ wrap (init_balance * number m' bs' + init_balance) =
          rw (← mul_add_one (number m' bs'), g.number_shrinks) h.balance in
        omega (arith, g.money_shrinks, before);
  }

  module _ (few : nbaccounts < 2 ^ 61) (affordable : init_balance < 2 ^ 64) where
    Change-IsBalanced :
        (trigger fuel : ℕ) (m₀ : Store) (x : ℕ) (remove : Bool) (m' : Store) (bs bs' : List ℕ)
        → IsBalanced m₀ bs
        → Change nbaccounts init_balance start trigger fuel m₀ x [] remove bs m' bs'
        → IsBalanced m' bs'
    Change-IsBalanced trigger fuel m₀ x true m' bs bs' h change =
        Loses-IsBalanced m₀ m' bs bs' h change
    Change-IsBalanced trigger fuel m₀ x false m' bs bs' h change =
        Gains-IsBalanced m₀ m' bs bs' h change

    module _ (some_room : 0 < nbaccounts) (ne : start ≢ 0) where
      Reached-IsBalanced : {m : Store} → Reached m → (bs : List ℕ) × IsBalanced m bs
      Reached-IsBalanced (initialised m m' next parity ran) =
          let (made, ran', initial, _) =
            init_tx-IsInitial nbaccounts init_balance start m [] some_room ne next parity in
          let e : made ≡ m' = cc in
          (
            start ∷ [],
            rw (← e) (record {
              bank = initial.bank;
              staffed = (omega (arith, initial.count), tt);
              balance =
                  let e : nbaccounts ≡ made start + 0 = omega (arith, initial.count) in
                  ap wrap (initial.balance ∙ ap (λ n. init_balance * n) e);
            }),
          )
      Reached-IsBalanced (transferred m m' bs fuel send_id recv_id b before linked f ran) =
          let (cs, h) = Reached-IsBalanced before in
          let same : cs ≡ bs = Linked-unique m start cs bs h.bank.linked linked in
          let (b', m'', ran', kept) =
            short_tx-IsKept nbaccounts start m cs h.bank init_balance [] fuel send_id recv_id ne
              (rw same f) in
          let e : m'' ≡ m' = cc in
          (
            cs,
            rw (← e) (record {
              bank = kept.bank;
              staffed = kept.staffed h.staffed;
              balance =
                  kept.money_same
                  ∙ h.balance
                  ∙ ap (λ n. wrap (init_balance * n)) (sym kept.number_same);
            }),
          )
      Reached-IsBalanced (allocated m m' bs fuel trigger x before linked f small fresh free ran) =
          let (cs, h) = Reached-IsBalanced before in
          let same : cs ≡ bs = Linked-unique m start cs bs h.bank.linked linked in
          let (bs', m'', ran', change) =
            alloc_tx-Changed nbaccounts init_balance start trigger fuel m x [] few affordable
              some_room fresh cs ne h.bank h.staffed (rw same small) (rw same f) (rw same free) in
          let e : m'' ≡ m' = cc in
          (
            bs',
            rw (← e) (
                Change-IsBalanced trigger fuel m x
                  (removes nbaccounts init_balance start trigger fuel m x [] cs) m'' cs bs' h
                  change),
          )

      verdict-of_balance :
          (nb total count : ℕ) (debts : Bool)
          → count < 2 ^ 64
          → wrap total ≡ wrap (init_balance * count)
          → verdict init_balance nb debts total count ≡ (not debts, if debts then nb else count)
      verdict-of_balance nb total count true h e = refl
      verdict-of_balance nb total count false h e =
          let small : wrap count ≡ count = omega arith in
          rw (small, e) (ap (λ b. (b, count)) (==_refl (wrap (init_balance * count))))

      -- After any sequence of transactions of the bank, from its first one on, a long transaction with
      -- more fuel than there are segments returns. It answers true, with the number of accounts, unless
      -- an account is negative: the money never is more or less than the accounts had at first. The
      -- hypotheses are that a segment holds fewer than 2^61 accounts and one at least, and that the bank
      -- has fewer than 2^64.
      pub Reached-long_tx :
          (m : Store) (bs : List ℕ) (fuel nb : ℕ) (answers : List (Option ℕ))
          → Reached m
          → Linked m start bs
          → number m bs < 2 ^ 64
          → length bs < fuel
          → run (long_tx nbaccounts init_balance start fuel nb) answers m
            ≡ some (ok (not (any_debt m bs), if any_debt m bs then nb else number m bs), m)
      Reached-long_tx m bs fuel nb answers reached linked small f =
          let (cs, h) = Reached-IsBalanced reached in
          let same : cs ≡ bs = Linked-unique m start cs bs h.bank.linked linked in
          let balance : wrap (money m bs) ≡ wrap (init_balance * number m bs) =
            rw (← same) h.balance in
          run-long_tx nbaccounts init_balance start m answers nb fuel bs linked f
          ∙ ap (λ v. some (ok v, m))
              (verdict-of_balance nb (money m bs) (number m bs) (any_debt m bs) small balance)
