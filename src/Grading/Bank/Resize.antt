-- ===== src/Grading/Bank/Resize.antt =====
-- The last segments of a bank (grading/workload.hpp) after a segment was added or freed.
use software_transactional_m.Prelude.{
  ℕ, ◌+◌, ◌^◌, ◌<◌, ◌≤◌, ◌≡◌, ◌≢◌, refl, sym, ap, ◌∙◌, [], ◌∷◌, inl, inr, ◌⊎◌, update, update_self,
  update_ne, arith,
}
use software_transactional_m.Grading.Shared.{cell, after}
use software_transactional_m.Grading.Store.{Store, cleared}
use software_transactional_m.Grading.Bank.{wrap, size}
use software_transactional_m.Grading.Bank.Money.{funds, parity_at, accounts_at, money}
use software_transactional_m.Grading.Bank.Frame.{Disjoint, Inside, IsBank}
use software_transactional_m.Grading.Bank.Last.{left_in, new_parity, dropped, extended}
use software_transactional_m.Grading.Bank.Tail.{funds_same, Gains, Loses}

cleared_in : (m : Store) (a n x : ℕ) → a ≤ x → x < a + n → cleared m a n x ≡ 0
cleared_in m a n x lo hi = ground arith

pub cleared_out : (m : Store) (a n x : ℕ) → (x < a) ⊎ (a + n ≤ x) → cleared m a n x ≡ m x
cleared_out m a n x (inl h) = ground arith
cleared_out m a n x (inr h) = ground arith

module _ (init_balance nbaccounts : ℕ) (few : nbaccounts < 2 ^ 61) (m : Store) where
  -- The last segment, with one account, is freed.
  module _ (p l : ℕ) (bank : IsBank nbaccounts m p (p ∷ l ∷ [])) (staffed : 0 < m p) (one : m l ≡ 1)
      (affordable : init_balance < 2 ^ 64) where
    abbrev unlinked : Store
    unlinked = update m (after p) 0

    abbrev d : Store
    d = dropped init_balance m p l

    dropped_else : (x : ℕ) → x ≢ after p → x ≢ parity_at p → d x ≡ m x
    dropped_else x h k =
        update_ne unlinked (parity_at p) x _ (λ e. k (sym e))
        ∙ update_ne m (after p) x 0 (λ e. h (sym e))

    dropped_next : d (after p) ≡ 0
    dropped_next =
        update_ne unlinked (parity_at p) (after p) _ (λ e. omega arith) ∙ update_self m (after p) 0

    dropped_parity : d (parity_at p) ≡ wrap (m (parity_at p) + new_parity init_balance m l)
    dropped_parity =
        update_self unlinked (parity_at p) _
        ∙ ap (λ v. wrap (v + new_parity init_balance m l))
            (update_ne m (after p) (parity_at p) 0 (λ e. omega arith))

    -- What the freed segment held.
    money-freed :
        money m (l ∷ []) ≡ m (parity_at l) + m (cell (accounts_at l) (left_in init_balance m l))
    unfolding funds
    money-freed = let e : left_in init_balance m l ≡ 0 = omega arith in rw (e, one) (omega arith)

    funds-dropped : funds d (accounts_at p) 0 (m p) ≡ funds m (accounts_at p) 0 (m p)
    funds-dropped =
        funds_same m d (accounts_at p) 0 (m p)
          (λ j lo hi. dropped_else (cell (accounts_at p) j) (λ e. omega arith) (λ e. omega arith))

    dropped_count : d p ≡ m p
    dropped_count = dropped_else p (λ e. omega arith) (λ e. omega arith)

    pub dropped-Loses : Loses init_balance nbaccounts m d p (p ∷ l ∷ []) (p ∷ [])
    dropped-Loses = record {
      bank = record {
        linked = (refl, bank.linked.1, dropped_next);
        within = (rw dropped_count bank.within.0, tt);
        apart = (tt, tt);
      };
      staffed = (rw dropped_count staffed, tt);
      number_shrinks = omega (arith, dropped_count, one);
      money_shrinks = rw dropped_count (omega (arith, funds-dropped, dropped_parity, money-freed));
    }

  -- A new last segment, with one account.
  module _ (l x : ℕ) (bank : IsBank nbaccounts m l (l ∷ [])) (staffed : 0 < m l)
      (some_room : 0 < nbaccounts) (ne : x ≢ 0) (apart : Disjoint nbaccounts l x) where
    abbrev c₀ : Store
    c₀ = cleared m x (size nbaccounts)

    abbrev c₁ : Store
    c₁ = update c₀ (after l) x

    abbrev c₂ : Store
    c₂ = update c₁ x 1

    abbrev c₃ : Store
    c₃ = extended init_balance m nbaccounts l x

    extended_else : (y : ℕ) → y ≢ after l → y ≢ x → y ≢ cell (accounts_at x) 0 → c₃ y ≡ c₀ y
    extended_else y h k g =
        update_ne c₂ (cell (accounts_at x) 0) y init_balance (λ e. g (sym e))
        ∙ update_ne c₁ x y 1 (λ e. k (sym e))
        ∙ update_ne c₀ (after l) y x (λ e. h (sym e))

    apart_ne : (y z : ℕ) → Inside nbaccounts y l → Inside nbaccounts z x → y ≢ z
    apart_ne y z i j e = elim apart [ inl h ↦ omega arith | inr h ↦ omega arith ]

    Outside-new : (y : ℕ) → Inside nbaccounts y l → (y < x) ⊎ (x + size nbaccounts ≤ y)
    Outside-new y i = elim apart [ inl h ↦ inl (omega arith) | inr h ↦ inr (omega arith) ]

    old_same : (y : ℕ) → Inside nbaccounts y l → y ≢ after l → c₃ y ≡ m y
    old_same y i h =
        extended_else y h (apart_ne y x i (omega arith, omega arith))
          (apart_ne y (cell (accounts_at x) 0) i (omega arith, omega arith))
        ∙ cleared_out m x (size nbaccounts) y (Outside-new y i)

    new_zero : (y : ℕ) → Inside nbaccounts y x → y ≢ x → y ≢ cell (accounts_at x) 0 → c₃ y ≡ 0
    new_zero y i h k =
        extended_else y (λ e. apart_ne (after l) y (omega arith, omega arith) i (sym e)) h k
        ∙ cleared_in m x (size nbaccounts) y i.0 i.1

    extended_next : c₃ (after l) ≡ x
    extended_next =
        update_ne c₂ (cell (accounts_at x) 0) (after l) init_balance (λ e.
          apart_ne (after l) (cell (accounts_at x) 0) (omega arith, omega arith)
            (omega arith, omega arith) (sym e))
        ∙ update_ne c₁ x (after l) 1 (λ e.
          apart_ne (after l) x (omega arith, omega arith) (omega arith, omega arith) (sym e))
        ∙ update_self c₀ (after l) x

    extended_count : c₃ x ≡ 1
    extended_count =
        update_ne c₂ (cell (accounts_at x) 0) x init_balance (λ e. omega arith) ∙ update_self c₁ x 1

    new_money : money c₃ (x ∷ []) ≡ init_balance
    unfolding funds
    new_money =
        rw (extended_count, update_self c₂ (cell (accounts_at x) 0) init_balance)
          (omega (
            arith,
            new_zero (parity_at x) (omega arith, omega arith) (λ e. omega arith) (λ e. omega arith),
          ))

    old_count : c₃ l ≡ m l
    old_count = old_same l (omega arith, omega arith) (λ e. omega arith)

    old_money : funds c₃ (accounts_at l) 0 (m l) ≡ funds m (accounts_at l) 0 (m l)
    old_money = funds_same m c₃ (accounts_at l) 0 (m l) (λ j lo hi.
        old_same (cell (accounts_at l) j) (omega arith, omega (arith, bank.within.0))
          (λ e. omega arith))

    pub extended-Gains : Gains init_balance nbaccounts m c₃ l (l ∷ []) (l ∷ x ∷ [])
    extended-Gains = record {
      bank = record {
        linked = (
          refl,
          bank.linked.1,
          (
            extended_next,
            ne,
            new_zero (after x) (omega arith, omega arith) (λ e. omega arith) (λ e. omega arith),
          ),
        );
        within = (rw old_count bank.within.0, (rw extended_count some_room, tt));
        apart = ((apart, tt), (tt, tt));
      };
      staffed = (rw old_count staffed, (rw extended_count (omega arith), tt));
      number_grows = omega (arith, old_count, extended_count);
      money_grows = rw old_count (
          omega (
            arith,
            old_money,
            old_same (parity_at l) (omega arith, omega arith) (λ e. omega arith),
            new_money,
          ));
    }
