-- ===== src/Grading/Bank/Last.antt =====
-- What the allocation transaction of the bank (grading/workload.hpp) does to the last segment.
use software_transactional_m.Prelude.{
  ℕ, ◌+◌, ◌*◌, ◌-◌, ◌^◌, ◌≡◌, refl, List, ◌∷◌, inl, inr, update, arith, ltb, lt→ltb, if◌then◌else◌,
  Option, some, Bool-cases,
}
use software_transactional_m.Grading.Transaction.{ok}
use software_transactional_m.Grading.Shared.{cell, after}
use software_transactional_m.Grading.Store.{Store, cleared, run}
use software_transactional_m.Grading.Bank.{wrap, size, AccountSegment, remove_account, add_account}
use software_transactional_m.Grading.Bank.Money.{parity_at, accounts_at}

-- The segment at an address.
abbrev pub segment_at : ℕ → AccountSegment
segment_at a = record { count = a; next = after a; parity = parity_at a; accounts = accounts_at a }

module _ (init_balance : ℕ) (m : Store) where
  abbrev pub left_in : ℕ → ℕ
  left_in l = wrap (m l + (2 ^ 64 - 1))

  abbrev pub new_parity : ℕ → ℕ
  new_parity l =
      wrap (m (parity_at l) + m (cell (accounts_at l) (left_in l)) + (2 ^ 64 - init_balance))

  -- The memory without the last account of the segment at `l`, and without that segment, which comes
  -- after the one at `p`.
  abbrev pub shrunk : ℕ → Store
  shrunk l = update (update m l (left_in l)) (parity_at l) (new_parity l)

  abbrev pub dropped : (p l : ℕ) → Store
  dropped p l =
      let unlinked = update m (after p) 0 in
      update unlinked (parity_at p) (wrap (unlinked (parity_at p) + new_parity l))

  -- The memory with one account more in the segment at `l`, and with a segment more at `x`.
  abbrev pub grown : ℕ → Store
  grown l = update (update m (cell (accounts_at l) (m l)) init_balance) l (wrap (m l + 1))

  abbrev pub extended : (nbaccounts l x : ℕ) → Store
  extended nbaccounts l x =
      update (update (update (cleared m x (size nbaccounts)) (after l) x) x 1)
        (cell (accounts_at x) 0) init_balance

  module _ (nbaccounts start : ℕ) where
    pub run-remove_account :
        (answers : List (Option ℕ)) (p l : ℕ)
        → run (remove_account nbaccounts init_balance start p (segment_at l) (m l)) answers m
          ≡ some (ok tt, if ltb 0 (left_in l) then shrunk l else dropped p l)
    unfolding run remove_account
    run-remove_account answers p l = elim (Bool-cases (ltb 0 (left_in l))) [
      | inl some_left ↦ rw (some_left, remove_account) refl
      | inr none_left ↦ rw (none_left, remove_account) refl
    ]

    pub run-add_account :
        (answers : List (Option ℕ)) (x l : ℕ)
        → run (add_account nbaccounts init_balance start (segment_at l) (m l)) (some x ∷ answers) m
          ≡ some (ok tt, if ltb (m l) nbaccounts then grown l else extended nbaccounts l x)
    unfolding run add_account
    run-add_account answers x l = elim (Bool-cases (ltb (m l) nbaccounts)) [
      | inl room ↦ rw (room, add_account) refl
      | inr full ↦ rw (full, lt→ltb 0 (24 + nbaccounts * 8) (omega arith), add_account) refl
    ]
