-- ===== src/Grading/Retry.antt =====
-- What `transactional` of grading/transactional.hpp promises to the workload, over a library with the
-- contract.
pub mod Contract
pub mod Execution
pub mod Attempt
use software_transactional_m.Prelude.{
  ℕ, zero, suc, ◌≡◌, sym, ap, Bool, true, false, Option, none, some, List, [], ◌∷◌, ◌⊎◌, update,
  subst,
}
use software_transactional_m.Grading.Transaction.{
  Tx, pure, throw, running, read, write, alloc, free, keep, Exception, transaction_begin,
  transaction_retry, thrown, Library, success, abort, nomem, Transaction, Left, leaves, terminates,
  tx_read, tx_write, tx_alloc, tx_free, execute, destroy, attempt, transactional, resume,
  attempt_kept,
}
use software_transactional_m.Grading.Store.{Store, cleared, run}
use software_transactional_m.Grading.Retry.Contract.{IsAtomic}
use software_transactional_m.Grading.Retry.Attempt.{TookPlace}

module _ {S : Type 0} (lib : Library S) (atomic : IsAtomic lib) where
  module _ {A : Type 0} (is_ro : Bool) (func : List ℕ → Tx A) where
    -- The attempts from the state `s` with the captured variables `c` were told to try again, until one
    -- with the captured variables `c'` starts in `s'`.
    pub data Tries : (c : List ℕ) → S → (c' : List ℕ) → S → Type 0 where
      first : {c : List ℕ} {s : S} → Tries c s c s
      again :
          {c c' : List ℕ} {s s' s'' : S}
          → attempt lib is_ro (func c) s ≡ some (leaves (thrown transaction_retry), s'')
          → Tries (attempt_kept lib is_ro (func c) s c) s'' c' s'
          → Tries c s c' s'

    -- As many attempts as the fuel allows: each was told to try again, or its closure is still running.
    abbrev pub Fruitless : ℕ → (c : List ℕ) → S → Type 0
    Fruitless zero c s = Unit
    Fruitless (suc attempts) c s =
        (attempt lib is_ro (func c) s ≡ none)
        ⊎ ((s' : S) × (attempt lib is_ro (func c) s ≡ some (leaves (thrown transaction_retry), s'))
            × Fruitless attempts (attempt_kept lib is_ro (func c) s c) s')

    -- What `transactional` can come to.
    abbrev pub Finished : ℕ → (c : List ℕ) → S → Option (Left A × S) → Type 0
    Finished attempts c s none = Fruitless attempts c s
    Finished attempts c s (some (leaves r, s')) =
        (r ≡ thrown transaction_begin)
        ⊎ ((c' : List ℕ) × (last : S) × Tries c s c' last
            × TookPlace lib atomic is_ro (func c') last r s')
    Finished attempts c s (some (terminates, s')) =
        (c' : List ℕ) × (last : S) × Tries c s c' last
        × (x : Exception) × (answers : List (Option ℕ)) × (before : Store) × (after : Store) × (run
              (func c') answers before
            ≡ some (thrown x, after))

    -- The steps of the loop, by what the attempt came to.
    retries : ℕ → (c : List ℕ) → Option (Left A × S) → Option (Left A × S)
    retries attempts c none = none
    retries attempts c (some (leaves (thrown transaction_retry), s')) =
        transactional lib attempts is_ro func c s'
    retries attempts c (some (left, s')) = some (left, s')
