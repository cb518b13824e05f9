-- ===== src/Grading/Retry/Contract.antt =====
-- What a library must promise to the class Transaction of grading/transactional.hpp.
use software_transactional_m.Prelude.{ℕ, ◌≡◌, Bool, true, false, Option, none, some, ◌⊎◌, update}
use software_transactional_m.Grading.Transaction.{Library, success, abort, nomem}
use software_transactional_m.Grading.Store.{Store, cleared}

-- The contract of a library. `memory` is what is committed. A live transaction has a store that it
-- began with and the store that it sees; calls may fail, and other threads may commit meanwhile. An
-- end that succeeds replaces the store that the transaction began with by the one that it sees, or
-- leaves the memory alone if these are the same.
pub record IsAtomic {S : Type 0} (lib : Library S) : Type 0 where
  pub memory : S → Store
  pub view : S → ℕ → Option (Store × Store)
  pub begins :
      (ro : Bool) (s : S)
      → ((lib.tm_begin ro s).0 ≡ none)
        ⊎ ((tx : ℕ) × ((lib.tm_begin ro s).0 ≡ some tx)
            × (start : Store) × (view (lib.tm_begin ro s).1 tx ≡ some (start, start)))
  pub reads :
      (tx a size : ℕ) (s : S) (start m : Store)
      → view s tx ≡ some (start, m)
      → ((lib.tm_read tx a size s).0 ≡ none)
        ⊎ (((lib.tm_read tx a size s).0 ≡ some (m a))
            × (view (lib.tm_read tx a size s).1 tx ≡ some (start, m)))
  pub writes :
      (tx v size a : ℕ) (s : S) (start m : Store)
      → view s tx ≡ some (start, m)
      → ((lib.tm_write tx v size a s).0 ≡ false)
        ⊎ (((lib.tm_write tx v size a s).0 ≡ true)
            × (view (lib.tm_write tx v size a s).1 tx ≡ some (start, update m a v)))
  pub allocs :
      (tx size : ℕ) (s : S) (start m : Store)
      → view s tx ≡ some (start, m)
      → ((lib.tm_alloc tx size s).0 ≡ abort)
        ⊎ ((((lib.tm_alloc tx size s).0 ≡ nomem)
              × (view (lib.tm_alloc tx size s).1 tx ≡ some (start, m)))
            ⊎ ((a : ℕ) × ((lib.tm_alloc tx size s).0 ≡ success a)
                × (view (lib.tm_alloc tx size s).1 tx ≡ some (start, cleared m a size))))
  pub frees :
      (tx a : ℕ) (s : S) (start m : Store)
      → view s tx ≡ some (start, m)
      → ((lib.tm_free tx a s).0 ≡ false)
        ⊎ (((lib.tm_free tx a s).0 ≡ true) × (view (lib.tm_free tx a s).1 tx ≡ some (start, m)))
  pub ends :
      (tx : ℕ) (s : S) (start m : Store)
      → view s tx ≡ some (start, m)
      → ((lib.tm_end tx s).0 ≡ false)
        ⊎ (((lib.tm_end tx s).0 ≡ true)
            × (((memory s ≡ start) × (memory (lib.tm_end tx s).1 ≡ m))
                ⊎ ((m ≡ start) × (memory (lib.tm_end tx s).1 ≡ memory s))))
