-- ===== src/Grading/Store.antt =====
-- What a closure means when nothing comes between: it runs on the words of the shared memory.
use software_transactional_m.Prelude.{
  ℕ, ◌+◌, ◌&&◌, Option, none, some, List, [], ◌∷◌, ltb, leb, if◌then◌else◌, update,
}
use software_transactional_m.Grading.Transaction.{
  Tx, pure, throw, running, read, write, alloc, free, keep, transaction_alloc, Result, ok, thrown,
}

-- The word at each address.
abbrev pub Store : Type 0
Store = ℕ → ℕ

-- The words of a new block are zero.
abbrev pub cleared : Store → (a size : ℕ) → Store
cleared m a size = λ j. if leb a j && ltb j (a + size) then 0 else m j

-- The answers to the allocations come from a list: a block, or none where memory is short. `none` is
-- a closure that is still running, or a list that is too short.
unfoldable pub run : {A : Type 0} → Tx A → List (Option ℕ) → Store → Option (Result A × Store)
run (pure a) answers m = some (ok a, m)
run (throw e) answers m = some (thrown e, m)
run running answers m = none
run (read source size k) answers m = run (k (m source)) answers m
run (write value size target t) answers m = run t answers (update m target value)
run (alloc size k) [] m = none
run (alloc size k) (none ∷ answers) m = some (thrown transaction_alloc, m)
run (alloc size k) (some a ∷ answers) m = run (k a) answers (cleared m a size)
run (free target t) answers m = run t answers m
run (keep captured t) answers m = run t answers m
