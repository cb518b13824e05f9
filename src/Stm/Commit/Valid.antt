-- ===== src/Stm/Commit/Valid.antt =====
-- What the validation of a read set in `tm_end` tells of the words in it.
use software_transactional_m.Prelude.{ℕ, ◌≤◌, ◌≡◌, true, List, [], ◌∷◌, arith}
use software_transactional_m.Stm.Types.{MemoryRegion, LlNode, versions}
use software_transactional_m.Stm.Locks.Acquire.{has}
use software_transactional_m.Stm.Commit.Cases.{all_valid}

pub all_valid-old :
    (r : MemoryRegion) (ws : List LlNode) (rv : ℕ) (ns : List LlNode) (k x : ℕ)
    → all_valid r ws rv ns ≡ true
    → has k x ns ≡ true
    → versions r k x ≤ rv
all_valid-old r ws rv [] k x v h = cc
all_valid-old r ws rv (n ∷ ns) k x v h = ground (arith, all_valid-old r ws rv ns k x)
