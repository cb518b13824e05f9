-- ===== src/Stm/Commit.antt =====
-- `tm_end` of 353055/tm.c.
pub mod Cases
pub mod Valid
use software_transactional_m.Prelude.{
  ℕ, ◌+◌, ◌%◌, ◌^◌, Bool, true, false, Option, none, some, List, [], ◌∷◌, ◌==◌, if◌then◌else◌,
  ◌>>=◌,
}
use software_transactional_m.Stm.Types.{MemoryRegion, LlNode, Transaction, World}
use software_transactional_m.Stm.Locks.{
  acquire_locks, release_locks, validate, write_to_locations, is_null,
}
use software_transactional_m.Stm.Begin.{clean_transaction}

-- The loop over the read set.
unfoldable pub validate_all : MemoryRegion → List LlNode → List LlNode → ℕ → Option Bool
validate_all r [] write_node rv = some true
validate_all r (n ∷ ns) write_node rv = do
  valid ← validate r n write_node rv
  elim valid [ true ↦ validate_all r ns write_node rv | false ↦ some false ]

-- `atomic_fetch_add(&global_clock, 1)`, then `wv++` on the copy: both wrap at 64 bits.
abbrev pub tick : MemoryRegion → ℕ
tick r = (r.global_clock + 1) % 2 ^ 64

-- With the write set locked and the clock advanced to `wv`.
unfoldable pub finish : World → Transaction → ℕ → Option (Bool × World)
unfolding validate_all
finish w t wv = do
  valid ←
      if wv == (t.rv + 1) % 2 ^ 32
      then some true
      else validate_all w.region t.read_addresses t.write_addresses t.rv
  if valid
      then (do w' ← write_to_locations t.write_addresses w.region.align wv w; some (true, w'))
      else (do
        r ← release_locks t.write_addresses 0 w.region
        some (false, record w { region = r }))

-- A transaction that wrote something.
unfoldable pub commit : World → Transaction → Option (Bool × World)
unfolding finish
commit w t = do
  (acquired, r) ← acquire_locks t.write_addresses w.region
  if acquired
      then finish (record w { region = record r { global_clock = tick r } }) t (tick r)
      else some (false, record w { region = r })

-- The call from its first access to its last with nothing in between; Stm.Overlap has the accesses of two
-- ends one by one.
unfoldable pub tm_end : World → Transaction → Option (Bool × World)
unfolding commit
tm_end w t = do
  reply ←
      if t.is_ro
      then some (true, w)
      else if is_null t.write_addresses
      then some (true, w)
      else commit w t
  cleaned ← clean_transaction t
  some reply
