-- ===== src/Stm/Locks.antt =====
-- The lock protocol of 353055/helper_functions.h: the write set is locked, validated, written out
-- and released.
pub mod Acquire
pub mod Publish
use software_transactional_m.Prelude.{
  ℕ, zero, suc, ◌+◌, ◌/◌, ◌%◌, ◌^◌, ◌≡◌, refl, Bool, true, false, not, ◌&&◌, ◌||◌, Option, none,
  some, List, [], ◌∷◌, arith, ltb, ◌==◌, if◌then◌else◌, ◌>>=◌, ◌>>◌, assert, length,
}
use software_transactional_m.Stm.Memory.{store, read_buffer}
use software_transactional_m.Stm.Types.{
  SegmentNode, MemoryRegion, LlNode, World, lock_at, version_at, set_lock, set_version,
}

-- `address >> 48`
unfoldable pub seg_from_word_address : ℕ → ℕ
seg_from_word_address address = address / 2 ^ 48

-- The rest of the list from the node on that holds the address; empty for NULL.
unfoldable pub get_write_node : ℕ → List LlNode → List LlNode
get_write_node source_address [] = []
get_write_node source_address (n ∷ ns) =
    if n.location == source_address then n ∷ ns else get_write_node source_address ns

-- `until` is the number of nodes from the first one to keep on, 0 for NULL.
unfoldable pub release_locks : List LlNode → ℕ → MemoryRegion → Option MemoryRegion
release_locks [] until r = if until == 0 then some r else none
release_locks (n ∷ ns) until r =
    if length (n ∷ ns) == until
    then some r
    else do r' ← set_lock r n.corresponding_segment n.word_num false; release_locks ns until r'

-- `atomic_compare_exchange_strong(&lock_bit[word], &false, true)`
unfoldable pub try_lock : MemoryRegion → ℕ → ℕ → Option (Bool × MemoryRegion)
try_lock r k w = do
  held ← lock_at r k w
  if held then some (false, r) else do r' ← set_lock r k w true; some (true, r')

-- The loop of `acquireLocks`: where it stopped, and whether it got all locks.
unfoldable pub acquire_loop : List LlNode → MemoryRegion → Option (ℕ × Bool × MemoryRegion)
acquire_loop [] r = some (0, true, r)
acquire_loop (n ∷ ns) r = do
  (got, r') ← try_lock r n.corresponding_segment n.word_num
  elim got [ true ↦ acquire_loop ns r' | false ↦ some (length (n ∷ ns), false, r') ]

unfoldable pub acquire_locks : List LlNode → MemoryRegion → Option (Bool × MemoryRegion)
acquire_locks write_node r = do
  (cur, success, r') ← acquire_loop write_node r
  if success then some (true, r') else do r'' ← release_locks write_node cur r'; some (false, r'')

-- `none` for the node that `getWriteNode` does not find
abbrev pub is_null {ℓ} : {A : Type ℓ} → List A → Bool
is_null [] = true
is_null (_ ∷ _) = false

unfoldable pub validate : MemoryRegion → LlNode → List LlNode → ℕ → Option Bool
validate r read_node write_node rv = do
  version ← version_at r read_node.corresponding_segment read_node.word_num
  if ltb rv version then some false else do
    held ← lock_at r read_node.corresponding_segment read_node.word_num
    some (not (held && is_null (get_write_node read_node.location write_node)))

unfoldable pub write_to_locations : List LlNode → ℕ → ℕ → World → Option World
write_to_locations [] align wv w = some w
write_to_locations (n ∷ ns) align wv w = do
  value ← read_buffer n.value align
  m ← store w.memory n.location value
  r ← set_version w.region n.corresponding_segment n.word_num (wv % 2 ^ 32)
  r' ← set_lock r n.corresponding_segment n.word_num false
  write_to_locations ns align wv (record { memory = m; region = r' })
