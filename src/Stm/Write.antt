-- ===== src/Stm/Write.antt =====
-- `tm_write` of 353055/tm.c.
pub mod Log
pub mod Keeps
use software_transactional_m.Prelude.{
  ℕ, zero, suc, ◌+◌, ◌/◌, ◌%◌, ◌^◌, Bool, true, false, not, Option, none, some, List, [], ◌∷◌, leb,
  ◌==◌, if◌then◌else◌, ◌>>=◌, assert, drop,
}
use software_transactional_m.Stm.Memory.{read_buffer}
use software_transactional_m.Stm.Types.{SegmentNode, LlNode, Transaction, World, segment_at}
use software_transactional_m.Stm.Bloom.{add_to_bloom_filter, is_in_bloom_filter}
use software_transactional_m.Stm.Locks.{seg_from_word_address, get_write_node, is_null}
use software_transactional_m.Stm.Begin.{clean_transaction}

-- The returned flag, and the transaction if it still exists.
pub record WriteReply : Type 0 where
  pub continues : Bool
  pub tx : Option Transaction

abbrev pub abort_write : Transaction → Option WriteReply
abort_write t = do cleaned ← clean_transaction t; some (record { continues = false; tx = none })

-- `malloc(sizeof(region->align))` is a buffer of 8 bytes, for `align` bytes.
abbrev pub buffer_size : ℕ
buffer_size = 8

-- A new node in front, and its address in the filter; `none` where an allocation fails, since the
-- caller then gives up the transaction.
unfoldable pub push_write :
    (node_fits buffer_fits : Bool)
    → World
    → Transaction
    → (s cur target : ℕ) → List ℕ
    → Option (Option Transaction)
push_write node_fits buffer_fits w t s cur target value =
    if not node_fits then some none else if not buffer_fits then some none else do
      in_buffer ← assert (leb w.region.align buffer_size)
      filter ← t.filter
      filter' ← add_to_bloom_filter w.memory filter target
      some (
          some (record t {
            write_addresses =
                record {
                  word_num = cur % 2 ^ 32;
                  location = target;
                  value = value;
                  corresponding_segment = s;
                }
                ∷ t.write_addresses;
            filter = some filter';
          }))

-- `memcpy(writtenNode->value, ...)` on the node that `getWriteNode` finds.
unfoldable pub set_value : ℕ → List ℕ → List LlNode → List LlNode
set_value target value [] = []
set_value target value (n ∷ ns) =
    if n.location == target then record n { value = value } ∷ ns else n ∷ set_value target value ns

-- One word: `none` for the transaction where an allocation fails.
unfoldable pub write_word :
    (node_fits buffer_fits : Bool)
    → World
    → Transaction
    → (s cur target : ℕ) → List ℕ
    → Option (Option Transaction)
unfolding push_write set_value get_write_node
write_word node_fits buffer_fits w t s cur target value = do
  filter ← t.filter
  seen ← is_in_bloom_filter w.memory filter target
  if not seen
      then push_write node_fits buffer_fits w t s cur target value
      else (if is_null (get_write_node target t.write_addresses)
          then push_write node_fits buffer_fits w t s cur target value
          else do
            in_buffer ← assert (leb w.region.align buffer_size)
            some (some (record t { write_addresses = set_value target value t.write_addresses })))

-- `n` words left. The two oracles answer the allocations of round `i`.
unfoldable pub write_loop :
    (node_fits buffer_fits : ℕ → Bool)
    → World
    → Transaction
    → (s n i cur target : ℕ) → List ℕ
    → Option WriteReply
write_loop node_fits buffer_fits w t s zero i cur target source =
    some (record { continues = true; tx = some t })
write_loop node_fits buffer_fits w t s (suc n) i cur target source = do
  value ← read_buffer source w.region.align
  stepped ← write_word (node_fits i) (buffer_fits i) w t s cur target value
  elim stepped [
    | none ↦ abort_write t
    | some t' ↦
        write_loop node_fits buffer_fits w t' s n (i + 1) (cur + 1) (target + w.region.align)
          (drop w.region.align source)
  ]

unfoldable pub tm_write :
    (node_fits buffer_fits : ℕ → Bool)
    → World
    → Transaction
    → List ℕ
    → (size target : ℕ) → Option WriteReply
unfolding write_loop seg_from_word_address
tm_write node_fits buffer_fits w t source size target = do
  let s_no = seg_from_word_address target
  req_node ← segment_at w.region s_no
  divisible ← assert (not (w.region.align == 0))
  let diff = target % 2 ^ 48
  let start_word = diff / w.region.align
  let num_words = size / w.region.align
  write_loop node_fits buffer_fits w t s_no num_words 0 start_word (req_node.segment_start + diff)
      source
