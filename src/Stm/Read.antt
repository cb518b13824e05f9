-- ===== src/Stm/Read.antt =====
-- `tm_read` of 353055/tm.c.
pub mod Keeps
pub mod Cases
use software_transactional_m.Prelude.{
  ℕ, zero, suc, ◌+◌, ◌/◌, ◌%◌, ◌^◌, Bool, true, false, not, ◌||◌, Option, none, some, List, [], ◌∷◌,
  ◌++◌, ltb, ◌==◌, if◌then◌else◌, ◌>>=◌, assert,
}
use software_transactional_m.Stm.Memory.{load, read_buffer}
use software_transactional_m.Stm.Types.{
  SegmentNode, LlNode, Transaction, World, lock_at, version_at, segment_at,
}
use software_transactional_m.Stm.Bloom.{is_in_bloom_filter}
use software_transactional_m.Stm.Locks.{seg_from_word_address, get_write_node}
use software_transactional_m.Stm.Begin.{clean_transaction}

-- The returned flag, the bytes copied to the target, and the transaction if it still exists.
pub record ReadReply : Type 0 where
  pub continues : Bool
  pub target : List ℕ
  pub tx : Option Transaction

abbrev pub abort_read : Transaction → List ℕ → Option ReadReply
abort_read t target = do
  cleaned ← clean_transaction t
  some (record { continues = false; target = target; tx = none })

-- The test after the copy: the word is locked, or its version has changed, or is too new.
abbrev pub conflict : (locked : Bool) (before after rv : ℕ) → Bool
conflict locked before after rv = locked || not (after == before) || ltb rv after

-- The loop of a read-only transaction: `n` words left, from word `cur` of segment `s` at `source`.
unfoldable pub read_loop_ro : World → Transaction → (s n cur source : ℕ) → List ℕ → Option ReadReply
read_loop_ro w t s zero cur source target =
    some (record { continues = true; target = target; tx = some t })
read_loop_ro w t s (suc n) cur source target = do
  v_before ← version_at w.region s cur
  value ← load w.memory source w.region.align
  locked ← lock_at w.region s cur
  v_after ← version_at w.region s cur
  elim (conflict locked v_before v_after t.rv) [
    | true ↦ abort_read t (target ++ value)
    | false ↦ read_loop_ro w t s n (cur + 1) (source + w.region.align) (target ++ value)
  ]

-- The bytes of one word for a transaction that may have written it.
unfoldable pub read_word_rw : World → Transaction → ℕ → Option (List ℕ)
read_word_rw w t source = do
  filter ← t.filter
  seen ← is_in_bloom_filter w.memory filter source
  if not seen
      then load w.memory source w.region.align
      else elim (get_write_node source t.write_addresses) [
        | [] ↦ load w.memory source w.region.align
        | n ∷ _ ↦ read_buffer n.value w.region.align
      ]

abbrev pub read_node : (s cur source : ℕ) → LlNode
read_node s cur source = record {
  word_num = cur % 2 ^ 32;
  location = source;
  value = [];
  corresponding_segment = s;
}

-- The loop of a read-write transaction. `fits i` says whether the node of round `i` can be had.
unfoldable pub read_loop_rw :
    (ℕ → Bool) → World → Transaction → (s n i cur source : ℕ) → List ℕ → Option ReadReply
read_loop_rw fits w t s zero i cur source target =
    some (record { continues = true; target = target; tx = some t })
read_loop_rw fits w t s (suc n) i cur source target = do
  v_before ← version_at w.region s cur
  value ← read_word_rw w t source
  locked ← lock_at w.region s cur
  v_after ← version_at w.region s cur
  elim (conflict locked v_before v_after t.rv || not (fits i)) [
    | true ↦ abort_read t (target ++ value)
    | false ↦
        read_loop_rw fits w
          (record t { read_addresses = read_node s cur source ∷ t.read_addresses }) s n (i + 1)
          (cur + 1) (source + w.region.align) (target ++ value)
  ]

-- The call from its first access to its last with nothing in between; Stm.Word has its accesses to a word
-- one by one.
unfoldable pub tm_read : (ℕ → Bool) → World → Transaction → (source size : ℕ) → Option ReadReply
unfolding read_loop_ro read_loop_rw seg_from_word_address
tm_read fits w t source size = do
  let s_no = seg_from_word_address source
  req_node ← segment_at w.region s_no
  divisible ← assert (not (w.region.align == 0))
  let diff = source % 2 ^ 48
  let start_word = diff / w.region.align
  let num_words = size / w.region.align
  let source_bytes = req_node.segment_start + diff
  if t.is_ro
      then read_loop_ro w t s_no num_words start_word source_bytes []
      else read_loop_rw fits w t s_no num_words 0 start_word source_bytes []
