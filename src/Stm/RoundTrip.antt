-- ===== src/Stm/RoundTrip.antt =====
-- What a transaction has written it reads back.
use software_transactional_m.Prelude.{
  ℕ, ◌^◌, ◌<◌, ◌≡◌, refl, Bool, true, some, List, [], ◌∷◌, All, length, arith,
}
use software_transactional_m.Stm.Memory.{read_buffer-length}
use software_transactional_m.Stm.Types.{BloomFilter, LlNode, World, Transaction}
use software_transactional_m.Stm.Bloom.{is_in_bloom_filter}
use software_transactional_m.Stm.Bloom.Laws.{IsBytes}
use software_transactional_m.Stm.Locks.{get_write_node}
use software_transactional_m.Stm.Locks.Publish.{Allocated, address_of, IsWrite}
use software_transactional_m.Stm.Opacity.OwnWrites.{first_value}
use software_transactional_m.Stm.Read.{read_word_rw}
use software_transactional_m.Stm.Write.{write_word}
use software_transactional_m.Stm.Write.Log.{write_word-Wrote}

own_read :
    (w : World) (t : Transaction) (f : BloomFilter) (a : ℕ) (v : List ℕ)
    → t.filter ≡ some f
    → is_in_bloom_filter w.memory f a ≡ some true
    → (ws : List LlNode) → get_write_node a t.write_addresses ≡ ws
    → first_value ws ≡ some v
    → length v ≡ w.region.align
    → read_word_rw w t a ≡ some v
unfolding read_word_rw
own_read w t f a v filtered seen [] e h one_word = absurd cc
own_read w t f a v filtered seen (n ∷ ns) e h one_word =
    let same : n.value ≡ v = ground arith in
    rw (filtered, seen, e, same, ← one_word) (read_buffer-length v)

-- Read your own write: once the step of `tm_write` for a word has succeeded, and with the memory as
-- it was, the step of `tm_read` for the word finds the value in the same transaction, not what the
-- memory holds.
pub write_word-read_word_rw :
    (w : World) (t : Transaction) (f : BloomFilter) (k cur : ℕ) (v : List ℕ)
    (node_fits buffer_fits : Bool) {t' : Transaction}
    → t.filter ≡ some f
    → IsBytes f
    → Allocated w.region k
    → cur < (w.region.segments_list k).num_words
    → cur < 2 ^ 32
    → length v ≡ w.region.align
    → All (IsWrite w.region) t.write_addresses
    → write_word node_fits buffer_fits w t k cur (address_of w.region k cur) v ≡ some (some t')
    → read_word_rw w t' (address_of w.region k cur) ≡ some v
write_word-read_word_rw w t f k cur v node_fits buffer_fits {t'} filtered bytes here inside small
      one_word writes e =
    let wrote =
      write_word-Wrote w t f filtered bytes k cur (address_of w.region k cur) v here inside small
        refl one_word writes node_fits buffer_fits e in
    own_read w t' wrote.filter (address_of w.region k cur) v wrote.has_filter wrote.seen
      (get_write_node (address_of w.region k cur) t'.write_addresses) refl wrote.found one_word
