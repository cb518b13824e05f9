-- ===== src/Stm/Tests/Writing.antt =====
-- Runs of writes, of the filter and of the allocator on the small region.
use software_transactional_m.Prelude.{◌^◌, ◌≡◌, refl, true, false, none, some, [], ◌∷◌, arith, All}
use software_transactional_m.Stm.Memory.{bytes}
use software_transactional_m.Stm.Types.{BloomFilter, World, Transaction}
use software_transactional_m.Stm.Bloom.{hash_function, add_to_bloom_filter, is_in_bloom_filter}
use software_transactional_m.Stm.Bloom.Text.{is_in_bloom_filter-SameText}
use software_transactional_m.Stm.Bloom.Laws.{IsBytes, add_all, add_all-is_in}
use software_transactional_m.Stm.Read.{ReadReply, tm_read, read_word_rw}
use software_transactional_m.Stm.Write.{WriteReply, tm_write, write_word}
use software_transactional_m.Stm.Commit.{tm_end}
use software_transactional_m.Stm.Commit.Cases.{IsReady}
use software_transactional_m.Stm.Opacity.{IsRequest}
use software_transactional_m.Stm.Totality.{tm_write-returns}
use software_transactional_m.Stm.RoundTrip.{write_word-read_word_rw}
use software_transactional_m.Stm.Faults.{write_word-dooms, tm_write-overflow}
use software_transactional_m.Stm.Bloom.{hash_loop, add_loop, is_in_loop}
use software_transactional_m.Stm.Locks.{seg_from_word_address}
use software_transactional_m.Stm.Write.{push_write, write_loop}
use software_transactional_m.Stm.Memory.{load, read_buffer}
use software_transactional_m.Stm.Types.{segment_at, lock_at, version_at}
use software_transactional_m.Stm.Read.{read_loop_rw}
use software_transactional_m.Stm.Tests.{
  region₀, memory₀, world₀, filter₀, reader₀, seven, write₁, writer₀, laid_out₀, write₁-IsWrite,
}

bytes₀ : IsBytes filter₀
bytes₀ i = omega arith

-- The second word is written once more, with the filter of a new transaction: it does not know it.
abbrev rewriter₀ : Transaction
rewriter₀ = record reader₀ { is_ro = false; write_addresses = write₁ ∷ [] }

write_run :
    (t' : Transaction) × (write_word true true world₀ rewriter₀ 1 1 1032 seven ≡ some (some t'))
unfolding write_word push_write is_in_bloom_filter is_in_loop add_to_bloom_filter add_loop
    hash_function hash_loop
write_run = (_, refl)

write_word-read_word_rw_example : read_word_rw world₀ write_run.0 1032 ≡ some seven
write_word-read_word_rw_example =
    write_word-read_word_rw world₀ rewriter₀ filter₀ 1 1 seven true true refl bytes₀
      (omega arith, omega arith) (omega arith) (omega arith) refl (write₁-IsWrite, tt) write_run.1

not_in₀ : is_in_bloom_filter memory₀ filter₀ 1032 ≡ some false
unfolding is_in_bloom_filter is_in_loop hash_function hash_loop
not_in₀ = refl

rewriter-IsReady : IsReady world₀ rewriter₀
rewriter-IsReady = record { laid_out = laid_out₀; writes = (write₁-IsWrite, tt); reads = tt }

write_word-dooms_example : tm_end world₀ write_run.0 ≡ some (false, world₀)
write_word-dooms_example =
    write_word-dooms world₀ rewriter₀ filter₀ 1 1 seven rewriter-IsReady bytes₀ refl refl
      (omega arith, omega arith) (omega arith) refl refl not_in₀ write_run.1

added : (g : BloomFilter) × (add_all memory₀ filter₀ (1024 ∷ 1032 ∷ []) ≡ some g)
unfolding add_to_bloom_filter add_loop hash_function hash_loop
added = (_, refl)

add_all-is_in_example :
    All (λ a. is_in_bloom_filter memory₀ added.0 a ≡ some true) (1024 ∷ 1032 ∷ [])
add_all-is_in_example = add_all-is_in memory₀ filter₀ added.0 (1024 ∷ 1032 ∷ []) bytes₀ added.1

is_in_bloom_filter-SameText_example :
    is_in_bloom_filter memory₀ filter₀ 1024 ≡ is_in_bloom_filter memory₀ filter₀ 1032
is_in_bloom_filter-SameText_example =
    is_in_bloom_filter-SameText memory₀ memory₀ filter₀ 1024 1032 (record {
      d = 0;
      inside = omega arith;
      inside' = omega arith;
      same = λ j h. refl;
      ends = refl;
    })

-- The first word, written with sevens.
abbrev first_word : IsRequest region₀ (2 ^ 48) 8
first_word = record {
  segment = 1;
  word = 0;
  count = 1;
  names = refl;
  low = omega arith;
  sized = refl;
  allocated = (omega arith, omega arith);
  listed = refl;
  within = omega arith;
}

write_call :
    (reply : WriteReply) × (t' : Transaction) × (tm_write
        (λ _. true)
        (λ _. true)
        world₀
        writer₀
        seven
        8
        (2 ^ 48)
      ≡ some reply)
    × (reply.tx ≡ some t')
unfolding tm_write segment_at seg_from_word_address write_loop read_buffer write_word push_write
    is_in_bloom_filter is_in_loop add_to_bloom_filter add_loop hash_function hash_loop
write_call = (_, _, refl, refl)

read_call :
    (reply : ReadReply) × (t' : Transaction) × (tm_read (λ _. true) world₀ writer₀ (2 ^ 48) 8
      ≡ some reply)
    × (reply.tx ≡ some t')
unfolding tm_read segment_at lock_at version_at load bytes seg_from_word_address read_loop_rw
    read_word_rw is_in_bloom_filter is_in_loop hash_function hash_loop
read_call = (_, _, refl, refl)

not_seen : is_in_bloom_filter memory₀ filter₀ 1024 ≡ some false
unfolding is_in_bloom_filter is_in_loop hash_function hash_loop
not_seen = refl

tm_write-returns_example :
    (reply : WriteReply) × (tm_write (λ _. true) (λ _. true) world₀ writer₀ seven 8 (2 ^ 48)
      ≡ some reply)
tm_write-returns_example =
    tm_write-returns (λ _. true) (λ _. true) world₀ writer₀ seven 8 (2 ^ 48)
      (record { some_byte = omega arith; last = refl }) laid_out₀ (omega arith) refl first_word
      (omega arith)

abbrev wide : World
wide = record world₀ { region = record region₀ { align = 16 } }

abbrev wide_word : IsRequest wide.region (2 ^ 48) 16
wide_word = record {
  segment = 1;
  word = 0;
  count = 1;
  names = refl;
  low = omega arith;
  sized = refl;
  allocated = (omega arith, omega arith);
  listed = refl;
  within = omega arith;
}

tm_write-overflow_example :
    tm_write (λ _. true) (λ _. true) wide writer₀ (7 ∷ []) 16 (2 ^ 48) ≡ none
tm_write-overflow_example =
    tm_write-overflow (λ _. true) (λ _. true) wide writer₀ (7 ∷ []) 16 (2 ^ 48) (omega arith)
      wide_word (omega arith) refl refl
