-- ===== src/Stm/Tests.antt =====
-- Runs of the library on a small region: one segment of two words of 8 bytes.
pub mod Writing
pub mod Threads
use software_transactional_m.Prelude.{
  ℕ, zero, suc, ◌+◌, ◌*◌, ◌/◌, ◌%◌, ◌^◌, ◌≤◌, ◌<◌, ◌≡◌, refl, sym, ap, ◌∙◌, Bool, true, false, not,
  ◌&&◌, ◌||◌, Option, none, some, List, [], ◌∷◌, arith, ltb, ◌==◌, inl, inr, if◌then◌else◌, ◌>>=◌,
  All, is_some, ◌⊎◌, length, update, ◌≢◌,
}
use software_transactional_m.Stm.Memory.{Memory, bytes}
use software_transactional_m.Stm.Types.{
  BloomFilter, SegmentNode, MemoryRegion, LlNode, World, Transaction, locks, versions,
}
use software_transactional_m.Stm.Bloom.{
  initialise_bloom_filter, hash_function, add_to_bloom_filter, is_in_bloom_filter,
}
use software_transactional_m.Stm.Bloom.Text.{SameText, is_in_bloom_filter-SameText}
use software_transactional_m.Stm.Bloom.Laws.{IsBytes, add_all, add_all-is_in}
use software_transactional_m.Stm.Locks.{acquire_locks, is_null}
use software_transactional_m.Stm.Locks.Acquire.{has, acquirable, acquire_locks_lem}
use software_transactional_m.Stm.Locks.Publish.{Allocated, address_of, IsLaidOut, IsRead, IsWrite}
use software_transactional_m.Stm.Alloc.{Mallocs, AllocReply, tm_alloc, tm_create}
use software_transactional_m.Stm.Begin.{tm_begin}
use software_transactional_m.Stm.Read.{ReadReply, tm_read, read_word_rw, read_node}
use software_transactional_m.Stm.Write.{WriteReply, tm_write, write_word}
use software_transactional_m.Stm.Commit.{tm_end}
use software_transactional_m.Stm.Commit.Cases.{IsReady, committed, outcome, tm_end-cases}
use software_transactional_m.Stm.Snapshot.{IsQuiet, Since, HasRoom, Since-refl, tm_end-keeps}
use software_transactional_m.Stm.Opacity.{IsRequest, all_old}
use software_transactional_m.Stm.Destroy.{Block, tm_destroy, times, held, tm_destroy-frees_once}
use software_transactional_m.Stm.Read.Cases.{all_open, tm_read-cases}
use software_transactional_m.Stm.Read.{abort_read}
use software_transactional_m.Stm.Opacity.OwnWrites.{seen_bytes, with_reads, Logged, all_fit}
use software_transactional_m.Stm.Opacity.ReadWrite.{tm_read-own_or_snapshot}
use software_transactional_m.Stm.Read.Keeps.{ReadFrom, tm_read-ReadFrom}
use software_transactional_m.Stm.Write.Keeps.{FilterBytes, WroteTo, tm_write-WroteTo}
use software_transactional_m.Stm.Alloc.Fresh.{IsFresh, tm_alloc-keeps}
use software_transactional_m.Stm.Fresh.{zeros, tm_alloc-usable, tm_create-Inv}
use software_transactional_m.Stm.Totality.{tm_write-returns}
use software_transactional_m.Stm.RoundTrip.{write_word-read_word_rw}
use software_transactional_m.Stm.Faults.{
  tm_end-twice, write_word-dooms, tm_write-overflow, tm_alloc-dead, tm_begin-null_filter,
}
use software_transactional_m.Stm.System.{
  System, Live, Inv, IsLive, Step, Reach, begins, reads, here, next,
}
use software_transactional_m.Stm.System.Invariant.{Step-Inv}
use software_transactional_m.Stm.Conflict.{tm_end-first_wins, tm_end-alone}

abbrev pub segment₀ : SegmentNode
segment₀ = record {
  size = 16;
  segment_start = 1024;
  num_words = 2;
  lock_bit = λ _. false;
  lock_version_number = λ _. 0;
}

abbrev pub region₀ : MemoryRegion
region₀ = record {
  global_clock = 0;
  start_segment = 1024;
  segments_list = λ _. segment₀;
  listed = true;
  num_allocs = 2;
  max_size = 1000;
  allocation_lock = false;
  size = 16;
  align = 8;
}

abbrev pub memory₀ : Memory
memory₀ = record { limit = 4096; byte = λ _. 0 }

abbrev pub world₀ : World
world₀ = record { memory = memory₀; region = region₀ }

abbrev pub filter₀ : BloomFilter
filter₀ = record { size = 200; num_hashes = 4; bit_array = λ _. 0 }

abbrev pub reader₀ : Transaction
reader₀ = record {
  is_ro = true;
  rv = 0;
  num_reads = 0;
  read_addresses = [];
  num_writes = 0;
  write_addresses = [];
  filter = some filter₀;
}

abbrev pub seven : List ℕ
seven = 7 ∷ 7 ∷ 7 ∷ 7 ∷ 7 ∷ 7 ∷ 7 ∷ 7 ∷ []

abbrev pub write₁ : LlNode
write₁ = record { word_num = 1; location = 1032; value = seven; corresponding_segment = 1 }

-- Has read both words and written the second.
abbrev pub writer₀ : Transaction
writer₀ = record reader₀ {
  is_ro = false;
  read_addresses = read_node 1 1 1032 ∷ read_node 1 0 1024 ∷ [];
  write_addresses = write₁ ∷ [];
}

pub laid_out₀ : IsLaidOut 4096 region₀
laid_out₀ = record {
  align_pos = omega arith;
  inside = λ k a. omega arith;
  small = λ k a. omega arith;
  apart = λ k j a b ne. absurd (ne (omega arith));
}

pub quiet₀ : IsQuiet world₀
quiet₀ = record { laid_out = laid_out₀; unlocked = λ k x. refl; not_newer = λ k x. omega arith }

pub write₁-IsWrite : IsWrite region₀ write₁
write₁-IsWrite = record {
  allocated = (omega arith, omega arith);
  in_words = omega arith;
  located = refl;
  one_word = refl;
}

abbrev pub IsRead₀ : ℕ → Type 0
IsRead₀ x = IsRead region₀ (read_node 1 x (1024 + x * 8))

pub reads₀ : IsRead₀ 1 × IsRead₀ 0
reads₀ = (
  record { allocated = (omega arith, omega arith); in_words = omega arith; located = refl },
  record { allocated = (omega arith, omega arith); in_words = omega arith; located = refl },
)

pub ready₀ : IsReady world₀ writer₀
ready₀ = record {
  laid_out = laid_out₀;
  writes = (write₁-IsWrite, tt);
  reads = (reads₀.0, (reads₀.1, tt));
}

abbrev pub request₀ : IsRequest region₀ (2 ^ 48) 16
request₀ = record {
  segment = 1;
  word = 0;
  count = 2;
  names = refl;
  low = omega arith;
  sized = refl;
  allocated = (omega arith, omega arith);
  listed = refl;
  within = omega arith;
}

tm_read-cases_example :
    ((all_open region₀ 1 2 0 0 ≡ true)
      × (tm_read (λ _. true) world₀ reader₀ (2 ^ 48) 16
          ≡ some (record { continues = true; target = bytes memory₀ 1024 16; tx = some reader₀ })))
    ⊎ ((all_open region₀ 1 2 0 0 ≡ false)
        × (read : List ℕ) × (tm_read (λ _. true) world₀ reader₀ (2 ^ 48) 16
            ≡ abort_read reader₀ read))
tm_read-cases_example = tm_read-cases (λ _. true) world₀ reader₀ (2 ^ 48) 16 laid_out₀ refl request₀

tm_destroy-frees_once_example :
    (freed : List Block) × (tm_destroy region₀ ≡ some freed)
    × ((b : Block) → times b freed ≡ held region₀ b)
tm_destroy-frees_once_example = tm_destroy-frees_once region₀ refl (omega arith)

tm_end-cases_example : tm_end world₀ writer₀ ≡ some (true, committed world₀ writer₀)
tm_end-cases_example = tm_end-cases world₀ writer₀ ready₀ refl

tm_end-alone_example : tm_end world₀ writer₀ ≡ some (true, committed world₀ writer₀)
tm_end-alone_example =
    tm_end-alone world₀ writer₀ quiet₀ (omega arith) ready₀ refl refl refl refl refl

tm_end-first_wins_example :
    (r : Bool × World) × (tm_end (committed world₀ writer₀) writer₀ ≡ some r) × (r.0 ≡ false)
tm_end-first_wins_example =
    tm_end-first_wins world₀ (committed world₀ writer₀) writer₀ writer₀ 1 1 quiet₀ (omega arith)
      ready₀ refl refl tm_end-cases_example ready₀ refl refl refl (omega arith) refl

acquire_locks_example :
    acquire_locks (write₁ ∷ []) region₀
    ≡ some (
      true,
      record region₀ {
        segments_list = λ k. record segment₀ {
          lock_bit = λ x. if (((1 == k) && (1 == x)) || false) then true else false;
        };
      },
    )
acquire_locks_example = acquire_locks_lem region₀ (write₁ ∷ []) (omega arith, tt)
