-- ===== src/Stm/Bloom.antt =====
-- 353055/bloom_filter.h. The filter hashes the text found at an address, up to its first zero byte.
-- A `char` is signed, as on x86; an `int` loop counter counts up to `num_hashes`.
pub mod Bits
pub mod Laws
pub mod Text
use Prim.Native.Nat.{bit_and, bit_or}
use software_transactional_m.Prelude.{
  ℕ, zero, suc, ◌+◌, ◌-◌, ◌*◌, ◌/◌, ◌%◌, ◌^◌, Bool, true, false, Option, none, some, ltb, ◌==◌,
  if◌then◌else◌, ◌>>=◌, update,
}
use software_transactional_m.Stm.Memory.{Memory}
use software_transactional_m.Stm.Types.{BloomFilter}

-- The two allocations are the caller's: `filter_fits` and `bits_fit` say whether they succeed.
unfoldable pub initialise_bloom_filter : Bool → Bool → ℕ → ℕ → Option BloomFilter
initialise_bloom_filter filter_fits bits_fit size num_hashes =
    if filter_fits
    then (if bits_fit
        then some (record { size = size; num_hashes = num_hashes % 2 ^ 32; bit_array = λ _. 0 })
        else none)
    else none

-- `hash + *address`, with the byte as a signed `char`
abbrev pub add_char : ℕ → ℕ → ℕ
add_char hash c = if ltb c 128 then (hash + c) % 2 ^ 32 else (hash + c + 2 ^ 32 - 256) % 2 ^ 32

-- The loop of `hashFunction` at an address below which `rest` bytes of mapped memory are left. It
-- faults when it runs off the end.
unfoldable pub hash_loop : Memory → (rest address hash : ℕ) → Option ℕ
hash_loop m zero address hash = none
hash_loop m (suc rest) address hash = elim (m.byte address == 0) [
  | true ↦ some hash
  | false ↦
      hash_loop m rest (address + 1)
        (add_char (((hash * 2 ^ 5) % 2 ^ 32 + hash) % 2 ^ 32) (m.byte address))
]

unfoldable pub hash_function : Memory → ℕ → ℕ → Option ℕ
unfolding hash_loop
hash_function m address seed = hash_loop m (m.limit - address) address ((42 + seed) % 2 ^ 32)

abbrev pub with_bit : BloomFilter → ℕ → BloomFilter
with_bit f h = record f {
  bit_array = update f.bit_array (h / 8) (bit_or (f.bit_array (h / 8)) (2 ^ (h % 8)));
}

abbrev pub has_bit : BloomFilter → ℕ → Bool
has_bit f h = if bit_and (f.bit_array (h / 8)) (2 ^ (h % 8)) == 0 then false else true

-- The rounds from `i` on, `n` of them.
unfoldable pub add_loop : Memory → ℕ → (n i : ℕ) → BloomFilter → Option BloomFilter
add_loop m address zero i f = some f
add_loop m address (suc n) i f = do
  hash ← hash_function m address i
  add_loop m address n (i + 1) (with_bit f (hash % f.size))

unfoldable pub add_to_bloom_filter : Memory → BloomFilter → ℕ → Option BloomFilter
unfolding add_loop
add_to_bloom_filter m f address = add_loop m address f.num_hashes 0 f

unfoldable pub is_in_loop : Memory → ℕ → (n i : ℕ) → BloomFilter → Option Bool
is_in_loop m address zero i f = some true
is_in_loop m address (suc n) i f = do
  hash ← hash_function m address i
  elim (has_bit f (hash % f.size)) [ true ↦ is_in_loop m address n (i + 1) f | false ↦ some false ]

unfoldable pub is_in_bloom_filter : Memory → BloomFilter → ℕ → Option Bool
unfolding is_in_loop
is_in_bloom_filter m f address = is_in_loop m address f.num_hashes 0 f
