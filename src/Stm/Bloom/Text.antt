-- ===== src/Stm/Bloom/Text.antt =====
-- What the filter's answer depends on.
use software_transactional_m.Prelude.{
  ℕ, zero, suc, ◌+◌, ◌-◌, ◌*◌, ◌%◌, ◌^◌, ◌<◌, ◌≡◌, refl, Bool, true, false, Option, some, arith,
  Option-cases, inl, inr, ap,
}
use software_transactional_m.Stm.Memory.{Memory}
use software_transactional_m.Stm.Types.{BloomFilter}
use software_transactional_m.Stm.Bloom.{
  hash_loop, hash_function, has_bit, is_in_loop, is_in_bloom_filter, add_char,
}

-- Two addresses with the same text, zero byte included, hash alike.
hash_loop_congr :
    (m m' : Memory) (d rest rest' a a' h : ℕ)
    → d < rest
    → d < rest'
    → ((j : ℕ) → j < suc d → m.byte (a + j) ≡ m'.byte (a' + j))
    → m.byte (a + d) ≡ 0
    → hash_loop m rest a h ≡ hash_loop m' rest' a' h
unfolding hash_loop
hash_loop_congr m m' d zero rest' a a' h p q same nul = absurd (omega arith)
hash_loop_congr m m' d (suc rest) zero a a' h p q same nul = absurd (omega arith)
hash_loop_congr m m' zero (suc rest) (suc rest') a a' h p q same nul =
    ground (arith, same 0 (omega arith))
hash_loop_congr m m' (suc d) (suc rest) (suc rest') a a' h p q same nul = ground (
  arith,
  same 0 (omega arith),
  hash_loop_congr m m' d rest rest' (a + 1) (a' + 1)
      (add_char (((h * 2 ^ 5) % 2 ^ 32 + h) % 2 ^ 32) (m.byte a)) (omega arith) (omega arith)
      (λ j l. ground (arith, same (suc j) (omega arith))),
)

-- The same text stands at `a` in `m` and at `a'` in `m'`: `d` bytes and a zero byte.
pub record SameText (m m' : Memory) (a a' : ℕ) : Type 0 where
  pub d : ℕ
  pub inside : a + d < m.limit
  pub inside' : a' + d < m'.limit
  pub same : (j : ℕ) → j < suc d → m.byte (a + j) ≡ m'.byte (a' + j)
  pub ends : m.byte (a + d) ≡ 0

hash_function_congr :
    (m m' : Memory) (a a' seed : ℕ)
    → SameText m m' a a'
    → hash_function m a seed ≡ hash_function m' a' seed
unfolding hash_function
hash_function_congr m m' a a' seed s =
    hash_loop_congr m m' s.d (m.limit - a) (m'.limit - a') a a' ((42 + seed) % 2 ^ 32)
      (omega (arith, s.inside)) (omega (arith, s.inside')) s.same s.ends

is_in_loop_congr :
    (m m' : Memory) (a a' n i : ℕ) (f : BloomFilter)
    → SameText m m' a a'
    → is_in_loop m a n i f ≡ is_in_loop m' a' n i f
unfolding is_in_loop
is_in_loop_congr m m' a a' zero i f s = refl
is_in_loop_congr m m' a a' (suc n) i f s =
    let alike = hash_function_congr m m' a a' i s in
    elim (Option-cases (hash_function m' a' i)) [
      | inl faults ↦ rw (alike, faults)
      | inr (h, hashed) ↦
          rw (alike, hashed)
            (ap
              (λ (o : Option Bool). elim (has_bit f (h % f.size)) as (λ x. Option Bool) [
                | true ↦ o
                | false ↦ some false
              ])
              (is_in_loop_congr m m' a a' n (i + 1) f s))
    ]

-- The filter does not know addresses. Of two addresses that hold the same text up to a zero byte,
-- in the same memory or in two, it says the same.
pub is_in_bloom_filter-SameText :
    (m m' : Memory) (f : BloomFilter) (a a' : ℕ)
    → SameText m m' a a'
    → is_in_bloom_filter m f a ≡ is_in_bloom_filter m' f a'
unfolding is_in_bloom_filter
is_in_bloom_filter-SameText m m' f a a' s = is_in_loop_congr m m' a a' f.num_hashes 0 f s
