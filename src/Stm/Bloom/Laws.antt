-- ===== src/Stm/Bloom/Laws.antt =====
-- What the Bloom filter promises while the memory stays as it is.
use software_transactional_m.Prelude.{
  ℕ, zero, suc, ◌+◌, ◌/◌, ◌%◌, ◌<◌, ◌≡◌, refl, true, false, Option, some, List, [], ◌∷◌, arith,
  ◌==◌, ◌>>=◌, bind-some, All, Bool-cases, inl, inr, ◌∙◌, subst, ==_refl,
}
use software_transactional_m.Stm.Memory.{Memory}
use software_transactional_m.Stm.Types.{BloomFilter}
use software_transactional_m.Stm.Bloom.{
  hash_function, with_bit, has_bit, add_loop, add_to_bloom_filter, is_in_loop, is_in_bloom_filter,
  initialise_bloom_filter,
}
use software_transactional_m.Stm.Bloom.Bits.{bit_or-lt, bit_or_self, bit_or_keeps}

-- Every cell of the bit array is a byte.
abbrev pub IsBytes : BloomFilter → Type 0
IsBytes f = (i : ℕ) → f.bit_array i < 256

-- Every bit of `f` is one of `g`.
pub record Below (f g : BloomFilter) : Type 0 where
  pub same_size : f.size ≡ g.size
  pub same_hashes : f.num_hashes ≡ g.num_hashes
  pub kept : (h : ℕ) → has_bit f h ≡ true → has_bit g h ≡ true
  pub bytes : IsBytes g

with_bit-IsBytes : (f : BloomFilter) (h : ℕ) → IsBytes f → IsBytes (with_bit f h)
with_bit-IsBytes f h b i =
    ground (arith, b i, bit_or-lt (f.bit_array (h / 8)) (h % 8) (b (h / 8)) (omega arith))

has_bit-with_bit : (f : BloomFilter) (h : ℕ) → IsBytes f → has_bit (with_bit f h) h ≡ true
has_bit-with_bit f h b =
    rw (==_refl (h / 8), bit_or_self (f.bit_array (h / 8)) (h % 8) (b (h / 8)) (omega arith))

with_bit_kept :
    (f : BloomFilter) (g h : ℕ) → IsBytes f → has_bit f h ≡ true → has_bit (with_bit f g) h ≡ true
with_bit_kept f g h b e = elim (Bool-cases (g / 8 == h / 8)) [
  | inl same ↦ ground (
    arith,
    bit_or_keeps (f.bit_array (g / 8)) (g % 8) (h % 8) (b (g / 8)) (omega arith) (omega arith),
  )
  | inr other ↦ rw other e
]

with_bit-Below : (f : BloomFilter) (h : ℕ) → IsBytes f → Below f (with_bit f h)
with_bit-Below f h b = record {
  same_size = refl;
  same_hashes = refl;
  kept = λ g e. with_bit_kept f h g b e;
  bytes = with_bit-IsBytes f h b;
}

Below-trans : {f g k : BloomFilter} → Below f g → Below g k → Below f k
Below-trans p q = record {
  same_size = p.same_size ∙ q.same_size;
  same_hashes = p.same_hashes ∙ q.same_hashes;
  kept = λ h e. q.kept h (p.kept h e);
  bytes = q.bytes;
}

-- The bits of an address for the seeds from `i` on, `n` of them, are set.
abbrev IsSetFrom : Memory → ℕ → (n i : ℕ) → BloomFilter → Type 0
IsSetFrom m a zero i f = Unit
IsSetFrom m a (suc n) i f =
    ((h : ℕ) × (hash_function m a i ≡ some h) × (has_bit f (h % f.size) ≡ true))
    × IsSetFrom m a n (i + 1) f

is_in_loop-true :
    (m : Memory) (a n i : ℕ) (f : BloomFilter)
    → IsSetFrom m a n i f
    → is_in_loop m a n i f ≡ some true
unfolding is_in_loop
is_in_loop-true m a zero i f s = refl
is_in_loop-true m a (suc n) i f ((h, e, b), s) =
    rw e (ground (arith, b, is_in_loop-true m a n (i + 1) f s))

true-is_in_loop :
    (m : Memory) (a n i : ℕ) (f : BloomFilter)
    → is_in_loop m a n i f ≡ some true
    → IsSetFrom m a n i f
unfolding is_in_loop
true-is_in_loop m a zero i f e = tt
true-is_in_loop m a (suc n) i f e =
    let (h, hashed, next) = bind-some (hash_function m a i) _ e in
    elim (Bool-cases (has_bit f (h % f.size))) [
      | inl set ↦ ((h, hashed, set), true-is_in_loop m a n (i + 1) f (rw set at next))
      | inr clear ↦ absurd (let no_bit : some false ≡ some true = rw clear at next in cc)
    ]

IsSetFrom-mono :
    (m : Memory) (a n i : ℕ) {f g : BloomFilter}
    → Below f g
    → IsSetFrom m a n i f
    → IsSetFrom m a n i g
IsSetFrom-mono m a zero i le s = tt
IsSetFrom-mono m a (suc n) i {g} le ((h, e, b), s) = (
  (h, e, subst (λ k. has_bit g (h % k) ≡ true) le.same_size (le.kept _ b)),
  IsSetFrom-mono m a n (i + 1) le s,
)

add_loop_lem :
    (m : Memory) (a n i : ℕ) (f g : BloomFilter)
    → IsBytes f
    → add_loop m a n i f ≡ some g
    → IsSetFrom m a n i g × Below f g
unfolding add_loop
add_loop_lem m a zero i f g b e = (
  tt,
  subst (Below f) (ground arith)
      (record { same_size = refl; same_hashes = refl; kept = λ h p. p; bytes = b }),
)
add_loop_lem m a (suc n) i f g b e =
    let (h, hashed, next) = bind-some (hash_function m a i) _ e in
    let f' = with_bit f (h % f.size) in
    let (set, below) = add_loop_lem m a n (i + 1) f' g (with_bit-IsBytes f (h % f.size) b) next in
    (
      (
        (
          h,
          hashed,
          subst (λ k. has_bit g (h % k) ≡ true) below.same_size
              (below.kept _ (has_bit-with_bit f (h % f.size) b)),
        ),
        set,
      ),
      Below-trans (with_bit-Below f (h % f.size) b) below,
    )

is_in_mono :
    (m : Memory) (a : ℕ) {f g : BloomFilter}
    → Below f g
    → is_in_bloom_filter m f a ≡ some true
    → is_in_bloom_filter m g a ≡ some true
unfolding is_in_bloom_filter
is_in_mono m a {f} {g} le e =
    subst (λ n. is_in_loop m a n 0 g ≡ some true) le.same_hashes
      (is_in_loop-true m a f.num_hashes 0 g
        (IsSetFrom-mono m a f.num_hashes 0 le (true-is_in_loop m a f.num_hashes 0 f e)))

-- Adding an address that can be hashed makes the filter answer yes for it, and for all addresses
-- for which it did so before.
pub add_to_bloom_filter_lem :
    (m : Memory) (f g : BloomFilter) (a : ℕ)
    → IsBytes f
    → add_to_bloom_filter m f a ≡ some g
    → (is_in_bloom_filter m g a ≡ some true) × Below f g
unfolding add_to_bloom_filter is_in_bloom_filter
add_to_bloom_filter_lem m f g a b e =
    let (set, below) = add_loop_lem m a f.num_hashes 0 f g b e in
    (
      subst (λ n. is_in_loop m a n 0 g ≡ some true) below.same_hashes
          (is_in_loop-true m a f.num_hashes 0 g set),
      below,
    )

-- Several addresses added one after the other.
abbrev pub add_all : Memory → BloomFilter → List ℕ → Option BloomFilter
add_all m f [] = some f
add_all m f (a ∷ addresses) = do g ← add_to_bloom_filter m f a; add_all m g addresses

add_all-Below :
    (m : Memory) (f g : BloomFilter) (addresses : List ℕ)
    → IsBytes f
    → add_all m f addresses ≡ some g
    → All (λ a. is_in_bloom_filter m g a ≡ some true) addresses × Below f g
add_all-Below m f g [] b e = (
  tt,
  subst (Below f) (ground arith)
      (record { same_size = refl; same_hashes = refl; kept = λ h p. p; bytes = b }),
)
add_all-Below m f g (a ∷ addresses) b e =
    let (f', added, next) = bind-some (add_to_bloom_filter m f a) _ e in
    let (seen, below) = add_to_bloom_filter_lem m f f' a b added in
    let (rest, above) = add_all-Below m f' g addresses below.bytes next in
    ((is_in_mono m a above seen, rest), Below-trans below above)

-- No false negatives: with the memory as it is, the filter answers yes for every address that has
-- been added to it, whatever was added before and after.
pub add_all-is_in :
    (m : Memory) (f g : BloomFilter) (addresses : List ℕ)
    → IsBytes f
    → add_all m f addresses ≡ some g
    → All (λ a. is_in_bloom_filter m g a ≡ some true) addresses
add_all-is_in m f g addresses b e = (add_all-Below m f g addresses b e).0

-- The fresh filter is well formed.
pub initialise-IsBytes :
    (size num_hashes : ℕ) (f : BloomFilter)
    → initialise_bloom_filter true true size num_hashes ≡ some f
    → IsBytes f
unfolding initialise_bloom_filter
initialise-IsBytes size num_hashes f e i = ground arith

-- The bits lie in the array that is allocated for them.
pub bit_in_array : (h size : ℕ) → 0 < size → h % size / 8 < (size + 7) / 8
bit_in_array h size p = omega (arith)
