-- ===== src/Stm/Memory.antt =====
-- The bytes of the process that the library reads and writes by address, and `memcpy`, `memset`.
-- An access that ends above `limit` is a fault.
use software_transactional_m.Prelude.{
  ℕ, zero, suc, ◌+◌, ◌-◌, ◌<◌, ◌≤◌, ◌≡◌, refl, ap, Bool, ◌&&◌, ◌⊎◌, Option, none, some, List, [],
  ◌∷◌, ◌++◌, arith, leb, ltb, if◌then◌else◌, length, get_or, take, take-length,
}
use native.Mathlib.Nat.{zero-add}

pub record Memory : Type 0 where
  pub limit : ℕ
  pub byte : ℕ → ℕ

-- The `n` bytes from `a` on.
unfoldable pub bytes : Memory → ℕ → ℕ → List ℕ
bytes m a zero = []
bytes m a (suc n) = m.byte a ∷ bytes m (a + 1) n

abbrev pub mapped : Memory → ℕ → ℕ → Bool
mapped m a n = leb (a + n) m.limit

-- `memcpy(private, a, n)`
unfoldable pub load : Memory → ℕ → ℕ → Option (List ℕ)
load m a n = if mapped m a n then some (bytes m a n) else none

-- The memory after the bytes `bs` have been written from `a` on.
abbrev pub written : Memory → ℕ → List ℕ → Memory
written m a bs = record m {
  byte = λ j. if leb a j && ltb j (a + length bs) then get_or bs (j - a) 0 else m.byte j;
}

-- `memcpy(a, private, n)`
unfoldable pub store : Memory → ℕ → List ℕ → Option Memory
store m a bs = if mapped m a (length bs) then some (written m a bs) else none

-- `memset(a, 0, n)`
abbrev pub zeroed : Memory → ℕ → ℕ → Memory
zeroed m a n = record m { byte = λ j. if leb a j && ltb j (a + n) then 0 else m.byte j }

pub length-bytes : (m : Memory) (a n : ℕ) → length (bytes m a n) ≡ n
unfolding bytes
length-bytes m a zero = refl
length-bytes m a (suc n) = ap suc (length-bytes m (a + 1) n)

pub bytes-add : (m : Memory) (a n k : ℕ) → bytes m a (n + k) ≡ bytes m a n ++ bytes m (a + n) k
unfolding bytes
bytes-add m a zero k = let e : a + 0 ≡ a = omega arith in rw (e, zero-add)
bytes-add m a (suc n) k =
    let e : suc n + k ≡ suc (n + k) = omega arith in
    let e' : a + suc n ≡ a + 1 + n = omega arith in
    rw (e, e') (ap (λ l. m.byte a ∷ l) (bytes-add m (a + 1) n k))

-- Two memories that agree on a range have the same bytes there.
pub bytes_congr :
    (m m' : Memory) (a n : ℕ)
    → ((j : ℕ) → a ≤ j → j < a + n → m.byte j ≡ m'.byte j)
    → bytes m a n ≡ bytes m' a n
unfolding bytes
bytes_congr m m' a zero h = refl
bytes_congr m m' a (suc n) h = ground (
  arith,
  h a (omega arith) (omega arith),
  bytes_congr m m' (a + 1) n λ j p q. h j (omega arith) (omega arith),
)

-- A store is not seen outside its range.
pub bytes-written_apart :
    (m : Memory) (a : ℕ) (bs : List ℕ) (b n : ℕ)
    → (b + n ≤ a) ⊎ (a + length bs ≤ b)
    → bytes (written m a bs) b n ≡ bytes m b n
bytes-written_apart m a bs b n h = bytes_congr (written m a bs) m b n λ j p q. ground arith

bytes_shift :
    (m m' : Memory) (a b n : ℕ)
    → ((j : ℕ) → j < n → m.byte (a + j) ≡ m'.byte (b + j))
    → bytes m a n ≡ bytes m' b n
unfolding bytes
bytes_shift m m' a b zero h = refl
bytes_shift m m' a b (suc n) h = ground (
  arith,
  h 0 (omega arith),
  bytes_shift m m' (a + 1) (b + 1) n λ j p. ground (arith, h (suc j) (omega arith)),
)

bytes_of_list :
    (m : Memory) (a : ℕ) (bs : List ℕ)
    → ((j : ℕ) → j < length bs → m.byte (a + j) ≡ get_or bs j 0)
    → bytes m a (length bs) ≡ bs
unfolding bytes
bytes_of_list m a [] h = refl
bytes_of_list m a (b ∷ bs) h = ground (
  arith,
  h 0 (omega arith),
  bytes_of_list m (a + 1) bs λ j p. ground (arith, h (suc j) (omega arith)),
)

-- A store is read back.
pub bytes-written_self :
    (m : Memory) (a : ℕ) (bs : List ℕ) → bytes (written m a bs) a (length bs) ≡ bs
bytes-written_self m a bs = bytes_of_list (written m a bs) a bs λ j p. ground (arith)

-- The first `n` bytes of a private buffer that has been filled by `buffer`.
unfoldable pub read_buffer : List ℕ → ℕ → Option (List ℕ)
read_buffer buffer n = if leb n (length buffer) then some (take n buffer) else none

pub read_buffer-length : (buffer : List ℕ) → read_buffer buffer (length buffer) ≡ some buffer
unfolding read_buffer
read_buffer-length buffer = ground (arith, take-length buffer)
