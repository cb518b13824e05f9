-- ===== src/Stm/Opacity/OwnWrites.antt =====
-- A transaction's view of a word that it may have written, and its read set.
use software_transactional_m.Prelude.{
  ℕ, zero, suc, ◌+◌, ◌≤◌, ◌<◌, ◌≡◌, refl, Bool, true, false, ◌&&◌, Option, none, some, ◌==◌,
  if◌then◌else◌, List, [], ◌∷◌, ◌++◌, Bool-cases, inl, inr, All, ◌⊎◌,
}
use software_transactional_m.Stm.Memory.{bytes, read_buffer-length}
use software_transactional_m.Stm.Types.{World, Transaction, LlNode, BloomFilter}
use software_transactional_m.Stm.Bloom.{is_in_bloom_filter}
use software_transactional_m.Stm.Locks.{get_write_node}
use software_transactional_m.Stm.Locks.Acquire.{has}
use software_transactional_m.Stm.Locks.Publish.{Allocated, address_of, IsRead, IsWrite}
use software_transactional_m.Stm.Read.{read_word_rw}
use software_transactional_m.Stm.Snapshot.{IsQuiet}
use software_transactional_m.Stm.Opacity.{load-some}

-- The value of the first node of a list.
abbrev pub first_value : List LlNode → Option (List ℕ)
first_value [] = none
first_value (n ∷ ns) = some n.value

-- The transaction's own value for an address, where the filter `seen` lets it be found.
abbrev pub own_value : (seen : Bool) → List LlNode → ℕ → Option (List ℕ)
own_value seen ws a = if seen then first_value (get_write_node a ws) else none

abbrev pub value_or : Option (List ℕ) → List ℕ → List ℕ
value_or none d = d
value_or (some v) d = v

-- The filter's answer for an address is `b`.
abbrev pub Answered : World → Transaction → ℕ → Bool → Type 0
Answered w t a b =
    (f : BloomFilter) × (t.filter ≡ some f) × (is_in_bloom_filter w.memory f a ≡ some b)

pub get_write_node-first :
    (P : LlNode → Type 0) (a : ℕ) (ws : List LlNode)
    → All P ws
    → (get_write_node a ws ≡ [])
      ⊎ ((n : LlNode) × (rest : List LlNode) × (get_write_node a ws ≡ n ∷ rest) × P n)
unfolding get_write_node
get_write_node-first P a [] h = inl refl
get_write_node-first P a (n ∷ ns) h = elim (Bool-cases (n.location == a)) [
  | inl hit ↦ inr (n, ns, rw hit, h.0)
  | inr miss ↦ rw miss (get_write_node-first P a ns h.1)
]

-- One word: the own value if the filter lets it be found, else what the memory holds.
pub read_word_rw-lem :
    (w : World) (t : Transaction) (k x : ℕ) (seen : Bool)
    → IsQuiet w
    → Allocated w.region k
    → x < (w.region.segments_list k).num_words
    → All (IsWrite w.region) t.write_addresses
    → Answered w t (address_of w.region k x) seen
    → read_word_rw w t (address_of w.region k x)
      ≡ some (
          value_or
            (own_value seen t.write_addresses (address_of w.region k x))
            (bytes w.memory (address_of w.region k x) w.region.align))
unfolding read_word_rw
read_word_rw-lem w t k x false q a h ws (f, e, b) = rw (e, b) (load-some w q.laid_out k x a h)
read_word_rw-lem w t k x true q a h ws (f, e, b) =
    elim (get_write_node-first (IsWrite w.region) (address_of w.region k x) t.write_addresses ws) [
      | inl nothing ↦ rw (e, b, nothing) (load-some w q.laid_out k x a h)
      | inr (n, rest, found, is) ↦ rw (e, b, found, ← is.one_word) (read_buffer-length n.value)
    ]

-- The loop's allocations in the rounds from `i` on all succeed.
unfoldable pub all_fit : (ℕ → Bool) → (n i : ℕ) → Bool
all_fit fits zero i = true
all_fit fits (suc n) i = fits i && all_fit fits n (i + 1)

-- `n` words of segment `k` from `cur` on as a transaction with the write set `ws` sees them: its own
-- values over the bytes of `w₀`.
unfoldable pub seen_bytes : World → (ℕ → Bool) → List LlNode → (k n cur : ℕ) → List ℕ
seen_bytes w₀ seen ws k zero cur = []
seen_bytes w₀ seen ws k (suc n) cur =
    value_or (own_value (seen cur) ws (address_of w₀.region k cur))
      (bytes w₀.memory (address_of w₀.region k cur) w₀.region.align)
    ++ seen_bytes w₀ seen ws k n (cur + 1)

abbrev pub with_reads : Transaction → List LlNode → Transaction
with_reads t reads = record t { read_addresses = reads }

-- The words of a range are in the read set, with all that was there.
pub record Logged (w : World) (k n cur : ℕ) (before reads : List LlNode) : Type 0 where
  pub all_reads : All (IsRead w.region) reads
  pub range : (x : ℕ) → cur ≤ x → x < cur + n → has k x reads ≡ true
  pub kept : (j y : ℕ) → has j y before ≡ true → has j y reads ≡ true
