-- ===== src/Stm/Types.antt =====
-- 353055/data_structures.h. A pointer to a segment is its index in `segments_list`; a linked list
-- of nodes is a list, and a pointer into it is the number of nodes from there to its end.
use software_transactional_m.Prelude.{
  ℕ, Bool, ◌&&◌, Option, none, some, List, leb, ltb, ◌==◌, if◌then◌else◌,
}
use software_transactional_m.Stm.Memory.{Memory}

pub record BloomFilter : Type 0 where
  pub size : ℕ
  pub num_hashes : ℕ
  pub bit_array : ℕ → ℕ

-- `prev` and `next` are NULL always.
pub record SegmentNode : Type 0 where
  pub size : ℕ
  pub segment_start : ℕ
  pub num_words : ℕ
  pub lock_bit : ℕ → Bool
  pub lock_version_number : ℕ → ℕ

pub record MemoryRegion : Type 0 where
  pub global_clock : ℕ
  pub start_segment : ℕ
  pub segments_list : ℕ → SegmentNode
  pub listed : Bool  -- `segments_list` is not NULL
  pub num_allocs : ℕ
  pub max_size : ℕ
  pub allocation_lock : Bool
  pub size : ℕ
  pub align : ℕ

-- `next` is the rest of the list. The nodes of the read set have no value.
pub record LlNode : Type 0 where
  pub word_num : ℕ
  pub location : ℕ
  pub value : List ℕ
  pub corresponding_segment : ℕ

-- `region` is the one region. `filter` is `none` where it is NULL.
pub record Transaction : Type 0 where
  pub is_ro : Bool
  pub rv : ℕ
  pub num_reads : ℕ
  pub read_addresses : List LlNode
  pub num_writes : ℕ
  pub write_addresses : List LlNode
  pub filter : Option BloomFilter

-- What the threads share: the region and the bytes that its segments lie in.
pub record World : Type 0 where
  pub memory : Memory
  pub region : MemoryRegion

-- The lock bits, or the versions, of all segments: by segment and word.
abbrev pub LockMap : Type 0
LockMap = ℕ → ℕ → Bool

abbrev pub locks : MemoryRegion → LockMap
locks r k w = (r.segments_list k).lock_bit w

abbrev pub versions : MemoryRegion → ℕ → ℕ → ℕ
versions r k w = (r.segments_list k).lock_version_number w

abbrev pub with_locks : MemoryRegion → LockMap → MemoryRegion
with_locks r f = record r { segments_list = λ k. record (r.segments_list k) { lock_bit = f k } }

abbrev pub with_versions : MemoryRegion → (ℕ → ℕ → ℕ) → MemoryRegion
with_versions r f = record r {
  segments_list = λ k. record (r.segments_list k) { lock_version_number = f k };
}

-- An array over segments and words, written at one place.
abbrev pub update₂ {ℓ} : {A : Type ℓ} → (ℕ → ℕ → A) → ℕ → ℕ → A → ℕ → ℕ → A
update₂ f k w v k' w' = if (k == k') && (w == w') then v else f k' w'

-- An access to the lock arrays of a segment: past their end it is a fault.
abbrev pub in_segment : MemoryRegion → ℕ → ℕ → Bool
in_segment r k w = ltb w (r.segments_list k).num_words

unfoldable pub lock_at : MemoryRegion → ℕ → ℕ → Option Bool
lock_at r k w = if in_segment r k w then some (locks r k w) else none

unfoldable pub version_at : MemoryRegion → ℕ → ℕ → Option ℕ
version_at r k w = if in_segment r k w then some (versions r k w) else none

unfoldable pub set_lock : MemoryRegion → ℕ → ℕ → Bool → Option MemoryRegion
set_lock r k w b = if in_segment r k w then some (with_locks r (update₂ (locks r) k w b)) else none

unfoldable pub set_version : MemoryRegion → ℕ → ℕ → ℕ → Option MemoryRegion
set_version r k w v =
    if in_segment r k w then some (with_versions r (update₂ (versions r) k w v)) else none

-- `region->segments_list[i]`: the array is not initialised at 0 and from `num_allocs` on, and NULL
-- after a `realloc` that failed.
unfoldable pub segment_at : MemoryRegion → ℕ → Option SegmentNode
segment_at r i =
    if r.listed && leb 1 i && ltb i r.num_allocs then some (r.segments_list i) else none
