-- ===== src/Stm/Alloc.antt =====
-- The segments of 353055/tm.c and helper_functions.h: `initNode`, `tm_create`, `tm_alloc` and the
-- queries. What the allocator of the C library answers is an argument.
pub mod Fresh
use software_transactional_m.Prelude.{
  ℕ, ◌+◌, ◌*◌, ◌/◌, ◌%◌, ◌^◌, Bool, true, false, Option, none, some, ltb, ◌==◌, if◌then◌else◌,
  ◌>>=◌, assert, not, ◌&&◌, update,
}
use software_transactional_m.Stm.Memory.{Memory, mapped, zeroed}
use software_transactional_m.Stm.Types.{SegmentNode, MemoryRegion, Transaction, World}

-- The answers to one `initNode`: whether each `malloc` succeeds, and what `posix_memalign` gives.
pub record Mallocs : Type 0 where
  pub node_fits : Bool
  pub start : Option ℕ
  pub lock_bit_fits : Bool
  pub versions_fit : Bool

-- An entry of `segments_list` that has not been set.
abbrev pub blank : SegmentNode
blank = record {
  size = 0;
  segment_start = 0;
  num_words = 0;
  lock_bit = λ _. false;
  lock_version_number = λ _. 0;
}

-- Where an array of locks or versions cannot be had, the node is freed before it is read again.
unfoldable pub init_node :
    Mallocs → (align size : ℕ) → Memory → Option (Option SegmentNode × Memory)
init_node a align size m = if not a.node_fits then some (none, m) else elim a.start [
  | none ↦ some (none, m)
  | some start ↦ do
    done ← assert (mapped m start size)
    divisible ← assert (not (align == 0))
    kept ← assert a.lock_bit_fits
    kept' ← assert a.versions_fit
    some (
      some (record {
        size = size;
        segment_start = start;
        num_words = (size / align) % 2 ^ 32;
        lock_bit = λ _. false;
        lock_version_number = λ _. 0;
      }),
      zeroed m start size,
    )
]

-- `none` for the region is `invalid_shared`.
unfoldable pub tm_create :
    (region_fits : Bool)
    → Mallocs
    → (list_fits : Bool) → (size align : ℕ) → Memory
    → Option (Option MemoryRegion × Memory)
tm_create region_fits a list_fits size align m = if not region_fits then some (none, m) else do
  (first, m') ← init_node a align size m
  elim first [
    | none ↦ some (none, m')
    | some first_segment ↦
        if not list_fits
        then some (none, m')
        else some (
          some (record {
            global_clock = 0;
            start_segment = first_segment.segment_start;
            segments_list = update (λ _. blank) 1 first_segment;
            listed = true;
            num_allocs = 2;
            max_size = 1000;
            allocation_lock = false;
            size = size;
            align = align;
          }),
          m',
        )
  ]

-- `(void*)(1ll << 48)`
unfoldable pub tm_start : MemoryRegion → ℕ
tm_start shared = 2 ^ 48

unfoldable pub tm_size : MemoryRegion → ℕ
tm_size shared = shared.size

unfoldable pub tm_align : MemoryRegion → ℕ
tm_align shared = shared.align

pub data Alloc : Type 0 where
  success_alloc abort_alloc nomem_alloc : Alloc

-- `target` is `none` where the call does not set it.
pub record AllocReply : Type 0 where
  pub status : Alloc
  pub target : Option ℕ
  pub world : World

-- With the mutex held. When `realloc` fails the list is lost and the mutex stays locked.
unfoldable pub add_segment : (realloc_fits : Bool) → SegmentNode → World → AllocReply
add_segment realloc_fits s_node w =
    let s_no = w.region.num_allocs in
    let full = w.region.max_size == w.region.num_allocs in
    let max_size = if full then 2 * w.region.max_size else w.region.max_size in
    if full && not realloc_fits
    then record {
      status = nomem_alloc;
      target = none;
      world = record w {
        region = record w.region { max_size = max_size; listed = false; allocation_lock = true };
      };
    }
    else record {
      status = success_alloc;
      target = some ((s_no * 2 ^ 48) % 2 ^ 64);
      world = record w {
        region = record w.region {
          max_size = max_size;
          segments_list = update w.region.segments_list s_no s_node;
          num_allocs = s_no + 1;
          allocation_lock = false;
        };
      };
    }

-- A call that waits for a mutex which nobody will unlock does not return: `none`.
unfoldable pub tm_alloc : Mallocs → (realloc_fits : Bool) → ℕ → World → Option AllocReply
unfolding add_segment init_node
tm_alloc a realloc_fits size w = do
  (s_node, m) ← init_node a w.region.align size w.memory
  let w' = record w { memory = m }
  elim s_node [
    | none ↦ some (record { status = nomem_alloc; target = none; world = w' })
    | some s ↦ do
      locked ← assert (not w.region.allocation_lock)
      some (add_segment realloc_fits s w')
  ]

unfoldable pub tm_free : World → ℕ → Bool × World
tm_free w target = (true, w)
