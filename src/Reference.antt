-- ===== src/Reference.antt =====
-- reference/tm.c: the library with one lock for everything. The lock is POSIX's and an argument.
pub mod Segments
pub mod Library
pub mod Tests
use software_transactional_m.Prelude.{
  ℕ, zero, suc, ◌+◌, ◌-◌, ◌≡◌, Bool, true, false, Option, none, some, List, [], ◌∷◌, ltb, ◌==◌,
  if◌then◌else◌, ◌>>=◌, update, not,
}
use software_transactional_m.Stm.Memory.{Memory, load, store, zeroed, mapped}
use software_transactional_m.Stm.Alloc.{Alloc, success_alloc, nomem_alloc}

-- A segment's header, before its bytes; addresses, with 0 for NULL.
pub record ListNode : Type 0 where
  pub prev : ℕ
  pub next : ℕ

-- `nodes a` is the header at `a`, if one has been allocated there and not freed.
pub record Heap : Type 0 where
  pub memory : Memory
  pub nodes : ℕ → Option ListNode

pub record Region : Type 0 where
  pub start : ℕ
  pub allocs : ℕ
  pub size : ℕ
  pub align : ℕ

-- `sizeof(struct segment_node)`
abbrev pub header : ℕ
header = 16

-- `sn->prev = v` and `sn->next = v`: a fault where there is no header.
unfoldable pub set_prev : Heap → ℕ → ℕ → Option Heap
set_prev h a v = do
  n ← h.nodes a
  some (record h { nodes = update h.nodes a (some (record n { prev = v })) })

unfoldable pub set_next : Heap → ℕ → ℕ → Option Heap
set_next h a v = do
  n ← h.nodes a
  some (record h { nodes = update h.nodes a (some (record n { next = v })) })

unfoldable pub tm_read : Heap → ℕ → ℕ → Option (List ℕ)
tm_read h source size = load h.memory source size

unfoldable pub tm_write : Heap → List ℕ → ℕ → Option Heap
tm_write h source target = do m ← store h.memory target source; some (record h { memory = m })

-- A new header in front of the list, and the bytes behind it cleared.
unfoldable pub insert_segment : ℕ → Region → Heap → ℕ → Option (Alloc × ℕ × Region × Heap)
unfolding set_prev
insert_segment sn r h size = do
  let h₁ = record h { nodes = update h.nodes sn (some (record { prev = 0; next = r.allocs })) }
  h₂ ← if r.allocs == 0 then some h₁ else set_prev h₁ r.allocs sn
  some (
    success_alloc,
    sn + header,
    record r { allocs = sn },
    record h₂ { memory = zeroed h₂.memory (sn + header) size },
  )

-- `align < sizeof(struct segment_node*) ? sizeof(void*) : align`
abbrev pub segment_align : Region → ℕ
segment_align r = if ltb r.align 8 then 8 else r.align

-- `memalign` is `posix_memalign`: the block for an alignment and a size, if there is one.
unfoldable pub tm_alloc :
    (memalign : ℕ → ℕ → Option ℕ) → Region → Heap → ℕ → Option (Alloc × ℕ × Region × Heap)
unfolding insert_segment
tm_alloc memalign r h size = elim (memalign (segment_align r) (header + size)) [
  | none ↦ some (nomem_alloc, 0, r, h)
  | some sn ↦ insert_segment sn r h size
]

-- `if (sn->prev) sn->prev->next = sn->next; else allocs = sn->next`
unfoldable pub unlink_prev : Region → Heap → (prev next : ℕ) → Option (Region × Heap)
unfolding set_next
unlink_prev r h prev next =
    if prev == 0
    then some (record r { allocs = next }, h)
    else do h' ← set_next h prev next; some (r, h')

-- `if (sn->next) sn->next->prev = sn->prev`
unfoldable pub unlink_next : Heap → (prev next : ℕ) → Option Heap
unfolding set_prev
unlink_next h prev next = if next == 0 then some h else set_prev h next prev

unfoldable pub tm_free : Region → Heap → ℕ → Option (Region × Heap)
unfolding unlink_prev unlink_next
tm_free r h segment = do
  let sn = segment - header
  n ← h.nodes sn
  (r', h₁) ← unlink_prev r h n.prev n.next
  h₂ ← unlink_next h₁ n.prev n.next
  some (r', record h₂ { nodes = update h₂.nodes sn none })

-- The loop of `tm_destroy` that frees the segments, on fuel.
unfoldable pub free_segments : (fuel allocs : ℕ) → Heap → Option Heap
free_segments zero allocs h = if allocs == 0 then some h else none
free_segments (suc fuel) allocs h = elim (allocs == 0) [
  | true ↦ some h
  | false ↦ do
    n ← h.nodes allocs
    free_segments fuel n.next (record h { nodes = update h.nodes allocs none })
]
