-- ===== src/Stm/Tests/Threads.antt =====
-- Runs of the allocator and of threads on the small region.
use software_transactional_m.Prelude.{
  ℕ, ◌≡◌, refl, Bool, true, false, none, some, List, arith, ◌==◌, inl, inr, if◌then◌else◌,
  Bool-cases, subst,
}
use software_transactional_m.Stm.Memory.{Memory, bytes}
use software_transactional_m.Stm.Types.{SegmentNode, MemoryRegion, World, Transaction}
use software_transactional_m.Stm.Bloom.{initialise_bloom_filter}
use software_transactional_m.Stm.Bloom.Laws.{IsBytes}
use software_transactional_m.Stm.Locks.Publish.{address_of}
use software_transactional_m.Stm.Alloc.{Mallocs, AllocReply, tm_alloc, tm_create}
use software_transactional_m.Stm.Begin.{tm_begin}
use software_transactional_m.Stm.Read.{tm_read}
use software_transactional_m.Stm.Write.{tm_write}
use software_transactional_m.Stm.Commit.Cases.{IsReady}
use software_transactional_m.Stm.Snapshot.{Since-refl}
use software_transactional_m.Stm.Opacity.{IsRequest}
use software_transactional_m.Stm.Write.Keeps.{FilterBytes}
use software_transactional_m.Stm.Alloc.Fresh.{IsFresh}
use software_transactional_m.Stm.Fresh.{zeros, tm_alloc-usable, tm_create-Inv}
use software_transactional_m.Stm.Faults.{tm_alloc-dead}
use software_transactional_m.Stm.System.{System, Live, Inv, IsLive, Step, Reach, begins, here, next}
use software_transactional_m.Stm.System.Invariant.{Step-Inv}
use software_transactional_m.Stm.Alloc.{init_node, add_segment, success_alloc, tm_start}
use software_transactional_m.Stm.Tests.{
  region₀, memory₀, world₀, filter₀, reader₀, writer₀, laid_out₀, quiet₀, ready₀,
}

abbrev mallocs₀ : Mallocs
mallocs₀ = record { node_fits = true; start = some 2048; lock_bit_fits = true; versions_fit = true }

alloc_run :
    (r : AllocReply) × (tm_alloc mallocs₀ true 16 world₀ ≡ some r) × (r.status ≡ success_alloc)
unfolding tm_alloc init_node add_segment
alloc_run = (_, refl, refl)

fresh₀ : IsFresh mallocs₀ 16 world₀
fresh₀ = record { mapped = λ start e. ground arith; unused = λ start k e a. ground arith }

tm_alloc-usable_example :
    (target : ℕ) × (alloc_run.0.target ≡ some target)
    × (q : IsRequest alloc_run.0.world.region target 16) × (q.segment ≡ 2)
    × (q.word ≡ 0)
    × (bytes alloc_run.0.world.memory (address_of alloc_run.0.world.region q.segment q.word) 16
        ≡ zeros 16)
tm_alloc-usable_example =
    tm_alloc-usable mallocs₀ true world₀ 2 (omega arith) (omega arith) (omega arith) (omega arith)
      refl alloc_run.1 alloc_run.2

create_run :
    (r : MemoryRegion) × (m : Memory) × (tm_create true mallocs₀ true 16 8 memory₀
      ≡ some (some r, m))
unfolding tm_create init_node
create_run = (_, _, refl)

tm_create-Inv_example :
    Inv
      (record { world = record { memory = create_run.1; region = create_run.0 }; live = λ i. none })
    × (q : IsRequest create_run.0 (tm_start create_run.0) 16) × (q.segment ≡ 1)
    × (q.word ≡ 0)
    × (bytes create_run.1 (address_of create_run.0 q.segment q.word) 16 ≡ zeros 16)
tm_create-Inv_example =
    tm_create-Inv mallocs₀ true 2 8 memory₀ create_run.1 create_run.0 (omega arith) (omega arith)
      create_run.2

-- The list is full, and cannot grow.
abbrev full : World
full = record world₀ { region = record region₀ { max_size = 2 } }

lost_run : (r : AllocReply) × (tm_alloc mallocs₀ false 16 full ≡ some r)
unfolding tm_alloc init_node add_segment
lost_run = (_, refl)

made_run : (s : SegmentNode) × (m : Memory) × (init_node mallocs₀ 8 16 memory₀ ≡ some (some s, m))
unfolding init_node
made_run = (_, _, refl)

tm_alloc-dead_example :
    ((fits : ℕ → Bool) (t : Transaction) (source n : ℕ)
      → tm_read fits lost_run.0.world t source n ≡ none)
    × ((node_fits buffer_fits : ℕ → Bool) (t : Transaction) (source : List ℕ) (n target : ℕ)
        → tm_write node_fits buffer_fits lost_run.0.world t source n target ≡ none)
    × ((a' : Mallocs) (realloc_fits : Bool) (n : ℕ) (s' : SegmentNode) (m' : Memory)
        → init_node a' lost_run.0.world.region.align n lost_run.0.world.memory ≡ some (some s', m')
        → tm_alloc a' realloc_fits n lost_run.0.world ≡ none)
tm_alloc-dead_example = tm_alloc-dead mallocs₀ 16 full refl made_run.2 lost_run.1

begin_run : (t : Transaction) × (tm_begin true true false false region₀ ≡ some t)
unfolding tm_begin initialise_bloom_filter
begin_run = (_, refl)

-- One writer, which began in the world as it is.
abbrev system₀ : System
system₀ = record {
  world = world₀;
  live = λ i.
      if i == 0
      then some (record { tx = writer₀; began = world₀ })
      else (if i == 1 then some (record { tx = reader₀; began = world₀ }) else none);
}

reader-IsReady : IsReady world₀ reader₀
reader-IsReady = record { laid_out = laid_out₀; writes = tt; reads = tt }

same-IsLive : (l m : Live) → some l ≡ some m → IsLive world₀ l → IsLive world₀ m
same-IsLive l m e h = let same : l ≡ m = cc in subst (IsLive world₀) same h

bytes₀ : IsBytes filter₀
bytes₀ i = omega arith

only_filter : FilterBytes reader₀
only_filter f e = let same : filter₀ ≡ f = cc in subst IsBytes same bytes₀

live₀ : (i : ℕ) (l : Live) → system₀.live i ≡ some l → IsLive world₀ l
live₀ i l e = elim (Bool-cases (i == 0)) [
  | inl writer ↦
      same-IsLive (record { tx = writer₀; began = world₀ }) l (rw writer at e)
        (record { ready = ready₀; since = Since-refl world₀; sampled = refl; bytes = only_filter })
  | inr another ↦ elim (Bool-cases (i == 1)) [
    | inl reader ↦
        same-IsLive (record { tx = reader₀; began = world₀ }) l (rw (another, reader) at e)
          (record {
            ready = reader-IsReady;
            since = Since-refl world₀;
            sampled = refl;
            bytes = only_filter;
          })
    | inr nobody ↦ absurd (let gone : none ≡ some l = rw (another, nobody) at e in cc)
  ]
]

inv₀ : Inv system₀
inv₀ = record { quiet = quiet₀; small = omega arith; lives = live₀ }

begins₀ :
    (u : System) × Step system₀ u
    × (u.live 1 ≡ some (record { tx = reader₀; began = world₀ }))
    × (u.live 0 ≡ some (record { tx = writer₀; began = world₀ }))
    × (u.world ≡ world₀)
unfolding tm_begin initialise_bloom_filter
begins₀ = (_, begins 2 true true true refl refl, refl, refl, refl)

Step-Inv_example : Inv begins₀.0
Step-Inv_example = Step-Inv begins₀.1 inv₀

reached₀ : Reach system₀ begins₀.0
reached₀ = next here begins₀.1
