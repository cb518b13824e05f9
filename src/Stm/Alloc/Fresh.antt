-- ===== src/Stm/Alloc/Fresh.antt =====
-- `tm_alloc` adds a segment and leaves the others alone, given that the allocator hands out memory
-- that is not in use.
use software_transactional_m.Prelude.{
  ℕ, ◌+◌, ◌*◌, ◌/◌, ◌%◌, ◌^◌, ◌≤◌, ◌<◌, ◌≡◌, refl, sym, ◌∙◌, Bool, true, false, not, ◌&&◌, Option,
  none, some, arith, ◌==◌, ◌⊎◌, inl, inr, if◌then◌else◌, Option-cases, update, bind-some,
  Bool-cases, subst,
}
use native.Mathlib.Nat.{div-add-mod}
use software_transactional_m.Stm.Memory.{Memory, bytes, zeroed, bytes_congr}
use software_transactional_m.Stm.Types.{SegmentNode, World, versions}
use software_transactional_m.Stm.Locks.Publish.{Allocated, address_of, IsLaidOut, word_end-le}
use software_transactional_m.Stm.Alloc.{
  Mallocs, init_node, add_segment, tm_alloc, AllocReply, success_alloc, nomem_alloc,
}
use software_transactional_m.Stm.Snapshot.{IsQuiet, Since}

-- What `posix_memalign` promises: the block is mapped and meets no live block.
pub record IsFresh (a : Mallocs) (size : ℕ) (w : World) : Type 0 where
  pub mapped : (start : ℕ) → a.start ≡ some start → start + size ≤ w.memory.limit
  pub unused :
      (start k : ℕ)
      → a.start ≡ some start
      → Allocated w.region k
      → (start + size ≤ (w.region.segments_list k).segment_start)
        ⊎ ((w.region.segments_list k).segment_start
              + (w.region.segments_list k).num_words * w.region.align
            ≤ start)

abbrev pub new_node : (align size start : ℕ) → SegmentNode
new_node align size start = record {
  size = size;
  segment_start = start;
  num_words = (size / align) % 2 ^ 32;
  lock_bit = λ _. false;
  lock_version_number = λ _. 0;
}

-- A segment was made, in memory that has been cleared.
pub record Made (a : Mallocs) (align size : ℕ) (m : Memory) (r : Option SegmentNode × Memory)
    : Type 0 where
  pub start : ℕ
  pub given : a.start ≡ some start
  pub node : r.0 ≡ some (new_node align size start)
  pub cleared : r.1 ≡ zeroed m start size
  pub within : start + size ≤ m.limit

pub init_node-cases :
    (a : Mallocs) (align size : ℕ) (m : Memory) {r : Option SegmentNode × Memory}
    → init_node a align size m ≡ some r
    → (r ≡ (none, m)) ⊎ Made a align size m r
unfolding init_node
init_node-cases a align size m e = elim (Option-cases a.start) [
  | inl nothing ↦ inl (ground (arith))
  | inr (start, given) ↦ elim (Bool-cases a.node_fits) [
    | inl fits ↦ inr (record {
      start = start;
      given = given;
      node = ground arith;
      cleared = ground arith;
      within = ground arith;
    })
    | inr fails ↦ inl (ground arith)
  ]
]

mul-le : (q p a : ℕ) → q ≤ p → q * a ≤ p * a
mul-le q p a h = grind arith

words-le : (size align : ℕ) → (size / align) % 2 ^ 32 * align ≤ size
words-le size align = omega (
  arith,
  mul-le ((size / align) % 2 ^ 32) (size / align) align (omega arith),
  div-add-mod size align,
)

-- The world with the new segment in the list.
abbrev pub extended : World → (size start max_size : ℕ) → World
extended w size start max_size = record w {
  memory = zeroed w.memory start size;
  region = record w.region {
    max_size = max_size;
    segments_list =
        update w.region.segments_list w.region.num_allocs (new_node w.region.align size start);
    num_allocs = w.region.num_allocs + 1;
    allocation_lock = false;
  };
}

module _ (a : Mallocs) (size : ℕ) (w : World) (q : IsQuiet w) (fresh : IsFresh a size w) (start : ℕ)
    (given : a.start ≡ some start) where
  open (q.laid_out) use {inside, small, apart}

  extended-IsLaidOut :
      (max_size : ℕ) → IsLaidOut w.memory.limit (extended w size start max_size).region
  extended-IsLaidOut max_size = record {
    align_pos = q.laid_out.align_pos;
    inside =
        λ k al. ground (arith, inside k, fresh.mapped start given, words-le size w.region.align);
    small = λ k al. ground (arith, small k);
    apart = λ k j ak aj ne. ground (
      arith,
      apart k j,
      fresh.unused start k given,
      fresh.unused start j given,
      words-le size w.region.align,
    );
  }

  extended-IsQuiet : (max_size : ℕ) → IsQuiet (extended w size start max_size)
  extended-IsQuiet max_size = record {
    laid_out = extended-IsLaidOut max_size;
    unlocked = λ k x. ground (arith, q.unlocked k x);
    not_newer = λ k x. ground (arith, q.not_newer k x);
  }

  cleared_apart :
      (k x : ℕ)
      → Allocated w.region k
      → x < (w.region.segments_list k).num_words
      → bytes (zeroed w.memory start size) (address_of w.region k x) w.region.align
        ≡ bytes w.memory (address_of w.region k x) w.region.align
  cleared_apart k x al i =
      bytes_congr (zeroed w.memory start size) w.memory (address_of w.region k x) w.region.align
        λ j p p'. ground (
          arith,
          fresh.unused start k given al,
          word_end-le x (w.region.segments_list k).num_words w.region.align i,
        )

  module _ (w₀ : World) (s : Since w₀ w) where
    cleared-unchanged :
        (k x : ℕ)
        → Allocated w₀.region k
        → x < (w₀.region.segments_list k).num_words
        → versions w.region k x ≤ w₀.region.global_clock
        → bytes (zeroed w.memory start size) (address_of w₀.region k x) w₀.region.align
          ≡ bytes w₀.memory (address_of w₀.region k x) w₀.region.align
    cleared-unchanged k x al i v =
        subst
          (λ b.
            bytes (zeroed w.memory start size) (b + x * w₀.region.align) w₀.region.align
            ≡ bytes w.memory (b + x * w₀.region.align) w₀.region.align)
          (s.same_start k al)
          (subst
            (λ n.
              bytes (zeroed w.memory start size) ((w.region.segments_list k).segment_start + x * n)
                n
              ≡ bytes w.memory ((w.region.segments_list k).segment_start + x * n) n)
            s.same_align
            (cleared_apart k x (omega (arith, al, s.more_allocs))
              (omega (arith, s.same_words k al))))
        ∙ s.unchanged k x al i v

    extended-Since : (max_size : ℕ) → Since w₀ (extended w size start max_size)
    extended-Since max_size = record {
      same_limit = s.same_limit;
      same_align = s.same_align;
      more_allocs = omega (arith, s.more_allocs);
      later = s.later;
      same_start = λ k al. ground (arith, s.same_start k al, s.more_allocs);
      same_words = λ k al. ground (arith, s.same_words k al, s.more_allocs);
      unchanged = λ k x al i v. cleared-unchanged k x al i (ground (arith, s.more_allocs));
    }

    -- The list is lost, and nothing else.
    lost-Since :
        (max_size : ℕ)
        → Since w₀ (record w {
          memory = zeroed w.memory start size;
          region = record w.region { max_size = max_size; listed = false; allocation_lock = true };
        })
    lost-Since max_size = record {
      same_limit = s.same_limit;
      same_align = s.same_align;
      more_allocs = s.more_allocs;
      later = s.later;
      same_start = s.same_start;
      same_words = s.same_words;
      unchanged = cleared-unchanged;
    }

  lost-IsQuiet :
      (max_size : ℕ)
      → IsQuiet (record w {
        memory = zeroed w.memory start size;
        region = record w.region { max_size = max_size; listed = false; allocation_lock = true };
      })
  lost-IsQuiet max_size = record {
    laid_out = record {
      align_pos = q.laid_out.align_pos;
      inside = inside;
      small = small;
      apart = apart;
    };
    unlocked = q.unlocked;
    not_newer = q.not_newer;
  }

-- What a call of `tm_alloc` can leave.
pub data Left (a : Mallocs) (size : ℕ) (w : World) (r : AllocReply) : Type 0 where
  as_before : r.status ≡ nomem_alloc → r.world ≡ w → Left a size w r
  added :
      (start max_size : ℕ)
      → a.start ≡ some start
      → r ≡ record {
        status = success_alloc;
        target = some ((w.region.num_allocs * 2 ^ 48) % 2 ^ 64);
        world = extended w size start max_size;
      }
      → Left a size w r
  list_lost :
      (start max_size : ℕ)
      → a.start ≡ some start
      → r.status ≡ nomem_alloc
      → r.world ≡ record w {
        memory = zeroed w.memory start size;
        region = record w.region { max_size = max_size; listed = false; allocation_lock = true };
      }
      → Left a size w r

abbrev grown : World → ℕ
grown w =
    if w.region.max_size == w.region.num_allocs then 2 * w.region.max_size else w.region.max_size

made-Left :
    (a : Mallocs) (realloc_fits : Bool) (size : ℕ) (w : World) (start : ℕ) (m : Memory)
    (s_node : SegmentNode) {r : AllocReply}
    → a.start ≡ some start
    → m ≡ zeroed w.memory start size
    → s_node ≡ new_node w.region.align size start
    → r ≡ add_segment realloc_fits s_node (record w { memory = m })
    → Left a size w r
unfolding add_segment
made-Left a realloc_fits size w start m s_node given cleared made e =
    elim (Bool-cases ((w.region.max_size == w.region.num_allocs) && not realloc_fits)) [
      | inl lost ↦ list_lost start (grown w) given (ground arith) (ground arith)
      | inr room ↦ added start (grown w) given (ground arith)
    ]

pub tm_alloc-Left :
    (a : Mallocs) (realloc_fits : Bool) (size : ℕ) (w : World) {r : AllocReply}
    → tm_alloc a realloc_fits size w ≡ some r
    → Left a size w r
unfolding tm_alloc
tm_alloc-Left a realloc_fits size w e =
    let ((s_node, m), inited, next) = bind-some (init_node a w.region.align size w.memory) _ e in
    elim (init_node-cases a w.region.align size w.memory inited) [
      | inl nothing ↦ as_before (ground arith) (ground arith)
      | inr made ↦
          made-Left a realloc_fits size w made.start m (new_node w.region.align size made.start)
            made.given made.cleared refl (ground (arith, made.node))
    ]

-- `tm_alloc` leaves a quiet world and keeps what the transactions may still find, whatever fails.
pub tm_alloc-keeps :
    (a : Mallocs) (realloc_fits : Bool) (size : ℕ) (w : World) {r : AllocReply}
    → IsQuiet w
    → IsFresh a size w
    → tm_alloc a realloc_fits size w ≡ some r
    → IsQuiet r.world
      × ((w₀ : World) → Since w₀ w → Since w₀ r.world)
      × (r.world.region.global_clock ≡ w.region.global_clock)
tm_alloc-keeps a realloc_fits size w {r} q fresh e = keeps (tm_alloc-Left a realloc_fits size w e)
  where
    Keeps : World → Type 0
    Keeps u =
        IsQuiet u
        × ((w₀ : World) → Since w₀ w → Since w₀ u)
        × (u.region.global_clock ≡ w.region.global_clock)

    keeps : Left a size w r → Keeps r.world
    keeps (as_before _ e') = subst Keeps (sym e') (q, λ w₀ s. s, refl)
    keeps (added start max_size given e') =
        subst (λ (u : AllocReply). Keeps u.world) (sym e')
          (
            extended-IsQuiet a size w q fresh start given max_size,
            λ w₀ s. extended-Since a size w q fresh start given w₀ s max_size,
            refl,
          )
    keeps (list_lost start max_size given _ e') = subst Keeps (sym e') (
      lost-IsQuiet a size w q fresh start given max_size,
      λ w₀ s. lost-Since a size w q fresh start given w₀ s max_size,
      refl,
    )
