-- ===== src/Stm/Fresh.antt =====
-- New segments: what `tm_create` and `tm_alloc` hand out can be used.
use software_transactional_m.Prelude.{
  ℕ, zero, suc, ◌+◌, ◌*◌, ◌/◌, ◌%◌, ◌^◌, ◌≤◌, ◌<◌, ◌≡◌, refl, sym, ap, ◌∙◌, Bool, true, false,
  Option, none, some, List, [], ◌∷◌, arith, inl, inr, bind-some, Bool-cases, subst, update,
}
use software_transactional_m.Stm.Memory.{Memory, bytes, zeroed}
use software_transactional_m.Stm.Types.{MemoryRegion, SegmentNode, World}
use software_transactional_m.Stm.Locks.Publish.{address_of}
use software_transactional_m.Stm.Alloc.{
  blank, Mallocs, AllocReply, success_alloc, nomem_alloc, tm_alloc, tm_create, tm_start, init_node,
}
use software_transactional_m.Stm.Alloc.Fresh.{
  Left, as_before, added, list_lost, tm_alloc-Left, new_node, init_node-cases,
}
use software_transactional_m.Stm.Opacity.{IsRequest}
use software_transactional_m.Stm.System.{Inv}

-- `n` bytes of zero.
pub zeros : ℕ → List ℕ
zeros zero = []
zeros (suc n) = 0 ∷ zeros n

bytes-zeros :
    (m : Memory) (a n : ℕ) → ((j : ℕ) → a ≤ j → j < a + n → m.byte j ≡ 0) → bytes m a n ≡ zeros n
unfolding bytes zeros
bytes-zeros m a zero h = refl
bytes-zeros m a (suc n) h = ground (
  arith,
  h a (omega arith) (omega arith),
  bytes-zeros m (a + 1) n λ j p q. h j (omega arith) (omega arith),
)

mul-div-ne : (count align : ℕ) → 0 < align → count * align / align ≡ count
mul-div-ne count align h = grind arith

-- A segment that `tm_alloc` hands out can be used: the address names it, a request for all of its
-- words is well formed, and its bytes are zero.
pub tm_alloc-usable :
    (a : Mallocs) (realloc_fits : Bool) (w : World) (count : ℕ) {r : AllocReply}
    → 0 < w.region.align
    → count < 2 ^ 32
    → 1 ≤ w.region.num_allocs
    → w.region.num_allocs < 2 ^ 16
    → w.region.listed ≡ true
    → tm_alloc a realloc_fits (count * w.region.align) w ≡ some r
    → r.status ≡ success_alloc
    → (target : ℕ) × (r.target ≡ some target)
      × (q : IsRequest r.world.region target (count * w.region.align)) × (q.segment
          ≡ w.region.num_allocs)
      × (q.word ≡ 0)
      × (bytes r.world.memory (address_of r.world.region q.segment q.word) (count * w.region.align)
          ≡ zeros (count * w.region.align))
tm_alloc-usable a realloc_fits w count {r} pos few one room listed e s =
    usable (tm_alloc-Left a realloc_fits (count * w.region.align) w e)
  where
    size : ℕ
    size = count * w.region.align

    Usable : AllocReply → Type 0
    Usable r =
        (target : ℕ) × (r.target ≡ some target)
        × (q : IsRequest r.world.region target size) × (q.segment ≡ w.region.num_allocs)
        × (q.word ≡ 0)
        × (bytes r.world.memory (address_of r.world.region q.segment q.word) size ≡ zeros size)

    whole : (size / w.region.align) % 2 ^ 32 ≡ count
    whole = rw (mul-div-ne count w.region.align pos) (omega arith)

    usable : Left a size w r → Usable r
    usable (as_before st _) = absurd (let no : nomem_alloc ≡ success_alloc = sym st ∙ s in cc)
    usable (list_lost _ _ _ st _) = absurd (let no : nomem_alloc ≡ success_alloc = sym st ∙ s in cc)
    usable (added start max_size given is) = subst Usable (sym is) (
      w.region.num_allocs * 2 ^ 48,
      ap some (omega arith),
      record {
        segment = w.region.num_allocs;
        word = 0;
        count = count;
        names = omega arith;
        low = omega arith;
        sized = refl;
        allocated = (one, omega arith);
        listed = listed;
        within = ground (arith, whole);
      },
      refl,
      refl,
      bytes-zeros (zeroed w.memory start size) _ size λ j p q. ground arith,
    )

-- The region that `tm_create` makes.
abbrev created : (size align start : ℕ) → MemoryRegion
created size align start = record {
  global_clock = 0;
  start_segment = start;
  segments_list = update (λ _. blank) 1 (new_node align size start);
  listed = true;
  num_allocs = 2;
  max_size = 1000;
  allocation_lock = false;
  size = size;
  align = align;
}

tm_create-created :
    (a : Mallocs) (list_fits : Bool) (size align : ℕ) (m m' : Memory) (r : MemoryRegion)
    → tm_create true a list_fits size align m ≡ some (some r, m')
    → (start : ℕ) × (start + size ≤ m.limit)
      × (r ≡ created size align start)
      × (m' ≡ zeroed m start size)
unfolding tm_create
tm_create-created a list_fits size align m m' r e =
    let ((first, m₁), inited, next) = bind-some (init_node a align size m) _ e in
    elim (init_node-cases a align size m inited) [
      | inl nothing ↦ absurd (
          let no_node : first ≡ none = ap (λ (p : Option SegmentNode × Memory). p.0) nothing in
          ground (arith, no_node))
      | inr made ↦ elim (Bool-cases list_fits) [
        | inl fits ↦ (
          made.start,
          made.within,
          ground (arith, made.node),
          ground (arith, made.node, made.cleared),
        )
        | inr fails ↦ absurd (ground (arith, made.node))
      ]
    ]

-- The start. When `tm_create` gives a region for a size of `count` words, in memory that is mapped,
-- the system with no transaction satisfies the invariant, and `tm_start` names the words of the
-- first segment, all zero.
pub tm_create-Inv :
    (a : Mallocs) (list_fits : Bool) (count align : ℕ) (m m' : Memory) (r : MemoryRegion)
    → 0 < align
    → count < 2 ^ 32
    → tm_create true a list_fits (count * align) align m ≡ some (some r, m')
    → Inv (record { world = record { memory = m'; region = r }; live = λ i. none })
      × (q : IsRequest r (tm_start r) (count * align)) × (q.segment ≡ 1)
      × (q.word ≡ 0)
      × (bytes m' (address_of r q.segment q.word) (count * align) ≡ zeros (count * align))
unfolding tm_start
tm_create-Inv a list_fits count align m m' r pos few e =
    let (start, mapped, is, cleared) =
      tm_create-created a list_fits (count * align) align m m' r e in
    subst (λ (r : MemoryRegion). Start r m') (sym is)
      (subst (Start (created (count * align) align start)) (sym cleared) (go start mapped))
  where
    Start : MemoryRegion → Memory → Type 0
    Start r m' =
        Inv (record { world = record { memory = m'; region = r }; live = λ i. none })
        × (q : IsRequest r (tm_start r) (count * align)) × (q.segment ≡ 1)
        × (q.word ≡ 0)
        × (bytes m' (address_of r q.segment q.word) (count * align) ≡ zeros (count * align))

    whole : (count * align / align) % 2 ^ 32 ≡ count
    whole = rw (mul-div-ne count align pos) (omega arith)

    go :
        (start : ℕ)
        → start + count * align ≤ m.limit
        → Start (created (count * align) align start) (zeroed m start (count * align))
    go start mapped = (
      record {
        quiet = record {
          laid_out = record {
            align_pos = pos;
            inside = λ k al. ground (arith, whole);
            small = λ k al. ground (arith, whole);
            apart = λ k j ak aj ne. absurd (ne (omega arith));
          };
          unlocked = λ k x. ground arith;
          not_newer = λ k x. ground arith;
        };
        small = omega arith;
        lives = λ i l e. absurd cc;
      },
      record {
        segment = 1;
        word = 0;
        count = count;
        names = omega arith;
        low = omega arith;
        sized = refl;
        allocated = (omega arith, omega arith);
        listed = refl;
        within = ground (arith, whole);
      },
      refl,
      refl,
      bytes-zeros (zeroed m start (count * align)) (start + 0 * align) (count * align)
          λ j p q. ground arith,
    )
