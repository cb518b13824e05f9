-- ===== src/Stm/Destroy.antt =====
-- tm_destroy of 353055/tm.c with cleanSegments of helper_functions.h: the blocks that they free, in order.
use software_transactional_m.Prelude.{
  ℕ, zero, suc, ◌+◌, ◌-◌, ◌≡◌, ◌≤◌, refl, Bool, true, false, ◌&&◌, Option, none, some, List, [],
  ◌∷◌, ◌++◌, ltb, leb, ◌==◌, if◌then◌else◌, ◌>>=◌, Bool-cases, ==→eq, inl, inr, arith,
}
use software_transactional_m.Stm.Types.{MemoryRegion}

-- What the region holds: for every segment its lock bits, its versions, its words and the node; the
-- array `segments_list`, and the region itself.
pub data Block : Type 0 where
  lock_bits lock_versions words node : ℕ → Block
  segments region : Block

-- The body of the loop. An entry below `num_allocs` is set, and its two arrays are, since `initNode`
-- gives no node without them.
unfoldable pub clean_segment : MemoryRegion → ℕ → List Block
clean_segment r i =
    lock_bits i
    ∷ lock_versions i
    ∷ (if (r.segments_list i).segment_start == 0 then node i ∷ [] else words i ∷ node i ∷ [])

unfoldable pub clean_loop : MemoryRegion → (i rounds : ℕ) → List Block
unfolding clean_segment
clean_loop r i zero = []
clean_loop r i (suc rounds) = clean_segment r i ++ clean_loop r (i + 1) rounds

-- `none` where the loop reads through a NULL `segments_list`.
unfoldable pub clean_segments : MemoryRegion → Option (List Block)
unfolding clean_loop
clean_segments r =
    if ltb 1 r.num_allocs
    then (if r.listed then some (clean_loop r 1 (r.num_allocs - 1) ++ segments ∷ []) else none)
    else (if r.listed then some (segments ∷ []) else some [])

unfoldable pub tm_destroy : MemoryRegion → Option (List Block)
unfolding clean_segments
tm_destroy r = do freed ← clean_segments r; some (freed ++ region ∷ [])

-- How often a block is freed.
abbrev pub same : Block → Block → Bool
same (lock_bits i) (lock_bits j) = i == j
same (lock_versions i) (lock_versions j) = i == j
same (words i) (words j) = i == j
same (node i) (node j) = i == j
same segments segments = true
same region region = true
same _ _ = false

abbrev pub times : Block → List Block → ℕ
times b [] = 0
times b (c ∷ cs) = (if same b c then 1 else 0) + times b cs

times-append : (b : Block) (cs ds : List Block) → times b (cs ++ ds) ≡ times b cs + times b ds
times-append b [] ds = omega arith
times-append b (c ∷ cs) ds = omega (arith, times-append b cs ds)

abbrev within : (first past i : ℕ) → ℕ
within first past i = if leb first i && ltb i past then 1 else 0

-- What the region holds, as often as it does.
abbrev pub held : MemoryRegion → Block → ℕ
held r (lock_bits i) = within 1 r.num_allocs i
held r (lock_versions i) = within 1 r.num_allocs i
held r (words i) = if (r.segments_list i).segment_start == 0 then 0 else within 1 r.num_allocs i
held r (node i) = within 1 r.num_allocs i
held r segments = 1
held r region = 1

abbrev part : MemoryRegion → (first past : ℕ) → Block → ℕ
part r first past (lock_bits i) = within first past i
part r first past (lock_versions i) = within first past i
part r first past (words i) =
    if (r.segments_list i).segment_start == 0 then 0 else within first past i
part r first past (node i) = within first past i
part r first past segments = 0
part r first past region = 0

times-clean_segment :
    (r : MemoryRegion) (b : Block) (i : ℕ) → times b (clean_segment r i) ≡ part r i (i + 1) b
unfolding clean_segment
times-clean_segment r (lock_bits j) i = ground arith
times-clean_segment r (lock_versions j) i = ground arith
times-clean_segment r (words j) i = elim (Bool-cases (j == i)) [
  | inl here ↦ rw (==→eq j i here) (elim (Bool-cases ((r.segments_list i).segment_start == 0)) [
    | inl e ↦ rw e (ground arith)
    | inr e ↦ rw e (ground arith)
  ])
  | inr there ↦ elim (Bool-cases ((r.segments_list i).segment_start == 0)) [
    | inl e ↦ rw e (ground arith)
    | inr e ↦ rw e (ground arith)
  ]
]
times-clean_segment r (node j) i = ground arith
times-clean_segment r segments i = ground arith
times-clean_segment r region i = ground arith

part-split :
    (r : MemoryRegion) (b : Block) (i n : ℕ)
    → part r i (i + 1) b + part r (i + 1) (i + 1 + n) b ≡ part r i (i + suc n) b
part-split r (lock_bits j) i n = ground arith
part-split r (lock_versions j) i n = ground arith
part-split r (words j) i n = ground arith
part-split r (node j) i n = ground arith
part-split r segments i n = omega arith
part-split r region i n = omega arith

part_empty : (r : MemoryRegion) (b : Block) (i : ℕ) → 0 ≡ part r i (i + 0) b
part_empty r (lock_bits j) i = ground arith
part_empty r (lock_versions j) i = ground arith
part_empty r (words j) i = ground arith
part_empty r (node j) i = ground arith
part_empty r segments i = refl
part_empty r region i = refl

times-clean_loop :
    (r : MemoryRegion) (b : Block) (i n : ℕ) → times b (clean_loop r i n) ≡ part r i (i + n) b
unfolding clean_loop
times-clean_loop r b i zero = part_empty r b i
times-clean_loop r b i (suc n) = omega (
  arith,
  times-append b (clean_segment r i) (clean_loop r (i + 1) n),
  times-clean_segment r b i,
  times-clean_loop r b (i + 1) n,
  part-split r b i n,
)

part_held :
    (r : MemoryRegion) (b : Block)
    → 1 ≤ r.num_allocs
    → part r 1 (1 + (r.num_allocs - 1)) b + times b (segments ∷ []) + times b (region ∷ [])
      ≡ held r b
part_held r (lock_bits i) h = ground arith
part_held r (lock_versions i) h = ground arith
part_held r (words i) h = ground arith
part_held r (node i) h = ground arith
part_held r segments h = omega arith
part_held r region h = omega arith

-- `tm_destroy` of a region with a segment and its list returns, and frees each block that the region
-- holds once, and no other.
pub tm_destroy-frees_once :
    (r : MemoryRegion)
    → r.listed ≡ true
    → 1 ≤ r.num_allocs
    → (freed : List Block) × (tm_destroy r ≡ some freed) × ((b : Block) → times b freed ≡ held r b)
unfolding tm_destroy
tm_destroy-frees_once r listed some_segment = (
  (clean_loop r 1 (r.num_allocs - 1) ++ segments ∷ []) ++ region ∷ [],
  elim (Bool-cases (ltb 1 r.num_allocs)) [
    | inl more ↦ rw (more, listed) refl
    | inr one ↦
        let alone : r.num_allocs - 1 ≡ 0 = ground arith in
        rw (one, listed, alone) (unfold clean_loop in refl)
  ],
  λ b. omega (
    arith,
    times-append b (clean_loop r 1 (r.num_allocs - 1) ++ segments ∷ []) (region ∷ []),
    times-append b (clean_loop r 1 (r.num_allocs - 1)) (segments ∷ []),
    times-clean_loop r b 1 (r.num_allocs - 1),
    part_held r b some_segment,
  ),
)
