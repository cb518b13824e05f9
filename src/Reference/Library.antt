-- ===== src/Reference/Library.antt =====
-- reference/tm.c: the region from its creation to its end, and its lock. reference/shared-lock.c passes
-- every call on to a POSIX reader-writer lock, which is an argument.
pub mod Life
pub mod Exclusion
pub mod Tests
use software_transactional_m.Prelude.{
  ℕ, zero, suc, ◌+◌, ◌-◌, ◌*◌, ◌≡◌, ◌≢◌, ◌^◌, ◌⊎◌, Bool, true, false, Option, none, some, List, [],
  ◌∷◌, ltb, ◌==◌, if◌then◌else◌, ◌>>=◌, update, not,
}
use software_transactional_m.Stm.Memory.{Memory, zeroed}
use software_transactional_m.Reference.{Heap, Region, free_segments}

-- The calls of pthread.h: a state, and the code that a call returns.
pub record PosixLock (L : Type 0) : Type 0 where
  pub rwlock_init : L → ℕ × L
  pub rwlock_destroy : L → L
  pub rdlock : L → ℕ × L
  pub wrlock : L → ℕ × L
  pub unlock : L → L

-- What `tm_create` holds: the struct, once it is allocated, and the words, once they are.
pub record World (L : Type 0) : Type 0 where
  pub heap : Heap
  pub lock : L
  pub held : List ℕ

-- `free` of a block; a block that is not held is a fault.
unfoldable pub give_back : ℕ → List ℕ → Option (List ℕ)
give_back a [] = none
give_back a (b ∷ bs) = if a == b then some bs else (do rest ← give_back a bs; some (b ∷ rest))

-- `invalid_tx` of include/tm.h, `read_only_tx` and `read_write_tx`; `UINTPTR_MAX` is 2 ^ 64 - 1.
abbrev pub invalid_tx : ℕ
invalid_tx = 2 ^ 64 - 1

abbrev pub read_only_tx : ℕ
read_only_tx = 2 ^ 64 - 1 - 10

abbrev pub read_write_tx : ℕ
read_write_tx = 2 ^ 64 - 1 - 11

module _ {L : Type 0} (posix : PosixLock L) where
  -- reference/shared-lock.c
  unfoldable pub shared_lock_init : L → Bool × L
  shared_lock_init l = let (code, l') = posix.rwlock_init l in (code == 0, l')

  unfoldable pub shared_lock_cleanup : L → L
  shared_lock_cleanup l = posix.rwlock_destroy l

  unfoldable pub shared_lock_acquire : L → Bool × L
  shared_lock_acquire l = let (code, l') = posix.wrlock l in (code == 0, l')

  unfoldable pub shared_lock_release : L → L
  shared_lock_release l = posix.unlock l

  unfoldable pub shared_lock_acquire_shared : L → Bool × L
  shared_lock_acquire_shared l = let (code, l') = posix.rdlock l in (code == 0, l')

  unfoldable pub shared_lock_release_shared : L → L
  shared_lock_release_shared l = posix.unlock l

  -- `malloc` gives the struct, `memalign` is `posix_memalign`: addresses, `none` where memory is short.
  -- The answer is the address of the struct, 0 for `invalid_shared`.
  unfoldable pub tm_create :
      (malloc : Option ℕ) (memalign : ℕ → ℕ → Option ℕ) (size align : ℕ)
      → World L
      → Option (ℕ × Option Region × World L)
  unfolding shared_lock_init give_back
  tm_create none memalign size align w = some (0, none, w)
  tm_create (some region) memalign size align w = elim (memalign align size) [
    | none ↦ do held ← give_back region (region ∷ w.held); some (0, none, record w { held = held })
    | some start ↦
        let (ready, lock) = shared_lock_init w.lock in
        elim ready [
          | false ↦ do
            without_start ← give_back start (start ∷ region ∷ w.held)
            held ← give_back region without_start
            some (0, none, record w { lock = lock; held = held })
          | true ↦ some (
            region,
            some (record { start = start; allocs = 0; size = size; align = align }),
            record w {
              heap = record w.heap { memory = zeroed w.heap.memory start size };
              lock = lock;
              held = start ∷ region ∷ w.held;
            },
          )
        ]
  ]

  -- The region's struct lies at `region`. The fuel bounds the number of segments.
  unfoldable pub tm_destroy : (fuel region : ℕ) → Region → World L → Option (World L)
  unfolding shared_lock_cleanup give_back
  tm_destroy fuel region r w = do
    heap ← free_segments fuel r.allocs w.heap
    without_start ← give_back r.start w.held
    held ← give_back region without_start
    some (record { heap = heap; lock = shared_lock_cleanup w.lock; held = held })

  unfoldable pub tm_start : Region → ℕ
  tm_start r = r.start

  unfoldable pub tm_size : Region → ℕ
  tm_size r = r.size

  unfoldable pub tm_align : Region → ℕ
  tm_align r = r.align

  unfoldable pub tm_begin : Bool → L → ℕ × L
  unfolding shared_lock_acquire shared_lock_acquire_shared
  tm_begin true l =
      let (held, l') = shared_lock_acquire_shared l in
      (if not held then invalid_tx else read_only_tx, l')
  tm_begin false l =
      let (held, l') = shared_lock_acquire l in (if not held then invalid_tx else read_write_tx, l')

  unfoldable pub tm_end : ℕ → L → Bool × L
  unfolding shared_lock_release shared_lock_release_shared
  tm_end tx l =
      (true, if tx == read_only_tx then shared_lock_release_shared l else shared_lock_release l)
