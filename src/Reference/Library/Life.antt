-- ===== src/Reference/Library/Life.antt =====
-- reference/tm.c: what tm_create allocates and tm_destroy frees.
use software_transactional_m.Prelude.{
  ℕ, ◌≡◌, ◌≤◌, refl, ◌⊎◌, inl, inr, Option, none, some, List, [], ◌∷◌, length, if◌then◌else◌,
  ==_refl, Bool-cases, Option-cases,
}
use software_transactional_m.Stm.Memory.{zeroed}
use software_transactional_m.Reference.{Region}
use software_transactional_m.Reference.Segments.{IsList, member, free_segments-all}
use software_transactional_m.Reference.Library.{
  PosixLock, World, give_back, tm_create, tm_destroy, shared_lock_init, shared_lock_cleanup,
}

give_back_first : (a : ℕ) (bs : List ℕ) → give_back a (a ∷ bs) ≡ some bs
unfolding give_back
give_back_first a bs = rw (==_refl a) refl

module _ {L : Type 0} (posix : PosixLock L) where
  -- `tm_create` always returns. It fails with nothing held that was not before, and the memory as it was,
  -- or holds the struct and a cleared first segment, with an empty list of segments.
  pub tm_create-all_or_nothing :
      (malloc : Option ℕ) (memalign : ℕ → ℕ → Option ℕ) (size align : ℕ) (w : World L)
      → (w' : World L) × (((tm_create posix malloc memalign size align w ≡ some (0, none, w'))
            × (w'.held ≡ w.held)
            × (w'.heap ≡ w.heap))
          ⊎ ((region : ℕ) × (start : ℕ) × (r : Region) × (tm_create posix malloc memalign size align
                  w
                ≡ some (region, some r, w'))
              × (malloc ≡ some region)
              × (memalign align size ≡ some start)
              × (r ≡ record { start = start; allocs = 0; size = size; align = align })
              × (w'.held ≡ start ∷ region ∷ w.held)
              × (w'.heap.nodes ≡ w.heap.nodes)
              × (w'.heap.memory ≡ zeroed w.heap.memory start size)
              × IsList r w'.heap []))
  unfolding tm_create
  tm_create-all_or_nothing none memalign size align w = (w, inl (refl, refl, refl))
  tm_create-all_or_nothing (some region) memalign size align w =
      elim (Option-cases (memalign align size)) [
        | inl e ↦ (w, inl (rw (e, tm_create, give_back_first region w.held) refl, refl, refl))
        | inr (start, e) ↦ elim (Bool-cases (shared_lock_init posix w.lock).0) [
          | inl ready ↦ (
            record {
              heap = record w.heap { memory = zeroed w.heap.memory start size };
              lock = (shared_lock_init posix w.lock).1;
              held = start ∷ region ∷ w.held;
            },
            inr (
              region,
              start,
              record { start = start; allocs = 0; size = size; align = align },
              rw (e, tm_create, ready) refl,
              refl,
              e,
              refl,
              refl,
              refl,
              refl,
              record { starts = refl; linked = tt; no_twins = refl },
            ),
          )
          | inr failed ↦ (
            record w { lock = (shared_lock_init posix w.lock).1 },
            inl (
              rw
                  (
                    e,
                    tm_create,
                    failed,
                    give_back_first start (region ∷ w.held),
                    give_back_first region w.held,
                  )
                  refl,
              refl,
              refl,
            ),
          )
        ]
      ]

  -- `tm_destroy` of a region whose list of segments is in order, while the region and its first segment
  -- are held as `tm_create` leaves them, returns with fuel for each segment. It has then freed both,
  -- the headers of the listed segments and no other, and destroyed the lock.
  pub tm_destroy-frees_all :
      (fuel region : ℕ) (r : Region) (w : World L) (xs rest : List ℕ)
      → IsList r w.heap xs
      → w.held ≡ r.start ∷ region ∷ rest
      → length xs ≤ fuel
      → (w' : World L) × (tm_destroy posix fuel region r w ≡ some w')
        × (w'.held ≡ rest)
        × ((y : ℕ) → w'.heap.nodes y ≡ (if member y xs then none else w.heap.nodes y))
        × (w'.lock ≡ posix.rwlock_destroy w.lock)
  unfolding tm_destroy
  tm_destroy-frees_all fuel region r w xs rest list held enough =
      let (h', done, freed) = free_segments-all fuel w.heap 0 xs list.linked list.no_twins enough in
      (
        record { heap = h'; lock = shared_lock_cleanup posix w.lock; held = rest },
        rw
            (
              list.starts,
              done,
              held,
              give_back_first r.start (region ∷ rest),
              give_back_first region rest,
            )
            refl,
        refl,
        freed,
        unfold shared_lock_cleanup in refl,
      )
