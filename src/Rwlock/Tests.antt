-- ===== src/Rwlock/Tests.antt =====
-- A writer and a reader at the lock: the writer comes first, the reader waits.
use software_transactional_m.Prelude.{◌≡◌, ◌<◌, refl, true, ◌⊎◌, inl, inr, [], ◌∷◌}
use software_transactional_m.Rwlock.{
  outside, read_asleep, read_awake, write_asleep, write_awake, reads, writes, init_rw_lock, number,
  Threads, starts_read, starts_write, ends_write, read_lock, write_lock, write_unlock, nobody,
  Reach, here, next,
}
use software_transactional_m.Rwlock.Invariant.{Inv, Reach-exclusive, Reach-nobody_forgotten}

abbrev idle : Threads
idle = record { lock = init_rw_lock; phases = outside ∷ outside ∷ [] }

idle-Inv : Inv idle
idle-Inv = record {
  counted = refl;
  flagged = refl;
  exclusive = inl refl;
  readers_wait = inr refl;
  writers_wait = inr (inr (inr refl));
}

abbrev contended : Threads
contended = record {
  lock = record { readers = 0; writing = true };
  phases = writes ∷ read_asleep ∷ [];
}

contended_reached : Reach idle contended
unfolding read_lock write_lock
contended_reached =
    next (next here (starts_write init_rw_lock [] (outside ∷ [])))
      (starts_read (record { readers = 0; writing = true }) (writes ∷ []) [])

Reach-exclusive_example :
    (number writes contended.phases ≡ 0)
    ⊎ ((number writes contended.phases ≡ 1) × (number reads contended.phases ≡ 0))
Reach-exclusive_example = Reach-exclusive idle-Inv contended_reached

abbrev freed : Threads
freed = record { lock = init_rw_lock; phases = outside ∷ read_awake ∷ [] }

freed_reached : Reach idle freed
unfolding write_unlock
freed_reached = next contended_reached (
    ends_write (record { readers = 0; writing = true }) [] (read_asleep ∷ [])
      (outside ∷ read_awake ∷ []) (nobody (outside ∷ read_awake ∷ []) refl))

Reach-nobody_forgotten_example :
    (number read_asleep freed.phases ≡ 0)
    × ((number write_asleep freed.phases ≡ 0) ⊎ (0 < number write_awake freed.phases))
Reach-nobody_forgotten_example = Reach-nobody_forgotten idle-Inv freed_reached refl refl
