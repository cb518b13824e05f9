-- ===== src/Rwlock/Invariant.antt =====
-- Exclusion, and no lost wakeup, for the lock of 353055/readers_writer.h.
use software_transactional_m.Prelude.{
  ℕ, ◌+◌, ◌≡◌, ◌<◌, refl, true, false, List, [], ◌∷◌, ◌++◌, if◌then◌else◌, arith, ◌⊎◌, inl, inr,
}
use software_transactional_m.Rwlock.{
  RwLock, Phase, outside, read_asleep, read_awake, reads, write_asleep, write_awake, writes,
  read_lock, write_lock, read_unlock, write_unlock, broadcast_read, one, number, SignalWrite,
  nobody, wakes, Threads, Step, starts_read, retries_read, ends_read, ends_last_read, starts_write,
  retries_write, ends_write, wakes_read, wakes_write, Reach, here, next,
}

-- The lock agrees with the threads: the counter is the number of readers, the flag tells whether
-- there is a writer, there is at most one and then no reader, and nobody sleeps without a reason.
pub record Agrees (l : RwLock) (readers writers sleeping_readers sleeping_writers awake_writers : ℕ)
    : Type 0 where
  pub counted : l.readers ≡ readers
  pub flagged : (if l.writing then 1 else 0) ≡ writers
  pub exclusive : (l.writing ≡ false) ⊎ (readers ≡ 0)
  pub readers_wait : (l.writing ≡ true) ⊎ (sleeping_readers ≡ 0)
  pub writers_wait :
      (l.writing ≡ true) ⊎ (0 < readers) ⊎ (0 < awake_writers) ⊎ (sleeping_writers ≡ 0)

abbrev pub Inv : Threads → Type 0
Inv s =
    Agrees s.lock (number reads s.phases) (number writes s.phases) (number read_asleep s.phases)
      (number write_asleep s.phases) (number write_awake s.phases)

number-append : (p : Phase) (ps qs : List Phase) → number p (ps ++ qs) ≡ number p ps + number p qs
number-append p [] qs = omega arith
number-append p (q ∷ ps) qs = omega (arith, number-append p ps qs)

-- What a step of one thread does to the numbers.
Agrees-put :
    (l : RwLock) (ps : List Phase) (p : Phase) (qs : List Phase)
    → Agrees l
        (number reads ps + (one reads p + number reads qs))
        (number writes ps + (one writes p + number writes qs))
        (number read_asleep ps + (one read_asleep p + number read_asleep qs))
        (number write_asleep ps + (one write_asleep p + number write_asleep qs))
        (number write_awake ps + (one write_awake p + number write_awake qs))
    → Inv (record { lock = l; phases = ps ++ p ∷ qs })
Agrees-put l ps p qs h =
    rw
      (
        number-append reads ps (p ∷ qs),
        number-append writes ps (p ∷ qs),
        number-append read_asleep ps (p ∷ qs),
        number-append write_asleep ps (p ∷ qs),
        number-append write_awake ps (p ∷ qs),
      )
      h

put-Agrees :
    (l : RwLock) (ps : List Phase) (p : Phase) (qs : List Phase)
    → Inv (record { lock = l; phases = ps ++ p ∷ qs })
    → Agrees l
        (number reads ps + (one reads p + number reads qs))
        (number writes ps + (one writes p + number writes qs))
        (number read_asleep ps + (one read_asleep p + number read_asleep qs))
        (number write_asleep ps + (one write_asleep p + number write_asleep qs))
        (number write_awake ps + (one write_awake p + number write_awake qs))
put-Agrees l ps p qs h =
    rw
      (
        number-append reads ps (p ∷ qs),
        number-append writes ps (p ∷ qs),
        number-append read_asleep ps (p ∷ qs),
        number-append write_asleep ps (p ∷ qs),
        number-append write_awake ps (p ∷ qs),
      )
      at h

broadcast-asleep : (ps : List Phase) → number read_asleep (broadcast_read ps) ≡ 0
broadcast-asleep [] = refl
broadcast-asleep (outside ∷ ps) = omega (arith, broadcast-asleep ps)
broadcast-asleep (read_asleep ∷ ps) = omega (arith, broadcast-asleep ps)
broadcast-asleep (read_awake ∷ ps) = omega (arith, broadcast-asleep ps)
broadcast-asleep (reads ∷ ps) = omega (arith, broadcast-asleep ps)
broadcast-asleep (write_asleep ∷ ps) = omega (arith, broadcast-asleep ps)
broadcast-asleep (write_awake ∷ ps) = omega (arith, broadcast-asleep ps)
broadcast-asleep (writes ∷ ps) = omega (arith, broadcast-asleep ps)

-- A broadcast moves sleeping readers only.
abbrev Unmoved : Phase → Type 0
Unmoved p = (one p read_asleep ≡ 0) × (one p read_awake ≡ 0)

number-broadcast :
    (p : Phase) (ps : List Phase) → Unmoved p → number p (broadcast_read ps) ≡ number p ps
number-broadcast p [] h = refl
number-broadcast p (outside ∷ ps) h = omega (arith, number-broadcast p ps h)
number-broadcast p (read_asleep ∷ ps) h = omega (arith, h.0, h.1, number-broadcast p ps h)
number-broadcast p (read_awake ∷ ps) h = omega (arith, number-broadcast p ps h)
number-broadcast p (reads ∷ ps) h = omega (arith, number-broadcast p ps h)
number-broadcast p (write_asleep ∷ ps) h = omega (arith, number-broadcast p ps h)
number-broadcast p (write_awake ∷ ps) h = omega (arith, number-broadcast p ps h)
number-broadcast p (writes ∷ ps) h = omega (arith, number-broadcast p ps h)

module _ (l : RwLock) (a b c d e : ℕ) (a' b' c' d' e' : ℕ) where
  read_lock-Agrees :
      Agrees l
        (a + (one reads outside + a'))
        (b + (one writes outside + b'))
        (c + (one read_asleep outside + c'))
        (d + (one write_asleep outside + d'))
        (e + (one write_awake outside + e'))
      → Agrees
          (read_lock l).1
          (a + (one reads (read_lock l).0 + a'))
          (b + (one writes (read_lock l).0 + b'))
          (c + (one read_asleep (read_lock l).0 + c'))
          (d + (one write_asleep (read_lock l).0 + d'))
          (e + (one write_awake (read_lock l).0 + e'))
  unfolding read_lock
  read_lock-Agrees h = record {
    counted = ground arith;
    flagged = ground arith;
    exclusive = ground arith;
    readers_wait = ground arith;
    writers_wait = ground arith;
  }

  write_lock-Agrees :
      Agrees l
        (a + (one reads outside + a'))
        (b + (one writes outside + b'))
        (c + (one read_asleep outside + c'))
        (d + (one write_asleep outside + d'))
        (e + (one write_awake outside + e'))
      → Agrees
          (write_lock l).1
          (a + (one reads (write_lock l).0 + a'))
          (b + (one writes (write_lock l).0 + b'))
          (c + (one read_asleep (write_lock l).0 + c'))
          (d + (one write_asleep (write_lock l).0 + d'))
          (e + (one write_awake (write_lock l).0 + e'))
  unfolding write_lock
  write_lock-Agrees h = record {
    counted = ground arith;
    flagged = ground arith;
    exclusive = ground arith;
    readers_wait = ground arith;
    writers_wait = ground arith;
  }

  woken_write_lock-Agrees :
      Agrees l
        (a + (one reads write_awake + a'))
        (b + (one writes write_awake + b'))
        (c + (one read_asleep write_awake + c'))
        (d + (one write_asleep write_awake + d'))
        (e + (one write_awake write_awake + e'))
      → Agrees
          (write_lock l).1
          (a + (one reads (write_lock l).0 + a'))
          (b + (one writes (write_lock l).0 + b'))
          (c + (one read_asleep (write_lock l).0 + c'))
          (d + (one write_asleep (write_lock l).0 + d'))
          (e + (one write_awake (write_lock l).0 + e'))
  unfolding write_lock
  woken_write_lock-Agrees h = record {
    counted = ground arith;
    flagged = ground arith;
    exclusive = ground arith;
    readers_wait = ground arith;
    writers_wait = ground arith;
  }

  read_unlock-Agrees :
      (read_unlock l).0 ≡ false
      → Agrees l
          (a + (one reads reads + a'))
          (b + (one writes reads + b'))
          (c + (one read_asleep reads + c'))
          (d + (one write_asleep reads + d'))
          (e + (one write_awake reads + e'))
      → Agrees
          (read_unlock l).1
          (a + (one reads outside + a'))
          (b + (one writes outside + b'))
          (c + (one read_asleep outside + c'))
          (d + (one write_asleep outside + d'))
          (e + (one write_awake outside + e'))
  unfolding read_unlock
  read_unlock-Agrees q h = record {
    counted = ground arith;
    flagged = ground arith;
    exclusive = ground arith;
    readers_wait = ground arith;
    writers_wait = ground arith;
  }

  wakes_read-Agrees :
      Agrees l
        (a + (one reads read_asleep + a'))
        (b + (one writes read_asleep + b'))
        (c + (one read_asleep read_asleep + c'))
        (d + (one write_asleep read_asleep + d'))
        (e + (one write_awake read_asleep + e'))
      → Agrees l
          (a + (one reads read_awake + a'))
          (b + (one writes read_awake + b'))
          (c + (one read_asleep read_awake + c'))
          (d + (one write_asleep read_awake + d'))
          (e + (one write_awake read_awake + e'))
  wakes_read-Agrees h = record {
    counted = ground arith;
    flagged = ground arith;
    exclusive = ground arith;
    readers_wait = ground arith;
    writers_wait = ground arith;
  }

  wakes_write-Agrees :
      Agrees l
        (a + (one reads write_asleep + a'))
        (b + (one writes write_asleep + b'))
        (c + (one read_asleep write_asleep + c'))
        (d + (one write_asleep write_asleep + d'))
        (e + (one write_awake write_asleep + e'))
      → Agrees l
          (a + (one reads write_awake + a'))
          (b + (one writes write_awake + b'))
          (c + (one read_asleep write_awake + c'))
          (d + (one write_asleep write_awake + d'))
          (e + (one write_awake write_awake + e'))
  wakes_write-Agrees h = record {
    counted = ground arith;
    flagged = ground arith;
    exclusive = ground arith;
    readers_wait = ground arith;
    writers_wait = ground arith;
  }

-- The lock agrees but for the writers that sleep, which are signalled next.
record Almost (l : RwLock) (readers writers sleeping_readers : ℕ) : Type 0 where
  counted : l.readers ≡ readers
  flagged : (if l.writing then 1 else 0) ≡ writers
  exclusive : (l.writing ≡ false) ⊎ (readers ≡ 0)
  readers_wait : (l.writing ≡ true) ⊎ (sleeping_readers ≡ 0)

signalled-Inv :
    (l : RwLock) (ps qs : List Phase)
    → SignalWrite ps qs
    → Almost l (number reads ps) (number writes ps) (number read_asleep ps)
    → Inv (record { lock = l; phases = qs })
signalled-Inv l ps _ (nobody _ none_sleeps) h = record {
  counted = h.counted;
  flagged = h.flagged;
  exclusive = h.exclusive;
  readers_wait = h.readers_wait;
  writers_wait = inr (inr (inr none_sleeps));
}
signalled-Inv l _ _ (wakes ps qs) h = Agrees-put l ps write_awake qs (
    almost (
      rw
        (
          number-append reads ps (write_asleep ∷ qs),
          number-append writes ps (write_asleep ∷ qs),
          number-append read_asleep ps (write_asleep ∷ qs),
        )
        at h))
  where
    almost :
        Almost l
          (number reads ps + (0 + number reads qs))
          (number writes ps + (0 + number writes qs))
          (number read_asleep ps + (0 + number read_asleep qs))
        → Agrees l
            (number reads ps + (0 + number reads qs))
            (number writes ps + (0 + number writes qs))
            (number read_asleep ps + (0 + number read_asleep qs))
            (number write_asleep ps + (0 + number write_asleep qs))
            (number write_awake ps + (1 + number write_awake qs))
    almost h = record {
      counted = h.counted;
      flagged = h.flagged;
      exclusive = h.exclusive;
      readers_wait = h.readers_wait;
      writers_wait = inr (inr (inl (omega arith)));
    }

module _ (l : RwLock) (ps qs : List Phase) where
  left : (p : Phase) → ℕ
  left p = number p ps + number p qs

  number-left :
      (p : Phase) → one p outside ≡ 0 → number p (ps ++ outside ∷ qs) ≡ number p ps + number p qs
  number-left p h = omega (arith, number-append p ps (outside ∷ qs))

  last_read-Almost :
      (read_unlock l).0 ≡ true
      → Inv (record { lock = l; phases = ps ++ reads ∷ qs })
      → Almost
          (read_unlock l).1
          (number reads (ps ++ outside ∷ qs))
          (number writes (ps ++ outside ∷ qs))
          (number read_asleep (ps ++ outside ∷ qs))
  unfolding read_unlock
  last_read-Almost q h =
      let k = put-Agrees l ps reads qs h in
      rw (number-left reads refl, number-left writes refl, number-left read_asleep refl)
        (record {
          counted = ground (arith, k.counted);
          flagged = ground (arith, k.flagged);
          exclusive = ground (arith, k.exclusive, k.counted);
          readers_wait = ground (arith, k.readers_wait);
        })

  write_unlock-Almost :
      Inv (record { lock = l; phases = ps ++ writes ∷ qs })
      → Almost
          (write_unlock l)
          (number reads (broadcast_read (ps ++ outside ∷ qs)))
          (number writes (broadcast_read (ps ++ outside ∷ qs)))
          (number read_asleep (broadcast_read (ps ++ outside ∷ qs)))
  unfolding write_unlock
  write_unlock-Almost h =
      let k = put-Agrees l ps writes qs h in
      let rest = ps ++ outside ∷ qs in
      rw
        (
          number-broadcast reads rest (refl, refl),
          number-broadcast writes rest (refl, refl),
          broadcast-asleep rest,
          number-left reads refl,
          number-left writes refl,
        )
        (record {
          counted = ground (arith, k.counted);
          flagged = ground (arith, k.flagged);
          exclusive = inl refl;
          readers_wait = inr refl;
        })

-- Every step keeps the lock in agreement with the threads.
Step-Agrees : {s t : Threads} → Step s t → Inv s → Inv t
Step-Agrees (starts_read l ps qs) h =
    Agrees-put (read_lock l).1 ps (read_lock l).0 qs
      (read_lock-Agrees l _ _ _ _ _ _ _ _ _ _ (put-Agrees l ps outside qs h))
Step-Agrees (retries_read l ps qs) h =
    Agrees-put (read_lock l).1 ps (read_lock l).0 qs
      (read_lock-Agrees l _ _ _ _ _ _ _ _ _ _ (put-Agrees l ps read_awake qs h))
Step-Agrees (ends_read l ps qs more) h =
    Agrees-put (read_unlock l).1 ps outside qs
      (read_unlock-Agrees l _ _ _ _ _ _ _ _ _ _ more (put-Agrees l ps reads qs h))
Step-Agrees (ends_last_read l ps qs rs last signal) h =
    signalled-Inv (read_unlock l).1 (ps ++ outside ∷ qs) rs signal (last_read-Almost l ps qs last h)
Step-Agrees (starts_write l ps qs) h =
    Agrees-put (write_lock l).1 ps (write_lock l).0 qs
      (write_lock-Agrees l _ _ _ _ _ _ _ _ _ _ (put-Agrees l ps outside qs h))
Step-Agrees (retries_write l ps qs) h =
    Agrees-put (write_lock l).1 ps (write_lock l).0 qs
      (woken_write_lock-Agrees l _ _ _ _ _ _ _ _ _ _ (put-Agrees l ps write_awake qs h))
Step-Agrees (ends_write l ps qs rs signal) h =
    signalled-Inv (write_unlock l) (broadcast_read (ps ++ outside ∷ qs)) rs signal
      (write_unlock-Almost l ps qs h)
Step-Agrees (wakes_read l ps qs) h =
    Agrees-put l ps read_awake qs
      (wakes_read-Agrees l _ _ _ _ _ _ _ _ _ _ (put-Agrees l ps read_asleep qs h))
Step-Agrees (wakes_write l ps qs) h =
    Agrees-put l ps write_awake qs
      (wakes_write-Agrees l _ _ _ _ _ _ _ _ _ _ (put-Agrees l ps write_asleep qs h))

Reach-Agrees : {s t : Threads} → Reach s t → Inv s → Inv t
Reach-Agrees here h = h
Reach-Agrees (next r st) h = Step-Agrees st (Reach-Agrees r h)

-- Exclusion. In every state that threads reach from one in which the lock agrees with them, at most
-- one thread writes, and while one does none reads.
pub Reach-exclusive :
    {s t : Threads}
    → Inv s
    → Reach s t
    → (number writes t.phases ≡ 0) ⊎ ((number writes t.phases ≡ 1) × (number reads t.phases ≡ 0))
Reach-exclusive start r = let h = Reach-Agrees r start in ground (arith, h.flagged, h.exclusive)

-- No lost wakeup. In every such state, if no thread reads or writes, then no reader sleeps, and if a
-- writer sleeps then another one is awake and about to try again.
pub Reach-nobody_forgotten :
    {s t : Threads}
    → Inv s
    → Reach s t
    → number reads t.phases ≡ 0
    → number writes t.phases ≡ 0
    → (number read_asleep t.phases ≡ 0)
      × ((number write_asleep t.phases ≡ 0) ⊎ (0 < number write_awake t.phases))
Reach-nobody_forgotten start r none_reads none_writes =
    let h = Reach-Agrees r start in
    (ground (arith, h.flagged, h.readers_wait), ground (arith, h.flagged, h.writers_wait))
