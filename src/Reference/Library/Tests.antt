-- ===== src/Reference/Library/Tests.antt =====
-- The reference library with a lock that counts its readers.
use software_transactional_m.Prelude.{
  ℕ, ◌+◌, ◌-◌, ◌≡◌, refl, ◌⊎◌, Bool, true, false, none, some, List, [], ◌∷◌, ◌==◌, if◌then◌else◌,
  arith,
}
use software_transactional_m.Reference.Segments.{member}
use software_transactional_m.Reference.Tests.{three, region, three-IsList}
use software_transactional_m.Reference.Library.{
  PosixLock, World, read_only_tx, read_write_tx, tm_destroy,
}
use software_transactional_m.Reference.Library.Life.{tm_destroy-frees_all}
use software_transactional_m.Reference.Library.Exclusion.{
  IsRwlock, Call, begins, ends, count, call, calls, calls-exclusive,
}

-- The readers, and whether there is a writer. A call that would have to wait answers 1.
record Counted : Type 0 where
  shared : ℕ
  alone : Bool

abbrev rdlock : Counted → ℕ × Counted
rdlock l = if l.alone then (1, l) else (0, record l { shared = l.shared + 1 })

abbrev wrlock : Counted → ℕ × Counted
wrlock l =
    if l.alone then (1, l) else (if l.shared == 0 then (0, record l { alone = true }) else (1, l))

abbrev unlock : Counted → Counted
unlock l = if l.alone then record l { alone = false } else record l { shared = l.shared - 1 }

abbrev counted : PosixLock Counted
counted = record {
  rwlock_init = λ l. (0, record { shared = 0; alone = false });
  rwlock_destroy = λ l. l;
  rdlock = rdlock;
  wrlock = wrlock;
  unlock = unlock;
}

counted-IsRwlock : IsRwlock counted
counted-IsRwlock = record {
  readers = λ l. l.shared;
  writing = λ l. l.alone;
  rdlock_grants = λ l h. ground arith;
  rdlock_refuses = λ l h. ground arith;
  wrlock_grants = λ l h. ground arith;
  wrlock_refuses = λ l h. ground arith;
  unlock_writer = λ l h. ground arith;
  unlock_reader = λ l h. ground arith;
}

abbrev idle : Counted
idle = record { shared = 0; alone = false }

-- The writer has to wait for the reader; then it runs alone.
abbrev turns : List Call
turns = begins true ∷ begins false ∷ ends read_only_tx ∷ begins false ∷ begins true ∷ []

turns_run : (calls counted turns (idle, [])).1 ≡ read_write_tx ∷ []
unfolding calls call
turns_run = refl

calls-exclusive_example :
    (count read_write_tx (calls counted turns (idle, [])).1 ≡ 0)
    ⊎ ((calls counted turns (idle, [])).1 ≡ read_write_tx ∷ [])
unfolding counted-IsRwlock
calls-exclusive_example = calls-exclusive counted counted-IsRwlock turns idle refl refl

abbrev world : World Counted
world = record { heap = three; lock = idle; held = 500 ∷ 900 ∷ [] }

tm_destroy-frees_all_example :
    (w' : World Counted) × (tm_destroy counted 3 900 region world ≡ some w')
    × (w'.held ≡ [])
    × ((y : ℕ)
        → w'.heap.nodes y ≡ (if member y (100 ∷ 200 ∷ 300 ∷ []) then none else three.nodes y))
    × (w'.lock ≡ idle)
tm_destroy-frees_all_example =
    tm_destroy-frees_all counted 3 900 region world (100 ∷ 200 ∷ 300 ∷ []) [] three-IsList refl
      (omega arith)
