-- ===== src/Stm/Word.antt =====
-- 353055/tm.c and helper_functions.h, access by access, as one word of the region sees them: the loop of
-- tm_read over that word, and tm_end of the transactions that write it, in any interleaving.
pub mod Stage
pub mod Invariant
pub mod Snapshot
pub mod Tests
use software_transactional_m.Prelude.{
  ℕ, ◌+◌, ◌%◌, ◌^◌, ◌≡◌, ◌≢◌, ◌<◌, ◌≤◌, Bool, true, false, List, [], ◌∷◌, leb, if◌then◌else◌,
}

-- How far the thread has come whose compare-and-swap has set the lock bit of the word: it is locking
-- other words; it has taken the clock value `wv` and has the value `v` for the word; it has copied `v`;
-- it has stamped the word.
pub data Owner : Type 0 where
  nobody locking : Owner
  ticked : (wv v : ℕ) → Owner
  copied : (wv : ℕ) → Owner
  stamped : Owner

abbrev pub lock_bit : Owner → Bool
lock_bit nobody = false
lock_bit _ = true

-- Where a reader is: not begun; between reads of the word; past the load of `v_before`; past the memcpy,
-- which found `v`; past the test of the lock bit; past that of the version against `v_before`; past a read
-- of the word that found `v`; given up.
pub data Place : Type 0 where
  outside ready : Place
  sampled : (v_before : ℕ) → Place
  loaded unlocked same : (v_before v : ℕ) → Place
  returned : (v : ℕ) → Place
  aborted : Place

-- `log` is no part of the program: what the word received and with which clock value, the last first.
pub record State : Type 0 where
  pub value : ℕ
  pub version : ℕ
  pub global_clock : ℕ
  pub owner : Owner
  pub log : List (ℕ × ℕ)
  pub rv : ℕ
  pub place : Place

-- A word of a new segment.
abbrev pub fresh : (clock : ℕ) → State
fresh clock = record {
  value = 0;
  version = 0;
  global_clock = clock;
  owner = nobody;
  log = [];
  rv = 0;
  place = outside;
}

-- The value that the word has at the clock value `rv`: the last one with a clock value up to that.
abbrev pub at : (rv : ℕ) → List (ℕ × ℕ) → ℕ
at rv [] = 0
at rv ((wv, v) ∷ log) = if leb wv rv then v else at rv log

-- The writers' accesses. A compare-and-swap that fails changes nothing, and neither does an access to
-- another word, but for the clock.
pub data Write : State → State → Type 0 where
  locks : {s : State} → s.owner ≡ nobody → Write s (record s { owner = locking })
  backs_off : {s : State} → s.owner ≡ locking → Write s (record s { owner = nobody })
  ticks :
      {s : State} (v : ℕ)
      → s.owner ≡ locking
      → Write s
          (record s { global_clock = s.global_clock + 1; owner = ticked (s.global_clock + 1) v })
  invalid : {s : State} {wv v : ℕ} → s.owner ≡ ticked wv v → Write s (record s { owner = nobody })
  copies :
      {s : State} {wv v : ℕ}
      → s.owner ≡ ticked wv v
      → Write s (record s { value = v; owner = copied wv; log = (wv, v) ∷ s.log })
  stamps :
      {s : State} {wv : ℕ}
      → s.owner ≡ copied wv
      → Write s (record s { version = wv % 2 ^ 32; owner = stamped })
  unlocks : {s : State} → s.owner ≡ stamped → Write s (record s { owner = nobody })
  others_tick : {s : State} → Write s (record s { global_clock = s.global_clock + 1 })

-- The reader's accesses, its transaction's begin among them.
pub data Read : State → State → Type 0 where
  begins :
      {s : State}
      → s.place ≡ outside
      → Read s (record s { rv = s.global_clock % 2 ^ 32; place = ready })
  samples : {s : State} → s.place ≡ ready → Read s (record s { place = sampled s.version })
  loads :
      {s : State} {v_before : ℕ}
      → s.place ≡ sampled v_before
      → Read s (record s { place = loaded v_before s.value })
  finds_unlocked :
      {s : State} {v_before v : ℕ}
      → s.place ≡ loaded v_before v
      → lock_bit s.owner ≡ false
      → Read s (record s { place = unlocked v_before v })
  finds_locked :
      {s : State} {v_before v : ℕ}
      → s.place ≡ loaded v_before v
      → lock_bit s.owner ≡ true
      → Read s (record s { place = aborted })
  finds_same :
      {s : State} {v_before v : ℕ}
      → s.place ≡ unlocked v_before v
      → s.version ≡ v_before
      → Read s (record s { place = same v_before v })
  finds_other :
      {s : State} {v_before v : ℕ}
      → s.place ≡ unlocked v_before v
      → s.version ≢ v_before
      → Read s (record s { place = aborted })
  finds_old :
      {s : State} {v_before v : ℕ}
      → s.place ≡ same v_before v
      → s.version ≤ s.rv
      → Read s (record s { place = returned v })
  finds_new :
      {s : State} {v_before v : ℕ}
      → s.place ≡ same v_before v
      → s.rv < s.version
      → Read s (record s { place = aborted })
  goes_on : {s : State} {v : ℕ} → s.place ≡ returned v → Read s (record s { place = ready })

pub data Reach (s : State) : State → Type 0 where
  here : Reach s s
  writes : {t u : State} → Reach s t → Write t u → Reach s u
  reads : {t u : State} → Reach s t → Read t u → Reach s u
