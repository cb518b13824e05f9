-- ===== src/Stm/Commit/Cases.antt =====
-- All the outcomes of `tm_end` on a well-formed transaction.
use software_transactional_m.Prelude.{
  ℕ, ◌+◌, ◌%◌, ◌^◌, ◌<◌, ◌≡◌, refl, Bool, true, false, not, ◌&&◌, ◌||◌, some, List, [], ◌∷◌, arith,
  ltb, ◌==◌, inl, inr, if◌then◌else◌, All-mono, Bool-cases, All, is_some,
}
use software_transactional_m.Stm.Types.{
  MemoryRegion, LlNode, World, Transaction, locks, versions, with_locks, lock_at, version_at,
}
use software_transactional_m.Stm.Locks.{validate, get_write_node, is_null}
use software_transactional_m.Stm.Locks.Acquire.{
  acquirable, marked, InSegments, acquire_locks_lem, release_locks-all, marked-marked,
  acquirable-free,
}
use software_transactional_m.Stm.Locks.Publish.{
  IsLaidOut, IsRead, IsWrite, published, stamped, with_state, write_to_locations-state,
  at_time-IsLaidOut, at_time-IsWrite,
}
use software_transactional_m.Stm.Begin.{clean_transaction}
use software_transactional_m.Stm.Commit.{validate_all, tick, finish, commit, tm_end}

-- A read still stands: its version is not newer than `rv`, and its word is free or written by the
-- transaction itself.
abbrev pub still_valid : MemoryRegion → List LlNode → ℕ → LlNode → Bool
still_valid r ws rv n =
    not (ltb rv (versions r n.corresponding_segment n.word_num))
    && not (locks r n.corresponding_segment n.word_num && is_null (get_write_node n.location ws))

abbrev pub all_valid : MemoryRegion → List LlNode → ℕ → List LlNode → Bool
all_valid r ws rv [] = true
all_valid r ws rv (n ∷ ns) = still_valid r ws rv n && all_valid r ws rv ns

validate-some :
    (r : MemoryRegion) (n : LlNode) (ws : List LlNode) (rv : ℕ)
    → n.word_num < (r.segments_list n.corresponding_segment).num_words
    → validate r n ws rv ≡ some (still_valid r ws rv n)
unfolding validate lock_at version_at
validate-some r n ws rv h = ground arith

validate_all-some :
    (r : MemoryRegion) (ns ws : List LlNode) (rv : ℕ)
    → InSegments r ns
    → validate_all r ns ws rv ≡ some (all_valid r ws rv ns)
unfolding validate_all
validate_all-some r [] ws rv h = refl
validate_all-some r (n ∷ ns) ws rv h =
    rw (validate-some r n ws rv h.0) (ground (arith, validate_all-some r ns ws rv h.1))

-- The world after a commit: every value written, every written word stamped with the new clock, and
-- the locks as before.
abbrev pub committed : World → Transaction → World
committed w t =
    let r = w.region in
    record {
      memory = published w.memory t.write_addresses;
      region =
          record (with_state r (locks r)
            (stamped (versions r) t.write_addresses (tick r % 2 ^ 32))) { global_clock = tick r };
    }

-- The world after a commit that was given up in validation: only the clock has moved.
abbrev pub ticked : World → World
ticked w = record w { region = record w.region { global_clock = tick w.region } }

-- What `tm_end` relies on: the region is laid out, and the read and write sets name its words.
pub record IsReady (w : World) (t : Transaction) : Type 0 where
  pub laid_out : IsLaidOut w.memory.limit w.region
  pub writes : All (IsWrite w.region) t.write_addresses
  pub reads : All (IsRead w.region) t.read_addresses

IsWrite-InSegments :
    {w : World} {t : Transaction} → IsReady w t → InSegments w.region t.write_addresses
IsWrite-InSegments {w} {t} h =
    All-mono (IsWrite w.region) _ (λ n i. i.in_words) t.write_addresses h.writes

reads-InSegments :
    {w : World} {t : Transaction} → IsReady w t → InSegments w.region t.read_addresses
reads-InSegments {w} {t} h =
    All-mono (IsRead w.region) _ (λ n i. i.in_words) t.read_addresses h.reads

-- No other transaction has taken a clock value since this one began, or every read still stands.
abbrev pub passes : World → Transaction → Bool
passes w t =
    let r = w.region in
    (tick r == (t.rv + 1) % 2 ^ 32)
    || all_valid (with_locks r (marked (locks r) t.write_addresses true)) t.write_addresses t.rv
        t.read_addresses

-- The outcome for a transaction that wrote something.
abbrev pub attempt : World → Transaction → Bool × World
attempt w t =
    if acquirable (locks w.region) t.write_addresses
    then (if passes w t then (true, committed w t) else (false, ticked w))
    else (false, w)

or-some : (a b : Bool) → (if a then some true else some b) ≡ some (a || b)
or-some a b = ground arith

module _ (w : World) (t : Transaction) (h : IsReady w t) where
  abbrev held : World
  held = record w {
    region = record (with_locks w.region (marked (locks w.region) t.write_addresses true)) {
      global_clock = tick w.region;
    };
  }

  unlocked :
      acquirable (locks w.region) t.write_addresses ≡ true
      → marked (marked (locks w.region) t.write_addresses true) t.write_addresses false
        ≡ locks w.region
  unlocked e =
      marked-marked w.region (locks w.region) t.write_addresses
        (acquirable-free (locks w.region) t.write_addresses e)

  finish-passes :
      acquirable (locks w.region) t.write_addresses ≡ true
      → passes w t ≡ true
      → finish held t (tick w.region) ≡ some (true, committed w t)
  unfolding finish
  finish-passes e p =
      let r = w.region in
      let ws = t.write_addresses in
      let f = marked (locks r) ws true in
      let out =
        write_to_locations-state held.region ws (tick r) w.memory f (versions r)
          (at_time-IsLaidOut (tick r) f (versions r) h.laid_out)
          (at_time-IsWrite r (tick r) f (versions r) ws h.writes) in
      rw (
        validate_all-some held.region t.read_addresses ws t.rv (reads-InSegments h),
        or-some,
        p,
        out,
        unlocked e,
      )

  finish-fails :
      acquirable (locks w.region) t.write_addresses ≡ true
      → passes w t ≡ false
      → finish held t (tick w.region) ≡ some (false, ticked w)
  unfolding finish
  finish-fails e p =
      let r = w.region in
      let ws = t.write_addresses in
      rw (
        validate_all-some held.region t.read_addresses ws t.rv (reads-InSegments h),
        or-some,
        p,
        release_locks-all held.region (locks held.region) ws (IsWrite-InSegments h),
        unlocked e,
      )

  pub commit-cases : commit w t ≡ some (attempt w t)
  unfolding commit
  commit-cases = elim (Bool-cases (acquirable (locks w.region) t.write_addresses)) [
    | inl free ↦
        rw (acquire_locks_lem w.region t.write_addresses (IsWrite-InSegments h), free)
          (elim (Bool-cases (passes w t)) [
            | inl good ↦ rw (finish-passes free good, good)
            | inr bad ↦ rw (finish-fails free bad, bad)
          ])
    | inr taken ↦ rw (acquire_locks_lem w.region t.write_addresses (IsWrite-InSegments h), taken)
  ]

-- What `tm_end` answers, and the world that it leaves.
abbrev pub outcome : World → Transaction → Bool × World
outcome w t = if t.is_ro || is_null t.write_addresses then (true, w) else attempt w t

-- `tm_end` of a well-formed transaction returns on every branch. A read-only transaction, or one
-- that wrote nothing, succeeds and changes nothing. If a lock of the write set is held, or a word
-- stands twice in it, the call fails and changes nothing; if another transaction has taken a clock
-- value in between and a read does not stand, it fails and has moved only the clock; else it commits.
pub tm_end-cases :
    (w : World) (t : Transaction)
    → IsReady w t
    → is_some t.filter ≡ true
    → tm_end w t ≡ some (outcome w t)
unfolding tm_end clean_transaction
tm_end-cases w t h f =
    rw (commit-cases w t h, f)
      (elim (Bool-cases t.is_ro) [
        | inl ro ↦ rw ro
        | inr rw_ ↦ elim (Bool-cases (is_null t.write_addresses)) [
          | inl empty ↦ rw (rw_, empty)
          | inr full ↦ rw (rw_, full)
        ]
      ])
