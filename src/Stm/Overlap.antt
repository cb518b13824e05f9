-- ===== src/Stm/Overlap.antt =====
-- tm_end of 353055/tm.c, access by access, for two transactions that overlap: each has read one word and
-- written another one, the word that the other transaction has read. acquireLocks, releaseLocks, validate
-- and writeToLocations of helper_functions.h are their accesses to these words.
pub mod Skew
pub mod Tests
use software_transactional_m.Prelude.{ℕ, ◌+◌, ◌%◌, ◌^◌, ◌≡◌, ◌≢◌, ◌<◌, ◌≤◌, Bool, true, false}

pub record Cell : Type 0 where
  pub value : ℕ
  pub version : ℕ
  pub lock_bit : Bool

-- Where a transaction is in tm_end: before the compare-and-swap; past it; with the clock value `wv`,
-- before the first and the second test of `validate`; before releaseLocks; before the three accesses of
-- writeToLocations; past the end.
pub data Stage : Type 0 where
  acquiring locked : Stage
  validating version_passed publishing copied : (wv : ℕ) → Stage
  releasing stamped committed failed : Stage

-- The accesses of a transaction that began at the clock value `rv`, has read the first cell and wants `v`
-- in the second one. A clock value next to `rv` needs no validation. The word that it has read is not in
-- its write set, so it does not hold that lock itself.
pub data End (rv v : ℕ) : Cell → Cell → ℕ → Stage → Cell → Cell → ℕ → Stage → Type 0 where
  acquires :
      {r w : Cell} {c : ℕ}
      → w.lock_bit ≡ false
      → End rv v r w c acquiring r (record w { lock_bit = true }) c locked
  is_refused : {r w : Cell} {c : ℕ} → w.lock_bit ≡ true → End rv v r w c acquiring r w c failed
  ticks_next :
      {r w : Cell} {c : ℕ} → c + 1 ≡ rv + 1 → End rv v r w c locked r w (c + 1) (publishing (c + 1))
  ticks :
      {r w : Cell} {c : ℕ} → c + 1 ≢ rv + 1 → End rv v r w c locked r w (c + 1) (validating (c + 1))
  finds_old :
      {r w : Cell} {c wv : ℕ}
      → r.version ≤ rv
      → End rv v r w c (validating wv) r w c (version_passed wv)
  finds_new :
      {r w : Cell} {c wv : ℕ} → rv < r.version → End rv v r w c (validating wv) r w c releasing
  finds_free :
      {r w : Cell} {c wv : ℕ}
      → r.lock_bit ≡ false
      → End rv v r w c (version_passed wv) r w c (publishing wv)
  finds_locked :
      {r w : Cell} {c wv : ℕ}
      → r.lock_bit ≡ true
      → End rv v r w c (version_passed wv) r w c releasing
  releases :
      {r w : Cell} {c : ℕ} → End rv v r w c releasing r (record w { lock_bit = false }) c failed
  copies :
      {r w : Cell} {c wv : ℕ}
      → End rv v r w c (publishing wv) r (record w { value = v }) c (copied wv)
  stamps :
      {r w : Cell} {c wv : ℕ}
      → End rv v r w c (copied wv) r (record w { version = wv % 2 ^ 32 }) c stamped
  unlocks :
      {r w : Cell} {c : ℕ} → End rv v r w c stamped r (record w { lock_bit = false }) c committed

-- The words, the clock, and how far the two transactions are.
pub record Ends : Type 0 where
  pub x : Cell
  pub y : Cell
  pub global_clock : ℕ
  pub first : Stage
  pub second : Stage

-- The first transaction has read `x` and writes `v` to `y`, the second has read `y` and writes `w` to `x`.
pub data Step (rv v w : ℕ) : Ends → Ends → Type 0 where
  first_goes :
      {x y x' y' : Cell} {c c' : ℕ} {p p' q : Stage}
      → End rv v x y c p x' y' c' p'
      → Step rv v w
          (record { x = x; y = y; global_clock = c; first = p; second = q })
          (record { x = x'; y = y'; global_clock = c'; first = p'; second = q })
  second_goes :
      {x y x' y' : Cell} {c c' : ℕ} {p q q' : Stage}
      → End rv w y x c q y' x' c' q'
      → Step rv v w
          (record { x = x; y = y; global_clock = c; first = p; second = q })
          (record { x = x'; y = y'; global_clock = c'; first = p; second = q' })

pub data Reach (rv v w : ℕ) (s : Ends) : Ends → Type 0 where
  here : Reach rv v w s s
  next : {t u : Ends} → Reach rv v w s t → Step rv v w t u → Reach rv v w s u

-- Both have begun at the clock value `rv`, read `a` in `x` and `b` in `y`, and call tm_end.
abbrev pub both_call : (rv a b : ℕ) → Ends
both_call rv a b = record {
  x = record { value = a; version = rv; lock_bit = false };
  y = record { value = b; version = rv; lock_bit = false };
  global_clock = rv;
  first = acquiring;
  second = acquiring;
}
