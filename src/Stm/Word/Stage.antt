-- ===== src/Stm/Word/Stage.antt =====
-- What the progress of its owner and the locals of a reader say of a word of Stm.Word.
use software_transactional_m.Prelude.{
  ℕ, ◌+◌, ◌≡◌, refl, sym, ◌<◌, ◌≤◌, ◌⊎◌, inl, inr, false, List, [], ◌∷◌, arith, ◌∙◌,
}
use native.Mathlib.Decide.{dec_le}
use software_transactional_m.Stm.Word.{
  Owner, nobody, locking, ticked, copied, stamped, lock_bit, Place, outside, ready, sampled, loaded,
  unlocked, same, returned, aborted, at,
}

-- The last clock value of the word, and the value that came with it.
abbrev pub newest : List (ℕ × ℕ) → ℕ
newest [] = 0
newest ((wv, v) ∷ log) = wv

abbrev pub top : List (ℕ × ℕ) → ℕ
top [] = 0
top ((wv, v) ∷ log) = v

at-top : (rv : ℕ) (log : List (ℕ × ℕ)) → newest log ≤ rv → at rv log ≡ top log
at-top rv [] h = refl
at-top rv ((wv, v) ∷ log) h = ground arith

-- What the owner's progress says of the word.
abbrev pub Owned : Owner → (version clock newest : ℕ) → Type 0
Owned (ticked wv v) version clock n = (version ≡ n) × (n < wv) × (wv ≤ clock)
Owned (copied wv) version clock n = (n ≡ wv) × (version < wv)
Owned _ version clock n = version ≡ n

-- No writer that may still copy has a clock value up to `rv`.
abbrev pub Closed : ℕ → Owner → Type 0
Closed rv (ticked wv v) = rv < wv
Closed rv _ = Unit

-- The value at `rv` is `v`, and stays so.
abbrev pub Settled : (rv v : ℕ) → Owner → List (ℕ × ℕ) → Type 0
Settled rv v o log = (at rv log ≡ v) × Closed rv o

-- What the locals of the reader say of the word.
abbrev pub Seen : Place → (rv version : ℕ) → Owner → List (ℕ × ℕ) → Type 0
Seen (sampled v_before) rv version o log = v_before ≤ version
Seen (loaded v_before v) rv version o log =
    (v_before ≤ version) × ((v_before < newest log) ⊎ (v ≡ top log))
Seen (unlocked v_before v) rv version o log =
    (v_before ≤ version) × ((v_before < version) ⊎ ((rv < v_before) ⊎ Settled rv v o log))
Seen (same v_before v) rv version o log =
    (v_before ≤ version) × ((rv < v_before) ⊎ Settled rv v o log)
Seen (returned v) rv version o log = Settled rv v o log
Seen _ rv version o log = Unit

module _ (rv version : ℕ) (log : List (ℕ × ℕ)) where
  -- The owner goes on to a place in which it has no value to copy.
  pub Seen-owner :
      (o o' : Owner) (p : Place)
      → ((v : ℕ) → Settled rv v o log → Settled rv v o' log)
      → Seen p rv version o log
      → Seen p rv version o' log
  Seen-owner o o' outside k h = tt
  Seen-owner o o' ready k h = tt
  Seen-owner o o' (sampled v_before) k h = h
  Seen-owner o o' (loaded v_before v) k h = h
  Seen-owner o o' (unlocked v_before v) k (le, inl h) = (le, inl h)
  Seen-owner o o' (unlocked v_before v) k (le, inr (inl h)) = (le, inr (inl h))
  Seen-owner o o' (unlocked v_before v) k (le, inr (inr h)) = (le, inr (inr (k v h)))
  Seen-owner o o' (same v_before v) k (le, inl h) = (le, inl h)
  Seen-owner o o' (same v_before v) k (le, inr h) = (le, inr (k v h))
  Seen-owner o o' (returned v) k h = k v h
  Seen-owner o o' aborted k h = tt

  -- The owner stamps the word.
  pub Seen-stamp :
      (version' : ℕ) (wv : ℕ) (p : Place)
      → version ≤ version'
      → Seen p rv version (copied wv) log
      → Seen p rv version' stamped log
  Seen-stamp version' wv outside le h = tt
  Seen-stamp version' wv ready le h = tt
  Seen-stamp version' wv (sampled v_before) le h = omega arith
  Seen-stamp version' wv (loaded v_before v) le (h, k) = (omega arith, k)
  Seen-stamp version' wv (unlocked v_before v) le (h, inl k) = (omega arith, inl (omega arith))
  Seen-stamp version' wv (unlocked v_before v) le (h, inr k) = (omega arith, inr k)
  Seen-stamp version' wv (same v_before v) le (h, k) = (omega arith, k)
  Seen-stamp version' wv (returned v) le h = h
  Seen-stamp version' wv aborted le h = tt

  -- The owner copies its value.
  pub Settled-copy :
      (wv v' v : ℕ) → Settled rv v (ticked wv v') log → Settled rv v (copied wv) ((wv, v') ∷ log)
  Settled-copy wv v' v (value, closed) = ground arith

  pub Seen-copy :
      (wv v' : ℕ) (p : Place)
      → version < wv
      → Seen p rv version (ticked wv v') log
      → Seen p rv version (copied wv) ((wv, v') ∷ log)
  Seen-copy wv v' outside lt h = tt
  Seen-copy wv v' ready lt h = tt
  Seen-copy wv v' (sampled v_before) lt h = h
  Seen-copy wv v' (loaded v_before v) lt (h, k) = (h, inl (omega arith))
  Seen-copy wv v' (unlocked v_before v) lt (h, inl k) = (h, inl k)
  Seen-copy wv v' (unlocked v_before v) lt (h, inr (inl k)) = (h, inr (inl k))
  Seen-copy wv v' (unlocked v_before v) lt (h, inr (inr k)) =
      (h, inr (inr (Settled-copy wv v' v k)))
  Seen-copy wv v' (same v_before v) lt (h, inl k) = (h, inl k)
  Seen-copy wv v' (same v_before v) lt (h, inr k) = (h, inr (Settled-copy wv v' v k))
  Seen-copy wv v' (returned v) lt h = Settled-copy wv v' v h
  Seen-copy wv v' aborted lt h = tt

-- The clock goes on without the owner.
pub Owned-tick :
    (o : Owner) (version clock n : ℕ) → Owned o version clock n → Owned o version (clock + 1) n
Owned-tick nobody version clock n h = h
Owned-tick locking version clock n h = h
Owned-tick (ticked wv v) version clock n (a, b, c) = (a, b, omega arith)
Owned-tick (copied wv) version clock n h = h
Owned-tick stamped version clock n h = h

-- The lock bit was free: the version is that of the value in the word.
pub free-Seen :
    (o : Owner) (rv v_before v version clock : ℕ) (log : List (ℕ × ℕ))
    → lock_bit o ≡ false
    → Owned o version clock (newest log)
    → Seen (loaded v_before v) rv version o log
    → Seen (unlocked v_before v) rv version o log
free-Seen nobody rv b v version clock log free own (le, inl k) = (le, inl (omega arith))
free-Seen nobody rv b v version clock log free own (le, inr k) = elim (dec_le (newest log) rv) [
  | yes old ↦ (le, inr (inr (at-top rv log old ∙ sym k, tt)))
  | no new ↦ elim (dec_le version b) [
    | yes eq ↦ (le, inr (inl (omega arith)))
    | no lt ↦ (le, inl (omega arith))
  ]
]
free-Seen locking rv b v version clock log free own h = absurd (cc)
free-Seen (ticked wv v') rv b v version clock log free own h = absurd (cc)
free-Seen (copied wv) rv b v version clock log free own h = absurd (cc)
free-Seen stamped rv b v version clock log free own h = absurd (cc)

-- The version is the one before the load.
pub same-Seen :
    (o : Owner) (rv v_before v version : ℕ) (log : List (ℕ × ℕ))
    → version ≡ v_before
    → Seen (unlocked v_before v) rv version o log
    → Seen (same v_before v) rv version o log
same-Seen o rv b v version log e (le, inl k) = absurd (omega arith)
same-Seen o rv b v version log e (le, inr k) = (le, k)

pub old-Seen :
    (o : Owner) (rv v_before v version : ℕ) (log : List (ℕ × ℕ))
    → version ≤ rv
    → Seen (same v_before v) rv version o log
    → Settled rv v o log
old-Seen o rv b v version log old (le, inl k) = absurd (omega arith)
old-Seen o rv b v version log old (le, inr k) = k
