-- ===== src/Reference/Library/Exclusion.antt =====
-- reference/tm.c: tm_begin and tm_end let read-only transactions share the region, and others not.
use software_transactional_m.Prelude.{
  ℕ, ◌+◌, ◌-◌, ◌≡◌, ◌≢◌, ◌≤◌, refl, sym, subst, ◌∙◌, ◌⊎◌, inl, inr, Bool, true, false, List, [],
  ◌∷◌, length, ◌==◌, if◌then◌else◌, Bool-cases, ==→eq, arith,
}
use software_transactional_m.Reference.Library.{
  PosixLock, invalid_tx, read_only_tx, read_write_tx, shared_lock_acquire,
  shared_lock_acquire_shared, shared_lock_release, shared_lock_release_shared, tm_begin, tm_end,
}

-- What POSIX says of a reader-writer lock: who holds it, and that a call that returns 0 has been
-- granted. A call that would block has not returned.
pub record IsRwlock {L : Type 0} (posix : PosixLock L) : Type 0 where
  pub readers : L → ℕ
  pub writing : L → Bool
  pub rdlock_grants :
      (l : L)
      → (posix.rdlock l).0 ≡ 0
      → (writing l ≡ false)
        × (readers (posix.rdlock l).1 ≡ readers l + 1)
        × (writing (posix.rdlock l).1 ≡ false)
  pub rdlock_refuses :
      (l : L)
      → (posix.rdlock l).0 ≢ 0
      → (readers (posix.rdlock l).1 ≡ readers l) × (writing (posix.rdlock l).1 ≡ writing l)
  pub wrlock_grants :
      (l : L)
      → (posix.wrlock l).0 ≡ 0
      → (writing l ≡ false)
        × (readers l ≡ 0)
        × (readers (posix.wrlock l).1 ≡ 0)
        × (writing (posix.wrlock l).1 ≡ true)
  pub wrlock_refuses :
      (l : L)
      → (posix.wrlock l).0 ≢ 0
      → (readers (posix.wrlock l).1 ≡ readers l) × (writing (posix.wrlock l).1 ≡ writing l)
  pub unlock_writer :
      (l : L)
      → writing l ≡ true
      → (readers (posix.unlock l) ≡ readers l) × (writing (posix.unlock l) ≡ false)
  pub unlock_reader :
      (l : L)
      → writing l ≡ false
      → (readers (posix.unlock l) ≡ readers l - 1) × (writing (posix.unlock l) ≡ false)

abbrev pub count : ℕ → List ℕ → ℕ
count x [] = 0
count x (y ∷ ys) = (if x == y then 1 else 0) + count x ys

abbrev pub remove : ℕ → List ℕ → List ℕ
remove x [] = []
remove x (y ∷ ys) = if x == y then ys else y ∷ remove x ys

-- What the threads do: begin a transaction, or end one that runs.
pub data Call : Type 0 where
  begins : (is_ro : Bool) → Call
  ends : (tx : ℕ) → Call

count-remove :
    (x y : ℕ) (ts : List ℕ)
    → count x ts ≢ 0
    → count y (remove x ts) + (if y == x then 1 else 0) ≡ count y ts
count-remove x y [] h = absurd (h refl)
count-remove x y (t ∷ ts) h = ground (arith, count-remove x y ts)

length-remove : (x : ℕ) (ts : List ℕ) → count x ts ≢ 0 → length (remove x ts) + 1 ≡ length ts
length-remove x [] h = absurd (h refl)
length-remove x (t ∷ ts) h = ground (arith, length-remove x ts)

count-known :
    (x : ℕ) (ts : List ℕ)
    → (x ≡ read_only_tx)
      ⊎ (x ≡ read_write_tx)
      ⊎ (count x ts + count read_only_tx ts + count read_write_tx ts ≤ length ts)
count-known x [] = inr (inr (omega arith))
count-known x (t ∷ ts) = let rest = count-known x ts in ground arith

only : (ts : List ℕ) → count read_write_tx ts ≡ 1 → length ts ≡ 1 → ts ≡ read_write_tx ∷ []
only [] h l = absurd (omega arith)
only (t ∷ []) h l = ground arith
only (t ∷ u ∷ ts) h l = absurd (omega arith)

module _ {L : Type 0} (posix : PosixLock L) where
  -- The lock, and the transactions that run.
  unfoldable pub call : Call → L × List ℕ → L × List ℕ
  unfolding tm_begin tm_end
  call (begins is_ro) (l, txs) =
      let (tx, l') = tm_begin posix is_ro l in (l', if tx == invalid_tx then txs else tx ∷ txs)
  call (ends tx) (l, txs) =
      if count tx txs == 0 then (l, txs) else ((tm_end posix tx l).1, remove tx txs)

  unfoldable pub calls : List Call → L × List ℕ → L × List ℕ
  calls [] s = s
  calls (c ∷ cs) s = calls cs (call c s)

module _ {L : Type 0} (posix : PosixLock L) (rw_lock : IsRwlock posix) where
  open rw_lock use {readers, writing}

  pub record Agrees (s : L × List ℕ) : Type 0 where
    pub shared : readers s.0 ≡ count read_only_tx s.1
    pub all_known : length s.1 ≡ count read_only_tx s.1 + count read_write_tx s.1
    pub side :
        ((writing s.0 ≡ true) × (count read_write_tx s.1 ≡ 1) × (count read_only_tx s.1 ≡ 0))
        ⊎ ((writing s.0 ≡ false) × (count read_write_tx s.1 ≡ 0))

  begins_shared :
      (l : L) (txs : List ℕ) → Agrees (l, txs) → Agrees (call posix (begins true) (l, txs))
  unfolding call shared_lock_acquire_shared
  begins_shared l txs a = elim (Bool-cases ((posix.rdlock l).0 == 0)) [
    | inl granted ↦
        let (x, y, z) = rw_lock.rdlock_grants l (==→eq _ 0 granted) in
        let e : call posix (begins true) (l, txs) ≡ ((posix.rdlock l).1, read_only_tx ∷ txs) =
          rw granted refl in
        subst Agrees (sym e) (record {
          shared = omega (arith, y, a.shared);
          all_known = omega (arith, a.all_known);
          side = elim (a.side) [
            | inl (u, v, t) ↦ absurd (cc)
            | inr (u, v) ↦ inr (z, omega (arith, v))
          ];
        })
    | inr refused ↦
        let (x, y) = rw_lock.rdlock_refuses l (λ h. ground arith) in
        let e : call posix (begins true) (l, txs) ≡ ((posix.rdlock l).1, txs) = rw refused refl in
        subst Agrees (sym e)
          (record { shared = x ∙ a.shared; all_known = a.all_known; side = rw y (a.side) })
  ]

  begins_alone :
      (l : L) (txs : List ℕ) → Agrees (l, txs) → Agrees (call posix (begins false) (l, txs))
  unfolding call shared_lock_acquire
  begins_alone l txs a = elim (Bool-cases ((posix.wrlock l).0 == 0)) [
    | inl granted ↦
        let (x, y, z, v) = rw_lock.wrlock_grants l (==→eq _ 0 granted) in
        let e : call posix (begins false) (l, txs) ≡ ((posix.wrlock l).1, read_write_tx ∷ txs) =
          rw granted refl in
        subst Agrees (sym e) (record {
          shared = omega (arith, y, z, a.shared);
          all_known = omega (arith, a.all_known);
          side = elim (a.side) [
            | inl (u, f, t) ↦ absurd (cc)
            | inr (u, f) ↦ inl (v, omega (arith, f), omega (arith, y, a.shared))
          ];
        })
    | inr refused ↦
        let (x, y) = rw_lock.wrlock_refuses l (λ h. ground arith) in
        let e : call posix (begins false) (l, txs) ≡ ((posix.wrlock l).1, txs) = rw refused refl in
        subst Agrees (sym e)
          (record { shared = x ∙ a.shared; all_known = a.all_known; side = rw y (a.side) })
  ]

  tm_end-unlocks : (tx : ℕ) (l : L) → (tm_end posix tx l).1 ≡ posix.unlock l
  unfolding tm_end shared_lock_release shared_lock_release_shared
  tm_end-unlocks tx l = elim (Bool-cases (tx == read_only_tx)) [
    | inl e ↦ rw e refl
    | inr e ↦ rw e refl
  ]

  -- A transaction that ends is the writer, or one of the readers.
  ends_own :
      (tx : ℕ) (l : L) (txs : List ℕ)
      → Agrees (l, txs)
      → count tx txs ≢ 0
      → Agrees (posix.unlock l, remove tx txs)
  ends_own tx l txs a h =
      let ro = count-remove tx read_only_tx txs h in
      let wr = count-remove tx read_write_tx txs h in
      let len = length-remove tx txs h in
      let known = count-known tx txs in
      elim (a.side) [
        | inl (u, f, t) ↦
            let (x, y) = rw_lock.unlock_writer l u in
            let own : tx ≡ read_write_tx = ground arith in
            record { shared = ground arith; all_known = ground arith; side = inr (y, ground arith) }
        | inr (u, f) ↦
            let (x, y) = rw_lock.unlock_reader l u in
            let own : tx ≡ read_only_tx = ground arith in
            record { shared = ground arith; all_known = ground arith; side = inr (y, ground arith) }
      ]

  call-Agrees : (c : Call) (s : L × List ℕ) → Agrees s → Agrees (call posix c s)
  unfolding call
  call-Agrees (begins true) (l, txs) a = begins_shared l txs a
  call-Agrees (begins false) (l, txs) a = begins_alone l txs a
  call-Agrees (ends tx) (l, txs) a = elim (Bool-cases (count tx txs == 0)) [
    | inl e ↦ rw e a
    | inr e ↦ rw (e, tm_end-unlocks tx l) (ends_own tx l txs a (λ h. ground arith))
  ]

  calls-Agrees : (cs : List Call) (s : L × List ℕ) → Agrees s → Agrees (calls posix cs s)
  unfolding calls
  calls-Agrees [] s a = a
  calls-Agrees (c ∷ cs) s a = calls-Agrees cs (call posix c s) (call-Agrees c s a)

  -- On a lock that grants as POSIX says, and from a free one on: after any calls of `tm_begin`, and of
  -- `tm_end` for transactions that run, no read-write transaction runs, or it is the only transaction.
  pub calls-exclusive :
      (cs : List Call) (l : L)
      → readers l ≡ 0
      → writing l ≡ false
      → (count read_write_tx (calls posix cs (l, [])).1 ≡ 0)
        ⊎ ((calls posix cs (l, [])).1 ≡ read_write_tx ∷ [])
  calls-exclusive cs l free idle =
      let a =
        calls-Agrees cs (l, [])
          (record { shared = free; all_known = refl; side = inr (idle, refl) }) in
      elim (a.side) [
        | inl (u, f, t) ↦ inr (only (calls posix cs (l, [])).1 f (omega (arith, a.all_known)))
        | inr (u, f) ↦ inl f
      ]
