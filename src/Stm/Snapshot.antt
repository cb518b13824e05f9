-- ===== src/Stm/Snapshot.antt =====
-- Between calls: what holds of the shared world, and what a transaction may still find of the world
-- in which it began.
use software_transactional_m.Prelude.{
  ℕ, ◌+◌, ◌*◌, ◌%◌, ◌^◌, ◌≤◌, ◌<◌, ◌≡◌, refl, sym, ◌∙◌, Bool, true, false, ◌||◌, some, arith, inl,
  inr, All-mono, Bool-cases, is_some, subst,
}
use software_transactional_m.Stm.Memory.{bytes}
use software_transactional_m.Stm.Types.{LlNode, World, Transaction, locks, versions}
use software_transactional_m.Stm.Locks.{is_null}
use software_transactional_m.Stm.Locks.Acquire.{has, acquirable}
use software_transactional_m.Stm.Locks.Publish.{
  Allocated, address_of, IsLaidOut, IsRead, IsWrite, published, stamped, published_apart,
  limit-published, at_time-IsLaidOut,
}
use software_transactional_m.Stm.Begin.{clean_transaction}
use software_transactional_m.Stm.Commit.{tick, tm_end}
use software_transactional_m.Stm.Commit.Cases.{
  IsReady, committed, ticked, passes, outcome, tm_end-cases,
}

-- Between calls the region is laid out, no lock is held, and no word is newer than the clock.
pub record IsQuiet (w : World) : Type 0 where
  pub laid_out : IsLaidOut w.memory.limit w.region
  pub unlocked : (k x : ℕ) → locks w.region k x ≡ false
  pub not_newer : (k x : ℕ) → versions w.region k x ≤ w.region.global_clock

-- `w` comes after `w₀`: the segments of `w₀` are where they were, and every word whose version is
-- not newer than the clock of `w₀` holds the bytes that it held in `w₀`.
pub record Since (w₀ w : World) : Type 0 where
  pub same_limit : w.memory.limit ≡ w₀.memory.limit
  pub same_align : w.region.align ≡ w₀.region.align
  pub more_allocs : w₀.region.num_allocs ≤ w.region.num_allocs
  pub later : w₀.region.global_clock ≤ w.region.global_clock
  pub same_start :
      (k : ℕ)
      → Allocated w₀.region k
      → (w.region.segments_list k).segment_start ≡ (w₀.region.segments_list k).segment_start
  pub same_words :
      (k : ℕ)
      → Allocated w₀.region k
      → (w.region.segments_list k).num_words ≡ (w₀.region.segments_list k).num_words
  pub unchanged :
      (k x : ℕ)
      → Allocated w₀.region k
      → x < (w₀.region.segments_list k).num_words
      → versions w.region k x ≤ w₀.region.global_clock
      → bytes w.memory (address_of w₀.region k x) w₀.region.align
        ≡ bytes w₀.memory (address_of w₀.region k x) w₀.region.align

pub Since-refl : (w : World) → Since w w
Since-refl w = record {
  same_limit = refl;
  same_align = refl;
  more_allocs = omega arith;
  later = omega arith;
  same_start = λ k a. refl;
  same_words = λ k a. refl;
  unchanged = λ k x a h v. refl;
}

-- The clock has room for one more commit before versions wrap at 32 bits.
abbrev pub HasRoom : World → Type 0
HasRoom w = w.region.global_clock + 1 < 2 ^ 32

module _ (w : World) (t : Transaction) (q : IsQuiet w) (room : HasRoom w) where
  ticked-IsQuiet : IsQuiet (ticked w)
  ticked-IsQuiet = record {
    laid_out = at_time-IsLaidOut (tick w.region) (locks w.region) (versions w.region) q.laid_out;
    unlocked = q.unlocked;
    not_newer = λ k x. omega (arith, q.not_newer k x);
  }

  committed-IsQuiet : IsReady w t → IsQuiet (committed w t)
  committed-IsQuiet h = record {
    laid_out =
        subst (λ l. IsLaidOut l (committed w t).region)
          (sym (limit-published w.region w.memory t.write_addresses))
          (at_time-IsLaidOut (tick w.region) (locks w.region)
            (stamped (versions w.region) t.write_addresses (tick w.region % 2 ^ 32)) q.laid_out);
    unlocked = q.unlocked;
    not_newer = λ k x. ground (arith, q.not_newer k x);
  }

  module _ (w₀ : World) (since : Since w₀ w) where
    ticked-Since : Since w₀ (ticked w)
    ticked-Since = record {
      same_limit = since.same_limit;
      same_align = since.same_align;
      more_allocs = since.more_allocs;
      later = omega (arith, since.later);
      same_start = since.same_start;
      same_words = since.same_words;
      unchanged = since.unchanged;
    }

    committed-unchanged :
        IsReady w t
        → (k x : ℕ) → Allocated w₀.region k
        → x < (w₀.region.segments_list k).num_words
        → versions (committed w t).region k x ≤ w₀.region.global_clock
        → bytes (committed w t).memory (address_of w₀.region k x) w₀.region.align
          ≡ bytes w₀.memory (address_of w₀.region k x) w₀.region.align
    committed-unchanged h k x a i v = elim (Bool-cases (has k x t.write_addresses)) [
      | inl written ↦ absurd (ground (arith, since.later))
      | inr spared ↦
          subst
            (λ s.
              bytes (published w.memory t.write_addresses) (s + x * w₀.region.align) w₀.region.align
              ≡ bytes w.memory (s + x * w₀.region.align) w₀.region.align)
            (since.same_start k a)
            (subst
              (λ al.
                bytes (published w.memory t.write_addresses)
                  ((w.region.segments_list k).segment_start + x * al) al
                ≡ bytes w.memory ((w.region.segments_list k).segment_start + x * al) al)
              since.same_align
              (published_apart w.region w.memory t.write_addresses h.laid_out h.writes k x
                (omega (arith, a, since.more_allocs)) (omega (arith, since.same_words k a)) spared))
          ∙ since.unchanged k x a i (ground (arith))
    ]

    committed-Since : IsReady w t → Since w₀ (committed w t)
    committed-Since h = record {
      same_limit = limit-published w.region w.memory t.write_addresses ∙ since.same_limit;
      same_align = since.same_align;
      more_allocs = since.more_allocs;
      later = omega (arith, since.later);
      same_start = since.same_start;
      same_words = since.same_words;
      unchanged = committed-unchanged h;
    }

outcome-elim :
    (P : World → Type 0) (w : World) (t : Transaction)
    → P w
    → P (ticked w)
    → P (committed w t)
    → P (outcome w t).1
outcome-elim P w t a b c = elim (Bool-cases (t.is_ro || is_null t.write_addresses)) [
  | inl idle ↦ rw idle a
  | inr busy ↦ rw busy (elim (Bool-cases (acquirable (locks w.region) t.write_addresses)) [
    | inl free ↦
        rw free (elim (Bool-cases (passes w t)) [ inl good ↦ rw good c | inr bad ↦ rw bad b ])
    | inr taken ↦ rw taken a
  ])
]

tm_end-filter :
    (w : World) (t : Transaction) {r : Bool × World} → tm_end w t ≡ some r → is_some t.filter ≡ true
unfolding tm_end clean_transaction
tm_end-filter w t e = ground arith

-- What `tm_end` returned is the outcome.
pub tm_end-outcome :
    (w : World) (t : Transaction) {r : Bool × World}
    → IsReady w t
    → tm_end w t ≡ some r
    → r ≡ outcome w t
tm_end-outcome w t h e = let f = tm_end-filter w t e in cc (tm_end-cases w t h f)

-- The clock moves by one at most.
pub tm_end-clock :
    (w : World) (t : Transaction) {r : Bool × World}
    → HasRoom w
    → IsReady w t
    → tm_end w t ≡ some r
    → r.1.region.global_clock < 2 ^ 32
tm_end-clock w t room h e =
    subst (λ (r : Bool × World). r.1.region.global_clock < 2 ^ 32) (sym (tm_end-outcome w t h e))
      (outcome-elim (λ u. u.region.global_clock < 2 ^ 32) w t (omega arith) (omega arith)
        (omega arith))

-- `tm_end` leaves a quiet world, and keeps what older transactions may still find.
pub tm_end-keeps :
    (w : World) (t : Transaction) {r : Bool × World}
    → IsQuiet w
    → HasRoom w
    → IsReady w t
    → tm_end w t ≡ some r
    → IsQuiet r.1 × ((w₀ : World) → Since w₀ w → Since w₀ r.1)
tm_end-keeps w t {r} q room h e =
    subst (λ r. IsQuiet r.1 × ((w₀ : World) → Since w₀ w → Since w₀ r.1))
      (sym (tm_end-outcome w t h e))
      (
        outcome-elim IsQuiet w t q (ticked-IsQuiet w t q room) (committed-IsQuiet w t q room h),
        λ w₀ s.
            outcome-elim (Since w₀) w t s (ticked-Since w t q room w₀ s)
              (committed-Since w t q room w₀ s h),
      )

module _ {w₀ w : World} (s : Since w₀ w) where
  pub Since-Allocated : (k : ℕ) → Allocated w₀.region k → Allocated w.region k
  Since-Allocated k a = omega (arith, s.more_allocs)

  pub Since-address :
      (k x : ℕ) → Allocated w₀.region k → address_of w.region k x ≡ address_of w₀.region k x
  Since-address k x a = rw (s.same_start k a, s.same_align)

  IsRead-Since : (n : LlNode) → IsRead w₀.region n → IsRead w.region n
  IsRead-Since n h = record {
    allocated = Since-Allocated n.corresponding_segment h.allocated;
    in_words = omega (arith, h.in_words, s.same_words n.corresponding_segment h.allocated);
    located = h.located ∙ sym (Since-address n.corresponding_segment n.word_num h.allocated);
  }

  IsWrite-Since : (n : LlNode) → IsWrite w₀.region n → IsWrite w.region n
  IsWrite-Since n h = record {
    allocated = Since-Allocated n.corresponding_segment h.allocated;
    in_words = omega (arith, h.in_words, s.same_words n.corresponding_segment h.allocated);
    located = h.located ∙ sym (Since-address n.corresponding_segment n.word_num h.allocated);
    one_word = h.one_word ∙ sym s.same_align;
  }

  -- A transaction stays well formed while others run.
  pub IsReady-Since : (t : Transaction) → IsQuiet w → IsReady w₀ t → IsReady w t
  IsReady-Since t q h = record {
    laid_out = q.laid_out;
    writes =
        All-mono (IsWrite w₀.region) (IsWrite w.region) IsWrite-Since t.write_addresses h.writes;
    reads = All-mono (IsRead w₀.region) (IsRead w.region) IsRead-Since t.read_addresses h.reads;
  }
