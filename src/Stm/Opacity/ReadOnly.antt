-- ===== src/Stm/Opacity/ReadOnly.antt =====
-- `tm_read` in a read-only transaction.
use software_transactional_m.Prelude.{
  ℕ, zero, suc, ◌+◌, ◌*◌, ◌≤◌, ◌<◌, ◌≡◌, refl, ◌∙◌, Bool, true, false, none, some, arith, ltb, ◌==◌,
  subst, List, [], ◌++◌, Bool-cases, inl, inr, is_some, ◌⊎◌,
}
use native.Mathlib.Nat.{zero-mul}
use mathlib.Core.List.{append_assoc, append-nil}
use software_transactional_m.Stm.Memory.{bytes, bytes-add}
use software_transactional_m.Stm.Types.{World, Transaction, versions}
use software_transactional_m.Stm.Locks.Publish.{Allocated, address_of}
use software_transactional_m.Stm.Begin.{clean_transaction}
use software_transactional_m.Stm.Read.{ReadReply, read_loop_ro, tm_read, abort_read}
use software_transactional_m.Stm.Snapshot.{IsQuiet, Since, Since-Allocated}
use software_transactional_m.Stm.Opacity.{
  mul-div, all_old, old-bytes, version_at-some, lock_at-some, load-some, IsRequest, request-segment,
  request-offset, request-count, request-found,
}

module _ {w₀ w : World} (t : Transaction) (quiet : IsQuiet w) (since : Since w₀ w)
    (rv : t.rv ≡ w₀.region.global_clock) (filtered : is_some t.filter ≡ true) (k : ℕ)
    (a : Allocated w₀.region k) where
  -- What the loop answers for `n` words from `cur` on.
  record Answers (n cur : ℕ) (target : List ℕ) : Type 0 where
    reply : ReadReply
    returned : read_loop_ro w t k n cur (address_of w.region k cur) target ≡ some reply
    exactly_old : reply.continues ≡ all_old w.region k n cur t.rv
    stopped : reply.continues ≡ false → reply.tx ≡ none
    snapshot :
        reply.continues ≡ true
        → (reply.target
            ≡ target ++ bytes w₀.memory (address_of w₀.region k cur) (n * w₀.region.align))
          × (reply.tx ≡ some t)

  next_address :
      (cur : ℕ) → address_of w.region k cur + w.region.align ≡ address_of w.region k (cur + 1)
  next_address cur = omega arith

  aborts :
      (target : List ℕ)
      → abort_read t target ≡ some (record { continues = false; target = target; tx = none })
  unfolding clean_transaction
  aborts target = rw filtered

  joined :
      (n cur : ℕ) (target value : List ℕ)
      → value ≡ bytes w₀.memory (address_of w₀.region k cur) w₀.region.align
      → (target ++ value)
          ++ bytes w₀.memory (address_of w₀.region k (cur + 1)) (n * w₀.region.align)
        ≡ target ++ bytes w₀.memory (address_of w₀.region k cur) (suc n * w₀.region.align)
  joined n cur target value e =
      let total : suc n * w₀.region.align ≡ w₀.region.align + n * w₀.region.align = omega arith in
      let next : address_of w₀.region k (cur + 1) ≡ address_of w₀.region k cur + w₀.region.align =
        omega arith in
      rw (total, next, bytes-add, e, append_assoc)

  module _ (n cur : ℕ) (target : List ℕ) (inside : cur < (w.region.segments_list k).num_words)
      (here : Allocated w.region k) where
    abbrev word_bytes : List ℕ
    word_bytes = bytes w.memory (address_of w.region k cur) w.region.align

    read_loop_ro-newer :
        ltb t.rv (versions w.region k cur) ≡ true
        → read_loop_ro w t k (suc n) cur (address_of w.region k cur) target
          ≡ abort_read t (target ++ word_bytes)
    unfolding read_loop_ro
    read_loop_ro-newer newer =
        rw
          (
            version_at-some w.region k cur inside,
            load-some w quiet.laid_out k cur here inside,
            lock_at-some w.region k cur inside,
            quiet.unlocked k cur,
          )
          (ground (arith, newer))

    read_loop_ro-old :
        ltb t.rv (versions w.region k cur) ≡ false
        → read_loop_ro w t k (suc n) cur (address_of w.region k cur) target
          ≡ read_loop_ro w t k n (cur + 1) (address_of w.region k (cur + 1)) (target ++ word_bytes)
    unfolding read_loop_ro
    read_loop_ro-old old =
        rw
          (
            version_at-some w.region k cur inside,
            load-some w quiet.laid_out k cur here inside,
            lock_at-some w.region k cur inside,
            quiet.unlocked k cur,
            ← next_address cur,
          )
          (ground (arith, old))

  read_loop_ro-Answers :
      (n cur : ℕ) (target : List ℕ)
      → cur + n ≤ (w₀.region.segments_list k).num_words
      → Answers n cur target
  unfolding read_loop_ro all_old bytes
  read_loop_ro-Answers zero cur target h = record {
    reply = _;
    returned = refl;
    exactly_old = refl;
    stopped = λ e. absurd cc;
    snapshot = λ e. (rw (zero-mul, bytes, append-nil), refl);
  }
  read_loop_ro-Answers (suc n) cur target h =
      let inside : cur < (w.region.segments_list k).num_words =
        omega (arith, since.same_words k a) in
      let here = Since-Allocated since k a in
      let value = bytes w.memory (address_of w.region k cur) w.region.align in
      elim (Bool-cases (ltb t.rv (versions w.region k cur))) [
        | inl newer ↦ record {
          reply = record { continues = false; target = target ++ value; tx = none };
          returned = read_loop_ro-newer n cur target inside here newer ∙ aborts (target ++ value);
          exactly_old = rw newer;
          stopped = λ e. refl;
          snapshot = λ e. cc;
        }
        | inr old ↦
            let rest = read_loop_ro-Answers n (cur + 1) (target ++ value) (omega arith) in
            record {
              reply = rest.reply;
              returned = read_loop_ro-old n cur target inside here old ∙ rest.returned;
              exactly_old = rest.exactly_old ∙ rw old;
              stopped = rest.stopped;
              snapshot = λ e.
                  let (read, kept) = rest.snapshot e in
                  (
                    read
                        ∙ joined n cur target value
                            (old-bytes since k cur a (omega arith) (ground arith)),
                    kept,
                  );
            }
      ]

-- The call for a well-formed request is the loop over its words.
pub tm_read-loop :
    (fits : ℕ → Bool) (w : World) (t : Transaction) (source size : ℕ)
    → t.is_ro ≡ true
    → 0 < w.region.align
    → (q : IsRequest w.region source size)
    → tm_read fits w t source size
      ≡ read_loop_ro w t q.segment q.count q.word (address_of w.region q.segment q.word) []
unfolding tm_read
tm_read-loop fits w t source size ro pos q =
    let divides : (w.region.align == 0) ≡ false = ground arith in
    rw (
      request-found q pos,
      divides,
      ro,
      request-segment q pos,
      request-offset q pos,
      request-count q pos,
      mul-div q.word w.region.align pos,
    )

-- Reads of read-only transactions that have a filter, where no word is locked, since nobody is inside
-- another call. Let a transaction have begun in the world `w₀`, and
-- let other transactions have allocated, committed and failed since. A call of `tm_read` for words
-- of a segment of `w₀` returns. If one of the words is newer than the transaction, the call gives the
-- transaction up; else the transaction goes on as it was and the target holds the bytes of `w₀`.
pub tm_read-snapshot :
    (fits : ℕ → Bool) {w₀ w : World} (t : Transaction) (source size : ℕ)
    → IsQuiet w
    → Since w₀ w
    → t.is_ro ≡ true
    → t.rv ≡ w₀.region.global_clock
    → is_some t.filter ≡ true
    → (q : IsRequest w.region source size) → Allocated w₀.region q.segment
    → (reply : ReadReply) × (tm_read fits w t source size ≡ some reply)
      × (((all_old w.region q.segment q.count q.word t.rv ≡ false)
            × (reply.continues ≡ false)
            × (reply.tx ≡ none))
          ⊎ ((all_old w.region q.segment q.count q.word t.rv ≡ true)
              × (reply.continues ≡ true)
              × (reply.tx ≡ some t)
              × (reply.target ≡ bytes w₀.memory (address_of w₀.region q.segment q.word) size)))
tm_read-snapshot fits {w₀} {w} t source size quiet since ro rv filtered q a =
    let pos = quiet.laid_out.align_pos in
    let loop =
      read_loop_ro-Answers t quiet since rv filtered q.segment a q.count q.word []
        (omega (arith, q.within, since.same_words q.segment a)) in
    let sized : q.count * w₀.region.align ≡ size = rw (q.sized, since.same_align) in
    (
      loop.reply,
      tm_read-loop fits w t source size ro pos q ∙ loop.returned,
      elim (Bool-cases (all_old w.region q.segment q.count q.word t.rv)) [
        | inl old ↦
            let went = loop.exactly_old ∙ old in
            let (read, same) = loop.snapshot went in
            inr (
              old,
              went,
              same,
              subst
                  (λ n.
                    loop.reply.target ≡ bytes w₀.memory (address_of w₀.region q.segment q.word) n)
                  sized read,
            )
        | inr newer ↦
            let stopped = loop.exactly_old ∙ newer in inl (newer, stopped, loop.stopped stopped)
      ],
    )
