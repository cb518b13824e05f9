-- ===== src/Stm/Opacity/ReadWrite.antt =====
-- `tm_read` in a read-write transaction.
use software_transactional_m.Prelude.{
  ℕ, zero, suc, ◌+◌, ◌%◌, ◌^◌, ◌≤◌, ◌<◌, ◌≡◌, refl, sym, ap, ◌∙◌, Bool, true, false, not, ◌&&◌,
  ◌||◌, none, some, arith, ltb, ◌==◌, List, [], ◌∷◌, ◌++◌, Bool-cases, inl, inr, is_some, All, ◌⊎◌,
}
use mathlib.Core.Path.{ap₂}
use mathlib.Core.List.{append_assoc, append-nil}
use software_transactional_m.Stm.Memory.{bytes}
use software_transactional_m.Stm.Types.{World, Transaction, LlNode, versions}
use software_transactional_m.Stm.Locks.Publish.{Allocated, address_of, IsRead, IsWrite}
use software_transactional_m.Stm.Commit.Cases.{IsReady}
use software_transactional_m.Stm.Begin.{clean_transaction}
use software_transactional_m.Stm.Read.{
  ReadReply, read_loop_rw, read_word_rw, read_node, tm_read, abort_read,
}
use software_transactional_m.Stm.Snapshot.{IsQuiet, Since, Since-Allocated, Since-address}
use software_transactional_m.Stm.Opacity.{
  mul-div, all_old, old-bytes, version_at-some, lock_at-some, IsRequest, request-segment,
  request-offset, request-count, request-found,
}
use software_transactional_m.Stm.Opacity.OwnWrites.{
  own_value, value_or, Answered, read_word_rw-lem, all_fit, seen_bytes, with_reads, Logged,
}

module _ {w₀ w : World} (t : Transaction) (quiet : IsQuiet w) (since : Since w₀ w)
    (rv : t.rv ≡ w₀.region.global_clock) (writes : All (IsWrite w.region) t.write_addresses)
    (seen : ℕ → Bool) (fits : ℕ → Bool) (k : ℕ) (a : Allocated w₀.region k) where
  -- What the loop answers for `n` words from `cur` on.
  record Answers (n i cur : ℕ) (target : List ℕ) (before : List LlNode) : Type 0 where
    reply : ReadReply
    returned :
        read_loop_rw fits w (with_reads t before) k n i cur (address_of w.region k cur) target
        ≡ some reply
    exactly : reply.continues ≡ (all_old w.region k n cur t.rv && all_fit fits n i)
    stopped : reply.continues ≡ false → reply.tx ≡ none
    snapshot :
        reply.continues ≡ true
        → (reply.target ≡ target ++ seen_bytes w₀ seen t.write_addresses k n cur)
          × (reads : List LlNode) × (reply.tx ≡ some (with_reads t reads))
          × Logged w k n cur before reads

  abbrev word_value : ℕ → List ℕ
  word_value cur =
      value_or (own_value (seen cur) t.write_addresses (address_of w.region k cur))
        (bytes w.memory (address_of w.region k cur) w.region.align)

  -- Of an old word the transaction sees what it would have seen in `w₀`.
  word_value-old :
      (cur : ℕ)
      → cur < (w₀.region.segments_list k).num_words
      → ltb t.rv (versions w.region k cur) ≡ false
      → word_value cur
        ≡ value_or
            (own_value (seen cur) t.write_addresses (address_of w₀.region k cur))
            (bytes w₀.memory (address_of w₀.region k cur) w₀.region.align)
  word_value-old cur h old =
      ap₂ (λ p q. value_or (own_value (seen cur) t.write_addresses p) q)
        (Since-address since k cur a) (old-bytes since k cur a h (ground arith))

  module _ (n i cur : ℕ) (target : List ℕ) (before : List LlNode)
      (inside : cur < (w.region.segments_list k).num_words) (here : Allocated w.region k)
      (answered : Answered w t (address_of w.region k cur) (seen cur)) where
    word_read-some :
        read_word_rw w (with_reads t before) (address_of w.region k cur) ≡ some (word_value cur)
    word_read-some =
        read_word_rw-lem w (with_reads t before) k cur (seen cur) quiet here inside writes answered

    read_loop_rw-stops :
        (ltb t.rv (versions w.region k cur) || not (fits i)) ≡ true
        → read_loop_rw fits w
            (with_reads t before)
            k
            (suc n)
            i
            cur
            (address_of w.region k cur)
            target
          ≡ abort_read (with_reads t before) (target ++ word_value cur)
    unfolding read_loop_rw
    read_loop_rw-stops newer =
        rw
          (
            version_at-some w.region k cur inside,
            word_read-some,
            lock_at-some w.region k cur inside,
            quiet.unlocked k cur,
          )
          (ground (arith, newer))

    read_loop_rw-goes :
        (ltb t.rv (versions w.region k cur) || not (fits i)) ≡ false
        → read_loop_rw fits w
            (with_reads t before)
            k
            (suc n)
            i
            cur
            (address_of w.region k cur)
            target
          ≡ read_loop_rw fits w
              (with_reads t (read_node k cur (address_of w.region k cur) ∷ before))
              k
              n
              (i + 1)
              (cur + 1)
              (address_of w.region k (cur + 1))
              (target ++ word_value cur)
    unfolding read_loop_rw
    read_loop_rw-goes old =
        let next : address_of w.region k cur + w.region.align ≡ address_of w.region k (cur + 1) =
          omega arith in
        rw
          (
            version_at-some w.region k cur inside,
            word_read-some,
            lock_at-some w.region k cur inside,
            quiet.unlocked k cur,
            ← next,
          )
          (ground (arith, old))

  read_node-IsRead :
      (cur : ℕ)
      → cur < (w.region.segments_list k).num_words
      → Allocated w.region k
      → IsRead w.region (read_node k cur (address_of w.region k cur))
  read_node-IsRead cur h here =
      let small : cur % 2 ^ 32 ≡ cur = omega (arith, quiet.laid_out.small k here) in
      record {
        allocated = here;
        in_words = omega arith;
        located = ap (λ x. address_of w.region k x) (sym small);
      }

  Logged-cons :
      (n cur : ℕ) {before reads : List LlNode}
      → cur < (w.region.segments_list k).num_words
      → Allocated w.region k
      → Logged w k n (cur + 1) (read_node k cur (address_of w.region k cur) ∷ before) reads
      → Logged w k (suc n) cur before reads
  Logged-cons n cur h here l =
      let small : cur % 2 ^ 32 ≡ cur = omega (arith, quiet.laid_out.small k here) in
      record {
        all_reads = l.all_reads;
        range = λ x p q. elim (Bool-cases (cur == x)) [
          | inl first ↦ l.kept k x (ground arith)
          | inr later ↦ l.range x (ground arith) (omega arith)
        ];
        kept = λ j y e. l.kept j y (ground arith);
      }

  read_loop_rw-Answers :
      is_some t.filter ≡ true
      → (n i cur : ℕ) (target : List ℕ) (before : List LlNode) → All (IsRead w.region) before
      → ((x : ℕ) → cur ≤ x → x < cur + n → Answered w t (address_of w.region k x) (seen x))
      → cur + n ≤ (w₀.region.segments_list k).num_words
      → Answers n i cur target before
  unfolding read_loop_rw all_old all_fit seen_bytes clean_transaction
  read_loop_rw-Answers filtered zero i cur target before logged answered h = record {
    reply = _;
    returned = refl;
    exactly = refl;
    stopped = λ e. absurd cc;
    snapshot = λ e. (
      rw append-nil,
      before,
      refl,
      record { all_reads = logged; range = λ x p q. absurd (omega arith); kept = λ j y r. r },
    );
  }
  read_loop_rw-Answers filtered (suc n) i cur target before logged answered h =
      let inside : cur < (w.region.segments_list k).num_words =
        omega (arith, since.same_words k a) in
      let here = Since-Allocated since k a in
      let answer = answered cur (omega arith) (omega arith) in
      elim (Bool-cases (ltb t.rv (versions w.region k cur) || not (fits i))) [
        | inl stop ↦ record {
          reply = record { continues = false; target = target ++ word_value cur; tx = none };
          returned = read_loop_rw-stops n i cur target before inside here answer stop ∙ rw filtered;
          exactly = ground (arith, stop);
          stopped = λ e. refl;
          snapshot = λ e. cc;
        }
        | inr go ↦
            let rest =
              read_loop_rw-Answers filtered n (i + 1) (cur + 1) (target ++ word_value cur)
                (read_node k cur (address_of w.region k cur) ∷ before)
                (read_node-IsRead cur inside here, logged)
                (λ x p q. answered x (omega arith) (omega arith)) (omega arith) in
            record {
              reply = rest.reply;
              returned =
                  read_loop_rw-goes n i cur target before inside here answer go ∙ rest.returned;
              exactly = rest.exactly ∙ ground (arith, go);
              stopped = rest.stopped;
              snapshot = λ e.
                  let (read, reads, kept, log) = rest.snapshot e in
                  (
                    read ∙ rw (append_assoc, word_value-old cur (omega arith) (ground (arith, go))),
                    reads,
                    kept,
                    Logged-cons n cur inside here log,
                  );
            }
      ]

pub tm_read-loop :
    (fits : ℕ → Bool) (w : World) (t : Transaction) (source size : ℕ)
    → t.is_ro ≡ false
    → 0 < w.region.align
    → (q : IsRequest w.region source size)
    → tm_read fits w t source size
      ≡ read_loop_rw fits w t q.segment q.count 0 q.word (address_of w.region q.segment q.word) []
unfolding tm_read
tm_read-loop fits w t source size rw_ pos q =
    let divides : (w.region.align == 0) ≡ false = ground arith in
    rw (
      request-found q pos,
      divides,
      rw_,
      request-segment q pos,
      request-offset q pos,
      request-count q pos,
      mul-div q.word w.region.align pos,
    )

-- Reads of read-write transactions that have a filter, where no word is locked, since nobody is inside
-- another call. Let a transaction have begun in the world `w₀`,
-- and let other transactions have allocated, committed and failed since. A call of `tm_read` for
-- words of a segment of `w₀`, for which the filter gives the answers `seen`, returns. If one of the
-- words is newer than the transaction, or a node cannot be had, the call gives the transaction up;
-- else the target holds the transaction's own values where the filter lets them be found and the
-- bytes of `w₀` elsewhere, and the words have joined the read set.
pub tm_read-own_or_snapshot :
    (fits : ℕ → Bool) {w₀ w : World} (t : Transaction) (source size : ℕ)
    → IsQuiet w
    → Since w₀ w
    → t.is_ro ≡ false
    → t.rv ≡ w₀.region.global_clock
    → IsReady w t
    → is_some t.filter ≡ true
    → (q : IsRequest w.region source size) → Allocated w₀.region q.segment
    → (seen : ℕ → Bool)
    → ((x : ℕ)
        → q.word ≤ x
        → x < q.word + q.count
        → Answered w t (address_of w.region q.segment x) (seen x))
    → (reply : ReadReply) × (tm_read fits w t source size ≡ some reply)
      × ((((all_old w.region q.segment q.count q.word t.rv && all_fit fits q.count 0) ≡ false)
            × (reply.continues ≡ false)
            × (reply.tx ≡ none))
          ⊎ (((all_old w.region q.segment q.count q.word t.rv && all_fit fits q.count 0) ≡ true)
              × (reply.continues ≡ true)
              × (reply.target ≡ seen_bytes w₀ seen t.write_addresses q.segment q.count q.word)
              × (reads : List LlNode) × (reply.tx ≡ some (with_reads t reads))
              × Logged w q.segment q.count q.word t.read_addresses reads))
tm_read-own_or_snapshot fits {w₀} {w} t source size quiet since rw_ rv ready filtered q a seen
      answered =
    let pos = quiet.laid_out.align_pos in
    let loop =
      read_loop_rw-Answers t quiet since rv ready.writes seen fits q.segment a filtered q.count 0
        q.word [] t.read_addresses ready.reads answered
        (omega (arith, q.within, since.same_words q.segment a)) in
    (
      loop.reply,
      tm_read-loop fits w t source size rw_ pos q ∙ loop.returned,
      elim (Bool-cases (all_old w.region q.segment q.count q.word t.rv && all_fit fits q.count 0)) [
        | inl old ↦
            let went = loop.exactly ∙ old in
            let (read, reads, kept, log) = loop.snapshot went in
            inr (old, went, read, reads, kept, log)
        | inr not_all ↦
            let stopped = loop.exactly ∙ not_all in inl (not_all, stopped, loop.stopped stopped)
      ],
    )
