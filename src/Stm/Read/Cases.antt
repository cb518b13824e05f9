-- ===== src/Stm/Read/Cases.antt =====
-- What `tm_read` of a read-only transaction answers, whatever locks are held.
use software_transactional_m.Prelude.{
  ℕ, zero, suc, ◌+◌, ◌*◌, ◌≤◌, ◌<◌, ◌≡◌, ◌∙◌, Bool, true, false, not, ◌&&◌, some, arith, ltb, List,
  [], ◌++◌, Bool-cases, inl, inr, ◌⊎◌, if◌then◌else◌,
}
use native.Mathlib.Nat.{zero-mul}
use mathlib.Core.List.{append_assoc, append-nil}
use software_transactional_m.Stm.Memory.{bytes, bytes-add}
use software_transactional_m.Stm.Types.{MemoryRegion, World, Transaction, versions, locks}
use software_transactional_m.Stm.Locks.Publish.{Allocated, address_of, IsLaidOut}
use software_transactional_m.Stm.Read.{read_loop_ro, tm_read, abort_read}
use software_transactional_m.Stm.Opacity.{version_at-some, lock_at-some, load-some, IsRequest}
use software_transactional_m.Stm.Opacity.ReadOnly.{tm_read-loop}

-- A word that a transaction with this `rv` may read: it is not locked and not newer.
abbrev pub is_open : MemoryRegion → (k cur rv : ℕ) → Bool
is_open r k cur rv = not (locks r k cur) && not (ltb rv (versions r k cur))

pub all_open : MemoryRegion → (k n cur rv : ℕ) → Bool
all_open r k zero cur rv = true
all_open r k (suc n) cur rv = is_open r k cur rv && all_open r k n (cur + 1) rv

module _ (w : World) (t : Transaction) (laid_out : IsLaidOut w.memory.limit w.region) (k : ℕ)
    (a : Allocated w.region k) where
  abbrev word_bytes : ℕ → List ℕ
  word_bytes cur = bytes w.memory (address_of w.region k cur) w.region.align

  -- One round of the loop.
  loop-round :
      (n cur : ℕ) (target : List ℕ)
      → cur < (w.region.segments_list k).num_words
      → read_loop_ro w t k (suc n) cur (address_of w.region k cur) target ≡ (
          if is_open w.region k cur t.rv
          then read_loop_ro w t k n
              (cur + 1)
              (address_of w.region k (cur + 1))
              (target ++ word_bytes cur)
          else abort_read t (target ++ word_bytes cur))
  unfolding read_loop_ro
  loop-round n cur target inside =
      let next : address_of w.region k cur + w.region.align ≡ address_of w.region k (cur + 1) =
        omega arith in
      rw
        (
          version_at-some w.region k cur inside,
          load-some w laid_out k cur a inside,
          lock_at-some w.region k cur inside,
          ← next,
        )
        (elim (Bool-cases (locks w.region k cur)) [
          | inl locked ↦ rw locked (ground (arith, locked))
          | inr free ↦ rw free (ground (arith, free))
        ])

  loop-open :
      (n cur : ℕ) (target : List ℕ)
      → cur + n ≤ (w.region.segments_list k).num_words
      → all_open w.region k n cur t.rv ≡ true
      → read_loop_ro w t k n cur (address_of w.region k cur) target
        ≡ some (record {
          continues = true;
          target = target ++ bytes w.memory (address_of w.region k cur) (n * w.region.align);
          tx = some t;
        })
  unfolding read_loop_ro all_open bytes
  loop-open zero cur target h e = rw (zero-mul, bytes, append-nil)
  loop-open (suc n) cur target h e =
      let total : suc n * w.region.align ≡ w.region.align + n * w.region.align = omega arith in
      let next : address_of w.region k (cur + 1) ≡ address_of w.region k cur + w.region.align =
        omega arith in
      let is : is_open w.region k cur t.rv ≡ true = ground arith in
      let rest : all_open w.region k n (cur + 1) t.rv ≡ true = ground arith in
      let later = loop-open n (cur + 1) (target ++ word_bytes cur) (omega arith) rest in
      loop-round n cur target (omega arith) ∙ rw (is, later, total, next, bytes-add, append_assoc)

  loop-closed :
      (n cur : ℕ) (target : List ℕ)
      → cur + n ≤ (w.region.segments_list k).num_words
      → all_open w.region k n cur t.rv ≡ false
      → (read : List ℕ) × (read_loop_ro w t k n cur (address_of w.region k cur) target
          ≡ abort_read t read)
  unfolding all_open
  loop-closed zero cur target h e = absurd cc
  loop-closed (suc n) cur target h e =
      let round = loop-round n cur target (omega arith) in
      elim (Bool-cases (is_open w.region k cur t.rv)) [
        | inr shut ↦ (target ++ word_bytes cur, round ∙ rw shut)
        | inl is ↦
            let rest : all_open w.region k n (cur + 1) t.rv ≡ false = ground (arith, e, is) in
            let (read, stops) =
              loop-closed n (cur + 1) (target ++ word_bytes cur) (omega arith) rest in
            (read, round ∙ rw is stops)
      ]

-- A call of `tm_read` of a read-only transaction, for words of one segment of a region that is laid out,
-- whatever locks other transactions hold. If every word is unlocked and no newer than the transaction,
-- the target receives the bytes of all of them and the transaction goes on as it was. If one of them is
-- locked or newer, the call gives the transaction up, which, by an assertion, does not return if the
-- transaction has no filter.
pub tm_read-cases :
    (fits : ℕ → Bool) (w : World) (t : Transaction) (source size : ℕ)
    → IsLaidOut w.memory.limit w.region
    → t.is_ro ≡ true
    → (q : IsRequest w.region source size)
    → ((all_open w.region q.segment q.count q.word t.rv ≡ true)
        × (tm_read fits w t source size
            ≡ some (record {
              continues = true;
              target = bytes w.memory (address_of w.region q.segment q.word) size;
              tx = some t;
            })))
      ⊎ ((all_open w.region q.segment q.count q.word t.rv ≡ false)
          × (read : List ℕ) × (tm_read fits w t source size ≡ abort_read t read))
tm_read-cases fits w t source size laid_out ro q =
    let loop = tm_read-loop fits w t source size ro laid_out.align_pos q in
    elim (Bool-cases (all_open w.region q.segment q.count q.word t.rv)) [
      | inl is ↦ inl (
        is,
        loop
            ∙ loop-open w t laid_out q.segment q.allocated q.count q.word [] q.within is
            ∙ rw q.sized,
      )
      | inr shut ↦
          let (read, stops) =
            loop-closed w t laid_out q.segment q.allocated q.count q.word [] q.within shut in
          inr (shut, read, loop ∙ stops)
    ]
