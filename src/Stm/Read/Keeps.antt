-- ===== src/Stm/Read/Keeps.antt =====
-- `tm_read` keeps a transaction well formed.
use software_transactional_m.Prelude.{
  ℕ, zero, suc, ◌+◌, ◌%◌, ◌^◌, ◌≤◌, ◌<◌, ◌≡◌, refl, sym, ap, ◌∙◌, Bool, not, ◌||◌, none, some, List,
  [], ◌∷◌, ◌++◌, arith, inl, inr, bind-some, Bool-cases, All, subst,
}
use software_transactional_m.Stm.Memory.{load}
use software_transactional_m.Stm.Types.{MemoryRegion, World, Transaction, lock_at, version_at}
use software_transactional_m.Stm.Begin.{clean_transaction}
use software_transactional_m.Stm.Locks.Publish.{Allocated, address_of, IsRead, IsLaidOut}
use software_transactional_m.Stm.Read.{
  ReadReply, read_loop_ro, read_loop_rw, read_word_rw, read_node, abort_read, tm_read, conflict,
}
use software_transactional_m.Stm.Opacity.{IsRequest}
use software_transactional_m.Stm.Opacity.ReadOnly
use software_transactional_m.Stm.Opacity.ReadWrite
use software_transactional_m.Stm.Opacity.OwnWrites.{with_reads}

-- A transaction after a read: only the read set has changed, and it is well formed.
pub record ReadFrom (r : MemoryRegion) (t t' : Transaction) : Type 0 where
  pub all_reads : All (IsRead r) t'.read_addresses
  pub rest : t' ≡ record t { read_addresses = t'.read_addresses }

abort_read-gone :
    (t : Transaction) (target : List ℕ) {reply : ReadReply}
    → abort_read t target ≡ some reply
    → reply.tx ≡ none
unfolding clean_transaction
abort_read-gone t target e = ground arith

module _ (w : World) (o : IsLaidOut w.memory.limit w.region) (k : ℕ)
    (here : Allocated w.region k) where
  read_loop_ro-ReadFrom :
      (n cur source : ℕ) (t : Transaction) (target : List ℕ) {reply : ReadReply} {t' : Transaction}
      → All (IsRead w.region) t.read_addresses
      → read_loop_ro w t k n cur source target ≡ some reply
      → reply.tx ≡ some t'
      → ReadFrom w.region t t'
  unfolding read_loop_ro
  read_loop_ro-ReadFrom zero cur source t target {t'} reads e got =
      let same : t ≡ t' = ground arith in
      subst (ReadFrom w.region t) same (record { all_reads = reads; rest = refl })
  read_loop_ro-ReadFrom (suc n) cur source t target {reply} reads e got =
      let (before, _, e1) = bind-some (version_at w.region k cur) _ e in
      let (value, _, e2) = bind-some (load w.memory source w.region.align) _ e1 in
      let (locked, _, e3) = bind-some (lock_at w.region k cur) _ e2 in
      let (after, _, e4) = bind-some (version_at w.region k cur) _ e3 in
      elim (Bool-cases (conflict locked before after t.rv)) [
        | inl stop ↦ absurd (let gone = abort_read-gone t (target ++ value) (rw stop at e4) in cc)
        | inr go ↦
            read_loop_ro-ReadFrom n (cur + 1) (source + w.region.align) t (target ++ value) reads
              (rw go at e4) got
      ]

  read_node-IsRead :
      (cur : ℕ)
      → cur < (w.region.segments_list k).num_words
      → IsRead w.region (read_node k cur (address_of w.region k cur))
  read_node-IsRead cur h =
      let small : cur % 2 ^ 32 ≡ cur = omega (arith, o.small k here) in
      record {
        allocated = here;
        in_words = omega arith;
        located = ap (λ x. address_of w.region k x) (sym small);
      }

  read_loop_rw-ReadFrom :
      (fits : ℕ → Bool) (n i cur : ℕ) (t : Transaction) (target : List ℕ) {reply : ReadReply}
      {t' : Transaction}
      → cur + n ≤ (w.region.segments_list k).num_words
      → All (IsRead w.region) t.read_addresses
      → read_loop_rw fits w t k n i cur (address_of w.region k cur) target ≡ some reply
      → reply.tx ≡ some t'
      → ReadFrom w.region t t'
  unfolding read_loop_rw
  read_loop_rw-ReadFrom fits zero i cur t target {t'} h reads e got =
      let same : t ≡ t' = ground arith in
      subst (ReadFrom w.region t) same (record { all_reads = reads; rest = refl })
  read_loop_rw-ReadFrom fits (suc n) i cur t target {reply} h reads e got =
      let (before, _, e1) = bind-some (version_at w.region k cur) _ e in
      let (value, _, e2) = bind-some (read_word_rw w t (address_of w.region k cur)) _ e1 in
      let (locked, _, e3) = bind-some (lock_at w.region k cur) _ e2 in
      let (after, _, e4) = bind-some (version_at w.region k cur) _ e3 in
      elim (Bool-cases (conflict locked before after t.rv || not (fits i))) [
        | inl stop ↦ absurd (let gone = abort_read-gone t (target ++ value) (rw stop at e4) in cc)
        | inr go ↦
            let next : address_of w.region k cur + w.region.align
                ≡ address_of w.region k (cur + 1) =
              omega arith in
            let u = with_reads t (read_node k cur (address_of w.region k cur) ∷ t.read_addresses) in
            let rest =
              read_loop_rw-ReadFrom fits n (i + 1) (cur + 1) u (target ++ value) (omega arith)
                (read_node-IsRead cur (omega arith), reads)
                (subst
                  (λ a.
                    read_loop_rw fits w u k n (i + 1) (cur + 1) a (target ++ value) ≡ some reply)
                  next (rw go at e4))
                got in
            record { all_reads = rest.all_reads; rest = rest.rest }
      ]

-- `tm_read` for words of a segment leaves a transaction, where it leaves one, that differs in its
-- read set only, whose nodes name the words and their addresses.
pub tm_read-ReadFrom :
    (fits : ℕ → Bool) (w : World) (t : Transaction) (source size : ℕ) {reply : ReadReply}
    {t' : Transaction}
    → IsLaidOut w.memory.limit w.region
    → IsRequest w.region source size
    → All (IsRead w.region) t.read_addresses
    → tm_read fits w t source size ≡ some reply
    → reply.tx ≡ some t'
    → ReadFrom w.region t t'
tm_read-ReadFrom fits w t source size o q reads e got = elim (Bool-cases t.is_ro) [
  | inl ro ↦
      read_loop_ro-ReadFrom w o q.segment q.allocated q.count q.word
        (address_of w.region q.segment q.word) t [] reads
        (sym (ReadOnly.tm_read-loop fits w t source size ro o.align_pos q) ∙ e) got
  | inr rw_ ↦
      read_loop_rw-ReadFrom w o q.segment q.allocated fits q.count 0 q.word t [] q.within reads
        (sym (ReadWrite.tm_read-loop fits w t source size rw_ o.align_pos q) ∙ e) got
]
