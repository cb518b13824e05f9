-- ===== src/Stm/Write/Keeps.antt =====
-- `tm_write` keeps a transaction well formed.
use software_transactional_m.Prelude.{
  ℕ, zero, suc, ◌+◌, ◌≤◌, ◌<◌, ◌≡◌, refl, sym, ap, ◌∙◌, Bool, false, Option, none, some, List, [],
  ◌∷◌, arith, ◌==◌, inl, inr, bind-some, Option-cases, All, subst, length, take, drop,
}
use software_transactional_m.Stm.Memory.{read_buffer}
use software_transactional_m.Stm.Types.{MemoryRegion, World, Transaction, BloomFilter}
use software_transactional_m.Stm.Begin.{clean_transaction}
use software_transactional_m.Stm.Bloom.Laws.{IsBytes}
use software_transactional_m.Stm.Locks.Publish.{Allocated, address_of, IsWrite, IsLaidOut}
use software_transactional_m.Stm.Write.{WriteReply, write_word, write_loop, abort_write, tm_write}
use software_transactional_m.Stm.Write.Log.{write_word-Wrote}
use software_transactional_m.Stm.Opacity.{
  mul-div, IsRequest, request-segment, request-offset, request-count, request-found,
}

length-take : (n : ℕ) (xs : List ℕ) → n ≤ length xs → length (take n xs) ≡ n
length-take zero xs h = refl
length-take (suc n) [] h = absurd (omega arith)
length-take (suc n) (x ∷ xs) h = ap suc (length-take n xs (omega arith))

read_buffer-length_of :
    (n : ℕ) (buffer : List ℕ) {value : List ℕ}
    → read_buffer buffer n ≡ some value
    → length value ≡ n
unfolding read_buffer
read_buffer-length_of n buffer e = ground (arith, length-take n buffer)

-- The filter's cells are bytes, if there is a filter.
abbrev pub FilterBytes : Transaction → Type 0
FilterBytes t = (f : BloomFilter) → t.filter ≡ some f → IsBytes f

-- A transaction after a write: only the write set and the filter have changed, and both are well
-- formed.
pub record WroteTo (r : MemoryRegion) (t t' : Transaction) : Type 0 where
  pub all_writes : All (IsWrite r) t'.write_addresses
  pub filter_bytes : FilterBytes t'
  pub rest : t' ≡ record t { write_addresses = t'.write_addresses; filter = t'.filter }

WroteTo-trans :
    {r : MemoryRegion} {t u v : Transaction} → WroteTo r t u → WroteTo r u v → WroteTo r t v
WroteTo-trans {r} {t} {u} {v} p q = record {
  all_writes = q.all_writes;
  filter_bytes = q.filter_bytes;
  rest =
      q.rest
      ∙ ap
          (λ (x : Transaction). record x { write_addresses = v.write_addresses; filter = v.filter })
          p.rest;
}

abort_write-gone :
    (t : Transaction) {reply : WriteReply} → abort_write t ≡ some reply → reply.tx ≡ none
unfolding clean_transaction
abort_write-gone t e = ground arith

write_word-null :
    (node_fits buffer_fits : Bool) (w : World) (t : Transaction) (k cur a : ℕ) (v : List ℕ)
    {r : Option Transaction}
    → t.filter ≡ none
    → write_word node_fits buffer_fits w t k cur a v ≡ some r
    → ⊥
unfolding write_word
write_word-null node_fits buffer_fits w t k cur a v null e = ground arith

same_filter-IsBytes :
    {o : Option BloomFilter} {f g : BloomFilter} → o ≡ some f → o ≡ some g → IsBytes f → IsBytes g
same_filter-IsBytes {f} {g} p q b = let same : f ≡ g = cc in subst IsBytes same b

module _ (node_fits buffer_fits : ℕ → Bool) (w : World) (o : IsLaidOut w.memory.limit w.region)
    (k : ℕ) (here : Allocated w.region k) where
  word-WroteTo :
      (t : Transaction) (i cur : ℕ) (v : List ℕ) {t' : Transaction}
      → cur < (w.region.segments_list k).num_words
      → length v ≡ w.region.align
      → All (IsWrite w.region) t.write_addresses
      → FilterBytes t
      → write_word (node_fits i) (buffer_fits i) w t k cur (address_of w.region k cur) v
        ≡ some (some t')
      → WroteTo w.region t t'
  word-WroteTo t i cur v inside one_word writes bytes e = elim (Option-cases t.filter) [
    | inl null ↦ absurd (
        write_word-null (node_fits i) (buffer_fits i) w t k cur (address_of w.region k cur) v null
          e)
    | inr (f, got) ↦
        let wrote =
          write_word-Wrote w t f got (bytes f got) k cur (address_of w.region k cur) v here inside
            (omega (arith, o.small k here)) refl one_word writes (node_fits i) (buffer_fits i) e in
        record {
          all_writes = wrote.all_writes;
          filter_bytes = λ g h. same_filter-IsBytes wrote.has_filter h wrote.forgets_nothing.bytes;
          rest = wrote.rest;
        }
  ]

  write_loop-WroteTo :
      (n i cur : ℕ) (t : Transaction) (source : List ℕ) {reply : WriteReply} {t' : Transaction}
      → cur + n ≤ (w.region.segments_list k).num_words
      → All (IsWrite w.region) t.write_addresses
      → FilterBytes t
      → write_loop node_fits buffer_fits w t k n i cur (address_of w.region k cur) source
        ≡ some reply
      → reply.tx ≡ some t'
      → WroteTo w.region t t'
  unfolding write_loop
  write_loop-WroteTo zero i cur t source {t'} h writes bytes e got =
      let same : t ≡ t' = ground arith in
      subst (WroteTo w.region t) same
        (record { all_writes = writes; filter_bytes = bytes; rest = refl })
  write_loop-WroteTo (suc n) i cur t source {reply} {t'} h writes bytes e got =
      let (value, read, e1) = bind-some (read_buffer source w.region.align) _ e in
      let (stepped, wrote, e2) =
        bind-some
          (write_word (node_fits i) (buffer_fits i) w t k cur (address_of w.region k cur) value) _
          e1 in
      elim (Option-cases stepped) [
        | inl failed ↦ absurd (let gone = abort_write-gone t (rw failed at e2) in cc)
        | inr (u, went) ↦
            let first =
              word-WroteTo t i cur value (omega arith)
                (read_buffer-length_of w.region.align source read) writes bytes
                (wrote ∙ ap some went) in
            let next : address_of w.region k cur + w.region.align
                ≡ address_of w.region k (cur + 1) =
              omega arith in
            WroteTo-trans first (
              write_loop-WroteTo n (i + 1) (cur + 1) u (drop w.region.align source) (omega arith)
                first.all_writes first.filter_bytes
                (subst
                  (λ a.
                    write_loop node_fits buffer_fits w u k n (i + 1) (cur + 1) a
                      (drop w.region.align source)
                    ≡ some reply)
                  next (rw went at e2))
                got)
      ]

-- The call for a well-formed request is the loop over its words.
pub tm_write-loop :
    (node_fits buffer_fits : ℕ → Bool) (w : World) (t : Transaction) (source : List ℕ)
    (size target : ℕ)
    → 0 < w.region.align
    → (q : IsRequest w.region target size)
    → tm_write node_fits buffer_fits w t source size target
      ≡ write_loop node_fits buffer_fits w t q.segment q.count 0 q.word
          (address_of w.region q.segment q.word)
          source
unfolding tm_write
tm_write-loop node_fits buffer_fits w t source size target pos q =
    let divides : (w.region.align == 0) ≡ false = ground arith in
    rw (
      request-found q pos,
      divides,
      request-segment q pos,
      request-offset q pos,
      request-count q pos,
      mul-div q.word w.region.align pos,
    )

-- `tm_write` for words of a segment leaves a transaction, where it leaves one, that differs in its
-- write set and filter only, and whose nodes name the words, their addresses and values of one word.
pub tm_write-WroteTo :
    (node_fits buffer_fits : ℕ → Bool) (w : World) (t : Transaction) (source : List ℕ)
    (size target : ℕ) {reply : WriteReply} {t' : Transaction}
    → IsLaidOut w.memory.limit w.region
    → IsRequest w.region target size
    → All (IsWrite w.region) t.write_addresses
    → FilterBytes t
    → tm_write node_fits buffer_fits w t source size target ≡ some reply
    → reply.tx ≡ some t'
    → WroteTo w.region t t'
tm_write-WroteTo node_fits buffer_fits w t source size target o q writes bytes e got =
    write_loop-WroteTo node_fits buffer_fits w o q.segment q.allocated q.count 0 q.word t source
      q.within writes bytes
      (sym (tm_write-loop node_fits buffer_fits w t source size target o.align_pos q) ∙ e) got
