-- ===== src/Stm/Faults.antt =====
-- Where 353055 fails: calls that never return or never succeed.
use software_transactional_m.Prelude.{
  ℕ, zero, suc, ◌*◌, ◌%◌, ◌^◌, ◌<◌, ◌≡◌, refl, sym, ap, ◌∙◌, Bool, true, false, ◌&&◌, ◌||◌, none,
  some, List, [], ◌∷◌, arith, leb, inl, inr, bind-some, Bool-cases, Option-cases, All, subst,
  is_some, assert, length,
}
use software_transactional_m.Stm.Memory.{Memory, read_buffer}
use software_transactional_m.Stm.Types.{
  MemoryRegion, SegmentNode, BloomFilter, LlNode, World, Transaction, locks, segment_at,
}
use software_transactional_m.Stm.Bloom.{
  initialise_bloom_filter, is_in_bloom_filter, add_to_bloom_filter,
}
use software_transactional_m.Stm.Locks.{is_null}
use software_transactional_m.Stm.Locks.Acquire.{has, acquirable}
use software_transactional_m.Stm.Locks.Publish.{Allocated, address_of, IsRead}
use software_transactional_m.Stm.Bloom.Laws.{IsBytes}
use software_transactional_m.Stm.Write.Log.{write_word-Wrote}
use software_transactional_m.Stm.Alloc.{Mallocs, AllocReply, init_node, add_segment, tm_alloc}
use software_transactional_m.Stm.Begin.{tm_begin, clean_transaction}
use software_transactional_m.Stm.Read.{tm_read}
use software_transactional_m.Stm.Write.{push_write, write_word, write_loop, tm_write}
use software_transactional_m.Stm.Write.Keeps.{tm_write-loop}
use software_transactional_m.Stm.Commit.{tm_end}
use software_transactional_m.Stm.Commit.Cases.{IsReady, tm_end-cases}
use software_transactional_m.Stm.Opacity.{IsRequest}

-- Some word stands in the list more than once.
abbrev pub has_twice : List LlNode → Bool
has_twice [] = false
has_twice (n ∷ ns) = has n.corresponding_segment n.word_num ns || has_twice ns

twice-not_acquirable :
    (f : ℕ → ℕ → Bool) (ns : List LlNode) → has_twice ns ≡ true → acquirable f ns ≡ false
twice-not_acquirable f [] h = cc
twice-not_acquirable f (n ∷ ns) h = ground (arith, twice-not_acquirable f ns)

twice-not_null : (ns : List LlNode) → has_twice ns ≡ true → is_null ns ≡ false
twice-not_null [] h = sym h
twice-not_null (n ∷ ns) h = refl

-- A transaction whose write set names a word twice can never commit: it takes the word's lock and
-- then finds it held, by itself. The call returns false and leaves the world as it was.
pub tm_end-twice :
    (w : World) (t : Transaction)
    → IsReady w t
    → is_some t.filter ≡ true
    → t.is_ro ≡ false
    → has_twice t.write_addresses ≡ true
    → tm_end w t ≡ some (false, w)
tm_end-twice w t h f rw_ twice =
    tm_end-cases w t h f
    ∙ rw (
      rw_,
      twice-not_null t.write_addresses twice,
      twice-not_acquirable (locks w.region) t.write_addresses twice,
    )

module _ (w : World) (t : Transaction) (f : BloomFilter) (k cur : ℕ) (v : List ℕ) where
  forgets-twice :
      {t' : Transaction}
      → cur < 2 ^ 32
      → has k cur t.write_addresses ≡ true
      → t.filter ≡ some f
      → is_in_bloom_filter w.memory f (address_of w.region k cur) ≡ some false
      → write_word true true w t k cur (address_of w.region k cur) v ≡ some (some t')
      → has_twice t'.write_addresses ≡ true
  unfolding write_word push_write
  forgets-twice {t'} small there filtered forgot e =
      let (f0, got, e1) = bind-some t.filter _ e in
      let same : f0 ≡ f = cc in
      let (seen, answered, e2) =
        bind-some (is_in_bloom_filter w.memory f0 (address_of w.region k cur)) _ e1 in
      let no : seen ≡ false = cc in
      let (_, _, e3) = bind-some (assert (leb w.region.align 8)) _ (rw no at e2) in
      let (f2, _, e4) = bind-some t.filter _ e3 in
      let (f', _, e5) =
        bind-some (add_to_bloom_filter w.memory f2 (address_of w.region k cur)) _ e4 in
      let result : record t {
        write_addresses =
            record {
              word_num = cur % 2 ^ 32;
              location = address_of w.region k cur;
              value = v;
              corresponding_segment = k;
            }
            ∷ t.write_addresses;
        filter = some f';
      }
          ≡ t' =
        cc in
      let exact : cur % 2 ^ 32 ≡ cur = omega arith in
      subst (λ (u : Transaction). has_twice u.write_addresses ≡ true) result (rw (exact, there))

-- A write whose word the filter no longer answers yes for, though the transaction has written it,
-- dooms the transaction: the write succeeds, and then its end can only return false.
pub write_word-dooms :
    (w : World) (t : Transaction) (f : BloomFilter) (k cur : ℕ) (v : List ℕ) {t' : Transaction}
    → IsReady w t
    → IsBytes f
    → t.filter ≡ some f
    → t.is_ro ≡ false
    → Allocated w.region k
    → cur < (w.region.segments_list k).num_words
    → length v ≡ w.region.align
    → has k cur t.write_addresses ≡ true
    → is_in_bloom_filter w.memory f (address_of w.region k cur) ≡ some false
    → write_word true true w t k cur (address_of w.region k cur) v ≡ some (some t')
    → tm_end w t' ≡ some (false, w)
write_word-dooms w t f k cur v {t'} ready bytes filtered rw_ here inside one_word there forgot e =
    let small : cur < 2 ^ 32 = omega (arith, inside, ready.laid_out.small k here) in
    let wrote =
      write_word-Wrote w t f filtered bytes k cur (address_of w.region k cur) v here inside small
        refl one_word ready.writes true true e in
    let same_reads : t'.read_addresses ≡ t.read_addresses =
      ap (λ (u : Transaction). u.read_addresses) wrote.rest in
    let same_kind : t'.is_ro ≡ t.is_ro = ap (λ (u : Transaction). u.is_ro) wrote.rest in
    tm_end-twice w t'
      (record {
        laid_out = ready.laid_out;
        writes = wrote.all_writes;
        reads = subst (All (IsRead w.region)) (sym same_reads) ready.reads;
      })
      (rw wrote.has_filter) (same_kind ∙ rw_)
      (forgets-twice w t f k cur v small there filtered forgot e)

-- For an alignment above 8 no `tm_write` of at least one word keeps inside its buffer, which has the
-- size of a `size_t`: there is no case, with memory to be had, in which the call is defined.
pub tm_write-overflow :
    (node_fits buffer_fits : ℕ → Bool) (w : World) (t : Transaction) (source : List ℕ)
    (size target : ℕ)
    → 8 < w.region.align
    → (q : IsRequest w.region target size) → 0 < q.count
    → node_fits 0 ≡ true
    → buffer_fits 0 ≡ true
    → tm_write node_fits buffer_fits w t source size target ≡ none
unfolding write_word push_write write_loop
tm_write-overflow node_fits buffer_fits w t source size target wide q some_words n b =
    tm_write-loop node_fits buffer_fits w t source size target (omega arith) q
    ∙ overflows q.count some_words
  where
    word : (a : ℕ) (v : List ℕ) → write_word true true w t q.segment q.word a v ≡ none
    word a v = ground arith

    overflows :
        (c : ℕ)
        → 0 < c
        → write_loop node_fits buffer_fits w t q.segment c 0 q.word
            (address_of w.region q.segment q.word)
            source
          ≡ none
    overflows zero h = absurd (omega arith)
    overflows (suc c) h =
        rw (n, b)
          (elim (Option-cases (read_buffer source w.region.align)) [
            | inl short ↦ rw short
            | inr (v, got) ↦ rw (got, word (address_of w.region q.segment q.word) v)
          ])

-- After a `realloc` that failed in `tm_alloc`, the library is dead: no read and no write of any
-- address returns, and neither does an allocation that gets its memory.
pub tm_alloc-dead :
    (a : Mallocs) (size : ℕ) (w : World) {s : SegmentNode} {m : Memory} {r : AllocReply}
    → w.region.max_size ≡ w.region.num_allocs
    → init_node a w.region.align size w.memory ≡ some (some s, m)
    → tm_alloc a false size w ≡ some r
    → ((fits : ℕ → Bool) (t : Transaction) (source n : ℕ) → tm_read fits r.world t source n ≡ none)
      × ((node_fits buffer_fits : ℕ → Bool) (t : Transaction) (source : List ℕ) (n target : ℕ)
          → tm_write node_fits buffer_fits r.world t source n target ≡ none)
      × ((a' : Mallocs) (realloc_fits : Bool) (n : ℕ) (s' : SegmentNode) (m' : Memory)
          → init_node a' r.world.region.align n r.world.memory ≡ some (some s', m')
          → tm_alloc a' realloc_fits n r.world ≡ none)
unfolding tm_alloc add_segment tm_read tm_write segment_at
tm_alloc-dead a size w {s} {m} {r} full made e = (
  λ fits t source n. rw lost,
  λ node_fits buffer_fits t source n target. rw lost,
  λ a' realloc_fits n s' m' made'. rw (made', stuck),
)
  where
    reply : r.world ≡ record w {
      memory = m;
      region = record w.region {
        max_size = 2 * w.region.max_size;
        listed = false;
        allocation_lock = true;
      };
    }
    reply =
        let (_, got, e1) = bind-some (init_node a w.region.align size w.memory) _ e in
        ground (arith, made)

    lost : r.world.region.listed ≡ false
    lost = rw reply

    stuck : r.world.region.allocation_lock ≡ true
    stuck = rw reply

-- A transaction that begins while its filter cannot be allocated cannot end: `tm_end` runs into the
-- assertion of `freeBloomFilter`, in any world.
pub tm_begin-null_filter :
    (filter_fits bits_fit is_ro : Bool) (r : MemoryRegion) (w : World) (t : Transaction)
    → (filter_fits && bits_fit) ≡ false
    → tm_begin true filter_fits bits_fit is_ro r ≡ some t
    → tm_end w t ≡ none
unfolding tm_begin tm_end clean_transaction initialise_bloom_filter
tm_begin-null_filter filter_fits bits_fit is_ro r w t nothing e =
    let null : is_some t.filter ≡ false = ground arith in
    let empty : t.write_addresses ≡ [] = ground arith in
    elim (Bool-cases t.is_ro) [ inl ro ↦ rw (null, ro) | inr rw_ ↦ rw (null, rw_, empty) ]
