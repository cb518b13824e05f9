-- ===== src/Stm/Totality.antt =====
-- Writes return, where the alignment is at most 8 and the shared memory ends with a zero byte.
use software_transactional_m.Prelude.{
  ℕ, zero, suc, ◌+◌, ◌*◌, ◌-◌, ◌%◌, ◌^◌, ◌≤◌, ◌<◌, ◌≡◌, refl, sym, ap, ◌∙◌, Bool, true, false, ◌&&◌,
  Option, none, some, List, ◌∷◌, arith, leb, ◌==◌, inl, inr, Bool-cases, subst, is_some, length,
  take, drop, length-drop, ◌⊎◌,
}
use software_transactional_m.Stm.Memory.{Memory, read_buffer}
use software_transactional_m.Stm.Types.{World, Transaction, BloomFilter}
use software_transactional_m.Stm.Bloom.{
  add_char, hash_loop, hash_function, with_bit, has_bit, add_loop, add_to_bloom_filter, is_in_loop,
  is_in_bloom_filter,
}
use software_transactional_m.Stm.Locks.{is_null, get_write_node}
use software_transactional_m.Stm.Locks.Publish.{Allocated, address_of, IsLaidOut, word-mapped}
use software_transactional_m.Stm.Begin.{clean_transaction}
use software_transactional_m.Stm.Write.{
  WriteReply, set_value, push_write, write_word, write_loop, tm_write,
}
use software_transactional_m.Stm.Write.Keeps.{tm_write-loop}
use software_transactional_m.Stm.Opacity.{IsRequest}

-- The last mapped byte is zero, so that every text ends.
pub record Ends (m : Memory) : Type 0 where
  pub some_byte : 0 < m.limit
  pub last : m.byte (m.limit - 1) ≡ 0

hash_loop-some :
    (m : Memory) (rest a h : ℕ)
    → 0 < rest
    → a + rest ≡ m.limit
    → m.byte (m.limit - 1) ≡ 0
    → is_some (hash_loop m rest a h) ≡ true
unfolding hash_loop
hash_loop-some m zero a h p e last = absurd (omega arith)
hash_loop-some m (suc zero) a h p e last =
    let here : m.byte a ≡ 0 = subst (λ x. m.byte x ≡ 0) (omega arith) last in ground (arith, here)
hash_loop-some m (suc (suc rest)) a h p e last = elim (Bool-cases (m.byte a == 0)) [
  | inl nul ↦ rw (is_some, nul)
  | inr more ↦
      rw (is_some, more)
        (hash_loop-some m (suc rest) (a + 1)
          (add_char (((h * 2 ^ 5) % 2 ^ 32 + h) % 2 ^ 32) (m.byte a)) (omega arith) (omega arith)
          last)
]

some-is : {A : Type 0} (o : Option A) → is_some o ≡ true → (x : A) × (o ≡ some x)
some-is (some x) e = (x, refl)
some-is none e = absurd cc

hash_function-some :
    (m : Memory) (a seed : ℕ) → Ends m → a < m.limit → (h : ℕ) × (hash_function m a seed ≡ some h)
unfolding hash_function
hash_function-some m a seed e inside =
    some-is _
      (hash_loop-some m (m.limit - a) a ((42 + seed) % 2 ^ 32) (omega arith) (omega arith) e.last)

add_loop-some :
    (m : Memory) (a n i : ℕ) (f : BloomFilter)
    → Ends m
    → a < m.limit
    → (g : BloomFilter) × (add_loop m a n i f ≡ some g)
unfolding add_loop
add_loop-some m a zero i f e inside = (f, refl)
add_loop-some m a (suc n) i f e inside =
    let (h, hashed) = hash_function-some m a i e inside in
    let (g, added) = add_loop-some m a n (i + 1) (with_bit f (h % f.size)) e inside in
    (g, rw hashed added)

choose :
    (c b : Bool)
    → (elim c as (λ x. Option Bool) [ true ↦ some b | false ↦ some false ]) ≡ some (c && b)
choose true b = refl
choose false b = refl

is_in_loop-some :
    (m : Memory) (a n i : ℕ) (f : BloomFilter)
    → Ends m
    → a < m.limit
    → (b : Bool) × (is_in_loop m a n i f ≡ some b)
unfolding is_in_loop
is_in_loop-some m a zero i f e inside = (true, refl)
is_in_loop-some m a (suc n) i f e inside =
    let (h, hashed) = hash_function-some m a i e inside in
    let (b, rest) = is_in_loop-some m a n (i + 1) f e inside in
    (
      has_bit f (h % f.size) && b,
      rw hashed (
          ap
            (λ (o : Option Bool). elim (has_bit f (h % f.size)) as (λ x. Option Bool) [
              | true ↦ o
              | false ↦ some false
            ])
            rest
          ∙ choose (has_bit f (h % f.size)) b),
    )

-- A step that gives up, or leaves a transaction that still has its filter.
abbrev Steps : Option (Option Transaction) → Type 0
Steps o = (o ≡ some none) ⊎ ((t' : Transaction) × (o ≡ some (some t')) × (is_some t'.filter ≡ true))

module _ (w : World) (t : Transaction) (s cur a : ℕ) (v : List ℕ) (e : Ends w.memory)
    (inside : a < w.memory.limit) (narrow : leb w.region.align 8 ≡ true)
    (filtered : is_some t.filter ≡ true) where
  push_write-Steps :
      (node_fits buffer_fits : Bool) → Steps (push_write node_fits buffer_fits w t s cur a v)
  unfolding push_write add_to_bloom_filter
  push_write-Steps false buffer_fits = inl refl
  push_write-Steps true false = inl refl
  push_write-Steps true true =
      let (f, has) = some-is t.filter filtered in
      let (g, added) = add_loop-some w.memory a f.num_hashes 0 f e inside in
      inr (
        record t {
          write_addresses =
              record { word_num = cur % 2 ^ 32; location = a; value = v; corresponding_segment = s }
              ∷ t.write_addresses;
          filter = some g;
        },
        rw (narrow, has, added),
        refl,
      )

  write_word-Steps :
      (node_fits buffer_fits : Bool) → Steps (write_word node_fits buffer_fits w t s cur a v)
  unfolding write_word is_in_bloom_filter
  write_word-Steps node_fits buffer_fits =
      let (f, has) = some-is t.filter filtered in
      let (seen, answered) = is_in_loop-some w.memory a f.num_hashes 0 f e inside in
      elim (Bool-cases seen) [
        | inr new ↦
            subst Steps (sym (rw (has, answered, new))) (push_write-Steps node_fits buffer_fits)
        | inl old ↦ elim (Bool-cases (is_null (get_write_node a t.write_addresses))) [
          | inl missing ↦
              subst Steps (sym (rw (has, answered, old, missing)))
                (push_write-Steps node_fits buffer_fits)
          | inr there ↦ inr (
            record t { write_addresses = set_value a v t.write_addresses },
            rw (has, answered, old, there, narrow),
            filtered,
          )
        ]
      ]

module _ (node_fits buffer_fits : ℕ → Bool) (w : World) (e : Ends w.memory)
    (o : IsLaidOut w.memory.limit w.region) (narrow : w.region.align ≤ 8) (k : ℕ)
    (here : Allocated w.region k) where
  write_loop-returns :
      (n i cur : ℕ) (t : Transaction) (source : List ℕ)
      → is_some t.filter ≡ true
      → cur + n ≤ (w.region.segments_list k).num_words
      → n * w.region.align ≤ length source
      → (reply : WriteReply) × (write_loop node_fits buffer_fits w t k n i cur
            (address_of w.region k cur)
            source
          ≡ some reply)
  unfolding write_loop clean_transaction read_buffer
  write_loop-returns zero i cur t source filtered within long =
      (record { continues = true; tx = some t }, refl)
  write_loop-returns (suc n) i cur t source filtered within long =
      let inside : address_of w.region k cur < w.memory.limit =
        omega (arith, word-mapped o k cur here (omega arith), o.align_pos) in
      let fits : leb w.region.align 8 ≡ true = ground arith in
      let enough : leb w.region.align (length source) ≡ true = ground arith in
      elim (write_word-Steps w t k cur (address_of w.region k cur) (take w.region.align source) e
        inside fits filtered (node_fits i) (buffer_fits i)) [
          | inl failed ↦ (record { continues = false; tx = none }, rw (enough, failed, filtered))
          | inr (t', stepped, still) ↦
              let next : address_of w.region k cur + w.region.align
                  ≡ address_of w.region k (cur + 1) =
                omega arith in
              let (reply, rest) =
                write_loop-returns n (i + 1) (cur + 1) t' (drop w.region.align source) still
                  (omega arith) (omega (arith, length-drop w.region.align source)) in
              (reply, rw (enough, stepped, next) rest)
        ]

-- Progress of writes. Let the alignment be at most 8, the shared memory end with a zero byte and
-- the transaction have a filter. Then a `tm_write` for words of a segment, from a source that is long
-- enough, returns, whatever was written before and whether or not allocations succeed.
pub tm_write-returns :
    (node_fits buffer_fits : ℕ → Bool) (w : World) (t : Transaction) (source : List ℕ)
    (size target : ℕ)
    → Ends w.memory
    → IsLaidOut w.memory.limit w.region
    → w.region.align ≤ 8
    → is_some t.filter ≡ true
    → IsRequest w.region target size
    → size ≤ length source
    → (reply : WriteReply) × (tm_write node_fits buffer_fits w t source size target ≡ some reply)
tm_write-returns node_fits buffer_fits w t source size target e o narrow filtered q long =
    let (reply, loop) =
      write_loop-returns node_fits buffer_fits w e o narrow q.segment q.allocated q.count 0 q.word t
        source filtered q.within (omega (arith, q.sized)) in
    (reply, tm_write-loop node_fits buffer_fits w t source size target o.align_pos q ∙ loop)
