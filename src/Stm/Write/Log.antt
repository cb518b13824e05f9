-- ===== src/Stm/Write/Log.antt =====
-- What `tm_write` leaves in the write set and the filter.
use software_transactional_m.Prelude.{
  ℕ, ◌%◌, ◌^◌, ◌<◌, ◌≡◌, refl, sym, ap, ◌∙◌, Bool, true, false, some, List, [], ◌∷◌, arith, leb,
  ◌==◌, inl, inr, bind-some, Bool-cases, All, subst, length, assert, ◌≢◌, ==_refl,
}
use software_transactional_m.Stm.Types.{MemoryRegion, LlNode, World, Transaction, BloomFilter}
use software_transactional_m.Stm.Bloom.{add_to_bloom_filter, is_in_bloom_filter}
use software_transactional_m.Stm.Bloom.Laws.{IsBytes, Below, add_to_bloom_filter_lem}
use software_transactional_m.Stm.Locks.{get_write_node, is_null}
use software_transactional_m.Stm.Locks.Publish.{Allocated, address_of, IsWrite}
use software_transactional_m.Stm.Write.{push_write, set_value, write_word}
use software_transactional_m.Stm.Opacity.OwnWrites.{first_value}

set_value-found :
    (a : ℕ) (v : List ℕ) (ns : List LlNode)
    → is_null (get_write_node a ns) ≡ false
    → first_value (get_write_node a (set_value a v ns)) ≡ some v
unfolding set_value get_write_node
set_value-found a v [] h = cc
set_value-found a v (n ∷ ns) h = ground (arith, set_value-found a v ns)

set_value-other :
    (a b : ℕ) (v : List ℕ) (ns : List LlNode)
    → a ≢ b
    → first_value (get_write_node b (set_value a v ns)) ≡ first_value (get_write_node b ns)
unfolding set_value get_write_node
set_value-other a b v [] h = refl
set_value-other a b v (n ∷ ns) h = ground (arith, set_value-other a b v ns)

set_value-IsWrite :
    (r : MemoryRegion) (a : ℕ) (v : List ℕ) (ns : List LlNode)
    → length v ≡ r.align
    → All (IsWrite r) ns
    → All (IsWrite r) (set_value a v ns)
unfolding set_value
set_value-IsWrite r a v [] e h = tt
set_value-IsWrite r a v (n ∷ ns) e (h, hs) = elim (Bool-cases (n.location == a)) [
  | inl hit ↦ rw hit (
    record { allocated = h.allocated; in_words = h.in_words; located = h.located; one_word = e },
    hs,
  )
  | inr miss ↦ rw miss (h, set_value-IsWrite r a v ns e hs)
]

-- The transaction after one word has been written: the word's value can be found, those of other
-- addresses are as before, and the filter answers yes for the address and forgets nothing.
pub record Wrote (w : World) (a : ℕ) (v : List ℕ) (f : BloomFilter) (t t' : Transaction)
    : Type 0 where
  pub found : first_value (get_write_node a t'.write_addresses) ≡ some v
  pub others :
      (b : ℕ)
      → a ≢ b
      → first_value (get_write_node b t'.write_addresses)
        ≡ first_value (get_write_node b t.write_addresses)
  pub all_writes : All (IsWrite w.region) t'.write_addresses
  pub rest : t' ≡ record t { write_addresses = t'.write_addresses; filter = t'.filter }
  pub filter : BloomFilter
  pub has_filter : t'.filter ≡ some filter
  pub seen : is_in_bloom_filter w.memory filter a ≡ some true
  pub forgets_nothing : Below f filter

module _ (w : World) (t : Transaction) (f : BloomFilter) (filtered : t.filter ≡ some f)
    (b : IsBytes f) (k cur a : ℕ) (v : List ℕ) (here : Allocated w.region k)
    (inside : cur < (w.region.segments_list k).num_words) (small : cur < 2 ^ 32)
    (located : a ≡ address_of w.region k cur) (one_word : length v ≡ w.region.align)
    (writes : All (IsWrite w.region) t.write_addresses) where
  abbrev new_write : LlNode
  new_write = record { word_num = cur % 2 ^ 32; location = a; value = v; corresponding_segment = k }

  new_write-IsWrite : IsWrite w.region new_write
  new_write-IsWrite =
      let same : cur % 2 ^ 32 ≡ cur = omega arith in
      record {
        allocated = here;
        in_words = omega arith;
        located = located ∙ ap (λ x. address_of w.region k x) (sym same);
        one_word = one_word;
      }

  push_write-Wrote :
      (node_fits buffer_fits : Bool) {t' : Transaction}
      → push_write node_fits buffer_fits w t k cur a v ≡ some (some t')
      → Wrote w a v f t t'
  unfolding push_write get_write_node
  push_write-Wrote false buffer_fits e = absurd (cc)
  push_write-Wrote true false e = absurd (cc)
  push_write-Wrote true true {t'} e =
      let (_, _, e1) = bind-some (assert (leb w.region.align 8)) _ e in
      let (f0, got, e2) = bind-some t.filter _ e1 in
      let (f', added, e3) = bind-some (add_to_bloom_filter w.memory f0 a) _ e2 in
      let same : f0 ≡ f = cc in
      let (seen, below) =
        add_to_bloom_filter_lem w.memory f f' a b
          (subst (λ g. add_to_bloom_filter w.memory g a ≡ some f') same added) in
      let result : record t { write_addresses = new_write ∷ t.write_addresses; filter = some f' }
          ≡ t' =
        cc in
      subst (Wrote w a v f t) result (record {
        found = rw (==_refl a);
        others = λ c ne. ground arith;
        all_writes = (new_write-IsWrite, writes);
        rest = refl;
        filter = f';
        has_filter = refl;
        seen = seen;
        forgets_nothing = below;
      })

  set_value-Wrote :
      is_in_bloom_filter w.memory f a ≡ some true
      → is_null (get_write_node a t.write_addresses) ≡ false
      → Wrote w a v f t (record t { write_addresses = set_value a v t.write_addresses })
  set_value-Wrote seen found = record {
    found = set_value-found a v t.write_addresses found;
    others = λ c ne. set_value-other a c v t.write_addresses ne;
    all_writes = set_value-IsWrite w.region a v t.write_addresses one_word writes;
    rest = refl;
    filter = f;
    has_filter = filtered;
    seen = seen;
    forgets_nothing = record { same_size = refl; same_hashes = refl; kept = λ h p. p; bytes = b };
  }

  -- Read your own write. After one word has been written its value can be found and the filter
  -- answers yes for it, whether or not it had been written before; the values of other addresses and
  -- the filter's other answers stay; and the write set stays well formed.
  pub write_word-Wrote :
      (node_fits buffer_fits : Bool) {t' : Transaction}
      → write_word node_fits buffer_fits w t k cur a v ≡ some (some t')
      → Wrote w a v f t t'
  unfolding write_word
  write_word-Wrote node_fits buffer_fits {t'} e =
      let (f0, got, e1) = bind-some t.filter _ e in
      let same : f0 ≡ f = cc in
      let (seen, answered, e2) = bind-some (is_in_bloom_filter w.memory f0 a) _ e1 in
      elim (Bool-cases seen) [
        | inr new ↦ push_write-Wrote node_fits buffer_fits (rw new at e2)
        | inl old ↦ elim (Bool-cases (is_null (get_write_node a t.write_addresses))) [
          | inl missing ↦ push_write-Wrote node_fits buffer_fits (rw (old, missing) at e2)
          | inr there ↦
              let (_, _, e3) =
                bind-some (assert (leb w.region.align 8)) _ (rw (old, there) at e2) in
              let result : record t { write_addresses = set_value a v t.write_addresses } ≡ t' =
                cc in
              subst (Wrote w a v f t) result (
                set_value-Wrote
                  (subst (λ g. is_in_bloom_filter w.memory g a ≡ some true) same
                    (answered ∙ ap some old))
                  there)
        ]
      ]
