-- ===== src/Stm/Locks/Publish.antt =====
-- What `writeToLocations` leaves behind, and what `validate` finds.
use software_transactional_m.Prelude.{
  ℕ, ◌+◌, ◌*◌, ◌%◌, ◌^◌, ◌≤◌, ◌<◌, ◌≡◌, refl, sym, ◌∙◌, Bool, true, false, ◌&&◌, some, List, [],
  ◌∷◌, arith, ◌==◌, ◌⊎◌, inl, inr, if◌then◌else◌, length, ◌≢◌, All-mono, Bool-cases, All, ==→eq,
}
use mathlib.Core.Path.{fun_ext, ap₂, subst}
use software_transactional_m.Stm.Memory.{
  Memory, bytes, written, store, read_buffer, read_buffer-length, bytes-written_apart,
  bytes-written_self,
}
use software_transactional_m.Stm.Types.{
  MemoryRegion, LlNode, LockMap, update₂, set_lock, set_version,
}
use software_transactional_m.Stm.Locks.{write_to_locations}
use software_transactional_m.Stm.Locks.Acquire.{has, acquirable, marked}

-- A segment that has been allocated.
abbrev pub Allocated : MemoryRegion → ℕ → Type 0
Allocated r k = (1 ≤ k) × (k < r.num_allocs)

-- Where a word lies.
abbrev pub address_of : MemoryRegion → (k x : ℕ) → ℕ
address_of r k x = (r.segments_list k).segment_start + x * r.align

-- The segments lie in mapped memory and share no byte; words are counted in 32 bits.
pub record IsLaidOut (limit : ℕ) (r : MemoryRegion) : Type 0 where
  pub align_pos : 0 < r.align
  pub inside :
      (k : ℕ)
      → Allocated r k
      → (r.segments_list k).segment_start + (r.segments_list k).num_words * r.align ≤ limit
  pub small : (k : ℕ) → Allocated r k → (r.segments_list k).num_words < 2 ^ 32
  pub apart :
      (k j : ℕ)
      → Allocated r k
      → Allocated r j
      → k ≢ j
      → ((r.segments_list k).segment_start + (r.segments_list k).num_words * r.align
          ≤ (r.segments_list j).segment_start)
        ⊎ ((r.segments_list j).segment_start + (r.segments_list j).num_words * r.align
            ≤ (r.segments_list k).segment_start)

-- A node of a write set names a word of a segment, its address, and a value of one word.
pub record IsWrite (r : MemoryRegion) (n : LlNode) : Type 0 where
  pub allocated : Allocated r n.corresponding_segment
  pub in_words : n.word_num < (r.segments_list n.corresponding_segment).num_words
  pub located : n.location ≡ address_of r n.corresponding_segment n.word_num
  pub one_word : length n.value ≡ r.align

-- A node of a read set names a word of a segment and its address.
pub record IsRead (r : MemoryRegion) (n : LlNode) : Type 0 where
  pub allocated : Allocated r n.corresponding_segment
  pub in_words : n.word_num < (r.segments_list n.corresponding_segment).num_words
  pub located : n.location ≡ address_of r n.corresponding_segment n.word_num

pub word_end-le : (x y a : ℕ) → x < y → x * a + a ≤ y * a
word_end-le x y a h = grind arith

-- Two words of the region share no byte.
pub words_apart :
    {limit : ℕ} {r : MemoryRegion}
    → IsLaidOut limit r
    → (k x j y : ℕ) → Allocated r k
    → Allocated r j
    → x < (r.segments_list k).num_words
    → y < (r.segments_list j).num_words
    → ((k == j) && (x == y)) ≡ false
    → (address_of r k x + r.align ≤ address_of r j y)
      ⊎ (address_of r j y + r.align ≤ address_of r k x)
words_apart {r} o k x j y ak aj hx hy ne = elim (Bool-cases (k == j)) [
  | inl same ↦ ground (arith, word_end-le x y r.align, word_end-le y x r.align, ==→eq k j same)
  | inr other ↦ ground (
    arith,
    word_end-le x (r.segments_list k).num_words r.align,
    word_end-le y (r.segments_list j).num_words r.align,
    o.apart k j ak aj (λ e. ground (arith)),
  )
]

pub word-mapped :
    {limit : ℕ} {r : MemoryRegion}
    → IsLaidOut limit r
    → (k x : ℕ) → Allocated r k
    → x < (r.segments_list k).num_words
    → address_of r k x + r.align ≤ limit
word-mapped {r} o k x a h =
    omega (arith, o.inside k a, word_end-le x (r.segments_list k).num_words r.align h)

-- The memory with all the values written.
unfoldable pub published : Memory → List LlNode → Memory
published m [] = m
published m (n ∷ ns) = published (written m n.location n.value) ns

-- The versions of the nodes set to `v`.
abbrev pub stamped : (ℕ → ℕ → ℕ) → List LlNode → ℕ → ℕ → ℕ → ℕ
stamped f ns v k x = if has k x ns then v else f k x

-- A region where only the locks and the versions differ.
abbrev pub with_state : MemoryRegion → LockMap → (ℕ → ℕ → ℕ) → MemoryRegion
with_state r f g = record r {
  segments_list = λ k. record (r.segments_list k) { lock_bit = f k; lock_version_number = g k };
}

-- The same region at another time: the clock, the locks and the versions may have changed.
abbrev pub at_time : MemoryRegion → ℕ → LockMap → (ℕ → ℕ → ℕ) → MemoryRegion
at_time r c f g = record (with_state r f g) { global_clock = c }

pub at_time-IsLaidOut :
    {limit : ℕ} {r : MemoryRegion} (c : ℕ) (f : LockMap) (g : ℕ → ℕ → ℕ)
    → IsLaidOut limit r
    → IsLaidOut limit (at_time r c f g)
at_time-IsLaidOut c f g o = record {
  align_pos = o.align_pos;
  inside = o.inside;
  small = o.small;
  apart = o.apart;
}

pub at_time-IsWrite :
    (r : MemoryRegion) (c : ℕ) (f : LockMap) (g : ℕ → ℕ → ℕ) (ns : List LlNode)
    → All (IsWrite r) ns
    → All (IsWrite (at_time r c f g)) ns
at_time-IsWrite r c f g = All-mono (IsWrite r) (IsWrite (at_time r c f g)) λ n h. record {
  allocated = h.allocated;
  in_words = h.in_words;
  located = h.located;
  one_word = h.one_word;
}

module _ (r : MemoryRegion) where
  set_version-some :
      (f : LockMap) (g : ℕ → ℕ → ℕ) (k x v : ℕ)
      → x < (r.segments_list k).num_words
      → set_version (with_state r f g) k x v ≡ some (with_state r f (update₂ g k x v))
  unfolding set_version
  set_version-some f g k x v h = ground arith

  set_lock-some :
      (f : LockMap) (g : ℕ → ℕ → ℕ) (k x : ℕ) (b : Bool)
      → x < (r.segments_list k).num_words
      → set_lock (with_state r f g) k x b ≡ some (with_state r (update₂ f k x b) g)
  unfolding set_lock
  set_lock-some f g k x b h = ground arith

  store-some :
      (m : Memory) (n : LlNode)
      → IsLaidOut m.limit r
      → IsWrite r n
      → store m n.location n.value ≡ some (written m n.location n.value)
  unfolding store
  store-some m n o h = ground (
    arith,
    h.located,
    h.one_word,
    word-mapped o n.corresponding_segment n.word_num h.allocated h.in_words,
  )

  read_buffer-some : (n : LlNode) → IsWrite r n → read_buffer n.value r.align ≡ some n.value
  read_buffer-some n h = rw (← h.one_word) (read_buffer-length n.value)

  stamped-cons :
      (g : ℕ → ℕ → ℕ) (n : LlNode) (ns : List LlNode) (v : ℕ)
      → stamped (update₂ g n.corresponding_segment n.word_num v) ns v ≡ stamped g (n ∷ ns) v
  stamped-cons g n ns v = fun_ext λ k. fun_ext λ x. ground arith

  marked-cons :
      (f : LockMap) (n : LlNode) (ns : List LlNode) (b : Bool)
      → marked (update₂ f n.corresponding_segment n.word_num b) ns b ≡ marked f (n ∷ ns) b
  marked-cons f n ns b = fun_ext λ k. fun_ext λ w. ground arith

  -- `writeToLocations` writes every value, stamps every word with the new version, and unlocks it.
  pub write_to_locations-state :
      (ns : List LlNode) (wv : ℕ) (m : Memory) (f : LockMap) (g : ℕ → ℕ → ℕ)
      → IsLaidOut m.limit r
      → All (IsWrite r) ns
      → write_to_locations ns r.align wv (record { memory = m; region = with_state r f g })
        ≡ some (record {
          memory = published m ns;
          region = with_state r (marked f ns false) (stamped g ns (wv % 2 ^ 32));
        })
  unfolding write_to_locations published
  write_to_locations-state [] wv m f g o h = refl
  write_to_locations-state (n ∷ ns) wv m f g o (h, hs) =
      let k = n.corresponding_segment in
      let x = n.word_num in
      rw
        (
          read_buffer-some n h,
          store-some m n o h,
          set_version-some f g k x (wv % 2 ^ 32) h.in_words,
          set_lock-some f (update₂ g k x (wv % 2 ^ 32)) k x false h.in_words,
        )
        (write_to_locations-state ns wv (written m n.location n.value) (update₂ f k x false)
            (update₂ g k x (wv % 2 ^ 32)) o hs
          ∙ ap₂
              (λ f' g'. some (record {
                memory = published (written m n.location n.value) ns;
                region = with_state r f' g';
              }))
              (marked-cons f n ns false) (stamped-cons g n ns (wv % 2 ^ 32)))

  -- A word of no node keeps its bytes.
  pub published_apart :
      (m : Memory) (ns : List LlNode)
      → IsLaidOut m.limit r
      → All (IsWrite r) ns
      → (k x : ℕ) → Allocated r k
      → x < (r.segments_list k).num_words
      → has k x ns ≡ false
      → bytes (published m ns) (address_of r k x) r.align ≡ bytes m (address_of r k x) r.align
  unfolding published
  published_apart m [] o h k x a i e = refl
  published_apart m (n ∷ ns) o (h, hs) k x a i e =
      published_apart (written m n.location n.value) ns o hs k x a i (ground arith)
      ∙ bytes-written_apart m n.location n.value (address_of r k x) r.align (
          ground (
            arith,
            h.located,
            h.one_word,
            words_apart o n.corresponding_segment n.word_num k x h.allocated a h.in_words i,
          ))

  -- Each node's word holds the node's value, if no word stands twice.
  pub published_values :
      (f : LockMap) (m : Memory) (ns : List LlNode)
      → IsLaidOut m.limit r
      → All (IsWrite r) ns
      → acquirable f ns ≡ true
      → All (λ n. bytes (published m ns) n.location r.align ≡ n.value) ns
  unfolding published
  published_values f m [] o h e = tt
  published_values f m (n ∷ ns) o (h, hs) e =
      let m' = written m n.location n.value in
      let apart =
        published_apart m' ns o hs n.corresponding_segment n.word_num h.allocated h.in_words
          (ground arith) in
      let self =
        subst (λ l. bytes m' n.location l ≡ n.value) h.one_word
          (bytes-written_self m n.location n.value) in
      let here = subst (λ a. bytes m' a r.align ≡ n.value) h.located self in
      (
        subst (λ a. bytes (published m' ns) a r.align ≡ n.value) (sym h.located) (apart ∙ here),
        published_values f m' ns o hs (ground arith),
      )

  pub limit-published : (m : Memory) (ns : List LlNode) → (published m ns).limit ≡ m.limit
  unfolding published
  limit-published m [] = refl
  limit-published m (n ∷ ns) = limit-published (written m n.location n.value) ns
