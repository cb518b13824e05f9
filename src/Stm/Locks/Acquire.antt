-- ===== src/Stm/Locks/Acquire.antt =====
-- `acquireLocks` takes all the locks of a write set or none.
use software_transactional_m.Prelude.{
  ℕ, suc, ◌<◌, ◌≡◌, refl, ap, ◌∙◌, Bool, true, false, not, ◌&&◌, ◌||◌, some, List, [], ◌∷◌, ◌++◌,
  arith, ◌==◌, inl, inr, if◌then◌else◌, length, length-append, Bool-cases, All, ==_refl,
}
use mathlib.Core.Path.{fun_ext}
use software_transactional_m.Stm.Types.{
  MemoryRegion, LlNode, LockMap, locks, with_locks, update₂, lock_at, set_lock,
}
use software_transactional_m.Stm.Locks.{release_locks, try_lock, acquire_loop, acquire_locks}

-- A word is among those of the nodes.
abbrev pub has : ℕ → ℕ → List LlNode → Bool
has k w [] = false
has k w (n ∷ ns) = ((n.corresponding_segment == k) && (n.word_num == w)) || has k w ns

-- The nodes lie inside their segments' lock arrays.
abbrev pub InSegments : MemoryRegion → List LlNode → Type 0
InSegments r = All λ n. n.word_num < (r.segments_list n.corresponding_segment).num_words

-- No lock of the nodes is held, and no word stands twice.
abbrev pub acquirable : LockMap → List LlNode → Bool
acquirable f [] = true
acquirable f (n ∷ ns) =
    not (f n.corresponding_segment n.word_num)
    && not (has n.corresponding_segment n.word_num ns)
    && acquirable f ns

-- The locks of the nodes set to `b`, all others as they were.
abbrev pub marked : LockMap → List LlNode → Bool → LockMap
marked f ns b k w = if has k w ns then b else f k w

module _ (r : MemoryRegion) where
  set_lock-some :
      (f : LockMap) (k w : ℕ) (b : Bool)
      → w < (r.segments_list k).num_words
      → set_lock (with_locks r f) k w b ≡ some (with_locks r (update₂ f k w b))
  unfolding set_lock
  set_lock-some f k w b h = ground arith

  marked-cons :
      (f : LockMap) (n : LlNode) (ns : List LlNode) (b : Bool)
      → marked (update₂ f n.corresponding_segment n.word_num b) ns b ≡ marked f (n ∷ ns) b
  marked-cons f n ns b = fun_ext λ k. fun_ext λ w. ground arith

  -- Releasing all of a list.
  pub release_locks-all :
      (f : LockMap) (ns : List LlNode)
      → InSegments r ns
      → release_locks ns 0 (with_locks r f) ≡ some (with_locks r (marked f ns false))
  unfolding release_locks
  release_locks-all f [] h = refl
  release_locks-all f (n ∷ ns) h =
      let e : (suc (length ns) == 0) ≡ false = ground arith in
      rw (e, set_lock-some f n.corresponding_segment n.word_num false h.0)
        (release_locks-all (update₂ f n.corresponding_segment n.word_num false) ns h.1
          ∙ ap (λ g. some (with_locks r g)) (marked-cons f n ns false))

  -- Releasing up to a node.
  release_locks-append :
      (f : LockMap) (ps ns : List LlNode)
      → InSegments r ps
      → (0 < length ns)
      → release_locks (ps ++ ns) (length ns) (with_locks r f)
        ≡ some (with_locks r (marked f ps false))
  unfolding release_locks
  release_locks-append f [] [] h q = absurd (omega arith)
  release_locks-append f [] (n ∷ ns) h q = rw (==_refl (suc (length ns)))
  release_locks-append f (p ∷ ps) ns h q =
      let e : (suc (length (ps ++ ns)) == length ns) ≡ false =
        ground (arith, length-append ps ns) in
      rw (e, set_lock-some f p.corresponding_segment p.word_num false h.0)
        (release_locks-append (update₂ f p.corresponding_segment p.word_num false) ps ns h.1 q
          ∙ ap (λ g. some (with_locks r g)) (marked-cons f p ps false))

acquirable-update :
    (f : LockMap) (k w : ℕ) (b : Bool) (ns : List LlNode)
    → has k w ns ≡ false
    → acquirable (update₂ f k w b) ns ≡ acquirable f ns
acquirable-update f k w b [] h = refl
acquirable-update f k w b (n ∷ ns) h = ground (arith, acquirable-update f k w b ns)

acquirable_held :
    (f : LockMap) (k w : ℕ) (ns : List LlNode)
    → has k w ns ≡ true
    → f k w ≡ true
    → acquirable f ns ≡ false
acquirable_held f k w [] h e = cc
acquirable_held f k w (n ∷ ns) h e = ground (arith, acquirable_held f k w ns)

-- The words of an acquirable list are free.
pub acquirable-free :
    (f : LockMap) (ns : List LlNode)
    → acquirable f ns ≡ true
    → (k w : ℕ) → marked f ns false k w ≡ f k w
acquirable-free f [] e k w = refl
acquirable-free f (n ∷ ns) e k w = ground (arith, acquirable-free f ns (ground arith) k w)

try_lock-free :
    (r : MemoryRegion) (f : LockMap) (k w : ℕ)
    → w < (r.segments_list k).num_words
    → f k w ≡ false
    → try_lock (with_locks r f) k w ≡ some (true, with_locks r (update₂ f k w true))
unfolding try_lock lock_at set_lock
try_lock-free r f k w h e = ground arith

try_lock-held :
    (r : MemoryRegion) (f : LockMap) (k w : ℕ)
    → w < (r.segments_list k).num_words
    → f k w ≡ true
    → try_lock (with_locks r f) k w ≡ some (false, with_locks r f)
unfolding try_lock lock_at
try_lock-held r f k w h e = ground arith

module _ (r : MemoryRegion) where
  acquire_loop-all :
      (f : LockMap) (ns : List LlNode)
      → InSegments r ns
      → acquirable f ns ≡ true
      → acquire_loop ns (with_locks r f) ≡ some (0, true, with_locks r (marked f ns true))
  unfolding acquire_loop
  acquire_loop-all f [] h e = refl
  acquire_loop-all f (n ∷ ns) h e =
      let k = n.corresponding_segment in
      let w = n.word_num in
      rw (try_lock-free r f k w h.0 (ground arith)) (
        acquire_loop-all (update₂ f k w true) ns h.1
          (ground (arith, acquirable-update f k w true ns))
        ∙ ap (λ g. some (0, true, with_locks r g)) (marked-cons r f n ns true))

  -- Where the loop stops early, the locks before the stop were free.
  record Blocked (f : LockMap) (ns : List LlNode) : Type 0 where
    taken : List LlNode
    rest : List LlNode
    split : ns ≡ taken ++ rest
    stopped : 0 < length rest
    inside : InSegments r taken
    were_free : (k w : ℕ) → marked f taken false k w ≡ f k w
    looped :
        acquire_loop ns (with_locks r f)
        ≡ some (length rest, false, with_locks r (marked f taken true))

  acquire_loop-Blocked :
      (f : LockMap) (ns : List LlNode) → InSegments r ns → acquirable f ns ≡ false → Blocked f ns
  unfolding acquire_loop
  acquire_loop-Blocked f [] h e = absurd (cc)
  acquire_loop-Blocked f (n ∷ ns) h e = elim (Bool-cases (f n.corresponding_segment n.word_num)) [
    | inl held ↦ record {
      taken = [];
      rest = n ∷ ns;
      split = refl;
      stopped = omega arith;
      inside = tt;
      were_free = λ k w. refl;
      looped = rw (try_lock-held r f n.corresponding_segment n.word_num h.0 held);
    }
    | inr free ↦
        let k = n.corresponding_segment in
        let w = n.word_num in
        let b = acquire_loop-Blocked (update₂ f k w true) ns h.1 (
          ground (
            arith,
            acquirable-update f k w true ns,
            acquirable_held (update₂ f k w true) k w ns,
          )) in
        record {
          taken = n ∷ b.taken;
          rest = b.rest;
          split = ap (λ l. n ∷ l) b.split;
          stopped = b.stopped;
          inside = (h.0, b.inside);
          were_free = λ k' w'. ground (arith, b.were_free k' w');
          looped = rw (try_lock-free r f k w h.0 free) (
              b.looped
              ∙ ap (λ g. some (length b.rest, false, with_locks r g))
                  (marked-cons r f n b.taken true));
        }
  ]

  pub marked-marked :
      (f : LockMap) (ns : List LlNode)
      → ((k w : ℕ) → marked f ns false k w ≡ f k w)
      → marked (marked f ns true) ns false ≡ f
  marked-marked f ns h = fun_ext λ k. fun_ext λ w. ground (arith, h k w)

-- On nodes inside their segments `acquireLocks` returns. It succeeds exactly when no lock of the
-- nodes is held and no word stands twice, and then holds these locks and no others in addition;
-- otherwise it gives back the region as it was.
pub acquire_locks_lem :
    (r : MemoryRegion) (ns : List LlNode)
    → InSegments r ns
    → acquire_locks ns r ≡ (
        if acquirable (locks r) ns
        then some (true, with_locks r (marked (locks r) ns true))
        else some (false, r))
unfolding acquire_locks
acquire_locks_lem r ns h = elim (Bool-cases (acquirable (locks r) ns)) [
  | inl all ↦ rw (acquire_loop-all r (locks r) ns h all, all)
  | inr some_held ↦
      let b = acquire_loop-Blocked r (locks r) ns h some_held in
      rw (b.looped, some_held)
        (rw (
          b.split,
          release_locks-append r (marked (locks r) b.taken true) b.taken b.rest b.inside b.stopped,
          marked-marked r (locks r) b.taken b.were_free,
        ))
]
