-- ===== src/Reference/Segments.antt =====
-- The segments of reference/tm.c form a doubly linked list, and allocation and release keep it.
use software_transactional_m.Prelude.{
  ℕ, suc, ◌+◌, ◌-◌, ◌≡◌, ◌≤◌, zero, length, refl, sym, ap, ◌∙◌, Bool, true, false, not, ◌&&◌, ◌||◌,
  Option, none, some, List, [], ◌∷◌, ◌++◌, ◌==◌, if◌then◌else◌, update, Bool-cases, inl, inr, arith,
  subst, ◌≢◌, ==→eq,
}
use software_transactional_m.Stm.Memory.{zeroed}
use software_transactional_m.Stm.Alloc.{Alloc, success_alloc, nomem_alloc}
use software_transactional_m.Reference.{
  ListNode, Heap, Region, set_prev, set_next, unlink_prev, unlink_next, segment_align,
  insert_segment, tm_alloc, tm_free, free_segments,
}

-- The first address of a list, or `q`.
abbrev pub first_or : ℕ → List ℕ → ℕ
first_or q [] = q
first_or q (x ∷ xs) = x

-- The last address of a list, or `p`.
abbrev pub last_or : ℕ → List ℕ → ℕ
last_or p [] = p
last_or p (x ∷ xs) = last_or x xs

abbrev pub member : ℕ → List ℕ → Bool
member x [] = false
member x (y ∷ ys) = (x == y) || member x ys

-- No address is NULL and none stands twice.
abbrev pub distinct : List ℕ → Bool
distinct [] = true
distinct (x ∷ xs) = not (x == 0) && not (member x xs) && distinct xs

abbrev Nodes : Type 0
Nodes = ℕ → Option ListNode

-- The headers link the addresses, between `p` and `q`.
abbrev pub Linked : Nodes → (p q : ℕ) → List ℕ → Type 0
Linked f p q [] = Unit
Linked f p q (x ∷ xs) = (f x ≡ some (record { prev = p; next = first_or q xs })) × Linked f x q xs

-- The region's list.
pub record IsList (r : Region) (h : Heap) (xs : List ℕ) : Type 0 where
  pub starts : r.allocs ≡ first_or 0 xs
  pub linked : Linked h.nodes 0 0 xs
  pub no_twins : distinct xs ≡ true

Linked-frame :
    (f g : Nodes) (p q : ℕ) (xs : List ℕ)
    → ((y : ℕ) → member y xs ≡ true → g y ≡ f y)
    → Linked f p q xs
    → Linked g p q xs
Linked-frame f g p q [] same l = tt
Linked-frame f g p q (x ∷ xs) same (n, l) =
    (same x (ground arith) ∙ n, Linked-frame f g x q xs (λ y m. same y (ground arith)) l)

abbrev set : Nodes → ℕ → Option ListNode → Nodes
set f a n = update f a n

Linked-apart :
    (f : Nodes) (p q a : ℕ) (n : Option ListNode) (xs : List ℕ)
    → member a xs ≡ false
    → Linked f p q xs
    → Linked (set f a n) p q xs
Linked-apart f p q a n xs apart = Linked-frame f (set f a n) p q xs λ y m.
    elim (Bool-cases (a == y)) [
      | inl same ↦
          absurd
            (let e : a ≡ y = ground arith in let no : false ≡ true = sym apart ∙ (rw e m) in cc)
      | inr other ↦ ground arith
    ]

-- Another address before a list.
Linked-set_prev :
    (f : Nodes) (p p' q x : ℕ) (xs : List ℕ)
    → distinct (x ∷ xs) ≡ true
    → Linked f p q (x ∷ xs)
    → Linked (set f x (some (record { prev = p'; next = first_or q xs }))) p' q (x ∷ xs)
Linked-set_prev f p p' q x xs d (n, l) = (ground arith, Linked-apart f x q x _ xs (ground arith) l)

last_or-member : (x : ℕ) (xs : List ℕ) → member (last_or x xs) (x ∷ xs) ≡ true
last_or-member x [] = ground arith
last_or-member x (y ∷ ys) = ground (arith, last_or-member y ys)

head_apart : (x : ℕ) (xs : List ℕ) → distinct (x ∷ xs) ≡ true → member x xs ≡ true → ⊥
head_apart x xs d m = ground (arith)

distinct_tail : (x : ℕ) (xs : List ℕ) → distinct (x ∷ xs) ≡ true → distinct xs ≡ true
distinct_tail x xs d = ground arith

-- The header of the last address, and another address behind the list.
Linked-set_next :
    (f : Nodes) (p q q' x : ℕ) (xs : List ℕ)
    → distinct (x ∷ xs) ≡ true
    → Linked f p q (x ∷ xs)
    → (b : ℕ) × (f (last_or x xs) ≡ some (record { prev = b; next = q }))
      × Linked (set f (last_or x xs) (some (record { prev = b; next = q' }))) p q' (x ∷ xs)
Linked-set_next f p q q' x [] d (n, l) = (p, n, (ground arith, tt))
Linked-set_next f p q q' x (y ∷ ys) d (n, l) =
    let (b, is, rest) = Linked-set_next f x q q' y ys (distinct_tail x (y ∷ ys) d) l in
    (
      b,
      is,
      (
        elim (Bool-cases (last_or y ys == x)) [
          | inl same ↦ absurd (
              let e : last_or y ys ≡ x = ==→eq (last_or y ys) x same in
              let m : member x (y ∷ ys) ≡ true =
                subst (λ z. member z (y ∷ ys) ≡ true) e (last_or-member y ys) in
              head_apart x (y ∷ ys) d m)
          | inr other ↦ rw other n
        ],
        rest,
      ),
    )

Linked-split :
    (f : Nodes) (p q : ℕ) (xs ys : List ℕ)
    → Linked f p q (xs ++ ys)
    → Linked f p (first_or q ys) xs × Linked f (last_or p xs) q ys
Linked-split f p q [] ys l = (tt, l)
Linked-split f p q (x ∷ []) ys (n, l) = ((n, tt), l)
Linked-split f p q (x ∷ y ∷ xs) ys (n, l) =
    let (a, b) = Linked-split f x q (y ∷ xs) ys l in ((n, a), b)

Linked-join :
    (f : Nodes) (p q : ℕ) (xs ys : List ℕ)
    → Linked f p (first_or q ys) xs
    → Linked f (last_or p xs) q ys
    → Linked f p q (xs ++ ys)
Linked-join f p q [] ys a b = b
Linked-join f p q (x ∷ []) ys (n, a) b = (n, b)
Linked-join f p q (x ∷ y ∷ xs) ys (n, a) b = (n, Linked-join f x q (y ∷ xs) ys a b)

member-append : (z : ℕ) (xs ys : List ℕ) → member z (xs ++ ys) ≡ (member z xs || member z ys)
member-append z [] ys = refl
member-append z (x ∷ xs) ys = ground (arith, member-append z xs ys)

distinct-append :
    (xs ys : List ℕ)
    → distinct (xs ++ ys) ≡ true
    → (distinct xs ≡ true)
      × (distinct ys ≡ true)
      × ((z : ℕ) → member z ys ≡ true → member z xs ≡ false)
distinct-append [] ys d = (refl, d, λ z m. refl)
distinct-append (x ∷ xs) ys d =
    let (a, b, c) = distinct-append xs ys (ground arith) in
    (
      ground (arith, member-append x xs ys),
      b,
      λ z m. elim (Bool-cases (z == x)) [
        | inl same ↦ absurd (
            let e : z ≡ x = ground arith in
            let m' : member x ys ≡ true = subst (λ k. member k ys ≡ true) e m in
            ground (arith, member-append x xs ys))
        | inr other ↦ ground (arith, c z m)
      ],
    )

not_null : (z : ℕ) (xs : List ℕ) → distinct xs ≡ true → member z xs ≡ true → (z == 0) ≡ false
not_null z [] d m = absurd cc
not_null z (x ∷ xs) d m = ground (arith, not_null z xs)

insert_segment-IsList :
    (sn : ℕ) (r : Region) (h : Heap) (size : ℕ) (xs : List ℕ)
    → IsList r h xs
    → sn ≢ 0
    → member sn xs ≡ false
    → (r' : Region) × (h' : Heap) × (insert_segment sn r h size
        ≡ some (success_alloc, sn + 16, r', h'))
      × IsList r' h' (sn ∷ xs)
      × (h'.memory ≡ zeroed h.memory (sn + 16) size)
unfolding insert_segment set_prev
insert_segment-IsList sn r h size [] l real apart =
    let empty : (r.allocs == 0) ≡ true = ground (arith, l.starts) in
    (
      record r { allocs = sn },
      record {
        memory = zeroed h.memory (sn + 16) size;
        nodes = set h.nodes sn (some (record { prev = 0; next = r.allocs }));
      },
      rw empty,
      record { starts = refl; linked = (rw l.starts (ground arith), tt); no_twins = ground arith },
      refl,
    )
insert_segment-IsList sn r h size (x ∷ xs) l real apart =
    let f = set h.nodes sn (some (record { prev = 0; next = x })) in
    let some_first : (x == 0) ≡ false = ground (arith, l.no_twins) in
    let other : (sn == x) ≡ false = ground (arith, apart) in
    let other' : (x == sn) ≡ false = ground (arith, other) in
    let there : f x ≡ some (record { prev = 0; next = first_or 0 xs }) = rw other l.linked.0 in
    let apart' : member sn xs ≡ false = ground (arith, apart) in
    (
      record r { allocs = sn },
      record {
        memory = zeroed h.memory (sn + 16) size;
        nodes = set f x (some (record { prev = sn; next = first_or 0 xs }));
      },
      rw (l.starts, some_first, there),
      record {
        starts = refl;
        linked = (
          rw other' (ground arith),
          Linked-set_prev f 0 sn 0 x xs l.no_twins
              (Linked-apart h.nodes 0 0 sn _ (x ∷ xs) apart l.linked),
        );
        no_twins = ground (arith, l.no_twins, apart);
      },
      refl,
    )

-- `tm_alloc`, given a new block, puts it in front of the list and answers where its bytes are, all
-- zero.
pub tm_alloc-IsList :
    (memalign : ℕ → ℕ → Option ℕ) (sn : ℕ) (r : Region) (h : Heap) (size : ℕ) (xs : List ℕ)
    → memalign (segment_align r) (16 + size) ≡ some sn
    → IsList r h xs
    → sn ≢ 0
    → member sn xs ≡ false
    → (r' : Region) × (h' : Heap) × (tm_alloc memalign r h size
        ≡ some (success_alloc, sn + 16, r', h'))
      × IsList r' h' (sn ∷ xs)
      × (h'.memory ≡ zeroed h.memory (sn + 16) size)
unfolding tm_alloc
tm_alloc-IsList memalign sn r h size xs given l real apart =
    let (r', h', done, list, cleared) = insert_segment-IsList sn r h size xs l real apart in
    (
      r',
      h',
      ap
            (λ (o : Option ℕ). elim o as (λ x. Option (Alloc × ℕ × Region × Heap)) [
              | none ↦ some (nomem_alloc, 0, r, h)
              | some sn ↦ insert_segment sn r h size
            ])
            given
          ∙ done,
      list,
      cleared,
    )

-- The header of the segment before, changed by `tm_free`.
record UnlinkedLeft (r : Region) (h : Heap) (xs : List ℕ) (q : ℕ) : Type 0 where
  region : Region
  heap : Heap
  done : unlink_prev r h (last_or 0 xs) q ≡ some (region, heap)
  starts : region.allocs ≡ first_or q xs
  linked : Linked heap.nodes 0 q xs
  same : (y : ℕ) → member y xs ≡ false → heap.nodes y ≡ h.nodes y

unlink_left :
    (r : Region) (h : Heap) (xs : List ℕ) (x q : ℕ)
    → distinct xs ≡ true
    → r.allocs ≡ first_or x xs
    → Linked h.nodes 0 x xs
    → UnlinkedLeft r h xs q
unfolding unlink_prev set_next
unlink_left r h [] x q d s l = record {
  region = record r { allocs = q };
  heap = h;
  done = refl;
  starts = refl;
  linked = tt;
  same = λ y m. refl;
}
unlink_left r h (a ∷ xs) x q d s l =
    let (b, is, rest) = Linked-set_next h.nodes 0 x q a xs d l in
    let inner : (last_or a xs == 0) ≡ false =
      not_null (last_or a xs) (a ∷ xs) d (last_or-member a xs) in
    record {
      region = r;
      heap = record h { nodes = set h.nodes (last_or a xs) (some (record { prev = b; next = q })) };
      done = rw (inner, is);
      starts = s;
      linked = rest;
      same = λ y m. elim (Bool-cases (last_or a xs == y)) [
        | inl it ↦ absurd (
            let e : last_or a xs ≡ y = ==→eq (last_or a xs) y it in
            let m' : member y (a ∷ xs) ≡ true =
              subst (λ z. member z (a ∷ xs) ≡ true) e (last_or-member a xs) in
            let no : false ≡ true = sym m ∙ m' in cc)
        | inr other ↦ rw other
      ];
    }

-- The header of the segment after it, changed by `tm_free`.
record UnlinkedRight (h : Heap) (p : ℕ) (ys : List ℕ) : Type 0 where
  heap : Heap
  done : unlink_next h p (first_or 0 ys) ≡ some heap
  linked : Linked heap.nodes p 0 ys
  same : (y : ℕ) → member y ys ≡ false → heap.nodes y ≡ h.nodes y

unlink_right :
    (h : Heap) (x p : ℕ) (ys : List ℕ)
    → distinct ys ≡ true
    → Linked h.nodes x 0 ys
    → UnlinkedRight h p ys
unfolding unlink_next set_prev
unlink_right h x p [] d l = record { heap = h; done = refl; linked = tt; same = λ y m. refl }
unlink_right h x p (b ∷ ys) d l =
    let real : (b == 0) ≡ false = not_null b (b ∷ ys) d (ground arith) in
    record {
      heap = record h { nodes = set h.nodes b (some (record { prev = p; next = first_or 0 ys })) };
      done = rw (real, l.0);
      linked = Linked-set_prev h.nodes x p 0 b ys d l;
      same = λ y m. ground (arith, m);
    }

first_or-append : (q : ℕ) (xs ys : List ℕ) → first_or q (xs ++ ys) ≡ first_or (first_or q ys) xs
first_or-append q [] ys = refl
first_or-append q (x ∷ xs) ys = refl

without_middle :
    (xs : List ℕ) (x : ℕ) (ys : List ℕ)
    → distinct (xs ++ x ∷ ys) ≡ true
    → distinct (xs ++ ys) ≡ true
without_middle [] x ys d = distinct_tail x ys d
without_middle (a ∷ xs) x ys d =
    ground (arith, member-append a xs (x ∷ ys), member-append a xs ys, without_middle xs x ys)

-- `tm_free` of any segment takes it out of the list, whose others stay linked in their order, and
-- frees its header.
pub tm_free-IsList :
    (r : Region) (h : Heap) (xs : List ℕ) (x : ℕ) (ys : List ℕ)
    → IsList r h (xs ++ x ∷ ys)
    → (r' : Region) × (h' : Heap) × (tm_free r h (x + 16) ≡ some (r', h'))
      × IsList r' h' (xs ++ ys)
      × (h'.nodes x ≡ none)
unfolding tm_free
tm_free-IsList r h xs x ys l =
    let (left, (here, right)) = Linked-split h.nodes 0 0 xs (x ∷ ys) l.linked in
    let (dx, dxys, apart) = distinct-append xs (x ∷ ys) l.no_twins in
    let at : x + 16 - 16 ≡ x = omega arith in
    let u =
      unlink_left r h xs x (first_or 0 ys) dx (l.starts ∙ first_or-append 0 xs (x ∷ ys)) left in
    let v =
      unlink_right u.heap x (last_or 0 xs) ys (distinct_tail x ys dxys)
        (Linked-frame h.nodes u.heap.nodes x 0 ys (λ y m. u.same y (apart y (later y m))) right) in
    let kept =
      Linked-frame u.heap.nodes v.heap.nodes 0 (first_or 0 ys) xs
        (λ y m. v.same y (not_later apart y m)) u.linked in
    (
      u.region,
      record v.heap { nodes = update v.heap.nodes x none },
      rw (at, here, u.done, v.done),
      record {
        starts = u.starts ∙ sym (first_or-append 0 xs ys);
        linked =
            Linked-apart v.heap.nodes 0 0 x none (xs ++ ys)
              (member-append x xs ys ∙ gone apart dxys)
              (Linked-join v.heap.nodes 0 0 xs ys kept v.linked);
        no_twins = without_middle xs x ys l.no_twins;
      },
      ground arith,
    )
  where
    later : (y : ℕ) → member y ys ≡ true → member y (x ∷ ys) ≡ true
    later y m = ground (arith, m)

    not_later :
        ((z : ℕ) → member z (x ∷ ys) ≡ true → member z xs ≡ false)
        → (y : ℕ) → member y xs ≡ true
        → member y ys ≡ false
    not_later apart y m = elim (Bool-cases (member y ys)) [
      | inl too ↦ absurd (let no = apart y (later y too) in cc)
      | inr only ↦ only
    ]

    gone :
        ((z : ℕ) → member z (x ∷ ys) ≡ true → member z xs ≡ false)
        → distinct (x ∷ ys) ≡ true
        → (member x xs || member x ys) ≡ false
    gone apart d =
        let before = apart x (ground arith) in
        let after : member x ys ≡ false = ground arith in rw (before, after)

free_segments_step :
    (fuel x : ℕ) (h : Heap) (n : ListNode)
    → (x == 0) ≡ false
    → h.nodes x ≡ some n
    → free_segments (suc fuel) x h
      ≡ free_segments fuel n.next (record h { nodes = update h.nodes x none })
unfolding free_segments
free_segments_step fuel x h n real is = ground (arith)

-- The loop of `tm_destroy` ends after as many rounds as there are segments, and has then freed all
-- of their headers and no other.
pub free_segments-all :
    (fuel : ℕ) (h : Heap) (p : ℕ) (xs : List ℕ)
    → Linked h.nodes p 0 xs
    → distinct xs ≡ true
    → length xs ≤ fuel
    → (h' : Heap) × (free_segments fuel (first_or 0 xs) h ≡ some h')
      × ((y : ℕ) → h'.nodes y ≡ (if member y xs then none else h.nodes y))
unfolding free_segments
free_segments-all zero h p [] l d enough = (h, refl, λ y. refl)
free_segments-all (suc fuel) h p [] l d enough = (h, refl, λ y. refl)
free_segments-all zero h p (x ∷ xs) l d enough = absurd (omega arith)
free_segments-all (suc fuel) h p (x ∷ xs) (n, l) d enough =
    let real : (x == 0) ≡ false = not_null x (x ∷ xs) d (ground arith) in
    let apart : member x xs ≡ false = ground arith in
    let (h', done, freed) =
      free_segments-all fuel (record h { nodes = update h.nodes x none }) x xs
        (Linked-apart h.nodes x 0 x none xs apart l) (distinct_tail x xs d) (omega arith) in
    (h', free_segments_step fuel x h _ real n ∙ done, λ y. freed y ∙ ground arith)
