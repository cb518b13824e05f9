-- ===== src/Grading/Barrier/Stage.antt =====
-- The two stages of a round of class Barrier (grading/common.hpp): threads gather, and threads leave.
use software_transactional_m.Prelude.{
  ℕ, suc, ◌+◌, ◌≤◌, ◌≡◌, refl, ap, ◌⊎◌, inl, inr, List, [], ◌∷◌, ◌++◌, All, All-append,
  All-of_append, arith,
}
use software_transactional_m.Grading.Barrier.{
  Mode, enter, leave, Barrier, Place, outside, sets_leave, waits_leave, leaves, sets_enter,
  waits_enter, Thread, Synced, state,
}

abbrev pub total : (Place → ℕ) → List Thread → ℕ
total f [] = 0
total f (t ∷ ts) = f t.place + total f ts

pub total-append :
    (f : Place → ℕ) (ts us : List Thread) → total f (ts ++ us) ≡ total f ts + total f us
total-append f [] us = omega arith
total-append f (t ∷ ts) us = omega (arith, total-append f ts us)

-- Any place; the places past the first count and before the second; those of the two stores.
abbrev pub any : Place → ℕ
any p = 1

abbrev pub counted : Place → ℕ
counted outside = 0
counted sets_leave = 1
counted waits_leave = 1
counted leaves = 1
counted sets_enter = 0
counted waits_enter = 0

abbrev pub opener : Place → ℕ
opener outside = 0
opener sets_leave = 1
opener waits_leave = 0
opener leaves = 0
opener sets_enter = 0
opener waits_enter = 0

abbrev pub closer : Place → ℕ
closer outside = 0
closer sets_leave = 0
closer waits_leave = 0
closer leaves = 0
closer sets_enter = 1
closer waits_enter = 0

counted-le_any : (p : Place) → counted p ≤ 1
counted-le_any outside = omega arith
counted-le_any sets_leave = omega arith
counted-le_any waits_leave = omega arith
counted-le_any leaves = omega arith
counted-le_any sets_enter = omega arith
counted-le_any waits_enter = omega arith

pub total_counted-le : (ts : List Thread) → total counted ts ≤ total any ts
total_counted-le [] = omega arith
total_counted-le (t ∷ ts) = omega (arith, counted-le_any t.place, total_counted-le ts)

-- The threads of round `g` while they gather, with stragglers of the round before, and while they leave.
abbrev pub Gathers : ℕ → Place → ℕ → Type 0
Gathers g outside n = n ≡ g
Gathers g sets_leave n = n ≡ g
Gathers g waits_leave n = n ≡ g
Gathers g leaves n = ⊥
Gathers g sets_enter n = ⊥
Gathers g waits_enter n = suc n ≡ g

abbrev pub Parts : ℕ → Place → ℕ → Type 0
Parts g outside n = ⊥
Parts g sets_leave n = ⊥
Parts g waits_leave n = n ≡ g
Parts g leaves n = n ≡ g
Parts g sets_enter n = n ≡ g
Parts g waits_enter n = n ≡ g

pub record Stage (Says : Place → ℕ → Type 0) (last : Place → ℕ) (mode : Mode) (at_last : ℕ)
    (s : Synced) : Type 0 where
  pub in_mode : s.barrier.mode ≡ mode
  pub says : All (λ t. Says t.place t.syncs) s.threads
  pub step_counts : s.barrier.step ≡ total counted s.threads
  pub all_here : s.barrier.cardinal ≡ total any s.threads
  pub one_last : total last s.threads ≤ 1
  pub last_when : (total last s.threads ≡ 0) ⊎ (s.barrier.step ≡ at_last)

abbrev pub Gathering : ℕ → Synced → Type 0
Gathering g s = Stage (Gathers g) opener enter s.barrier.cardinal s

abbrev pub Leaving : ℕ → Synced → Type 0
Leaving g s = Stage (Parts g) closer leave 0 s

module _ (Says : Place → ℕ → Type 0) (last : Place → ℕ) (mode : Mode) (b : Barrier)
    (ts us : List Thread) (p : Place) (n at_last : ℕ) where
  -- A step that stays in the stage.
  pub moves :
      (b' : Barrier) (p' : Place) (n' : ℕ)
      → Stage Says last mode at_last (state b ts p n us)
      → b'.mode ≡ mode
      → b'.cardinal ≡ b.cardinal
      → b'.step + counted p ≡ b.step + counted p'
      → Says p' n'
      → total last ts + total last us + last p' ≤ 1
      → (total last ts + total last us + last p' ≡ 0) ⊎ (b'.step ≡ at_last)
      → Stage Says last mode at_last (state b' ts p' n' us)
  moves b' p' n' s e same f says one when =
      let old = λ (h : Place → ℕ). total-append h ts (record { place = p; syncs = n } ∷ us) in
      let new = λ (h : Place → ℕ). total-append h ts (record { place = p'; syncs = n' } ∷ us) in
      let parts =
        All-of_append (λ t. Says t.place t.syncs) ts (record { place = p; syncs = n } ∷ us)
          s.says in
      record {
        in_mode = e;
        says =
            All-append (λ t. Says t.place t.syncs) ts (record { place = p'; syncs = n' } ∷ us)
              parts.0 (says, parts.1.1);
        step_counts = omega (arith, s.step_counts, old counted, new counted);
        all_here = omega (arith, s.all_here, same, old any, new any);
        one_last = omega (arith, new last, one);
        last_when = elim when [ inl z ↦ inl (omega (arith, new last, z)) | inr z ↦ inr z ];
      }

  pub others_last :
      Stage Says last mode at_last (state b ts p n us)
      → total last ts + total last us + last p ≡ total last (state b ts p n us).threads
  others_last s = omega (arith, total-append last ts (record { place = p; syncs = n } ∷ us))

  pub Says-here : Stage Says last mode at_last (state b ts p n us) → Says p n
  Says-here s =
      (All-of_append (λ t. Says t.place t.syncs) ts (record { place = p; syncs = n } ∷ us)
        s.says).1.0

  -- The counts of this thread and of the others.
  pub step_split :
      Stage Says last mode at_last (state b ts p n us)
      → (b.step ≡ total counted ts + total counted us + counted p)
        × (b.cardinal ≡ total any ts + total any us + 1)
  step_split s = (
    omega (arith, s.step_counts, total-append counted ts (record { place = p; syncs = n } ∷ us)),
    omega (arith, s.all_here, total-append any ts (record { place = p; syncs = n } ∷ us)),
  )

-- All threads are counted and none is about to open: all wait for the others to leave.
pub opened :
    (g : ℕ) (ts : List Thread)
    → All (λ t. Gathers g t.place t.syncs) ts
    → total counted ts ≡ total any ts
    → total opener ts ≡ 0
    → All (λ t. Parts g t.place t.syncs) ts × (total closer ts ≡ 0)
opened g [] h c o = (tt, refl)
opened g (t ∷ ts) (h, hs) c o =
    let rest =
      opened g ts hs (omega (arith, counted-le_any t.place, total_counted-le ts)) (omega arith) in
    let this =
      one t.place t.syncs h (omega (arith, counted-le_any t.place, total_counted-le ts))
        (omega arith) in
    ((this.0, rest.0), omega (arith, this.1, rest.1))
  where
    one :
        (p : Place) (n : ℕ)
        → Gathers g p n
        → counted p ≡ 1
        → opener p ≡ 0
        → Parts g p n × (closer p ≡ 0)
    one outside n h c o = absurd (omega arith)
    one sets_leave n h c o = absurd (omega arith)
    one waits_leave n h c o = (h, refl)
    one leaves n h c o = elim h [ ]
    one sets_enter n h c o = elim h [ ]
    one waits_enter n h c o = absurd (omega arith)

-- No thread is counted and none is about to close: all wait for the next round.
pub closed :
    (g : ℕ) (ts : List Thread)
    → All (λ t. Parts g t.place t.syncs) ts
    → total counted ts ≡ 0
    → total closer ts ≡ 0
    → All (λ t. Gathers (suc g) t.place t.syncs) ts × (total opener ts ≡ 0)
closed g [] h c o = (tt, refl)
closed g (t ∷ ts) (h, hs) c o =
    let rest = closed g ts hs (omega arith) (omega arith) in
    let this = one t.place t.syncs h (omega arith) (omega arith) in
    ((this.0, rest.0), omega (arith, this.1, rest.1))
  where
    one :
        (p : Place) (n : ℕ)
        → Parts g p n
        → counted p ≡ 0
        → closer p ≡ 0
        → Gathers (suc g) p n × (opener p ≡ 0)
    one outside n h c o = elim h [ ]
    one sets_leave n h c o = elim h [ ]
    one waits_leave n h c o = absurd (omega arith)
    one leaves n h c o = absurd (omega arith)
    one sets_enter n h c o = absurd (omega arith)
    one waits_enter n h c o = (ap suc h, refl)
