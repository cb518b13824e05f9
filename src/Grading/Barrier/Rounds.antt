-- ===== src/Grading/Barrier/Rounds.antt =====
-- Nobody leaves a barrier of grading/common.hpp before all have entered.
use software_transactional_m.Prelude.{
  ℕ, zero, suc, ◌+◌, ◌-◌, ◌≤◌, ◌≡◌, refl, ap, ◌⊎◌, inl, inr, List, [], ◌∷◌, All, All-mono,
  All-append, All-of_append, arith,
}
use software_transactional_m.Grading.Barrier.{
  enter, leave, Barrier, Place, outside, sets_leave, waits_leave, leaves, sets_enter, waits_enter,
  Thread, Synced, state, Step, Reach, here, next, idle, start,
}
use software_transactional_m.Grading.Barrier.Stage.{
  total, any, counted, opener, closer, total-append, total_counted-le, Gathers, Parts, Gathering,
  Leaving, moves, others_last, Says-here, step_split, opened, closed,
}

abbrev Inv : Synced → Type 0
Inv s = (g : ℕ) × (Gathering g s ⊎ Leaving g s)

module _ (g : ℕ) (b : Barrier) (ts us : List Thread) (n : ℕ) where
  opens-Leaving :
      Gathering g (state b ts sets_leave n us)
      → Leaving g (state (record b { mode = leave }) ts leaves n us)
  opens-Leaving s =
      let split = step_split (Gathers g) opener enter b ts us sets_leave n b.cardinal s in
      let last = others_last (Gathers g) opener enter b ts us sets_leave n b.cardinal s in
      let full : b.step ≡ b.cardinal = elim s.last_when [
        | inl none_last ↦ absurd (omega arith)
        | inr e ↦ e
      ] in
      let parts =
        All-of_append (λ t. Gathers g t.place t.syncs) ts
          (record { place = sets_leave; syncs = n } ∷ us) s.says in
      let before =
        opened g ts parts.0
          (omega (arith, split.0, split.1, total_counted-le ts, total_counted-le us))
          (omega (arith, s.one_last)) in
      let after =
        opened g us parts.1.1
          (omega (arith, split.0, split.1, total_counted-le ts, total_counted-le us))
          (omega (arith, s.one_last)) in
      let new = λ (h : Place → ℕ). total-append h ts (record { place = leaves; syncs = n } ∷ us) in
      record {
        in_mode = refl;
        says =
            All-append (λ t. Parts g t.place t.syncs) ts (record { place = leaves; syncs = n } ∷ us)
              before.0 (parts.1.0, after.0);
        step_counts = omega (arith, split.0, new counted);
        all_here = omega (arith, split.1, new any);
        one_last = omega (arith, new closer, before.1, after.1);
        last_when = inl (omega (arith, new closer, before.1, after.1));
      }

  closes-Gathering :
      Leaving g (state b ts sets_enter n us)
      → Gathering (suc g) (state (record b { mode = enter }) ts outside (suc n) us)
  closes-Gathering s =
      let split = step_split (Parts g) closer leave b ts us sets_enter n 0 s in
      let last = others_last (Parts g) closer leave b ts us sets_enter n 0 s in
      let none_left : b.step ≡ 0 = elim s.last_when [
        | inl none_last ↦ absurd (omega arith)
        | inr e ↦ e
      ] in
      let parts =
        All-of_append (λ t. Parts g t.place t.syncs) ts
          (record { place = sets_enter; syncs = n } ∷ us) s.says in
      let before = closed g ts parts.0 (omega (arith, split.0)) (omega (arith, s.one_last)) in
      let after = closed g us parts.1.1 (omega (arith, split.0)) (omega (arith, s.one_last)) in
      let new =
        λ (h : Place → ℕ). total-append h ts (record { place = outside; syncs = suc n } ∷ us) in
      record {
        in_mode = refl;
        says =
            All-append (λ t. Gathers (suc g) t.place t.syncs) ts
              (record { place = outside; syncs = suc n } ∷ us) before.0 (ap suc parts.1.0, after.0);
        step_counts = omega (arith, split.0, new counted);
        all_here = omega (arith, split.1, new any);
        one_last = omega (arith, new opener, before.1, after.1);
        last_when = inl (omega (arith, new opener, before.1, after.1));
      }

Gathering-Inv : (g : ℕ) {s t : Synced} → Step s t → Gathering g s → Inv t
Gathering-Inv g (Step.enters_last b ts us n e) s =
    let split = step_split (Gathers g) opener enter b ts us outside n b.cardinal s in
    let last = others_last (Gathers g) opener enter b ts us outside n b.cardinal s in
    let none_last : total opener ts + total opener us ≡ 0 = elim s.last_when [
      | inl z ↦ omega arith
      | inr full ↦ absurd (omega arith)
    ] in
    (
      g,
      inl (
          moves (Gathers g) opener enter b ts us outside n b.cardinal
            (record b { step = b.step + 1 }) sets_leave n s s.in_mode refl (omega arith)
            (Says-here (Gathers g) opener enter b ts us outside n b.cardinal s) (omega arith)
            (inr e)),
    )
Gathering-Inv g (Step.enters b ts us n ne) s =
    let split = step_split (Gathers g) opener enter b ts us outside n b.cardinal s in
    let last = others_last (Gathers g) opener enter b ts us outside n b.cardinal s in
    let none_last : total opener ts + total opener us ≡ 0 = elim s.last_when [
      | inl z ↦ omega arith
      | inr full ↦
          absurd (omega (arith, split.0, split.1, total_counted-le ts, total_counted-le us))
    ] in
    (
      g,
      inl (
          moves (Gathers g) opener enter b ts us outside n b.cardinal
            (record b { step = b.step + 1 }) waits_leave n s s.in_mode refl (omega arith)
            (Says-here (Gathers g) opener enter b ts us outside n b.cardinal s) (omega arith)
            (inl (omega arith))),
    )
Gathering-Inv g (Step.opens b ts us n) s = (g, inr (opens-Leaving g b ts us n s))
Gathering-Inv g (Step.sees_leave b ts us n e) s = absurd (let d = s.in_mode in cc)
Gathering-Inv g (Step.leaves_last b ts us n e) s =
    elim (Says-here (Gathers g) opener enter b ts us leaves n b.cardinal s) [ ]
Gathering-Inv g (Step.goes b ts us n e) s =
    elim (Says-here (Gathers g) opener enter b ts us leaves n b.cardinal s) [ ]
Gathering-Inv g (Step.closes b ts us n) s =
    elim (Says-here (Gathers g) opener enter b ts us sets_enter n b.cardinal s) [ ]
Gathering-Inv g (Step.sees_enter b ts us n e) s =
    let last = others_last (Gathers g) opener enter b ts us waits_enter n b.cardinal s in
    (
      g,
      inl (
          moves (Gathers g) opener enter b ts us waits_enter n b.cardinal b outside (suc n) s
            s.in_mode refl (omega arith)
            (Says-here (Gathers g) opener enter b ts us waits_enter n b.cardinal s)
            (omega (arith, last, s.one_last))
            (elim s.last_when [ inl z ↦ inl (omega arith) | inr full ↦ inr full ])),
    )

Leaving-Inv : (g : ℕ) {s t : Synced} → Step s t → Leaving g s → Inv t
Leaving-Inv g (Step.enters_last b ts us n e) s =
    elim (Says-here (Parts g) closer leave b ts us outside n 0 s) [ ]
Leaving-Inv g (Step.enters b ts us n ne) s =
    elim (Says-here (Parts g) closer leave b ts us outside n 0 s) [ ]
Leaving-Inv g (Step.opens b ts us n) s =
    elim (Says-here (Parts g) closer leave b ts us sets_leave n 0 s) [ ]
Leaving-Inv g (Step.sees_leave b ts us n e) s =
    let last = others_last (Parts g) closer leave b ts us waits_leave n 0 s in
    (
      g,
      inr (
          moves (Parts g) closer leave b ts us waits_leave n 0 b leaves n s s.in_mode refl
            (omega arith) (Says-here (Parts g) closer leave b ts us waits_leave n 0 s)
            (omega (arith, last, s.one_last))
            (elim s.last_when [ inl z ↦ inl (omega arith) | inr none_left ↦ inr none_left ])),
    )
Leaving-Inv g (Step.leaves_last b ts us n e) s =
    let split = step_split (Parts g) closer leave b ts us leaves n 0 s in
    let last = others_last (Parts g) closer leave b ts us leaves n 0 s in
    let none_last : total closer ts + total closer us ≡ 0 = elim s.last_when [
      | inl z ↦ omega arith
      | inr none_left ↦ absurd (omega arith)
    ] in
    (
      g,
      inr (
          moves (Parts g) closer leave b ts us leaves n 0 (record b { step = b.step - 1 })
            sets_enter n s s.in_mode refl (omega arith)
            (Says-here (Parts g) closer leave b ts us leaves n 0 s) (omega arith) (inr e)),
    )
Leaving-Inv g (Step.goes b ts us n ne) s =
    let split = step_split (Parts g) closer leave b ts us leaves n 0 s in
    let last = others_last (Parts g) closer leave b ts us leaves n 0 s in
    let none_last : total closer ts + total closer us ≡ 0 = elim s.last_when [
      | inl z ↦ omega arith
      | inr none_left ↦ absurd (omega arith)
    ] in
    (
      g,
      inr (
          moves (Parts g) closer leave b ts us leaves n 0 (record b { step = b.step - 1 })
            waits_enter n s s.in_mode refl (omega arith)
            (Says-here (Parts g) closer leave b ts us leaves n 0 s) (omega arith)
            (inl (omega arith))),
    )
Leaving-Inv g (Step.closes b ts us n) s = (suc g, inl (closes-Gathering g b ts us n s))
Leaving-Inv g (Step.sees_enter b ts us n e) s = absurd (let d = s.in_mode in cc)

idle-totals : (h : Place → ℕ) → h outside ≡ 0 → (n : ℕ) → total h (idle n) ≡ 0
idle-totals h e zero = refl
idle-totals h e (suc n) = omega (arith, e, idle-totals h e n)

idle-any : (n : ℕ) → total any (idle n) ≡ n
idle-any zero = refl
idle-any (suc n) = omega (arith, idle-any n)

idle-Gathers : (n : ℕ) → All (λ t. Gathers 0 t.place t.syncs) (idle n)
idle-Gathers zero = tt
idle-Gathers (suc n) = (refl, idle-Gathers n)

Reach-Inv : (cardinal : ℕ) {s : Synced} → Reach (start cardinal) s → Inv s
Reach-Inv cardinal here = (
  0,
  inl (record {
    in_mode = refl;
    says = idle-Gathers cardinal;
    step_counts = omega (arith, idle-totals counted refl cardinal);
    all_here = omega (arith, idle-any cardinal);
    one_last = omega (arith, idle-totals opener refl cardinal);
    last_when = inl (idle-totals opener refl cardinal);
  }),
)
Reach-Inv cardinal (next r st) =
    let (g, i) = Reach-Inv cardinal r in
    elim i [ inl s ↦ Gathering-Inv g st s | inr s ↦ Leaving-Inv g st s ]

-- How often a thread has entered `sync`.
abbrev pub entered : Place → ℕ → ℕ
entered outside n = n
entered sets_leave n = suc n
entered waits_leave n = suc n
entered leaves n = suc n
entered sets_enter n = suc n
entered waits_enter n = suc n

Gathers-bounds : (g : ℕ) (p : Place) (n : ℕ) → Gathers g p n → (n ≤ g) × (g ≤ entered p n)
Gathers-bounds g outside n e = (omega arith, omega arith)
Gathers-bounds g sets_leave n e = (omega arith, omega arith)
Gathers-bounds g waits_leave n e = (omega arith, omega arith)
Gathers-bounds g leaves n e = elim e [ ]
Gathers-bounds g sets_enter n e = elim e [ ]
Gathers-bounds g waits_enter n e = (omega arith, omega arith)

Parts-bounds : (g : ℕ) (p : Place) (n : ℕ) → Parts g p n → (n ≤ g) × (g ≤ entered p n)
Parts-bounds g outside n e = elim e [ ]
Parts-bounds g sets_leave n e = elim e [ ]
Parts-bounds g waits_leave n e = (omega arith, omega arith)
Parts-bounds g leaves n e = (omega arith, omega arith)
Parts-bounds g sets_enter n e = (omega arith, omega arith)
Parts-bounds g waits_enter n e = (omega arith, omega arith)

abbrev Bounded : ℕ → Thread → Type 0
Bounded g t = (t.syncs ≤ g) × (g ≤ entered t.place t.syncs)

Reach-Bounded :
    (cardinal : ℕ) {s : Synced} → Reach (start cardinal) s → (g : ℕ) × All (Bounded g) s.threads
Reach-Bounded cardinal {s} r =
    let (g, i) = Reach-Inv cardinal r in
    (
      g,
      elim i [
        | inl st ↦
            All-mono (λ t. Gathers g t.place t.syncs) (Bounded g)
              (λ t. Gathers-bounds g t.place t.syncs) s.threads st.says
        | inr st ↦
            All-mono (λ t. Parts g t.place t.syncs) (Bounded g)
              (λ t. Parts-bounds g t.place t.syncs) s.threads st.says
      ],
    )

Bounded-pairs :
    (g : ℕ) (ts us : List Thread)
    → All (Bounded g) ts
    → All (Bounded g) us
    → All (λ a. All (λ b. a.syncs ≤ entered b.place b.syncs) us) ts
Bounded-pairs g [] us h k = tt
Bounded-pairs g (t ∷ ts) us (h, hs) k = (
  All-mono (Bounded g) (λ b. t.syncs ≤ entered b.place b.syncs) (λ b low. omega (arith, h.0, low.1))
      us k,
  Bounded-pairs g ts us hs k,
)

-- A barrier for any number of threads that call sync as often as they like, in any order of their
-- atomic operations: no thread has returned from sync more often than any thread has entered it, so that
-- nobody returns from a round before all have entered it.
pub Reach-synced :
    (cardinal : ℕ) (s : Synced)
    → Reach (start cardinal) s
    → All (λ a. All (λ b. a.syncs ≤ entered b.place b.syncs) s.threads) s.threads
Reach-synced cardinal s r =
    let (g, h) = Reach-Bounded cardinal r in Bounded-pairs g s.threads s.threads h h
