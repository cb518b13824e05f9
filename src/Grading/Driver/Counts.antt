-- ===== src/Grading/Driver/Counts.antt =====
-- Sums over the workers of class Sync (grading/grading.cpp), and the count of those that have come to a
-- meeting point: the last of them first finds that it is, and then clears the count.
use software_transactional_m.Prelude.{
  ℕ, ◌+◌, ◌-◌, ◌≡◌, ◌≢◌, ◌≤◌, refl, ◌⊎◌, inl, inr, none, some, List, [], ◌∷◌, ◌++◌, ◌==◌,
  if◌then◌else◌, arith,
}
use software_transactional_m.Grading.Driver.{
  Place, spins, resets, starts, waits, aborts, notifies, clears, judges, settles_done, settles_fail,
  stops, raises, left, Worker,
}

abbrev pub total : (Worker → ℕ) → List Worker → ℕ
total f [] = 0
total f (w ∷ ws) = f w + total f ws

pub total-split :
    (f : Worker → ℕ) (ts : List Worker) (w : Worker) (us : List Worker)
    → total f (ts ++ w ∷ us) ≡ total f ts + f w + total f us
total-split f [] w us = omega arith
total-split f (t ∷ ts) w us = omega (arith, total-split f ts w us)

pub total_mono :
    (f g : Worker → ℕ) → ((w : Worker) → f w ≤ g w) → (ws : List Worker) → total f ws ≤ total g ws
total_mono f g h [] = omega arith
total_mono f g h (w ∷ ws) = omega (arith, h w, total_mono f g h ws)

abbrev pub any : Worker → ℕ
any w = 1

-- `first` is the last one before it clears the count, `later` the same one afterwards.
abbrev pub Count : (first later up : Worker → ℕ) → (counter nb : ℕ) → List Worker → Type 0
Count first later up counter nb ws =
    ((total first ws ≡ 0) × (total later ws ≡ 0) × (counter ≡ total up ws) × (counter ≤ nb - 1))
    ⊎ ((total first ws ≡ 1) × (total later ws ≡ 0) × (total up ws ≡ nb))
    ⊎ ((total first ws ≡ 0) × (total later ws ≡ 1) × (total up ws ≡ nb) × (counter ≡ 0))

module _ (first later up : Worker → ℕ) (counter nb : ℕ) (ts us : List Worker) (w w' : Worker) where
  -- A worker moves that plays no part.
  pub Count-stays :
      first w ≡ first w'
      → later w ≡ later w'
      → up w ≡ up w'
      → Count first later up counter nb (ts ++ w ∷ us)
      → Count first later up counter nb (ts ++ w' ∷ us)
  Count-stays a b c h =
      let old = λ (f : Worker → ℕ). total-split f ts w us in
      let new = λ (f : Worker → ℕ). total-split f ts w' us in
      elim h [
        | inl (x, y, z, v) ↦ inl (
          omega (arith, old first, new first),
          omega (arith, old later, new later),
          omega (arith, old up, new up),
          v,
        )
        | inr (inl (x, y, z)) ↦ inr (
            inl (
              omega (arith, old first, new first),
              omega (arith, old later, new later),
              omega (arith, old up, new up),
            ))
        | inr (inr (x, y, z, v)) ↦ inr (
            inr (
              omega (arith, old first, new first),
              omega (arith, old later, new later),
              omega (arith, old up, new up),
              v,
            ))
      ]

  -- A worker that has not been counted is counted, so the count had not been full.
  pub Count-adds :
      nb ≡ total any (ts ++ w ∷ us)
      → ((v : Worker) → up v ≤ 1)
      → first w ≡ 0
      → later w ≡ 0
      → up w ≡ 0
      → later w' ≡ 0
      → up w' ≡ 1
      → ((counter + 1 ≡ nb) × (first w' ≡ 1)) ⊎ ((counter + 1 ≢ nb) × (first w' ≡ 0))
      → Count first later up counter nb (ts ++ w ∷ us)
      → Count first later up (counter + 1) nb (ts ++ w' ∷ us)
  Count-adds all most a b c b' c' last h =
      let old = λ (f : Worker → ℕ). total-split f ts w us in
      let new = λ (f : Worker → ℕ). total-split f ts w' us in
      let tops = total_mono up any most ts in
      let tops' = total_mono up any most us in
      elim h [
        | inl (x, y, z, v) ↦ elim last [
          | inl (e, f) ↦ inr (
              inl (
                omega (arith, old first, new first),
                omega (arith, old later, new later),
                omega (arith, old up, new up),
              ))
          | inr (e, f) ↦ inl (
            omega (arith, old first, new first),
            omega (arith, old later, new later),
            omega (arith, old up, new up),
            omega (arith, old any),
          )
        ]
        | inr (inl (x, y, z)) ↦ absurd (omega (arith, old up, old any))
        | inr (inr (x, y, z, v)) ↦ absurd (omega (arith, old up, old any))
      ]

  -- The last one clears the count.
  pub Count-clears :
      first w ≡ 1
      → later w' ≡ 1
      → first w' ≡ 0
      → up w ≡ up w'
      → later w ≡ 0
      → Count first later up counter nb (ts ++ w ∷ us)
      → Count first later up 0 nb (ts ++ w' ∷ us)
  Count-clears a b c d k h =
      let old = λ (f : Worker → ℕ). total-split f ts w us in
      let new = λ (f : Worker → ℕ). total-split f ts w' us in
      elim h [
        | inl (x, y, z, v) ↦ absurd (omega (arith, old first))
        | inr (inl (x, y, z)) ↦ inr (
            inr (
              omega (arith, old first, new first),
              omega (arith, old later, new later),
              omega (arith, old up, new up),
              refl,
            ))
        | inr (inr (x, y, z, v)) ↦ absurd (omega (arith, old first))
      ]

  -- When it has cleared the count, all others are counted and none is the last one.
  pub Count-full :
      later w ≡ 1
      → Count first later up counter nb (ts ++ w ∷ us)
      → (counter ≡ 0)
        × (total up (ts ++ w ∷ us) ≡ nb)
        × (total first (ts ++ w ∷ us) ≡ 0)
        × (total later ts + total later us ≡ 0)
  Count-full a h =
      let old = λ (f : Worker → ℕ). total-split f ts w us in
      elim h [
        | inl (x, y, z, v) ↦ absurd (omega (arith, old later))
        | inr (inl (x, y, z)) ↦ absurd (omega (arith, old later))
        | inr (inr (x, y, z, v)) ↦ (v, z, x, omega (arith, old later))
      ]

-- The workers that have come to the start of a round; the last of them, before and after its first
-- store.
abbrev pub here : Worker → ℕ
here w = elim (w.place) [ waits ↦ 1 | resets ↦ 1 | starts ↦ 1 | _ ↦ 0 ]

abbrev pub resetting : Worker → ℕ
resetting w = elim (w.place) [ resets ↦ 1 | _ ↦ 0 ]

abbrev pub starting : Worker → ℕ
starting w = elim (w.place) [ starts ↦ 1 | _ ↦ 0 ]

-- The workers whose run is over; the last of them.
abbrev pub over : Worker → ℕ
over w = elim (w.place) [
  | spins ↦ 1
  | left ↦ 1
  | clears ↦ 1
  | judges ↦ 1
  | settles_done ↦ 1
  | settles_fail ↦ 1
  | _ ↦ 0
]

abbrev pub clearing : Worker → ℕ
clearing w = elim (w.place) [ clears ↦ 1 | _ ↦ 0 ]

abbrev pub judging : Worker → ℕ
judging w = elim (w.place) [ judges ↦ 1 | settles_done ↦ 1 | settles_fail ↦ 1 | _ ↦ 0 ]

abbrev pub finding : Worker → ℕ
finding w = elim (w.place) [ settles_done ↦ 1 | _ ↦ 0 ]

abbrev pub failing : Worker → ℕ
failing w = elim (w.place) [ settles_fail ↦ 1 | _ ↦ 0 ]

abbrev pub ending : Worker → ℕ
ending w = elim (w.place) [ stops ↦ 1 | raises ↦ 1 | _ ↦ 0 ]

-- The places at which a worker has told its error to `errmsg`, and to the status as well.
abbrev pub past_message : Place → ℕ
past_message p = elim p [
  | spins ↦ 1
  | left ↦ 1
  | aborts ↦ 1
  | notifies ↦ 1
  | clears ↦ 1
  | judges ↦ 1
  | settles_done ↦ 1
  | settles_fail ↦ 1
  | stops ↦ 1
  | raises ↦ 1
  | _ ↦ 0
]

abbrev pub past_status : Place → ℕ
past_status p = elim p [ aborts ↦ 0 | other ↦ past_message other ]

-- The workers that have told an error, that have set the status, and that have told `m`.
abbrev pub said : Worker → ℕ
said w = elim (w.error) [ none ↦ 0 | some _ ↦ past_message w.place ]

abbrev pub told : Worker → ℕ
told w = elim (w.error) [ none ↦ 0 | some _ ↦ past_status w.place ]

abbrev pub says : ℕ → Worker → ℕ
says m w = elim (w.error) [ none ↦ 0 | some e ↦ if e == m then past_message w.place else 0 ]
