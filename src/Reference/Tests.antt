-- ===== src/Reference/Tests.antt =====
-- Three segments of the reference library: allocation in front, release from the middle, and the end.
use software_transactional_m.Prelude.{◌≡◌, refl, none, some, [], ◌∷◌, ◌==◌, if◌then◌else◌, arith}
use software_transactional_m.Stm.Memory.{zeroed}
use software_transactional_m.Stm.Alloc.{success_alloc}
use software_transactional_m.Reference.{Heap, Region, tm_alloc, tm_free}
use software_transactional_m.Reference.Segments.{IsList, tm_alloc-IsList, tm_free-IsList}

abbrev pub three : Heap
three = record {
  memory = record { limit = 1000; byte = λ _. 0 };
  nodes = λ a.
      if a == 100
      then some (record { prev = 0; next = 200 })
      else (if a == 200
          then some (record { prev = 100; next = 300 })
          else (if a == 300 then some (record { prev = 200; next = 0 }) else none));
}

abbrev pub region : Region
region = record { start = 500; allocs = 100; size = 8; align = 8 }

pub three-IsList : IsList region three (100 ∷ 200 ∷ 300 ∷ [])
three-IsList = record { starts = refl; linked = (refl, (refl, (refl, tt))); no_twins = refl }

tm_alloc-IsList_example :
    (r' : Region) × (h' : Heap) × (tm_alloc (λ a n. some 400) region three 8
      ≡ some (success_alloc, 416, r', h'))
    × IsList r' h' (400 ∷ 100 ∷ 200 ∷ 300 ∷ [])
    × (h'.memory ≡ zeroed three.memory 416 8)
tm_alloc-IsList_example =
    tm_alloc-IsList (λ a n. some 400) 400 region three 8 (100 ∷ 200 ∷ 300 ∷ []) refl three-IsList
      (λ e. omega arith) refl

tm_free-IsList_example :
    (r' : Region) × (h' : Heap) × (tm_free region three 216 ≡ some (r', h'))
    × IsList r' h' (100 ∷ 300 ∷ [])
    × (h'.nodes 200 ≡ none)
tm_free-IsList_example = tm_free-IsList region three (100 ∷ []) 200 (300 ∷ []) three-IsList
