-- ===== src/Stm/Overlap/Tests.antt =====
-- Two overlapping transactions that add 1 to what they have read in `x`, and 5 to what they have read in
-- `y`.
use software_transactional_m.Prelude.{◌+◌, ◌≡◌}
use software_transactional_m.Stm.Overlap.{Ends, Reach, both_call, committed}
use software_transactional_m.Stm.Overlap.Skew.{both_commit}

both_commit_example :
    (s : Ends) × Reach 3 8 12 (both_call 3 7 7) s
    × (s.first ≡ committed)
    × (s.second ≡ committed)
    × (s.x.value ≡ 12)
    × (s.y.value ≡ 8)
both_commit_example = both_commit (λ a. a + 1) (λ b. b + 5) 3 7 7
