-- ===== src/Score.antt =====
-- score/score.go: the range of a score.
use apex_leaderboard.Prelude.{◌≤◌, Bool, true, false, ◌≡◌, ◌↔◌, arith, ◌||◌, if◌then◌else◌}
use apex_leaderboard.Prelude.Int.{ℤ, pos, negsuc, neg_ℤ, ltb_ℤ, abs_ℤ, ◌≤ℤ◌}

-- 1e13
abbrev pub max_score : ℤ
max_score = pos 10_000_000_000_000

abbrev pub min_score : ℤ
min_score = neg_ℤ max_score

-- `Validate(v) == nil`
unfoldable pub validate : ℤ → Bool
validate v = if ltb_ℤ v min_score || ltb_ℤ max_score v then false else true

abbrev pub IsScore : ℤ → Type 0
IsScore v = (min_score ≤ℤ v) × (v ≤ℤ max_score)

pub validate_iff : (v : ℤ) → (validate v ≡ true) ↔ IsScore v
unfolding validate
validate_iff v = ground arith

-- A score is far below 2^53, where doubles stop holding every integer.
pub abs_of_score : (v : ℤ) → IsScore v → abs_ℤ v ≤ 10_000_000_000_000
abs_of_score (pos n) h = omega arith
abs_of_score (negsuc n) h = omega arith
