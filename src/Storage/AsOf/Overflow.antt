-- ===== src/Storage/AsOf/Overflow.antt =====
-- The overflow test of the replay.
use apex_leaderboard.Prelude.{false, ◌≡◌, ◌↔◌, arith}
use apex_leaderboard.Prelude.Int.{ℤ, pos, negsuc, ◌+ℤ◌, wrap64, IsInt64}
use apex_leaderboard.Storage.AsOf.{sum_overflows}

-- For a current score and an amount that are int64, the overflow test of the replay finds no
-- overflow exactly when their sum is an int64.
pub sum_overflows_exact :
    (c n : ℤ) → IsInt64 c → IsInt64 n → (sum_overflows c n ≡ false) ↔ IsInt64 (c +ℤ n)
unfolding sum_overflows wrap64 ◌+ℤ◌
sum_overflows_exact (pos c) (pos n) hc hn = ground arith
sum_overflows_exact (pos c) (negsuc n) hc hn = ground arith
sum_overflows_exact (negsuc c) (pos n) hc hn = ground arith
sum_overflows_exact (negsuc c) (negsuc n) hc hn = ground arith
