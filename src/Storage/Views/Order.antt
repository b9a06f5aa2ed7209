-- ===== src/Storage/Views/Order.antt =====
-- The index score of an entry orders the entries as their ids do, and a double holds it.
use apex_leaderboard.Prelude.{ℕ, ◌+◌, ◌*◌, ◌^◌, ◌<◌, some, ◌≡◌, ◌↔◌, ◌⊎◌, arith}
use apex_leaderboard.Prelude.Int.{pos, wrap64, ◌+ℤ◌}
use apex_leaderboard.Prelude.Text.{cut-append}
use apex_leaderboard.Decimal.{format_nat}
use apex_leaderboard.Decimal.RoundTrip.{parse_int-format_nat, format_nat-Lacks_dash}
use apex_leaderboard.Platform.{StreamId}
use apex_leaderboard.ApexTime.{format_stream_id}
use apex_leaderboard.Storage.Views.{packed_id, seq_scale}

-- Sequence numbers below the scale, in a millisecond before 2039-09-07.
pub record IsIndexed (i : StreamId) : Type 0 where
  pub ms : i.ms < 2 ^ 41
  pub seq : i.seq < seq_scale

abbrev packed : StreamId → ℕ
packed i = i.ms * 4096 + i.seq

packed_id-format_stream_id :
    (i : StreamId) → IsIndexed i → packed_id (format_stream_id i) ≡ some (pos (packed i))
unfolding packed_id format_stream_id wrap64 ◌+ℤ◌
packed_id-format_stream_id i h = ground (
  arith,
  cut-append b'-' (format_nat i.ms) (format_nat i.seq) (format_nat-Lacks_dash i.ms),
  parse_int-format_nat i.ms (omega arith),
  parse_int-format_nat i.seq (omega arith),
)

-- The order of two stream ids.
abbrev pub Before : StreamId → StreamId → Type 0
Before i j = (i.ms < j.ms) ⊎ ((i.ms ≡ j.ms) × (i.seq < j.seq))

packed-Before : (i j : StreamId) → IsIndexed i → IsIndexed j → (packed i < packed j) ↔ Before i j
packed-Before i j hi hj = ground arith

-- Entry ids in a millisecond below 2^41 with sequence numbers below 4096 have index scores that a
-- double holds exactly, in the order of the ids.
pub packed_id_order :
    (i j : StreamId)
    → IsIndexed i
    → IsIndexed j
    → (m : ℕ) × (n : ℕ) × (packed_id (format_stream_id i) ≡ some (pos m))
      × (packed_id (format_stream_id j) ≡ some (pos n))
      × (m < 2 ^ 53)
      × (n < 2 ^ 53)
      × ((m < n) ↔ Before i j)
packed_id_order i j hi hj = (
  packed i,
  packed j,
  packed_id-format_stream_id i hi,
  packed_id-format_stream_id j hj,
  omega arith,
  omega arith,
  packed-Before i j hi hj,
)
