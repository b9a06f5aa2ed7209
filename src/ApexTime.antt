-- ===== src/ApexTime.antt =====
-- apextime/apextime.go: the time of a stream id. A time is the nanoseconds since 1970. The calendar
-- text is the platform's.
use apex_leaderboard.Prelude.{◌<◌, ◌^◌, ◌*◌, ◌+◌, ◌++◌, ◌∷◌, Option, none, some, ◌≡◌, arith}
use apex_leaderboard.Prelude.Int.{ℤ, pos, negsuc}
use apex_leaderboard.Prelude.Text.{Text, cut, cut-append}
use apex_leaderboard.Decimal.{format_nat, parse_int}
use apex_leaderboard.Decimal.RoundTrip.{parse_int-format_nat, format_nat-Lacks_dash}
use apex_leaderboard.Platform.{StreamId}

-- "<ms>-<seq>"
unfoldable pub format_stream_id : StreamId → Text
format_stream_id i = format_nat i.ms ++ b'-' ∷ format_nat i.seq

-- time.UnixMilli
abbrev pub of_unix_milli : ℤ → ℤ
of_unix_milli (pos ms) = pos (ms * 1_000_000)
of_unix_milli (negsuc ms) = negsuc (ms * 1_000_000 + 999_999)

abbrev time_of : Option ℤ → Option ℤ
time_of none = none
time_of (some ms) = some (of_unix_milli ms)

-- `FromStreamID`
unfoldable pub from_stream_id : Text → Option ℤ
from_stream_id id = elim (cut b'-' id) [ none ↦ none | some (ms, _) ↦ time_of (parse_int ms) ]

-- The zero `time.Time`, year 1.
abbrev pub zero_time : ℤ
zero_time = negsuc 62_135_596_799_999_999_999

-- `eventTime` of storage.go
unfoldable pub event_time : Text → ℤ
unfolding from_stream_id
event_time id = elim (from_stream_id id) [ none ↦ zero_time | some t ↦ t ]

-- The time of an id that Redis gave is its millisecond part, as nanoseconds.
pub event_time-format_stream_id :
    (i : StreamId) → i.ms < 2 ^ 63 → event_time (format_stream_id i) ≡ pos (i.ms * 1_000_000)
unfolding event_time format_stream_id
event_time-format_stream_id i h = ground (
  arith,
  cut-append b'-' (format_nat i.ms) (format_nat i.seq) (format_nat-Lacks_dash i.ms),
  parse_int-format_nat i.ms h,
)
