-- ===== src/Platform.antt =====
-- What the program runs on and does not implement, as one parameter: Redis, IEEE doubles, and the
-- libraries for identifiers, names and calendar text. Commands act on the value that one key holds.
pub mod Laws
pub mod Demo
use apex_leaderboard.Prelude.{ℕ, List, Option, Bool}
use apex_leaderboard.Prelude.Int.{ℤ}
use apex_leaderboard.Prelude.Text.{Text}

-- What TYPE says of a key.
pub data Kind : Type 0 where
  no_key string_key hash_key zset_key stream_key : Kind

-- A stream entry's id, "<ms>-<seq>" as text.
pub record StreamId : Type 0 where
  pub ms : ℕ
  pub seq : ℕ

pub record Entry : Type 0 where
  pub id : StreamId
  pub values : List (Text × Text)

pub record Platform : Type 1 where
  -- float64, in Go, in Lua and in Redis
  pub Float : Type 0
  pub of_int : ℤ → Float
  pub to_int : Float → ℤ
  pub is_nan : Float → Bool
  pub float_lt : Float → Float → Bool
  pub float_eq : Float → Float → Bool
  pub trunc : Float → Float
  pub round : Float → Float
  pub float_add : Float → Float → Float
  pub float_neg : Float → Float
  -- strconv.ParseFloat, Lua's tonumber, and the score argument of a Redis command
  pub parse_float : Text → Option Float
  pub tonumber : Text → Option Float
  pub score_of : Text → Option Float
  -- uuid.Parse, strvalid and package time, as far as the program asks
  pub uuid_valid : Text → Bool
  pub board_id_valid : Text → Bool
  pub board_name_valid : Text → Bool
  pub player_name_valid : Text → Bool
  pub trim_spaces : Text → Text
  -- of times in nanoseconds since 1970; a text holds whole milliseconds
  pub format_time : ℤ → Text
  pub parse_time : Text → Option ℤ
  pub format_date : ℤ → Text
  pub parse_date : Text → Option ℤ
  -- the value of a key, and the commands that read it
  pub Value : Type 0
  pub missing : Value
  pub kind : Value → Kind
  pub string_get : Value → Text
  pub hget : Text → Value → Option Text
  pub hgetall : Value → List (Text × Text)
  pub zscore : Text → Value → Option Float
  pub zrange : Value → List (Text × Float)
  pub zrevrange : ℤ → ℤ → Value → List (Text × Float)
  pub zrevrank : Text → Value → Option ℕ
  pub zcard : Value → ℕ
  pub xrange : Value → List Entry
  -- XRANGE with the texts of both ends and a COUNT, and XREAD behind an id
  pub xrange_by : Text → Text → Option ℕ → Value → List Entry
  pub xread : Text → ℕ → Value → List Entry
  -- and those that write it
  pub string_set : Text → Value → Value
  pub hset : Text → Text → Value → Value
  pub zadd : Float → Text → Value → Value
  pub zincrby : Float → Text → Value → Value
  -- XADD with "*" at the server's time
  pub xadd : ℕ → List (Text × Text) → Value → StreamId × Value
  pub expire : ℕ → Value → Value
  pub hexpire : ℕ → Text → Value → Value
