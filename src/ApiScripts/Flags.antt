-- ===== src/ApiScripts/Flags.antt =====
-- The flags of the scripts: parseFlags of apiscripts/fanout/config.go, apiscripts/loadscore/config.go
-- and apiscripts/randomhistory/config.go. What package flag read of the command line is a parameter,
-- `none` where a flag is not given. Durations are nanoseconds.
use apex_leaderboard.Prelude.{
  suc, ◌≤◌, List, [], Option, none, some, ◌≡◌, arith, length, if◌then◌else◌,
}
use apex_leaderboard.Prelude.Int.{ℤ, pos, leb_ℤ, eqb_ℤ, pos_part}
use apex_leaderboard.Prelude.Text.{Text, codes}
use apex_leaderboard.Prelude.Exec.{Result, ok, err}
use apex_leaderboard.Fanout.{chunked, flat, chunked-flat}

pub data FlagError : Type 0 where
  players_not_positive chunk_size_not_positive requests_not_positive : FlagError
  events_not_positive timeout_not_positive : FlagError

abbrev or_default : {A : Type 0} → A → Option A → A
or_default d none = d
or_default d (some a) = a

-- 50 ms and 15 s
abbrev default_chunk_delay : ℤ
default_chunk_delay = pos 50_000_000

abbrev default_timeout : ℤ
default_timeout = pos 15_000_000_000

abbrev default_base_url : Text
default_base_url = codes "http://localhost:8090"

pub record FanoutConfig : Type 0 where
  pub base_url : Text
  pub player_count : ℤ
  pub chunk_size : ℤ
  pub chunk_delay : ℤ
  pub history_out : Text

-- The fields are the flags, in order.
unfoldable pub fanout_flags :
    Option Text → Option ℤ → Option ℤ → Option ℤ → Option Text → Result FlagError FanoutConfig
fanout_flags base_url players chunk_size chunk_delay history_out =
    let count = or_default (pos 200) players in
    let size = or_default (pos 25) chunk_size in
    if leb_ℤ count (pos 0)
    then err players_not_positive
    else if leb_ℤ size (pos 0)
    then err chunk_size_not_positive
    else ok (record {
      base_url = or_default default_base_url base_url;
      player_count = count;
      chunk_size = size;
      chunk_delay = or_default default_chunk_delay chunk_delay;
      history_out = or_default (codes "_tmp_fanout_history.json") history_out;
    })

pub record LoadTestConfig : Type 0 where
  pub base_url : Text
  pub request_count : ℤ
  pub amount : ℤ
  pub chunk_size : ℤ
  pub chunk_delay : ℤ
  pub history_out : Text

unfoldable pub load_test_flags :
    Option Text
    → Option ℤ
    → Option ℤ
    → Option ℤ
    → Option ℤ
    → Option Text
    → Result FlagError LoadTestConfig
load_test_flags base_url requests amount chunk_size chunk_delay history_out =
    let count = or_default (pos 1000) requests in
    let size = or_default (pos 25) chunk_size in
    if leb_ℤ count (pos 0)
    then err requests_not_positive
    else if leb_ℤ size (pos 0)
    then err chunk_size_not_positive
    else ok (record {
      base_url = or_default default_base_url base_url;
      request_count = count;
      amount = or_default (pos 1) amount;
      chunk_size = size;
      chunk_delay = or_default default_chunk_delay chunk_delay;
      history_out = or_default (codes "_tmp_history.json") history_out;
    })

pub record RandomHistoryConfig : Type 0 where
  pub base_url : Text
  pub board_id : Text
  pub board_name : Text
  pub event_count : ℤ
  pub seed : ℤ
  pub progress_every : ℤ
  pub timeout : ℤ

-- A seed of 0 is replaced by the clock.
unfoldable pub random_history_flags :
    ℤ
    → Option Text
    → Option Text
    → Option Text
    → Option ℤ
    → Option ℤ
    → Option ℤ
    → Option ℤ
    → Result FlagError RandomHistoryConfig
random_history_flags now base_url board board_name events seed progress_every timeout =
    let count = or_default (pos 500) events in
    let wait = or_default default_timeout timeout in
    let given = or_default (pos 0) seed in
    if leb_ℤ count (pos 0)
    then err events_not_positive
    else if leb_ℤ wait (pos 0)
    then err timeout_not_positive
    else ok (record {
      base_url = or_default default_base_url base_url;
      board_id = or_default [] board;
      board_name = or_default (codes "Random History") board_name;
      event_count = count;
      seed = if eqb_ℤ given (pos 0) then now else given;
      progress_every = or_default (pos 100) progress_every;
      timeout = wait;
    })

positive-size :
    (base_url : Option Text) (players chunk_size chunk_delay : Option ℤ) (history_out : Option Text)
    (cfg : FanoutConfig)
    → fanout_flags base_url players chunk_size chunk_delay history_out ≡ ok cfg
    → 1 ≤ pos_part cfg.chunk_size
unfolding fanout_flags
positive-size base_url players chunk_size chunk_delay history_out cfg h = ground (arith, h)

-- With the flags that the script accepts, the loop over the chunks ends and sends each player's
-- score once.
pub fanout_flags-chunked :
    {A : Type 0} (base_url : Option Text) (players chunk_size chunk_delay : Option ℤ)
    (history_out : Option Text) (cfg : FanoutConfig) (xs : List A)
    → fanout_flags base_url players chunk_size chunk_delay history_out ≡ ok cfg
    → (cs : List (List A)) × (chunked (pos_part cfg.chunk_size) (suc (length xs)) 0 xs ≡ some cs)
      × (flat cs ≡ xs)
fanout_flags-chunked base_url players chunk_size chunk_delay history_out cfg xs h =
    chunked-flat (pos_part cfg.chunk_size)
      (positive-size base_url players chunk_size chunk_delay history_out cfg h) xs
