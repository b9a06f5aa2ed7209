-- ===== src/Server/Options.antt =====
-- The options of server/server.go. Durations are nanoseconds.
pub mod Limits
use apex_leaderboard.Prelude.{List, [], ◌∷◌, Option, none, some, Bool, ◌||◌, if◌then◌else◌}
use apex_leaderboard.Prelude.Int.{ℤ, pos, leb_ℤ, ltb_ℤ}
use apex_leaderboard.Platform.{Platform}

abbrev pub default_port : ℤ
default_port = pos 8090

abbrev pub default_shutdown_timeout : ℤ
default_shutdown_timeout = pos 10_000_000_000

abbrev pub default_rate_limit_burst : ℤ
default_rate_limit_burst = pos 20

module _ (P : Platform) where
  pub record ServerConfig : Type 0 where
    pub port : ℤ
    pub shutdown_timeout : ℤ
    pub rps : P.Float
    pub burst : ℤ

  abbrev pub default_config : ServerConfig
  default_config = record {
    port = default_port;
    shutdown_timeout = default_shutdown_timeout;
    rps = P.of_int (pos 0);
    burst = pos 0;
  }

  -- WithPort, WithShutdownTimeout and WithRateLimit
  pub data Setting : Type 0 where
    with_port : ℤ → Setting
    with_shutdown_timeout : ℤ → Setting
    with_rate_limit : P.Float → ℤ → Setting

  -- `rps <= 0`, which a NaN is not, as `rps > 0`
  abbrev pub not_positive : P.Float → Bool
  not_positive rps = P.float_lt rps (P.of_int (pos 0)) || P.float_eq rps (P.of_int (pos 0))

  -- `none` is ErrOption.
  unfoldable pub apply_option : Setting → ServerConfig → Option ServerConfig
  apply_option (with_port port) cfg =
      if leb_ℤ port (pos 0) || ltb_ℤ (pos 65535) port
      then none
      else some (record cfg { port = port })
  apply_option (with_shutdown_timeout st) cfg =
      if leb_ℤ st (pos 0) then none else some (record cfg { shutdown_timeout = st })
  apply_option (with_rate_limit rps burst) cfg =
      if not_positive rps
      then none
      else if ltb_ℤ burst (pos 1)
      then none
      else some (record cfg { rps = rps; burst = burst })

  -- The loop over the options in `Start`.
  unfoldable pub configure : List Setting → ServerConfig → Option ServerConfig
  configure [] cfg = some cfg
  configure (o ∷ os) cfg = elim (apply_option o cfg) [ none ↦ none | some cfg' ↦ configure os cfg' ]

  -- `enabled` of the rate limiter's configuration
  unfoldable pub rate_limited : ServerConfig → Bool
  rate_limited cfg = P.float_lt (P.of_int (pos 0)) cfg.rps
