-- ===== src/Server/Startup.antt =====
-- main.go: the environment that the server is started from, and the longest wait for a consumer to
-- stop. os.Getenv is a function, where an unset variable is empty, and time.ParseDuration a
-- parameter.
use apex_leaderboard.Prelude.{
  ℕ, List, [], ◌∷◌, Option, none, some, Bool, ◌≡◌, arith, if◌then◌else◌, ltb, inl, ap, ◌∙◌,
}
use apex_leaderboard.Prelude.Int.{ℤ, pos}
use apex_leaderboard.Prelude.Text.{Text, codes, text_eq}
use apex_leaderboard.Prelude.Exec.{Result, ok, err, bind_result, bind_ok}
use apex_leaderboard.Platform.{Platform}
use apex_leaderboard.Platform.Laws.{PlatformLaws}
use apex_leaderboard.Decimal.{parse_int}
use apex_leaderboard.Consumer.{Consumer}
use apex_leaderboard.Server.Options.{
  ServerConfig, Setting, with_port, with_shutdown_timeout, with_rate_limit, default_config,
  configure, default_port, default_shutdown_timeout, default_rate_limit_burst, rate_limited,
  apply_option,
}
use apex_leaderboard.Server.Options.Limits.{IsUsable, configure-IsUsable}

-- ErrConfig, and ErrOption of the server
pub data StartError : Type 0 where
  config option : StartError

abbrev pub Env : Type 0
Env = Text → Text

-- intFromEnv, floatFromEnv and durationFromEnv: the default where the variable is empty
abbrev pub from_env : {A : Type 0} → (Text → Option A) → Env → Text → A → Result StartError A
from_env parse env name default =
    if text_eq (env name) []
    then ok default
    else elim (parse (env name)) [ none ↦ err StartError.config | some a ↦ ok a ]

module _ (P : Platform) (parse_duration : Text → Option ℤ) (env : Env) where
  unfoldable pub int_from_env : Text → ℤ → Result StartError ℤ
  int_from_env = from_env parse_int env

  unfoldable pub float_from_env : Text → P.Float → Result StartError P.Float
  float_from_env = from_env P.parse_float env

  unfoldable pub duration_from_env : Text → ℤ → Result StartError ℤ
  duration_from_env = from_env parse_duration env

  abbrev pub is_on : P.Float → Bool
  is_on rps = P.float_lt (P.of_int (pos 0)) rps

  -- The burst is looked up only where the rate is positive.
  unfoldable pub rate_settings : P.Float → Result StartError (List (Setting P))
  unfolding int_from_env
  rate_settings rps =
      if is_on rps
      then bind_result (int_from_env (codes "RATE_LIMIT_BURST") default_rate_limit_burst)
          (λ burst. ok (with_rate_limit rps burst ∷ []))
      else ok []

  abbrev settled : ℤ → ℤ → List (Setting P) → Result StartError (ServerConfig P)
  settled port timeout rate =
      elim (configure P (with_port port ∷ with_shutdown_timeout timeout ∷ rate)
        (default_config P)) [ none ↦ err StartError.option | some cfg ↦ ok cfg ]

  -- `startServer` up to the configuration that the server runs with.
  unfoldable pub start_server : Result StartError (ServerConfig P)
  unfolding int_from_env float_from_env duration_from_env rate_settings
  start_server = bind_result (int_from_env (codes "PORT") default_port) λ port.
      bind_result (duration_from_env (codes "SHUTDOWN_TIMEOUT") default_shutdown_timeout) λ timeout.
        bind_result (float_from_env (codes "RATE_LIMIT_RPS") (P.of_int (pos 0)))
          λ rps. bind_result (rate_settings rps) (settled port timeout)

abbrev longer : ℕ → ℕ → ℕ
longer a b = if ltb a b then b else a

unfoldable pub max_stop_delay : {S E : Type 0} → ℕ → List (Consumer S E) → ℕ
max_stop_delay slowest [] = slowest
max_stop_delay slowest (c ∷ cs) = max_stop_delay (longer slowest c.block_duration) cs

module _ (P : Platform) (L : PlatformLaws P) (parse_duration : Text → Option ℤ) (env : Env) where
  -- What the settings come to.
  settled_lem :
      (port timeout : ℤ) (rate : List (Setting P)) (c : ServerConfig P)
      → settled P parse_duration env port timeout rate ≡ ok c
      → IsUsable P c
        × (configure P rate (record (default_config P) { port = port; shutdown_timeout = timeout })
            ≡ some c)
  unfolding configure apply_option
  settled_lem port timeout rate c h =
      let run : configure P (with_port port ∷ with_shutdown_timeout timeout ∷ rate)
            (default_config P)
          ≡ some c =
        of_option _ h in
      (
        configure-IsUsable P L (with_port port ∷ with_shutdown_timeout timeout ∷ rate) c run,
        ground (arith, run),
      )
    where
      of_option :
          (o : Option (ServerConfig P))
          → (elim o as (λ _. Result StartError (ServerConfig P)) [
            | none ↦ err StartError.option
            | some cfg ↦ ok cfg
          ])
            ≡ ok c
          → o ≡ some c
      of_option none k = absurd (cc)
      of_option (some d) k = cc

  rate_lem :
      (port timeout : ℤ) (rps : P.Float) (rate : List (Setting P)) (c : ServerConfig P)
      → rate_settings P parse_duration env rps ≡ ok rate
      → configure P rate (record (default_config P) { port = port; shutdown_timeout = timeout })
        ≡ some c
      → (c.port ≡ port)
        × (c.shutdown_timeout ≡ timeout)
        × (rate_limited P c ≡ is_on P parse_duration env rps)
  unfolding rate_settings configure apply_option rate_limited
  rate_lem port timeout rps rate c h k =
      ground
        (arith, L.floats.float_lt-of_int (pos 0) (pos 0) (inl (ground arith)) (inl (ground arith)))

  -- A server that starts has a usable configuration, with the port and the shutdown timeout of the
  -- environment or their defaults, and it limits rates exactly when the rate of the environment is
  -- positive.
  pub start_server-environment :
      (c : ServerConfig P)
      → start_server P parse_duration env ≡ ok c
      → IsUsable P c
        × (int_from_env P parse_duration env (codes "PORT") default_port ≡ ok c.port)
        × (duration_from_env P parse_duration env
              (codes "SHUTDOWN_TIMEOUT")
              default_shutdown_timeout
            ≡ ok c.shutdown_timeout)
        × ((rps : P.Float)
            → float_from_env P parse_duration env (codes "RATE_LIMIT_RPS") (P.of_int (pos 0))
              ≡ ok rps
            → rate_limited P c ≡ is_on P parse_duration env rps)
  unfolding start_server
  start_server-environment c h =
      let (port, hp, h1) = bind_ok _ _ c h in
      let (timeout, ht, h2) = bind_ok _ _ c h1 in
      let (rps, hr, h3) = bind_ok _ _ c h2 in
      let (rate, hs, h4) = bind_ok _ _ c h3 in
      let (usable, run) = settled_lem port timeout rate c h4 in
      let (same_port, same_timeout, on) = rate_lem port timeout rps rate c hs run in
      (
        usable,
        rw same_port hp,
        rw same_timeout ht,
        λ r e. on ∙ ap (is_on P parse_duration env) (same rps r hr e),
      )
    where
      same :
          (a b : P.Float)
          → float_from_env P parse_duration env (codes "RATE_LIMIT_RPS") (P.of_int (pos 0)) ≡ ok a
          → float_from_env P parse_duration env (codes "RATE_LIMIT_RPS") (P.of_int (pos 0)) ≡ ok b
          → a ≡ b
      same a b k k' = cc
