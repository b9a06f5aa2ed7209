-- ===== src/Examples/Server.antt =====
-- The theorems on the HTTP server at concrete inputs.
use apex_leaderboard.Prelude.{
  ℕ, zero, suc, ◌≤◌, length, if◌then◌else◌, [], ◌∷◌, some, true, false, ◌≡◌, refl, arith,
}
use apex_leaderboard.Prelude.Int.{pos}
use apex_leaderboard.Prelude.Text.{codes, text_eq}
use apex_leaderboard.Server.RateLimit.{RateLib, Clients, allow, max_clients}
use apex_leaderboard.Server.RateLimit.Bounds.{allow_bounded}
use apex_leaderboard.Server.Middleware.{write_header, write, Run, Panic}
use apex_leaderboard.Platform.Demo.{demo, demo_laws, Num}
use apex_leaderboard.Prelude.Exec.{ok}
use apex_leaderboard.Decimal.{parse_int}
use apex_leaderboard.Server.Startup.{
  Env, is_on, int_from_env, duration_from_env, float_from_env, rate_settings, start_server,
  start_server-environment,
}
use apex_leaderboard.Server.Options.{
  ServerConfig, default_config, configure, apply_option, default_port, default_shutdown_timeout,
  rate_limited,
}
use apex_leaderboard.Server.Options.Limits.{IsUsable}

-- A bucket counts its tokens.
abbrev buckets : RateLib
buckets = record {
  Limiter = ℕ;
  new_limiter = 2;
  allow_at = λ now. elim [ zero ↦ (false, 0) | suc n ↦ (true, n) ];
  split_host = some;
}

abbrev one_client : Clients buckets
one_client = (codes "10.0.0.1", record { limiter = 1; last_seen = 3 }) ∷ []

allow_bounded_example :
    length (allow buckets (codes "/v1/boards") (codes "10.0.0.2") 9 one_client).1 ≤ max_clients
allow_bounded_example =
    allow_bounded buckets (codes "/v1/boards") (codes "10.0.0.2") 9 one_client (ground arith)

abbrev answer_then_fail : Run
answer_then_fail = record {
  calls = write_header 404 ∷ write 12 ∷ [];
  panic = some Panic.other_panic;
}

abbrev chosen : ServerConfig demo
chosen = record (default_config demo) { port = pos 9000; rps = Num.int (pos 5); burst = pos 10 }

-- Only the port is set.
abbrev only_port : Env
only_port name = if text_eq name (codes "PORT") then codes "9000" else []

start_server-environment_example :
    IsUsable demo (record (default_config demo) { port = pos 9000 })
    × (int_from_env demo parse_int only_port (codes "PORT") default_port ≡ ok (pos 9000))
    × (duration_from_env demo parse_int only_port
          (codes "SHUTDOWN_TIMEOUT")
          default_shutdown_timeout
        ≡ ok default_shutdown_timeout)
    × ((rps : Num)
        → float_from_env demo parse_int only_port (codes "RATE_LIMIT_RPS") (Num.int (pos 0))
          ≡ ok rps
        → rate_limited demo (record (default_config demo) { port = pos 9000 })
          ≡ is_on demo parse_int only_port rps)
unfolding start_server int_from_env duration_from_env float_from_env rate_settings configure
    apply_option text_eq parse_int
start_server-environment_example =
    start_server-environment demo demo_laws parse_int only_port
      (record (default_config demo) { port = pos 9000 }) refl
