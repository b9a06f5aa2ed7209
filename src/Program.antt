-- ===== src/Program.antt =====
-- main.go with `Start` of server/server.go: how the parts are put up, run and taken down. What the
-- environment, the Redis URL, net/http, the signals and the consumers do are arguments. Times are
-- nanoseconds after the signal.
use apex_leaderboard.Prelude.{
  ℕ, ◌+◌, ◌≤◌, List, [], ◌∷◌, Bool, true, false, leb, ltb, if◌then◌else◌,
}
use apex_leaderboard.Prelude.Exec.{Result, ok, err}
use apex_leaderboard.Platform.{Platform}
use apex_leaderboard.Consumer.{Consumer}
use apex_leaderboard.Server.Options.{ServerConfig}
use apex_leaderboard.Server.Startup.{StartError, max_stop_delay}

-- 2 s
abbrev pub worker_stop_margin : ℕ
worker_stop_margin = 2_000_000_000

-- How the serving ends: with an error of ListenAndServe, or on a signal, with a shutdown that is
-- complete or not.
pub data Serving : Type 0 where
  listen_failed : Serving
  signalled : Bool → Serving

pub data RunError : Type 0 where
  start_error : StartError → RunError
  serve_error shutdown_error : RunError

-- `Start`, from its configuration on.
unfoldable pub start :
    {P : Platform} → Result StartError (ServerConfig P) → Serving → Result RunError (Unit {0})
start (err e) serving = err (start_error e)
start (ok cfg) listen_failed = err serve_error
start (ok cfg) (signalled true) = ok tt
start (ok cfg) (signalled false) = err shutdown_error

pub data Component : Type 0 where
  storage consumer : Component

-- What main does, in order.
pub data Action : Type 0 where
  open_client close_client : Component → Action
  start_consumers run_server : Action
  -- whether they stopped in time
  wait_for_consumers : Bool → Action

-- The consumers' goroutine is done when the last of them has stopped.
unfoldable pub last_stop : ℕ → List ℕ → ℕ
last_stop t [] = t
last_stop t (d ∷ ds) = last_stop (if ltb t d then d else t) ds

unfoldable pub wait_for : ℕ → ℕ → Bool
wait_for done timeout = leb done timeout

module _ {S E : Type 0} (consumers : List (Consumer S E)) (stops : List ℕ) where
  -- What follows the serving, with the exit code.
  unfoldable pub wind_down : Result RunError (Unit {0}) → List Action × ℕ
  unfolding wait_for last_stop max_stop_delay
  wind_down (err (start_error e)) = ([], 1)
  wind_down (err serve_error) = ([], 1)
  wind_down _ = (
    close_client storage
        ∷ wait_for_consumers
            (wait_for (last_stop 0 stops) (max_stop_delay 0 consumers + worker_stop_margin))
        ∷ close_client consumer
        ∷ [],
    0,
  )

  -- `main`, by whether the logging and a Redis client can be set up.
  unfoldable pub main :
      {P : Platform} → Bool → Bool → Result StartError (ServerConfig P) → Serving → List Action × ℕ
  unfolding wind_down start
  main false url_ok cfg serving = ([], 1)
  main true false cfg serving = ([], 1)
  main true true cfg serving =
      let (rest, code) = wind_down (start cfg serving) in
      (open_client storage ∷ open_client consumer ∷ start_consumers ∷ run_server ∷ rest, code)

-- Each consumer stops within its block duration and the margin.
abbrev pub StopInTime : {S E : Type 0} → List (Consumer S E) → List ℕ → Type 0
StopInTime [] [] = Unit
StopInTime (c ∷ cs) (d ∷ ds) = (d ≤ c.block_duration + worker_stop_margin) × StopInTime cs ds
StopInTime _ _ = ⊥
