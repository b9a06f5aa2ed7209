-- ===== src/Server/Chain.antt =====
-- The handler that `Start` of server/server.go serves: requestIDMiddleware, loggingMiddleware,
-- recoveryMiddleware and, where rates are limited, the limiter's middleware around the mux.
pub mod Lines
use apex_leaderboard.Prelude.{
  ℕ, List, [], ◌∷◌, Option, none, some, Bool, true, false, if◌then◌else◌,
}
use apex_leaderboard.Prelude.Text.{Text}
use apex_leaderboard.Server.RateLimit.{RateLib, Clients, allow, reject_status}
use apex_leaderboard.Server.Middleware.{
  Call, Panic, Run, StatusRecorder, new_recorder, recover_run, Level, log_level,
}
use apex_leaderboard.Server.RequestIds.{Context, with_id, log_attrs}

pub record Request : Type 0 where
  pub method : Text
  pub path : Text
  pub remote_addr : Text
  pub context : Context

-- What goes on at the mux behind the middleware.
abbrev pub HttpHandler : Type 0
HttpHandler = Request → Run

-- The line "request", with the attributes of the context.
pub record RequestLine : Type 0 where
  pub attrs : List (Text × Text)
  pub level : Level
  pub method : Text
  pub path : Text
  pub status : ℕ
  pub bytes : ℕ

pub record Served : Type 0 where
  -- the response header X-Request-ID
  pub request_id : Text
  -- what reached net/http, and the panic that did
  pub calls : List Call
  pub panic : Option Panic
  pub lines : List RequestLine

-- A panic that goes on passes over the log line.
unfoldable pub logging_middleware : Request → StatusRecorder × Option Panic → List RequestLine
logging_middleware req (rec, some p) = []
logging_middleware req (rec, none) =
    record {
      attrs = log_attrs req.context;
      level = log_level rec.status;
      method = req.method;
      path = req.path;
      status = rec.status;
      bytes = rec.bytes;
    }
    ∷ []

unfoldable pub request_id_chain : Text → Request → HttpHandler → Served
unfolding logging_middleware
request_id_chain id req next =
    let req' : Request = record req { context = with_id req.context id } in
    let out : StatusRecorder × Option Panic = recover_run (next req') new_recorder in
    record {
      request_id = id;
      calls = (out.0).inner;
      panic = out.1;
      lines = logging_middleware req' out;
    }

-- httputils.WriteError: the calls that an error's status makes.
module _ (R : RateLib) (write_error : ℕ → List Call) where
  -- The limiter's middleware at a time of its clock.
  unfoldable pub limiter_middleware : ℕ → Clients R → HttpHandler → Request → Run × Clients R
  limiter_middleware now clients next req =
      let (verdict, clients') = allow R req.path req.remote_addr now clients in
      elim (reject_status verdict) [
        | none ↦ (next req, clients')
        | some status ↦ (record { calls = write_error status; panic = none }, clients')
      ]

  -- With no limiter there is no table.
  abbrev pub limited : ℕ → Option (Clients R) → HttpHandler → Request → Run
  limited now none next req = next req
  limited now (some clients) next req = (limiter_middleware now clients next req).0

  -- One request through the handler of the server.
  unfoldable pub serve : Text → ℕ → Option (Clients R) → HttpHandler → Request → Served
  unfolding request_id_chain limiter_middleware
  serve id now clients next req = request_id_chain id req (limited now clients next)
