-- ===== src/Server/Middleware.antt =====
-- server/middleware.go: the status recorder, and the recovery from a panic.
pub mod Responses
use apex_leaderboard.Prelude.{
  ℕ, ◌+◌, List, [], ◌∷◌, ◌++◌, Option, none, some, Bool, true, false, if◌then◌else◌, leb,
}

-- What reaches the wrapped net/http writer.
pub data Call : Type 0 where
  write_header : ℕ → Call
  write : ℕ → Call

pub record StatusRecorder : Type 0 where
  pub status : ℕ
  pub bytes : ℕ
  pub wrote_header : Bool
  pub inner : List Call

-- The recorder that loggingMiddleware makes.
abbrev pub new_recorder : StatusRecorder
new_recorder = record { status = 200; bytes = 0; wrote_header = false; inner = [] }

unfoldable pub recorder_write_header : ℕ → StatusRecorder → StatusRecorder
recorder_write_header code r =
    if r.wrote_header
    then record r { inner = r.inner ++ write_header code ∷ [] }
    else record r { status = code; wrote_header = true; inner = r.inner ++ write_header code ∷ [] }

-- A write of `n` bytes, all of which the inner writer takes.
unfoldable pub recorder_write : ℕ → StatusRecorder → StatusRecorder
unfolding recorder_write_header
recorder_write n r =
    let r' : StatusRecorder = if r.wrote_header then r else recorder_write_header 200 r in
    record r' { bytes = r'.bytes + n; inner = r'.inner ++ write n ∷ [] }

pub data Panic : Type 0 where
  abort_handler other_panic : Panic

-- A handler as the calls it makes before it returns or panics.
pub record Run : Type 0 where
  pub calls : List Call
  pub panic : Option Panic

unfoldable pub perform : List Call → StatusRecorder → StatusRecorder
unfolding recorder_write
perform [] r = r
perform (write_header code ∷ cs) r = perform cs (recorder_write_header code r)
perform (write n ∷ cs) r = perform cs (recorder_write n r)

-- recoveryMiddleware over the recorder; the result says whether a panic goes on.
unfoldable pub recover_run : Run → StatusRecorder → StatusRecorder × Option Panic
unfolding perform
recover_run h r =
    let r' = perform h.calls r in
    elim h.panic [
      | none ↦ (r', none)
      | some abort_handler ↦ (r', some abort_handler)
      | some other_panic ↦ (if r'.wrote_header then r' else recorder_write_header 500 r', none)
    ]

pub data Level : Type 0 where
  info warn error : Level

-- The level of the request's log line.
unfoldable pub log_level : ℕ → Level
log_level status = if leb 500 status then error else if leb 400 status then warn else info
