-- ===== src/ToolRunner.antt =====
-- apiscripts/toolrunner/main.go: a service that runs one tool at a time. The process, its output and
-- the JSON around them are what os/exec and net/http give; log.Fatal is `none`.
pub mod Slot
pub mod Output
use apex_leaderboard.Prelude.{
  ℕ, ◌+◌, ◌/◌, ◌%◌, List, [], ◌∷◌, ◌++◌, Option, none, some, Bool, true, false, not, ◌||◌, ◌&&◌,
  ◌==◌, length, take, map, ltb, if◌then◌else◌,
}
use apex_leaderboard.Prelude.Int.{ℤ, pos, negsuc, leb_ℤ, ltb_ℤ}
use apex_leaderboard.Prelude.Text.{Text, codes, text_eq}
use apex_leaderboard.Prelude.Exec.{Result, ok, err}
use apex_leaderboard.Decimal.{parse_int}

abbrev pub max_output : ℕ
max_output = 65_536

-- An entry of the directory; `mode` is there when Info gives one, as whether the file is regular
-- and its permission bits.
pub record DirEntry : Type 0 where
  pub name : Text
  pub is_dir : Bool
  pub mode : Option (Bool × ℕ)

-- `perm & 0o111 != 0`
abbrev is_executable : ℕ → Bool
is_executable perm = not (perm % 2 == 0 && (perm / 8 % 2 == 0 && perm / 64 % 2 == 0))

-- `discoverTools`: the commands by name; `none` is an entry that cannot be inspected.
unfoldable pub discover_tools : Text → List DirEntry → Option (List (Text × Text))
discover_tools dir [] = some []
discover_tools dir (e ∷ es) =
    let rest = discover_tools dir es in
    if e.is_dir then rest else elim e.mode [
      | none ↦ none
      | some (is_regular, perm) ↦ elim rest [
        | none ↦ none
        | some tools ↦
            if is_regular && is_executable perm
            then some ((e.name, dir ++ (codes "/" ++ e.name)) ∷ tools)
            else some tools
      ]
    ]

abbrev pub contains : ℕ → Text → Bool
contains b [] = false
contains b (c ∷ s) = c == b || contains b s

abbrev pub arg_ok : Text → Bool
arg_ok arg = not (ltb 512 (length arg)) && not (contains 0 arg)

abbrev pub args_ok : List Text → Bool
args_ok [] = true
args_ok (arg ∷ args) = arg_ok arg && args_ok args

unfoldable pub validate_args : List Text → Bool
validate_args args = not (ltb 32 (length args)) && args_ok args

-- envDuration and envInt
abbrev positive_or_fatal : Option ℤ → ℤ → Option ℤ
positive_or_fatal none high = none
positive_or_fatal (some n) high = if leb_ℤ n (pos 0) || ltb_ℤ high n then none else some n

unfoldable pub env_duration : (Text → Option ℤ) → (Text → Text) → Text → ℤ → Option ℤ
env_duration parse_duration env name fallback =
    if text_eq (env name) [] then some fallback else elim (parse_duration (env name)) [
      | none ↦ none
      | some d ↦ if leb_ℤ d (pos 0) then none else some d
    ]

unfoldable pub env_int : (Text → Text) → Text → ℤ → Option ℤ
env_int env name fallback =
    if text_eq (env name) []
    then some fallback
    else positive_or_fatal (parse_int (env name)) (pos 65535)

-- The registry, and whether the slot of `busy` is taken.
pub record Runner : Type 0 where
  pub tools : List (Text × Text)
  pub busy : Bool

-- The body is what the decoder makes of it: nothing counts as no arguments.
pub record RunRequest : Type 0 where
  pub tool : Text
  pub body : Option (List Text)

-- What a request is refused with: 404, 400, 409.
pub data Refusal : Type 0 where
  unknown_tool invalid_body invalid_args another_running : Refusal

unfoldable pub find_tool : Text → List (Text × Text) → Option Text
find_tool name [] = none
find_tool name ((n, c) ∷ tools) = if text_eq n name then some c else find_tool name tools

-- `handleRun` until the process starts: its command and arguments, or a refusal.
unfoldable pub begin_run : RunRequest → Runner → Result Refusal (Text × List Text) × Runner
begin_run req r = elim (find_tool req.tool r.tools) [
  | none ↦ (err unknown_tool, r)
  | some command ↦ elim req.body [
    | none ↦ (err invalid_body, r)
    | some args ↦
        if not (validate_args args)
        then (err invalid_args, r)
        else if r.busy
        then (err another_running, r)
        else (ok (command, args), record r { busy = true })
  ]
]

-- The deferred release of the slot.
unfoldable pub end_run : Runner → Runner
end_run r = record r { busy = false }

-- How the process ended: well, with an exit code, or with another error.
pub data Exit : Type 0 where
  success failed_to_run : Exit
  exited : ℤ → Exit

-- What is known when it has.
pub record Finished : Type 0 where
  pub exit : Exit
  pub timed_out : Bool
  pub duration_ms : ℕ
  pub raw : Text

pub record RunResponse : Type 0 where
  pub tool : Text
  pub args : List Text
  pub is_ok : Bool
  pub exit_code : ℤ
  pub timed_out : Bool
  pub truncated : Bool
  pub duration_ms : ℕ
  pub output : Text

abbrev code_of : Exit → ℤ
code_of success = pos 0
code_of failed_to_run = negsuc 0
code_of (exited n) = n

abbrev is_success : Exit → Bool
is_success success = true
is_success _ = false

abbrev pub truncation_note : Text
truncation_note = 10 ∷ codes "... output truncated ..." ++ 10 ∷ []

-- `strings.ToValidUTF8(s, "")` is a parameter, and so is the run of a process.
module _ (to_valid_utf8 : Text → Text) where
  unfoldable pub respond : Text → List Text → Finished → RunResponse
  respond tool args f =
      let truncated = ltb max_output (length f.raw) in
      let kept = to_valid_utf8 (if truncated then take max_output f.raw else f.raw) in
      record {
        tool = tool;
        args = args;
        is_ok = is_success f.exit;
        exit_code = code_of f.exit;
        timed_out = f.timed_out;
        truncated = truncated;
        duration_ms = f.duration_ms;
        output = if truncated then kept ++ truncation_note else kept;
      }

  -- `handleRun`, with nothing of others while the process runs.
  unfoldable pub handle_run :
      (Text → List Text → Finished) → RunRequest → Runner → Result Refusal RunResponse × Runner
  unfolding begin_run respond end_run
  handle_run run_tool req r =
      let (started, r') = begin_run req r in
      elim started [
        | ok (command, args) ↦ (ok (respond req.tool args (run_tool command args)), end_run r')
        | err e ↦ (err e, r')
      ]

-- `handleList`; slices.Sort is a parameter.
unfoldable pub handle_list : (List Text → List Text) → Runner → List Text
handle_list sort r = sort (map (λ t. t.0) r.tools)
