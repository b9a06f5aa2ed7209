-- ===== src/ClientLog.antt =====
-- apexredis/hook.go and apexredis/config.go: what is logged of a command, and where Redis is. A
-- command is its name and its arguments printed with fmt.Sprint; strings.ToValidUTF8(s, "") is a
-- parameter.
use apex_leaderboard.Prelude.{
  ℕ, zero, suc, ◌≤◌, List, [], ◌∷◌, ◌++◌, Option, none, some, Bool, true, false, ◌≡◌, arith, length,
  length-append, length-take, take, leb, if◌then◌else◌, Bool-cases, inl, inr,
}
use apex_leaderboard.Prelude.Text.{Text, codes, text_eq}

abbrev pub max_logged_arg : ℕ
max_logged_arg = 64

abbrev pub max_logged_args : ℕ
max_logged_args = 256

abbrev space : ℕ → Text
space zero = []
space (suc i) = codes " "

-- The loop that formatArgs and cmdNames share: from index `i`, with `b` in the builder.
unfoldable pub joined : (Text → Text) → ℕ → Text → List Text → Text
joined f i b [] = b
joined f i b (arg ∷ args) =
    let rest = joined f (suc i) (b ++ (space i ++ f arg)) args in
    if leb max_logged_args (length b) then b ++ codes " ..." else rest

module _ (to_valid_utf8 : Text → Text) where
  unfoldable pub truncate_arg : Text → Text
  truncate_arg arg =
      if leb (length arg) max_logged_arg
      then arg
      else to_valid_utf8 (take max_logged_arg arg) ++ codes "..."

  unfoldable pub format_args : List Text → Text
  unfolding joined truncate_arg
  format_args args = joined truncate_arg 0 [] args

unfoldable pub cmd_names : List Text → Text
unfolding joined
cmd_names names = joined (λ name. name) 0 [] names

-- What a command came to: redis.Nil is a miss.
pub data Outcome : Type 0 where
  fine miss : Outcome
  failed : Text → Outcome

pub record LogLine : Type 0 where
  pub args : Text
  pub missed : Bool
  pub error : Option Text

-- `logCommand`: a read that blocked in vain leaves no line.
unfoldable pub log_command : (Text → Text) → Text → List Text → Outcome → Option LogLine
unfolding format_args
log_command to_valid_utf8 name args miss =
    if text_eq name (codes "xread")
    then none
    else some (record { args = format_args to_valid_utf8 args; missed = true; error = none })
log_command to_valid_utf8 name args fine =
    some (record { args = format_args to_valid_utf8 args; missed = false; error = none })
log_command to_valid_utf8 name args (failed e) =
    some (record { args = format_args to_valid_utf8 args; missed = false; error = some e })

abbrev logged : Option LogLine → List LogLine
logged none = []
logged (some l) = l ∷ []

-- A command or a pipeline on its way to Redis: its outcome, and what it leaves.
abbrev pub Next : Type 0 → Type 0
Next S = S → Outcome × S

-- `ProcessHook`; the first argument says whether Debug is enabled.
unfoldable pub process_hook :
    {S : Type 0}
    → (Text → Text)
    → Bool
    → Text
    → List Text
    → Next S
    → S
    → (Outcome × S) × List LogLine
unfolding log_command
process_hook to_valid_utf8 debug name args next s =
    if debug
    then (let out = next s in (out, logged (log_command to_valid_utf8 name args out.0)))
    else (next s, [])

pub record PipelineLine : Type 0 where
  pub n : ℕ
  pub cmds : Text
  pub error : Option Text

-- A miss inside a pipeline is no failure.
abbrev error_of : Outcome → Option Text
error_of (failed e) = some e
error_of _ = none

-- `ProcessPipelineHook`
unfoldable pub process_pipeline_hook :
    {S : Type 0} → Bool → List Text → Next S → S → (Outcome × S) × List PipelineLine
unfolding cmd_names
process_pipeline_hook debug names next s =
    if debug
    then (let out = next s in
        (out, record { n = length names; cmds = cmd_names names; error = error_of out.0 } ∷ []))
    else (next s, [])

abbrev default_url : Text
default_url = codes "redis://localhost:6379/0"

unfoldable pub resolve : Text → Text
resolve url = if text_eq url [] then default_url else url

length-space : (i : ℕ) → length (space i) ≤ 1
length-space zero = omega arith
length-space (suc i) = omega arith

module _ (f : Text → Text) (bound : (arg : Text) → length (f arg) ≤ 67) where
  joined_bounded :
      (i : ℕ) (b : Text) (args : List Text) → length b ≤ 323 → length (joined f i b args) ≤ 327
  unfolding joined
  joined_bounded i b [] h = omega (arith, h)
  joined_bounded i b (arg ∷ args) h = elim (Bool-cases (leb max_logged_args (length b))) [
    | inl full ↦ rw (full, length-append b (codes " ...")) (omega (arith, h))
    | inr open_ ↦ rw open_ (
        joined_bounded (suc i) (b ++ (space i ++ f arg)) args (
          omega (
            arith,
            length-append b (space i ++ f arg),
            length-append (space i) (f arg),
            length-space i,
            bound arg,
            room open_,
          )))
  ]
    where
      room : leb max_logged_args (length b) ≡ false → length b ≤ 255
      room e = ground arith

module _ (to_valid_utf8 : Text → Text)
    (shrinks : (s : Text) → length (to_valid_utf8 s) ≤ length s) where
  truncate_arg_bounded : (arg : Text) → length (truncate_arg to_valid_utf8 arg) ≤ 67
  unfolding truncate_arg
  truncate_arg_bounded arg = elim (Bool-cases (leb (length arg) max_logged_arg)) [
    | inl short ↦ rw short (fits short)
    | inr long ↦
        rw (long, length-append (to_valid_utf8 (take max_logged_arg arg)) (codes "..."))
          (omega (arith, shrinks (take max_logged_arg arg), length-take max_logged_arg arg))
  ]
    where
      fits : leb (length arg) max_logged_arg ≡ true → length arg ≤ 67
      fits e = ground arith

  -- The arguments of a command are logged in at most 327 bytes, where the repair of UTF-8 makes no
  -- text longer.
  pub format_args_bounded : (args : List Text) → length (format_args to_valid_utf8 args) ≤ 327
  unfolding format_args
  format_args_bounded args =
      joined_bounded (truncate_arg to_valid_utf8) truncate_arg_bounded 0 [] args (omega arith)
