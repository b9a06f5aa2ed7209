-- ===== src/ToolRunner/Output.antt =====
-- What the tool runner lets through and sends back is bounded.
use apex_leaderboard.Prelude.{
  ◌≤◌, List, [], ◌∷◌, some, true, false, ◌≡◌, arith, length, length-append, take, length-take, All,
  Bool-cases, inl, inr, ltb,
}
use apex_leaderboard.Prelude.Text.{Text}
use apex_leaderboard.Prelude.Exec.{ok}
use apex_leaderboard.ToolRunner.{
  Finished, respond, handle_run, end_run, max_output, validate_args, args_ok, truncation_note,
  contains, Runner, RunRequest, begin_run, find_tool,
}

-- The output in a response of the tool runner has at most 65562 bytes, whatever the process wrote,
-- where the repair of UTF-8 makes no text longer.
pub respond_bounded :
    (to_valid_utf8 : Text → Text) (tool : Text) (args : List Text) (f : Finished)
    → ((s : Text) → length (to_valid_utf8 s) ≤ length s)
    → length (respond to_valid_utf8 tool args f).output ≤ 65_562
unfolding respond
respond_bounded to_valid_utf8 tool args f shrinks =
    elim (Bool-cases (ltb max_output (length f.raw))) [
      | inl long ↦
          rw (long, length-append (to_valid_utf8 (take max_output f.raw)) truncation_note)
            (omega (arith, shrinks (take max_output f.raw), length-take max_output f.raw))
      | inr short ↦ rw short (omega (arith, shrinks f.raw, not_longer short))
    ]
  where
    not_longer : ltb max_output (length f.raw) ≡ false → length f.raw ≤ max_output
    not_longer h = ground arith

-- Whatever a request to a tool runner with a free slot comes to, the slot is free after it, and
-- where the slot is taken, it stays taken.
pub handle_run_idle :
    (to_valid_utf8 : Text → Text) (run_tool : Text → List Text → Finished) (req : RunRequest)
    (r : Runner)
    → r.busy ≡ false
    → ((handle_run to_valid_utf8 run_tool req r).1 ≡ r)
      × ((handle_run to_valid_utf8 run_tool req (record r { busy = true })).1
          ≡ record r { busy = true })
unfolding handle_run begin_run end_run
handle_run_idle to_valid_utf8 run_tool req r h = (ground arith, ground arith)

args_ok-All :
    (args : List Text)
    → args_ok args ≡ true
    → All (λ arg. (length arg ≤ 512) × (contains 0 arg ≡ false)) args
args_ok-All [] h = tt
args_ok-All (arg ∷ args) h = (ground arith, args_ok-All args (ground arith))

-- A process that the tool runner starts is the registered command of the tool that was asked for,
-- no other process runs, and it has at most 32 arguments, of at most 512 bytes each and without a
-- NUL.
pub begin_run-limits :
    (req : RunRequest) (r r' : Runner) (command : Text) (args : List Text)
    → begin_run req r ≡ (ok (command, args), r')
    → (find_tool req.tool r.tools ≡ some command)
      × (r.busy ≡ false)
      × (length args ≤ 32)
      × All (λ arg. (length arg ≤ 512) × (contains 0 arg ≡ false)) args
unfolding begin_run validate_args
begin_run-limits req r r' command args h =
    (ground arith, ground arith, ground arith, args_ok-All args (ground arith))
