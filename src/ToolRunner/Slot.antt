-- ===== src/ToolRunner/Slot.antt =====
-- However requests interleave, at most one process of the tool runner runs.
use apex_leaderboard.Prelude.{
  ℕ, ◌≤◌, List, [], ◌∷◌, ◌++◌, Bool, true, false, ◌≡◌, refl, arith, length, length-append,
}
use apex_leaderboard.Prelude.Text.{Text}
use apex_leaderboard.Prelude.Exec.{Result, ok, err}
use apex_leaderboard.ToolRunner.{Runner, RunRequest, Refusal, begin_run, end_run}

-- The service and the processes that it has started.
pub record Service : Type 0 where
  pub runner : Runner
  pub processes : List (Text × List Text)

abbrev started : Result Refusal (Text × List Text) × Runner → List (Text × List Text) → Service
started (ok p, r) ps = record { runner = r; processes = p ∷ ps }
started (err e, r) ps = record { runner = r; processes = ps }

-- A request arrives, or one of the processes ends.
pub data Step : Service → Service → Type 0 where
  arrive : (s : Service) (req : RunRequest) → Step s (started (begin_run req s.runner) s.processes)
  finish :
      (r : Runner) (before after : List (Text × List Text)) (p : Text × List Text)
      → Step
          (record { runner = r; processes = before ++ p ∷ after })
          (record { runner = end_run r; processes = before ++ after })

pub data Steps : Service → Service → Type 0 where
  done : {s : Service} → Steps s s
  next : {s t u : Service} → Step s t → Steps t u → Steps s u

-- The slot is taken by the one process there is.
abbrev slots : Bool → ℕ
slots true = 1
slots false = 0

abbrev IsExclusive : Service → Type 0
IsExclusive s = length s.processes ≡ slots s.runner.busy

step-IsExclusive : (s t : Service) → Step s t → IsExclusive s → IsExclusive t
unfolding begin_run end_run
step-IsExclusive s t (arrive _ req) h = ground arith
step-IsExclusive s t (finish r before after p) h =
    ground (arith, length-append before (p ∷ after), length-append before after)

Steps-IsExclusive : (s t : Service) → Steps s t → IsExclusive s → IsExclusive t
Steps-IsExclusive s t done h = h
Steps-IsExclusive s t (next {t = u} step rest) h =
    Steps-IsExclusive u t rest (step-IsExclusive s u step h)

slots_bound : (b : Bool) → slots b ≤ 1
slots_bound true = omega arith
slots_bound false = omega arith

-- However the requests to a tool runner and the ends of its processes interleave, at most one
-- process runs, where it starts with its slot free and no process.
pub one_process :
    (r : Runner) (s : Service)
    → r.busy ≡ false
    → Steps (record { runner = r; processes = [] }) s
    → length s.processes ≤ 1
one_process r s h steps = omega (
  arith,
  Steps-IsExclusive (record { runner = r; processes = [] }) s steps (rw h refl),
  slots_bound s.runner.busy,
)
