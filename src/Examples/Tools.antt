-- ===== src/Examples/Tools.antt =====
-- The theorems on the tool runner and the logs at concrete inputs.
use apex_leaderboard.Prelude.{◌≤◌, ◌≡◌, List, [], ◌∷◌, some, true, false, refl, length, ◌↔◌, map}
use apex_leaderboard.RandomHistory.{
  ExpectedEvent, ScoreEvent, verify_history, verify_history_iff, compared, backwards,
}
use apex_leaderboard.Prelude.Int.{pos, negsuc, ℤ}
use apex_leaderboard.Prelude.Text.{Text, codes, text_eq}
use apex_leaderboard.Prelude.Exec.{ok}
use apex_leaderboard.ToolRunner.{
  Runner, RunRequest, begin_run, find_tool, validate_args, Exit, Finished,
}
use apex_leaderboard.ToolRunner.Slot.{arrive, done, next, one_process}

abbrev idle : Runner
idle = record { tools = (codes "apiwalk", codes "/tools/apiwalk") ∷ []; busy = false }

abbrev walk : RunRequest
walk = record { tool = codes "apiwalk"; body = some (codes "-v" ∷ []) }

abbrev taken : Runner
taken = record idle { busy = true }

abbrev process : Text × List Text
process = (codes "/tools/apiwalk", codes "-v" ∷ [])

walk-starts : begin_run walk idle ≡ (ok process, taken)
unfolding begin_run find_tool validate_args text_eq
walk-starts = refl

-- One request starts a process, and a second one is turned away.
one_process_example : length (process ∷ []) ≤ 1
unfolding begin_run find_tool validate_args text_eq
one_process_example =
    one_process idle (record { runner = taken; processes = process ∷ [] }) refl
      (next (arrive (record { runner = idle; processes = [] }) walk)
        (next (arrive (record { runner = taken; processes = process ∷ [] }) walk) done))

abbrev walked : Finished
walked = record { exit = Exit.success; timed_out = false; duration_ms = 12; raw = codes "done" }

abbrev wrote : List ExpectedEvent
wrote =
    record { event_type = codes "set"; amount = pos 40 }
    ∷ record { event_type = codes "increment"; amount = negsuc 2 }
    ∷ []

abbrev shown : Text → Text → ℤ → ScoreEvent
shown id event_type amount = record {
  event_id = id;
  event_type = event_type;
  player_id = codes "p1";
  board_id = codes "b1";
  amount = amount;
  request_id = codes "r1";
  created_at = codes "2026-01-01T00:00:00Z";
}

abbrev fetched_page : List ScoreEvent
fetched_page =
    shown (codes "2-0") (codes "increment") (negsuc 2)
    ∷ shown (codes "1-0") (codes "set") (pos 40)
    ∷ []

verify_history_iff_example :
    (verify_history fetched_page wrote ≡ ok tt) ↔ (map compared fetched_page ≡ backwards wrote)
verify_history_iff_example = verify_history_iff fetched_page wrote

page_accepted : verify_history fetched_page wrote ≡ ok tt
page_accepted = (verify_history_iff fetched_page wrote).1 refl
