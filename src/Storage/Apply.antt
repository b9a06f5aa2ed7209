-- ===== src/Storage/Apply.antt =====
-- The score write: storage/scripts/apply_score_event.lua, and applyEvent, SetScore and
-- IncrementScore of storage/score_repo.go, which run it. Redis runs a script as one step.
pub mod Script
pub mod Steps
pub mod Effect
pub mod Retry
pub mod Partial
use apex_leaderboard.Prelude.{if◌then◌else◌, ◌||◌}
use apex_leaderboard.Prelude.Int.{ℤ, eqb_ℤ}
use apex_leaderboard.Prelude.Text.{Text}
use apex_leaderboard.Prelude.Exec.{Result, ok, err, lift, ◌>>=◌}
use apex_leaderboard.Platform.{Platform}
use apex_leaderboard.Score.{max_score}
use apex_leaderboard.Ledger.{EventType, type_text}
use apex_leaderboard.Decimal.{format_int}
use apex_leaderboard.Storage.Client.{StorageError, Store, call}
use apex_leaderboard.Storage.Keys.{
  leaderboard_key, ledger_key, idempotency_hash_key, player_profile_key, board_profile_key,
}
use apex_leaderboard.Storage.Apply.Script.{
  Args, apply_score_event, code_applied, code_deduped, code_player_not_found, code_board_not_found,
  code_board_closed, code_conflict, code_out_of_range,
}

-- The keys and arguments that applyEvent hands the script.
unfoldable pub script_args : EventType → Text → Text → ℤ → Text → Text → Args
script_args type player_id board_id amount req_id idem_key = record {
  zset = leaderboard_key board_id;
  stream = ledger_key;
  idempotency = idempotency_hash_key;
  profile = player_profile_key player_id;
  board = board_profile_key board_id;
  op_type = type_text type;
  player_id = player_id;
  amount = format_int amount;
  req_id = req_id;
  board_id = board_id;
  idem_key = idem_key;
  max_abs = format_int max_score;
}

-- The switch on the script's code.
unfoldable pub result_of_code : ℤ → Result StorageError (Unit {0})
result_of_code code =
    if eqb_ℤ code code_applied || eqb_ℤ code code_deduped
    then ok tt
    else if eqb_ℤ code code_player_not_found
    then err StorageError.not_found
    else if eqb_ℤ code code_board_not_found
    then err StorageError.board_not_found
    else if eqb_ℤ code code_board_closed
    then err StorageError.board_closed
    else if eqb_ℤ code code_conflict
    then err StorageError.idempotency_conflict
    else if eqb_ℤ code code_out_of_range
    then err StorageError.score_out_of_range
    else err StorageError.other

module _ (P : Platform) where
  unfoldable pub apply_event : EventType → Text → Text → ℤ → Text → Text → Store P (Unit {0})
  apply_event type player_id board_id amount req_id idem_key = do
    r ← call (apply_score_event P (script_args type player_id board_id amount req_id idem_key))
    lift (result_of_code r.0)

  unfoldable pub set_score : Text → Text → ℤ → Text → Text → Store P (Unit {0})
  unfolding apply_event
  set_score player_id board_id score req_id idem_key =
      apply_event EventType.set player_id board_id score req_id idem_key

  unfoldable pub increment_score : Text → Text → ℤ → Text → Text → Store P (Unit {0})
  unfolding apply_event
  increment_score player_id board_id amount req_id idem_key =
      apply_event EventType.increment player_id board_id amount req_id idem_key
