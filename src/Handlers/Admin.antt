-- ===== src/Handlers/Admin.antt =====
-- handlers/admin_handler.go.
use apex_leaderboard.Prelude.{List}
use apex_leaderboard.Prelude.Text.{Text}
use apex_leaderboard.Prelude.Exec.{lift, ◌>>=◌}
use apex_leaderboard.Platform.{Platform}
use apex_leaderboard.Storage.Admin.{ScoreMismatch, rebuild_projection, verify_projection}
use apex_leaderboard.Handlers.Common.{Handler, board_id_from_path, from_storage}

module _ (P : Platform) where
  unfoldable pub handle_rebuild_projection : Text → Handler P (Unit {0})
  handle_rebuild_projection board_path = do
    board_id ← lift (board_id_from_path P board_path)
    from_storage (rebuild_projection P board_id)

  -- The response lists the mismatches with their fields as they are.
  unfoldable pub handle_verify_projection : Text → Handler P (List (ScoreMismatch P))
  handle_verify_projection board_path = do
    board_id ← lift (board_id_from_path P board_path)
    from_storage (verify_projection P board_id)
