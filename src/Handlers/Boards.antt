-- ===== src/Handlers/Boards.antt =====
-- handlers/board_handler.go.
use apex_leaderboard.Prelude.{List, map, ◌++◌}
use apex_leaderboard.Prelude.Int.{ℤ}
use apex_leaderboard.Prelude.Text.{Text, codes}
use apex_leaderboard.Prelude.Exec.{Result, pure, lift, ◌>>=◌, ◌>>◌}
use apex_leaderboard.Platform.{Platform}
use apex_leaderboard.Board.{Board, board_active, board_closed, new_board}
use apex_leaderboard.Storage.Boards.{create_board, set_board_state, get_board, list_boards}
use apex_leaderboard.Handlers.Common.{
  BodyError, Handler, board_id_from_path, or_bad_request, read_json, from_storage,
}

-- The data of a request to create a board; an absent status is empty.
pub record CreateBoardReq : Type 0 where
  pub board_name : Text
  pub state : Text

pub record BoardResp : Type 0 where
  pub board_id : Text
  pub board_name : Text
  pub status : Text
  pub created_at : Text

module _ (P : Platform) where
  unfoldable pub board_to_resp : Board → BoardResp
  board_to_resp b = record {
    board_id = b.board_id;
    board_name = b.board_name;
    status = b.state;
    created_at = P.format_time b.created_at;
  }

  -- 201 with the Location header
  unfoldable pub handle_create_board : Text → Result BodyError CreateBoardReq → ℤ → Handler P Text
  handle_create_board board_path body now = do
    board_id ← lift (board_id_from_path P board_path)
    req ← lift (read_json body)
    board ← lift (or_bad_request (new_board P board_id req.board_name req.state now))
    from_storage (create_board P board)
    pure (codes "/api/v1/boards/" ++ board_id)

  unfoldable pub handle_get_board : Text → Handler P BoardResp
  handle_get_board board_path = do
    board_id ← lift (board_id_from_path P board_path)
    b ← from_storage (get_board P board_id)
    pure (board_to_resp b)

  unfoldable pub handle_list_boards : Handler P (List BoardResp)
  handle_list_boards = do boards ← from_storage (list_boards P); pure (map board_to_resp boards)

  unfoldable pub handle_set_state : Text → Text → Handler P (Unit {0})
  handle_set_state state board_path = do
    board_id ← lift (board_id_from_path P board_path)
    from_storage (set_board_state P board_id state)

  unfoldable pub handle_close_board : Text → Handler P (Unit {0})
  unfolding handle_set_state
  handle_close_board = handle_set_state board_closed

  unfoldable pub handle_open_board : Text → Handler P (Unit {0})
  unfolding handle_set_state
  handle_open_board = handle_set_state board_active
