-- ===== src/Board.antt =====
-- board/board.go: a board, its state, and the checks of a new one. The text rules of ids and names
-- are the validation library's.
use apex_leaderboard.Prelude.{[], Bool, Option, none, some, ◌||◌, if◌then◌else◌}
use apex_leaderboard.Prelude.Int.{ℤ}
use apex_leaderboard.Prelude.Text.{Text, codes, text_eq}
use apex_leaderboard.Platform.{Platform}

abbrev pub board_active : Text
board_active = codes "active"

abbrev pub board_closed : Text
board_closed = codes "closed"

-- A time is the nanoseconds since 1970.
pub record Board : Type 0 where
  pub board_id : Text
  pub board_name : Text
  pub state : Text
  pub created_at : ℤ

-- `BoardState.Validate() == nil`
unfoldable pub valid_state : Text → Bool
valid_state state = text_eq state board_active || text_eq state board_closed

-- An empty state means active.
abbrev pub default_state : Text → Text
default_state state = if text_eq state [] then board_active else state

-- `NewBoard` at the time `now`; `none` is any of its errors.
unfoldable pub new_board : (P : Platform) → Text → Text → Text → ℤ → Option Board
unfolding valid_state
new_board P board_id board_name state now =
    if P.board_id_valid board_id
    then (if P.board_name_valid (P.trim_spaces board_name)
        then (if valid_state (default_state state)
            then some (record {
              board_id = board_id;
              board_name = P.trim_spaces board_name;
              state = default_state state;
              created_at = now;
            })
            else none)
        else none)
    else none
