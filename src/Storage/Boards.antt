-- ===== src/Storage/Boards.antt =====
-- storage/board_repo.go with storage/scripts/create_board.lua and set_board_state.lua.
pub mod RoundTrip
pub mod Listing
use apex_leaderboard.Prelude.{
  List, [], ◌∷◌, Option, none, some, Bool, true, false, not, if◌then◌else◌, ◌/◌, map,
}
use apex_leaderboard.Prelude.Int.{ℤ, pos, negsuc}
use apex_leaderboard.Prelude.Text.{Text, codes}
use apex_leaderboard.Prelude.Exec.{Result, ok, err, fail, pure, lift, bind_result, ◌>>=◌, ◌>>◌}
use apex_leaderboard.Platform.{Platform, hash_key, zset_key}
use apex_leaderboard.Platform.Laws.{lookup}
use apex_leaderboard.Redis.{Script, bad_score, query, update, exists_key}
use apex_leaderboard.Decimal.{format_int}
use apex_leaderboard.Board.{Board, valid_state}
use apex_leaderboard.Storage.Client.{StorageError, Store, call, exec_pipe}
use apex_leaderboard.Storage.Keys.{board_profile_key, board_index_key}

-- `CreatedAt.Unix()`, rounded down
abbrev pub unix_seconds : ℤ → ℤ
unix_seconds (pos ns) = pos (ns / 1_000_000_000)
unix_seconds (negsuc ns) = negsuc (ns / 1_000_000_000)

abbrev field_error : Option Text → StorageError → Result StorageError Text
field_error none e = err e
field_error (some x) e = ok x

module _ (P : Platform) where
  -- ZADD with the text of a score
  unfoldable pub register : Text → Text → Text → Script P (Unit {0})
  register key score member = elim (P.score_of score) [
    | none ↦ fail bad_score
    | some x ↦ update P zset_key key (P.zadd x member)
  ]

  -- create_board.lua: whether the board was created
  unfoldable pub create_board_script :
      Text → Text → Text → Text → Text → Text → Text → Script P Bool
  unfolding register
  create_board_script board_key registry_key board_id board_name created_at created_at_unix state =
      do
        exists ← exists_key P board_key
        if exists then pure false else do
          update P hash_key board_key (λ v.
              P.hset (codes "board_state") state
                (P.hset (codes "created_at") created_at (P.hset (codes "board_name") board_name v)))
          register registry_key created_at_unix board_id
          pure true

  -- set_board_state.lua: whether the board was there
  unfoldable pub set_board_state_script : Text → Text → Script P Bool
  set_board_state_script board_key state = do
    exists ← exists_key P board_key
    if not exists
        then pure false
        else do update P hash_key board_key (P.hset (codes "board_state") state); pure true

  unfoldable pub create_board : Board → Store P (Unit {0})
  create_board b = if not (valid_state b.state) then fail StorageError.storage else do
    created ← call (
        create_board_script (board_profile_key b.board_id) board_index_key b.board_id b.board_name
          (P.format_time b.created_at) (format_int (unix_seconds b.created_at)) b.state)
    if not created then fail StorageError.board_exists else pure tt

  unfoldable pub set_board_state : Text → Text → Store P (Unit {0})
  set_board_state board_id state = if not (valid_state state) then fail StorageError.storage else do
    updated ← call (set_board_state_script (board_profile_key board_id) state)
    if not updated then fail StorageError.board_not_found else pure tt

  -- `boardFromFields`
  unfoldable pub board_from_fields : Text → List (Text × Text) → Result StorageError Board
  board_from_fields id fields =
      bind_result (field_error (lookup (codes "board_name") fields) StorageError.inconsistent)
        λ name.
          bind_result (field_error (lookup (codes "created_at") fields) StorageError.inconsistent)
            λ raw_date. elim (P.parse_time raw_date) [
              | none ↦ err StorageError.storage
              | some date ↦
                  bind_result
                    (field_error (lookup (codes "board_state") fields) StorageError.inconsistent)
                    λ raw_state.
                      if not (valid_state raw_state)
                      then err StorageError.inconsistent
                      else ok (record {
                        board_id = id;
                        board_name = name;
                        state = raw_state;
                        created_at = date;
                      })
            ]

  board_or_missing : Text → List (Text × Text) → Result StorageError Board
  board_or_missing id [] = err StorageError.board_not_found
  board_or_missing id (f ∷ fields) = board_from_fields id (f ∷ fields)

  unfoldable pub get_board : Text → Store P Board
  unfolding board_or_missing
  get_board board_id = do
    fields ← call (query P hash_key (board_profile_key board_id) P.hgetall)
    lift (board_or_missing board_id fields)

  -- The loop of ListBoards: missing and malformed hashes are skipped, any other error ends it.
  unfoldable pub boards_from_fields :
      List (Text × List (Text × Text)) → Result StorageError (List Board)
  unfolding board_from_fields
  boards_from_fields [] = ok []
  boards_from_fields ((id, []) ∷ rest) = boards_from_fields rest
  boards_from_fields ((id, f ∷ fields) ∷ rest) =
      let others = boards_from_fields rest in
      elim (board_from_fields id (f ∷ fields)) [
        | ok b ↦ bind_result others λ bs. ok (b ∷ bs)
        | err StorageError.inconsistent ↦ others
        | err e ↦ err e
      ]

  unfoldable pub list_boards : Store P (List Board)
  list_boards = do
    members ← call (query P zset_key board_index_key P.zrange)
    all ← exec_pipe (
        map
          (λ m. do fields ← query P hash_key (board_profile_key m.0) P.hgetall; pure (m.0, fields))
          members)
    lift (boards_from_fields all)
