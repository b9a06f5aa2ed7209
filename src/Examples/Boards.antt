-- ===== src/Examples/Boards.antt =====
-- The theorems on boards and players at concrete inputs.
use apex_leaderboard.Prelude.{List, All, [], ◌∷◌, ◌++◌, ◌≡◌, refl, arith, inl, inr}
use apex_leaderboard.Prelude.Int.{pos}
use apex_leaderboard.Prelude.Text.{Text, codes, text_eq}
use apex_leaderboard.Prelude.Exec.{ok, err}
use apex_leaderboard.Platform.Demo.{demo, demo_laws}
use apex_leaderboard.Platform.Laws.{lookup}
use apex_leaderboard.Storage.Client.{StorageError}
use apex_leaderboard.Storage.Keys.{player_profile_key, board_profile_key, board_index_key}
use apex_leaderboard.Storage.Replay.Outcome.{calm}
use apex_leaderboard.Board.{Board, valid_state}
use apex_leaderboard.Storage.Boards.{
  create_board, create_board_script, boards_from_fields, get_board, set_board_state,
}
use apex_leaderboard.Storage.Boards.RoundTrip.{get-create, create_taken, get-set_state}
use apex_leaderboard.Decimal.{format_int, parse_int}
use apex_leaderboard.Player.{Profile}
use apex_leaderboard.Storage.Boards.Listing.{HasGoodTime, boards_from_fields-bad_time}
use apex_leaderboard.Examples.Data.{chess, seeded}

abbrev go_board : Board
go_board = record {
  board_id = codes "igo";
  board_name = codes "Go";
  state = codes "active";
  created_at = pos 7_000_005;
}

get-create_example :
    ((create_board demo go_board (calm seeded)).0 ≡ ok tt)
    × (get_board demo (codes "igo") (create_board demo go_board (calm seeded)).1 ≡ (
      ok (record go_board { created_at = pos 7_000_000 }),
      (create_board demo go_board (calm seeded)).1,
    ))
unfolding text_eq player_profile_key board_profile_key board_index_key valid_state
get-create_example = get-create demo demo_laws go_board seeded refl refl (inl refl) (ground arith)

create_taken_example :
    create_board demo (record go_board { board_id = chess }) (calm seeded)
    ≡ (err StorageError.board_exists, calm seeded)
unfolding text_eq player_profile_key board_profile_key valid_state
create_taken_example =
    create_taken demo demo_laws (record go_board { board_id = chess }) seeded refl
      (λ e. ground arith)

get-set_state_example :
    let w = (create_board demo go_board (calm seeded)).1 in
    ((set_board_state demo (codes "igo") (codes "closed") w).0 ≡ ok tt)
    × ((get_board demo (codes "igo") (set_board_state demo (codes "igo") (codes "closed") w).1).0
        ≡ ok (record go_board { created_at = pos 7_000_000; state = codes "closed" }))
unfolding text_eq player_profile_key board_profile_key board_index_key valid_state create_board
    create_board_script parse_int format_int
get-set_state_example =
    get-set_state demo demo_laws (record go_board { created_at = pos 7_000_000 })
      (create_board demo go_board (calm seeded)).1.server (codes "closed") refl refl
      (record {
        name = refl;
        created_text = 7_000_000 ∷ [];
        created = refl;
        created_at = refl;
        state = refl;
      })

-- A registered board without a hash, one whose state is missing, and a good one.
abbrev good_fields : List (Text × Text)
good_fields =
    (codes "board_name", codes "Go")
    ∷ (codes "created_at", 5 ∷ [])
    ∷ (codes "board_state", codes "active")
    ∷ []

abbrev hashes : List (Text × List (Text × Text))
hashes =
    (chess, [])
    ∷ (codes "shogi", (codes "board_name", codes "Shogi") ∷ [])
    ∷ (codes "igo", good_fields)
    ∷ []

hashes-HasGoodTime : All (HasGoodTime demo) hashes
unfolding lookup text_eq
hashes-HasGoodTime = (inl refl, (inl refl, (inr (5 ∷ [], pos 5, refl, refl), tt)))

boards_from_fields-bad_time_example :
    boards_from_fields demo (
      hashes
      ++ (codes "hex", (codes "board_name", codes "Hex") ∷ (codes "created_at", []) ∷ []) ∷ [])
    ≡ err StorageError.storage
unfolding lookup text_eq
boards_from_fields-bad_time_example =
    boards_from_fields-bad_time demo hashes [] (codes "hex") (codes "Hex") []
      ((codes "board_name", codes "Hex") ∷ (codes "created_at", []) ∷ []) hashes-HasGoodTime refl
      refl refl

abbrev bob : Profile
bob = record { player_id = codes "bob-0001"; player_name = codes "Bob"; created_at = pos 6 }
