-- ===== src/Storage/Replay/Reads.antt =====
-- The reads of the repository leave a consistent server consistent: none of them writes.
use apex_leaderboard.Prelude.{List, [], ◌∷◌, All, map}
use apex_leaderboard.Prelude.Int.{ℤ}
use apex_leaderboard.Prelude.Text.{Text}
use apex_leaderboard.Prelude.Exec.{stable_rules}
use apex_leaderboard.Platform.{Platform}
use apex_leaderboard.Redis.{Server, Script}
use apex_leaderboard.Storage.Keeps.{Keeps, Respects, call-Respects, exec_pipe-Respects, query-Keeps}
use apex_leaderboard.Storage.Profiles.{get_player_profile}
use apex_leaderboard.Storage.Boards.{get_board, list_boards}
use apex_leaderboard.Storage.Standings.{get_standing, list_standings, player_history}
use apex_leaderboard.Storage.AsOf.{list_standings_as_of}
use apex_leaderboard.Storage.Events.{list_events_after, list_daily_activity}

-- Whatever the invariant, since a read changes no key.
module _ (P : Platform) (I : Server P → Type 0) where
  map-Keeps :
      {A B : Type 0} (f : A → Script P B)
      → ((a : A) → Keeps P I (f a))
      → (xs : List A) → All (λ m. Keeps P I m) (map f xs)
  map-Keeps f k [] = tt
  map-Keeps f k (x ∷ xs) = (k x, map-Keeps f k xs)

  pub get_player_profile-Respects : (id : Text) → Respects P I (get_player_profile P id)
  unfolding get_player_profile
  get_player_profile-Respects id =
      search (stable_rules, call-Respects P I, query-Keeps P I) depth 12

  pub get_board-Respects : (id : Text) → Respects P I (get_board P id)
  unfolding get_board
  get_board-Respects id = search (stable_rules, call-Respects P I, query-Keeps P I) depth 12

  pub list_boards-Respects : Respects P I (list_boards P)
  unfolding list_boards
  list_boards-Respects =
      search (stable_rules, call-Respects P I, exec_pipe-Respects P I, map-Keeps, query-Keeps P I)
        depth 14

  pub get_standing-Respects : (p b : Text) → Respects P I (get_standing P p b)
  unfolding get_standing
  get_standing-Respects p b = search (stable_rules, call-Respects P I, query-Keeps P I) depth 14

  pub list_standings-Respects :
      (b : Text) (limit offset : ℤ) → Respects P I (list_standings P b limit offset)
  unfolding list_standings
  list_standings-Respects b limit offset =
      search (stable_rules, call-Respects P I, query-Keeps P I) depth 14

  pub list_standings_as_of-Respects :
      (b : Text) (before limit offset : ℤ)
      → Respects P I (list_standings_as_of P b before limit offset)
  unfolding list_standings_as_of
  list_standings_as_of-Respects b before limit offset =
      search (stable_rules, call-Respects P I, query-Keeps P I) depth 14

  pub player_history-Respects : (p b : Text) (limit : ℤ) → Respects P I (player_history P p b limit)
  unfolding player_history
  player_history-Respects p b limit =
      search (stable_rules, call-Respects P I, exec_pipe-Respects P I, map-Keeps, query-Keeps P I)
        depth 14

  pub list_events_after-Respects :
      (after : Text) (limit : ℤ) → Respects P I (list_events_after P after limit)
  unfolding list_events_after
  list_events_after-Respects after limit =
      search (stable_rules, call-Respects P I, query-Keeps P I) depth 12

  pub list_daily_activity-Respects :
      (date : Text) (limit : ℤ) → Respects P I (list_daily_activity P date limit)
  unfolding list_daily_activity
  list_daily_activity-Respects date limit =
      search (stable_rules, call-Respects P I, query-Keeps P I) depth 12
