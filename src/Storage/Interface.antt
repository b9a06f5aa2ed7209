-- ===== src/Storage/Interface.antt =====
-- storage/interface.go: what the rest of the program may ask of the storage, as one type, and Ping
-- of storage/storage.go.
use apex_leaderboard.Prelude.Int.{ℤ}
use apex_leaderboard.Prelude.Text.{Text}
use apex_leaderboard.Prelude.Exec.{ok, pure, ◌>>◌}
use apex_leaderboard.Platform.{Platform}
use apex_leaderboard.Player.{Profile}
use apex_leaderboard.Board.{Board}
use apex_leaderboard.Storage.Client.{Store, call}
use apex_leaderboard.Storage.Apply
use apex_leaderboard.Storage.Profiles
use apex_leaderboard.Storage.Boards
use apex_leaderboard.Storage.Standings
use apex_leaderboard.Storage.AsOf
use apex_leaderboard.Storage.Admin
use apex_leaderboard.Storage.Events

-- PlayerRepo, BoardRepo, ScoreRepo, ProjectionAdmin, EventRepo, ActivityRepo and Ping
pub data Operation : Type 0 where
  create_player_profile : Profile → Text → Operation
  get_player_profile : Text → Operation
  create_board : Board → Operation
  get_board : Text → Operation
  set_board_state : Text → Text → Operation
  list_boards : Operation
  increment_score set_score : Text → Text → ℤ → Text → Text → Operation
  get_standing : Text → Text → Operation
  list_standings : Text → ℤ → ℤ → Operation
  list_standings_as_of : Text → ℤ → ℤ → ℤ → Operation
  player_history : Text → Text → ℤ → Operation
  rebuild_projection verify_projection : Text → Operation
  list_events_after : Text → ℤ → Operation
  list_daily_activity : Text → ℤ → Operation
  ping : Operation

module _ (P : Platform) where
  unfoldable pub send_ping : Store P (Unit {0})
  send_ping = call (λ s. (ok tt, s))

  abbrev pub void : {A : Type 0} → Store P A → Store P (Unit {0})
  void m = do m; pure tt

  -- The operation, its answer left aside.
  unfoldable pub perform : Operation → Store P (Unit {0})
  perform (create_player_profile profile key) = void (Profiles.create_player_profile P profile key)
  perform (get_player_profile p) = void (Profiles.get_player_profile P p)
  perform (create_board b) = Boards.create_board P b
  perform (get_board b) = void (Boards.get_board P b)
  perform (set_board_state b state) = Boards.set_board_state P b state
  perform list_boards = void (Boards.list_boards P)
  perform (increment_score p b n req key) = Apply.increment_score P p b n req key
  perform (set_score p b n req key) = Apply.set_score P p b n req key
  perform (get_standing p b) = void (Standings.get_standing P p b)
  perform (list_standings b limit offset) = void (Standings.list_standings P b limit offset)
  perform (list_standings_as_of b before limit offset) =
      void (AsOf.list_standings_as_of P b before limit offset)
  perform (player_history p b limit) = void (Standings.player_history P p b limit)
  perform (rebuild_projection b) = Admin.rebuild_projection P b
  perform (verify_projection b) = void (Admin.verify_projection P b)
  perform (list_events_after after limit) = void (Events.list_events_after P after limit)
  perform (list_daily_activity date limit) = void (Events.list_daily_activity P date limit)
  perform ping = send_ping
