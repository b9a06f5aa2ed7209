-- ===== src/Storage/Replay/Operations.antt =====
-- Every operation of the storage but the rebuild leaves a consistent server consistent.
use apex_leaderboard.Prelude.Exec.{pure, Stable-bind, Stable-pure}
use apex_leaderboard.Platform.{Platform}
use apex_leaderboard.Platform.Laws.{PlatformLaws}
use apex_leaderboard.Redis.{Server}
use apex_leaderboard.Ledger.{EventType}
use apex_leaderboard.Storage.Client.{Store}
use apex_leaderboard.Storage.Keeps.{Respects, call-Respects}
use apex_leaderboard.Storage.Entry.Decode.{IsWritable}
use apex_leaderboard.Storage.Apply.{set_score, increment_score}
use apex_leaderboard.Storage.Interface.{Operation, perform, send_ping, void}
use apex_leaderboard.Storage.Replay.{IsConsistent}
use apex_leaderboard.Storage.Replay.Apply.{apply_event-Respects}
use apex_leaderboard.Storage.Replay.Others.{
  create_board-Respects, set_board_state-Respects, create_player_profile-Respects,
}
use apex_leaderboard.Storage.Replay.Background.{verify_projection-Respects}
use apex_leaderboard.Storage.Replay.Reads.{
  get_player_profile-Respects, get_board-Respects, list_boards-Respects, get_standing-Respects,
  list_standings-Respects, list_standings_as_of-Respects, player_history-Respects,
  list_events_after-Respects, list_daily_activity-Respects,
}

-- What the callers see to: a write is one the script can record, and no projection is rebuilt.
unfoldable pub IsAdmissible : Platform → Operation → Type 0
IsAdmissible P (Operation.increment_score p b n req key) = IsWritable P p b n req
IsAdmissible P (Operation.set_score p b n req key) = IsWritable P p b n req
IsAdmissible P (Operation.rebuild_projection b) = ⊥
IsAdmissible P op = Unit

module _ (P : Platform) (L : PlatformLaws P) where
  abbrev I : Server P → Type 0
  I = IsConsistent P

  void-Respects : {A : Type 0} (m : Store P A) → Respects P I m → Respects P I (void P m)
  void-Respects m h = Stable-bind m (λ _. pure tt) h λ _. Stable-pure tt

  pub perform-Respects : (op : Operation) → IsAdmissible P op → Respects P I (perform P op)
  unfolding perform IsAdmissible set_score increment_score send_ping
  perform-Respects (Operation.create_player_profile profile key) h =
      void-Respects _ (create_player_profile-Respects P L profile key)
  perform-Respects (Operation.get_player_profile p) h =
      void-Respects _ (get_player_profile-Respects P I p)
  perform-Respects (Operation.create_board b) h = create_board-Respects P L b
  perform-Respects (Operation.get_board b) h = void-Respects _ (get_board-Respects P I b)
  perform-Respects (Operation.set_board_state b state) h = set_board_state-Respects P L b state
  perform-Respects Operation.list_boards h = void-Respects _ (list_boards-Respects P I)
  perform-Respects (Operation.increment_score p b n req key) h =
      apply_event-Respects P L EventType.increment p b n req key h
  perform-Respects (Operation.set_score p b n req key) h =
      apply_event-Respects P L EventType.set p b n req key h
  perform-Respects (Operation.get_standing p b) h = void-Respects _ (get_standing-Respects P I p b)
  perform-Respects (Operation.list_standings b limit offset) h =
      void-Respects _ (list_standings-Respects P I b limit offset)
  perform-Respects (Operation.list_standings_as_of b before limit offset) h =
      void-Respects _ (list_standings_as_of-Respects P I b before limit offset)
  perform-Respects (Operation.player_history p b limit) h =
      void-Respects _ (player_history-Respects P I p b limit)
  perform-Respects (Operation.rebuild_projection b) h = absurd h
  perform-Respects (Operation.verify_projection b) h =
      void-Respects _ (verify_projection-Respects P b)
  perform-Respects (Operation.list_events_after after limit) h =
      void-Respects _ (list_events_after-Respects P I after limit)
  perform-Respects (Operation.list_daily_activity date limit) h =
      void-Respects _ (list_daily_activity-Respects P I date limit)
  perform-Respects Operation.ping h = call-Respects P I _ (record { keeps = λ s k. k })
