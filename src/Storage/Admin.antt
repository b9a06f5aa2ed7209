-- ===== src/Storage/Admin.antt =====
-- storage/projection_admin.go: rebuilding a projection from the ledger, and checking it.
pub mod Rebuild
pub mod Repair
pub mod Verify
use apex_leaderboard.Prelude.{
  List, [], ◌∷◌, ◌++◌, Option, none, some, Bool, true, false, not, if◌then◌else◌,
}
use apex_leaderboard.Prelude.Int.{pos}
use apex_leaderboard.Prelude.Text.{Text, codes, text_eq}
use apex_leaderboard.Prelude.Exec.{Result, ok, fail, pure, lift, bind_result, for_each, ◌>>=◌, ◌>>◌}
use apex_leaderboard.Platform.{Platform, Entry, zset_key, stream_key}
use apex_leaderboard.Platform.Laws.{lookup_score}
use apex_leaderboard.Redis.{query, update, del, exists_key}
use apex_leaderboard.Ledger.{Event, EventType}
use apex_leaderboard.Storage.Client.{StorageError, Store, call}
use apex_leaderboard.Storage.Keys.{board_profile_key, ledger_key, leaderboard_key, board_verify_key}
use apex_leaderboard.Storage.Entry.{stream_entry_value, entry_to_event}

module _ (P : Platform) where
  pub record ScoreMismatch : Type 0 where
    pub board_id : Text
    pub player_id : Text
    pub live_score : P.Float
    pub live_present : Bool
    pub replay_score : P.Float
    pub replay_present : Bool

  unfoldable pub require_board : Text → Store P (Unit {0})
  require_board board_id = do
    exists ← call (exists_key P (board_profile_key board_id))
    if not exists then fail StorageError.board_not_found else pure tt

  -- One board's events of the whole ledger; entries of other boards are not decoded.
  unfoldable pub board_events : Text → List Entry → Result StorageError (List Event)
  board_events board_id [] = ok []
  board_events board_id (entry ∷ entries) =
      let rest = board_events board_id entries in
      if not (text_eq (stream_entry_value entry (codes "board_id")) board_id)
      then rest
      else bind_result (entry_to_event P entry)
          λ event. bind_result rest λ events. ok (event ∷ events)

  unfoldable pub read_board_events : Text → Store P (List Event)
  unfolding board_events
  read_board_events board_id = do
    entries ← call (query P stream_key ledger_key (P.xrange_by (codes "-") (codes "+") none))
    lift (board_events board_id entries)

  -- ZADD or ZINCRBY of one event on the destination.
  unfoldable pub fold_event : Text → Event → Store P (Unit {0})
  fold_event dest_key event = elim event.type [
    | EventType.set ↦
        call (update P zset_key dest_key (P.zadd (P.of_int event.amount) event.player_id))
    | EventType.increment ↦
        call (update P zset_key dest_key (P.zincrby (P.of_int event.amount) event.player_id))
  ]

  unfoldable pub fold_into : List Event → Text → Store P (Unit {0})
  unfolding fold_event
  fold_into events dest_key = do call (del P dest_key); for_each (fold_event dest_key) events

  unfoldable pub rebuild_projection : Text → Store P (Unit {0})
  unfolding require_board read_board_events fold_into
  rebuild_projection board_id = do
    require_board board_id
    events ← read_board_events board_id
    fold_into events (leaderboard_key board_id)

  -- A member of the live projection that the replay lacks or scores otherwise.
  unfoldable pub live_mismatches :
      Text → List (Text × P.Float) → List (Text × P.Float) → List ScoreMismatch
  live_mismatches b [] rebuilt = []
  live_mismatches b ((id, x) ∷ live) rebuilt =
      let rest = live_mismatches b live rebuilt in
      elim (lookup_score P id rebuilt) [
        | none ↦
            record {
              board_id = b;
              player_id = id;
              live_score = x;
              live_present = true;
              replay_score = P.of_int (pos 0);
              replay_present = false;
            }
            ∷ rest
        | some y ↦
            if not (P.float_eq y x)
            then record {
              board_id = b;
              player_id = id;
              live_score = x;
              live_present = true;
              replay_score = y;
              replay_present = true;
            }
              ∷ rest
            else rest
      ]

  -- A member of the replay that the live projection lacks.
  unfoldable pub replay_mismatches :
      Text → List (Text × P.Float) → List (Text × P.Float) → List ScoreMismatch
  replay_mismatches b live [] = []
  replay_mismatches b live ((id, y) ∷ rebuilt) =
      let rest = replay_mismatches b live rebuilt in
      elim (lookup_score P id live) [
        | some x ↦ rest
        | none ↦
            record {
              board_id = b;
              player_id = id;
              live_score = P.of_int (pos 0);
              live_present = false;
              replay_score = y;
              replay_present = true;
            }
            ∷ rest
      ]

  -- `zsetScores`: the members of a ZSET differ, so its list serves as the map
  unfoldable pub zset_scores : Text → Store P (List (Text × P.Float))
  zset_scores key = call (query P zset_key key P.zrange)

  unfoldable pub diff_board : Text → Store P (List ScoreMismatch)
  unfolding zset_scores live_mismatches replay_mismatches
  diff_board b = do
    live ← zset_scores (leaderboard_key b)
    rebuilt ← zset_scores (board_verify_key b)
    pure (live_mismatches b live rebuilt ++ replay_mismatches b live rebuilt)

  -- The deferred Del runs when the comparison ends, whatever its result; its error is dropped.
  abbrev pub finally_del : {A : Type 0} → Text → Store P A → Store P A
  finally_del key m w = let (r, w') = m w in (r, (call (del P key) w').1)

  unfoldable pub verify_projection : Text → Store P (List ScoreMismatch)
  unfolding require_board read_board_events fold_into diff_board
  verify_projection board_id = do
    require_board board_id
    events ← read_board_events board_id
    fold_into events (board_verify_key board_id)
    finally_del (board_verify_key board_id) (diff_board board_id)
