-- ===== src/Storage/Replay/Background.antt =====
-- Verification and the views of the consumers leave a consistent server consistent, and so do reads.
use apex_leaderboard.Prelude.{List}
use apex_leaderboard.Prelude.Text.{Text}
use apex_leaderboard.Prelude.Exec.{Stable-bind, Stable-for_each, stable_rules}
use apex_leaderboard.Platform.{Platform, zset_key}
use apex_leaderboard.Redis.{Server, update, del}
use apex_leaderboard.Ledger.{Event, EventType}
use apex_leaderboard.Storage.Client.{Store, call}
use apex_leaderboard.Storage.Keeps.{Respects, call-Respects, query-Keeps, exists_key-Keeps}
use apex_leaderboard.Storage.Keys.Sides.{IsOutside, board_verify_key-IsOutside}
use apex_leaderboard.Storage.Replay.{IsConsistent}
use apex_leaderboard.Storage.Replay.Frame.{update_outside, del-Keeps}
use apex_leaderboard.Storage.Admin.{
  require_board, read_board_events, fold_event, fold_into, diff_board, finally_del,
  verify_projection,
}

module _ (P : Platform) where
  abbrev I : Server P → Type 0
  I = IsConsistent P

  require_board-Respects : (b : Text) → Respects P I (require_board P b)
  unfolding require_board
  require_board-Respects b = search (stable_rules, call-Respects P I, exists_key-Keeps P I) depth 12

  read_board_events-Respects : (b : Text) → Respects P I (read_board_events P b)
  unfolding read_board_events
  read_board_events-Respects b = search (stable_rules, call-Respects P I, query-Keeps P I) depth 12

  fold_event-Respects : (k : Text) → IsOutside k → (e : Event) → Respects P I (fold_event P k e)
  unfolding fold_event
  fold_event-Respects k out e = go e.type
    where
      go :
          (t : EventType)
          → Respects P I (elim t as (λ _. Store P (Unit {0})) [
            | EventType.set ↦ call (update P zset_key k (P.zadd (P.of_int e.amount) e.player_id))
            | EventType.increment ↦
                call (update P zset_key k (P.zincrby (P.of_int e.amount) e.player_id))
          ])
      go EventType.set =
          call-Respects P I _
            (update_outside P k out zset_key (P.zadd (P.of_int e.amount) e.player_id))
      go EventType.increment =
          call-Respects P I _
            (update_outside P k out zset_key (P.zincrby (P.of_int e.amount) e.player_id))

  fold_into-Respects : (es : List Event) (k : Text) → IsOutside k → Respects P I (fold_into P es k)
  unfolding fold_into
  fold_into-Respects es k out =
      Stable-bind _ _ (call-Respects P I (del P k) (del-Keeps P k out))
        λ _. Stable-for_each (fold_event P k) es (fold_event-Respects k out)

  diff_board-Respects : (b : Text) → Respects P I (diff_board P b)
  unfolding diff_board
  diff_board-Respects b = search (stable_rules, call-Respects P I, query-Keeps P I) depth 12

  finally_del-Respects :
      {A : Type 0} (k : Text) (m : Store P A)
      → IsOutside k
      → Respects P I m
      → Respects P I (finally_del P k m)
  finally_del-Respects k m out h = record {
    keeps = λ w i. (call-Respects P I (del P k) (del-Keeps P k out)).keeps (m w).1 (h.keeps w i);
  }

  pub verify_projection-Respects : (b : Text) → Respects P I (verify_projection P b)
  unfolding verify_projection
  verify_projection-Respects b =
      search
        (
          stable_rules, require_board-Respects, read_board_events-Respects, fold_into-Respects,
          finally_del-Respects, diff_board-Respects, board_verify_key-IsOutside,
        )
        depth 14
