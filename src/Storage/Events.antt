-- ===== src/Storage/Events.antt =====
-- storage/event_repo.go and storage/activity_repo.go: the global feed and the daily activity.
use apex_leaderboard.Prelude.{List, [], ◌∷◌, some, if◌then◌else◌, map}
use apex_leaderboard.Prelude.Int.{ℤ, pos, pos_part, ◌-ℤ◌, leb_ℤ}
use apex_leaderboard.Prelude.Text.{Text, codes}
use apex_leaderboard.Prelude.Exec.{pure, lift, map_result, ◌>>=◌}
use apex_leaderboard.Platform.{Platform, zset_key, stream_key}
use apex_leaderboard.Redis.{query}
use apex_leaderboard.Ledger.{Event}
use apex_leaderboard.Storage.Client.{Store, call}
use apex_leaderboard.Storage.Keys.{ledger_key, activity_daily_key}
use apex_leaderboard.Storage.Entry.{entry_to_event}

pub record ActivityEntry : Type 0 where
  pub player_id : Text
  pub count : ℤ

module _ (P : Platform) where
  unfoldable pub list_events_after : Text → ℤ → Store P (List Event)
  list_events_after after limit = if leb_ℤ limit (pos 0) then pure [] else (do
    entries ← call (
        query P stream_key ledger_key
          (P.xrange_by (b'(' ∷ after) (codes "+") (some (pos_part limit))))
    lift (map_result (entry_to_event P) entries))

  unfoldable pub list_daily_activity : Text → ℤ → Store P (List ActivityEntry)
  list_daily_activity date limit = do
    members ←
        call (query P zset_key (activity_daily_key date) (P.zrevrange (pos 0) (limit -ℤ pos 1)))
    pure (map (λ m. record { player_id = m.0; count = P.to_int m.1 }) members)
