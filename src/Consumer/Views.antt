-- ===== src/Consumer/Views.antt =====
-- consumer/daily_activity.go and consumer/player_history.go: the two consumers that main.go starts.
use apex_leaderboard.Prelude.{ℕ, ◌*◌}
use apex_leaderboard.Prelude.Text.{Text, codes}
use apex_leaderboard.Platform.{Platform}
use apex_leaderboard.Storage.Client.{World, StorageError}
use apex_leaderboard.Storage.Views.{
  load_cursor, save_cursor, read_ledger_batch, apply_daily_counts, apply_player_history,
}
use apex_leaderboard.Consumer.{ConsumerStore, Consumer, default_block_duration}

abbrev pub daily_activity_id : Text
daily_activity_id = codes "daily_activity"

abbrev pub player_history_id : Text
player_history_id = codes "player_history"

-- dailyTTL, in seconds
abbrev pub daily_ttl : ℕ
daily_ttl = 30 * 24 * 3600

module _ (P : Platform) where
  abbrev pub ledger_consumer : ConsumerStore (World P) StorageError
  ledger_consumer = record {
    load_cursor = load_cursor P;
    save_cursor = save_cursor P;
    read_ledger_batch = read_ledger_batch P;
  }

  abbrev pub new_daily_activity_consumer : Consumer (World P) StorageError
  new_daily_activity_consumer = record {
    id = daily_activity_id;
    store = ledger_consumer;
    apply = λ events. apply_daily_counts P events daily_ttl;
    block_duration = default_block_duration;
  }

  abbrev pub new_player_history_consumer : Consumer (World P) StorageError
  new_player_history_consumer = record {
    id = player_history_id;
    store = ledger_consumer;
    apply = apply_player_history P;
    block_duration = default_block_duration;
  }
