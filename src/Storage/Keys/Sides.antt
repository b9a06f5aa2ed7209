-- ===== src/Storage/Keys/Sides.antt =====
-- The keys that the operations other than a score write use.
use apex_leaderboard.Prelude.{◌≡◌, refl, false}
use apex_leaderboard.Prelude.Text.{Text, text_eq}
use apex_leaderboard.Storage.Keys.{
  leaderboard_key, ledger_key, idempotency_hash_key, board_profile_key, board_index_key,
  player_profile_key, player_idempotency_hash_key, board_verify_key, player_history_key,
  activity_daily_key, consumer_cursor_key,
}

-- Keys that hold no score and no event.
pub record IsSide (k : Text) : Type 0 where
  pub leaderboards : (b : Text) → text_eq k (leaderboard_key b) ≡ false
  pub ledger : text_eq k ledger_key ≡ false

-- Keys that a score write never names.
pub record IsOutside (k : Text) : Type 0 where
  pub side : IsSide k
  pub idempotency : text_eq k idempotency_hash_key ≡ false
  pub boards : (b : Text) → text_eq k (board_profile_key b) ≡ false

pub board_profile_key-IsSide : (id : Text) → IsSide (board_profile_key id)
unfolding text_eq board_profile_key leaderboard_key ledger_key
board_profile_key-IsSide id = record { leaderboards = λ b. refl; ledger = refl }

pub player_profile_key-IsOutside : (p : Text) → IsOutside (player_profile_key p)
unfolding text_eq player_profile_key leaderboard_key ledger_key idempotency_hash_key
    board_profile_key
player_profile_key-IsOutside p = record {
  side = record { leaderboards = λ _. refl; ledger = refl };
  idempotency = refl;
  boards = λ _. refl;
}

pub player_idempotency_hash_key-IsOutside : IsOutside player_idempotency_hash_key
unfolding text_eq player_idempotency_hash_key leaderboard_key ledger_key idempotency_hash_key
    board_profile_key
player_idempotency_hash_key-IsOutside = record {
  side = record { leaderboards = λ _. refl; ledger = refl };
  idempotency = refl;
  boards = λ _. refl;
}

pub board_index_key-IsOutside : IsOutside board_index_key
unfolding text_eq board_index_key leaderboard_key ledger_key idempotency_hash_key board_profile_key
board_index_key-IsOutside = record {
  side = record { leaderboards = λ _. refl; ledger = refl };
  idempotency = refl;
  boards = λ _. refl;
}

pub board_verify_key-IsOutside : (b : Text) → IsOutside (board_verify_key b)
unfolding text_eq board_verify_key leaderboard_key ledger_key idempotency_hash_key board_profile_key
board_verify_key-IsOutside b = record {
  side = record { leaderboards = λ _. refl; ledger = refl };
  idempotency = refl;
  boards = λ _. refl;
}

pub player_history_key-IsOutside : (p b : Text) → IsOutside (player_history_key p b)
unfolding text_eq player_history_key leaderboard_key ledger_key idempotency_hash_key
    board_profile_key
player_history_key-IsOutside p b = record {
  side = record { leaderboards = λ _. refl; ledger = refl };
  idempotency = refl;
  boards = λ _. refl;
}

pub activity_daily_key-IsOutside : (d : Text) → IsOutside (activity_daily_key d)
unfolding text_eq activity_daily_key leaderboard_key ledger_key idempotency_hash_key
    board_profile_key
activity_daily_key-IsOutside d = record {
  side = record { leaderboards = λ _. refl; ledger = refl };
  idempotency = refl;
  boards = λ _. refl;
}

pub consumer_cursor_key-IsOutside : (n : Text) → IsOutside (consumer_cursor_key n)
unfolding text_eq consumer_cursor_key leaderboard_key ledger_key idempotency_hash_key
    board_profile_key
consumer_cursor_key-IsOutside n = record {
  side = record { leaderboards = λ _. refl; ledger = refl };
  idempotency = refl;
  boards = λ _. refl;
}
