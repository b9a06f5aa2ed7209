-- ===== src/Storage/Keys.antt =====
-- storage/keys.go: the Redis keys.
pub mod Distinct
pub mod Sides
use apex_leaderboard.Prelude.{◌++◌, ◌∷◌}
use apex_leaderboard.Prelude.Text.{Text, codes}

abbrev key_prefix : Text
key_prefix = codes "app:"

abbrev player_ns : Text
player_ns = key_prefix ++ codes "player:"

abbrev board_ns : Text
board_ns = key_prefix ++ codes "board:"

abbrev view_ns : Text
view_ns = key_prefix ++ codes "view:"

abbrev admin_ns : Text
admin_ns = key_prefix ++ codes "admin:"

abbrev ledger_ns : Text
ledger_ns = key_prefix ++ codes "ledger:"

abbrev consumer_ns : Text
consumer_ns = key_prefix ++ codes "consumer:"

unfoldable pub board_index_key : Text
board_index_key = board_ns ++ codes "index"

unfoldable pub ledger_key : Text
ledger_key = ledger_ns ++ codes "events"

unfoldable pub idempotency_hash_key : Text
idempotency_hash_key = ledger_ns ++ codes "idempotency"

unfoldable pub player_idempotency_hash_key : Text
player_idempotency_hash_key = player_ns ++ codes "idempotency"

abbrev player_history_ns : Text
player_history_ns = view_ns ++ codes "player:history:"

unfoldable pub player_profile_key : Text → Text
player_profile_key id = player_ns ++ codes "profile:" ++ id

unfoldable pub board_profile_key : Text → Text
board_profile_key id = board_ns ++ codes "profile:" ++ id

unfoldable pub leaderboard_key : Text → Text
leaderboard_key id = view_ns ++ codes "leaderboard:" ++ id

unfoldable pub board_verify_key : Text → Text
board_verify_key id = admin_ns ++ codes "temp:verify:" ++ id

unfoldable pub player_history_key : Text → Text → Text
player_history_key player_id board_id = player_history_ns ++ (player_id ++ (codes ":" ++ board_id))

unfoldable pub activity_daily_key : Text → Text
activity_daily_key date = view_ns ++ codes "activity:daily:" ++ date

unfoldable pub consumer_cursor_key : Text → Text
consumer_cursor_key name = consumer_ns ++ (name ++ codes ":cursor")
