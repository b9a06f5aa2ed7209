-- ===== src/Ledger.antt =====
-- ledger/event.go: a score event.
use apex_leaderboard.Prelude.Int.{ℤ}
use apex_leaderboard.Prelude.Text.{Text, codes}

pub data EventType : Type 0 where
  set increment : EventType

-- The text of an event type, as the ledger holds it.
abbrev pub type_text : EventType → Text
type_text EventType.set = codes "set"
type_text EventType.increment = codes "increment"

-- Times are nanoseconds since the Unix epoch.
pub record Event : Type 0 where
  pub id : Text
  pub type : EventType
  pub player_id : Text
  pub board_id : Text
  pub amount : ℤ
  pub request_id : Text
  pub created_at : ℤ
