-- ===== src/Handlers/Feeds.antt =====
-- handlers/event_handler.go and handlers/activity_handler.go.
use apex_leaderboard.Prelude.{
  List, [], ◌∷◌, Option, none, some, Bool, true, false, ◌||◌, if◌then◌else◌, map,
}
use apex_leaderboard.Prelude.Int.{ℤ, pos}
use apex_leaderboard.Prelude.Text.{Text, text_eq, cut}
use apex_leaderboard.Prelude.Exec.{fail, pure, lift, ◌>>=◌, ◌>>◌}
use apex_leaderboard.Platform.{Platform}
use apex_leaderboard.Decimal.{parse_uint}
use apex_leaderboard.Ledger.{Event, type_text}
use apex_leaderboard.Storage.Events.{ActivityEntry, list_events_after, list_daily_activity}
use apex_leaderboard.Handlers.Common.{
  bad_request, HttpLib, Handler, parse_date_query, or_bad_request, from_storage,
}

pub record ScoreEvent : Type 0 where
  pub event_id : Text
  pub type : Text
  pub player_id : Text
  pub board_id : Text
  pub amount : ℤ
  pub request_id : Text
  pub created_at : Text

pub record ListEventsResp : Type 0 where
  pub events : List ScoreEvent
  pub limit : ℤ
  pub next_after : Text

pub record ListDailyActivityResp : Type 0 where
  pub date : Text
  pub entries : List ActivityEntry
  pub limit : ℤ

-- `validateEventID(id) == nil`
unfoldable pub valid_event_id : Text → Bool
valid_event_id id = elim (cut b'-' id) [
  | none ↦ false
  | some (ms, seq) ↦ if text_eq ms [] || text_eq seq [] then false else elim (parse_uint ms) [
    | none ↦ false
    | some m ↦ elim (parse_uint seq) [ none ↦ false | some n ↦ true ]
  ]
]

-- The id of the last event of a page, or the cursor itself.
unfoldable pub next_after : Text → List Event → Text
next_after after [] = after
next_after after (e ∷ es) = next_after e.id es

module _ (P : Platform) where
  unfoldable pub score_event_from_ledger : Event → ScoreEvent
  score_event_from_ledger e = record {
    event_id = e.id;
    type = type_text e.type;
    player_id = e.player_id;
    board_id = e.board_id;
    amount = e.amount;
    request_id = e.request_id;
    created_at = P.format_time e.created_at;
  }

module _ (P : Platform) (H : HttpLib) where
  -- An absent parameter reads as the empty text.
  unfoldable pub handle_list_events : Text → Option Text → Handler P ListEventsResp
  handle_list_events after limit_raw =
      if text_eq after []
      then fail bad_request
      else if valid_event_id after
      then (do
        limit ← lift (or_bad_request (H.parse_int_query limit_raw (pos 50) (pos 1) (pos 100)))
        events ← from_storage (list_events_after P after limit)
        pure (record {
          events = map (score_event_from_ledger P) events;
          limit = limit;
          next_after = next_after after events;
        }))
      else fail bad_request

  unfoldable pub handle_list_daily_activity : Text → Option Text → Handler P ListDailyActivityResp
  handle_list_daily_activity date limit_raw = if text_eq date [] then fail bad_request else (do
    lift (parse_date_query P (some date))
    limit ← lift (or_bad_request (H.parse_int_query limit_raw (pos 10) (pos 1) (pos 100)))
    entries ← from_storage (list_daily_activity P date limit)
    pure (record { date = date; entries = entries; limit = limit }))
