-- ===== src/Storage/Entry.antt =====
-- storage/storage.go: ledger entries read as events, and scores read as int64.
pub mod Decode
pub mod Reads
use apex_leaderboard.Prelude.{
  List, [], ◌∷◌, Option, none, some, Bool, true, false, not, ◌&&◌, ◌||◌, if◌then◌else◌, ◌^◌,
}
use apex_leaderboard.Prelude.Int.{ℤ, pos, negsuc, neg_ℤ}
use apex_leaderboard.Prelude.Text.{Text, codes, text_eq}
use apex_leaderboard.Prelude.Exec.{Result, ok, err, bind_result}
use apex_leaderboard.Platform.{Platform, Entry}
use apex_leaderboard.Platform.Laws.{lookup}
use apex_leaderboard.Score.{validate}
use apex_leaderboard.Ledger.{EventType, set, increment, type_text, Event}
use apex_leaderboard.ApexTime.{format_stream_id, event_time}
use apex_leaderboard.Storage.Client.{StorageError, inconsistent}

-- `getStreamEntryValue`: "" for an absent field
unfoldable pub stream_entry_value : Entry → Text → Text
unfolding lookup
stream_entry_value entry key = elim (lookup key entry.values) [ none ↦ [] | some v ↦ v ]

-- the closure `required`
unfoldable pub required : Entry → Text → Result StorageError Text
unfolding stream_entry_value
required entry field =
    let value = stream_entry_value entry field in
    if text_eq value [] then err inconsistent else ok value

-- The two constants that an event type is compared with.
unfoldable pub event_type : Text → Result StorageError EventType
event_type raw =
    if text_eq raw (type_text EventType.set)
    then ok EventType.set
    else if text_eq raw (type_text EventType.increment)
    then ok EventType.increment
    else err inconsistent

module _ (P : Platform) where
  -- float64(1 << 63)
  abbrev over_int64 : P.Float
  over_int64 = P.of_int (pos (2 ^ 63))

  unfoldable pub exact_int64 : P.Float → Option ℤ
  exact_int64 v =
      if P.is_nan v || not (P.float_lt v over_int64) || P.float_lt v (P.float_neg over_int64)
      then none
      else if not (P.float_eq v (P.trunc v))
      then none
      else some (P.to_int v)

  -- The value that a projection score is served as; the log lines are not modelled.
  unfoldable pub zscore_to_int64 : P.Float → Option ℤ
  zscore_to_int64 raw = elim (exact_int64 raw) [
    | some v ↦ some v
    | none ↦ exact_int64 (P.round raw)
  ]

  unfoldable pub valid_player : Text → Result StorageError (Unit {0})
  valid_player id = if P.uuid_valid id then ok tt else err inconsistent

  -- ParseFloat, exactInt64 and score.Validate on the amount
  unfoldable pub decode_amount : Text → Result StorageError ℤ
  decode_amount raw = elim (P.parse_float raw) [
    | none ↦ err inconsistent
    | some x ↦ elim (exact_int64 x) [
      | none ↦ err inconsistent
      | some amount ↦ if validate amount then ok amount else err inconsistent
    ]
  ]

  unfoldable pub entry_to_event : Entry → Result StorageError Event
  unfolding required event_type valid_player decode_amount
  entry_to_event entry = bind_result (required entry (codes "type")) λ raw_type.
      bind_result (event_type raw_type) λ type.
        bind_result (required entry (codes "player_id")) λ player_id.
          bind_result (valid_player player_id) λ _.
            bind_result (required entry (codes "board_id")) λ board_id.
              bind_result (required entry (codes "amount")) λ raw_amount.
                bind_result (decode_amount raw_amount) λ amount.
                  bind_result (required entry (codes "request_id")) λ request_id. ok (record {
                    id = format_stream_id entry.id;
                    type = type;
                    player_id = player_id;
                    board_id = board_id;
                    amount = amount;
                    request_id = request_id;
                    created_at = event_time (format_stream_id entry.id);
                  })
