-- ===== src/Storage/Views.antt =====
-- The asynchronous projections: storage/activity_store.go, storage/player_history_store.go and
-- storage/ledger_consumer.go.
pub mod Order
pub mod Batches
use apex_leaderboard.Prelude.{
  ℕ, List, [], ◌∷◌, ◌++◌, Option, none, some, Bool, true, false, if◌then◌else◌, map, ◌*◌,
}
use apex_leaderboard.Prelude.Int.{ℤ, pos, negsuc, pos_part, neg_part, sub_ℕ, ◌+ℤ◌, ltb_ℤ, wrap64}
use apex_leaderboard.Prelude.Text.{Text, cut}
use apex_leaderboard.Prelude.Exec.{
  Result, ok, err, pure, lift, map_result, bind_result, ◌>>=◌, ◌>>◌,
}
use apex_leaderboard.Platform.{Platform, Entry, string_key, zset_key, stream_key, no_key}
use apex_leaderboard.Redis.{Script, store, query, update}
use apex_leaderboard.Decimal.{parse_int}
use apex_leaderboard.Ledger.{Event}
use apex_leaderboard.ApexTime.{format_stream_id}
use apex_leaderboard.Storage.Client.{StorageError, inconsistent, Store, call, exec_pipe}
use apex_leaderboard.Storage.Keys.{
  activity_daily_key, player_history_key, consumer_cursor_key, ledger_key,
}
use apex_leaderboard.Storage.Entry.{entry_to_event}

abbrev pub seq_scale : ℕ
seq_scale = 4096

-- The whole number that the ZSET score of an entry id stands for: both halves of the id, packed.
unfoldable pub packed_id : Text → Option ℤ
packed_id entry_id = elim (cut b'-' entry_id) [
  | none ↦ none
  | some (millis, seq) ↦ elim (parse_int millis) [
    | none ↦ none
    | some m ↦ elim (parse_int seq) [
      | none ↦ none
      | some q ↦
          let clamped = if ltb_ℤ q (pos seq_scale) then q else pos 4095 in
          some
            (wrap64 (wrap64 (sub_ℕ (pos_part m * seq_scale) (neg_part m * seq_scale)) +ℤ clamped))
    ]
  ]
]

pub record LedgerBatch : Type 0 where
  pub events : List Event
  pub rejected : List Text
  pub last_id : Text

module _ (P : Platform) where
  unfoldable pub stream_id_score : Text → Result StorageError P.Float
  unfolding packed_id
  stream_id_score entry_id = elim (packed_id entry_id) [
    | none ↦ err inconsistent
    | some n ↦ ok (P.of_int n)
  ]

  -- ZADD of a pointer to the entry
  abbrev pub point_to : Event → P.Float → Script P (Unit {0})
  point_to e x = update P zset_key (player_history_key e.player_id e.board_id) (P.zadd x e.id)

  -- The pipeline is sent only when every id has a score.
  unfoldable pub apply_player_history : List Event → Store P (Unit {0})
  unfolding stream_id_score
  apply_player_history events = do
    cmds ← lift (map_result (λ e. bind_result (stream_id_score e.id) λ x. ok (point_to e x)) events)
    exec_pipe cmds
    pure tt

  -- ZINCRBY and EXPIRE of the player on the event's day
  abbrev pub count_event : ℕ → Event → List (Script P (Unit {0}))
  count_event ttl e =
      let key = activity_daily_key (P.format_date e.created_at) in
      update P zset_key key (P.zincrby (P.of_int (pos 1)) e.player_id)
      ∷ update P zset_key key (P.expire ttl)
      ∷ []

  unfoldable pub count_events : ℕ → List Event → List (Script P (Unit {0}))
  count_events ttl [] = []
  count_events ttl (e ∷ es) = let rest = count_events ttl es in count_event ttl e ++ rest

  unfoldable pub apply_daily_counts : List Event → ℕ → Store P (Unit {0})
  unfolding count_events
  apply_daily_counts events ttl = do exec_pipe (count_events ttl events); pure tt

  unfoldable pub load_cursor : Text → Store P (Option Text)
  load_cursor name = call (
      query P string_key (consumer_cursor_key name)
        (λ v. elim (P.kind v) [ no_key ↦ none | _ ↦ some (P.string_get v) ]))

  -- SET replaces a value of any type
  unfoldable pub save_cursor : Text → Text → Store P (Unit {0})
  save_cursor name cursor = call (λ s. (
    ok tt,
    store (consumer_cursor_key name) (P.string_set cursor (s.at (consumer_cursor_key name))) s,
  ))

  sort_entry : Entry → LedgerBatch → LedgerBatch
  sort_entry entry batch = elim (entry_to_event P entry) [
    | ok event ↦ record batch { events = event ∷ batch.events }
    | err e ↦ record batch { rejected = format_stream_id entry.id ∷ batch.rejected }
  ]

  -- The batch of a reply to XREAD; the last id is that of the last message.
  unfoldable pub batch_of : List Entry → LedgerBatch
  unfolding sort_entry
  batch_of [] = record { events = []; rejected = []; last_id = [] }
  batch_of (entry ∷ []) =
      sort_entry entry (record { events = []; rejected = []; last_id = format_stream_id entry.id })
  batch_of (entry ∷ next ∷ rest) = sort_entry entry (batch_of (next ∷ rest))

  -- A read that times out is an empty batch.
  unfoldable pub read_ledger_batch : Text → ℕ → Store P LedgerBatch
  unfolding batch_of
  read_ledger_batch after limit = do
    messages ← call (query P stream_key ledger_key (P.xread after limit))
    pure (batch_of messages)
