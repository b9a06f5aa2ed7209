-- ===== src/Storage/Apply/Script.antt =====
-- storage/scripts/apply_score_event.lua, early return by early return.
use apex_leaderboard.Prelude.{
  List, [], ◌∷◌, ◌++◌, Option, none, some, Bool, false, not, ◌&&◌, ◌||◌, if◌then◌else◌,
}
use apex_leaderboard.Prelude.Int.{ℤ, pos, negsuc}
use apex_leaderboard.Prelude.Text.{Text, codes, text_eq, cut}
use apex_leaderboard.Prelude.Exec.{Result, ok, err, fail, pure, ◌>>=◌, ◌>>◌}
use apex_leaderboard.Platform.{Platform, hash_key, zset_key, stream_key}
use apex_leaderboard.Platform.Laws.{score_or_zero}
use apex_leaderboard.Redis.{
  ServerError, wrong_type, bad_score, lua_error, Script, admits, store, query, update, exists_key,
}
use apex_leaderboard.ApexTime.{format_stream_id}

-- KEYS and ARGV
pub record Args : Type 0 where
  pub zset : Text
  pub stream : Text
  pub idempotency : Text
  pub profile : Text
  pub board : Text
  pub op_type : Text
  pub player_id : Text
  pub amount : Text
  pub req_id : Text
  pub board_id : Text
  pub idem_key : Text
  pub max_abs : Text

-- { code, entry_id }
abbrev pub Reply : Type 0
Reply = ℤ × Text

abbrev pub code_applied : ℤ
code_applied = pos 1

abbrev pub code_deduped : ℤ
code_deduped = pos 0

abbrev pub code_player_not_found : ℤ
code_player_not_found = negsuc 0

abbrev pub code_board_not_found : ℤ
code_board_not_found = negsuc 1

abbrev pub code_board_closed : ℤ
code_board_closed = negsuc 2

abbrev pub code_conflict : ℤ
code_conflict = negsuc 3

abbrev pub code_out_of_range : ℤ
code_out_of_range = negsuc 4

abbrev pub have_key : Args → Bool
have_key a = not (text_eq a.idem_key [])

unfoldable pub dedupe_field : Args → Text
dedupe_field a = a.board_id ++ (codes ":" ++ (a.player_id ++ (codes ":" ++ a.idem_key)))

-- The value that an idempotency key is given: "entry_id|op|amount".
unfoldable pub idempotency_record : Text → Args → Text
idempotency_record entry_id a = entry_id ++ (codes "|" ++ (a.op_type ++ (codes "|" ++ a.amount)))

-- The two searches for "|"; without one of them the arithmetic on its index is a Lua error.
unfoldable pub split_record : Text → Option (Text × Text × Text)
split_record seen = elim (cut b'|' seen) [
  | none ↦ none
  | some (entry, rest) ↦ elim (cut b'|' rest) [
    | none ↦ none
    | some (op, amount) ↦ some (entry, op, amount)
  ]
]

-- What a later attempt with a recorded key is answered.
unfoldable pub seen_reply : Args → Text → Result ServerError Reply
seen_reply a seen = elim (split_record seen) [
  | none ↦ err lua_error
  | some (entry, op, amount) ↦
      if text_eq op a.op_type && text_eq amount a.amount
      then ok (code_deduped, entry)
      else ok (code_conflict, [])
]

-- The event as the ledger stream holds it.
unfoldable pub event_fields : Args → List (Text × Text)
event_fields a =
    (codes "type", a.op_type)
    ∷ (codes "player_id", a.player_id)
    ∷ (codes "board_id", a.board_id)
    ∷ (codes "amount", a.amount)
    ∷ (codes "request_id", a.req_id)
    ∷ []

module _ (P : Platform) where
  -- A block of the script that may return; the script goes on where it does not.
  abbrev pub Early : Type 0
  Early = Script P (Option Reply)

  abbrev pub or_else : Early → Script P Reply → Script P Reply
  or_else m k = m >>= λ o. elim o [ none ↦ k | some r ↦ pure r ]

  unfoldable pub check_idempotency : Args → Early
  check_idempotency a =
      if have_key a
      then (do
        seen ← query P hash_key a.idempotency (P.hget (dedupe_field a))
        λ s. elim seen [
          | none ↦ (ok none, s)
          | some text ↦ elim (seen_reply a text) [ ok r ↦ (ok (some r), s) | err e ↦ (err e, s) ]
        ])
      else pure none

  abbrev pub is_closed : Option Text → Bool
  is_closed none = false
  is_closed (some state) = text_eq state (codes "closed")

  unfoldable pub check_existence : Args → Early
  check_existence a = do
    has_profile ← exists_key P a.profile
    if not has_profile then pure (some (code_player_not_found, [])) else do
      has_board ← exists_key P a.board
      if not has_board then pure (some (code_board_not_found, [])) else do
        state ← query P hash_key a.board (P.hget (codes "board_state"))
        pure (if is_closed state then some (code_board_closed, []) else none)

  unfoldable pub current_score : Args → Script P P.Float
  current_score a =
      if not (text_eq a.op_type (codes "set"))
      then (do x ← query P zset_key a.zset (P.zscore a.player_id); pure (score_or_zero P x))
      else pure (P.of_int (pos 0))

  abbrev pub out_of_range : P.Float → P.Float → Bool
  out_of_range max_abs x = P.float_lt max_abs x || P.float_lt x (P.float_neg max_abs)

  abbrev pub in_range :
      Option P.Float → Option P.Float → P.Float → Result ServerError (Option Reply)
  in_range (some amount) (some max_abs) current = ok (
      if out_of_range max_abs (P.float_add current amount)
      then some (code_out_of_range, [])
      else none)
  in_range _ _ current = err lua_error

  unfoldable pub check_range : Args → Early
  unfolding current_score
  check_range a = do
    current ← current_score a
    λ s. (in_range (P.tonumber a.amount) (P.tonumber a.max_abs) current, s)

  unfoldable pub write_projection : Args → Script P (Unit {0})
  write_projection a = elim (P.score_of a.amount) [
    | none ↦ fail bad_score
    | some x ↦
        update P zset_key a.zset (
          if text_eq a.op_type (codes "set") then P.zadd x a.player_id else P.zincrby x a.player_id)
  ]

  unfoldable pub append_event : Args → Script P Text
  append_event a s =
      let (id, v) = P.xadd s.clock (event_fields a) (s.at a.stream) in
      if admits stream_key (P.kind (s.at a.stream))
      then (ok (format_stream_id id), store a.stream v s)
      else (err wrong_type, s)

  unfoldable pub record_key : Args → Text → Script P (Unit {0})
  record_key a entry_id =
      if have_key a
      then (do
        update P hash_key a.idempotency (P.hset (dedupe_field a) (idempotency_record entry_id a))
        update P hash_key a.idempotency (P.hexpire 86400 (dedupe_field a)))
      else pure tt

  unfoldable pub commit : Args → Script P Reply
  unfolding write_projection append_event record_key
  commit a = do
    write_projection a
    entry_id ← append_event a
    record_key a entry_id
    pure (code_applied, entry_id)

  unfoldable pub apply_score_event : Args → Script P Reply
  unfolding check_idempotency check_existence check_range commit
  apply_score_event a =
      or_else (check_idempotency a)
        (or_else (check_existence a) (or_else (check_range a) (commit a)))
