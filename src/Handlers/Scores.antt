-- ===== src/Handlers/Scores.antt =====
-- handlers/score_handler.go.
pub mod Writes
pub mod Answers
use apex_leaderboard.Prelude.{
  ℕ, List, [], ◌∷◌, Option, none, some, Bool, true, false, not, if◌then◌else◌, map,
}
use apex_leaderboard.Prelude.Int.{ℤ, pos, ◌+ℤ◌, ltb_ℤ}
use apex_leaderboard.Prelude.Text.{Text}
use apex_leaderboard.Prelude.Exec.{Result, ok, err, fail, pure, lift, ◌>>=◌, ◌>>◌}
use apex_leaderboard.Platform.{Platform}
use apex_leaderboard.Score.{validate}
use apex_leaderboard.Ledger.{Event}
use apex_leaderboard.Storage.Client.{Store}
use apex_leaderboard.Storage.Standings.{Standing, get_standing, list_standings, player_history}
use apex_leaderboard.Storage.AsOf.{list_standings_as_of}
use apex_leaderboard.Storage.Apply.{set_score, increment_score}
use apex_leaderboard.Handlers.Common.{
  Status, bad_request, BodyError, HttpLib, Handler, default_history_limit, max_history_limit,
  default_list_limit, max_list_limit, read_idempotency_key, request_id, board_id_from_path,
  player_id_from_path, parse_date_query, or_bad_request, read_json, from_storage,
}

-- What a request for a write carries; the amount of the body is a pointer, nil if absent.
pub record WriteReq : Type 0 where
  pub board_id : Text
  pub player_id : Text
  pub idempotency_key : Option Text
  pub body : Result BodyError (Option ℤ)
  pub context_id : Text
  pub fresh_id : Text

pub record RankResp : Type 0 where
  pub standing : Standing
  pub total : ℕ

pub record ListScoresResp : Type 0 where
  pub scores : List Standing
  pub limit : ℤ
  pub offset : ℤ
  pub total : ℕ

pub record HistoryResp : Type 0 where
  pub player_id : Text
  pub events : List Event
  pub limit : ℤ

-- The required and validated amount of a body.
unfoldable pub amount_of : Option ℤ → Result Status ℤ
amount_of none = err bad_request
amount_of (some n) = if validate n then ok n else err bad_request

abbrev pub ns_per_day : ℤ
ns_per_day = pos 86_400_000_000_000

module _ (P : Platform) where
  -- The two writes differ in the storage call alone; 204 is the unit.
  abbrev pub handle_write :
      (Text → Text → ℤ → Text → Text → Store P (Unit {0})) → WriteReq → Handler P (Unit {0})
  handle_write write req = do
    board_id ← lift (board_id_from_path P req.board_id)
    player_id ← lift (player_id_from_path P req.player_id)
    idemp_key ← lift (read_idempotency_key req.idempotency_key)
    body ← lift (read_json req.body)
    amount ← lift (amount_of body)
    from_storage
        (write player_id board_id amount (request_id req.context_id req.fresh_id) idemp_key)

  unfoldable pub handle_set_score : WriteReq → Handler P (Unit {0})
  handle_set_score req = handle_write (set_score P) req

  unfoldable pub handle_increment_score : WriteReq → Handler P (Unit {0})
  handle_increment_score req = handle_write (increment_score P) req

  unfoldable pub handle_get_rank : Text → Text → Handler P RankResp
  handle_get_rank board_path player_path = do
    board_id ← lift (board_id_from_path P board_path)
    player_id ← lift (player_id_from_path P player_path)
    r ← from_storage (get_standing P player_id board_id)
    pure (record { standing = record r.0 { player_id = player_id }; total = r.1 })

module _ (P : Platform) (H : HttpLib) where
  -- `as_of` names a day that is not after today; its page is cut off at the day's end.
  abbrev read_page : Text → ℤ → ℤ → ℤ → Option Text → Handler P (List Standing × ℕ)
  read_page board_id limit offset today none = from_storage (list_standings P board_id limit offset)
  read_page board_id limit offset today (some raw) = do
    date ← lift (parse_date_query P (some raw))
    if ltb_ℤ today date
        then fail bad_request
        else from_storage (list_standings_as_of P board_id (date +ℤ ns_per_day) limit offset)

  -- `today` is the start of the current UTC day.
  unfoldable pub handle_list_scores :
      Text → Option Text → Option Text → Option Text → ℤ → Handler P ListScoresResp
  handle_list_scores board_path limit_raw offset_raw as_of today = do
    board_id ← lift (board_id_from_path P board_path)
    limit ←
        lift
          (or_bad_request (H.parse_int_query limit_raw default_list_limit (pos 1) max_list_limit))
    offset ← lift (or_bad_request (H.parse_int_query offset_raw (pos 0) (pos 0) (pos 0)))
    r ← read_page board_id limit offset today as_of
    pure (record { scores = r.0; limit = limit; offset = offset; total = r.1 })

  unfoldable pub handle_get_history : Text → Text → Option Text → Handler P HistoryResp
  handle_get_history board_path player_path limit_raw = do
    board_id ← lift (board_id_from_path P board_path)
    player_id ← lift (player_id_from_path P player_path)
    limit ← lift (
        or_bad_request
          (H.parse_int_query limit_raw default_history_limit (pos 1) max_history_limit))
    events ← from_storage (player_history P player_id board_id limit)
    pure (record { player_id = player_id; events = events; limit = limit })
