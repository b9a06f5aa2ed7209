-- ===== src/ApiScripts.antt =====
-- apiscripts/apexhttp/apexhttp.go: the requests that the scripts make of a running service. The
-- service behind resty is a parameter: a state, what a request does to it and answers, and what the
-- JSON of a body says in the fields that the scripts read.
pub mod Poll
pub mod DailyActivity
pub mod RandomEvents
pub mod Load
pub mod Walk
pub mod Flags
pub mod ActivityWrites
use apex_leaderboard.Prelude.{
  ℕ, zero, suc, ◌+◌, ◌*◌, ◌/◌, ◌%◌, ◌<◌, List, [], ◌∷◌, ◌++◌, Option, none, some, Bool, true, false,
  ◌==◌, ltb, leb, ◌-◌, length, get_elem?, if◌then◌else◌,
}
use apex_leaderboard.Prelude.Int.{ℤ, pos, ltb_ℤ}
use apex_leaderboard.Prelude.Text.{Text, codes, text_eq}
use apex_leaderboard.Prelude.Exec.{Result, ok, err, Exec, fail, pure, ◌>>=◌, ◌>>◌}
use apex_leaderboard.RandomHistory.{ScoreEvent}
use apex_leaderboard.Decimal.{format_nat, format_int}

pub data Field : Type 0 where
  text : Text → Field
  number : ℤ → Field

abbrev pub RequestBody : Type 0
RequestBody = Option (List (Text × Field))

pub data CallError : Type 0 where
  transport : Text → CallError
  unexpected_status : ℕ → CallError
  empty_player_id : CallError
  drift : ℕ → CallError

pub record Standing : Type 0 where
  pub player_id : Text
  pub rank : ℤ
  pub score : ℤ

pub record ActivityEntry : Type 0 where
  pub player_id : Text
  pub count : ℤ

pub record ListDailyActivityResp : Type 0 where
  pub date : Text
  pub entries : List ActivityEntry

pub record ListScoresResp : Type 0 where
  pub scores : List Standing
  pub limit : ℤ
  pub offset : ℤ
  pub total : ℤ

pub record History : Type 0 where
  pub player_id : Text
  pub events : List ScoreEvent

-- The answer to a request is an error of the transport, or a status and a body.
pub record Service : Type 1 where
  pub State : Type 0
  pub Body : Type 0
  pub execute : Text → Text → RequestBody → State → Result Text (ℕ × Body) × State
  -- json.Unmarshal into the result type of the call
  pub player_id_of : Body → Text
  pub standing_of : Body → Standing
  pub activity_of : Body → ListDailyActivityResp
  pub mismatches_of : Body → ℕ
  pub scores_of : Body → ListScoresResp
  pub history_of : Body → History

abbrev pub is_expected : ℕ → List ℕ → Bool
is_expected status [] = false
is_expected status (s ∷ ss) = if s == status then true else is_expected status ss

unfoldable pub score_path : Text → Text → Text
score_path board_id player_id =
    codes "/api/v1/boards/" ++ (board_id ++ (codes "/scores/" ++ player_id))

unfoldable pub seed_board_id : Text → ℕ → Text
seed_board_id prefix now = prefix ++ (codes "-" ++ format_nat now)

abbrev dashed : Text → List Text → Text
dashed name [] = name
dashed name (tag ∷ tags) = dashed (name ++ (codes "-" ++ tag)) tags

abbrev name_at : List Text → ℕ → Text
name_at names i = elim (get_elem? names i) [ none ↦ [] | some name ↦ name ]

-- `PlayerName` over the names of the file and the stamp of the run
unfoldable pub player_name : List Text → ℕ → ℕ → List Text → Text
player_name names run_stamp i tags =
    let name =
      dashed (name_at names (i % length names)) tags ++ (codes "-" ++ format_nat run_stamp) in
    if ltb 0 (i / length names) then name ++ (codes "-" ++ format_nat (i / length names)) else name

-- `PrintErrors` from an index on, line by line
unfoldable pub print_errors : ℕ → List Text → ℕ → ℕ → List Text
print_errors i [] limit all = []
print_errors i (e ∷ errs) limit all =
    let rest = print_errors (suc i) errs limit all in
    if leb limit i
    then (codes "... " ++ (format_nat (all - limit) ++ codes " additional errors omitted")) ∷ []
    else (codes "error: " ++ e) ∷ rest

module _ (V : Service) where
  abbrev pub Calls : Type 0 → Type 0
  Calls A = Exec V.State CallError A

  -- `DoJSON`, with the statuses that count as success
  abbrev checked : List ℕ → Result Text (ℕ × V.Body) → Result CallError V.Body
  checked expected (err e) = err (transport e)
  checked expected (ok (status, body)) =
      if is_expected status expected then ok body else err (unexpected_status status)

  unfoldable pub do_json : Text → Text → RequestBody → List ℕ → Calls V.Body
  do_json method path body expected s =
      let (answer, s') = V.execute method path body s in (checked expected answer, s')

  unfoldable pub create_player : Text → Calls Text
  unfolding do_json
  create_player name = do
    player ←
        do_json (codes "POST") (codes "/api/v1/players")
          (some ((codes "player_name", text name) ∷ [])) (201 ∷ [])
    if text_eq (V.player_id_of player) []
        then fail empty_player_id
        else pure (V.player_id_of player)

  abbrev put_board : Text → Text → List ℕ → Calls (Unit {0})
  put_board board_id name expected = do
    _ ←
        do_json (codes "PUT") (codes "/api/v1/boards/" ++ board_id)
          (some ((codes "board_name", text name) ∷ [])) expected
    pure tt

  unfoldable pub create_board : Text → Text → Calls (Unit {0})
  unfolding do_json
  create_board board_id name = put_board board_id name (201 ∷ [])

  -- A board that is there already is as good.
  unfoldable pub ensure_board : Text → Text → Calls (Unit {0})
  unfolding do_json
  ensure_board board_id name = put_board board_id name (201 ∷ 409 ∷ [])

  unfoldable pub set_score : Text → Text → ℤ → Calls (Unit {0})
  unfolding do_json score_path
  set_score board_id player_id score = do
    _ ←
        do_json (codes "PUT") (score_path board_id player_id)
          (some ((codes "player_score", number score) ∷ [])) (204 ∷ [])
    pure tt

  unfoldable pub increment_score : Text → Text → ℤ → Calls (Unit {0})
  unfolding do_json score_path
  increment_score board_id player_id amount = do
    _ ←
        do_json (codes "POST") (score_path board_id player_id ++ codes "/increment")
          (some ((codes "amount", number amount) ∷ [])) (204 ∷ [])
    pure tt

  unfoldable pub fetch_standing : Text → Text → Calls Standing
  unfolding do_json score_path
  fetch_standing board_id player_id = do
    body ← do_json (codes "GET") (score_path board_id player_id) none (200 ∷ [])
    pure (V.standing_of body)

  unfoldable pub fetch_scores : Text → ℤ → ℤ → Calls ListScoresResp
  unfolding do_json
  fetch_scores board_id limit offset = do
    body ←
        do_json (codes "GET")
          (codes "/api/v1/boards/"
            ++ (board_id
                ++ (codes "/scores?limit="
                    ++ (format_int limit ++ (codes "&offset=" ++ format_int offset)))))
          none (200 ∷ [])
    pure (V.scores_of body)

  -- A limit that is not positive leaves the service's own.
  unfoldable pub fetch_history : Text → Text → ℤ → Calls History
  unfolding do_json score_path
  fetch_history board_id player_id limit = do
    body ←
        do_json (codes "GET")
          (score_path board_id player_id
            ++ (codes "/history"
                ++ (if ltb_ℤ (pos 0) limit then codes "?limit=" ++ format_int limit else [])))
          none (200 ∷ [])
    pure (V.history_of body)

  unfoldable pub fetch_daily_activity : Text → ℕ → Calls ListDailyActivityResp
  unfolding do_json
  fetch_daily_activity date limit = do
    body ←
        do_json (codes "GET")
          (codes "/api/v1/activity/daily?date=" ++ (date ++ (codes "&limit=" ++ format_nat limit)))
          none (200 ∷ [])
    pure (V.activity_of body)

  unfoldable pub verify_projection : Text → Calls (Unit {0})
  unfolding do_json
  verify_projection board_id = do
    body ←
        do_json (codes "GET")
          (codes "/api/v1/admin/boards/" ++ (board_id ++ codes "/projection/verify")) none
          (200 ∷ [])
    if V.mismatches_of body == 0 then pure tt else fail (drift (V.mismatches_of body))
