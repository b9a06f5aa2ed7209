-- ===== src/Handlers/Common.antt =====
-- handlers/handler.go: reading a request, and the status of an error.
use apex_leaderboard.Prelude.{ℕ, [], Option, none, some, not, length, if◌then◌else◌, ltb}
use apex_leaderboard.Prelude.Int.{ℤ, pos}
use apex_leaderboard.Prelude.Text.{Text, text_eq}
use apex_leaderboard.Prelude.Exec.{Result, ok, err, Exec}
use apex_leaderboard.Platform.{Platform}
use apex_leaderboard.Storage.Client.{StorageError, World, Store}

pub data Status : Type 0 where
  bad_request not_found conflict too_large internal_error : Status

-- Why no data came out of a body.
pub data BodyError : Type 0 where
  body_too_large malformed : BodyError

-- httputils.ParseIntQuery: the raw parameter, the default, the least and the largest value, where a
-- largest value of 0 sets no bound.
pub record HttpLib : Type 0 where
  pub parse_int_query : Option Text → ℤ → ℤ → ℤ → Option ℤ

-- The handlers' early returns: an error is the status that was written.
abbrev pub Handler : Platform → Type 0 → Type 0
Handler P A = Exec (World P) Status A

abbrev pub default_history_limit : ℤ
default_history_limit = pos 50

abbrev pub max_history_limit : ℤ
max_history_limit = pos 100

abbrev pub default_list_limit : ℤ
default_list_limit = pos 10

abbrev pub max_list_limit : ℤ
max_list_limit = pos 100

abbrev pub max_idempotency_key_len : ℕ
max_idempotency_key_len = 128

-- An absent header is the empty key; an empty or long one is an error.
unfoldable pub read_idempotency_key : Option Text → Result Status Text
read_idempotency_key none = ok []
read_idempotency_key (some key) =
    if text_eq key []
    then err bad_request
    else if ltb max_idempotency_key_len (length key)
    then err bad_request
    else ok key

-- `requestID`: the middleware's id, or a fresh one
unfoldable pub request_id : Text → Text → Text
request_id from_context fresh = if not (text_eq from_context []) then from_context else fresh

unfoldable pub board_id_from_path : (P : Platform) → Text → Result Status Text
board_id_from_path P id = if P.board_id_valid id then ok id else err bad_request

unfoldable pub player_id_from_path : (P : Platform) → Text → Result Status Text
player_id_from_path P id = if P.uuid_valid id then ok id else err bad_request

unfoldable pub parse_date_query : (P : Platform) → Option Text → Result Status ℤ
parse_date_query P none = elim (P.parse_date []) [ none ↦ err bad_request | some d ↦ ok d ]
parse_date_query P (some raw) = elim (P.parse_date raw) [ none ↦ err bad_request | some d ↦ ok d ]

abbrev pub or_bad_request {ℓ} : {A : Type ℓ} → Option A → Result Status A
or_bad_request none = err bad_request
or_bad_request (some a) = ok a

-- `writeRequestError` on the outcome of ReadJSON
unfoldable pub request_status : BodyError → Status
request_status body_too_large = too_large
request_status malformed = bad_request

abbrev pub read_json {ℓ} : {A : Type ℓ} → Result BodyError A → Result Status A
read_json (ok a) = ok a
read_json (err e) = err (request_status e)

-- `writeStorageError`
unfoldable pub storage_status : StorageError → Status
storage_status StorageError.not_found = not_found
storage_status StorageError.board_not_found = not_found
storage_status StorageError.board_exists = conflict
storage_status StorageError.board_closed = conflict
storage_status StorageError.idempotency_conflict = conflict
storage_status StorageError.score_out_of_range = conflict
storage_status _ = internal_error

abbrev pub with_status : {A : Type 0} → Result StorageError A → Result Status A
with_status (ok a) = ok a
with_status (err e) = err (storage_status e)

-- A call of the storage, its error answered.
abbrev pub from_storage : {P : Platform} {A : Type 0} → Store P A → Handler P A
from_storage m w = let (r, w') = m w in (with_status r, w')
