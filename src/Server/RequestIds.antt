-- ===== src/Server/RequestIds.antt =====
-- requestid/requestid.go and requestid/slog.go, and requestIDMiddleware of server/middleware.go. Of
-- a request's context only the id counts here; the identifiers themselves are uuid's.
use apex_leaderboard.Prelude.{List, [], ◌∷◌, Option, none, some, false, ◌≡◌, refl, if◌then◌else◌}
use apex_leaderboard.Prelude.Text.{Text, codes, text_eq}
use apex_leaderboard.Handlers.Common.{request_id}

abbrev pub Context : Type 0
Context = Option Text

abbrev pub with_id : Context → Text → Context
with_id ctx id = some id

-- FromContext: "" where no id was set
unfoldable pub from_context : Context → Text
from_context none = []
from_context (some id) = id

unfoldable pub log_attrs : Context → List (Text × Text)
unfolding from_context
log_attrs ctx =
    let id = from_context ctx in if text_eq id [] then [] else (codes "request_id", id) ∷ []

-- `next` with the new id in its context, beside the response header X-Request-ID
unfoldable pub request_id_middleware : {A : Type 0} → Text → (Context → A) → Context → Text × A
request_id_middleware id next ctx = (id, next (with_id ctx id))

-- What a handler records in an event, and what it logs.
abbrev pub seen_by_handler : Text → Context → Text × List (Text × Text)
seen_by_handler fresh ctx = (request_id (from_context ctx) fresh, log_attrs ctx)

-- Behind the middleware of the request ids, the id that a handler records in an event and the one
-- it logs are the id in the response header, where that is not empty.
pub request_id_middleware-same :
    (id fresh : Text) (ctx : Context)
    → text_eq id [] ≡ false
    → request_id_middleware id (seen_by_handler fresh) ctx
      ≡ (id, (id, (codes "request_id", id) ∷ []))
unfolding request_id_middleware from_context log_attrs request_id
request_id_middleware-same id fresh ctx h = rw h refl
