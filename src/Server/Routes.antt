-- ===== src/Server/Routes.antt =====
-- server/routes.go: the table that NewMux hands to http.ServeMux, and what ServeMux does with it.
-- The path of a request is the one that ServeMux sees, decoded and clean.
pub mod Exclusive
pub mod Paths
use apex_leaderboard.Prelude.{
  ℕ, List, [], ◌∷◌, Option, none, some, Bool, true, false, ◌==◌, ◌&&◌, ◌||◌, ◌++◌, if◌then◌else◌,
}
use apex_leaderboard.Prelude.Text.{Text, codes, text_eq}

-- The methods of the handlers that the table names.
pub data Endpoint : Type 0 where
  root live ready : Endpoint
  create_player get_player : Endpoint
  create_board list_boards get_board close_board open_board : Endpoint
  set_score increment_score list_scores get_rank get_history : Endpoint
  list_events : Endpoint
  rebuild_projection verify_projection : Endpoint
  list_daily_activity : Endpoint

-- A segment as it stands, or a name for whatever stands there.
pub data Segment : Type 0 where
  literal wildcard : Text → Segment

pub record Pattern : Type 0 where
  pub method : Text
  pub segments : List Segment
  pub endpoint : Endpoint

abbrev get : List Segment → Endpoint → Pattern
get segments endpoint = record { method = codes "GET"; segments = segments; endpoint = endpoint }

abbrev post : List Segment → Endpoint → Pattern
post segments endpoint = record { method = codes "POST"; segments = segments; endpoint = endpoint }

abbrev put : List Segment → Endpoint → Pattern
put segments endpoint = record { method = codes "PUT"; segments = segments; endpoint = endpoint }

-- "/api/v1/" and a segment
abbrev api : Text → List Segment → List Segment
api name rest = literal (codes "api") ∷ literal (codes "v1") ∷ literal name ∷ rest

-- "/api/v1/boards/{board_id}"
abbrev board : List Segment → List Segment
board rest = api (codes "boards") (wildcard (codes "board_id") ∷ rest)

-- "/api/v1/boards/{board_id}/scores/{player_id}"
abbrev score : List Segment → List Segment
score rest = board (literal (codes "scores") ∷ wildcard (codes "player_id") ∷ rest)

-- "/api/v1/admin/boards/{board_id}/projection/" and a segment
abbrev projection : Text → List Segment
projection name = api (codes "admin") (
    literal (codes "boards")
    ∷ wildcard (codes "board_id")
    ∷ literal (codes "projection")
    ∷ literal name
    ∷ [])

-- `NewMux`; "/{$}" is the path whose only segment is empty.
unfoldable pub new_mux : List Pattern
new_mux =
    get (literal [] ∷ []) root
    ∷ get (literal (codes "livez") ∷ []) live
    ∷ get (literal (codes "readyz") ∷ []) ready
    ∷ post (api (codes "players") []) create_player
    ∷ get (api (codes "players") (wildcard (codes "player_id") ∷ [])) get_player
    ∷ put (board []) create_board
    ∷ get (api (codes "boards") []) list_boards
    ∷ get (board []) get_board
    ∷ post (board (literal (codes "close") ∷ [])) close_board
    ∷ post (board (literal (codes "open") ∷ [])) open_board
    ∷ put (score []) set_score
    ∷ post (score (literal (codes "increment") ∷ [])) increment_score
    ∷ get (board (literal (codes "scores") ∷ [])) list_scores
    ∷ get (score []) get_rank
    ∷ get (score (literal (codes "history") ∷ [])) get_history
    ∷ get (api (codes "events") []) list_events
    ∷ post (projection (codes "rebuild")) rebuild_projection
    ∷ get (projection (codes "verify")) verify_projection
    ∷ get (api (codes "activity") (literal (codes "daily") ∷ [])) list_daily_activity
    ∷ []

-- The segments of a path behind its first slash.
unfoldable pub segments_from : Text → Text → List Text
segments_from seg [] = seg ∷ []
segments_from seg (c ∷ cs) =
    let next = segments_from [] cs in
    let on = segments_from (seg ++ c ∷ []) cs in if c == 47 then seg ∷ next else on

unfoldable pub path_segments : Text → List Text
unfolding segments_from
path_segments [] = []
path_segments (c ∷ cs) = segments_from [] cs

abbrev named : Text → Text → Option (List (Text × Text)) → Option (List (Text × Text))
named name t none = none
named name t (some values) = some ((name, t) ∷ values)

-- The values of the names, where the segments fit. No name stands for an empty segment.
unfoldable pub match_segments : List Segment → List Text → Option (List (Text × Text))
match_segments [] [] = some []
match_segments [] (t ∷ ts) = none
match_segments (s ∷ ss) [] = none
match_segments (literal l ∷ ss) (t ∷ ts) =
    let rest = match_segments ss ts in if text_eq l t then rest else none
match_segments (wildcard name ∷ ss) (t ∷ ts) =
    let rest = match_segments ss ts in if text_eq t [] then none else named name t rest

-- A pattern for GET takes HEAD too.
unfoldable pub method_fits : Text → Text → Bool
method_fits method m =
    text_eq method m || (text_eq method (codes "GET") && text_eq m (codes "HEAD"))

pub data Routed : Type 0 where
  to_endpoint : Endpoint → List (Text × Text) → Routed
  not_found method_not_allowed : Routed

-- The answer where no further pattern fits, once one fitted but for its method.
abbrev unrouted : Bool → Routed
unrouted seen = if seen then method_not_allowed else not_found

unfoldable pub route_from : Bool → List Pattern → Text → List Text → Routed
unfolding match_segments method_fits
route_from seen [] m path = unrouted seen
route_from seen (p ∷ ps) m path =
    let other = route_from true ps m path in
    let skip = route_from seen ps m path in
    elim (match_segments p.segments path) [
      | none ↦ skip
      | some values ↦ if method_fits p.method m then to_endpoint p.endpoint values else other
    ]

unfoldable pub route : Text → Text → Routed
unfolding new_mux path_segments route_from
route m path = route_from false new_mux m (path_segments path)
