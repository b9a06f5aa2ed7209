-- ===== src/Server/Routes/Paths.antt =====
-- The paths that the scripts ask for reach the handlers that they mean.
use apex_leaderboard.Prelude.{
  Bool, ◌≢◌, All, some, refl, true, ℕ, List, [], ◌∷◌, ◌++◌, false, ◌==◌, ◌&&◌, ◌||◌, leb, ◌≡◌,
  arith, ap, sym, ◌∙◌,
}
use mathlib.Core.List.{Memᴰ, append-nil, append_assoc}
use apex_leaderboard.Prelude.Text.{Text, codes, text_eq, text_eq_refl, text_eq_iff, Lacks}
use apex_leaderboard.Server.Routes.{
  Segment, literal, wildcard, Pattern, Endpoint, to_endpoint, segments_from, path_segments, route,
  new_mux, match_segments, method_fits,
}
use apex_leaderboard.Server.Routes.Exclusive.{route-Fits, Mem-at}
use apex_leaderboard.ApiScripts.{score_path}

longer : (seg : Text) (c : ℕ) (id : Text) → (seg ++ c ∷ []) ++ id ≡ seg ++ c ∷ id
longer seg c id = append_assoc seg (c ∷ []) id

-- A segment without a slash ends at the next one.
segments_from-slash :
    (seg id rest : Text)
    → Lacks 47 id
    → segments_from seg (id ++ 47 ∷ rest) ≡ (seg ++ id) ∷ segments_from [] rest
unfolding segments_from
segments_from-slash seg [] rest h = ap (λ s. s ∷ segments_from [] rest) (sym (append-nil seg))
segments_from-slash seg (c ∷ id) rest h =
    let inside : (c == 47) ≡ false = ground (arith, h.0) in
    rw inside (
      segments_from-slash (seg ++ c ∷ []) id rest h.1
      ∙ ap (λ s. s ∷ segments_from [] rest) (longer seg c id))

segments_from-end : (seg id : Text) → Lacks 47 id → segments_from seg id ≡ (seg ++ id) ∷ []
unfolding segments_from
segments_from-end seg [] h = ap (λ s. s ∷ []) (sym (append-nil seg))
segments_from-end seg (c ∷ id) h =
    let inside : (c == 47) ≡ false = ground (arith, h.0) in
    rw inside (segments_from-end (seg ++ c ∷ []) id h.1 ∙ ap (λ s. s ∷ []) (longer seg c id))

-- A letter, a digit, a dash or an underscore: a byte that no part of a URL sets apart, escapes or
-- cleans.
abbrev pub id_byte : ℕ → Bool
id_byte c =
    (leb b'a' c && leb c b'z')
    || (leb b'A' c && leb c b'Z')
    || (leb b'0' c && leb c b'9')
    || c == b'-'
    || c == b'_'

-- A text that ServeMux hands to a handler as it stands.
abbrev pub IsPathId : Text → Type 0
IsPathId id = (id ≢ []) × All (λ c. id_byte c ≡ true) id

IsPathId-Lacks : (id : Text) → All (λ c. id_byte c ≡ true) id → Lacks 47 id
IsPathId-Lacks [] h = tt
IsPathId-Lacks (c ∷ id) h = (λ e. absurd (ground (arith, e, h.0)), IsPathId-Lacks id h.1)

-- "/api/v1/boards/{board_id}/scores/{player_id}" and more
abbrev score_pattern : Text → List Segment → Endpoint → Pattern
score_pattern method rest endpoint = record {
  method = method;
  segments =
      literal (codes "api")
      ∷ literal (codes "v1")
      ∷ literal (codes "boards")
      ∷ wildcard (codes "board_id")
      ∷ literal (codes "scores")
      ∷ wildcard (codes "player_id")
      ∷ rest;
  endpoint = endpoint;
}

module _ (board_id player_id : Text) (board_fine : IsPathId board_id)
    (player_fine : IsPathId player_id) where
  board_plain : Lacks 47 board_id
  board_plain = IsPathId-Lacks board_id board_fine.1

  player_plain : Lacks 47 player_id
  player_plain = IsPathId-Lacks player_id player_fine.1

  abbrev score_segments : List Text → List Text
  score_segments rest =
      codes "api" ∷ codes "v1" ∷ codes "boards" ∷ board_id ∷ codes "scores" ∷ player_id ∷ rest

  score_path-segments : path_segments (score_path board_id player_id) ≡ score_segments []
  unfolding path_segments segments_from score_path
  score_path-segments =
      ap (λ l. codes "api" ∷ codes "v1" ∷ codes "boards" ∷ l)
        (segments_from-slash [] board_id (codes "scores/" ++ player_id) board_plain
          ∙ ap (λ l. board_id ∷ codes "scores" ∷ l) (segments_from-end [] player_id player_plain))

  -- With a segment behind it.
  score_path-longer :
      (rest : Text)
      → path_segments (score_path board_id player_id ++ 47 ∷ rest)
        ≡ score_segments (segments_from [] rest)
  unfolding path_segments segments_from score_path
  score_path-longer rest =
      ap (λ l. codes "api" ∷ codes "v1" ∷ codes "boards" ∷ l)
        (ap (segments_from []) (append_assoc board_id (codes "/scores/" ++ player_id) (47 ∷ rest))
          ∙ segments_from-slash [] board_id ((codes "scores/" ++ player_id) ++ 47 ∷ rest)
              board_plain
          ∙ ap (λ l. board_id ∷ codes "scores" ∷ l)
              (segments_from-slash [] player_id rest player_plain))

  abbrev ids : List (Text × Text)
  ids = (codes "board_id", board_id) ∷ (codes "player_id", player_id) ∷ []

  not_empty : (id : Text) → id ≢ [] → text_eq id [] ≡ false
  not_empty id h = ground (arith, text_eq_iff id [], h)

  -- The patterns for a score, and for what is behind it.
  match-score :
      match_segments (score_pattern [] [] Endpoint.set_score).segments (score_segments [])
      ≡ some ids
  unfolding match_segments text_eq
  match-score = rw (not_empty board_id board_fine.0, not_empty player_id player_fine.0) refl

  match-behind :
      (name : Text)
      → match_segments
          (score_pattern [] (literal name ∷ []) Endpoint.set_score).segments
          (score_segments (name ∷ []))
        ≡ some ids
  unfolding match_segments
  match-behind name =
      rw
        (
          not_empty board_id board_fine.0,
          not_empty player_id player_fine.0,
          text_eq_refl name,
          text_eq_refl (codes "api"),
          text_eq_refl (codes "v1"),
          text_eq_refl (codes "boards"),
          text_eq_refl (codes "scores"),
        )
        refl

  route-score :
      (m : Text) (e : Endpoint)
      → Memᴰ (score_pattern m [] e) new_mux
      → route m (score_path board_id player_id) ≡ to_endpoint e ids
  unfolding method_fits
  route-score m e k = route-Fits m (score_path board_id player_id) (score_pattern m [] e) ids k (
    rw (text_eq_refl m) refl,
    ap (match_segments (score_pattern m [] e).segments) score_path-segments ∙ match-score,
  )

  route-behind :
      (m name : Text) (e : Endpoint)
      → segments_from [] name ≡ name ∷ []
      → Memᴰ (score_pattern m (literal name ∷ []) e) new_mux
      → route m (score_path board_id player_id ++ 47 ∷ name) ≡ to_endpoint e ids
  unfolding method_fits
  route-behind m name e whole k =
      route-Fits m (score_path board_id player_id ++ 47 ∷ name)
        (score_pattern m (literal name ∷ []) e) ids k
        (
          rw (text_eq_refl m) refl,
          ap (match_segments (score_pattern m (literal name ∷ []) e).segments)
                (score_path-longer name ∙ ap score_segments whole)
              ∙ match-behind name,
        )

  -- For ids that are not empty, of letters, digits, dashes and underscores, the paths that the
  -- scripts build for a score reach HandleSetScore, HandleIncrementScore, HandleGetRank and
  -- HandleGetHistory by their methods, with those ids as the path values.
  pub route-score_path :
      (route (codes "PUT") (score_path board_id player_id) ≡ to_endpoint Endpoint.set_score ids)
      × (route (codes "POST") (score_path board_id player_id ++ codes "/increment")
          ≡ to_endpoint Endpoint.increment_score ids)
      × (route (codes "GET") (score_path board_id player_id) ≡ to_endpoint Endpoint.get_rank ids)
      × (route (codes "GET") (score_path board_id player_id ++ codes "/history")
          ≡ to_endpoint Endpoint.get_history ids)
  unfolding new_mux segments_from
  route-score_path = (
    route-score (codes "PUT") Endpoint.set_score (Mem-at 10 new_mux _ refl),
    route-behind (codes "POST") (codes "increment") Endpoint.increment_score refl
        (Mem-at 11 new_mux _ refl),
    route-score (codes "GET") Endpoint.get_rank (Mem-at 13 new_mux _ refl),
    route-behind (codes "GET") (codes "history") Endpoint.get_history refl
        (Mem-at 14 new_mux _ refl),
  )
