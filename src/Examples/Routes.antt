-- ===== src/Examples/Routes.antt =====
-- The theorems on the routes and on the check of a ranking at concrete inputs.
use apex_leaderboard.Prelude.{List, [], ◌∷◌, none, true, false, ◌≡◌, refl, length, map, ◌++◌}
use mathlib.Core.List.{Memᴰ, Permᴰ}
use mathlib.Core.List.Permᴰ
use apex_leaderboard.Prelude.Int.{pos}
use apex_leaderboard.Prelude.Text.{Text, codes, text_eq}
use apex_leaderboard.Prelude.Exec.{ok}
use apex_leaderboard.Server.Routes.{
  Pattern, literal, wildcard, Endpoint, to_endpoint, route, match_segments, method_fits,
  path_segments, segments_from, new_mux,
}
use apex_leaderboard.Server.Routes.Exclusive.{route-Fits}
use apex_leaderboard.Server.Routes.Paths.{route-score_path}
use apex_leaderboard.ApiScripts.{Service, Standing, score_path, do_json, fetch_standing}
use apex_leaderboard.Fanout.Ranking.{
  Player, IsRanked, shown, verify_ranking, verify_rows, verify_row, cross_check,
  verify_ranking-IsRanked,
}

abbrev player_pattern : Pattern
player_pattern = record {
  method = codes "GET";
  segments =
      literal (codes "api")
      ∷ literal (codes "v1")
      ∷ literal (codes "players")
      ∷ wildcard (codes "player_id")
      ∷ [];
  endpoint = Endpoint.get_player;
}

route-Fits_example :
    route (codes "HEAD") (codes "/api/v1/players/p1")
    ≡ to_endpoint Endpoint.get_player ((codes "player_id", codes "p1") ∷ [])
unfolding match_segments method_fits path_segments segments_from text_eq new_mux
route-Fits_example =
    route-Fits (codes "HEAD") (codes "/api/v1/players/p1") player_pattern
      ((codes "player_id", codes "p1") ∷ [])
      (Memᴰ.tail (Memᴰ.tail (Memᴰ.tail (Memᴰ.tail (Memᴰ.head refl))))) (refl, refl)

abbrev path_ids : List (Text × Text)
path_ids = (codes "board_id", codes "b1") ∷ (codes "player_id", codes "p1") ∷ []

route-score_path_example :
    (route (codes "PUT") (score_path (codes "b1") (codes "p1"))
      ≡ to_endpoint Endpoint.set_score path_ids)
    × (route (codes "POST") (score_path (codes "b1") (codes "p1") ++ codes "/increment")
        ≡ to_endpoint Endpoint.increment_score path_ids)
    × (route (codes "GET") (score_path (codes "b1") (codes "p1"))
        ≡ to_endpoint Endpoint.get_rank path_ids)
    × (route (codes "GET") (score_path (codes "b1") (codes "p1") ++ codes "/history")
        ≡ to_endpoint Endpoint.get_history path_ids)
route-score_path_example =
    route-score_path (codes "b1") (codes "p1") ((λ e. cc), (refl, (refl, tt)))
      ((λ e. cc), (refl, (refl, tt)))

-- A service whose answer to any request is one player at the top.
abbrev top : Standing
top = record { player_id = codes "p2"; rank = pos 1; score = pos 9 }

abbrev second : Standing
second = record { player_id = codes "p1"; rank = pos 2; score = pos 4 }

abbrev two_rows : Service
two_rows = record {
  State = Unit {0};
  Body = Standing;
  execute = λ method path body s. (
    ok (
      200,
      elim (text_eq path (score_path (codes "b1") (codes "p2"))) [ true ↦ top | false ↦ second ],
    ),
    s,
  );
  player_id_of = λ b. b.player_id;
  standing_of = λ b. b;
  activity_of = λ b. record { date = []; entries = [] };
  mismatches_of = λ b. 0;
  scores_of = λ b. record { scores = b ∷ []; limit = pos 0; offset = pos 0; total = pos 1 };
  history_of = λ b. record { player_id = b.player_id; events = [] };
}

abbrev fanned_out : List Player
fanned_out =
    record { id = codes "p2"; score = pos 9 } ∷ record { id = codes "p1"; score = pos 4 } ∷ []

verify_ranking-IsRanked_example :
    (2 ≡ length fanned_out)
    × Permᴰ (map shown (top ∷ second ∷ [])) fanned_out
    × IsRanked 1 none (top ∷ second ∷ [])
unfolding verify_ranking verify_rows verify_row cross_check fetch_standing do_json score_path
    text_eq
verify_ranking-IsRanked_example =
    verify_ranking-IsRanked two_rows (λ ps. ps) (codes "b1") fanned_out (top ∷ second ∷ []) 2 tt
      (λ ps. Permᴰ.refl ps) refl
