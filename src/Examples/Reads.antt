-- ===== src/Examples/Reads.antt =====
-- The theorems on reads after writes at concrete inputs.
use apex_leaderboard.Prelude.{
  ℕ, ◌-◌, [], none, some, true, ◌≡◌, ◌↔◌, refl, arith, length, List, leb, if◌then◌else◌,
}
use apex_leaderboard.Prelude.Int.{pos}
use apex_leaderboard.Prelude.Text.{codes, text_eq}
use apex_leaderboard.Prelude.Exec.{ok}
use apex_leaderboard.Platform.Demo.{demo, demo_laws}
use apex_leaderboard.Redis.{Server}
use apex_leaderboard.Score.{validate}
use apex_leaderboard.Ledger.{EventType}
use apex_leaderboard.Storage.Keys.{player_profile_key, board_profile_key}
use apex_leaderboard.Storage.Apply.{apply_event}
use apex_leaderboard.Storage.Standings.{Standing, get_standing, list_standings}
use apex_leaderboard.Storage.Standings.Exact.{Shows, get_standing-ledger}
use apex_leaderboard.Storage.Standings.Rows.{IsWindow, Falls}
use apex_leaderboard.Storage.Standings.Page.{list_standings-get_standing}
use apex_leaderboard.Storage.Replay.{IsConsistent, ledger_score}
use apex_leaderboard.Storage.Replay.Outcome.{calm}
use apex_leaderboard.Storage.Replay.Standing.{score_after, apply_event-get_standing}
use apex_leaderboard.Handlers.Scores.{WriteReq, handle_set_score, handle_get_rank}
use apex_leaderboard.Handlers.Scores.Writes.{handle_write-IsConsistent}
use apex_leaderboard.Handlers.Scores.Answers.{
  passes, IsOpenFor, Ranks, handle_set_score_iff, handle_get_rank-handle_set_score,
}
use apex_leaderboard.Examples.Data.{alice, alice_writes, chess, seeded, seeded-IsConsistent}

abbrev put : WriteReq
put = record {
  board_id = chess;
  player_id = alice;
  idempotency_key = none;
  body = ok (some (pos 40));
  context_id = [];
  fresh_id = codes "r1";
}

-- The server after one write.
abbrev played : Server demo
played = (handle_set_score demo put (calm seeded)).1.server

played-IsConsistent : IsConsistent demo played
played-IsConsistent =
    (handle_write-IsConsistent demo demo_laws put (calm seeded) (λ e. ground arith) tt
      seeded-IsConsistent).0

get_standing-ledger_example :
    Shows alice
      (ledger_score demo played chess alice)
      (get_standing demo alice chess (calm played)).0
get_standing-ledger_example =
    get_standing-ledger demo demo_laws chess played alice played-IsConsistent

list_standings-get_standing_example :
    (page : List Standing) × (total : ℕ) × ((list_standings demo chess
        (pos 10)
        (pos 0)
        (calm played)).0
      ≡ ok (page, total))
    × (length page ≡ (if leb 10 total then 10 else total - 0))
    × IsWindow demo chess played total 0 page
    × Falls page
list_standings-get_standing_example =
    list_standings-get_standing demo demo_laws chess played 0 9 played-IsConsistent (omega arith)

apply_event-get_standing_example :
    let done =
      apply_event demo EventType.increment alice chess (pos 2) (codes "r1") [] (calm played) in
    Shows alice
      (score_after demo played EventType.increment alice chess (pos 2) done.0 chess alice)
      (get_standing demo alice chess done.1).0
apply_event-get_standing_example =
    apply_event-get_standing demo demo_laws EventType.increment alice chess (pos 2) (codes "r1")
      played (alice_writes (pos 2) (ground arith)) played-IsConsistent chess alice

alice_may_play : (passes demo put (pos 40) ≡ true) × IsOpenFor demo put seeded
unfolding text_eq player_profile_key board_profile_key validate
alice_may_play = (refl, (refl, refl, refl))

handle_set_score_iff_example :
    ((handle_set_score demo put (calm seeded)).0 ≡ ok tt)
    ↔ ((passes demo put (pos 40) ≡ true) × IsOpenFor demo put seeded)
handle_set_score_iff_example =
    handle_set_score_iff demo demo_laws put (pos 40) seeded refl refl seeded-IsConsistent

put_succeeds : (handle_set_score demo put (calm seeded)).0 ≡ ok tt
put_succeeds =
    (handle_set_score_iff demo demo_laws put (pos 40) seeded refl refl seeded-IsConsistent).1
      alice_may_play

handle_get_rank-handle_set_score_example :
    Ranks put
      (pos 40)
      (handle_get_rank demo chess alice (handle_set_score demo put (calm seeded)).1).0
handle_get_rank-handle_set_score_example =
    handle_get_rank-handle_set_score demo demo_laws put (pos 40) seeded refl refl
      (λ e. ground arith) seeded-IsConsistent put_succeeds
