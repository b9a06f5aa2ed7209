-- ===== src/Examples/Scripts.antt =====
-- The theorems on the startup, the serving and the scripts at concrete inputs.
use apex_leaderboard.Prelude.{
  ℕ, ◌+◌, List, [], ◌∷◌, Option, none, some, true, false, ◌≡◌, refl, arith, length, ltb,
  if◌then◌else◌,
}
use apex_leaderboard.Prelude.Int.{ℤ, pos, negsuc, ◌+ℤ◌, ◌-ℤ◌, wrap64}
use apex_leaderboard.Prelude.Text.{Text, codes, text_eq}
use apex_leaderboard.Prelude.Exec.{ok, err}
use apex_leaderboard.Server.RateLimit.{RateLib}
use apex_leaderboard.Server.Middleware.{write_header, write, other_panic}
use apex_leaderboard.Server.Chain.{HttpHandler, Request, serve}
use apex_leaderboard.Server.Chain.Lines.{LogsWhatWentOut, serve-LogsWhatWentOut}
use apex_leaderboard.Consumer.{Consumer}
use apex_leaderboard.ClientStartup.{Probe, ping_with_retry, ping_with_retry-ends}
use apex_leaderboard.ApiScripts.{
  Service, ListDailyActivityResp, RequestBody, number, do_json, set_score, increment_score,
}
use apex_leaderboard.ApiScripts.DailyActivity.{
  ActivityPlayer, wait_for_activity, Shows, wait_for_activity-Shows, count_of, has_expected_counts,
}
use apex_leaderboard.ApiScripts.RandomEvents.{
  Rng, ShowsWrites, write_random_events, write_random_events-shown,
}
use apex_leaderboard.RandomHistory.{ExpectedEvent}
use apex_leaderboard.ApiScripts.Load.{
  CountsIncrements, increment_request, run_increment_load, run_increment_load-exact, times,
  verify_final_score,
}

-- A Redis that never answers.
abbrev silent : ℕ → Option Text × ℕ
silent now = (some (codes "refused"), now)

ping_with_retry-ends_example : (p : Probe) × (ping_with_retry silent 21 0 none ≡ some p)
ping_with_retry-ends_example = ping_with_retry-ends silent (λ now. omega arith)

-- A day on which one player is listed from the time 250 on.
abbrev fetched : ℕ → ListDailyActivityResp
fetched now = record {
  date = codes "2026-01-01";
  entries = record { player_id = codes "p1"; count = pos 3 } ∷ [];
}

abbrev p1 : ActivityPlayer
p1 = record { id = codes "p1"; expected_count = pos 3 }

wait_for_activity-Shows_example :
    (a : ListDailyActivityResp) × (wait_for_activity
        (λ now. (ok (fetched now), now))
        (codes "2026-01-01")
        (p1 ∷ [])
        152
        15000
      ≡ some (ok a))
    × Shows (λ now. (ok (fetched now), now)) (codes "2026-01-01") (p1 ∷ []) a
unfolding count_of text_eq has_expected_counts
wait_for_activity-Shows_example =
    wait_for_activity-Shows (λ now. (ok (fetched now), now)) (codes "2026-01-01") (p1 ∷ []) 15000 0
      0 151 (λ now. omega arith) (λ now. omega arith)
      (λ now _. (fetched now, refl, (refl, (refl, tt)))) (λ now e k. cc) (omega arith) (omega arith)

-- A service that holds one score.
abbrev amount_in : RequestBody → ℤ
amount_in (some ((_, number n) ∷ [])) = n
amount_in _ = pos 0

abbrev one_score : Service
one_score = record {
  State = ℤ;
  Body = Unit {0};
  execute = λ method path body s. (
    ok (204, tt),
    elim (text_eq method (codes "PUT")) [ true ↦ amount_in body | false ↦ s +ℤ amount_in body ],
  );
  player_id_of = λ _. codes "p1";
  standing_of = λ _. record { player_id = codes "p1"; rank = pos 1; score = pos 0 };
  activity_of = λ _. fetched 0;
  mismatches_of = λ _. 0;
  scores_of = λ _. record { scores = []; limit = pos 0; offset = pos 0; total = pos 0 };
  history_of = λ _. record { player_id = []; events = [] };
}

one_score_shows : ShowsWrites one_score (codes "b1") (codes "p1")
unfolding set_score increment_score do_json text_eq
one_score_shows = record {
  shown = some;
  after_set = λ n s _. refl;
  after_increment = λ n m s e _. ground arith;
}

-- A generator that draws 20 wherever it can.
abbrev twenties : Rng
twenties = record { State = Unit {0}; int_n = λ n g. (if ltb 20 n then 20 else 0, g) }

one_score_counts : CountsIncrements one_score (codes "/increment")
unfolding increment_request do_json text_eq
one_score_counts = record { shown = λ s. s; after_increment = λ n s _. refl }

abbrev two_events : List ExpectedEvent
two_events =
    record { event_type = codes "set"; amount = pos 20 }
    ∷ record { event_type = codes "increment"; amount = negsuc 29 }
    ∷ []

write_random_events-shown_example : (some (negsuc 9) ≡ some (negsuc 9)) × (length two_events ≡ 2)
unfolding write_random_events set_score increment_score do_json text_eq one_score_shows wrap64 ◌+ℤ◌
    ◌-ℤ◌
write_random_events-shown_example =
    write_random_events-shown one_score twenties (codes "b1") (codes "p1") one_score_shows
      (λ n g h. ground (arith, h)) 1 tt (pos 7) two_events (negsuc 9) (omega arith) refl

run_increment_load-exact_example :
    let (result, s') =
      run_increment_load one_score
        (codes "/increment")
        (pos 3)
        (2 ∷ 1 ∷ [])
        (record { succeeded = 0; errors = [] })
        (pos 0) in
    (result.succeeded + length result.errors ≡ 2)
    × (result.errors ≡ [] → verify_final_score s' 2 (pos 3) ≡ true)
unfolding one_score_counts times ◌+ℤ◌
run_increment_load-exact_example =
    run_increment_load-exact one_score (codes "/increment") (pos 3) one_score_counts (2 ∷ 1 ∷ [])
      (pos 0) refl (omega arith)

-- The mux behind the middleware has written half of an answer when it panics.
abbrev half_answered : HttpHandler
half_answered req = record { calls = write 5 ∷ []; panic = some other_panic }

abbrev a_request : Request
a_request = record {
  method = codes "GET";
  path = codes "/healthz";
  remote_addr = codes "10.0.0.1:80";
  context = none;
}

abbrev no_limits : RateLib
no_limits = record {
  Limiter = Unit {0};
  new_limiter = tt;
  allow_at = λ now l. (true, l);
  split_host = some;
}

serve-LogsWhatWentOut_example : LogsWhatWentOut (codes "r1") a_request (
    serve no_limits
      (λ status. write_header status ∷ [])
      (codes "r1")
      0
      (some [])
      half_answered
      a_request)
unfolding text_eq
serve-LogsWhatWentOut_example =
    serve-LogsWhatWentOut no_limits (λ status. write_header status ∷ []) (codes "r1") 0 (some [])
      half_answered a_request refl (λ r. tt) (refl, tt) (refl, tt)

-- A consumer that waits five seconds for entries.
abbrev waits_five : Consumer (Unit {0}) Text
waits_five = record {
  id = codes "c1";
  store = record {
    load_cursor = λ name s. (ok none, s);
    save_cursor = λ name cursor s. (ok tt, s);
    read_ledger_batch = λ cursor n s. (err (codes "no Redis"), s);
  };
  apply = λ events s. (ok tt, s);
  block_duration = 5_000_000_000;
}
