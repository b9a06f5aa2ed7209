-- ===== src/Examples/System.antt =====
-- The theorems on the system, its rebuilds and its verification at concrete inputs.
use apex_leaderboard.Prelude.{inr, List, [], ◌∷◌, some, ◌≡◌, refl, arith, inl, ◌↔◌}
use apex_leaderboard.Prelude.Int.{pos, ◌+ℤ◌}
use apex_leaderboard.Prelude.Text.{cut, Text, codes, text_eq}
use apex_leaderboard.Prelude.Exec.{ok, err}
use apex_leaderboard.Platform.Demo.{stream, demo, demo_laws, hash, zset, Num}
use apex_leaderboard.Redis.{Server, store}
use apex_leaderboard.Ledger.{EventType}
use apex_leaderboard.Storage.Client.{World, lost_reply}
use apex_leaderboard.Storage.Keys.{
  leaderboard_key, ledger_key, idempotency_hash_key, player_profile_key, board_profile_key,
}
use apex_leaderboard.Storage.Apply.{script_args}
use apex_leaderboard.Storage.Replay.{IsConsistent, as_float, ledger_score}
use apex_leaderboard.Storage.Apply.Script.{
  apply_score_event, check_idempotency, check_existence, check_range, current_score,
}
use apex_leaderboard.Storage.Entry.Decode.{event_of}
use apex_leaderboard.Storage.Replay.Outcome.{calm}
use apex_leaderboard.Storage.Admin.{rebuild_projection}
use apex_leaderboard.Examples.Data.{
  first_entry, alice, alice_writes, chess, drifted, drifted-IsTyped, first_entry-InRange,
  first_entry-decodes, seeded, seeded-IsConsistent,
}
use apex_leaderboard.Storage.Replay.Operations.{IsAdmissible}
use apex_leaderboard.Decimal.{format_int, parse_int, format_nat}
use apex_leaderboard.Consumer.{run}
use apex_leaderboard.Consumer.Views.{new_daily_activity_consumer}
use apex_leaderboard.Consumer.Counts.{tally, tally_score}
use apex_leaderboard.Consumer.Activity.{daily_activity-exact}
use apex_leaderboard.Consumer.History.{apply_player_history-twice}
use apex_leaderboard.Storage.Views.{apply_player_history, stream_id_score, packed_id}
use apex_leaderboard.Storage.Views.Batches.{decoded}
use apex_leaderboard.Storage.Keys.{activity_daily_key, consumer_cursor_key, player_history_key}
use apex_leaderboard.Ledger.{Event}
use apex_leaderboard.ApexTime.{format_stream_id}
use apex_leaderboard.Prelude.Int.{wrap64, ◌+ℤ◌}
use apex_leaderboard.System.{request, index_history, rebuild, done, next, steps-IsConsistent}
use apex_leaderboard.Storage.Interface.{Operation, perform}
use apex_leaderboard.Storage.Admin.{ScoreMismatch, verify_projection}
use apex_leaderboard.Storage.Admin.Repair.{rebuild_projection-IsConsistent}
use apex_leaderboard.Storage.Admin.Verify.{Agrees, verify_projection-exact}
use apex_leaderboard.Storage.Admin.Rebuild.{IsApart}
use apex_leaderboard.Storage.Apply.Partial.{half_written}
use apex_leaderboard.Storage.Keys.{board_verify_key}
use apex_leaderboard.Redis.{wrong_type}
use apex_leaderboard.Consumer.{process_once}
use apex_leaderboard.Consumer.Views.{new_player_history_consumer}

-- A rebuild, a write whose reply is lost, and a round of a consumer.
abbrev one_lost : World demo
one_lost = record { server = seeded; link = record { others = λ s. s; fate = lost_reply } ∷ [] }

abbrev rebuilt : World demo
rebuilt = record one_lost { server = (rebuild_projection demo chess (calm seeded)).1.server }

abbrev write_40 : Operation
write_40 = Operation.set_score alice chess (pos 40) (codes "r1") (codes "k1")

write_40-IsAdmissible : IsAdmissible demo write_40
unfolding IsAdmissible
write_40-IsAdmissible = alice_writes (pos 40) (ground arith)

abbrev written_to : World demo
written_to = (perform demo write_40 rebuilt).1

steps-IsConsistent_example :
    IsConsistent demo (process_once (new_player_history_consumer demo) written_to).1.server
steps-IsConsistent_example =
    steps-IsConsistent demo demo_laws one_lost
      (process_once (new_player_history_consumer demo) written_to).1
      (seeded-IsConsistent, ((λ s h. h), tt))
      (next (rebuild one_lost chess) (
        next (request rebuilt write_40 write_40-IsAdmissible)
          (next (index_history written_to) done)))

rebuild_projection-IsConsistent_example :
    (s' : Server demo) × (rebuild_projection demo chess (
        calm (store (leaderboard_key chess) (zset ((codes "nobody", Num.int (pos 7)) ∷ [])) seeded))
      ≡ (ok tt, calm s'))
    × IsConsistent demo s'
unfolding text_eq board_profile_key player_profile_key
rebuild_projection-IsConsistent_example =
    rebuild_projection-IsConsistent demo demo_laws chess
      (zset ((codes "nobody", Num.int (pos 7)) ∷ [])) seeded (λ e. ground arith) seeded-IsConsistent

verify_projection-exact_example :
    (found : List (ScoreMismatch demo)) × (s' : Server demo) × (verify_projection demo chess
        (calm drifted)
      ≡ (ok found, calm s'))
    × ((found ≡ []) ↔ (
        (p : Text)
        → Agrees demo
            (as_float demo (ledger_score demo drifted chess p))
            (demo.zscore p (drifted.at (leaderboard_key chess)))))
    × IsApart demo (board_verify_key chess) drifted s'
unfolding text_eq board_profile_key leaderboard_key ledger_key player_profile_key
verify_projection-exact_example =
    verify_projection-exact demo chess demo_laws drifted (λ e. ground arith) drifted-IsTyped
      (
        (
          event_of (record { ms = 5; seq = 0 }) EventType.set alice chess (pos 40) (codes "r1"),
          first_entry-decodes,
        ),
        tt,
      )
      first_entry-InRange

-- Something else was stored where the ledger belongs.
abbrev no_ledger : Server demo
no_ledger = store ledger_key (hash []) seeded

half_written_example :
    (s' : Server demo) × (apply_score_event demo
        (script_args EventType.set alice chess (pos 40) (codes "r1") [])
        no_ledger
      ≡ (err wrong_type, s'))
    × (demo.zscore alice (s'.at (leaderboard_key chess)) ≡ some (Num.int (pos 40)))
    × (s'.at ledger_key ≡ no_ledger.at ledger_key)
unfolding text_eq player_profile_key board_profile_key leaderboard_key ledger_key
    idempotency_hash_key script_args check_idempotency check_existence check_range current_score
    format_int format_nat parse_int ◌+ℤ◌
half_written_example =
    half_written demo demo_laws alice chess (pos 40) (codes "r1") [] no_ledger (ground arith)
      (inl refl) refl refl refl refl

-- A ledger with one event, and nothing derived from it.
abbrev unread : Server demo
unread = store ledger_key (stream (first_entry ∷ [])) seeded

daily_activity-exact_example :
    (s' : Server demo) × (run (new_daily_activity_consumer demo) 1 (calm unread) ≡ calm s')
    × ((d p : Text)
        → demo.zscore p (s'.at (activity_daily_key d))
          ≡ tally_score demo (tally demo d p (decoded demo (first_entry ∷ []))))
unfolding text_eq ledger_key activity_daily_key consumer_cursor_key player_profile_key
    board_profile_key
daily_activity-exact_example =
    daily_activity-exact demo demo_laws unread 1 (inr refl)
      (ground arith, ground arith, ground arith, tt) (ground arith) refl (λ d. refl) (ground arith)

abbrev read_event : Event
read_event = event_of (record { ms = 5; seq = 0 }) EventType.set alice chess (pos 40) (codes "r1")

apply_player_history-twice_example :
    (s1 : Server demo) × (s2 : Server demo) × (apply_player_history demo
        (read_event ∷ [])
        (calm seeded)
      ≡ (ok tt, calm s1))
    × (apply_player_history demo (read_event ∷ []) (calm s1) ≡ (ok tt, calm s2))
    × ((k m : Text) → demo.zscore m (s2.at k) ≡ demo.zscore m (s1.at k))
unfolding text_eq player_history_key player_profile_key board_profile_key stream_id_score packed_id
    format_stream_id format_int format_nat parse_int wrap64 ◌+ℤ◌ cut
apply_player_history-twice_example =
    apply_player_history-twice demo demo_laws (read_event ∷ []) seeded ((_, refl), tt)
      (λ p b. inl refl)
