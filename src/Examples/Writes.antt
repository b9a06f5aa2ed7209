-- ===== src/Examples/Writes.antt =====
-- The theorems on score writes at concrete inputs.
use apex_leaderboard.Prelude.{[], some, ◌≡◌, ◌≢◌, refl, arith, ◌⊎◌}
use apex_leaderboard.Prelude.Int.{ℤ, pos, negsuc, ◌+ℤ◌}
use apex_leaderboard.Prelude.Text.{Text, codes, text_eq}
use apex_leaderboard.Prelude.Exec.{ok}
use apex_leaderboard.Platform.Demo.{demo, demo_laws}
use apex_leaderboard.Score.{IsScore}
use apex_leaderboard.Ledger.{EventType}
use apex_leaderboard.Storage.Keys.{
  leaderboard_key, ledger_key, idempotency_hash_key, player_profile_key, board_profile_key,
}
use apex_leaderboard.Storage.Apply.{apply_event, script_args}
use apex_leaderboard.Storage.Replay.{IsConsistent}
use apex_leaderboard.Storage.Apply.Script.{
  Args, apply_score_event, check_idempotency, check_existence, check_range, current_score, commit,
  write_projection, append_event, record_key, dedupe_field, idempotency_record, event_fields,
  code_deduped, code_conflict, code_out_of_range,
}
use apex_leaderboard.Storage.Apply.Steps.{rejected_unchanged}
use apex_leaderboard.Storage.Entry.{entry_to_event}
use apex_leaderboard.Storage.Entry.Decode.{written, event_of, entry_to_event-written}
use apex_leaderboard.Storage.Replay.Outcome.{calm, verdict, apply_event-verdict, retry_answers}
use apex_leaderboard.Handlers.Scores.{WriteReq, handle_set_score, handle_increment_score}
use apex_leaderboard.Handlers.Scores.Writes.{handle_write-IsConsistent}
use apex_leaderboard.Decimal.{format_int, parse_int, format_nat}
use apex_leaderboard.ApexTime.{format_stream_id}
use apex_leaderboard.Storage.Replay.Apply.{apply_event-IsConsistent}
use apex_leaderboard.Examples.Data.{
  alice, alice_writes, chess, cut_off, seeded, seeded-IsConsistent, seeded-IsTyped,
}

apply_event-IsConsistent_example :
    IsConsistent demo
      (apply_event demo EventType.set alice chess
        (pos 40)
        (codes "r1")
        (codes "k1")
        cut_off).1.server
apply_event-IsConsistent_example =
    apply_event-IsConsistent demo demo_laws EventType.set alice chess (pos 40) (codes "r1")
      (codes "k1") cut_off (alice_writes (pos 40) (ground arith)) ((λ s h. h), tt)
      seeded-IsConsistent

abbrev request : WriteReq
request = record {
  board_id = chess;
  player_id = alice;
  idempotency_key = some (codes "k1");
  body = ok (some (pos 40));
  context_id = [];
  fresh_id = codes "r1";
}

handle_write-IsConsistent_example :
    IsConsistent demo (handle_set_score demo request cut_off).1.server
    × IsConsistent demo (handle_increment_score demo request cut_off).1.server
handle_write-IsConsistent_example =
    handle_write-IsConsistent demo demo_laws request cut_off (λ e. ground arith) ((λ s h. h), tt)
      seeded-IsConsistent

-- An increment that would leave the range is refused.
apply_event-verdict_example :
    (apply_event demo EventType.increment alice chess (negsuc 10) (codes "r1") [] (calm seeded)).0
    ≡ verdict demo seeded EventType.increment alice chess (negsuc 10)
apply_event-verdict_example =
    apply_event-verdict demo demo_laws EventType.increment alice chess (negsuc 10) (codes "r1")
      seeded (ground arith) seeded-IsConsistent

abbrev first_try : Args
first_try = script_args EventType.set alice chess (pos 40) (codes "r1") (codes "k1")

-- Beyond the range.
abbrev refused : Args
refused = script_args EventType.set alice chess (pos 10_000_000_000_001) (codes "r1") []

retry_answers_example :
    let s' = (apply_score_event demo first_try seeded).1 in
    ((req' : Text)
      → apply_score_event demo (script_args EventType.set alice chess (pos 40) req' (codes "k1")) s'
        ≡ (ok (code_deduped, codes "5-0"), s'))
    × ((type' : EventType) (n' : ℤ) (req' : Text)
        → IsScore n'
        → (EventType.set ≢ type') ⊎ (pos 40 ≢ n')
        → apply_score_event demo (script_args type' alice chess n' req' (codes "k1")) s'
          ≡ (ok (code_conflict, []), s'))
unfolding text_eq player_profile_key board_profile_key leaderboard_key ledger_key
    idempotency_hash_key script_args apply_score_event check_idempotency check_existence check_range
    current_score commit write_projection append_event record_key dedupe_field idempotency_record
    event_fields format_stream_id format_int format_nat parse_int ◌+ℤ◌
retry_answers_example =
    retry_answers demo demo_laws EventType.set alice chess (pos 40) (codes "r1") (codes "k1") seeded
      (ground arith) seeded-IsTyped (λ e. ground arith) (codes "5-0") refl

rejected_unchanged_example : (apply_score_event demo refused seeded).1 ≡ seeded
unfolding text_eq player_profile_key board_profile_key leaderboard_key ledger_key
    idempotency_hash_key script_args apply_score_event check_idempotency check_existence check_range
    current_score commit write_projection append_event record_key dedupe_field idempotency_record
    event_fields format_stream_id format_int format_nat parse_int ◌+ℤ◌
rejected_unchanged_example =
    rejected_unchanged demo refused seeded (code_out_of_range, []) refl (λ e. ground arith)

entry_to_event-written_example :
    entry_to_event demo
      (written (record { ms = 5; seq = 0 }) EventType.set alice chess (pos 40) (codes "r1") [])
    ≡ ok (event_of (record { ms = 5; seq = 0 }) EventType.set alice chess (pos 40) (codes "r1"))
entry_to_event-written_example =
    entry_to_event-written demo demo_laws (record { ms = 5; seq = 0 }) EventType.set alice chess
      (pos 40) (codes "r1") [] (alice_writes (pos 40) (ground arith))
