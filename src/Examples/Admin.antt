-- ===== src/Examples/Admin.antt =====
-- The theorems on replays and views at concrete inputs.
use apex_leaderboard.Storage.Standings.{Standing}
use apex_leaderboard.Storage.Standings.{Standing}
use apex_leaderboard.Prelude.{List, ℕ, ◌^◌, ◌<◌, [], ◌∷◌, none, some, false, ◌≡◌, arith, ◌↔◌}
use apex_leaderboard.Prelude.Int.{pos, negsuc, ◌+ℤ◌, IsInt64}
use apex_leaderboard.Prelude.Text.{Text, codes, text_eq}
use apex_leaderboard.Prelude.Exec.{ok}
use apex_leaderboard.Platform.Demo.{demo, demo_laws}
use apex_leaderboard.Platform.{StreamId}
use apex_leaderboard.Redis.{Server}
use apex_leaderboard.Ledger.{EventType}
use apex_leaderboard.Storage.Keys.{
  leaderboard_key, ledger_key, player_profile_key, board_profile_key,
}
use apex_leaderboard.Storage.Replay.{as_float, ledger_score, replay}
use apex_leaderboard.Storage.Entry.Decode.{event_of}
use apex_leaderboard.Storage.Replay.Outcome.{calm}
use apex_leaderboard.ApexTime.{format_stream_id}
use apex_leaderboard.Storage.Admin.{rebuild_projection}
use apex_leaderboard.Storage.Admin.Rebuild.{rebuild_projection-restores}
use apex_leaderboard.Storage.AsOf.{Scores, score_in, sum_overflows, replay_entries}
use apex_leaderboard.Storage.AsOf.Agreement.{replay_entries-replay}
use apex_leaderboard.Storage.AsOf.Overflow.{sum_overflows_exact}
use apex_leaderboard.Storage.Views.{packed_id}
use apex_leaderboard.Storage.Views.Order.{Before, packed_id_order}
use apex_leaderboard.Examples.Data.{
  alice, chess, drifted, drifted-IsTyped, first_entry, first_entry-InRange, first_entry-decodes,
}

sum_overflows_exact_example :
    (sum_overflows (pos 7) (negsuc 8) ≡ false) ↔ IsInt64 (pos 7 +ℤ negsuc 8)
sum_overflows_exact_example = sum_overflows_exact (pos 7) (negsuc 8) (ground arith) (ground arith)

abbrev early_id : StreamId
early_id = record { ms = 1_700_000_000_000; seq = 4095 }

abbrev late_id : StreamId
late_id = record { ms = 1_700_000_000_001; seq = 0 }

packed_id_order_example :
    (m : ℕ) × (n : ℕ) × (packed_id (format_stream_id early_id) ≡ some (pos m))
    × (packed_id (format_stream_id late_id) ≡ some (pos n))
    × (m < 2 ^ 53)
    × (n < 2 ^ 53)
    × ((m < n) ↔ Before early_id late_id)
packed_id_order_example =
    packed_id_order early_id late_id (record { ms = ground arith; seq = ground arith })
      (record { ms = ground arith; seq = ground arith })

replay_entries-replay_example :
    (m : Scores) × (replay_entries demo chess (first_entry ∷ []) [] ≡ ok m)
    × ((p : Text) → score_in p m ≡ replay demo chess p none (first_entry ∷ []))
replay_entries-replay_example =
    replay_entries-replay demo chess (first_entry ∷ [])
      (
        (
          event_of (record { ms = 5; seq = 0 }) EventType.set alice chess (pos 40) (codes "r1"),
          first_entry-decodes,
        ),
        tt,
      )
      first_entry-InRange

rebuild_projection-restores_example :
    (s' : Server demo) × (rebuild_projection demo chess (calm drifted) ≡ (ok tt, calm s'))
    × ((p : Text)
        → demo.zscore p (s'.at (leaderboard_key chess))
          ≡ as_float demo (ledger_score demo drifted chess p))
unfolding text_eq board_profile_key leaderboard_key ledger_key player_profile_key
rebuild_projection-restores_example =
    rebuild_projection-restores demo demo_laws chess drifted (λ e. ground arith) drifted-IsTyped
      (
        (
          event_of (record { ms = 5; seq = 0 }) EventType.set alice chess (pos 40) (codes "r1"),
          first_entry-decodes,
        ),
        tt,
      )
      first_entry-InRange

abbrev two_rows : List Standing
two_rows =
    record { player_id = alice; score = pos 40; rank = pos 1 }
    ∷ record { player_id = codes "bob-0001"; score = pos 7; rank = pos 2 }
    ∷ []
