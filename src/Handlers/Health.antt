-- ===== src/Handlers/Health.antt =====
-- handlers/health_handler.go. The timeout of the ping is one more way for its request to be lost.
use apex_leaderboard.Prelude.{ℕ, []}
use apex_leaderboard.Prelude.Text.{Text, codes}
use apex_leaderboard.Prelude.Exec.{Result, ok, err}
use apex_leaderboard.Platform.{Platform}
use apex_leaderboard.Storage.Client.{StorageError, World}
use apex_leaderboard.Storage.Interface.{send_ping}

pub record HealthResp : Type 0 where
  pub status : Text
  pub dependency : Text

abbrev healthy : ℕ × HealthResp
healthy = (200, record { status = codes "ok"; dependency = [] })

unfoldable pub handle_live : ℕ × HealthResp
handle_live = healthy

unfoldable pub readiness : Result StorageError (Unit {0}) → ℕ × HealthResp
readiness (ok tt) = healthy
readiness (err e) = (503, record { status = codes "unavailable"; dependency = codes "redis" })

module _ (P : Platform) where
  unfoldable pub handle_ready : World P → (ℕ × HealthResp) × World P
  handle_ready w = let (r, w') = send_ping P w in (readiness r, w')
