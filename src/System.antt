-- ===== src/System.antt =====
-- main.go: the requests of the server and the rounds of the two consumers, in any order, on one
-- Redis server. What else uses that server is in the turns of the world.
use apex_leaderboard.Prelude.{sym}
use mathlib.Core.Path.{subst}
use apex_leaderboard.Prelude.Text.{Text}
use apex_leaderboard.Platform.{Platform}
use apex_leaderboard.Platform.Laws.{PlatformLaws}
use apex_leaderboard.Storage.Client.{World}
use apex_leaderboard.Storage.Keeps.{Holds, Respects}
use apex_leaderboard.Storage.Interface.{Operation, perform}
use apex_leaderboard.Storage.Replay.{IsConsistent}
use apex_leaderboard.Storage.Replay.Outcome.{calm}
use apex_leaderboard.Storage.Admin.{rebuild_projection}
use apex_leaderboard.Storage.Admin.Repair.{rebuild_projection-keeps}
use apex_leaderboard.Storage.Replay.Operations.{IsAdmissible, perform-Respects}
use apex_leaderboard.Storage.Replay.Projections.{
  apply_player_history-Respects, apply_daily_counts-Respects, load_cursor-Respects,
  save_cursor-Respects, read_ledger_batch-Respects,
}
use apex_leaderboard.Consumer.{process_once, process_once-Stable}
use apex_leaderboard.Consumer.Views.{
  daily_ttl, new_daily_activity_consumer, new_player_history_consumer,
}

module _ (P : Platform) where
  -- One step of the program.
  pub data Step : World P → World P → Type 0 where
    request : (w : World P) (op : Operation) → IsAdmissible P op → Step w (perform P op w).1
    count_activity : (w : World P) → Step w (process_once (new_daily_activity_consumer P) w).1
    index_history : (w : World P) → Step w (process_once (new_player_history_consumer P) w).1
    -- A rebuild that is cut off leaves its projection half done until the next, so none of its
    -- requests is lost here, and no turn comes up while it runs. The turns are there for what
    -- follows.
    rebuild :
        (w : World P) (b : Text)
        → Step w (record w { server = (rebuild_projection P b (calm w.server)).1.server })

  pub data Steps : World P → World P → Type 0 where
    done : {w : World P} → Steps w w
    next : {u v w : World P} → Step u v → Steps v w → Steps u w

  daily_round-Respects : Respects P (IsConsistent P) (process_once (new_daily_activity_consumer P))
  daily_round-Respects =
      process_once-Stable (new_daily_activity_consumer P) (Holds P (IsConsistent P))
        (load_cursor-Respects P _) (save_cursor-Respects P _) (read_ledger_batch-Respects P)
        (λ es. apply_daily_counts-Respects P es daily_ttl)

  history_round-Respects :
      Respects P (IsConsistent P) (process_once (new_player_history_consumer P))
  history_round-Respects =
      process_once-Stable (new_player_history_consumer P) (Holds P (IsConsistent P))
        (load_cursor-Respects P _) (save_cursor-Respects P _) (read_ledger_batch-Respects P)
        (apply_player_history-Respects P)

  module _ (L : PlatformLaws P) where
    step-Holds :
        (v w : World P) → Step v w → Holds P (IsConsistent P) v → Holds P (IsConsistent P) w
    step-Holds v w (request _ op ok) h = (perform-Respects P L op ok).keeps v h
    step-Holds v w (count_activity _) h = daily_round-Respects.keeps v h
    step-Holds v w (index_history _) h = history_round-Respects.keeps v h
    step-Holds v _ (rebuild _ b) h =
        let (s', run, sound) = rebuild_projection-keeps P L b v.server h.0 in
        (subst (λ x. IsConsistent P x.server) (sym run) sound, h.1)

    -- Whatever requests the server answers, whatever boards are rebuilt and whatever rounds the
    -- two consumers go, in any order, the Redis server stays consistent, whatever becomes of the
    -- connection, where others keep it so too, writes are of a valid player id, nonempty ids and
    -- an amount that is a score, and each rebuild has all its own requests delivered with nothing
    -- of others in between.
    pub steps-IsConsistent :
        (v w : World P) → Holds P (IsConsistent P) v → Steps v w → IsConsistent P w.server
    steps-IsConsistent v w h done = h.0
    steps-IsConsistent v w h (next {v = u} s rest) =
        steps-IsConsistent u w (step-Holds v u s h) rest
