-- ===== src/Storage/Replay/Projections.antt =====
-- The views of the consumers, and the consumers themselves, leave a consistent server consistent.
use apex_leaderboard.Prelude.{ℕ, List, [], ◌∷◌, ◌≡◌, All}
use apex_leaderboard.Prelude.Text.{Text}
use mathlib.Core.Path.{subst}
use apex_leaderboard.Prelude.Int.{pos}
use apex_leaderboard.Prelude.Exec.{
  Result, ok, err, map_result, bind_result, Stable-bind, Stable-pure, map_result-All,
  Stable-bind-lift, stable_rules,
}
use apex_leaderboard.Platform.{Platform, zset_key}
use apex_leaderboard.Redis.{Server, Script}
use apex_leaderboard.Ledger.{Event}
use apex_leaderboard.Storage.Client.{StorageError}
use apex_leaderboard.Storage.Keeps.{Keeps, Respects, call-Respects, exec_pipe-Respects, query-Keeps}
use apex_leaderboard.Storage.Keys.Sides.{
  player_history_key-IsOutside, activity_daily_key-IsOutside, consumer_cursor_key-IsOutside,
}
use apex_leaderboard.Storage.Replay.{IsConsistent}
use apex_leaderboard.Storage.Replay.Frame.{update_outside, store-Keeps}
use apex_leaderboard.Storage.Views.{
  stream_id_score, point_to, apply_player_history, count_events, apply_daily_counts, load_cursor,
  save_cursor, read_ledger_batch,
}

module _ (P : Platform) where
  abbrev I : Server P → Type 0
  I = IsConsistent P

  point_to-Keeps : (e : Event) (x : P.Float) → Keeps P I (point_to P e x)
  point_to-Keeps e x =
      update_outside P _ (player_history_key-IsOutside e.player_id e.board_id) zset_key
        (P.zadd x e.id)

  pub apply_player_history-Respects : (es : List Event) → Respects P I (apply_player_history P es)
  unfolding apply_player_history
  apply_player_history-Respects es =
      Stable-bind-lift
        (map_result (λ e. bind_result (stream_id_score P e.id) λ x. ok (point_to P e x)) es) _
        λ cmds e.
          Stable-bind _ _
            (exec_pipe-Respects P I cmds (map_result-All (λ m. Keeps P I m) _ pointer es cmds e))
            λ _. Stable-pure tt
    where
      pointer :
          (e : Event) (m : Script P (Unit {0}))
          → bind_result (stream_id_score P e.id) (λ x. ok (point_to P e x)) ≡ ok m
          → Keeps P I m
      pointer e m = go (stream_id_score P e.id)
        where
          go :
              (r : Result StorageError P.Float)
              → bind_result r (λ x. ok (point_to P e x)) ≡ ok m
              → Keeps P I m
          go (ok x) h = subst (λ m'. Keeps P I m') (same h) (point_to-Keeps e x)
            where
              same :
                  ◌≡◌ {A = Result StorageError (Script P (Unit {0}))} (ok (point_to P e x)) (ok m)
                  → point_to P e x ≡ m
              same k = cc
          go (err x) h = absurd (cc)

  count_events-Keeps : (ttl : ℕ) (es : List Event) → All (λ m. Keeps P I m) (count_events P ttl es)
  unfolding count_events
  count_events-Keeps ttl [] = tt
  count_events-Keeps ttl (e ∷ es) = (
    update_outside P _ (activity_daily_key-IsOutside (P.format_date e.created_at)) zset_key
        (P.zincrby (P.of_int (pos 1)) e.player_id),
    (
      update_outside P _ (activity_daily_key-IsOutside (P.format_date e.created_at)) zset_key
          (P.expire ttl),
      count_events-Keeps ttl es,
    ),
  )

  pub apply_daily_counts-Respects :
      (es : List Event) (ttl : ℕ) → Respects P I (apply_daily_counts P es ttl)
  unfolding apply_daily_counts
  apply_daily_counts-Respects es ttl =
      Stable-bind _ _ (exec_pipe-Respects P I _ (count_events-Keeps ttl es)) λ _. Stable-pure tt

  pub load_cursor-Respects : (name : Text) → Respects P I (load_cursor P name)
  unfolding load_cursor
  load_cursor-Respects name = search (call-Respects P I, query-Keeps P I)

  pub save_cursor-Respects : (name cursor : Text) → Respects P I (save_cursor P name cursor)
  unfolding save_cursor
  save_cursor-Respects name cursor =
      call-Respects P I _
        (store-Keeps P _ (consumer_cursor_key-IsOutside name) (P.string_set cursor))

  pub read_ledger_batch-Respects :
      (after : Text) (limit : ℕ) → Respects P I (read_ledger_batch P after limit)
  unfolding read_ledger_batch
  read_ledger_batch-Respects after limit =
      search (stable_rules, call-Respects P I, query-Keeps P I) depth 12
