-- ===== src/Storage/Standings.antt =====
-- The reads of storage/score_repo.go: GetStanding, ListStandings and PlayerHistory.
pub mod Exact
pub mod Rows
pub mod Page
use apex_leaderboard.Prelude.{ℕ, suc, List, [], ◌∷◌, Option, none, some, if◌then◌else◌, map}
use apex_leaderboard.Prelude.Int.{ℤ, pos, ◌+ℤ◌, ◌-ℤ◌, leb_ℤ, wrap64}
use apex_leaderboard.Prelude.Text.{Text}
use apex_leaderboard.Prelude.Exec.{Result, ok, err, pure, lift, bind_result, ◌>>=◌}
use apex_leaderboard.Platform.{Platform, Entry, zset_key, stream_key}
use apex_leaderboard.Redis.{Script, query}
use apex_leaderboard.Ledger.{Event}
use apex_leaderboard.Storage.Client.{StorageError, Store, call, exec_pipe}
use apex_leaderboard.Storage.Keys.{leaderboard_key, player_history_key, ledger_key}
use apex_leaderboard.Storage.Entry.{zscore_to_int64, entry_to_event}

-- Rank is 1-based.
pub record Standing : Type 0 where
  pub player_id : Text
  pub score : ℤ
  pub rank : ℤ

module _ (P : Platform) where
  -- ZREVRANK WITHSCORE; a missing member has no rank.
  abbrev pub rank_reply : Option ℕ → Option P.Float → Option (ℕ × P.Float)
  rank_reply none score = none
  rank_reply (some r) none = none
  rank_reply (some r) (some x) = some (r, x)

  -- The replies of ZREVRANK WITHSCORE and of ZCARD, here with no command of others between them.
  abbrev rank_and_card : Text → Text → Script P (Option (ℕ × P.Float) × ℕ)
  rank_and_card key player_id = do
    rank ← query P zset_key key (P.zrevrank player_id)
    score ← query P zset_key key (P.zscore player_id)
    card ← query P zset_key key P.zcard
    pure (rank_reply rank score, card)

  unfoldable pub standing_of : Text → Option (ℕ × P.Float) × ℕ → Result StorageError (Standing × ℕ)
  standing_of player_id (none, total) = err StorageError.not_found
  standing_of player_id (some (rank, raw), total) = elim (zscore_to_int64 P raw) [
    | none ↦ err StorageError.inconsistent
    | some score ↦
        ok (record { player_id = player_id; score = score; rank = pos rank +ℤ pos 1 }, total)
  ]

  unfoldable pub get_standing : Text → Text → Store P (Standing × ℕ)
  unfolding standing_of
  get_standing player_id board_id = do
    r ← call (rank_and_card (leaderboard_key board_id) player_id)
    lift (standing_of player_id r)

  -- The rows of a page from index `i`; a score that no int64 holds leaves a gap in the ranks.
  unfoldable pub rows : ℤ → ℕ → List (Text × P.Float) → List Standing
  rows offset i [] = []
  rows offset i ((member, raw) ∷ zs) =
      let rest = rows offset (suc i) zs in
      elim (zscore_to_int64 P raw) [
        | none ↦ rest
        | some score ↦
            record {
              player_id = member;
              score = score;
              rank = wrap64 (wrap64 (offset +ℤ pos i) +ℤ pos 1);
            }
            ∷ rest
      ]

  abbrev page_and_card : Text → ℤ → ℤ → Script P (List (Text × P.Float) × ℕ)
  page_and_card key start stop = do
    total ← query P zset_key key P.zcard
    zs ← query P zset_key key (P.zrevrange start stop)
    pure (zs, total)

  unfoldable pub list_standings : Text → ℤ → ℤ → Store P (List Standing × ℕ)
  unfolding rows
  list_standings board_id limit offset =
      if leb_ℤ limit (pos 0)
      then (do total ← call (query P zset_key (leaderboard_key board_id) P.zcard); pure ([], total))
      else (do
        let stop = wrap64 (wrap64 (offset +ℤ limit) -ℤ pos 1)
        r ← call (page_and_card (leaderboard_key board_id) offset stop)
        pure (rows offset 0 r.0, r.1))

  -- The loop over the replies: a pointer to a missing entry is skipped, a bad entry is an error.
  unfoldable pub history_events : List (List Entry) → Result StorageError (List Event)
  history_events [] = ok []
  history_events ([] ∷ replies) = history_events replies
  history_events ((entry ∷ _) ∷ replies) =
      let rest = history_events replies in
      bind_result (entry_to_event P entry) λ event. bind_result rest λ events. ok (event ∷ events)

  abbrev fetch : Text → Script P (List Entry)
  fetch id = query P stream_key ledger_key (P.xrange_by id id none)

  unfoldable pub player_history : Text → Text → ℤ → Store P (List Event)
  unfolding history_events
  player_history player_id board_id limit = if leb_ℤ limit (pos 0) then pure [] else (do
    members ← call (
        query P zset_key (player_history_key player_id board_id)
          (P.zrevrange (pos 0) (limit -ℤ pos 1)))
    replies ← exec_pipe (map (λ m. fetch m.0) members)
    lift (history_events replies))
