-- ===== src/Storage/Replay/Frame.antt =====
-- A write beside the scores and the ledger leaves a consistent server consistent.
use apex_leaderboard.Prelude.{if_either}
use apex_leaderboard.Prelude.Text.{Text, text_eq}
use apex_leaderboard.Platform.{Platform, Kind, hash_key}
use apex_leaderboard.Platform.Laws.{Admits}
use apex_leaderboard.Redis.{Server, store, update, del}
use apex_leaderboard.Prelude.Exec.{ok}
use apex_leaderboard.Storage.Keeps.{Keeps, update-Keeps}
use apex_leaderboard.Storage.Keys.{idempotency_hash_key, board_profile_key}
use apex_leaderboard.Storage.Keys.Sides.{IsSide, IsOutside}
use apex_leaderboard.Storage.Apply.Effect.{IsTyped}
use apex_leaderboard.Storage.Replay.{IsConsistent}

module _ (P : Platform) (k : Text) (v : P.Value) (s : Server P) (h : IsConsistent P s) where
  stored : IsSide k → IsTyped P (store k v s) → IsConsistent P (store k v s)
  stored side typed = record {
    typed = typed;
    decodes = rw side.ledger h.decodes;
    scores = λ b p. rw (side.leaderboards b, side.ledger) (h.scores b p);
    stays = λ b p. rw side.ledger (h.stays b p);
  }

  pub store_outside : IsOutside k → IsConsistent P (store k v s)
  store_outside apart = stored apart.side (record {
    zset_at = λ b. rw (apart.side.leaderboards b) (h.typed.zset_at b);
    stream_at = rw apart.side.ledger h.typed.stream_at;
    idempotency_at = rw apart.idempotency h.typed.idempotency_at;
    board_at = λ b. rw (apart.boards b) (h.typed.board_at b);
  })

  pub store_hash : IsSide k → Admits hash_key (P.kind v) → IsConsistent P (store k v s)
  store_hash side a = stored side (record {
    zset_at = λ b. rw (side.leaderboards b) (h.typed.zset_at b);
    stream_at = rw side.ledger h.typed.stream_at;
    idempotency_at =
        if_either (λ x. Admits hash_key (P.kind x)) (text_eq k idempotency_hash_key) a
          h.typed.idempotency_at;
    board_at = λ b.
        if_either (λ x. Admits hash_key (P.kind x)) (text_eq k (board_profile_key b)) a
          (h.typed.board_at b);
  })

module _ (P : Platform) (k : Text) (out : IsOutside k) where
  pub update_outside :
      (want : Kind) (f : P.Value → P.Value) → Keeps P (IsConsistent P) (update P want k f)
  update_outside want f =
      update-Keeps P (IsConsistent P) want k f (λ s h. store_outside P k _ s h out)

  pub store-Keeps :
      (f : P.Value → P.Value) → Keeps P (IsConsistent P) (λ s. (ok tt, store k (f (s.at k)) s))
  store-Keeps f = record { keeps = λ s h. store_outside P k (f (s.at k)) s h out }

  pub del-Keeps : Keeps P (IsConsistent P) (del P k)
  del-Keeps = record { keeps = λ s h. store_outside P k P.missing s h out }
