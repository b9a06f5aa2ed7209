-- ===== src/Storage/Replay/Others.antt =====
-- The operations that write no score leave a consistent server consistent.
use apex_leaderboard.Prelude.{Option, none, some, ◌≡◌, inr}
use apex_leaderboard.Prelude.Int.{ℤ}
use apex_leaderboard.Prelude.Text.{Text}
use apex_leaderboard.Prelude.Exec.{
  fail, lift, Stable-fail, Stable-bind, Stable-if, Stable-lift, stable_rules,
}
use apex_leaderboard.Platform.{Platform, hash_key, zset_key}
use apex_leaderboard.Platform.Laws.{PlatformLaws}
use apex_leaderboard.Redis.{Server, bad_score, update}
use apex_leaderboard.Board.{Board}
use apex_leaderboard.Player.{Profile}
use apex_leaderboard.Storage.Keeps.{
  Keeps, Respects, call-Respects, update-Keeps, query-Keeps, exists_key-Keeps,
}
use apex_leaderboard.Storage.Keys.{
  board_profile_key, board_index_key, player_profile_key, player_idempotency_hash_key,
}
use apex_leaderboard.Storage.Keys.Sides.{
  board_profile_key-IsSide, player_profile_key-IsOutside, player_idempotency_hash_key-IsOutside,
  board_index_key-IsOutside,
}
use apex_leaderboard.Storage.Replay.{IsConsistent}
use apex_leaderboard.Storage.Replay.Frame.{store_hash, update_outside}
use apex_leaderboard.Storage.Boards.{
  register, create_board_script, set_board_state_script, create_board, set_board_state,
}
use apex_leaderboard.Storage.Profiles.{
  create_profile, create_player_script, create_player_profile, seen_player,
}

module _ (P : Platform) (L : PlatformLaws P) where
  open L use {hashes}

  abbrev I : Server P → Type 0
  I = IsConsistent P

  board_update :
      (id : Text) (f : P.Value → P.Value)
      → ((v : P.Value) → P.kind (f v) ≡ hash_key)
      → Keeps P I (update P hash_key (board_profile_key id) f)
  board_update id f h =
      update-Keeps P I hash_key (board_profile_key id) f
        (λ s k. store_hash P (board_profile_key id) _ s k (board_profile_key-IsSide id) (inr (h _)))

  register-Keeps : (score member : Text) → Keeps P I (register P board_index_key score member)
  unfolding register
  register-Keeps score member = go (P.score_of score)
    where
      go :
          (o : Option P.Float)
          → Keeps P I {A = Unit {0}} (elim o [
            | none ↦ fail bad_score
            | some x ↦ update P zset_key board_index_key (P.zadd x member)
          ])
      go none = Stable-fail bad_score
      go (some x) =
          update_outside P board_index_key board_index_key-IsOutside zset_key (P.zadd x member)

  set_board_state_script-Keeps :
      (id state : Text) → Keeps P I (set_board_state_script P (board_profile_key id) state)
  unfolding set_board_state_script
  set_board_state_script-Keeps id state =
      search (stable_rules, exists_key-Keeps P I, board_update, hashes.kind-hset) depth 12

  create_board_script-Keeps :
      (id name created unix state : Text)
      → Keeps P I
          (create_board_script P (board_profile_key id) board_index_key id name created unix state)
  unfolding create_board_script
  create_board_script-Keeps id name created unix state =
      search (stable_rules, exists_key-Keeps P I, board_update, register-Keeps, hashes.kind-hset)
        depth 12

  pub create_board-Respects : (b : Board) → Respects P I (create_board P b)
  unfolding create_board
  create_board-Respects b =
      search (stable_rules, call-Respects P I, create_board_script-Keeps) depth 12

  pub set_board_state-Respects : (id state : Text) → Respects P I (set_board_state P id state)
  unfolding set_board_state
  set_board_state-Respects id state =
      search (stable_rules, call-Respects P I, set_board_state_script-Keeps) depth 12

  create_profile-Keeps :
      (id name created key : Text)
      → Keeps P I
          (create_profile P (player_profile_key id) player_idempotency_hash_key name created id key)
  unfolding create_profile
  create_profile-Keeps id name created key =
      search
        (
          stable_rules,
          exists_key-Keeps P I,
          update_outside P,
          player_profile_key-IsOutside,
          player_idempotency_hash_key-IsOutside,
        )
        depth 14

  create_player_script-Keeps :
      (id name created key : Text)
      → Keeps P I (
          create_player_script P
            (player_profile_key id)
            player_idempotency_hash_key
            name
            created
            id
            key)
  unfolding create_player_script
  create_player_script-Keeps id name created key =
      Stable-if _ _ _
        (Stable-bind _ _ (query-Keeps P I hash_key player_idempotency_hash_key (P.hget key)) go)
        fresh
    where
      fresh :
          Keeps P I (
            create_profile P
              (player_profile_key id)
              player_idempotency_hash_key
              name
              created
              id
              key)
      fresh = create_profile-Keeps id name created key

      go :
          (seen : Option Text)
          → Keeps P I {A = ℤ × Text} (elim seen [
            | none ↦
                create_profile P
                  (player_profile_key id)
                  player_idempotency_hash_key
                  name
                  created
                  id
                  key
            | some text ↦ lift (seen_player name text)
          ])
      go none = fresh
      go (some text) = Stable-lift (seen_player name text)

  pub create_player_profile-Respects :
      (profile : Profile) (key : Text) → Respects P I (create_player_profile P profile key)
  unfolding create_player_profile
  create_player_profile-Respects profile key =
      search (stable_rules, call-Respects P I, create_player_script-Keeps) depth 12
