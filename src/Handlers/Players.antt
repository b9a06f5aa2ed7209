-- ===== src/Handlers/Players.antt =====
-- handlers/player_handler.go.
use apex_leaderboard.Prelude.{Option, ◌++◌}
use apex_leaderboard.Prelude.Int.{ℤ}
use apex_leaderboard.Prelude.Text.{Text, codes}
use apex_leaderboard.Prelude.Exec.{Result, pure, lift, ◌>>=◌}
use apex_leaderboard.Platform.{Platform}
use apex_leaderboard.Player.{new_profile}
use apex_leaderboard.Storage.Profiles.{create_player_profile, get_player_profile}
use apex_leaderboard.Handlers.Common.{
  BodyError, Handler, read_idempotency_key, player_id_from_path, or_bad_request, read_json,
  from_storage,
}

pub record PlayerResp : Type 0 where
  pub player_id : Text
  pub player_name : Text

module _ (P : Platform) where
  -- 201 with the Location header and the player
  unfoldable pub handle_create_player :
      Option Text → Result BodyError Text → Text → ℤ → Handler P (Text × PlayerResp)
  handle_create_player key body generated now = do
    idemp_key ← lift (read_idempotency_key key)
    name ← lift (read_json body)
    profile ← lift (or_bad_request (new_profile P name generated now))
    player_id ← from_storage (create_player_profile P profile idemp_key)
    pure (
      codes "/api/v1/players/" ++ player_id,
      record { player_id = player_id; player_name = profile.player_name },
    )

  unfoldable pub handle_get_player : Text → Handler P PlayerResp
  handle_get_player player_path = do
    player_id ← lift (player_id_from_path P player_path)
    profile ← from_storage (get_player_profile P player_id)
    pure (record { player_id = profile.player_id; player_name = profile.player_name })
