-- ===== src/Player.antt =====
-- player/player.go: a player's profile. Ids are UUIDs, generated by the uuid library.
use apex_leaderboard.Prelude.{Option, none, some, if◌then◌else◌}
use apex_leaderboard.Prelude.Int.{ℤ}
use apex_leaderboard.Prelude.Text.{Text}
use apex_leaderboard.Platform.{Platform}

pub record Profile : Type 0 where
  pub player_id : Text
  pub player_name : Text
  pub created_at : ℤ

-- `NewProfile` with the generated id and time; `none` is an invalid name.
unfoldable pub new_profile : (P : Platform) → Text → Text → ℤ → Option Profile
new_profile P player_name generated now =
    if P.player_name_valid (P.trim_spaces player_name)
    then some (record {
      player_id = generated;
      player_name = P.trim_spaces player_name;
      created_at = now;
    })
    else none
