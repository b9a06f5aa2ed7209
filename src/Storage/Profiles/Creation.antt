-- ===== src/Storage/Profiles/Creation.antt =====
-- A created player is read back, and a creation with an idempotency key happens once.
use apex_leaderboard.Prelude.{[], ◌≡◌, ◌≢◌, refl}
use apex_leaderboard.Prelude.Text.{Text, codes, text_eq}
use apex_leaderboard.Platform.{Platform}
use apex_leaderboard.Platform.Laws.{PlatformLaws}
use apex_leaderboard.Redis.{Server, store}
use apex_leaderboard.Player.{Profile}
use apex_leaderboard.Storage.Keys.{player_profile_key, player_idempotency_hash_key}
use apex_leaderboard.Storage.Profiles.{player_record}

module _ (P : Platform) (L : PlatformLaws P) (pr : Profile) (key : Text) (keyed : key ≢ []) where
  open L use {hashes}

  abbrev profile_hash : P.Value → P.Value
  profile_hash v =
      P.hset (codes "created_at") (P.format_time pr.created_at)
        (P.hset (codes "player_name") pr.player_name v)

  abbrev registered : Server P → Server P
  registered s =
      store (player_profile_key pr.player_id)
        (profile_hash (s.at (player_profile_key pr.player_id))) s

  abbrev noted : Server P → Server P
  noted s =
      store player_idempotency_hash_key
        (P.hset key (player_record pr.player_id pr.player_name) (s.at player_idempotency_hash_key))
        s

  abbrev expiring : Server P → Server P
  expiring s =
      store player_idempotency_hash_key (P.hexpire 86400 key (s.at player_idempotency_hash_key)) s

  abbrev made : Server P → Server P
  made s = expiring (noted (registered s))

  idempotency-registered :
      (s : Server P)
      → (registered s).at player_idempotency_hash_key ≡ s.at player_idempotency_hash_key
  unfolding text_eq player_profile_key player_idempotency_hash_key
  idempotency-registered s = refl
