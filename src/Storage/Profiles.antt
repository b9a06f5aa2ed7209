-- ===== src/Storage/Profiles.antt =====
-- storage/profile_repo.go with storage/scripts/create_player.lua.
pub mod Creation
use apex_leaderboard.Prelude.{List, [], ◌∷◌, ◌++◌, none, some, not, if◌then◌else◌}
use apex_leaderboard.Prelude.Int.{ℤ, pos, negsuc, eqb_ℤ}
use apex_leaderboard.Prelude.Text.{Text, codes, text_eq, cut}
use apex_leaderboard.Prelude.Exec.{Result, ok, err, pure, lift, bind_result, ◌>>=◌, ◌>>◌}
use apex_leaderboard.Platform.{Platform, hash_key}
use apex_leaderboard.Platform.Laws.{lookup}
use apex_leaderboard.Redis.{Script, ServerError, lua_error, query, update, exists_key}
use apex_leaderboard.Player.{Profile}
use apex_leaderboard.Storage.Client.{StorageError, Store, call}
use apex_leaderboard.Storage.Keys.{player_profile_key, player_idempotency_hash_key}

abbrev pub created : ℤ
created = pos 1

abbrev pub deduped : ℤ
deduped = pos 0

abbrev pub exists_code : ℤ
exists_code = negsuc 0

abbrev pub conflict : ℤ
conflict = negsuc 3

-- "player_id|player_name"
unfoldable pub player_record : Text → Text → Text
player_record player_id player_name = player_id ++ (codes "|" ++ player_name)

-- What a later attempt with a recorded key is answered.
unfoldable pub seen_player : Text → Text → Result ServerError (ℤ × Text)
seen_player player_name seen = elim (cut b'|' seen) [
  | none ↦ err lua_error
  | some (seen_id, seen_name) ↦
      if text_eq seen_name player_name then ok (deduped, seen_id) else ok (conflict, [])
]

module _ (P : Platform) where
  -- create_player.lua behind its idempotency check
  unfoldable pub create_profile : Text → Text → Text → Text → Text → Text → Script P (ℤ × Text)
  create_profile profile_key idemp_hash player_name created_at player_id idemp_key = do
    exists ← exists_key P profile_key
    if exists then pure (exists_code, []) else do
      update P hash_key profile_key
          (λ v. P.hset (codes "created_at") created_at (P.hset (codes "player_name") player_name v))
      if not (text_eq idemp_key [])
          then (do
            update P hash_key idemp_hash (P.hset idemp_key (player_record player_id player_name))
            update P hash_key idemp_hash (P.hexpire 86400 idemp_key))
          else pure tt
      pure (created, player_id)

  unfoldable pub create_player_script :
      Text → Text → Text → Text → Text → Text → Script P (ℤ × Text)
  unfolding create_profile
  create_player_script profile_key idemp_hash player_name created_at player_id idemp_key =
      let fresh =
        create_profile profile_key idemp_hash player_name created_at player_id idemp_key in
      if not (text_eq idemp_key [])
      then (do
        seen ← query P hash_key idemp_hash (P.hget idemp_key)
        elim seen [ none ↦ fresh | some text ↦ lift (seen_player player_name text) ])
      else fresh

  -- The switch on the script's code.
  unfoldable pub player_of_code : ℤ × Text → Result StorageError Text
  player_of_code (code, id) =
      if eqb_ℤ code created
      then ok id
      else if eqb_ℤ code deduped
      then ok id
      else if eqb_ℤ code exists_code
      then err StorageError.player_exists
      else if eqb_ℤ code conflict
      then err StorageError.idempotency_conflict
      else err StorageError.other

  unfoldable pub create_player_profile : Profile → Text → Store P Text
  create_player_profile profile idemp_key = do
    r ← call (
        create_player_script (player_profile_key profile.player_id) player_idempotency_hash_key
          profile.player_name (P.format_time profile.created_at) profile.player_id idemp_key)
    lift (player_of_code r)

  abbrev field_of : Text → List (Text × Text) → Result StorageError Text
  field_of name fields = elim (lookup name fields) [
    | none ↦ err StorageError.inconsistent
    | some x ↦ ok x
  ]

  profile_of_fields : Text → List (Text × Text) → Result StorageError Profile
  profile_of_fields id [] = err StorageError.not_found
  profile_of_fields id (f ∷ fields) =
      bind_result (field_of (codes "player_name") (f ∷ fields)) λ name.
        bind_result (field_of (codes "created_at") (f ∷ fields)) λ raw_date.
          elim (P.parse_time raw_date) [
            | none ↦ err StorageError.storage
            | some date ↦ ok (record { player_id = id; player_name = name; created_at = date })
          ]

  unfoldable pub get_player_profile : Text → Store P Profile
  unfolding profile_of_fields
  get_player_profile player_id = do
    fields ← call (query P hash_key (player_profile_key player_id) P.hgetall)
    lift (profile_of_fields player_id fields)
