-- ===== src/Redis.antt =====
-- The Redis server as the program's scripts see it, and the client's round trips to it.
use apex_leaderboard.Prelude.{ℕ, Bool, true, false, if◌then◌else◌}
use apex_leaderboard.Prelude.Text.{Text, text_eq}
use apex_leaderboard.Prelude.Exec.{ok, err, Exec}
use apex_leaderboard.Platform.{Platform, Kind, no_key, string_key, hash_key, zset_key, stream_key}

-- The keyspace, and the server's time in milliseconds.
pub record Server (P : Platform) : Type 0 where
  pub at : Text → P.Value
  pub clock : ℕ

pub data ServerError : Type 0 where
  -- WRONGTYPE, an argument that is no number, and a Lua runtime error
  wrong_type bad_score lua_error : ServerError

-- Whether a command for keys of the first kind runs on a key of the second.
abbrev pub admits : Kind → Kind → Bool
admits want no_key = true
admits string_key string_key = true
admits hash_key hash_key = true
admits zset_key zset_key = true
admits stream_key stream_key = true
admits want have = false

abbrev pub Script : Platform → Type 0 → Type 0
Script P A = Exec (Server P) ServerError A

abbrev pub store : {P : Platform} → Text → P.Value → Server P → Server P
store {P} key v s = record s { at = λ k. if text_eq key k then v else s.at k }

module _ (P : Platform) where
  -- a command that reads one key
  abbrev pub query : {A : Type 0} → Kind → Text → (P.Value → A) → Script P A
  query want key f s =
      (if admits want (P.kind (s.at key)) then ok (f (s.at key)) else err wrong_type, s)

  -- a command that writes one key
  abbrev pub update : Kind → Text → (P.Value → P.Value) → Script P (Unit {0})
  update want key f s =
      if admits want (P.kind (s.at key))
      then (ok tt, store key (f (s.at key)) s)
      else (err wrong_type, s)

  -- EXISTS takes a key of any type
  abbrev pub exists_key : Text → Script P Bool
  exists_key key s = (ok (elim (P.kind (s.at key)) [ no_key ↦ false | _ ↦ true ]), s)

  abbrev pub del : Text → Script P (Unit {0})
  del key s = (ok tt, store key P.missing s)
