-- ===== src/Storage/Client.antt =====
-- The errors of storage/storage.go, and the round trips that the Redis client makes. What happens
-- on the way is part of the world: what others did before a request, and what became of it.
use apex_leaderboard.Prelude.{List, [], ◌∷◌}
use apex_leaderboard.Prelude.Exec.{Result, ok, err, Exec, pure}
use apex_leaderboard.Platform.{Platform}
use apex_leaderboard.Redis.{Server, ServerError, Script}

-- `storage` is an error that wraps ErrStorage alone, `other` one that wraps no sentinel.
pub data StorageError : Type 0 where
  storage not_found inconsistent player_exists board_exists board_not_found : StorageError
  board_closed idempotency_conflict score_out_of_range other : StorageError

pub data Fate : Type 0 where
  delivered lost_request lost_reply : Fate

pub record Turn (P : Platform) : Type 0 where
  pub others : Server P → Server P
  pub fate : Fate

-- With no turn left every request is delivered at once.
pub record World (P : Platform) : Type 0 where
  pub server : Server P
  pub link : List (Turn P)

abbrev pub Store : Platform → Type 0 → Type 0
Store P A = Exec (World P) StorageError A

module _ {P : Platform} {A : Type 0} where
  -- An error reply and a broken connection are one to the callers.
  abbrev pub answer :
      Result ServerError A × Server P → List (Turn P) → Result StorageError A × World P
  answer (ok a, s) rest = (ok a, record { server = s; link = rest })
  answer (err e, s) rest = (err StorageError.other, record { server = s; link = rest })

  abbrev pub travel : Fate → Script P A → Server P → List (Turn P) → Result StorageError A × World P
  travel delivered m s rest = answer (m s) rest
  travel lost_request m s rest = (err StorageError.other, record { server = s; link = rest })
  travel lost_reply m s rest = (err StorageError.other, record { server = (m s).1; link = rest })

  abbrev pub call_on : List (Turn P) → Script P A → Server P → Result StorageError A × World P
  call_on [] m s = answer (m s) []
  call_on (t ∷ rest) m s = travel t.fate m (t.others s) rest

  abbrev pub call : Script P A → Store P A
  call m w = call_on w.link m w.server

abbrev pub both : {E A : Type 0} → Result E A → Result E (List A) → Result E (List A)
both (ok a) (ok l) = ok (a ∷ l)
both (ok a) (err e) = err e
both (err e) r = err e

module _ {P : Platform} {A : Type 0} where
  -- The commands of a pipeline all run, and the first error is reported.
  abbrev pub run_all : List (Script P A) → Script P (List A)
  run_all [] s = (ok [], s)
  run_all (m ∷ ms) s = let (r, s') = m s in let (rs, s'') = run_all ms s' in (both r rs, s'')

  -- An empty pipeline makes no round trip.
  abbrev pub exec_pipe : List (Script P A) → Store P (List A)
  exec_pipe [] = pure []
  exec_pipe (m ∷ ms) = call (run_all (m ∷ ms))
