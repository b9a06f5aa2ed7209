-- ===== src/Storage/Replay.antt =====
-- The meaning of the ledger: the scores that its events add up to, and the server on which every
-- projection shows them. No code is translated here; the write and admin paths are held to it.
pub mod Write
pub mod Apply
pub mod Outcome
pub mod Standing
pub mod Frame
pub mod Others
pub mod Background
pub mod Projections
pub mod Reads
pub mod Operations
use apex_leaderboard.Prelude.{
  List, [], ◌∷◌, ◌++◌, Option, none, some, Bool, ◌&&◌, ◌≡◌, refl, if◌then◌else◌,
}
use apex_leaderboard.Prelude.Int.{ℤ, pos, ◌+ℤ◌}
use apex_leaderboard.Prelude.Text.{Text, text_eq}
use apex_leaderboard.Prelude.Exec.{Result, ok, err}
use apex_leaderboard.Prelude.{All}
use apex_leaderboard.Platform.{Platform, Entry}
use apex_leaderboard.Redis.{Server}
use apex_leaderboard.Score.{IsScore}
use apex_leaderboard.Ledger.{EventType, set, increment, Event}
use apex_leaderboard.Storage.Client.{StorageError}
use apex_leaderboard.Storage.Keys.{leaderboard_key, ledger_key}
use apex_leaderboard.Storage.Entry.{entry_to_event}
use apex_leaderboard.Storage.Apply.Effect.{IsTyped}

-- A player with no entry starts from 0.
abbrev pub total : Option ℤ → ℤ
total none = pos 0
total (some n) = n

abbrev pub next_score : EventType → Option ℤ → ℤ → ℤ
next_score EventType.set old n = n
next_score EventType.increment old n = total old +ℤ n

-- One event, for the player `p` of the board `b`.
abbrev pub replay_event : Text → Text → Option ℤ → Event → Option ℤ
replay_event b p old e =
    if text_eq e.board_id b && text_eq e.player_id p
    then some (next_score e.type old e.amount)
    else old

abbrev pub replay_result : Text → Text → Option ℤ → Result StorageError Event → Option ℤ
replay_result b p old (ok e) = replay_event b p old e
replay_result b p old (err e) = old

module _ (P : Platform) (b p : Text) where
  unfoldable pub replay : Option ℤ → List Entry → Option ℤ
  replay old [] = old
  replay old (x ∷ xs) = replay (replay_result b p old (entry_to_event P x)) xs

  pub replay-append :
      (old : Option ℤ) (xs : List Entry) (x : Entry)
      → replay old (xs ++ x ∷ []) ≡ replay_result b p (replay old xs) (entry_to_event P x)
  unfolding replay
  replay-append old [] x = refl
  replay-append old (y ∷ xs) x = replay-append (replay_result b p old (entry_to_event P y)) xs x

abbrev pub InRange : Option ℤ → Type 0
InRange none = Unit
InRange (some n) = IsScore n

abbrev pub as_float : (P : Platform) → Option ℤ → Option P.Float
as_float P none = none
as_float P (some n) = some (P.of_int n)

-- The score of `p` on `b` that the whole ledger of a server adds up to.
abbrev pub ledger_score : (P : Platform) → Server P → Text → Text → Option ℤ
ledger_score P s b p = replay P b p none (P.xrange (s.at ledger_key))

abbrev pub Decodes : (P : Platform) → Entry → Type 0
Decodes P x = (e : Event) × (entry_to_event P x ≡ ok e)

-- The score stays in range at every entry.
abbrev pub StaysInRange : (P : Platform) → Text → Text → Option ℤ → List Entry → Type 0
StaysInRange P b p old [] = InRange old
StaysInRange P b p old (x ∷ xs) =
    InRange old × StaysInRange P b p (replay_result b p old (entry_to_event P x)) xs

module _ (P : Platform) (b p : Text) where
  pub StaysInRange-end :
      (old : Option ℤ) (xs : List Entry) → StaysInRange P b p old xs → InRange (replay P b p old xs)
  unfolding replay
  StaysInRange-end old [] h = h
  StaysInRange-end old (x ∷ xs) h =
      StaysInRange-end (replay_result b p old (entry_to_event P x)) xs h.1

  pub StaysInRange-append :
      (old : Option ℤ) (xs : List Entry) (x : Entry)
      → StaysInRange P b p old xs
      → InRange (replay P b p old (xs ++ x ∷ []))
      → StaysInRange P b p old (xs ++ x ∷ [])
  unfolding replay
  StaysInRange-append old [] x h k = (h, k)
  StaysInRange-append old (y ∷ xs) x h k =
      (h.0, StaysInRange-append (replay_result b p old (entry_to_event P y)) xs x h.1 k)

-- Every entry is an event, every projection shows what the ledger adds up to, and that is in range
-- at every entry.
pub record IsConsistent (P : Platform) (s : Server P) : Type 0 where
  pub typed : IsTyped P s
  pub decodes : All (Decodes P) (P.xrange (s.at ledger_key))
  pub scores :
      (b p : Text) → P.zscore p (s.at (leaderboard_key b)) ≡ as_float P (ledger_score P s b p)
  pub stays : (b p : Text) → StaysInRange P b p none (P.xrange (s.at ledger_key))

pub bounded :
    (P : Platform) (s : Server P) → IsConsistent P s → (b p : Text) → InRange (ledger_score P s b p)
bounded P s h b p = StaysInRange-end P b p none (P.xrange (s.at ledger_key)) (h.stays b p)
