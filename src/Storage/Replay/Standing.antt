-- ===== src/Storage/Replay/Standing.antt =====
-- What is read after a write.
use apex_leaderboard.Prelude.{[], Option, some, ◌&&◌, ◌≡◌, refl, sym, if◌then◌else◌}
use mathlib.Core.Path.{subst}
use apex_leaderboard.Prelude.Int.{ℤ}
use apex_leaderboard.Prelude.Text.{Text, text_eq}
use apex_leaderboard.Prelude.Exec.{Result, ok, err}
use apex_leaderboard.Platform.{Platform}
use apex_leaderboard.Platform.Laws.{PlatformLaws}
use apex_leaderboard.Redis.{Server}
use apex_leaderboard.Ledger.{EventType}
use apex_leaderboard.Storage.Client.{StorageError, World}
use apex_leaderboard.Storage.Entry.Decode.{IsWritable}
use apex_leaderboard.Storage.Apply.{apply_event}
use apex_leaderboard.Storage.Standings.{get_standing}
use apex_leaderboard.Storage.Standings.Exact.{Shows, get_standing-ledger}
use apex_leaderboard.Storage.Replay.{next_score, ledger_score, IsConsistent}
use apex_leaderboard.Storage.Replay.Write.{ledger_score-committed}
use apex_leaderboard.Storage.Replay.Apply.{apply_event-IsConsistent}
use apex_leaderboard.Storage.Replay.Outcome.{calm, verdict, left_by, apply_event-left_by}

-- The score of `q` on `c` after a write for `p` on `b` that was answered so.
abbrev pub score_after :
    (P : Platform)
    → Server P
    → EventType
    → Text
    → Text
    → ℤ
    → Result StorageError (Unit {0})
    → Text
    → Text
    → Option ℤ
score_after P s type p b n (ok _) c q =
    if text_eq b c && text_eq p q
    then some (next_score type (ledger_score P s c q) n)
    else ledger_score P s c q
score_after P s type p b n (err _) c q = ledger_score P s c q

module _ (P : Platform) (L : PlatformLaws P) (type : EventType) (p b : Text) (n : ℤ) (req : Text)
    (s : Server P) (writable : IsWritable P p b n req) (h : IsConsistent P s) where
  ledger_score-left_by :
      (r : Result StorageError (Unit {0})) (c q : Text)
      → ledger_score P (left_by P type p b n req s r) c q ≡ score_after P s type p b n r c q
  ledger_score-left_by (ok _) c q = ledger_score-committed P L type p b n req [] writable s h c q
  ledger_score-left_by (err _) c q = refl

  abbrev written : Result StorageError (Unit {0}) × World P
  written = apply_event P type p b n req [] (calm s)

  effect :
      written ≡ (verdict P s type p b n, calm (left_by P type p b n req s (verdict P s type p b n)))
  effect = apply_event-left_by P L type p b n req s writable.score h

  left-IsConsistent : IsConsistent P (left_by P type p b n req s (verdict P s type p b n))
  left-IsConsistent =
      subst (λ x. IsConsistent P x.1.server) effect
        (apply_event-IsConsistent P L type p b n req [] (calm s) writable tt h)

  -- On a consistent server, with every request delivered, after a write without a key that is
  -- answered with success, GetStanding shows for the player on the board the score that the write
  -- makes of the ledger's, and for every other player or board the ledger's as before; after one
  -- that is refused it shows the ledger's for all. The ids are valid and the amount is a score.
  pub apply_event-get_standing :
      (c q : Text)
      → Shows q (score_after P s type p b n written.0 c q) (get_standing P q c written.1).0
  apply_event-get_standing c q =
      let r = verdict P s type p b n in
      subst (λ x. Shows q (score_after P s type p b n x.0 c q) (get_standing P q c x.1).0)
        (sym effect)
        (subst (λ o. Shows q o (get_standing P q c (calm (left_by P type p b n req s r))).0)
          (ledger_score-left_by r c q)
          (get_standing-ledger P L c (left_by P type p b n req s r) q left-IsConsistent))
