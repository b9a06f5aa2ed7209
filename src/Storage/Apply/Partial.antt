-- ===== src/Storage/Apply/Partial.antt =====
-- A write that fails at the ledger, on a server whose ledger key holds another type.
use apex_leaderboard.Prelude.{none, some, false, ◌≡◌, refl, ◌∙◌}
use apex_leaderboard.Prelude.Int.{ℤ}
use apex_leaderboard.Prelude.Text.{Text, text_eq_refl}
use apex_leaderboard.Prelude.Exec.{ok, err}
use apex_leaderboard.Platform.{Platform, zset_key, stream_key}
use apex_leaderboard.Platform.Laws.{PlatformLaws, Admits}
use apex_leaderboard.Redis.{Server, wrong_type, admits}
use apex_leaderboard.Ledger.{EventType}
use apex_leaderboard.Score.{IsScore}
use apex_leaderboard.Storage.Keys.{leaderboard_key, ledger_key}
use apex_leaderboard.Storage.Keys.Distinct.{text_eq-leaderboard_ledger}
use apex_leaderboard.Storage.Apply.{script_args}
use apex_leaderboard.Storage.Apply.Script.{
  apply_score_event, check_idempotency, check_existence, check_range, commit, append_event,
}
use apex_leaderboard.Storage.Apply.Effect.{args, projected, write_projection_effect}
use apex_leaderboard.Storage.Apply.Steps.{apply_steps}

module _ (P : Platform) (L : PlatformLaws P) (p b : Text) (n : ℤ) (req key : Text)
    (s : Server P) where
  open L use {zsets}

  append_event_fails :
      (type : EventType) (t : Server P)
      → admits stream_key (P.kind (t.at ledger_key)) ≡ false
      → append_event P (args P type p b n req key) t ≡ (err wrong_type, t)
  unfolding append_event script_args
  append_event_fails type t h = rw h refl

  commit_fails :
      (type : EventType)
      → IsScore n
      → Admits zset_key (P.kind (s.at (leaderboard_key b)))
      → admits stream_key (P.kind (s.at ledger_key)) ≡ false
      → commit P (args P type p b n req key) s ≡ (err wrong_type, projected P type p b n req key s)
  unfolding commit
  commit_fails type score zset ledger =
      rw
        (
          write_projection_effect P L type p b n req key score s zset,
          append_event_fails type (projected P type p b n req key s)
              (rw (text_eq-leaderboard_ledger b) ledger),
        )
        refl

  -- A SET whose checks pass fails, and still leaves the new score in the projection and the ledger
  -- as it was, where the amount is a score, the projection is a ZSET or missing and the ledger key
  -- holds another type than a stream.
  pub half_written :
      IsScore n
      → Admits zset_key (P.kind (s.at (leaderboard_key b)))
      → admits stream_key (P.kind (s.at ledger_key)) ≡ false
      → check_idempotency P (script_args EventType.set p b n req key) s ≡ (ok none, s)
      → check_existence P (script_args EventType.set p b n req key) s ≡ (ok none, s)
      → check_range P (script_args EventType.set p b n req key) s ≡ (ok none, s)
      → (s' : Server P) × (apply_score_event P (script_args EventType.set p b n req key) s
          ≡ (err wrong_type, s'))
        × (P.zscore p (s'.at (leaderboard_key b)) ≡ some (P.of_int n))
        × (s'.at ledger_key ≡ s.at ledger_key)
  half_written score zset ledger fresh exists fits = (
    projected P EventType.set p b n req key s,
    apply_steps P (script_args EventType.set p b n req key) s none none none fresh exists fits
        ∙ commit_fails EventType.set score zset ledger,
    rw (text_eq_refl (leaderboard_key b), zsets.zscore-zadd (P.of_int n) p p _ zset, text_eq_refl p)
        refl,
    rw (text_eq-leaderboard_ledger b) refl,
  )
