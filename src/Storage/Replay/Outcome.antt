-- ===== src/Storage/Replay/Outcome.antt =====
-- What a score write answers on a consistent server, and what a retry of it answers.
use apex_leaderboard.Prelude.{
  [], Option, none, some, Bool, true, false, ◌≡◌, ◌≢◌, refl, sym, arith, if◌then◌else◌, ◌⊎◌, ap,
  ◌∙◌,
}
use mathlib.Core.Path.{subst}
use apex_leaderboard.Prelude.Int.{ℤ}
use apex_leaderboard.Prelude.Text.{Text, codes, text_eq}
use apex_leaderboard.Prelude.Exec.{Result, ok, err}
use apex_leaderboard.Platform.{Platform, no_key}
use apex_leaderboard.Platform.Laws.{PlatformLaws}
use apex_leaderboard.Redis.{Server, ServerError}
use apex_leaderboard.Score.{IsScore, validate}
use apex_leaderboard.Ledger.{EventType}
use apex_leaderboard.Storage.Client.{StorageError, World, answer}
use apex_leaderboard.Storage.Keys.{player_profile_key, board_profile_key}
use apex_leaderboard.Storage.Apply.{script_args, apply_event, result_of_code}
use apex_leaderboard.Storage.Apply.Script.{
  Reply, apply_score_event, check_idempotency, check_existence, is_closed, code_applied,
  code_deduped, code_conflict, code_player_not_found, code_board_not_found, code_board_closed,
}
use apex_leaderboard.Storage.Apply.Steps.{apply_steps, applied_cases}
use apex_leaderboard.Storage.Apply.Effect.{
  args, committed, projected, entry_id, commit_effect, admits_hash, IsTyped, committed-IsTyped,
}
use apex_leaderboard.Storage.Apply.Retry.{
  replayed, replayed_same, replayed_conflict, script_replayed, committed-Remembers,
  format_stream_id-Lacks_bar,
}
use apex_leaderboard.Storage.Replay.{next_score, ledger_score, IsConsistent}
use apex_leaderboard.Storage.Replay.Apply.{check_range_exact}

abbrev pub is_missing : (P : Platform) → P.Value → Bool
is_missing P v = elim (P.kind v) [ no_key ↦ true | _ ↦ false ]

-- The answer to a write without a key, from the state alone.
abbrev pub verdict :
    (P : Platform) → Server P → EventType → Text → Text → ℤ → Result StorageError (Unit {0})
verdict P s type p b n =
    if is_missing P (s.at (player_profile_key p))
    then err StorageError.not_found
    else if is_missing P (s.at (board_profile_key b))
    then err StorageError.board_not_found
    else if is_closed P (P.hget (codes "board_state") (s.at (board_profile_key b)))
    then err StorageError.board_closed
    else if validate (next_score type (ledger_score P s b p) n)
    then ok tt
    else err StorageError.score_out_of_range

outcome_of : (P : Platform) → Result ServerError Reply × Server P → Result StorageError (Unit {0})
outcome_of P (ok r, s') = result_of_code r.0
outcome_of P (err e, s') = err StorageError.other

abbrev existence : (P : Platform) → Server P → Text → Text → Option Reply
existence P s p b =
    if is_missing P (s.at (player_profile_key p))
    then some (code_player_not_found, [])
    else if is_missing P (s.at (board_profile_key b))
    then some (code_board_not_found, [])
    else if is_closed P (P.hget (codes "board_state") (s.at (board_profile_key b)))
    then some (code_board_closed, [])
    else none

module _ (P : Platform) (L : PlatformLaws P) (type : EventType) (p b : Text) (n : ℤ) (req : Text)
    (s : Server P) (score : IsScore n) (h : IsConsistent P s) where
  unkeyed : check_idempotency P (script_args type p b n req []) s ≡ (ok none, s)
  unfolding check_idempotency script_args text_eq
  unkeyed = refl

  check_existence_exact :
      check_existence P (script_args type p b n req []) s ≡ (ok (existence P s p b), s)
  unfolding check_existence script_args
  check_existence_exact =
      ground (arith, admits_hash (P.kind (s.at (board_profile_key b))) (h.typed.board_at b))

  script_verdict :
      outcome_of P (apply_score_event P (script_args type p b n req []) s) ≡ verdict P s type p b n
  unfolding outcome_of result_of_code
  script_verdict =
      rw
        (
          apply_steps P (script_args type p b n req []) s none (existence P s p b) _ unkeyed
              check_existence_exact (check_range_exact P L p b n req [] s h type score),
          commit_effect P L type p b n req [] s score h.typed,
        )
        (ground arith)

-- The server that a write leaves, by its answer.
abbrev pub left_by :
    (P : Platform)
    → EventType
    → Text
    → Text
    → ℤ
    → Text
    → Server P
    → Result StorageError (Unit {0})
    → Server P
left_by P type p b n req s (ok _) = committed P type p b n req [] s
left_by P type p b n req s (err _) = s

-- A world whose requests are all delivered, with nothing of others in between.
abbrev pub calm : {P : Platform} → Server P → World P
calm s = record { server = s; link = [] }

module _ (P : Platform) (type : EventType) (p b : Text) (n : ℤ) (req key : Text)
    (s : Server P) where
  apply_event-outcome :
      (x : Result ServerError Reply × Server P)
      → apply_score_event P (script_args type p b n req key) s ≡ x
      → apply_event P type p b n req key (calm s) ≡ (outcome_of P x, calm x.1)
  unfolding apply_event outcome_of
  apply_event-outcome (ok r, s') e = rw (e, answer, apply_event)
  apply_event-outcome (err x, s') e = rw (e, answer, apply_event)

-- A write without a key is committed if its verdict is success, and else changes nothing.
pub apply_event-left_by :
    (P : Platform) (L : PlatformLaws P) (type : EventType) (p b : Text) (n : ℤ) (req : Text)
    (s : Server P)
    → IsScore n
    → IsConsistent P s
    → apply_event P type p b n req [] (calm s)
      ≡ (verdict P s type p b n, calm (left_by P type p b n req s (verdict P s type p b n)))
apply_event-left_by P L type p b n req s score h =
    apply_event-outcome P type p b n req [] s _ refl
    ∙ (λ i. (script_verdict P L type p b n req s score h i, calm (left i)))
  where
    left :
        (apply_score_event P (script_args type p b n req []) s).1
        ≡ left_by P type p b n req s (verdict P s type p b n)
    left =
        rw
          (
            apply_steps P (script_args type p b n req []) s none (existence P s p b) _
                (unkeyed P L type p b n req s score h)
                (check_existence_exact P L type p b n req s score h)
                (check_range_exact P L p b n req [] s h type score),
            commit_effect P L type p b n req [] s score h.typed,
          )
          (ground arith)

-- On a consistent server, with the request delivered, a write without a key of an amount that is a
-- score is answered by the state alone: unknown player, unknown board, closed board, score out of
-- range, in this order, and success in every other case.
pub apply_event-verdict :
    (P : Platform) (L : PlatformLaws P) (type : EventType) (p b : Text) (n : ℤ) (req : Text)
    (s : Server P)
    → IsScore n
    → IsConsistent P s
    → (apply_event P type p b n req [] (calm s)).0 ≡ verdict P s type p b n
apply_event-verdict P L type p b n req s score h =
    ap (λ x. x.0) (apply_event-outcome P type p b n req [] s _ refl)
    ∙ script_verdict P L type p b n req s score h

module _ (P : Platform) (L : PlatformLaws P) (type : EventType) (p b : Text) (n : ℤ)
    (req key : Text) (s : Server P) (score : IsScore n) (typed : IsTyped P s) (keyed : key ≢ [])
    (id : Text) where
  abbrev pub AnswersAs : Server P → Type 0
  AnswersAs s' =
      (type' : EventType) (n' : ℤ) (req' : Text)
      → apply_score_event P (script_args type' p b n' req' key) s'
        ≡ (ok (replayed id type n type' n'), s')

  abbrev Retried : Result ServerError Reply × Server P → Type 0
  Retried x = x.0 ≡ ok (code_applied, id) → AnswersAs x.1

  abbrev first_id : Text
  first_id = entry_id P type p b n req key (projected P type p b n req key s)

  same_id :
      ◌≡◌ {A = Result ServerError Reply} (ok (code_applied, first_id)) (ok (code_applied, id))
      → first_id ≡ id
  same_id h = ground arith

  from_record : Retried (ok (code_applied, first_id), committed P type p b n req key s)
  from_record e type' n' req' =
      script_replayed P first_id type p b n req key (committed P type p b n req key s)
        (committed-IsTyped P L type p b n req key s typed) keyed (format_stream_id-Lacks_bar _)
        (committed-Remembers P L type p b n req key s keyed typed) type' n' req'
      ∙ ap (λ i. (ok (replayed i type n type' n'), committed P type p b n req key s)) (same_id e)

  -- After a write with a key that was applied, every write of that key by the player on the board
  -- is answered from the record and changes nothing.
  pub retry :
      (apply_score_event P (script_args type p b n req key) s).0 ≡ ok (code_applied, id)
      → AnswersAs (apply_score_event P (script_args type p b n req key) s).1
  retry =
      applied_cases P (args P type p b n req key) s id AnswersAs
        (subst Retried (sym (commit_effect P L type p b n req key s score typed)) from_record)

  -- On a server whose keys hold the right types, after a run of the write script with a nonempty
  -- idempotency key and an amount that is a score that was applied, the same write with that key
  -- is answered with the entry of the first, every write of another kind or of another amount that
  -- is a score is refused as a conflict, and neither changes the server.
  pub retry_answers :
      (apply_score_event P (script_args type p b n req key) s).0 ≡ ok (code_applied, id)
      → let s' = (apply_score_event P (script_args type p b n req key) s).1 in
        ((req' : Text)
          → apply_score_event P (script_args type p b n req' key) s' ≡ (ok (code_deduped, id), s'))
        × ((type' : EventType) (n' : ℤ) (req' : Text)
            → IsScore n'
            → (type ≢ type') ⊎ (n ≢ n')
            → apply_score_event P (script_args type' p b n' req' key) s'
              ≡ (ok (code_conflict, []), s'))
  retry_answers applied = (
    λ req'. retry applied type n req' ∙ ap (λ r. (ok r, after)) (replayed_same id type n),
    λ type' n' req' score' other.
        retry applied type' n' req'
        ∙ ap (λ r. (ok r, after)) (replayed_conflict id type type' n n' score score' other),
  )
    where
      after : Server P
      after = (apply_score_event P (script_args type p b n req key) s).1
