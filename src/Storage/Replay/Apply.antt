-- ===== src/Storage/Replay/Apply.antt =====
-- Every score write, whatever comes of it and of the connection, leaves a consistent server.
use apex_leaderboard.Prelude.{
  List, [], Option, none, some, not, ◌≡◌, refl, arith, inl, if◌then◌else◌,
}
use apex_leaderboard.Prelude.Int.{ℤ, pos, ◌+ℤ◌, zero_+ℤ, int_laws}
use apex_leaderboard.Prelude.Text.{Text, text_eq}
use apex_leaderboard.Prelude.Exec.{Result, ok, lift, Stable-bind, Stable-lift}
use apex_leaderboard.Platform.{Platform}
use apex_leaderboard.Platform.Laws.{PlatformLaws, IsSmall}
use apex_leaderboard.Redis.{Server, ServerError}
use apex_leaderboard.Score.{IsScore, validate, validate_iff, abs_of_score, max_score, min_score}
use apex_leaderboard.Ledger.{EventType}
use apex_leaderboard.Storage.Client.{Turn, World, call}
use apex_leaderboard.Storage.Keeps.{Friendly, Respects, call-Respects}
use apex_leaderboard.Storage.Keys.{leaderboard_key}
use apex_leaderboard.Storage.Entry.Decode.{IsWritable}
use apex_leaderboard.Storage.Apply.{script_args, apply_event, result_of_code}
use apex_leaderboard.Storage.Apply.Script.{
  Reply, apply_score_event, current_score, check_range, out_of_range, code_out_of_range,
}
use apex_leaderboard.Storage.Apply.Steps.{apply_cases}
use apex_leaderboard.Storage.Apply.Effect.{args, admits_zset, commit_effect}
use apex_leaderboard.Storage.Replay.{
  bounded, total, next_score, InRange, ledger_score, IsConsistent,
}
use apex_leaderboard.Storage.Replay.Write.{committed-IsConsistent, float_total}

-- What a write adds to.
abbrev base : EventType → Option ℤ → ℤ
base EventType.set old = pos 0
base EventType.increment old = total old

base_next : (t : EventType) (old : Option ℤ) (n : ℤ) → base t old +ℤ n ≡ next_score t old n
base_next EventType.set old n = zero_+ℤ n
base_next EventType.increment old n = refl

module _ (P : Platform) (L : PlatformLaws P) where
  open L use {floats}

  -- The script's test on doubles is the range of a score.
  out_of_range_exact :
      (c n : ℤ)
      → IsSmall c
      → IsSmall n
      → IsSmall (c +ℤ n)
      → out_of_range P (P.of_int max_score) (P.float_add (P.of_int c) (P.of_int n))
        ≡ not (validate (c +ℤ n))
  unfolding validate
  out_of_range_exact c n hc hn hs =
      rw
        (
          floats.float_add-of_int c n hc hn hs,
          floats.float_neg-of_int max_score,
          floats.float_lt-of_int max_score (c +ℤ n) (inl (omega arith)) (inl hs),
          floats.float_lt-of_int (c +ℤ n) min_score (inl hs) (inl (omega arith)),
        )
        (ground arith)

  IsSmall-sum : (c n : ℤ) → IsScore c → IsScore n → IsSmall (c +ℤ n)
  IsSmall-sum c n hc hn = omega (int_laws, abs_of_score c hc, abs_of_score n hn)

  base-IsScore : (t : EventType) (old : Option ℤ) → InRange old → IsScore (base t old)
  base-IsScore EventType.set old h = ground arith
  base-IsScore EventType.increment none h = ground arith
  base-IsScore EventType.increment (some c) h = h

  module _ (p b : Text) (n : ℤ) (req key : Text) (s : Server P) (h : IsConsistent P s) where
    current_score_exact :
        (type : EventType)
        → current_score P (args P type p b n req key) s
          ≡ (ok (P.of_int (base type (ledger_score P s b p))), s)
    unfolding current_score script_args text_eq
    current_score_exact EventType.set = refl
    current_score_exact EventType.increment = rw (
      admits_zset _ (h.typed.zset_at b),
      float_total P L p b n req key p (s.at (leaderboard_key b)) (ledger_score P s b p)
          (h.scores b p),
    )

    -- The range check, on whole numbers.
    pub check_range_exact :
        (type : EventType)
        → IsScore n
        → check_range P (args P type p b n req key) s ≡ (
          ok (
              if validate (next_score type (ledger_score P s b p) n)
              then none
              else some (code_out_of_range, [])),
          s,
        )
    unfolding check_range script_args
    check_range_exact type score =
        let old = ledger_score P s b p in
        let small : IsSmall n = omega (arith, abs_of_score n score) in
        let start : IsScore (base type old) = base-IsScore type old (bounded P s h b p) in
        rw
          (
            current_score_exact type,
            floats.tonumber-format_int n small,
            floats.tonumber-format_int max_score (omega arith),
            out_of_range_exact (base type old) n (omega (arith, abs_of_score _ start)) small
                (IsSmall-sum _ n start score),
            base_next type old n,
          )
          (ground arith)

    check_range_fits :
        (type : EventType)
        → IsScore n
        → (check_range P (args P type p b n req key) s).0 ≡ ok none
        → IsScore (next_score type (ledger_score P s b p) n)
    check_range_fits type score e = passes (rw (check_range_exact type score) at e)
      where
        passes :
            Path
              (Result ServerError (Option Reply))
              (ok (
                if validate (next_score type (ledger_score P s b p) n)
                then none
                else some (code_out_of_range, [])))
              (ok none)
            → IsScore (next_score type (ledger_score P s b p) n)
        passes k = (validate_iff _).0 (ground arith)

    -- The script run as one step keeps a consistent server consistent, whatever it answers.
    pub script-IsConsistent :
        (type : EventType)
        → IsWritable P p b n req
        → IsConsistent P (apply_score_event P (args P type p b n req key) s).1
    script-IsConsistent type w =
        apply_cases P (args P type p b n req key) s (λ x. IsConsistent P x.1) (λ _ _. h) (λ _ _. h)
          (λ _. h)
          (λ _ _ fits. rw (commit_effect P L type p b n req key s w.score h.typed) (
            committed-IsConsistent P L type p b n req key w s h
              (check_range_fits type w.score fits)))

-- What others do between the requests of this client is itself consistent.
abbrev pub IsFriendly : (P : Platform) → List (Turn P) → Type 0
IsFriendly P = Friendly P (IsConsistent P)

pub apply_event-Respects :
    (P : Platform) (L : PlatformLaws P) (type : EventType) (p b : Text) (n : ℤ) (req key : Text)
    → IsWritable P p b n req
    → Respects P (IsConsistent P) (apply_event P type p b n req key)
unfolding apply_event
apply_event-Respects P L type p b n req key writable =
    Stable-bind (call (apply_score_event P (script_args type p b n req key)))
      (λ r. lift (result_of_code r.0))
      (call-Respects P (IsConsistent P) (apply_score_event P (script_args type p b n req key))
        (record { keeps = λ s hs. script-IsConsistent P L p b n req key s hs type writable }))
      (λ r. Stable-lift (result_of_code r.0))

-- For a valid player id, nonempty ids and an amount that is a score, SetScore and IncrementScore
-- leave a consistent server consistent: every projection shows what the ledger adds up to, within
-- the range of a score, whatever the reply, whether the request or its reply was lost, and
-- whatever consistent writes of others came before it.
pub apply_event-IsConsistent :
    (P : Platform) (L : PlatformLaws P) (type : EventType) (p b : Text) (n : ℤ) (req key : Text)
    (w : World P)
    → IsWritable P p b n req
    → IsFriendly P w.link
    → IsConsistent P w.server
    → IsConsistent P (apply_event P type p b n req key w).1.server
apply_event-IsConsistent P L type p b n req key w writable friendly h =
    ((apply_event-Respects P L type p b n req key writable).keeps w (h, friendly)).0
