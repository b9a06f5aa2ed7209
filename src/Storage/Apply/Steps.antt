-- ===== src/Storage/Apply/Steps.antt =====
-- What each part of the script does to the server.
use apex_leaderboard.Prelude.{Option, none, some, ◌≡◌, ◌≢◌, refl, arith, inl, inr, ◌∙◌, ap, ◌⊎◌}
use apex_leaderboard.Prelude.Text.{Text}
use apex_leaderboard.Prelude.Exec.{Result, ok, err}
use apex_leaderboard.Platform.{Platform}
use apex_leaderboard.Redis.{Server, ServerError, Script}
use apex_leaderboard.Storage.Apply.Script.{
  Args, Reply, seen_reply, Early, or_else, check_idempotency, check_existence, check_range,
  current_score, commit, apply_score_event, code_applied,
}

module _ (P : Platform) (a : Args) (s : Server P) where
  -- The three blocks that may return early only read.
  pub check_idempotency-reads : (check_idempotency P a s).1 ≡ s
  unfolding check_idempotency
  check_idempotency-reads = ground arith

  pub check_existence-reads : (check_existence P a s).1 ≡ s
  unfolding check_existence
  check_existence-reads = ground arith

  pub current_score-reads : (current_score P a s).1 ≡ s
  unfolding current_score
  current_score-reads = ground arith

  pub check_range-reads : (check_range P a s).1 ≡ s
  unfolding check_range
  check_range-reads = ground arith

  -- None of them answers "applied".
  check_idempotency_code :
      {r : Reply} → (check_idempotency P a s).0 ≡ ok (some r) → r.0 ≢ code_applied
  unfolding check_idempotency seen_reply
  check_idempotency_code h = ground arith

  check_existence_code : {r : Reply} → (check_existence P a s).0 ≡ ok (some r) → r.0 ≢ code_applied
  unfolding check_existence
  check_existence_code h = ground arith

  check_range_code : {r : Reply} → (check_range P a s).0 ≡ ok (some r) → r.0 ≢ code_applied
  unfolding check_range current_score
  check_range_code h = ground arith

  commit_code : {r : Reply} → (commit P a s).0 ≡ ok r → r.0 ≡ code_applied
  unfolding commit
  commit_code h = ground arith

module _ {κ} (P : Platform) (Q : Result ServerError Reply × Server P → Type κ) (m : Early P)
    (k : Script P Reply) (s : Server P) where
  or_else_run :
      (r : Result ServerError (Option Reply))
      → (m s).0 ≡ r
      → (m s).1 ≡ s
      → ((a : Reply) → r ≡ ok (some a) → Q (ok a, s))
      → ((e : ServerError) → r ≡ err e → Q (err e, s))
      → (r ≡ ok none → Q (k s))
      → Q (or_else P m k s)
  or_else_run (ok none) e same early failed on = rw (e, same) (on refl)
  or_else_run (ok (some a)) e same early failed on = rw (e, same) (early a refl)
  or_else_run (err x) e same early failed on = rw (e, same) (failed x refl)

-- The script either ends in one of the three blocks that only read, or it commits.
module _ {κ} (P : Platform) (a : Args) (s : Server P)
    (Q : Result ServerError Reply × Server P → Type κ) where
  pub apply_cases :
      ((r : Reply) → (check_idempotency P a s).0 ≡ ok (some r) → Q (ok r, s))
      → ((r : Reply)
          → ((check_existence P a s).0 ≡ ok (some r)) ⊎ ((check_range P a s).0 ≡ ok (some r))
          → Q (ok r, s))
      → ((e : ServerError) → Q (err e, s))
      → ((check_idempotency P a s).0 ≡ ok none
          → (check_existence P a s).0 ≡ ok none
          → (check_range P a s).0 ≡ ok none
          → Q (commit P a s))
      → Q (apply_score_event P a s)
  unfolding apply_score_event
  apply_cases seen refused failed committed =
      or_else_run P Q (check_idempotency P a) _ s _ refl (check_idempotency-reads P a s) seen
        (λ e _. failed e)
        λ fresh.
          or_else_run P Q (check_existence P a) _ s _ refl (check_existence-reads P a s)
            (λ r h. refused r (inl h)) (λ e _. failed e)
            λ exists.
              or_else_run P Q (check_range P a) _ s _ refl (check_range-reads P a s)
                (λ r h. refused r (inr h)) (λ e _. failed e) λ fits. committed fresh exists fits

module _ (P : Platform) (a : Args) (s : Server P) where
  -- A reply of the write script other than "applied" comes from a run that wrote nothing.
  pub rejected_unchanged :
      (r : Reply)
      → (apply_score_event P a s).0 ≡ ok r
      → r.0 ≢ code_applied
      → (apply_score_event P a s).1 ≡ s
  rejected_unchanged r =
      apply_cases P a s (λ x. x.0 ≡ ok r → r.0 ≢ code_applied → x.1 ≡ s) (λ _ _ _ _. refl)
        (λ _ _ _ _. refl) (λ _ _ _. refl) (λ _ _ _ h ne. absurd (ne (commit_code P a s h)))

-- An early return ends the script, and without one it goes on.
abbrev pub answered :
    {P : Platform}
    → Server P
    → Option Reply
    → Result ServerError Reply × Server P
    → Result ServerError Reply × Server P
answered s none x = x
answered s (some r) x = (ok r, s)

module _ (P : Platform) (m : Early P) (k : Script P Reply) (s : Server P) where
  or_else_lem : (o : Option Reply) → m s ≡ (ok o, s) → or_else P m k s ≡ answered s o (k s)
  or_else_lem none e = rw e
  or_else_lem (some r) e = rw e

module _ (P : Platform) (a : Args) (s : Server P) where
  -- The script, when the answers of its three blocks are known.
  pub apply_steps :
      (o1 o2 o3 : Option Reply)
      → check_idempotency P a s ≡ (ok o1, s)
      → check_existence P a s ≡ (ok o2, s)
      → check_range P a s ≡ (ok o3, s)
      → apply_score_event P a s ≡ answered s o1 (answered s o2 (answered s o3 (commit P a s)))
  unfolding apply_score_event
  apply_steps o1 o2 o3 e1 e2 e3 =
      or_else_lem P (check_idempotency P a) _ s o1 e1
      ∙ ap (answered s o1) (
          or_else_lem P (check_existence P a) _ s o2 e2
          ∙ ap (answered s o2) (or_else_lem P (check_range P a) _ s o3 e3))

module _ {κ} (P : Platform) (a : Args) (s : Server P) (id : Text) (Q : Server P → Type κ) where
  -- What holds of a committed server holds after every script that answers "applied".
  pub applied_cases :
      ((commit P a s).0 ≡ ok (code_applied, id) → Q (commit P a s).1)
      → (apply_score_event P a s).0 ≡ ok (code_applied, id)
      → Q (apply_score_event P a s).1
  applied_cases k =
      apply_cases P a s (λ x. x.0 ≡ ok (code_applied, id) → Q x.1)
        (λ r e h. absurd (check_idempotency_code P a s e (code_of h)))
        (λ r e h. absurd (not_applied r e (code_of h))) (λ _ h. cc) (λ _ _ _. k)
    where
      code_of :
          {r : Reply}
          → ◌≡◌ {A = Result ServerError Reply} (ok r) (ok (code_applied, id))
          → r.0 ≡ code_applied
      code_of h = ground arith

      not_applied :
          (r : Reply)
          → ((check_existence P a s).0 ≡ ok (some r)) ⊎ ((check_range P a s).0 ≡ ok (some r))
          → r.0 ≢ code_applied
      not_applied r (inl e) = check_existence_code P a s e
      not_applied r (inr e) = check_range_code P a s e
