-- ===== src/ApiScripts/Load.antt =====
-- apiscripts/loadscore/loadscore.go: increments that run at once, and the check of their sum. Each
-- request is one step of the service; they run in any order, which is a list of their numbers.
use apex_leaderboard.Prelude.{
  ℕ, zero, suc, ◌+◌, List, [], ◌∷◌, ◌++◌, some, Bool, true, ◌≡◌, ◌≢◌, refl, arith, length,
  length-append, ap, ◌∙◌,
}
use apex_leaderboard.Prelude.Int.{
  ℤ, pos, ◌+ℤ◌, wrap64, wrap64_id, IsInt64, eqb_ℤ, int_laws, zero_+ℤ, eq_of_parts,
}
use apex_leaderboard.Prelude.Text.{Text, codes}
use apex_leaderboard.Prelude.Exec.{Result, ok, err, pure, ◌>>=◌}
use apex_leaderboard.ApiScripts.{
  Service, Calls, CallError, number, do_json, score_path, create_player, create_board, set_score,
}

pub record LoadTestResult : Type 0 where
  pub succeeded : ℕ
  pub errors : List (ℕ × CallError)

-- An integer as often as a number says.
unfoldable pub times : ℕ → ℤ → ℤ
times zero a = pos 0
times (suc n) a = a +ℤ times n a

-- `verifyFinalScore`, on int64; false is a fatal log line.
unfoldable pub verify_final_score : ℤ → ℕ → ℤ → Bool
verify_final_score score request_count amount = eqb_ℤ score (wrap64 (times request_count amount))

module _ (V : Service) where
  -- `createApexFixtures`: a player on a board, with the score 0.
  unfoldable pub create_apex_fixtures : Text → Text → Calls V (Text × Text × Text)
  create_apex_fixtures name board_id = do
    player_id ← create_player V name
    _ ← create_board V board_id (codes "Load Test")
    _ ← set_score V board_id player_id (pos 0)
    pure (player_id, board_id, score_path board_id player_id)

  -- The request of `sendIncrementRequest`.
  unfoldable pub increment_request : Text → ℤ → Calls V (Unit {0})
  increment_request increment_path amount = do
    _ ←
        do_json V (codes "POST") increment_path (some ((codes "amount", number amount) ∷ []))
          (200 ∷ 204 ∷ [])
    pure tt

  -- What it sends to the channel of the errors, or adds to the counter.
  abbrev counted : ℕ → Result CallError (Unit {0}) → LoadTestResult → LoadTestResult
  counted i (ok u) r = record r { succeeded = suc r.succeeded }
  counted i (err e) r = record r { errors = r.errors ++ (i, e) ∷ [] }

  -- The requests of `runIncrementLoad` in the order in which they ran.
  unfoldable pub run_increment_load :
      Text → ℤ → List ℕ → LoadTestResult → V.State → LoadTestResult × V.State
  unfolding increment_request
  run_increment_load path amount [] r s = (r, s)
  run_increment_load path amount (i ∷ order) r s =
      let (answer, s') = increment_request path amount s in
      run_increment_load path amount order (counted i answer r) s'

-- The score that the service shows moves by the amount of each increment that it accepts.
pub record CountsIncrements (V : Service) (path : Text) : Type 0 where
  pub shown : V.State → ℤ
  pub after_increment :
      (n : ℤ) (s : V.State)
      → (increment_request V path n s).0 ≡ ok tt
      → shown (increment_request V path n s).1 ≡ shown s +ℤ n

module _ (V : Service) (path : Text) (amount : ℤ) (W : CountsIncrements V path) where
  abbrev none_yet : LoadTestResult
  none_yet = record { succeeded = 0; errors = [] }

  -- Every request is counted once.
  counted_lem :
      (i : ℕ) (a : Result CallError (Unit {0})) (r : LoadTestResult)
      → (counted V i a r).succeeded + length (counted V i a r).errors
        ≡ suc (r.succeeded + length r.errors)
  counted_lem i (ok u) r = omega arith
  counted_lem i (err e) r = omega (arith, length-append r.errors ((i, e) ∷ []))

  all_counted :
      (order : List ℕ) (r : LoadTestResult) (s : V.State)
      → let out = (run_increment_load V path amount order r s).0 in
        out.succeeded + length out.errors ≡ r.succeeded + length r.errors + length order
  unfolding run_increment_load
  all_counted [] r s = omega arith
  all_counted (i ∷ order) r s = omega (
    arith,
    all_counted order (counted V i (increment_request V path amount s).0 r)
        (increment_request V path amount s).1,
    counted_lem i (increment_request V path amount s).0 r,
  )

  append_ne_nil : {A : Type 0} (xs : List A) (x : A) → xs ++ x ∷ [] ≢ []
  append_ne_nil [] x h = cc
  append_ne_nil (y ∷ xs) x h = cc

  all_accepted :
      (i : ℕ) (a : Result CallError (Unit {0})) (r : LoadTestResult)
      → (counted V i a r).errors ≡ []
      → (a ≡ ok tt) × (r.errors ≡ [])
  all_accepted i (ok u) r h = (refl, h)
  all_accepted i (err e) r h = absurd (append_ne_nil r.errors (i, e) h)

  shown_sum :
      (order : List ℕ) (r : LoadTestResult) (s : V.State)
      → (run_increment_load V path amount order r s).0.errors ≡ []
      → (r.errors ≡ [])
        × (W.shown (run_increment_load V path amount order r s).1
            ≡ W.shown s +ℤ times (length order) amount)
  unfolding run_increment_load times
  shown_sum [] r s h = (h, eq_of_parts _ _ (omega (int_laws)))
  shown_sum (i ∷ order) r s h =
      let (none_before, sum) =
        shown_sum order (counted V i (increment_request V path amount s).0 r)
          (increment_request V path amount s).1 h in
      let (accepted, earlier) =
        all_accepted i (increment_request V path amount s).0 r none_before in
      (
        earlier,
        sum
            ∙ ap (λ x. x +ℤ times (length order) amount) (W.after_increment amount s accepted)
            ∙ regroup (W.shown s) amount (times (length order) amount),
      )
    where
      regroup : (a b c : ℤ) → (a +ℤ b) +ℤ c ≡ a +ℤ (b +ℤ c)
      regroup a b c = omega int_laws

  -- In whatever order the requests of the load test run, each of them is counted as a success or
  -- as an error; where none is an error, the player started from 0, the service counts what it
  -- accepts and the sum is an int64, the check of the final score passes.
  pub run_increment_load-exact :
      (order : List ℕ) (s : V.State)
      → W.shown s ≡ pos 0
      → IsInt64 (times (length order) amount)
      → let (result, s') = run_increment_load V path amount order none_yet s in
        (result.succeeded + length result.errors ≡ length order)
        × (result.errors ≡ [] → verify_final_score (W.shown s') (length order) amount ≡ true)
  unfolding verify_final_score
  run_increment_load-exact order s start fits = (
    all_counted order none_yet s ∙ omega arith,
    λ clean.
        let sum =
          (shown_sum order none_yet s clean).1
          ∙ ap (λ x. x +ℤ times (length order) amount) start
          ∙ zero_+ℤ (times (length order) amount) in
        rw (sum, wrap64_id (times (length order) amount) fits) (ground arith),
  )
