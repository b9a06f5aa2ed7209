-- ===== src/ApiScripts/ActivityWrites.antt =====
-- writeActivity of apiscripts/dailyactivity/dailyactivity.go: as many accepted writes as the script
-- expects to be counted.
use apex_leaderboard.Prelude.{ℕ, zero, suc, ◌+◌, ◌-◌, ◌≤◌, ◌≡◌, arith, ap, sym, ◌∙◌}
use apex_leaderboard.Prelude.Int.{ℤ, pos}
use apex_leaderboard.Prelude.Text.{Text}
use apex_leaderboard.Prelude.Exec.{ok, pure, ◌>>=◌, >>=-ok}
use apex_leaderboard.ApiScripts.{Service, Calls, set_score, increment_score}

module _ (V : Service) (board_id player_id : Text) where
  -- The increments that are left.
  unfoldable pub write_increments : ℕ → Calls V (Unit {0})
  write_increments zero = pure tt
  write_increments (suc k) =
      increment_score V board_id player_id (pos 1) >>= λ _. write_increments k

  unfoldable pub write_activity : ℕ → Calls V (Unit {0})
  unfolding write_increments
  write_activity expected_count =
      set_score V board_id player_id (pos 0) >>= λ _. write_increments (expected_count - 1)

  -- The service counts the writes that it accepts.
  pub record CountsWrites : Type 0 where
    pub count : V.State → ℕ
    pub after_set :
        (n : ℤ) (s : V.State)
        → (set_score V board_id player_id n s).0 ≡ ok tt
        → count (set_score V board_id player_id n s).1 ≡ suc (count s)
    pub after_increment :
        (n : ℤ) (s : V.State)
        → (increment_score V board_id player_id n s).0 ≡ ok tt
        → count (increment_score V board_id player_id n s).1 ≡ suc (count s)

  module _ (W : CountsWrites) where
    increments_counted :
        (k : ℕ) (s : V.State)
        → (write_increments k s).0 ≡ ok tt
        → W.count (write_increments k s).1 ≡ W.count s + k
    unfolding write_increments
    increments_counted zero s h = omega arith
    increments_counted (suc k) s h =
        let (u, accepted, run) =
          >>=-ok (increment_score V board_id player_id (pos 1)) (λ _. write_increments k) s tt h in
        let s' = (increment_score V board_id player_id (pos 1) s).1 in
        ap (λ x. W.count x.1) run
        ∙ increments_counted k s' (ap (λ x. x.0) (sym run) ∙ h)
        ∙ omega (arith, W.after_increment (pos 1) s accepted)

    -- Where the service counts what it accepts, writeActivity that ends without an error raised the
    -- count by the number that the script then waits for.
    pub write_activity-counted :
        (expected_count : ℕ) (s : V.State)
        → 1 ≤ expected_count
        → (write_activity expected_count s).0 ≡ ok tt
        → W.count (write_activity expected_count s).1 ≡ W.count s + expected_count
    unfolding write_activity
    write_activity-counted n s positive h =
        let (u, accepted, run) =
          >>=-ok (set_score V board_id player_id (pos 0)) (λ _. write_increments (n - 1)) s tt h in
        let s' = (set_score V board_id player_id (pos 0) s).1 in
        ap (λ x. W.count x.1) run
        ∙ increments_counted (n - 1) s' (ap (λ x. x.0) (sym run) ∙ h)
        ∙ omega (arith, W.after_set (pos 0) s accepted, positive)
