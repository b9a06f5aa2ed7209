-- ===== src/ApiScripts/RandomEvents.antt =====
-- apiscripts/randomhistory/randomhistory.go: the events that writeRandomEvents draws and writes, and
-- the wait for the history. The generator of math/rand is a parameter, and so is what the service
-- shows of the player's score.
use apex_leaderboard.Prelude.{
  ℕ, zero, suc, ◌+◌, ◌*◌, ◌^◌, ◌≤◌, ◌<◌, List, [], ◌∷◌, ◌++◌, Option, none, some, Bool, true, false,
  ◌≡◌, ◌≢◌, ◌⊎◌, refl, arith, length, length-append, ltb, ◌==◌, ◌&&◌, if◌then◌else◌, inl, inr,
  if_either, ◌∙◌, sym, ap,
}
use mathlib.Core.Path.{subst}
use apex_leaderboard.Prelude.Int.{
  ℤ, pos, ◌+ℤ◌, ◌-ℤ◌, wrap64, wrap64_id, IsInt64, abs_ℤ, eqb_ℤ, int_laws,
}
use apex_leaderboard.Prelude.Text.{Text, codes, text_eq}
use apex_leaderboard.Prelude.Exec.{Result, ok, err, pure, ◌>>=◌, >>=-ok}
use apex_leaderboard.RandomHistory.{ExpectedEvent, ScoreEvent}
use apex_leaderboard.ApiScripts.{Service, Calls, CallError, set_score, increment_score}
use apex_leaderboard.ApiScripts.Poll.{Seen, ready, failed, pending, poll}

abbrev pub big_increment_pct : ℕ
big_increment_pct = 15

abbrev pub set_pct : ℕ
set_pct = 5

abbrev pub history_page_limit : ℕ
history_page_limit = 100

-- IntN and Int64N
pub record Rng : Type 1 where
  pub State : Type 0
  pub int_n : ℕ → State → ℕ × State

abbrev set_event : ℤ → ExpectedEvent
set_event n = record { event_type = codes "set"; amount = n }

abbrev increment_event : ℤ → ExpectedEvent
increment_event n = record { event_type = codes "increment"; amount = n }

module _ (G : Rng) where
  abbrev draw : (ℕ → ExpectedEvent) → ℕ × G.State → ExpectedEvent × G.State
  draw make (n, g) = (make n, g)

  -- The switch of the loop; the first event is a set.
  unfoldable pub next_event : ℕ → G.State → ExpectedEvent × G.State
  next_event zero g = draw (λ n. set_event (pos n)) (G.int_n 5000 g)
  next_event (suc i) g =
      let (x, g1) = G.int_n 100 g in
      let (y, g2) = G.int_n 100 g1 in
      if ltb x set_pct
      then draw (λ n. set_event (pos n)) (G.int_n 5000 g1)
      else if ltb y big_increment_pct
      then draw (λ n. increment_event (pos n -ℤ pos 500)) (G.int_n 1001 g2)
      else draw (λ n. increment_event (pos n -ℤ pos 50)) (G.int_n 151 g2)

abbrev is_set : ExpectedEvent → Bool
is_set e = text_eq e.event_type (codes "set")

-- The expected score, on int64.
unfoldable pub score_with : ExpectedEvent → ℤ → ℤ
score_with e score = if is_set e then e.amount else wrap64 (score +ℤ e.amount)

module _ (V : Service) (G : Rng) (board_id player_id : Text) where
  unfoldable pub write_event : ExpectedEvent → Calls V (Unit {0})
  write_event e =
      if is_set e
      then set_score V board_id player_id e.amount
      else increment_score V board_id player_id e.amount

  -- The loop, by the rounds that are left.
  unfoldable pub write_from :
      ℕ → ℕ → G.State → ℤ → List ExpectedEvent → Calls V (List ExpectedEvent × ℤ)
  unfolding next_event score_with write_event
  write_from zero i g score written = pure (written, score)
  write_from (suc k) i g score written =
      let (e, g') = next_event G i g in
      write_event e >>= λ _. write_from k (suc i) g' (score_with e score) (written ++ e ∷ [])

  -- A failed write is fatal.
  unfoldable pub write_random_events : ℕ → G.State → Calls V (List ExpectedEvent × ℤ)
  unfolding write_from
  write_random_events event_count g = write_from event_count 0 g (pos 0) []

-- One round of `waitForHistory` after the request: the newest event heads a full page.
abbrev heads : ExpectedEvent → List ScoreEvent → Bool
heads newest [] = false
heads newest (e ∷ es) = text_eq e.event_type newest.event_type && eqb_ℤ e.amount newest.amount

abbrev pub history_seen :
    ℕ
    → ExpectedEvent
    → Result CallError (List ScoreEvent)
    → Seen (List ScoreEvent) (Option CallError)
history_seen want newest (err e) = failed (some e)
history_seen want newest (ok events) =
    if length events == want && heads newest events then ready events else pending

-- `waitForHistory` from the time 0; `none` beside an error is the timeout.
unfoldable pub wait_for_history :
    (ℕ → Result CallError (List ScoreEvent) × ℕ)
    → ℕ
    → ExpectedEvent
    → ℕ
    → ℕ
    → Option (Result (Option CallError) (List ScoreEvent))
unfolding poll
wait_for_history fetch want newest looks timeout =
    poll (λ now. (history_seen want newest (fetch now).0, (fetch now).1)) none timeout looks 0

-- What was drawn for a round.
abbrev IsDrawn : ℕ → ExpectedEvent → Type 0
IsDrawn i e =
    ((is_set e ≡ true) × (abs_ℤ e.amount ≤ 5000))
    ⊎ ((is_set e ≡ false) × (i ≢ 0) × (abs_ℤ e.amount ≤ 500))

module _ (G : Rng) (below : (n : ℕ) (g : G.State) → 0 < n → (G.int_n n g).0 < n) where
  shifted : (n k : ℕ) → n ≤ 1000 → k ≤ 500 → n ≤ k + 500 → abs_ℤ (pos n -ℤ pos k) ≤ 500
  unfolding ◌-ℤ◌
  shifted n k h1 h2 h3 = ground arith

  next_event-IsDrawn : (i : ℕ) (g : G.State) → IsDrawn i (next_event G i g).0
  unfolding next_event text_eq
  next_event-IsDrawn zero g = inl (refl, omega (arith, below 5000 g (omega arith)))
  next_event-IsDrawn (suc i) g =
      let (x, g1) = G.int_n 100 g in
      let (y, g2) = G.int_n 100 g1 in
      let later : suc i ≢ 0 = λ e. absurd (omega (arith, e)) in
      if_either (λ (d : ExpectedEvent × G.State). IsDrawn (suc i) d.0) (ltb x set_pct)
        (inl (refl, omega (arith, below 5000 g1 (omega arith))))
        (if_either (λ (d : ExpectedEvent × G.State). IsDrawn (suc i) d.0) (ltb y big_increment_pct)
          (inr (
            refl,
            later,
            shifted (G.int_n 1001 g2).0 500 (omega (arith, below 1001 g2 (omega arith)))
                (omega arith) (omega (arith, below 1001 g2 (omega arith))),
          ))
          (inr (
            refl,
            later,
            shifted (G.int_n 151 g2).0 50 (omega (arith, below 151 g2 (omega arith))) (omega arith)
                (omega (arith, below 151 g2 (omega arith))),
          )))

-- What the service shows of the player's score on the board: a write that it accepts shows.
pub record ShowsWrites (V : Service) (board_id player_id : Text) : Type 0 where
  pub shown : V.State → Option ℤ
  pub after_set :
      (n : ℤ) (s : V.State)
      → (set_score V board_id player_id n s).0 ≡ ok tt
      → shown (set_score V board_id player_id n s).1 ≡ some n
  pub after_increment :
      (n m : ℤ) (s : V.State)
      → shown s ≡ some m
      → (increment_score V board_id player_id n s).0 ≡ ok tt
      → shown (increment_score V board_id player_id n s).1 ≡ some (m +ℤ n)

module _ (V : Service) (G : Rng) (board_id player_id : Text)
    (W : ShowsWrites V board_id player_id) where
  -- Before round `i`: from the first event on the service shows the expected score.
  abbrev Keeps : ℕ → ℤ → V.State → Type 0
  Keeps i score s = (abs_ℤ score ≤ 5000 + i * 500) × (i ≢ 0 → W.shown s ≡ some score)

  exact :
      (i : ℕ) (score amount : ℤ)
      → abs_ℤ score ≤ 5000 + i * 500
      → abs_ℤ amount ≤ 500
      → 5000 + suc i * 500 < 2 ^ 63
      → (wrap64 (score +ℤ amount) ≡ score +ℤ amount)
        × (abs_ℤ (score +ℤ amount) ≤ 5000 + suc i * 500)
  exact i score amount h1 h2 h3 =
      let size : abs_ℤ (score +ℤ amount) ≤ 5000 + suc i * 500 = omega (int_laws, h1, h2) in
      (wrap64_id (score +ℤ amount) (fits (score +ℤ amount) (omega (arith, size, h3))), size)
    where
      fits : (a : ℤ) → abs_ℤ a < 2 ^ 63 → IsInt64 a
      fits a h = ground arith

  event-Keeps :
      (i : ℕ) (e : ExpectedEvent) (score : ℤ) (s : V.State)
      → IsDrawn i e
      → 5000 + suc i * 500 < 2 ^ 63
      → Keeps i score s
      → (write_event V G board_id player_id e s).0 ≡ ok tt
      → Keeps (suc i) (score_with e score) (write_event V G board_id player_id e s).1
  unfolding write_event score_with
  event-Keeps i e score s (inl (set, small)) bound (size, shows) done =
      let accepted : (set_score V board_id player_id e.amount s).0 ≡ ok tt = rw set at done in
      rw set (omega (arith, small), λ _. W.after_set e.amount s accepted)
  event-Keeps i e score s (inr (inc, later, small)) bound (size, shows) done =
      let accepted : (increment_score V board_id player_id e.amount s).0 ≡ ok tt = rw inc at done in
      let (whole, near) = exact i score e.amount size small bound in
      rw (inc, whole) (near, λ _. W.after_increment e.amount score s (shows later) accepted)

  module _ (below : (n : ℕ) (g : G.State) → 0 < n → (G.int_n n g).0 < n) where
    write_from-Keeps :
        (k i : ℕ) (g : G.State) (score : ℤ) (written : List ExpectedEvent) (s : V.State)
        (w : List ExpectedEvent) (sc : ℤ)
        → 5000 + (i + k) * 500 < 2 ^ 63
        → Keeps i score s
        → (write_from V G board_id player_id k i g score written s).0 ≡ ok (w, sc)
        → Keeps (i + k) sc (write_from V G board_id player_id k i g score written s).1
          × (length w ≡ length written + k)
    unfolding write_from
    write_from-Keeps zero i g score written s w sc bound keeps done =
        let same : written ≡ w = ground arith in
        let last : score ≡ sc = ground arith in
        let here : i ≡ i + 0 = omega arith in
        (
          subst (λ j. Keeps j sc s) here (subst (λ x. Keeps i x s) last keeps),
          sym (ap length same) ∙ omega arith,
        )
    write_from-Keeps (suc k) i g score written s w sc bound keeps done =
        let e = (next_event G i g).0 in
        let rest = λ (_ : Unit {0}).
          write_from V G board_id player_id k (suc i) (next_event G i g).1 (score_with e score)
            (written ++ e ∷ []) in
        let (u, accepted, run) =
          >>=-ok (write_event V G board_id player_id e) rest s (w, sc) done in
        let (after, size) =
          write_from-Keeps k (suc i) (next_event G i g).1 (score_with e score) (written ++ e ∷ [])
            (write_event V G board_id player_id e s).1 w sc (omega (arith, bound))
            (event-Keeps i e score s (next_event-IsDrawn G below i g) (omega (arith, bound)) keeps
              accepted)
            (ap (λ x. x.0) (sym run) ∙ done) in
        (
          subst (λ x. Keeps (i + suc k) sc x.1) (sym run)
              (subst (λ j. Keeps j sc (rest u (write_event V G board_id player_id e s).1).1)
                (next i k) after),
          size ∙ longer e,
        )
      where
        next : (i k : ℕ) → suc i + k ≡ i + suc k
        next i k = omega arith

        longer : (e : ExpectedEvent) → length (written ++ e ∷ []) + k ≡ length written + suc k
        longer e = omega (arith, length-append written (e ∷ []))

    -- Where the generator draws below its bound, the service shows every write that it accepts,
    -- and the events are not so many that their sum could leave int64, writeRandomEvents of at
    -- least one event that ends without an error returns that many events and the score that the
    -- service then shows.
    pub write_random_events-shown :
        (n : ℕ) (g : G.State) (s : V.State) (w : List ExpectedEvent) (sc : ℤ)
        → 5000 + suc n * 500 < 2 ^ 63
        → (write_random_events V G board_id player_id (suc n) g s).0 ≡ ok (w, sc)
        → (W.shown (write_random_events V G board_id player_id (suc n) g s).1 ≡ some sc)
          × (length w ≡ suc n)
    unfolding write_random_events
    write_random_events-shown n g s w sc bound done =
        let (keeps, size) =
          write_from-Keeps (suc n) 0 g (pos 0) [] s w sc (omega (arith, bound))
            (omega arith, λ h. absurd (h refl)) done in
        (keeps.1 (λ e. absurd (omega (arith, e))), size ∙ omega arith)
