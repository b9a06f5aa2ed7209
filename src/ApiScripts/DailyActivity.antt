-- ===== src/ApiScripts/DailyActivity.antt =====
-- apiscripts/dailyactivity/dailyactivity.go: the script that waits until the activity of the day
-- shows what it wrote, and the checks that it makes of the answer.
use apex_leaderboard.Prelude.{
  ℕ, suc, ◌+◌, ◌*◌, ◌≤◌, ◌<◌, List, [], ◌∷◌, Option, none, some, Bool, true, false, ◌≡◌, ◌≢◌, refl,
  arith, leb, if◌then◌else◌, All, ◌↔◌, ap, sym, ◌∙◌,
}
use mathlib.Core.Path.{subst}
use apex_leaderboard.Prelude.Int.{ℤ, ltb_ℤ, eq_of_parts}
use apex_leaderboard.Prelude.Text.{Text, text_eq, eq_of_text_eq, text_eq_iff}
use apex_leaderboard.Prelude.Exec.{Result, ok, err}
use apex_leaderboard.ApiScripts.{CallError, ActivityEntry, ListDailyActivityResp}
use apex_leaderboard.ApiScripts.Poll.{
  Seen, ready, failed, pending, poll, poll_interval, GoesOn, poll_succeeds,
}

pub record ActivityPlayer : Type 0 where
  pub id : Text
  pub expected_count : ℤ

pub data WaitError : Type 0 where
  list_error : CallError → WaitError
  date_mismatch : Text → WaitError
  too_many : ActivityPlayer → ℤ → WaitError
  timed_out : WaitError

-- The map of the counts, where a later entry for a player replaces an earlier one.
unfoldable pub count_of : Text → Option ℤ → List ActivityEntry → Option ℤ
count_of id found [] = found
count_of id found (e ∷ es) = count_of id (if text_eq e.player_id id then some e.count else found) es

unfoldable pub has_expected_counts :
    List ActivityEntry → List ActivityPlayer → Result WaitError Bool
has_expected_counts entries [] = ok true
has_expected_counts entries (p ∷ ps) =
    let rest = has_expected_counts entries ps in
    elim (count_of p.id none entries) [
      | none ↦ ok false
      | some count ↦
          if ltb_ℤ count p.expected_count
          then ok false
          else if ltb_ℤ p.expected_count count
          then err (too_many p count)
          else rest
    ]

-- The map of the positions; a missing player is at 0.
unfoldable pub position_of : Text → ℕ → ℕ → List ActivityEntry → ℕ
position_of id found i [] = found
position_of id found i (e ∷ es) =
    position_of id (if text_eq e.player_id id then i else found) (suc i) es

-- `verifyFixtureOrder`; false is a fatal log line.
unfoldable pub verify_fixture_order : List ActivityEntry → List ActivityPlayer → Bool
verify_fixture_order entries [] = true
verify_fixture_order entries (p ∷ []) = true
verify_fixture_order entries (p ∷ q ∷ ps) =
    let rest = verify_fixture_order entries (q ∷ ps) in
    if leb (position_of q.id 0 0 entries) (position_of p.id 0 0 entries) then false else rest

-- One round of `waitForActivity` after the request.
abbrev judged : Bool → ListDailyActivityResp → Seen ListDailyActivityResp WaitError
judged true activity = ready activity
judged false activity = pending

abbrev pub seen_of :
    Text
    → List ActivityPlayer
    → Result CallError ListDailyActivityResp
    → Seen ListDailyActivityResp WaitError
seen_of date players (err e) = failed (list_error e)
seen_of date players (ok activity) =
    if text_eq activity.date date
    then (elim (has_expected_counts activity.entries players) [
      | err e ↦ failed e
      | ok b ↦ judged b activity
    ])
    else failed (date_mismatch activity.date)

-- What FetchDailyActivity answers to a request made at a time, and when.
module _ (fetch : ℕ → Result CallError ListDailyActivityResp × ℕ) (date : Text)
    (players : List ActivityPlayer) where
  abbrev pub look : ℕ → Seen ListDailyActivityResp WaitError × ℕ
  look now = (seen_of date players (fetch now).0, (fetch now).1)

  -- `waitForActivity` from the time 0
  unfoldable pub wait_for_activity : ℕ → ℕ → Option (Result WaitError ListDailyActivityResp)
  unfolding poll
  wait_for_activity looks timeout = poll look timed_out timeout looks 0

  -- Every player is listed with the count that was written.
  abbrev pub Shows : ListDailyActivityResp → Type 0
  Shows activity =
      (activity.date ≡ date)
      × All (λ p. count_of p.id none activity.entries ≡ some p.expected_count) players

-- The test of one player, by the count that is found.
abbrev test_of : ActivityPlayer → Option ℤ → Result WaitError Bool → Result WaitError Bool
test_of p none rest = ok false
test_of p (some count) rest =
    if ltb_ℤ count p.expected_count
    then ok false
    else if ltb_ℤ p.expected_count count
    then err (too_many p count)
    else rest

test_of-true :
    (p : ActivityPlayer) (o : Option ℤ) (rest : Result WaitError Bool)
    → (test_of p o rest ≡ ok true) ↔ ((o ≡ some p.expected_count) × (rest ≡ ok true))
test_of-true p none rest = (λ h. absurd (cc), λ h. absurd (cc))
test_of-true p (some count) rest = (
  λ h.
      let low : ltb_ℤ count p.expected_count ≡ false = ground arith in
      let high : ltb_ℤ p.expected_count count ≡ false = ground arith in
      (ap some (eq_of_parts count p.expected_count (ground arith)), rw (low, high) at h),
  λ h. ground arith,
)

has_expected_counts_lem :
    (entries : List ActivityEntry) (p : ActivityPlayer) (ps : List ActivityPlayer)
    → has_expected_counts entries (p ∷ ps)
      ≡ test_of p (count_of p.id none entries) (has_expected_counts entries ps)
unfolding has_expected_counts
has_expected_counts_lem entries p ps = ground arith

counts_expected :
    (entries : List ActivityEntry) (players : List ActivityPlayer)
    → has_expected_counts entries players ≡ ok true
    → All (λ p. count_of p.id none entries ≡ some p.expected_count) players
counts_expected entries [] h = tt
counts_expected entries (p ∷ ps) h =
    let both =
      (test_of-true p (count_of p.id none entries) (has_expected_counts entries ps)).0
        (sym (has_expected_counts_lem entries p ps) ∙ h) in
    (both.0, counts_expected entries ps both.1)

expected_counts :
    (entries : List ActivityEntry) (players : List ActivityPlayer)
    → All (λ p. count_of p.id none entries ≡ some p.expected_count) players
    → has_expected_counts entries players ≡ ok true
unfolding has_expected_counts
expected_counts entries [] h = refl
expected_counts entries (p ∷ ps) h =
    has_expected_counts_lem entries p ps
    ∙ (test_of-true p (count_of p.id none entries) (has_expected_counts entries ps)).1
        (h.0, expected_counts entries ps h.1)

module _ (fetch : ℕ → Result CallError ListDailyActivityResp × ℕ) (date : Text)
    (players : List ActivityPlayer) where
  ready-Shows :
      (r : Result CallError ListDailyActivityResp) (a : ListDailyActivityResp)
      → seen_of date players r ≡ ready a
      → Shows fetch date players a
  ready-Shows (err e) a h = absurd (cc)
  ready-Shows (ok activity) a h =
      let dated : text_eq activity.date date ≡ true = ground arith in
      let counted : has_expected_counts activity.entries players ≡ ok true = ground arith in
      let same : activity ≡ a = ground arith in
      subst (Shows fetch date players) same
        (eq_of_text_eq activity.date date dated, counts_expected activity.entries players counted)

  Shows-ready :
      (a : ListDailyActivityResp)
      → Shows fetch date players a
      → seen_of date players (ok a) ≡ ready a
  Shows-ready a h = rw ((text_eq_iff a.date date).1 h.0, expected_counts a.entries players h.1)

  -- Where the service answers every request within a time, the clock does not go back, no look
  -- fails, and from a start on the service shows what was written, and the start with that time
  -- lies within the timeout, waitForActivity succeeds after at most one look for each pause up to
  -- the timeout and one more, with an answer for the date that lists every player with the count
  -- that was written.
  pub wait_for_activity-Shows :
      (timeout start longest looks : ℕ)
      → GoesOn (look fetch date players) timed_out timeout
      → ((now : ℕ) → (fetch now).1 ≤ now + longest)
      → ((now : ℕ)
          → start ≤ now
          → (a : ListDailyActivityResp) × ((fetch now).0 ≡ ok a) × Shows fetch date players a)
      → ((now : ℕ) (e : WaitError) → seen_of date players (fetch now).0 ≢ failed e)
      → start + longest ≤ timeout
      → timeout < looks * poll_interval
      → (a : ListDailyActivityResp) × (wait_for_activity fetch date players (suc looks) timeout
          ≡ some (ok a))
        × Shows fetch date players a
  unfolding wait_for_activity
  wait_for_activity-Shows timeout start longest looks on quick shows fine in_time enough =
      let (a, e, (t, seen)) =
        poll_succeeds (look fetch date players) timed_out timeout start longest on (becomes, fine)
          quick in_time looks 0 (omega (arith, enough)) in
      (a, e, ready-Shows (fetch t).0 a seen)
    where
      becomes :
          (now : ℕ)
          → start ≤ now
          → (a : ListDailyActivityResp) × (seen_of date players (fetch now).0 ≡ ready a)
      becomes now h =
          let (a, e, k) = shows now h in (a, ap (seen_of date players) e ∙ Shows-ready a k)
