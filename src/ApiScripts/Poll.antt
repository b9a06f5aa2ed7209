-- ===== src/ApiScripts/Poll.antt =====
-- The loop that waitForActivity of apiscripts/dailyactivity and waitForHistory of
-- apiscripts/randomhistory share: look, and look again after a pause, until the deadline has passed.
-- Times are milliseconds; a look is a function of the time at which it begins to what it sees and
-- the time at which it ends.
use apex_leaderboard.Prelude.{
  ℕ, zero, suc, ◌+◌, ◌*◌, ◌≤◌, ◌<◌, Option, none, some, ◌≡◌, ◌≢◌, ◌⊎◌, refl, arith, ltb,
  if◌then◌else◌, Bool-cases, inl, inr,
}
use apex_leaderboard.Prelude.Exec.{Result, ok, err}

abbrev pub poll_interval : ℕ
poll_interval = 100

pub data Seen (A E : Type 0) : Type 0 where
  ready : A → Seen A E
  failed : E → Seen A E
  pending : Seen A E

module _ {A E : Type 0} (look : ℕ → Seen A E × ℕ) (timed_out : E) (deadline : ℕ) where
  -- `none` is more looks than the fuel.
  unfoldable pub poll : ℕ → ℕ → Option (Result E A)
  poll zero now = none
  poll (suc looks) now =
      let (seen, t) = look now in
      elim seen [
        | ready a ↦ some (ok a)
        | failed e ↦ some (err e)
        | pending ↦
            let rest = poll looks (t + poll_interval) in
            if ltb deadline t then some (err timed_out) else rest
      ]

  abbrev pub GoesOn : Type 0
  GoesOn = (now : ℕ) → now ≤ (look now).1

  Seen-cases :
      (s : Seen A E) → ((a : A) × (s ≡ ready a)) ⊎ ((e : E) × (s ≡ failed e)) ⊎ (s ≡ pending)
  Seen-cases (ready a) = inl (a, refl)
  Seen-cases (failed e) = inr (inl (e, refl))
  Seen-cases pending = inr (inr refl)

  -- The loop gives a result, and one with a property.
  abbrev pub Gives : (Result E A → Type 0) → Option (Result E A) → Type 0
  Gives Q o = (r : Result E A) × (o ≡ some r) × Q r

  -- One look, by what it sees and when it ends.
  poll_step :
      (Q : Result E A → Type 0) (looks now : ℕ)
      → ((a : A) → (look now).0 ≡ ready a → Q (ok a))
      → ((e : E) → (look now).0 ≡ failed e → Q (err e))
      → ((look now).0 ≡ pending → deadline < (look now).1 → Q (err timed_out))
      → ((look now).0 ≡ pending
          → (look now).1 ≤ deadline
          → Gives Q (poll looks ((look now).1 + poll_interval)))
      → Gives Q (poll (suc looks) now)
  unfolding poll
  poll_step Q looks now found broke late again = elim (Seen-cases (look now).0) [
    | inl (a, e) ↦ (ok a, rw (e, poll) refl, found a e)
    | inr (inl (x, e)) ↦ (err x, rw (e, poll) refl, broke x e)
    | inr (inr e) ↦ elim (Bool-cases (ltb deadline (look now).1)) [
      | inl l ↦ (err timed_out, rw (e, poll, l) refl, late e (ground arith))
      | inr l ↦ rw (e, poll, l) (again e (ground arith))
    ]
  ]

  -- As many looks as there are pauses up to the deadline, and one after it.
  pub poll_ends :
      (looks now : ℕ)
      → GoesOn
      → deadline < now + looks * poll_interval
      → Gives (λ r. Unit {0}) (poll (suc looks) now)
  poll_ends zero now on h =
      poll_step (λ r. Unit {0}) zero now (λ _ _. tt) (λ _ _. tt) (λ _ _. tt)
        (λ _ le. absurd (omega (arith, h, le, on now)))
  poll_ends (suc looks) now on h =
      poll_step (λ r. Unit {0}) (suc looks) now (λ _ _. tt) (λ _ _. tt) (λ _ _. tt)
        (λ _ le. poll_ends looks ((look now).1 + poll_interval) on (omega (arith, h, on now)))

  -- From a time on it is ready, and no look fails.
  abbrev pub ReadyFrom : ℕ → Type 0
  ReadyFrom start =
      ((now : ℕ) → start ≤ now → (a : A) × ((look now).0 ≡ ready a))
      × ((now : ℕ) (e : E) → (look now).0 ≢ failed e)

  -- What was seen at some time.
  abbrev pub WasSeen : A → Type 0
  WasSeen a = (t : ℕ) × ((look t).0 ≡ ready a)

  abbrev IsOk : Result E A → Type 0
  IsOk (ok a) = WasSeen a
  IsOk (err e) = ⊥

  module _ (start longest : ℕ) (on : GoesOn) (becomes : ReadyFrom start)
      (quick : (now : ℕ) → (look now).1 ≤ now + longest)
      (in_time : start + longest ≤ deadline) where
    still_early : (now : ℕ) → (look now).0 ≡ pending → now < start
    still_early now e = elim (Bool-cases (ltb now start)) [
      | inl l ↦ ground arith
      | inr l ↦ absurd (cc (e, (becomes.0 now (ground arith)).1))
    ]

    poll-IsOk :
        (looks now : ℕ) → deadline < now + looks * poll_interval → Gives IsOk (poll (suc looks) now)
    poll-IsOk zero now h =
        poll_step IsOk zero now (λ _ e. (now, e)) (λ x e. absurd (becomes.1 now x e))
          (λ e l. absurd (omega (arith, still_early now e, quick now, in_time, l)))
          (λ _ le. absurd (omega (arith, h, le, on now)))
    poll-IsOk (suc looks) now h =
        poll_step IsOk (suc looks) now (λ _ e. (now, e)) (λ x e. absurd (becomes.1 now x e))
          (λ e l. absurd (omega (arith, still_early now e, quick now, in_time, l)))
          (λ _ le. poll-IsOk looks ((look now).1 + poll_interval) (omega (arith, h, on now)))

    ok_of : (o : Option (Result E A)) → Gives IsOk o → (a : A) × (o ≡ some (ok a)) × WasSeen a
    ok_of o (ok a, e, h) = (a, e, h)
    ok_of o (err x, e, h) = elim h [ ]

    pub poll_succeeds :
        (looks now : ℕ)
        → deadline < now + looks * poll_interval
        → (a : A) × (poll (suc looks) now ≡ some (ok a)) × WasSeen a
    poll_succeeds looks now h = ok_of (poll (suc looks) now) (poll-IsOk looks now h)
