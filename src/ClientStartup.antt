-- ===== src/ClientStartup.antt =====
-- apexredis/client.go: the probe of Redis when a client is made. Times are milliseconds since the
-- start of the probe; a ping is a function of the time at which it is sent to its error, `none` for
-- none, and the time at which it ends.
use apex_leaderboard.Prelude.{
  ℕ, zero, suc, ◌+◌, ◌-◌, ◌*◌, ◌≤◌, Option, none, some, false, ◌≡◌, refl, arith, leb, if◌then◌else◌,
  Bool-cases, Option-cases, inl, inr,
}
use apex_leaderboard.Prelude.Text.{Text}

abbrev pub ping_timeout : ℕ
ping_timeout = 5_000

abbrev pub ping_retry_interval : ℕ
ping_retry_interval = 250

pub data Probe : Type 0 where
  connected : Probe
  -- with the error that is logged
  unreachable : Text → Probe

-- A real dial error is preferred to that of the deadline.
abbrev reported : Option Text → Text → Text
reported none e = e
reported (some last) e = last

-- The retry comes after the interval or at the deadline, whichever is first.
abbrev next_ping : ℕ → ℕ
next_ping t =
    if leb (t + ping_retry_interval) ping_timeout then t + ping_retry_interval else ping_timeout

module _ (ping : ℕ → Option Text × ℕ) where
  -- `pingWithRetry` at a time, with the last error; `none` is more attempts than the fuel.
  unfoldable pub ping_with_retry : ℕ → ℕ → Option Text → Option Probe
  ping_with_retry zero now last_err = none
  ping_with_retry (suc attempts) now last_err =
      let (answer, t) = ping now in
      elim answer [
        | none ↦ some connected
        | some e ↦
            let retry = ping_with_retry attempts (next_ping t) (some e) in
            if leb ping_timeout t then some (unreachable (reported last_err e)) else retry
      ]

  -- A ping takes no time backwards.
  abbrev pub GoesOn : Type 0
  GoesOn = (now : ℕ) → now ≤ (ping now).1

  -- The deadline comes closer by an interval with each attempt.
  ends_from :
      (attempts now : ℕ) (last_err : Option Text)
      → GoesOn
      → now ≤ ping_timeout
      → ping_timeout - now + ping_retry_interval ≤ attempts * ping_retry_interval
      → (p : Probe) × (ping_with_retry attempts now last_err ≡ some p)
  unfolding ping_with_retry
  ends_from zero now last_err on h k = absurd (omega (arith, k))
  ends_from (suc attempts) now last_err on h k = elim (Option-cases (ping now).0) [
    | inl e ↦ (connected, rw (e, ping_with_retry) refl)
    | inr (x, e) ↦ elim (Bool-cases (leb ping_timeout (ping now).1)) [
      | inl late ↦ (unreachable (reported last_err x), rw (e, ping_with_retry, late) refl)
      | inr early ↦
          rw (e, ping_with_retry, early)
            (ends_from attempts (next_ping (ping now).1) (some x) on (before (ping now).1)
              (closer (ping now).1 (on now) early))
    ]
  ]
    where
      before : (t : ℕ) → next_ping t ≤ ping_timeout
      before t = ground arith

      closer :
          (t : ℕ)
          → now ≤ t
          → leb ping_timeout t ≡ false
          → ping_timeout - next_ping t + ping_retry_interval ≤ attempts * ping_retry_interval
      closer t le early = ground (arith, k)

  -- The probe of Redis ends after at most 21 pings, whatever they answer, where the clock does not
  -- go back.
  pub ping_with_retry-ends : GoesOn → (p : Probe) × (ping_with_retry 21 0 none ≡ some p)
  ping_with_retry-ends on = ends_from 21 0 none on (omega arith) (omega arith)
