-- ===== src/Server/RateLimit.antt =====
-- server/ratelimit.go: a bucket for each client address, at most 50,000 of them. The buckets are
-- those of golang.org/x/time/rate, and the address is split by package net. `allow` and a round of
-- the cleanup hold the mutex, so each is one step.
pub mod Bounds
use apex_leaderboard.Prelude.{
  ℕ, ◌+◌, List, [], ◌∷◌, Option, none, some, Bool, true, false, not, ◌||◌, leb, ltb, if◌then◌else◌,
  length, ◌-◌,
}
use apex_leaderboard.Prelude.Text.{Text, codes, text_eq}

abbrev pub max_clients : ℕ
max_clients = 50_000

-- 3 minutes, in milliseconds
abbrev pub client_ttl : ℕ
client_ttl = 180_000

-- rate.NewLimiter with the limits of the configuration, Limiter.Allow at a time, and the host part
-- of net.SplitHostPort.
pub record RateLib : Type 1 where
  pub Limiter : Type 0
  pub new_limiter : Limiter
  pub allow_at : ℕ → Limiter → Bool × Limiter
  pub split_host : Text → Option Text

pub data Verdict : Type 0 where
  allowed rate_limited too_many_clients : Verdict

module _ (R : RateLib) where
  pub record ClientLimiter : Type 0 where
    pub limiter : R.Limiter
    pub last_seen : ℕ

  -- the map `clients`
  abbrev pub Clients : Type 0
  Clients = List (Text × ClientLimiter)

  unfoldable pub client_in : Text → Clients → Option ClientLimiter
  client_in k [] = none
  client_in k ((j, c) ∷ m) = if text_eq j k then some c else client_in k m

  unfoldable pub put_client : Text → ClientLimiter → Clients → Clients
  put_client k c [] = (k, c) ∷ []
  put_client k c ((j, d) ∷ m) = if text_eq j k then (k, c) ∷ m else (j, d) ∷ put_client k c m

  unfoldable pub client_key : Text → Text
  client_key remote_addr = elim (R.split_host remote_addr) [ none ↦ remote_addr | some host ↦ host ]

  -- The entry is stamped and its bucket asked for a token.
  abbrev take_token : Text → ℕ → R.Limiter → Clients → Verdict × Clients
  take_token key now limiter clients =
      let (granted, limiter') = R.allow_at now limiter in
      (
        if granted then allowed else rate_limited,
        put_client key (record { limiter = limiter'; last_seen = now }) clients,
      )

  unfoldable pub allow : Text → Text → ℕ → Clients → Verdict × Clients
  allow path remote_addr now clients =
      if text_eq path (codes "/livez") || text_eq path (codes "/readyz")
      then (allowed, clients)
      else (let key = client_key remote_addr in
          elim (client_in key clients) [
            | some c ↦ take_token key now c.limiter clients
            | none ↦
                if leb max_clients (length clients)
                then (too_many_clients, clients)
                else take_token key now R.new_limiter clients
          ])

  -- One round of `runCleanup`: `time.Since(lastSeen) > clientTTL` is dropped.
  unfoldable pub cleanup : ℕ → Clients → Clients
  cleanup now [] = []
  cleanup now ((k, c) ∷ m) =
      let rest = cleanup now m in if ltb client_ttl (now - c.last_seen) then rest else (k, c) ∷ rest

-- The status of a rejected request.
unfoldable pub reject_status : Verdict → Option ℕ
reject_status allowed = none
reject_status rate_limited = some 429
reject_status too_many_clients = some 503
