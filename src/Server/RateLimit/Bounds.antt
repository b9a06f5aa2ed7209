-- ===== src/Server/RateLimit/Bounds.antt =====
-- The size of the table, and what a cleanup keeps.
use apex_leaderboard.Prelude.{
  ℕ, ◌+◌, ◌-◌, ◌≤◌, [], ◌∷◌, some, false, ◌≡◌, arith, length, if◌then◌else◌,
}
use apex_leaderboard.Prelude.Text.{Text, text_eq, text_eq_iff}
use apex_leaderboard.Server.RateLimit.{
  RateLib, ClientLimiter, Clients, client_in, put_client, client_key, allow, cleanup, max_clients,
  client_ttl,
}

module _ (R : RateLib) where
  length-put_known :
      (k : Text) (c : ClientLimiter R) (m : Clients R) (d : ClientLimiter R)
      → client_in R k m ≡ some d
      → length (put_client R k c m) ≡ length m
  unfolding client_in put_client
  length-put_known k c [] d h = cc
  length-put_known k c ((j, e) ∷ m) d h = ground (arith, length-put_known k c m d)

  length-put_le :
      (k : Text) (c : ClientLimiter R) (m : Clients R) → length (put_client R k c m) ≤ length m + 1
  unfolding put_client
  length-put_le k c [] = omega arith
  length-put_le k c ((j, e) ∷ m) = ground (arith, length-put_le k c m)

  -- A request never grows the table of clients past its limit.
  pub allow_bounded :
      (path addr : Text) (now : ℕ) (m : Clients R)
      → length m ≤ max_clients
      → length (allow R path addr now m).1 ≤ max_clients
  unfolding allow
  allow_bounded path addr now m h = grind (arith, length-put_known, length-put_le)

  client_in-put :
      (k j : Text) (c : ClientLimiter R) (m : Clients R)
      → client_in R j (put_client R k c m) ≡ (if text_eq k j then some c else client_in R j m)
  unfolding client_in put_client
  client_in-put k j c [] = ground arith
  client_in-put k j c ((i, d) ∷ m) =
      ground (arith, text_eq_iff k j, text_eq_iff i k, text_eq_iff i j, client_in-put k j c m)

  -- A request leaves what the table holds of every other client as it is.
  pub allow_others :
      (path addr other : Text) (now : ℕ) (m : Clients R)
      → text_eq (client_key R addr) other ≡ false
      → client_in R other (allow R path addr now m).1 ≡ client_in R other m
  unfolding allow
  allow_others path addr other now m h = grind (arith, client_in-put)

  -- A cleanup keeps the entry of a client that was seen within the time to live.
  pub cleanup_keeps :
      (k : Text) (now : ℕ) (c : ClientLimiter R) (m : Clients R)
      → client_in R k m ≡ some c
      → now - c.last_seen ≤ client_ttl
      → client_in R k (cleanup R now m) ≡ some c
  unfolding client_in cleanup
  cleanup_keeps k now c [] h t = cc
  cleanup_keeps k now c ((j, d) ∷ m) h t = ground (arith, cleanup_keeps k now c m)
