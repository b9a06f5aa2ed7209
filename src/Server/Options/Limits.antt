-- ===== src/Server/Options/Limits.antt =====
-- What a server that starts was configured to.
use apex_leaderboard.Prelude.{List, [], ◌∷◌, some, true, ◌≡◌, arith, inl, inr, Option-cases}
use apex_leaderboard.Prelude.Int.{pos, ◌≤ℤ◌}
use apex_leaderboard.Platform.{Platform}
use apex_leaderboard.Platform.Laws.{PlatformLaws}
use apex_leaderboard.Server.Options.{
  ServerConfig, default_config, Setting, with_port, with_shutdown_timeout, with_rate_limit,
  apply_option, configure, rate_limited,
}

module _ (P : Platform) where
  pub record IsUsable (c : ServerConfig P) : Type 0 where
    pub port_low : pos 1 ≤ℤ c.port
    pub port_high : c.port ≤ℤ pos 65535
    pub timeout : pos 1 ≤ℤ c.shutdown_timeout
    pub bucket : rate_limited P c ≡ true → pos 1 ≤ℤ c.burst

  apply_option-IsUsable :
      (o : Setting P) (c d : ServerConfig P) → IsUsable c → apply_option P o c ≡ some d → IsUsable d
  unfolding apply_option rate_limited
  apply_option-IsUsable (with_port p) c d h e = ground (arith, h.bucket)
  apply_option-IsUsable (with_shutdown_timeout t) c d h e = ground (arith, h.bucket)
  apply_option-IsUsable (with_rate_limit r b) c d h e = ground arith

  configure-keeps :
      (os : List (Setting P)) (c d : ServerConfig P)
      → IsUsable c
      → configure P os c ≡ some d
      → IsUsable d
  unfolding configure
  configure-keeps [] c d h e = ground arith
  configure-keeps (o ∷ os) c d h e = elim (Option-cases (apply_option P o c)) [
    | inl n ↦ cc n
    | inr (c', q) ↦ configure-keeps os c' d (apply_option-IsUsable o c c' h q) (ground arith)
  ]

  -- Whatever options the server is started with, the configuration that it goes on with has a port
  -- in range, a positive shutdown timeout, and a bucket of at least one token when rate limiting
  -- is on.
  pub configure-IsUsable :
      (L : PlatformLaws P) (os : List (Setting P)) (d : ServerConfig P)
      → configure P os (default_config P) ≡ some d
      → IsUsable d
  unfolding rate_limited
  configure-IsUsable L os d e = configure-keeps os (default_config P) d start e
    where
      start : IsUsable (default_config P)
      start = ground (
        arith,
        L.floats.float_lt-of_int (pos 0) (pos 0) (inl (ground arith)) (inl (ground arith)),
      )
