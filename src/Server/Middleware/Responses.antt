-- ===== src/Server/Middleware/Responses.antt =====
-- What net/http commits for the calls of a handler.
use apex_leaderboard.Prelude.{
  ℕ, ◌+◌, List, [], ◌∷◌, Bool, false, not, ◌==◌, ◌&&◌, leb, ltb, ◌≡◌, refl, if◌then◌else◌,
}
use apex_leaderboard.Server.Middleware.{Call, write_header, write}

-- A status that net/http sends ahead of the response and that commits nothing.
abbrev pub is_informational : ℕ → Bool
is_informational code = leb 100 code && ltb code 200 && not (code == 101)

-- The status that net/http commits for a sequence of calls: that of the first one that is not
-- informational.
unfoldable pub committed_status : List Call → ℕ
committed_status [] = 200
committed_status (write_header code ∷ cs) =
    let rest = committed_status cs in if is_informational code then rest else code
committed_status (write n ∷ cs) = 200

-- No informational status is written.
abbrev pub IsFinal : List Call → Type 0
IsFinal [] = Unit
IsFinal (write_header code ∷ cs) = (is_informational code ≡ false) × IsFinal cs
IsFinal (write n ∷ cs) = IsFinal cs

-- The status of the first call, which the recorder keeps.
abbrev pub first_status : List Call → ℕ
first_status [] = 200
first_status (write_header code ∷ cs) = code
first_status (write n ∷ cs) = 200

pub first_status-IsFinal : (cs : List Call) → IsFinal cs → first_status cs ≡ committed_status cs
unfolding committed_status
first_status-IsFinal [] h = refl
first_status-IsFinal (write_header code ∷ cs) h = rw h.0 refl
first_status-IsFinal (write n ∷ cs) h = refl

-- What Write reports as written.
abbrev pub written_bytes : List Call → ℕ
written_bytes [] = 0
written_bytes (write_header code ∷ cs) = written_bytes cs
written_bytes (write n ∷ cs) = n + written_bytes cs
