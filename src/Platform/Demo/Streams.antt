-- ===== src/Platform/Demo/Streams.antt =====
-- The streams of the small platform: ids, ranges and appends.
use apex_leaderboard.Prelude.{
  ℕ, ◌+◌, ◌^◌, ◌<◌, Option, none, some, List, [], ◌∷◌, Bool, true, false, not, ◌≡◌, refl, arith,
  take, ltb, ◌==◌, ◌||◌, ◌&&◌, if◌then◌else◌,
}
use apex_leaderboard.Prelude.Text.{Text, codes, text_eq, cut, cut-append}
use apex_leaderboard.Decimal.{format_nat, parse_uint}
use apex_leaderboard.Decimal.RoundTrip.{parse_uint-format_nat, format_nat-Lacks_dash}
use apex_leaderboard.ApexTime.{format_stream_id}
use apex_leaderboard.Platform.{StreamId, Entry}
use apex_leaderboard.Platform.Laws.{later, earlier}

abbrev pub parse_id : Text → Option (ℕ × ℕ)
parse_id s = elim (cut b'-' s) [
  | none ↦ none
  | some (ms, seq) ↦ elim (parse_uint ms) [
    | none ↦ none
    | some m ↦ elim (parse_uint seq) [ none ↦ none | some n ↦ some (m, n) ]
  ]
]

abbrev pub id_lt : ℕ × ℕ → ℕ × ℕ → Bool
id_lt (a, b) (c, d) = ltb a c || (a == c && ltb b d)

abbrev pub id_below : ℕ × ℕ → Option (ℕ × ℕ) → Bool
id_below i none = false
id_below i (some j) = id_lt i j

abbrev pub id_above : ℕ × ℕ → Option (ℕ × ℕ) → Bool
id_above i none = false
id_above i (some j) = id_lt j i

-- Whether an id lies on the right side of the start and of the end of a range.
abbrev pub from_start : Text → ℕ × ℕ → Bool
from_start [] i = false
from_start (c ∷ s) i =
    if text_eq (c ∷ s) (codes "-")
    then true
    else if c == b'('
    then id_above i (parse_id s)
    else not (id_below i (parse_id (c ∷ s)))

abbrev pub to_end : Text → ℕ × ℕ → Bool
to_end [] i = false
to_end (c ∷ s) i =
    if c == b'+'
    then true
    else if c == b'('
    then id_below i (parse_id s)
    else not (id_above i (parse_id (c ∷ s)))

abbrev pub keep : (ℕ × ℕ → Bool) → List Entry → List Entry
keep p [] = []
keep p (e ∷ l) = let rest = keep p l in if p (e.id.ms, e.id.seq) then e ∷ rest else rest

abbrev pub up_to : Option ℕ → List Entry → List Entry
up_to none l = l
up_to (some n) l = take n l

abbrev pub range_by : Text → Text → Option ℕ → List Entry → List Entry
range_by start stop count l = up_to count (keep (λ i. from_start start i && to_end stop i) l)

pub range_by-all : (l : List Entry) → range_by (codes "-") (codes "+") none l ≡ l
unfolding text_eq
range_by-all [] = refl
range_by-all (e ∷ l) = rw (range_by-all l)

pub parse_id-start :
    (ms : ℕ)
    → ms < 2 ^ 63
    → parse_id (format_stream_id (record { ms = ms; seq = 0 })) ≡ some (ms, 0)
unfolding format_stream_id
parse_id-start ms h = ground (
  arith,
  cut-append b'-' (format_nat ms) (format_nat 0) (format_nat-Lacks_dash ms),
  parse_uint-format_nat ms (omega arith),
  parse_uint-format_nat 0 (omega arith),
)

pub range_by-before :
    (ms : ℕ) (l : List Entry)
    → ms < 2 ^ 63
    → range_by (codes "-") (b'(' ∷ format_stream_id (record { ms = ms; seq = 0 })) none l
      ≡ earlier ms l
unfolding text_eq
range_by-before ms [] h = refl
range_by-before ms (e ∷ l) h = ground (arith, range_by-before ms l h, parse_id-start ms h)

pub parse_id-format :
    (i : StreamId)
    → i.ms < 2 ^ 63
    → i.seq < 2 ^ 63
    → parse_id (format_stream_id i) ≡ some (i.ms, i.seq)
unfolding format_stream_id
parse_id-format i h k = ground (
  arith,
  cut-append b'-' (format_nat i.ms) (format_nat i.seq) (format_nat-Lacks_dash i.ms),
  parse_uint-format_nat i.ms (omega arith),
  parse_uint-format_nat i.seq (omega arith),
)

pub keep-later :
    (i : StreamId) (l : List Entry)
    → i.ms < 2 ^ 63
    → i.seq < 2 ^ 63
    → keep (λ j. from_start (b'(' ∷ format_stream_id i) j && to_end (codes "+") j) l ≡ later i l
unfolding text_eq
keep-later i [] h k = refl
keep-later i (e ∷ l) h k = ground (arith, keep-later i l h k, parse_id-format i h k)

abbrev pub next_id : ℕ → List Entry → StreamId
next_id now [] = record { ms = now; seq = 0 }
next_id now (e ∷ []) =
    if ltb e.id.ms now
    then record { ms = now; seq = 0 }
    else record { ms = e.id.ms; seq = e.id.seq + 1 }
next_id now (e ∷ f ∷ l) = next_id now (f ∷ l)
