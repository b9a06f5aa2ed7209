-- ===== src/Decimal.antt =====
-- Numbers as decimal text, as the program writes and reads them: strconv.FormatInt,
-- strconv.ParseInt and strconv.ParseUint of Go's standard library, in base 10 and 64 bits.
-- A syntax error and a range error are one outcome here, `none`, as the program tests only err.
pub mod RoundTrip
use apex_leaderboard.Prelude.{
  ℕ, zero, suc, ◌+◌, ◌-◌, ◌*◌, ◌/◌, ◌%◌, ◌^◌, Option, none, some, [], ◌∷◌, ◌≡◌, refl, ltb, leb,
  ◌==◌, if◌then◌else◌, ◌||◌,
}
use apex_leaderboard.Prelude.Int.{ℤ, pos, negsuc, neg_ℤ}
use apex_leaderboard.Prelude.Text.{Text, codes}

-- The digits of `n` in front of `out`, with fuel above `n`.
emit : ℕ → ℕ → Text → Text
emit zero n out = out
emit (suc f) n out =
    let rest = emit f (n / 10) ((b'0' + n % 10) ∷ out) in if n == 0 then out else rest

unfoldable pub format_nat : ℕ → Text
unfolding emit
format_nat n = if n == 0 then b'0' ∷ [] else emit (suc n) n []

unfoldable pub format_int : ℤ → Text
unfolding format_nat
format_int (pos n) = format_nat n
format_int (negsuc n) = b'-' ∷ format_nat (suc n)

scan : Text → ℕ → Option ℕ
scan [] n = some n
scan (c ∷ s) n =
    let rest = scan s (n * 10 + (c - b'0')) in if ltb c b'0' || ltb b'9' c then none else rest

at_most : ℕ → Option ℕ → Option ℕ
at_most bound none = none
at_most bound (some n) = if leb n bound then some n else none

unfoldable pub parse_uint : Text → Option ℕ
unfolding scan at_most
parse_uint [] = none
parse_uint (c ∷ s) = at_most (2 ^ 64 - 1) (scan (c ∷ s) 0)

signed : ℕ → (ℕ → ℤ) → Option ℕ → Option ℤ
unfolding at_most
signed bound sign o = elim (at_most bound o) [ none ↦ none | some n ↦ some (sign n) ]

unfoldable pub parse_int : Text → Option ℤ
unfolding parse_uint signed
parse_int [] = none
parse_int (c ∷ s) =
    if c == b'+'
    then signed (2 ^ 63 - 1) pos (parse_uint s)
    else if c == b'-'
    then signed (2 ^ 63) (λ n. neg_ℤ (pos n)) (parse_uint s)
    else signed (2 ^ 63 - 1) pos (parse_uint (c ∷ s))

format_examples : (format_int (pos 1050) ≡ codes "1050") × (format_int (negsuc 6) ≡ codes "-7")
unfolding format_int
format_examples = (refl, refl)

parse_examples :
    (parse_int (codes "-0012") ≡ some (negsuc 11))
    × (parse_int (codes "9223372036854775808") ≡ none)
    × (parse_int (codes "1x") ≡ none)
    × (parse_uint (codes "+1") ≡ none)
unfolding parse_int
parse_examples = (refl, refl, refl, refl)
