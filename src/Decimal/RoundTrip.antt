-- ===== src/Decimal/RoundTrip.antt =====
-- The text of a number is read back as the number, and holds digits only.
use apex_leaderboard.Prelude.{
  ℕ, zero, suc, ◌+◌, ◌/◌, ◌%◌, ◌^◌, ◌≤◌, ◌<◌, some, [], ◌∷◌, ◌≡◌, ◌≢◌, refl, arith, All, ap,
}
use apex_leaderboard.Prelude.Int.{ℤ, pos, negsuc, abs_ℤ}
use apex_leaderboard.Prelude.Text.{Text, Lacks}
use apex_leaderboard.Decimal.{emit, format_nat, format_int, scan, parse_uint, parse_int}

abbrev IsDigit : ℕ → Type 0
IsDigit c = (b'0' ≤ c) × (c ≤ b'9')

emit-IsDigit : (f n : ℕ) (out : Text) → All IsDigit out → All IsDigit (emit f n out)
unfolding emit
emit-IsDigit zero n out h = h
emit-IsDigit (suc f) n out h =
    ground (arith, emit-IsDigit f (n / 10) ((b'0' + n % 10) ∷ out) (omega arith, h))

format_nat-IsDigit : (n : ℕ) → All IsDigit (format_nat n)
unfolding format_nat
format_nat-IsDigit n = ground (arith, emit-IsDigit (suc n) n [] tt)

scan-emit : (f n : ℕ) (out : Text) → n < f → scan (emit f n out) 0 ≡ scan out n
unfolding emit scan
scan-emit zero n out h = elim h [ ]
scan-emit (suc f) n out h = ground (arith, scan-emit f (n / 10) ((b'0' + n % 10) ∷ out))

scan-format_nat : (n : ℕ) → scan (format_nat n) 0 ≡ some n
unfolding format_nat scan
scan-format_nat n = ground (arith, scan-emit (suc n) n [])

parse_uint-scan :
    (s : Text) {n : ℕ} → scan s 0 ≡ some n → s ≢ [] → n < 2 ^ 64 → parse_uint s ≡ some n
unfolding parse_uint
parse_uint-scan [] h e b = absurd (e refl)
parse_uint-scan (c ∷ s) h e b = ground arith

emit-ne-nil : (f n c : ℕ) (out : Text) → emit f n (c ∷ out) ≢ []
unfolding emit
emit-ne-nil zero n c out = ground arith
emit-ne-nil (suc f) n c out = ground (arith, emit-ne-nil f (n / 10) (b'0' + n % 10) (c ∷ out))

format_nat-ne-nil : (n : ℕ) → format_nat n ≢ []
unfolding format_nat emit
format_nat-ne-nil n = ground (arith, emit-ne-nil n (n / 10) (b'0' + n % 10) [])

-- strconv.ParseUint reads back what FormatInt writes of a 64-bit number.
pub parse_uint-format_nat : (n : ℕ) → n < 2 ^ 64 → parse_uint (format_nat n) ≡ some n
parse_uint-format_nat n b =
    parse_uint-scan (format_nat n) (scan-format_nat n) (format_nat-ne-nil n) b

parse_int-digits :
    (s : Text) {n : ℕ}
    → All IsDigit s
    → parse_uint s ≡ some n
    → n < 2 ^ 63
    → parse_int s ≡ some (pos n)
unfolding parse_int
parse_int-digits [] d h b = ground arith
parse_int-digits (c ∷ s) d h b = ground arith

-- strconv.ParseInt reads back a number of at most 63 bits.
pub parse_int-format_nat : (n : ℕ) → n < 2 ^ 63 → parse_int (format_nat n) ≡ some (pos n)
parse_int-format_nat n b =
    parse_int-digits (format_nat n) (format_nat-IsDigit n) (parse_uint-format_nat n (omega arith)) b

Lacks-of_digits : (b : ℕ) (s : Text) → b < b'0' → All IsDigit s → Lacks b s
Lacks-of_digits b [] h d = tt
Lacks-of_digits b (c ∷ s) h d = (omega arith, Lacks-of_digits b s h d.1)

pub format_nat-Lacks_below : (b n : ℕ) → b < b'0' → Lacks b (format_nat n)
format_nat-Lacks_below b n h = Lacks-of_digits b (format_nat n) h (format_nat-IsDigit n)

-- The text of a number holds no dash.
pub format_nat-Lacks_dash : (n : ℕ) → Lacks b'-' (format_nat n)
format_nat-Lacks_dash n = format_nat-Lacks_below b'-' n (omega arith)

-- The text of a number is not empty.
pub format_int-ne-nil : (n : ℤ) → format_int n ≢ []
unfolding format_int
format_int-ne-nil (pos n) = format_nat-ne-nil n
format_int-ne-nil (negsuc n) = ground arith

-- ParseInt reads back the text of an int64 of at most 63 bits and a sign.
pub parse_int-format_int : (n : ℤ) → abs_ℤ n < 2 ^ 63 → parse_int (format_int n) ≡ some n
unfolding format_int
parse_int-format_int (pos n) h = parse_int-format_nat n (omega arith)
parse_int-format_int (negsuc n) h =
    unfold parse_int in ground (arith, parse_uint-format_nat (suc n) (omega arith))

-- Nor does it hold a bar or any byte above the digits.
pub format_nat-Lacks : (b n : ℕ) → b'9' < b → Lacks b (format_nat n)
format_nat-Lacks b n h = above (format_nat n) (format_nat-IsDigit n)
  where
    above : (s : Text) → All IsDigit s → Lacks b s
    above [] d = tt
    above (c ∷ s) d = (omega arith, above s d.1)

-- Different numbers have different texts.
pub format_int-injective :
    (m n : ℤ) → abs_ℤ m < 2 ^ 63 → abs_ℤ n < 2 ^ 63 → format_int m ≡ format_int n → m ≡ n
format_int-injective m n hm hn e =
    cc (parse_int-format_int m hm, parse_int-format_int n hn, ap parse_int e)
