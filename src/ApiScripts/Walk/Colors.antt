-- ===== src/ApiScripts/Walk/Colors.antt =====
-- What the walk prints with colors says the same as what it prints without.
use apex_leaderboard.Prelude.{
  ℕ, [], ◌∷◌, ◌++◌, Bool, true, false, ◌==◌, ◌≡◌, ◌≢◌, refl, arith, All-append, if◌then◌else◌,
  Bool-cases, inl, inr, ap, sym, ◌∙◌,
}
use mathlib.Core.List.{append-nil, append_assoc}
use apex_leaderboard.Prelude.Text.{Text, codes, text_eq, Lacks}
use apex_leaderboard.Prelude.Exec.{Result, ok, err}
use apex_leaderboard.Decimal.{format_nat}
use apex_leaderboard.Decimal.RoundTrip.{format_nat-Lacks_below}
use apex_leaderboard.ApiScripts.{RequestBody}
use apex_leaderboard.ApiScripts.Walk.{
  Api, paint, status_color, answer_text, call_with_key, key_text, body_text, newline, request_line,
  ansi_reset, ansi_red, ansi_gray,
}

-- The text outside its escapes, each of which ends at its first letter m.
unfoldable pub outside : Bool → Text → Text
outside escaped [] = []
outside false (c ∷ cs) =
    let within = outside true cs in
    let behind = outside false cs in if c == 27 then within else c ∷ behind
outside true (c ∷ cs) =
    let within = outside true cs in
    let behind = outside false cs in if c == 109 then behind else within

-- With its escapes, and without.
abbrev Shows : Text → Text → Type 0
Shows x y = (t : Text) → outside false (x ++ t) ≡ y ++ outside false t

plain-Shows : (s : Text) → Lacks 27 s → Shows s s
unfolding outside
plain-Shows [] h t = refl
plain-Shows (c ∷ s) h t =
    let inside : (c == 27) ≡ false = ground (arith, h.0) in
    rw inside (ap (λ l. c ∷ l) (plain-Shows s h.1 t))

append-Shows : (x x' y y' : Text) → Shows x y → Shows x' y' → Shows (x ++ x') (y ++ y')
append-Shows x x' y y' h h' t =
    ap (outside false) (append_assoc x x' t)
    ∙ h (x' ++ t)
    ∙ ap (λ l. y ++ l) (h' t)
    ∙ sym (append_assoc y y' (outside false t))

-- Nothing of an escape is outside.
abbrev IsEscape : Text → Type 0
IsEscape code = Shows code []

status_color-IsEscape : (code : ℕ) → IsEscape (status_color code)
unfolding status_color outside
status_color-IsEscape code t = ground arith

paint-Shows :
    (color : Bool) (code s : Text) → IsEscape code → Lacks 27 s → Shows (paint color code s) s
unfolding paint outside
paint-Shows false code s h k t = plain-Shows s k t
paint-Shows true code s h k t =
    append-Shows code (s ++ ansi_reset) [] (s ++ []) h
      (append-Shows s ansi_reset s [] (plain-Shows s k) (λ u. refl)) t
    ∙ ap (λ l. l ++ outside false t) (append-nil s)

-- Nothing that is printed of a call but the escapes of the colors holds an escape.
pub record IsPlain (A : Api) (method path key : Text) (answer : Result Text (ℕ × Text))
    : Type 0 where
  pub line_plain : Lacks 27 (request_line method path)
  pub key_plain : Lacks 27 key
  pub error_plain : (e : Text) → answer ≡ err e → Lacks 27 e
  pub body_plain :
      (status : ℕ) (body : Text)
      → answer ≡ ok (status, body)
      → Lacks 27 (body_text (A.trim_space body))

Lacks-append : (s t : Text) → Lacks 27 s → Lacks 27 t → Lacks 27 (s ++ t)
Lacks-append s t h k = All-append (λ c. c ≢ 27) s t h k

ansi_red-IsEscape : IsEscape ansi_red
unfolding outside
ansi_red-IsEscape t = refl

ansi_gray-IsEscape : IsEscape ansi_gray
unfolding outside
ansi_gray-IsEscape t = refl

space-Shows : Shows (32 ∷ []) (32 ∷ [])
space-Shows = plain-Shows (32 ∷ []) (omega arith)

newline-Shows : Shows newline newline
newline-Shows = plain-Shows newline (omega arith)

key_text-Shows :
    (color : Bool) (key : Text) → Lacks 27 key → Shows (key_text color key) (key_text false key)
unfolding paint
key_text-Shows color key h t = elim (Bool-cases (text_eq key [])) [
  | inl e ↦ rw e refl
  | inr e ↦ rw e (
      append-Shows (paint color ansi_gray (codes "Idempotency-Key: " ++ key)) newline
        (codes "Idempotency-Key: " ++ key) newline
        (paint-Shows color ansi_gray (codes "Idempotency-Key: " ++ key) ansi_gray-IsEscape
          (Lacks-append (codes "Idempotency-Key: ") key (omega arith) h))
        newline-Shows t)
]

answer_text-Shows :
    (A : Api) (color : Bool) (method path key : Text) (answer : Result Text (ℕ × Text))
    → IsPlain A method path key answer
    → Shows (answer_text A color method path answer) (answer_text A false method path answer)
unfolding answer_text paint
answer_text-Shows A color method path key (err e) h =
    append-Shows (paint color ansi_red (codes "ERROR"))
      (32 ∷ (paint color ansi_red (request_line method path ++ (codes ": " ++ e)) ++ newline))
      (codes "ERROR") (32 ∷ ((request_line method path ++ (codes ": " ++ e)) ++ newline))
      (paint-Shows color ansi_red (codes "ERROR") ansi_red-IsEscape (omega arith))
      (append-Shows (32 ∷ [])
        (paint color ansi_red (request_line method path ++ (codes ": " ++ e)) ++ newline) (32 ∷ [])
        ((request_line method path ++ (codes ": " ++ e)) ++ newline) space-Shows
        (append-Shows (paint color ansi_red (request_line method path ++ (codes ": " ++ e))) newline
          (request_line method path ++ (codes ": " ++ e)) newline
          (paint-Shows color ansi_red (request_line method path ++ (codes ": " ++ e))
            ansi_red-IsEscape
            (Lacks-append (request_line method path) (codes ": " ++ e) h.line_plain
              (Lacks-append (codes ": ") e (omega arith) (h.error_plain e refl))))
          newline-Shows))
answer_text-Shows A color method path key (ok (status, body)) h =
    let trimmed = body_text (A.trim_space body) in
    append-Shows (paint color (status_color status) (codes "HTTP " ++ format_nat status))
      (32 ∷ (paint color ansi_gray (request_line method path) ++ (newline ++ trimmed)))
      (codes "HTTP " ++ format_nat status) (32 ∷ (request_line method path ++ (newline ++ trimmed)))
      (paint-Shows color (status_color status) (codes "HTTP " ++ format_nat status)
        (status_color-IsEscape status)
        (Lacks-append (codes "HTTP ") (format_nat status) (omega arith)
          (format_nat-Lacks_below 27 status (omega arith))))
      (append-Shows (32 ∷ [])
        (paint color ansi_gray (request_line method path) ++ (newline ++ trimmed)) (32 ∷ [])
        (request_line method path ++ (newline ++ trimmed)) space-Shows
        (append-Shows (paint color ansi_gray (request_line method path)) (newline ++ trimmed)
          (request_line method path) (newline ++ trimmed)
          (paint-Shows color ansi_gray (request_line method path) ansi_gray-IsEscape h.line_plain)
          (append-Shows newline trimmed newline trimmed newline-Shows
            (plain-Shows trimmed (h.body_plain status body refl)))))

-- Where nothing that is sent or answered holds an escape, what a call prints with colors is, outside
-- the escapes, what it prints without, and its response and the state behind it are the same.
pub call_with_key-colors :
    (A : Api) (method path : Text) (body : RequestBody) (key : Text) (s : A.State)
    → IsPlain A method path key (A.execute method path body key s).0
    → let (colored, out, s1) = call_with_key A true method path body key s in
      let (plain, out', s2) = call_with_key A false method path body key s in
      (outside false out ≡ out') × (colored ≡ plain) × (s1 ≡ s2)
unfolding call_with_key outside
call_with_key-colors A method path body key s h =
    let answer = (A.execute method path body key s).0 in
    let shows =
      append-Shows (key_text true key) (answer_text A true method path answer) (key_text false key)
        (answer_text A false method path answer) (key_text-Shows true key h.key_plain)
        (answer_text-Shows A true method path key answer h) in
    (
      ap (outside false)
            (sym (append-nil (key_text true key ++ answer_text A true method path answer)))
          ∙ shows []
          ∙ append-nil (key_text false key ++ answer_text A false method path answer),
      refl,
      refl,
    )
