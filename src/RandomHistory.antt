-- ===== src/RandomHistory.antt =====
-- apiscripts/randomhistory/randomhistory.go: the comparison of a page of the history with the
-- events that the script wrote. `log.Fatalf` is an error here.
use apex_leaderboard.Prelude.{
  ℕ, zero, suc, ◌+◌, ◌-◌, List, [], ◌∷◌, ◌++◌, Option, none, some, Bool, true, false, ◌==◌, ◌&&◌,
  if◌then◌else◌, ◌≡◌, ◌≢◌, refl, ap, sym, ◌∙◌, ◌↔◌, arith, length, take, get_elem?, map, inl, inr,
  length-append, take-all, Bool-cases,
}
use apex_leaderboard.Prelude.Int.{ℤ, eqb_ℤ, eq_of_parts}
use apex_leaderboard.Prelude.Text.{Text, text_eq, text_eq_iff}
use apex_leaderboard.Prelude.Exec.{Result, ok, err}

pub record ExpectedEvent : Type 0 where
  pub event_type : Text
  pub amount : ℤ

pub record ScoreEvent : Type 0 where
  pub event_id : Text
  pub event_type : Text
  pub player_id : Text
  pub board_id : Text
  pub amount : ℤ
  pub request_id : Text
  pub created_at : Text

pub data HistoryError : Type 0 where
  history_length : ℕ → ℕ → HistoryError
  history_mismatch : ℕ → ScoreEvent → ExpectedEvent → HistoryError
  -- Where the Go code would panic.
  index_panic : HistoryError

abbrev pub same_event : ScoreEvent → ExpectedEvent → Bool
same_event got want = text_eq got.event_type want.event_type && eqb_ℤ got.amount want.amount

-- One turn of the loop, with what the turns after it give.
abbrev pub compare_event :
    ℕ
    → ExpectedEvent
    → Result HistoryError (Unit {0})
    → Option ScoreEvent
    → Result HistoryError (Unit {0})
compare_event i want later none = err index_panic
compare_event i want later (some got) =
    if same_event got want then later else err (history_mismatch i got want)

unfoldable pub verify_from :
    List ScoreEvent → ℕ → List ExpectedEvent → Result HistoryError (Unit {0})
verify_from events i [] = ok tt
verify_from events i (want ∷ written) =
    compare_event i want (verify_from events (i + 1) written)
      (get_elem? events (length events - 1 - i))

unfoldable pub verify_history :
    List ScoreEvent → List ExpectedEvent → Result HistoryError (Unit {0})
verify_history events written =
    if length events == length written
    then verify_from events 0 written
    else err (history_length (length events) (length written))

-- What the script compares of an event.
abbrev pub compared : ScoreEvent → ExpectedEvent
compared e = record { event_type = e.event_type; amount = e.amount }

abbrev pub backwards {ℓ} : {A : Type ℓ} → List A → List A
backwards [] = []
backwards (x ∷ l) = backwards l ++ x ∷ []

same_event-eq : (e : ScoreEvent) (w : ExpectedEvent) → same_event e w ≡ true → compared e ≡ w
same_event-eq e w h =
    ground (arith, text_eq_iff e.event_type w.event_type, eq_of_parts e.amount w.amount)

same_event_refl : (e : ScoreEvent) → same_event e (compared e) ≡ true
same_event_refl e = ground (arith, text_eq_iff e.event_type e.event_type)

module _ {ℓ} {A : Type ℓ} where
  length-backwards : (l : List A) → length (backwards l) ≡ length l
  length-backwards [] = refl
  length-backwards (x ∷ l) = omega (arith, length-append (backwards l) (x ∷ []), length-backwards l)

  take-suc :
      (k : ℕ) (l : List A) (x : A) → get_elem? l k ≡ some x → take (suc k) l ≡ take k l ++ x ∷ []
  take-suc k [] x h = ground arith
  take-suc zero (y ∷ l) x h = ground arith
  take-suc (suc k) (y ∷ l) x h = ap (λ r. y ∷ r) (take-suc k l x h)

  -- A first part of known length.
  take_last :
      (l a : List A) (x : A)
      → take (suc (length a)) l ≡ a ++ x ∷ []
      → get_elem? l (length a) ≡ some x
  take_last [] [] x h = ground arith
  take_last [] (b ∷ a) x h = ground arith
  take_last (y ∷ l) [] x h = ground arith
  take_last (y ∷ l) (b ∷ a) x h = take_last l a x (ground arith)

  take_front :
      (l a : List A) (x : A) → take (suc (length a)) l ≡ a ++ x ∷ [] → take (length a) l ≡ a
  take_front [] [] x h = refl
  take_front [] (b ∷ a) x h = ground arith
  take_front (y ∷ l) [] x h = refl
  take_front (y ∷ l) (b ∷ a) x h = ground (arith, take_front l a x)

abbrev seen : Option ScoreEvent → Option ExpectedEvent
seen none = none
seen (some e) = some (compared e)

get_elem?-compared :
    (l : List ScoreEvent) (k : ℕ) → get_elem? (map compared l) k ≡ seen (get_elem? l k)
get_elem?-compared [] k = refl
get_elem?-compared (e ∷ l) zero = refl
get_elem?-compared (e ∷ l) (suc k) = get_elem?-compared l k

module _ (i : ℕ) (want : ExpectedEvent) (later : Result HistoryError (Unit {0})) where
  compare_event_sound :
      (o : Option ScoreEvent)
      → compare_event i want later o ≡ ok tt
      → (seen o ≡ some want) × (later ≡ ok tt)
  compare_event_sound none h = ground arith
  compare_event_sound (some got) h = elim (Bool-cases (same_event got want)) [
    | inl s ↦ (ap some (same_event-eq got want s), ground (arith, s, h))
    | inr s ↦ ground (arith, s, h)
  ]

  compare_event_complete :
      (o : Option ScoreEvent)
      → seen o ≡ some want
      → later ≡ ok tt
      → compare_event i want later o ≡ ok tt
  compare_event_complete none h k = ground arith
  compare_event_complete (some got) h k =
      (ap (λ b. if b then later else err (history_mismatch i got want)) same) ∙ k
    where
      same : same_event got want ≡ true
      same = ground (arith, same_event_refl got, h)

-- The index of the event that is compared with the first of those that are left.
index_of : (n i k : ℕ) → n ≡ i + suc k → n - 1 - i ≡ k
index_of n i k h = omega (arith, h)

verify_from_sound :
    (events : List ScoreEvent) (i : ℕ) (written : List ExpectedEvent)
    → length events ≡ i + length written
    → verify_from events i written ≡ ok tt
    → take (length written) (map compared events) ≡ backwards written
unfolding verify_from
verify_from_sound events i [] h k = refl
verify_from_sound events i (want ∷ written) h k =
    let both =
      compare_event_sound i want (verify_from events (i + 1) written)
        (get_elem? events (length events - 1 - i)) k in
    take-suc (length written) (map compared events) want (
      get_elem?-compared events (length written)
      ∙ ap (λ j. seen (get_elem? events j)) (sym (index_of (length events) i (length written) h))
      ∙ both.0)
    ∙ ap (λ r. r ++ want ∷ []) (verify_from_sound events (i + 1) written (omega (arith, h)) both.1)

verify_from_complete :
    (events : List ScoreEvent) (i : ℕ) (written : List ExpectedEvent)
    → length events ≡ i + length written
    → take (length written) (map compared events) ≡ backwards written
    → verify_from events i written ≡ ok tt
unfolding verify_from
verify_from_complete events i [] h k = refl
verify_from_complete events i (want ∷ written) h k =
    compare_event_complete i want (verify_from events (i + 1) written)
      (get_elem? events (length events - 1 - i))
      (ap (λ j. seen (get_elem? events j)) (index_of (length events) i (length written) h)
        ∙ sym (get_elem?-compared events (length written))
        ∙ last)
      (verify_from_complete events (i + 1) written (omega (arith, h)) front)
  where
    whole :
        take (suc (length (backwards written))) (map compared events)
        ≡ backwards written ++ want ∷ []
    whole = ap (λ n. take (suc n) (map compared events)) (length-backwards written) ∙ k

    last : get_elem? (map compared events) (length written) ≡ some want
    last =
        ap (get_elem? (map compared events)) (sym (length-backwards written))
        ∙ take_last (map compared events) (backwards written) want whole

    front : take (length written) (map compared events) ≡ backwards written
    front =
        ap (λ n. take n (map compared events)) (sym (length-backwards written))
        ∙ take_front (map compared events) (backwards written) want whole

length-compared : (l : List ScoreEvent) → length (map compared l) ≡ length l
length-compared [] = refl
length-compared (e ∷ l) = ap suc (length-compared l)

-- The check of the script accepts a page of the history exactly if the types and amounts of its
-- events are those of the events that were written, the newest first.
pub verify_history_iff :
    (events : List ScoreEvent) (written : List ExpectedEvent)
    → (verify_history events written ≡ ok tt) ↔ (map compared events ≡ backwards written)
unfolding verify_history
verify_history_iff events written = elim (Bool-cases (length events == length written)) [
  | inl e ↦
      let n = length_eq e in
      (
        (λ k. sym (all n) ∙ verify_from_sound events 0 written (omega (arith, n)) (rw e at k)),
        λ k. rw e (verify_from_complete events 0 written (omega (arith, n)) (all n ∙ k)),
      )
  | inr e ↦ (λ k. ground (arith, e, k), λ k. absurd (length_ne e (same_length k)))
]
  where
    length_eq : (length events == length written) ≡ true → length events ≡ length written
    length_eq e = ground arith

    all :
        length events ≡ length written
        → take (length written) (map compared events) ≡ map compared events
    all n =
        take-all (length written) (map compared events) (omega (arith, length-compared events, n))

    length_ne : (length events == length written) ≡ false → length events ≢ length written
    length_ne e = ground arith

    same_length : map compared events ≡ backwards written → length events ≡ length written
    same_length k = sym (length-compared events) ∙ ap length k ∙ length-backwards written
