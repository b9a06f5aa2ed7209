-- ===== src/Storage/AsOf/Agreement.antt =====
-- The past leaderboard is what the ledger up to then adds up to.
use apex_leaderboard.Prelude.{
  List, [], ◌∷◌, Option, none, some, true, false, ◌≡◌, refl, arith, ◌∙◌, ap, if◌then◌else◌, All,
  Bool-cases, inl, inr,
}
use apex_leaderboard.Prelude.Int.{ℤ, ◌+ℤ◌, wrap64, wrap64_id, int_laws}
use apex_leaderboard.Prelude.Text.{Text, codes, text_eq, text_eq_iff, eq_of_text_eq}
use apex_leaderboard.Prelude.Exec.{ok}
use apex_leaderboard.Platform.{Platform, Entry}
use apex_leaderboard.Score.{IsScore, abs_of_score}
use apex_leaderboard.Ledger.{EventType, Event}
use apex_leaderboard.Storage.Entry.{entry_to_event, stream_entry_value}
use apex_leaderboard.Storage.Entry.Reads.{entry_to_event-reads}
use apex_leaderboard.Storage.Replay.{
  total, next_score, replay_event, replay_result, replay, InRange, Decodes, StaysInRange,
}
use apex_leaderboard.Storage.AsOf.{
  Scores, score_in, put_score, sum_overflows, replay_into, replay_entries, or_zero,
}
use apex_leaderboard.Storage.AsOf.Overflow.{sum_overflows_exact}

score_in-put :
    (k j : Text) (v : ℤ) (m : Scores)
    → score_in j (put_score k v m) ≡ (if text_eq k j then some v else score_in j m)
unfolding score_in put_score
score_in-put k j v [] = refl
score_in-put k j v ((i, w) ∷ m) =
    ground (arith, text_eq_iff k j, text_eq_iff i k, text_eq_iff i j, score_in-put k j v m)

fits : (o : Option ℤ) → InRange o → IsScore (or_zero o)
fits none h = ground arith
fits (some c) h = h

sum_fits : (c n : ℤ) → IsScore c → IsScore n → sum_overflows c n ≡ false
sum_fits c n hc hn =
    (sum_overflows_exact c n (omega (int_laws, abs_of_score c hc))
        (omega (int_laws, abs_of_score n hn))).1
      (omega (int_laws, abs_of_score c hc, abs_of_score n hn))

wrapped : (c n : ℤ) → IsScore c → IsScore n → wrap64 (c +ℤ n) ≡ c +ℤ n
wrapped c n hc hn = wrap64_id (c +ℤ n) (omega (int_laws, abs_of_score c hc, abs_of_score n hn))

or_zero_total : (o : Option ℤ) → or_zero o ≡ total o
or_zero_total none = refl
or_zero_total (some c) = refl

-- One event on the table of scores.
replay_into_lem :
    (type : EventType) (p : Text) (n : ℤ) (m : Scores)
    → IsScore n
    → InRange (score_in p m)
    → replay_into type p n m ≡ ok (put_score p (next_score type (score_in p m) n) m)
unfolding replay_into
replay_into_lem EventType.set p n m hn h = refl
replay_into_lem EventType.increment p n m hn h =
    rw (sum_fits _ n (fits _ h) hn, wrapped _ n (fits _ h) hn, or_zero_total (score_in p m))

-- The table after an event, for every player of the board.
score_in-event :
    (b p : Text) (e : Event) (m : Scores)
    → text_eq e.board_id b ≡ true
    → score_in p (put_score e.player_id (next_score e.type (score_in e.player_id m) e.amount) m)
      ≡ replay_event b p (score_in p m) e
score_in-event b p e m h =
    score_in-put e.player_id p _ m ∙ elim (Bool-cases (text_eq e.player_id p)) [
      | inl same ↦ rw (h, same, eq_of_text_eq e.player_id p same) refl
      | inr apart ↦ rw (h, apart) refl
    ]

module _ (P : Platform) (b : Text) where
  replay_entries_other :
      (x : Entry) (xs : List Entry) (m : Scores)
      → text_eq (stream_entry_value x (codes "board_id")) b ≡ false
      → replay_entries P b (x ∷ xs) m ≡ replay_entries P b xs m
  unfolding replay_entries
  replay_entries_other x xs m h = rw h

  replay_entries_event :
      (x : Entry) (xs : List Entry) (m m' : Scores) (e : Event)
      → text_eq (stream_entry_value x (codes "board_id")) b ≡ true
      → entry_to_event P x ≡ ok e
      → replay_into e.type e.player_id e.amount m ≡ ok m'
      → replay_entries P b (x ∷ xs) m ≡ replay_entries P b xs m'
  unfolding replay_entries
  replay_entries_event x xs m m' e h d r = rw (h, d, r)

  -- The table that the loop over the entries ends with.
  abbrev pub Agrees : List Entry → Scores → Type 0
  Agrees xs m =
      (m' : Scores) × (replay_entries P b xs m ≡ ok m')
      × ((p : Text) → score_in p m' ≡ replay P b p (score_in p m) xs)

  -- A step to `m1` that shows in every score lets the rest decide.
  Agrees-step :
      (x : Entry) (xs : List Entry) (m m1 : Scores)
      → replay_entries P b (x ∷ xs) m ≡ replay_entries P b xs m1
      → ((p : Text) → score_in p m1 ≡ replay_result b p (score_in p m) (entry_to_event P x))
      → Agrees xs m1
      → Agrees (x ∷ xs) m
  unfolding replay
  Agrees-step x xs m m1 run shows (m', r, a) =
      (m', run ∙ r, λ p. a p ∙ ap (λ o. replay P b p o xs) (shows p))

  kept :
      (x : Entry) (xs : List Entry) (m m1 : Scores)
      → ((p : Text) → score_in p m1 ≡ replay_result b p (score_in p m) (entry_to_event P x))
      → ((p : Text) → StaysInRange P b p (score_in p m) (x ∷ xs))
      → (p : Text) → StaysInRange P b p (score_in p m1) xs
  kept x xs m m1 shows h p = rw (shows p) ((h p).1)

  replay_entries_agree :
      (xs : List Entry) (m : Scores)
      → All (Decodes P) xs
      → ((p : Text) → StaysInRange P b p (score_in p m) xs)
      → Agrees xs m
  unfolding replay replay_entries
  replay_entries_agree [] m d h = (m, refl, λ p. refl)
  replay_entries_agree (x ∷ xs) m ((e, eq), d) h =
      let (board, score) = entry_to_event-reads P x e eq in
      elim (Bool-cases (text_eq e.board_id b)) [
        | inr other ↦
            let shows : (p : Text)
                → score_in p m ≡ replay_result b p (score_in p m) (entry_to_event P x) =
              λ p. rw (eq, other) refl in
            Agrees-step x xs m m (replay_entries_other x xs m (rw board other)) shows
              (replay_entries_agree xs m d (kept x xs m m shows h))
        | inl same ↦
            let m1 : Scores =
              put_score e.player_id (next_score e.type (score_in e.player_id m) e.amount) m in
            let shows : (p : Text)
                → score_in p m1 ≡ replay_result b p (score_in p m) (entry_to_event P x) =
              λ p. rw eq (score_in-event b p e m same) in
            Agrees-step x xs m m1
              (replay_entries_event x xs m m1 e (rw board same) eq
                (replay_into_lem e.type e.player_id e.amount m score ((h e.player_id).0)))
              shows (replay_entries_agree xs m1 d (kept x xs m m1 shows h))
      ]

-- Where every entry decodes and every player stays in range at every entry, the replay behind a
-- past leaderboard does not fail, and its table has for each player exactly the score that the
-- entries add up to, and no row for a player without one.
pub replay_entries-replay :
    (P : Platform) (b : Text) (xs : List Entry)
    → All (Decodes P) xs
    → ((p : Text) → StaysInRange P b p none xs)
    → (m : Scores) × (replay_entries P b xs [] ≡ ok m)
      × ((p : Text) → score_in p m ≡ replay P b p none xs)
unfolding score_in
replay_entries-replay P b xs d h = replay_entries_agree P b xs [] d h
