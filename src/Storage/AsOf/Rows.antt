-- ===== src/Storage/AsOf/Rows.antt =====
-- The rows of a past leaderboard: those of its table, in order, each player once.
use apex_leaderboard.Prelude.{
  ℕ, suc, List, [], ◌∷◌, Option, none, some, true, false, ◌≡◌, ◌≢◌, ◌⊎◌, refl, sym, ap, ◌∙◌, arith,
  All, Bool-cases, inl, inr, if◌then◌else◌, ◌==◌,
}
use mathlib.Core.Path.{subst}
use apex_leaderboard.Prelude.Int.{ℤ, pos, ltb_ℤ, eqb_ℤ, eq_of_parts, wrap64, ◌+ℤ◌}
use apex_leaderboard.Prelude.Text.{Text, text_eq, text_lt, text_eq_iff, codes}
use apex_leaderboard.Prelude.Exec.{Result, ok, err, bind_result, bind_ok}
use apex_leaderboard.Platform.{Platform, Entry}
use apex_leaderboard.Ledger.{EventType}
use apex_leaderboard.Storage.Client.{StorageError}
use apex_leaderboard.Storage.Entry.{stream_entry_value, entry_to_event}
use apex_leaderboard.Storage.Standings.{Standing}
use apex_leaderboard.Storage.AsOf.{
  Scores, score_in, put_score, replay_into, replay_entries, sum_overflows, ranks_before, insert_row,
  sort_rows, ranked, or_zero,
}

-- A higher score stands first, and of equal scores the greater player id.
abbrev pub Outranks : Text → ℤ → Text → ℤ → Type 0
Outranks p x q y = (ltb_ℤ y x ≡ true) ⊎ ((x ≡ y) × (text_lt q p ≡ true))

abbrev pub Falls : List Standing → Type 0
Falls [] = Unit
Falls (r ∷ []) = Unit
Falls (r ∷ q ∷ rows) = Outranks r.player_id r.score q.player_id q.score × Falls (q ∷ rows)

abbrev pub RanksFrom : ℕ → List Standing → Type 0
RanksFrom i [] = Unit
RanksFrom i (r ∷ rows) = (r.rank ≡ pos i) × RanksFrom (suc i) rows

abbrev pub OnePerPlayer : List Standing → Type 0
OnePerPlayer [] = Unit
OnePerPlayer (r ∷ rows) = All (λ q. q.player_id ≢ r.player_id) rows × OnePerPlayer rows

-- The score of a player's row.
unfoldable pub shown_score : Text → List Standing → Option ℤ
shown_score p [] = none
shown_score p (r ∷ rows) = if text_eq r.player_id p then some r.score else shown_score p rows

abbrev LacksPlayer : Text → Scores → Type 0
LacksPlayer p = All (λ e. e.0 ≢ p)

abbrev Distinct : Scores → Type 0
Distinct [] = Unit
Distinct (e ∷ l) = LacksPlayer e.0 l × Distinct l

abbrev Ordered : Scores → Type 0
Ordered [] = Unit
Ordered (e ∷ []) = Unit
Ordered (e ∷ f ∷ l) = Outranks e.0 e.1 f.0 f.1 × Ordered (f ∷ l)

put_score-Lacks :
    (p k : Text) (v : ℤ) (m : Scores) → k ≢ p → LacksPlayer p m → LacksPlayer p (put_score k v m)
unfolding put_score
put_score-Lacks p k v [] n h = (n, tt)
put_score-Lacks p k v ((j, w) ∷ m) n h = elim (Bool-cases (text_eq j k)) [
  | inl e ↦ rw e (n, h.1)
  | inr e ↦ rw e (h.0, put_score-Lacks p k v m n h.1)
]

put_score-Distinct : (k : Text) (v : ℤ) (m : Scores) → Distinct m → Distinct (put_score k v m)
unfolding put_score
put_score-Distinct k v [] h = (tt, tt)
put_score-Distinct k v ((j, w) ∷ m) h = elim (Bool-cases (text_eq j k)) [
  | inl e ↦ rw e (subst (λ x. LacksPlayer x m) ((text_eq_iff j k).0 e) h.0, h.1)
  | inr e ↦ rw e (put_score-Lacks j k v m (differs e) h.0, put_score-Distinct k v m h.1)
]
  where
    differs : text_eq j k ≡ false → k ≢ j
    differs e eq = absurd (ground (arith, e, (text_eq_iff j k).1 (sym eq)))

replay_into-Distinct :
    (t : EventType) (p : Text) (n : ℤ) (m m' : Scores)
    → Distinct m
    → replay_into t p n m ≡ ok m'
    → Distinct m'
unfolding replay_into
replay_into-Distinct EventType.set p n m m' h e =
    let made : put_score p n m ≡ m' = ground (arith, e) in
    subst Distinct made (put_score-Distinct p n m h)
replay_into-Distinct EventType.increment p n m m' h e =
    let current : ℤ = or_zero (score_in p m) in
    elim (Bool-cases (sum_overflows current n)) [
      | inl o ↦ absurd (refused (rw o at e))
      | inr o ↦
          let made : put_score p (wrap64 (current +ℤ n)) m ≡ m' = same _ (rw o at e) in
          subst Distinct made (put_score-Distinct p (wrap64 (current +ℤ n)) m h)
    ]
  where
    refused : {x : StorageError} → Path (Result StorageError Scores) (err x) (ok m') → ⊥
    refused k = cc

    same : (l : Scores) → Path (Result StorageError Scores) (ok l) (ok m') → l ≡ m'
    same l k = ground (arith, k)

module _ (P : Platform) (b : Text) where
  pub replay_entries-Distinct :
      (l : List Entry) (m m' : Scores) → Distinct m → replay_entries P b l m ≡ ok m' → Distinct m'
  unfolding replay_entries
  replay_entries-Distinct [] m m' h e = subst Distinct (ground (arith, e)) h
  replay_entries-Distinct (x ∷ l) m m' h e =
      elim (Bool-cases (text_eq (stream_entry_value x (codes "board_id")) b)) [
        | inr other ↦ replay_entries-Distinct l m m' h (rw other at e)
        | inl here ↦
            let (event, decoded, rest) =
              bind_ok (entry_to_event P x)
                (λ event.
                  bind_result (replay_into event.type event.player_id event.amount m)
                    (replay_entries P b l))
                m' (rw here at e) in
            let (m1, stepped, on) =
              bind_ok (replay_into event.type event.player_id event.amount m) (replay_entries P b l)
                m' rest in
            replay_entries-Distinct l m1 m'
              (replay_into-Distinct event.type event.player_id event.amount m m1 h stepped) on
      ]

text_lt_total : (s t : Text) → text_lt s t ≡ false → s ≢ t → text_lt t s ≡ true
unfolding text_lt
text_lt_total [] [] h n = absurd (n refl)
text_lt_total [] (c ∷ t) h n = absurd (cc)
text_lt_total (b ∷ s) [] h n = refl
text_lt_total (b ∷ s) (c ∷ t) h n = elim (Bool-cases (b == c)) [
  | inl e ↦
      let same : b ≡ c = ground (arith, e) in
      let behind : text_lt s t ≡ false = ground (arith, e, h) in
      let rest : text_lt t s ≡ true =
        text_lt_total s t behind (λ k. n (ap (λ x. x ∷ s) same ∙ ap (λ l. c ∷ l) k)) in
      ground (arith, same, rest)
  | inr e ↦ ground (arith, e, h)
]

ranks_before-Outranks : (e f : Text × ℤ) → ranks_before e f ≡ true → Outranks e.0 e.1 f.0 f.1
unfolding ranks_before
ranks_before-Outranks (p, x) (q, y) h = elim (Bool-cases (eqb_ℤ x y)) [
  | inl e ↦ inr (eq_of_parts x y (ground (arith, e)), rw e at h)
  | inr e ↦ inl (rw e at h)
]

behind-Outranks : (e f : Text × ℤ) → ranks_before e f ≡ false → f.0 ≢ e.0 → Outranks f.0 f.1 e.0 e.1
unfolding ranks_before
behind-Outranks (p, x) (q, y) h n = elim (Bool-cases (eqb_ℤ x y)) [
  | inl e ↦ inr (sym (eq_of_parts x y (ground (arith, e))), text_lt_total q p (rw e at h) n)
  | inr e ↦ let lower : ltb_ℤ y x ≡ false = rw e at h in inl (ground (arith, e, lower))
]

insert_row-Ordered :
    (e : Text × ℤ) (l : Scores) → LacksPlayer e.0 l → Ordered l → Ordered (insert_row e l)
unfolding insert_row
insert_row-Ordered e [] n h = tt
insert_row-Ordered e (f ∷ []) n h = elim (Bool-cases (ranks_before e f)) [
  | inl first ↦ rw first (ranks_before-Outranks e f first, tt)
  | inr after ↦ rw after (behind-Outranks e f after n.0, tt)
]
insert_row-Ordered e (f ∷ g ∷ l) n h = elim (Bool-cases (ranks_before e f)) [
  | inl first ↦ rw first (ranks_before-Outranks e f first, h)
  | inr after ↦ rw after (below after (insert_row-Ordered e (g ∷ l) n.1 h.1))
]
  where
    below :
        ranks_before e f ≡ false
        → Ordered (insert_row e (g ∷ l))
        → Ordered (f ∷ insert_row e (g ∷ l))
    below after rest = elim (Bool-cases (ranks_before e g)) [
      | inl next ↦ rw next (behind-Outranks e f after n.0, (ranks_before-Outranks e g next, h.1))
      | inr last ↦ rw last (h.0, rw last at rest)
    ]

insert_row-Lacks :
    (p : Text) (e : Text × ℤ) (l : Scores)
    → e.0 ≢ p
    → LacksPlayer p l
    → LacksPlayer p (insert_row e l)
unfolding insert_row
insert_row-Lacks p e [] n h = (n, tt)
insert_row-Lacks p e (f ∷ l) n h = elim (Bool-cases (ranks_before e f)) [
  | inl first ↦ rw first (n, h)
  | inr after ↦ rw after (h.0, insert_row-Lacks p e l n h.1)
]

insert_row-Distinct :
    (e : Text × ℤ) (l : Scores) → LacksPlayer e.0 l → Distinct l → Distinct (insert_row e l)
unfolding insert_row
insert_row-Distinct e [] n h = (tt, tt)
insert_row-Distinct e (f ∷ l) n h = elim (Bool-cases (ranks_before e f)) [
  | inl first ↦ rw first (n, h)
  | inr after ↦
      rw after (insert_row-Lacks f.0 e l (λ k. n.0 (sym k)) h.0, insert_row-Distinct e l n.1 h.1)
]

score_in-insert_row :
    (p : Text) (e : Text × ℤ) (l : Scores)
    → LacksPlayer e.0 l
    → score_in p (insert_row e l) ≡ score_in p (e ∷ l)
unfolding insert_row score_in
score_in-insert_row p e [] n = refl
score_in-insert_row p e (f ∷ l) n = elim (Bool-cases (ranks_before e f)) [
  | inl first ↦ rw first refl
  | inr after ↦
      let rest = score_in-insert_row p e l n.1 in
      rw (after, rest) (swapped (Bool-cases (text_eq f.0 p)))
]
  where
    swapped :
        (text_eq f.0 p ≡ true) ⊎ (text_eq f.0 p ≡ false)
        → (if text_eq f.0 p then some f.1 else (if text_eq e.0 p then some e.1 else score_in p l))
          ≡ (if text_eq e.0 p then some e.1 else (if text_eq f.0 p then some f.1 else score_in p l))
    swapped (inr other) = rw other refl
    swapped (inl here) =
        let none_of_e : text_eq e.0 p ≡ false =
          ground (arith, text_eq_iff e.0 p, text_eq_iff f.0 p, here, n.0) in
        rw (here, none_of_e) refl

sort_rows-Lacks : (p : Text) (l : Scores) → LacksPlayer p l → LacksPlayer p (sort_rows l)
unfolding sort_rows
sort_rows-Lacks p [] h = tt
sort_rows-Lacks p (e ∷ l) h = insert_row-Lacks p e (sort_rows l) h.0 (sort_rows-Lacks p l h.1)

-- Sorting keeps the players apart and their scores, and puts them in order.
sort_rows_lem :
    (l : Scores)
    → Distinct l
    → Distinct (sort_rows l)
      × Ordered (sort_rows l)
      × ((p : Text) → score_in p (sort_rows l) ≡ score_in p l)
unfolding sort_rows score_in
sort_rows_lem [] h = (tt, tt, λ p. refl)
sort_rows_lem (e ∷ l) h =
    let (apart, order, same) = sort_rows_lem l h.1 in
    let new = sort_rows-Lacks e.0 l h.0 in
    (
      insert_row-Distinct e (sort_rows l) new apart,
      insert_row-Ordered e (sort_rows l) new order,
      λ p. score_in-insert_row p e (sort_rows l) new ∙ cons_same p (same p),
    )
  where
    cons_same :
        (p : Text)
        → score_in p (sort_rows l) ≡ score_in p l
        → score_in p (e ∷ sort_rows l) ≡ score_in p (e ∷ l)
    cons_same p k = rw k refl

ranked-RanksFrom : (i : ℕ) (l : Scores) → RanksFrom (suc i) (ranked i l)
unfolding ranked ◌+ℤ◌
ranked-RanksFrom i [] = tt
ranked-RanksFrom i (e ∷ l) = (ground arith, ranked-RanksFrom (suc i) l)

ranked-Falls : (i : ℕ) (l : Scores) → Ordered l → Falls (ranked i l)
unfolding ranked
ranked-Falls i [] h = tt
ranked-Falls i (e ∷ []) h = tt
ranked-Falls i (e ∷ f ∷ l) h = (h.0, ranked-Falls (suc i) (f ∷ l) h.1)

ranked-Lacks :
    (i : ℕ) (p : Text) (l : Scores) → LacksPlayer p l → All (λ q. q.player_id ≢ p) (ranked i l)
unfolding ranked
ranked-Lacks i p [] h = tt
ranked-Lacks i p (e ∷ l) h = (h.0, ranked-Lacks (suc i) p l h.1)

ranked-OnePerPlayer : (i : ℕ) (l : Scores) → Distinct l → OnePerPlayer (ranked i l)
unfolding ranked
ranked-OnePerPlayer i [] h = tt
ranked-OnePerPlayer i (e ∷ l) h =
    (ranked-Lacks (suc i) e.0 l h.0, ranked-OnePerPlayer (suc i) l h.1)

shown_score-ranked : (i : ℕ) (p : Text) (l : Scores) → shown_score p (ranked i l) ≡ score_in p l
unfolding ranked shown_score score_in
shown_score-ranked i p [] = refl
shown_score-ranked i p (e ∷ l) = rw (shown_score-ranked (suc i) p l) refl

-- A leaderboard of every player's score: the ranks are 1, 2, 3 and so on, the scores fall, players of
-- equal scores stand by their ids, and nobody stands twice.
pub record IsLeaderboard (score : Text → Option ℤ) (rows : List Standing) : Type 0 where
  pub ranks : RanksFrom 1 rows
  pub order : Falls rows
  pub once : OnePerPlayer rows
  pub scores : (p : Text) → shown_score p rows ≡ score p

pub ranked-IsLeaderboard :
    (m : Scores) (score : Text → Option ℤ)
    → Distinct m
    → ((p : Text) → score_in p m ≡ score p)
    → IsLeaderboard score (ranked 0 (sort_rows m))
ranked-IsLeaderboard m score h same =
    let (apart, order, kept) = sort_rows_lem m h in
    record {
      ranks = ranked-RanksFrom 0 (sort_rows m);
      order = ranked-Falls 0 (sort_rows m) order;
      once = ranked-OnePerPlayer 0 (sort_rows m) apart;
      scores = λ p. shown_score-ranked 0 p (sort_rows m) ∙ kept p ∙ same p;
    }
