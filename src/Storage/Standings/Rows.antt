-- ===== src/Storage/Standings/Rows.antt =====
-- The rows that ListStandings makes of a stretch of the ranking, on a consistent server.
use apex_leaderboard.Prelude.{
  ℕ, zero, suc, ◌+◌, ◌^◌, ◌<◌, List, [], ◌∷◌, Option, none, some, false, ◌≡◌, refl, ap, sym, ◌∙◌,
  arith, length, take, drop, get_elem?, inl,
}
use mathlib.Core.Path.{subst}
use apex_leaderboard.Prelude.Int.{ℤ, pos, ◌+ℤ◌, ◌≤ℤ◌, wrap64, ltb_ℤ}
use apex_leaderboard.Prelude.Text.{Text}
use apex_leaderboard.Prelude.Exec.{ok}
use apex_leaderboard.Platform.{Platform}
use apex_leaderboard.Platform.Laws.{PlatformLaws, index_of, IsDescending}
use apex_leaderboard.Redis.{Server}
use apex_leaderboard.Score.{IsScore, abs_of_score}
use apex_leaderboard.Storage.Keys.{leaderboard_key}
use apex_leaderboard.Storage.Replay.{as_float, ledger_score, IsConsistent, InRange, bounded}
use apex_leaderboard.Storage.Replay.Outcome.{calm}
use apex_leaderboard.Storage.Standings.{Standing, rows, rank_reply, standing_of, get_standing}
use apex_leaderboard.Storage.Standings.Exact.{
  standings, get_standing_lem, score_of_ranking, index_of-get_elem?, zscore_to_int64-of_int,
  pos_suc,
}

module _ {ℓ} {A : Type ℓ} where
  pub get_elem?-take :
      (k j : ℕ) (l : List A) (e : A) → get_elem? (take k l) j ≡ some e → get_elem? l j ≡ some e
  get_elem?-take zero j l e h = absurd (cc)
  get_elem?-take (suc k) j [] e h = h
  get_elem?-take (suc k) zero (x ∷ l) e h = h
  get_elem?-take (suc k) (suc j) (x ∷ l) e h = get_elem?-take k j l e h

  pub get_elem?-drop : (o j : ℕ) (l : List A) → get_elem? (drop o l) j ≡ get_elem? l (o + j)
  get_elem?-drop zero j l = let e : j ≡ zero + j = omega arith in ap (get_elem? l) e
  get_elem?-drop (suc o) j [] = refl
  get_elem?-drop (suc o) j (x ∷ l) =
      let e : suc (o + j) ≡ suc o + j = omega arith in
      get_elem?-drop o j l ∙ ap (get_elem? (x ∷ l)) e

-- The rank of the row at an index of a page.
rank_of_row :
    (o i : ℕ) → o + i + 1 < 2 ^ 63 → wrap64 (wrap64 (pos o +ℤ pos i) +ℤ pos 1) ≡ pos (suc (o + i))
unfolding wrap64 ◌+ℤ◌
rank_of_row o i h = ground arith

module _ (P : Platform) where
  IsDescending-tail :
      (e : Text × P.Float) (l : List (Text × P.Float)) → IsDescending P (e ∷ l) → IsDescending P l
  IsDescending-tail e [] h = tt
  IsDescending-tail e (f ∷ l) h = h.1

  pub IsDescending-drop :
      (o : ℕ) (l : List (Text × P.Float)) → IsDescending P l → IsDescending P (drop o l)
  IsDescending-drop zero l h = h
  IsDescending-drop (suc o) [] h = tt
  IsDescending-drop (suc o) (e ∷ l) h = IsDescending-drop o l (IsDescending-tail e l h)

  pub IsDescending-take :
      (k : ℕ) (l : List (Text × P.Float)) → IsDescending P l → IsDescending P (take k l)
  IsDescending-take zero l h = tt
  IsDescending-take (suc k) [] h = tt
  IsDescending-take (suc zero) (e ∷ l) h = tt
  IsDescending-take (suc (suc k)) (e ∷ []) h = tt
  IsDescending-take (suc (suc k)) (e ∷ f ∷ l) h = (h.0, IsDescending-take (suc k) (f ∷ l) h.1)

-- No row has a higher score than the one before it.
abbrev pub Falls : List Standing → Type 0
Falls [] = Unit
Falls (r ∷ []) = Unit
Falls (r ∷ t ∷ rs) = (t.score ≤ℤ r.score) × Falls (t ∷ rs)

module _ (P : Platform) (b : Text) (s : Server P) where
  -- Each row is what GetStanding answers for its player, and the ranks count from a place.
  abbrev pub IsWindow : ℕ → ℕ → List Standing → Type 0
  IsWindow total i [] = Unit
  IsWindow total i (r ∷ rs) =
      ((get_standing P r.player_id b (calm s)).0 ≡ ok (r, total))
      × (r.rank ≡ pos (suc i))
      × IsWindow total (suc i) rs

  -- The entries from a place of the ranking, with the scores of the ledger.
  abbrev pub Placed : List (Text × P.Float) → ℕ → List (Text × P.Float) → Type 0
  Placed l i [] = Unit
  Placed l i ((m, x) ∷ zs) =
      ((n : ℤ) × (ledger_score P s b m ≡ some n)
        × (x ≡ P.of_int n)
        × IsScore n
        × (index_of P m l ≡ some i))
      × Placed l (suc i) zs

module _ (P : Platform) (L : PlatformLaws P) (b : Text) (s : Server P) (h : IsConsistent P s) where
  open L use {floats, zsets, ranks}

  abbrev pub board : List (Text × P.Float)
  board = standings P L b s h

  scored :
      (m : Text) (x : P.Float) (o : Option ℤ)
      → ledger_score P s b m ≡ o
      → as_float P o ≡ some x
      → (n : ℤ) × (ledger_score P s b m ≡ some n) × (x ≡ P.of_int n) × IsScore n
  scored m x none e k = absurd (cc)
  scored m x (some n) e k = (n, e, ground arith, subst InRange e (bounded P s h b m))

  pub placed :
      (i : ℕ) (zs : List (Text × P.Float))
      → ((j : ℕ) (e : Text × P.Float) → get_elem? zs j ≡ some e → get_elem? board (i + j) ≡ some e)
      → Placed P b s board i zs
  placed i [] k = tt
  placed i ((m, x) ∷ zs) k =
      let (place, score) =
        index_of-get_elem? P board i m x (ranks.ranking-IsDistinct (s.at (leaderboard_key b)))
          (rw (add_zero i) at (k 0 (m, x) refl)) in
      let (n, e, same, range) =
        scored m x (ledger_score P s b m) refl (sym (score_of_ranking P L b s h m) ∙ score) in
      (
        (n, e, same, range, place),
        placed (suc i) zs
            (λ j e' g. subst (λ t. get_elem? board t ≡ some e') (shift i j) (k (suc j) e' g)),
      )
    where
      add_zero : (i : ℕ) → i + 0 ≡ i
      add_zero i = omega arith

      shift : (i j : ℕ) → i + suc j ≡ suc i + j
      shift i j = omega arith

  -- A row for an entry with the score `n` at the place `i`.
  abbrev row_at : Text → ℤ → ℕ → Standing
  row_at m n i = record { player_id = m; score = n; rank = pos (suc i) }

  get_standing_at :
      (m : Text) (n : ℤ) (i : ℕ)
      → ledger_score P s b m ≡ some n
      → IsScore n
      → index_of P m board ≡ some i
      → (get_standing P m b (calm s)).0 ≡ ok (row_at m n i, length board)
  unfolding standing_of
  get_standing_at m n i e range place =
      get_standing_lem P L b s h m ∙ ap (λ o. standing_of P m (o, length board)) replied ∙ answered
    where
      replied :
          rank_reply P (index_of P m board) (as_float P (ledger_score P s b m))
          ≡ some (i, P.of_int n)
      replied = rw (place, e) refl

      answered :
          standing_of P m (some (i, P.of_int n), length board) ≡ ok (row_at m n i, length board)
      answered = rw (standing_of, zscore_to_int64-of_int P L n range, pos_suc i) refl

  row_lem :
      (o i : ℕ) (m : Text) (x : P.Float) (zs : List (Text × P.Float)) (n : ℤ)
      → o + i + 1 < 2 ^ 63
      → x ≡ P.of_int n
      → IsScore n
      → rows P (pos o) i ((m, x) ∷ zs) ≡ row_at m n (o + i) ∷ rows P (pos o) (suc i) zs
  unfolding rows
  row_lem o i m x zs n small same range =
      rw (same, rows, zscore_to_int64-of_int P L n range, rank_of_row o i small) refl

  -- The rows of the entries from the place `o + i` on.
  pub rows-IsWindow :
      (o i : ℕ) (zs : List (Text × P.Float))
      → o + i + length zs < 2 ^ 63
      → Placed P b s board (o + i) zs
      → IsWindow P b s (length board) (o + i) (rows P (pos o) i zs)
        × (length (rows P (pos o) i zs) ≡ length zs)
  unfolding rows
  rows-IsWindow o i [] small k = (tt, refl)
  rows-IsWindow o i ((m, x) ∷ zs) small ((n, e, same, range, place), k) =
      let (window, size) =
        rows-IsWindow o (suc i) zs (omega (arith, small))
          (subst (λ j. Placed P b s board j zs) (next o i) k) in
      subst (λ rs. IsWindow P b s (length board) (o + i) rs × (length rs ≡ suc (length zs)))
        (sym (row_lem o i m x zs n (omega (arith, small)) same range))
        (
          (
            get_standing_at m n (o + i) e range place,
            refl,
            subst (λ j. IsWindow P b s (length board) j (rows P (pos o) (suc i) zs))
                (sym (next o i)) window,
          ),
          ap suc size,
        )
    where
      next : (o i : ℕ) → suc (o + i) ≡ o + suc i
      next o i = omega arith

  not_less :
      (a c : ℤ) → IsScore a → IsScore c → P.float_lt (P.of_int a) (P.of_int c) ≡ false → c ≤ℤ a
  not_less a c ha hc k =
      let e =
        floats.float_lt-of_int a c (inl (omega (arith, abs_of_score a ha)))
          (inl (omega (arith, abs_of_score c hc))) in
      let f : ltb_ℤ a c ≡ false = sym e ∙ k in ground arith

  pub rows-Falls :
      (o i j : ℕ) (zs : List (Text × P.Float))
      → o + i + length zs < 2 ^ 63
      → Placed P b s board j zs
      → IsDescending P zs
      → Falls (rows P (pos o) i zs)
  unfolding rows
  rows-Falls o i j [] small k d = tt
  rows-Falls o i j ((m, x) ∷ []) small ((n, e, same, range, place), k) d =
      subst Falls (sym (row_lem o i m x [] n (omega (arith, small)) same range)) tt
  rows-Falls o i j ((m, x) ∷ (m', x') ∷ zs) small
        ((n, e, same, range, place), ((n', e', same', range', place'), k)) d =
      let rest =
        rows-Falls o (suc i) (suc j) ((m', x') ∷ zs) (omega (arith, small))
          ((n', e', same', range', place'), k) d.1 in
      let after = row_lem o (suc i) m' x' zs n' (omega (arith, small)) same' range' in
      subst Falls
        (sym (
          row_lem o i m x ((m', x') ∷ zs) n (omega (arith, small)) same range
          ∙ ap (λ rs. row_at m n (o + i) ∷ rs) after))
        (not_less n n' range range' (rw (same, same') at d.0), subst Falls after rest)
