-- ===== src/Storage/Standings/Exact.antt =====
-- What GetStanding answers on a consistent server.
use apex_leaderboard.Prelude.{
  ℕ, zero, suc, ◌≤◌, ◌<◌, List, [], ◌∷◌, Option, none, some, false, ◌≡◌, refl, ap, ◌∙◌, arith,
  length, get_elem?, All, Bool-cases, inl, inr,
}
use mathlib.Core.Path.{subst}
use apex_leaderboard.Prelude.Int.{ℤ, pos, ◌+ℤ◌}
use apex_leaderboard.Prelude.Text.{Text, text_eq, text_eq_iff}
use apex_leaderboard.Prelude.Exec.{Result, ok, err}
use apex_leaderboard.Platform.{Platform}
use apex_leaderboard.Platform.Laws.{PlatformLaws, lookup_score, ranking, index_of, IsDistinct}
use apex_leaderboard.Redis.{Server}
use apex_leaderboard.Score.{IsScore, abs_of_score}
use apex_leaderboard.Storage.Client.{StorageError}
use apex_leaderboard.Storage.Keys.{leaderboard_key}
use apex_leaderboard.Storage.Entry.{zscore_to_int64}
use apex_leaderboard.Storage.Entry.Decode.{exact_int64-of_int}
use apex_leaderboard.Storage.Apply.Effect.{admits_zset}
use apex_leaderboard.Storage.Replay.{as_float, ledger_score, IsConsistent, InRange, bounded}
use apex_leaderboard.Storage.Replay.Outcome.{calm}
use apex_leaderboard.Storage.Standings.{Standing, rank_reply, standing_of, get_standing}

module _ (P : Platform) where
  -- A member that has a score has a place.
  index_of-found :
      (m : Text) (l : List (Text × P.Float)) (x : P.Float)
      → lookup_score P m l ≡ some x
      → (i : ℕ) × (index_of P m l ≡ some i) × (i < length l)
  index_of-found m [] x h = absurd (cc)
  index_of-found m ((j, y) ∷ l) x h = elim (Bool-cases (text_eq j m)) [
    | inl e ↦ rw e (0, refl, omega arith)
    | inr e ↦
        let (i, found, below) = index_of-found m l x (rw e at h) in
        rw (e, found) (suc i, refl, omega arith)
  ]

  -- The entry at a place is the member of that place.
  pub index_of-get_elem? :
      (l : List (Text × P.Float)) (i : ℕ) (m : Text) (x : P.Float)
      → IsDistinct P l
      → get_elem? l i ≡ some (m, x)
      → (index_of P m l ≡ some i) × (lookup_score P m l ≡ some x)
  index_of-get_elem? [] i m x h k = absurd (cc)
  index_of-get_elem? ((j, y) ∷ l) zero m x h k = ground (arith, text_eq_iff j m)
  index_of-get_elem? ((j, y) ∷ l) (suc i) m x h k =
      let (place, score) = index_of-get_elem? l i m x h.1 k in
      let apart : text_eq j m ≡ false = other l i h.0 k in rw (apart, place) (refl, score)
    where
      other :
          (r : List (Text × P.Float)) (n : ℕ)
          → All (λ f. text_eq j f.0 ≡ false) r
          → get_elem? r n ≡ some (m, x)
          → text_eq j m ≡ false
      other [] n a e = absurd (cc)
      other (f ∷ r) zero a e = ground arith
      other (f ∷ r) (suc n) a e = other r n a.1 e

module _ (P : Platform) (L : PlatformLaws P) where
  open L use {floats, zsets, ranks}

  pub zscore_to_int64-of_int : (n : ℤ) → IsScore n → zscore_to_int64 P (P.of_int n) ≡ some n
  unfolding zscore_to_int64
  zscore_to_int64-of_int n score =
      rw (exact_int64-of_int P L n (omega (arith, abs_of_score n score)), zscore_to_int64)

  module _ (b : Text) (s : Server P) (h : IsConsistent P s) where
    abbrev pub standings : List (Text × P.Float)
    standings = ranking P (s.at (leaderboard_key b))

    get_standing_raw :
        (p : Text)
        → get_standing P p b (calm s) ≡ (
          standing_of P p (
            rank_reply P
                (P.zrevrank p (s.at (leaderboard_key b)))
                (P.zscore p (s.at (leaderboard_key b))),
            P.zcard (s.at (leaderboard_key b)),
          ),
          calm s,
        )
    unfolding get_standing
    get_standing_raw p =
        let a = admits_zset (P.kind (s.at (leaderboard_key b))) (h.typed.zset_at b) in
        rw (a, a, a) refl

    -- In terms of the ranking.
    pub get_standing_lem :
        (p : Text)
        → (get_standing P p b (calm s)).0
          ≡ standing_of P p (
            rank_reply P (index_of P p standings) (as_float P (ledger_score P s b p)),
            length standings,
          )
    get_standing_lem p =
        ap (λ x. x.0) (get_standing_raw p)
        ∙ rw
            (
              ranks.zrevrank-ranking p (s.at (leaderboard_key b)),
              ranks.zcard-ranking (s.at (leaderboard_key b)),
              h.scores b p,
            )
            refl

    pub score_of_ranking :
        (p : Text) → lookup_score P p standings ≡ as_float P (ledger_score P s b p)
    score_of_ranking p = ranks.lookup_score-ranking p (s.at (leaderboard_key b)) ∙ h.scores b p

pub pos_suc : (k : ℕ) → pos k +ℤ pos 1 ≡ pos (suc k)
unfolding ◌+ℤ◌
pos_suc k = ground arith

-- What is shown of a player whose score is as given.
abbrev pub Shows : Text → Option ℤ → Result StorageError (Standing × ℕ) → Type 0
Shows p none r = r ≡ err StorageError.not_found
Shows p (some n) r =
    (rank total : ℕ) × (r ≡ ok (record { player_id = p; score = n; rank = pos (suc rank) }, total))
    × (suc rank ≤ total)

module _ (P : Platform) (L : PlatformLaws P) (b : Text) (s : Server P) (h : IsConsistent P s) where
  open L use {ranks}

  rank_reply-none : (o : Option ℕ) → rank_reply P o none ≡ none
  rank_reply-none none = refl
  rank_reply-none (some r) = refl

  shows :
      (p : Text) (o : Option ℤ)
      → ledger_score P s b p ≡ o
      → Shows p o (get_standing P p b (calm s)).0
  unfolding standing_of
  shows p none e =
      get_standing_lem P L b s h p
      ∙ rw (e, rank_reply-none (index_of P p (standings P L b s h)), standing_of) refl
  shows p (some n) e =
      let (i, found, below) =
        index_of-found P p (standings P L b s h) (P.of_int n)
          (score_of_ranking P L b s h p ∙ ap (as_float P) e) in
      (
        i,
        length (standings P L b s h),
        get_standing_lem P L b s h p
            ∙ rw (e, found, standing_of, zscore_to_int64-of_int P L n score) (placed i),
        omega arith,
      )
    where
      score : IsScore n
      score = subst InRange e (bounded P s h b p)

      placed :
          (k : ℕ)
          → ◌≡◌ {A = Result StorageError (Standing × ℕ)}
              (ok (
                record { player_id = p; score = n; rank = pos k +ℤ pos 1 },
                length (standings P L b s h),
              ))
              (ok (
                record { player_id = p; score = n; rank = pos (suc k) },
                length (standings P L b s h),
              ))
      placed k = rw (pos_suc k) refl

-- On a consistent server, with the request delivered, GetStanding answers that a player is not
-- found if the ledger has no score for it on the board, and otherwise answers the score that the
-- ledger adds up to, with a rank between one and the number of players that it answers beside it.
pub get_standing-ledger :
    (P : Platform) (L : PlatformLaws P) (b : Text) (s : Server P) (p : Text)
    → IsConsistent P s
    → Shows p (ledger_score P s b p) (get_standing P p b (calm s)).0
get_standing-ledger P L b s p h = shows P L b s h p (ledger_score P s b p) refl
