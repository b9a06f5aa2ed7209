-- ===== src/Fanout/Ranking.antt =====
-- verifyRanking of apiscripts/fanout/fanout.go, with createPlayers, createBoard and the writes of
-- runFanoutSets in any order. Sorting by score is package sort's, and so a parameter.
use apex_leaderboard.Prelude.{
  ℕ, zero, suc, ◌-◌, ◌/◌, List, [], ◌∷◌, ◌++◌, Option, none, some, Bool, true, false, not, ◌==◌,
  ◌≡◌, refl, arith, ap, sym, ◌∙◌, length, map, get_elem?, if◌then◌else◌, Bool-cases, inl, inr,
}
use mathlib.Core.Path.{subst}
use mathlib.Core.List.{Permᴰ}
use apex_leaderboard.Prelude.Int.{ℤ, pos, eqb_ℤ, leb_ℤ, eq_of_parts}
use apex_leaderboard.Prelude.Text.{Text, text_eq, eq_of_text_eq}
use apex_leaderboard.Prelude.Exec.{Result, ok, err, Exec, fail, pure, lift, ◌>>=◌, >>=-ok, for_each}
use apex_leaderboard.ApiScripts.{
  Service, Calls, CallError, Standing, create_player, set_score, fetch_standing, player_name,
}

pub record Player : Type 0 where
  pub id : Text
  pub score : ℤ

-- The fatal log lines.
pub data Fatal : Type 0 where
  call_failed : CallError → Fatal
  total_mismatch row_count_mismatch no_such_row : Fatal
  rank_not_contiguous wrong_player wrong_score not_descending : ℕ → Fatal
  standing_disagrees : Text → Fatal

-- Whether the score of a row is no lower than the one of the row above it.
abbrev not_below : Option ℤ → ℤ → Bool
not_below none score = false
not_below (some above) score = leb_ℤ above score

-- The tests of one row, at its index.
unfoldable pub verify_row : ℕ → Option ℤ → Standing → Player → Result Fatal (Unit {0})
verify_row i above row p =
    if not (eqb_ℤ row.rank (pos (suc i)))
    then err (rank_not_contiguous i)
    else if not (text_eq row.player_id p.id)
    then err (wrong_player (suc i))
    else if not (eqb_ℤ row.score p.score)
    then err (wrong_score (suc i))
    else if not_below above row.score
    then err (not_descending (suc i))
    else ok tt

abbrev and_then : Result Fatal (Unit {0}) → Result Fatal (Unit {0}) → Result Fatal (Unit {0})
and_then (ok u) rest = rest
and_then (err e) rest = err e

unfoldable pub verify_rows : ℕ → Option ℤ → List Standing → List Player → Result Fatal (Unit {0})
unfolding verify_row
verify_rows i above [] ps = ok tt
verify_rows i above (row ∷ rows) [] = err no_such_row
verify_rows i above (row ∷ rows) (p ∷ ps) =
    and_then (verify_row i above row p) (verify_rows (suc i) (some row.score) rows ps)

module _ (V : Service) where
  abbrev pub Script : Type 0 → Type 0
  Script A = Exec V.State Fatal A

  abbrev answered : {A : Type 0} → Result CallError A → Result Fatal A
  answered (ok a) = ok a
  answered (err e) = err (call_failed e)

  -- A call whose error is fatal.
  abbrev pub or_fatal : {A : Type 0} → Calls V A → Script A
  or_fatal m s = let (r, s') = m s in (answered r, s')

  -- `createPlayers`, the players from `i` on.
  unfoldable pub create_players : List Text → ℕ → ℕ → ℕ → List Player → Script (List Player)
  create_players names run_stamp zero i players = pure players
  create_players names run_stamp (suc k) i players =
      or_fatal (create_player V (player_name names run_stamp i [])) >>= λ id.
      create_players names run_stamp k (suc i)
        (players ++ record { id = id; score = pos (suc i) } ∷ [])

  -- What the goroutine of a player adds to the errors.
  abbrev with_error : Result CallError (Unit {0}) → List CallError → List CallError
  with_error (ok u) errs = errs
  with_error (err e) errs = errs ++ e ∷ []

  -- The goroutines of `runFanoutSets`, in the order in which they ran.
  unfoldable pub fanout_sets :
      Text → List Player → List CallError → V.State → List CallError × V.State
  fanout_sets board_id [] errs s = (errs, s)
  fanout_sets board_id (p ∷ ps) errs s =
      let (r, s') = set_score V board_id p.id p.score s in
      fanout_sets board_id ps (with_error r errs) s'

  -- The standing that the service answers for a row.
  unfoldable pub cross_check : Text → List Standing → ℕ → Script (Unit {0})
  cross_check board_id rows idx = elim (get_elem? rows idx) [
    | none ↦ fail no_such_row
    | some want ↦ (do
      got ← or_fatal (fetch_standing V board_id want.player_id)
      if not (eqb_ℤ got.rank want.rank)
          then fail (standing_disagrees want.player_id)
          else if not (eqb_ℤ got.score want.score)
          then fail (standing_disagrees want.player_id)
          else pure tt)
  ]

  module _ (by_score : List Player → List Player) where
    unfoldable pub verify_ranking : Text → List Player → List Standing → ℕ → Script (Unit {0})
    unfolding verify_rows cross_check
    verify_ranking board_id players rows total =
        if not (total == length players)
        then fail total_mismatch
        else if not (length rows == length players)
        then fail row_count_mismatch
        else lift (verify_rows 0 none rows (by_score players)) >>= λ _.
            for_each (cross_check board_id rows) (0 ∷ (length rows / 2) ∷ (length rows - 1) ∷ [])

-- A row without its rank.
abbrev pub shown : Standing → Player
shown row = record { id = row.player_id; score = row.score }

-- Ranks from a number on, and scores each below the one before.
abbrev pub IsRanked : ℕ → Option ℤ → List Standing → Type 0
IsRanked i above [] = Unit
IsRanked i above (row ∷ rows) =
    (row.rank ≡ pos i)
    × (not_below above row.score ≡ false)
    × IsRanked (suc i) (some row.score) rows

verify_row-ok :
    (i : ℕ) (above : Option ℤ) (row : Standing) (p : Player)
    → verify_row i above row p ≡ ok tt
    → (row.rank ≡ pos (suc i)) × (not_below above row.score ≡ false) × (shown row ≡ p)
unfolding verify_row
verify_row-ok i above row p h =
    let ranked : eqb_ℤ row.rank (pos (suc i)) ≡ true = ground arith in
    let named : text_eq row.player_id p.id ≡ true = ground arith in
    let scored : eqb_ℤ row.score p.score ≡ true = ground arith in
    let below : not_below above row.score ≡ false = ground arith in
    let same_id : row.player_id ≡ p.id = eq_of_text_eq row.player_id p.id named in
    let same_score : row.score ≡ p.score = eq_of_parts row.score p.score (ground arith) in
    (eq_of_parts row.rank (pos (suc i)) (ground arith), below, rw (same_id, same_score) refl)

and_then-ok : (a b : Result Fatal (Unit {0})) → and_then a b ≡ ok tt → (a ≡ ok tt) × (b ≡ ok tt)
and_then-ok (ok u) b h = (refl, h)
and_then-ok (err e) b h = absurd (cc)

verify_rows-ok :
    (i : ℕ) (above : Option ℤ) (rows : List Standing) (ps : List Player)
    → length rows ≡ length ps
    → verify_rows i above rows ps ≡ ok tt
    → IsRanked (suc i) above rows × (map shown rows ≡ ps)
unfolding verify_rows
verify_rows-ok i above [] [] n h = (tt, refl)
verify_rows-ok i above [] (p ∷ ps) n h = absurd (omega (arith, n))
verify_rows-ok i above (row ∷ rows) [] n h = absurd (omega (arith, n))
verify_rows-ok i above (row ∷ rows) (p ∷ ps) n h =
    let (first, others) =
      and_then-ok (verify_row i above row p) (verify_rows (suc i) (some row.score) rows ps) h in
    let (rank, below, same) = verify_row-ok i above row p first in
    let (ranks, rest) = verify_rows-ok (suc i) (some row.score) rows ps (omega (arith, n)) others in
    ((rank, below, ranks), ap (λ x. x ∷ map shown rows) same ∙ ap (λ l. p ∷ l) rest)

length-Permᴰ : {A : Type 0} {xs ys : List A} → Permᴰ xs ys → length xs ≡ length ys
length-Permᴰ Permᴰ.nil = refl
length-Permᴰ (Permᴰ.cons e d) = ap suc (length-Permᴰ d)
length-Permᴰ (Permᴰ.swap e e') = refl
length-Permᴰ (Permᴰ.trans d d') = length-Permᴰ d ∙ length-Permᴰ d'

checks_passed :
    (V : Service) (by_score : List Player → List Player) (board_id : Text) (players : List Player)
    (rows : List Standing) (total : ℕ) (s : V.State)
    → (verify_ranking V by_score board_id players rows total s).0 ≡ ok tt
    → (total ≡ length players)
      × (length rows ≡ length players)
      × (verify_rows 0 none rows (by_score players) ≡ ok tt)
unfolding verify_ranking
checks_passed V by_score board_id players rows total s h =
    elim (Bool-cases (total == length players)) [
      | inr differ ↦ absurd (refused (rw differ at h))
      | inl whole ↦ elim (Bool-cases (length rows == length players)) [
        | inr differ ↦ absurd (refused (rw (whole, differ) at h))
        | inl full ↦
            let then_rest = λ (_ : Unit {0}).
              for_each (cross_check V board_id rows)
                (0 ∷ (length rows / 2) ∷ (length rows - 1) ∷ []) in
            let (u, verified, run) =
              >>=-ok (lift (verify_rows 0 none rows (by_score players))) then_rest s tt
                (rw (whole, full) at h) in
            (ground arith, ground arith, verified)
      ]
    ]
  where
    refused : {e : Fatal} → Path (Result Fatal (Unit {0})) (err e) (ok tt) → ⊥
    refused k = cc

-- Where sorting keeps the players, verifyRanking passes only rows that are all the players, each
-- once, under the ranks 1, 2, 3 and so on, with scores that fall from each to the next, beside a
-- total that is the number of players.
pub verify_ranking-IsRanked :
    (V : Service) (by_score : List Player → List Player) (board_id : Text) (players : List Player)
    (rows : List Standing) (total : ℕ) (s : V.State)
    → ((ps : List Player) → Permᴰ (by_score ps) ps)
    → (verify_ranking V by_score board_id players rows total s).0 ≡ ok tt
    → (total ≡ length players) × Permᴰ (map shown rows) players × IsRanked 1 none rows
verify_ranking-IsRanked V by_score board_id players rows total s sorts h =
    let (whole, full, verified) = checks_passed V by_score board_id players rows total s h in
    let (ranks, same) =
      verify_rows-ok 0 none rows (by_score players) (full ∙ sym (length-Permᴰ (sorts players)))
        verified in
    (whole, subst (λ l. Permᴰ l players) (sym same) (sorts players), ranks)
