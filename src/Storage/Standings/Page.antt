-- ===== src/Storage/Standings/Page.antt =====
-- The pages of ListStandings on a consistent server.
use apex_leaderboard.Prelude.{
  ℕ, suc, ◌+◌, ◌-◌, ◌^◌, ◌≤◌, ◌<◌, List, false, ◌≡◌, refl, ap, sym, ◌∙◌, arith, length, take, drop,
  Bool-cases, inl, inr, if◌then◌else◌, leb, length-take, length-take_all, length-drop, take-all,
}
use mathlib.Core.Path.{subst}
use apex_leaderboard.Prelude.Int.{pos, ◌+ℤ◌, ◌-ℤ◌, wrap64, leb_ℤ}
use apex_leaderboard.Prelude.Text.{Text}
use apex_leaderboard.Prelude.Exec.{ok}
use apex_leaderboard.Platform.{Platform}
use apex_leaderboard.Platform.Laws.{PlatformLaws}
use apex_leaderboard.Redis.{Server}
use apex_leaderboard.Storage.Keys.{leaderboard_key}
use apex_leaderboard.Storage.Apply.Effect.{admits_zset}
use apex_leaderboard.Storage.Replay.{IsConsistent}
use apex_leaderboard.Storage.Replay.Outcome.{calm}
use apex_leaderboard.Storage.Standings.{Standing, rows, list_standings}
use apex_leaderboard.Storage.Standings.Exact.{standings}
use apex_leaderboard.Storage.Standings.Rows.{
  get_elem?-take, get_elem?-drop, IsDescending-drop, IsDescending-take, placed, rows-IsWindow,
  rows-Falls, Placed, IsWindow, Falls,
}

last_index :
    (o k : ℕ) → o + suc k < 2 ^ 63 → wrap64 (wrap64 (pos o +ℤ pos (suc k)) -ℤ pos 1) ≡ pos (o + k)
unfolding wrap64 ◌+ℤ◌ ◌-ℤ◌
last_index o k h = ground arith

module _ (P : Platform) (L : PlatformLaws P) (b : Text) (s : Server P) (h : IsConsistent P s) where
  open L use {ranks}

  abbrev board : List (Text × P.Float)
  board = standings P L b s h

  abbrev window : ℕ → ℕ → List (Text × P.Float)
  window o k = take (suc k) (drop o board)

  raw_page :
      (o k : ℕ)
      → o + suc k < 2 ^ 63
      → (list_standings P b (pos (suc k)) (pos o) (calm s)).0
        ≡ ok (
          rows P (pos o) 0 (P.zrevrange (pos o) (pos (o + k)) (s.at (leaderboard_key b))),
          P.zcard (s.at (leaderboard_key b)),
        )
  unfolding list_standings
  raw_page o k small =
      let a = admits_zset (P.kind (s.at (leaderboard_key b))) (h.typed.zset_at b) in
      let positive : leb_ℤ (pos (suc k)) (pos 0) ≡ false = ground arith in
      rw (last_index o k small, positive, a, a) refl

  page_lem :
      (o k : ℕ)
      → o + suc k < 2 ^ 63
      → (list_standings P b (pos (suc k)) (pos o) (calm s)).0
        ≡ ok (rows P (pos o) 0 (window o k), length board)
  page_lem o k small =
      let width : suc (o + k) - o ≡ suc k = omega arith in
      raw_page o k small
      ∙ rw
          (
            ranks.zrevrange-page o (o + k) (s.at (leaderboard_key b)),
            ranks.zcard-ranking (s.at (leaderboard_key b)),
            width,
          )
          refl

  window-Placed : (o k : ℕ) → Placed P b s board o (window o k)
  window-Placed o k =
      placed P L b s h o (window o k)
        (λ j e g. sym (get_elem?-drop o j board) ∙ get_elem?-take (suc k) j (drop o board) e g)

  length-window :
      (o k : ℕ)
      → length (window o k) ≡ (if leb (o + suc k) (length board) then suc k else length board - o)
  length-window o k = elim (Bool-cases (leb (suc k) (length board - o))) [
    | inl full ↦
        length-take_all (suc k) (drop o board) (ground (arith, length-drop o board)) ∙ ground arith
    | inr part ↦
        let fits : length board - o ≤ suc k = ground arith in
        ap length (take-all (suc k) (drop o board) (omega (arith, length-drop o board, fits)))
        ∙ length-drop o board
        ∙ ground arith
  ]

-- On a consistent server, with the request delivered, a page of ListStandings of a positive limit
-- and an offset that together stay below 2^63 has as many rows as the board has from the offset
-- on, up to the limit; each row is the standing that GetStanding answers for its player, with the
-- same total; the ranks count up from the offset, and the scores never rise.
pub list_standings-get_standing :
    (P : Platform) (L : PlatformLaws P) (b : Text) (s : Server P) (o k : ℕ)
    → IsConsistent P s
    → o + suc k < 2 ^ 63
    → (page : List Standing) × (total : ℕ) × ((list_standings P b (pos (suc k)) (pos o) (calm s)).0
        ≡ ok (page, total))
      × (length page ≡ (if leb (o + suc k) total then suc k else total - o))
      × IsWindow P b s total o page
      × Falls page
list_standings-get_standing P L b s o k h small =
    let zs = window P L b s h o k in
    let short : o + 0 + length zs < 2 ^ 63 =
      omega (arith, length-take (suc k) (drop o (board P L b s h))) in
    let here : o ≡ o + 0 = omega arith in
    let at_place = window-Placed P L b s h o k in
    let (shown, size) =
      rows-IsWindow P L b s h o 0 zs short
        (subst (λ j. Placed P b s (board P L b s h) j zs) here at_place) in
    (
      rows P (pos o) 0 zs,
      length (board P L b s h),
      page_lem P L b s h o k small,
      size ∙ length-window P L b s h o k,
      subst (λ j. IsWindow P b s (length (board P L b s h)) j (rows P (pos o) 0 zs)) (sym here)
          shown,
      rows-Falls P L b s h o 0 o zs short at_place (
          IsDescending-take P (suc k) (drop o (board P L b s h)) (
            IsDescending-drop P o (board P L b s h)
              (L.ranks.ranking-IsDescending (s.at (leaderboard_key b))))),
    )
