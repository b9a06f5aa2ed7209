-- ===== src/Storage/AsOf/Pages.antt =====
-- The pages of a past leaderboard.
use apex_leaderboard.Prelude.{
  ℕ, zero, suc, ◌+◌, ◌≤◌, ◌<◌, ◌^◌, ◌-◌, List, [], true, ◌≡◌, refl, sym, ap, ◌∙◌, arith, length,
  take, drop, length-drop, take-all, drop-all, Bool-cases, inl, inr,
}
use apex_leaderboard.Prelude.Int.{wrap64_id, ℤ, pos, ltb_ℤ, wrap64, ◌+ℤ◌, ◌-ℤ◌, pos_part, leb_ℤ}
use apex_leaderboard.Storage.Standings.{Standing}
use apex_leaderboard.Storage.AsOf.{page, min_ℤ}

module _ (limit offset : ℕ) (rows : List Standing) (h : limit + offset < 2 ^ 63) where
  unwrapped : wrap64 (pos offset +ℤ pos limit) ≡ pos (offset + limit)
  unfolding ◌+ℤ◌
  unwrapped = wrap64_id (pos offset +ℤ pos limit) (ground arith) ∙ ground arith

  -- The end of a page that is neither empty nor beyond the rows.
  page_end :
      (end : ℤ)
      → end ≡ min_ℤ (pos (offset + limit)) (pos (length rows))
      → take (pos_part (end -ℤ pos offset)) (drop offset rows) ≡ take limit (drop offset rows)
  unfolding ◌+ℤ◌ ◌-ℤ◌
  page_end end e = elim (Bool-cases (ltb_ℤ (pos (length rows)) (pos (offset + limit)))) [
    | inl short ↦
        let all_left : end ≡ pos (length rows) = e ∙ rw short refl in
        let size : pos_part (end -ℤ pos offset) ≡ length rows - offset =
          rw all_left (ground arith) in
        let fits : length rows - offset ≤ limit = ground arith in
        take-all _ (drop offset rows) (omega (arith, size, length-drop offset rows))
        ∙ sym (take-all limit (drop offset rows) (omega (arith, fits, length-drop offset rows)))
    | inr long ↦
        let in_full : end ≡ pos (offset + limit) = e ∙ rw long refl in
        ap (λ n. take n (drop offset rows)) (rw in_full (ground arith))
  ]

  -- For a limit and an offset whose sum is below 2^63, the page of a past leaderboard is the rows
  -- from the offset on, as many as the limit or as there are.
  pub page-slice : page (pos limit) (pos offset) rows ≡ take limit (drop offset rows)
  unfolding page
  page-slice = elim (Bool-cases (leb_ℤ (pos (length rows)) (pos offset))) [
    | inl past ↦ rw (past, drop-all offset rows (ground arith)) (take-nil limit)
    | inr within ↦ elim (Bool-cases (leb_ℤ (pos limit) (pos 0))) [
      | inl none_asked ↦
          rw (within, none_asked) (ap (λ n. take n (drop offset rows)) (zero_limit none_asked))
      | inr asked ↦ rw (within, asked, unwrapped) (page_end _ refl)
    ]
  ]
    where
      take-nil : (n : ℕ) → ◌≡◌ {A = List Standing} [] (take n [])
      take-nil zero = refl
      take-nil (suc n) = refl

      zero_limit : leb_ℤ (pos limit) (pos 0) ≡ true → 0 ≡ limit
      zero_limit e = ground arith
