-- ===== src/Fanout.antt =====
-- apiscripts/fanout: the pages that fetchAllRows reads, and the chunks in which runFanoutSets and
-- the loop of apiscripts/loadscore send their requests. What the service answers is a parameter.
pub mod Ranking
use apex_leaderboard.Prelude.{
  ℕ, zero, suc, ◌+◌, ◌*◌, ◌≤◌, ◌<◌, ◌-◌, List, [], ◌∷◌, ◌++◌, Option, none, some, true, false, ◌||◌,
  ◌==◌, ◌≡◌, refl, ap, ◌∙◌, sym, arith, length, take, drop, length-drop, take-drop, take-all,
  drop-all, length-take_all, take_next, drop_next, ltb, leb, if◌then◌else◌, Bool-cases, inl, inr,
}
use apex_leaderboard.Prelude.Exec.{Result, ok, err}

abbrev pub page_size : ℕ
page_size = 100

module _ {R E : Type 0} (fetch : ℕ → ℕ → Result E (List R × ℕ)) where
  -- `fetchAllRows` from an offset, with the rows so far; `none` is more pages than `pages`.
  unfoldable pub fetch_rows : ℕ → ℕ → List R → Option (Result E (List R × ℕ))
  fetch_rows zero offset rows = none
  fetch_rows (suc pages) offset rows = elim (fetch page_size offset) [
    | err e ↦ some (err e)
    | ok (page, total) ↦
        let all = rows ++ page in
        let rest = fetch_rows pages (offset + page_size) all in
        if length page == 0 || leb total (length all) then some (ok (all, total)) else rest
  ]

  -- The service shows one list, page by page.
  abbrev pub Serves : List R → Type 0
  Serves rows =
      (limit offset : ℕ) → fetch limit offset ≡ ok (take limit (drop offset rows), length rows)

  module _ (rows : List R) (serves : Serves rows) where
    -- The last page there is.
    fetch_last :
        (pages offset : ℕ)
        → length rows ≤ offset + page_size
        → fetch_rows (suc pages) offset (take offset rows) ≡ some (ok (rows, length rows))
    unfolding fetch_rows
    fetch_last pages offset h =
        let whole : take offset rows ++ take page_size (drop offset rows) ≡ rows =
          take_next offset page_size rows ∙ take-all (offset + page_size) rows h in
        rw (serves page_size offset, fetch_rows, whole, enough) refl
      where
        enough :
            (length (take page_size (drop offset rows)) == 0 || leb (length rows) (length rows))
            ≡ true
        enough = ground arith

    -- A page before it.
    fetch_more :
        (pages offset : ℕ)
        → offset + page_size < length rows
        → fetch_rows (suc pages) offset (take offset rows)
          ≡ fetch_rows pages (offset + page_size) (take (offset + page_size) rows)
    unfolding fetch_rows
    fetch_more pages offset h =
        rw (serves page_size offset, fetch_rows, take_next offset page_size rows, go_on) refl
      where
        full : length (take page_size (drop offset rows)) ≡ page_size
        full =
            length-take_all page_size (drop offset rows) (omega (arith, length-drop offset rows, h))

        so_far : length (take (offset + page_size) rows) ≡ offset + page_size
        so_far = length-take_all (offset + page_size) rows (omega (arith, h))

        go_on :
            (length (take page_size (drop offset rows)) == 0
              || leb (length rows) (length (take (offset + page_size) rows)))
            ≡ false
        go_on = rw (full, so_far) (ground (arith, h))

    fetch_from :
        (pages offset : ℕ)
        → length rows ≤ offset + suc pages * page_size
        → fetch_rows (suc pages) offset (take offset rows) ≡ some (ok (rows, length rows))
    fetch_from zero offset h = fetch_last zero offset (omega (arith, h))
    fetch_from (suc pages) offset h = elim (Bool-cases (leb (length rows) (offset + page_size))) [
      | inl last ↦ fetch_last (suc pages) offset (ground arith)
      | inr more ↦
          fetch_more (suc pages) offset (ground arith)
          ∙ fetch_from pages (offset + page_size) (omega (arith, h))
    ]

    -- Where the pages that the service shows are those of one list, the loop of fetchAllRows ends
    -- with that whole list and its length, within any number of pages that have room for more than
    -- it.
    pub fetch_rows-all :
        (pages : ℕ)
        → length rows < pages * page_size
        → fetch_rows pages 0 [] ≡ some (ok (rows, length rows))
    fetch_rows-all zero h = absurd (omega (arith, h))
    fetch_rows-all (suc pages) h = fetch_from pages 0 (omega (arith, h))

abbrev smaller : ℕ → ℕ → ℕ
smaller a b = if ltb b a then b else a

-- The chunks of `size` from an index on, as `players[start:end]`; `none` is more of them than
-- `chunks`.
unfoldable pub chunked : {A : Type 0} → ℕ → ℕ → ℕ → List A → Option (List (List A))
chunked size zero start xs = none
chunked size (suc chunks) start xs =
    let end = smaller (start + size) (length xs) in
    let rest = chunked size chunks (start + size) xs in
    if ltb start (length xs)
    then elim rest [ none ↦ none | some cs ↦ some (take (end - start) (drop start xs) ∷ cs) ]
    else some []

abbrev pub flat : {A : Type 0} → List (List A) → List A
flat [] = []
flat (c ∷ cs) = c ++ flat cs

module _ {A : Type 0} (size : ℕ) (positive : 1 ≤ size) (xs : List A) where
  -- A chunk and what is behind it.
  chunk_rest :
      (start : ℕ)
      → start < length xs
      → take (smaller (start + size) (length xs) - start) (drop start xs) ++ drop (start + size) xs
        ≡ drop start xs
  chunk_rest start h =
      ap (λ l. l ++ drop (start + size) xs) chunk
      ∙ ap (λ l. take size (drop start xs) ++ l) (sym (drop_next start size xs))
      ∙ take-drop size (drop start xs)
    where
      chunk :
          take (smaller (start + size) (length xs) - start) (drop start xs)
          ≡ take size (drop start xs)
      chunk = elim (Bool-cases (ltb (length xs) (start + size))) [
        | inl short ↦
            let left : length (drop start xs) ≡ length xs - start = length-drop start xs in
            rw short (
              take-all (length xs - start) (drop start xs) (omega (arith, left))
              ∙ sym (take-all size (drop start xs) (ground arith)))
        | inr long ↦ rw long (ap (λ n. take n (drop start xs)) (omega arith))
      ]

  chunked_from :
      (chunks start : ℕ)
      → length xs ≤ start + chunks
      → (cs : List (List A)) × (chunked size (suc chunks) start xs ≡ some cs)
        × (flat cs ≡ drop start xs)
  unfolding chunked
  chunked_from zero start h =
      let behind : ltb start (length xs) ≡ false = ground (arith, h) in
      ([], rw behind refl, sym (drop-all start xs (omega (arith, h))))
  chunked_from (suc chunks) start h =
      let (cs, run, whole) = chunked_from chunks (start + size) (omega (arith, h, positive)) in
      elim (Bool-cases (ltb start (length xs))) [
        | inr behind ↦ ([], rw behind refl, sym (drop-all start xs (ground arith)))
        | inl ahead ↦ (
          take (smaller (start + size) (length xs) - start) (drop start xs) ∷ cs,
          rw (ahead, run) refl,
          ap (λ l. take (smaller (start + size) (length xs) - start) (drop start xs) ++ l) whole
              ∙ chunk_rest start (ground arith),
        )
      ]

  -- For a positive chunk size, the loop of runFanoutSets ends, and its chunks are the players in
  -- order, each once.
  pub chunked-flat :
      (cs : List (List A)) × (chunked size (suc (length xs)) 0 xs ≡ some cs) × (flat cs ≡ xs)
  chunked-flat = chunked_from (length xs) 0 (omega arith)
