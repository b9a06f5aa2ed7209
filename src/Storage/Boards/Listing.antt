-- ===== src/Storage/Boards/Listing.antt =====
-- What the listing of boards skips, and what ends it.
use apex_leaderboard.Prelude.{
  List, [], ◌∷◌, ◌++◌, none, some, ◌≡◌, ◌≢◌, refl, arith, All, inl, inr, ◌⊎◌,
}
use apex_leaderboard.Prelude.Text.{Text, codes}
use apex_leaderboard.Prelude.Int.{ℤ}
use apex_leaderboard.Prelude.Exec.{Result, ok, err, bind_result}
use apex_leaderboard.Platform.{Platform}
use apex_leaderboard.Platform.Laws.{lookup}
use apex_leaderboard.Board.{Board}
use apex_leaderboard.Storage.Client.{StorageError}
use apex_leaderboard.Storage.Boards.{board_from_fields, boards_from_fields}

module _ (P : Platform) where
  -- The hash names no creation time, or one that parses.
  abbrev pub HasGoodTime : Text × List (Text × Text) → Type 0
  HasGoodTime (id, fields) =
      (lookup (codes "created_at") fields ≡ none)
      ⊎ ((raw : Text) × (t : ℤ) × (lookup (codes "created_at") fields ≡ some raw)
          × (P.parse_time raw ≡ some t))

  -- The boards of the hashes that describe one.
  abbrev pub well_formed : List (Text × List (Text × Text)) → List Board
  well_formed [] = []
  well_formed ((id, []) ∷ l) = well_formed l
  well_formed ((id, f ∷ fields) ∷ l) =
      let rest = well_formed l in
      elim (board_from_fields P id (f ∷ fields)) [ ok b ↦ b ∷ rest | err e ↦ rest ]

  board_from_fields-time :
      (id : Text) (fields : List (Text × Text)) (e : StorageError)
      → HasGoodTime (id, fields)
      → board_from_fields P id fields ≡ err e
      → e ≡ StorageError.inconsistent
  unfolding board_from_fields
  board_from_fields-time id fields e (inl none_there) h = ground arith
  board_from_fields-time id fields e (inr (raw, t, found, parsed)) h = ground arith

  -- One hash with a good time never ends the listing.
  boards_step :
      (id : Text) (f : Text × Text) (fields : List (Text × Text))
      (l : List (Text × List (Text × Text))) (bs : List Board)
      → HasGoodTime (id, f ∷ fields)
      → boards_from_fields P l ≡ ok bs
      → boards_from_fields P ((id, f ∷ fields) ∷ l)
        ≡ ok (elim (board_from_fields P id (f ∷ fields)) [ ok b ↦ b ∷ bs | err e ↦ bs ])
  unfolding boards_from_fields
  boards_step id f fields l bs good h =
      go (board_from_fields P id (f ∷ fields)) (λ e. board_from_fields-time id (f ∷ fields) e good)
    where
      go :
          (r : Result StorageError Board)
          → ((e : StorageError) → r ≡ err e → e ≡ StorageError.inconsistent)
          → (elim r [
            | ok b ↦ bind_result (boards_from_fields P l) λ bs'. ok (b ∷ bs')
            | err StorageError.inconsistent ↦ boards_from_fields P l
            | err e ↦ err e
          ])
            ≡ ok (elim r [ ok b ↦ b ∷ bs | err e ↦ bs ])
      go (ok b) k = rw h refl
      go (err e) k = rw (k e refl) h

  boards_step_failed :
      (id : Text) (f : Text × Text) (fields : List (Text × Text))
      (l : List (Text × List (Text × Text))) (e0 : StorageError)
      → HasGoodTime (id, f ∷ fields)
      → boards_from_fields P l ≡ err e0
      → boards_from_fields P ((id, f ∷ fields) ∷ l) ≡ err e0
  unfolding boards_from_fields
  boards_step_failed id f fields l e0 good h =
      go (board_from_fields P id (f ∷ fields)) (λ e. board_from_fields-time id (f ∷ fields) e good)
    where
      go :
          (r : Result StorageError Board)
          → ((e : StorageError) → r ≡ err e → e ≡ StorageError.inconsistent)
          → (elim r [
            | ok b ↦ bind_result (boards_from_fields P l) λ bs'. ok (b ∷ bs')
            | err StorageError.inconsistent ↦ boards_from_fields P l
            | err e ↦ err e
          ])
            ≡ err e0
      go (ok b) k = rw h refl
      go (err e) k = rw (k e refl) h

  -- Where every hash that names a creation time names one that parses, the listing of boards does
  -- not fail, and is exactly the boards whose hashes describe one.
  pub boards_from_fields-well_formed :
      (l : List (Text × List (Text × Text)))
      → All HasGoodTime l
      → boards_from_fields P l ≡ ok (well_formed l)
  unfolding boards_from_fields
  boards_from_fields-well_formed [] h = refl
  boards_from_fields-well_formed ((id, []) ∷ l) h = boards_from_fields-well_formed l h.1
  boards_from_fields-well_formed ((id, f ∷ fields) ∷ l) h =
      boards_step id f fields l (well_formed l) h.0 (boards_from_fields-well_formed l h.1)

  board_from_fields-bad_time :
      (id name raw : Text) (fields : List (Text × Text))
      → lookup (codes "board_name") fields ≡ some name
      → lookup (codes "created_at") fields ≡ some raw
      → P.parse_time raw ≡ none
      → board_from_fields P id fields ≡ err StorageError.storage
  unfolding board_from_fields
  board_from_fields-bad_time id name raw fields n c t = rw (n, c, t) refl

  boards_from_fields-failed :
      (id : Text) (f : Text × Text) (fields : List (Text × Text))
      (l : List (Text × List (Text × Text)))
      → board_from_fields P id (f ∷ fields) ≡ err StorageError.storage
      → boards_from_fields P ((id, f ∷ fields) ∷ l) ≡ err StorageError.storage
  unfolding boards_from_fields
  boards_from_fields-failed id f fields l h = rw (boards_from_fields, h) refl

  lookup-nil_apart : (k v : Text) → lookup k [] ≢ some v
  unfolding lookup
  lookup-nil_apart k v h = cc

  -- A hash with a name whose creation time does not parse ends the whole listing with an error,
  -- where the hashes before it have creation times that parse, if any.
  pub boards_from_fields-bad_time :
      (pre post : List (Text × List (Text × Text))) (id name raw : Text)
      (fields : List (Text × Text))
      → All HasGoodTime pre
      → lookup (codes "board_name") fields ≡ some name
      → lookup (codes "created_at") fields ≡ some raw
      → P.parse_time raw ≡ none
      → boards_from_fields P (pre ++ (id, fields) ∷ post) ≡ err StorageError.storage
  unfolding boards_from_fields
  boards_from_fields-bad_time [] post id name raw [] h n c t = absurd (lookup-nil_apart _ _ n)
  boards_from_fields-bad_time [] post id name raw (f ∷ fields) h n c t =
      boards_from_fields-failed id f fields post
        (board_from_fields-bad_time id name raw (f ∷ fields) n c t)
  boards_from_fields-bad_time ((i, []) ∷ pre) post id name raw fields h n c t =
      boards_from_fields-bad_time pre post id name raw fields h.1 n c t
  boards_from_fields-bad_time ((i, g ∷ gs) ∷ pre) post id name raw fields h n c t =
      boards_step_failed i g gs (pre ++ (id, fields) ∷ post) StorageError.storage h.0
        (boards_from_fields-bad_time pre post id name raw fields h.1 n c t)
