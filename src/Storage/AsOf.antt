-- ===== src/Storage/AsOf.antt =====
-- ListStandingsAsOf of storage/score_repo.go: a past leaderboard from the ledger alone.
pub mod Overflow
pub mod Agreement
pub mod Pages
pub mod Rows
pub mod Listing
use apex_leaderboard.Prelude.{
  ℕ, zero, suc, ◌+◌, List, [], ◌∷◌, ◌++◌, Option, none, some, Bool, true, false, not, ◌&&◌, ◌||◌,
  if◌then◌else◌, length, take, drop,
}
use apex_leaderboard.Prelude.Int.{ℤ, pos, pos_part, ◌+ℤ◌, ◌-ℤ◌, ltb_ℤ, leb_ℤ, eqb_ℤ, wrap64}
use apex_leaderboard.Prelude.Text.{Text, codes, text_eq, text_lt}
use apex_leaderboard.Prelude.Exec.{Result, ok, err, pure, lift, bind_result, ◌>>=◌}
use apex_leaderboard.Platform.{Platform, Entry, stream_key}
use apex_leaderboard.Platform.Laws.{unix_milli}
use apex_leaderboard.Redis.{query}
use apex_leaderboard.Decimal.{format_int}
use apex_leaderboard.Ledger.{Event, EventType, set, increment}
use apex_leaderboard.Storage.Client.{StorageError, inconsistent, Store, call}
use apex_leaderboard.Storage.Keys.{ledger_key}
use apex_leaderboard.Storage.Entry.{stream_entry_value, entry_to_event}
use apex_leaderboard.Storage.Standings.{Standing}

-- The Go map from player to score, as an association list; a missing key reads as 0.
abbrev pub Scores : Type 0
Scores = List (Text × ℤ)

unfoldable pub score_in : Text → Scores → Option ℤ
score_in k [] = none
score_in k ((j, v) ∷ m) = if text_eq j k then some v else score_in k m

abbrev pub or_zero : Option ℤ → ℤ
or_zero none = pos 0
or_zero (some v) = v

unfoldable pub put_score : Text → ℤ → Scores → Scores
put_score k v [] = (k, v) ∷ []
put_score k v ((j, w) ∷ m) = if text_eq j k then (k, v) ∷ m else (j, w) ∷ put_score k v m

-- `(amount > 0 && sum < current) || (amount < 0 && sum > current)`, with the int64 sum
unfoldable pub sum_overflows : ℤ → ℤ → Bool
sum_overflows current amount =
    let sum = wrap64 (current +ℤ amount) in
    (ltb_ℤ (pos 0) amount && ltb_ℤ sum current) || (ltb_ℤ amount (pos 0) && ltb_ℤ current sum)

unfoldable pub replay_into : EventType → Text → ℤ → Scores → Result StorageError Scores
unfolding put_score sum_overflows
replay_into EventType.set p n scores = ok (put_score p n scores)
replay_into EventType.increment p n scores =
    let current = or_zero (score_in p scores) in
    if sum_overflows current n
    then err inconsistent
    else ok (put_score p (wrap64 (current +ℤ n)) scores)

-- `standings[i]` stands before `standings[j]`
unfoldable pub ranks_before : Text × ℤ → Text × ℤ → Bool
ranks_before (p, x) (q, y) = if not (eqb_ℤ x y) then ltb_ℤ y x else text_lt q p

-- sort.Slice by that order. Players differ, so the order is total and the result is determined.
insert_row : Text × ℤ → Scores → Scores
insert_row e [] = e ∷ []
insert_row e (f ∷ l) = if ranks_before e f then e ∷ f ∷ l else f ∷ insert_row e l

unfoldable pub sort_rows : Scores → Scores
unfolding insert_row ranks_before
sort_rows [] = []
sort_rows (e ∷ l) = insert_row e (sort_rows l)

unfoldable pub ranked : ℕ → Scores → List Standing
ranked i [] = []
ranked i ((p, x) ∷ l) =
    record { player_id = p; score = x; rank = pos i +ℤ pos 1 } ∷ ranked (suc i) l

abbrev min_ℤ : ℤ → ℤ → ℤ
min_ℤ a b = if ltb_ℤ b a then b else a

-- standings[offset:min(offset+limit, total)]; offsets that handlers pass are not negative
unfoldable pub page : ℤ → ℤ → List Standing → List Standing
page limit offset standings =
    let total = pos (length standings) in
    if leb_ℤ total offset || leb_ℤ limit (pos 0)
    then []
    else (let end = min_ℤ (wrap64 (offset +ℤ limit)) total in
        take (pos_part (end -ℤ offset)) (drop (pos_part offset) standings))

module _ (P : Platform) where
  -- The loop over the entries of the stream.
  unfoldable pub replay_entries : Text → List Entry → Scores → Result StorageError Scores
  unfolding replay_into
  replay_entries board_id [] scores = ok scores
  replay_entries board_id (entry ∷ entries) scores =
      let rest = replay_entries board_id entries in
      if not (text_eq (stream_entry_value entry (codes "board_id")) board_id)
      then rest scores
      else bind_result (entry_to_event P entry)
          λ event. bind_result (replay_into event.type event.player_id event.amount scores) rest

  unfoldable pub list_standings_as_of : Text → ℤ → ℤ → ℤ → Store P (List Standing × ℕ)
  unfolding replay_entries ranked page sort_rows
  list_standings_as_of board_id before limit offset = do
    let end_id = b'(' ∷ (format_int (unix_milli before) ++ codes "-0")
    entries ← call (query P stream_key ledger_key (P.xrange_by (codes "-") end_id none))
    scores ← lift (replay_entries board_id entries [])
    let standings = ranked 0 (sort_rows scores)
    pure (page limit offset standings, length standings)
