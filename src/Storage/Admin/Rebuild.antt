-- ===== src/Storage/Admin/Rebuild.antt =====
-- A rebuild leaves a projection that shows what the ledger adds up to.
use apex_leaderboard.Prelude.{
  List, [], ◌∷◌, Option, none, true, false, ◌≡◌, ◌≢◌, refl, arith, ◌∙◌, ap, All, Bool-cases, inl,
  inr,
}
use apex_leaderboard.Prelude.Int.{ℤ}
use apex_leaderboard.Prelude.Text.{Text, text_eq, eq_of_text_eq, text_eq_refl}
use apex_leaderboard.Prelude.Exec.{ok, for_each}
use apex_leaderboard.Platform.{Platform, Entry, no_key, zset_key, stream_key}
use apex_leaderboard.Platform.Laws.{PlatformLaws, Admits, IsSmall}
use apex_leaderboard.Redis.{Server, store}
use apex_leaderboard.Score.{IsScore, abs_of_score}
use apex_leaderboard.Ledger.{EventType, Event}
use apex_leaderboard.Storage.Keys.{leaderboard_key, ledger_key, board_profile_key}
use apex_leaderboard.Storage.Entry.Reads.{entry_to_event-reads}
use apex_leaderboard.Storage.Apply.Effect.{scored, admits_zset, admits_stream, IsTyped}
use apex_leaderboard.Storage.Replay.{
  next_score, replay_event, replay, InRange, as_float, ledger_score, Decodes,
}
use apex_leaderboard.Storage.Replay.Write.{zscore-scored, IsSmall-total}
use apex_leaderboard.Storage.Replay.Outcome.{calm}
use apex_leaderboard.Storage.Replay.{StaysInRange}
use apex_leaderboard.Storage.Admin.{
  board_events, fold_event, fold_into, require_board, read_board_events, rebuild_projection,
}

abbrev pub folded_score : Text → Text → Option ℤ → List Event → Option ℤ
folded_score b p old [] = old
folded_score b p old (e ∷ es) = folded_score b p (replay_event b p old e) es

abbrev pub FoldsInRange : Text → Text → Option ℤ → List Event → Type 0
FoldsInRange b p old [] = InRange old
FoldsInRange b p old (e ∷ es) = InRange old × FoldsInRange b p (replay_event b p old e) es

FoldsInRange-head :
    (b p : Text) (old : Option ℤ) (es : List Event) → FoldsInRange b p old es → InRange old
FoldsInRange-head b p old [] h = h
FoldsInRange-head b p old (e ∷ es) h = h.0

abbrev pub IsEventOf : Text → Event → Type 0
IsEventOf b e = (text_eq e.board_id b ≡ true) × IsScore e.amount

-- Two servers that agree on every key but one.
abbrev pub IsApart : (P : Platform) → Text → Server P → Server P → Type 0
IsApart P dest s s' = (j : Text) → text_eq dest j ≡ false → s'.at j ≡ s.at j

module _ (P : Platform) (L : PlatformLaws P) (b dest : Text) where
  open L use {zsets}

  abbrev folded : Event → P.Value → P.Value
  folded e v = scored P e.type e.player_id e.board_id e.amount [] [] e.type v

  kind-folded : (e : Event) (v : P.Value) → P.kind (folded e v) ≡ zset_key
  kind-folded e v = go e.type
    where
      go :
          (t : EventType)
          → P.kind (scored P e.type e.player_id e.board_id e.amount [] [] t v) ≡ zset_key
      go EventType.set = zsets.kind-zadd _ _ v
      go EventType.increment = zsets.kind-zincrby _ _ v

  fold_event_lem :
      (e : Event) (s : Server P)
      → Admits zset_key (P.kind (s.at dest))
      → fold_event P dest e (calm s) ≡ (ok tt, calm (store dest (folded e (s.at dest)) s))
  unfolding fold_event
  fold_event_lem e s a = ground (arith, admits_zset _ a)

  at-stored : (v : P.Value) (s : Server P) → (store dest v s).at dest ≡ v
  at-stored v s = rw (text_eq_refl dest) refl

  small : (n : ℤ) → IsScore n → IsSmall n
  small n h = omega (arith, abs_of_score n h)

  -- One event, for every player of the board.
  shows_event :
      (e : Event) (v : P.Value) (old : Text → Option ℤ)
      → Admits zset_key (P.kind v)
      → ((p : Text) → P.zscore p v ≡ as_float P (old p))
      → IsEventOf b e
      → ((p : Text) → InRange (old p))
      → ((p : Text) → InRange (replay_event b p (old p) e))
      → (p : Text) → P.zscore p (folded e v) ≡ as_float P (replay_event b p (old p) e)
  shows_event e v old a h (board, score) before after p =
      zscore-scored P L e.player_id e.board_id e.amount [] [] p v e.type (old e.player_id) a
        (h e.player_id) (small e.amount score)
        (IsSmall-total (old e.player_id) (before e.player_id)) (small _ fits)
      ∙ elim (Bool-cases (text_eq e.player_id p)) [
        | inl same ↦ rw (board, same, eq_of_text_eq e.player_id p same) refl
        | inr apart ↦ rw (board, apart) (h p)
      ]
    where
      fits : IsScore (next_score e.type (old e.player_id) e.amount)
      fits = rw (board, text_eq_refl e.player_id) at (after e.player_id)

  fold_lem :
      (es : List Event) (s : Server P) (old : Text → Option ℤ)
      → Admits zset_key (P.kind (s.at dest))
      → ((p : Text) → P.zscore p (s.at dest) ≡ as_float P (old p))
      → All (IsEventOf b) es
      → ((p : Text) → FoldsInRange b p (old p) es)
      → (s' : Server P) × (for_each (fold_event P dest) es (calm s) ≡ (ok tt, calm s'))
        × ((p : Text) → P.zscore p (s'.at dest) ≡ as_float P (folded_score b p (old p) es))
        × Admits zset_key (P.kind (s'.at dest))
        × IsApart P dest s s'
  fold_lem [] s old a h d k = (s, refl, h, a, λ j n. refl)
  fold_lem (e ∷ es) s old a h (d, ds) k =
      let s1 : Server P = store dest (folded e (s.at dest)) s in
      let shows : (p : Text) → P.zscore p (s1.at dest) ≡ as_float P (replay_event b p (old p) e) =
        λ p.
          ap (P.zscore p) (at-stored (folded e (s.at dest)) s)
          ∙ shows_event e (s.at dest) old a h d (λ q. (k q).0)
              (λ q. FoldsInRange-head b q _ es ((k q).1)) p in
      let (s', run, all, kind, rest) =
        fold_lem es s1 (λ p. replay_event b p (old p) e)
          (inr (ap P.kind (at-stored (folded e (s.at dest)) s) ∙ kind-folded e (s.at dest))) shows
          ds (λ p. (k p).1) in
      (s', rw (fold_event_lem e s a) run, all, kind, λ j n. rest j n ∙ (rw n refl))

module _ (P : Platform) (b : Text) where
  -- The events of the board fold to what the whole ledger replays to.
  pub board_events_lem :
      (xs : List Entry)
      → All (Decodes P) xs
      → (es : List Event) × (board_events P b xs ≡ ok es)
        × All (IsEventOf b) es
        × ((p : Text) (old : Option ℤ) → folded_score b p old es ≡ replay P b p old xs)
        × ((p : Text) (old : Option ℤ) → StaysInRange P b p old xs → FoldsInRange b p old es)
  unfolding board_events replay
  board_events_lem [] d = ([], refl, tt, (λ p old. refl), λ p old h. h)
  board_events_lem (x ∷ xs) ((e, eq), d) =
      let (board, score) = entry_to_event-reads P x e eq in
      let (es, run, mine, same, kept) = board_events_lem xs d in
      elim (Bool-cases (text_eq e.board_id b)) [
        | inr other ↦ (
          es,
          rw (board, other) run,
          mine,
          λ p old. rw (eq, other) (same p old),
          λ p old h. kept p old (rw (eq, other) at (h.1)),
        )
        | inl here ↦ (
          e ∷ es,
          rw (board, here, eq, run) refl,
          ((here, score), mine),
          λ p old. rw eq (same p (replay_event b p old e)),
          λ p old h. (h.0, kept p (replay_event b p old e) (rw eq at (h.1))),
        )
      ]

module _ (P : Platform) (L : PlatformLaws P) (b : Text) (s : Server P) where
  open L use {zsets, hashes, streams}

  pub require_board_lem :
      P.kind (s.at (board_profile_key b)) ≢ no_key → require_board P b (calm s) ≡ (ok tt, calm s)
  unfolding require_board
  require_board_lem h = ground arith

  pub read_board_events_lem :
      (es : List Event)
      → Admits stream_key (P.kind (s.at ledger_key))
      → board_events P b (P.xrange (s.at ledger_key)) ≡ ok es
      → read_board_events P b (calm s) ≡ (ok es, calm s)
  unfolding read_board_events
  read_board_events_lem es stream h =
      rw (admits_stream _ stream, streams.xrange_by-all (s.at ledger_key), h) refl

  -- What the fold of the board's events into a key that is not the ledger leaves there.
  pub fold_into_lem :
      (es : List Event) (dest : Text)
      → All (IsEventOf b) es
      → ((p : Text) → FoldsInRange b p none es)
      → (s' : Server P) × (fold_into P es dest (calm s) ≡ (ok tt, calm s'))
        × ((p : Text) → P.zscore p (s'.at dest) ≡ as_float P (folded_score b p none es))
        × Admits zset_key (P.kind (s'.at dest))
        × IsApart P dest s s'
  unfolding fold_into
  fold_into_lem es dest mine kept =
      let dropped : Server P = store dest P.missing s in
      let empty : dropped.at dest ≡ P.missing = at-stored P L b dest P.missing s in
      let (s', folds, shows, kind, rest) =
        fold_lem P L b dest es dropped (λ p. none) (inl (ap P.kind empty ∙ hashes.kind-missing))
          (λ p. ap (P.zscore p) empty ∙ zsets.zscore-missing p) mine kept in
      (s', folds, shows, kind, λ j n. rest j n ∙ (rw n refl))

  rebuild_steps :
      (es : List Event) (s' : Server P)
      → require_board P b (calm s) ≡ (ok tt, calm s)
      → read_board_events P b (calm s) ≡ (ok es, calm s)
      → fold_into P es (leaderboard_key b) (calm s) ≡ (ok tt, calm s')
      → rebuild_projection P b (calm s) ≡ (ok tt, calm s')
  unfolding rebuild_projection
  rebuild_steps es s' h1 h2 h3 = rw (h1, h2) h3

  -- All that a rebuild does.
  pub rebuild_projection_lem :
      P.kind (s.at (board_profile_key b)) ≢ no_key
      → Admits stream_key (P.kind (s.at ledger_key))
      → All (Decodes P) (P.xrange (s.at ledger_key))
      → ((p : Text) → StaysInRange P b p none (P.xrange (s.at ledger_key)))
      → (s' : Server P) × (rebuild_projection P b (calm s) ≡ (ok tt, calm s'))
        × ((p : Text) → P.zscore p (s'.at (leaderboard_key b)) ≡ as_float P (ledger_score P s b p))
        × Admits zset_key (P.kind (s'.at (leaderboard_key b)))
        × IsApart P (leaderboard_key b) s s'
  rebuild_projection_lem exists stream d h =
      let (es, run, mine, same, kept) = board_events_lem P b (P.xrange (s.at ledger_key)) d in
      let (s', folds, shows, kind, rest) =
        fold_into_lem es (leaderboard_key b) mine (λ p. kept p none (h p)) in
      (
        s',
        rebuild_steps es s' (require_board_lem exists) (read_board_events_lem es stream run) folds,
        (λ p. shows p ∙ ap (as_float P) (same p none)),
        kind,
        rest,
      )

  -- On a server whose keys hold the right types and whose ledger decodes and stays in range at
  -- every entry, with every request delivered, the rebuild of a board that exists succeeds,
  -- whatever its projection held before, and the projection shows for each player exactly what the
  -- ledger adds up to.
  pub rebuild_projection-restores :
      P.kind (s.at (board_profile_key b)) ≢ no_key
      → IsTyped P s
      → All (Decodes P) (P.xrange (s.at ledger_key))
      → ((p : Text) → StaysInRange P b p none (P.xrange (s.at ledger_key)))
      → (s' : Server P) × (rebuild_projection P b (calm s) ≡ (ok tt, calm s'))
        × ((p : Text) → P.zscore p (s'.at (leaderboard_key b)) ≡ as_float P (ledger_score P s b p))
  rebuild_projection-restores exists typed d h =
      let (s', run, shows, kind, rest) = rebuild_projection_lem exists typed.stream_at d h in
      (s', run, shows)
