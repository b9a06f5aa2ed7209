-- ===== src/Storage/Admin/Verify.antt =====
-- What VerifyProjection finds: the players whose live score is not the one the ledger adds up to.
use apex_leaderboard.Prelude.{
  List, [], ◌∷◌, ◌++◌, All-map, Option, none, some, true, ◌≡◌, ◌≢◌, refl, arith, ◌∙◌, ap, sym, All,
  Bool-cases, Option-cases, inl, inr, ◌↔◌,
}
use mathlib.Core.Path.{subst}
use apex_leaderboard.Prelude.Text.{Text, text_eq, eq_of_text_eq}
use apex_leaderboard.Prelude.Exec.{ok}
use apex_leaderboard.Platform.{Platform, no_key, zset_key}
use apex_leaderboard.Platform.Laws.{PlatformLaws, Admits, lookup_score}
use apex_leaderboard.Redis.{Server, store}
use apex_leaderboard.Storage.Keys.{leaderboard_key, ledger_key, board_profile_key, board_verify_key}
use apex_leaderboard.Ledger.{Event}
use apex_leaderboard.Storage.Keys.Distinct.{text_eq-verify_leaderboard}
use apex_leaderboard.Storage.Apply.Effect.{admits_zset, IsTyped}
use apex_leaderboard.Storage.Replay.{StaysInRange, as_float, ledger_score, Decodes}
use apex_leaderboard.Storage.Replay.Outcome.{calm}
use apex_leaderboard.Storage.Admin.{
  ScoreMismatch, live_mismatches, replay_mismatches, diff_board, zset_scores, fold_into,
  read_board_events, require_board, verify_projection,
}
use apex_leaderboard.Storage.Admin.Rebuild.{
  IsApart, require_board_lem, read_board_events_lem, board_events_lem, fold_into_lem,
}

-- A score of the replay beside one of the live projection.
abbrev pub Agrees : (P : Platform) → Option P.Float → Option P.Float → Type 0
Agrees P none none = Unit
Agrees P (some y) (some x) = P.float_eq y x ≡ true
Agrees P none (some x) = ⊥
Agrees P (some y) none = ⊥

module _ (P : Platform) (b : Text) where
  live_parts :
      (j : Text) (y : P.Float) (live rebuilt : List (Text × P.Float))
      → live_mismatches P b ((j, y) ∷ live) rebuilt ≡ []
      → Agrees P (lookup_score P j rebuilt) (some y) × (live_mismatches P b live rebuilt ≡ [])
  unfolding live_mismatches
  live_parts j y live rebuilt h = ground arith

  live_match :
      (live rebuilt : List (Text × P.Float))
      → live_mismatches P b live rebuilt ≡ []
      → (p : Text) (x : P.Float) → lookup_score P p live ≡ some x
      → Agrees P (lookup_score P p rebuilt) (some x)
  unfolding live_mismatches
  live_match [] rebuilt h p x e = absurd (cc)
  live_match ((j, y) ∷ live) rebuilt h p x e =
      let (here, rest) = live_parts j y live rebuilt h in
      elim (Bool-cases (text_eq j p)) [
        | inl same ↦ subst (Agrees P (lookup_score P p rebuilt)) (rw same at e) (
            subst (λ k. Agrees P (lookup_score P k rebuilt) (some y)) (eq_of_text_eq j p same) here)
        | inr apart ↦ live_match live rebuilt rest p x (rw apart at e)
      ]

  live_silent :
      (live rebuilt : List (Text × P.Float))
      → All (λ e. Agrees P (lookup_score P e.0 rebuilt) (some e.1)) live
      → live_mismatches P b live rebuilt ≡ []
  unfolding live_mismatches
  live_silent [] rebuilt h = refl
  live_silent ((j, y) ∷ live) rebuilt (h, hs) = ground (arith, live_silent live rebuilt hs)

  replay_parts :
      (j : Text) (x : P.Float) (live rebuilt : List (Text × P.Float))
      → replay_mismatches P b live ((j, x) ∷ rebuilt) ≡ []
      → (lookup_score P j live ≢ none) × (replay_mismatches P b live rebuilt ≡ [])
  unfolding replay_mismatches
  replay_parts j x live rebuilt h = ground arith

  replay_covered :
      (live rebuilt : List (Text × P.Float))
      → replay_mismatches P b live rebuilt ≡ []
      → (p : Text) (y : P.Float) → lookup_score P p rebuilt ≡ some y
      → lookup_score P p live ≢ none
  unfolding replay_mismatches
  replay_covered live [] h p y e = absurd (cc)
  replay_covered live ((j, x) ∷ rebuilt) h p y e =
      let (here, rest) = replay_parts j x live rebuilt h in
      elim (Bool-cases (text_eq j p)) [
        | inl same ↦ subst (λ k. lookup_score P k live ≢ none) (eq_of_text_eq j p same) here
        | inr apart ↦ replay_covered live rebuilt rest p y (rw apart at e)
      ]

  replay_silent :
      (live rebuilt : List (Text × P.Float))
      → All (λ e. lookup_score P e.0 live ≢ none) rebuilt
      → replay_mismatches P b live rebuilt ≡ []
  unfolding replay_mismatches
  replay_silent live [] h = refl
  replay_silent live ((j, x) ∷ rebuilt) (h, hs) = ground (arith, replay_silent live rebuilt hs)

  append_nil : {A : Type 0} (xs ys : List A) → (xs ++ ys ≡ []) → (xs ≡ []) × (ys ≡ [])
  append_nil [] ys h = (refl, h)
  append_nil (x ∷ xs) ys h = absurd (cc)

  -- What `diffBoard` makes of the two lists.
  abbrev mismatches : P.Value → P.Value → List (ScoreMismatch P)
  mismatches live scratch =
      live_mismatches P b (P.zrange live) (P.zrange scratch)
      ++ replay_mismatches P b (P.zrange live) (P.zrange scratch)

  module _ (L : PlatformLaws P) (live scratch : P.Value) where
    open L use {zsets}

    silent_match :
        mismatches live scratch ≡ [] → (p : Text) → Agrees P (P.zscore p scratch) (P.zscore p live)
    silent_match h p =
        let (lives, replays) = append_nil _ _ h in
        elim (Option-cases (P.zscore p live)) [
          | inr (x, e) ↦ rw e (
              subst (λ o. Agrees P o (some x)) (zsets.lookup_score-zrange p scratch)
                (live_match (P.zrange live) (P.zrange scratch) lives p x
                  (zsets.lookup_score-zrange p live ∙ e)))
          | inl none_live ↦ elim (Option-cases (P.zscore p scratch)) [
            | inl none_scratch ↦ rw (none_live, none_scratch) tt
            | inr (y, e) ↦ absurd (
                replay_covered (P.zrange live) (P.zrange scratch) replays p y
                  (zsets.lookup_score-zrange p scratch ∙ e)
                  (zsets.lookup_score-zrange p live ∙ none_live))
          ]
        ]

    match_silent :
        ((p : Text) → Agrees P (P.zscore p scratch) (P.zscore p live))
        → mismatches live scratch ≡ []
    match_silent h =
        rw
          (
            live_silent (P.zrange live) (P.zrange scratch)
                (All-map _ _ (P.zrange live) shown (zsets.zrange-All live)),
            replay_silent (P.zrange live) (P.zrange scratch)
                (All-map _ _ (P.zrange scratch) covered (zsets.zrange-All scratch)),
          )
          refl
      where
        shown :
            (e : Text × P.Float)
            → P.zscore e.0 live ≡ some e.1
            → Agrees P (lookup_score P e.0 (P.zrange scratch)) (some e.1)
        shown (p, x) k =
            subst (λ o. Agrees P o (some x)) (sym (zsets.lookup_score-zrange p scratch))
              (subst (Agrees P (P.zscore p scratch)) k (h p))

        covered :
            (e : Text × P.Float)
            → P.zscore e.0 scratch ≡ some e.1
            → lookup_score P e.0 (P.zrange live) ≢ none
        covered (p, y) k n =
            subst (λ o. Agrees P o none) k
              (subst (Agrees P (P.zscore p scratch)) (sym (zsets.lookup_score-zrange p live) ∙ n)
                (h p))

  module _ (L : PlatformLaws P) (s : Server P) where
    open L use {hashes}

    diff_board_lem :
        (t : Server P)
        → Admits zset_key (P.kind (t.at (leaderboard_key b)))
        → Admits zset_key (P.kind (t.at (board_verify_key b)))
        → diff_board P b (calm t)
          ≡ (ok (mismatches (t.at (leaderboard_key b)) (t.at (board_verify_key b))), calm t)
    unfolding diff_board zset_scores
    diff_board_lem t live scratch = rw (admits_zset _ live, admits_zset _ scratch) refl

    verify_steps :
        (es : List Event) (t : Server P)
        → require_board P b (calm s) ≡ (ok tt, calm s)
        → read_board_events P b (calm s) ≡ (ok es, calm s)
        → fold_into P es (board_verify_key b) (calm s) ≡ (ok tt, calm t)
        → Admits zset_key (P.kind (t.at (leaderboard_key b)))
        → Admits zset_key (P.kind (t.at (board_verify_key b)))
        → verify_projection P b (calm s) ≡ (
          ok (mismatches (t.at (leaderboard_key b)) (t.at (board_verify_key b))),
          calm (store (board_verify_key b) P.missing t),
        )
    unfolding verify_projection
    verify_steps es t h1 h2 h3 live scratch = rw (h1, h2, h3, diff_board_lem t live scratch) refl

    -- On a server whose keys hold the right types and whose ledger decodes and stays in range at
    -- every entry, with every request delivered, the verification of a board that exists succeeds,
    -- finds nothing exactly when the live projection has for each player the score that the ledger
    -- adds up to, and leaves every key but its scratch key as it was.
    pub verify_projection-exact :
        P.kind (s.at (board_profile_key b)) ≢ no_key
        → IsTyped P s
        → All (Decodes P) (P.xrange (s.at ledger_key))
        → ((p : Text) → StaysInRange P b p none (P.xrange (s.at ledger_key)))
        → (found : List (ScoreMismatch P)) × (s' : Server P) × (verify_projection P b (calm s)
            ≡ (ok found, calm s'))
          × ((found ≡ []) ↔ (
              (p : Text)
              → Agrees P
                  (as_float P (ledger_score P s b p))
                  (P.zscore p (s.at (leaderboard_key b)))))
          × IsApart P (board_verify_key b) s s'
    verify_projection-exact exists typed d h =
        let (es, run, mine, same, kept) = board_events_lem P b (P.xrange (s.at ledger_key)) d in
        let (t, folds, shows, kind, rest) =
          fold_into_lem P L b s es (board_verify_key b) mine (λ p. kept p none (h p)) in
        let live : t.at (leaderboard_key b) ≡ s.at (leaderboard_key b) =
          rest (leaderboard_key b) (text_eq-verify_leaderboard b b) in
        let scores : (p : Text)
            → P.zscore p (t.at (board_verify_key b)) ≡ as_float P (ledger_score P s b p) =
          λ p. shows p ∙ ap (as_float P) (same p none) in
        (
          mismatches (t.at (leaderboard_key b)) (t.at (board_verify_key b)),
          store (board_verify_key b) P.missing t,
          verify_steps es t (require_board_lem P L b s exists)
              (read_board_events_lem P L b s es typed.stream_at run) folds
              (rw live (typed.zset_at b)) kind,
          (
            (λ silent p.
                subst (Agrees P (as_float P (ledger_score P s b p))) (ap (P.zscore p) live) (
                  subst (λ o. Agrees P o (P.zscore p (t.at (leaderboard_key b)))) (scores p)
                    (silent_match L _ _ silent p))),
            λ agree. match_silent L _ _ λ p. rw (live, scores p) (agree p),
          ),
          λ j n. (rw n refl) ∙ rest j n,
        )
