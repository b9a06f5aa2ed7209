-- ===== src/Consumer/History.antt =====
-- A batch of the player history that is applied twice leaves what one application leaves.
use apex_leaderboard.Prelude.{
  List, [], ◌∷◌, some, true, ◌≡◌, refl, sym, ap, ◌∙◌, All, if_either, if◌then◌else◌, Bool-cases,
  inl, inr,
}
use apex_leaderboard.Prelude.Text.{Text, text_eq, text_eq_refl, eq_of_text_eq}
use apex_leaderboard.Prelude.Exec.{Result, ok, map_result, bind_result, pure, ◌>>=◌}
use apex_leaderboard.Platform.{Platform, zset_key}
use apex_leaderboard.Platform.Laws.{PlatformLaws, Admits}
use apex_leaderboard.Redis.{Server, store, Script}
use apex_leaderboard.Ledger.{Event}
use apex_leaderboard.Storage.Client.{StorageError, run_all, exec_pipe}
use apex_leaderboard.Storage.Keys.{player_history_key}
use apex_leaderboard.Storage.Apply.Effect.{admits_zset}
use apex_leaderboard.Storage.Replay.Outcome.{calm}
use apex_leaderboard.Storage.Views.{stream_id_score, point_to, apply_player_history}

module _ (P : Platform) where
  abbrev key_of : Event → Text
  key_of e = player_history_key e.player_id e.board_id

  -- The id of an entry has an index score, as every id that Redis gives has.
  abbrev pub HasScore : Event → Type 0
  HasScore e = (x : P.Float) × (stream_id_score P e.id ≡ ok x)

  abbrev HoldsZsets : Server P → Type 0
  HoldsZsets s = (p b : Text) → Admits zset_key (P.kind (s.at (player_history_key p b)))

  -- The server after one ZADD, and after those of a batch.
  abbrev pointed : Event → P.Float → Server P → Server P
  pointed e x s = store (key_of e) (P.zadd x e.id (s.at (key_of e))) s

  abbrev indexed : (es : List Event) → All HasScore es → Server P → Server P
  indexed [] h s = s
  indexed (e ∷ es) ((x, h), hs) s = indexed es hs (pointed e x s)

  abbrev pointers : (es : List Event) → All HasScore es → List (Script P (Unit {0}))
  pointers [] h = []
  pointers (e ∷ es) ((x, h), hs) = point_to P e x ∷ pointers es hs

  abbrev units : List Event → List (Unit {0})
  units [] = []
  units (e ∷ es) = tt ∷ units es

  scored_pointers :
      (es : List Event) (h : All HasScore es)
      → map_result (λ e. bind_result (stream_id_score P e.id) λ x. ok (point_to P e x)) es
        ≡ ok (pointers es h)
  scored_pointers [] h = refl
  scored_pointers (e ∷ es) ((x, h), hs) = rw (h, scored_pointers es hs) refl

  module _ (L : PlatformLaws P) where
    open L use {zsets}

    HoldsZsets-pointed :
        (e : Event) (x : P.Float) (s : Server P) → HoldsZsets s → HoldsZsets (pointed e x s)
    HoldsZsets-pointed e x s h p b =
        if_either (λ v. Admits zset_key (P.kind v)) (text_eq (key_of e) (player_history_key p b))
          (inr (zsets.kind-zadd x e.id _)) (h p b)

    zscore-pointed :
        (e : Event) (x : P.Float) (s : Server P) (k m : Text)
        → HoldsZsets s
        → P.zscore m ((pointed e x s).at k) ≡ (
            if text_eq (key_of e) k
            then (if text_eq e.id m then some x else P.zscore m (s.at k))
            else P.zscore m (s.at k))
    zscore-pointed e x s k m h = elim (Bool-cases (text_eq (key_of e) k)) [
      | inl same ↦ rw same (
          zsets.zscore-zadd x e.id m (s.at (key_of e)) (h e.player_id e.board_id)
          ∙ rw (eq_of_text_eq (key_of e) k same) refl)
      | inr apart ↦ rw apart refl
    ]

    run_pointers :
        (es : List Event) (h : All HasScore es) (s : Server P)
        → HoldsZsets s
        → run_all (pointers es h) s ≡ (ok (units es), indexed es h s)
    run_pointers [] h s z = refl
    run_pointers (e ∷ es) ((x, h), hs) s z =
        rw
          (
            admits_zset _ (z e.player_id e.board_id),
            run_pointers es hs (pointed e x s) (HoldsZsets-pointed e x s z),
          )
          refl

    apply_lem :
        (es : List Event) (h : All HasScore es) (s : Server P)
        → HoldsZsets s
        → apply_player_history P es (calm s) ≡ (ok tt, calm (indexed es h s))
    unfolding apply_player_history
    apply_lem es h s z = rw (scored_pointers es h) (piped (pointers es h) (run_pointers es h s z))
      where
        piped :
            (ms : List (Script P (Unit {0})))
            → run_all ms s ≡ (ok (units es), indexed es h s)
            → (exec_pipe ms >>= λ _. pure tt) (calm s) ≡ (ok tt, calm (indexed es h s))
        piped [] k = ap (λ x. (ok tt, calm x.1)) k
        piped (m ∷ ms) k = rw k refl

    HoldsZsets-indexed :
        (es : List Event) (h : All HasScore es) (s : Server P)
        → HoldsZsets s
        → HoldsZsets (indexed es h s)
    HoldsZsets-indexed [] h s z = z
    HoldsZsets-indexed (e ∷ es) ((x, h), hs) s z =
        HoldsZsets-indexed es hs (pointed e x s) (HoldsZsets-pointed e x s z)

    -- A pointer that is there stays, since its score is its id's.
    pointed_keeps :
        (e : Event) (x : P.Float) (s : Server P) (k m : Text) (y : P.Float)
        → stream_id_score P e.id ≡ ok x
        → HoldsZsets s
        → stream_id_score P m ≡ ok y
        → P.zscore m (s.at k) ≡ some y
        → P.zscore m ((pointed e x s).at k) ≡ some y
    pointed_keeps e x s k m y hx z hy held =
        zscore-pointed e x s k m z
        ∙ if_either (λ o. o ≡ some y) (text_eq (key_of e) k)
            (elim (Bool-cases (text_eq e.id m)) [
              | inl same ↦ rw same (ap (λ a. some a) (same_score same))
              | inr apart ↦ rw apart held
            ])
            held
      where
        same_score : text_eq e.id m ≡ true → x ≡ y
        same_score same =
            let both_ok : ◌≡◌ {A = Result StorageError P.Float} (ok x) (ok y) =
              sym hx ∙ ap (stream_id_score P) (eq_of_text_eq e.id m same) ∙ hy in
            cc

    indexed_keeps :
        (es : List Event) (h : All HasScore es) (s : Server P) (k m : Text) (y : P.Float)
        → HoldsZsets s
        → stream_id_score P m ≡ ok y
        → P.zscore m (s.at k) ≡ some y
        → P.zscore m ((indexed es h s).at k) ≡ some y
    indexed_keeps [] h s k m y z hy held = held
    indexed_keeps (e ∷ es) ((x, h), hs) s k m y z hy held =
        indexed_keeps es hs (pointed e x s) k m y (HoldsZsets-pointed e x s z) hy
          (pointed_keeps e x s k m y h z hy held)

    abbrev Present : (es : List Event) → All HasScore es → Server P → Type 0
    Present [] h s = Unit
    Present (e ∷ es) ((x, h), hs) s = (P.zscore e.id (s.at (key_of e)) ≡ some x) × Present es hs s

    indexed-Present :
        (es : List Event) (h : All HasScore es) (s : Server P)
        → HoldsZsets s
        → Present es h (indexed es h s)
    indexed-Present [] h s z = tt
    indexed-Present (e ∷ es) ((x, h), hs) s z = (
      indexed_keeps es hs (pointed e x s) (key_of e) e.id x (HoldsZsets-pointed e x s z) h (
          zscore-pointed e x s (key_of e) e.id z
          ∙ rw (text_eq_refl (key_of e), text_eq_refl e.id) refl),
      indexed-Present es hs (pointed e x s) (HoldsZsets-pointed e x s z),
    )

    abbrev SameScores : Server P → Server P → Type 0
    SameScores s t = (k m : Text) → P.zscore m (t.at k) ≡ P.zscore m (s.at k)

    Present-SameScores :
        (es : List Event) (h : All HasScore es) (s t : Server P)
        → SameScores s t
        → Present es h s
        → Present es h t
    Present-SameScores [] h s t same p = tt
    Present-SameScores (e ∷ es) ((x, h), hs) s t same (p, ps) =
        (same (key_of e) e.id ∙ p, Present-SameScores es hs s t same ps)

    pointed-SameScores :
        (e : Event) (x : P.Float) (s : Server P)
        → HoldsZsets s
        → P.zscore e.id (s.at (key_of e)) ≡ some x
        → SameScores s (pointed e x s)
    pointed-SameScores e x s z held k m =
        zscore-pointed e x s k m z ∙ elim (Bool-cases (text_eq (key_of e) k)) [
          | inr apart ↦ rw apart refl
          | inl same ↦ elim (Bool-cases (text_eq e.id m)) [
            | inr other ↦ rw (same, other) refl
            | inl id ↦
                rw (same, id)
                  (sym held
                    ∙ ap (λ j. P.zscore j (s.at (key_of e))) (eq_of_text_eq e.id m id)
                    ∙ ap (λ j. P.zscore m (s.at j)) (eq_of_text_eq (key_of e) k same))
          ]
        ]

    indexed-SameScores :
        (es : List Event) (h : All HasScore es) (s : Server P)
        → HoldsZsets s
        → Present es h s
        → SameScores s (indexed es h s)
    indexed-SameScores [] h s z p k m = refl
    indexed-SameScores (e ∷ es) ((x, h), hs) s z (p, ps) k m =
        let same : SameScores s (pointed e x s) = pointed-SameScores e x s z p in
        indexed-SameScores es hs (pointed e x s) (HoldsZsets-pointed e x s z)
          (Present-SameScores es hs s (pointed e x s) same ps) k m
        ∙ same k m

    -- With every request delivered, a batch whose ids all have index scores is applied to the
    -- player history without an error, a second time too, and the second time leaves every score
    -- of every key as the first one left it, where the history keys are ZSETs or missing.
    pub apply_player_history-twice :
        (es : List Event) (s : Server P)
        → All HasScore es
        → ((p b : Text) → Admits zset_key (P.kind (s.at (player_history_key p b))))
        → (s1 : Server P) × (s2 : Server P) × (apply_player_history P es (calm s)
            ≡ (ok tt, calm s1))
          × (apply_player_history P es (calm s1) ≡ (ok tt, calm s2))
          × ((k m : Text) → P.zscore m (s2.at k) ≡ P.zscore m (s1.at k))
    apply_player_history-twice es s h z =
        let s1 : Server P = indexed es h s in
        let z1 : HoldsZsets s1 = HoldsZsets-indexed es h s z in
        (
          s1,
          indexed es h s1,
          apply_lem es h s z,
          apply_lem es h s1 z1,
          indexed-SameScores es h s1 z1 (indexed-Present es h s z),
        )
