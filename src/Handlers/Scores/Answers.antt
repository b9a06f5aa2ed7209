-- ===== src/Handlers/Scores/Answers.antt =====
-- What the handlers for one score answer on a consistent server.
use apex_leaderboard.Prelude.{
  ℕ, suc, ◌≤◌, ◌≢◌, [], none, some, Bool, true, false, ◌≡◌, refl, sym, ap, ◌∙◌, arith, ◌&&◌,
  Bool-cases, inl, inr, ◌↔◌,
}
use mathlib.Core.Path.{subst}
use apex_leaderboard.Prelude.Int.{ℤ, pos}
use apex_leaderboard.Prelude.Text.{Text, codes, text_eq_refl}
use apex_leaderboard.Prelude.Exec.{Result, ok, err}
use apex_leaderboard.Platform.{Platform}
use apex_leaderboard.Platform.Laws.{PlatformLaws}
use apex_leaderboard.Redis.{Server}
use apex_leaderboard.Score.{IsScore, validate, validate_iff}
use apex_leaderboard.Ledger.{EventType}
use apex_leaderboard.Storage.Client.{StorageError, World}
use apex_leaderboard.Storage.Keys.{player_profile_key, board_profile_key}
use apex_leaderboard.Storage.Entry.Decode.{IsWritable}
use apex_leaderboard.Storage.Apply.{set_score, apply_event}
use apex_leaderboard.Storage.Apply.Script.{is_closed}
use apex_leaderboard.Storage.Standings.{get_standing}
use apex_leaderboard.Storage.Standings.Exact.{Shows}
use apex_leaderboard.Storage.Replay.{IsConsistent}
use apex_leaderboard.Storage.Replay.Outcome.{calm, verdict, is_missing, apply_event-verdict}
use apex_leaderboard.Storage.Replay.Standing.{score_after, apply_event-get_standing}
use apex_leaderboard.Handlers.Common.{
  Status, bad_request, with_status, request_id, board_id_from_path, player_id_from_path,
  read_idempotency_key, from_storage,
}
use apex_leaderboard.Handlers.Scores.{
  WriteReq, RankResp, amount_of, handle_set_score, handle_get_rank,
}
use apex_leaderboard.Handlers.Scores.Writes.{IsWritable-from}

module _ (P : Platform) (req : WriteReq) (n : ℤ) where
  -- The checks of a request that carries `n` and no idempotency key.
  abbrev pub passes : Bool
  passes = P.board_id_valid req.board_id && P.uuid_valid req.player_id && validate n

  module _ (unkeyed : req.idempotency_key ≡ none) (carries : req.body ≡ ok (some n))
      (w : World P) where
    refused : passes ≡ false → (handle_set_score P req w).0 ≡ err bad_request
    unfolding handle_set_score board_id_from_path player_id_from_path amount_of read_idempotency_key
    refused h = rw (unkeyed, carries) (ground arith)

    passed :
        passes ≡ true
        → handle_set_score P req w
          ≡ from_storage
              (set_score P req.player_id req.board_id n (request_id req.context_id req.fresh_id) [])
              w
    unfolding handle_set_score board_id_from_path player_id_from_path amount_of read_idempotency_key
    passed h = rw (unkeyed, carries) (ground arith)

module _ (P : Platform) (req : WriteReq) (s : Server P) where
  -- The player and the board are there, and the board is open.
  abbrev pub IsOpenFor : Type 0
  IsOpenFor =
      (is_missing P (s.at (player_profile_key req.player_id)) ≡ false)
      × (is_missing P (s.at (board_profile_key req.board_id)) ≡ false)
      × (is_closed P (P.hget (codes "board_state") (s.at (board_profile_key req.board_id))) ≡ false)

module _ (req : WriteReq) (n : ℤ) where
  -- What HandleGetRank answers to a client.
  abbrev pub Ranks : Result Status RankResp → Type 0
  Ranks r =
      (rank total : ℕ) × (r
        ≡ ok (record {
          standing = record { player_id = req.player_id; score = n; rank = pos (suc rank) };
          total = total;
        }))
      × (suc rank ≤ total)

module _ (P : Platform) (L : PlatformLaws P) (req : WriteReq) (n : ℤ) (s : Server P)
    (unkeyed : req.idempotency_key ≡ none) (carries : req.body ≡ ok (some n)) where
  abbrev id : Text
  id = request_id req.context_id req.fresh_id

  score_of_passes : passes P req n ≡ true → IsScore n
  score_of_passes h = (validate_iff n).0 (ground arith)

  -- The answer behind the checks.
  answered_by :
      passes P req n ≡ true
      → IsConsistent P s
      → (handle_set_score P req (calm s)).0
        ≡ with_status (verdict P s EventType.set req.player_id req.board_id n)
  unfolding set_score
  answered_by h consistent =
      ap (λ x. x.0) (passed P req n unkeyed carries (calm s) h)
      ∙ ap with_status (
          apply_event-verdict P L EventType.set req.player_id req.board_id n id s
            (score_of_passes h) consistent)

  verdict_iff :
      IsScore n
      → (with_status (verdict P s EventType.set req.player_id req.board_id n) ≡ ok tt)
        ↔ IsOpenFor P req s
  verdict_iff score =
      let valid : validate n ≡ true = (validate_iff n).1 score in
      (λ h. ground arith, λ h. ground arith)

  -- On a consistent server, with the request delivered, HandleSetScore without an idempotency key
  -- and with a well-formed body that carries an amount answers 204 exactly if the board id and the
  -- player id are valid, the amount is a score, the player and the board exist, and the board is
  -- open.
  pub handle_set_score_iff :
      IsConsistent P s
      → ((handle_set_score P req (calm s)).0 ≡ ok tt)
        ↔ ((passes P req n ≡ true) × IsOpenFor P req s)
  handle_set_score_iff consistent = elim (Bool-cases (passes P req n)) [
    | inl h ↦ (
      λ e. (h, (verdict_iff (score_of_passes h)).0 (sym (answered_by h consistent) ∙ e)),
      λ k. answered_by h consistent ∙ (verdict_iff (score_of_passes h)).1 k.1,
    )
    | inr h ↦ (
      λ e. absurd (cc (refused P req n unkeyed carries (calm s) h, e)),
      λ k. absurd (cc (h, k.0)),
    )
  ]

  get_rank_passed :
      passes P req n ≡ true
      → (w : World P) → Shows req.player_id (some n) (get_standing P req.player_id req.board_id w).0
      → Ranks req n (handle_get_rank P req.board_id req.player_id w).0
  unfolding handle_get_rank board_id_from_path player_id_from_path
  get_rank_passed h w (rank, total, e, le) =
      let board : P.board_id_valid req.board_id ≡ true = ground arith in
      let player : P.uuid_valid req.player_id ≡ true = ground arith in
      (rank, total, rw (board, player, e) refl, le)

  with_status-ok : (r : Result StorageError (Unit {0})) → with_status r ≡ ok tt → r ≡ ok tt
  with_status-ok (ok u) h = refl
  with_status-ok (err e) h = absurd (cc)

  abbrev stored : Result StorageError (Unit {0}) × World P
  stored = apply_event P EventType.set req.player_id req.board_id n id [] (calm s)

  -- GetStanding after the storage's write.
  shown :
      IsWritable P req.player_id req.board_id n id
      → IsConsistent P s
      → stored.0 ≡ ok tt
      → Shows req.player_id (some n) (get_standing P req.player_id req.board_id stored.1).0
  shown writable consistent done =
      subst (λ o. Shows req.player_id o (get_standing P req.player_id req.board_id stored.1).0)
        new_score
        (apply_event-get_standing P L EventType.set req.player_id req.board_id n id s writable
          consistent req.board_id req.player_id)
    where
      new_score :
          score_after P s EventType.set req.player_id req.board_id n stored.0 req.board_id
            req.player_id
          ≡ some n
      new_score = rw (done, text_eq_refl req.board_id, text_eq_refl req.player_id) refl

  -- On a consistent server, with every request delivered, after HandleSetScore answered 204 to a
  -- request without an idempotency key whose body carries an amount, HandleGetRank for the same
  -- player and board answers that amount as the score, with a rank between one and the total,
  -- where the fresh request id is not empty.
  pub handle_get_rank-handle_set_score :
      req.fresh_id ≢ []
      → IsConsistent P s
      → (handle_set_score P req (calm s)).0 ≡ ok tt
      → Ranks req n
          (handle_get_rank P req.board_id req.player_id (handle_set_score P req (calm s)).1).0
  unfolding set_score board_id_from_path player_id_from_path
  handle_get_rank-handle_set_score fresh consistent done =
      let h = ((handle_set_score_iff consistent).0 done).0 in
      let same = passed P req n unkeyed carries (calm s) h in
      get_rank_passed h (handle_set_score P req (calm s)).1 (
        subst (λ x. Shows req.player_id (some n) (get_standing P req.player_id req.board_id x.1).0)
          (sym same)
          (shown (writable h) consistent
            (with_status-ok stored.0 (sym (ap (λ x. x.0) same) ∙ done))))
    where
      writable : passes P req n ≡ true → IsWritable P req.player_id req.board_id n id
      writable h =
          let board : P.board_id_valid req.board_id ≡ true = ground arith in
          let player : P.uuid_valid req.player_id ≡ true = ground arith in
          IsWritable-from P L req n fresh (rw (board, board_id_from_path))
            (rw (player, player_id_from_path)) (score_of_passes h)
