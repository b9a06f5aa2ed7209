-- ===== src/Handlers/Scores/Writes.antt =====
-- The write handlers let through only what the write path relies on.
use apex_leaderboard.Prelude.{[], ◌∷◌, Option, none, some, true, ◌≡◌, ◌≢◌, ap, arith}
use apex_leaderboard.Prelude.Int.{ℤ}
use apex_leaderboard.Prelude.Text.{Text, text_eq}
use apex_leaderboard.Prelude.Exec.{ok, lift_cases}
use apex_leaderboard.Platform.{Platform}
use apex_leaderboard.Platform.Laws.{PlatformLaws}
use apex_leaderboard.Score.{IsScore, validate_iff}
use apex_leaderboard.Ledger.{EventType}
use apex_leaderboard.Storage.Client.{World, Store}
use apex_leaderboard.Storage.Entry.Decode.{IsWritable}
use apex_leaderboard.Storage.Apply.{set_score, increment_score}
use apex_leaderboard.Storage.Replay.{IsConsistent}
use apex_leaderboard.Storage.Replay.Apply.{IsFriendly, apply_event-IsConsistent}
use apex_leaderboard.Handlers.Common.{
  read_idempotency_key, request_id, board_id_from_path, player_id_from_path, read_json,
}
use apex_leaderboard.Handlers.Scores.{
  WriteReq, amount_of, handle_write, handle_set_score, handle_increment_score,
}

amount_of-IsScore : (o : Option ℤ) (n : ℤ) → amount_of o ≡ ok n → IsScore n
unfolding amount_of
amount_of-IsScore none n h = cc
amount_of-IsScore (some m) n h = (validate_iff n).0 (ground arith)

request_id-ne-nil : (c f : Text) → f ≢ [] → request_id c f ≢ []
unfolding request_id text_eq
request_id-ne-nil [] f h = h
request_id-ne-nil (x ∷ c) f h = ground arith

module _ (P : Platform) (L : PlatformLaws P) where
  open L use {names}

  player_from_path :
      (raw p : Text) → player_id_from_path P raw ≡ ok p → (P.uuid_valid p ≡ true) × (p ≢ [])
  unfolding player_id_from_path
  player_from_path raw p h =
      let valid : P.uuid_valid p ≡ true = ground arith in
      (valid, λ e. cc (names.uuid-nil, valid, ap P.uuid_valid e))

  board_from_path : (raw b : Text) → board_id_from_path P raw ≡ ok b → b ≢ []
  unfolding board_id_from_path
  board_from_path raw b h e =
      let valid : P.board_id_valid b ≡ true = ground arith in
      cc (names.board_id-nil, valid, ap P.board_id_valid e)

  -- What a write may rely on behind the checks of its handler.
  pub IsWritable-from :
      (req : WriteReq) (n : ℤ)
      → req.fresh_id ≢ []
      → board_id_from_path P req.board_id ≡ ok req.board_id
      → player_id_from_path P req.player_id ≡ ok req.player_id
      → IsScore n
      → IsWritable P req.player_id req.board_id n (request_id req.context_id req.fresh_id)
  IsWritable-from req n fresh eb ep score = record {
    player = (player_from_path req.player_id req.player_id ep).0;
    player_ne = (player_from_path req.player_id req.player_id ep).1;
    board_ne = board_from_path req.board_id req.board_id eb;
    req_ne = request_id-ne-nil req.context_id req.fresh_id fresh;
    score = score;
  }

  -- A storage write that keeps a property for writable arguments keeps it behind its handler.
  handle_write_keeps :
      (Q : World P → Type 0) (write : Text → Text → ℤ → Text → Text → Store P (Unit {0}))
      (req : WriteReq) (w : World P)
      → req.fresh_id ≢ []
      → Q w
      → ((p b : Text) (n : ℤ) (r key : Text) → IsWritable P p b n r → Q (write p b n r key w).1)
      → Q (handle_write P write req w).1
  handle_write_keeps Q write req w fresh h keeps =
      lift_cases Q (board_id_from_path P req.board_id) _ w h λ b eb.
        lift_cases Q (player_id_from_path P req.player_id) _ w h λ p ep.
          lift_cases Q (read_idempotency_key req.idempotency_key) _ w h λ key ek.
            lift_cases Q (read_json req.body) _ w h λ body ebody.
              lift_cases Q (amount_of body) _ w h λ n en.
                keeps p b n (request_id req.context_id req.fresh_id) key (record {
                  player = (player_from_path req.player_id p ep).0;
                  player_ne = (player_from_path req.player_id p ep).1;
                  board_ne = board_from_path req.board_id b eb;
                  req_ne = request_id-ne-nil req.context_id req.fresh_id fresh;
                  score = amount_of-IsScore body n en;
                })

  -- Whatever request HandleSetScore or HandleIncrementScore is sent, with whatever path values,
  -- key and body, it leaves a consistent server consistent, whatever becomes of the connection,
  -- where others do so too and a fresh request id is not empty.
  pub handle_write-IsConsistent :
      (req : WriteReq) (w : World P)
      → req.fresh_id ≢ []
      → IsFriendly P w.link
      → IsConsistent P w.server
      → IsConsistent P (handle_set_score P req w).1.server
        × IsConsistent P (handle_increment_score P req w).1.server
  unfolding handle_set_score handle_increment_score
  handle_write-IsConsistent req w fresh friendly h = (
    handle_write_keeps (λ x. IsConsistent P x.server) (set_score P) req w fresh h
        (λ p b n r key writable.
          unfold set_score in
          apply_event-IsConsistent P L EventType.set p b n r key w writable friendly h),
    handle_write_keeps (λ x. IsConsistent P x.server) (increment_score P) req w fresh h
        (λ p b n r key writable.
          unfold increment_score in
          apply_event-IsConsistent P L EventType.increment p b n r key w writable friendly h),
  )
