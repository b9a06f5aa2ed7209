-- ===== src/Storage/Admin/Repair.antt =====
-- A rebuild makes a consistent server of one that has lost a projection, and leaves one that has not.
use apex_leaderboard.Prelude.{◌≡◌, ◌≢◌, refl, ◌∙◌, ap, Bool-cases, inl, inr, ◌⊎◌, arith}
use mathlib.Core.Path.{subst}
use apex_leaderboard.Prelude.Text.{Text, text_eq, eq_of_text_eq}
use apex_leaderboard.Prelude.Exec.{ok, err}
use apex_leaderboard.Platform.{Platform, Kind, no_key, zset_key}
use apex_leaderboard.Platform.Laws.{PlatformLaws, Admits}
use apex_leaderboard.Storage.Client.{StorageError}
use apex_leaderboard.Redis.{Server, store}
use apex_leaderboard.Storage.Keys.{
  leaderboard_key, ledger_key, board_profile_key, idempotency_hash_key,
}
use apex_leaderboard.Storage.Keys.Distinct.{text_eq-leaderboard_ledger, text_eq-leaderboard_key}
use apex_leaderboard.Storage.Replay.{IsConsistent, as_float, ledger_score}
use apex_leaderboard.Storage.Replay.Outcome.{calm}
use apex_leaderboard.Storage.Admin.{rebuild_projection, require_board}
use apex_leaderboard.Storage.Admin.Rebuild.{IsApart, rebuild_projection_lem}

module _ (P : Platform) (b : Text) (s s' : Server P)
    (apart : IsApart P (leaderboard_key b) s s') where
  same_ledger : s'.at ledger_key ≡ s.at ledger_key
  same_ledger = apart ledger_key (text_eq-leaderboard_ledger b)

  same_board : (c : Text) → s'.at (board_profile_key c) ≡ s.at (board_profile_key c)
  unfolding text_eq leaderboard_key board_profile_key
  same_board c = apart (board_profile_key c) refl

  same_idempotency : s'.at idempotency_hash_key ≡ s.at idempotency_hash_key
  unfolding text_eq leaderboard_key idempotency_hash_key
  same_idempotency = apart idempotency_hash_key refl

  -- The one projection decides.
  projection-IsConsistent :
      IsConsistent P s
      → Admits zset_key (P.kind (s'.at (leaderboard_key b)))
      → ((p : Text) → P.zscore p (s'.at (leaderboard_key b)) ≡ as_float P (ledger_score P s b p))
      → IsConsistent P s'
  projection-IsConsistent h zset shows = record {
    typed = record {
      zset_at = λ c. elim (Bool-cases (text_eq b c)) [
        | inl e ↦
            subst (λ x. Admits zset_key (P.kind (s'.at (leaderboard_key x)))) (eq_of_text_eq b c e)
              zset
        | inr e ↦
            rw (apart (leaderboard_key c) (text_eq-leaderboard_key b c ∙ e)) (h.typed.zset_at c)
      ];
      stream_at = rw same_ledger h.typed.stream_at;
      idempotency_at = rw same_idempotency h.typed.idempotency_at;
      board_at = λ c. rw (same_board c) (h.typed.board_at c);
    };
    decodes = rw same_ledger h.decodes;
    scores = λ c p. rw same_ledger (elim (Bool-cases (text_eq b c)) [
      | inl e ↦
          subst (λ x. P.zscore p (s'.at (leaderboard_key x)) ≡ as_float P (ledger_score P s x p))
            (eq_of_text_eq b c e) (shows p)
      | inr e ↦ rw (apart (leaderboard_key c) (text_eq-leaderboard_key b c ∙ e)) (h.scores c p)
    ]);
    stays = λ c p. rw same_ledger (h.stays c p);
  }

module _ (P : Platform) (L : PlatformLaws P) (b : Text) (s : Server P) (h : IsConsistent P s) where
  rebuilt :
      (t : Server P)
      → IsApart P (leaderboard_key b) s t
      → P.kind (s.at (board_profile_key b)) ≢ no_key
      → (s' : Server P) × (rebuild_projection P b (calm t) ≡ (ok tt, calm s')) × IsConsistent P s'
  rebuilt t off exists =
      let ledger : t.at ledger_key ≡ s.at ledger_key = same_ledger P b s t off in
      let (s', run, shows, kind, rest) =
        rebuild_projection_lem P L b t (rw (same_board P b s t off b) exists)
          (rw ledger h.typed.stream_at) (rw ledger h.decodes) (λ p. rw ledger (h.stays b p)) in
      (
        s',
        run,
        projection-IsConsistent P b s s' (λ j n. rest j n ∙ off j n) h kind
            (λ p. shows p ∙ rw ledger refl),
      )

  rebuild_missing :
      P.kind (s.at (board_profile_key b)) ≡ no_key
      → rebuild_projection P b (calm s) ≡ (err StorageError.board_not_found, calm s)
  unfolding rebuild_projection require_board
  rebuild_missing e = rw e refl

  -- A rebuild with every request delivered leaves a consistent server consistent.
  pub rebuild_projection-keeps :
      (s' : Server P) × ((rebuild_projection P b (calm s)).1 ≡ calm s') × IsConsistent P s'
  rebuild_projection-keeps = elim (no_key? (P.kind (s.at (board_profile_key b)))) [
    | inl e ↦ (s, ap (λ r. r.1) (rebuild_missing e), h)
    | inr n ↦ let (s', run, sound) = rebuilt s (λ j n. refl) n in (s', ap (λ r. r.1) run, sound)
  ]
    where
      no_key? : (k : Kind) → (k ≡ no_key) ⊎ (k ≢ no_key)
      no_key? k = ground arith

-- If any value at all was stored at the projection of a board of a consistent server that exists,
-- the rebuild of that board succeeds, with every request delivered, and leaves a consistent
-- server.
pub rebuild_projection-IsConsistent :
    (P : Platform) (L : PlatformLaws P) (b : Text) (v : P.Value) (s : Server P)
    → P.kind (s.at (board_profile_key b)) ≢ no_key
    → IsConsistent P s
    → (s' : Server P) × (rebuild_projection P b (calm (store (leaderboard_key b) v s))
        ≡ (ok tt, calm s'))
      × IsConsistent P s'
rebuild_projection-IsConsistent P L b v s exists h =
    rebuilt P L b s h (store (leaderboard_key b) v s) (λ j n. rw n refl) exists
