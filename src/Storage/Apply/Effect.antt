-- ===== src/Storage/Apply/Effect.antt =====
-- What a write that is not turned away does, on a server whose keys hold the right types.
use apex_leaderboard.Prelude.{
  true, false, ◌≡◌, refl, arith, if◌then◌else◌, Bool-cases, if_either, ◌∙◌, inl, inr,
}
use apex_leaderboard.Prelude.Int.{ℤ}
use apex_leaderboard.Prelude.Text.{Text, text_eq, text_eq_refl}
use apex_leaderboard.Prelude.Exec.{ok}
use apex_leaderboard.Platform.{Platform, StreamId, Kind, hash_key, zset_key, stream_key}
use apex_leaderboard.Platform.Laws.{PlatformLaws, Admits, IsSmall}
use apex_leaderboard.Redis.{Server, admits, store}
use apex_leaderboard.Ledger.{EventType}
use apex_leaderboard.Score.{IsScore, abs_of_score}
use apex_leaderboard.ApexTime.{format_stream_id}
use apex_leaderboard.Storage.Keys.{
  leaderboard_key, ledger_key, idempotency_hash_key, board_profile_key,
}
use apex_leaderboard.Storage.Apply.Script.{
  Args, have_key, dedupe_field, idempotency_record, event_fields, write_projection, append_event,
  record_key, commit, code_applied,
}
use apex_leaderboard.Storage.Apply.{script_args}

-- Each key that a write uses holds its type, or nothing yet.
pub record IsTyped (P : Platform) (s : Server P) : Type 0 where
  pub zset_at : (b : Text) → Admits zset_key (P.kind (s.at (leaderboard_key b)))
  pub stream_at : Admits stream_key (P.kind (s.at ledger_key))
  pub idempotency_at : Admits hash_key (P.kind (s.at idempotency_hash_key))
  pub board_at : (b : Text) → Admits hash_key (P.kind (s.at (board_profile_key b)))

pub admits_zset : (k : Kind) → Admits zset_key k → admits zset_key k ≡ true
admits_zset k h = ground arith

pub admits_hash : (k : Kind) → Admits hash_key k → admits hash_key k ≡ true
admits_hash k h = ground arith

pub admits_stream : (k : Kind) → Admits stream_key k → admits stream_key k ≡ true
admits_stream k h = ground arith

module _ (P : Platform) (type : EventType) (p b : Text) (n : ℤ) (req key : Text) where
  abbrev pub args : Args
  args = script_args type p b n req key

  -- ZADD or ZINCRBY on the board's projection
  abbrev pub scored : EventType → P.Value → P.Value
  scored EventType.set v = P.zadd (P.of_int n) p v
  scored EventType.increment v = P.zincrby (P.of_int n) p v

  abbrev pub projected : Server P → Server P
  projected s = store (leaderboard_key b) (scored type (s.at (leaderboard_key b))) s

  -- XADD on the ledger
  abbrev pub next_entry : Server P → StreamId × P.Value
  next_entry s = P.xadd s.clock (event_fields args) (s.at ledger_key)

  abbrev pub appended : Server P → Server P
  appended s = store ledger_key (next_entry s).1 s

  abbrev pub entry_id : Server P → Text
  entry_id s = format_stream_id (next_entry s).0

  -- HSET and HEXPIRE of the idempotency record
  abbrev pub recorded : Text → Server P → Server P
  recorded id s =
      if have_key args
      then (let s' : Server P =
            store idempotency_hash_key
              (P.hset (dedupe_field args) (idempotency_record id args) (s.at idempotency_hash_key))
              s in
          store idempotency_hash_key
            (P.hexpire 86400 (dedupe_field args) (s'.at idempotency_hash_key)) s')
      else s

  abbrev pub committed : Server P → Server P
  committed s = recorded (entry_id (projected s)) (appended (projected s))

pub write_projection_effect :
    (P : Platform) (L : PlatformLaws P) (type : EventType) (p b : Text) (n : ℤ) (req key : Text)
    → IsScore n
    → (s : Server P) → Admits zset_key (P.kind (s.at (leaderboard_key b)))
    → write_projection P (args P type p b n req key) s ≡ (ok tt, projected P type p b n req key s)
unfolding write_projection script_args text_eq
write_projection_effect P L type p b n req key score s zset =
    let small : IsSmall n = omega (arith, abs_of_score n score) in
    ground (arith, L.floats.score_of-format_int n small, admits_zset _ zset)

module _ (P : Platform) (L : PlatformLaws P) (type : EventType) (p b : Text) (n : ℤ)
    (req key : Text) (score : IsScore n) (s : Server P) (typed : IsTyped P s) where
  open L use {hashes}

  append_event_effect :
      append_event P (args P type p b n req key) s
      ≡ (ok (entry_id P type p b n req key s), appended P type p b n req key s)
  unfolding append_event script_args
  append_event_effect = rw (admits_stream _ typed.stream_at)

  record_key_effect :
      (id : Text)
      → record_key P (args P type p b n req key) id s ≡ (ok tt, recorded P type p b n req key id s)
  unfolding record_key script_args text_eq
  record_key_effect id = ground (
    arith,
    admits_hash _ typed.idempotency_at,
    hashes.kind-hset (dedupe_field (args P type p b n req key))
        (idempotency_record id (args P type p b n req key)) (s.at idempotency_hash_key),
  )

module _ (P : Platform) (L : PlatformLaws P) (type : EventType) (p b : Text) (n : ℤ)
    (req key : Text) where
  open L use {zsets, streams, hashes}

  kind-scored : (t : EventType) (v : P.Value) → P.kind (scored P type p b n req key t v) ≡ zset_key
  kind-scored EventType.set v = zsets.kind-zadd (P.of_int n) p v
  kind-scored EventType.increment v = zsets.kind-zincrby (P.of_int n) p v

  projected-IsTyped : (s : Server P) → IsTyped P s → IsTyped P (projected P type p b n req key s)
  unfolding leaderboard_key ledger_key idempotency_hash_key board_profile_key text_eq
  projected-IsTyped s h = record {
    zset_at = λ c. elim (Bool-cases (text_eq b c)) [
      | inl e ↦ rw e (inr (kind-scored type _))
      | inr e ↦ rw e (h.zset_at c)
    ];
    stream_at = h.stream_at;
    idempotency_at = h.idempotency_at;
    board_at = h.board_at;
  }

  appended-IsTyped : (s : Server P) → IsTyped P s → IsTyped P (appended P type p b n req key s)
  unfolding leaderboard_key ledger_key idempotency_hash_key board_profile_key text_eq
  appended-IsTyped s h = record {
    zset_at = h.zset_at;
    stream_at = inr (streams.kind-xadd s.clock _ (s.at ledger_key));
    idempotency_at = h.idempotency_at;
    board_at = h.board_at;
  }

  recorded-IsTyped :
      (id : Text) (s : Server P) → IsTyped P s → IsTyped P (recorded P type p b n req key id s)
  unfolding leaderboard_key ledger_key idempotency_hash_key board_profile_key text_eq
  recorded-IsTyped id s h =
      if_either (IsTyped P) (have_key (args P type p b n req key))
        (record {
          zset_at = h.zset_at;
          stream_at = h.stream_at;
          idempotency_at = inr (hashes.kind-hexpire _ _ _ ∙ hashes.kind-hset _ _ _);
          board_at = h.board_at;
        })
        h

  pub committed-IsTyped :
      (s : Server P) → IsTyped P s → IsTyped P (committed P type p b n req key s)
  committed-IsTyped s h = recorded-IsTyped _ _ (appended-IsTyped _ (projected-IsTyped s h))

  -- The writing part of the script, as one step.
  pub commit_effect :
      (s : Server P)
      → IsScore n
      → IsTyped P s
      → commit P (args P type p b n req key) s ≡ (
        ok (code_applied, entry_id P type p b n req key (projected P type p b n req key s)),
        committed P type p b n req key s,
      )
  unfolding commit
  commit_effect s score h = rw (
    write_projection_effect P L type p b n req key score s (h.zset_at b),
    append_event_effect P L type p b n req key score _ (projected-IsTyped s h),
    record_key_effect P L type p b n req key score _ (appended-IsTyped _ (projected-IsTyped s h))
        (entry_id P type p b n req key (projected P type p b n req key s)),
  )

  -- The idempotency record changes no other key.
  at-recorded :
      (id : Text) (s : Server P) (k : Text)
      → text_eq idempotency_hash_key k ≡ false
      → (recorded P type p b n req key id s).at k ≡ s.at k
  at-recorded id s k h =
      if_either (λ (s' : Server P). s'.at k ≡ s.at k) (have_key (args P type p b n req key)) (rw h)
        refl

  pub at-committed :
      (s : Server P) (k : Text)
      → text_eq idempotency_hash_key k ≡ false
      → (committed P type p b n req key s).at k
        ≡ (appended P type p b n req key (projected P type p b n req key s)).at k
  at-committed s k h =
      at-recorded (entry_id P type p b n req key (projected P type p b n req key s))
        (appended P type p b n req key (projected P type p b n req key s)) k h

  pub at-recorded_self :
      (id : Text) (s : Server P)
      → have_key (args P type p b n req key) ≡ true
      → (recorded P type p b n req key id s).at idempotency_hash_key
        ≡ P.hexpire 86400 (dedupe_field (args P type p b n req key)) (
            P.hset
              (dedupe_field (args P type p b n req key))
              (idempotency_record id (args P type p b n req key))
              (s.at idempotency_hash_key))
  at-recorded_self id s h = rw (h, text_eq_refl idempotency_hash_key)
