-- ===== src/Storage/Apply/Retry.antt =====
-- Retries with an idempotency key.
use apex_leaderboard.Prelude.{
  [], ◌∷◌, ◌++◌, some, true, false, ◌&&◌, ◌≡◌, ◌≢◌, refl, ◌∙◌, ap, arith, if◌then◌else◌, Bool-cases,
  inl, inr, ◌⊎◌, All-append,
}
use apex_leaderboard.Prelude.Int.{ℤ}
use apex_leaderboard.Prelude.Text.{Text, text_eq, text_eq_refl, eq_of_text_eq, cut-append, Lacks}
use apex_leaderboard.Prelude.Exec.{ok}
use apex_leaderboard.Platform.{Platform, StreamId}
use apex_leaderboard.Platform.Laws.{PlatformLaws}
use apex_leaderboard.Redis.{Server}
use apex_leaderboard.Score.{IsScore, abs_of_score}
use apex_leaderboard.Ledger.{EventType, type_text}
use apex_leaderboard.Decimal.{format_int, format_nat}
use apex_leaderboard.Decimal.RoundTrip.{format_nat-Lacks, format_int-injective}
use apex_leaderboard.ApexTime.{format_stream_id}
use apex_leaderboard.Storage.Keys.{idempotency_hash_key, leaderboard_key, ledger_key}
use apex_leaderboard.Storage.Apply.{script_args}
use apex_leaderboard.Storage.Apply.Script.{
  dedupe_field, idempotency_record, split_record, seen_reply, apply_score_event, code_deduped,
  code_conflict,
}
use apex_leaderboard.Storage.Apply.Effect.{
  IsTyped, admits_hash, entry_id, projected, appended, committed, at-recorded_self,
}

pub format_stream_id-Lacks_bar : (i : StreamId) → Lacks b'|' (format_stream_id i)
unfolding format_stream_id
format_stream_id-Lacks_bar i =
    All-append _ (format_nat i.ms) (b'-' ∷ format_nat i.seq)
      (format_nat-Lacks b'|' i.ms (omega arith))
      (omega arith, format_nat-Lacks b'|' i.seq (omega arith))

type_text-Lacks_bar : (t : EventType) → Lacks b'|' (type_text t)
type_text-Lacks_bar EventType.set = omega arith
type_text-Lacks_bar EventType.increment = omega arith

module _ (type : EventType) (p b : Text) (n : ℤ) (req key : Text) where
  -- The script takes a record apart into what it was made of.
  pub split_record-idempotency_record :
      (id : Text)
      → Lacks b'|' id
      → split_record (idempotency_record id (script_args type p b n req key))
        ≡ some (id, type_text type, format_int n)
  unfolding split_record idempotency_record script_args
  split_record-idempotency_record id h = rw (
    cut-append b'|' id (type_text type ++ b'|' ∷ format_int n) h,
    split_record,
    cut-append b'|' (type_text type) (format_int n) (type_text-Lacks_bar type),
  )

-- The server remembers, under the client's key, the write that made entry `id`.
abbrev pub Remembers :
    (P : Platform) → Text → EventType → Text → Text → ℤ → Text → Text → Server P → Type 0
Remembers P id type p b n req key s =
    P.hget (dedupe_field (script_args type p b n req key)) (s.at idempotency_hash_key)
    ≡ some (idempotency_record id (script_args type p b n req key))

-- What a later write with the same board, player and key is answered.
abbrev pub replayed : Text → EventType → ℤ → EventType → ℤ → ℤ × Text
replayed id type n type' n' =
    if text_eq (type_text type) (type_text type') && text_eq (format_int n) (format_int n')
    then (code_deduped, id)
    else (code_conflict, [])

text_eq-nil_false : (s : Text) → s ≢ [] → text_eq s [] ≡ false
unfolding text_eq
text_eq-nil_false [] h = absurd (h refl)
text_eq-nil_false (c ∷ s) h = refl

seen_reply-record :
    (id : Text) (type type' : EventType) (p b : Text) (n n' : ℤ) (req req' key : Text)
    → Lacks b'|' id
    → seen_reply
        (script_args type' p b n' req' key)
        (idempotency_record id (script_args type p b n req key))
      ≡ ok (replayed id type n type' n')
unfolding seen_reply script_args
seen_reply-record id type type' p b n n' req req' key h =
    rw (split_record-idempotency_record type p b n req key id h, seen_reply) (ground arith)

module _ (P : Platform) (id : Text) (type : EventType) (p b : Text) (n : ℤ) (req key : Text)
    (s : Server P) (typed : IsTyped P s) (keyed : key ≢ []) (bare : Lacks b'|' id)
    (remembers : Remembers P id type p b n req key s) where
  pub script_replayed :
      (type' : EventType) (n' : ℤ) (req' : Text)
      → apply_score_event P (script_args type' p b n' req' key) s
        ≡ (ok (replayed id type n type' n'), s)
  unfolding apply_score_event script_args dedupe_field
  script_replayed type' n' req' = rw (
    text_eq-nil_false key keyed,
    admits_hash _ typed.idempotency_at,
    remembers,
    seen_reply-record id type type' p b n n' req req' key bare,
  )

type_text-injective : (t t' : EventType) → type_text t ≡ type_text t' → t ≡ t'
type_text-injective EventType.set EventType.set e = refl
type_text-injective EventType.set EventType.increment e = cc
type_text-injective EventType.increment EventType.set e = cc
type_text-injective EventType.increment EventType.increment e = refl

same_write :
    (type type' : EventType) (n n' : ℤ)
    → IsScore n
    → IsScore n'
    → (text_eq (type_text type) (type_text type') && text_eq (format_int n) (format_int n')) ≡ true
    → (type ≡ type') × (n ≡ n')
same_write type type' n n' hn hn' e =
    let both : (text_eq (type_text type) (type_text type') ≡ true)
        × (text_eq (format_int n) (format_int n') ≡ true) =
      ground arith in
    (
      type_text-injective type type' (eq_of_text_eq _ _ both.0),
      format_int-injective n n' (omega (arith, abs_of_score n hn))
          (omega (arith, abs_of_score n' hn')) (eq_of_text_eq _ _ both.1),
    )

-- Different writes are told apart by their records.
pub replayed_conflict :
    (id : Text) (type type' : EventType) (n n' : ℤ)
    → IsScore n
    → IsScore n'
    → (type ≢ type') ⊎ (n ≢ n')
    → replayed id type n type' n' ≡ (code_conflict, [])
replayed_conflict id type type' n n' hn hn' d =
    elim (Bool-cases
      (text_eq (type_text type) (type_text type') && text_eq (format_int n) (format_int n'))) [
        | inr e ↦ rw e
        | inl e ↦ absurd (apart (same_write type type' n n' hn hn' e) d)
      ]
  where
    apart : (type ≡ type') × (n ≡ n') → (type ≢ type') ⊎ (n ≢ n') → ⊥
    apart same (inl ne) = ne same.0
    apart same (inr ne) = ne same.1

pub replayed_same :
    (id : Text) (type : EventType) (n : ℤ) → replayed id type n type n ≡ (code_deduped, id)
replayed_same id type n = rw (text_eq_refl (type_text type), text_eq_refl (format_int n))

module _ (P : Platform) (L : PlatformLaws P) (type : EventType) (p b : Text) (n : ℤ)
    (req key : Text) (s : Server P) where
  open L use {hashes}

  -- A write with a key that went through is remembered, under the id that it answered.
  pub committed-Remembers :
      key ≢ []
      → IsTyped P s
      → Remembers P
          (entry_id P type p b n req key (projected P type p b n req key s))
          type
          p
          b
          n
          req
          key
          (committed P type p b n req key s)
  unfolding script_args text_eq idempotency_hash_key leaderboard_key ledger_key
  committed-Remembers keyed typed =
      ap (P.hget (dedupe_field (script_args type p b n req key))) (
        at-recorded_self P L type p b n req key
          (entry_id P type p b n req key (projected P type p b n req key s))
          (appended P type p b n req key (projected P type p b n req key s))
          (rw (text_eq-nil_false key keyed)))
      ∙ (hashes.hget-hexpire _ _ _ _
          ∙ (hashes.hget-hset _ _ _ _ typed.idempotency_at
              ∙ rw (text_eq_refl (dedupe_field (script_args type p b n req key)))))
