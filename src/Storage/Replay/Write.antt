-- ===== src/Storage/Replay/Write.antt =====
-- A score write keeps every projection equal to the ledger's replay.
use apex_leaderboard.Prelude.{
  [], ◌∷◌, ◌++◌, Option, none, some, ◌&&◌, ◌≡◌, sym, refl, ◌∙◌, ap, if◌then◌else◌, arith,
  All-append, Bool-cases, inl, inr,
}
use mathlib.Core.Path.{subst}
use apex_leaderboard.Prelude.Int.{ℤ}
use apex_leaderboard.Prelude.Text.{Text, text_eq, text_eq_refl, eq_of_text_eq}
use apex_leaderboard.Platform.{Platform, zset_key}
use apex_leaderboard.Platform.Laws.{PlatformLaws, IsSmall, Admits, score_or_zero}
use apex_leaderboard.Redis.{Server}
use apex_leaderboard.Score.{IsScore, abs_of_score}
use apex_leaderboard.Ledger.{EventType}
use apex_leaderboard.Storage.Keys.{leaderboard_key, ledger_key, idempotency_hash_key}
use apex_leaderboard.Storage.Entry.Decode.{written, IsWritable, entry_to_event-written}
use apex_leaderboard.Storage.Apply.Effect.{
  scored, next_entry, committed, committed-IsTyped, at-committed,
}
use apex_leaderboard.Storage.Replay.{
  bounded, StaysInRange, StaysInRange-append, replay, total, next_score, replay-append, InRange,
  as_float, ledger_score, Decodes, IsConsistent,
}

module _ (P : Platform) (L : PlatformLaws P) (type : EventType) (p b : Text) (n : ℤ)
    (req key : Text) (writable : IsWritable P p b n req) (s : Server P) (h : IsConsistent P s) where
  open L use {floats, zsets, streams}

  -- the ledger afterwards
  xrange-committed :
      P.xrange ((committed P type p b n req key s).at ledger_key)
      ≡ P.xrange (s.at ledger_key)
        ++ written (next_entry P type p b n req key s).0 type p b n req key ∷ []
  unfolding text_eq leaderboard_key ledger_key idempotency_hash_key
  xrange-committed =
      ap P.xrange (at-committed P L type p b n req key s ledger_key refl)
      ∙ streams.xrange-xadd s.clock _ (s.at ledger_key) h.typed.stream_at

  pub ledger_score-committed :
      (c q : Text)
      → ledger_score P (committed P type p b n req key s) c q ≡ (
          if text_eq b c && text_eq p q
          then some (next_score type (ledger_score P s c q) n)
          else ledger_score P s c q)
  ledger_score-committed c q = rw (
    xrange-committed,
    replay-append P c q,
    entry_to_event-written P L (next_entry P type p b n req key s).0 type p b n req key writable,
  )

  zscore-committed :
      (c q : Text)
      → P.zscore q ((committed P type p b n req key s).at (leaderboard_key c)) ≡ (
          if text_eq b c
          then P.zscore q (scored P type p b n req key type (s.at (leaderboard_key b)))
          else P.zscore q (s.at (leaderboard_key c)))
  unfolding text_eq leaderboard_key ledger_key idempotency_hash_key
  zscore-committed c q =
      ap (P.zscore q) (at-committed P L type p b n req key s (leaderboard_key c) refl)
      ∙ elim (Bool-cases (text_eq b c)) [ inl e ↦ rw e | inr e ↦ rw e ]

-- ZADD or ZINCRBY on a projection that shows `old` for the player.
module _ (P : Platform) (L : PlatformLaws P) (p b : Text) (n : ℤ) (req key : Text) (q : Text)
    (v : P.Value) where
  open L use {floats, zsets}

  pub float_total :
      (old : Option ℤ)
      → P.zscore p v ≡ as_float P old
      → score_or_zero P (P.zscore p v) ≡ P.of_int (total old)
  float_total none e = rw e
  float_total (some c) e = rw e

  pub zscore-scored :
      (type : EventType) (old : Option ℤ)
      → Admits zset_key (P.kind v)
      → P.zscore p v ≡ as_float P old
      → IsSmall n
      → IsSmall (total old)
      → IsSmall (next_score type old n)
      → P.zscore q (scored P type p b n req key type v)
        ≡ (if text_eq p q then some (P.of_int (next_score type old n)) else P.zscore q v)
  zscore-scored EventType.set old a e hn ho hs = zsets.zscore-zadd (P.of_int n) p q v a
  zscore-scored EventType.increment old a e hn ho hs =
      zsets.zscore-zincrby (P.of_int n) p q v a
      ∙ rw (float_total old e, floats.float_add-of_int (total old) n ho hn hs)

pub IsSmall-total : (old : Option ℤ) → InRange old → IsSmall (total old)
IsSmall-total none h = omega arith
IsSmall-total (some c) h = omega (arith, abs_of_score c h)

module _ (P : Platform) (L : PlatformLaws P) (type : EventType) (p b : Text) (n : ℤ)
    (req key : Text) (writable : IsWritable P p b n req) (s : Server P) (h : IsConsistent P s)
    (fits : IsScore (next_score type (ledger_score P s b p) n)) where
  small : (v : ℤ) → IsScore v → IsSmall v
  small v k = omega (arith, abs_of_score v k)

  scores_same :
      (q : Text)
      → P.zscore q ((committed P type p b n req key s).at (leaderboard_key b))
        ≡ as_float P (ledger_score P (committed P type p b n req key s) b q)
  scores_same q =
      rw
        (
          zscore-committed P L type p b n req key writable s h b q,
          ledger_score-committed P L type p b n req key writable s h b q,
          text_eq_refl b,
        )
        (zscore-scored P L p b n req key q (s.at (leaderboard_key b)) type (ledger_score P s b p)
            (h.typed.zset_at b) (h.scores b p) (small n writable.score)
            (IsSmall-total (ledger_score P s b p) (bounded P s h b p)) (small _ fits)
          ∙ elim (Bool-cases (text_eq p q)) [
            | inl e ↦ rw e (
                ap (λ x. some (P.of_int (next_score type (ledger_score P s b x) n)))
                  (eq_of_text_eq p q e))
            | inr e ↦ rw e (h.scores b q)
          ])

  scores-committed :
      (c q : Text)
      → P.zscore q ((committed P type p b n req key s).at (leaderboard_key c))
        ≡ as_float P (ledger_score P (committed P type p b n req key s) c q)
  scores-committed c q = elim (Bool-cases (text_eq b c)) [
    | inl e ↦
        subst
          (λ x.
            P.zscore q ((committed P type p b n req key s).at (leaderboard_key x))
            ≡ as_float P (ledger_score P (committed P type p b n req key s) x q))
          (eq_of_text_eq b c e) (scores_same q)
    | inr e ↦
        rw
          (
            zscore-committed P L type p b n req key writable s h c q,
            ledger_score-committed P L type p b n req key writable s h c q,
            e,
          )
          (h.scores c q)
  ]

  bounded-committed : (c q : Text) → InRange (ledger_score P (committed P type p b n req key s) c q)
  bounded-committed c q =
      rw (ledger_score-committed P L type p b n req key writable s h c q)
        (elim (Bool-cases (text_eq b c)) [
          | inr e ↦ rw e (bounded P s h c q)
          | inl e ↦ elim (Bool-cases (text_eq p q)) [
            | inr e' ↦ rw (e, e') (bounded P s h c q)
            | inl e' ↦ rw (e, e') (rw (← eq_of_text_eq b c e, ← eq_of_text_eq p q e') fits)
          ]
        ])

  stays-committed :
      (c q : Text)
      → StaysInRange P c q none (P.xrange ((committed P type p b n req key s).at ledger_key))
  stays-committed c q =
      subst (StaysInRange P c q none) (sym (xrange-committed P L type p b n req key writable s h)) (
        StaysInRange-append P c q none (P.xrange (s.at ledger_key)) _ (h.stays c q) (
          subst (λ l. InRange (replay P c q none l))
            (xrange-committed P L type p b n req key writable s h) (bounded-committed c q)))

  -- The writing part of the script keeps the server consistent.
  pub committed-IsConsistent : IsConsistent P (committed P type p b n req key s)
  committed-IsConsistent = record {
    typed = committed-IsTyped P L type p b n req key s h.typed;
    decodes = rw (xrange-committed P L type p b n req key writable s h) (
        All-append (Decodes P) _ _ h.decodes
          ((_, entry_to_event-written P L _ type p b n req key writable), tt));
    scores = scores-committed;
    stays = λ c q. stays-committed c q;
  }
