-- ===== src/Consumer/Counts.antt =====
-- What the daily activity shows of some events, and of one event more.
use apex_leaderboard.Prelude.{
  ℕ, zero, suc, ◌+◌, ◌≤◌, ◌^◌, List, [], ◌∷◌, ◌++◌, Option, none, some, false, ◌&&◌, ◌≡◌, ap, ◌∙◌,
  arith, length, length-append, if◌then◌else◌, Bool-cases, inl, inr,
}
use mathlib.Core.Path.{subst}
use apex_leaderboard.Prelude.Int.{pos, ◌+ℤ◌}
use apex_leaderboard.Prelude.Text.{Text, text_eq, text_eq_refl, eq_of_text_eq}
use apex_leaderboard.Platform.{Platform, zset_key}
use apex_leaderboard.Platform.Laws.{PlatformLaws, Admits, score_or_zero}
use apex_leaderboard.Redis.{Server}
use apex_leaderboard.Ledger.{Event}
use apex_leaderboard.Storage.Keys.{activity_daily_key}
use apex_leaderboard.Consumer.Views.{daily_ttl}

module _ (P : Platform) where
  abbrev pub day : Event → Text
  day e = P.format_date e.created_at

  -- The events of a player on a day.
  abbrev pub tally : Text → Text → List Event → ℕ
  tally d p [] = 0
  tally d p (e ∷ es) = (if text_eq (day e) d && text_eq e.player_id p then 1 else 0) + tally d p es

  abbrev pub tally_score : ℕ → Option P.Float
  tally_score zero = none
  tally_score (suc n) = some (P.of_int (pos (suc n)))

  -- What the view shows of some events.
  pub record IsCounted (es : List Event) (s : Server P) : Type 0 where
    pub zsets_at : (d : Text) → Admits zset_key (P.kind (s.at (activity_daily_key d)))
    pub counts :
        length es ≤ 2 ^ 53
        → (d p : Text) → P.zscore p (s.at (activity_daily_key d)) ≡ tally_score (tally d p es)

  tally-append :
      (d p : Text) (xs : List Event) (e : Event)
      → tally d p (xs ++ e ∷ [])
        ≡ (if text_eq (day e) d && text_eq e.player_id p then suc (tally d p xs) else tally d p xs)
  tally-append d p [] e = ground arith
  tally-append d p (x ∷ xs) e = ground (arith, tally-append d p xs e)

  tally_bound : (d p : Text) (es : List Event) → tally d p es ≤ length es
  tally_bound d p [] = ground arith
  tally_bound d p (e ∷ es) = ground (arith, tally_bound d p es)

  module _ (L : PlatformLaws P) where
    open L use {zsets, floats, hashes}

    tally_next :
        (n : ℕ)
        → suc n ≤ 2 ^ 53
        → P.float_add (score_or_zero P (tally_score n)) (P.of_int (pos 1)) ≡ P.of_int (pos (suc n))
    unfolding ◌+ℤ◌
    tally_next zero h =
        floats.float_add-of_int (pos 0) (pos 1) (ground arith) (ground arith) (ground arith)
    tally_next (suc n) h =
        floats.float_add-of_int (pos (suc n)) (pos 1) (ground arith) (ground arith) (ground arith)
        ∙ ap P.of_int (ground arith)

    abbrev pub held : Event → Server P → P.Value
    held e s = s.at (activity_daily_key (day e))

    -- The two commands for an event.
    abbrev pub ticked : Event → P.Value → P.Value
    ticked e v = P.expire daily_ttl (P.zincrby (P.of_int (pos 1)) e.player_id v)

    kind-ticked : (e : Event) (v : P.Value) → P.kind (ticked e v) ≡ zset_key
    kind-ticked e v = zsets.kind-expire _ _ ∙ zsets.kind-zincrby _ _ v

    -- A server on which one event more was counted.
    pub record IsTicked (e : Event) (s s' : Server P) : Type 0 where
      pub here : s'.at (activity_daily_key (day e)) ≡ ticked e (held e s)
      pub others :
          (d : Text)
          → text_eq (day e) d ≡ false
          → s'.at (activity_daily_key d) ≡ s.at (activity_daily_key d)

    module _ (es : List Event) (e : Event) (s s' : Server P) (h : IsCounted es s)
        (t : IsTicked e s s') where
      counts_here :
          length (es ++ e ∷ []) ≤ 2 ^ 53
          → (p : Text)
          → P.zscore p (s'.at (activity_daily_key (day e)))
            ≡ tally_score (tally (day e) p (es ++ e ∷ []))
      counts_here le p =
          let small : suc (tally (day e) e.player_id es) ≤ 2 ^ 53 =
            omega (arith, tally_bound (day e) e.player_id es, length-append es (e ∷ []), le) in
          let before : (q : Text) → P.zscore q (held e s) ≡ tally_score (tally (day e) q es) =
            h.counts (omega (arith, length-append es (e ∷ []), le)) (day e) in
          ap (P.zscore p) t.here
          ∙ zsets.zscore-expire _ p _
          ∙ zsets.zscore-zincrby (P.of_int (pos 1)) e.player_id p (held e s) (h.zsets_at (day e))
          ∙ elim (Bool-cases (text_eq e.player_id p)) [
            | inl k ↦
                rw (tally-append (day e) p es e, text_eq_refl (day e), k, before e.player_id)
                  (ap (λ x. some x) (tally_next (tally (day e) e.player_id es) small)
                    ∙ ap (λ q. tally_score (suc (tally (day e) q es)))
                        (eq_of_text_eq e.player_id p k))
            | inr k ↦ rw (tally-append (day e) p es e, text_eq_refl (day e), k) (before p)
          ]

      pub IsCounted-next : IsCounted (es ++ e ∷ []) s'
      IsCounted-next = record {
        zsets_at = λ d. elim (Bool-cases (text_eq (day e) d)) [
          | inl k ↦
              subst (λ x. Admits zset_key (P.kind (s'.at (activity_daily_key x))))
                (eq_of_text_eq (day e) d k) (inr (ap P.kind t.here ∙ kind-ticked e (held e s)))
          | inr k ↦ rw (t.others d k) (h.zsets_at d)
        ];
        counts = λ le d p. elim (Bool-cases (text_eq (day e) d)) [
          | inl k ↦
              subst
                (λ x.
                  P.zscore p (s'.at (activity_daily_key x))
                  ≡ tally_score (tally x p (es ++ e ∷ [])))
                (eq_of_text_eq (day e) d k) (counts_here le p)
          | inr k ↦
              rw (t.others d k, tally-append d p es e, k)
                (h.counts (omega (arith, length-append es (e ∷ []), le)) d p)
        ];
      }
