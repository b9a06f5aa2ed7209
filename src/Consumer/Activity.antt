-- ===== src/Consumer/Activity.antt =====
-- The daily activity shows how many events of the ledger each player has on each day.
use apex_leaderboard.Prelude.{
  ℕ, ◌*◌, ◌≤◌, ◌^◌, List, [], ◌∷◌, ◌++◌, none, false, ◌≡◌, refl, sym, ap, ◌∙◌, arith, length, inl,
  inr,
}
use mathlib.Core.Path.{subst}
use mathlib.Core.List.{append-nil, append_assoc}
use apex_leaderboard.Prelude.Int.{pos}
use apex_leaderboard.Prelude.Text.{Text, text_eq, text_eq_refl}
use apex_leaderboard.Prelude.Exec.{ok, pure, ◌>>=◌}
use apex_leaderboard.Platform.{Platform, no_key, zset_key, stream_key}
use apex_leaderboard.Platform.Laws.{PlatformLaws, Admits}
use apex_leaderboard.Redis.{Server, store, Script, update}
use apex_leaderboard.Ledger.{Event}
use apex_leaderboard.Storage.Client.{run_all, exec_pipe}
use apex_leaderboard.Storage.Keys.{ledger_key, activity_daily_key, consumer_cursor_key}
use apex_leaderboard.Storage.Keys.Sides.{activity_daily_key-IsOutside}
use apex_leaderboard.Storage.Keys.Distinct.{text_eq-activity_daily_key, text_eq-cursor_activity}
use apex_leaderboard.Storage.Apply.Effect.{admits_zset}
use apex_leaderboard.Storage.Replay.Outcome.{calm}
use apex_leaderboard.Storage.Views.{count_events, apply_daily_counts, load_cursor}
use apex_leaderboard.Storage.Views.Batches.{Ascends, decoded, length-decoded}
use apex_leaderboard.Consumer.{run, batch_count}
use apex_leaderboard.Consumer.Views.{new_daily_activity_consumer, daily_activity_id, daily_ttl}
use apex_leaderboard.Consumer.Drain.{head_id, IsView, IsAt, run_lem, head_id_text}
use apex_leaderboard.Consumer.Counts.{
  day, tally, tally_score, IsCounted, held, IsTicked, IsCounted-next,
}

module _ (P : Platform) (L : PlatformLaws P) where
  open L use {zsets, hashes}

  -- The server after the two commands for an event.
  tick : Event → Server P → Server P
  tick e s =
      let key = activity_daily_key (day P e) in
      let s1 : Server P = store key (P.zincrby (P.of_int (pos 1)) e.player_id (s.at key)) s in
      store key (P.expire daily_ttl (s1.at key)) s1

  tick-IsTicked : (e : Event) (s : Server P) → IsTicked P L e s (tick e s)
  unfolding tick
  tick-IsTicked e s = record {
    here = rw (text_eq_refl (activity_daily_key (day P e))) refl;
    others = λ d k. rw (text_eq-activity_daily_key (day P e) d, k) refl;
  }

  tick-ledger : (e : Event) (s : Server P) → (tick e s).at ledger_key ≡ s.at ledger_key
  unfolding tick
  tick-ledger e s = rw ((activity_daily_key-IsOutside (day P e)).side.ledger) refl

  run_all_cons :
      {A : Type 0} (m : Script P A) (ms : List (Script P A)) (s s1 s' : Server P) (a : A)
      (r : List A)
      → m s ≡ (ok a, s1)
      → run_all ms s1 ≡ (ok r, s')
      → run_all (m ∷ ms) s ≡ (ok (a ∷ r), s')
  run_all_cons m ms s s1 s' a r h k = rw (h, k) refl

  update_ok :
      (key : Text) (f : P.Value → P.Value) (s : Server P)
      → Admits zset_key (P.kind (s.at key))
      → update P zset_key key f s ≡ (ok tt, store key (f (s.at key)) s)
  update_ok key f s a = rw (admits_zset _ a) refl

  count_step :
      (e : Event) (es : List Event) (s : Server P)
      → Admits zset_key (P.kind (held P L e s))
      → (r : List (Unit {0})) (s' : Server P)
      → run_all (count_events P daily_ttl es) (tick e s) ≡ (ok r, s')
      → run_all (count_events P daily_ttl (e ∷ es)) s ≡ (ok (tt ∷ tt ∷ r), s')
  unfolding tick count_events
  count_step e es s a r s' h =
      let key = activity_daily_key (day P e) in
      let inc : P.Value → P.Value = P.zincrby (P.of_int (pos 1)) e.player_id in
      let s1 : Server P = store key (inc (s.at key)) s in
      let expires : Script P (Unit {0}) = update P zset_key key (P.expire daily_ttl) in
      let rest : List (Script P (Unit {0})) = count_events P daily_ttl es in
      run_all_cons (update P zset_key key inc) (expires ∷ rest) s s1 s' tt (tt ∷ r)
        (update_ok key inc s a)
        (run_all_cons expires rest s1 (tick e s) s' tt r
          (update_ok key (P.expire daily_ttl) s1 (
            inr (
              rw (text_eq_refl key)
                (zsets.kind-zincrby (P.of_int (pos 1)) e.player_id (s.at key)))))
          h)

  count_run :
      (seen es : List Event) (s : Server P)
      → IsCounted P seen s
      → (r : List (Unit {0})) × (s' : Server P) × (run_all (count_events P daily_ttl es) s
          ≡ (ok r, s'))
        × IsCounted P (seen ++ es) s'
        × (s'.at ledger_key ≡ s.at ledger_key)
  unfolding count_events
  count_run seen [] s h =
      ([], s, refl, subst (λ l. IsCounted P l s) (sym (append-nil seen)) h, refl)
  count_run seen (e ∷ es) s h =
      let (r, s', runs, view, ledger) =
        count_run (seen ++ e ∷ []) es (tick e s)
          (IsCounted-next P L seen e s (tick e s) h (tick-IsTicked e s)) in
      (
        tt ∷ tt ∷ r,
        s',
        count_step e es s (h.zsets_at (day P e)) r s' runs,
        subst (λ l. IsCounted P l s') (append_assoc seen (e ∷ []) es) view,
        ledger ∙ tick-ledger e s,
      )

  activity-IsView :
      IsView P daily_activity_id (λ es. apply_daily_counts P es daily_ttl) (IsCounted P)
  unfolding apply_daily_counts
  activity-IsView = record {
    applies = λ es batch s h.
        let (r, s', runs, view, ledger) = count_run es batch s h in
        (s', piped batch s r s' runs, view, ledger);
    saves = λ es s v h. record {
      zsets_at = λ d. rw (apart d) (h.zsets_at d);
      counts = λ le d p. rw (apart d) (h.counts le d p);
    };
  }
    where
      apart :
          (d : Text)
          → text_eq (consumer_cursor_key daily_activity_id) (activity_daily_key d) ≡ false
      apart d = text_eq-cursor_activity daily_activity_id d

      piped :
          (batch : List Event) (s : Server P) (r : List (Unit {0})) (s' : Server P)
          → run_all (count_events P daily_ttl batch) s ≡ (ok r, s')
          → apply_daily_counts P batch daily_ttl (calm s) ≡ (ok tt, calm s')
      piped batch s r s' h = go (count_events P daily_ttl batch) h
        where
          go :
              (ms : List (Script P (Unit {0})))
              → run_all ms s ≡ (ok r, s')
              → (exec_pipe ms >>= λ _. pure tt) (calm s) ≡ (ok tt, calm s')
          go [] k = ap (λ x. (ok tt, calm x.1)) k
          go (m ∷ ms) k = rw k refl

  -- On a server whose ledger is a stream or missing, of ids that ascend and at most 2^53 entries,
  -- where the daily consumer has no cursor yet and no day was counted, with every request
  -- delivered, as many rounds as cover the ledger at ten entries each bring the consumer through
  -- it, and then each player has on each day the number of the events of that day that the ledger
  -- holds of that player, entries that do not decode left out.
  pub daily_activity-exact :
      (s : Server P) (rounds : ℕ)
      → Admits stream_key (P.kind (s.at ledger_key))
      → Ascends head_id (P.xrange (s.at ledger_key))
      → length (P.xrange (s.at ledger_key)) ≤ 2 ^ 53
      → P.kind (s.at (consumer_cursor_key daily_activity_id)) ≡ no_key
      → ((d : Text) → s.at (activity_daily_key d) ≡ P.missing)
      → length (P.xrange (s.at ledger_key)) ≤ rounds * batch_count
      → (s' : Server P) × (run (new_daily_activity_consumer P) rounds (calm s) ≡ calm s')
        × ((d p : Text)
            → P.zscore p (s'.at (activity_daily_key d))
              ≡ tally_score P (tally P d p (decoded P (P.xrange (s.at ledger_key)))))
  unfolding load_cursor
  daily_activity-exact s rounds stream ascends small fresh empty enough =
      let start : IsAt P daily_activity_id (λ es. apply_daily_counts P es daily_ttl) (IsCounted P)
          [] (P.xrange (s.at ledger_key)) s =
        record {
          stream = stream;
          entries = refl;
          found = none;
          loads = rw fresh refl;
          cursor = head_id_text;
          view = record {
            zsets_at = λ d. inl (ap P.kind (empty d) ∙ hashes.kind-missing);
            counts = λ le d p. ap (P.zscore p) (empty d) ∙ zsets.zscore-missing p;
          };
        } in
      let (s', runs, at_end) =
        run_lem P daily_activity_id (λ es. apply_daily_counts P es daily_ttl) (IsCounted P) L
          activity-IsView rounds [] (P.xrange (s.at ledger_key)) s start ascends enough in
      (
        s',
        runs,
        at_end.view.counts (omega (arith, length-decoded P (P.xrange (s.at ledger_key)), small)),
      )
