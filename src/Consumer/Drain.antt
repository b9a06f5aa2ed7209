-- ===== src/Consumer/Drain.antt =====
-- A consumer whose requests are delivered works through the ledger, and its view shows each event
-- once.
use apex_leaderboard.Prelude.{
  ℕ, zero, suc, ◌*◌, ◌≤◌, ◌<◌, ◌^◌, List, [], ◌∷◌, ◌++◌, Option, none, some, ◌≡◌, refl, sym, ap,
  ◌∙◌, arith, length, take, drop, take-drop, length-drop, false, ◌==◌,
}
use mathlib.Core.Path.{subst}
use mathlib.Core.List.{append-nil, append_assoc}
use apex_leaderboard.Prelude.Text.{Text, text_eq, text_eq_refl}
use apex_leaderboard.Prelude.Exec.{ok, pure, ◌>>=◌}
use apex_leaderboard.Platform.{Platform, StreamId, Entry, string_key, stream_key}
use apex_leaderboard.Platform.Laws.{PlatformLaws, Admits}
use apex_leaderboard.Redis.{Server, store}
use apex_leaderboard.Ledger.{Event}
use apex_leaderboard.Decimal.{format_nat}
use apex_leaderboard.ApexTime.{format_stream_id}
use apex_leaderboard.Storage.Client.{World, Store, StorageError}
use apex_leaderboard.Storage.Keys.{ledger_key, consumer_cursor_key}
use apex_leaderboard.Storage.Keys.Sides.{consumer_cursor_key-IsOutside}
use apex_leaderboard.Storage.Apply.Effect.{admits_stream}
use apex_leaderboard.Storage.Replay.Outcome.{calm}
use apex_leaderboard.Storage.Views.{
  LedgerBatch, batch_of, load_cursor, save_cursor, read_ledger_batch,
}
use apex_leaderboard.Storage.Views.Batches.{
  Ascends, last_id, last_id-bound, last_id-append, later-rest, decoded, decoded-append,
  batch_of-events, length-batch_of, batch_of-last,
}
use apex_leaderboard.Consumer.{
  Consumer, cursor_or_head, batch_count, apply_events, handled, process_once, run,
  default_block_duration,
}
use apex_leaderboard.Consumer.Views.{ledger_consumer}

-- Before every entry; Redis gives no entry this id.
abbrev pub head_id : StreamId
head_id = record { ms = 0; seq = 0 }

pub head_id_text : cursor_or_head none ≡ format_stream_id head_id
unfolding format_stream_id format_nat
head_id_text = refl

module _ {S E : Type 0} (c : Consumer S E) where
  process_once_steps :
      (found : Option Text) (batch : LedgerBatch) (n : ℕ) (w w1 w2 : S)
      → c.store.load_cursor c.id w ≡ (ok found, w)
      → c.store.read_ledger_batch (cursor_or_head found) batch_count w ≡ (ok batch, w)
      → handled c batch ≡ suc n
      → apply_events c batch.events w ≡ (ok tt, w1)
      → c.store.save_cursor c.id batch.last_id w1 ≡ (ok tt, w2)
      → process_once c w ≡ (ok (suc n), w2)
  unfolding process_once
  process_once_steps found batch n w w1 w2 h1 h2 h3 h4 h5 = rw (h1, h2, h3, more) applied
    where
      more : (suc n == 0) ≡ false
      more = ground arith

      applied :
          (apply_events c batch.events >>= λ _.
          c.store.save_cursor c.id batch.last_id >>= λ _. pure (suc n))
            w
          ≡ (ok (suc n), w2)
      applied = rw (h4, h5) refl

  process_once_idle :
      (found : Option Text) (batch : LedgerBatch) (w : S)
      → c.store.load_cursor c.id w ≡ (ok found, w)
      → c.store.read_ledger_batch (cursor_or_head found) batch_count w ≡ (ok batch, w)
      → handled c batch ≡ 0
      → process_once c w ≡ (ok 0, w)
  unfolding process_once
  process_once_idle found batch w h1 h2 h3 = rw (h1, h2, h3) refl

module _ (P : Platform) (id : Text) (apply : List Event → Store P (Unit {0}))
    (View : List Event → Server P → Type 0) where
  abbrev pub consumer : Consumer (World P) StorageError
  consumer = record {
    id = id;
    store = ledger_consumer P;
    apply = apply;
    block_duration = default_block_duration;
  }

  -- A view that shows some events, and shows a batch more once that is applied.
  pub record IsView : Type 0 where
    pub applies :
        (es batch : List Event) (s : Server P)
        → View es s
        → (s' : Server P) × (apply batch (calm s) ≡ (ok tt, calm s'))
          × View (es ++ batch) s'
          × (s'.at ledger_key ≡ s.at ledger_key)
    pub saves :
        (es : List Event) (s : Server P) (v : P.Value)
        → View es s
        → View es (store (consumer_cursor_key id) v s)

  -- A server whose consumer has worked through a part of the ledger.
  pub record IsAt (done rest : List Entry) (s : Server P) : Type 0 where
    pub stream : Admits stream_key (P.kind (s.at ledger_key))
    pub entries : P.xrange (s.at ledger_key) ≡ done ++ rest
    pub found : Option Text
    pub loads : load_cursor P id (calm s) ≡ (ok found, calm s)
    pub cursor : cursor_or_head found ≡ format_stream_id (last_id head_id done)
    pub view : View (decoded P done) s

  module _ (L : PlatformLaws P) (V : IsView) where
    open L use {streams, strings}

    reads :
        (done rest : List Entry) (s : Server P) (h : IsAt done rest s)
        → Ascends head_id (done ++ rest)
        → read_ledger_batch P (cursor_or_head h.found) batch_count (calm s)
          ≡ (ok (batch_of P (take batch_count rest)), calm s)
    unfolding read_ledger_batch
    reads done rest s h a =
        rw
          (
            admits_stream _ h.stream,
            h.cursor,
            streams.xread-later (last_id head_id done) batch_count (s.at ledger_key) bound.0
                bound.1,
            h.entries,
            later-rest head_id done rest a,
          )
          refl
      where
        bound : ((last_id head_id done).ms < 2 ^ 63) × ((last_id head_id done).seq < 2 ^ 63)
        bound = last_id-bound head_id done rest (ground arith) a

    abbrev with_cursor : Text → Server P → Server P
    with_cursor cursor s =
        store (consumer_cursor_key id) (P.string_set cursor (s.at (consumer_cursor_key id))) s

    load_found :
        (t : Server P)
        → P.kind (t.at (consumer_cursor_key id)) ≡ string_key
        → load_cursor P id (calm t)
          ≡ (ok (some (P.string_get (t.at (consumer_cursor_key id)))), calm t)
    unfolding load_cursor
    load_found t h = rw h refl

    load-save :
        (cursor : Text) (s : Server P)
        → load_cursor P id (calm (with_cursor cursor s))
          ≡ (ok (some cursor), calm (with_cursor cursor s))
    load-save cursor s =
        load_found (with_cursor cursor s) (ap P.kind held ∙ strings.kind-string_set cursor _)
        ∙ ap (λ x. (ok (some x), calm (with_cursor cursor s)))
            (ap P.string_get held ∙ strings.string_get-string_set cursor _)
      where
        held :
            (with_cursor cursor s).at (consumer_cursor_key id)
            ≡ P.string_set cursor (s.at (consumer_cursor_key id))
        held = rw (text_eq_refl (consumer_cursor_key id)) refl

    apply_lem :
        (es batch : List Event) (s : Server P)
        → View es s
        → (s' : Server P) × (apply_events consumer batch (calm s) ≡ (ok tt, calm s'))
          × View (es ++ batch) s'
          × (s'.at ledger_key ≡ s.at ledger_key)
    unfolding apply_events
    apply_lem es [] s v = (s, refl, subst (λ l. View l s) (sym (append-nil es)) v, refl)
    apply_lem es (e ∷ batch) s v = V.applies es (e ∷ batch) s v

    -- A batch of entries that was applied, and whose cursor was saved.
    advanced :
        (done : List Entry) (y : Entry) (ys more : List Entry) (t : Server P)
        → Admits stream_key (P.kind (t.at ledger_key))
        → P.xrange (t.at ledger_key) ≡ done ++ ((y ∷ ys) ++ more)
        → View (decoded P done ++ (batch_of P (y ∷ ys)).events) t
        → IsAt (done ++ y ∷ ys) more (with_cursor (batch_of P (y ∷ ys)).last_id t)
    advanced done y ys more t stream entries view = record {
      stream = rw apart stream;
      entries = rw apart (entries ∙ sym (append_assoc done (y ∷ ys) more));
      found = some (batch_of P (y ∷ ys)).last_id;
      loads = load-save (batch_of P (y ∷ ys)).last_id t;
      cursor =
          batch_of-last P (last_id head_id done) y ys
          ∙ ap format_stream_id (sym (last_id-append head_id done (y ∷ ys)));
      view = V.saves _ t _ (
          subst (λ es. View es t)
            (ap (λ es. decoded P done ++ es) (batch_of-events P (y ∷ ys))
              ∙ sym (decoded-append P done (y ∷ ys)))
            view);
    }
      where
        apart : text_eq (consumer_cursor_key id) ledger_key ≡ false
        apart = (consumer_cursor_key-IsOutside id).side.ledger

    -- One round takes the next entries, ten at most.
    round :
        (done : List Entry) (x : Entry) (rest : List Entry) (s : Server P)
        → IsAt done (x ∷ rest) s
        → Ascends head_id (done ++ x ∷ rest)
        → (s' : Server P) × ((process_once consumer (calm s)).1 ≡ calm s')
          × IsAt (done ++ take batch_count (x ∷ rest)) (drop batch_count (x ∷ rest)) s'
    unfolding save_cursor
    round done x rest s h a =
        let batch : LedgerBatch = batch_of P (take batch_count (x ∷ rest)) in
        let (t, applied, view, ledger) = apply_lem (decoded P done) batch.events s h.view in
        (
          with_cursor batch.last_id t,
          ap (λ r. r.1)
              (process_once_steps consumer h.found batch _ (calm s) (calm t)
                (calm (with_cursor batch.last_id t)) h.loads (reads done (x ∷ rest) s h a)
                (length-batch_of P (take batch_count (x ∷ rest))) applied refl),
          advanced done x (take 9 rest) (drop 9 rest) t (rw ledger h.stream)
              (ap P.xrange ledger ∙ h.entries ∙ ap (λ l. done ++ x ∷ l) (sym (take-drop 9 rest)))
              view,
        )

    -- With nothing left to read, a round changes nothing.
    idle :
        (done : List Entry) (s : Server P)
        → IsAt done [] s
        → Ascends head_id (done ++ [])
        → (process_once consumer (calm s)).1 ≡ calm s
    idle done s h a =
        ap (λ r. r.1)
          (process_once_idle consumer h.found (batch_of P []) (calm s) h.loads (reads done [] s h a)
            (length-batch_of P []))

    -- Ten entries a round are enough.
    pub run_lem :
        (rounds : ℕ) (done rest : List Entry) (s : Server P)
        → IsAt done rest s
        → Ascends head_id (done ++ rest)
        → length rest ≤ rounds * batch_count
        → (s' : Server P) × (run consumer rounds (calm s) ≡ calm s') × IsAt (done ++ rest) [] s'
    unfolding run
    run_lem zero done [] s h a le = (s, refl, subst (λ l. IsAt l [] s) (sym (append-nil done)) h)
    run_lem zero done (x ∷ rest) s h a le = absurd (omega (arith, le))
    run_lem (suc rounds) done [] s h a le =
        rw (idle done s h a) (run_lem rounds done [] s h a (omega arith))
    run_lem (suc rounds) done (x ∷ rest) s h a le =
        let (t, step, next) = round done x rest s h a in
        let whole : (done ++ x ∷ take 9 rest) ++ drop 9 rest ≡ done ++ x ∷ rest =
          append_assoc done (x ∷ take 9 rest) (drop 9 rest)
          ∙ ap (λ l. done ++ x ∷ l) (take-drop 9 rest) in
        let (s', runs, at_end) =
          run_lem rounds (done ++ x ∷ take 9 rest) (drop 9 rest) t next (rw whole a)
            (omega (arith, length-drop 9 rest, le)) in
        (s', rw step runs, subst (λ l. IsAt l [] s') whole at_end)
