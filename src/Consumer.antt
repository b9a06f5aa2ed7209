-- ===== src/Consumer.antt =====
-- consumer/consumer.go: a consumer tails the ledger and feeds one view, at least once. The store and
-- the view are what a consumer is given.
pub mod Views
pub mod Drain
pub mod Counts
pub mod Activity
pub mod History
use apex_leaderboard.Prelude.{
  ℕ, zero, suc, ◌+◌, List, [], ◌∷◌, Option, none, some, length, ◌==◌, if◌then◌else◌,
}
use apex_leaderboard.Prelude.Text.{Text, codes}
use apex_leaderboard.Prelude.Exec.{
  Exec, pure, ◌>>=◌, ◌>>◌, Stable, Stable-bind, Stable-if, Stable-pure,
}
use apex_leaderboard.Ledger.{Event}
use apex_leaderboard.Storage.Views.{LedgerBatch}

abbrev pub cursor_head : Text
cursor_head = codes "0-0"

abbrev pub batch_count : ℕ
batch_count = 10

-- DefaultBlockDuration, 5 s
abbrev pub default_block_duration : ℕ
default_block_duration = 5_000_000_000

-- How long the read may block is left out, as time is.
pub record ConsumerStore (S E : Type 0) : Type 0 where
  pub load_cursor : Text → Exec S E (Option Text)
  pub save_cursor : Text → Text → Exec S E (Unit {0})
  pub read_ledger_batch : Text → ℕ → Exec S E LedgerBatch

-- `apply` is an `ApplyFunc`.
pub record Consumer (S E : Type 0) : Type 0 where
  pub id : Text
  pub store : ConsumerStore S E
  pub apply : List Event → Exec S E (Unit {0})
  pub block_duration : ℕ

abbrev pub cursor_or_head : Option Text → Text
cursor_or_head none = cursor_head
cursor_or_head (some c) = c

module _ {S E : Type 0} (c : Consumer S E) where
  pub apply_events : List Event → Exec S E (Unit {0})
  apply_events [] = pure tt
  apply_events (e ∷ es) = c.apply (e ∷ es)

  abbrev pub handled : LedgerBatch → ℕ
  handled batch = length batch.events + length batch.rejected

  -- `processOnce`: the batch is applied before the cursor is saved. Returns the number handled.
  unfoldable pub process_once : Exec S E ℕ
  unfolding apply_events
  process_once = do
    found ← c.store.load_cursor c.id
    batch ← c.store.read_ledger_batch (cursor_or_head found) batch_count
    if handled batch == 0 then pure 0 else do
      apply_events batch.events
      c.store.save_cursor c.id batch.last_id
      pure (handled batch)

  -- `Run` for as many rounds as it is left alone: a failed batch is retried in the next round.
  unfoldable pub run : ℕ → S → S
  unfolding process_once
  run zero s = s
  run (suc rounds) s = run rounds (process_once s).1

  module _ {ℓ} (Q : S → Type ℓ) where
    -- What every call of the store and the view keeps, a round keeps, and so does a run.
    pub process_once-Stable :
        Stable Q (c.store.load_cursor c.id)
        → ((cursor : Text) → Stable Q (c.store.save_cursor c.id cursor))
        → ((after : Text) (limit : ℕ) → Stable Q (c.store.read_ledger_batch after limit))
        → ((es : List Event) → Stable Q (c.apply es))
        → Stable Q process_once
    unfolding process_once apply_events
    process_once-Stable load save read view = Stable-bind _ _ load λ found.
        Stable-bind _ _ (read (cursor_or_head found) batch_count) λ batch.
          Stable-if _ _ _ (Stable-pure 0) (
            Stable-bind _ _ (events batch.events)
              λ _. Stable-bind _ _ (save batch.last_id) λ _. Stable-pure (handled batch))
      where
        events : (es : List Event) → Stable Q (apply_events es)
        events [] = Stable-pure tt
        events (e ∷ es) = view (e ∷ es)

    pub run-keeps : Stable Q process_once → (rounds : ℕ) (s : S) → Q s → Q (run rounds s)
    unfolding run
    run-keeps k zero s h = h
    run-keeps k (suc rounds) s h = run-keeps k rounds (process_once s).1 (k.keeps s h)
