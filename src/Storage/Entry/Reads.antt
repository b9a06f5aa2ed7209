-- ===== src/Storage/Entry/Reads.antt =====
-- What an entry that decodes says of its event.
use apex_leaderboard.Prelude.{◌≡◌, refl, arith, ◌∙◌}
use apex_leaderboard.Prelude.Int.{ℤ}
use apex_leaderboard.Prelude.Text.{Text, codes}
use apex_leaderboard.Prelude.Exec.{Result, ok, err, bind_result}
use apex_leaderboard.Platform.{Platform, Entry}
use apex_leaderboard.Score.{IsScore, validate_iff}
use apex_leaderboard.Ledger.{Event}
use apex_leaderboard.Storage.Client.{StorageError}
use apex_leaderboard.Storage.Entry.{
  entry_to_event, stream_entry_value, required, decode_amount, event_type, valid_player,
}

-- A property of every error, and of what follows every value, holds of the whole.
bind_result_cases {ℓ κ} :
    {E : Type ℓ} {A B : Type 0} (Q : Result E B → Type κ) (r : Result E A) (f : A → Result E B)
    → ((e : E) → Q (err e))
    → ((a : A) → r ≡ ok a → Q (f a))
    → Q (bind_result r f)
bind_result_cases Q (ok a) f failed k = k a refl
bind_result_cases Q (err e) f failed k = failed e

required-ok : (x : Entry) (k v : Text) → required x k ≡ ok v → stream_entry_value x k ≡ v
unfolding required
required-ok x k v h = ground arith

decode_amount-ok : (P : Platform) (raw : Text) (n : ℤ) → decode_amount P raw ≡ ok n → IsScore n
unfolding decode_amount
decode_amount-ok P raw n h = (validate_iff n).0 (ground arith)

-- What is shown of a result.
abbrev Reads : Entry → Result StorageError Event → Type 0
Reads x r =
    (e : Event)
    → r ≡ ok e
    → (stream_entry_value x (codes "board_id") ≡ e.board_id) × IsScore e.amount

-- Its board is the field of that name, and its amount is a score.
pub entry_to_event-reads :
    (P : Platform) (x : Entry) (e : Event)
    → entry_to_event P x ≡ ok e
    → (stream_entry_value x (codes "board_id") ≡ e.board_id) × IsScore e.amount
unfolding entry_to_event
entry_to_event-reads P x =
    bind_result_cases (Reads x) (required x (codes "type")) _ (λ _ _. cc)
      λ raw _.
        bind_result_cases (Reads x) (event_type raw) _ (λ _ _. cc)
          λ type _.
            bind_result_cases (Reads x) (required x (codes "player_id")) _ (λ _ _. cc)
              λ player _.
                bind_result_cases (Reads x) (valid_player P player) _ (λ _ _. cc)
                  λ _ _.
                    bind_result_cases (Reads x) (required x (codes "board_id")) _ (λ _ _. cc)
                      λ board eb.
                        bind_result_cases (Reads x) (required x (codes "amount")) _ (λ _ _. cc)
                          λ amount _.
                            bind_result_cases (Reads x) (decode_amount P amount) _ (λ _ _. cc)
                              λ n en.
                                bind_result_cases (Reads x) (required x (codes "request_id")) _
                                  (λ _ _. cc)
                                  λ req _. λ e h. (
                                    required-ok x (codes "board_id") board eb ∙ ground arith,
                                    ground (arith, decode_amount-ok P amount n en),
                                  )
