-- ===== src/Storage/Entry/Decode.antt =====
-- What is written is what is read.
use apex_leaderboard.Prelude.{[], some, true, false, ◌≡◌, refl, arith, ◌^◌, ◌-◌, ◌≢◌, ◌∷◌, inl, inr}
use apex_leaderboard.Prelude.Int.{ℤ, pos, negsuc}
use apex_leaderboard.Prelude.Text.{Text, text_eq}
use apex_leaderboard.Prelude.Exec.{ok}
use apex_leaderboard.Platform.{Platform, StreamId, Entry}
use apex_leaderboard.Platform.Laws.{PlatformLaws, IsSmall}
use apex_leaderboard.Decimal.{format_int}
use apex_leaderboard.Decimal.RoundTrip.{format_int-ne-nil}
use apex_leaderboard.Score.{IsScore, validate, abs_of_score}
use apex_leaderboard.Ledger.{EventType, type_text, Event}
use apex_leaderboard.ApexTime.{format_stream_id, event_time}
use apex_leaderboard.Storage.Apply.Script.{event_fields}
use apex_leaderboard.Storage.Apply.{script_args}
use apex_leaderboard.Storage.Entry.{exact_int64, decode_amount, entry_to_event, event_type}

module _ (P : Platform) (L : PlatformLaws P) where
  open L use {floats}

  below_int64 : (n : ℤ) → IsSmall n → P.float_lt (P.of_int n) (P.of_int (pos (2 ^ 63))) ≡ true
  below_int64 n h = rw (floats.float_lt-of_int n (pos (2 ^ 63)) (inl h) (inr refl)) (ground arith)

  above_int64 :
      (n : ℤ) → IsSmall n → P.float_lt (P.of_int n) (P.float_neg (P.of_int (pos (2 ^ 63)))) ≡ false
  above_int64 n h =
      rw (floats.float_neg-of_int (pos (2 ^ 63)))
        (rw (floats.float_lt-of_int n (negsuc (2 ^ 63 - 1)) (inl h) (inr refl)) (ground arith))

  -- A double that stands for an integer of at most 53 bits is read as that integer.
  pub exact_int64-of_int : (n : ℤ) → IsSmall n → exact_int64 P (P.of_int n) ≡ some n
  unfolding exact_int64
  exact_int64-of_int n h = simp (
    floats.is_nan-of_int n,
    below_int64 n h,
    above_int64 n h,
    floats.trunc-of_int n,
    floats.float_eq-refl n,
    floats.to_int-of_int n h,
  )

  pub decode_amount-format_int : (n : ℤ) → IsScore n → decode_amount P (format_int n) ≡ ok n
  unfolding decode_amount validate
  decode_amount-format_int n h =
      let small : IsSmall n = omega (arith, abs_of_score n h) in
      ground (arith, floats.parse_float-format_int n small, exact_int64-of_int n small)

-- The entry that the script appends for a write.
abbrev pub written : StreamId → EventType → Text → Text → ℤ → Text → Text → Entry
written i type p b n req key = record {
  id = i;
  values = event_fields (script_args type p b n req key);
}

abbrev pub event_of : StreamId → EventType → Text → Text → ℤ → Text → Event
event_of i type p b n req = record {
  id = format_stream_id i;
  type = type;
  player_id = p;
  board_id = b;
  amount = n;
  request_id = req;
  created_at = event_time (format_stream_id i);
}

-- What the handlers make sure of before a write.
pub record IsWritable (P : Platform) (p b : Text) (n : ℤ) (req : Text) : Type 0 where
  pub player : P.uuid_valid p ≡ true
  pub player_ne : p ≢ []
  pub board_ne : b ≢ []
  pub req_ne : req ≢ []
  pub score : IsScore n

text_eq-nil : (s : Text) → s ≢ [] → text_eq s [] ≡ false
unfolding text_eq
text_eq-nil [] h = absurd (h refl)
text_eq-nil (c ∷ s) h = refl

event_type-type_text : (t : EventType) → event_type (type_text t) ≡ ok t
unfolding event_type text_eq
event_type-type_text EventType.set = refl
event_type-type_text EventType.increment = refl

type_text-ne : (t : EventType) → text_eq (type_text t) [] ≡ false
unfolding text_eq
type_text-ne EventType.set = refl
type_text-ne EventType.increment = refl

-- The ledger entry that the write script appends for a valid player id, nonempty ids and an amount
-- that is a score is read back as the event that was written.
pub entry_to_event-written :
    (P : Platform) (L : PlatformLaws P) (i : StreamId) (type : EventType) (p b : Text) (n : ℤ)
    (req key : Text)
    → IsWritable P p b n req
    → entry_to_event P (written i type p b n req key) ≡ ok (event_of i type p b n req)
unfolding entry_to_event event_fields script_args text_eq event_type
entry_to_event-written P L i type p b n req key h = simp (
  type_text-ne type,
  event_type-type_text type,
  text_eq-nil p h.player_ne,
  h.player,
  text_eq-nil b h.board_ne,
  text_eq-nil (format_int n) (format_int-ne-nil n),
  decode_amount-format_int P L n h.score,
  text_eq-nil req h.req_ne,
)
