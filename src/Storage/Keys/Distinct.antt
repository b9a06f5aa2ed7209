-- ===== src/Storage/Keys/Distinct.antt =====
-- Keys of different families differ, and a key determines what it was made of.
use apex_leaderboard.Prelude.{◌≡◌, refl, false}
use apex_leaderboard.Prelude.Text.{Text, text_eq}
use apex_leaderboard.Storage.Keys.{
  ledger_key, leaderboard_key, board_verify_key, activity_daily_key, consumer_cursor_key,
}

pub text_eq-leaderboard_ledger : (b : Text) → text_eq (leaderboard_key b) ledger_key ≡ false
unfolding text_eq leaderboard_key ledger_key
text_eq-leaderboard_ledger b = refl

pub text_eq-leaderboard_key :
    (b c : Text) → text_eq (leaderboard_key b) (leaderboard_key c) ≡ text_eq b c
unfolding text_eq leaderboard_key
text_eq-leaderboard_key b c = refl

pub text_eq-verify_leaderboard :
    (b c : Text) → text_eq (board_verify_key b) (leaderboard_key c) ≡ false
unfolding text_eq board_verify_key leaderboard_key
text_eq-verify_leaderboard b c = refl

pub text_eq-activity_daily_key :
    (d c : Text) → text_eq (activity_daily_key d) (activity_daily_key c) ≡ text_eq d c
unfolding text_eq activity_daily_key
text_eq-activity_daily_key d c = refl

pub text_eq-cursor_activity :
    (name d : Text) → text_eq (consumer_cursor_key name) (activity_daily_key d) ≡ false
unfolding text_eq consumer_cursor_key activity_daily_key
text_eq-cursor_activity name d = refl
