-- ===== src/Examples/Data.antt =====
-- The data of the examples: servers of the small platform of Platform/Demo.antt.
use apex_leaderboard.Prelude.{[], ◌∷◌, none, ◌≡◌, refl, arith, inl, inr, if_either}
use apex_leaderboard.Prelude.Int.{ℤ, pos}
use apex_leaderboard.Prelude.Text.{Text, codes, text_eq}
use apex_leaderboard.Prelude.Exec.{ok}
use apex_leaderboard.Platform.Demo.{demo, demo_laws, nothing, hash, zset, stream, Num}
use apex_leaderboard.Platform.{Entry, hash_key, zset_key}
use apex_leaderboard.Platform.Laws.{Admits}
use apex_leaderboard.Redis.{Server, store}
use apex_leaderboard.Score.{IsScore}
use apex_leaderboard.Ledger.{EventType}
use apex_leaderboard.Storage.Client.{World, lost_reply}
use apex_leaderboard.Storage.Keys.{
  leaderboard_key, ledger_key, idempotency_hash_key, player_profile_key, board_profile_key,
}
use apex_leaderboard.Storage.Entry.Decode.{IsWritable}
use apex_leaderboard.Storage.Apply.Effect.{IsTyped}
use apex_leaderboard.Storage.Replay.{IsConsistent, StaysInRange, InRange, replay}
use apex_leaderboard.Storage.Entry.{entry_to_event}
use apex_leaderboard.Storage.Entry.Decode.{written, event_of, entry_to_event-written}

abbrev pub alice : Text
alice = codes "alice-001"

abbrev pub chess : Text
chess = codes "chess"

-- A server on which one player and one board were made.
abbrev pub seeded : Server demo
seeded = store (player_profile_key alice) (hash ((codes "player_name", codes "Alice") ∷ [])) (
    store (board_profile_key chess) (hash ((codes "board_state", codes "active") ∷ []))
      (record { at = λ _. nothing; clock = 5 }))

pub seeded-IsTyped : IsTyped demo seeded
unfolding text_eq player_profile_key board_profile_key leaderboard_key ledger_key
    idempotency_hash_key
seeded-IsTyped = record {
  zset_at = λ b. inl refl;
  stream_at = inl refl;
  idempotency_at = inl refl;
  board_at =
      λ b. if_either (λ v. Admits hash_key (demo.kind v)) (text_eq chess b) (inr refl) (inl refl);
}

pub seeded-IsConsistent : IsConsistent demo seeded
unfolding text_eq player_profile_key board_profile_key leaderboard_key ledger_key replay
seeded-IsConsistent = record {
  typed = seeded-IsTyped;
  decodes = tt;
  scores = λ b p. refl;
  stays = λ b p. tt;
}

-- The reply to the write is lost, with nothing of others before it.
abbrev pub cut_off : World demo
cut_off = record { server = seeded; link = record { others = λ s. s; fate = lost_reply } ∷ [] }

pub alice_writes : (n : ℤ) → IsScore n → IsWritable demo alice chess n (codes "r1")
alice_writes n h = record {
  player = refl;
  player_ne = λ e. ground arith;
  board_ne = λ e. ground arith;
  req_ne = λ e. ground arith;
  score = h;
}

abbrev pub first_entry : Entry
first_entry =
    written (record { ms = 5; seq = 0 }) EventType.set alice chess (pos 40) (codes "r1") []

pub first_entry-decodes :
    entry_to_event demo first_entry
    ≡ ok (event_of (record { ms = 5; seq = 0 }) EventType.set alice chess (pos 40) (codes "r1"))
first_entry-decodes =
    entry_to_event-written demo demo_laws (record { ms = 5; seq = 0 }) EventType.set alice chess
      (pos 40) (codes "r1") [] (alice_writes (pos 40) (ground arith))

pub first_entry-InRange : (p : Text) → StaysInRange demo chess p none (first_entry ∷ [])
unfolding text_eq
first_entry-InRange p =
    rw first_entry-decodes (tt, if_either InRange (text_eq alice p) (ground arith) tt)

-- A ledger with one event, and a projection that says something else.
abbrev pub drifted : Server demo
drifted =
    store (leaderboard_key chess) (zset ((codes "nobody", Num.int (pos 7)) ∷ []))
      (store ledger_key (stream (first_entry ∷ [])) seeded)

pub drifted-IsTyped : IsTyped demo drifted
unfolding text_eq player_profile_key board_profile_key leaderboard_key ledger_key
    idempotency_hash_key
drifted-IsTyped = record {
  zset_at =
      λ b. if_either (λ v. Admits zset_key (demo.kind v)) (text_eq chess b) (inr refl) (inl refl);
  stream_at = inr refl;
  idempotency_at = inl refl;
  board_at =
      λ b. if_either (λ v. Admits hash_key (demo.kind v)) (text_eq chess b) (inr refl) (inl refl);
}
