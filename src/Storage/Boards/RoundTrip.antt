-- ===== src/Storage/Boards/RoundTrip.antt =====
-- A created board is read back, is not created twice, and changes its state alone.
use apex_leaderboard.Prelude.{
  [], ◌∷◌, List, none, some, true, ◌≡◌, ◌≢◌, refl, ap, sym, ◌∙◌, arith, inl, inr,
}
use mathlib.Core.Path.{subst}
use apex_leaderboard.Prelude.Int.{ℤ}
use apex_leaderboard.Prelude.Text.{Text, codes, text_eq, text_eq_refl}
use apex_leaderboard.Prelude.Exec.{ok, err}
use apex_leaderboard.Platform.{Platform, no_key, hash_key, zset_key}
use apex_leaderboard.Platform.Laws.{PlatformLaws, Admits, IsSmall, IsDated, whole_milli, lookup}
use apex_leaderboard.Redis.{Server, store}
use apex_leaderboard.Board.{Board, valid_state}
use apex_leaderboard.Storage.Client.{StorageError}
use apex_leaderboard.Storage.Keys.{board_profile_key, board_index_key}
use apex_leaderboard.Storage.Replay.Outcome.{calm}
use apex_leaderboard.Storage.Apply.Effect.{admits_hash, admits_zset}
use apex_leaderboard.Storage.Boards.{
  unix_seconds, create_board_script, set_board_state_script, create_board, set_board_state,
  board_from_fields, board_or_missing, get_board,
}

module _ (P : Platform) (L : PlatformLaws P) where
  open L use {hashes, times, floats}

  -- the hash of a board
  abbrev pub board_hash : Board → P.Value → P.Value
  board_hash b v = P.hset (codes "board_state") b.state (
      P.hset (codes "created_at") (P.format_time b.created_at)
        (P.hset (codes "board_name") b.board_name v))

  -- What the fields of a hash say of a board.
  pub record Describes (b : Board) (v : P.Value) : Type 0 where
    pub name : P.hget (codes "board_name") v ≡ some b.board_name
    pub created_text : Text
    pub created : P.hget (codes "created_at") v ≡ some created_text
    pub created_at : P.parse_time created_text ≡ some b.created_at
    pub state : P.hget (codes "board_state") v ≡ some b.state

  -- A board as its hash keeps it, without what its time has below the millisecond.
  abbrev pub kept : Board → Board
  kept b = record b { created_at = whole_milli b.created_at }

  board_hash-Describes :
      (b : Board) (v : P.Value)
      → IsDated b.created_at
      → Admits hash_key (P.kind v)
      → Describes (kept b) (board_hash b v)
  unfolding text_eq
  board_hash-Describes b v dated a = record {
    created_text = P.format_time b.created_at;
    created_at = times.parse_time-format_time b.created_at dated;
    name =
        hashes.hget-hset _ _ _ _ (inr (hashes.kind-hset _ _ _))
        ∙ (hashes.hget-hset _ _ _ _ (inr (hashes.kind-hset _ _ _)) ∙ hashes.hget-hset _ _ _ _ a);
    created =
        hashes.hget-hset _ _ _ _ (inr (hashes.kind-hset _ _ _))
        ∙ hashes.hget-hset _ _ _ _ (inr (hashes.kind-hset _ _ _));
    state = hashes.hget-hset _ _ _ _ (inr (hashes.kind-hset _ _ _));
  }

  lookup-nil : (k : Text) → lookup k [] ≡ none
  unfolding lookup
  lookup-nil k = refl

  board_or_missing_lem :
      (b : Board) (raw : Text) (l : List (Text × Text))
      → P.parse_time raw ≡ some b.created_at
      → valid_state b.state ≡ true
      → lookup (codes "board_name") l ≡ some b.board_name
      → lookup (codes "created_at") l ≡ some raw
      → lookup (codes "board_state") l ≡ some b.state
      → board_or_missing P b.board_id l ≡ ok b
  unfolding board_or_missing board_from_fields
  board_or_missing_lem b raw [] dated v name created state = cc (lookup-nil (codes "board_name"))
  board_or_missing_lem b raw (f ∷ l) dated v name created state = ground arith

  -- What is read from a hash that describes a board is the board.
  board_or_missing-Describes :
      (b : Board) (v : P.Value)
      → valid_state b.state ≡ true
      → Describes b v
      → board_or_missing P b.board_id (P.hgetall v) ≡ ok b
  board_or_missing-Describes b v ok_state d =
      board_or_missing_lem b d.created_text (P.hgetall v) d.created_at ok_state
        (hashes.lookup-hgetall (codes "board_name") v ∙ d.name)
        (hashes.lookup-hgetall (codes "created_at") v ∙ d.created)
        (hashes.lookup-hgetall (codes "board_state") v ∙ d.state)

  -- What a read of a board returns, from the hash under its key.
  get_board_lem :
      (b : Board) (s : Server P)
      → Admits hash_key (P.kind (s.at (board_profile_key b.board_id)))
      → valid_state b.state ≡ true
      → Describes b (s.at (board_profile_key b.board_id))
      → get_board P b.board_id (calm s) ≡ (ok b, calm s)
  unfolding get_board
  get_board_lem b s a v d =
      rw (admits_hash _ a, board_or_missing-Describes b (s.at (board_profile_key b.board_id)) v d)

  -- Its seconds are a number that a double holds.
  dated-IsSmall : (t : ℤ) → IsDated t → IsSmall (unix_seconds t)
  dated-IsSmall t h = ground arith

  abbrev registered : Board → P.Float → Server P → Server P
  registered b x s =
      let s' : Server P =
        store (board_profile_key b.board_id) (board_hash b (s.at (board_profile_key b.board_id)))
          s in
      store board_index_key (P.zadd x b.board_id (s'.at board_index_key)) s'

  create_board_fresh :
      (b : Board) (s : Server P)
      → valid_state b.state ≡ true
      → P.kind (s.at (board_profile_key b.board_id)) ≡ no_key
      → Admits zset_key (P.kind (s.at board_index_key))
      → IsSmall (unix_seconds b.created_at)
      → create_board P b (calm s)
        ≡ (ok tt, calm (registered b (P.of_int (unix_seconds b.created_at)) s))
  unfolding create_board create_board_script text_eq board_profile_key board_index_key
  create_board_fresh b s v new index small =
      ground
        (arith, admits_zset _ index, floats.score_of-format_int (unix_seconds b.created_at) small)

  at-registered :
      (b : Board) (x : P.Float) (s : Server P)
      → (registered b x s).at (board_profile_key b.board_id)
        ≡ board_hash b (s.at (board_profile_key b.board_id))
  unfolding text_eq board_profile_key board_index_key
  at-registered b x s = rw (text_eq_refl b.board_id)

  kind-registered :
      (b : Board) (x : P.Float) (s : Server P)
      → P.kind ((registered b x s).at (board_profile_key b.board_id)) ≡ hash_key
  kind-registered b x s = ap P.kind (at-registered b x s) ∙ hashes.kind-hset _ _ _

  registered-Describes :
      (b : Board) (x : P.Float) (s : Server P)
      → IsDated b.created_at
      → Admits hash_key (P.kind (s.at (board_profile_key b.board_id)))
      → Describes (kept b) ((registered b x s).at (board_profile_key b.board_id))
  registered-Describes b x s dated a =
      subst (Describes (kept b)) (sym (at-registered b x s)) (board_hash-Describes b _ dated a)

  -- With every request delivered, a board in a valid state, of a creation time in the years 1 to
  -- 9999, that is created under a new id is read back as it was given, its creation time cut off
  -- at the millisecond, where the index of boards is a ZSET or missing.
  pub get-create :
      (b : Board) (s : Server P)
      → valid_state b.state ≡ true
      → P.kind (s.at (board_profile_key b.board_id)) ≡ no_key
      → Admits zset_key (P.kind (s.at board_index_key))
      → IsDated b.created_at
      → ((create_board P b (calm s)).0 ≡ ok tt)
        × (get_board P b.board_id (create_board P b (calm s)).1
            ≡ (ok (kept b), (create_board P b (calm s)).1))
  get-create b s v new index dated =
      let x = P.of_int (unix_seconds b.created_at) in
      let made = create_board_fresh b s v new index (dated-IsSmall b.created_at dated) in
      (
        ap (λ y. y.0) made,
        rw made (
            get_board_lem (kept b) (registered b x s) (inr (kind-registered b x s)) v
              (registered-Describes b x s dated (inl new))),
      )

  -- With the request delivered, a creation of a board in a valid state under an id that is taken
  -- is refused, and nothing is overwritten.
  pub create_taken :
      (b : Board) (s : Server P)
      → valid_state b.state ≡ true
      → P.kind (s.at (board_profile_key b.board_id)) ≢ no_key
      → create_board P b (calm s) ≡ (err StorageError.board_exists, calm s)
  unfolding create_board create_board_script
  create_taken b s v taken = ground arith

  abbrev restated : Board → Text → Server P → Server P
  restated b state s =
      store (board_profile_key b.board_id)
        (P.hset (codes "board_state") state (s.at (board_profile_key b.board_id))) s

  set_board_state_lem :
      (b : Board) (s : Server P) (state : Text)
      → valid_state state ≡ true
      → P.kind (s.at (board_profile_key b.board_id)) ≡ hash_key
      → set_board_state P b.board_id state (calm s) ≡ (ok tt, calm (restated b state s))
  unfolding set_board_state set_board_state_script
  set_board_state_lem b s state v a = ground arith

  at-restated :
      (b : Board) (state : Text) (s : Server P)
      → (restated b state s).at (board_profile_key b.board_id)
        ≡ P.hset (codes "board_state") state (s.at (board_profile_key b.board_id))
  at-restated b state s = rw (text_eq_refl (board_profile_key b.board_id))

  kind-restated :
      (b : Board) (state : Text) (s : Server P)
      → P.kind ((restated b state s).at (board_profile_key b.board_id)) ≡ hash_key
  kind-restated b state s = ap P.kind (at-restated b state s) ∙ hashes.kind-hset _ _ _

  restated-Describes :
      (b : Board) (state : Text) (s : Server P)
      → Admits hash_key (P.kind (s.at (board_profile_key b.board_id)))
      → Describes b (s.at (board_profile_key b.board_id))
      → Describes
          (record b { state = state })
          ((restated b state s).at (board_profile_key b.board_id))
  unfolding text_eq
  restated-Describes b state s a d =
      subst (Describes (record b { state = state })) (sym (at-restated b state s)) (record {
        name = hashes.hget-hset _ _ _ _ a ∙ d.name;
        created_text = d.created_text;
        created = hashes.hget-hset _ _ _ _ a ∙ d.created;
        created_at = d.created_at;
        state = hashes.hget-hset _ _ _ _ a;
      })

  -- With every request delivered, a change to a valid state of a board whose hash describes it
  -- shows in the next read, with the rest of the board as it was.
  pub get-set_state :
      (b : Board) (s : Server P) (state : Text)
      → valid_state state ≡ true
      → P.kind (s.at (board_profile_key b.board_id)) ≡ hash_key
      → Describes b (s.at (board_profile_key b.board_id))
      → ((set_board_state P b.board_id state (calm s)).0 ≡ ok tt)
        × ((get_board P b.board_id (set_board_state P b.board_id state (calm s)).1).0
            ≡ ok (record b { state = state }))
  get-set_state b s state v a d =
      let b' : Board = record b { state = state } in
      let made = set_board_state_lem b s state v a in
      (
        ap (λ y. y.0) made,
        ap (λ y. (get_board P b.board_id y.1).0) made
            ∙ ap (λ y. y.0)
                (get_board_lem b' (restated b state s) (inr (kind-restated b state s)) v
                  (restated-Describes b state s (inr a) d)),
      )
