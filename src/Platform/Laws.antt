-- ===== src/Platform/Laws.antt =====
-- The documented behaviour of the platform that the theorems rest on.
use apex_leaderboard.Prelude.{
  ℕ, suc, ◌-◌, ◌*◌, ◌+◌, ◌/◌, ◌^◌, ◌≤◌, ◌<◌, Option, none, some, List, [], ◌∷◌, ◌++◌, ◌≡◌, ◌⊎◌,
  true, false, ltb, if◌then◌else◌, All, Bool, ◌||◌, ◌&&◌, ◌==◌, take, drop, length,
}
use apex_leaderboard.Prelude.Int.{ℤ, pos, negsuc, ◌+ℤ◌, neg_ℤ, ltb_ℤ, abs_ℤ}
use apex_leaderboard.Prelude.Text.{Text, text_eq, codes}
use apex_leaderboard.Decimal.{format_int}
use apex_leaderboard.ApexTime.{format_stream_id}
use apex_leaderboard.Platform.{
  Platform, Kind, no_key, hash_key, zset_key, stream_key, string_key, StreamId, Entry,
}

-- An int64 that a double holds exactly: up to 2^53, and 2^63 itself.
abbrev pub IsExact : ℤ → Type 0
IsExact n = (abs_ℤ n ≤ 2 ^ 53) ⊎ (abs_ℤ n ≡ 2 ^ 63)

abbrev pub IsSmall : ℤ → Type 0
IsSmall n = abs_ℤ n ≤ 2 ^ 53

pub record FloatLaws (P : Platform) : Type 0 where
  pub to_int-of_int : (n : ℤ) → IsSmall n → P.to_int (P.of_int n) ≡ n
  pub is_nan-of_int : (n : ℤ) → P.is_nan (P.of_int n) ≡ false
  pub trunc-of_int : (n : ℤ) → P.trunc (P.of_int n) ≡ P.of_int n
  pub float_eq-refl : (n : ℤ) → P.float_eq (P.of_int n) (P.of_int n) ≡ true
  pub float_lt-of_int :
      (a b : ℤ) → IsExact a → IsExact b → P.float_lt (P.of_int a) (P.of_int b) ≡ ltb_ℤ a b
  pub float_add-of_int :
      (a b : ℤ)
      → IsSmall a
      → IsSmall b
      → IsSmall (a +ℤ b)
      → P.float_add (P.of_int a) (P.of_int b) ≡ P.of_int (a +ℤ b)
  pub float_neg-of_int : (n : ℤ) → P.float_neg (P.of_int n) ≡ P.of_int (neg_ℤ n)
  pub parse_float-format_int :
      (n : ℤ) → IsSmall n → P.parse_float (format_int n) ≡ some (P.of_int n)
  pub tonumber-format_int : (n : ℤ) → IsSmall n → P.tonumber (format_int n) ≡ some (P.of_int n)
  pub score_of-format_int : (n : ℤ) → IsSmall n → P.score_of (format_int n) ≡ some (P.of_int n)

-- A key of the right type or no key at all, which a write creates.
abbrev pub Admits : Kind → Kind → Type 0
Admits want have = (have ≡ no_key) ⊎ (have ≡ want)

-- A read of a Go map of strings.
unfoldable pub lookup : Text → List (Text × Text) → Option Text
lookup k [] = none
lookup k ((j, v) ∷ m) = if text_eq j k then some v else lookup k m

pub record HashLaws (P : Platform) : Type 0 where
  pub hget-missing : (f : Text) → P.hget f P.missing ≡ none
  pub kind-missing : P.kind P.missing ≡ no_key
  pub kind-hset : (f x : Text) (v : P.Value) → P.kind (P.hset f x v) ≡ hash_key
  pub hget-hset :
      (f g x : Text) (v : P.Value)
      → Admits hash_key (P.kind v)
      → P.hget g (P.hset f x v) ≡ (if text_eq f g then some x else P.hget g v)
  -- HGETALL returns the fields that HGET reads
  pub lookup-hgetall : (f : Text) (v : P.Value) → lookup f (P.hgetall v) ≡ P.hget f v
  -- a time to live on one field leaves what is read until it ends
  pub kind-hexpire : (n : ℕ) (f : Text) (v : P.Value) → P.kind (P.hexpire n f v) ≡ P.kind v
  pub hget-hexpire : (n : ℕ) (f g : Text) (v : P.Value) → P.hget g (P.hexpire n f v) ≡ P.hget g v

-- a score that is read where there is none counts as zero
abbrev pub score_or_zero : (P : Platform) → Option P.Float → P.Float
score_or_zero P none = P.of_int (pos 0)
score_or_zero P (some x) = x

-- A read of a Go map of scores.
abbrev pub lookup_score : (P : Platform) → Text → List (Text × P.Float) → Option P.Float
lookup_score P k [] = none
lookup_score P k ((j, x) ∷ m) = if text_eq j k then some x else lookup_score P k m

pub record ZsetLaws (P : Platform) : Type 0 where
  pub zscore-missing : (m : Text) → P.zscore m P.missing ≡ none
  pub kind-zadd : (x : P.Float) (m : Text) (v : P.Value) → P.kind (P.zadd x m v) ≡ zset_key
  pub kind-zincrby : (x : P.Float) (m : Text) (v : P.Value) → P.kind (P.zincrby x m v) ≡ zset_key
  pub zscore-zadd :
      (x : P.Float) (k m : Text) (v : P.Value)
      → Admits zset_key (P.kind v)
      → P.zscore m (P.zadd x k v) ≡ (if text_eq k m then some x else P.zscore m v)
  pub zscore-zincrby :
      (x : P.Float) (k m : Text) (v : P.Value)
      → Admits zset_key (P.kind v)
      → P.zscore m (P.zincrby x k v) ≡ (
          if text_eq k m
          then some (P.float_add (score_or_zero P (P.zscore k v)) x)
          else P.zscore m v)
  -- a time to live leaves what is read until it ends
  pub kind-expire : (n : ℕ) (v : P.Value) → P.kind (P.expire n v) ≡ P.kind v
  pub zscore-expire : (n : ℕ) (m : Text) (v : P.Value) → P.zscore m (P.expire n v) ≡ P.zscore m v
  -- ZRANGE lists the members with their scores, each once
  pub lookup_score-zrange : (m : Text) (v : P.Value) → lookup_score P m (P.zrange v) ≡ P.zscore m v
  pub zrange-All : (v : P.Value) → All (λ e. P.zscore e.0 v ≡ some e.1) (P.zrange v)

-- The members of a sorted set by falling score: ZREVRANGE from the first to the last.
abbrev pub ranking : (P : Platform) → P.Value → List (Text × P.Float)
ranking P v = P.zrevrange (pos 0) (negsuc 0) v

abbrev pub index_of : (P : Platform) → Text → List (Text × P.Float) → Option ℕ
index_of P k [] = none
index_of P k ((j, x) ∷ l) =
    if text_eq j k then some 0 else elim (index_of P k l) [ none ↦ none | some i ↦ some (suc i) ]

abbrev pub IsDistinct : (P : Platform) → List (Text × P.Float) → Type 0
IsDistinct P [] = Unit
IsDistinct P (e ∷ l) = All (λ f. text_eq e.0 f.0 ≡ false) l × IsDistinct P l

abbrev pub IsDescending : (P : Platform) → List (Text × P.Float) → Type 0
IsDescending P [] = Unit
IsDescending P (e ∷ []) = Unit
IsDescending P (e ∷ f ∷ l) = (P.float_lt e.1 f.1 ≡ false) × IsDescending P (f ∷ l)

-- Ranks, pages and the cardinality are those of one list, which has each member once.
pub record RankLaws (P : Platform) : Type 0 where
  pub zrevrange-page :
      (a b : ℕ) (v : P.Value)
      → P.zrevrange (pos a) (pos b) v ≡ take (suc b - a) (drop a (ranking P v))
  pub zrevrank-ranking : (m : Text) (v : P.Value) → P.zrevrank m v ≡ index_of P m (ranking P v)
  pub zcard-ranking : (v : P.Value) → P.zcard v ≡ length (ranking P v)
  pub lookup_score-ranking :
      (m : Text) (v : P.Value) → lookup_score P m (ranking P v) ≡ P.zscore m v
  pub ranking-IsDistinct : (v : P.Value) → IsDistinct P (ranking P v)
  pub ranking-IsDescending : (v : P.Value) → IsDescending P (ranking P v)

-- The entries whose millisecond part is below a bound.
abbrev pub earlier : ℕ → List Entry → List Entry
earlier ms [] = []
earlier ms (e ∷ l) = let rest = earlier ms l in if ltb e.id.ms ms then e ∷ rest else rest

-- The order of stream ids, and the entries behind an id.
abbrev pub id_before : StreamId → StreamId → Bool
id_before i j = ltb i.ms j.ms || (i.ms == j.ms && ltb i.seq j.seq)

abbrev pub later : StreamId → List Entry → List Entry
later i [] = []
later i (e ∷ l) = let rest = later i l in if id_before i e.id then e ∷ rest else rest

pub record StreamLaws (P : Platform) : Type 0 where
  pub xrange-missing : P.xrange P.missing ≡ []
  pub kind-xadd :
      (now : ℕ) (fs : List (Text × Text)) (v : P.Value) → P.kind (P.xadd now fs v).1 ≡ stream_key
  pub xrange-xadd :
      (now : ℕ) (fs : List (Text × Text)) (v : P.Value)
      → Admits stream_key (P.kind v)
      → P.xrange (P.xadd now fs v).1
        ≡ P.xrange v ++ record { id = (P.xadd now fs v).0; values = fs } ∷ []
  pub xrange_by-all : (v : P.Value) → P.xrange_by (codes "-") (codes "+") none v ≡ P.xrange v
  -- an exclusive end at the first id of a millisecond leaves the entries of earlier ones
  pub xrange_by-before :
      (ms : ℕ) (v : P.Value)
      → ms < 2 ^ 63
      → P.xrange_by (codes "-") (b'(' ∷ format_stream_id (record { ms = ms; seq = 0 })) none v
        ≡ earlier ms (P.xrange v)
  pub xread-later :
      (i : StreamId) (n : ℕ) (v : P.Value)
      → i.ms < 2 ^ 63
      → i.seq < 2 ^ 63
      → P.xread (format_stream_id i) n v ≡ take n (later i (P.xrange v))

pub record StringLaws (P : Platform) : Type 0 where
  pub kind-string_set : (x : Text) (v : P.Value) → P.kind (P.string_set x v) ≡ string_key
  pub string_get-string_set : (x : Text) (v : P.Value) → P.string_get (P.string_set x v) ≡ x

-- `Time.UnixMilli`, rounded down
abbrev pub unix_milli : ℤ → ℤ
unix_milli (pos ns) = pos (ns / 1_000_000)
unix_milli (negsuc ns) = negsuc (ns / 1_000_000)

-- A time without what is below its millisecond.
abbrev pub whole_milli : ℤ → ℤ
whole_milli (pos ns) = pos (ns / 1_000_000 * 1_000_000)
whole_milli (negsuc ns) = negsuc (ns / 1_000_000 * 1_000_000 + 999_999)

-- Of the years 1 to 9999.
abbrev pub IsDated : ℤ → Type 0
IsDated (pos ns) = ns < 253_402_300_800_000_000_000
IsDated (negsuc ns) = ns < 62_135_596_800_000_000_000

pub record TimeLaws (P : Platform) : Type 0 where
  -- RFC 3339 with milliseconds holds a time of whole milliseconds, in a year of four digits
  pub parse_time-format_time :
      (t : ℤ) → IsDated t → P.parse_time (P.format_time t) ≡ some (whole_milli t)

-- The empty text is no UUID and no board id.
pub record NameLaws (P : Platform) : Type 0 where
  pub uuid-nil : P.uuid_valid [] ≡ false
  pub board_id-nil : P.board_id_valid [] ≡ false

pub record PlatformLaws (P : Platform) : Type 0 where
  pub floats : FloatLaws P
  pub hashes : HashLaws P
  pub zsets : ZsetLaws P
  pub ranks : RankLaws P
  pub streams : StreamLaws P
  pub strings : StringLaws P
  pub times : TimeLaws P
  pub names : NameLaws P
