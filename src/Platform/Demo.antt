-- ===== src/Platform/Demo.antt =====
-- A small platform on which the program runs: integers and NaN for doubles, lists for the values of
-- keys. It shows that the laws can hold, and the examples run on it.
mod Values
mod Streams
mod Ranks
pub use apex_leaderboard.Platform.Demo.Values.{
  Num, nan, int, Held, nothing, string, hash, zset, stream,
}
use apex_leaderboard.Platform.Demo.Values.{
  on_nums, parse_num, kind_of, find, put, find-put, fields, members, held_entries, listed,
  find-listed, listed-All,
}
use apex_leaderboard.Platform.Demo.Ranks.{
  slice, rank_in, held_ranking, slice-all, Distinct, Descends, sorted-Descends,
  held_ranking-Distinct, find-held_ranking,
}
use apex_leaderboard.Platform.Demo.Streams.{
  keep, range_by, range_by-all, range_by-before, keep-later, next_id, parse_id, up_to, from_start,
  to_end,
}
use apex_leaderboard.Prelude.{
  ℕ, suc, ◌+◌, ◌-◌, ◌^◌, ◌<◌, Option, none, some, List, [], ◌∷◌, ◌++◌, Bool, true, false, not, ◌≡◌,
  refl, ap, sym, ◌∙◌, arith, length, take, drop, leb, ltb, ◌==◌, ◌||◌, ◌&&◌, if◌then◌else◌, All,
  if_either, Bool-cases, inl, inr,
}
use apex_leaderboard.Prelude.Int.{ℤ, pos, negsuc, ◌+ℤ◌, neg_ℤ, ltb_ℤ, eqb_ℤ}
use apex_leaderboard.Prelude.Text.{
  Text, codes, text_eq, text_eq_iff, text_eq_refl, text_lt, cut, cut-append,
}
use apex_leaderboard.Decimal.{format_nat, format_int, parse_int, parse_uint}
use apex_leaderboard.Decimal.RoundTrip.{
  parse_int-format_int, parse_uint-format_nat, format_nat-Lacks_dash,
}
use apex_leaderboard.ApexTime.{format_stream_id}
use apex_leaderboard.Platform.{
  Platform, Kind, no_key, string_key, hash_key, zset_key, stream_key, StreamId, Entry,
}
use apex_leaderboard.Platform.Laws.{
  unix_milli, whole_milli, FloatLaws, HashLaws, ZsetLaws, RankLaws, ranking, index_of, IsDistinct,
  IsDescending, StreamLaws, StringLaws, later, TimeLaws, NameLaws, PlatformLaws, IsSmall,
  score_or_zero, earlier, lookup, lookup_score,
}

abbrev pub demo : Platform
demo = record {
  Float = Num;
  of_int = int;
  to_int = elim [ nan ↦ pos 0 | int n ↦ n ];
  is_nan = elim [ nan ↦ true | int n ↦ false ];
  float_lt = on_nums false ltb_ℤ;
  float_eq = on_nums false eqb_ℤ;
  trunc = λ x. x;
  round = λ x. x;
  float_add = on_nums nan (λ a b. int (a +ℤ b));
  float_neg = elim [ nan ↦ nan | int n ↦ int (neg_ℤ n) ];
  parse_float = parse_num;
  tonumber = parse_num;
  score_of = parse_num;
  uuid_valid = λ s. leb 8 (length s);
  board_id_valid = λ s. leb 3 (length s);
  board_name_valid = λ s. leb 3 (length s);
  player_name_valid = λ s. leb 3 (length s);
  trim_spaces = λ s. s;
  format_time = λ t. elim (whole_milli t) [ pos n ↦ n ∷ [] | negsuc n ↦ n ∷ 0 ∷ [] ];
  parse_time = elim [ [] ↦ none | n ∷ l ↦ some (elim l [ [] ↦ pos n | _ ∷ _ ↦ negsuc n ]) ];
  format_date = λ t. format_int (unix_milli t);
  parse_date = parse_int;
  Value = Held;
  missing = nothing;
  kind = kind_of;
  string_get = elim [ string s ↦ s | _ ↦ [] ];
  hget = λ f v. find f (fields v);
  hgetall = fields;
  zscore = λ m v. find m (members v);
  zrange = λ v. listed (members v);
  zrevrange = λ start stop v. slice start stop (held_ranking v);
  zrevrank = λ m v. rank_in m (held_ranking v);
  zcard = λ v. length (held_ranking v);
  xrange = held_entries;
  xrange_by = λ start stop count v. range_by start stop count (held_entries v);
  xread = λ after count v. range_by (b'(' ∷ after) (codes "+") (some count) (held_entries v);
  string_set = λ s _. string s;
  hset = λ f x v. hash (put f x (fields v));
  zadd = λ x m v. zset (put m x (members v));
  zincrby = λ x m v. zset (
      put m
        (on_nums nan (λ a b. int (a +ℤ b))
          (elim (find m (members v)) [ none ↦ int (pos 0) | some y ↦ y ]) x)
        (members v));
  xadd = λ now fs v. (
    next_id now (held_entries v),
    stream (held_entries v ++ record { id = next_id now (held_entries v); values = fs } ∷ []),
  );
  expire = λ _ v. v;
  hexpire = λ _ _ v. v;
}

parse_num-format_int : (n : ℤ) → IsSmall n → parse_num (format_int n) ≡ some (int n)
parse_num-format_int n h = ground (arith, parse_int-format_int n (omega arith))

demo_floats : FloatLaws demo
demo_floats = record {
  to_int-of_int = λ n _. refl;
  is_nan-of_int = λ n. refl;
  trunc-of_int = λ n. refl;
  float_eq-refl = λ n. ground arith;
  float_lt-of_int = λ a b _ _. refl;
  float_add-of_int = λ a b _ _ _. refl;
  float_neg-of_int = λ n. refl;
  parse_float-format_int = parse_num-format_int;
  tonumber-format_int = parse_num-format_int;
  score_of-format_int = parse_num-format_int;
}

lookup-find : (f : Text) (m : List (Text × Text)) → lookup f m ≡ find f m
unfolding lookup
lookup-find f [] = refl
lookup-find f ((j, v) ∷ m) = rw (lookup-find f m)

demo_hashes : HashLaws demo
demo_hashes = record {
  hget-missing = λ f. refl;
  kind-missing = refl;
  kind-hset = λ f x v. refl;
  hget-hset = λ f g x v _. find-put f g x (fields v);
  lookup-hgetall = λ f v. lookup-find f (fields v);
  kind-hexpire = λ n f v. refl;
  hget-hexpire = λ n f g v. refl;
}

score_or_zero-find :
    (o : Option Num) → (elim o [ none ↦ int (pos 0) | some y ↦ y ]) ≡ score_or_zero demo o
score_or_zero-find none = refl
score_or_zero-find (some y) = refl

lookup_score-find : (m : Text) (l : List (Text × Num)) → lookup_score demo m l ≡ find m l
lookup_score-find m [] = refl
lookup_score-find m ((j, x) ∷ l) = rw (lookup_score-find m l)

demo_zsets : ZsetLaws demo
demo_zsets = record {
  zscore-missing = λ m. refl;
  kind-zadd = λ x m v. refl;
  kind-zincrby = λ x m v. refl;
  zscore-zadd = λ x k m v _. find-put k m x (members v);
  zscore-zincrby = λ x k m v _.
      find-put k m _ (members v)
      ∙ ap
          (λ z.
            if text_eq k m
            then some (on_nums nan (λ a b. int (a +ℤ b)) z x)
            else find m (members v))
          (score_or_zero-find (find k (members v)));
  kind-expire = λ n v. refl;
  zscore-expire = λ n m v. refl;
  lookup_score-zrange = λ m v. lookup_score-find m (listed (members v)) ∙ find-listed m (members v);
  zrange-All = λ v. listed-All (members v);
}

index_of-rank_in : (m : Text) (l : List (Text × Num)) → index_of demo m l ≡ rank_in m l
index_of-rank_in m [] = refl
index_of-rank_in m ((j, x) ∷ l) = rw (index_of-rank_in m l) refl

IsDistinct-held_ranking : (l : List (Text × Num)) → Distinct l → IsDistinct demo l
IsDistinct-held_ranking [] h = tt
IsDistinct-held_ranking (e ∷ l) h = (h.0, IsDistinct-held_ranking l h.1)

IsDescending-held_ranking : (l : List (Text × Num)) → Descends l → IsDescending demo l
IsDescending-held_ranking [] h = tt
IsDescending-held_ranking (e ∷ []) h = tt
IsDescending-held_ranking (e ∷ f ∷ l) h = (h.0, IsDescending-held_ranking (f ∷ l) h.1)

ranking-held_ranking : (v : Held) → ranking demo v ≡ held_ranking v
ranking-held_ranking v = slice-all (held_ranking v)

demo_ranks : RankLaws demo
demo_ranks = record {
  zrevrange-page = λ a b v. rw (ranking-held_ranking v) refl;
  zrevrank-ranking = λ m v. rw (ranking-held_ranking v) (sym (index_of-rank_in m (held_ranking v)));
  zcard-ranking = λ v. rw (ranking-held_ranking v) refl;
  lookup_score-ranking = λ m v.
      rw (ranking-held_ranking v) (lookup_score-find m (held_ranking v)) ∙ find-held_ranking m v;
  ranking-IsDistinct = λ v.
      rw (ranking-held_ranking v)
        (IsDistinct-held_ranking (held_ranking v) (held_ranking-Distinct v));
  ranking-IsDescending = λ v.
      rw (ranking-held_ranking v)
        (IsDescending-held_ranking (held_ranking v) (sorted-Descends (listed (members v))));
}

demo_streams : StreamLaws demo
demo_streams = record {
  xrange-missing = refl;
  kind-xadd = λ now fs v. refl;
  xrange-xadd = λ now fs v _. refl;
  xrange_by-all = λ v. range_by-all (held_entries v);
  xrange_by-before = λ ms v h. range_by-before ms (held_entries v) h;
  xread-later = λ i n v h k. ap (take n) (keep-later i (held_entries v) h k);
}

demo_strings : StringLaws demo
demo_strings = record { kind-string_set = λ x v. refl; string_get-string_set = λ x v. refl }

demo_times : TimeLaws demo
demo_times = record { parse_time-format_time = elim [ pos n ↦ λ h. refl | negsuc n ↦ λ h. refl ] }

demo_names : NameLaws demo
demo_names = record { uuid-nil = refl; board_id-nil = refl }

pub demo_laws : PlatformLaws demo
demo_laws = record {
  floats = demo_floats;
  hashes = demo_hashes;
  zsets = demo_zsets;
  ranks = demo_ranks;
  streams = demo_streams;
  strings = demo_strings;
  times = demo_times;
  names = demo_names;
}
