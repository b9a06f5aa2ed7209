-- ===== src/Platform/Demo/Values.antt =====
-- The values of the small platform: numbers, hashes and sorted sets as lists.
use apex_leaderboard.Prelude.{
  Option, none, some, List, [], ◌∷◌, Bool, true, false, ◌≡◌, refl, ◌∙◌, arith, ◌||◌, ◌&&◌,
  if◌then◌else◌, All, if_either, Bool-cases, inl, inr,
}
use apex_leaderboard.Prelude.Int.{ℤ, ltb_ℤ, eqb_ℤ}
use apex_leaderboard.Prelude.Text.{Text, text_eq, text_eq_iff, text_eq_refl, text_lt}
use apex_leaderboard.Decimal.{parse_int}
use apex_leaderboard.Platform.{Kind, no_key, string_key, hash_key, zset_key, stream_key, Entry}

pub data Num : Type 0 where
  nan : Num
  int : ℤ → Num

pub data Held : Type 0 where
  nothing : Held
  string : Text → Held
  hash : List (Text × Text) → Held
  zset : List (Text × Num) → Held
  stream : List Entry → Held

abbrev pub on_nums {ℓ} : {A : Type ℓ} → A → (ℤ → ℤ → A) → Num → Num → A
on_nums d f (int a) (int b) = f a b
on_nums d f _ _ = d

abbrev pub parse_num : Text → Option Num
parse_num s = elim (parse_int s) [ none ↦ none | some n ↦ some (int n) ]

abbrev pub kind_of : Held → Kind
kind_of nothing = no_key
kind_of (string _) = string_key
kind_of (hash _) = hash_key
kind_of (zset _) = zset_key
kind_of (stream _) = stream_key

module _ {ℓ} {A : Type ℓ} where
  abbrev pub find : Text → List (Text × A) → Option A
  find k [] = none
  find k ((j, v) ∷ m) = if text_eq j k then some v else find k m

  abbrev pub put : Text → A → List (Text × A) → List (Text × A)
  put k v [] = (k, v) ∷ []
  put k v ((j, w) ∷ m) = if text_eq j k then (k, v) ∷ m else (j, w) ∷ put k v m

  pub find-put :
      (k j : Text) (v : A) (m : List (Text × A))
      → find j (put k v m) ≡ (if text_eq k j then some v else find j m)
  find-put k j v [] = refl
  find-put k j v ((i, w) ∷ m) =
      ground (arith, text_eq_iff k j, text_eq_iff i k, text_eq_iff i j, find-put k j v m)

abbrev pub fields : Held → List (Text × Text)
fields (hash m) = m
fields _ = []

abbrev pub members : Held → List (Text × Num)
members (zset m) = m
members _ = []

abbrev pub held_entries : Held → List Entry
held_entries (stream l) = l
held_entries _ = []

-- Descending by score, then by member.
abbrev pub before : Text × Num → Text × Num → Bool
before (k, x) (j, y) = on_nums true (λ a b. ltb_ℤ b a || (eqb_ℤ a b && text_lt j k)) x y

abbrev pub insert_sorted : Text × Num → List (Text × Num) → List (Text × Num)
insert_sorted e [] = e ∷ []
insert_sorted e (f ∷ l) = if before e f then e ∷ f ∷ l else f ∷ insert_sorted e l

abbrev pub sorted : List (Text × Num) → List (Text × Num)
sorted [] = []
sorted (e ∷ l) = insert_sorted e (sorted l)

abbrev pub without : Text → List (Text × Num) → List (Text × Num)
without k [] = []
without k ((j, x) ∷ l) = let rest = without k l in if text_eq k j then rest else (j, x) ∷ rest

abbrev pub insert_up : Text × Num → List (Text × Num) → List (Text × Num)
insert_up e [] = e ∷ []
insert_up e (f ∷ l) = if before f e then e ∷ f ∷ l else f ∷ insert_up e l

-- Ascending, with each member once.
abbrev pub listed : List (Text × Num) → List (Text × Num)
listed [] = []
listed (e ∷ l) = insert_up e (without e.0 (listed l))

pub find-without :
    (k m : Text) (l : List (Text × Num))
    → find m (without k l) ≡ (if text_eq k m then none else find m l)
find-without k m [] = ground arith
find-without k m ((j, x) ∷ l) =
    ground (arith, text_eq_iff k j, text_eq_iff k m, text_eq_iff j m, find-without k m l)

pub find-insert_up :
    (e : Text × Num) (m : Text) (l : List (Text × Num))
    → find e.0 l ≡ none
    → find m (insert_up e l) ≡ (if text_eq e.0 m then some e.1 else find m l)
find-insert_up e m [] h = refl
find-insert_up (k, x) m ((j, y) ∷ l) h = ground (
  arith,
  text_eq_iff k j,
  text_eq_iff j k,
  text_eq_iff k m,
  text_eq_iff j m,
  find-insert_up (k, x) m l,
)

pub find-listed : (m : Text) (l : List (Text × Num)) → find m (listed l) ≡ find m l
find-listed m [] = refl
find-listed m ((k, x) ∷ l) =
    find-insert_up (k, x) m (without k (listed l))
      (find-without k k (listed l) ∙ rw (text_eq_refl k) refl)
    ∙ rw (find-without k m (listed l), find-listed m l) (ground arith)

pub All-insert_up :
    (Q : Text × Num → Type 0) (e : Text × Num) (l : List (Text × Num))
    → Q e
    → All Q l
    → All Q (insert_up e l)
All-insert_up Q e [] h k = (h, tt)
All-insert_up Q e (f ∷ l) h k =
    if_either (All Q) (before f e) (h, k) (k.0, All-insert_up Q e l h k.1)

pub All-without :
    (Q R : Text × Num → Type 0) (k : Text) (l : List (Text × Num))
    → ((f : Text × Num) → text_eq k f.0 ≡ false → Q f → R f)
    → All Q l
    → All R (without k l)
All-without Q R k [] step h = tt
All-without Q R k ((j, x) ∷ l) step h = elim (Bool-cases (text_eq k j)) [
  | inl e ↦ rw e (All-without Q R k l step h.1)
  | inr e ↦ rw e (step (j, x) e h.0, All-without Q R k l step h.1)
]

pub listed-All : (l : List (Text × Num)) → All (λ e. find e.0 l ≡ some e.1) (listed l)
listed-All [] = tt
listed-All ((k, x) ∷ l) =
    All-insert_up (λ e. find e.0 ((k, x) ∷ l) ≡ some e.1) (k, x) (without k (listed l))
      (rw (text_eq_refl k) refl)
      (All-without (λ e. find e.0 l ≡ some e.1) (λ e. find e.0 ((k, x) ∷ l) ≡ some e.1) k (listed l)
        (λ f e h. rw e h) (listed-All l))
