-- ===== src/Platform/Demo/Ranks.antt =====
-- The ranking of a sorted set of the small platform: each member once, by falling score.
use apex_leaderboard.Prelude.{
  ℕ, suc, ◌-◌, Option, none, some, List, [], ◌∷◌, true, false, ◌≡◌, refl, ◌∙◌, arith, length, take,
  drop, take-all, if◌then◌else◌, All, if_either, Bool-cases, inl, inr,
}
use apex_leaderboard.Prelude.Int.{ℤ, pos, negsuc, ltb_ℤ}
use apex_leaderboard.Prelude.Text.{Text, text_eq, text_eq_iff}
use apex_leaderboard.Platform.Demo.Values.{
  Num, nan, int, Held, members, find, on_nums, before, insert_up, without, listed, All-insert_up,
  All-without, find-listed, insert_sorted, sorted,
}

-- A negative index counts from the end.
abbrev pub from_end : ℕ → ℤ → ℕ
from_end n (pos i) = i
from_end n (negsuc i) = n - suc i

abbrev pub slice : ℤ → ℤ → List (Text × Num) → List (Text × Num)
slice start stop l =
    let n = length l in take (suc (from_end n stop) - from_end n start) (drop (from_end n start) l)

abbrev pub rank_in : Text → List (Text × Num) → Option ℕ
rank_in k [] = none
rank_in k ((j, x) ∷ l) =
    if text_eq j k then some 0 else elim (rank_in k l) [ none ↦ none | some i ↦ some (suc i) ]

abbrev pub held_ranking : Held → List (Text × Num)
held_ranking v = sorted (listed (members v))

pub slice-all : (l : List (Text × Num)) → slice (pos 0) (negsuc 0) l ≡ l
slice-all [] = refl
slice-all (e ∷ l) = take-all (suc (suc (length l) - 1) - 0) (e ∷ l) (omega arith)

abbrev pub Distinct : List (Text × Num) → Type 0
Distinct [] = Unit
Distinct (e ∷ l) = All (λ f. text_eq e.0 f.0 ≡ false) l × Distinct l

apart_sym : (k m : Text) → text_eq k m ≡ false → text_eq m k ≡ false
apart_sym k m h = ground (arith, text_eq_iff k m, text_eq_iff m k)

All-insert_sorted :
    (Q : Text × Num → Type 0) (e : Text × Num) (l : List (Text × Num))
    → Q e
    → All Q l
    → All Q (insert_sorted e l)
All-insert_sorted Q e [] h k = (h, tt)
All-insert_sorted Q e (f ∷ l) h k =
    if_either (All Q) (before e f) (h, k) (k.0, All-insert_sorted Q e l h k.1)

insert_sorted-Distinct :
    (e : Text × Num) (l : List (Text × Num))
    → All (λ f. text_eq e.0 f.0 ≡ false) l
    → Distinct l
    → Distinct (insert_sorted e l)
insert_sorted-Distinct e [] h k = (tt, tt)
insert_sorted-Distinct e (f ∷ l) h k =
    if_either Distinct (before e f) (h, k)
      (
        All-insert_sorted (λ g. text_eq f.0 g.0 ≡ false) e l (apart_sym e.0 f.0 h.0) k.0,
        insert_sorted-Distinct e l h.1 k.1,
      )

insert_up-Distinct :
    (e : Text × Num) (l : List (Text × Num))
    → All (λ f. text_eq e.0 f.0 ≡ false) l
    → Distinct l
    → Distinct (insert_up e l)
insert_up-Distinct e [] h k = (tt, tt)
insert_up-Distinct e (f ∷ l) h k =
    if_either Distinct (before f e) (h, k)
      (
        All-insert_up (λ g. text_eq f.0 g.0 ≡ false) e l (apart_sym e.0 f.0 h.0) k.0,
        insert_up-Distinct e l h.1 k.1,
      )

without-apart : (k : Text) (l : List (Text × Num)) → All (λ f. text_eq k f.0 ≡ false) (without k l)
without-apart k [] = tt
without-apart k ((j, x) ∷ l) = elim (Bool-cases (text_eq k j)) [
  | inl e ↦ rw e (without-apart k l)
  | inr e ↦ rw e (e, without-apart k l)
]

without-Distinct : (k : Text) (l : List (Text × Num)) → Distinct l → Distinct (without k l)
without-Distinct k [] h = tt
without-Distinct k ((j, x) ∷ l) h = if_either Distinct (text_eq k j) (without-Distinct k l h.1) (
  All-without (λ f. text_eq j f.0 ≡ false) (λ f. text_eq j f.0 ≡ false) k l (λ f _ p. p) h.0,
  without-Distinct k l h.1,
)

listed-Distinct : (l : List (Text × Num)) → Distinct (listed l)
listed-Distinct [] = tt
listed-Distinct (e ∷ l) =
    insert_up-Distinct e (without e.0 (listed l)) (without-apart e.0 (listed l))
      (without-Distinct e.0 (listed l) (listed-Distinct l))

sorted-All : (Q : Text × Num → Type 0) (l : List (Text × Num)) → All Q l → All Q (sorted l)
sorted-All Q [] h = tt
sorted-All Q (e ∷ l) h = All-insert_sorted Q e (sorted l) h.0 (sorted-All Q l h.1)

sorted-Distinct : (l : List (Text × Num)) → Distinct l → Distinct (sorted l)
sorted-Distinct [] h = tt
sorted-Distinct (e ∷ l) h =
    insert_sorted-Distinct e (sorted l) (sorted-All _ l h.0) (sorted-Distinct l h.1)

abbrev pub Descends : List (Text × Num) → Type 0
Descends [] = Unit
Descends (e ∷ []) = Unit
Descends (e ∷ f ∷ l) = (on_nums false ltb_ℤ e.1 f.1 ≡ false) × Descends (f ∷ l)

not_below : (e f : Text × Num) → before e f ≡ true → on_nums false ltb_ℤ e.1 f.1 ≡ false
not_below (k, nan) (j, y) h = ground arith
not_below (k, int a) (j, nan) h = ground arith
not_below (k, int a) (j, int b) h = ground arith

not_above : (e f : Text × Num) → before e f ≡ false → on_nums false ltb_ℤ f.1 e.1 ≡ false
not_above (k, nan) (j, y) h = ground arith
not_above (k, int a) (j, nan) h = ground arith
not_above (k, int a) (j, int b) h = ground arith

insert_sorted-Descends :
    (e : Text × Num) (l : List (Text × Num)) → Descends l → Descends (insert_sorted e l)
insert_sorted-Descends e [] h = tt
insert_sorted-Descends e (f ∷ []) h = elim (Bool-cases (before e f)) [
  | inl b ↦ rw b (not_below e f b, tt)
  | inr b ↦ rw b (not_above e f b, tt)
]
insert_sorted-Descends e (f ∷ g ∷ l) h = elim (Bool-cases (before e f)) [
  | inl b ↦ rw b (not_below e f b, h)
  | inr b ↦ elim (Bool-cases (before e g)) [
    | inl c ↦ rw (b, c) (not_above e f b, (not_below e g c, h.1))
    | inr c ↦ let rest = insert_sorted-Descends e (g ∷ l) h.1 in rw (b, c) (h.0, rw c at rest)
  ]
]

pub sorted-Descends : (l : List (Text × Num)) → Descends (sorted l)
sorted-Descends [] = tt
sorted-Descends (e ∷ l) = insert_sorted-Descends e (sorted l) (sorted-Descends l)

find-insert_sorted :
    (e : Text × Num) (m : Text) (l : List (Text × Num))
    → All (λ f. text_eq e.0 f.0 ≡ false) l
    → find m (insert_sorted e l) ≡ (if text_eq e.0 m then some e.1 else find m l)
find-insert_sorted e m [] h = refl
find-insert_sorted (k, x) m ((j, y) ∷ l) h =
    ground (arith, text_eq_iff k m, text_eq_iff j m, text_eq_iff k j, find-insert_sorted (k, x) m l)

find-sorted : (m : Text) (l : List (Text × Num)) → Distinct l → find m (sorted l) ≡ find m l
find-sorted m [] h = refl
find-sorted m (e ∷ l) h =
    find-insert_sorted e m (sorted l) (sorted-All _ l h.0) ∙ rw (find-sorted m l h.1) refl

pub find-held_ranking : (m : Text) (v : Held) → find m (held_ranking v) ≡ find m (members v)
find-held_ranking m v =
    find-sorted m (listed (members v)) (listed-Distinct (members v)) ∙ find-listed m (members v)

pub held_ranking-Distinct : (v : Held) → Distinct (held_ranking v)
held_ranking-Distinct v = sorted-Distinct (listed (members v)) (listed-Distinct (members v))
