-- ===== src/Storage/Views/Batches.antt =====
-- The ledger as batches: what lies behind a cursor, and what a batch makes of its entries.
use apex_leaderboard.Prelude.{
  ◌+◌, ◌≤◌, ◌<◌, ◌^◌, List, [], ◌∷◌, ◌++◌, true, false, ◌≡◌, refl, arith, length,
}
use apex_leaderboard.Prelude.Exec.{ok, err}
use apex_leaderboard.Platform.{Platform, StreamId, Entry}
use apex_leaderboard.Platform.Laws.{id_before, later}
use apex_leaderboard.Ledger.{Event}
use apex_leaderboard.ApexTime.{format_stream_id}
use apex_leaderboard.Storage.Entry.{entry_to_event}
use apex_leaderboard.Storage.Views.{batch_of, sort_entry}

-- Ids that ascend from one that comes before them, as XADD gives them.
abbrev pub Ascends : StreamId → List Entry → Type 0
Ascends i [] = Unit
Ascends i (e ∷ l) =
    (id_before i e.id ≡ true) × (e.id.ms < 2 ^ 63) × (e.id.seq < 2 ^ 63) × Ascends e.id l

abbrev pub last_id : StreamId → List Entry → StreamId
last_id i [] = i
last_id i (e ∷ l) = last_id e.id l

id_before_trans :
    (i j k : StreamId) → id_before i j ≡ true → id_before j k ≡ true → id_before i k ≡ true
id_before_trans i j k h g = ground arith

later-all : (i j : StreamId) (l : List Entry) → id_before i j ≡ true → Ascends j l → later i l ≡ l
later-all i j [] h a = refl
later-all i j (e ∷ l) h a =
    rw (id_before_trans i j e.id h a.0, later-all i e.id l (id_before_trans i j e.id h a.0) a.3)
      refl

later_self : (i : StreamId) (l : List Entry) → Ascends i l → later i l ≡ l
later_self i [] a = refl
later_self i (e ∷ l) a = rw (a.0, later-all i e.id l a.0 a.3) refl

-- From the id before an ascending list, nothing before it is met again.
not_before : (i j : StreamId) → id_before i j ≡ true → id_before j i ≡ false
not_before i j h = ground arith

last_id-after :
    (i : StreamId) (e : Entry) (l : List Entry)
    → Ascends i (e ∷ l)
    → id_before i (last_id i (e ∷ l)) ≡ true
last_id-after i e [] a = a.0
last_id-after i e (f ∷ l) a =
    id_before_trans i e.id (last_id e.id (f ∷ l)) a.0 (last_id-after e.id f l a.3)

not_self : (i : StreamId) → id_before i i ≡ false
not_self i = ground arith

not_later :
    (i : StreamId) (e : Entry) (l : List Entry)
    → Ascends i (e ∷ l)
    → id_before (last_id i (e ∷ l)) e.id ≡ false
not_later i e [] a = not_self e.id
not_later i e (f ∷ l) a = not_before e.id (last_id e.id (f ∷ l)) (last_id-after e.id f l a.3)

pub Ascends-rest :
    (i : StreamId) (xs ys : List Entry) → Ascends i (xs ++ ys) → Ascends (last_id i xs) ys
Ascends-rest i [] ys a = a
Ascends-rest i (e ∷ xs) ys a = Ascends-rest e.id xs ys a.3

Ascends-start : (i : StreamId) (xs ys : List Entry) → Ascends i (xs ++ ys) → Ascends i xs
Ascends-start i [] ys a = tt
Ascends-start i (e ∷ xs) ys a = (a.0, a.1, a.2, Ascends-start e.id xs ys a.3)

-- What lies behind the last id of a prefix is the rest.
pub later-rest :
    (i : StreamId) (xs ys : List Entry)
    → Ascends i (xs ++ ys)
    → later (last_id i xs) (xs ++ ys) ≡ ys
later-rest i [] ys a = later_self i ys a
later-rest i (e ∷ xs) ys a =
    rw (not_later i e xs (Ascends-start i (e ∷ xs) ys a), later-rest e.id xs ys a.3) refl

pub last_id-append :
    (i : StreamId) (xs ys : List Entry) → last_id i (xs ++ ys) ≡ last_id (last_id i xs) ys
last_id-append i [] ys = refl
last_id-append i (e ∷ xs) ys = last_id-append e.id xs ys

pub last_id-bound :
    (i : StreamId) (xs ys : List Entry)
    → (i.ms < 2 ^ 63) × (i.seq < 2 ^ 63)
    → Ascends i (xs ++ ys)
    → ((last_id i xs).ms < 2 ^ 63) × ((last_id i xs).seq < 2 ^ 63)
last_id-bound i [] ys h a = h
last_id-bound i (e ∷ xs) ys h a = last_id-bound e.id xs ys (a.1, a.2) a.3

module _ (P : Platform) where
  -- The events of the entries that decode, in order.
  abbrev pub decoded : List Entry → List Event
  decoded [] = []
  decoded (x ∷ xs) = elim (entry_to_event P x) [ ok e ↦ e ∷ decoded xs | err _ ↦ decoded xs ]

  pub decoded-append : (xs ys : List Entry) → decoded (xs ++ ys) ≡ decoded xs ++ decoded ys
  decoded-append [] ys = refl
  decoded-append (x ∷ xs) ys = ground (arith, decoded-append xs ys)

  pub batch_of-events : (xs : List Entry) → (batch_of P xs).events ≡ decoded xs
  unfolding batch_of sort_entry
  batch_of-events [] = refl
  batch_of-events (x ∷ []) = ground arith
  batch_of-events (x ∷ y ∷ xs) = ground (arith, batch_of-events (y ∷ xs))

  pub length-batch_of :
      (xs : List Entry)
      → length (batch_of P xs).events + length (batch_of P xs).rejected ≡ length xs
  unfolding batch_of sort_entry
  length-batch_of [] = refl
  length-batch_of (x ∷ []) = ground arith
  length-batch_of (x ∷ y ∷ xs) = ground (arith, length-batch_of (y ∷ xs))

  pub batch_of-last :
      (i : StreamId) (x : Entry) (xs : List Entry)
      → (batch_of P (x ∷ xs)).last_id ≡ format_stream_id (last_id i (x ∷ xs))
  unfolding batch_of sort_entry
  batch_of-last i x [] = ground arith
  batch_of-last i x (y ∷ xs) = ground (arith, batch_of-last x.id y xs)

  pub length-decoded : (xs : List Entry) → length (decoded xs) ≤ length xs
  length-decoded [] = ground arith
  length-decoded (x ∷ xs) = ground (arith, length-decoded xs)
