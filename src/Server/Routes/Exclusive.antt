-- ===== src/Server/Routes/Exclusive.antt =====
-- No request fits two patterns of the table, so which one ServeMux prefers does not matter.
use apex_leaderboard.Prelude.{
  ℕ, zero, suc, get_elem?, List, [], ◌∷◌, some, Bool, true, false, not, ◌&&◌, ◌||◌, ◌≡◌, refl,
  arith, Bool-cases, Option-cases, inl, inr, sym, ap, ◌∙◌,
}
use mathlib.Core.Path.{subst}
use mathlib.Core.List.{Memᴰ}
use apex_leaderboard.Prelude.Text.{Text, codes, text_eq, text_eq_iff}
use apex_leaderboard.Server.Routes.{
  Segment, literal, wildcard, Pattern, to_endpoint, new_mux, match_segments, method_fits,
  route_from, route, path_segments,
}

-- Whether some path fits both.
unfoldable overlap : List Segment → List Segment → Bool
overlap [] [] = true
overlap [] (t ∷ ts) = false
overlap (s ∷ ss) [] = false
overlap (literal a ∷ ss) (literal b ∷ ts) = text_eq a b && overlap ss ts
overlap (literal a ∷ ss) (wildcard n ∷ ts) = overlap ss ts
overlap (wildcard n ∷ ss) (t ∷ ts) = overlap ss ts

abbrev methods_overlap : Text → Text → Bool
methods_overlap a b = text_eq a b || method_fits a b || method_fits b a

unfoldable apart : Pattern → List Pattern → Bool
unfolding overlap
apart p [] = true
apart p (q ∷ qs) =
    not (methods_overlap p.method q.method && overlap p.segments q.segments) && apart p qs

unfoldable exclusive : List Pattern → Bool
unfolding apart
exclusive [] = true
exclusive (p ∷ ps) = apart p ps && exclusive ps

-- A request fits a pattern, with these values of its names.
abbrev pub Fits : Text → List Text → Pattern → List (Text × Text) → Type 0
Fits m path p values =
    (method_fits p.method m ≡ true) × (match_segments p.segments path ≡ some values)

match_rest :
    (s : Segment) (ss : List Segment) (x : Text) (path : List Text) (v : List (Text × Text))
    → match_segments (s ∷ ss) (x ∷ path) ≡ some v
    → (v' : List (Text × Text)) × (match_segments ss path ≡ some v')
unfolding match_segments
match_rest (literal l) ss x path v h = elim (Option-cases (match_segments ss path)) [
  | inl e ↦ absurd (ground (arith, e, h))
  | inr (v', e) ↦ (v', e)
]
match_rest (wildcard n) ss x path v h = elim (Bool-cases (text_eq x [])) [
  | inl empty ↦ absurd (ground (arith, empty, h))
  | inr full ↦ elim (Option-cases (match_segments ss path)) [
    | inl e ↦ absurd (ground (arith, full, e, h))
    | inr (v', e) ↦ (v', e)
  ]
]

literal-eq :
    (l : Text) (ss : List Segment) (x : Text) (path : List Text) (v : List (Text × Text))
    → match_segments (literal l ∷ ss) (x ∷ path) ≡ some v
    → l ≡ x
unfolding match_segments
literal-eq l ss x path v h = ground (arith, text_eq_iff l x)

overlap-match :
    (ss ts : List Segment) (path : List Text) (v w : List (Text × Text))
    → match_segments ss path ≡ some v
    → match_segments ts path ≡ some w
    → overlap ss ts ≡ true
unfolding match_segments overlap
overlap-match [] [] path v w h k = refl
overlap-match [] (t ∷ ts) [] v w h k = absurd (cc)
overlap-match [] (t ∷ ts) (x ∷ path) v w h k = absurd (cc)
overlap-match (s ∷ ss) [] [] v w h k = absurd (cc)
overlap-match (s ∷ ss) [] (x ∷ path) v w h k = absurd (cc)
overlap-match (s ∷ ss) (t ∷ ts) [] v w h k = absurd (cc)
overlap-match (s ∷ ss) (t ∷ ts) (x ∷ path) v w h k =
    let (v', hs) = match_rest s ss x path v h in
    let (w', ht) = match_rest t ts x path w k in
    by_heads s t h k (overlap-match ss ts path v' w' hs ht)
  where
    by_heads :
        (s t : Segment)
        → match_segments (s ∷ ss) (x ∷ path) ≡ some v
        → match_segments (t ∷ ts) (x ∷ path) ≡ some w
        → overlap ss ts ≡ true
        → overlap (s ∷ ss) (t ∷ ts) ≡ true
    by_heads (literal a) (literal b) h k e =
        let same : a ≡ b = literal-eq a ss x path v h ∙ sym (literal-eq b ts x path w k) in
        rw ((text_eq_iff a b).1 same, e) refl
    by_heads (literal a) (wildcard n) h k e = e
    by_heads (wildcard n) t h k e = e

methods_overlap_lem :
    (a b m : Text) → method_fits a m ≡ true → method_fits b m ≡ true → methods_overlap a b ≡ true
unfolding method_fits
methods_overlap_lem a b m h k = ground (
  arith,
  text_eq_iff a m,
  text_eq_iff b m,
  text_eq_iff a b,
  text_eq_iff a (codes "GET"),
  text_eq_iff b (codes "GET"),
  text_eq_iff m (codes "HEAD"),
  text_eq_iff a (codes "HEAD"),
  text_eq_iff b (codes "HEAD"),
)

pairs_overlap :
    (m : Text) (path : List Text) (p q : Pattern) (v w : List (Text × Text))
    → Fits m path p v
    → Fits m path q w
    → (methods_overlap p.method q.method && overlap p.segments q.segments) ≡ true
pairs_overlap m path p q v w h k =
    rw
      (
        methods_overlap_lem p.method q.method m h.0 k.0,
        overlap-match p.segments q.segments path v w h.1 k.1,
      )
      refl

-- Before a pattern that fits, none of those that are apart from it does.
route_from-past :
    (seen : Bool) (q : Pattern) (ps : List Pattern) (m : Text) (path : List Text)
    → ((w : List (Text × Text)) → Fits m path q w → ⊥)
    → (later : Bool) × (route_from seen (q ∷ ps) m path ≡ route_from later ps m path)
unfolding route_from
route_from-past seen q ps m path misfit = elim (Option-cases (match_segments q.segments path)) [
  | inl e ↦ (seen, rw (route_from, e) refl)
  | inr (w, e) ↦ elim (Bool-cases (method_fits q.method m)) [
    | inl fits ↦ absurd (misfit w (fits, e))
    | inr other ↦ (true, rw (route_from, e, other) refl)
  ]
]

apart-misfit :
    (q : Pattern) (ps : List Pattern) (p : Pattern) (m : Text) (path : List Text)
    (v w : List (Text × Text))
    → apart q ps ≡ true
    → Memᴰ p ps
    → Fits m path p v
    → Fits m path q w
    → ⊥
unfolding apart
apart-misfit q [] p m path v w h k fits fits' = elim k [ ]
apart-misfit q (r ∷ ps) p m path v w h (Memᴰ.head e) fits fits' =
    let both : (methods_overlap q.method r.method && overlap q.segments r.segments) ≡ true =
      pairs_overlap m path q r w v fits' (subst (λ x. Fits m path x v) e fits) in
    ground (arith, both, h)
apart-misfit q (r ∷ ps) p m path v w h (Memᴰ.tail k) fits fits' =
    apart-misfit q ps p m path v w (ground (arith, h)) k fits fits'

route_from-exclusive :
    (seen : Bool) (ps : List Pattern) (p : Pattern) (m : Text) (path : List Text)
    (v : List (Text × Text))
    → exclusive ps ≡ true
    → Memᴰ p ps
    → Fits m path p v
    → route_from seen ps m path ≡ to_endpoint p.endpoint v
unfolding exclusive route_from
route_from-exclusive seen [] p m path v h k fits = elim k [ ]
route_from-exclusive seen (q ∷ ps) p m path v h (Memᴰ.head e) fits =
    let (method, segments) = subst (λ x. Fits m path x v) e fits in
    rw (route_from, segments, method, ap (λ (x : Pattern). x.endpoint) e) refl
route_from-exclusive seen (q ∷ ps) p m path v h (Memᴰ.tail k) fits =
    let here : apart q ps ≡ true = ground (arith, h) in
    let later : exclusive ps ≡ true = ground (arith, h) in
    let (seen', past) =
      route_from-past seen q ps m path (λ w. apart-misfit q ps p m path v w here k fits) in
    past ∙ route_from-exclusive seen' ps p m path v later k fits

exclusive-new_mux : exclusive new_mux ≡ true
unfolding exclusive apart overlap new_mux method_fits text_eq
exclusive-new_mux = refl

pub Mem-at : (n : ℕ) (ps : List Pattern) (p : Pattern) → get_elem? ps n ≡ some p → Memᴰ p ps
Mem-at n [] p h = absurd (cc)
Mem-at zero (q ∷ ps) p h = Memᴰ.head (ground (arith, h))
Mem-at (suc n) (q ∷ ps) p h = Memᴰ.tail (Mem-at n ps p h)

-- Whatever its method and path, a request that fits a pattern of NewMux goes to the handler of the
-- pattern with the values of its names: where the pattern stands in the table does not matter, and
-- no two patterns for different handlers fit one request.
pub route-Fits :
    (m path : Text) (p : Pattern) (values : List (Text × Text))
    → Memᴰ p new_mux
    → Fits m (path_segments path) p values
    → route m path ≡ to_endpoint p.endpoint values
unfolding route
route-Fits m path p values k fits =
    route_from-exclusive false new_mux p m (path_segments path) values exclusive-new_mux k fits
