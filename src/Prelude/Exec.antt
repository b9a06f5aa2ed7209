-- ===== src/Prelude/Exec.antt =====
-- Stateful code that may fail. What was done before a failure stays done, so the state comes back
-- beside the error too.
use mathlib.Core.Path.{◌≡◌, refl, subst}
use apex_leaderboard.Prelude.Lists.{All}
use mathlib.Core.Bool.{Bool, true, false}
use apex_leaderboard.Prelude.Tests.{if◌then◌else◌}
use mathlib.Core.List.{List, [], ◌∷◌}

pub data Result {ℓ κ} (E : Type ℓ) (A : Type κ) : Type (ℓ ⊔ κ) where
  ok : A → Result E A
  err : E → Result E A

abbrev pub Exec : Type 0 → Type 0 → Type 0 → Type 0
Exec S E A = S → Result E A × S

module _ {S E A : Type 0} where
  abbrev pub pure : A → Exec S E A
  pure a s = (ok a, s)

  abbrev pub fail : E → Exec S E A
  fail e s = (err e, s)

  abbrev pub gets : (S → A) → Exec S E A
  gets f s = (ok (f s), s)

  abbrev pub lift : Result E A → Exec S E A
  lift r s = (r, s)

module _ {S E A B : Type 0} where
  abbrev pub continue : Result E A → (A → Exec S E B) → Exec S E B
  continue (ok a) f s = f a s
  continue (err e) f s = (err e, s)

infixl 5 ◌>>=◌ ◌>>◌
abbrev pub ◌>>=◌ : {S E A B : Type 0} → Exec S E A → (A → Exec S E B) → Exec S E B
◌>>=◌ m f s = let (r, s') = m s in continue r f s'

abbrev pub ◌>>◌ : {S E A B : Type 0} → Exec S E A → Exec S E B → Exec S E B
m >> k = m >>= λ _. k

abbrev pub bind_result {ℓ} :
    {E : Type ℓ} {A B : Type 0} → Result E A → (A → Result E B) → Result E B
bind_result (ok a) f = f a
bind_result (err e) f = err e

pub bind_ok {ℓ} :
    {E : Type ℓ} {A B : Type 0} (r : Result E A) (f : A → Result E B) (b : B)
    → bind_result r f ≡ ok b
    → (a : A) × (r ≡ ok a) × (f a ≡ ok b)
bind_ok (ok a) f b h = (a, refl, h)
bind_ok (err e) f b h = absurd (cc)

continue_ok :
    {S E A B : Type 0} (r : Result E A) (f : A → Exec S E B) (s : S) (b : B)
    → (continue r f s).0 ≡ ok b
    → (a : A) × (r ≡ ok a) × (continue r f s ≡ f a s)
continue_ok (ok a) f s b h = (a, refl, refl)
continue_ok (err e) f s b h = absurd (cc)

-- Code that succeeds is its first part's success and then the rest.
pub >>=-ok :
    {S E A B : Type 0} (m : Exec S E A) (f : A → Exec S E B) (s : S) (b : B)
    → ((m >>= f) s).0 ≡ ok b
    → (a : A) × ((m s).0 ≡ ok a) × ((m >>= f) s ≡ f a (m s).1)
>>=-ok m f s b h = continue_ok (m s).0 f (m s).1 b h

-- A loop that stops at its first error.
abbrev pub for_each : {S E A : Type 0} → (A → Exec S E (Unit {0})) → List A → Exec S E (Unit {0})
for_each f [] = pure tt
for_each f (x ∷ xs) = f x >>= λ _. for_each f xs

abbrev pub map_result : {E A B : Type 0} → (A → Result E B) → List A → Result E (List B)
map_result f [] = ok []
map_result f (x ∷ xs) = bind_result (f x) λ y. bind_result (map_result f xs) λ ys. ok (y ∷ ys)

-- What holds of the state before a check holds after it, and after what follows if the check passed.
pub lift_cases {ℓ} :
    {S E A B : Type 0} (Q : S → Type ℓ) (r : Result E A) (f : A → Exec S E B) (s : S)
    → Q s
    → ((a : A) → r ≡ ok a → Q (f a s).1)
    → Q ((lift r >>= f) s).1
lift_cases Q (ok a) f s h k = k a refl
lift_cases Q (err e) f s h k = h

-- What holds of the state before the code holds after it, whether it fails or not. One rule for each
-- way to build code.
pub record Stable {ℓ} {S E A : Type 0} (Q : S → Type ℓ) (m : Exec S E A) : Type ℓ where
  pub keeps : (s : S) → Q s → Q (m s).1

module _ {ℓ} {S E : Type 0} {Q : S → Type ℓ} where
  pub Stable-pure : {A : Type 0} (a : A) → Stable {E = E} Q (pure a)
  Stable-pure a = record { keeps = λ s h. h }

  pub Stable-fail : {A : Type 0} (e : E) → Stable {A = A} Q (fail e)
  Stable-fail e = record { keeps = λ s h. h }

  pub Stable-lift : {A : Type 0} (r : Result E A) → Stable Q (lift r)
  Stable-lift r = record { keeps = λ s h. h }

  pub Stable-if :
      {A : Type 0} (b : Bool) (m n : Exec S E A)
      → Stable Q m
      → Stable Q n
      → Stable Q (if b then m else n)
  Stable-if true m n hm hn = hm
  Stable-if false m n hm hn = hn

  bind_keeps :
      {A B : Type 0} (f : A → Exec S E B)
      → ((a : A) → Stable Q (f a))
      → (x : Result E A × S) → Q x.1
      → Q (continue x.0 f x.1).1
  bind_keeps f hf (ok a, s') h = (hf a).keeps s' h
  bind_keeps f hf (err e, s') h = h

  pub Stable-bind :
      {A B : Type 0} (m : Exec S E A) (f : A → Exec S E B)
      → Stable Q m
      → ((a : A) → Stable Q (f a))
      → Stable Q (m >>= f)
  Stable-bind m f hm hf = record { keeps = λ s h. bind_keeps f hf (m s) (hm.keeps s h) }

  pub Stable-for_each :
      {A : Type 0} (f : A → Exec S E (Unit {0})) (xs : List A)
      → ((a : A) → Stable Q (f a))
      → Stable Q (for_each f xs)
  Stable-for_each f [] h = Stable-pure tt
  Stable-for_each f (x ∷ xs) h =
      Stable-bind (f x) (λ _. for_each f xs) (h x) (λ _. Stable-for_each f xs h)

  -- The rest of the code may use that the check passed.
  pub Stable-bind-lift :
      {A B : Type 0} (r : Result E A) (f : A → Exec S E B)
      → ((a : A) → r ≡ ok a → Stable Q (f a))
      → Stable Q (lift r >>= f)
  Stable-bind-lift (ok a) f h = record { keeps = (h a refl).keeps }
  Stable-bind-lift (err e) f h = record { keeps = λ s k. k }

-- What every single result has, all of them have.
pub map_result-All {ℓ} :
    {E A B : Type 0} (Q : B → Type ℓ) (f : A → Result E B)
    → ((a : A) (b : B) → f a ≡ ok b → Q b)
    → (xs : List A) (ys : List B) → map_result f xs ≡ ok ys
    → All Q ys
map_result-All {E} {A} {B} Q f h [] ys e = rw (ys_nil e) tt
  where
    ys_nil : ◌≡◌ {A = Result E (List B)} (ok []) (ok ys) → ys ≡ []
    ys_nil k = cc
map_result-All {E} {A} {B} Q f h (x ∷ xs) ys e =
    go (f x) (map_result f xs) ys (h x) (map_result-All Q f h xs) e
  where
    go :
        (r : Result E B) (rs : Result E (List B)) (zs : List B)
        → ((b : B) → r ≡ ok b → Q b)
        → ((bs : List B) → rs ≡ ok bs → All Q bs)
        → bind_result r (λ b. bind_result rs λ bs. ok (b ∷ bs)) ≡ ok zs
        → All Q zs
    go (ok b) (ok bs) zs hb hbs k = subst (All Q) (same k) (hb b refl, hbs bs refl)
      where
        same : ◌≡◌ {A = Result E (List B)} (ok (b ∷ bs)) (ok zs) → b ∷ bs ≡ zs
        same k = cc
    go (ok b) (err x') zs hb hbs k = absurd (cc)
    go (err x') rs zs hb hbs k = absurd (cc)

pub ruleset stable_rules = (Stable-pure, Stable-fail, Stable-lift, Stable-if, Stable-bind)
