-- ===== src/Base/Monad.antt =====
-- Computations with state and errors. What an action wrote before an error stays written, so the
-- state comes back beside the error too.
use mathlib.Core.Path.{◌≡◌, refl, ap}
use mathlib.Core.Logic.{◌⊎◌, inl, inr}
use mathlib.Core.Bool.{Bool, true, false}
use mathlib.Core.Option.{Option, none, some}

pub data Result (E A : Type 0) : Type 0 where
  ok : A → Result E A
  err : E → Result E A

abbrev pub Exec : Type 0 → Type 0 → Type 0 → Type 0
Exec S E A = S → Result E A × S

module _ {S E A : Type 0} where
  abbrev pub pure : A → Exec S E A
  pure a s = (ok a, s)

  abbrev pub raise : E → Exec S E A
  raise e s = (err e, s)

  abbrev pub require : Option A → E → Exec S E A
  require none e s = (err e, s)
  require (some a) e s = (ok a, s)

  -- Run an action and go on with its result, error or not.
  abbrev pub attempt : {E' : Type 0} → Exec S E A → Exec S E' (Result E A)
  attempt m s = let (r, s') = m s in (ok r, s')

  -- The same action, whose error a caller reports as another.
  abbrev pub or_raise : {E' : Type 0} → Exec S E A → (E → E') → Exec S E' A
  or_raise m f s = let (r, s') = m s in elim r [ ok a ↦ (ok a, s') | err e ↦ (err (f e), s') ]

module _ {S E A B : Type 0} where
  infixl 5 ◌>>=◌ ◌>>◌
  abbrev pub ◌>>=◌ : Exec S E A → (A → Exec S E B) → Exec S E B
  ◌>>=◌ m f s = let (r, s') = m s in elim r [ ok a ↦ f a s' | err e ↦ (err e, s') ]

  abbrev pub ◌>>◌ : Exec S E A → Exec S E B → Exec S E B
  m >> k = m >>= λ _. k

abbrev pub raise_if : {S E : Type 0} → Bool → E → Exec S E (Unit {0})
raise_if true e s = (err e, s)
raise_if false e s = (ok tt, s)

pub Result-cases :
    {E A : Type 0} (r : Result E A) → ((a : A) × (r ≡ ok a)) ⊎ ((e : E) × (r ≡ err e))
Result-cases (ok a) = inl (a, refl)
Result-cases (err e) = inr (e, refl)

-- A chain that succeeds passed through a success of its first part.
pub bind-eq-ok :
    {S E A B : Type 0} (m : Exec S E A) (f : A → Exec S E B) (s : S) {b : B} {s' : S}
    → (m >>= f) s ≡ (ok b, s')
    → (a : A) × (t : S) × (m s ≡ (ok a, t)) × (f a t ≡ (ok b, s'))
bind-eq-ok {S} {E} {A} {B} m f s {b} {s'} h = go (m s) refl h
  where
    go :
        (p : Result E A × S)
        → m s ≡ p
        → (let (r, t) = p in elim r [ ok a ↦ f a t | err e ↦ (err e, t) ]) ≡ (ok b, s')
        → (a : A) × (t : S) × (m s ≡ (ok a, t)) × (f a t ≡ (ok b, s'))
    go (ok a, t) e h = (a, t, e, h)
    go (err x, t) e h = cc

-- A chain goes on from a success of its first part.
pub bind-ok :
    {S E A B : Type 0} (m : Exec S E A) (f : A → Exec S E B) (s : S) {a : A} {t : S}
    → m s ≡ (ok a, t)
    → (m >>= f) s ≡ f a t
bind-ok {S} {E} {A} {B} m f s e =
    ap
      (λ (p : Result E A × S). elim p.0 as (λ _. Result E B × S) [
        | ok a ↦ f a p.1
        | err x ↦ (err x, p.1)
      ])
      e

-- An error under another name is an error still.
pub or_raise-eq-ok :
    {S E E' A : Type 0} (m : Exec S E A) (f : E → E') (s : S) {a : A} {t : S}
    → or_raise m f s ≡ (ok a, t)
    → m s ≡ (ok a, t)
or_raise-eq-ok {S} {E} {E'} {A} m f s {a} {t} h = go (m s) refl h
  where
    go :
        (p : Result E A × S)
        → m s ≡ p
        → (let (r, u) = p in
            elim r as (λ _. Result E' A × S) [ ok b ↦ (ok b, u) | err x ↦ (err (f x), u) ])
          ≡ (ok a, t)
        → m s ≡ (ok a, t)
    go (ok b, u) e h = cc
    go (err x, u) e h = cc
