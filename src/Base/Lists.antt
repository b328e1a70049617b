-- ===== src/Base/Lists.antt =====
-- Lists measured by native numbers, predicates on lists by recursion, and how often a test holds.
use Prim.Native.Nat.{ℕ, zero, suc, ◌+◌, ◌≤◌}
use mathlib.Core.Path.{◌≡◌, refl, subst}
use mathlib.Core.Logic.{◌⊎◌, inl, inr}
use mathlib.Core.Bool.{Bool}
use mathlib.Core.List.{List, [], ◌∷◌, ◌++◌}
use native.Mathlib.Omega.{arith}
use ship_status_dash.Base.Tests.{if◌then◌else◌, Bool-cases}

module _ {ℓ} {A : Type ℓ} where
  abbrev pub length : List A → ℕ
  length [] = 0
  length (x ∷ xs) = suc (length xs)

  -- How many elements pass a test.
  abbrev pub count : (A → Bool) → List A → ℕ
  count p [] = 0
  count p (x ∷ xs) = (if p x then 1 else 0) + count p xs

  -- A loop that collects the elements that pass a test.
  abbrev pub select : (A → Bool) → List A → List A
  select p [] = []
  select p (x ∷ xs) = let rest = select p xs in if p x then x ∷ rest else rest

  abbrev pub All {κ} : (A → Type κ) → List A → Type κ
  All P [] = Unit
  All P (x ∷ xs) = P x × All P xs

  -- An element that satisfies a predicate, with its place in the list.
  abbrev pub Any : (A → Type 0) → List A → Type 0
  Any P [] = ⊥
  Any P (x ∷ xs) = P x ⊎ Any P xs

  abbrev pub take : ℕ → List A → List A
  take zero xs = []
  take (suc n) [] = []
  take (suc n) (x ∷ xs) = x ∷ take n xs

  pub length-append : (xs ys : List A) → length (xs ++ ys) ≡ length xs + length ys
  length-append [] ys = omega arith
  length-append (x ∷ xs) ys = omega (arith, length-append xs ys)

  pub count-append : (p : A → Bool) (xs ys : List A) → count p (xs ++ ys) ≡ count p xs + count p ys
  count-append p [] ys = omega arith
  count-append p (x ∷ xs) ys = omega (arith, count-append p xs ys)

  pub count-le-length : (p : A → Bool) (xs : List A) → count p xs ≤ length xs
  count-le-length p [] = omega arith
  count-le-length p (x ∷ xs) = ground (arith, count-le-length p xs)

  pub length-select : (p : A → Bool) (xs : List A) → length (select p xs) ≡ count p xs
  length-select p [] = refl
  length-select p (x ∷ xs) = ground (arith, length-select p xs)

  module _ (P : A → Type 0) where
    pub All-append : (xs ys : List A) → All P xs → All P ys → All P (xs ++ ys)
    All-append [] ys h k = k
    All-append (x ∷ xs) ys h k = (h.0, All-append xs ys h.1 k)

    pub All-select : (p : A → Bool) (xs : List A) → All P xs → All P (select p xs)
    All-select p [] h = tt
    All-select p (x ∷ xs) h = elim (Bool-cases (p x)) [
      | inl e ↦ rw e (h.0, All-select p xs h.1)
      | inr e ↦ rw e (All-select p xs h.1)
    ]

pub All-at :
    {A : Type 0} (P : A → Type 0) (xs : List A) (x : A) → All P xs → Any (λ r. r ≡ x) xs → P x
All-at P [] x h m = elim m [ ]
All-at P (y ∷ ys) x h (inl e) = subst P e h.0
All-at P (y ∷ ys) x h (inr m) = All-at P ys x h.1 m

-- Going through a map meets its entries, each once, in some order.
abbrev pub Reorders : {A : Type 0} → (List A → List A) → Type 0
Reorders {A} range = (p : A → Bool) (l : List A) → count p (range l) ≡ count p l
