-- ===== src/Base/Keys.antt =====
-- Sets of texts, as lists without repetition: what a Go map with these keys holds.
use Prim.Native.Nat.{◌≤◌}
use Prim.Native.String.{String}
use mathlib.Core.Path.{◌≡◌, refl}
use mathlib.Core.Logic.{inl, inr}
use mathlib.Core.Bool.{Bool, false, ◌||◌}
use mathlib.Core.List.{List, [], ◌∷◌}
use native.Mathlib.Omega.{arith}
use text.Mathlib.TextEquality.{eq_iff}
use ship_status_dash.Base.Tests.{◌==◌, string_eq, if◌then◌else◌, Bool-cases}
use ship_status_dash.Base.Lists.{count}

abbrev pub has_key : String → List String → Bool
has_key k [] = false
has_key k (x ∷ xs) = x == k || has_key k xs

abbrev pub insert_key : String → List String → List String
insert_key k keys = if has_key k keys then keys else k ∷ keys

abbrev pub insert_keys : List String → List String → List String
insert_keys [] keys = keys
insert_keys (k ∷ ks) keys = insert_keys ks (insert_key k keys)

-- No text twice.
abbrev pub IsDistinct : List String → Type 0
IsDistinct keys = (k : String) → count (λ x. x == k) keys ≤ 1

has_key-count :
    (k : String) (keys : List String) → has_key k keys ≡ false → count (λ x. x == k) keys ≡ 0
has_key-count k [] h = refl
has_key-count k (x ∷ xs) h = ground (arith, has_key-count k xs)

pub insert_key-IsDistinct :
    (k : String) (keys : List String) → IsDistinct keys → IsDistinct (insert_key k keys)
insert_key-IsDistinct k keys d j = elim (Bool-cases (has_key k keys)) [
  | inl e ↦ rw e (d j)
  | inr e ↦ rw e (elim (Bool-cases (k == j)) [
    | inr f ↦ rw f (omega (arith, d j))
    | inl f ↦
        let same : k ≡ j = (eq_iff k j).0 f in
        let fresh : count (λ x. x == j) keys ≡ 0 = rw (← same) (has_key-count k keys e) in
        rw f (omega (arith, fresh))
  ])
]

pub insert_keys-IsDistinct :
    (ks keys : List String) → IsDistinct keys → IsDistinct (insert_keys ks keys)
insert_keys-IsDistinct [] keys d = d
insert_keys-IsDistinct (k ∷ ks) keys d =
    insert_keys-IsDistinct ks (insert_key k keys) (insert_key-IsDistinct k keys d)
