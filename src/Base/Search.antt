-- ===== src/Base/Search.antt =====
-- Sequences of bytes, and the last place where one stands in another.
use Prim.Native.Nat.{ℕ}
use Prim.Native.Char.{code}
use Prim.Native.String.{String}
use mathlib.Core.Path.{◌≡◌, refl, ap}
use mathlib.Core.Bool.{Bool, true, false, ◌&&◌}
use mathlib.Core.Option.{Option, none, some}
use mathlib.Core.List.{List, [], ◌∷◌, ◌++◌}
use ship_status_dash.Base.Tests.{◌==◌, nat_eq, if◌then◌else◌}

abbrev pub Bytes : Type 0
Bytes = List ℕ

-- The bytes of an ASCII text.
abbrev pub ascii : String → Bytes
ascii String.[] = []
ascii (String.◌∷◌ c s) = code c ∷ ascii s

unfoldable pub is_prefix : Bytes → Bytes → Bool
is_prefix [] bs = true
is_prefix (p ∷ ps) [] = false
is_prefix (p ∷ ps) (b ∷ bs) = p == b && is_prefix ps bs

abbrev split_here : Bytes → ℕ → Bytes → Option (Bytes × Bytes) → Option (Bytes × Bytes)
split_here pattern b bs (some (before, after)) = some (b ∷ before, after)
split_here pattern b bs none = if is_prefix pattern (b ∷ bs) then some ([], b ∷ bs) else none

-- `bytes.LastIndex` for a pattern that is not empty: what stands before the last place, and the rest.
unfoldable pub split_last : Bytes → Bytes → Option (Bytes × Bytes)
split_last pattern [] = none
split_last pattern (b ∷ bs) = split_here pattern b bs (split_last pattern bs)

-- The pattern stands nowhere in a sequence.
unfoldable pub Absent : Bytes → Bytes → Type 0
Absent pattern [] = Unit
Absent pattern (b ∷ bs) = (is_prefix pattern (b ∷ bs) ≡ false) × Absent pattern bs

-- It stands at the beginning, and nowhere later.
unfoldable pub IsLast : Bytes → Bytes → Type 0
IsLast pattern [] = ⊥
IsLast pattern (b ∷ bs) = (is_prefix pattern (b ∷ bs) ≡ true) × Absent pattern bs

-- What a split says of the sequence.
unfoldable pub SplitsAt : Bytes → Bytes → Option (Bytes × Bytes) → Type 0
SplitsAt pattern bs none = Absent pattern bs
SplitsAt pattern bs (some (before, after)) = (before ++ after ≡ bs) × IsLast pattern after

split_here-SplitsAt :
    (pattern : Bytes) (b : ℕ) (bs : Bytes) (o : Option (Bytes × Bytes))
    → SplitsAt pattern bs o
    → SplitsAt pattern (b ∷ bs) (split_here pattern b bs o)
unfolding SplitsAt Absent IsLast
split_here-SplitsAt pattern b bs (some (before, after)) h = (ap (λ l. b ∷ l) h.0, h.1)
split_here-SplitsAt pattern b bs none h = at_start (is_prefix pattern (b ∷ bs)) refl
  where
    at_start :
        (here : Bool)
        → is_prefix pattern (b ∷ bs) ≡ here
        → SplitsAt pattern (b ∷ bs) (if here then some ([], b ∷ bs) else none)
    at_start true e = (refl, (e, h))
    at_start false e = (e, h)

pub split_last-SplitsAt : (pattern bs : Bytes) → SplitsAt pattern bs (split_last pattern bs)
unfolding split_last SplitsAt Absent
split_last-SplitsAt pattern [] = tt
split_last-SplitsAt pattern (b ∷ bs) =
    split_here-SplitsAt pattern b bs (split_last pattern bs) (split_last-SplitsAt pattern bs)
