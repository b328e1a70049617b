-- ===== src/Base/Split.antt =====
-- Texts cut at a character or behind a prefix, as the functions of the package `strings` cut them.
use Prim.Native.Nat.{ℕ}
use Prim.Native.Char.{code}
use Prim.Native.String.{String, [], ◌∷◌, ◌++◌}
use mathlib.Core.Bool.{true, false, ◌&&◌}
use mathlib.Core.Option.{Option, none, some}
use mathlib.Core.List.{List}
use ship_status_dash.Base.Tests.{◌==◌, nat_eq, string_eq, if◌then◌else◌}

-- What follows a prefix, if the text has it.
unfoldable pub strip_prefix : String → String → Option String
strip_prefix [] s = some s
strip_prefix (p ∷ ps) [] = none
strip_prefix (p ∷ ps) (c ∷ s) = elim (code p == code c) [ true ↦ strip_prefix ps s | false ↦ none ]

-- `strings.TrimLeft` and `strings.TrimRight` for one character.
unfoldable pub trim_left_char : ℕ → String → String
trim_left_char x [] = []
trim_left_char x (c ∷ s) = let rest = trim_left_char x s in if code c == x then rest else c ∷ s

unfoldable pub trim_right_char : ℕ → String → String
trim_right_char x [] = []
trim_right_char x (c ∷ s) =
    let rest = trim_right_char x s in if code c == x && rest == [] then [] else c ∷ rest

-- `strings.SplitN(s, sep, 2)[0]`: what stands before the first separator.
unfoldable pub before_char : ℕ → String → String
before_char x [] = []
before_char x (c ∷ s) = let rest = before_char x s in if code c == x then [] else c ∷ rest

abbrev cons_first : String → List String → List String
cons_first c List.[] = List.◌∷◌ c List.[]
cons_first c (List.◌∷◌ s ss) = List.◌∷◌ (c ++ s) ss

-- `strings.Split` at one character.
unfoldable pub split_char : ℕ → String → List String
split_char x [] = List.◌∷◌ [] List.[]
split_char x (c ∷ s) =
    let rest = split_char x s in if code c == x then List.◌∷◌ [] rest else cons_first (c ∷ []) rest
