-- ===== src/Base/Text.antt =====
-- Texts as the program's standard library treats them: joining, and trimming white space.
use Prim.Native.Nat.{ℕ}
use Prim.Native.Char.{code}
use Prim.Native.String.{String, [], ◌∷◌, ◌++◌}
use mathlib.Core.Bool.{Bool, ◌&&◌, ◌||◌}
use mathlib.Core.List.{List}
use ship_status_dash.Base.Tests.{leb, ◌==◌, nat_eq, string_eq, if◌then◌else◌}

-- `strings.Join`.
abbrev pub join : String → List String → String
join sep List.[] = ""
join sep (List.◌∷◌ s List.[]) = s
join sep (List.◌∷◌ s (List.◌∷◌ t r)) = s ++ (sep ++ join sep (List.◌∷◌ t r))

-- `unicode.IsSpace`.
abbrev pub is_space : ℕ → Bool
is_space c =
    (leb 9 c && leb c 13)
    || c == 32
    || c == 133
    || c == 160
    || c == 5760
    || (leb 8192 c && leb c 8202)
    || c == 8232
    || c == 8233
    || c == 8239
    || c == 8287
    || c == 12288

abbrev trim_left : String → String
trim_left [] = []
trim_left (c ∷ s) = let rest = trim_left s in if is_space (code c) then rest else c ∷ s

abbrev trim_right : String → String
trim_right [] = []
trim_right (c ∷ s) =
    let rest = trim_right s in if is_space (code c) && rest == [] then [] else c ∷ rest

-- `strings.TrimSpace`.
unfoldable pub trim_space : String → String
trim_space s = trim_left (trim_right s)
