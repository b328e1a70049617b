-- ===== src/Utils/Slugify.antt =====
-- `Slugify` (pkg/utils/slugify.go). `lower` is the standard library's lower case of one character.
pub mod Laws
use Prim.Native.String.{String, [], ◌∷◌}
use ship_status_dash.Base.{
  ℕ, Char, code, Bool, true, false, not, ◌&&◌, ◌||◌, ◌==◌, nat_eq, leb, if◌then◌else◌,
}

abbrev pub hyphen : Char
hyphen = "-"

-- `[a-z0-9]`.
abbrev pub is_slug_char : Char → Bool
is_slug_char c = (leb 97 (code c) && leb (code c) 122) || (leb 48 (code c) && leb (code c) 57)

abbrev pub is_hyphen : Char → Bool
is_hyphen c = code c == 45

-- `strings.ToLower`.
unfoldable pub to_lower : (Char → Char) → String → String
to_lower lower [] = []
to_lower lower (c ∷ s) = lower c ∷ to_lower lower s

-- Each run of `[^a-z0-9]` becomes one hyphen. The flag says that the run has begun.
replace_others : Bool → String → String
replace_others begun [] = []
replace_others begun (c ∷ s) =
    let rest = replace_others (not (is_slug_char c)) s in
    if is_slug_char c then c ∷ rest else if begun then rest else hyphen ∷ rest

-- Each run of hyphens becomes one.
collapse_hyphens : Bool → String → String
collapse_hyphens begun [] = []
collapse_hyphens begun (c ∷ s) =
    let rest = collapse_hyphens (is_hyphen c) s in
    if is_hyphen c then (if begun then rest else hyphen ∷ rest) else c ∷ rest

trim_left : String → String
trim_left [] = []
trim_left (c ∷ s) = let rest = trim_left s in if is_hyphen c then rest else c ∷ s

abbrev cons_trimmed : Char → String → String
cons_trimmed c [] = if is_hyphen c then [] else c ∷ []
cons_trimmed c (d ∷ s) = c ∷ (d ∷ s)

trim_right : String → String
trim_right [] = []
trim_right (c ∷ s) = cons_trimmed c (trim_right s)

unfoldable pub slugify : (Char → Char) → String → String
unfolding to_lower replace_others collapse_hyphens trim_left trim_right
slugify lower text =
    trim_right (trim_left (collapse_hyphens false (replace_others false (to_lower lower text))))
