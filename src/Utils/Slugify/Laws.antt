-- ===== src/Utils/Slugify/Laws.antt =====
-- The shape of a slug, and that a slug is its own slug.
use Prim.Native.String.{String, [], ◌∷◌}
use ship_status_dash.Base.{
  Char, Bool, true, false, ◌≡◌, refl, ◌⊎◌, inl, inr, ap, arith, Bool-cases, if◌then◌else◌,
}
use text.Mathlib.TextLemmas.{cons≢nil}
use ship_status_dash.Utils.Slugify.{
  hyphen, is_slug_char, is_hyphen, to_lower, replace_others, collapse_hyphens, trim_left,
  trim_right, cons_trimmed, slugify,
}

-- Letters, digits and single hyphens. The flag says that a hyphen stands before the text.
abbrev pub IsHyphenated : Bool → String → Type 0
IsHyphenated before [] = Unit
IsHyphenated before (c ∷ s) =
    ((is_slug_char c ≡ true) × IsHyphenated false s)
    ⊎ ((c ≡ hyphen) × (before ≡ false) × IsHyphenated true s)

-- The same, and no hyphen at the end.
abbrev pub IsBody : Bool → String → Type 0
IsBody before [] = before ≡ false
IsBody before (c ∷ s) =
    ((is_slug_char c ≡ true) × IsBody false s) ⊎ ((c ≡ hyphen) × (before ≡ false) × IsBody true s)

-- Lower-case letters and digits in words that are joined by single hyphens.
abbrev pub IsSlug : String → Type 0
IsSlug s = (s ≡ []) ⊎ IsBody true s

not_hyphen : (c : Char) → is_slug_char c ≡ true → is_hyphen c ≡ false
not_hyphen c h = ground arith

hyphen_not_slug_char : is_slug_char hyphen ≡ false
hyphen_not_slug_char = refl

replace_others-IsHyphenated : (b : Bool) (s : String) → IsHyphenated b (replace_others b s)
unfolding replace_others
replace_others-IsHyphenated b [] = tt
replace_others-IsHyphenated b (c ∷ s) = elim (Bool-cases (is_slug_char c)) [
  | inl k ↦ rw k (inl (k, replace_others-IsHyphenated false s))
  | inr k ↦ rw k (after_other b (replace_others-IsHyphenated true s))
]
  where
    after_other :
        (b : Bool)
        → IsHyphenated true (replace_others true s)
        → IsHyphenated b (if b then replace_others true s else hyphen ∷ replace_others true s)
    after_other true h = h
    after_other false h = inr (refl, refl, h)

collapse-IsHyphenated : (b : Bool) (s : String) → IsHyphenated b s → collapse_hyphens b s ≡ s
unfolding collapse_hyphens
collapse-IsHyphenated b [] h = refl
collapse-IsHyphenated b (c ∷ s) (inl (k, h)) =
    rw (not_hyphen c k) (ap (λ t. c ∷ t) (collapse-IsHyphenated false s h))
collapse-IsHyphenated b (c ∷ s) (inr (e, n, h)) =
    rw (e, n) (ap (λ t. hyphen ∷ t) (collapse-IsHyphenated true s h))

trim_left-IsHyphenated :
    (b : Bool) (s : String) → IsHyphenated b s → IsHyphenated true (trim_left s)
unfolding trim_left
trim_left-IsHyphenated b [] h = tt
trim_left-IsHyphenated b (c ∷ s) (inl (k, h)) = rw (not_hyphen c k) (inl (k, h))
trim_left-IsHyphenated b (c ∷ s) (inr (e, n, h)) = rw e (trim_left-IsHyphenated true s h)

cons_trimmed-IsBody :
    (b : Bool) (c : Char) (s : String)
    → is_slug_char c ≡ true
    → (s ≡ []) ⊎ IsBody false s
    → IsBody b (cons_trimmed c s)
cons_trimmed-IsBody b c [] k h = rw (not_hyphen c k) (inl (k, refl))
cons_trimmed-IsBody b c (d ∷ s) k (inl e) = absurd (cons≢nil e)
cons_trimmed-IsBody b c (d ∷ s) k (inr h) = inl (k, h)

cons_hyphen-IsBody :
    (s : String)
    → (s ≡ []) ⊎ IsBody true s
    → (cons_trimmed hyphen s ≡ []) ⊎ IsBody false (cons_trimmed hyphen s)
cons_hyphen-IsBody [] h = inl refl
cons_hyphen-IsBody (d ∷ s) (inl e) = absurd (cons≢nil e)
cons_hyphen-IsBody (d ∷ s) (inr h) = inr (inr (refl, refl, h))

trim_right-IsBody :
    (b : Bool) (s : String) → IsHyphenated b s → (trim_right s ≡ []) ⊎ IsBody b (trim_right s)
unfolding trim_right
trim_right-IsBody b [] h = inl refl
trim_right-IsBody b (c ∷ s) (inl (k, h)) =
    inr (cons_trimmed-IsBody b c (trim_right s) k (trim_right-IsBody false s h))
trim_right-IsBody b (c ∷ s) (inr (e, n, h)) =
    rw (e, n) (cons_hyphen-IsBody (trim_right s) (trim_right-IsBody true s h))

-- Whatever the text and the lower case of other characters, the result is empty or consists of
-- lower-case letters and digits in words joined by single hyphens, with none at either end.
pub slugify-IsSlug : (lower : Char → Char) (text : String) → IsSlug (slugify lower text)
unfolding slugify
slugify-IsSlug lower text = trim_right-IsBody true _ (
    trim_left-IsHyphenated false
      (collapse_hyphens false (replace_others false (to_lower lower text)))
      (rw (collapse-IsHyphenated false _ (replace_others-IsHyphenated false (to_lower lower text)))
        (replace_others-IsHyphenated false (to_lower lower text))))

IsHyphenated-of_IsBody : (b : Bool) (s : String) → IsBody b s → IsHyphenated b s
IsHyphenated-of_IsBody b [] h = tt
IsHyphenated-of_IsBody b (c ∷ s) (inl (k, h)) = inl (k, IsHyphenated-of_IsBody false s h)
IsHyphenated-of_IsBody b (c ∷ s) (inr (e, n, h)) = inr (e, n, IsHyphenated-of_IsBody true s h)

replace_others_fixed : (b : Bool) (s : String) → IsHyphenated b s → replace_others b s ≡ s
unfolding replace_others
replace_others_fixed b [] h = refl
replace_others_fixed b (c ∷ s) (inl (k, h)) =
    rw k (ap (λ t. c ∷ t) (replace_others_fixed false s h))
replace_others_fixed b (c ∷ s) (inr (e, n, h)) =
    rw (e, n) (ap (λ t. hyphen ∷ t) (replace_others_fixed true s h))

cons_trimmed_fixed :
    (b : Bool) (c : Char) (s : String) → IsBody b (c ∷ s) → cons_trimmed c s ≡ c ∷ s
cons_trimmed_fixed b c [] (inl (k, h)) = rw (not_hyphen c k)
cons_trimmed_fixed b c [] (inr (e, n, h)) = cc
cons_trimmed_fixed b c (d ∷ s) h = refl

trim_right_fixed : (b : Bool) (s : String) → IsBody b s → trim_right s ≡ s
unfolding trim_right
trim_right_fixed b [] h = refl
trim_right_fixed b (c ∷ s) (inl (k, h)) =
    rw (trim_right_fixed false s h) (cons_trimmed_fixed b c s (inl (k, h)))
trim_right_fixed b (c ∷ s) (inr (e, n, h)) =
    rw (trim_right_fixed true s h) (cons_trimmed_fixed b c s (inr (e, n, h)))

trim_left_fixed : (s : String) → IsBody true s → trim_left s ≡ s
unfolding trim_left
trim_left_fixed [] h = refl
trim_left_fixed (c ∷ s) (inl (k, h)) = rw (not_hyphen c k)
trim_left_fixed (c ∷ s) (inr (e, n, h)) = cc

-- What the lower case does to the characters of a slug.
pub record KeepsSlugChars (lower : Char → Char) : Type 0 where
  pub on_slug_char : (c : Char) → is_slug_char c ≡ true → lower c ≡ c
  pub on_hyphen : lower hyphen ≡ hyphen

module _ (lower : Char → Char) (keeps : KeepsSlugChars lower) where
  to_lower_fixed : (b : Bool) (s : String) → IsBody b s → to_lower lower s ≡ s
  unfolding to_lower
  to_lower_fixed b [] h = refl
  to_lower_fixed b (c ∷ s) (inl (k, h)) = cc (keeps.on_slug_char c k, to_lower_fixed false s h)
  to_lower_fixed b (c ∷ s) (inr (e, n, h)) =
      rw (e, keeps.on_hyphen) (ap (λ t. hyphen ∷ t) (to_lower_fixed true s h))

  slugify_body : (s : String) → IsBody true s → slugify lower s ≡ s
  unfolding slugify
  slugify_body s h = rw (to_lower_fixed true s h) (
      rw (replace_others_fixed false s (weaken s h)) (
        rw (collapse-IsHyphenated false s (weaken s h))
          (rw (trim_left_fixed s h) (trim_right_fixed true s h))))
    where
      weaken : (s : String) → IsBody true s → IsHyphenated false s
      weaken [] h = tt
      weaken (c ∷ s) (inl (k, h)) = inl (k, IsHyphenated-of_IsBody false s h)
      weaken (c ∷ s) (inr (e, n, h)) = cc

  slugify_fixed : (s : String) → IsSlug s → slugify lower s ≡ s
  slugify_fixed s (inl e) = rw e (unfold slugify in refl)
  slugify_fixed s (inr h) = slugify_body s h

  -- The slug of a slug is the slug itself, if the lower case keeps the characters of slugs.
  pub slugify_idem : (text : String) → slugify lower (slugify lower text) ≡ slugify lower text
  slugify_idem text = slugify_fixed (slugify lower text) (slugify-IsSlug lower text)
