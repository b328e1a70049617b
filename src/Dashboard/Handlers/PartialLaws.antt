-- ===== src/Dashboard/Handlers/PartialLaws.antt =====
-- A component that shows as Partial has a sub-component that works.
use ship_status_dash.Base.{
  suc, map, ◌≤◌, ◌<◌, String, ◌≡◌, refl, ◌≢◌, ◌⊎◌, inl, inr, true, false, List, [], ◌∷◌, arith,
  eq_iff, All, Any, length, Bool-cases, if◌then◌else◌, ◌==◌, string_eq,
}
use ship_status_dash.Types.Severity.{status_partial}
use ship_status_dash.Types.Outage.{Outage}
use ship_status_dash.Types.Config.{Component, SubComponent}
use ship_status_dash.Dashboard.Handlers.Status.{
  is_key, add_key, sub_components_with_outages, component_status,
}
use ship_status_dash.Dashboard.Handlers.StatusLaws.{component_status_iff}

-- The pigeonhole principle: different keys of a list of different keys are at most as many.
abbrev pub AllDifferent : List String → Type 0
AllDifferent [] = Unit
AllDifferent (x ∷ xs) = (is_key x xs ≡ false) × AllDifferent xs

remove_key : String → List String → List String
remove_key k [] = []
remove_key k (x ∷ xs) = if x == k then xs else x ∷ remove_key k xs

length-remove_key :
    (k : String) (keys : List String)
    → is_key k keys ≡ true
    → suc (length (remove_key k keys)) ≡ length keys
unfolding remove_key
length-remove_key k [] h = cc
length-remove_key k (x ∷ xs) h = ground (arith, length-remove_key k xs)

is_key-remove_key :
    (j k : String) (keys : List String)
    → is_key j keys ≡ true
    → (k == j) ≡ false
    → is_key j (remove_key k keys) ≡ true
unfolding remove_key
is_key-remove_key j k [] h e = h
is_key-remove_key j k (x ∷ xs) h e =
    ground (arith, is_key-remove_key j k xs, eq_iff x k, eq_iff x j, eq_iff k j)

All-keys_remove :
    (k : String) (xs keys : List String)
    → is_key k xs ≡ false
    → All (λ x. is_key x keys ≡ true) xs
    → All (λ x. is_key x (remove_key k keys) ≡ true) xs
All-keys_remove k [] keys h a = tt
All-keys_remove k (x ∷ xs) keys h a = (
  is_key-remove_key x k keys a.0 (ground (arith, eq_iff x k, eq_iff k x)),
  All-keys_remove k xs keys (ground arith) a.1,
)

pigeonhole :
    (xs keys : List String)
    → AllDifferent xs
    → All (λ x. is_key x keys ≡ true) xs
    → length xs ≤ length keys
pigeonhole [] keys d a = omega arith
pigeonhole (x ∷ xs) keys d a = omega (
  arith,
  pigeonhole xs (remove_key x keys) d.1 (All-keys_remove x xs keys d.0 a.1),
  length-remove_key x keys a.0,
)

All-or_missing :
    (xs keys : List String)
    → All (λ x. is_key x keys ≡ true) xs ⊎ Any (λ x. is_key x keys ≡ false) xs
All-or_missing [] keys = inl tt
All-or_missing (x ∷ xs) keys = elim (Bool-cases (is_key x keys)) [
  | inr e ↦ inr (inl e)
  | inl e ↦ elim (All-or_missing xs keys) [ inl a ↦ inl (e, a) | inr m ↦ inr (inr m) ]
]

missing_of_fewer :
    (xs keys : List String)
    → AllDifferent xs
    → length keys < length xs
    → Any (λ x. is_key x keys ≡ false) xs
missing_of_fewer xs keys d l = elim (All-or_missing xs keys) [
  | inl a ↦ absurd (omega (arith, pigeonhole xs keys d a))
  | inr m ↦ m
]

abbrev pub slugs : List SubComponent → List String
slugs subs = map (λ (s : SubComponent). s.slug) subs

length-slugs : (subs : List SubComponent) → length (slugs subs) ≡ length subs
length-slugs [] = refl
length-slugs (x ∷ xs) = omega (arith, length-slugs xs)

away_of_no_key :
    (k : String) (os : List Outage)
    → is_key k (sub_components_with_outages os) ≡ false
    → All (λ o. o.sub_component_name ≢ k) os
unfolding sub_components_with_outages
away_of_no_key k [] h = tt
away_of_no_key k (o ∷ os) h = (
  (λ e. absurd (key_added o.sub_component_name k (sub_components_with_outages os) h e)),
  away_of_no_key k os (ground (arith)),
)
  where
    key_added : (j k : String) (keys : List String) → is_key k (add_key j keys) ≡ false → j ≢ k
    key_added j k keys h e = ground (arith, eq_iff j k)

untouched_of_slug :
    (subs : List SubComponent) (os : List Outage)
    → Any (λ x. is_key x (sub_components_with_outages os) ≡ false) (slugs subs)
    → Any (λ sub. All (λ o. o.sub_component_name ≢ sub.slug) os) subs
untouched_of_slug [] os m = m
untouched_of_slug (x ∷ xs) os (inl e) = inl (away_of_no_key x.slug os e)
untouched_of_slug (x ∷ xs) os (inr m) = inr (untouched_of_slug xs os m)

-- If a component with different slugs for its sub-components shows as Partial, it has a
-- sub-component that none of the active outages is on.
pub component_status-untouched :
    (component : Component) (os : List Outage)
    → AllDifferent (slugs component.subcomponents)
    → component_status component os ≡ status_partial
    → Any (λ sub. All (λ o. o.sub_component_name ≢ sub.slug) os) component.subcomponents
component_status-untouched component os d h =
    let (nonempty, fewer) = ((component_status_iff component os).1).0 h in
    untouched_of_slug component.subcomponents os (
      missing_of_fewer (slugs component.subcomponents) (sub_components_with_outages os) d
        (omega (arith, fewer, length-slugs component.subcomponents)))
