-- ===== src/Monitor/Grouping.antt =====
-- The report holds for each sub-component what its own probes merge to, once, and nothing else.
use ship_status_dash.Base.{
  String, ◌≡◌, refl, sym, ap, ◌∙◌, inl, inr, Bool, true, false, ◌&&◌, ◌||◌, Option, none, some,
  List, [], ◌∷◌, ◌++◌, arith, eq_iff, Bool-cases, if◌then◌else◌, ◌==◌, string_eq, select,
}
use ship_status_dash.Dashboard.Report.{ReportStatus}
use ship_status_dash.Monitor.{ProbeResult}
use ship_status_dash.Monitor.Merge.{
  has_error, non_errored_statuses, Group, is_group_of, add_to_group, group_results, keep_some,
  merge_groups, merge_statuses, merge_statuses_for_sub_component,
}
use ship_status_dash.Monitor.Order.{is_for, select-sort_statuses}
use ship_status_dash.Monitor.MergeLaws.{merge_statuses_for_sub_component-Summarizes}

-- The results of the probes of a sub-component.
abbrev pub probes_of : String → String → List ProbeResult → List ProbeResult
probes_of c sub = select (λ r. r.status.component_slug == c && r.status.sub_component_slug == sub)

abbrev is_group : String → String → Group → Bool
is_group c sub g = g.component == c && g.sub_component == sub

has_group : String → String → List Group → Bool
has_group c sub [] = false
has_group c sub (g ∷ gs) = is_group c sub g || has_group c sub gs

Distinct : List Group → Type 0
Distinct [] = Unit
Distinct (g ∷ gs) = (has_group g.component g.sub_component gs ≡ false) × Distinct gs

results_of : String → String → List Group → List ProbeResult
results_of c sub [] = []
results_of c sub (g ∷ gs) =
    let rest = results_of c sub gs in if is_group c sub g then g.results else rest

has_group-add_to_group :
    (c sub : String) (r : ProbeResult) (gs : List Group)
    → has_group c sub gs ≡ false
    → (r.status.component_slug == c && r.status.sub_component_slug == sub) ≡ false
    → has_group c sub (add_to_group r gs) ≡ false
unfolding add_to_group has_group
has_group-add_to_group c sub r [] h k = ground arith
has_group-add_to_group c sub r (g ∷ gs) h k = ground (arith, has_group-add_to_group c sub r gs)

Distinct-add_to_group :
    (r : ProbeResult) (gs : List Group) → Distinct gs → Distinct (add_to_group r gs)
unfolding add_to_group Distinct has_group
Distinct-add_to_group r [] d = (refl, tt)
Distinct-add_to_group r (g ∷ gs) d = elim (Bool-cases (is_group_of r g)) [
  | inl here ↦ rw here d
  | inr away ↦ rw away (
    has_group-add_to_group g.component g.sub_component r gs d.0 (
        ground (
          arith,
          away,
          eq_iff g.component r.status.component_slug,
          eq_iff g.sub_component r.status.sub_component_slug,
          eq_iff r.status.component_slug g.component,
          eq_iff r.status.sub_component_slug g.sub_component,
        )),
    Distinct-add_to_group r gs d.1,
  )
]

append_nil : (rs : List ProbeResult) → rs ++ [] ≡ rs
append_nil [] = refl
append_nil (r ∷ rs) = ap (λ l. r ∷ l) (append_nil rs)

abbrev is_probe_of : String → String → ProbeResult → Bool
is_probe_of c sub r = r.status.component_slug == c && r.status.sub_component_slug == sub

-- A group for the same sub-component as a result belongs to the sub-components that the result does.
same_group :
    (c sub : String) (r : ProbeResult) (g : Group)
    → is_group_of r g ≡ true
    → is_group c sub g ≡ is_probe_of c sub r
same_group c sub r g h =
    let names : (g.component ≡ r.status.component_slug)
        × (g.sub_component ≡ r.status.sub_component_slug) =
      ground (
        arith,
        eq_iff g.component r.status.component_slug,
        eq_iff g.sub_component r.status.sub_component_slug,
      ) in
    rw (names.0, names.1) refl

other_group :
    (c sub : String) (r : ProbeResult) (g : Group)
    → is_group_of r g ≡ false
    → is_group c sub g ≡ true
    → is_probe_of c sub r ≡ false
other_group c sub r g h k = ground (
  arith,
  eq_iff g.component r.status.component_slug,
  eq_iff g.sub_component r.status.sub_component_slug,
  eq_iff g.component c,
  eq_iff g.sub_component sub,
  eq_iff r.status.component_slug c,
  eq_iff r.status.sub_component_slug sub,
)

one_probe :
    (c sub : String) (r : ProbeResult) (b : Bool)
    → is_probe_of c sub r ≡ b
    → probes_of c sub (r ∷ []) ≡ (if b then r ∷ [] else [])
one_probe c sub r b h = rw h

results_of-add_to_group :
    (c sub : String) (r : ProbeResult) (gs : List Group)
    → results_of c sub (add_to_group r gs) ≡ results_of c sub gs ++ probes_of c sub (r ∷ [])
unfolding add_to_group results_of
results_of-add_to_group c sub r [] = refl
results_of-add_to_group c sub r (g ∷ gs) = elim (Bool-cases (is_group_of r g)) [
  | inl here ↦ elim (Bool-cases (is_group c sub g)) [
    | inl mine ↦
        rw (here, one_probe c sub r true (sym (same_group c sub r g here) ∙ mine), mine) refl
    | inr not_mine ↦
        rw (here, one_probe c sub r false (sym (same_group c sub r g here) ∙ not_mine), not_mine)
          (sym (append_nil (results_of c sub gs)))
  ]
  | inr away ↦ elim (Bool-cases (is_group c sub g)) [
    | inl mine ↦
        rw (away, one_probe c sub r false (other_group c sub r g away mine), mine)
          (sym (append_nil g.results))
    | inr not_mine ↦ rw (away, not_mine) (results_of-add_to_group c sub r gs)
  ]
]

append_assoc : (xs ys zs : List ProbeResult) → (xs ++ ys) ++ zs ≡ xs ++ (ys ++ zs)
append_assoc [] ys zs = refl
append_assoc (x ∷ xs) ys zs = ap (λ l. x ∷ l) (append_assoc xs ys zs)

probes_of_cons :
    (c sub : String) (r : ProbeResult) (rs : List ProbeResult)
    → probes_of c sub (r ∷ rs) ≡ probes_of c sub (r ∷ []) ++ probes_of c sub rs
probes_of_cons c sub r rs = elim (Bool-cases (is_probe_of c sub r)) [
  | inl e ↦ rw e refl
  | inr e ↦ rw e refl
]

results_of-group_results :
    (c sub : String) (gs : List Group) (rs : List ProbeResult)
    → results_of c sub (group_results gs rs) ≡ results_of c sub gs ++ probes_of c sub rs
unfolding group_results
results_of-group_results c sub gs [] = sym (append_nil (results_of c sub gs))
results_of-group_results c sub gs (r ∷ rs) =
    results_of-group_results c sub (add_to_group r gs) rs
    ∙ ap (λ l. l ++ probes_of c sub rs) (results_of-add_to_group c sub r gs)
    ∙ append_assoc (results_of c sub gs) (probes_of c sub (r ∷ [])) (probes_of c sub rs)
    ∙ ap (λ l. results_of c sub gs ++ l) (sym (probes_of_cons c sub r rs))

Distinct-group_results :
    (gs : List Group) (rs : List ProbeResult) → Distinct gs → Distinct (group_results gs rs)
unfolding group_results
Distinct-group_results gs [] d = d
Distinct-group_results gs (r ∷ rs) d =
    Distinct-group_results (add_to_group r gs) rs (Distinct-add_to_group r gs d)

results_of_no_group :
    (c sub : String) (gs : List Group) → has_group c sub gs ≡ false → results_of c sub gs ≡ []
unfolding has_group results_of
results_of_no_group c sub [] h = refl
results_of_no_group c sub (g ∷ gs) h = ground (arith, results_of_no_group c sub gs)

select-keep_some :
    (c sub : String) (o : Option ReportStatus) (b : Bool) (ss : List ReportStatus)
    → ((s : ReportStatus) → o ≡ some s → is_for c sub s ≡ b)
    → select (is_for c sub) (keep_some o ss)
      ≡ (if b then keep_some o (select (is_for c sub) ss) else select (is_for c sub) ss)
select-keep_some c sub none true ss h = refl
select-keep_some c sub none false ss h = refl
select-keep_some c sub (some s) true ss h = rw (h s refl) refl
select-keep_some c sub (some s) false ss h = rw (h s refl) refl

is_for_merged :
    (c sub : String) (g : Group) (s : ReportStatus)
    → merge_statuses_for_sub_component g.component g.sub_component g.results ≡ some s
    → is_for c sub s ≡ is_group c sub g
is_for_merged c sub g s e =
    let m = merge_statuses_for_sub_component-Summarizes g.component g.sub_component g.results s e in
    rw (m.component_slug, m.sub_component_slug) refl

merge_nothing : (c sub : String) → merge_statuses_for_sub_component c sub [] ≡ none
unfolding merge_statuses_for_sub_component has_error non_errored_statuses
merge_nothing c sub = refl

abbrev merged_for : String → String → List ProbeResult → List ReportStatus
merged_for c sub rs = keep_some (merge_statuses_for_sub_component c sub rs) []

names_of_group :
    (c sub : String) (g : Group)
    → is_group c sub g ≡ true
    → (g.component ≡ c) × (g.sub_component ≡ sub)
names_of_group c sub g h = ground (arith, eq_iff g.component c, eq_iff g.sub_component sub)

select-merge_groups :
    (c sub : String) (gs : List Group)
    → Distinct gs
    → select (is_for c sub) (merge_groups gs) ≡ merged_for c sub (results_of c sub gs)
unfolding merge_groups Distinct results_of
select-merge_groups c sub [] d = rw (merge_nothing c sub) refl
select-merge_groups c sub (g ∷ gs) d =
    let o = merge_statuses_for_sub_component g.component g.sub_component g.results in
    elim (Bool-cases (is_group c sub g)) [
      | inl mine ↦
          let (e, f) = names_of_group c sub g mine in
          let alone : results_of c sub gs ≡ [] = results_of_no_group c sub gs (rw (← e, ← f) d.0) in
          let rest : select (is_for c sub) (merge_groups gs) ≡ [] =
            select-merge_groups c sub gs d.1
            ∙ ap (merged_for c sub) alone
            ∙ ap (λ x. keep_some x []) (merge_nothing c sub) in
          select-keep_some c sub o true (merge_groups gs) (λ s k. is_for_merged c sub g s k ∙ mine)
          ∙ ap (keep_some o) rest
          ∙ rw (mine, e, f) refl
      | inr other ↦
          select-keep_some c sub o false (merge_groups gs)
            (λ s k. is_for_merged c sub g s k ∙ other)
          ∙ select-merge_groups c sub gs d.1
          ∙ rw other refl
    ]

-- The statuses that a report holds for a sub-component are what the results of its own probes, in
-- their order, merge to: one status, or none if they leave it out.
pub merge_statuses-own :
    (c sub : String) (results : List ProbeResult)
    → select (is_for c sub) (merge_statuses results)
      ≡ keep_some (merge_statuses_for_sub_component c sub (probes_of c sub results)) []
unfolding merge_statuses Distinct results_of
merge_statuses-own c sub results =
    select-sort_statuses c sub (merge_groups (group_results [] results))
    ∙ select-merge_groups c sub (group_results [] results) (Distinct-group_results [] results tt)
    ∙ ap (merged_for c sub) (results_of-group_results c sub [] results)
