-- ===== src/Monitor/Order.antt =====
-- Sorting a report moves no status for a sub-component past another one for it.
use ship_status_dash.Base.{
  String, ◌≡◌, refl, sym, ap, ◌∙◌, inl, inr, Bool, true, false, ◌&&◌, List, [], ◌∷◌, arith, eq_iff,
  Bool-cases, if◌then◌else◌, ◌==◌, string_eq, select,
}
use ship_status_dash.Dashboard.Report.{ReportStatus}
use ship_status_dash.Monitor.Merge.{comes_before, text_ltb, insert_sorted, sort_statuses}

-- The statuses reported for a sub-component.
abbrev pub is_for : String → String → ReportStatus → Bool
is_for c sub s = s.component_slug == c && s.sub_component_slug == sub

text_ltb_irrefl : (s t : String) → s ≡ t → text_ltb s t ≡ false
text_ltb_irrefl s t e = ground (arith, eq_iff s t)

-- Statuses for the same sub-component do not come before each other.
ties :
    (c sub : String) (s t : ReportStatus)
    → is_for c sub s ≡ true
    → is_for c sub t ≡ true
    → comes_before t s ≡ false
ties c sub s t h k = ground (
  arith,
  eq_iff s.component_slug c,
  eq_iff t.component_slug c,
  eq_iff s.sub_component_slug sub,
  eq_iff t.sub_component_slug sub,
  eq_iff t.component_slug s.component_slug,
  text_ltb_irrefl t.sub_component_slug s.sub_component_slug,
)

select_cons_true :
    (c sub : String) (s : ReportStatus) (ss : List ReportStatus)
    → is_for c sub s ≡ true
    → select (is_for c sub) (s ∷ ss) ≡ s ∷ select (is_for c sub) ss
select_cons_true c sub s ss h = ground (arith)

select_cons_false :
    (c sub : String) (s : ReportStatus) (ss : List ReportStatus)
    → is_for c sub s ≡ false
    → select (is_for c sub) (s ∷ ss) ≡ select (is_for c sub) ss
select_cons_false c sub s ss h = ground (arith)

-- Where a status is inserted does not matter to those for one sub-component.
select-insert_sorted :
    (c sub : String) (s : ReportStatus) (ss : List ReportStatus)
    → select (is_for c sub) (insert_sorted s ss) ≡ select (is_for c sub) (s ∷ ss)
unfolding insert_sorted
select-insert_sorted c sub s [] = refl
select-insert_sorted c sub s (t ∷ ts) = elim (Bool-cases (comes_before t s)) [
  | inr later ↦ rw later refl
  | inl earlier ↦ rw earlier (elim (Bool-cases (is_for c sub s)) [
    | inl p ↦ elim (Bool-cases (is_for c sub t)) [
      | inl q ↦ cc (ties c sub s t p q, earlier)
      | inr q ↦
          select_cons_false c sub t (insert_sorted s ts) q
          ∙ select-insert_sorted c sub s ts
          ∙ select_cons_true c sub s ts p
          ∙ ap (λ l. s ∷ l) (sym (select_cons_false c sub t ts q))
          ∙ sym (select_cons_true c sub s (t ∷ ts) p)
    ]
    | inr p ↦ elim (Bool-cases (is_for c sub t)) [
      | inl q ↦
          select_cons_true c sub t (insert_sorted s ts) q
          ∙ ap (λ l. t ∷ l) (select-insert_sorted c sub s ts ∙ select_cons_false c sub s ts p)
          ∙ sym (select_cons_true c sub t ts q)
          ∙ sym (select_cons_false c sub s (t ∷ ts) p)
      | inr q ↦
          select_cons_false c sub t (insert_sorted s ts) q
          ∙ select-insert_sorted c sub s ts
          ∙ select_cons_false c sub s ts p
          ∙ sym (select_cons_false c sub t ts q)
          ∙ sym (select_cons_false c sub s (t ∷ ts) p)
    ]
  ])
]

select_cons_cong :
    (c sub : String) (s : ReportStatus) (xs ys : List ReportStatus)
    → select (is_for c sub) xs ≡ select (is_for c sub) ys
    → select (is_for c sub) (s ∷ xs) ≡ select (is_for c sub) (s ∷ ys)
select_cons_cong c sub s xs ys e = ap (λ l. if is_for c sub s then s ∷ l else l) e

pub select-sort_statuses :
    (c sub : String) (ss : List ReportStatus)
    → select (is_for c sub) (sort_statuses ss) ≡ select (is_for c sub) ss
unfolding sort_statuses
select-sort_statuses c sub [] = refl
select-sort_statuses c sub (s ∷ ss) =
    select-insert_sorted c sub s (sort_statuses ss)
    ∙ select_cons_cong c sub s (sort_statuses ss) ss (select-sort_statuses c sub ss)
