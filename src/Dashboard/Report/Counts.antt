-- ===== src/Dashboard/Report/Counts.antt =====
-- How a write changes the number of a creator's open outages on a sub-component.
use ship_status_dash.Base.{
  ℕ, ◌≤◌, String, ◌≡◌, refl, Bool, true, ◌&&◌, List, [], ◌∷◌, ◌++◌, arith, count, count-append, inl,
  inr, eq_iff, Bool-cases, nat_eq, string_eq,
}
use ship_status_dash.Types.Outage.{Outage, bare}
use ship_status_dash.Env.Lawful.{put_row}
use ship_status_dash.Repositories.Outages.{round_outage_times, reported_by}

-- Ending an outage opens none.
pub count-put_ended :
    (c sub by : String) (o : Outage) (rows : List Outage)
    → o.end_time.valid ≡ true
    → count (reported_by c sub by) (put_row o rows) ≤ count (reported_by c sub by) rows
count-put_ended c sub by o [] h = ground arith
count-put_ended c sub by o (r ∷ rs) h = ground (arith, count-put_ended c sub by o rs)

pub reported_by_lem :
    (c sub by : String) (o : Outage)
    → reported_by c sub by o ≡ true
    → (o.component_name ≡ c) × (o.sub_component_name ≡ sub) × (o.created_by ≡ by)
reported_by_lem c sub by o h =
    ground
      (arith, eq_iff o.component_name c, eq_iff o.sub_component_name sub, eq_iff o.created_by by)

-- An open outage is counted where it belongs, and nowhere else.
pub count-append_new :
    (c sub by : String) (o : Outage) (rows : List Outage)
    → count (reported_by o.component_name o.sub_component_name o.created_by) rows ≡ 0
    → count (reported_by c sub by) rows ≤ 1
    → count (reported_by c sub by) (rows ++ (bare o ∷ [])) ≤ 1
count-append_new c sub by o rows none_yet h = elim (Bool-cases (reported_by c sub by o)) [
  | inl here ↦
      let (e, f, g) = reported_by_lem c sub by o here in
      let z : count (reported_by c sub by) rows ≡ 0 = rw (← e, ← f, ← g) none_yet in
      ground (arith, count-append (reported_by c sub by) rows (bare o ∷ []))
  | inr away ↦ ground (arith, count-append (reported_by c sub by) rows (bare o ∷ []))
]

pub count-and_true :
    (q : Outage → Bool) (rows : List Outage) → count (λ o. q o && true) rows ≡ count q rows
count-and_true q [] = refl
count-and_true q (r ∷ rs) = ground (arith, count-and_true q rs)

-- No row at all matches, if the query for them found none.
pub count_of_none :
    (c sub by : String) (rows : List Outage)
    → ((p : Outage → Bool)
        → count (λ o. p (bare o)) [] ≡ count (λ o. reported_by c sub by o && p o) rows)
    → count (reported_by c sub by) rows ≡ 0
count_of_none c sub by rows h =
    omega (arith, h (λ _. true), count-and_true (reported_by c sub by) rows)

pub round_ended :
    (o : Outage) (now : ℕ)
    → (round_outage_times
        (record o { end_time = record { time = now; valid = true } })).end_time.valid
      ≡ true
unfolding round_outage_times
round_ended o now = refl

pub round_names :
    (o : Outage)
    → ((round_outage_times o).component_name ≡ o.component_name)
      × ((round_outage_times o).sub_component_name ≡ o.sub_component_name)
      × ((round_outage_times o).created_by ≡ o.created_by)
unfolding round_outage_times
round_names o = (refl, refl, refl)
