-- ===== src/Dashboard/Handlers/Rows.antt =====
-- What an update request does to the table of outages.
use ship_status_dash.Base.{
  ℕ, ◌≤◌, String, ◌≡◌, refl, sym, ap, ◌∙◌, ◌⊎◌, inl, inr, Bool, true, false, not, Option, none,
  some, List, [], ◌∷◌, Exec, Result, ok, err, pure, require, raise_if, subst, Result-cases,
  or_raise, or_raise-eq-ok, ◌>>=◌, ◌>>◌, arith, count, Any, ◌==◌, nat_eq,
}
use ship_status_dash.Types.Outage.{Outage, bare}
use ship_status_dash.Types.Outage.Validate.{validate}
use ship_status_dash.Env.{Error}
use ship_status_dash.Env.Lawful.{Tables, put_row}
use ship_status_dash.Repositories.Outages.{round_outage_times}
use ship_status_dash.Dashboard.Services.{Services}
use ship_status_dash.Dashboard.Services.Lawful.{AreLawful}
use ship_status_dash.Dashboard.Handlers.Http.{
  UpsertOutageRequest, Stop, Request, Response, require_outage, get_outage_error, require_component,
  require_sub_component, require_outage_id, parse_uint, respond_with_error, outage_info,
}
use ship_status_dash.Dashboard.Handlers.Access.{
  require_authorized, is_user_authorized_for_component,
}
use ship_status_dash.Types.Config.{
  Component, SubComponent, get_component_by_slug, get_sub_component_by_slug,
}
use ship_status_dash.Dashboard.Handlers.Outages.{
  apply_update, update_authorized, update_outage_json, require_valid, require_body, failure,
}
use ship_status_dash.Dashboard.Handlers.Changes.{untouched, apply_update-untouched}

-- The rows after an update in a sub-component: each row keeps the columns that an update may not
-- change, and those of other sub-components keep all.
abbrev pub AreUpdated : String → String → List Outage → List Outage → Type 0
AreUpdated c sub [] [] = Unit
AreUpdated c sub [] (r' ∷ rs') = ⊥
AreUpdated c sub (r ∷ rs) [] = ⊥
AreUpdated c sub (r ∷ rs) (r' ∷ rs') =
    (untouched r' ≡ untouched r)
    × ((r' ≡ r) ⊎ (r.component_name ≡ c) × (r.sub_component_name ≡ sub))
    × AreUpdated c sub rs rs'

-- No two rows have the same id.
abbrev pub AreDistinct : List Outage → Type 0
AreDistinct rows = (k : ℕ) → count (λ r. r.id == k) rows ≤ 1

AreUpdated-refl : (c sub : String) (rows : List Outage) → AreUpdated c sub rows rows
AreUpdated-refl c sub [] = tt
AreUpdated-refl c sub (r ∷ rs) = (refl, inl refl, AreUpdated-refl c sub rs)

count-pos :
    (o : Outage) (rows : List Outage)
    → Any (λ r. r ≡ bare o) rows
    → 1 ≤ count (λ r. r.id == o.id) rows
count-pos o [] m = elim m [ ]
count-pos o (r ∷ rs) (inl e) = let same : r.id ≡ o.id = ap (λ x. x.id) e in ground (arith, same)
count-pos o (r ∷ rs) (inr m) = ground (arith, count-pos o rs m)

put_row-AreUpdated :
    (o o' : Outage) (rows : List Outage)
    → untouched o' ≡ untouched o
    → Any (λ r. r ≡ bare o) rows
    → AreDistinct rows
    → AreUpdated o.component_name o.sub_component_name rows (put_row o' rows)
put_row-AreUpdated o o' [] e m d = elim m [ ]
put_row-AreUpdated o o' (r ∷ rs) e (inl eq) d =
    let same : r.id ≡ o'.id = ap (λ x. x.id) eq ∙ sym (ap (λ x. x.id) e) in
    let here : (r.id == o'.id) ≡ true = ground (arith, same) in
    rw here (
      ap bare e ∙ sym (ap untouched eq),
      inr (ap (λ x. x.component_name) eq, ap (λ x. x.sub_component_name) eq),
      AreUpdated-refl o.component_name o.sub_component_name rs,
    )
put_row-AreUpdated o o' (r ∷ rs) e (inr m) d =
    let same : o'.id ≡ o.id = ap (λ x. x.id) e in
    let away : (r.id == o'.id) ≡ false = ground (arith, same, count-pos o rs m, d o.id) in
    rw away (refl, inl refl, put_row-AreUpdated o o' rs e m (λ k. ground (arith, d k)))

-- A chain on whose first part, which leaves the tables alone, the rest keeps a property of the tables.
module _ {S : Type 0} (view : S → Tables) (P : Tables → Type 0) where
  behind :
      {E A B : Type 0} (m : Exec S E A) (k : A → Exec S E B) (s : S)
      → view (m s).1 ≡ view s
      → P (view s)
      → ((a : A) (t : S) → m s ≡ (ok a, t) → view t ≡ view s → P (view (k a t).1))
      → P (view ((m >>= k) s).1)
  behind {E} {A} {B} m k s kept p next = go (m s) refl
    where
      go : (q : Result E A × S) → m s ≡ q → P (view (((λ (_ : S). q) >>= k) s).1)
      go (ok a, t) e = next a t e (ap (λ x. view x.1) (sym e) ∙ kept)
      go (err x, t) e = subst P (sym (ap (λ x. view x.1) (sym e) ∙ kept)) p

  behind_require :
      {E A B : Type 0} (o : Option A) (e : E) (k : A → Exec S E B) (s : S)
      → P (view s)
      → ((a : A) → o ≡ some a → P (view (k a s).1))
      → P (view ((require o e >>= k) s).1)
  behind_require none e k s p next = p
  behind_require (some a) e k s p next = next a refl

  behind_test :
      {E B : Type 0} (b : Bool) (e : E) (k : Exec S E B) (s : S)
      → P (view s)
      → P (view (k s).1)
      → P (view ((raise_if b e >> k) s).1)
  behind_test true e k s p next = p
  behind_test false e k s p next = next

module _ {S : Type 0} (v : Services S) (view : S → Tables) (law : AreLawful v view) where
  apply_update-Leaves :
      (u : UpsertOutageRequest) (o : Outage) (s : S) → view (apply_update v u o s).1 ≡ view s
  unfolding apply_update
  apply_update-Leaves u o s = grind (arith, law.now_keeps)

  written-AreUpdated :
      (o changed : Outage) (user : String) (s : S)
      → untouched changed ≡ untouched o
      → Any (λ r. r ≡ bare o) (view s).outages
      → AreDistinct (view s).outages
      → AreUpdated o.component_name o.sub_component_name
          (view s).outages
          (view (v.outage_manager.update_outage changed user s).1).outages
  unfolding round_outage_times
  written-AreUpdated o changed user s e m d =
      elim (Result-cases (v.outage_manager.update_outage changed user s).0) [
        | inl (o', f) ↦
            let a = law.manager.update_ok changed o' user s f in
            rw a.outages (put_row-AreUpdated o (round_outage_times changed) (view s).outages e m d)
        | inr (x, f) ↦
            rw (law.manager.update_err changed user x s f)
              (AreUpdated-refl o.component_name o.sub_component_name (view s).outages)
      ]

  answered-Leaves :
      {A B : Type 0} (m : Exec S Error A) (f : Error → Stop) (g : A → B) (s : S)
      → view ((or_raise m f >>= λ a. pure (g a)) s).1 ≡ view (m s).1
  answered-Leaves m f g s = ground arith

  raised-Leaves :
      {A : Type 0} (m : Exec S Error A) (f : Error → Stop) (s : S)
      → view (or_raise m f s).1 ≡ view (m s).1
  raised-Leaves m f s = ground arith

  module _ (r : Request) (s : S) (distinct : AreDistinct (view s).outages) where
    abbrev IsUpdated : Tables → Type 0
    IsUpdated w = AreUpdated r.component_name r.sub_component_name (view s).outages w.outages

    unchanged-IsUpdated : IsUpdated (view s)
    unchanged-IsUpdated = AreUpdated-refl r.component_name r.sub_component_name (view s).outages

    behind_valid :
        {B : Type 0} (result : String × Bool) (k : Exec S Stop B) (t : S)
        → IsUpdated (view t)
        → IsUpdated (view (k t).1)
        → IsUpdated (view ((require_valid result >> k) t).1)
    behind_valid (message, valid) k t p q = behind_test view IsUpdated (not valid) _ k t p q

    abbrev updated_response : Outage → Response
    updated_response saved = record { status_code = 200; body = outage_info saved }

    -- The parts of the handler from its last to its first.
    abbrev save : String → Outage → Exec S Stop Response
    save user changed = do
      saved ←
          or_raise (v.outage_manager.update_outage changed user)
            (failure v "Failed to update outage")
      pure (updated_response saved)

    abbrev write : String → Outage → Exec S Stop Response
    write user changed = do require_valid (validate changed); save user changed

    abbrev change : String → Outage → UpsertOutageRequest → Exec S Stop Response
    change user o u = do changed ← apply_update v u o; write user changed

    abbrev read_body : String → Outage → Exec S Stop Response
    read_body user o = do u ← require_body r.upsert; change user o u

    write-IsUpdated :
        (user : String) (o changed : Outage) (t : S)
        → o.component_name ≡ r.component_name
        → o.sub_component_name ≡ r.sub_component_name
        → untouched changed ≡ untouched o
        → Any (λ x. x ≡ bare o) (view s).outages
        → view t ≡ view s
        → IsUpdated (view (write user changed t).1)
    write-IsUpdated user o changed t component sub e row kept =
        behind_valid (validate changed) (save user changed) t (rw kept unchanged-IsUpdated) (
          let done = written-AreUpdated o changed user t e (rw kept row) (rw kept distinct) in
          rw
            (answered-Leaves (v.outage_manager.update_outage changed user)
              (failure v "Failed to update outage") updated_response t)
            (rw (kept, component, sub) at done))

    change-IsUpdated :
        (user : String) (o : Outage) (u : UpsertOutageRequest) (t : S)
        → o.component_name ≡ r.component_name
        → o.sub_component_name ≡ r.sub_component_name
        → Any (λ x. x ≡ bare o) (view s).outages
        → view t ≡ view s
        → IsUpdated (view (change user o u t).1)
    change-IsUpdated user o u t component sub row kept =
        behind view IsUpdated (apply_update v u o) (write user) t (apply_update-Leaves u o t)
          (rw kept unchanged-IsUpdated)
          (λ changed t2 e kept2.
            write-IsUpdated user o changed t2 component sub
              (apply_update-untouched v u o changed t t2 e) row (kept2 ∙ kept))

    update_authorized-IsUpdated :
        (user : String) (id : ℕ) → IsUpdated (view (update_authorized v r user id s).1)
    update_authorized-IsUpdated user id =
        let get = v.outage_manager.get_outage_by_id r.component_name r.sub_component_name id in
        behind view IsUpdated (require_outage v r id) (read_body user) s
          (raised-Leaves get (get_outage_error v) s
            ∙ law.manager.by_id_keeps r.component_name r.sub_component_name id s)
          unchanged-IsUpdated
          (λ o t e kept.
            let (same_id, component, sub, row) =
              law.manager.by_id_row r.component_name r.sub_component_name id s o
                (ap (λ x. x.0) (or_raise-eq-ok get (get_outage_error v) s e)) in
            behind_require view IsUpdated r.upsert (respond_with_error 400 "Invalid request body")
              (change user o) t (rw kept unchanged-IsUpdated)
              (λ u _. change-IsUpdated user o u t component sub row kept))

    abbrev forbidden : Stop
    forbidden =
        respond_with_error 403 "You are not authorized to perform this action on this component"

    abbrev permit : String → ℕ → Component → SubComponent → Exec S Stop Response
    permit user id component _ =
        require_authorized v user component >> update_authorized v r user id

    abbrev find_sub : String → ℕ → Component → Exec S Stop Response
    find_sub user id component =
        require_sub_component v "Sub-Component not found" component r.sub_component_name
        >>= permit user id component

    abbrev find_component : String → ℕ → Exec S Stop Response
    find_component user id = require_component v r.component_name >>= find_sub user id

    abbrev find_id : String → Exec S Stop Response
    find_id user = require_outage_id v r >>= find_component user

    -- Over lawful services, on a table without two rows of one id: after any update request, however it
    -- ends, the table has the same rows in the same order, each with the id, component, sub-component,
    -- creator and source that it had; and the rows of other sub-components than the request's are as
    -- they were.
    pub update_outage_json-AreUpdated :
        AreUpdated r.component_name r.sub_component_name
          (view s).outages
          (view (update_outage_json v r s).1).outages
    unfolding update_outage_json
    update_outage_json-AreUpdated =
        behind_require view IsUpdated r.user (respond_with_error 401 "no active user found") find_id
          s unchanged-IsUpdated
          (λ user _.
            behind_require view IsUpdated (parse_uint r.outage_id)
              (respond_with_error 400 "Invalid outage ID") (find_component user) s
              unchanged-IsUpdated
              (λ id _.
                behind_require view IsUpdated (get_component_by_slug (v.config s) r.component_name)
                  (respond_with_error 404 "Component not found") (find_sub user id) s
                  unchanged-IsUpdated
                  (λ component _.
                    behind_require view IsUpdated
                      (get_sub_component_by_slug component r.sub_component_name)
                      (respond_with_error 404 "Sub-Component not found") (permit user id component)
                      s unchanged-IsUpdated
                      (λ sub _.
                        behind_test view IsUpdated
                          (not (is_user_authorized_for_component v s user component)) forbidden
                          (update_authorized v r user id) s unchanged-IsUpdated
                          (update_authorized-IsUpdated user id)))))
