-- ===== src/Monitor/Junit/Probe/Laws.antt =====
-- The JUnit probe always sends a result.
use ship_status_dash.Base.{
  ◌+◌, ◌≤◌, String, ◌≡◌, refl, ap, subst, ◌<>◌, ◌∙◌, ◌≢◌, inl, inr, Bool, true, false, Option, none,
  some, List, [], ◌∷◌, Exec, Result, ok, err, pure, or_raise, ◌>>=◌, arith, eq_iff, count, Reorders,
  bind-eq-ok, or_raise-eq-ok, Bool-cases, ◌==◌, nat_eq, string_eq, if◌then◌else◌, IsDistinct,
  trim_space, insert_keys-IsDistinct, insert_keys,
}
use ship_status_dash.Monitor.{ProbeResult}
use ship_status_dash.Monitor.Junit.{
  JunitError, wrap, JunitProber, Surroundings, prow_object_latest_build, prow_log_object_url,
  format_error_result,
}
use ship_status_dash.Monitor.Junit.Builds.{
  next_after, found_previous, list_build_id_prefixes, insert_build, sort_build_ids_desc, candidates,
  find_previous_build_id, resolve_build_ids_to_evaluate, check_build_staleness, is_build_finished,
  fetch_text,
}
use ship_status_dash.Monitor.Junit.Probe.{
  Ending, sent, panicked, without, evaluate_builds, evaluate_from, result_or, unless_stale,
  from_previous, by_finished, from_latest, probe_latest, probe_or_error, ending, probe,
}

module _ {S : Type 0} (w : Surroundings S) where
  count-insert_build :
      (q : String → Bool) (a : String) (bs : List String)
      → count q (insert_build w a bs) ≡ count q (a ∷ bs)
  unfolding insert_build
  count-insert_build q a [] = refl
  count-insert_build q a (b ∷ bs) = ground (arith, count-insert_build q a bs)

  -- Sorting keeps the builds.
  pub count-sort_build_ids_desc :
      (q : String → Bool) (bs : List String) → count q (sort_build_ids_desc w bs) ≡ count q bs
  unfolding sort_build_ids_desc
  count-sort_build_ids_desc q [] = refl
  count-sort_build_ids_desc q (b ∷ bs) =
      count-insert_build q b (sort_build_ids_desc w bs)
      ∙ ap (λ n. (if q b then 1 else 0) + n) (count-sort_build_ids_desc q bs)

next_after-other :
    (current previous : String) (bs : List String)
    → count (λ x. x == current) bs ≤ 1
    → next_after current bs ≡ some previous
    → previous ≢ current
unfolding next_after
next_after-other current previous [] d h = cc
next_after-other current previous (x ∷ []) d h = cc
next_after-other current previous (x ∷ (y ∷ rest)) d h =
    ground (
      arith,
      next_after-other current previous (y ∷ rest),
      eq_iff y current,
      eq_iff previous current,
    )

alone-without :
    (unfinished : Option String) (latest : String) (builds : List String)
    → unfinished ≢ some latest
    → builds ≡ latest ∷ []
    → without unfinished builds ≡ latest ∷ []
alone-without none latest builds other e = e
alone-without (some id) latest builds other e =
    rw e (ground (arith, other, eq_iff latest id, eq_iff id latest))

-- However it ends, not by a panic.
abbrev pub NeverPanics : {S : Type 0} → Exec S JunitError Ending → Type 0
NeverPanics {S} m = (s t : S) → m s ≢ (ok panicked, t)

then_send :
    {S A : Type 0} (m : Exec S JunitError A) (f : A → ProbeResult)
    → NeverPanics (m >>= λ a. pure (sent (f a)))
then_send m f s t h = let (a, u, e, g) = bind-eq-ok m (λ a. pure (sent (f a))) s h in cc

module _ {S : Type 0} (w : Surroundings S) (orders : Reorders w.range_ids) (p : JunitProber) where
  result_or-NeverPanics :
      (stale : Option ProbeResult) (m : Exec S JunitError Ending)
      → NeverPanics m
      → NeverPanics (result_or w p m stale)
  result_or-NeverPanics none m h s t e = h s t e
  result_or-NeverPanics (some result) m h s t e = cc

  unless_stale-NeverPanics :
      (id : String) (m : Exec S JunitError Ending)
      → NeverPanics m
      → NeverPanics (unless_stale w p id m)
  unless_stale-NeverPanics id m h s t e =
      let (stale, u, _, e2) = bind-eq-ok (check_build_staleness w p id) (result_or w p m) s e in
      result_or-NeverPanics stale m h u t e2

  several-NeverPanics :
      (builds : List String)
      → (p.settings.history_runs == 1) ≡ false
      → NeverPanics (evaluate_builds w p builds)
  several-NeverPanics builds several s t h = ground (arith, h, several)

  one-NeverPanics :
      (b : String)
      → (p.settings.history_runs == 1) ≡ true
      → NeverPanics (evaluate_builds w p (b ∷ []))
  one-NeverPanics b single s t h = ground (arith, h, single)

  found_previous-other :
      (current previous : String) (next : Option String) (s t : S)
      → found_previous w p current next s ≡ (ok previous, t)
      → next ≡ some previous
  found_previous-other current previous none s t h = cc
  found_previous-other current previous (some other) s t h = cc

  candidates-IsDistinct : (id : String) (ids : List String) → IsDistinct (candidates w p id ids)
  candidates-IsDistinct id ids k =
      let keys : List String = insert_keys ids (id ∷ []) in
      let once : count (λ x. x == k) keys ≤ 1 =
        insert_keys-IsDistinct ids (id ∷ []) (λ j. ground arith) k in
      omega (
        arith,
        once,
        orders (λ x. x == k) keys,
        count-sort_build_ids_desc w (λ x. x == k) (w.range_ids keys),
      )

  find_previous-other :
      (current previous : String) (s t : S)
      → find_previous_build_id w p current s ≡ (ok previous, t)
      → previous ≢ current
  unfolding find_previous_build_id
  find_previous-other current previous s t h =
      let (ids, u, _, found) =
        bind-eq-ok (or_raise (list_build_id_prefixes w p) (wrap "listing builds for fallback: "))
          (λ ids. found_previous w p current (next_after current (candidates w p current ids))) s
          h in
      let next : next_after current (candidates w p current ids) ≡ some previous =
        found_previous-other current previous _ u t found in
      next_after-other current previous (candidates w p current ids)
        (candidates-IsDistinct current ids current) next

  resolve-single :
      (latest : String) (builds : List String) (s t : S)
      → (p.settings.history_runs == 1) ≡ true
      → resolve_build_ids_to_evaluate w p latest s ≡ (ok builds, t)
      → builds ≡ latest ∷ []
  unfolding resolve_build_ids_to_evaluate
  resolve-single latest builds s t single h = ground (arith, single, h)

  evaluate_from-NeverPanics :
      (unfinished : Option String) (latest : String)
      → unfinished ≢ some latest
      → NeverPanics (evaluate_from w p unfinished latest)
  unfolding evaluate_from
  evaluate_from-NeverPanics unfinished latest other s t h =
      let (builds, u, e1, e2) =
        bind-eq-ok (resolve_build_ids_to_evaluate w p latest)
          (λ builds. evaluate_builds w p (without unfinished builds)) s h in
      elim (Bool-cases (p.settings.history_runs == 1)) [
        | inr several ↦ several-NeverPanics (without unfinished builds) several u t e2
        | inl single ↦
            let alone : without unfinished builds ≡ latest ∷ [] =
              alone-without unfinished latest builds other
                (resolve-single latest builds s u single e1) in
            one-NeverPanics latest single u t
              (subst (λ l. evaluate_builds w p l u ≡ (ok panicked, t)) alone e2)
      ]

  from_previous-NeverPanics : (latest : String) → NeverPanics (from_previous w p latest)
  from_previous-NeverPanics latest s t h =
      let (previous, u, e1, e2) =
        bind-eq-ok
          (or_raise (find_previous_build_id w p latest)
            (wrap ("latest build " <> (latest <> " not finished and "))))
          (λ previous. unless_stale w p previous (evaluate_from w p (some latest) previous)) s h in
      unless_stale-NeverPanics previous (evaluate_from w p (some latest) previous)
        (evaluate_from-NeverPanics (some latest) previous (λ e.
          find_previous-other latest previous s u
            (or_raise-eq-ok (find_previous_build_id w p latest)
              (wrap ("latest build " <> (latest <> " not finished and "))) s e1)
            (ground (arith, e))))
        u t e2

  by_finished-NeverPanics :
      (latest : String) (finished : Bool) → NeverPanics (by_finished w p latest finished)
  by_finished-NeverPanics latest true = evaluate_from-NeverPanics none latest (λ e. cc)
  by_finished-NeverPanics latest false = from_previous-NeverPanics latest

  from_latest-NeverPanics : (latest : String) → NeverPanics (from_latest w p latest)
  from_latest-NeverPanics latest s t h =
      let (finished, u, _, e) =
        bind-eq-ok
          (or_raise (is_build_finished w p latest)
            (wrap ("checking finished.json for build " <> (latest <> ": "))))
          (by_finished w p latest) s h in
      by_finished-NeverPanics latest finished u t e

  probe_latest-NeverPanics : (latest : String) → NeverPanics (probe_latest w p latest)
  probe_latest-NeverPanics latest s t h = elim (Bool-cases (latest == "")) [
    | inl empty ↦ ground (arith, empty, h)
    | inr named ↦
        unless_stale-NeverPanics latest (from_latest w p latest) (from_latest-NeverPanics latest) s
          t (ground (arith, named, h))
  ]

  probe_or_error-NeverPanics : NeverPanics (probe_or_error w p)
  unfolding probe_or_error
  probe_or_error-NeverPanics s t h =
      let (text, u, _, e) =
        bind-eq-ok
          (or_raise (fetch_text w (prow_log_object_url p (prow_object_latest_build ∷ [])))
            (wrap "fetching latest build ID: "))
          (λ text. probe_latest w p (trim_space text)) s h in
      probe_latest-NeverPanics (trim_space text) u t e

  ending-sent :
      (r : Result JunitError Ending)
      → r ≢ ok panicked
      → (result : ProbeResult) × (ending w p r ≡ sent result)
  ending-sent (ok (sent result)) h = (result, refl)
  ending-sent (ok panicked) h = elim (h refl) [ ]
  ending-sent (err e) h = (format_error_result p e, refl)

  -- Whatever answers the probe gets, and in whatever order Go goes through its maps, it sends one result:
  -- it does not index an empty list of builds.
  pub probe-sent : (s : S) → (result : ProbeResult) × ((probe w p s).0 ≡ sent result)
  unfolding probe
  probe-sent s = ending-sent (probe_or_error w p s).0 (λ e.
      probe_or_error-NeverPanics s (probe_or_error w p s).1
        (ap (λ r. (r, (probe_or_error w p s).1)) e))
