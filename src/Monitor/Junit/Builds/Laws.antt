-- ===== src/Monitor/Junit/Builds/Laws.antt =====
-- The builds that are evaluated: finished ones, at least one, and no more than wanted.
use ship_status_dash.Base.{
  ℕ, zero, suc, ◌≤◌, String, ◌≡◌, subst, ◌<>◌, Bool, true, false, List, [], ◌∷◌, ◌++◌, ok, pure,
  or_raise, ◌>>=◌, arith, All, All-append, length, take, bind-eq-ok, or_raise-eq-ok, nat_eq, ltb,
}
use ship_status_dash.Monitor.Junit.{wrap, JunitProber, Surroundings}
use ship_status_dash.Monitor.Junit.Builds.{
  is_build_finished, list_build_id_prefixes, candidates, keep_build, keep_finished, recent,
  resolve_build_ids_to_evaluate,
}

take_lem :
    (n : ℕ) (b : String) (bs : List String)
    → 1 ≤ n
    → (1 ≤ length (take n (b ∷ bs))) × (length (take n (b ∷ bs)) ≤ n)
take_lem zero b bs h = ground arith
take_lem (suc n) b bs h = (omega arith, suc_lem n bs)
  where
    suc_lem : (n : ℕ) (bs : List String) → suc (length (take n bs)) ≤ suc n
    suc_lem zero bs = omega arith
    suc_lem (suc n) [] = omega arith
    suc_lem (suc n) (b ∷ bs) = omega (arith, suc_lem n bs)

All-take : (P : String → Type 0) (n : ℕ) (bs : List String) → All P bs → All P (take n bs)
All-take P zero bs h = tt
All-take P (suc n) [] h = tt
All-take P (suc n) (b ∷ bs) h = (h.0, All-take P n bs h.1)

module _ {S : Type 0} (w : Surroundings S) (p : JunitProber) where
  -- At some moment the build's finished.json was there.
  abbrev pub WasFinished : String → Type 0
  WasFinished id = (s : S) × (t : S) × (is_build_finished w p id s ≡ (ok true, t))

  keep_build-finished :
      (first done : Bool) (id : String) (kept : List String) (s t u v : S)
      → is_build_finished w p id u ≡ (ok done, v)
      → keep_build w p first done id s ≡ (ok kept, t)
      → All WasFinished kept
  keep_build-finished first true id kept s t u v e h =
      let same : id ∷ [] ≡ kept = ground (arith, h) in subst (All WasFinished) same ((u, v, e), tt)
  keep_build-finished true false id kept s t u v e h =
      let same : [] ≡ kept = ground (arith, h) in subst (All WasFinished) same tt
  keep_build-finished false false id kept s t u v e h = cc

  keep_finished-finished :
      (first : Bool) (ids kept : List String) (s t : S)
      → keep_finished w p first ids s ≡ (ok kept, t)
      → All WasFinished kept
  unfolding keep_finished
  keep_finished-finished first [] kept s t h =
      let same : [] ≡ kept = ground (arith, h) in subst (All WasFinished) same tt
  keep_finished-finished first (id ∷ ids) kept s t h =
      let (done, s1, e1, h1) =
        bind-eq-ok
          (or_raise (is_build_finished w p id)
            (wrap ("checking finished.json for build " <> (id <> ": "))))
          (λ done. keep_build w p first done id >>= λ here.
            keep_finished w p false ids >>= λ rest. pure (here ++ rest))
          s h in
      let (here, s2, e2, h2) =
        bind-eq-ok (keep_build w p first done id)
          (λ here. keep_finished w p false ids >>= λ rest. pure (here ++ rest)) s1 h1 in
      let (rest, s3, e3, h3) =
        bind-eq-ok (keep_finished w p false ids) (λ rest. pure (here ++ rest)) s2 h2 in
      let same : here ++ rest ≡ kept = ground (arith, h3) in
      subst (All WasFinished) same (
        All-append WasFinished here rest
          (keep_build-finished first done id here s1 s2 s s1
            (or_raise-eq-ok (is_build_finished w p id)
              (wrap ("checking finished.json for build " <> (id <> ": "))) s e1)
            e2)
          (keep_finished-finished false ids rest s2 s3 e3))

  -- The builds to evaluate: between one and the wanted number.
  abbrev pub AreEvaluable : List String → Type 0
  AreEvaluable builds =
      (1 ≤ length builds) × (length builds ≤ p.settings.history_runs) × All WasFinished builds

  recent-AreEvaluable :
      (n : ℕ) (finished builds : List String) (s t : S)
      → 1 ≤ p.settings.history_runs
      → All WasFinished finished
      → recent w p n finished s ≡ (ok builds, t)
      → AreEvaluable builds
  recent-AreEvaluable n [] builds s t k a h = cc
  recent-AreEvaluable n (b ∷ bs) builds s t k a h =
      let same : take p.settings.history_runs (b ∷ bs) ≡ builds = ground (arith, h) in
      let (least, most) = take_lem p.settings.history_runs b bs k in
      subst AreEvaluable same (least, most, All-take WasFinished p.settings.history_runs (b ∷ bs) a)

  -- The builds to evaluate, where there are to be several, are at least one and at most as many as the
  -- history wants, and each of them was found to be finished.
  pub resolve-AreEvaluable :
      (latest : String) (builds : List String) (s t : S)
      → ltb 1 p.settings.history_runs ≡ true
      → resolve_build_ids_to_evaluate w p latest s ≡ (ok builds, t)
      → AreEvaluable builds
  unfolding resolve_build_ids_to_evaluate
  resolve-AreEvaluable latest builds s t several h =
      let (ids, s1, _, h1) =
        bind-eq-ok (or_raise (list_build_id_prefixes w p) (wrap "listing recent builds: "))
          (λ ids. keep_finished w p true (candidates w p latest ids) >>= λ finished.
            recent w p (length (candidates w p latest ids)) finished)
          s (rw (several, resolve_build_ids_to_evaluate) at h) in
      let (finished, s2, e2, h2) =
        bind-eq-ok (keep_finished w p true (candidates w p latest ids))
          (recent w p (length (candidates w p latest ids))) s1 h1 in
      recent-AreEvaluable (length (candidates w p latest ids)) finished builds s2 t
        (ground (arith, several))
        (keep_finished-finished true (candidates w p latest ids) finished s1 s2 e2) h2
