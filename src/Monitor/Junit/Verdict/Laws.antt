-- ===== src/Monitor/Junit/Verdict/Laws.antt =====
-- Several runs are judged by the largest group of them that share a failure pattern.
use ship_status_dash.Base.{
  ℕ, ◌+◌, ◌≤◌, ◌<◌, String, ◌≡◌, refl, sym, ap, ◌∙◌, ◌⊎◌, inl, inr, Bool, true, not, ◌&&◌, List, [],
  ◌∷◌, arith, eq_iff, Any, All, Reorders, count, Bool-cases, ◌==◌, nat_eq, string_eq, if◌then◌else◌,
  ltb,
}
use ship_status_dash.Types.Severity.{status_healthy}
use ship_status_dash.Monitor.{ProbeResult}
use ship_status_dash.Monitor.Junit.{JunitProber, SignatureCount, result_of}
use ship_status_dash.Monitor.Junit.Suites.{junit_unhealthy, junit_failure_signature}
use ship_status_dash.Monitor.Junit.Verdict.{
  Run, count_signature, count_signatures, higher, highest, nothing_counted, shared_failure,
  evaluate_runs,
}

-- A run fails, with this pattern.
abbrev pub fails_with : String → Run → Bool
fails_with sig r = junit_unhealthy r.stats && junit_failure_signature r.stats == sig

abbrev for_signature : String → SignatureCount → Bool
for_signature k c = c.signature == k

look_up : String → List SignatureCount → ℕ
look_up k [] = 0
look_up k (c ∷ cs) = if c.signature == k then c.runs else look_up k cs

look_up-count_signature :
    (k sig : String) (cs : List SignatureCount)
    → look_up k (count_signature sig cs) ≡ look_up k cs + (if sig == k then 1 else 0)
unfolding look_up count_signature
look_up-count_signature k sig [] = ground arith
look_up-count_signature k sig (c ∷ cs) = ground (
  arith,
  look_up-count_signature k sig cs,
  eq_iff c.signature sig,
  eq_iff c.signature k,
  eq_iff sig k,
)

look_up-count_signatures :
    (k : String) (cs : List SignatureCount) (rs : List Run)
    → look_up k (count_signatures cs rs) ≡ look_up k cs + count (fails_with k) rs
unfolding count_signatures
look_up-count_signatures k cs [] = omega arith
look_up-count_signatures k cs (r ∷ rs) = elim (Bool-cases (junit_unhealthy r.stats)) [
  | inl bad ↦
      rw
        (
          bad,
          look_up-count_signatures k (count_signature (junit_failure_signature r.stats) cs) rs,
          look_up-count_signature k (junit_failure_signature r.stats) cs,
        )
        (omega arith)
  | inr good ↦ rw (good, look_up-count_signatures k cs rs) (omega arith)
]

AreDistinct : List SignatureCount → Type 0
AreDistinct cs = (k : String) → count (for_signature k) cs ≤ 1

-- A signature is counted in its entry, or gets the one that it did not have.
count_signature-cases :
    (k sig : String) (cs : List SignatureCount)
    → (count (for_signature k) (count_signature sig cs) ≡ count (for_signature k) cs)
      ⊎ (((sig == k) ≡ true)
          × (count (for_signature k) cs ≡ 0)
          × (count (for_signature k) (count_signature sig cs) ≡ 1))
unfolding count_signature
count_signature-cases k sig [] = ground arith
count_signature-cases k sig (c ∷ cs) = ground (
  arith,
  count_signature-cases k sig cs,
  eq_iff c.signature sig,
  eq_iff c.signature k,
  eq_iff sig k,
)

AreDistinct-count_signatures :
    (cs : List SignatureCount) (rs : List Run)
    → AreDistinct cs
    → AreDistinct (count_signatures cs rs)
unfolding count_signatures AreDistinct
AreDistinct-count_signatures cs [] d = d
AreDistinct-count_signatures cs (r ∷ rs) d = elim (Bool-cases (junit_unhealthy r.stats)) [
  | inl bad ↦ rw bad (
      AreDistinct-count_signatures (count_signature (junit_failure_signature r.stats) cs) rs
        (λ k. omega (arith, count_signature-cases k (junit_failure_signature r.stats) cs, d k)))
  | inr good ↦ rw good (AreDistinct-count_signatures cs rs d)
]

fewer :
    (k : String) (q : SignatureCount → Bool) (cs : List SignatureCount)
    → count (λ c. c.signature == k && q c) cs ≤ count (for_signature k) cs
fewer k q [] = omega arith
fewer k q (c ∷ cs) = ground (arith, fewer k q cs)

-- Only one entry is for a signature, and it holds what the look-up finds.
found_only :
    (k : String) (n : ℕ) (cs : List SignatureCount)
    → count (for_signature k) cs ≤ 1
    → look_up k cs ≡ n
    → count (λ c. c.signature == k && not (c.runs == n)) cs ≡ 0
unfolding look_up
found_only k n [] h e = refl
found_only k n (c ∷ cs) h e = ground (arith, found_only k n cs, fewer k (λ d. not (d.runs == n)) cs)

found_once :
    (k : String) (n : ℕ) (cs : List SignatureCount)
    → 0 < n
    → look_up k cs ≡ n
    → 1 ≤ count (λ c. c.signature == k && c.runs == n) cs
unfolding look_up
found_once k n [] h e = ground arith
found_once k n (c ∷ cs) h e = ground (arith, found_once k n cs)

Reached : SignatureCount → SignatureCount → Type 0
Reached best c = (c.signature ≡ best.signature) × (c.runs ≡ best.runs)

higher-cases : (best c : SignatureCount) → (higher best c ≡ best) ⊎ Reached (higher best c) c
unfolding Reached
higher-cases best c = ground arith

highest-attained :
    (best : SignatureCount) (cs : List SignatureCount)
    → (highest best cs ≡ best) ⊎ Any (Reached (highest best cs)) cs
unfolding highest Reached
highest-attained best [] = inl refl
highest-attained best (c ∷ cs) = elim (highest-attained (higher best c) cs) [
  | inr m ↦ inr (inr m)
  | inl e ↦ elim (higher-cases best c) [
    | inl f ↦ inl (e ∙ f)
    | inr f ↦ inr (inl (f.0 ∙ ap (λ d. d.signature) (sym e), f.1 ∙ ap (λ d. d.runs) (sym e)))
  ]
]

highest-above :
    (best : SignatureCount) (cs : List SignatureCount)
    → (best.runs ≤ (highest best cs).runs) × All (λ c. c.runs ≤ (highest best cs).runs) cs
unfolding highest
highest-above best [] = (omega arith, tt)
highest-above best (c ∷ cs) =
    let (first, rest) = highest-above (higher best c) cs in
    (ground (arith, first), (ground (arith, first), rest))

above_found :
    (k : String) (n b : ℕ) (cs : List SignatureCount)
    → 1 ≤ count (λ c. c.signature == k && c.runs == n) cs
    → All (λ c. c.runs ≤ b) cs
    → n ≤ b
above_found k n b [] h a = ground arith
above_found k n b (c ∷ cs) h a = ground (arith, above_found k n b cs)

Reached-found :
    (best : SignatureCount) (n : ℕ) (cs : List SignatureCount)
    → count (λ c. c.signature == best.signature && not (c.runs == n)) cs ≡ 0
    → Any (Reached best) cs
    → best.runs ≡ n
unfolding Reached
Reached-found best n [] h m = elim m [ ]
Reached-found best n (c ∷ cs) h (inl e) = ground (arith, h, e, eq_iff c.signature best.signature)
Reached-found best n (c ∷ cs) h (inr m) = Reached-found best n cs (ground (arith, h)) m

-- How the runs are judged: healthy if no failure pattern is shared by as many runs as the threshold
-- wants, and otherwise by a pattern that at least so many runs share, and no other more.
abbrev pub IsVerdict : JunitProber → List Run → ProbeResult → Type 0
IsVerdict p runs result =
    (((sig : String) → count (fails_with sig) runs < p.settings.failed_runs_threshold)
      × (result ≡ result_of p status_healthy []))
    ⊎ ((sig : String) × (p.settings.failed_runs_threshold ≤ count (fails_with sig) runs)
        × ((other : String) → count (fails_with other) runs ≤ count (fails_with sig) runs)
        × (result
            ≡ shared_failure p runs
                (record { signature = sig; runs = count (fails_with sig) runs })))

module _ (range : List SignatureCount → List SignatureCount) (orders : Reorders range)
    (p : JunitProber) (runs : List Run) where
  abbrev counted : List SignatureCount
  counted = count_signatures [] runs

  abbrev best : SignatureCount
  best = highest nothing_counted (range counted)

  counted_lem : (k : String) → look_up k counted ≡ count (fails_with k) runs
  unfolding look_up
  counted_lem k = look_up-count_signatures k [] runs ∙ (omega arith)

  best-above : (k : String) → count (fails_with k) runs ≤ best.runs
  best-above k = elim (Bool-cases (ltb 0 (count (fails_with k) runs))) [
    | inr none ↦ ground (arith, none)
    | inl some ↦
        above_found k (count (fails_with k) runs) best.runs (range counted)
          (rw (orders (λ c. c.signature == k && c.runs == count (fails_with k) runs) counted)
            (found_once k _ counted (ground (arith, some)) (counted_lem k)))
          (highest-above nothing_counted (range counted)).1
  ]

  best-counted : 0 < best.runs → best.runs ≡ count (fails_with best.signature) runs
  unfolding AreDistinct
  best-counted h = elim (highest-attained nothing_counted (range counted)) [
    | inl e ↦ omega (arith, h, ap (λ c. c.runs) e)
    | inr m ↦
        let n : ℕ = count (fails_with best.signature) runs in
        Reached-found best n (range counted)
          (orders (λ c. c.signature == best.signature && not (c.runs == n)) counted
            ∙ found_only best.signature n counted
                (AreDistinct-count_signatures [] runs (λ k. omega arith) best.signature)
                (counted_lem best.signature))
          m
  ]

  -- With a threshold of at least one, in whatever order Go goes through its map, several runs are
  -- reported as healthy exactly if no failure pattern is shared by as many of them as the threshold
  -- wants; otherwise the report names a pattern that at least so many share, and its number of runs, which
  -- no other pattern exceeds.
  pub evaluate_runs-IsVerdict :
      1 ≤ p.settings.failed_runs_threshold → IsVerdict p runs (evaluate_runs range p runs)
  unfolding evaluate_runs
  evaluate_runs-IsVerdict h = elim (Bool-cases (ltb best.runs p.settings.failed_runs_threshold)) [
    | inl few ↦ inl (λ sig. ground (arith, few, best-above sig), rw few refl)
    | inr many ↦
        let enough : p.settings.failed_runs_threshold ≤ best.runs = ground (arith, many) in
        let counts : best.runs ≡ count (fails_with best.signature) runs =
          best-counted (omega (arith, h, enough)) in
        inr (
          best.signature,
          omega (arith, counts, enough),
          λ other. omega (arith, counts, best-above other),
          rw many (
              ap (λ n. shared_failure p runs (record { signature = best.signature; runs = n }))
                counts),
        )
  ]
