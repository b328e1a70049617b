-- ===== src/Monitor/Orchestrator/Laws.antt =====
-- Which probes the results of a collection are from, in whatever order the probes end and send.
use ship_status_dash.Base.{
  ℕ, suc, ◌+◌, ◌≤◌, ◌<◌, ◌≡◌, refl, subst, Bool, not, ◌&&◌, List, [], ◌∷◌, ◌++◌, length, count, All,
  ◌==◌, nat_eq, arith, count-append, length-append,
}
use ship_status_dash.Monitor.Orchestrator.{
  Goroutine, Received, Phase, State, collecting, looping, draining, waiting, exited, start_probes,
  ◌⟶◌, ◌⟶*◌, IsReachable, cancel, finish, give_up, leave, drain, discard, start, receive, complete,
  abandon, time_out, interrupt, wake, stay, go, probing, sending, received,
}

count-not :
    {A : Type 0} (q : A → Bool) (xs : List A) → count q xs + count (λ x. not (q x)) xs ≡ length xs
count-not q [] = refl
count-not q (x ∷ xs) = ground (arith, count-not q xs)

module _ {P : Type 0} where
  -- A goroutine, and a result, of a cycle, of a prober that passes a test.
  abbrev is_probe : ℕ → (P → Bool) → Goroutine P → Bool
  is_probe n q g = (g.cycle == n) && q g.prober

  abbrev is_result : ℕ → (P → Bool) → Received P → Bool
  is_result n q r = (r.cycle == n) && q r.prober

  count-start :
      (n : ℕ) (q : P → Bool) (ps : List P) → count (is_probe n q) (start_probes n ps) ≡ count q ps
  unfolding start_probes
  count-start n q [] = refl
  count-start n q (p ∷ ps) = ground (arith, count-start n q ps)

  count-start-later :
      (n k : ℕ) (q : P → Bool) (ps : List P) → n < k → count (is_probe k q) (start_probes n ps) ≡ 0
  unfolding start_probes
  count-start-later n k q [] h = refl
  count-start-later n k q (p ∷ ps) h = ground (arith, count-start-later n k q ps h)

  count-current :
      (n : ℕ) (q : P → Bool) (rs : List (Received P))
      → All (λ r. r.cycle ≡ n) rs
      → count (is_result n q) rs ≡ count (λ r. q r.prober) rs
  count-current n q [] h = refl
  count-current n q (r ∷ rs) h = ground (arith, count-current n q rs h.1, h.0)

module _ {P : Type 0} (probers : List P) where
  abbrev InPhase : ℕ → List (Goroutine P) → Phase P → Type 0
  InPhase n gs (collecting rs) =
      (length rs ≤ length probers)
      × ((q : P → Bool) → count (is_result n q) rs + count (is_probe n q) gs ≤ count q probers)
  InPhase n gs looping = Unit
  InPhase n gs draining = Unit
  InPhase n gs waiting = Unit
  InPhase n gs exited = Unit

  -- No goroutine is of a later cycle; in a collection the results received and the probes in
  -- flight are those of different probes of the cycle.
  record IsAccounted (s : State P) : Type 0 where
    later : (k : ℕ) (q : P → Bool) → s.cycle < k → count (is_probe k q) s.goroutines ≡ 0
    current : InPhase s.cycle s.goroutines s.phase

  InPhase-of_le :
      (phase : Phase P) (n : ℕ) (gs hs : List (Goroutine P))
      → ((k : ℕ) (q : P → Bool) → count (is_probe k q) hs ≤ count (is_probe k q) gs)
      → InPhase n gs phase
      → InPhase n hs phase
  InPhase-of_le (collecting rs) n gs hs e h = (h.0, λ q. omega (arith, e n q, h.1 q))
  InPhase-of_le looping n gs hs e h = tt
  InPhase-of_le draining n gs hs e h = tt
  InPhase-of_le waiting n gs hs e h = tt
  InPhase-of_le exited n gs hs e h = tt

  count-split :
      (k : ℕ) (q : P → Bool) (before after : List (Goroutine P)) (g : Goroutine P)
      → count (is_probe k q) (before ++ (g ∷ after))
        ≡ count (is_probe k q) (g ∷ []) + count (is_probe k q) (before ++ after)
  count-split k q before after g = omega (
    arith,
    count-append (is_probe k q) before (g ∷ after),
    count-append (is_probe k q) before after,
  )

  step-IsAccounted : {s t : State P} → (◌⟶◌ probers) s t → IsAccounted s → IsAccounted t
  step-IsAccounted cancel a = record { later = a.later; current = a.current }
  step-IsAccounted {s} {t} (finish before after p k r) a =
      let same : (j : ℕ) (q : P → Bool)
          → count (is_probe j q) t.goroutines ≡ count (is_probe j q) s.goroutines =
        λ j q. omega (
          arith,
          count-split j q before after (probing p k),
          count-split j q before after (sending p k r),
        ) in
      record {
        later = λ j q l. omega (arith, same j q, a.later j q l);
        current =
            InPhase-of_le s.phase s.cycle s.goroutines t.goroutines (λ j q. omega (arith, same j q))
              a.current;
      }
  step-IsAccounted {s} {t} (give_up before after p k r) a =
      let fewer : (j : ℕ) (q : P → Bool)
          → count (is_probe j q) t.goroutines ≤ count (is_probe j q) s.goroutines =
        λ j q. omega (arith, count-split j q before after (sending p k r)) in
      record {
        later = λ j q l. omega (arith, fewer j q, a.later j q l);
        current = InPhase-of_le s.phase s.cycle s.goroutines t.goroutines fewer a.current;
      }
  step-IsAccounted leave a = record { later = a.later; current = tt }
  step-IsAccounted drain a = record { later = a.later; current = tt }
  step-IsAccounted (discard before after p k r) a = record {
    later = λ j q l. omega (arith, a.later j q l, count-split j q before after _);
    current = tt;
  }
  step-IsAccounted {s} (start d) a =
      let n = suc s.cycle in
      let started : (j : ℕ) (q : P → Bool)
          → count (is_probe j q) (s.goroutines ++ start_probes n probers)
            ≡ count (is_probe j q) s.goroutines + count (is_probe j q) (start_probes n probers) =
        λ j q. count-append (is_probe j q) s.goroutines (start_probes n probers) in
      record {
        later = λ j q l.
            omega
              (arith, started j q, a.later j q (omega arith), count-start-later n j q probers l);
        current = (
          omega arith,
          λ q. omega (arith, started n q, a.later n q (omega arith), count-start n q probers),
        );
      }
  step-IsAccounted {s} (receive {n} {rs = rs} before after p k r l) a =
      let x = received p k r in
      record {
        later = λ j q m. omega (arith, a.later j q m, count-split j q before after (sending p k r));
        current = (
          omega (arith, length-append rs (x ∷ [])),
          λ q. omega (
            arith,
            a.current.1 q,
            count-split n q before after (sending p k r),
            count-append (is_result n q) rs (x ∷ []),
          ),
        );
      }
  step-IsAccounted (complete e) a = record { later = a.later; current = tt }
  step-IsAccounted (abandon l) a = record { later = a.later; current = tt }
  step-IsAccounted (time_out l) a = record { later = a.later; current = tt }
  step-IsAccounted interrupt a = record { later = a.later; current = tt }
  step-IsAccounted wake a = record { later = a.later; current = tt }

  steps-IsAccounted : {s t : State P} → (◌⟶*◌ probers) s t → IsAccounted s → IsAccounted t
  steps-IsAccounted stay a = a
  steps-IsAccounted (go step steps) a = steps-IsAccounted steps (step-IsAccounted step a)

  reachable-IsAccounted : (s : State P) → IsReachable probers s → IsAccounted s
  reachable-IsAccounted s h = steps-IsAccounted h (record { later = λ k q l. refl; current = tt })

  -- A collection never has more results than there are probers, nor two results of one probe of its
  -- cycle.
  pub collected-once :
      (s : State P) (rs : List (Received P)) (q : P → Bool)
      → IsReachable probers s
      → s.phase ≡ collecting rs
      → (length rs ≤ length probers) × (count (is_result s.cycle q) rs ≤ count q probers)
  collected-once s rs q h e =
      let a = subst (InPhase s.cycle s.goroutines) e (reachable-IsAccounted s h).current in
      (a.0, omega (arith, a.1 q))

  -- When a collection is complete and none of its results is of an earlier cycle, it has the result of
  -- each prober once, also where probes that see the cancelled context end without sending.
  pub collected-each :
      (s : State P) (rs : List (Received P)) (q : P → Bool)
      → IsReachable probers s
      → s.phase ≡ collecting rs
      → length rs ≡ length probers
      → All (λ r. r.cycle ≡ s.cycle) rs
      → count (λ r. q r.prober) rs ≡ count q probers
  collected-each s rs q h e full own =
      let a = subst (InPhase s.cycle s.goroutines) e (reachable-IsAccounted s h).current in
      let others : P → Bool = λ p. not (q p) in
      omega (
        arith,
        full,
        a.1 q,
        a.1 others,
        count-current s.cycle q rs own,
        count-current s.cycle others rs own,
        count-not q probers,
        count-not (λ r. q r.prober) rs,
      )
