-- ===== src/Tests/Orchestrator.antt =====
-- Runs of the orchestrator's loop with two probers.
use ship_status_dash.Base.{ℕ, ◌≡◌, refl, false, none, List, [], ◌∷◌, ◌==◌, nat_eq, count, arith}
use ship_status_dash.Monitor.{ProbeResult}
use ship_status_dash.Monitor.Orchestrator.{
  Received, State, at, collecting, probing, received, report_of, IsReachable, start_probes, drain,
  start, finish, receive, time_out, wake, go, stay,
}
use ship_status_dash.Monitor.Orchestrator.Laws.{collected-each}
use ship_status_dash.Tests.Fixture.{status}

abbrev two : List ℕ
two = 7 ∷ 8 ∷ []

abbrev healthy_probe : ProbeResult
healthy_probe = record { status = status; probe_type = "http"; error = none }

abbrev both : List (Received ℕ)
both = received 8 1 healthy_probe ∷ received 7 1 healthy_probe ∷ []

abbrev collected : State ℕ
collected = at (collecting both) 1 false [] []

collected_run : IsReachable two collected
unfolding start_probes
collected_run = go drain (
    go (start tt) (
      go (finish (probing 7 1 ∷ []) [] 8 1 healthy_probe) (
        go (receive (probing 7 1 ∷ []) [] 8 1 healthy_probe (omega arith)) (
          go (finish [] [] 7 1 healthy_probe)
            (go (receive [] [] 7 1 healthy_probe (omega arith)) stay)))))

collected-each_example : count (λ r. r.prober == 8) both ≡ count (λ p. p == 8) two
collected-each_example =
    collected-each two collected both (λ p. p == 8) collected_run refl refl (refl, (refl, tt))

-- The probe of prober 7 of the first cycle ends after the second drain: its result and that of the
-- second cycle complete the second collection, and prober 8 has no part in it.
abbrev twice : List (Received ℕ)
twice = received 7 1 healthy_probe ∷ received 7 2 healthy_probe ∷ []

abbrev stale : State ℕ
stale =
    at (collecting twice) 2 false (probing 8 2 ∷ [])
      (report_of {P = ℕ} (received 8 1 healthy_probe ∷ []) ∷ [])

stale_run : IsReachable two stale
unfolding start_probes
stale_run = go drain (
    go (start tt) (
      go (finish (probing 7 1 ∷ []) [] 8 1 healthy_probe) (
        go (receive (probing 7 1 ∷ []) [] 8 1 healthy_probe (omega arith)) (
          go (time_out (omega arith)) (
            go wake (
              go drain (
                go (start (refl, tt)) (
                  go (finish [] (probing 7 2 ∷ probing 8 2 ∷ []) 7 1 healthy_probe) (
                    go (receive [] (probing 7 2 ∷ probing 8 2 ∷ []) 7 1 healthy_probe (omega arith))
                      (go (finish [] (probing 8 2 ∷ []) 7 2 healthy_probe) (
                        go (receive [] (probing 8 2 ∷ []) 7 2 healthy_probe (omega arith))
                          stay)))))))))))
