-- ===== src/Monitor/Orchestrator.antt =====
-- The loop of `ProbeOrchestrator` (cmd/component-monitor/probe-orchestrator.go) as steps of one state
-- that holds the orchestrator's place in the loop, the goroutines of its probes, the context and the
-- reports that it sent. The channel has no buffer: a goroutine that has its result waits to send it. A
-- goroutine carries the prober and the cycle that it was started for, which the code does not look at.
pub mod Laws
use ship_status_dash.Base.{
  ℕ, suc, Bool, true, false, ◌≡◌, ◌<◌, Option, none, some, List, [], ◌∷◌, ◌++◌, map, length, All,
}
use ship_status_dash.Dashboard.Report.{ReportStatus}
use ship_status_dash.Monitor.{ProbeResult}
use ship_status_dash.Monitor.Merge.{merge_statuses}

-- A goroutine that runs a prober: `none` while it probes, its result once it waits to send it.
pub record Goroutine (P : Type 0) : Type 0 where
  pub prober : P
  pub cycle : ℕ
  pub result : Option ProbeResult

pub record Received (P : Type 0) : Type 0 where
  pub prober : P
  pub cycle : ℕ
  pub result : ProbeResult

-- Where the orchestrator is: at the head of the loop, in `drainChannels`, in `collectProbeResults`, in
-- `waitForNextCycle`, or returned.
pub data Phase (P : Type 0) : Type 0 where
  looping draining waiting exited : Phase P
  collecting : List (Received P) → Phase P

pub record State (P : Type 0) : Type 0 where
  pub phase : Phase P
  pub cycle : ℕ
  pub cancelled : Bool
  pub goroutines : List (Goroutine P)
  pub sent : List (List ReportStatus)

module _ {P : Type 0} where
  abbrev pub at : Phase P → ℕ → Bool → List (Goroutine P) → List (List ReportStatus) → State P
  at phase n c gs sent = record {
    phase = phase;
    cycle = n;
    cancelled = c;
    goroutines = gs;
    sent = sent;
  }

  abbrev pub probing : P → ℕ → Goroutine P
  probing p n = record { prober = p; cycle = n; result = none }

  abbrev pub sending : P → ℕ → ProbeResult → Goroutine P
  sending p n r = record { prober = p; cycle = n; result = some r }

  abbrev pub received : P → ℕ → ProbeResult → Received P
  received p n r = record { prober = p; cycle = n; result = r }

  unfoldable pub start_probes : ℕ → List P → List (Goroutine P)
  start_probes n [] = []
  start_probes n (p ∷ ps) = probing p n ∷ start_probes n ps

  abbrev pub report_of : List (Received P) → List ReportStatus
  report_of rs = merge_statuses (map (λ r. r.result) rs)

  abbrev pub new_orchestrator : State P
  new_orchestrator = at looping 0 false [] []

  -- No goroutine waits to send: the `default` of the drain.
  abbrev pub IsDrained : List (Goroutine P) → Type 0
  IsDrained gs = All (λ g. g.result ≡ none) gs

module _ {P : Type 0} (probers : List P) where
  infix 40 ◌⟶◌ ◌⟶*◌
  pub data ◌⟶◌ : State P → State P → Type 0 where
    -- The context is cancelled from outside.
    cancel :
        {phase : Phase P} {n : ℕ} {c : Bool} {gs : List (Goroutine P)}
        {sent : List (List ReportStatus)}
        → at phase n c gs sent ⟶ at phase n true gs sent
    -- A probe ends.
    finish :
        {phase : Phase P} {n : ℕ} {c : Bool} {sent : List (List ReportStatus)}
        (before after : List (Goroutine P)) (p : P) (k : ℕ) (r : ProbeResult)
        → at phase n c (before ++ (probing p k ∷ after)) sent
          ⟶ at phase n c (before ++ (sending p k r ∷ after)) sent
    -- A goroutine that waits to send ends without it, as a probe may once the context is cancelled.
    give_up :
        {phase : Phase P} {n : ℕ} {sent : List (List ReportStatus)}
        (before after : List (Goroutine P)) (p : P) (k : ℕ) (r : ProbeResult)
        → at phase n true (before ++ (sending p k r ∷ after)) sent
          ⟶ at phase n true (before ++ after) sent
    leave :
        {n : ℕ} {gs : List (Goroutine P)} {sent : List (List ReportStatus)}
        → at looping n true gs sent ⟶ at exited n true gs sent
    drain :
        {n : ℕ} {gs : List (Goroutine P)} {sent : List (List ReportStatus)}
        → at looping n false gs sent ⟶ at draining n false gs sent
    discard :
        {n : ℕ} {c : Bool} {sent : List (List ReportStatus)} (before after : List (Goroutine P))
        (p : P) (k : ℕ) (r : ProbeResult)
        → at draining n c (before ++ (sending p k r ∷ after)) sent
          ⟶ at draining n c (before ++ after) sent
    start :
        {n : ℕ} {c : Bool} {gs : List (Goroutine P)} {sent : List (List ReportStatus)}
        → IsDrained gs
        → at draining n c gs sent
          ⟶ at (collecting []) (suc n) c (gs ++ start_probes (suc n) probers) sent
    receive :
        {n : ℕ} {c : Bool} {sent : List (List ReportStatus)} {rs : List (Received P)}
        (before after : List (Goroutine P)) (p : P) (k : ℕ) (r : ProbeResult)
        → length rs < length probers
        → at (collecting rs) n c (before ++ (sending p k r ∷ after)) sent
          ⟶ at (collecting (rs ++ (received p k r ∷ []))) n c (before ++ after) sent
    complete :
        {n : ℕ} {c : Bool} {gs : List (Goroutine P)} {sent : List (List ReportStatus)}
        {rs : List (Received P)}
        → length rs ≡ length probers
        → at (collecting rs) n c gs sent ⟶ at waiting n c gs (sent ++ (report_of rs ∷ []))
    -- The cancelled context ends the collection; the report of what it has is sent all the same.
    abandon :
        {n : ℕ} {gs : List (Goroutine P)} {sent : List (List ReportStatus)} {rs : List (Received P)}
        → length rs < length probers
        → at (collecting rs) n true gs sent ⟶ at waiting n true gs (sent ++ (report_of rs ∷ []))
    time_out :
        {n : ℕ} {c : Bool} {gs : List (Goroutine P)} {sent : List (List ReportStatus)}
        {rs : List (Received P)}
        → length rs < length probers
        → at (collecting rs) n c gs sent ⟶ at waiting n c gs (sent ++ (report_of rs ∷ []))
    interrupt :
        {n : ℕ} {gs : List (Goroutine P)} {sent : List (List ReportStatus)}
        → at waiting n true gs sent ⟶ at exited n true gs sent
    wake :
        {n : ℕ} {c : Bool} {gs : List (Goroutine P)} {sent : List (List ReportStatus)}
        → at waiting n c gs sent ⟶ at looping n c gs sent

  pub data ◌⟶*◌ : State P → State P → Type 0 where
    stay : {s : State P} → s ⟶* s
    go : {s t u : State P} → s ⟶ t → t ⟶* u → s ⟶* u

  abbrev pub IsReachable : State P → Type 0
  IsReachable s = new_orchestrator ⟶* s
