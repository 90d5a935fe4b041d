-- ===== src/Gateway/Handler/Capped.antt =====
-- internal/gateway/gateway.go over internal/gateway/control.go: the requests of a gateway as steps of
-- its controller, and the call cap over them.
use axigate_finops.Prelude.{
  ℕ, ◌+◌, ◌≤◌, ◌<◌, ◌≡◌, refl, sym, subst, ◌∙◌, Bool, true, false, not, ◌&&◌, List, [], ◌∷◌, ◌++◌,
  Option, none, some, Bytes, Float, All, arith, if_both, if_cases, is_empty, beq, str,
}
use axigate_finops.Gateway.Control.State.{Policy, StopEvent, Controller, new_controller}
use axigate_finops.Gateway.Control.Pause.{run_state}
use axigate_finops.Gateway.Control.Settle.{record_keyed}
use axigate_finops.Gateway.Control.Trace.{
  CappedReach, Flying, here, extend, settles, releases, dispatches, resumes_run, resumes_key, kills,
  calls_within_cap,
}
use axigate_finops.Gateway.Control.Status.{Status}
use axigate_finops.Ledger.Identify.{derive_id}
use axigate_finops.Gateway.Loop.Detect.{Decision}
use axigate_finops.Gateway.Shared.Reasons.{counter_label}
use axigate_finops.Gateway.Handler.Request.{HttpRequest, HttpResponse, Platform, tags_from_headers}
use axigate_finops.Gateway.Handler.Budget.{Memory, memory_record, memory_budget}
use axigate_finops.Gateway.Handler.Row.{Config, Caller, Exchange, counter_key, exchange_event}
use axigate_finops.Gateway.Handler.Admin.{Reply, admin_prefix, route_admin, serve_admin}
use axigate_finops.Gateway.Handler.Record.{
  Times, Gateway, record_blocked, record_exchange, settled, released, exchange_of,
}
use axigate_finops.Gateway.Handler.Serve.{
  Outbound, is_admin, is_too_large, bypasses, decided, answered_with, forward, placed_call,
  outbound, refusal_code, serve_call, serve, caller_of, controlled, detect,
}
use axigate_finops.Gateway.Handler.Reached.{HasNoBypass, decided-Reach, decided-Flying}
use axigate_finops.Gateway.Handler.Watch.{IsTagged}
use axigate_finops.Gateway.Handler.Settled.{Arrival, serve_all, serve-config}

module _ {D : Type 0} ⦃f : Float D⦄ (p : Policy D) where
  -- A controller that steps lead to from a new one.
  pub IsReached : Option (Memory D) → Type 0
  IsReached none = Unit
  IsReached (some m) = CappedReach (new_controller p) m.0

  module _ (os : Platform D) (at : Times) where
    -- The counter is reached, with the call's reservation in flight.
    IsFlying : Bytes → Option (Memory D) → Type 0
    IsFlying run none = Unit
    IsFlying run (some m) = CappedReach (new_controller p) m.0 × Flying run m.0

    settled-IsReached :
        (run run' key where' : Bytes) (cost : D) (loop : Bool) (ctrl : Option (Memory D))
        → run' ≡ run
        → IsFlying run ctrl
        → IsReached (settled os memory_budget at run' key cost loop where' ctrl)
    unfolding IsReached IsFlying memory_budget memory_record record_keyed
    settled-IsReached run run' key where' cost loop none e h = tt
    settled-IsReached run run' key where' cost loop (some m) e h = rw e (
        if_both
          (λ (x : List (StopEvent D) × List (StopEvent D) × Controller D).
            CappedReach (new_controller p) x.2)
          (is_empty run && is_empty key) h.0
          (extend (extend h.0 (settles at.settled run key cost loop) h.1) dispatches tt))

    released-IsReached :
        (c : Caller) (key where' : Bytes) (ctrl : Option (Memory D))
        → IsFlying c.run ctrl
        → IsReached (released os memory_budget at c key where' ctrl)
    unfolding IsReached IsFlying memory_budget
    released-IsReached c key where' none h = tt
    released-IsReached c key where' (some m) h = extend h.0 (releases c.run key) tt

    record_exchange-IsReached :
        (g : Gateway D (Memory D)) (c : Caller) (x : Exchange)
        → IsTagged c
        → IsFlying c.run g.ctrl
        → IsReached (record_exchange os memory_budget at g c x).ctrl
    unfolding record_exchange exchange_event derive_id
    record_exchange-IsReached g c x tagged h =
        if_both (λ (g' : Gateway D (Memory D)). IsReached g'.ctrl) g.config.records
          (settled-IsReached c.run _ _ x.counter _ x.decision.suspected g.ctrl tagged h)
          (settled-IsReached c.run _ _ x.counter _ x.decision.suspected g.ctrl tagged h)

    answered_with-IsReached :
        (g : Gateway D (Memory D)) (c : Caller) (d : Decision) (where' would : Bytes)
        (response : Option HttpResponse)
        → IsTagged c
        → IsFlying c.run g.ctrl
        → IsReached (answered_with os memory_budget at g c d where' would response).1.ctrl
    answered_with-IsReached g c d where' would none tagged h =
        released-IsReached c (counter_key g.config c.key) where' g.ctrl h
    answered_with-IsReached g c d where' would (some response) tagged h =
        record_exchange-IsReached g c (exchange_of os g.config c response d where' would) tagged h

    record_blocked-ctrl :
        (g : Gateway D (Memory D)) (c : Caller) (reason label : Bytes) (code : ℕ)
        → (record_blocked os memory_budget at g c reason code label).ctrl ≡ g.ctrl
    unfolding record_blocked
    record_blocked-ctrl g c reason label code = ground arith

    forward-IsReached :
        (upstream : Outbound → Option HttpResponse) (g : Gateway D (Memory D)) (c : Caller)
        (r : HttpRequest) (d : Decision) (where' would : Bytes)
        → IsTagged c
        → IsFlying c.run g.ctrl
        → IsReached (forward os memory_budget at upstream g c r d where' would).1.ctrl
    unfolding forward
    forward-IsReached upstream g c r d where' would tagged h =
        let out = outbound os g.config r in
        if_both (λ (x : Reply (Status D) × Gateway D (Memory D)). IsReached x.1.ctrl)
          (os.makes_request out.method out.target)
          (answered_with-IsReached g c d where' would (upstream out) tagged h)
          (released-IsReached c (counter_key g.config c.key) where' g.ctrl h)

    route_admin-Reach :
        (now : ℕ) (r : HttpRequest) (m : Memory D)
        → CappedReach (new_controller p) m.0
        → CappedReach (new_controller p) (route_admin memory_budget now r m).1.0
    unfolding route_admin memory_budget
    route_admin-Reach now r m h =
        let P : Reply (Status D) × Memory D → Type 0 = λ x. CappedReach (new_controller p) x.1.0 in
        let post = beq r.method (str "POST") in
        let run = r.query (str "run") in
        let key = r.query (str "key") in
        if_both P (beq r.path (admin_prefix ++ str "status")) h (
          if_both P (beq r.path (admin_prefix ++ str "kill"))
            (if_both P post (extend h (kills true) tt) h)
            (if_both P (beq r.path (admin_prefix ++ str "resume"))
              (if_both P post (extend h (kills false) tt) h)
              (if_both P (beq r.path (admin_prefix ++ str "runs/resume"))
                (if_both P post (if_both P (is_empty run) h (extend h (resumes_run run) tt)) h)
                (if_both P (beq r.path (admin_prefix ++ str "keys/resume"))
                  (if_both P post (if_both P (is_empty key) h (extend h (resumes_key key) tt)) h)
                  h))))

    serve_admin-IsReached :
        (now : ℕ) (token given : Bytes) (r : HttpRequest) (ctrl : Option (Memory D))
        → IsReached ctrl
        → IsReached (serve_admin memory_budget now token given r ctrl).1
    unfolding serve_admin IsReached
    serve_admin-IsReached now token given r none h = tt
    serve_admin-IsReached now token given r (some m) h =
        let P : Reply (Status D) × Option (Memory D) → Type 0 = λ x. IsReached x.1 in
        if_both P (is_empty token) h
          (if_both P (not (beq given token)) h (route_admin-Reach now r m h))

    module _ (shadow : p.shadow ≡ false) (on : 0 < p.max_calls_per_run) where
      controlled-IsReached :
          (upstream : Outbound → Option HttpResponse) (g : Gateway D (Memory D)) (c : Caller)
          (r : HttpRequest) (d : Decision) (ctrl : Option (Memory D))
          → IsTagged c
          → bypasses g.config c ≡ false
          → g.ctrl ≡ ctrl
          → IsReached ctrl
          → IsReached (controlled os memory_budget at upstream g c r d ctrl).1.ctrl
      unfolding placed_call IsReached IsFlying
      controlled-IsReached upstream g c r d none tagged b e h =
          forward-IsReached upstream g c r d [] [] tagged (rw e tt)
      controlled-IsReached upstream g c r d (some m) tagged b e h =
          let o = decided os memory_budget at g.config c m in
          let g' : Gateway D (Memory D) = record g { ctrl = some o.1 } in
          let reached = decided-Reach p os at g.config c m b h in
          if_cases (λ (x : Reply (Status D) × Gateway D (Memory D)). IsReached x.1.ctrl) o.0.0
            (λ ok.
              forward-IsReached upstream g' c r d o.0.2 o.0.1 tagged
                (reached, decided-Flying p os at shadow on g.config c m b h ok))
            (λ no.
              rw (record_blocked-ctrl g' c o.0.1 (counter_label o.0.2) (refusal_code o.0.1))
                reached)

      serve_call-IsReached :
          (upstream : Outbound → Option HttpResponse) (g : Gateway D (Memory D)) (r : HttpRequest)
          → HasNoBypass os at g.config r
          → IsReached g.ctrl
          → IsReached (serve_call os memory_budget at upstream g r).1.ctrl
      unfolding serve_call caller_of tags_from_headers
      serve_call-IsReached upstream g r b h =
          let c = caller_of os g.config at.start r in
          let seen = detect os g.config c at.observed r.body g.det in
          controlled-IsReached upstream (record g { det = seen.1 }) c r seen.0 g.ctrl refl b refl h

      serve-IsReached :
          (upstream : Outbound → Option HttpResponse) (g : Gateway D (Memory D)) (r : HttpRequest)
          → HasNoBypass os at g.config r
          → IsReached g.ctrl
          → IsReached (serve os memory_budget at upstream g r).1.ctrl
      unfolding serve
      serve-IsReached upstream g r b h =
          let P : Reply (Status D) × Gateway D (Memory D) → Type 0 = λ x. IsReached x.1.ctrl in
          if_both P (is_admin r)
            (serve_admin-IsReached at.start g.config.control.admin_token _ r g.ctrl h)
            (if_both P (is_too_large r) h (serve_call-IsReached upstream g r b h))

module _ {D : Type 0} ⦃f : Float D⦄ where
  -- The calls that a counter has of a run, settled and in flight.
  abbrev pub counted_calls : Option (Memory D) → Bytes → ℕ
  counted_calls none run = 0
  counted_calls (some m) run = (run_state m.0 run).calls + (run_state m.0 run).inflight

module _ {D : Type 0} ⦃f : Float D⦄ (os : Platform D) (p : Policy D) where
  serve_all-IsReached :
      (shadow : p.shadow ≡ false) (on : 0 < p.max_calls_per_run) (cfg : Config D)
      (g : Gateway D (Memory D)) (arrivals : List Arrival)
      → g.config ≡ cfg
      → All (λ (a : Arrival). HasNoBypass os a.at cfg a.request) arrivals
      → IsReached p g.ctrl
      → IsReached p (serve_all os memory_budget g arrivals).ctrl
  unfolding serve_all
  serve_all-IsReached shadow on cfg g [] e calls h = h
  serve_all-IsReached shadow on cfg g (a ∷ rest) e calls h =
      serve_all-IsReached shadow on cfg (serve os memory_budget a.at a.upstream g a.request).1 rest
        (serve-config os memory_budget a.at a.upstream g a.request ∙ e) calls.1
        (serve-IsReached p os a.at shadow on a.upstream g a.request (rw e calls.0) h)

  counted_calls-cap :
      (shadow : p.shadow ≡ false) (on : 0 < p.max_calls_per_run) (ctrl : Option (Memory D))
      (run : Bytes)
      → IsReached p ctrl
      → counted_calls ctrl run ≤ p.max_calls_per_run
  unfolding IsReached
  counted_calls-cap shadow on none run h = omega arith
  counted_calls-cap shadow on (some m) run h = calls_within_cap p run shadow on h.0 h.1

  -- Over every history of requests served one after another, those of the control plane among them,
  -- a gateway outside shadow mode with a call cap, whose counter is the controller of its process
  -- and new at first, never counts more calls of a run than the cap, settled and in flight
  -- together, if no request has the bypass.
  pub serve_all-calls_within_cap :
      (g : Gateway D (Memory D)) (arrivals : List Arrival) (run : Bytes)
      → p.shadow ≡ false
      → 0 < p.max_calls_per_run
      → g.ctrl ≡ some (new_controller p, [])
      → All (λ (a : Arrival). HasNoBypass os a.at g.config a.request) arrivals
      → counted_calls (serve_all os memory_budget g arrivals).ctrl run ≤ p.max_calls_per_run
  unfolding IsReached
  serve_all-calls_within_cap g arrivals run shadow on new calls =
      counted_calls-cap shadow on (serve_all os memory_budget g arrivals).ctrl run (
        serve_all-IsReached shadow on g.config g arrivals refl calls
          (subst (IsReached p) (sym new) (here, tt)))
