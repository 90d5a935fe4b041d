-- ===== src/Gateway/Handler/Killed.antt =====
-- internal/gateway/gateway.go and internal/gateway/admin.go: the kill switch of a gateway whose
-- counter is the controller of its process.
use axigate_finops.Prelude.{
  ℕ, ◌≡◌, refl, ap, sym, ◌∙◌, Bool, true, false, List, [], ◌∷◌, ◌++◌, Option, some, Bytes, str,
  Float, All, arith, is_empty, beq, starts_with, beq_refl, starts_with-append, Bool-cases, inl, inr,
  subst,
}
use axigate_finops.Gateway.Control.State.{killed_reason}
use axigate_finops.Gateway.Control.Evict.{evict, evict_keys}
use axigate_finops.Gateway.Control.Admit.{admit_keyed, admit_locked, dispatch}
use axigate_finops.Gateway.Control.Operator.{note_run, note_key, set_run_cap, set_killed}
use axigate_finops.Gateway.Control.Status.{Status}
use axigate_finops.Gateway.Loop.Detect.{Decision}
use axigate_finops.Gateway.Handler.Request.{HttpRequest, HttpResponse, Platform, header_get}
use axigate_finops.Gateway.Handler.Budget.{Memory, memory_admit, memory_budget}
use axigate_finops.Gateway.Handler.Row.{Config, Caller}
use axigate_finops.Gateway.Handler.Admin.{Reply, json_error, admin_prefix, route_admin, serve_admin}
use axigate_finops.Gateway.Handler.Record.{Times, Gateway, record_blocked}
use axigate_finops.Gateway.Handler.Serve.{
  Outbound, is_admin, is_too_large, noted, decided, placed_call, serve_call, serve, caller_of,
  controlled, detect,
}
use axigate_finops.Gateway.Handler.Settled.{Arrival, serve_all}

module _ {D : Type 0} ⦃f : Float D⦄ (os : Platform D) (at : Times) where
  noted-killed :
      (cfg : Config D) (c : Caller) (m : Memory D)
      → (noted os memory_budget at cfg c m).0.killed ≡ m.0.killed
  unfolding noted memory_budget note_run note_key set_run_cap evict evict_keys
  noted-killed cfg c m = ground arith

  pub decided-killed :
      (cfg : Config D) (c : Caller) (m : Memory D)
      → m.0.killed ≡ true
      → let o = decided os memory_budget at cfg c m in
        (o.0.0 ≡ false) × (o.0.1 ≡ killed_reason) × (o.1.0.killed ≡ true)
  unfolding decided memory_budget memory_admit admit_keyed admit_locked dispatch
  decided-killed cfg c m h = ground (arith, noted-killed cfg c m)

  -- A gateway whose kill switch is engaged.
  abbrev pub IsKilled : Gateway D (Memory D) → Type 0
  IsKilled g = (m : Memory D) × (g.ctrl ≡ some m) × (m.0.killed ≡ true)

  abbrev pub killed_reply : Reply (Status D)
  killed_reply = json_error 503 (str "killed") (str "axigate gateway: kill switch engaged")

  -- The client is told of the kill switch, which stays engaged.
  abbrev pub RefusedAsKilled : Reply (Status D) × Gateway D (Memory D) → Type 0
  RefusedAsKilled x = (x.0 ≡ killed_reply) × IsKilled x.1

  record_blocked-ctrl :
      (g : Gateway D (Memory D)) (c : Caller) (reason label : Bytes) (code : ℕ)
      → (record_blocked os memory_budget at g c reason code label).ctrl ≡ g.ctrl
  unfolding record_blocked
  record_blocked-ctrl g c reason label code = ground arith

  module _ (upstream : Outbound → Option HttpResponse) where
    placed_call-refused :
        (g : Gateway D (Memory D)) (c : Caller) (r : HttpRequest) (d : Decision) (ok : Bool)
        (reason where' : Bytes)
        → ok ≡ false
        → reason ≡ killed_reason
        → IsKilled g
        → RefusedAsKilled (placed_call os memory_budget at upstream g c r d (ok, reason, where'))
    unfolding placed_call beq
    placed_call-refused g c r d ok reason where' e k (m, found, on) =
        rw (e, k) (refl, (m, record_blocked-ctrl g c _ _ _ ∙ found, on))

    controlled-refused :
        (g : Gateway D (Memory D)) (c : Caller) (r : HttpRequest) (d : Decision) (m : Memory D)
        → m.0.killed ≡ true
        → RefusedAsKilled (controlled os memory_budget at upstream g c r d (some m))
    controlled-refused g c r d m h =
        let o = decided os memory_budget at g.config c m in
        let k = decided-killed g.config c m h in
        placed_call-refused (record g { ctrl = some o.1 }) c r d o.0.0 o.0.1 o.0.2 k.0 k.1
          (o.1, refl, k.2)

    -- Every other request within the size limit is refused as killed.
    serve-refused :
        (g : Gateway D (Memory D)) (r : HttpRequest)
        → IsKilled g
        → is_admin r ≡ false
        → is_too_large r ≡ false
        → RefusedAsKilled (serve os memory_budget at upstream g r)
    unfolding serve serve_call
    serve-refused g r (m, found, on) a l =
        let c = caller_of os g.config at.start r in
        let seen = detect os g.config c at.observed r.body g.det in
        rw (a, l, found) (controlled-refused (record g { det = seen.1 }) c r seen.0 m on)

    serve_too_large :
        (g : Gateway D (Memory D)) (r : HttpRequest)
        → is_admin r ≡ false
        → is_too_large r ≡ true
        → (serve os memory_budget at upstream g r).1 ≡ g
    unfolding serve
    serve_too_large g r a l = rw (a, l) refl

    serve-IsKilled :
        (g : Gateway D (Memory D)) (r : HttpRequest)
        → IsKilled g
        → is_admin r ≡ false
        → IsKilled (serve os memory_budget at upstream g r).1
    serve-IsKilled g r h a = elim (Bool-cases (is_too_large r)) [
      | inl l ↦ too_large l
      | inr l ↦ (serve-refused g r h a l).1
    ]
      where
        too_large : is_too_large r ≡ true → IsKilled (serve os memory_budget at upstream g r).1
        too_large l =
            subst (λ (x : Gateway D (Memory D)). IsKilled x) (sym (serve_too_large g r a l)) h

-- A request of an operator for the kill switch, with the token of the gateway.
pub record IsKillRequest {D : Type 0} (os : Platform D) (token : Bytes) (r : HttpRequest)
    : Type 0 where
  pub filled : is_empty token ≡ false
  pub path : r.path ≡ admin_prefix ++ str "kill"
  pub method : r.method ≡ str "POST"
  pub given : header_get os.canonical r.headers (str "X-AxiGate-Admin") ≡ token

module _ {D : Type 0} ⦃f : Float D⦄ (os : Platform D) where
  serve_admin-kill :
      (token given : Bytes) (now : ℕ) (r : HttpRequest) (m : Memory D)
      → is_empty token ≡ false
      → given ≡ token
      → r.path ≡ admin_prefix ++ str "kill"
      → r.method ≡ str "POST"
      → (serve_admin memory_budget now token given r (some m)).1 ≡ some (set_killed m.0 true, m.1)
  unfolding serve_admin route_admin memory_budget beq
  serve_admin-kill token given now r m e g p q = rw (e, g, p, q, beq_refl token) refl

  serve_as_admin :
      (at : Times) (upstream : Outbound → Option HttpResponse) (g : Gateway D (Memory D))
      (r : HttpRequest)
      → is_admin r ≡ true
      → (serve os memory_budget at upstream g r).1.ctrl
        ≡ (serve_admin memory_budget at.start g.config.control.admin_token
            (header_get os.canonical r.headers (str "X-AxiGate-Admin"))
            r
            g.ctrl).1
  unfolding serve
  serve_as_admin at upstream g r a = rw a refl

  serve-kill :
      (at : Times) (upstream : Outbound → Option HttpResponse) (g : Gateway D (Memory D))
      (r : HttpRequest) (m : Memory D)
      → g.ctrl ≡ some m
      → IsKillRequest os g.config.control.admin_token r
      → IsKilled os at (serve os memory_budget at upstream g r).1
  unfolding set_killed
  serve-kill at upstream g r m e k = (
    (set_killed m.0 true, m.1),
    serve_as_admin at upstream g r
          (ap (starts_with admin_prefix) k.path ∙ starts_with-append admin_prefix (str "kill"))
        ∙ rw e (
            serve_admin-kill g.config.control.admin_token _ at.start r m k.filled k.given k.path
              k.method),
    refl,
  )

  serve_all-IsKilled :
      (at : Times) (g : Gateway D (Memory D)) (arrivals : List Arrival)
      → All (λ (a : Arrival). is_admin a.request ≡ false) arrivals
      → IsKilled os at g
      → IsKilled os at (serve_all os memory_budget g arrivals)
  unfolding serve_all
  serve_all-IsKilled at g [] calls h = h
  serve_all-IsKilled at g (a ∷ rest) calls h =
      serve_all-IsKilled at (serve os memory_budget a.at a.upstream g a.request).1 rest calls.1
        (serve-IsKilled os a.at a.upstream g a.request h calls.0)

  -- Once an operator has sent the kill request with the gateway's token, every request within the
  -- size limit is refused with status 503, whatever requests came in between, up to the next one of
  -- the control plane.
  pub serve-killed :
      (at : Times) (upstream : Outbound → Option HttpResponse) (g : Gateway D (Memory D))
      (kill : HttpRequest) (m : Memory D)
      → g.ctrl ≡ some m
      → IsKillRequest os g.config.control.admin_token kill
      → (arrivals : List Arrival) → All (λ (a : Arrival). is_admin a.request ≡ false) arrivals
      → (r : HttpRequest) → is_admin r ≡ false
      → is_too_large r ≡ false
      → let g' =
          serve_all os memory_budget (serve os memory_budget at upstream g kill).1 arrivals in
        (serve os memory_budget at upstream g' r).0
        ≡ json_error 503 (str "killed") (str "axigate gateway: kill switch engaged")
  serve-killed at upstream g kill m e k arrivals calls r a l =
      (serve-refused os at upstream
        (serve_all os memory_budget (serve os memory_budget at upstream g kill).1 arrivals) r
        (serve_all-IsKilled at (serve os memory_budget at upstream g kill).1 arrivals calls
          (serve-kill at upstream g kill m e k))
        a l).0
