-- ===== src/Gateway/Handler/Settled.antt =====
-- internal/gateway/gateway.go: that the calls which the counter let through are settled.
use axigate_finops.Prelude.{
  ◌≡◌, refl, List, [], ◌∷◌, Option, none, some, Bytes, Float, arith, if_both,
}
use axigate_finops.Gateway.Loop.Detect.{Decision}
use axigate_finops.Gateway.Shared.Calls.{Placed}
use axigate_finops.Gateway.Handler.Request.{HttpRequest, HttpResponse, Platform, tags_from_headers}
use axigate_finops.Gateway.Handler.Budget.{Budget}
use axigate_finops.Gateway.Handler.Row.{Caller}
use axigate_finops.Gateway.Handler.Admin.{Reply, serve_admin, route_admin}
use axigate_finops.Gateway.Handler.Record.{Times, Gateway, record_exchange, record_blocked}
use axigate_finops.Gateway.Handler.Serve.{
  Outbound, serve_call, serve, caller_of, detect, is_admin, is_too_large, controlled, answered_with,
  placed_call, forward, outbound, decided,
}
use axigate_finops.Gateway.Handler.Watch.{
  Watched, watched, IsBalanced, IsTagged, controlled-IsBalanced,
}

-- A request, with what the clock and the provider give for it.
pub record Arrival : Type 0 where
  pub at : Times
  pub upstream : Outbound → Option HttpResponse
  pub request : HttpRequest

module _ {D S T : Type 0} ⦃f : Float D⦄ (os : Platform D) (b : Budget D S T) where
  -- A gateway after some requests.
  unfoldable pub serve_all : Gateway D S → List Arrival → Gateway D S
  serve_all g [] = g
  serve_all g (a ∷ rest) = serve_all (serve os b a.at a.upstream g a.request).1 rest

module _ {D S T : Type 0} ⦃f : Float D⦄ (os : Platform D) (b : Budget D S T) where
  caller_of-IsTagged :
      (g : Gateway D (Watched S)) (at : Times) (r : HttpRequest)
      → IsTagged (caller_of os g.config at.start r)
  unfolding caller_of tags_from_headers
  caller_of-IsTagged g at r = refl

  route_admin-lists :
      (at : Times) (r : HttpRequest) (w : Watched S)
      → ((route_admin (watched b) at.start r w).1.opened ≡ w.opened)
        × ((route_admin (watched b) at.start r w).1.closed ≡ w.closed)
  unfolding route_admin watched
  route_admin-lists at r w = ground arith

  serve_admin-IsBalanced :
      (at : Times) (token given : Bytes) (r : HttpRequest) (ctrl : Option (Watched S))
      → IsBalanced ctrl
      → IsBalanced (serve_admin (watched b) at.start token given r ctrl).1
  unfolding serve_admin IsBalanced
  serve_admin-IsBalanced at token given r none h = tt
  serve_admin-IsBalanced at token given r (some w) h = ground (arith, route_admin-lists at r w)

  serve_call-IsBalanced :
      (at : Times) (upstream : Outbound → Option HttpResponse) (g : Gateway D (Watched S))
      (r : HttpRequest)
      → IsBalanced g.ctrl
      → IsBalanced (serve_call os (watched b) at upstream g r).1.ctrl
  unfolding serve_call
  serve_call-IsBalanced at upstream g r h =
      let c = caller_of os g.config at.start r in
      let seen = detect os g.config c at.observed r.body g.det in
      controlled-IsBalanced os b at upstream (record g { det = seen.1 }) c r seen.0 g.ctrl
        (caller_of-IsTagged g at r) refl h

  serve-IsBalanced :
      (at : Times) (upstream : Outbound → Option HttpResponse) (g : Gateway D (Watched S))
      (r : HttpRequest)
      → IsBalanced g.ctrl
      → IsBalanced (serve os (watched b) at upstream g r).1.ctrl
  unfolding serve
  serve-IsBalanced at upstream g r h =
      let P : Reply T × Gateway D (Watched S) → Type 0 = λ x. IsBalanced x.1.ctrl in
      if_both P (is_admin r) (serve_admin-IsBalanced at g.config.control.admin_token _ r g.ctrl h)
        (if_both P (is_too_large r) h (serve_call-IsBalanced at upstream g r h))

  -- Whatever requests come, admin requests among them, whatever the counter decides and the
  -- provider answers: the calls that the counter let through are exactly those that it was then
  -- asked to settle, by a cost or by a release, each once, in the same order, and under the run,
  -- the key and the place it was admitted with.
  pub serve_all-IsBalanced :
      (g : Gateway D (Watched S)) (arrivals : List Arrival)
      → IsBalanced g.ctrl
      → IsBalanced (serve_all os (watched b) g arrivals).ctrl
  unfolding serve_all
  serve_all-IsBalanced g [] h = h
  serve_all-IsBalanced g (a ∷ rest) h =
      serve_all-IsBalanced (serve os (watched b) a.at a.upstream g a.request).1 rest
        (serve-IsBalanced a.at a.upstream g a.request h)

module _ {D S T : Type 0} ⦃f : Float D⦄ (os : Platform D) (b : Budget D S T) (at : Times)
    (upstream : Outbound → Option HttpResponse) where
  answered_with-config :
      (g : Gateway D S) (c : Caller) (d : Decision) (where' would : Bytes)
      (response : Option HttpResponse)
      → (answered_with os b at g c d where' would response).1.config ≡ g.config
  unfolding record_exchange
  answered_with-config g c d where' would none = refl
  answered_with-config g c d where' would (some response) = ground arith

  placed_call-config :
      (g : Gateway D S) (c : Caller) (r : HttpRequest) (d : Decision) (p : Placed)
      → (placed_call os b at upstream g c r d p).1.config ≡ g.config
  unfolding placed_call forward record_blocked
  placed_call-config g c r d (ok, reason, where') =
      ground (arith, answered_with-config g c d where' reason (upstream (outbound os g.config r)))

  controlled-config :
      (g : Gateway D S) (c : Caller) (r : HttpRequest) (d : Decision) (ctrl : Option S)
      → (controlled os b at upstream g c r d ctrl).1.config ≡ g.config
  unfolding forward
  controlled-config g c r d none =
      ground (arith, answered_with-config g c d [] [] (upstream (outbound os g.config r)))
  controlled-config g c r d (some s) =
      let o = decided os b at g.config c s in
      placed_call-config (record g { ctrl = some o.1 }) c r d o.0

  pub serve-config :
      (g : Gateway D S) (r : HttpRequest) → (serve os b at upstream g r).1.config ≡ g.config
  unfolding serve serve_call
  serve-config g r =
      let c = caller_of os g.config at.start r in
      let seen = detect os g.config c at.observed r.body g.det in
      ground (arith, controlled-config (record g { det = seen.1 }) c r seen.0 g.ctrl)
