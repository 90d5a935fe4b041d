-- ===== src/Gateway/Handler/Serve.antt =====
-- internal/gateway/gateway.go: `ServeHTTP` and `signature`.
--
-- The provider's answer to a request is a parameter, as is what the clock gives on the way.
use axigate_finops.Prelude.{
  ℕ, Bool, false, not, ◌&&◌, [], ◌++◌, Option, none, some, Bytes, str, starts_with, beq, is_empty,
  Float, positive, ltb, if◌then◌else◌, length, take,
}
use axigate_finops.Ledger.Identify.{hex_text}
use axigate_finops.Gateway.Control.State.{killed_reason}
use axigate_finops.Gateway.Loop.Detect.{Decision, Detector, observe}
use axigate_finops.Gateway.Identity.Headers.{identity_from_headers}
use axigate_finops.Gateway.Shared.Reasons.{counter_label}
use axigate_finops.Gateway.Shared.Calls.{Placed}
use axigate_finops.Gateway.Stream.Chunks.{concat}
use axigate_finops.Gateway.Handler.Request.{
  Headers, HttpRequest, HttpResponse, Platform, header_get, header_del, copy_headers,
  tags_from_headers, key_name, key_fingerprint, parse_money, gemini_model_from_path,
}
use axigate_finops.Gateway.Handler.Budget.{Budget}
use axigate_finops.Gateway.Handler.Row.{Config, Caller, counter_key}
use axigate_finops.Gateway.Handler.Admin.{
  Reply, json_error, plain_error, forwarded, admin_prefix, serve_admin,
}
use axigate_finops.Gateway.Handler.Record.{
  Times, Gateway, exchange_of, released, record_exchange, record_blocked,
}

-- `maxRequestBody`
abbrev pub max_request_body : ℕ
max_request_body = 67108864

-- A request to the provider.
pub record Outbound : Type 0 where
  pub method : Bytes
  pub target : Bytes
  pub headers : Headers
  pub body : Bytes

abbrev pub no_decision : Decision
no_decision = record { suspected = false; signal = []; count = 0; repeat = 0 }

abbrev pub is_admin : HttpRequest → Bool
is_admin r = starts_with admin_prefix r.path

abbrev pub is_too_large : HttpRequest → Bool
is_too_large r = ltb max_request_body (length r.body)

module _ {D : Type 0} ⦃f : Float D⦄ (os : Platform D) where
  -- `signature`
  unfoldable pub signature : Bytes → Bytes → Bytes → Bytes
  signature provider model body =
      provider ++ str "|" ++ model ++ str "|" ++ hex_text (take 8 (os.digest body))

  unfoldable pub request_model : Config D → HttpRequest → Bytes
  request_model cfg r =
      let model = os.body_model r.body in
      if is_empty model && beq cfg.provider (str "gemini")
      then gemini_model_from_path r.path
      else model

  -- What the handler reads of a request.
  unfoldable pub caller_of : Config D → ℕ → HttpRequest → Caller
  caller_of cfg start r =
      let header = header_get os.canonical r.headers in
      record {
        header = header;
        start = start;
        model = request_model cfg r;
        run = (identity_from_headers header).run;
        key = key_fingerprint os cfg.provider header r.query;
        key_name = key_name os header;
      }

  abbrev detected : Bytes → Bytes → ℕ → Option Detector → Decision × Option Detector
  detected run sig now none = (no_decision, none)
  detected run sig now (some d) =
      let seen = observe d run sig now in
      if is_empty run then (no_decision, some d) else (seen.0, some seen.1)

  -- The loop detection of a request.
  unfoldable pub detect :
      Config D → Caller → ℕ → Bytes → Option Detector → Decision × Option Detector
  detect cfg c now body det = detected c.run (signature cfg.provider c.model body) now det

  -- The request that is forwarded.
  unfoldable pub outbound : Config D → HttpRequest → Outbound
  outbound cfg r = record {
    method = r.method;
    target =
        cfg.upstream ++ r.path ++ (if is_empty r.raw_query then [] else str "?" ++ r.raw_query);
    headers =
        header_del os.canonical (str "Accept-Encoding") (copy_headers os.canonical [] r.headers);
    body = r.body;
  }

abbrev pub refusal_code : Bytes → ℕ
refusal_code reason = if beq reason killed_reason then 503 else 429

abbrev pub refusal_type : Bytes → Bytes
refusal_type reason =
    if beq reason killed_reason
    then str "killed"
    else if starts_with (str "key ") reason
    then str "key_paused"
    else str "run_paused"

-- Whether a request has the bypass.
abbrev pub bypasses : {D : Type 0} → Config D → Caller → Bool
bypasses cfg c =
    not (is_empty cfg.control.admin_token)
    && beq (c.header (str "X-AxiGate-Bypass")) cfg.control.admin_token

module _ {D S T : Type 0} ⦃f : Float D⦄ (os : Platform D) (b : Budget D S T) (at : Times) where
  -- What the counter is told of a request before it decides.
  unfoldable pub noted : Config D → Caller → S → S
  noted cfg c s =
      let t = tags_from_headers c.header in
      let ctrl_key = counter_key cfg c.key in
      let s' = b.noting_run at.decided s c.run t.agent t.team c.model in
      let s'' = b.noting_key at.decided s' ctrl_key t.agent t.team c.model in
      let cap = parse_money os (c.header (str "X-AxiGate-Max-Spend")) in
      if cfg.control.allow_request_caps && positive cap
      then b.capping at.decided s'' c.run cap
      else s''

  -- The decision of the counter on a request.
  unfoldable pub decided : Config D → Caller → S → Placed × S
  decided cfg c s =
      b.admitting at.decided (noted cfg c s) c.run (counter_key cfg c.key) (bypasses cfg c)

  -- The request is forwarded and its response passed on.
  abbrev pub answered_with :
      Gateway D S → Caller → Decision → Bytes → Bytes → Option HttpResponse → Reply T × Gateway D S
  answered_with g c d counter would none = (
    plain_error 502 (str "gateway: upstream unreachable"),
    record g { ctrl = released os b at c (counter_key g.config c.key) counter g.ctrl },
  )
  answered_with g c d counter would (some response) = (
    forwarded response.status (copy_headers os.canonical [] response.headers)
        (concat response.chunks),
    record_exchange os b at g c (exchange_of os g.config c response d counter would),
  )

  module _ (upstream : Outbound → Option HttpResponse) where
    unfoldable pub forward :
        Gateway D S → Caller → HttpRequest → Decision → Bytes → Bytes → Reply T × Gateway D S
    forward g c r d counter would =
        let out = outbound os g.config r in
        if os.makes_request out.method out.target
        then answered_with g c d counter would (upstream out)
        else (
          plain_error 502 (str "gateway: bad request"),
          record g { ctrl = released os b at c (counter_key g.config c.key) counter g.ctrl },
        )

    -- A request that the counter has decided on.
    unfoldable pub placed_call :
        Gateway D S → Caller → HttpRequest → Decision → Placed → Reply T × Gateway D S
    placed_call g c r d (ok, reason, where') =
        let code = refusal_code reason in
        if ok then forward g c r d where' reason else (
          json_error code (refusal_type reason) (str "axigate gateway: " ++ reason),
          record_blocked os b at g c reason code (counter_label where'),
        )

    abbrev pub controlled :
        Gateway D S → Caller → HttpRequest → Decision → Option S → Reply T × Gateway D S
    controlled g c r d none = forward g c r d [] []
    controlled g c r d (some s) =
        let o = decided g.config c s in placed_call (record g { ctrl = some o.1 }) c r d o.0

    unfoldable pub serve_call : Gateway D S → HttpRequest → Reply T × Gateway D S
    serve_call g r =
        let c = caller_of os g.config at.start r in
        let seen = detect os g.config c at.observed r.body g.det in
        controlled (record g { det = seen.1 }) c r seen.0 g.ctrl

    abbrev pub administered : Gateway D S → Reply T × Option S → Reply T × Gateway D S
    administered g (reply, ctrl) = (reply, record g { ctrl = ctrl })

    -- `ServeHTTP`
    unfoldable pub serve : Gateway D S → HttpRequest → Reply T × Gateway D S
    serve g r =
        let given = header_get os.canonical r.headers (str "X-AxiGate-Admin") in
        if is_admin r
        then administered g (serve_admin b at.start g.config.control.admin_token given r g.ctrl)
        else if is_too_large r
        then (
          json_error 413 (str "request_too_large")
              (str "axigate gateway: request body exceeds the 64 MiB limit"),
          g,
        )
        else serve_call g r
