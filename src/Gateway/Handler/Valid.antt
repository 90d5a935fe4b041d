-- ===== src/Gateway/Handler/Valid.antt =====
-- internal/gateway/gateway.go and internal/gateway/recorder.go: that the recorder takes the
-- gateway's rows.
use axigate_finops.Prelude.{
  ℕ, ◌+◌, ◌≡◌, refl, true, false, List, [], ◌∷◌, ◌++◌, Option, none, some, Bytes, is_empty, Float,
  FloatLaws, AtMost, zero_usd, All, arith, if_both, take, if◌then◌else◌, ltb, lookup, beq,
}
use axigate_finops.Ledger.Event.{Event, Usage, validate, valid, estimated}
use axigate_finops.Ledger.Identify.{derive_id, identity_text, hex_text, month_text}
use axigate_finops.Pricing.Charge.{IsCounted, price-NonNeg}
use axigate_finops.Gateway.Loop.Detect.{Decision, Detector}
use axigate_finops.Gateway.Shared.Reasons.{counter_label}
use axigate_finops.Gateway.Stream.Usage.{no_usage}
use axigate_finops.Gateway.Handler.Request.{HttpRequest, HttpResponse, Platform}
use axigate_finops.Gateway.Handler.Budget.{Budget}
use axigate_finops.Gateway.Handler.Row.{
  Config, Caller, Exchange, token_usage, exchange_event, blocked_event,
}
use axigate_finops.Gateway.Handler.Admin.{Reply}
use axigate_finops.Gateway.Handler.Record.{
  Times, Gateway, read_usage, record_exchange, record_blocked, exchange_of,
}
use axigate_finops.Gateway.Handler.Serve.{
  Outbound, decided, forward, placed_call, controlled, serve_call, serve, answered_with, outbound,
  refusal_code, caller_of, detect, is_admin, is_too_large,
}

take-filled : (n : ℕ) (s : Bytes) → is_empty s ≡ false → is_empty (take (n + 1) s) ≡ false
take-filled n [] h = cc
take-filled n (c ∷ s) h = ground arith

hex_text-filled : (s : Bytes) → is_empty s ≡ false → is_empty (hex_text s) ≡ false
unfolding hex_text
hex_text-filled [] h = cc
hex_text-filled (c ∷ s) h = refl

ends_late : (ended start : ℕ) → ltb (if ltb ended start then start else ended) start ≡ false
ends_late ended start = ground arith

valid-estimated : valid estimated ≡ true
unfolding valid lookup beq
valid-estimated = refl

module _ {D : Type 0} ⦃f : Float D⦄ where
  pub IsValid : Event D → Type 0
  IsValid e = validate e ≡ none

  -- A row with an id and a provider that costs no negative amount and ends no earlier than it
  -- starts.
  derived-IsValid :
      (digest : Bytes → Bytes) (e : Event D)
      → ((s : Bytes) → is_empty (digest s) ≡ false)
      → is_empty e.source ≡ false
      → is_empty e.provider ≡ false
      → e.confidence ≡ estimated
      → AtMost zero_usd e.cost_usd
      → ltb e.ends_at e.starts_at ≡ false
      → IsValid (derive_id digest e)
  unfolding IsValid validate derive_id month_text
  derived-IsValid digest e d s p c k t = ground (
    arith,
    hex_text-filled (take 16 (digest (identity_text e)))
        (take-filled 15 (digest (identity_text e)) (d (identity_text e))),
    valid-estimated,
    s,
    p,
    c,
    k,
    t,
  )

  -- The laws of dollars, a digest that is not empty, and a provider with a name.
  pub record Sound (os : Platform D) (cfg : Config D) : Type 0 where
    pub laws : FloatLaws D
    pub digests : (s : Bytes) → is_empty (os.digest s) ≡ false
    pub named : is_empty cfg.provider ≡ false

  module _ (os : Platform D) (cfg : Config D) (sound : Sound os cfg) where
    exchange_event-IsValid :
        (c : Caller) (x : Exchange) (seq ended : ℕ)
        → IsCounted (token_usage x.usage)
        → IsValid (exchange_event os cfg c x seq ended)
    unfolding exchange_event
    exchange_event-IsValid c x seq ended counted =
        derived-IsValid os.digest _ sound.digests refl sound.named refl
          (if_both (λ (v : D). AtMost zero_usd v) x.got_usage
            (price-NonNeg sound.laws cfg.provider x.model (token_usage x.usage) counted)
            (sound.laws.literal_nonneg 0 0))
          (ends_late ended c.start)

    blocked_event-IsValid :
        (c : Caller) (reason label : Bytes) (code seq : ℕ)
        → IsValid (blocked_event os cfg c reason code label seq)
    unfolding blocked_event
    blocked_event-IsValid c reason label code seq =
        derived-IsValid os.digest _ sound.digests refl sound.named refl
          (sound.laws.literal_nonneg 0 0) (ground arith)

module _ {D : Type 0} ⦃f : Float D⦄ where
  All-snoc :
      (es : List (Event D)) (e : Event D) → All IsValid es → IsValid e → All IsValid (es ++ e ∷ [])
  All-snoc [] e h k = (k, tt)
  All-snoc (x ∷ es) e h k = (h.0, All-snoc es e h.1 k)

module _ {D S T : Type 0} ⦃f : Float D⦄ (os : Platform D) (b : Budget D S T) (at : Times)
    (upstream : Outbound → Option HttpResponse) (cfg : Config D) (sound : Sound os cfg) where
  -- A gateway of this configuration, all of whose rows are valid.
  abbrev pub IsRecorded : Gateway D S → Type 0
  IsRecorded g = (g.config ≡ cfg) × All IsValid g.rows

  record_exchange-IsRecorded :
      (g : Gateway D S) (c : Caller) (x : Exchange)
      → IsCounted (token_usage x.usage)
      → IsRecorded g
      → IsRecorded (record_exchange os b at g c x)
  unfolding record_exchange
  record_exchange-IsRecorded g c x counted (same, valid) =
      if_both (λ (g' : Gateway D S). IsRecorded g') g.config.records
        (
          same,
          All-snoc g.rows _ valid
              (rw same (exchange_event-IsValid os cfg sound c x (g.seq + 1) at.ended counted)),
        )
        (same, valid)

  record_blocked-IsRecorded :
      (g : Gateway D S) (c : Caller) (reason label : Bytes) (code : ℕ)
      → IsRecorded g
      → IsRecorded (record_blocked os b at g c reason code label)
  unfolding record_blocked
  record_blocked-IsRecorded g c reason label code (same, valid) =
      if_both (λ (g' : Gateway D S). IsRecorded g') g.config.records
        (
          same,
          All-snoc g.rows _ valid
              (rw same (blocked_event-IsValid os cfg sound c reason label code (g.seq + 1))),
        )
        (same, valid)

  -- The counts that are read of a response are not negative.
  abbrev pub IsCountedResponse : HttpResponse → Type 0
  IsCountedResponse response = IsCounted (token_usage (read_usage os cfg response).0)

  no_usage-IsCounted : IsCounted (token_usage no_usage)
  no_usage-IsCounted = record {
    input = omega arith;
    read = omega arith;
    write_5m = omega arith;
    write_1h = omega arith;
    output = omega arith;
  }

  exchange_of-IsCounted :
      (c : Caller) (response : HttpResponse) (d : Decision) (where' would : Bytes)
      → IsCountedResponse response
      → IsCounted (token_usage (exchange_of os cfg c response d where' would).usage)
  unfolding exchange_of
  exchange_of-IsCounted c response d where' would counted =
      if_both (λ (u : Usage). IsCounted (token_usage u)) (read_usage os cfg response).2 counted
        no_usage-IsCounted

  abbrev pub IsRecordedAfter : Reply T × Gateway D S → Type 0
  IsRecordedAfter x = IsRecorded x.1

  answered_with-IsRecorded :
      (g : Gateway D S) (c : Caller) (d : Decision) (where' would : Bytes) (o : Option HttpResponse)
      → ((response : HttpResponse) → o ≡ some response → IsCountedResponse response)
      → IsRecorded g
      → IsRecordedAfter (answered_with os b at g c d where' would o)
  answered_with-IsRecorded g c d where' would none counted h = h
  answered_with-IsRecorded g c d where' would (some response) counted h =
      record_exchange-IsRecorded g c (exchange_of os g.config c response d where' would)
        (rw h.0 (exchange_of-IsCounted c response d where' would (counted response refl))) h

  module _
      (counted : (out : Outbound) (response : HttpResponse)
        → upstream out ≡ some response
        → IsCountedResponse response) where
    forward-IsRecorded :
        (g : Gateway D S) (c : Caller) (r : HttpRequest) (d : Decision) (where' would : Bytes)
        → IsRecorded g
        → IsRecordedAfter (forward os b at upstream g c r d where' would)
    unfolding forward
    forward-IsRecorded g c r d where' would h =
        let out = outbound os g.config r in
        if_both IsRecordedAfter (os.makes_request out.method out.target)
          (answered_with-IsRecorded g c d where' would (upstream out) (counted out) h) h

    controlled-IsRecorded :
        (g : Gateway D S) (c : Caller) (r : HttpRequest) (d : Decision) (ctrl : Option S)
        → IsRecorded g
        → IsRecordedAfter (controlled os b at upstream g c r d ctrl)
    unfolding placed_call
    controlled-IsRecorded g c r d none h = forward-IsRecorded g c r d [] [] h
    controlled-IsRecorded g c r d (some s) h =
        let o = decided os b at g.config c s in
        let g' : Gateway D S = record g { ctrl = some o.1 } in
        if_both IsRecordedAfter o.0.0 (forward-IsRecorded g' c r d o.0.2 o.0.1 h)
          (record_blocked-IsRecorded g' c o.0.1 (counter_label o.0.2) (refusal_code o.0.1) h)

    -- Every row that a request adds passes the recorder's check, so none is dropped: whatever the
    -- counter, the detector and the provider do, if dollars obey the laws of finite numbers, the
    -- digest and the provider's name are not empty, and the token counts read of the provider's
    -- answers are not negative.
    pub serve-IsValid :
        (g : Gateway D S) (r : HttpRequest)
        → g.config ≡ cfg
        → All IsValid g.rows
        → All IsValid (serve os b at upstream g r).1.rows
    unfolding serve serve_call
    serve-IsValid g r same valid =
        (if_both IsRecordedAfter (is_admin r) (same, valid)
          (if_both IsRecordedAfter (is_too_large r) (same, valid)
            (controlled-IsRecorded (record g { det = seen.1 }) c r seen.0 g.ctrl (same, valid)))).1
      where
        c : Caller
        c = caller_of os g.config at.start r

        seen : Decision × Option Detector
        seen = detect os g.config c at.observed r.body g.det
