-- ===== src/Gateway/Handler/Watch.antt =====
-- internal/gateway/gateway.go: which calls the handler's counter let through, and which it was asked
-- to settle.
use axigate_finops.Prelude.{
  ℕ, ◌≡◌, refl, Bool, List, [], ◌∷◌, ◌++◌, Option, none, some, Bytes, Float, arith, if◌then◌else◌,
  if_both, if_cases,
}
use axigate_finops.Gateway.Loop.Detect.{Decision}
use axigate_finops.Ledger.Identify.{derive_id}
use axigate_finops.Gateway.Handler.Request.{HttpRequest, HttpResponse, Platform, tags_from_headers}
use axigate_finops.Gateway.Shared.Reasons.{counter_label}
use axigate_finops.Gateway.Handler.Budget.{Budget}
use axigate_finops.Gateway.Handler.Row.{Config, Caller, Exchange, counter_key, exchange_event}
use axigate_finops.Gateway.Handler.Admin.{Reply}
use axigate_finops.Gateway.Handler.Record.{
  Times, Gateway, record_exchange, record_blocked, settled, released, exchange_of,
}
use axigate_finops.Gateway.Handler.Serve.{
  Outbound, noted, decided, forward, placed_call, controlled, answered_with, outbound, refusal_code,
}

-- The run and the key of a call, and where it was decided.
abbrev pub CallId : Type 0
CallId = Bytes × Bytes × Bytes

-- A counter with the calls that it has let through and those that it was asked to settle.
pub record Watched (S : Type 0) : Type 0 where
  pub counter : S
  pub opened : List CallId
  pub closed : List CallId

-- The run of a caller is the run of its tags.
abbrev pub IsTagged : Caller → Type 0
IsTagged c = (tags_from_headers c.header).run ≡ c.run

module _ {S : Type 0} where
  abbrev pub kept : Watched S → S → Watched S
  kept w s = record w { counter = s }

  abbrev pub closes : Watched S → S → CallId → Watched S
  closes w s call = record w { counter = s; closed = w.closed ++ call ∷ [] }

  abbrev pub opens : Watched S → S → Bool → CallId → Watched S
  opens w s ok call = record w {
    counter = s;
    opened = if ok then w.opened ++ call ∷ [] else w.opened;
  }

-- Any counter, watched.
unfoldable pub watched : {D S T : Type 0} → Budget D S T → Budget D (Watched S) T
watched b = record {
  noting_run =
      λ now w run agent team model. kept w (b.noting_run now w.counter run agent team model);
  noting_key =
      λ now w key agent team model. kept w (b.noting_key now w.counter key agent team model);
  admitting = λ now w run key bypass.
      let (p, s) = b.admitting now w.counter run key bypass in (p, opens w s p.0 (run, key, p.2));
  recording = λ now w run key cost loop where'.
      closes w (b.recording now w.counter run key cost loop where') (run, key, where');
  releasing = λ now w run key where'.
      closes w (b.releasing now w.counter run key where') (run, key, where');
  capping = λ now w run cap. kept w (b.capping now w.counter run cap);
  resuming_run = λ now w run. let (ok, s) = b.resuming_run now w.counter run in (ok, kept w s);
  resuming_key = λ now w key. let (ok, s) = b.resuming_key now w.counter key in (ok, kept w s);
  killing = λ now w on. kept w (b.killing now w.counter on);
  reporting = λ now w. let (t, s) = b.reporting now w.counter in (t, kept w s);
  pending = λ w. b.pending w.counter;
  mode = λ w. b.mode w.counter;
}

module _ {S : Type 0} where
  -- The calls that were let through are those that were settled, in the same order.
  unfoldable pub IsBalanced : Option (Watched S) → Type 0
  IsBalanced none = Unit
  IsBalanced (some w) = w.opened ≡ w.closed

  -- All that were let through are settled, but for the last.
  IsOpen : CallId → Option (Watched S) → Type 0
  IsOpen call none = Unit
  IsOpen call (some w) = w.opened ≡ w.closed ++ call ∷ []

module _ {D S T : Type 0} ⦃f : Float D⦄ (os : Platform D) (b : Budget D S T) (at : Times) where
  noted-lists :
      (cfg : Config D) (c : Caller) (w : Watched S)
      → ((noted os (watched b) at cfg c w).opened ≡ w.opened)
        × ((noted os (watched b) at cfg c w).closed ≡ w.closed)
  unfolding noted watched
  noted-lists cfg c w = ground arith

  decided-lists :
      (cfg : Config D) (c : Caller) (w : Watched S)
      → let o = decided os (watched b) at cfg c w in
        (o.1.opened
          ≡ (if o.0.0 then w.opened ++ (c.run, counter_key cfg c.key, o.0.2) ∷ [] else w.opened))
        × (o.1.closed ≡ w.closed)
  unfolding decided watched
  decided-lists cfg c w = ground (arith, noted-lists cfg c w)

  exchange_event-run :
      (cfg : Config D) (c : Caller) (x : Exchange) (seq ended : ℕ)
      → (exchange_event os cfg c x seq ended).tags ≡ tags_from_headers c.header
  unfolding exchange_event derive_id
  exchange_event-run cfg c x seq ended = refl

  settled-IsBalanced :
      (run run' key where' : Bytes) (cost : D) (loop : Bool) (ctrl : Option (Watched S))
      → run' ≡ run
      → IsOpen (run, key, where') ctrl
      → IsBalanced (settled os (watched b) at run' key cost loop where' ctrl)
  unfolding IsBalanced IsOpen watched
  settled-IsBalanced run run' key where' cost loop none e due = tt
  settled-IsBalanced run run' key where' cost loop (some w) e due = rw e due

  released-IsBalanced :
      (c : Caller) (key where' : Bytes) (ctrl : Option (Watched S))
      → IsOpen (c.run, key, where') ctrl
      → IsBalanced (released os (watched b) at c key where' ctrl)
  unfolding IsBalanced IsOpen watched
  released-IsBalanced c key where' none due = tt
  released-IsBalanced c key where' (some w) due = due

  record_exchange-IsBalanced :
      (g : Gateway D (Watched S)) (c : Caller) (x : Exchange)
      → IsTagged c
      → IsOpen (c.run, counter_key g.config c.key, x.counter) g.ctrl
      → IsBalanced (record_exchange os (watched b) at g c x).ctrl
  unfolding record_exchange exchange_event derive_id
  record_exchange-IsBalanced g c x tagged due =
      if_both (λ (g' : Gateway D (Watched S)). IsBalanced g'.ctrl) g.config.records
        (settled-IsBalanced c.run _ _ x.counter _ x.decision.suspected g.ctrl tagged due)
        (settled-IsBalanced c.run _ _ x.counter _ x.decision.suspected g.ctrl tagged due)

  record_blocked-ctrl :
      (g : Gateway D (Watched S)) (c : Caller) (reason label : Bytes) (code : ℕ)
      → (record_blocked os (watched b) at g c reason code label).ctrl ≡ g.ctrl
  unfolding record_blocked
  record_blocked-ctrl g c reason label code = ground arith

  answered_with-IsBalanced :
      (g : Gateway D (Watched S)) (c : Caller) (d : Decision) (where' would : Bytes)
      (response : Option HttpResponse)
      → IsTagged c
      → IsOpen (c.run, counter_key g.config c.key, where') g.ctrl
      → IsBalanced (answered_with os (watched b) at g c d where' would response).1.ctrl
  unfolding exchange_of
  answered_with-IsBalanced g c d where' would none tagged due =
      released-IsBalanced c (counter_key g.config c.key) where' g.ctrl due
  answered_with-IsBalanced g c d where' would (some response) tagged due =
      record_exchange-IsBalanced g c (exchange_of os g.config c response d where' would) tagged due

  module _ (upstream : Outbound → Option HttpResponse) where
    forward-IsBalanced :
        (g : Gateway D (Watched S)) (c : Caller) (r : HttpRequest) (d : Decision)
        (where' would : Bytes)
        → IsTagged c
        → IsOpen (c.run, counter_key g.config c.key, where') g.ctrl
        → IsBalanced (forward os (watched b) at upstream g c r d where' would).1.ctrl
    unfolding forward
    forward-IsBalanced g c r d where' would tagged due =
        let out = outbound os g.config r in
        if_both (λ (x : Reply T × Gateway D (Watched S)). IsBalanced x.1.ctrl)
          (os.makes_request out.method out.target)
          (answered_with-IsBalanced g c d where' would (upstream out) tagged due)
          (released-IsBalanced c (counter_key g.config c.key) where' g.ctrl due)

    pub controlled-IsBalanced :
        (g : Gateway D (Watched S)) (c : Caller) (r : HttpRequest) (d : Decision)
        (ctrl : Option (Watched S))
        → IsTagged c
        → g.ctrl ≡ ctrl
        → IsBalanced ctrl
        → IsBalanced (controlled os (watched b) at upstream g c r d ctrl).1.ctrl
    unfolding placed_call IsBalanced IsOpen
    controlled-IsBalanced g c r d none tagged e h =
        forward-IsBalanced g c r d [] [] tagged (rw e tt)
    controlled-IsBalanced g c r d (some w) tagged e h =
        let o = decided os (watched b) at g.config c w in
        let g' : Gateway D (Watched S) = record g { ctrl = some o.1 } in
        if_cases (λ (x : Reply T × Gateway D (Watched S)). IsBalanced x.1.ctrl) o.0.0
          (λ ok.
            forward-IsBalanced g' c r d o.0.2 o.0.1 tagged
              (ground (arith, decided-lists g.config c w)))
          (λ no.
            rw (record_blocked-ctrl g' c o.0.1 (counter_label o.0.2) (refusal_code o.0.1))
              (ground (arith, decided-lists g.config c w)))
