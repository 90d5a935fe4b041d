-- ===== src/Gateway/Handler/Record.antt =====
-- internal/gateway/gateway.go: `record`, `recordBlocked`, `capWriter` and how the usage of a response
-- is read; internal/gateway/recorder.go: `Record`. A recorder that panics, and the lines on stderr,
-- are left out.
use axigate_finops.Prelude.{
  ℕ, ◌+◌, ◌-◌, Bool, not, ◌&&◌, List, [], ◌∷◌, ◌++◌, Option, none, some, Bytes, str, is_empty,
  Float, ltb, leb, if◌then◌else◌, length, take,
}
use axigate_finops.Ledger.Event.{Event, validate}
use axigate_finops.Gateway.Loop.Detect.{Decision, Detector}
use axigate_finops.Gateway.Stream.Usage.{no_usage, new_sse_usage, sse_result}
use axigate_finops.Gateway.Stream.Chunks.{write_all}
use axigate_finops.Gateway.Stream.Body.{Extracted, extract_usage}
use axigate_finops.Gateway.Handler.Request.{
  HttpResponse, Platform, header_get, contains, prefer_request_model,
}
use axigate_finops.Gateway.Handler.Budget.{Budget}
use axigate_finops.Gateway.Handler.Row.{
  Config, Caller, Exchange, exchange_event, blocked_event, counter_key,
}

-- What the clock gives when a request comes, when it is checked for loops, when it is decided, when
-- its response has come, and when it is settled.
pub record Times : Type 0 where
  pub start : ℕ
  pub observed : ℕ
  pub decided : ℕ
  pub ended : ℕ
  pub settled : ℕ

-- `Gateway`, with the events that the recorder was handed.
pub record Gateway (D S : Type 0) : Type 0 where
  pub config : Config D
  pub seq : ℕ
  pub det : Option Detector
  pub ctrl : Option S
  pub rows : List (Event D)

-- `capWriter.Write`
unfoldable pub cap_write : ℕ → Bytes → Bytes → Bytes
cap_write limit buf p =
    let room = limit - length buf in
    if ltb 0 room then (if leb (length p) room then buf ++ p else buf ++ take room p) else buf

unfoldable pub cap_all : ℕ → Bytes → List Bytes → Bytes
cap_all limit buf [] = buf
cap_all limit buf (p ∷ ps) = cap_all limit (cap_write limit buf p) ps

module _ {D : Type 0} ⦃f : Float D⦄ (os : Platform D) where
  unfoldable pub is_streamed : HttpResponse → Bool
  is_streamed response =
      contains (str "text/event-stream")
        (header_get os.canonical response.headers (str "Content-Type"))

  -- The usage of a response, read frame by frame or from what was kept of the body.
  unfoldable pub read_usage : Config D → HttpResponse → Extracted
  read_usage cfg response =
      if is_streamed response
      then sse_result
          (write_all os.sse_frame (new_sse_usage cfg.provider cfg.max_body) response.chunks)
      else extract_usage os.decoders cfg.provider (cap_all cfg.max_body [] response.chunks)

  abbrev pub exchange_with :
      Config D → Caller → HttpResponse → Decision → Bytes → Bytes → Extracted → Exchange
  exchange_with cfg c response d counter would (usage, model, got) = record {
    status = response.status;
    streamed = is_streamed response;
    model =
        if got && not (is_empty model) && not (prefer_request_model cfg.provider c.model)
        then model
        else c.model;
    usage = if got then usage else no_usage;
    got_usage = got;
    decision = d;
    counter = counter;
    would_refuse = would;
  }

  -- What `ServeHTTP` hands to `record`.
  unfoldable pub exchange_of :
      Config D → Caller → HttpResponse → Decision → Bytes → Bytes → Exchange
  exchange_of cfg c response d counter would =
      exchange_with cfg c response d counter would (read_usage cfg response)

module _ {D S T : Type 0} ⦃f : Float D⦄ (os : Platform D) (b : Budget D S T) (at : Times) where
  -- The reserved call is given back.
  abbrev pub released : Caller → Bytes → Bytes → Option S → Option S
  released c ctrl_key counter none = none
  released c ctrl_key counter (some s) = some (b.releasing at.settled s c.run ctrl_key counter)

  abbrev pub settled : Bytes → Bytes → D → Bool → Bytes → Option S → Option S
  settled run ctrl_key cost loop counter none = none
  settled run ctrl_key cost loop counter (some s) =
      some (b.recording at.settled s run ctrl_key cost loop counter)

  -- The row is handed to the recorder, if there is one.
  abbrev pub handed : Gateway D S → Event D → Gateway D S
  handed g e = if g.config.records then record g { rows = g.rows ++ e ∷ [] } else g

  -- `record`
  unfoldable pub record_exchange : Gateway D S → Caller → Exchange → Gateway D S
  record_exchange g c x =
      let e = exchange_event os g.config c x (g.seq + 1) at.ended in
      let ctrl =
        settled e.tags.run (counter_key g.config c.key) e.cost_usd x.decision.suspected x.counter
          g.ctrl in
      handed (record g { seq = g.seq + 1; ctrl = ctrl }) e

  -- `recordBlocked`
  unfoldable pub record_blocked : Gateway D S → Caller → Bytes → ℕ → Bytes → Gateway D S
  record_blocked g c reason code label =
      let e = blocked_event os g.config c reason code label (g.seq + 1) in
      if g.config.records then record g { seq = g.seq + 1; rows = g.rows ++ e ∷ [] } else g

-- `JSONLRecorder`: what its writer holds, and how many errors it has reported.
pub record Journal : Type 0 where
  pub written : Bytes
  pub errors : ℕ

abbrev pub reported : Journal → Journal
reported j = record j { errors = j.errors + 1 }

-- The write of a row: what the writer then holds, which may be a part of it, and whether it failed.
abbrev pub write_text : (Bytes → Bytes → Bytes × Bool) → Journal → Option Bytes → Journal
write_text write j none = reported j
write_text write j (some b) =
    let (s, failed) = write j.written (b ++ str "\n") in
    let j' = record j { written = s } in if failed then reported j' else j'

-- `Record`, over `json.Marshal` and the writer: a row that is not valid, or that cannot be written
-- as JSON, is reported and dropped.
unfoldable pub write_row :
    {D : Type 0}
    → ⦃f : Float D⦄ → (Event D → Option Bytes)
    → (Bytes → Bytes → Bytes × Bool)
    → Journal
    → Event D
    → Journal
write_row marshal write j e = elim (validate e) [
  | some _ ↦ reported j
  | none ↦ write_text write j (marshal e)
]
