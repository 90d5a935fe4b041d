-- ===== src/Gateway/Handler/Row.antt =====
-- internal/gateway/gateway.go: the ledger rows of a call that came back and of a refused one, as
-- `record` and `recordBlocked` build them.
--
-- Times are nanoseconds since the start of year 1, none of them before 1970.
use axigate_finops.Prelude.{
  ℕ, ◌-◌, Bool, not, ◌&&◌, [], ◌∷◌, ◌++◌, Bytes, str, beq, is_empty, itoa, Dict, insert, pos, Float,
  zero_usd, ltb, if◌then◌else◌,
}
use axigate_finops.Ledger.Event.{Usage, Event, estimated}
use axigate_finops.Ledger.Identify.{derive_id}
use axigate_finops.Pricing.Table.{TokenUsage}
use axigate_finops.Pricing.Price.{Cost, price}
use axigate_finops.Gateway.Control.State.{Policy, key_caps}
use axigate_finops.Gateway.Loop.Detect.{Decision}
use axigate_finops.Gateway.Identity.Headers.{identity_from_headers, identity_dims}
use axigate_finops.Gateway.Shared.Reasons.{counter_label}
use axigate_finops.Gateway.Stream.Usage.{no_usage}
use axigate_finops.Gateway.Handler.Request.{Platform, tags_from_headers}

-- `Config` as `New` completes it, less the clients and clocks; `records` says whether there is a
-- recorder.
pub record Config (D : Type 0) : Type 0 where
  pub upstream : Bytes
  pub provider : Bytes
  pub records : Bool
  pub max_body : ℕ
  pub control : Policy D

-- What `ServeHTTP` reads of a request: its headers, when it came, the model, the run, the key and
-- the key's name.
pub record Caller : Type 0 where
  pub header : Bytes → Bytes
  pub start : ℕ
  pub model : Bytes
  pub run : Bytes
  pub key : Bytes
  pub key_name : Bytes

-- What came of a forwarded call: the status, whether it was streamed, the model, the usage and
-- whether there was any, the decision on loops, where it was admitted, and what shadow mode says.
pub record Exchange : Type 0 where
  pub status : ℕ
  pub streamed : Bool
  pub model : Bytes
  pub usage : Usage
  pub got_usage : Bool
  pub decision : Decision
  pub counter : Bytes
  pub would_refuse : Bytes

-- `UnixNano`
abbrev pub unix_nano : ℕ → ℕ
unix_nano t = t - 62135596800000000000

abbrev pub source_gateway : Bytes
source_gateway = str "gateway"

abbrev pub put_if : Bool → Bytes → Bytes → Dict Bytes → Dict Bytes
put_if b k v m = if b then insert k v m else m

-- `dims["request_id"]` and `dims["status"]`, with the number that `seq` has come to.
abbrev pub call_dims : ℕ → ℕ → ℕ → Dict Bytes
call_dims start seq status =
    (str "request_id", itoa (unix_nano start) ++ str "-" ++ itoa seq)
    ∷ (str "status", itoa status)
    ∷ []

abbrev pub loop_dims : Decision → Dict Bytes → Dict Bytes
loop_dims d m =
    let marked =
      insert (str "loop_count") (itoa d.count)
        (insert (str "loop_signal") d.signal (insert (str "loop") (str "suspected") m)) in
    if d.suspected then put_if (ltb 0 d.repeat) (str "loop_repeat") (itoa d.repeat) marked else m

abbrev pub key_dims : Caller → Dict Bytes → Dict Bytes
key_dims c m =
    put_if (not (is_empty c.key_name) && not (beq c.key_name c.key)) (str "key_name") c.key_name
      (put_if (not (is_empty c.key)) (str "key") c.key m)

abbrev pub counter_dims : Bytes → Dict Bytes → Dict Bytes
counter_dims label m = put_if (not (is_empty label)) (str "counter") label m

-- The dimensions of the row of a forwarded call.
unfoldable pub exchange_dims : Caller → Exchange → ℕ → Dict Bytes
exchange_dims c x seq =
    let m = loop_dims x.decision (
      put_if (not x.got_usage) (str "usage") (str "unknown")
        (put_if x.streamed (str "stream") (str "true") (call_dims c.start seq x.status))) in
    let m' =
      counter_dims (counter_label x.counter) (identity_dims (identity_from_headers c.header) m) in
    put_if (not (is_empty x.would_refuse)) (str "would_refuse") x.would_refuse (key_dims c m')

-- The dimensions of the row of a refused call.
unfoldable pub blocked_dims : Caller → Bytes → ℕ → Bytes → ℕ → Dict Bytes
blocked_dims c reason code label seq =
    let m = insert (str "blocked") reason (call_dims c.start seq code) in
    key_dims c (counter_dims label (identity_dims (identity_from_headers c.header) m))

abbrev pub token_usage : Usage → TokenUsage
token_usage u = record {
  input_tokens = u.input_tokens;
  cache_read = u.cache_read;
  cache_write_5m = u.cache_write_5m;
  cache_write_1h = u.cache_write_1h;
  output_tokens = u.output_tokens;
}

module _ {D : Type 0} ⦃f : Float D⦄ (os : Platform D) where
  -- The event of a forwarded call, with `seq` counted up.
  unfoldable pub exchange_event : Config D → Caller → Exchange → ℕ → ℕ → Event D
  exchange_event cfg c x seq ended =
      let priced : Cost D = price cfg.provider x.model (token_usage x.usage) in
      let dims = exchange_dims c x seq in
      derive_id os.digest (record {
        id = [];
        source = source_gateway;
        provider = cfg.provider;
        model = x.model;
        dimensions =
            put_if (x.got_usage && not priced.listed) (str "unpriced_model") (str "true") dims;
        usage = record x.usage { requests = pos 1 };
        tags = tags_from_headers c.header;
        cost_usd = if x.got_usage then priced.usd else zero_usd;
        confidence = estimated;
        price_version = if x.got_usage then priced.version else [];
        starts_at = c.start;
        ends_at = if ltb ended c.start then c.start else ended;
        period = [];
      })

  -- The event of a refused call.
  unfoldable pub blocked_event : Config D → Caller → Bytes → ℕ → Bytes → ℕ → Event D
  blocked_event cfg c reason code label seq = derive_id os.digest (record {
    id = [];
    source = source_gateway;
    provider = cfg.provider;
    model = c.model;
    dimensions = blocked_dims c reason code label seq;
    usage = no_usage;
    tags = tags_from_headers c.header;
    cost_usd = zero_usd;
    confidence = estimated;
    price_version = [];
    starts_at = c.start;
    ends_at = c.start;
    period = [];
  })

-- `counterKey`, and `ctrlKey` of `ServeHTTP`: no key is counted unless a key cap is set.
unfoldable pub counter_key : {D : Type 0} → ⦃f : Float D⦄ → Config D → Bytes → Bytes
counter_key cfg key = if key_caps cfg.control then key else []
