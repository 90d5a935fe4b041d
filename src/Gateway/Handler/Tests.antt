-- ===== src/Gateway/Handler/Tests.antt =====
-- internal/gateway/gateway.go: concrete requests to a gateway whose provider answers each with 9
-- tokens, in billionths of a dollar.
use axigate_finops.Prelude.{
  Bool, ◌++◌, length, Option, some, ◌+◌, false, ℕ, ◌≤◌, ◌≡◌, refl, true, false, [], ◌∷◌, Option,
  none, some, Bytes, str, pos, fixed_float, fixed_laws, arith, All, take, leb, length, beq,
  starts_with, subst, ap, filter, trim_space,
}
use axigate_finops.Ledger.Event.{Event}
use axigate_finops.Gateway.Control.State.{Policy, new_controller}
use axigate_finops.Gateway.Control.Operator.{set_killed}
use axigate_finops.Gateway.Stream.Usage.{RawUsage, no_usage}
use axigate_finops.Gateway.Stream.Chunks.{concat}
use axigate_finops.Gateway.Stream.Body.{Decoders, extract_usage}
use axigate_finops.Gateway.Handler.Request.{
  HttpRequest, HttpResponse, Platform, header_get, text_behind,
}
use axigate_finops.Gateway.Handler.Budget.{Memory, memory_budget}
use axigate_finops.Gateway.Handler.Row.{Config}
use axigate_finops.Gateway.Handler.Admin.{json_error}
use axigate_finops.Gateway.Handler.Record.{Times, Gateway, cap_all, read_usage, is_streamed}
use axigate_finops.Gateway.Handler.Serve.{Outbound, serve, caller_of}
use axigate_finops.Gateway.Handler.Watch.{Watched, watched, IsBalanced}
use axigate_finops.Gateway.Handler.Ledger.{
  parsed, parse_ledger, IsLine, is_valid, write_rows, parse_ledger-write_rows,
}
use axigate_finops.Gateway.Handler.Settled.{Arrival, serve_all, serve_all-IsBalanced}
use axigate_finops.Gateway.Handler.Valid.{IsValid, Sound, IsCountedResponse, serve-IsValid}
use axigate_finops.Gateway.Handler.Passing.{cap_all-take, serve-refused}
use axigate_finops.Gateway.Handler.Killed.{serve-killed, decided-killed}
use axigate_finops.Gateway.Handler.Capped.{counted_calls, serve_all-calls_within_cap}

abbrev raw_usage : RawUsage
raw_usage = record {
  prompt_tokens = pos 7;
  completion_tokens = pos 2;
  cached_tokens = pos 0;
  input_tokens = pos 0;
  output_tokens = pos 0;
  cache_read_input_tokens = pos 0;
  cache_creation_input_tok = pos 0;
  ephemeral_5m = pos 0;
  ephemeral_1h = pos 0;
}

abbrev decoders : Decoders
decoders = record {
  provider_usage = λ body. some (record { model = str "gpt-4o"; usage = raw_usage });
  gemini = λ body. none;
  gemini_chunks = λ body. none;
}

abbrev platform : Platform ℕ
platform = record {
  canonical = λ name. name;
  body_model = λ body. str "gpt-4o";
  decoders = decoders;
  sse_frame = λ line. none;
  digest = λ text. str "0123456789abcdef0123456789abcdef";
  parse_float = λ text. none;
  first_runes = take;
  makes_request = λ method target. true;
}

-- One call per run, and an operator's token.
abbrev policy : Policy ℕ
policy = record {
  max_calls_per_run = 1;
  max_spend_usd_per_run = 0;
  reserve_usd_per_call = 0;
  pause_on_suspected_loop = false;
  max_spend_usd_per_key_day = 0;
  max_spend_usd_per_key = 0;
  shadow = false;
  admin_token = str "secret";
  allow_request_caps = false;
  max_runs = 10;
}

abbrev config : Config ℕ
config = record {
  upstream = str "https://api.openai.com";
  provider = str "openai";
  records = true;
  max_body = 1048576;
  control = policy;
}

abbrev times : Times
times = record {
  start = 63924768000000000000;
  observed = 63924768000000000001;
  decided = 63924768000000000002;
  ended = 63924768000000000003;
  settled = 63924768000000000004;
}

abbrev request : Bytes → Bytes → HttpRequest
request name given = record {
  method = str "POST";
  path = str "/v1/chat/completions";
  raw_query = [];
  query = λ name. [];
  headers = (name, given) ∷ [];
  body = str "hello";
}

abbrev call : HttpRequest
call = request (str "X-AxiGate-Run") (str "bot-1")

abbrev kill : HttpRequest
kill = record (request (str "X-AxiGate-Admin") (str "secret")) { path = str "/_axigate/kill" }

abbrev response : HttpResponse
response = record { status = 200; headers = []; chunks = str "he" ∷ str "llo" ∷ [] }

abbrev provider : Outbound → Option HttpResponse
provider out = some response

abbrev arrival : Arrival
arrival = record { at = times; upstream = provider; request = call }

abbrev gateway : {S : Type 0} → S → Gateway ℕ S
gateway s = record { config = config; seq = 0; det = none; ctrl = some s; rows = [] }

abbrev memory : Memory ℕ
memory = (new_controller policy, [])

abbrev fresh : Watched (Memory ℕ)
fresh = record { counter = memory; opened = []; closed = [] }

serve_all-IsBalanced_example :
    IsBalanced
      (serve_all platform (watched memory_budget) (gateway fresh) (arrival ∷ arrival ∷ [])).ctrl
unfolding IsBalanced
serve_all-IsBalanced_example =
    serve_all-IsBalanced platform memory_budget (gateway fresh) (arrival ∷ arrival ∷ []) refl

cap_all-take_example :
    (cap_all 3 [] (str "he" ∷ str "llo" ∷ []) ≡ take 3 (concat (str "he" ∷ str "llo" ∷ [])))
    × (leb (length (concat (str "he" ∷ str "llo" ∷ []))) 3 ≡ true
        → cap_all 3 [] (str "he" ∷ str "llo" ∷ []) ≡ concat (str "he" ∷ str "llo" ∷ []))
cap_all-take_example = cap_all-take 3 (str "he" ∷ str "llo" ∷ [])

abbrev or_response : Option HttpResponse → HttpResponse
or_response none = response
or_response (some r) = r

sound : Sound platform config
sound = record { laws = fixed_laws; digests = λ text. refl; named = refl }

response-counted : IsCountedResponse platform memory_budget times provider config sound response
unfolding read_usage is_streamed extract_usage header_get text_behind beq
response-counted = record {
  input = omega arith;
  read = omega arith;
  write_5m = omega arith;
  write_1h = omega arith;
  output = omega arith;
}

serve-IsValid_example :
    All IsValid (serve platform memory_budget times provider (gateway memory) call).1.rows
serve-IsValid_example =
    serve-IsValid platform memory_budget times provider config sound
      (λ out r e.
        subst (IsCountedResponse platform memory_budget times provider config sound)
          (ap or_response e) response-counted)
      (gateway memory) call refl tt

abbrev killed : Memory ℕ
killed = (set_killed (new_controller policy) true, [])

serve-refused_example :
    serve platform memory_budget times provider (gateway killed) call
    ≡ serve platform memory_budget times (λ out. none) (gateway killed) call
unfolding set_killed starts_with
serve-refused_example =
    serve-refused platform memory_budget times provider (λ out. none) (gateway killed) call killed
      refl refl
      (decided-killed platform times config (caller_of platform config times.start call) killed
        refl).0

serve-killed_example :
    (serve platform memory_budget times provider
      (serve_all platform memory_budget
        (serve platform memory_budget times provider (gateway memory) kill).1
        (arrival ∷ []))
      call).0
    ≡ json_error 503 (str "killed") (str "axigate gateway: kill switch engaged")
unfolding header_get beq starts_with
serve-killed_example =
    serve-killed platform times provider (gateway memory) kill memory refl
      (record { filled = refl; path = refl; method = refl; given = refl }) (arrival ∷ []) (refl, tt)
      call refl refl

serve_all-calls_within_cap_example :
    counted_calls
      (serve_all platform memory_budget (gateway memory) (arrival ∷ arrival ∷ [])).ctrl
      (str "bot-1")
    ≤ 1
unfolding header_get beq caller_of
serve_all-calls_within_cap_example =
    serve_all-calls_within_cap platform policy (gateway memory) (arrival ∷ arrival ∷ [])
      (str "bot-1") refl (omega arith) refl (refl, (refl, tt))

abbrev event : Event ℕ
event = record {
  id = str "1";
  source = str "gateway";
  provider = str "openai";
  model = str "gpt-4o";
  dimensions = [];
  usage = no_usage;
  tags = record { team = []; project = []; customer = []; agent = []; run = [] };
  cost_usd = 0;
  confidence = str "estimated";
  price_version = [];
  starts_at = 0;
  ends_at = 0;
  period = str "2026-09";
}

abbrev marshal : Event ℕ → Option Bytes
marshal e = some (str "{}")

abbrev write : Bytes → Bytes → Bytes × Bool
write s b = (s ++ b, false)

abbrev unmarshal : Bytes → Option (Event ℕ)
unmarshal s = some event

event-IsLine : IsLine marshal unmarshal event
unfolding trim_space
event-IsLine = record {
  marshals = refl;
  one_line = refl;
  no_return = refl;
  trimmed = refl;
  filled = refl;
  fits = refl;
  reads = refl;
}

parse_ledger-write_rows_example :
    let j = write_rows marshal write (record { written = []; errors = 0 }) (event ∷ event ∷ []) in
    (parse_ledger unmarshal j.written ≡ parsed (filter is_valid (event ∷ event ∷ [])))
    × (j.errors + length (filter is_valid (event ∷ event ∷ [])) ≡ 2)
parse_ledger-write_rows_example =
    parse_ledger-write_rows marshal unmarshal write (λ s b. refl) (event ∷ event ∷ [])
      (event-IsLine, (event-IsLine, tt))
