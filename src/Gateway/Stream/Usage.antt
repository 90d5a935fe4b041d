-- ===== src/Gateway/Stream/Usage.antt =====
-- internal/gateway/stream.go: `sseUsage` and its `consume`, `Write` and `result`.
--
-- What `json.Unmarshal` gives for a text is a parameter: the fields of the frame, or none.
use axigate_finops.Prelude.{
  ℕ, zero, suc, Bool, true, false, not, ◌&&◌, ◌||◌, [], ◌∷◌, ◌++◌, Option, none, some, Bytes, str,
  starts_with, trim_space, beq, is_empty, ℤ, pos, ltb_ℤ, leb_ℤ, ◌+ℤ◌, wrap_64, ltb, ◌==◌,
  if◌then◌else◌, length, drop,
}
use axigate_finops.Ledger.Event.{Usage}
use axigate_finops.Gateway.Resp.Wire.{split_line}

-- `rawUsage`
pub record RawUsage : Type 0 where
  pub prompt_tokens : ℤ
  pub completion_tokens : ℤ
  pub cached_tokens : ℤ
  pub input_tokens : ℤ
  pub output_tokens : ℤ
  pub cache_read_input_tokens : ℤ
  pub cache_creation_input_tok : ℤ
  pub ephemeral_5m : ℤ
  pub ephemeral_1h : ℤ

-- `usageMetadata` of `sseFrame`
pub record UsageMetadata : Type 0 where
  pub prompt_token_count : ℤ
  pub candidates_token_count : ℤ
  pub cached_content_token_count : ℤ
  pub thoughts_token_count : ℤ

-- `sseFrame`
pub record SseFrame : Type 0 where
  pub model : Bytes
  pub message_model : Bytes
  pub message_usage : RawUsage
  pub usage : RawUsage
  pub model_version : Bytes
  pub metadata : UsageMetadata

-- What has been seen of a stream: the usage, the model, and whether any usage was.
pub record Seen : Type 0 where
  pub usage : Usage
  pub model : Bytes
  pub got : Bool

-- `sseUsage`
pub record SseUsage : Type 0 where
  pub provider : Bytes
  pub limit : ℕ
  pub buf : Bytes
  pub seen : Seen

abbrev pub no_usage : Usage
no_usage = record {
  input_tokens = pos 0;
  cache_read = pos 0;
  cache_write_5m = pos 0;
  cache_write_1h = pos 0;
  output_tokens = pos 0;
  requests = pos 0;
}

-- `defaultMaxBody`
abbrev default_max_body : ℕ
default_max_body = 1048576

-- `newSSEUsage`; a limit that is not positive is 0 here.
unfoldable pub new_sse_usage : Bytes → ℕ → SseUsage
new_sse_usage provider limit = record {
  provider = provider;
  limit = if limit == 0 then default_max_body else limit;
  buf = [];
  seen = record { usage = no_usage; model = []; got = false };
}

abbrev pub is_zero : ℤ → Bool
is_zero n = leb_ℤ n (pos 0) && leb_ℤ (pos 0) n

abbrev pub above_zero : ℤ → Bool
above_zero n = ltb_ℤ (pos 0) n

-- The tokens written to the cache for five minutes, where an older response has one figure.
abbrev pub writes_5m : RawUsage → ℤ
writes_5m u =
    if is_zero u.ephemeral_5m && is_zero u.ephemeral_1h
    then u.cache_creation_input_tok
    else u.ephemeral_5m

abbrev named : Bytes → SseFrame → Bytes
named model f =
    if not (is_empty f.model)
    then f.model
    else if not (is_empty f.message_model)
    then f.message_model
    else if not (is_empty f.model_version)
    then f.model_version
    else model

unfoldable pub openai_frame : SseFrame → Seen → Seen
openai_frame f s =
    let u = f.usage in
    if above_zero u.prompt_tokens || above_zero u.completion_tokens
    then record s {
      usage = record s.usage {
        input_tokens = u.prompt_tokens;
        cache_read = u.cached_tokens;
        output_tokens = u.completion_tokens;
      };
      got = true;
    }
    else s

unfoldable pub anthropic_start : RawUsage → Seen → Seen
anthropic_start u s =
    if above_zero u.input_tokens
      || above_zero u.cache_read_input_tokens
      || above_zero u.cache_creation_input_tok
    then record s {
      usage = record s.usage {
        input_tokens = u.input_tokens;
        cache_read = u.cache_read_input_tokens;
        cache_write_5m = writes_5m u;
        cache_write_1h = u.ephemeral_1h;
      };
      got = true;
    }
    else s

unfoldable pub anthropic_frame : SseFrame → Seen → Seen
anthropic_frame f s =
    let s' = anthropic_start f.message_usage s in
    if above_zero f.usage.output_tokens
    then record s' { usage = record s'.usage { output_tokens = f.usage.output_tokens }; got = true }
    else s'

unfoldable pub gemini_frame : SseFrame → Seen → Seen
gemini_frame f s =
    let m = f.metadata in
    if above_zero m.prompt_token_count || above_zero m.candidates_token_count
    then record s {
      usage = record s.usage {
        input_tokens = m.prompt_token_count;
        cache_read = m.cached_content_token_count;
        output_tokens = wrap_64 (m.candidates_token_count +ℤ m.thoughts_token_count);
      };
      got = true;
    }
    else s

-- What a frame adds to what was seen.
unfoldable pub seen_frame : Bytes → SseFrame → Seen → Seen
seen_frame provider f s =
    let s' = record s { model = named s.model f } in
    if beq provider (str "openai")
    then openai_frame f s'
    else if beq provider (str "anthropic")
    then anthropic_frame f s'
    else if beq provider (str "gemini")
    then gemini_frame f s'
    else s'

abbrev starts_object : Bytes → Bool
starts_object [] = false
starts_object (c ∷ s) = c == b'{'

abbrev decoded : Bytes → Option SseFrame → Seen → Seen
decoded provider none s = s
decoded provider (some f) s = seen_frame provider f s

-- What is left is dropped if it is over the limit.
abbrev pub cut_over : SseUsage → SseUsage
cut_over s = if ltb s.limit (length s.buf) then record s { buf = [] } else s

module _ (unmarshal : Bytes → Option SseFrame) where
  -- `consume`
  unfoldable pub consume : Bytes → Bytes → Seen → Seen
  consume provider l s =
      let line = trim_space l in
      let body = trim_space (drop 5 line) in
      if not (starts_with (str "data:") line) || not (starts_object body)
      then s
      else decoded provider (unmarshal body) s

  abbrev pub next_line : (SseUsage → SseUsage) → SseUsage → Option (Bytes × Bytes) → SseUsage
  next_line more s none = s
  next_line more s (some (line, rest)) =
      more (record s { buf = rest; seen = consume s.provider line s.seen })

  -- The loop of `Write` over the lines; the fuel bounds how many there are.
  unfoldable pub write_lines : ℕ → SseUsage → SseUsage
  write_lines zero s = s
  write_lines (suc fuel) s = next_line (write_lines fuel) s (split_line s.buf)

  -- `Write`
  unfoldable pub write : SseUsage → Bytes → SseUsage
  write s p =
      let buf = s.buf ++ p in cut_over (write_lines (suc (length buf)) (record s { buf = buf }))

-- `result`
unfoldable pub sse_result : SseUsage → Usage × Bytes × Bool
sse_result s = (s.seen.usage, s.seen.model, s.seen.got)
