-- ===== src/Gateway/Stream/Body.antt =====
-- internal/gateway/gateway.go: `extractUsage`, which reads the usage of a response that came whole.
--
-- What `json.Unmarshal` gives for a body is a parameter.
use axigate_finops.Prelude.{
  Bool, true, false, ◌&&◌, List, [], ◌∷◌, Option, none, some, Bytes, str, beq, trim_space, ◌+ℤ◌,
  wrap_64, ◌==◌, if◌then◌else◌,
}
use axigate_finops.Ledger.Event.{Usage}
use axigate_finops.Gateway.Stream.Usage.{RawUsage, UsageMetadata, no_usage, is_zero, writes_5m}

-- `providerUsage`
pub record ProviderUsage : Type 0 where
  pub model : Bytes
  pub usage : RawUsage

-- `geminiUsage`
pub record GeminiUsage : Type 0 where
  pub model_version : Bytes
  pub metadata : UsageMetadata

-- What `json.Unmarshal` gives for each of the shapes that a body is read as.
pub record Decoders : Type 0 where
  pub provider_usage : Bytes → Option ProviderUsage
  pub gemini : Bytes → Option GeminiUsage
  pub gemini_chunks : Bytes → Option (List GeminiUsage)

-- The usage, the model, and whether there was any usage.
abbrev pub Extracted : Type 0
Extracted = Usage × Bytes × Bool

abbrev unknown : Bytes → Extracted
unknown model = (no_usage, model, false)

abbrev openai_usage : RawUsage → Usage
openai_usage u = record no_usage {
  input_tokens = u.prompt_tokens;
  cache_read = u.cached_tokens;
  output_tokens = u.completion_tokens;
}

abbrev anthropic_usage : RawUsage → Usage
anthropic_usage u = record no_usage {
  input_tokens = u.input_tokens;
  cache_read = u.cache_read_input_tokens;
  cache_write_5m = writes_5m u;
  cache_write_1h = u.ephemeral_1h;
  output_tokens = u.output_tokens;
}

-- `geminiUsage.usage`
unfoldable pub gemini_usage : UsageMetadata → Option Usage
gemini_usage m =
    if is_zero m.prompt_token_count && is_zero m.candidates_token_count
    then none
    else some (record no_usage {
      input_tokens = m.prompt_token_count;
      cache_read = m.cached_content_token_count;
      output_tokens = wrap_64 (m.candidates_token_count +ℤ m.thoughts_token_count);
    })

abbrev last_of : Option Extracted → GeminiUsage → Option Usage → Option Extracted
last_of (some r) g u = some r
last_of none g none = none
last_of none g (some u) = some (u, g.model_version, true)

-- The last chunk that has a usage.
abbrev last_usage : List GeminiUsage → Option Extracted
last_usage [] = none
last_usage (g ∷ gs) = last_of (last_usage gs) g (gemini_usage g.metadata)

abbrev last_model : List GeminiUsage → Bytes
last_model [] = []
last_model (g ∷ []) = g.model_version
last_model (g ∷ h ∷ gs) = last_model (h ∷ gs)

abbrev of_chunks : Option (List GeminiUsage) → Extracted
of_chunks none = unknown []
of_chunks (some gs) = elim (last_usage gs) [ some r ↦ r | none ↦ unknown (last_model gs) ]

abbrev of_gemini : Option GeminiUsage → Extracted
of_gemini none = unknown []
of_gemini (some g) = elim (gemini_usage g.metadata) [
  | some u ↦ (u, g.model_version, true)
  | none ↦ unknown g.model_version
]

abbrev starts_array : Bytes → Bool
starts_array [] = false
starts_array (c ∷ s) = c == b'['

-- `extractGeminiUsage`
unfoldable pub extract_gemini : Decoders → Bytes → Extracted
extract_gemini d body =
    if starts_array (trim_space body)
    then of_chunks (d.gemini_chunks (trim_space body))
    else of_gemini (d.gemini body)

abbrev of_provider : Bytes → Option ProviderUsage → Extracted
of_provider provider none = unknown []
of_provider provider (some p) =
    let u = p.usage in
    if beq provider (str "openai")
    then (if is_zero u.prompt_tokens && is_zero u.completion_tokens
        then unknown p.model
        else (openai_usage u, p.model, true))
    else if beq provider (str "anthropic")
    then (if is_zero u.input_tokens
          && (is_zero u.output_tokens && is_zero u.cache_read_input_tokens)
        then unknown p.model
        else (anthropic_usage u, p.model, true))
    else unknown p.model

-- `extractUsage`
unfoldable pub extract_usage : Decoders → Bytes → Bytes → Extracted
extract_usage d provider body =
    if beq provider (str "gemini")
    then extract_gemini d body
    else of_provider provider (d.provider_usage body)
