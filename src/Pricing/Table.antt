-- ===== src/Pricing/Table.antt =====
-- internal/pricing/pricing.go: `Usage`, `Rate`, `Provider`, the tables, and `Resolve`.
use axigate_finops.Prelude.{
  ℕ, ◌-◌, Bool, true, false, List, [], ◌∷◌, none, some, Bytes, str, beq, Dict, lookup, ℤ, Float,
  zero_usd, leb, ◌==◌, if◌then◌else◌, ◌&&◌, length, take, drop,
}

pub record TokenUsage : Type 0 where
  pub input_tokens : ℤ
  pub cache_read : ℤ
  pub cache_write_5m : ℤ
  pub cache_write_1h : ℤ
  pub output_tokens : ℤ

pub record Rate (D : Type 0) : Type 0 where
  pub input_per_token : D
  pub output_per_token : D
  pub cache_read_mult : D
  pub cache_write_mult : D

pub record Provider (D : Type 0) : Type 0 where
  pub inclusive : Bool
  pub cache_read_mult : D
  pub cache_write_5m_mult : D
  pub cache_write_1h_mult : D

abbrev is_digit : ℕ → Bool
is_digit c = leb 48 c && leb c 57

abbrev is_dash : ℕ → Bool
is_dash c = c == 45

-- Whether a text has exactly these kinds of bytes in turn.
abbrev pub matches : List (ℕ → Bool) → Bytes → Bool
matches [] [] = true
matches [] (c ∷ s) = false
matches (q ∷ qs) [] = false
matches (q ∷ qs) (c ∷ s) = q c && matches qs s

-- `-\d{4}-\d{2}-\d{2}` and `-\d{8}`
abbrev pub dashed_date : List (ℕ → Bool)
dashed_date =
    is_dash ∷ is_digit ∷ is_digit ∷ is_digit ∷ is_digit ∷ is_dash ∷ is_digit ∷ is_digit ∷ is_dash
    ∷ is_digit ∷ is_digit ∷ []

abbrev pub plain_date : List (ℕ → Bool)
plain_date =
    is_dash ∷ is_digit ∷ is_digit ∷ is_digit ∷ is_digit ∷ is_digit ∷ is_digit ∷ is_digit ∷ is_digit
    ∷ []

abbrev ends_with : List (ℕ → Bool) → Bytes → Bool
ends_with qs s = matches qs (drop (length s - length qs) s)

-- `dateSuffix.ReplaceAllString(model, "")`: the leftmost match at the end is the longer one.
unfoldable pub strip_date : Bytes → Bytes
strip_date s =
    if ends_with dashed_date s
    then take (length s - 11) s
    else if ends_with plain_date s
    then take (length s - 9) s
    else s

module _ {D : Type 0} ⦃f : Float D⦄ where
  abbrev rate : D → D → D → Rate D
  rate input output read = record {
    input_per_token = input;
    output_per_token = output;
    cache_read_mult = read;
    cache_write_mult = zero_usd;
  }

  abbrev provider : Bool → D → D → D → Provider D
  provider inclusive read write_5m write_1h = record {
    inclusive = inclusive;
    cache_read_mult = read;
    cache_write_5m_mult = write_5m;
    cache_write_1h_mult = write_1h;
  }

  -- `Providers`
  unfoldable pub providers : Dict (Provider D)
  providers =
      (str "anthropic", provider false (f.literal 10 2) (f.literal 125 2) (f.literal 2 0))
      ∷ (str "openai", provider true (f.literal 5 1) (f.literal 1 0) (f.literal 1 0))
      ∷ (str "gemini", provider true (f.literal 25 2) (f.literal 1 0) (f.literal 1 0))
      ∷ []

  -- The provider that `Price` takes for a name it does not know.
  abbrev pub unknown_provider : Provider D
  unknown_provider = provider true (f.literal 5 1) (f.literal 1 0) (f.literal 1 0)

  -- `Fallback`
  abbrev pub fallback : Rate D
  fallback = rate (f.literal 3 6) (f.literal 3 6) zero_usd

  -- `Rates`
  unfoldable pub rates : Dict (Rate D)
  rates =
      (str "gpt-4o", rate (f.literal 25 7) (f.literal 10 6) (f.literal 5 1))
      ∷ (str "gpt-4o-mini", rate (f.literal 15 8) (f.literal 6 7) (f.literal 5 1))
      ∷ (str "claude-3-haiku-20240307", rate (f.literal 25 8) (f.literal 125 8) (zero_usd))
      ∷ (str "claude-3-sonnet-20240229", rate (f.literal 3 6) (f.literal 15 6) (zero_usd))
      ∷ (str "claude-3-opus-20240229", rate (f.literal 15 6) (f.literal 75 6) (zero_usd))
      ∷ (str "claude-haiku-4-5", rate (f.literal 1 6) (f.literal 5 6) (zero_usd))
      ∷ (str "claude-sonnet-4-5", rate (f.literal 3 6) (f.literal 15 6) (zero_usd))
      ∷ (str "claude-opus-4-5", rate (f.literal 15 6) (f.literal 75 6) (zero_usd))
      ∷ (str "gemini-2.5-flash-lite", rate (f.literal 1 7) (f.literal 4 7) (zero_usd))
      ∷ (str "gemini-2.5-flash", rate (f.literal 3 7) (f.literal 25 7) (zero_usd))
      ∷ (str "gemini-2.5-pro", rate (f.literal 125 8) (f.literal 1 5) (zero_usd))
      ∷ (str "gemini-3.5-flash-lite", rate (f.literal 3 7) (f.literal 25 7) (zero_usd))
      ∷ (str "gemini-3.5-flash", rate (f.literal 15 7) (f.literal 9 6) (zero_usd))
      ∷ (str "gemini-3.1-pro-preview", rate (f.literal 2 6) (f.literal 12 6) (zero_usd))
      ∷ []

  -- `Resolve`
  unfoldable pub resolve : Bytes → Bytes × Rate D × Bool
  resolve model =
      let family = strip_date model in
      elim (lookup model rates) [
        | some r ↦ (model, r, true)
        | none ↦ if beq family model then ([], fallback, false) else elim (lookup family rates) [
          | some r ↦ (family, r, true)
          | none ↦ ([], fallback, false)
        ]
      ]
