-- ===== src/Ledger/Event.antt =====
-- internal/ledger/event.go: `Confidence`, `Usage`, `Tags`, `Event` and `Validate`.
--
-- Times are nanoseconds since the zero `time.Time` (the start of year 1, UTC).
use axigate_finops.Prelude.{
  ℕ, Bool, true, false, [], ◌∷◌, Option, none, some, Bytes, str, is_empty, Dict, lookup, ℤ, pos,
  Float, zero_usd, ltb, leb, ◌==◌, if◌then◌else◌, not, ◌&&◌, ◌||◌, length, drop,
}

abbrev pub Confidence : Type 0
Confidence = Bytes

abbrev pub estimated : Confidence
estimated = str "estimated"

abbrev pub provider_reported : Confidence
provider_reported = str "provider-reported"

abbrev pub invoice_reconciled : Confidence
invoice_reconciled = str "invoice-reconciled"

abbrev pub final : Confidence
final = str "final"

-- `order`
abbrev pub confidence_order : Dict ℕ
confidence_order =
    (estimated, 0) ∷ (provider_reported, 1) ∷ (invoice_reconciled, 2) ∷ (final, 3) ∷ []

-- `order[c]`, which is 0 for a text that is no state.
unfoldable pub rank : Confidence → ℕ
rank c = elim (lookup c confidence_order) [ none ↦ 0 | some n ↦ n ]

-- `Valid`
unfoldable pub valid : Confidence → Bool
valid c = elim (lookup c confidence_order) [ none ↦ false | some _ ↦ true ]

-- `AtLeast`
unfoldable pub at_least : Confidence → Confidence → Bool
unfolding rank
at_least c floor = leb (rank floor) (rank c)

pub record Usage : Type 0 where
  pub input_tokens : ℤ
  pub cache_read : ℤ
  pub cache_write_5m : ℤ
  pub cache_write_1h : ℤ
  pub output_tokens : ℤ
  pub requests : ℤ

pub record Tags : Type 0 where
  pub team : Bytes
  pub project : Bytes
  pub customer : Bytes
  pub agent : Bytes
  pub run : Bytes

pub record Event (D : Type 0) : Type 0 where
  pub id : Bytes
  pub source : Bytes
  pub provider : Bytes
  pub model : Bytes
  pub dimensions : Dict Bytes
  pub usage : Usage
  pub tags : Tags
  pub cost_usd : D
  pub confidence : Confidence
  pub price_version : Bytes
  pub starts_at : ℕ
  pub ends_at : ℕ
  pub period : Bytes

abbrev is_zero : ℤ → Bool
is_zero (pos n) = n == 0
is_zero _ = false

-- `u == Usage{}`
unfoldable pub usage_is_zero : Usage → Bool
usage_is_zero u =
    is_zero u.input_tokens
    && (is_zero u.cache_read
        && (is_zero u.cache_write_5m
            && (is_zero u.cache_write_1h && (is_zero u.output_tokens && is_zero u.requests))))

-- `t == Tags{}`
unfoldable pub tags_are_empty : Tags → Bool
tags_are_empty t =
    is_empty t.team
    && (is_empty t.project && (is_empty t.customer && (is_empty t.agent && is_empty t.run)))

-- The errors of `Validate`.
pub data EventError : Type 0 where
  no_id : EventError
  no_source_or_provider : EventError
  unknown_confidence : EventError
  negative_cost : EventError
  malformed_period : EventError
  ends_before_start : EventError

-- `s[i] == c`
abbrev byte_is : ℕ → ℕ → Bytes → Bool
byte_is i c s = elim (drop i s) [ [] ↦ false | x ∷ _ ↦ x == c ]

module _ {D : Type 0} ⦃f : Float D⦄ where
  -- `Validate`: the first error, or none.
  unfoldable pub validate : Event D → Option EventError
  validate e =
      if is_empty e.id
      then some no_id
      else if is_empty e.source || is_empty e.provider
      then some no_source_or_provider
      else if not (valid e.confidence)
      then some unknown_confidence
      else if f.less e.cost_usd zero_usd
      then some negative_cost
      else if not (length e.period == 7) || not (byte_is 4 b'-' e.period)
      then some malformed_period
      else if ltb e.ends_at e.starts_at
      then some ends_before_start
      else none
