-- ===== src/Pricing/Price.antt =====
-- internal/pricing/pricing.go: `Price` and `FullPriceEquivalent`, with the token counts they charge,
-- and `uncachedOnly` of internal/report/report.go. Counts are `int64` and wrap.
use axigate_finops.Prelude.{
  Bool, Option, none, some, Bytes, str, lookup, ℤ, pos, ◌+ℤ◌, ◌-ℤ◌, ltb_ℤ, wrap_64, Float, positive,
  if◌then◌else◌,
}
use axigate_finops.Pricing.Table.{TokenUsage, Provider, providers, unknown_provider, resolve}

infixl 65 ◌+64◌ ◌-64◌
abbrev pub ◌+64◌ : ℤ → ℤ → ℤ
a +64 b = wrap_64 (a +ℤ b)

abbrev pub ◌-64◌ : ℤ → ℤ → ℤ
a -64 b = wrap_64 (a -ℤ b)

pub record Cost (D : Type 0) : Type 0 where
  pub usd : D
  pub listed : Bool
  pub version : Bytes
  pub priced_as : Bytes

-- A count that is at least zero.
abbrev pub floor_zero : ℤ → ℤ
floor_zero n = if ltb_ℤ n (pos 0) then pos 0 else n

module _ {D : Type 0} ⦃f : Float D⦄ where
  -- The provider that `Price` prices by, given what the table has.
  abbrev pub provider_or_default : Option (Provider D) → Provider D
  provider_or_default none = unknown_provider
  provider_or_default (some p) = p

  -- The input tokens that are charged at the full rate.
  unfoldable pub uncached : Provider D → TokenUsage → ℤ
  uncached p u =
      if p.inclusive
      then floor_zero (u.input_tokens -64 u.cache_read -64 (u.cache_write_5m +64 u.cache_write_1h))
      else u.input_tokens

  abbrev pub mult : D → D → D
  mult model_mult provider_mult = if positive model_mult then model_mult else provider_mult

  -- `Price`
  unfoldable pub price : Bytes → Bytes → TokenUsage → Cost D
  price name model u =
      let (key, r, listed) = resolve model in
      let p = provider_or_default (lookup name providers) in
      let input = r.input_per_token in
      record {
        usd =
            f.add
              (f.add
                (f.add
                  (f.add (f.mul (f.of_int (uncached p u)) input) (
                    f.mul (f.mul (f.of_int u.cache_read) input)
                      (mult r.cache_read_mult p.cache_read_mult)))
                  (f.mul (f.mul (f.of_int u.cache_write_5m) input)
                    (mult r.cache_write_mult p.cache_write_5m_mult)))
                (f.mul (f.mul (f.of_int u.cache_write_1h) input) p.cache_write_1h_mult))
              (f.mul (f.of_int u.output_tokens) r.output_per_token);
        listed = listed;
        version = str "2026-09-06.1";
        priced_as = key;
      }

  -- The tokens that `FullPriceEquivalent` charges, given what the table has for the provider.
  unfoldable pub full_tokens : Option (Provider D) → TokenUsage → ℤ
  full_tokens none u = u.input_tokens
  full_tokens (some p) u =
      if p.inclusive
      then u.input_tokens
      else u.input_tokens +64 u.cache_read +64 u.cache_write_5m +64 u.cache_write_1h

  -- `FullPriceEquivalent`
  unfoldable pub full_price_equivalent : Bytes → Bytes → TokenUsage → D
  full_price_equivalent name model u =
      f.mul (f.of_int (full_tokens (lookup name providers) u)) (resolve model).1.input_per_token

  -- `uncachedOnly` of the report, given what the table has for the provider.
  unfoldable pub uncached_only : Option (Provider D) → TokenUsage → ℤ
  uncached_only known u =
      let rest =
        floor_zero (u.input_tokens -64 u.cache_read -64 u.cache_write_5m -64 u.cache_write_1h) in
      elim known [ none ↦ rest | some p ↦ if p.inclusive then rest else u.input_tokens ]
