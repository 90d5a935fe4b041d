-- ===== src/Pricing/Charge.antt =====
-- internal/pricing/pricing.go: that `Price` charges no negative amount.
use axigate_finops.Prelude.{
  ◌≡◌, Bool, [], ◌∷◌, Option, none, some, Bytes, Dict, lookup, ℤ, pos, negsuc, ◌≤ℤ◌, Float,
  FloatLaws, AtMost, zero_usd, positive, All, arith, if_both, Option-cases, inl, inr, beq, subst,
}
use axigate_finops.Pricing.Table.{
  TokenUsage, Rate, Provider, providers, rates, fallback, resolve, strip_date,
}
use axigate_finops.Pricing.Price.{provider_or_default, uncached, mult, price}

-- Token counts that are not negative.
pub record IsCounted (u : TokenUsage) : Type 0 where
  pub input : pos 0 ≤ℤ u.input_tokens
  pub read : pos 0 ≤ℤ u.cache_read
  pub write_5m : pos 0 ≤ℤ u.cache_write_5m
  pub write_1h : pos 0 ≤ℤ u.cache_write_1h
  pub output : pos 0 ≤ℤ u.output_tokens

-- A value that is there.
abbrev pub Holds : {V : Type 0} → (V → Type 0) → Option V → Type 0
Holds P none = Unit
Holds P (some v) = P v

lookup-Holds :
    {V : Type 0} (P : V → Type 0) (k : Bytes) (m : Dict V)
    → All (λ (e : Bytes × V). P e.1) m
    → Holds P (lookup k m)
unfolding lookup
lookup-Holds P k [] h = tt
lookup-Holds P k ((j, v) ∷ m) h = if_both (Holds P) (beq j k) h.0 (lookup-Holds P k m h.1)

module _ {D : Type 0} ⦃f : Float D⦄ where
  abbrev NonNeg : D → Type 0
  NonNeg a = AtMost zero_usd a

  abbrev pub RateIsNonNeg : Rate D → Type 0
  RateIsNonNeg r =
      NonNeg r.input_per_token
      × NonNeg r.output_per_token
      × NonNeg r.cache_read_mult
      × NonNeg r.cache_write_mult

  abbrev pub ProviderIsNonNeg : Provider D → Type 0
  ProviderIsNonNeg p =
      NonNeg p.cache_read_mult × NonNeg p.cache_write_5m_mult × NonNeg p.cache_write_1h_mult

  module _ (laws : FloatLaws D) where
    of_int-NonNeg : (n : ℤ) → pos 0 ≤ℤ n → NonNeg (f.of_int n)
    of_int-NonNeg (pos n) h = laws.of_int_nonneg n
    of_int-NonNeg (negsuc n) h = ground arith

    uncached-counted :
        (p : Provider D) (u : TokenUsage) → pos 0 ≤ℤ u.input_tokens → pos 0 ≤ℤ uncached p u
    unfolding uncached
    uncached-counted p u h = ground arith

    mult-NonNeg : (a b : D) → NonNeg a → NonNeg b → NonNeg (mult a b)
    mult-NonNeg a b h k = if_both NonNeg (positive a) h k

    rates-NonNeg : All (λ (e : Bytes × Rate D). RateIsNonNeg e.1) rates
    unfolding rates
    rates-NonNeg = search (laws.literal_nonneg)

    providers-NonNeg : All (λ (e : Bytes × Provider D). ProviderIsNonNeg e.1) providers
    unfolding providers
    providers-NonNeg = search (laws.literal_nonneg)

    resolve-NonNeg : (model : Bytes) → RateIsNonNeg (resolve model).1
    unfolding resolve lookup rates beq
    resolve-NonNeg model = elim (Option-cases (lookup model (rates {D = D}))) [
      | inr (r, e) ↦ rw e (found model r e)
      | inl e ↦ rw e (
          if_both (λ (x : Bytes × Rate D × Bool). RateIsNonNeg x.1) (beq (strip_date model) model)
            fallback-NonNeg
            (elim (Option-cases (lookup (strip_date model) (rates {D = D}))) [
              | inr (r, g) ↦ rw g (found (strip_date model) r g)
              | inl g ↦ rw g fallback-NonNeg
            ]))
    ]
      where
        fallback-NonNeg : RateIsNonNeg fallback
        fallback-NonNeg = search (laws.literal_nonneg)

        found : (k : Bytes) (r : Rate D) → lookup k rates ≡ some r → RateIsNonNeg r
        found k r e = subst (Holds RateIsNonNeg) e (lookup-Holds RateIsNonNeg k rates rates-NonNeg)

    provider-NonNeg :
        (o : Option (Provider D))
        → Holds ProviderIsNonNeg o
        → ProviderIsNonNeg (provider_or_default o)
    provider-NonNeg none h = search (laws.literal_nonneg)
    provider-NonNeg (some p) h = h

    -- Whatever the provider and the model, a call with counts that are not negative costs an amount
    -- that is not negative.
    pub price-NonNeg :
        (name model : Bytes) (u : TokenUsage)
        → IsCounted u
        → AtMost {D = D} zero_usd (price name model u).usd
    unfolding price
    price-NonNeg name model u h =
        let r : RateIsNonNeg (resolve model).1 = resolve-NonNeg model in
        let p : ProviderIsNonNeg (provider_or_default (lookup name providers)) =
          provider-NonNeg (lookup name providers)
            (lookup-Holds ProviderIsNonNeg name providers providers-NonNeg) in
        search
          (
            laws.add_nonneg, laws.mul_nonneg, mult-NonNeg, of_int-NonNeg, uncached-counted, r.0,
            r.1, r.2, r.3, p.0, p.1, p.2, h.input, h.read, h.write_5m, h.write_1h, h.output,
          )
          depth 12
