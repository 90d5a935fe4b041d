-- ===== src/Pricing/Tokens.antt =====
-- internal/pricing/pricing.go: the tokens that `Price` charges against those of
-- `FullPriceEquivalent` and of the report.
use axigate_finops.Prelude.{
  ℕ, ◌+◌, ◌≤◌, ◌<◌, ◌≡◌, refl, ◌⊎◌, inl, inr, true, false, Option, none, some, Bytes, lookup, pos,
  ◌+ℤ◌, Float, beq, arith, Bool-cases, wrap_64_small, [], sub_ℕ, sub_ℕ_minus, wrap_64-sub_ℕ,
  Option-cases, beq_sound, ◌∙◌, ap,
}
use axigate_finops.Pricing.Table.{TokenUsage, Rate, Provider, resolve, rates, fallback, strip_date}
use axigate_finops.Pricing.Price.{
  ◌+64◌, ◌-64◌, floor_zero, provider_or_default, uncached, uncached_only,
}

-- Token counts as a provider reports them.
abbrev pub tokens : ℕ → ℕ → ℕ → ℕ → ℕ → TokenUsage
tokens input read write_5m write_1h output = record {
  input_tokens = pos input;
  cache_read = pos read;
  cache_write_5m = pos write_5m;
  cache_write_1h = pos write_1h;
  output_tokens = pos output;
}

add_small : (a b : ℕ) → a + b < 9223372036854775808 → pos a +64 pos b ≡ pos (a + b)
unfolding ◌+ℤ◌
add_small a b h = ground (arith, wrap_64_small (a + b) h)

sub_next :
    (x y c : ℕ)
    → x < 9223372036854775808
    → y + c ≤ 9223372036854775808
    → sub_ℕ x y -64 pos c ≡ sub_ℕ x (y + c)
sub_next x y c h k = rw (sub_ℕ_minus x y c) (wrap_64-sub_ℕ x (y + c) h k)

-- The written tokens may be taken away together or one after the other.
rest_regroup :
    (i r a b : ℕ)
    → i + r + a + b < 9223372036854775808
    → pos i -64 pos r -64 pos a -64 pos b ≡ pos i -64 pos r -64 (pos a +64 pos b)
rest_regroup i r a b h =
    rw
      (
        add_small a b (omega (arith, h)),
        ap (λ z. z -64 pos r) (start i),
        sub_next i 0 r (omega (arith, h)) (omega (arith, h)),
        sub_next i (0 + r) a (omega (arith, h)) (omega (arith, h)),
        sub_next i (0 + r + a) b (omega (arith, h)) (omega (arith, h)),
        sub_next i (0 + r) (a + b) (omega (arith, h)) (omega (arith, h)),
      )
      (ap (sub_ℕ i) (omega arith))
  where
    start : (n : ℕ) → pos n ≡ sub_ℕ n 0
    start n = ground arith

module _ {D : Type 0} ⦃f : Float D⦄ where
  -- The report counts as uncached exactly the tokens that `Price` charges at the full rate,
  -- whatever the provider, if the counts and their sum are below 2^63.
  pub uncached_only-uncached :
      (known : Option (Provider D)) (i r a b o : ℕ)
      → i + r + a + b < 9223372036854775808
      → uncached_only known (tokens i r a b o)
        ≡ uncached (provider_or_default known) (tokens i r a b o)
  unfolding uncached_only uncached
  uncached_only-uncached none i r a b o h = ap floor_zero (rest_regroup i r a b h)
  uncached_only-uncached (some p) i r a b o h = elim (Bool-cases p.inclusive) [
    | inl e ↦ rw e (ap floor_zero (rest_regroup i r a b h))
    | inr e ↦ rw e refl
  ]

  -- A model is priced as itself if the table has it, as its family if the table has what is left
  -- of the model without a date, and at the fallback otherwise: no other name is guessed.
  pub resolve_lem :
      (model : Bytes)
      → ((r : Rate D) × (lookup model (rates {D = D}) ≡ some r)
          × (resolve model ≡ (model, r, true)))
        ⊎ ((r : Rate D) × (lookup model (rates {D = D}) ≡ none)
            × (lookup (strip_date model) (rates {D = D}) ≡ some r)
            × (resolve model ≡ (strip_date model, r, true)))
        ⊎ ((lookup model (rates {D = D}) ≡ none)
            × (lookup (strip_date model) (rates {D = D}) ≡ none)
            × (resolve {D = D} model ≡ ([], fallback, false)))
  unfolding resolve lookup rates beq
  resolve_lem model = elim (Option-cases (lookup model (rates {D = D}))) [
    | inr (r, e) ↦ inl (r, e, rw e refl)
    | inl e ↦ elim (Bool-cases (beq (strip_date model) model)) [
      | inl b ↦ inr (
          inr (
            e,
            ap (λ m. lookup m (rates {D = D})) (beq_sound (strip_date model) model b) ∙ e,
            rw (e, b) refl,
          ))
      | inr b ↦ elim (Option-cases (lookup (strip_date model) (rates {D = D}))) [
        | inr (r, g) ↦ inr (inl (r, e, g, rw (e, b, g) refl))
        | inl g ↦ inr (inr (e, g, rw (e, b, g) refl))
      ]
    ]
  ]
