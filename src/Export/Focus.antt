-- ===== src/Export/Focus.antt =====
-- internal/focus/focus.go: the FOCUS export. What the CSV writer is handed are lists of cells.
use axigate_finops.Prelude.{
  ℕ, suc, Bool, List, [], ◌∷◌, ◌++◌, none, some, Bytes, str, beq, is_empty, Dict, lookup, ℤ, pos,
  negsuc, Float, zero_usd, itoa, ltb, ◌==◌, if◌then◌else◌, not, map, sort_by,
}
use axigate_finops.Ledger.Event.{Event, Usage}
use axigate_finops.Ledger.Identify.{rfc3339}
use axigate_finops.Pricing.Price.{◌+64◌}
use axigate_finops.Gateway.Store.Records.{bytes_less}
use axigate_finops.Report.Rows.{included}
use axigate_finops.Export.Field.{field}

abbrev pub focus_columns : List Bytes
focus_columns =
    str "BillingAccountId"
    ∷ str "BillingAccountName"
    ∷ str "ChargePeriodStart"
    ∷ str "ChargePeriodEnd"
    ∷ str "BillingPeriodStart"
    ∷ str "BilledCost"
    ∷ str "EffectiveCost"
    ∷ str "ListCost"
    ∷ str "BillingCurrency"
    ∷ str "ProviderName"
    ∷ str "PublisherName"
    ∷ str "InvoiceIssuerName"
    ∷ str "ServiceName"
    ∷ str "ServiceCategory"
    ∷ str "ChargeCategory"
    ∷ str "ChargeDescription"
    ∷ str "SkuId"
    ∷ str "ResourceId"
    ∷ str "ConsumedQuantity"
    ∷ str "ConsumedUnit"
    ∷ str "x_Team"
    ∷ str "x_Project"
    ∷ str "x_Customer"
    ∷ str "x_Agent"
    ∷ str "x_Run"
    ∷ str "x_Confidence"
    ∷ str "x_Source"
    ∷ str "x_PriceVersion"
    ∷ []

-- `strconv.FormatInt`
unfoldable pub format_int : ℤ → Bytes
format_int (pos n) = itoa n
format_int (negsuc n) = str "-" ++ itoa (suc n)

-- `consumedTokens`
unfoldable pub consumed_tokens : Usage → ℤ
consumed_tokens u =
    u.input_tokens +64 u.cache_read +64 u.cache_write_5m +64 u.cache_write_1h +64 u.output_tokens

-- `serviceName`
unfoldable pub service_name : Bytes → Bytes
service_name provider =
    if beq provider (str "openai")
    then str "OpenAI API"
    else if beq provider (str "anthropic")
    then str "Anthropic API"
    else if beq provider (str "gemini")
    then str "Google Gemini API"
    else provider

-- `m[k]` for a map of texts, with the empty text for a missing key.
abbrev pub text_at : Bytes → Dict Bytes → Bytes
text_at k m = elim (lookup k m) [ none ↦ [] | some v ↦ v ]

module _ {D : Type 0} where
  -- `chargeDescription`
  unfoldable pub charge_description : Event D → Bytes
  charge_description e =
      service_name e.provider
      ++ str " "
      ++ (if is_empty e.model then str "usage" else e.model)
      ++ str " ("
      ++ e.confidence
      ++ str ")"

  -- The id that a row names as its resource.
  unfoldable pub resource_of : Event D → Bytes
  resource_of e =
      let key = text_at (str "api_key_id") e.dimensions in
      let project = text_at (str "project_id") e.dimensions in
      if not (is_empty key)
      then key
      else if not (is_empty project)
      then project
      else text_at (str "workspace_id") e.dimensions

  -- The order of the rows.
  abbrev pub row_before : Event D → Event D → Bool
  row_before d e =
      if d.starts_at == e.starts_at then bytes_less d.id e.id else ltb d.starts_at e.starts_at

module _ {D : Type 0} ⦃f : Float D⦄ where
  -- `Row`; the cost stands in the row as `money` writes it.
  unfoldable pub focus_row : Event D → Bytes → Dict Bytes
  focus_row e account =
      let cost = f.format_fixed 6 e.cost_usd in
      (str "BillingAccountId", field account)
      ∷ (str "BillingAccountName", field account)
      ∷ (str "ChargePeriodStart", rfc3339 e.starts_at)
      ∷ (str "ChargePeriodEnd", rfc3339 e.ends_at)
      ∷ (str "BillingPeriodStart", e.period)
      ∷ (str "BilledCost", cost)
      ∷ (str "EffectiveCost", cost)
      ∷ (str "ListCost", cost)
      ∷ (str "BillingCurrency", str "USD")
      ∷ (str "ProviderName", field e.provider)
      ∷ (str "PublisherName", field e.provider)
      ∷ (str "InvoiceIssuerName", field e.provider)
      ∷ (str "ServiceName", field (service_name e.provider))
      ∷ (str "ServiceCategory", str "AI and Machine Learning")
      ∷ (str "ChargeCategory", str "Usage")
      ∷ (str "ChargeDescription", field (charge_description e))
      ∷ (str "SkuId", field e.model)
      ∷ (str "ResourceId", field (resource_of e))
      ∷ (str "ConsumedQuantity", format_int (consumed_tokens e.usage))
      ∷ (str "ConsumedUnit", str "Tokens")
      ∷ (str "x_Team", field e.tags.team)
      ∷ (str "x_Project", field e.tags.project)
      ∷ (str "x_Customer", field e.tags.customer)
      ∷ (str "x_Agent", field e.tags.agent)
      ∷ (str "x_Run", field e.tags.run)
      ∷ (str "x_Confidence", e.confidence)
      ∷ (str "x_Source", field e.source)
      ∷ (str "x_PriceVersion", field e.price_version)
      ∷ []

  -- The cells of an event, in the order of the columns.
  abbrev pub focus_cells : Bytes → Event D → List Bytes
  focus_cells account e = map (λ (c : Bytes). text_at c (focus_row e account)) focus_columns

  abbrev pub add_costs : D → List (Event D) → D
  add_costs t [] = t
  add_costs t (e ∷ es) = add_costs (f.add t e.cost_usd) es

  module _ (format_day : ℕ → Bytes) where
    -- `WriteCSV`: the records, the header first.
    unfoldable pub write_focus : Bytes → List (Event D) → List (List Bytes)
    write_focus account es =
        focus_columns ∷ map (focus_cells account) (sort_by row_before (included format_day es))

    -- `TotalUSD`
    unfoldable pub focus_total : List (Event D) → D
    focus_total es = add_costs zero_usd (included format_day es)
