-- ===== src/Export/Records.antt =====
-- internal/focus/focus.go and internal/statement/statement.go: the records of the exports.
use axigate_finops.Prelude.{
  ℕ, suc, ◌≡◌, refl, sym, ap, ◌∙◌, List, [], ◌∷◌, Bytes, str, beq, lookup, Float, zero_usd, All,
  length, map, sort_by, length-sort_by,
}
use axigate_finops.Ledger.Event.{Event}
use axigate_finops.Report.Rows.{included}
use axigate_finops.Report.Totals.{sum_costs}
use axigate_finops.Report.Finish.{build}
use axigate_finops.Report.Tables.{build-IsTally}
use axigate_finops.Export.Field.{IsSafe, field-IsSafe}
use axigate_finops.Export.Focus.{
  text_at, focus_row, focus_cells, row_before, write_focus, add_costs, focus_total,
}

-- The columns that hold what a caller or a provider wrote.
abbrev pub text_columns : List Bytes
text_columns =
    str "BillingAccountId"
    ∷ str "BillingAccountName"
    ∷ str "ProviderName"
    ∷ str "PublisherName"
    ∷ str "InvoiceIssuerName"
    ∷ str "ServiceName"
    ∷ str "ChargeDescription"
    ∷ str "SkuId"
    ∷ str "ResourceId"
    ∷ str "x_Team"
    ∷ str "x_Project"
    ∷ str "x_Customer"
    ∷ str "x_Agent"
    ∷ str "x_Run"
    ∷ str "x_Source"
    ∷ str "x_PriceVersion"
    ∷ []

length-map : {A B : Type 0} (g : A → B) (xs : List A) → length (map g xs) ≡ length xs
length-map g [] = refl
length-map g (x ∷ xs) = ap suc (length-map g xs)

module _ {D : Type 0} ⦃f : Float D⦄ where
  -- No cell of a FOCUS row that holds text of a caller or a provider begins with a sign =, +, - or @,
  -- a tab or a carriage return.
  pub focus_row-IsSafe :
      (e : Event D) (account : Bytes)
      → All (λ (c : Bytes). IsSafe (text_at c (focus_row e account))) text_columns
  unfolding focus_row lookup beq
  focus_row-IsSafe e account = search (field-IsSafe)

  add_costs-sum : (t : D) (es : List (Event D)) → add_costs t es ≡ sum_costs es t
  unfolding sum_costs
  add_costs-sum t [] = refl
  add_costs-sum t (e ∷ es) = add_costs-sum (f.add t e.cost_usd) es

  module _ (format_day : ℕ → Bytes) where
    -- The total of the FOCUS export is the report's total, to the last bit, and the export has one
    -- record for each event that the total is the sum of, beside its header.
    pub focus_total-build :
        (es : List (Event D)) (account : Bytes)
        → (focus_total format_day es ≡ (build format_day es).total_usd)
          × (length (write_focus format_day account es) ≡ suc (length (included format_day es)))
    unfolding focus_total write_focus
    focus_total-build es account = (
      add_costs-sum zero_usd (included format_day es) ∙ sym (build-IsTally format_day es).0,
      ap suc (
          length-map (focus_cells account) (sort_by row_before (included format_day es))
          ∙ length-sort_by row_before (included format_day es)),
    )
