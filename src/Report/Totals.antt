-- ===== src/Report/Totals.antt =====
-- internal/report/report.go: `Included` and the sums of `Build`.
use axigate_finops.Prelude.{
  ℕ, ◌≡◌, refl, Bool, true, false, List, [], ◌∷◌, Bytes, Float, zero_usd, if◌then◌else◌, filter,
  arith, Bool-cases, inl, inr, ap, ◌∙◌, beq, str,
}
use axigate_finops.Ledger.Event.{Event}
use axigate_finops.Report.Rows.{
  Coverage, is_cost_row, cover_rows, cost_coverage, counts_toward_total, included, sum_totals,
  build_totals, owner_key,
}

filter-filter {ℓ} : {A : Type ℓ} (q : A → Bool) (xs : List A) → filter q (filter q xs) ≡ filter q xs
filter-filter q [] = refl
filter-filter q (x ∷ xs) = ground (arith, filter-filter q xs)

module _ {D : Type 0} ⦃f : Float D⦄ where
  -- The dollars of a list of events, in their order.
  unfoldable pub sum_costs : List (Event D) → D → D
  sum_costs [] total = total
  sum_costs (e ∷ es) total = sum_costs es (f.add total e.cost_usd)

module _ (format_day : ℕ → Bytes) {D : Type 0} where
  -- Dropping rows that are not cost rows leaves the coverage as it is.
  cover_rows-filter :
      (q : Event D → Bool)
      → ((e : Event D) → is_cost_row e ≡ true → q e ≡ true)
      → (es : List (Event D)) (cov : Coverage)
      → cover_rows format_day (filter q es) cov ≡ cover_rows format_day es cov
  unfolding cover_rows
  cover_rows-filter q keeps [] cov = refl
  cover_rows-filter q keeps (e ∷ es) cov = elim (Bool-cases (q e)) [
    | inl b ↦ rw b (cover_rows-filter q keeps es _)
    | inr b ↦ elim (Bool-cases (is_cost_row e)) [
      | inl c ↦ ground (arith, keeps e)
      | inr c ↦ rw (b, c) (cover_rows-filter q keeps es cov)
    ]
  ]

  counts_cost_row :
      (cov : Coverage) (e : Event D)
      → is_cost_row e ≡ true
      → counts_toward_total format_day cov e ≡ true
  unfolding counts_toward_total
  counts_cost_row cov e h = rw h refl

  cost_coverage-included :
      (es : List (Event D))
      → cost_coverage format_day (included format_day es) ≡ cost_coverage format_day es
  unfolding cost_coverage included
  cost_coverage-included es =
      cover_rows-filter (counts_toward_total format_day (cost_coverage format_day es))
        (counts_cost_row (cost_coverage format_day es)) es []

  -- The included events are all included again, and cover the same days: an export of the
  -- included events counts as the events themselves.
  pub included-included :
      (es : List (Event D))
      → (included format_day (included format_day es) ≡ included format_day es)
        × (cost_coverage format_day (included format_day es) ≡ cost_coverage format_day es)
  unfolding included
  included-included es = (
    ap (λ cov. filter (counts_toward_total format_day cov) (included format_day es))
          (cost_coverage-included es)
        ∙ filter-filter (counts_toward_total format_day (cost_coverage format_day es)) es,
    cost_coverage-included es,
  )

  module _ ⦃f : Float D⦄ where
    sum_totals-filter :
        (cov : Coverage) (es : List (Event D)) (sums : D × D)
        → (sum_totals format_day cov es sums).0
          ≡ sum_costs (filter (counts_toward_total format_day cov) es) sums.0
    unfolding sum_totals sum_costs
    sum_totals-filter cov [] sums = refl
    sum_totals-filter cov (e ∷ es) (total, unknown) =
        step (counts_toward_total format_day cov e) (sum_totals-filter cov es)
      where
        next : D × D
        next = (
          f.add total e.cost_usd,
          if beq (owner_key e.tags) (str "unknown") then f.add unknown e.cost_usd else unknown,
        )

        rest : List (Event D)
        rest = filter (counts_toward_total format_day cov) es

        step :
            (b : Bool)
            → ((sums : D × D) → (sum_totals format_day cov es sums).0 ≡ sum_costs rest sums.0)
            → (sum_totals format_day cov es (if b then next else (total, unknown))).0
              ≡ sum_costs (if b then e ∷ rest else rest) total
        step true h = h next
        step false h = h (total, unknown)

    -- The report's total is the sum of the included events, added up in the same order, so an
    -- export of these gives the report's total to the last bit.
    pub build_totals-included :
        (es : List (Event D))
        → (build_totals format_day es).0 ≡ sum_costs (included format_day es) zero_usd
    unfolding build_totals included
    build_totals-included es =
        sum_totals-filter (cost_coverage format_day es) es (zero_usd, zero_usd)
