-- ===== src/Report/Rows.antt =====
-- internal/report/report.go: which events count toward the totals (`IsCostRow`, `Metered`,
-- `CostCoverage`, `Covers`, `countsTowardTotal`, `Included`), and the totals that `Build` sums.
--
-- `format_day` is Go's formatting of a UTC day, given by its number since the start of year 1, as
-- 2006-01-02.
use axigate_finops.Prelude.{
  ℕ, zero, suc, ◌+◌, ◌*◌, ◌/◌, Bool, true, false, List, [], ◌∷◌, ◌++◌, none, some, Bytes, str, Dict,
  lookup, insert, Float, zero_usd, ltb, if◌then◌else◌, not, ◌&&◌, ◌||◌, filter, is_empty, beq,
}
use axigate_finops.Ledger.Event.{
  Event, Tags, Confidence, provider_reported, at_least, usage_is_zero, tags_are_empty,
}

-- `24 * time.Hour`
abbrev pub day_length : ℕ
day_length = 86400000000000

abbrev pub max_coverage_days : ℕ
max_coverage_days = 400

-- `Coverage`
abbrev pub Coverage : Type 0
Coverage = Dict Bool

unfoldable pub covered : Bytes → Coverage → Bool
covered k cov = elim (lookup k cov) [ none ↦ false | some b ↦ b ]

-- `lowestConfidence`
unfoldable pub lowest_confidence : Confidence → Confidence → Confidence
lowest_confidence [] b = b
lowest_confidence (x ∷ a) b = if at_least b (x ∷ a) then x ∷ a else b

-- `strings.Join`
abbrev pub join : Bytes → List Bytes → Bytes
join sep [] = []
join sep (p ∷ []) = p
join sep (p ∷ q ∷ ps) = p ++ sep ++ join sep (q ∷ ps)

abbrev is_given : Bytes → Bool
is_given s = not (is_empty s)

abbrev customer_part : Bytes → List Bytes
customer_part c = if is_empty c then [] else (str "customer:" ++ c) ∷ []

-- `ownerKey`
unfoldable pub owner_key : Tags → Bytes
owner_key t =
    if tags_are_empty t
    then str "unknown"
    else join (str " / ")
        (filter is_given (t.team ∷ t.project ∷ t.agent ∷ []) ++ customer_part t.customer)

module _ {D : Type 0} where
  -- `IsCostRow`
  unfoldable pub is_cost_row : Event D → Bool
  is_cost_row e = usage_is_zero e.usage && at_least e.confidence provider_reported

  abbrev pub is_metered : Event D → Bool
  is_metered e = not (is_cost_row e)

  -- `Metered`
  unfoldable pub metered : List (Event D) → List (Event D)
  metered es = filter is_metered es

  -- The day on which a row's bucket starts, and where the bucket ends.
  abbrev pub start_day : Event D → ℕ
  start_day e = e.starts_at / day_length

  abbrev pub span_end : Event D → ℕ
  span_end e =
      let start = start_day e * day_length in
      if ltb start e.ends_at then e.ends_at else start + day_length

module _ (format_day : ℕ → Bytes) where
  -- `coverageKey`, of the number of a day.
  abbrev pub coverage_key : Bytes → ℕ → Bytes
  coverage_key provider day = provider ++ str "|" ++ format_day day

  -- The loop over the days of a bucket, from a day on, with the number of days that may follow.
  unfoldable pub mark_days : Bytes → ℕ → ℕ → ℕ → Coverage → Coverage
  mark_days provider end zero day cov = cov
  mark_days provider end (suc n) day cov =
      let marked =
        mark_days provider end n (suc day) (insert (coverage_key provider day) true cov) in
      if ltb (day * day_length) end then marked else cov

  module _ {D : Type 0} where
    unfoldable pub cover_rows : List (Event D) → Coverage → Coverage
    cover_rows [] cov = cov
    cover_rows (e ∷ es) cov =
        let cov' = mark_days e.provider (span_end e) max_coverage_days (start_day e) cov in
        cover_rows es (if is_cost_row e then cov' else cov)

    -- `CostCoverage`
    unfoldable pub cost_coverage : List (Event D) → Coverage
    cost_coverage es = cover_rows es []

    -- `Covers`
    unfoldable pub covers : Coverage → Event D → Bool
    covers cov e = covered (coverage_key e.provider (start_day e)) cov

    -- `countsTowardTotal`
    unfoldable pub counts_toward_total : Coverage → Event D → Bool
    counts_toward_total cov e = is_cost_row e || not (covers cov e)

    -- `Included`
    unfoldable pub included : List (Event D) → List (Event D)
    included es = filter (counts_toward_total (cost_coverage es)) es

    module _ ⦃f : Float D⦄ where
      -- The sums `TotalUSD` and `UnknownUSD` in the loop of `Build`.
      unfoldable pub sum_totals : Coverage → List (Event D) → D × D → D × D
      sum_totals cov [] sums = sums
      sum_totals cov (e ∷ es) (total, unknown) =
          let next : D × D = (
            f.add total e.cost_usd,
            if beq (owner_key e.tags) (str "unknown") then f.add unknown e.cost_usd else unknown,
          ) in
          sum_totals cov es (if counts_toward_total cov e then next else (total, unknown))

      unfoldable pub build_totals : List (Event D) → D × D
      build_totals es = sum_totals (cost_coverage es) es (zero_usd, zero_usd)
