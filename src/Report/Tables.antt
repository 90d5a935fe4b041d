-- ===== src/Report/Tables.antt =====
-- internal/report/report.go: the tables of `Build` by provider, owner and model, and its sums.
use axigate_finops.Prelude.{
  ℕ, ◌≡◌, refl, Bool, List, [], ◌∷◌, Bytes, Dict, Float, zero_usd, arith, if◌then◌else◌, filter,
}
use axigate_finops.Ledger.Event.{Event}
use axigate_finops.Report.Rows.{Coverage, counts_toward_total, owner_key, cost_coverage, included}
use axigate_finops.Report.Totals.{sum_costs}
use axigate_finops.Report.Lines.{add}
use axigate_finops.Report.Build.{
  Tables, take_usage, take_reported, take_daily, take_counted, take_event, take_events, tables_of,
  model_key, metered_providers, no_tables,
}
use axigate_finops.Report.Sums.{add_all, IsTally, lines_of-IsTally}
use axigate_finops.Report.Finish.{build}

module _ (format_day : ℕ → Bytes) {D : Type 0} ⦃f : Float D⦄ where
  -- What one event does to the tables that the totals are shown in.
  take_event_lem :
      (cov : Coverage) (metered : Dict Bool) (t : Tables D) (e : Event D)
      → let t' = take_event format_day cov metered t e in
        let counted = counts_toward_total format_day cov e in
        (t'.by_provider ≡ (if counted then add t.by_provider e.provider e else t.by_provider))
        × (t'.by_owner ≡ (if counted then add t.by_owner (owner_key e.tags) e else t.by_owner))
        × (t'.by_model ≡ (if counted then add t.by_model (model_key e) e else t.by_model))
  unfolding take_event take_counted take_daily take_usage take_reported
  take_event_lem cov metered t e = ground arith

  -- The tables of some events are those of the events that count.
  take_events_lem :
      (cov : Coverage) (metered : Dict Bool) (es : List (Event D)) (t : Tables D)
      → let t' = take_events format_day cov metered t es in
        let counted = filter (counts_toward_total format_day cov) es in
        (t'.by_provider ≡ add_all (λ (e : Event D). e.provider) counted t.by_provider)
        × (t'.by_owner ≡ add_all (λ (e : Event D). owner_key e.tags) counted t.by_owner)
        × (t'.by_model ≡ add_all (λ (e : Event D). model_key e) counted t.by_model)
  unfolding take_events add_all
  take_events_lem cov metered [] t = (refl, refl, refl)
  take_events_lem cov metered (e ∷ es) t = ground (
    arith,
    take_event_lem cov metered t e,
    take_events_lem cov metered es (take_event format_day cov metered t e),
  )

  total_event_lem :
      (cov : Coverage) (metered : Dict Bool) (t : Tables D) (e : Event D)
      → (take_event format_day cov metered t e).total_usd ≡ (
          if counts_toward_total format_day cov e
          then f.add t.total_usd e.cost_usd
          else t.total_usd)
  unfolding take_event take_counted take_daily take_usage take_reported
  total_event_lem cov metered t e = ground arith

  total_events_lem :
      (cov : Coverage) (metered : Dict Bool) (es : List (Event D)) (t : Tables D)
      → (take_events format_day cov metered t es).total_usd
        ≡ sum_costs (filter (counts_toward_total format_day cov) es) t.total_usd
  unfolding take_events sum_costs
  total_events_lem cov metered [] t = refl
  total_events_lem cov metered (e ∷ es) t = ground (
    arith,
    total_event_lem cov metered t e,
    total_events_lem cov metered es (take_event format_day cov metered t e),
  )

  -- The report's total is the sum of the included events, added up in their order. In its tables by
  -- provider, by owner and by model, each line has the sum of the included events with its key, in
  -- their order, and their number, and the lines together stand for every included event once: the
  -- three tables divide the same events, whatever rows no bill replaces.
  pub build-IsTally :
      (es : List (Event D))
      → let r = build format_day es in
        let counted = included format_day es in
        (r.total_usd ≡ sum_costs counted zero_usd)
        × IsTally (λ (e : Event D). e.provider) counted r.by_provider
        × IsTally (λ (e : Event D). owner_key e.tags) counted r.by_owner
        × IsTally (λ (e : Event D). model_key e) counted r.by_model
  unfolding build tables_of included
  build-IsTally es =
      let cov = cost_coverage format_day es in
      let metered = metered_providers es [] in
      let counted = filter (counts_toward_total format_day cov) es in
      let tables = take_events_lem cov metered es no_tables in
      (
        total_events_lem cov metered es no_tables,
        rw tables.0 (lines_of-IsTally (λ (e : Event D). e.provider) counted),
        rw tables.1 (lines_of-IsTally (λ (e : Event D). owner_key e.tags) counted),
        rw tables.2 (lines_of-IsTally (λ (e : Event D). model_key e) counted),
      )
