-- ===== src/Report/Build.antt =====
-- internal/report/report.go: `Report`, its parts, and `Build`.
--
-- The order in which Go walks a map is that of insertion here; it is seen in no table, since each is
-- sorted.
use axigate_finops.Prelude.{
  ℕ, Bool, true, not, ◌&&◌, List, [], ◌∷◌, ◌++◌, Option, none, some, Bytes, str, beq, is_empty,
  ◌||◌, Dict, lookup, insert, ℤ, pos, Float, zero_usd, if◌then◌else◌,
}
use axigate_finops.Ledger.Event.{Event, Usage, usage_is_zero, at_least, provider_reported}
use axigate_finops.Pricing.Table.{TokenUsage, providers}
use axigate_finops.Pricing.Price.{◌+64◌, Cost, price, full_price_equivalent, uncached_only}
use axigate_finops.Report.Rows.{
  Coverage, covered, cost_coverage, covers, counts_toward_total, owner_key, start_day,
}
use axigate_finops.Report.Lines.{Line, Acc, add}

pub record ProviderCache (D : Type 0) : Type 0 where
  pub provider : Bytes
  pub input_tokens : ℤ
  pub cache_read : ℤ
  pub cache_write : ℤ
  pub cached_share : D
  pub read_savings_usd : D
  pub uncached_usd : D

pub record Spike (D : Type 0) : Type 0 where
  pub day : Bytes
  pub dimension : Bytes
  pub value : Bytes
  pub usd : D
  pub median : D
  pub factor : D

pub record Reconciliation (D : Type 0) : Type 0 where
  pub provider : Bytes
  pub period : Bytes
  pub estimated_usd : D
  pub reported_usd : D
  pub diff_usd : D
  pub diff_pct : D

pub record Report (D : Type 0) : Type 0 where
  pub periods : List Bytes
  pub by_provider : List (Line D)
  pub by_owner : List (Line D)
  pub by_model : List (Line D)
  pub unknown_usd : D
  pub unknown_share : D
  pub total_usd : D
  pub unknown_dims : List (Line D)
  pub cache : List (ProviderCache D)
  pub unlisted : List (Line D)
  pub spikes : List (Spike D)
  pub reconciliations : List (Reconciliation D)
  pub sources : List Bytes
  pub notes : List Bytes

-- The maps and sums of the loop over the events.
pub record Tables (D : Type 0) : Type 0 where
  pub by_provider : Dict (Acc D)
  pub by_owner : Dict (Acc D)
  pub by_model : Dict (Acc D)
  pub by_unknown_dim : Dict (Acc D)
  pub by_unlisted : Dict (Acc D)
  pub periods : Dict Bool
  pub sources : Dict Bool
  pub cache : Dict (ProviderCache D)
  pub est : Dict D
  pub rep : Dict D
  pub daily : Dict (Dict D)
  pub total_usd : D
  pub unknown_usd : D

-- The first of some dimensions that an event has, as "dimension=value".
abbrev pub dim_text : List Bytes → Dict Bytes → Option Bytes
dim_text [] m = none
dim_text (d ∷ ds) m =
    let rest = dim_text ds m in
    elim (lookup d m) [ none ↦ rest | some v ↦ some (d ++ str "=" ++ v) ]

abbrev pub daily_dims : List Bytes
daily_dims = str "api_key_id" ∷ str "project_id" ∷ str "workspace_id" ∷ []

abbrev pub unknown_dims : List Bytes
unknown_dims =
    str "api_key_id"
    ∷ str "project_id"
    ∷ str "workspace_id"
    ∷ str "user_id"
    ∷ str "account_id"
    ∷ str "service_account_id"
    ∷ []

-- The usage that the cache picture prices, without the output.
abbrev pub input_usage : Usage → TokenUsage
input_usage u = record {
  input_tokens = u.input_tokens;
  cache_read = u.cache_read;
  cache_write_5m = u.cache_write_5m;
  cache_write_1h = u.cache_write_1h;
  output_tokens = pos 0;
}

abbrev pub only_input : ℤ → TokenUsage
only_input n = record {
  input_tokens = n;
  cache_read = pos 0;
  cache_write_5m = pos 0;
  cache_write_1h = pos 0;
  output_tokens = pos 0;
}

abbrev pub has_usage : {D : Type 0} → Event D → Bool
has_usage e = not (usage_is_zero e.usage)

-- `hasUsage`
unfoldable pub metered_providers : {D : Type 0} → List (Event D) → Dict Bool → Dict Bool
metered_providers [] m = m
metered_providers (e ∷ es) m =
    metered_providers es (if has_usage e then insert e.provider true m else m)

-- `e.Provider + "|" + e.Period`
abbrev pub period_key : {D : Type 0} → Event D → Bytes
period_key e = e.provider ++ str "|" ++ e.period

abbrev pub model_key : {D : Type 0} → Event D → Bytes
model_key e = if is_empty e.model then str "(not grouped by model)" else e.model

abbrev pub or_empty : {D : Type 0} → Option (Dict D) → Dict D
or_empty none = []
or_empty (some m) = m

module _ {D : Type 0} ⦃f : Float D⦄ where
  abbrev or_zero : Option D → D
  or_zero none = zero_usd
  or_zero (some v) = v

  -- `m[key] += v`
  abbrev pub sum_into : Dict D → Bytes → D → Dict D
  sum_into m key v = insert key (f.add (or_zero (lookup key m)) v) m

  abbrev or_no_cache : Bytes → Option (ProviderCache D) → ProviderCache D
  or_no_cache provider (some c) = c
  or_no_cache provider none = record {
    provider = provider;
    input_tokens = pos 0;
    cache_read = pos 0;
    cache_write = pos 0;
    cached_share = zero_usd;
    read_savings_usd = zero_usd;
    uncached_usd = zero_usd;
  }

  abbrev uncached_of : Event D → ℤ
  uncached_of e = uncached_only {D = D} (lookup e.provider providers) (input_usage e.usage)

  -- What a usage row adds to the cache picture of its provider.
  unfoldable pub add_cache : ProviderCache D → Event D → ProviderCache D
  add_cache c e =
      let full = full_price_equivalent e.provider e.model (input_usage e.usage) in
      let priced : Cost D = price e.provider e.model (input_usage e.usage) in
      let alone : Cost D = price e.provider e.model (only_input (uncached_of e)) in
      record c {
        input_tokens = c.input_tokens +64 uncached_of e;
        cache_read = c.cache_read +64 e.usage.cache_read;
        cache_write = c.cache_write +64 (e.usage.cache_write_5m +64 e.usage.cache_write_1h);
        read_savings_usd =
            if f.less priced.usd full
            then f.add c.read_savings_usd (f.sub full priced.usd)
            else c.read_savings_usd;
        uncached_usd = f.add c.uncached_usd alone.usd;
      }

  -- A row without usage: the provider's own figure, if it is one.
  unfoldable pub take_reported : Tables D → Event D → Tables D
  take_reported t e =
      if at_least e.confidence provider_reported
      then record t { rep = sum_into t.rep (period_key e) e.cost_usd }
      else t

  abbrev add_dim : Dict (Acc D) → Event D → Option Bytes → Dict (Acc D)
  add_dim m e none = m
  add_dim m e (some k) = add m k e

  abbrev is_unknown : Event D → Bool
  is_unknown e = beq (owner_key e.tags) (str "unknown")

  -- A row that counts toward the totals.
  unfoldable pub take_counted : Tables D → Event D → Tables D
  take_counted t e = record t {
    total_usd = f.add t.total_usd e.cost_usd;
    by_provider = add t.by_provider e.provider e;
    by_owner = add t.by_owner (owner_key e.tags) e;
    unknown_usd = if is_unknown e then f.add t.unknown_usd e.cost_usd else t.unknown_usd;
    by_unknown_dim =
        if is_unknown e
        then add_dim t.by_unknown_dim e (dim_text unknown_dims e.dimensions)
        else t.by_unknown_dim;
    by_model = add t.by_model (model_key e) e;
  }

  abbrev pub no_tables : Tables D
  no_tables = record {
    by_provider = [];
    by_owner = [];
    by_model = [];
    by_unknown_dim = [];
    by_unlisted = [];
    periods = [];
    sources = [];
    cache = [];
    est = [];
    rep = [];
    daily = [];
    total_usd = zero_usd;
    unknown_usd = zero_usd;
  }

  module _ (format_day : ℕ → Bytes) where
    -- A usage row: the cache picture, models without a price, and what is reconciled.
    unfoldable pub take_usage : Coverage → Tables D → Event D → Tables D
    take_usage cov t e =
        let priced : Cost D = price e.provider e.model (input_usage e.usage) in
        record t {
          cache =
              insert e.provider (add_cache (or_no_cache e.provider (lookup e.provider t.cache)) e)
                t.cache;
          by_unlisted =
              if not priced.listed && not (is_empty e.model)
              then add t.by_unlisted (e.provider ++ str "/" ++ e.model) e
              else t.by_unlisted;
          est = if covers format_day cov e then sum_into t.est (period_key e) e.cost_usd else t.est;
        }

    abbrev on_day : Dict (Dict D) → Event D → Option Bytes → Dict (Dict D)
    on_day daily e none = daily
    on_day daily e (some k) =
        insert k (sum_into (or_empty (lookup k daily)) (format_day (start_day e)) e.cost_usd) daily

    -- The days of a key, a project or a workspace, from the most granular rows of a provider.
    unfoldable pub take_daily : Dict Bool → Tables D → Event D → Tables D
    take_daily metered t e =
        if has_usage e || not (covered e.provider metered)
        then record t { daily = on_day t.daily e (dim_text daily_dims e.dimensions) }
        else t

    -- The body of the loop.
    unfoldable pub take_event : Coverage → Dict Bool → Tables D → Event D → Tables D
    take_event cov metered t e =
        let seen = record t {
          periods = insert e.period true t.periods;
          sources = insert e.source true t.sources;
        } in
        let used = if has_usage e then take_usage cov seen e else take_reported seen e in
        let dated = take_daily metered used e in
        if counts_toward_total format_day cov e then take_counted dated e else dated

    unfoldable pub take_events : Coverage → Dict Bool → Tables D → List (Event D) → Tables D
    take_events cov metered t [] = t
    take_events cov metered t (e ∷ es) = take_events cov metered (take_event cov metered t e) es

    unfoldable pub tables_of : List (Event D) → Tables D
    tables_of es = take_events (cost_coverage format_day es) (metered_providers es []) no_tables es
