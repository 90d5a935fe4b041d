-- ===== src/Report/Finish.antt =====
-- internal/report/report.go: what `Build` makes of its maps once it has read the events.
use axigate_finops.Prelude.{
  ℕ, ◌/◌, Bool, true, not, ◌&&◌, List, [], ◌∷◌, ◌++◌, none, some, Bytes, str, beq, Dict, lookup,
  insert, Float, zero_usd, positive, ltb, ◌==◌, if◌then◌else◌, map, length, take, drop, filter,
  sort_by,
}
use axigate_finops.Ledger.Event.{Event}
use axigate_finops.Pricing.Price.{◌+64◌}
use axigate_finops.Gateway.Store.Records.{bytes_less}
use axigate_finops.Report.Rows.{Coverage, cost_coverage, join}
use axigate_finops.Report.Lines.{lines_of}
use axigate_finops.Report.Build.{ProviderCache, Spike, Reconciliation, Report, Tables, tables_of}

-- `strings.Cut` at a byte: what stands before the first one and behind it.
unfoldable pub cut_at : ℕ → Bytes → Bytes × Bytes
cut_at c [] = ([], [])
cut_at c (x ∷ s) = let rest = cut_at c s in if x == c then ([], s) else (x ∷ rest.0, rest.1)

-- The names of a set, sorted.
unfoldable pub sorted_names : Dict Bool → List Bytes
sorted_names m = sort_by bytes_less (map (λ (e : Bytes × Bool). e.0) m)

abbrev concat_map : {A B : Type 0} → (A → List B) → List A → List B
concat_map f [] = []
concat_map f (x ∷ xs) = f x ++ concat_map f xs

-- `billedMonths`
unfoldable pub billed_months : Coverage → Dict (Dict Bool) → Dict (Dict Bool)
billed_months [] m = m
billed_months ((key, b) ∷ cov) m =
    let (p, day) = cut_at b'|' key in
    let months : Dict Bool = elim (lookup p m) [ none ↦ [] | some ms ↦ ms ] in
    billed_months cov (insert p (insert (take 7 day) true months) m)

abbrev billed_note : Bytes × Dict Bool → Bytes
billed_note (p, months) =
    p
    ++ str ": the provider's own cost report sets the total for the days it covers ("
    ++ join (str ", ") (sorted_names months)
    ++ str "); usage rows supply the token detail there and the total elsewhere"

-- `r.Notes`
unfoldable pub notes_of : Coverage → List Bytes
notes_of cov = sort_by bytes_less (map billed_note (billed_months cov []))

module _ {D : Type 0} ⦃f : Float D⦄ where
  unfoldable pub finish_cache : ProviderCache D → ProviderCache D
  finish_cache c =
      let denom = f.of_int (c.input_tokens +64 c.cache_read +64 c.cache_write) in
      if positive denom then record c { cached_share = f.div (f.of_int c.cache_read) denom } else c

  abbrev cache_before : ProviderCache D → ProviderCache D → Bool
  cache_before c d = bytes_less c.provider d.provider

  unfoldable pub caches_of : Dict (ProviderCache D) → List (ProviderCache D)
  caches_of m = sort_by cache_before (map (λ (e : Bytes × ProviderCache D). finish_cache e.1) m)

  abbrev nth : ℕ → List D → D
  nth n vs = elim (drop n vs) [ [] ↦ zero_usd | v ∷ _ ↦ v ]

  abbrev positive_values : Dict D → List D
  positive_values days = filter (λ (v : D). positive v) (map (λ (e : Bytes × D). e.1) days)

  -- The median of the days with spend.
  unfoldable pub median_of : List D → D
  median_of vs = nth (length vs / 2) (sort_by f.less vs)

  -- A day at least four times the median, and 25 dollars above it.
  unfoldable pub is_spike : D → D → Bool
  is_spike median v =
      not (f.less v (f.mul (f.literal 4 0) median))
      && not (f.less (f.sub v median) (f.literal 25 0))

  abbrev spike_at : Bytes → D → Bytes × D → Spike D
  spike_at key median (day, v) = record {
    day = day;
    dimension = (cut_at b'=' key).0;
    value = (cut_at b'=' key).1;
    usd = v;
    median = median;
    factor = f.div v median;
  }

  -- The spikes of one key, which needs four days with spend.
  unfoldable pub key_spikes : Bytes × Dict D → List (Spike D)
  key_spikes (key, days) =
      let vs = positive_values days in
      let median = median_of vs in
      if ltb (length days) 4
      then []
      else if ltb (length vs) 4
      then []
      else if not (positive median)
      then []
      else map (spike_at key median) (filter (λ (e : Bytes × D). is_spike median e.1) days)

  abbrev spike_before : Spike D → Spike D → Bool
  spike_before i j = if f.equal i.usd j.usd then bytes_less i.day j.day else f.less j.usd i.usd

  unfoldable pub spikes_of : Dict (Dict D) → List (Spike D)
  spikes_of daily = sort_by spike_before (concat_map key_spikes daily)

  -- `math.Abs`
  abbrev absolute : D → D
  absolute v = if f.less v zero_usd then f.sub zero_usd v else v

  -- The comparison for a provider and a period, if usage of it was priced.
  unfoldable pub reconciled : Dict D → Bytes × D → List (Reconciliation D)
  reconciled est (key, reported) = elim (lookup key est) [
    | none ↦ []
    | some estimated ↦
        record {
          provider = (cut_at b'|' key).0;
          period = (cut_at b'|' key).1;
          estimated_usd = estimated;
          reported_usd = reported;
          diff_usd = f.sub estimated reported;
          diff_pct =
              if positive reported
              then f.div (absolute (f.sub estimated reported)) reported
              else zero_usd;
        }
        ∷ []
  ]

  abbrev reconciled_before : Reconciliation D → Reconciliation D → Bool
  reconciled_before i j =
      if beq i.provider j.provider
      then bytes_less i.period j.period
      else bytes_less i.provider j.provider

  unfoldable pub reconciliations_of : Dict D → Dict D → List (Reconciliation D)
  reconciliations_of est rep = sort_by reconciled_before (concat_map (reconciled est) rep)

  abbrev report_of : Coverage → Tables D → Report D
  report_of cov t = record {
    periods = sorted_names t.periods;
    by_provider = lines_of t.by_provider;
    by_owner = lines_of t.by_owner;
    by_model = lines_of t.by_model;
    unknown_usd = t.unknown_usd;
    unknown_share = if positive t.total_usd then f.div t.unknown_usd t.total_usd else zero_usd;
    total_usd = t.total_usd;
    unknown_dims = lines_of t.by_unknown_dim;
    cache = caches_of t.cache;
    unlisted = lines_of t.by_unlisted;
    spikes = spikes_of t.daily;
    reconciliations = reconciliations_of t.est t.rep;
    sources = sorted_names t.sources;
    notes = notes_of cov;
  }

  -- `Build`
  unfoldable pub build : (ℕ → Bytes) → List (Event D) → Report D
  build format_day es = report_of (cost_coverage format_day es) (tables_of format_day es)
