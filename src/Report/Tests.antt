-- ===== src/Report/Tests.antt =====
-- internal/report/report.go: the totals of concrete events.
use axigate_finops.Prelude.{
  ◌+◌, arith, ℕ, ◌≡◌, refl, ◌↔◌, ◌⊎◌, ◌*◌, true, List, [], ◌∷◌, Bytes, str, pos, fixed_float,
  zero_usd,
}
use axigate_finops.Ledger.Event.{
  Event, tags_are_empty, Tags, Confidence, estimated, provider_reported,
}
use axigate_finops.Report.Rows.{
  day_length, owner_key, start_day, is_cost_row, cost_coverage, counts_toward_total, included,
}
use axigate_finops.Report.Build.{model_key}
use axigate_finops.Report.Finish.{build}
use axigate_finops.Report.Sums.{IsTally}
use axigate_finops.Report.Tables.{build-IsTally}
use axigate_finops.Report.Days.{BilledDay, IsDayFormat, counts-BilledDay}
use axigate_finops.Report.Totals.{sum_costs}

-- A day written as one byte above those of text, in place of 2006-01-02.
abbrev day_text : ℕ → Bytes
day_text d = (d + 200) ∷ []

abbrev no_tags : Tags
no_tags = record { team = []; project = []; customer = []; agent = []; run = [] }

abbrev row : ℕ → Confidence → ℕ → ℕ → ℕ → Event ℕ
row tokens confidence cost first last = record {
  id = str "1";
  source = str "test";
  provider = str "openai";
  model = str "gpt-4o";
  dimensions = [];
  usage = record {
    input_tokens = pos tokens;
    cache_read = pos 0;
    cache_write_5m = pos 0;
    cache_write_1h = pos 0;
    output_tokens = pos 0;
    requests = pos 0;
  };
  tags = no_tags;
  cost_usd = cost;
  confidence = confidence;
  price_version = [];
  starts_at = first * day_length;
  ends_at = last * day_length;
  period = str "2026-09";
}

-- A bill of days 3 and 4, and priced rows of days 4 and 5.
abbrev month : List (Event ℕ)
month = row 0 provider_reported 100 3 5 ∷ row 9 estimated 7 4 5 ∷ row 9 estimated 8 5 6 ∷ []

day_text-IsDayFormat : IsDayFormat day_text
day_text-IsDayFormat = record { injective = λ d e h. ground (arith, h); no_bar = λ d. ground arith }

counts-BilledDay_example :
    (counts_toward_total day_text (cost_coverage day_text month) (row 9 estimated 7 4 5) ≡ true) ↔ (
      (is_cost_row (row 9 estimated 7 4 5) ≡ true)
      ⊎ ¬ BilledDay month (row 9 estimated 7 4 5).provider (start_day (row 9 estimated 7 4 5)))
counts-BilledDay_example =
    counts-BilledDay day_text day_text-IsDayFormat month (row 9 estimated 7 4 5)

-- An event whose only tag is its run has an owner key without a name.
owner_key_run_only : owner_key (record no_tags { run = str "r1" }) ≡ []
unfolding owner_key tags_are_empty
owner_key_run_only = refl

build-IsTally_example :
    let r = build day_text month in
    let counted = included day_text month in
    (r.total_usd ≡ sum_costs counted zero_usd)
    × IsTally (λ (e : Event ℕ). e.provider) counted r.by_provider
    × IsTally (λ (e : Event ℕ). owner_key e.tags) counted r.by_owner
    × IsTally (λ (e : Event ℕ). model_key e) counted r.by_model
build-IsTally_example = build-IsTally day_text month
