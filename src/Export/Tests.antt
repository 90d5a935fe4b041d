-- ===== src/Export/Tests.antt =====
-- internal/csvsafe/csvsafe.go, internal/focus/focus.go and internal/statement/statement.go: the
-- exports of concrete events.
use axigate_finops.Prelude.{
  ℕ, suc, ◌*◌, ◌≡◌, refl, List, [], str, ◌∷◌, Bytes, All, length, pos, negsuc, fixed_float, itoa,
  beq, lookup,
}
use axigate_finops.Ledger.Event.{Event, Tags, Confidence, estimated, provider_reported}
use axigate_finops.Report.Rows.{included, day_length}
use axigate_finops.Report.Finish.{build}
use axigate_finops.Export.Field.{field, IsSafe}
use axigate_finops.Export.Focus.{
  format_int, service_name, charge_description, resource_of, text_at, focus_row, write_focus,
  focus_total,
}
use axigate_finops.Export.Records.{text_columns, focus_row-IsSafe, focus_total-build}

field_formula : field (str "=1+1") ≡ str "'=1+1"
unfolding field
field_formula = refl

format_int_negative : format_int (negsuc 11) ≡ str "-12"
unfolding format_int itoa
format_int_negative = refl

-- A team that is named like a formula.
abbrev formula_tags : Tags
formula_tags = record {
  team = str "=cmd";
  project = [];
  customer = str "@acme";
  agent = [];
  run = [];
}

abbrev billed : ℕ → Confidence → ℕ → ℕ → ℕ → Event ℕ
billed tokens confidence cost first last = record {
  id = str "1";
  source = str "test";
  provider = str "openai";
  model = str "gpt-4o";
  dimensions = (str "project_id", str "+p") ∷ [];
  usage = record {
    input_tokens = pos tokens;
    cache_read = pos 0;
    cache_write_5m = pos 0;
    cache_write_1h = pos 0;
    output_tokens = pos 0;
    requests = pos 0;
  };
  tags = formula_tags;
  cost_usd = cost;
  confidence = confidence;
  price_version = [];
  starts_at = first * day_length;
  ends_at = last * day_length;
  period = str "2026-09";
}

abbrev day_text : ℕ → Bytes
day_text d = d ∷ []

-- A bill of days 3 and 4, and priced rows of days 4 and 5.
abbrev exported : List (Event ℕ)
exported =
    billed 0 provider_reported 100 3 5 ∷ billed 9 estimated 7 4 5 ∷ billed 9 estimated 8 5 6 ∷ []

charge_description_openai :
    charge_description (billed 9 estimated 7 4 5) ≡ str "OpenAI API gpt-4o (estimated)"
unfolding charge_description service_name beq
charge_description_openai = refl

resource_of_project : resource_of (billed 9 estimated 7 4 5) ≡ str "+p"
unfolding resource_of lookup beq
resource_of_project = refl

focus_row-IsSafe_example :
    All
      (λ (c : Bytes). IsSafe (text_at c (focus_row (billed 9 estimated 7 4 5) (str "-acct"))))
      text_columns
focus_row-IsSafe_example = focus_row-IsSafe (billed 9 estimated 7 4 5) (str "-acct")

focus_total-build_example :
    (focus_total day_text exported ≡ (build day_text exported).total_usd)
    × (length (write_focus day_text (str "acct") exported)
        ≡ suc (length (included day_text exported)))
focus_total-build_example = focus_total-build day_text exported (str "acct")
