-- ===== src/Pricing/Tests.antt =====
-- internal/pricing/pricing.go: prices of concrete models, in billionths of a dollar.
use axigate_finops.Prelude.{◌≡◌, refl, str, fixed_float}
use axigate_finops.Pricing.Table.{strip_date}

dated_snapshots :
    (strip_date (str "gpt-4o-mini-2024-07-18") ≡ str "gpt-4o-mini")
    × (strip_date (str "claude-sonnet-4-5-20250929") ≡ str "claude-sonnet-4-5")
    × (strip_date (str "gpt-4o-audio-preview") ≡ str "gpt-4o-audio-preview")
unfolding strip_date
dated_snapshots = (refl, refl, refl)
