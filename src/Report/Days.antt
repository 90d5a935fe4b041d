-- ===== src/Report/Days.antt =====
-- internal/report/report.go: which events count toward the totals, in terms of providers and days.
use axigate_finops.Prelude.{
  ◌-◌, ◌≤◌, ◌==◌, ◌++◌, str, sym, false, refl, ℕ, ◌+◌, ◌*◌, ◌<◌, ◌≡◌, ◌↔◌, ◌⊎◌, inl, inr, Bool,
  true, List, [], ◌∷◌, Bytes, if◌then◌else◌, arith, ap, subst, ◌∙◌,
}
use axigate_finops.Ledger.Event.{Event}
use axigate_finops.Report.Rows.{
  is_cost_row, day_length, max_coverage_days, start_day, span_end, coverage_key, cost_coverage,
  covers, counts_toward_total,
}
use axigate_finops.Report.Coverage.{InSpan, Billed, cost_coverage-Billed}

abbrev pub has_bar : Bytes → Bool
has_bar [] = false
has_bar (c ∷ s) = if c == 124 then true else has_bar s

-- How days are written: different days differently, and without a bar.
pub record IsDayFormat (format_day : ℕ → Bytes) : Type 0 where
  pub injective : (d e : ℕ) → format_day d ≡ format_day e → d ≡ e
  pub no_bar : (d : ℕ) → has_bar (format_day d) ≡ false

has_bar-append : (p s : Bytes) → has_bar (p ++ str "|" ++ s) ≡ true
has_bar-append [] s = refl
has_bar-append (c ∷ p) s = ground (arith, has_bar-append p s)

-- The text behind the last bar, and the text before it.
bar-parts :
    (p q s t : Bytes)
    → has_bar s ≡ false
    → has_bar t ≡ false
    → p ++ str "|" ++ s ≡ q ++ str "|" ++ t
    → (p ≡ q) × (s ≡ t)
bar-parts [] [] s t hs ht e = ground (arith, e)
bar-parts [] (c ∷ q) s t hs ht e = ground (arith, e, has_bar-append q t)
bar-parts (c ∷ p) [] s t hs ht e = ground (arith, e, has_bar-append p s)
bar-parts (c ∷ p) (d ∷ q) s t hs ht e = ground (arith, e, bar-parts p q s t hs ht)

module _ {D : Type 0} where
  -- Some cost row of the provider has the day among the first 400 of its bucket.
  abbrev pub BilledDay : List (Event D) → Bytes → ℕ → Type 0
  BilledDay [] provider day = ⊥
  BilledDay (e ∷ es) provider day =
      ((is_cost_row e ≡ true)
        × (e.provider ≡ provider)
        × (start_day e ≤ day)
        × (day < start_day e + 400)
        × (day * day_length < span_end e))
      ⊎ BilledDay es provider day

module _ (format_day : ℕ → Bytes) where
  coverage_key-parts :
      IsDayFormat format_day
      → (p q : Bytes) (d e : ℕ) → coverage_key format_day p d ≡ coverage_key format_day q e
      → (p ≡ q) × (d ≡ e)
  coverage_key-parts days p q d e same =
      let parts =
        bar-parts p q (format_day d) (format_day e) (days.no_bar d) (days.no_bar e) same in
      (parts.0, days.injective d e parts.1)

  module _ (days : IsDayFormat format_day) where
    InSpan-day :
        (p q : Bytes) (end n first day : ℕ)
        → InSpan format_day p end n first (coverage_key format_day q day)
        → (p ≡ q) × (first ≤ day) × (day < first + n) × (day * day_length < end)
    InSpan-day p q end n first day s =
        let same = coverage_key-parts days p q (first + s.offset) day s.is_key in
        let at : first + s.offset ≡ day = same.1 in
        (
          same.0,
          omega (arith, at),
          omega (arith, at, s.in_bound),
          subst (λ d. d * day_length < end) at s.in_bucket,
        )

    day-InSpan :
        (p q : Bytes) (end n first day : ℕ)
        → p ≡ q
        → first ≤ day
        → day < first + n
        → day * day_length < end
        → InSpan format_day p end n first (coverage_key format_day q day)
    day-InSpan p q end n first day e low high before =
        let at : first + (day - first) ≡ day = omega (arith, low) in
        record {
          offset = day - first;
          in_bound = omega (arith, low, high);
          in_bucket = subst (λ d. d * day_length < end) (sym at) before;
          is_key =
              ap (λ d. coverage_key format_day p d) at ∙ ap (λ r. coverage_key format_day r day) e;
        }

module _ (format_day : ℕ → Bytes) (days : IsDayFormat format_day) {D : Type 0} where
  Billed-day :
      (es : List (Event D)) (q : Bytes) (day : ℕ)
      → Billed format_day es (coverage_key format_day q day) ↔ BilledDay es q day
  Billed-day [] q day = (λ h. h, λ h. h)
  Billed-day (e ∷ es) q day = (
    λ h. elim h [
      | inl (c, s) ↦
          let (p, low, high, before) =
            InSpan-day format_day days e.provider q (span_end e) max_coverage_days (start_day e) day
              s in
          inl (c, p, low, high, before)
      | inr h' ↦ inr ((Billed-day es q day).0 h')
    ],
    λ h. elim h [
      | inl (c, p, low, high, before) ↦ inl (
        c,
        day-InSpan format_day days e.provider q (span_end e) max_coverage_days (start_day e) day p
            low high before,
      )
      | inr h' ↦ inr ((Billed-day es q day).1 h')
    ],
  )

  -- An event counts toward the total exactly if it is a cost row or no cost row of its own
  -- provider has the day on which the event starts among the first 400 days of its bucket, if
  -- different days are written differently and without a bar: dollars are counted from the bill
  -- or from the priced rows, never from both.
  pub counts-BilledDay :
      (es : List (Event D)) (e : Event D)
      → (counts_toward_total format_day (cost_coverage format_day es) e ≡ true)
        ↔ ((is_cost_row e ≡ true) ⊎ ¬ BilledDay es e.provider (start_day e))
  unfolding counts_toward_total covers
  counts-BilledDay es e = ground (
    arith,
    cost_coverage-Billed format_day es (coverage_key format_day e.provider (start_day e)),
    Billed-day es e.provider (start_day e),
  )
