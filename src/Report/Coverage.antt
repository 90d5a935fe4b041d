-- ===== src/Report/Coverage.antt =====
-- internal/report/report.go: which days a provider's cost rows cover, and what is included.
use axigate_finops.Prelude.{
  ℕ, zero, suc, ◌+◌, ◌*◌, ◌<◌, ◌≡◌, ◌↔◌, ◌⊎◌, inl, inr, Bool, true, List, [], ◌∷◌, Bytes, lookup,
  insert, lookup-insert, beq, beq_iff, ltb, if◌then◌else◌, arith, Bool-cases, ap, subst, ◌∙◌,
  if_both, beq_sound, ltb→lt, lt→ltb,
}
use axigate_finops.Ledger.Event.{Event}
use axigate_finops.Report.Rows.{
  Coverage, covered, is_cost_row, day_length, max_coverage_days, start_day, span_end, coverage_key,
  mark_days, cover_rows, cost_coverage,
}

module _ (format_day : ℕ → Bytes) where
  -- One of `n` days from `day` on starts before `end` and has the key.
  pub record InSpan (provider : Bytes) (end n day : ℕ) (k : Bytes) : Type 0 where
    pub offset : ℕ
    pub in_bound : offset < n
    pub in_bucket : (day + offset) * day_length < end
    pub is_key : coverage_key format_day provider (day + offset) ≡ k

  covered-insert :
      (j k : Bytes) (cov : Coverage)
      → covered k (insert j true cov) ≡ (if beq j k then true else covered k cov)
  unfolding covered
  covered-insert j k cov = ground (arith, lookup-insert k j true cov)

  next-InSpan :
      (p : Bytes) (end n day : ℕ) (k : Bytes)
      → InSpan p end n (suc day) k
      → InSpan p end (suc n) day k
  next-InSpan p end n day k s = record {
    offset = suc s.offset;
    in_bound = omega (arith, s.in_bound);
    in_bucket = omega (arith, s.in_bucket);
    is_key = ap (λ d. coverage_key format_day p d) (shift s.offset) ∙ s.is_key;
  }
    where
      shift : (o : ℕ) → day + suc o ≡ suc day + o
      shift o = omega arith

  first-InSpan :
      (p : Bytes) (end n day : ℕ) (k : Bytes)
      → day * day_length < end
      → coverage_key format_day p day ≡ k
      → InSpan p end (suc n) day k
  first-InSpan p end n day k h e = record {
    offset = 0;
    in_bound = omega arith;
    in_bucket = omega (arith, h);
    is_key = ap (λ d. coverage_key format_day p d) (omega arith) ∙ e;
  }

  mark_days-finds :
      (p : Bytes) (end n day : ℕ) (cov : Coverage) (k : Bytes)
      → covered k (mark_days format_day p end n day cov) ≡ true
      → InSpan p end n day k ⊎ (covered k cov ≡ true)
  unfolding mark_days
  mark_days-finds p end zero day cov k h = inr h
  mark_days-finds p end (suc n) day cov k h = elim (Bool-cases (ltb (day * day_length) end)) [
    | inl b ↦ elim (mark_days-finds p end n (suc day) marked k (ground arith)) [
      | inl s ↦ inl (next-InSpan p end n day k s)
      | inr c ↦ elim (Bool-cases (beq (coverage_key format_day p day) k)) [
        | inl e ↦ inl (first-InSpan p end n day k (ltb→lt _ _ b) (beq_sound _ k e))
        | inr e ↦ inr (ground (arith, covered-insert (coverage_key format_day p day) k cov))
      ]
    ]
    | inr b ↦ inr (ground arith)
  ]
    where
      marked : Coverage
      marked = insert (coverage_key format_day p day) true cov

  mark_days-keeps :
      (p : Bytes) (end n day : ℕ) (cov : Coverage) (k : Bytes)
      → covered k cov ≡ true
      → covered k (mark_days format_day p end n day cov) ≡ true
  unfolding mark_days
  mark_days-keeps p end zero day cov k h = h
  mark_days-keeps p end (suc n) day cov k h =
      if_both (λ (c : Coverage). covered k c ≡ true) (ltb (day * day_length) end)
        (mark_days-keeps p end n (suc day) (insert (coverage_key format_day p day) true cov) k
          (ground (arith, covered-insert (coverage_key format_day p day) k cov)))
        h

  mark_days-marks :
      (p : Bytes) (end n day offset : ℕ) (cov : Coverage) (k : Bytes)
      → offset < n
      → (day + offset) * day_length < end
      → coverage_key format_day p (day + offset) ≡ k
      → covered k (mark_days format_day p end n day cov) ≡ true
  unfolding mark_days
  mark_days-marks p end zero day o cov k b l e = absurd (omega (arith, b))
  mark_days-marks p end (suc n) day zero cov k b l e =
      rw (lt→ltb (day * day_length) end (omega (arith, l))) (
        mark_days-keeps p end n (suc day) marked k (
          ground (
            arith,
            covered-insert (coverage_key format_day p day) k cov,
            beq_iff (coverage_key format_day p day) k,
            ap (λ d. coverage_key format_day p d) same,
          )))
    where
      marked : Coverage
      marked = insert (coverage_key format_day p day) true cov

      same : day ≡ day + 0
      same = omega arith
  mark_days-marks p end (suc n) day (suc o) cov k b l e =
      rw (lt→ltb (day * day_length) end (omega (arith, l))) (
        mark_days-marks p end n (suc day) o (insert (coverage_key format_day p day) true cov) k
          (omega (arith, b)) (omega (arith, l))
          (ap (λ d. coverage_key format_day p d) (omega arith) ∙ e))

module _ (format_day : ℕ → Bytes) {D : Type 0} where
  -- The cost row's bucket has a day with the key.
  abbrev pub Spans : Event D → Bytes → Type 0
  Spans e k = InSpan format_day e.provider (span_end e) max_coverage_days (start_day e) k

  -- Some cost row has a day with the key in its bucket.
  abbrev pub Billed : List (Event D) → Bytes → Type 0
  Billed [] k = ⊥
  Billed (e ∷ es) k = ((is_cost_row e ≡ true) × Spans e k) ⊎ Billed es k

  cover_rows-keeps :
      (es : List (Event D)) (cov : Coverage) (k : Bytes)
      → covered k cov ≡ true
      → covered k (cover_rows format_day es cov) ≡ true
  unfolding cover_rows
  cover_rows-keeps [] cov k h = h
  cover_rows-keeps (e ∷ es) cov k h = cover_rows-keeps es _ k (
      if_both (λ (c : Coverage). covered k c ≡ true) (is_cost_row e)
        (mark_days-keeps format_day e.provider (span_end e) max_coverage_days (start_day e) cov k h)
        h)

  cover_rows-finds :
      (es : List (Event D)) (cov : Coverage) (k : Bytes)
      → covered k (cover_rows format_day es cov) ≡ true
      → Billed es k ⊎ (covered k cov ≡ true)
  unfolding cover_rows
  cover_rows-finds [] cov k h = inr h
  cover_rows-finds (e ∷ es) cov k h = elim (Bool-cases (is_cost_row e)) [
    | inl b ↦ elim (cover_rows-finds es (marked cov) k (at b)) [
      | inl s ↦ inl (inr s)
      | inr c ↦
          elim (mark_days-finds format_day e.provider (span_end e) max_coverage_days (start_day e)
            cov k c) [ inl s ↦ inl (inl (b, s)) | inr d ↦ inr d ]
    ]
    | inr b ↦ elim (cover_rows-finds es cov k (at b)) [ inl s ↦ inl (inr s) | inr c ↦ inr c ]
  ]
    where
      marked : Coverage → Coverage
      marked c = mark_days format_day e.provider (span_end e) max_coverage_days (start_day e) c

      at :
          {x : Bool}
          → is_cost_row e ≡ x
          → covered k (cover_rows format_day es (if x then marked cov else cov)) ≡ true
      at b =
          subst (λ y. covered k (cover_rows format_day es (if y then marked cov else cov)) ≡ true) b
            h

  cover_rows-marks :
      (es : List (Event D)) (cov : Coverage) (k : Bytes)
      → Billed es k
      → covered k (cover_rows format_day es cov) ≡ true
  unfolding cover_rows
  cover_rows-marks [] cov k h = absurd h
  cover_rows-marks (e ∷ es) cov k (inl (b, s)) = rw b (
      cover_rows-keeps es _ k (
        mark_days-marks format_day e.provider (span_end e) max_coverage_days (start_day e) s.offset
          cov k s.in_bound s.in_bucket s.is_key))
  cover_rows-marks (e ∷ es) cov k (inr h) = cover_rows-marks es _ k h

  -- The coverage holds a key exactly if the bucket of some cost row has a day with that key.
  pub cost_coverage-Billed :
      (es : List (Event D)) (k : Bytes)
      → (covered k (cost_coverage format_day es) ≡ true) ↔ Billed es k
  unfolding cost_coverage covered lookup
  cost_coverage-Billed es k = (
    λ h. elim (cover_rows-finds es [] k h) [ inl b ↦ b | inr c ↦ cc ],
    λ b. cover_rows-marks es [] k b,
  )
