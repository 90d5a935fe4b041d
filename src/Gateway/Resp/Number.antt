-- ===== src/Gateway/Resp/Number.antt =====
-- internal/gateway/resp.go: decimal numbers, written and read.
use axigate_finops.Prelude.{
  ℕ, zero, suc, ◌+◌, ◌*◌, ◌/◌, ◌%◌, ◌≤◌, ◌<◌, ◌≡◌, refl, ◌∙◌, ap, [], ◌∷◌, some, Bytes, pos, itoa,
  itoa_fuel, ltb, All, arith, if_both, Bool-cases, inl, inr, ltb→lt, ◌≢◌,
}
use axigate_finops.Gateway.Resp.Value.{scan_digits, parse_digits, parse_int}

abbrev pub IsDigit : ℕ → Type 0
IsDigit c = (48 ≤ c) × (c ≤ 57)

itoa_fuel-IsDigit : (f n : ℕ) (acc : Bytes) → All IsDigit acc → All IsDigit (itoa_fuel f n acc)
unfolding itoa_fuel
itoa_fuel-IsDigit zero n acc h = h
itoa_fuel-IsDigit (suc f) n acc h = elim (Bool-cases (ltb n 10)) [
  | inl b ↦ rw b ((omega arith, ground arith), h)
  | inr b ↦
      rw b (itoa_fuel-IsDigit f (n / 10) ((48 + n % 10) ∷ acc) ((omega arith, omega arith), h))
]

pub itoa-IsDigit : (n : ℕ) → All IsDigit (itoa n)
unfolding itoa
itoa-IsDigit n = itoa_fuel-IsDigit (n + 1) n [] tt

scan_digit :
    (d n : ℕ) (s : Bytes) → d < 10 → scan_digits ((48 + d) ∷ s) n ≡ scan_digits s (n * 10 + d)
unfolding scan_digits
scan_digit d n s h = ground arith

scan-itoa_fuel :
    (f n : ℕ) (acc : Bytes) → n < f → scan_digits (itoa_fuel f n acc) 0 ≡ scan_digits acc n
unfolding itoa_fuel scan_digits
scan-itoa_fuel zero n acc h = absurd (omega (arith, h))
scan-itoa_fuel (suc f) n acc h = elim (Bool-cases (ltb n 10)) [
  | inl b ↦ rw b (scan_digit n 0 acc (ltb→lt n 10 b) ∙ ap (scan_digits acc) (omega arith))
  | inr b ↦ rw b (
      scan-itoa_fuel f (n / 10) ((48 + n % 10) ∷ acc) (ground arith)
      ∙ scan_digit (n % 10) (n / 10) acc (omega arith)
      ∙ ap (scan_digits acc) (omega arith))
]

scan-itoa : (n : ℕ) → scan_digits (itoa n) 0 ≡ some n
unfolding itoa scan_digits
scan-itoa n = scan-itoa_fuel (n + 1) n [] (omega arith)

-- A text that begins with a digit has no sign.
parse_int-digits :
    (s : Bytes) (n : ℕ)
    → All IsDigit s
    → scan_digits s 0 ≡ some n
    → (s ≢ [])
    → n < 9223372036854775808
    → parse_int s ≡ some (pos n)
unfolding parse_int parse_digits
parse_int-digits [] n a h e l = absurd (e refl)
parse_int-digits (c ∷ s) n a h e l = ground (arith, a.0)

itoa_fuel-ne-nil : (f n : ℕ) (acc : Bytes) → acc ≢ [] → itoa_fuel f n acc ≢ []
unfolding itoa_fuel
itoa_fuel-ne-nil zero n acc h = h
itoa_fuel-ne-nil (suc f) n acc h =
    if_both (λ (s : Bytes). s ≢ []) (ltb n 10) (λ e. cc)
      (itoa_fuel-ne-nil f (n / 10) ((48 + n % 10) ∷ acc) (λ e. cc))

itoa_fuel-starts : (f n : ℕ) → 0 < f → itoa_fuel f n [] ≢ []
unfolding itoa_fuel
itoa_fuel-starts zero n h = absurd (omega (arith, h))
itoa_fuel-starts (suc f) n h =
    if_both (λ (s : Bytes). s ≢ []) (ltb n 10) (λ e. cc)
      (itoa_fuel-ne-nil f (n / 10) ((48 + n % 10) ∷ []) (λ e. cc))

itoa-ne-nil : (n : ℕ) → itoa n ≢ []
unfolding itoa
itoa-ne-nil n = itoa_fuel-starts (n + 1) n (omega arith)

-- A number below 2^63 that is written in decimal is read back by `ParseInt`.
pub parse_int-itoa : (n : ℕ) → n < 9223372036854775808 → parse_int (itoa n) ≡ some (pos n)
parse_int-itoa n h = parse_int-digits (itoa n) n (itoa-IsDigit n) (scan-itoa n) (itoa-ne-nil n) h
