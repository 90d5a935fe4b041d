-- ===== src/Gateway/Control/Refusal.antt =====
-- internal/gateway/control.go: which calls `admitKeyed` refuses.
use axigate_finops.Prelude.{
  ℕ, ◌+◌, ◌≤◌, ◌<◌, ◌≡◌, ◌⊎◌, inl, inr, true, false, ◌++◌, some, none, Option, Bytes, lookup,
  is_empty, Float, FloatLaws, positive, AtMost, max_usd, arith, Bool-cases, pos, zero_usd,
  if◌then◌else◌,
}
use axigate_finops.Gateway.Control.State.{
  Policy, RunState, KeyState, Controller, reaches, projected, per_call, key_label,
}
use axigate_finops.Gateway.Control.Pause.{
  key_cap, pause_key, pause_run, key_state, spend_cap, run_state, key_total_met, key_day_met,
}
use axigate_finops.Gateway.Control.Admit.{
  admit_locked, stopped, admit_run, run_pause, call_cap_met, spend_cap_met,
}
use axigate_finops.Gateway.Control.Entry.{entered, seen_run, entered-policy, admit_locked_lem}

key_label_filled : (key s : Bytes) → is_empty (key_label key ++ s) ≡ false
unfolding key_label
key_label_filled key s = ground arith

module _ {D : Type 0} ⦃f : Float D⦄ where
  key_cap-policy :
      (c : Controller D) (now : ℕ) (key : Bytes) (ks : KeyState D)
      → (key_cap c now key ks).1.policy ≡ c.policy
  unfolding key_cap pause_key
  key_cap-policy c now key ks = ground arith

  -- A cap of the run is met, its calls in flight reserved.
  abbrev RunCapMet : Policy D → RunState D → Type 0
  RunCapMet p st = (call_cap_met p st ≡ true) ⊎ (spend_cap_met p st ≡ true)

  run_capped :
      (c : Controller D) (now : ℕ) (run key : Bytes) (st : RunState D)
      → c.policy.shadow ≡ false
      → RunCapMet c.policy st
      → (admit_run c now run key false (some st)).0.0 ≡ false
  unfolding stopped pause_run
  run_capped c now run key st h e = ground arith

  run_capped_call :
      (c : Controller D) (now : ℕ) (run key : Bytes) (st : RunState D) (ks : Option (KeyState D))
      → c.policy.shadow ≡ false
      → RunCapMet c.policy st
      → (run_pause c now run key false (some st) ks).0.0 ≡ false
  unfolding stopped
  run_capped_call c now run key st none h e = ground (arith, run_capped c now run key st h e)
  run_capped_call c now run key st (some ks) h e = ground (
    arith,
    run_capped c now run key st h e,
    key_cap-policy c now key ks,
    run_capped (key_cap c now key ks).1 now run key st,
  )

  -- A cap of the key is met, its calls in flight reserved.
  abbrev KeyCapMet : Policy D → KeyState D → Type 0
  KeyCapMet p ks = (key_total_met p ks ≡ true) ⊎ (key_day_met p ks ≡ true)

  key_capped_call :
      (c : Controller D) (now : ℕ) (run key : Bytes) (st : Option (RunState D)) (ks : KeyState D)
      → c.policy.shadow ≡ false
      → KeyCapMet c.policy ks
      → (run_pause c now run key false st (some ks)).0.0 ≡ false
  unfolding stopped key_cap pause_key key_label
  key_capped_call c now run key none ks h e = ground (arith)
  key_capped_call c now run key (some st) ks h e = ground arith

  -- What the run has settled is at a cap: its calls at the call cap, or its spend at the spend
  -- cap in force, to the micro-dollar.
  abbrev pub RunSpent : Policy D → RunState D → Type 0
  RunSpent p st =
      ((0 < p.max_calls_per_run) × (p.max_calls_per_run ≤ st.calls))
      ⊎ ((positive (spend_cap p st) ≡ true) × (reaches st.spend_usd (spend_cap p st) ≡ true))

  -- What the key has settled is at a cap: its total, or today's at the daily cap.
  abbrev pub KeySpent : Policy D → KeyState D → Type 0
  KeySpent p ks =
      ((positive p.max_spend_usd_per_key ≡ true)
        × (reaches ks.life_spend p.max_spend_usd_per_key ≡ true))
      ⊎ ((positive p.max_spend_usd_per_key_day ≡ true)
          × (reaches ks.day_spend p.max_spend_usd_per_key_day ≡ true))

  -- What is settled is not negative, and with the calls in flight it stays within what counts in
  -- micro-dollars.
  abbrev pub IsProjected : D → ℕ → D → ℕ → D → Type 0
  IsProjected floor calls average_over inflight spend =
      AtMost zero_usd spend × AtMost (projected floor calls average_over inflight spend) max_usd

  abbrev pub RunInRange : Policy D → RunState D → Type 0
  RunInRange p st =
      IsProjected p.reserve_usd_per_call st.calls st.spend_usd st.inflight st.spend_usd

  abbrev pub KeyInRange : Policy D → KeyState D → Type 0
  KeyInRange p ks =
      IsProjected p.reserve_usd_per_call ks.life_calls ks.life_spend ks.inflight ks.life_spend
      × IsProjected p.reserve_usd_per_call ks.life_calls ks.life_spend ks.inflight ks.day_spend

  module _ (laws : FloatLaws D) where
    per_call_nonneg :
        (floor : D) (calls : ℕ) (spend : D)
        → AtMost zero_usd floor
        → AtMost zero_usd (per_call floor calls spend)
    unfolding per_call
    per_call_nonneg floor calls spend h =
        ground
          (arith, laws.at_most_less_trans zero_usd floor (f.div spend (f.of_int (pos calls))) h)

    -- What is settled reaches a cap, so what is projected does.
    reaches-projected :
        (floor : D) (calls : ℕ) (average_over : D) (inflight : ℕ) (spend cap : D)
        → AtMost zero_usd floor
        → IsProjected floor calls average_over inflight spend
        → reaches spend cap ≡ true
        → reaches (projected floor calls average_over inflight spend) cap ≡ true
    unfolding projected
    reaches-projected floor calls over inflight spend cap h (low, high) e = ground (
      arith,
      laws.micro_mono spend (f.add spend (f.mul per n)) low
          (laws.add_grows spend (f.mul per n) (
            laws.mul_nonneg per n (per_call_nonneg floor calls over h)
              (laws.of_int_nonneg inflight)))
          high,
    )
      where
        per : D
        per = per_call floor calls over

        n : D
        n = f.of_int (pos inflight)

    RunSpent-RunCapMet :
        (p : Policy D) (st : RunState D)
        → AtMost zero_usd p.reserve_usd_per_call
        → RunInRange p st
        → RunSpent p st
        → RunCapMet p st
    RunSpent-RunCapMet p st h range (inl e) = inl (ground arith)
    RunSpent-RunCapMet p st h range (inr e) = inr (
        ground (
          arith,
          reaches-projected p.reserve_usd_per_call st.calls st.spend_usd st.inflight st.spend_usd
              (spend_cap p st) h range e.1,
        ))

    seen_capped :
        (p : Policy D) (now : ℕ) (st : RunState D)
        → AtMost zero_usd p.reserve_usd_per_call
        → RunInRange p st
        → RunSpent p st
        → RunCapMet p (record st { last_seen = now })
    unfolding spend_cap
    seen_capped p now st floor range spent =
        RunSpent-RunCapMet p (record st { last_seen = now }) floor range spent

    -- Outside shadow mode, a call of a run whose settled calls or spend have reached a cap in force
    -- is refused, unless it carries the bypass, whatever its key, if dollars obey the laws of finite
    -- numbers, the reserve for a call is not negative, and the run's spend is not negative and within
    -- nine trillion dollars, its calls in flight reserved.
    pub admit-refuses_spent_run :
        (c : Controller D) (now : ℕ) (run key : Bytes) (st : RunState D)
        → is_empty run ≡ false
        → c.policy.shadow ≡ false
        → AtMost zero_usd c.policy.reserve_usd_per_call
        → lookup run c.runs ≡ some st
        → RunInRange c.policy st
        → RunSpent c.policy st
        → (admit_locked c now run key false).0.0 ≡ false
    admit-refuses_spent_run c now run key st filled shadow floor found range spent = ground (
      arith,
      admit_locked_lem c now run key false,
      entered-policy c now run key,
      run_capped_call (entered c now run key) now run key (record st { last_seen = now })
          (if is_empty key then none else some (key_state c now key)),
      seen_capped c.policy now st floor range spent,
    )

    KeySpent-KeyCapMet :
        (p : Policy D) (ks : KeyState D)
        → AtMost zero_usd p.reserve_usd_per_call
        → KeyInRange p ks
        → KeySpent p ks
        → KeyCapMet p ks
    KeySpent-KeyCapMet p ks h range (inl e) = inl (
        ground (
          arith,
          reaches-projected p.reserve_usd_per_call ks.life_calls ks.life_spend ks.inflight
              ks.life_spend p.max_spend_usd_per_key h range.0 e.1,
        ))
    KeySpent-KeyCapMet p ks h range (inr e) = inr (
        ground (
          arith,
          reaches-projected p.reserve_usd_per_call ks.life_calls ks.life_spend ks.inflight
              ks.day_spend p.max_spend_usd_per_key_day h range.1 e.1,
        ))

    -- Outside shadow mode, a call whose key has settled its total cap, or today its daily cap, is
    -- refused unless it carries the bypass, whatever run it names, a new one included, if dollars
    -- obey the laws of finite numbers, the reserve for a call is not negative, and the key's total
    -- and daily spend are not negative and within nine trillion dollars, its calls in flight
    -- reserved.
    pub admit-refuses_spent_key :
        (c : Controller D) (now : ℕ) (run key : Bytes)
        → is_empty key ≡ false
        → c.policy.shadow ≡ false
        → AtMost zero_usd c.policy.reserve_usd_per_call
        → KeyInRange c.policy (key_state c now key)
        → KeySpent c.policy (key_state c now key)
        → (admit_locked c now run key false).0.0 ≡ false
    admit-refuses_spent_key c now run key filled shadow floor range spent = ground (
      arith,
      admit_locked_lem c now run key false,
      entered-policy c now run key,
      key_capped_call (entered c now run key) now run key
          (if is_empty run then none else some (seen_run c now run)) (key_state c now key),
      KeySpent-KeyCapMet c.policy (key_state c now key) floor range spent,
    )

  -- A call of a run that is let through found the run below the call cap.
  pub admit_below_call_cap :
      (c : Controller D) (now : ℕ) (run key : Bytes)
      → is_empty run ≡ false
      → c.policy.shadow ≡ false
      → 0 < c.policy.max_calls_per_run
      → (admit_locked c now run key false).0.0 ≡ true
      → (run_state c run).calls + (run_state c run).inflight < c.policy.max_calls_per_run
  admit_below_call_cap c now run key filled shadow on served =
      elim (Bool-cases (call_cap_met c.policy (seen_run c now run))) [
        | inl e ↦ ground (
          arith,
          admit_locked_lem c now run key false,
          entered-policy c now run key,
          run_capped_call (entered c now run key) now run key (seen_run c now run)
              (if is_empty key then none else some (key_state c now key))
              (rw (entered-policy c now run key) shadow)
              (rw (entered-policy c now run key) (inl e)),
        )
        | inr e ↦ ground arith
      ]
