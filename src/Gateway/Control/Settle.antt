-- ===== src/Gateway/Control/Settle.antt =====
-- internal/gateway/control.go: `recordKeyed` and `releaseKeyed`, by which an admitted call is
-- settled.
use axigate_finops.Prelude.{
  ℕ, ◌+◌, ◌-◌, Bool, true, false, ◌&&◌, List, [], Option, none, some, Bytes, lookup, insert,
  is_empty, Float, positive, ltb, leb, if◌then◌else◌,
}
use axigate_finops.Gateway.Control.State.{
  RunState, KeyState, StopEvent, Controller, loop_reason, call_cap_reason, spend_cap_reason,
  key_cap_reason, key_day_reason, reaches,
}
use axigate_finops.Gateway.Control.Evict.{evict, evict_keys}
use axigate_finops.Gateway.Control.Pause.{
  spend_cap, key_state, run_state, put_run, put_key, pause_run, pause_key,
}
use axigate_finops.Gateway.Control.Admit.{dispatch}

module _ {D : Type 0} ⦃f : Float D⦄ where
  -- A call in flight of the key has finished at a cost.
  unfoldable pub tally_key : D → KeyState D → KeyState D
  tally_key cost ks = record ks {
    inflight = ks.inflight - 1;
    day_calls = ks.day_calls + 1;
    life_calls = ks.life_calls + 1;
    day_spend = f.add ks.day_spend cost;
    life_spend = f.add ks.life_spend cost;
  }

  -- Settled spend only: reservations are admit's business.
  abbrev pub key_settled_caps : Controller D → ℕ → Bytes → KeyState D → Controller D
  key_settled_caps c now key ks =
      let total = c.policy.max_spend_usd_per_key in
      let daily = c.policy.max_spend_usd_per_key_day in
      if ks.paused
      then c
      else if positive total && reaches ks.life_spend total
      then pause_key c now key ks (key_cap_reason key total) false
      else if positive daily && reaches ks.day_spend daily
      then pause_key c now key ks (key_day_reason key daily) true
      else c

  unfoldable pub record_key : Controller D → ℕ → Bytes → D → Controller D
  record_key c now key cost =
      let ks = tally_key cost (key_state c now key) in
      evict_keys (key_settled_caps (put_key c key ks) now key ks)

  unfoldable pub tally_run : ℕ → D → RunState D → RunState D
  tally_run now cost st = record st {
    inflight = st.inflight - 1;
    calls = st.calls + 1;
    spend_usd = f.add st.spend_usd cost;
    last_seen = now;
  }

  abbrev pub run_settled_caps : Controller D → ℕ → Bytes → RunState D → Bool → Controller D
  run_settled_caps c now run st suspected_loop =
      let cap = spend_cap c.policy st in
      if st.paused
      then c
      else if ltb 0 c.policy.max_calls_per_run && leb c.policy.max_calls_per_run st.calls
      then pause_run c now run st (call_cap_reason c.policy.max_calls_per_run)
      else if positive cap && reaches st.spend_usd cap
      then pause_run c now run st (spend_cap_reason cap)
      else if suspected_loop && c.policy.pause_on_suspected_loop
      then pause_run c now run st loop_reason
      else c

  unfoldable pub record_run : Controller D → ℕ → Bytes → D → Bool → Controller D
  record_run c now run cost suspected_loop =
      let st = tally_run now cost (run_state c run) in
      evict (run_settled_caps (put_run c run st) now run st suspected_loop)

  -- `recordKeyed` under the lock.
  unfoldable pub record_locked : Controller D → ℕ → Bytes → Bytes → D → Bool → Controller D
  record_locked c now run key cost suspected_loop =
      let c' = if is_empty key then c else record_key c now key cost in
      if is_empty run then c' else record_run c' now run cost suspected_loop

  -- `recordKeyed`
  unfoldable pub record_keyed :
      Controller D
      → ℕ
      → Bytes
      → Bytes
      → D
      → Bool
      → List (StopEvent D) × List (StopEvent D) × Controller D
  record_keyed c now run key cost suspected_loop =
      if is_empty run && is_empty key
      then ([], [], c)
      else dispatch (record_locked c now run key cost suspected_loop)

module _ {D : Type 0} where
  abbrev pub release_key : Controller D → Bytes → Option (KeyState D) → Controller D
  release_key c key none = c
  release_key c key (some ks) =
      if ltb 0 ks.inflight
      then record c { keys = insert key (record ks { inflight = ks.inflight - 1 }) c.keys }
      else c

  abbrev pub release_run : Controller D → Bytes → Option (RunState D) → Controller D
  release_run c run none = c
  release_run c run (some st) =
      if ltb 0 st.inflight
      then record c { runs = insert run (record st { inflight = st.inflight - 1 }) c.runs }
      else c

  -- `releaseKeyed`
  unfoldable pub release_keyed : Controller D → Bytes → Bytes → Controller D
  release_keyed c run key =
      let c' = if is_empty key then c else release_key c key (lookup key c.keys) in
      if is_empty run then c' else release_run c' run (lookup run c'.runs)
