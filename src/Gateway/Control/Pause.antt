-- ===== src/Gateway/Control/Pause.antt =====
-- internal/gateway/control.go: the state of a key on its day, the caps in force, and the marking
-- of a run or a key as paused.
--
-- Each operation reads the clock once here; the source reads it up to three times inside one
-- critical section.
use axigate_finops.Prelude.{
  ℕ, Bool, true, false, ◌&&◌, ◌||◌, [], ◌∷◌, ◌++◌, Bytes, lookup, insert, Float, zero_usd, positive,
  ltb, if◌then◌else◌,
}
use axigate_finops.Gateway.Control.State.{
  Policy, RunState, KeyState, StopEvent, Controller, day_of, or_fresh_run, or_fresh_key, reaches,
  projected, key_cap_reason, key_day_reason,
}

module _ {D : Type 0} ⦃f : Float D⦄ where
  -- `spendCapLocked`: the strictest of the policy's cap and the caller's.
  unfoldable pub spend_cap : Policy D → RunState D → D
  spend_cap p st =
      let cap = p.max_spend_usd_per_run in
      if positive st.max_spend_usd && (f.equal cap zero_usd || f.less st.max_spend_usd cap)
      then st.max_spend_usd
      else cap

  -- `keyLocked` on one key: a day that has passed clears the daily tally, and with it a pause that
  -- the daily cap made. The day only moves forward.
  unfoldable pub roll_day : ℕ → KeyState D → KeyState D
  roll_day now ks =
      if ltb ks.day (day_of now)
      then record ks {
        day = day_of now;
        day_calls = 0;
        day_spend = zero_usd;
        inflight = 0;
        paused = if ks.day_pause then false else ks.paused;
        reason = if ks.day_pause then [] else ks.reason;
        day_pause = false;
      }
      else ks

  unfoldable pub key_state : Controller D → ℕ → Bytes → KeyState D
  unfolding roll_day
  key_state c now key = record (roll_day now (or_fresh_key now (lookup key c.keys))) {
    last_seen = now;
  }

  abbrev pub put_key : Controller D → Bytes → KeyState D → Controller D
  put_key c key ks = record c { keys = insert key ks c.keys }

  abbrev pub put_run : Controller D → Bytes → RunState D → Controller D
  put_run c run st = record c { runs = insert run st c.runs }

  -- `keyLocked`
  abbrev pub key_locked : Controller D → ℕ → Bytes → Controller D
  key_locked c now key = put_key c key (key_state c now key)

  -- The run's state, made if the run is new.
  abbrev pub run_state : Controller D → Bytes → RunState D
  run_state c run = or_fresh_run (lookup run c.runs)

  abbrev pub alerting : Controller D → Bool
  alerting c = c.on_pause || c.on_pause_sync

  -- The alert that a key's stop queues: today's figures when the daily cap made it.
  abbrev pub key_stop : Policy D → ℕ → Bytes → KeyState D → Bytes → Bool → StopEvent D
  key_stop p now key ks reason day_pause = record {
    run = [];
    key = key;
    agent = ks.agent;
    team = ks.team;
    model = ks.model;
    reason = reason;
    calls = if day_pause then ks.day_calls else ks.life_calls;
    spend_usd = if day_pause then ks.day_spend else ks.life_spend;
    at = now;
    shadow = p.shadow;
    day_pause = day_pause;
  }

  abbrev pub run_stop : Policy D → ℕ → Bytes → RunState D → Bytes → StopEvent D
  run_stop p now run st reason = record {
    run = run;
    key = [];
    agent = st.agent;
    team = st.team;
    model = st.model;
    reason = reason;
    calls = st.calls;
    spend_usd = st.spend_usd;
    at = now;
    shadow = p.shadow;
    day_pause = false;
  }

  -- `pauseKeyLocked`
  unfoldable pub pause_key : Controller D → ℕ → Bytes → KeyState D → Bytes → Bool → Controller D
  pause_key c now key ks reason day_pause = record c {
    keys = insert key (record ks { paused = true; reason = reason; day_pause = day_pause }) c.keys;
    pending =
        if alerting c
        then c.pending ++ key_stop c.policy now key ks reason day_pause ∷ []
        else c.pending;
  }

  -- `pauseLocked`
  unfoldable pub pause_run : Controller D → ℕ → Bytes → RunState D → Bytes → Controller D
  pause_run c now run st reason = record c {
    runs = insert run (record st { paused = true; reason = reason }) c.runs;
    pending =
        if alerting c then c.pending ++ run_stop c.policy now run st reason ∷ [] else c.pending;
  }

  -- The two tests of `keyCapLocked`, with the calls in flight reserved at the key's average.
  abbrev pub key_total_met : Policy D → KeyState D → Bool
  key_total_met p ks =
      positive p.max_spend_usd_per_key
      && reaches
          (projected p.reserve_usd_per_call ks.life_calls ks.life_spend ks.inflight ks.life_spend)
          p.max_spend_usd_per_key

  abbrev pub key_day_met : Policy D → KeyState D → Bool
  key_day_met p ks =
      positive p.max_spend_usd_per_key_day
      && reaches
          (projected p.reserve_usd_per_call ks.life_calls ks.life_spend ks.inflight ks.day_spend)
          p.max_spend_usd_per_key_day

  -- `keyCapLocked`: the reason is empty when no cap is met. The total cap is tested first.
  unfoldable pub key_cap : Controller D → ℕ → Bytes → KeyState D → Bytes × Controller D
  key_cap c now key ks =
      let total = key_cap_reason key c.policy.max_spend_usd_per_key in
      let daily = key_day_reason key c.policy.max_spend_usd_per_key_day in
      if key_total_met c.policy ks
      then (total, pause_key c now key ks total false)
      else if key_day_met c.policy ks
      then (daily, pause_key c now key ks daily true)
      else ([], c)
