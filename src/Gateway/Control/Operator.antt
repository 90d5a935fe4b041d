-- ===== src/Gateway/Control/Operator.antt =====
-- internal/gateway/control.go: what an operator, a caller's headers or the shared store ask of the
-- controller, and the snapshot for the admin endpoint.
use axigate_finops.Prelude.{
  ℕ, Bool, true, false, not, ◌||◌, [], Option, none, some, Bytes, lookup, is_empty, Float, zero_usd,
  positive, if◌then◌else◌,
}
use axigate_finops.Gateway.Control.State.{RunState, KeyState, Controller}
use axigate_finops.Gateway.Control.Evict.{evict, evict_keys}
use axigate_finops.Gateway.Control.Pause.{key_state, run_state, put_run, put_key}

-- `if v != "" { dst = v }`
abbrev pub keep_or : Bytes → Bytes → Bytes
keep_or old v = if is_empty v then old else v

module _ {D : Type 0} ⦃f : Float D⦄ where
  -- `noteRun`
  unfoldable pub note_run : Controller D → Bytes → Bytes → Bytes → Bytes → Controller D
  note_run c run agent team model =
      let st = run_state c run in
      if is_empty run
      then c
      else put_run c run (record st {
        agent = keep_or st.agent agent;
        team = keep_or st.team team;
        model = keep_or st.model model;
      })

  -- `noteKey`
  unfoldable pub note_key : Controller D → ℕ → Bytes → Bytes → Bytes → Bytes → Controller D
  note_key c now key agent team model =
      let ks = key_state c now key in
      if is_empty key
      then c
      else evict_keys (
          put_key c key (record ks {
            agent = keep_or ks.agent agent;
            team = keep_or ks.team team;
            model = keep_or ks.model model;
          }))

  -- A key that has been reviewed: a fresh budget for the cap that paused it.
  unfoldable pub resumed_key : KeyState D → KeyState D
  resumed_key ks = record ks {
    life_calls = if ks.day_pause then ks.life_calls else 0;
    life_spend = if ks.day_pause then ks.life_spend else zero_usd;
    paused = false;
    reason = [];
    day_pause = false;
    day_calls = 0;
    day_spend = zero_usd;
    inflight = 0;
  }

  abbrev pub resume_found_key : Controller D → Bytes → Option (KeyState D) → Bool × Controller D
  resume_found_key c key none = (false, c)
  resume_found_key c key (some ks) =
      if ks.paused then (true, put_key c key (resumed_key ks)) else (false, c)

  -- `resumeKey`
  unfoldable pub resume_key : Controller D → Bytes → Bool × Controller D
  resume_key c key = resume_found_key c key (lookup key c.keys)

  -- `markKeyPaused`
  unfoldable pub mark_key_paused : Controller D → ℕ → Bytes → Bytes → Bool → Controller D
  mark_key_paused c now key reason day_pause =
      put_key c key
        (record (key_state c now key) { paused = true; reason = reason; day_pause = day_pause })

  -- `setRunCap`
  unfoldable pub set_run_cap : Controller D → ℕ → Bytes → D → Controller D
  set_run_cap c now run cap =
      if is_empty run || not (positive cap)
      then c
      else evict (put_run c run (record (run_state c run) { max_spend_usd = cap; last_seen = now }))

  -- `markPaused`
  unfoldable pub mark_paused : Controller D → Bytes → Bytes → Controller D
  mark_paused c run reason =
      put_run c run (record (run_state c run) { paused = true; reason = reason })

  unfoldable pub resumed_run : RunState D → RunState D
  resumed_run st = record st {
    paused = false;
    reason = [];
    calls = 0;
    spend_usd = zero_usd;
    inflight = 0;
  }

  abbrev pub resume_found_run : Controller D → Bytes → Option (RunState D) → Bool × Controller D
  resume_found_run c run none = (false, c)
  resume_found_run c run (some st) =
      if st.paused then (true, put_run c run (resumed_run st)) else (false, c)

  -- `resumeRun`
  unfoldable pub resume_run : Controller D → Bytes → Bool × Controller D
  resume_run c run = resume_found_run c run (lookup run c.runs)

-- `setKilled`
unfoldable pub set_killed : {D : Type 0} → Controller D → Bool → Controller D
set_killed c on = record c { killed = on }
