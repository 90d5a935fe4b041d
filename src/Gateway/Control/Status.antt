-- ===== src/Gateway/Control/Status.antt =====
-- internal/gateway/control.go: `status`, the snapshot for the admin endpoint, and `shadowNote`.
use axigate_finops.Prelude.{
  ℕ, Bool, not, ◌&&◌, List, [], ◌∷◌, Bytes, str, Dict, ltb, if◌then◌else◌, length, sort_by,
}
use axigate_finops.Gateway.Control.State.{Policy, RunState, KeyState, Controller, day_of}
use axigate_finops.Gateway.Store.Records.{bytes_less}

pub record PausedRun (D : Type 0) : Type 0 where
  pub run : Bytes
  pub reason : Bytes
  pub calls : ℕ
  pub spend_usd : D

pub record PausedKey (D : Type 0) : Type 0 where
  pub key : Bytes
  pub reason : Bytes
  pub calls_today : ℕ
  pub spend_usd_today : D
  pub total_usd : D

pub record PolicyReport (D : Type 0) : Type 0 where
  pub max_calls_per_run : ℕ
  pub max_spend_usd_per_run : D
  pub reserve_usd_per_call : D
  pub pause_on_suspected_loop : Bool
  pub max_spend_usd_per_key_day : D
  pub max_spend_usd_per_key : D
  pub shadow : Bool

-- `Status`, less what only a shared store adds.
pub record Status (D : Type 0) : Type 0 where
  pub killed : Bool
  pub note : Bytes
  pub paused_runs : List (PausedRun D)
  pub paused_keys : List (PausedKey D)
  pub runs : ℕ
  pub policy : PolicyReport D

module _ {D : Type 0} where
  abbrev pub policy_report : Policy D → PolicyReport D
  policy_report p = record {
    max_calls_per_run = p.max_calls_per_run;
    max_spend_usd_per_run = p.max_spend_usd_per_run;
    reserve_usd_per_call = p.reserve_usd_per_call;
    pause_on_suspected_loop = p.pause_on_suspected_loop;
    max_spend_usd_per_key_day = p.max_spend_usd_per_key_day;
    max_spend_usd_per_key = p.max_spend_usd_per_key;
    shadow = p.shadow;
  }

  -- `shadowNote`
  unfoldable pub shadow_note : Policy D → Bool → Bytes
  shadow_note p killed =
      if not p.shadow
      then []
      else if killed
      then str
          "shadow mode: paused_runs and paused_keys are marked, not refused; the kill switch is engaged, so every call is refused until it is cleared"
      else str
          "shadow mode: paused_runs and paused_keys are marked, not refused; every call is served"

  abbrev run_before : PausedRun D → PausedRun D → Bool
  run_before p q = bytes_less p.run q.run

  abbrev key_before : PausedKey D → PausedKey D → Bool
  key_before p q = bytes_less p.key q.key

  -- `sortPaused`, and the same for keys.
  unfoldable pub sort_paused : List (PausedRun D) → List (PausedRun D)
  sort_paused ps = sort_by run_before ps

  unfoldable pub sort_paused_keys : List (PausedKey D) → List (PausedKey D)
  sort_paused_keys ps = sort_by key_before ps

  unfoldable pub paused_runs_of : Dict (RunState D) → List (PausedRun D)
  paused_runs_of [] = []
  paused_runs_of ((run, st) ∷ m) =
      let rest = paused_runs_of m in
      if st.paused
      then record { run = run; reason = st.reason; calls = st.calls; spend_usd = st.spend_usd }
        ∷ rest
      else rest

  -- A daily pause from an earlier day is over.
  unfoldable pub paused_keys_of : ℕ → Dict (KeyState D) → List (PausedKey D)
  paused_keys_of now [] = []
  paused_keys_of now ((key, ks) ∷ m) =
      let rest = paused_keys_of now m in
      if ks.paused && not (ks.day_pause && ltb ks.day (day_of now))
      then record {
        key = key;
        reason = ks.reason;
        calls_today = ks.day_calls;
        spend_usd_today = ks.day_spend;
        total_usd = ks.life_spend;
      }
        ∷ rest
      else rest

  -- `status`
  unfoldable pub status : Controller D → ℕ → Status D
  status c now = record {
    killed = c.killed;
    note = shadow_note c.policy c.killed;
    paused_runs = sort_paused (paused_runs_of c.runs);
    paused_keys = sort_paused_keys (paused_keys_of now c.keys);
    runs = length c.runs;
    policy = policy_report c.policy;
  }
