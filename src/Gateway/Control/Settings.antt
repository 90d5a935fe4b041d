-- ===== src/Gateway/Control/Settings.antt =====
-- internal/gateway/control.go: no operation of the controller changes its policy.
use axigate_finops.Prelude.{
  ℕ, ◌≡◌, none, some, Option, Bytes, is_empty, Float, arith, Bool, if◌then◌else◌,
}
use axigate_finops.Gateway.Control.State.{
  RunState, KeyState, Controller, call_cap_reason, spend_cap_reason,
}
use axigate_finops.Gateway.Control.Evict.{evict, evict_keys}
use axigate_finops.Gateway.Control.Pause.{key_cap, pause_key, pause_run, key_state, spend_cap}
use axigate_finops.Gateway.Control.Admit.{
  stopped, reserve, admit_locked, admit_run, run_pause, key_pause,
}
use axigate_finops.Gateway.Control.Entry.{entered, entered-policy, seen_run, admit_locked_lem}
use axigate_finops.Gateway.Control.Settle.{record_locked, record_key, record_run, release_keyed}
use axigate_finops.Gateway.Control.Operator.{
  note_run, note_key, set_run_cap, resume_run, resume_key,
}

module _ {D : Type 0} ⦃f : Float D⦄ where
  reserve-policy : (c : Controller D) (run key : Bytes) → (reserve c run key).policy ≡ c.policy
  unfolding reserve evict_keys
  reserve-policy c run key = ground arith

  stopped-policy :
      (c : Controller D) (run key : Bytes) (bypass : Bool) (reason : Bytes)
      → (stopped c run key bypass reason).1.policy ≡ c.policy
  unfolding stopped
  stopped-policy c run key bypass reason = ground (arith, reserve-policy c run key)

  paused-policy :
      (c : Controller D) (now : ℕ) (run key : Bytes) (bypass : Bool) (st : RunState D)
      (reason : Bytes)
      → (stopped (pause_run c now run st reason) run key bypass reason).1.policy ≡ c.policy
  unfolding pause_run
  paused-policy c now run key bypass st reason = stopped-policy _ run key bypass reason

  admit_run-policy :
      (c : Controller D) (now : ℕ) (run key : Bytes) (bypass : Bool) (st : Option (RunState D))
      → (admit_run c now run key bypass st).1.policy ≡ c.policy
  admit_run-policy c now run key bypass none = reserve-policy c run key
  admit_run-policy c now run key bypass (some st) = ground (
    arith,
    reserve-policy c run key,
    paused-policy c now run key bypass st (call_cap_reason c.policy.max_calls_per_run),
    paused-policy c now run key bypass st (spend_cap_reason (spend_cap c.policy st)),
  )

  key_cap-policy :
      (c : Controller D) (now : ℕ) (key : Bytes) (ks : KeyState D)
      → (key_cap c now key ks).1.policy ≡ c.policy
  unfolding key_cap pause_key
  key_cap-policy c now key ks = ground arith

  key_pause-policy :
      (c : Controller D) (now : ℕ) (run key : Bytes) (bypass : Bool) (st : Option (RunState D))
      (ks : Option (KeyState D))
      → (key_pause c now run key bypass st ks).1.policy ≡ c.policy
  key_pause-policy c now run key bypass st none = admit_run-policy c now run key bypass st
  key_pause-policy c now run key bypass st (some ks) =
      let (reason, c') = key_cap c now key ks in
      ground (
        arith,
        stopped-policy c run key bypass ks.reason,
        admit_run-policy c now run key bypass st,
        key_cap-policy c now key ks,
        stopped-policy c' run key bypass reason,
        admit_run-policy c' now run key bypass st,
      )

  run_pause-policy :
      (c : Controller D) (now : ℕ) (run key : Bytes) (bypass : Bool) (st : Option (RunState D))
      (ks : Option (KeyState D))
      → (run_pause c now run key bypass st ks).1.policy ≡ c.policy
  run_pause-policy c now run key bypass none ks = key_pause-policy c now run key bypass none ks
  run_pause-policy c now run key bypass (some st) ks = ground (
    arith,
    stopped-policy c run key bypass st.reason,
    key_pause-policy c now run key bypass (some st) ks,
  )

  pub admit-policy :
      (c : Controller D) (now : ℕ) (run key : Bytes) (bypass : Bool)
      → (admit_locked c now run key bypass).1.policy ≡ c.policy
  admit-policy c now run key bypass = ground (
    arith,
    admit_locked_lem c now run key bypass,
    entered-policy c now run key,
    run_pause-policy (entered c now run key) now run key bypass
        (if is_empty run then none else some (seen_run c now run))
        (if is_empty key then none else some (key_state c now key)),
  )

  record_key-policy :
      (c : Controller D) (now : ℕ) (key : Bytes) (cost : D)
      → (record_key c now key cost).policy ≡ c.policy
  unfolding record_key pause_key evict_keys
  record_key-policy c now key cost = ground arith

  record_run-policy :
      (c : Controller D) (now : ℕ) (run : Bytes) (cost : D) (loop : Bool)
      → (record_run c now run cost loop).policy ≡ c.policy
  unfolding record_run pause_run evict
  record_run-policy c now run cost loop = ground arith

  pub record-policy :
      (c : Controller D) (now : ℕ) (run key : Bytes) (cost : D) (loop : Bool)
      → (record_locked c now run key cost loop).policy ≡ c.policy
  unfolding record_locked
  record-policy c now run key cost loop = ground (
    arith,
    record_key-policy c now key cost,
    record_run-policy c now run cost loop,
    record_run-policy (record_key c now key cost) now run cost loop,
  )

  pub release-policy :
      (c : Controller D) (run key : Bytes) → (release_keyed c run key).policy ≡ c.policy
  unfolding release_keyed
  release-policy c run key = ground arith

  pub note_run-policy :
      (c : Controller D) (run agent team model : Bytes)
      → (note_run c run agent team model).policy ≡ c.policy
  unfolding note_run
  note_run-policy c run agent team model = ground arith

  pub note_key-policy :
      (c : Controller D) (now : ℕ) (key agent team model : Bytes)
      → (note_key c now key agent team model).policy ≡ c.policy
  unfolding note_key evict_keys
  note_key-policy c now key agent team model = ground arith

  pub set_run_cap-policy :
      (c : Controller D) (now : ℕ) (run : Bytes) (cap : D)
      → (set_run_cap c now run cap).policy ≡ c.policy
  unfolding set_run_cap evict
  set_run_cap-policy c now run cap = ground arith

  pub resume_run-policy : (c : Controller D) (run : Bytes) → (resume_run c run).1.policy ≡ c.policy
  unfolding resume_run
  resume_run-policy c run = ground arith

  pub resume_key-policy : (c : Controller D) (key : Bytes) → (resume_key c key).1.policy ≡ c.policy
  unfolding resume_key
  resume_key-policy c key = ground arith
