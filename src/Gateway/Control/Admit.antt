-- ===== src/Gateway/Control/Admit.antt =====
-- internal/gateway/control.go: `admitKeyed` and `dispatch`. A call is decided, and counted as in
-- flight, in one critical section.
use axigate_finops.Prelude.{
  ℕ, ◌+◌, Bool, true, false, not, ◌&&◌, ◌||◌, List, [], Option, none, some, Bytes, lookup, is_empty,
  Float, positive, ltb, leb, if◌then◌else◌,
}
use axigate_finops.Gateway.Control.State.{
  Policy, RunState, KeyState, StopEvent, Controller, killed_reason, call_cap_reason,
  spend_cap_reason, reaches, projected,
}
use axigate_finops.Gateway.Control.Evict.{evict_keys}
use axigate_finops.Gateway.Control.Pause.{
  spend_cap, key_locked, run_state, put_run, put_key, pause_run, key_cap,
}

-- What `admitKeyed` answers: whether to forward, and why not (in shadow mode, why not it would be).
abbrev pub Answer : Type 0
Answer = Bool × Bytes

module _ {D : Type 0} ⦃f : Float D⦄ where
  -- The pointers `st` and `ks` of `admitKeyed`, nil when the call has no run or no key.
  abbrev pub run_ptr : Controller D → Bytes → Option (RunState D)
  run_ptr c run = if is_empty run then none else lookup run c.runs

  abbrev pub key_ptr : Controller D → Bytes → Option (KeyState D)
  key_ptr c key = if is_empty key then none else lookup key c.keys

  abbrev pub reserve_run : Controller D → Bytes → Option (RunState D) → Controller D
  reserve_run c run none = c
  reserve_run c run (some st) = put_run c run (record st { inflight = st.inflight + 1 })

  abbrev pub reserve_key : Controller D → Bytes → Option (KeyState D) → Controller D
  reserve_key c key none = c
  reserve_key c key (some ks) =
      evict_keys (put_key c key (record ks { inflight = ks.inflight + 1 }))

  -- The closure `reserve`.
  unfoldable pub reserve : Controller D → Bytes → Bytes → Controller D
  reserve c run key =
      let c' = reserve_run c run (run_ptr c run) in reserve_key c' key (key_ptr c' key)

  -- A call that a pause or a cap stops: served all the same under a bypass, served with the reason
  -- in shadow mode, refused otherwise.
  unfoldable pub stopped : Controller D → Bytes → Bytes → Bool → Bytes → Answer × Controller D
  stopped c run key bypass reason =
      let shadow = c.policy.shadow && not bypass in
      if bypass || shadow
      then ((true, if shadow then reason else []), reserve c run key)
      else ((false, reason), c)

  -- The caps of the run: the call cap, then the spend cap.
  abbrev pub call_cap_met : Policy D → RunState D → Bool
  call_cap_met p st = ltb 0 p.max_calls_per_run && leb p.max_calls_per_run (st.calls + st.inflight)

  abbrev pub spend_cap_met : Policy D → RunState D → Bool
  spend_cap_met p st =
      positive (spend_cap p st)
      && reaches (projected p.reserve_usd_per_call st.calls st.spend_usd st.inflight st.spend_usd)
          (spend_cap p st)

  abbrev pub admit_run :
      Controller D → ℕ → Bytes → Bytes → Bool → Option (RunState D) → Answer × Controller D
  admit_run c now run key bypass none = ((true, []), reserve c run key)
  admit_run c now run key bypass (some st) =
      let calls = call_cap_reason c.policy.max_calls_per_run in
      let spend = spend_cap_reason (spend_cap c.policy st) in
      if bypass
      then ((true, []), reserve c run key)
      else if call_cap_met c.policy st
      then stopped (pause_run c now run st calls) run key bypass calls
      else if spend_cap_met c.policy st
      then stopped (pause_run c now run st spend) run key bypass spend
      else ((true, []), reserve c run key)

  abbrev pub after_key_cap :
      ℕ → Bytes → Bytes → Bool → Option (RunState D) → Bytes × Controller D → Answer × Controller D
  after_key_cap now run key bypass st (reason, c) =
      if is_empty reason then admit_run c now run key bypass st else stopped c run key bypass reason

  abbrev pub admit_key :
      Controller D
      → ℕ
      → Bytes
      → Bytes
      → Bool
      → Option (RunState D)
      → Option (KeyState D)
      → Answer × Controller D
  admit_key c now run key bypass st none = admit_run c now run key bypass st
  admit_key c now run key bypass st (some ks) =
      if bypass
      then admit_run c now run key bypass st
      else after_key_cap now run key bypass st (key_cap c now key ks)

  abbrev pub key_pause :
      Controller D
      → ℕ
      → Bytes
      → Bytes
      → Bool
      → Option (RunState D)
      → Option (KeyState D)
      → Answer × Controller D
  key_pause c now run key bypass st none = admit_key c now run key bypass st none
  key_pause c now run key bypass st (some ks) =
      if ks.paused
      then stopped c run key bypass ks.reason
      else admit_key c now run key bypass st (some ks)

  abbrev pub run_pause :
      Controller D
      → ℕ
      → Bytes
      → Bytes
      → Bool
      → Option (RunState D)
      → Option (KeyState D)
      → Answer × Controller D
  run_pause c now run key bypass none ks = key_pause c now run key bypass none ks
  run_pause c now run key bypass (some st) ks =
      if st.paused
      then stopped c run key bypass st.reason
      else key_pause c now run key bypass (some st) ks

  -- The states that the call finds: the key's, rolled to today, and the run's, made if it is new
  -- and marked as seen.
  unfoldable pub enter_key : Controller D → ℕ → Bytes → Controller D
  enter_key c now key = if is_empty key then c else key_locked c now key

  unfoldable pub enter_run : Controller D → ℕ → Bytes → Controller D
  enter_run c now run =
      if is_empty run then c else put_run c run (record (run_state c run) { last_seen = now })

  -- `admitKeyed` under the lock.
  unfoldable pub admit_locked : Controller D → ℕ → Bytes → Bytes → Bool → Answer × Controller D
  admit_locked c now run key bypass =
      let c' = enter_run (enter_key c now key) now run in
      if c.killed
      then ((false, killed_reason), c)
      else if is_empty run && is_empty key
      then ((true, []), c)
      else run_pause c' now run key bypass (run_ptr c' run) (key_ptr c' key)

  -- `dispatch`: the events handed to the synchronous hook and to the alert, and what stays queued.
  unfoldable pub dispatch : Controller D → List (StopEvent D) × List (StopEvent D) × Controller D
  dispatch c = (
    if c.on_pause_sync then c.pending else [],
    if c.on_pause then c.pending else [],
    record c { pending = [] },
  )

  -- `admitKeyed`: the decision, then what was queued is handed out.
  unfoldable pub admit_keyed :
      Controller D
      → ℕ
      → Bytes
      → Bytes
      → Bool
      → Answer × List (StopEvent D) × List (StopEvent D) × Controller D
  admit_keyed c now run key bypass =
      let (answer, c') = admit_locked c now run key bypass in
      let (sync, async, c'') = dispatch c' in (answer, sync, async, c'')

  -- `admit`
  unfoldable pub admit :
      Controller D
      → ℕ
      → Bytes
      → Bool
      → Answer × List (StopEvent D) × List (StopEvent D) × Controller D
  admit c now run bypass = admit_keyed c now run [] bypass
