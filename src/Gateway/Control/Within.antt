-- ===== src/Gateway/Control/Within.antt =====
-- internal/gateway/control.go: every operation keeps each run's counted calls within a bound, if
-- what is settled was in flight.
use axigate_finops.Prelude.{
  ℕ, ◌+◌, ◌-◌, ◌≤◌, ◌<◌, ◌≡◌, refl, ◌⊎◌, inl, inr, true, false, ◌&&◌, some, none, Option, Bytes,
  is_empty, Float, arith, Bool-cases, if_both, if◌then◌else◌, Bool, Dict, IsDict, lookup, insert,
  lookup-insert, insert-IsDict, beq, not, positive, leb, ltb, ◌||◌,
}
use native.Mathlib.Nat.{le_refl}
use axigate_finops.Gateway.Control.State.{
  RunState, Controller, or_fresh_run, call_cap_reason, spend_cap_reason, loop_reason, reaches,
}
use axigate_finops.Gateway.Control.Evict.{evict, evict_keys, run_paused, run_seen}
use axigate_finops.Gateway.Control.Bound.{evict_map-Kept, evict_map-IsDict}
use axigate_finops.Gateway.Control.Pause.{pause_run, pause_key, run_state, put_run, spend_cap}
use axigate_finops.Gateway.Control.Settle.{
  record_locked, record_key, record_run, release_keyed, tally_run, run_settled_caps, release_key,
  release_run,
}
use axigate_finops.Gateway.Control.Operator.{
  note_run, resume_run, resumed_run, resume_found_run, mark_paused, set_run_cap,
}

module _ {D : Type 0} ⦃f : Float D⦄ where
  -- The calls that count against a run's call cap: settled and in flight.
  abbrev pub counted : RunState D → ℕ
  counted st = st.calls + st.inflight

  -- No run has more calls counted than `bound`.
  abbrev pub Within : ℕ → Dict (RunState D) → Type 0
  Within bound m = IsDict m × ((r : Bytes) → counted (or_fresh_run (lookup r m)) ≤ bound)

  Within-insert :
      (bound : ℕ) (m : Dict (RunState D)) (run : Bytes) (st : RunState D)
      → Within bound m
      → counted st ≤ bound
      → Within bound (insert run st m)
  Within-insert bound m run st w h = (
    insert-IsDict run st m w.0,
    λ r.
        rw (lookup-insert r run st m)
          (elim (Bool-cases (beq run r)) [ inl e ↦ rw e h | inr e ↦ rw e (w.1 r) ]),
  )

  Within-evict : (bound : ℕ) (c : Controller D) → Within bound c.runs → Within bound (evict c).runs
  unfolding evict
  Within-evict bound c w = (
    evict_map-IsDict run_paused run_seen c.policy.max_runs c.runs w.0,
    λ r. elim (evict_map-Kept run_paused run_seen r c.policy.max_runs c.runs w.0) [
      | inl e ↦ rw e (w.1 r)
      | inr e ↦ rw e (omega arith)
    ],
  )

  record_key-runs :
      (c : Controller D) (now : ℕ) (key : Bytes) (cost : D)
      → (record_key c now key cost).runs ≡ c.runs
  unfolding record_key pause_key evict_keys
  record_key-runs c now key cost = ground arith

  settled_cases :
      (P : Controller D → Type 0) (c : Controller D) (now : ℕ) (run : Bytes) (st : RunState D)
      (loop : Bool)
      → P c
      → ((reason : Bytes) → P (pause_run c now run st reason))
      → P (run_settled_caps c now run st loop)
  settled_cases P c now run st loop w stop =
      let cap = spend_cap c.policy st in
      if_both P st.paused w (
        if_both P (ltb 0 c.policy.max_calls_per_run && leb c.policy.max_calls_per_run st.calls)
          (stop (call_cap_reason c.policy.max_calls_per_run))
          (if_both P (positive cap && reaches st.spend_usd cap) (stop (spend_cap_reason cap))
            (if_both P (loop && c.policy.pause_on_suspected_loop) (stop loop_reason) w)))

  settled-Within :
      (bound : ℕ) (c : Controller D) (now : ℕ) (run : Bytes) (st : RunState D) (loop : Bool)
      → Within bound c.runs
      → counted st ≤ bound
      → Within bound (run_settled_caps c now run st loop).runs
  unfolding pause_run
  settled-Within bound c now run st loop w h =
      settled_cases (λ c'. Within bound c'.runs) c now run st loop w
        λ reason. Within-insert bound c.runs run (record st { paused = true; reason = reason }) w h

  record_run-Within :
      (bound : ℕ) (c : Controller D) (now : ℕ) (run : Bytes) (cost : D) (loop : Bool)
      → Within bound c.runs
      → 0 < (run_state c run).inflight
      → Within bound (record_run c now run cost loop).runs
  unfolding record_run tally_run
  record_run-Within bound c now run cost loop w h = Within-evict bound _ (
      settled-Within bound _ now run (tally_run now cost (run_state c run)) loop
        (Within-insert bound c.runs run (tally_run now cost (run_state c run)) w
          (omega (arith, w.1 run)))
        (omega (arith, w.1 run)))

  pub record-Within :
      (bound : ℕ) (c : Controller D) (now : ℕ) (run key : Bytes) (cost : D) (loop : Bool)
      → Within bound c.runs
      → (is_empty run ≡ true) ⊎ (0 < (run_state c run).inflight)
      → Within bound (record_locked c now run key cost loop).runs
  unfolding record_locked
  record-Within bound c now run key cost loop w h = elim (Bool-cases (is_empty run)) [
    | inl e ↦ rw e (rw same w)
    | inr e ↦
        rw e (record_run-Within bound first now run cost loop (rw same w) (rw same (flying e h)))
  ]
    where
      first : Controller D
      first = if is_empty key then c else record_key c now key cost

      same : first.runs ≡ c.runs
      same =
          if_both (λ (c' : Controller D). c'.runs ≡ c.runs) (is_empty key) refl
            (record_key-runs c now key cost)

      flying :
          is_empty run ≡ false
          → (is_empty run ≡ true) ⊎ (0 < (run_state c run).inflight)
          → 0 < (run_state c run).inflight
      flying e (inl e') = cc
      flying e (inr p) = p

  release_run-Within :
      (bound : ℕ) (c : Controller D) (run : Bytes) (st : Option (RunState D))
      → lookup run c.runs ≡ st
      → Within bound c.runs
      → Within bound (release_run c run st).runs
  release_run-Within bound c run none e w = w
  release_run-Within bound c run (some st) e w =
      if_both (λ (c' : Controller D). Within bound c'.runs) (ltb 0 st.inflight)
        (Within-insert bound c.runs run (record st { inflight = st.inflight - 1 }) w
          (let here : counted st ≤ bound = rw e at (w.1 run) in omega arith))
        w

  pub release-Within :
      (bound : ℕ) (c : Controller D) (run key : Bytes)
      → Within bound c.runs
      → Within bound (release_keyed c run key).runs
  unfolding release_keyed
  release-Within bound c run key w = elim (Bool-cases (is_empty run)) [
    | inl e ↦ rw e (rw same w)
    | inr e ↦ rw e (release_run-Within bound first run (lookup run first.runs) refl (rw same w))
  ]
    where
      first : Controller D
      first = if is_empty key then c else release_key c key (lookup key c.keys)

      same : first.runs ≡ c.runs
      same = ground arith

  -- A change of one run that leaves its counted calls alone, or clears them.
  put-Within :
      (bound : ℕ) (c : Controller D) (run : Bytes) (st : RunState D)
      → Within bound c.runs
      → counted st ≤ counted (run_state c run)
      → Within bound (put_run c run st).runs
  put-Within bound c run st w h = Within-insert bound c.runs run st w (omega (arith, w.1 run, h))

  pub note_run-Within :
      (bound : ℕ) (c : Controller D) (run agent team model : Bytes)
      → Within bound c.runs
      → Within bound (note_run c run agent team model).runs
  unfolding note_run
  note_run-Within bound c run agent team model w =
      if_both (λ (c' : Controller D). Within bound c'.runs) (is_empty run) w
        (put-Within bound c run _ w (le_refl _))

  pub set_run_cap-Within :
      (bound : ℕ) (c : Controller D) (now : ℕ) (run : Bytes) (cap : D)
      → Within bound c.runs
      → Within bound (set_run_cap c now run cap).runs
  unfolding set_run_cap
  set_run_cap-Within bound c now run cap w =
      if_both (λ (c' : Controller D). Within bound c'.runs) (is_empty run || not (positive cap)) w
        (Within-evict bound _ (put-Within bound c run _ w (le_refl _)))

  pub mark_paused-Within :
      (bound : ℕ) (c : Controller D) (run reason : Bytes)
      → Within bound c.runs
      → Within bound (mark_paused c run reason).runs
  unfolding mark_paused
  mark_paused-Within bound c run reason w = put-Within bound c run _ w (le_refl _)

  resume_found-Within :
      (bound : ℕ) (c : Controller D) (run : Bytes) (st : Option (RunState D))
      → Within bound c.runs
      → Within bound (resume_found_run c run st).1.runs
  unfolding resumed_run
  resume_found-Within bound c run none w = w
  resume_found-Within bound c run (some st) w =
      if_both (λ (o : Bool × Controller D). Within bound o.1.runs) st.paused
        (put-Within bound c run (resumed_run st) w (omega arith)) w

  pub resume_run-Within :
      (bound : ℕ) (c : Controller D) (run : Bytes)
      → Within bound c.runs
      → Within bound (resume_run c run).1.runs
  unfolding resume_run
  resume_run-Within bound c run w = resume_found-Within bound c run (lookup run c.runs) w
