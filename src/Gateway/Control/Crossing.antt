-- ===== src/Gateway/Control/Crossing.antt =====
-- internal/gateway/control.go: `recordKeyed` on the run whose settlement crosses a cap, its alert,
-- and what the bound on the tracked runs does to it.
use axigate_finops.Prelude.{
  ℕ, ◌≤◌, ◌<◌, ◌≡◌, refl, ◌⊎◌, inr, true, false, ◌&&◌, ◌||◌, [], ◌∷◌, ◌++◌, some, Bytes, Float,
  arith, if◌then◌else◌, Bool, IsDict, lookup, insert, insert-IsDict, lookup-insert_self, positive,
  ltb, leb, count_if,
}
use axigate_finops.Gateway.Control.State.{
  Policy, RunState, Controller, fresh_run, reaches, call_cap_reason, spend_cap_reason, loop_reason,
}
use axigate_finops.Gateway.Control.Evict.{evict, run_paused, run_seen}
use axigate_finops.Gateway.Control.Bound.{evict_map_paused, evict_map_full, count-lt-length}
use axigate_finops.Gateway.Control.Pause.{
  run_state, spend_cap, pause_run, put_run, alerting, run_stop,
}
use axigate_finops.Gateway.Control.Settle.{record_run, tally_run, run_settled_caps}

below : {a b c : ℕ} → a ≤ b → b < c → a < c
below h k = omega arith

module _ {D : Type 0} ⦃f : Float D⦄ where
  -- The run after its settlement, before any pause.
  abbrev pub settled : Controller D → ℕ → Bytes → D → RunState D
  settled c now run cost = tally_run now cost (run_state c run)

  -- The settled run is at its call cap, at its spend cap, or looping under a policy that stops that.
  abbrev pub crosses : Policy D → RunState D → Bool → Bool
  crosses p st loop =
      (ltb 0 p.max_calls_per_run && leb p.max_calls_per_run st.calls)
      || (positive (spend_cap p st) && reaches st.spend_usd (spend_cap p st))
      || (loop && p.pause_on_suspected_loop)

  -- The first of the three that holds gives the reason.
  abbrev pub crossing_reason : Policy D → RunState D → Bytes
  crossing_reason p st =
      if ltb 0 p.max_calls_per_run && leb p.max_calls_per_run st.calls
      then call_cap_reason p.max_calls_per_run
      else if positive (spend_cap p st) && reaches st.spend_usd (spend_cap p st)
      then spend_cap_reason (spend_cap p st)
      else loop_reason

  settled_caps_stop :
      (c : Controller D) (now : ℕ) (run : Bytes) (st : RunState D) (loop : Bool)
      → st.paused ≡ false
      → crosses c.policy st loop ≡ true
      → run_settled_caps c now run st loop ≡ pause_run c now run st (crossing_reason c.policy st)
  settled_caps_stop c now run st loop p q = ground arith

  settled_caps_keep :
      (c : Controller D) (now : ℕ) (run : Bytes) (st : RunState D) (loop : Bool)
      → (st.paused ≡ true) ⊎ (crosses c.policy st loop ≡ false)
      → run_settled_caps c now run st loop ≡ c
  settled_caps_keep c now run st loop h = ground arith

  -- The controller with the settled tallies written.
  abbrev written : Controller D → ℕ → Bytes → D → Controller D
  written c now run cost = put_run c run (settled c now run cost)

  -- A settlement that brings a running run to a cap, or ends in a loop that the policy stops,
  -- pauses the run at once with the first reason that holds, keeps its tallies through the eviction
  -- that follows, and queues one alert if any is wanted.
  pub record_run-stops :
      (c : Controller D) (now : ℕ) (run : Bytes) (cost : D) (loop : Bool)
      → IsDict c.runs
      → (settled c now run cost).paused ≡ false
      → crosses c.policy (settled c now run cost) loop ≡ true
      → let st = settled c now run cost in
        let c' = record_run c now run cost loop in
        (lookup run c'.runs
          ≡ some (record st { paused = true; reason = crossing_reason c.policy st }))
        × (c'.pending ≡ (
            if alerting c
            then c.pending ++ run_stop c.policy now run st (crossing_reason c.policy st) ∷ []
            else c.pending))
  unfolding record_run evict pause_run
  record_run-stops c now run cost loop d p q =
      let st = settled c now run cost in
      let st' : RunState D = record st { paused = true; reason = crossing_reason c.policy st } in
      let m = insert run st c.runs in
      rw (settled_caps_stop (written c now run cost) now run st loop p q) (
        evict_map_paused run_paused run_seen run st' c.policy.max_runs (insert run st' m)
            (insert-IsDict run st' m (insert-IsDict run st c.runs d)) (lookup-insert_self run st' m)
            refl,
        refl,
      )

  -- With as many paused runs as the bound allows, a settlement that does not stop its run leaves
  -- the run untracked: its tallies are dropped, so that its caps start again from nothing at the
  -- next call.
  pub record_run-forgets :
      (c : Controller D) (now : ℕ) (run : Bytes) (cost : D) (loop : Bool)
      → IsDict c.runs
      → (settled c now run cost).paused ≡ false
      → crosses c.policy (settled c now run cost) loop ≡ false
      → c.policy.max_runs
        ≤ count_if
            (λ (e : Bytes × RunState D). run_paused e.1)
            (insert run (settled c now run cost) c.runs)
      → run_state (record_run c now run cost loop) run ≡ fresh_run
  unfolding record_run evict
  record_run-forgets c now run cost loop d p q full =
      let st = settled c now run cost in
      let m = insert run st c.runs in
      rw (
        settled_caps_keep (written c now run cost) now run st loop (inr q),
        evict_map_full run_paused run_seen run st c.policy.max_runs m
            (insert-IsDict run st c.runs d) (lookup-insert_self run st c.runs) p full
            (below full
              (count-lt-length run_paused run_seen run st m (lookup-insert_self run st c.runs) p)),
      )
