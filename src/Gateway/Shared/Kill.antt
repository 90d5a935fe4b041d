-- ===== src/Gateway/Shared/Kill.antt =====
-- internal/gateway/counter_redis.go: `setKilled` and the admissions behind it.
use axigate_finops.Prelude.{
  ℕ, ◌+◌, ◌≡◌, refl, sym, subst, ◌∙◌, Bool, true, false, not, ◌&&◌, [], ◌∷◌, ◌⊎◌, inl, inr, Bytes,
  Dict, Float, if◌then◌else◌, arith, if_both, if_cases, is_empty,
}
use axigate_finops.Gateway.Resp.Value.{Value}
use axigate_finops.Gateway.Control.State.{Controller, killed_reason, new_controller}
use axigate_finops.Gateway.Control.Admit.{admit_locked, admit_keyed, dispatch}
use axigate_finops.Gateway.Control.Operator.{mark_paused, mark_key_paused, set_killed}
use axigate_finops.Gateway.Store.Records.{bytes_less}
use axigate_finops.Gateway.Shared.Date.{today_text}
use axigate_finops.Gateway.Shared.State.{
  Shared, KeyPauseNote, StoreError, Outcome, answer, failed, Client, Live, with_counter, refusal,
  set_kill,
}
use axigate_finops.Gateway.Shared.Fallback.{
  mark_runs, mark_keys, fresh_fallback, switches, degrade, fail,
}
use axigate_finops.Gateway.Shared.Deliver.{count_refused}
use axigate_finops.Gateway.Shared.Calls.{Placed, here, decide_here, admit_where}
use axigate_finops.Gateway.Shared.Asked.{kill_sent, ask_killed}

module _ {D : Type 0} ⦃f : Float D⦄ where
  mark_runs-killed : (seen : Dict Bytes) (c : Controller D) → (mark_runs seen c).killed ≡ c.killed
  unfolding mark_paused
  mark_runs-killed [] c = refl
  mark_runs-killed ((run, reason) ∷ seen) c = mark_runs-killed seen (mark_paused c run reason)

  mark_keys-killed :
      (now : ℕ) (seen : Dict KeyPauseNote) (c : Controller D)
      → (mark_keys now seen c).killed ≡ c.killed
  unfolding mark_key_paused
  mark_keys-killed now [] c = refl
  mark_keys-killed now ((key, n) ∷ seen) c =
      mark_keys-killed now seen (
        if not (is_empty n.day) && bytes_less n.day (today_text now)
        then c
        else mark_key_paused c now key n.reason (not (is_empty n.day)))
      ∙ if_both (λ (x : Controller D). x.killed ≡ c.killed)
          (not (is_empty n.day) && bytes_less n.day (today_text now)) refl refl

  fresh_fallback-killed :
      (s : Shared D) (now : ℕ) (on gap : Bool) → (fresh_fallback s now on gap).killed ≡ on
  unfolding fresh_fallback set_killed
  fresh_fallback-killed s now on gap =
      let c = set_killed (new_controller s.policy) on in
      let e =
        mark_keys-killed now s.keys_seen (mark_runs s.paused_seen c)
        ∙ mark_runs-killed s.paused_seen c in
      if_both (λ (x : Controller D). x.killed ≡ on) gap e e

  -- The switch is engaged here and in the fallback.
  abbrev Engaged : Shared D → Type 0
  Engaged s = (s.killed ≡ true) × (s.local.killed ≡ true)

  fail-Engaged : (s : Shared D) (now : ℕ) (e : StoreError) → Engaged s → Engaged (fail s now e)
  unfolding fail degrade
  fail-Engaged s now e h = if_both Engaged s.degraded h (
      if_both Engaged (switches e s.fail_streak)
        (if_both Engaged s.degraded h (h.0, fresh_fallback-killed _ now s.killed true ∙ h.0)) h)

  -- A controller whose switch is engaged refuses.
  decide_here-killed :
      (now : ℕ) (s : Shared D) (run key : Bytes) (bypass : Bool)
      → s.local.killed ≡ true
      → (decide_here now s run key bypass).0 ≡ (false, killed_reason, here)
  unfolding decide_here admit_keyed admit_locked dispatch
  decide_here-killed now s run key bypass h = rw h refl

  -- What is asked of the counter while the switch is engaged here, and the store has not taken it
  -- or does not decide.
  Held : Shared D → Type 0
  Held s = Engaged s × ((s.degraded ≡ true) ⊎ (s.kill_dirty ≡ true))

  fail-dirty : (s : Shared D) (now : ℕ) (e : StoreError) → (fail s now e).kill_dirty ≡ s.kill_dirty
  unfolding fail degrade
  fail-dirty s now e =
      if_both (λ (x : Shared D). x.kill_dirty ≡ s.kill_dirty) s.degraded refl
        (if_both (λ (x : Shared D). x.kill_dirty ≡ s.kill_dirty) (switches e s.fail_streak)
          (if_both (λ (x : Shared D). x.kill_dirty ≡ s.kill_dirty) s.degraded refl refl) refl)

  fail-Held :
      (s : Shared D) (now : ℕ) (e : StoreError)
      → Engaged s
      → s.kill_dirty ≡ true
      → Held (fail s now e)
  unfolding Held
  fail-Held s now e h d = (fail-Engaged s now e h, inr (fail-dirty s now e ∙ d))

held-dirty :
    (degraded dirty killed : Bool)
    → (degraded ≡ true) ⊎ (dirty ≡ true)
    → killed ≡ true
    → degraded ≡ false
    → (dirty && killed) ≡ false
    → ⊥
held-dirty degraded dirty killed g k e c = ground arith

module _ {D W : Type 0} ⦃f : Float D⦄ (client : Client W) (now : ℕ) where
  admit_where-Held :
      (l : Live D W) (run key : Bytes) (bypass : Bool)
      → Held l.counter
      → (admit_where client now l run key bypass).0 ≡ (false, killed_reason, here)
  unfolding admit_where Held
  admit_where-Held l run key bypass (h, g) =
      let Refuses : Placed × Live D W → Type 0 = λ x. x.0 ≡ (false, killed_reason, here) in
      if_cases Refuses l.counter.degraded
        (λ e.
          decide_here-killed now (record l.counter { local_decided = l.counter.local_decided + 1 })
            run key bypass h.1)
        (λ e.
          if_cases Refuses (l.counter.kill_dirty && l.counter.killed) (λ c. refl)
            (λ c.
              absurd
                (held-dirty l.counter.degraded l.counter.kill_dirty l.counter.killed g h.0 e c)))

  kill_sent-Held :
      (l : Live D W) (e : StoreError)
      → Engaged l.counter
      → l.counter.kill_dirty ≡ true
      → Held (kill_sent now l (failed e)).counter
  unfolding Held
  kill_sent-Held l e h d =
      if_both (λ (x : Live D W). Held (fail x.counter now e)) (refusal e)
        (fail-Held (count_refused l).counter now e h d) (fail-Held l.counter now e h d)

module _ {D W : Type 0} ⦃f : Float D⦄ (client : Client W) (now : ℕ) where
  kill_answer-refuses :
      (l : Live D W) (x : Outcome × W)
      → client (set_kill true) l.world ≡ x
      → ((v : Value) × (x.0 ≡ answer v))
        ⊎ ((later : ℕ) (run key : Bytes) (bypass : Bool)
            → (admit_where client later (ask_killed client now l true) run key bypass).0
              ≡ (false, killed_reason, here))
  unfolding ask_killed set_killed Held
  kill_answer-refuses l (answer v, w) e = inl (v, refl)
  kill_answer-refuses l (failed err, w) e = inr (λ later run key bypass.
      let s = record l.counter {
        killed = true;
        kill_dirty = true;
        kill_gen = l.counter.kill_gen + 1;
        local = set_killed l.counter.local true;
      } in
      let P : Live D W → Type 0 =
        λ x. (admit_where client later x run key bypass).0 ≡ (false, killed_reason, here) in
      if_cases P l.counter.degraded
        (λ g. admit_where-Held client later (with_counter l s) run key bypass ((refl, refl), inl g))
        (λ g.
          subst (λ (y : Outcome × W). P (kill_sent now (record { counter = s; world = y.1 }) y.0))
            (sym e)
            (admit_where-Held client later
              (kill_sent now (record { counter = s; world = w }) (failed err)) run key bypass
              (kill_sent-Held client now (record { counter = s; world = w }) err (refl, refl)
                refl))))

  -- When the kill switch is engaged, either the store answered the request to set it, or from then
  -- on this gateway refuses every call, tagged or not, bypassed or not, at any later time, for as
  -- long as nothing else happens to the counter.
  pub ask_killed-refuses :
      (l : Live D W)
      → ((v : Value) × ((client (set_kill true) l.world).0 ≡ answer v))
        ⊎ ((later : ℕ) (run key : Bytes) (bypass : Bool)
            → (admit_where client later (ask_killed client now l true) run key bypass).0
              ≡ (false, killed_reason, here))
  ask_killed-refuses l = kill_answer-refuses l (client (set_kill true) l.world) refl
