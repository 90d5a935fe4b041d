-- ===== src/Gateway/Control/Resume.antt =====
-- internal/gateway/control.go: what follows a release and a resume.
use axigate_finops.Prelude.{
  ℕ, ◌-◌, ◌≡◌, refl, ◌⊎◌, true, false, ◌&&◌, not, [], some, none, Bytes, is_empty, Float, FloatLaws,
  arith, if◌then◌else◌, Bool, IsDict, lookup, lookup-insert, lookup-insert_self, beq, beq_iff,
  positive, zero_usd, micro, ◌<ℤ◌, ◌∙◌, ap, subst, sym,
}
use axigate_finops.Gateway.Control.State.{Policy, RunState, Controller, projected, per_call}
use axigate_finops.Gateway.Control.Pause.{run_state, put_run, spend_cap}
use axigate_finops.Gateway.Control.Admit.{
  Answer, admit_locked, run_pause, call_cap_met, spend_cap_met,
}
use axigate_finops.Gateway.Control.Settle.{release_keyed}
use axigate_finops.Gateway.Control.Operator.{resume_run, resumed_run}
use axigate_finops.Gateway.Control.Entry.{entered, seen_run, entered-policy, admit_with_run}
use axigate_finops.Gateway.Control.Tally.{admit_tally}

if_true {ℓ} : {A : Type ℓ} (b : Bool) (x y : A) → b ≡ true → (if b then x else y) ≡ x
if_true true x y e = refl
if_true false x y e = cc

module _ {D : Type 0} ⦃f : Float D⦄ where
  -- A release takes one call in flight off the run, if it has any, and nothing else of any run.
  release_tally :
      (c : Controller D) (run key r : Bytes)
      → let c' = release_keyed c run key in
        ((run_state c' r).calls ≡ (run_state c r).calls)
        × ((run_state c' r).inflight
            ≡ (run_state c r).inflight - (if not (is_empty run) && beq run r then 1 else 0))
  unfolding release_keyed
  release_tally c run key r = ground (
    arith,
    lookup-insert r run (record (run_state c run) { inflight = (run_state c run).inflight - 1 })
        c.runs,
    beq_iff run r,
  )

  -- A call that is let through and then released (it never reached the provider) leaves every run's
  -- calls and calls in flight as they were.
  pub release-admit :
      (c : Controller D) (now : ℕ) (run key r : Bytes) (bypass : Bool)
      → IsDict c.runs
      → c.killed ≡ false
      → (admit_locked c now run key bypass).0.0 ≡ true
      → let c' = release_keyed (admit_locked c now run key bypass).1 run key in
        ((run_state c' r).calls ≡ (run_state c r).calls)
        × ((run_state c' r).inflight ≡ (run_state c r).inflight)
  release-admit c now run key r bypass d k served = ground (
    arith,
    admit_tally c now run key r bypass d k,
    release_tally (admit_locked c now run key bypass).1 run key r,
  )

  -- The run's caps leave room for a first call.
  abbrev pub HasRoom : Policy D → RunState D → Type 0
  HasRoom p st =
      (positive (spend_cap p st) ≡ false) ⊎ (micro {D = D} zero_usd <ℤ micro (spend_cap p st))

  module _ (laws : FloatLaws D) where
    resumed_below :
        (p : Policy D) (st : RunState D) (now : ℕ)
        → HasRoom p st
        → (call_cap_met p (record (resumed_run st) { last_seen = now }) ≡ false)
          × (spend_cap_met p (record (resumed_run st) { last_seen = now }) ≡ false)
    unfolding resumed_run spend_cap projected per_call
    resumed_below p st now room =
        (ground arith, ground (arith, laws.mul_zero p.reserve_usd_per_call, laws.add_zero zero_usd))

    served_below :
        (c : Controller D) (now : ℕ) (run : Bytes) (st : RunState D)
        → st.paused ≡ false
        → call_cap_met c.policy st ≡ false
        → spend_cap_met c.policy st ≡ false
        → (run_pause c now run [] false (some st) none).0 ≡ (true, [])
    served_below c now run st p q r = ground arith

    resume_run_lem :
        (c : Controller D) (run : Bytes) (st : RunState D)
        → lookup run c.runs ≡ some st
        → resume_run c run
          ≡ (if st.paused then (true, put_run c run (resumed_run st)) else (false, c))
    unfolding resume_run
    resume_run_lem c run st e = rw e

    seen_resumed :
        (c : Controller D) (now : ℕ) (run : Bytes) (st : RunState D)
        → seen_run (put_run c run (resumed_run st)) now run
          ≡ record (resumed_run st) { last_seen = now }
    seen_resumed c now run st = rw (lookup-insert_self run (resumed_run st) c.runs)

    resumed_served :
        (c : Controller D) (now : ℕ) (run : Bytes) (st : RunState D)
        → is_empty run ≡ false
        → c.killed ≡ false
        → HasRoom c.policy st
        → (admit_locked (put_run c run (resumed_run st)) now run [] false).0 ≡ (true, [])
    unfolding resumed_run
    resumed_served c now run st filled alive room =
        let c' = put_run c run (resumed_run st) in
        let below = resumed_below c.policy st now room in
        ap (λ (o : Answer × Controller D). o.0) (admit_with_run c' now run [] false filled alive)
        ∙ subst
            (λ x. (run_pause (entered c' now run []) now run [] false (some x) none).0 ≡ (true, []))
            (sym (seen_resumed c now run st))
            (served_below (entered c' now run []) now run
              (record (resumed_run st) { last_seen = now }) refl
              (rw (entered-policy c' now run []) below.0)
              (rw (entered-policy c' now run []) below.1))

    -- A resume finds a paused run and, if the run's caps leave room for a first call, the run's next
    -- call is let through with no reason, if that call has no key, the kill switch is off and dollars
    -- obey the laws of finite numbers.
    pub admit-resume :
        (c : Controller D) (now : ℕ) (run : Bytes) (st : RunState D)
        → is_empty run ≡ false
        → c.killed ≡ false
        → lookup run c.runs ≡ some st
        → st.paused ≡ true
        → HasRoom c.policy st
        → ((resume_run c run).0 ≡ true)
          × ((admit_locked (resume_run c run).1 now run [] false).0 ≡ (true, []))
    admit-resume c now run st filled alive found paused room =
        let resumed = resume_run_lem c run st found ∙ if_true st.paused _ _ paused in
        (
          ap (λ (o : Bool × Controller D). o.0) resumed,
          subst (λ (o : Bool × Controller D). (admit_locked o.1 now run [] false).0 ≡ (true, []))
              (sym resumed) (resumed_served c now run st filled alive room),
        )
