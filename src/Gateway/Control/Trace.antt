-- ===== src/Gateway/Control/Trace.antt =====
-- internal/gateway/control.go: the critical sections of the controller as a step relation, and the
-- call cap over every interleaving of them.
--
-- Each step is one critical section, so a sequence of steps is an interleaving of the requests that
-- are served at the same time. The steps are all that the methods allow; `IsCapped` says which
-- sequences the cap binds: those without a call that has the bypass, and without a settlement whose
-- reservation a resume or an eviction has dropped, since the controller then counts that call on
-- top of those that it has let through since.
use axigate_finops.Prelude.{
  ℕ, ◌+◌, ◌≤◌, ◌<◌, ◌≡◌, refl, ◌⊎◌, inl, inr, true, false, Bytes, is_empty, Float, arith,
  Bool-cases, Bool, lookup, ◌∙◌, beq_iff, subst,
}
use axigate_finops.Gateway.Control.State.{Policy, Controller, new_controller}
use axigate_finops.Gateway.Control.Evict.{evict_keys}
use axigate_finops.Gateway.Control.Pause.{run_state}
use axigate_finops.Gateway.Control.Admit.{admit_locked, dispatch}
use axigate_finops.Gateway.Control.Settle.{record_locked, release_keyed}
use axigate_finops.Gateway.Control.Operator.{
  note_run, note_key, resume_key, resume_run, mark_key_paused, mark_paused, set_run_cap, set_killed,
}
use axigate_finops.Gateway.Control.Settings.{
  admit-policy, record-policy, release-policy, note_run-policy, note_key-policy, set_run_cap-policy,
  resume_run-policy, resume_key-policy,
}
use axigate_finops.Gateway.Control.Refusal.{admit_below_call_cap}
use axigate_finops.Gateway.Control.Tally.{admit_tally, admit-IsDict}
use axigate_finops.Gateway.Control.Within.{
  Within, record-Within, release-Within, note_run-Within, set_run_cap-Within, mark_paused-Within,
  resume_run-Within,
}

module _ {D : Type 0} ⦃f : Float D⦄ where
  pub data Step (c : Controller D) : Controller D → Type 0 where
    admits :
        (now : ℕ) (run key : Bytes) (bypass : Bool) → Step c (admit_locked c now run key bypass).1
    settles :
        (now : ℕ) (run key : Bytes) (cost : D) (loop : Bool)
        → Step c (record_locked c now run key cost loop)
    releases : (run key : Bytes) → Step c (release_keyed c run key)
    dispatches : Step c (dispatch c).2
    notes_run : (run agent team model : Bytes) → Step c (note_run c run agent team model)
    notes_key :
        (now : ℕ) (key agent team model : Bytes) → Step c (note_key c now key agent team model)
    caps_run : (now : ℕ) (run : Bytes) (cap : D) → Step c (set_run_cap c now run cap)
    resumes_run : (run : Bytes) → Step c (resume_run c run).1
    resumes_key : (key : Bytes) → Step c (resume_key c key).1
    marks_run : (run reason : Bytes) → Step c (mark_paused c run reason)
    marks_key :
        (now : ℕ) (key reason : Bytes) (day_pause : Bool)
        → Step c (mark_key_paused c now key reason day_pause)
    kills : (on : Bool) → Step c (set_killed c on)

  pub data Reach (c : Controller D) : Controller D → Type 0 where
    here : Reach c c
    next : {d e : Controller D} → Reach c d → Step d e → Reach c e

  -- A call of the run is in flight, or there is no run.
  abbrev pub Flying : Bytes → Controller D → Type 0
  Flying run c = (is_empty run ≡ true) ⊎ (0 < (run_state c run).inflight)

  -- A step that the call cap binds.
  abbrev pub KeepsCap : {c d : Controller D} → Step c d → Type 0
  KeepsCap (admits now run key bypass) = bypass ≡ false
  KeepsCap {c} (settles now run key cost loop) = Flying run c
  KeepsCap (releases run key) = Unit
  KeepsCap dispatches = Unit
  KeepsCap (notes_run run agent team model) = Unit
  KeepsCap (notes_key now key agent team model) = Unit
  KeepsCap (caps_run now run cap) = Unit
  KeepsCap (resumes_run run) = Unit
  KeepsCap (resumes_key key) = Unit
  KeepsCap (marks_run run reason) = Unit
  KeepsCap (marks_key now key reason day_pause) = Unit
  KeepsCap (kills engaged) = Unit

  abbrev pub IsCapped : {c d : Controller D} → Reach c d → Type 0
  IsCapped here = Unit
  IsCapped (next r st) = IsCapped r × KeepsCap st

  -- A sequence of steps that the call cap binds.
  abbrev pub CappedReach : Controller D → Controller D → Type 0
  CappedReach c d = (r : Reach c d) × IsCapped r

  pub extend :
      {c d e : Controller D} → CappedReach c d → (st : Step d e) → KeepsCap st → CappedReach c e
  extend (r, h) st k = (next r st, (h, k))

  -- What every step keeps: the policy, and each run within the call cap.
  abbrev pub Held : Policy D → Controller D → Type 0
  Held p c = (c.policy ≡ p) × Within p.max_calls_per_run c.runs

  admit_killed :
      (c : Controller D) (now : ℕ) (run key : Bytes)
      → c.killed ≡ true
      → (admit_locked c now run key false).1 ≡ c
  unfolding admit_locked
  admit_killed c now run key e = rw e

  admit-Within :
      (c : Controller D) (now : ℕ) (run key : Bytes)
      → c.policy.shadow ≡ false
      → 0 < c.policy.max_calls_per_run
      → Within c.policy.max_calls_per_run c.runs
      → Within c.policy.max_calls_per_run (admit_locked c now run key false).1.runs
  admit-Within c now run key shadow on w = elim (Bool-cases c.killed) [
    | inl e ↦ rw (admit_killed c now run key e) w
    | inr e ↦ (
      admit-IsDict c now run key false w.0 e,
      λ r. ground (
        arith,
        admit_tally c now run key r false w.0 e,
        w.1 r,
        beq_iff run r,
        admit_below_call_cap c now run key,
      ),
    )
  ]

  -- Steps that do not touch the runs.
  same_runs-Held :
      (p : Policy D) (c d : Controller D)
      → d.policy ≡ c.policy
      → d.runs ≡ c.runs
      → Held p c
      → Held p d
  same_runs-Held p c d same runs h = (same ∙ h.0, rw runs h.1)

  note_key-runs :
      (c : Controller D) (now : ℕ) (key agent team model : Bytes)
      → (note_key c now key agent team model).runs ≡ c.runs
  unfolding note_key evict_keys
  note_key-runs c now key agent team model = ground arith

  resume_key-runs : (c : Controller D) (key : Bytes) → (resume_key c key).1.runs ≡ c.runs
  unfolding resume_key
  resume_key-runs c key = ground arith

  -- Outside shadow mode each step keeps every run within the call cap.
  Step-Held :
      (p : Policy D) {c d : Controller D}
      → p.shadow ≡ false
      → 0 < p.max_calls_per_run
      → (st : Step c d) → KeepsCap st
      → Held p c
      → Held p d
  unfolding set_killed dispatch mark_key_paused mark_paused
  Step-Held p {c} shadow on (admits now run key true) k h = absurd cc
  Step-Held p {c} shadow on (admits now run key false) k h = (
    admit-policy c now run key false ∙ h.0,
    subst (λ q. Within q.max_calls_per_run (admit_locked c now run key false).1.runs) h.0
        (admit-Within c now run key (rw h.0 shadow) (rw h.0 on) (rw h.0 h.1)),
  )
  Step-Held p {c} shadow on (settles now run key cost loop) flying h = (
    record-policy c now run key cost loop ∙ h.0,
    record-Within p.max_calls_per_run c now run key cost loop h.1 flying,
  )
  Step-Held p {c} shadow on (releases run key) k h =
      (release-policy c run key ∙ h.0, release-Within p.max_calls_per_run c run key h.1)
  Step-Held p shadow on dispatches k h = h
  Step-Held p {c} shadow on (notes_run run agent team model) k h = (
    note_run-policy c run agent team model ∙ h.0,
    note_run-Within p.max_calls_per_run c run agent team model h.1,
  )
  Step-Held p {c} shadow on (notes_key now key agent team model) k h =
      same_runs-Held p c (note_key c now key agent team model)
        (note_key-policy c now key agent team model) (note_key-runs c now key agent team model) h
  Step-Held p {c} shadow on (caps_run now run cap) k h = (
    set_run_cap-policy c now run cap ∙ h.0,
    set_run_cap-Within p.max_calls_per_run c now run cap h.1,
  )
  Step-Held p {c} shadow on (resumes_run run) k h =
      (resume_run-policy c run ∙ h.0, resume_run-Within p.max_calls_per_run c run h.1)
  Step-Held p {c} shadow on (resumes_key key) k h =
      same_runs-Held p c (resume_key c key).1 (resume_key-policy c key) (resume_key-runs c key) h
  Step-Held p {c} shadow on (marks_run run reason) k h =
      (h.0, mark_paused-Within p.max_calls_per_run c run reason h.1)
  Step-Held p shadow on (marks_key now key reason day_pause) k h = h
  Step-Held p shadow on (kills engaged) k h = h

  pub Reach-Held :
      (p : Policy D) {c d : Controller D}
      → p.shadow ≡ false
      → 0 < p.max_calls_per_run
      → Held p c
      → (r : Reach c d) → IsCapped r
      → Held p d
  Reach-Held p shadow on h here k = h
  Reach-Held p shadow on h (next r st) k =
      Step-Held p shadow on st k.1 (Reach-Held p shadow on h r k.0)

  pub calls_within_cap :
      (p : Policy D) {d : Controller D} (run : Bytes)
      → p.shadow ≡ false
      → 0 < p.max_calls_per_run
      → (r : Reach (new_controller p) d) → IsCapped r
      → (run_state d run).calls + (run_state d run).inflight ≤ p.max_calls_per_run
  unfolding new_controller lookup
  calls_within_cap p run shadow on r h =
      (Reach-Held (new_controller p).policy shadow on (refl, (tt, λ k. omega arith)) r h).1.1 run
