-- ===== src/Gateway/Handler/Reached.antt =====
-- internal/gateway/gateway.go over internal/gateway/control.go: the admission of a request as steps of
-- the controller.
use axigate_finops.Prelude.{
  ℕ, ◌<◌, ◌≡◌, refl, inl, inr, true, false, ◌&&◌, Bytes, Float, IsDict, arith, if_both, Bool-cases,
  beq_refl, positive, lookup, str,
}
use axigate_finops.Gateway.Control.State.{Policy, Controller, new_controller}
use axigate_finops.Gateway.Control.Admit.{admit_keyed, admit_locked, dispatch}
use axigate_finops.Gateway.Control.Tally.{admit_tally}
use axigate_finops.Gateway.Control.Trace.{
  CappedReach, Flying, extend, admits, dispatches, notes_run, notes_key, caps_run, Reach-Held,
}
use axigate_finops.Gateway.Handler.Request.{HttpRequest, Platform, tags_from_headers, parse_money}
use axigate_finops.Gateway.Handler.Budget.{Memory, memory_admit, memory_budget}
use axigate_finops.Gateway.Handler.Row.{Config, Caller, counter_key}
use axigate_finops.Gateway.Handler.Record.{Times}
use axigate_finops.Gateway.Handler.Serve.{noted, bypasses, decided, caller_of}

module _ {D : Type 0} ⦃f : Float D⦄ where
  -- A request without the bypass.
  abbrev pub HasNoBypass : Platform D → Times → Config D → HttpRequest → Type 0
  HasNoBypass os at cfg r = bypasses cfg (caller_of os cfg at.start r) ≡ false

module _ {D : Type 0} ⦃f : Float D⦄ (p : Policy D) where
  module _ (os : Platform D) (at : Times) where
    pub noted-Reach :
        (cfg : Config D) (c : Caller) (m : Memory D)
        → CappedReach (new_controller p) m.0
        → CappedReach (new_controller p) (noted os memory_budget at cfg c m).0
    unfolding noted memory_budget
    noted-Reach cfg c m h =
        let t = tags_from_headers c.header in
        let s =
          extend (extend h (notes_run c.run t.agent t.team c.model) tt)
            (notes_key at.decided (counter_key cfg c.key) t.agent t.team c.model) tt in
        let cap = parse_money os (c.header (str "X-AxiGate-Max-Spend")) in
        if_both (λ (x : Memory D). CappedReach (new_controller p) x.0)
          (cfg.control.allow_request_caps && positive cap)
          (extend s (caps_run at.decided c.run cap) tt) s

    pub decided-Reach :
        (cfg : Config D) (c : Caller) (m : Memory D)
        → bypasses cfg c ≡ false
        → CappedReach (new_controller p) m.0
        → CappedReach (new_controller p) (decided os memory_budget at cfg c m).1.0
    unfolding decided memory_budget memory_admit admit_keyed
    decided-Reach cfg c m b h = rw b (
        extend
          (extend (noted-Reach cfg c m h) (admits at.decided c.run (counter_key cfg c.key) false)
            refl)
          dispatches tt)

    admit_killed :
        (c : Controller D) (now : ℕ) (run key : Bytes)
        → c.killed ≡ true
        → (admit_locked c now run key false).0.0 ≡ false
    unfolding admit_locked
    admit_killed c now run key e = rw e refl

    admit-Flying :
        (c : Controller D) (now : ℕ) (run key : Bytes)
        → IsDict c.runs
        → (admit_locked c now run key false).0.0 ≡ true
        → Flying run (admit_locked c now run key false).1
    admit-Flying c now run key d ok = elim (Bool-cases c.killed) [
      | inl k ↦ ground (arith, admit_killed c now run key k)
      | inr k ↦ ground (arith, admit_tally c now run key run false d k, beq_refl run)
    ]

    module _ (shadow : p.shadow ≡ false) (on : 0 < p.max_calls_per_run) where
      Reach-IsDict : (c : Controller D) → CappedReach (new_controller p) c → IsDict c.runs
      unfolding new_controller lookup
      Reach-IsDict c r =
          (Reach-Held (new_controller p).policy shadow on (refl, (tt, λ k. omega arith)) r.0
            r.1).1.0

      pub decided-Flying :
          (cfg : Config D) (c : Caller) (m : Memory D)
          → bypasses cfg c ≡ false
          → CappedReach (new_controller p) m.0
          → (decided os memory_budget at cfg c m).0.0 ≡ true
          → Flying c.run (decided os memory_budget at cfg c m).1.0
      unfolding decided memory_budget memory_admit admit_keyed dispatch
      decided-Flying cfg c m b h ok =
          let n = noted os memory_budget at cfg c m in
          rw b (
            admit-Flying n.0 at.decided c.run (counter_key cfg c.key)
              (Reach-IsDict n.0 (noted-Reach cfg c m h)) (rw b at ok))
