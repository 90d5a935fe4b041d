-- ===== src/Gateway/Control/Tally.antt =====
-- internal/gateway/control.go: what `admitKeyed` does to the tallies of the runs.
use axigate_finops.Prelude.{
  ℕ, ◌+◌, ◌≡◌, refl, inl, inr, false, ◌&&◌, [], ◌∷◌, some, none, Option, Bytes, is_empty, Float,
  arith, Bool-cases, if◌then◌else◌, Bool, Dict, IsDict, lookup, beq, beq_iff, beq_sound, beq_refl,
  subst, not,
}
use axigate_finops.Gateway.Control.State.{RunState, KeyState, Controller, or_fresh_run}
use axigate_finops.Gateway.Control.Evict.{evict_keys}
use axigate_finops.Gateway.Control.Pause.{key_state, key_cap, pause_key, run_state}
use axigate_finops.Gateway.Control.Admit.{
  stopped, reserve, admit_locked, run_pause, enter_run, enter_key,
}
use axigate_finops.Gateway.Control.Entry.{entered, admit_locked_lem}
use axigate_finops.Gateway.Control.Outcome.{After, admit-After}

module _ {D : Type 0} ⦃f : Float D⦄ where
  -- A call that names no run leaves the runs alone.
  no_run-runs :
      (c : Controller D) (now : ℕ) (key : Bytes) (bypass : Bool) (ks : Option (KeyState D))
      → (run_pause c now [] key bypass none ks).1.runs ≡ c.runs
  unfolding stopped reserve key_cap pause_key evict_keys
  no_run-runs c now key bypass none = ground arith
  no_run-runs c now key bypass (some ks) = ground arith

  admit_no_run :
      (c : Controller D) (now : ℕ) (key : Bytes) (bypass : Bool)
      → (admit_locked c now [] key bypass).1.runs ≡ c.runs
  unfolding enter_run enter_key
  admit_no_run c now key bypass = ground (
    arith,
    admit_locked_lem c now [] key bypass,
    no_run-runs (entered c now [] key) now key bypass
        (if is_empty key then none else some (key_state c now key)),
  )

  -- The tallies of a run in `m'` are those in `m`, and `more` of its calls are in flight.
  abbrev Grown : Bytes → Dict (RunState D) → Dict (RunState D) → Bool → Type 0
  Grown r m m' more =
      let st = or_fresh_run (lookup r m) in
      let st' = or_fresh_run (lookup r m') in
      (st'.calls ≡ st.calls)
      × (st'.spend_usd ≡ st.spend_usd)
      × (st'.inflight ≡ st.inflight + (if more then 1 else 0))

  After-Grown :
      (run r : Bytes) (m m' : Dict (RunState D)) (ok : Bool)
      → After run (or_fresh_run (lookup run m)) m ok m'
      → Grown r m m' (ok && beq run r)
  After-Grown run r m m' ok a = elim (Bool-cases (beq run r)) [
    | inl e ↦
        subst (λ k. Grown k m m' (ok && beq run k)) (beq_sound run r e)
          (rw (beq_refl run, a.found) (a.calls, a.spend, ground (arith, a.inflight)))
    | inr e ↦ rw (e, a.others r (λ q. ground (arith, beq_iff run r))) (refl, refl, ground arith)
  ]

  pub admit_tally :
      (c : Controller D) (now : ℕ) (run key r : Bytes) (bypass : Bool)
      → IsDict c.runs
      → c.killed ≡ false
      → let (answer, c') = admit_locked c now run key bypass in
        ((run_state c' r).calls ≡ (run_state c r).calls)
        × ((run_state c' r).spend_usd ≡ (run_state c r).spend_usd)
        × ((run_state c' r).inflight
            ≡ (run_state c r).inflight
              + (if answer.0 && not (is_empty run) && beq run r then 1 else 0))
  admit_tally c now [] key r bypass d k =
      rw (admit_no_run c now key bypass) (refl, refl, ground arith)
  admit_tally c now (x ∷ xs) key r bypass d k = ground (
    arith,
    After-Grown (x ∷ xs) r c.runs (admit_locked c now (x ∷ xs) key bypass).1.runs
        (admit_locked c now (x ∷ xs) key bypass).0.0
        (admit-After c now (x ∷ xs) key bypass refl d k),
  )

  pub admit-IsDict :
      (c : Controller D) (now : ℕ) (run key : Bytes) (bypass : Bool)
      → IsDict c.runs
      → c.killed ≡ false
      → IsDict (admit_locked c now run key bypass).1.runs
  admit-IsDict c now [] key bypass d k = rw (admit_no_run c now key bypass) d
  admit-IsDict c now (x ∷ xs) key bypass d k = (admit-After c now (x ∷ xs) key bypass refl d k).dict
