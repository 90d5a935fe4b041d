-- ===== src/Gateway/Control/Outcome.antt =====
-- internal/gateway/control.go: the runs after a call that `admitKeyed` has decided on.
use axigate_finops.Prelude.{
  ℕ, ◌+◌, ◌≡◌, refl, ◌≢◌, true, false, ◌&&◌, some, none, Option, Bytes, is_empty, Float, arith,
  if_both, if◌then◌else◌, Bool, Dict, IsDict, lookup, insert, lookup-insert_self, lookup-insert_ne,
  insert-IsDict, ◌∙◌, subst, not, ◌||◌,
}
use axigate_finops.Gateway.Control.State.{RunState, KeyState, Controller}
use axigate_finops.Gateway.Control.Evict.{evict_keys}
use axigate_finops.Gateway.Control.Pause.{key_state, key_cap, pause_key, pause_run, run_state}
use axigate_finops.Gateway.Control.Admit.{
  Answer, stopped, reserve, admit_locked, admit_run, run_pause, key_pause, after_key_cap,
  call_cap_met, spend_cap_met,
}
use axigate_finops.Gateway.Control.Entry.{entered, seen_run, entered-runs, admit_with_run}

module _ {D : Type 0} ⦃f : Float D⦄ where
  -- The runs of `m'` are those of `m` but for `run`, which was `st` and has kept its settled
  -- tallies; one more of its calls is in flight if the call is let through.
  pub record After (run : Bytes) (st : RunState D) (m : Dict (RunState D)) (ok : Bool)
      (m' : Dict (RunState D)) : Type 0 where
    pub state : RunState D
    pub others : (r : Bytes) → run ≢ r → lookup r m' ≡ lookup r m
    pub found : lookup run m' ≡ some state
    pub calls : state.calls ≡ st.calls
    pub spend : state.spend_usd ≡ st.spend_usd
    pub inflight : state.inflight ≡ st.inflight + (if ok then 1 else 0)
    pub dict : IsDict m'

  After-same :
      (run : Bytes) (st : RunState D) (m : Dict (RunState D))
      → IsDict m
      → lookup run m ≡ some st
      → After run st m false m
  After-same run st m d e = record {
    state = st;
    others = λ r ne. refl;
    found = e;
    calls = refl;
    spend = refl;
    inflight = omega arith;
    dict = d;
  }

  After-reserved :
      (run : Bytes) (st : RunState D) (m : Dict (RunState D))
      → IsDict m
      → After run st m true (insert run (record st { inflight = st.inflight + 1 }) m)
  After-reserved run st m d = record {
    state = record st { inflight = st.inflight + 1 };
    others = λ r ne. lookup-insert_ne r run _ m ne;
    found = lookup-insert_self run _ m;
    calls = refl;
    spend = refl;
    inflight = refl;
    dict = insert-IsDict run _ m d;
  }

  -- A change of the run that leaves its tallies alone may come first.
  After-put :
      (run : Bytes) (st st' : RunState D) (m m' : Dict (RunState D)) (ok : Bool)
      → st'.calls ≡ st.calls
      → st'.spend_usd ≡ st.spend_usd
      → st'.inflight ≡ st.inflight
      → After run st' (insert run st' m) ok m'
      → After run st m ok m'
  After-put run st st' m m' ok p q i a = record {
    state = a.state;
    others = λ r ne. a.others r ne ∙ lookup-insert_ne r run st' m ne;
    found = a.found;
    calls = a.calls ∙ p;
    spend = a.spend ∙ q;
    inflight = omega (arith, a.inflight, i);
    dict = a.dict;
  }

  reserve-runs :
      (c : Controller D) (run key : Bytes) (st : RunState D)
      → is_empty run ≡ false
      → lookup run c.runs ≡ some st
      → (reserve c run key).runs ≡ insert run (record st { inflight = st.inflight + 1 }) c.runs
  unfolding reserve evict_keys
  reserve-runs c run key st h e = ground arith

  reserve-After :
      (c : Controller D) (run key : Bytes) (st : RunState D)
      → is_empty run ≡ false
      → IsDict c.runs
      → lookup run c.runs ≡ some st
      → After run st c.runs true (reserve c run key).runs
  reserve-After c run key st h d e =
      rw (reserve-runs c run key st h e) (After-reserved run st c.runs d)

  -- An outcome of a call of `run`, which stood at `st`.
  abbrev Outcome : Controller D → Bytes → RunState D → Answer × Controller D → Type 0
  Outcome c run st o = After run st c.runs o.0.0 o.1.runs

  stopped-After :
      (c : Controller D) (run key reason : Bytes) (bypass : Bool) (st : RunState D)
      → is_empty run ≡ false
      → IsDict c.runs
      → lookup run c.runs ≡ some st
      → Outcome c run st (stopped c run key bypass reason)
  unfolding stopped
  stopped-After c run key reason bypass st h d e =
      if_both (Outcome c run st) (bypass || (c.policy.shadow && not bypass))
        (reserve-After c run key st h d e) (After-same run st c.runs d e)

  paused-After :
      (c : Controller D) (now : ℕ) (run key reason : Bytes) (bypass : Bool) (st : RunState D)
      → is_empty run ≡ false
      → IsDict c.runs
      → Outcome c run st (stopped (pause_run c now run st reason) run key bypass reason)
  unfolding pause_run
  paused-After c now run key reason bypass st h d = After-put run st st' c.runs _ _ refl refl refl (
      stopped-After (pause_run c now run st reason) run key reason bypass st' h
        (insert-IsDict run st' c.runs d) (lookup-insert_self run st' c.runs))
    where
      st' : RunState D
      st' = record st { paused = true; reason = reason }

  module _ (run key : Bytes) (bypass : Bool) (st : RunState D) (h : is_empty run ≡ false) where
    admit_run-After :
        (c : Controller D) (now : ℕ)
        → IsDict c.runs
        → lookup run c.runs ≡ some st
        → Outcome c run st (admit_run c now run key bypass (some st))
    admit_run-After c now d e =
        if_both (Outcome c run st) bypass (reserve-After c run key st h d e) (
          if_both (Outcome c run st) (call_cap_met c.policy st)
            (paused-After c now run key _ bypass st h d)
            (if_both (Outcome c run st) (spend_cap_met c.policy st)
              (paused-After c now run key _ bypass st h d) (reserve-After c run key st h d e)))

    key_cap-runs :
        (c : Controller D) (now : ℕ) (ks : KeyState D) → (key_cap c now key ks).1.runs ≡ c.runs
    unfolding key_cap pause_key
    key_cap-runs c now ks = ground arith

    after_key_cap-After :
        (c c' : Controller D) (now : ℕ) (reason : Bytes)
        → c'.runs ≡ c.runs
        → IsDict c.runs
        → lookup run c.runs ≡ some st
        → Outcome c run st (after_key_cap now run key bypass (some st) (reason, c'))
    after_key_cap-After c c' now reason same d e =
        let o = after_key_cap now run key bypass (some st) (reason, c') in
        subst (λ m. After run st m o.0.0 o.1.runs) same
          (if_both (Outcome c' run st) (is_empty reason)
            (admit_run-After c' now (rw same d) (rw same e))
            (stopped-After c' run key reason bypass st h (rw same d) (rw same e)))

    key_pause-After :
        (c : Controller D) (now : ℕ) (ks : Option (KeyState D))
        → IsDict c.runs
        → lookup run c.runs ≡ some st
        → Outcome c run st (key_pause c now run key bypass (some st) ks)
    key_pause-After c now none d e = admit_run-After c now d e
    key_pause-After c now (some ks) d e =
        if_both (Outcome c run st) ks.paused (stopped-After c run key ks.reason bypass st h d e) (
          if_both (Outcome c run st) bypass (admit_run-After c now d e) (
            after_key_cap-After c (key_cap c now key ks).1 now (key_cap c now key ks).0
              (key_cap-runs c now ks) d e))

    run_pause-After :
        (c : Controller D) (now : ℕ) (ks : Option (KeyState D))
        → IsDict c.runs
        → lookup run c.runs ≡ some st
        → Outcome c run st (run_pause c now run key bypass (some st) ks)
    run_pause-After c now ks d e =
        if_both (Outcome c run st) st.paused (stopped-After c run key st.reason bypass st h d e)
          (key_pause-After c now ks d e)

  -- The runs after a call that has a run.
  pub admit-After :
      (c : Controller D) (now : ℕ) (run key : Bytes) (bypass : Bool)
      → is_empty run ≡ false
      → IsDict c.runs
      → c.killed ≡ false
      → let (answer, c') = admit_locked c now run key bypass in
        After run (run_state c run) c.runs answer.0 c'.runs
  admit-After c now run key bypass h d k = rw (admit_with_run c now run key bypass h k) (
      After-put run (run_state c run) seen c.runs o.1.runs o.0.0 refl refl refl (
        subst (λ m. After run seen m o.0.0 o.1.runs) (entered-runs c now run key h)
          (run_pause-After run key bypass seen h (entered c now run key) now ks
            (rw (entered-runs c now run key h) (insert-IsDict run seen c.runs d))
            (rw (entered-runs c now run key h) (lookup-insert_self run seen c.runs)))))
    where
      seen : RunState D
      seen = seen_run c now run

      ks : Option (KeyState D)
      ks = if is_empty key then none else some (key_state c now key)

      o : Answer × Controller D
      o = run_pause (entered c now run key) now run key bypass (some seen) ks
