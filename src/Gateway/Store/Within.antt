-- ===== src/Gateway/Store/Within.antt =====
-- internal/gateway/counter_redis.go: what each script leaves of the runs within the call cap.
use axigate_finops.Prelude.{
  ℕ, ◌+◌, ◌≤◌, ◌<◌, ◌≡◌, refl, ◌⊎◌, inl, inr, true, false, not, ◌&&◌, ◌||◌, [], Option, none, some,
  Bytes, lookup, insert, is_empty, Float, if◌then◌else◌, arith, Bool-cases, if_both, if_not,
}
use axigate_finops.Gateway.Store.Records.{
  Tokens, StoreRun, StoreKey, Store, store_run, store_key, put_store_run, put_store_key, put_seen,
  put_bucket, CallArgs, seen_at, roll_key, bucket_of,
}
use axigate_finops.Gateway.Store.Admit.{
  AdmitArgs, AdmitReply, add_run_inflight, add_key_inflight, served, touch_run, touch_key, remember,
  reserve_call, run_reply, run_code, key_code, pause_store_run, pause_store_key, admit_run_caps,
  admit_key_caps, admit_paused, admit_once, script_admit,
}
use axigate_finops.Gateway.Store.Once.{store_run-put}

-- No run has more calls settled and in flight than the cap.
abbrev pub StoreWithin : ℕ → Store → Type 0
StoreWithin max s = (r : Bytes) → (store_run s r).calls + (store_run s r).inflight ≤ max

module _ (max : ℕ) where
  pub put-StoreWithin :
      (s : Store) (run : Bytes) (st : StoreRun)
      → st.calls + st.inflight ≤ max
      → StoreWithin max s
      → StoreWithin max (put_store_run s run st)
  put-StoreWithin s run st h w r = ground (arith, store_run-put s run r st, w r)

  -- Steps that write no run.
  pub same_runs-StoreWithin :
      (s s' : Store) → s'.runs ≡ s.runs → StoreWithin max s → StoreWithin max s'
  unfolding store_run
  same_runs-StoreWithin s s' e w r = rw e (w r)

  pub put_seen-StoreWithin :
      (s : Store) (a : CallArgs) (ts : Tokens)
      → StoreWithin max s
      → StoreWithin max (put_seen s a ts)
  unfolding put_seen put_bucket
  put_seen-StoreWithin s a ts w =
      if_both (StoreWithin max) (is_empty a.run)
        (same_runs-StoreWithin s (put_bucket s (bucket_of a) ts) refl w)
        (put-StoreWithin s a.run _ (w a.run) w)

  pub pause-StoreWithin :
      (s : Store) (run code : Bytes)
      → StoreWithin max s
      → StoreWithin max (pause_store_run s run code)
  unfolding store_run
  pause-StoreWithin s run code w =
      put-StoreWithin (record s { paused_runs = insert run true s.paused_runs }) run _ (w run) w

  pub roll_key-runs : (s : Store) (key today : Bytes) → (roll_key s key today).runs ≡ s.runs
  unfolding roll_key put_store_key
  roll_key-runs s key today = ground arith

  touch_key-runs : (s : Store) (a : AdmitArgs) → (touch_key s a).runs ≡ s.runs
  unfolding touch_key put_store_key
  touch_key-runs s a = ground (arith, roll_key-runs s a.call.key a.call.today)

  touch_run-StoreWithin :
      (s : Store) (a : AdmitArgs) → StoreWithin max s → StoreWithin max (touch_run s a)
  unfolding touch_run
  touch_run-StoreWithin s a w =
      if_both (StoreWithin max) (is_empty a.call.run) w
        (put-StoreWithin s a.call.run _ (w a.call.run) w)

  reserve-StoreWithin :
      (s : Store) (a : CallArgs)
      → (is_empty a.run ≡ true) ⊎ ((store_run s a.run).calls + (store_run s a.run).inflight < max)
      → StoreWithin max s
      → StoreWithin max (reserve_call s a)
  unfolding reserve_call put_store_key
  reserve-StoreWithin s a room w = if_both (StoreWithin max) (is_empty a.key) run_part (
      if_both (StoreWithin max) (is_empty a.run)
        (put_seen-StoreWithin (add_key_inflight reserved a.key) a _ keyed) keyed)
    where
      reserved : Store
      reserved = if is_empty a.run then s else remember (add_run_inflight s a.run) a served

      run_part : StoreWithin max reserved
      run_part = elim (Bool-cases (is_empty a.run)) [
        | inl e ↦ rw e w
        | inr e ↦ rw e (
            put_seen-StoreWithin (add_run_inflight s a.run) a _
              (put-StoreWithin s a.run _ (ground arith) w))
      ]

      keyed : StoreWithin max (add_key_inflight reserved a.key)
      keyed = same_runs-StoreWithin reserved (add_key_inflight reserved a.key) refl run_part

  below_cap :
      {D : Type 0} (f : Float D) (a : AdmitArgs) (st : StoreRun)
      → a.max_calls ≡ max
      → 0 < max
      → is_empty (run_code f a st) ≡ true
      → st.calls + st.inflight < max
  unfolding run_code
  below_cap f a st e on h = ground arith

  module _ {D : Type 0} (f : Float D) (a : AdmitArgs) where
    -- The call is decided by the caps, with this call cap.
    abbrev pub IsDecided : Type 0
    IsDecided = (a.bypass ≡ false) × (a.shadow ≡ false) × (a.max_calls ≡ max)

    abbrev Holds : AdmitReply × Store → Type 0
    Holds x = StoreWithin max x.1

    admit_run_caps-StoreWithin :
        (s : Store)
        → IsDecided
        → 0 < max
        → StoreWithin max s
        → StoreWithin max (admit_run_caps f s a).1
    unfolding run_code
    admit_run_caps-StoreWithin s d on w = elim (Bool-cases (is_empty a.call.run)) [
      | inl e ↦ rw e (reserve-StoreWithin s a.call (inl e) w)
      | inr e ↦ rw (e, d.0, d.1) (by_code (Bool-cases (is_empty (run_code f a st))))
    ]
      where
        st : StoreRun
        st = store_run s a.call.run

        code : Bytes
        code = run_code f a st

        by_code :
            (is_empty code ≡ true) ⊎ (is_empty code ≡ false)
            → Holds (
                if is_empty code then (run_reply st true [] false, reserve_call s a.call) else (
                  run_reply st false code true,
                  remember (pause_store_run s a.call.run code) a.call code,
                ))
        by_code (inl b) = rw b (reserve-StoreWithin s a.call (inr (below_cap f a st d.2 on b)) w)
        by_code (inr b) = rw b (
            put_seen-StoreWithin (pause_store_run s a.call.run code) a.call _
              (pause-StoreWithin s a.call.run code w))

    admit_key_caps-StoreWithin :
        (s : Store)
        → IsDecided
        → 0 < max
        → StoreWithin max s
        → StoreWithin max (admit_key_caps f s a).1
    unfolding put_store_key
    admit_key_caps-StoreWithin s d on w = if_both Holds (is_empty a.call.key || a.bypass) below (
        if_both Holds (is_empty code) below (
          if_not Holds a.shadow _ d.1 (
            put_seen-StoreWithin (pause_store_key s a.call.key code (key_code f a ks).1) a.call _
              stopped)))
      where
        code : Bytes
        code = (key_code f a (store_key s a.call.key)).0

        stopped :
            StoreWithin max
              (pause_store_key s a.call.key code (key_code f a (store_key s a.call.key)).1)
        stopped = same_runs-StoreWithin s _ refl w

        ks : StoreKey
        ks = store_key s a.call.key

        below : StoreWithin max (admit_run_caps f s a).1
        below = admit_run_caps-StoreWithin s d on w

    -- Neither is a pause that stands already.
    admit_paused-StoreWithin :
        (s : Store)
        → IsDecided
        → 0 < max
        → StoreWithin max s
        → StoreWithin max (admit_paused f s a).1
    admit_paused-StoreWithin s d on w =
        if_both Holds (not (is_empty a.call.run) && (store_run s a.call.run).paused)
          (if_not Holds (a.bypass || a.shadow) _ neither w)
          (if_both Holds (not (is_empty a.call.key) && (store_key s a.call.key).paused)
            (if_not Holds (a.bypass || a.shadow) _ neither w) (admit_key_caps-StoreWithin s d on w))
      where
        neither : (a.bypass || a.shadow) ≡ false
        neither = ground (arith, d.0, d.1)

    admit_once-StoreWithin :
        (s : Store) (seen : Option Bytes)
        → IsDecided
        → 0 < max
        → StoreWithin max s
        → StoreWithin max (admit_once f s a seen).1
    admit_once-StoreWithin s (some seen) d on w = w
    admit_once-StoreWithin s none d on w = if_both Holds s.killed w (
        admit_paused-StoreWithin (touch_key (touch_run s a) a) d on (
          same_runs-StoreWithin (touch_run s a) (touch_key (touch_run s a) a)
            (touch_key-runs (touch_run s a) a) (touch_run-StoreWithin s a w)))

    pub script_admit-StoreWithin :
        (s : Store)
        → IsDecided
        → 0 < max
        → StoreWithin max s
        → StoreWithin max (script_admit f s a).1
    unfolding script_admit
    script_admit-StoreWithin s =
        admit_once-StoreWithin s (lookup a.call.token (seen_at s a.call).admits)
