-- ===== src/Gateway/Store/Settled.antt =====
-- internal/gateway/counter_redis.go: the scripts of settlements and of an operator, and the calls of a run.
use axigate_finops.Prelude.{
  ℕ, ◌<◌, ◌≡◌, refl, ◌⊎◌, inl, inr, Bool, true, Bytes, insert, beq_iff, is_empty, Float, arith,
  if_both,
}
use axigate_finops.Gateway.Store.Records.{
  StoreRun, Store, store_run, put_store_run, put_store_key, put_seen, put_bucket, CallArgs, seen_at,
}
use axigate_finops.Gateway.Store.Settle.{
  SettleArgs, StopReply, mark_settled, tallied_run, settle_run, settle_key, settled_code,
  script_record, script_release, drop_run_inflight, drop_key_inflight, settled_before,
}
use axigate_finops.Gateway.Store.Operator.{script_resume, script_key_resume, script_key_pause}
use axigate_finops.Gateway.Store.Once.{store_run-put}
use axigate_finops.Gateway.Store.Within.{
  StoreWithin, put-StoreWithin, same_runs-StoreWithin, put_seen-StoreWithin, pause-StoreWithin,
  roll_key-runs,
}

module _ (max : ℕ) where
  -- Settlements.
  mark_settled-StoreWithin :
      (s : Store) (a : CallArgs) → StoreWithin max s → StoreWithin max (mark_settled s a)
  unfolding mark_settled
  mark_settled-StoreWithin s a w = put_seen-StoreWithin max s a _ w

  drop_run-StoreWithin :
      (s : Store) (run : Bytes) → StoreWithin max s → StoreWithin max (drop_run_inflight s run)
  drop_run-StoreWithin s run w =
      if_both (StoreWithin max) (is_empty run) w
        (put-StoreWithin max s run _ (omega (arith, w run)) w)

  pub script_release-StoreWithin :
      (s : Store) (a : CallArgs) → StoreWithin max s → StoreWithin max (script_release s a).1
  unfolding script_release put_store_key
  script_release-StoreWithin s a w =
      if_both (λ (x : Bool × Store). StoreWithin max x.1) (settled_before s a) w
        (same_runs-StoreWithin max dropped (drop_key_inflight dropped a.key) (ground arith)
          (drop_run-StoreWithin (mark_settled s a) a.run (mark_settled-StoreWithin s a w)))
    where
      dropped : Store
      dropped = drop_run_inflight (mark_settled s a) a.run

  settle_key-runs :
      {D : Type 0} (f : Float D) (s : Store) (a : SettleArgs) → (settle_key f s a).1.runs ≡ s.runs
  unfolding put_store_key
  settle_key-runs f s a = ground (arith, roll_key-runs max s a.call.key a.call.today)

  settle_run-StoreWithin :
      {D : Type 0} (f : Float D) (s : Store) (a : SettleArgs)
      → (is_empty a.call.run ≡ true) ⊎ (0 < (store_run s a.call.run).inflight)
      → StoreWithin max s
      → StoreWithin max (settle_run f s a).1
  unfolding tallied_run
  settle_run-StoreWithin f s a (inl e) w = rw e w
  settle_run-StoreWithin f s a (inr h) w =
      if_both (λ (x : StopReply × Store). StoreWithin max x.1) (is_empty a.call.run) w
        (if_both (StoreWithin max) (is_empty (settled_code f a st)) written (
          pause-StoreWithin max (put_store_run s a.call.run st) a.call.run (settled_code f a st)
            written))
    where
      st : StoreRun
      st = tallied_run a.cost (store_run s a.call.run)

      written : StoreWithin max (put_store_run s a.call.run st)
      written = put-StoreWithin max s a.call.run st (omega (arith, h, w a.call.run)) w

  mark_settled-inflight :
      (s : Store) (a : CallArgs) (r : Bytes)
      → (store_run (mark_settled s a) r).inflight ≡ (store_run s r).inflight
  unfolding mark_settled put_seen put_bucket store_run
  mark_settled-inflight s a r =
      if_both (λ (x : Store). (store_run x r).inflight ≡ (store_run s r).inflight) (is_empty a.run)
        refl
        (ground (
          arith,
          beq_iff a.run r,
          store_run-put s a.run r (record (store_run s a.run) {
            tokens = record (seen_at s a) { settled = insert a.token true (seen_at s a).settled };
          }),
        ))

  pub script_record-StoreWithin :
      {D : Type 0} (f : Float D) (s : Store) (a : SettleArgs)
      → (is_empty a.call.run ≡ true) ⊎ (0 < (store_run s a.call.run).inflight)
      → StoreWithin max s
      → StoreWithin max (script_record f s a).2
  unfolding script_record
  script_record-StoreWithin f s a flying w =
      if_both (λ (x : StopReply × StopReply × Store). StoreWithin max x.2) (settled_before s a.call)
        w
        (same_runs-StoreWithin max (settle_run f (mark_settled s a.call) a).1
          (settle_key f (settle_run f (mark_settled s a.call) a).1 a).1
          (settle_key-runs f (settle_run f (mark_settled s a.call) a).1 a)
          (settle_run-StoreWithin f (mark_settled s a.call) a
            (rw (mark_settled-inflight s a.call a.call.run) flying)
            (mark_settled-StoreWithin s a.call w)))

  pub script_resume-StoreWithin :
      (s : Store) (run : Bytes) → StoreWithin max s → StoreWithin max (script_resume s run).1
  unfolding script_resume store_run
  script_resume-StoreWithin s run w =
      if_both (λ (x : Bool × Store). StoreWithin max x.1) (store_run s run).paused
        (put-StoreWithin max s run _ (omega arith) w) w

  pub script_key_pause-runs :
      (s : Store) (key code : Bytes) (day_pause : Bool) (on_day : Bytes)
      → (script_key_pause s key code day_pause on_day).1.runs ≡ s.runs
  unfolding script_key_pause put_store_key
  script_key_pause-runs s key code day_pause on_day = ground arith

  pub script_key_resume-runs : (s : Store) (key : Bytes) → (script_key_resume s key).1.runs ≡ s.runs
  unfolding script_key_resume put_store_key
  script_key_resume-runs s key = ground arith
