-- ===== src/Gateway/Store/Tests.antt =====
-- internal/gateway/counter_redis.go: the scripts on concrete records.
use axigate_finops.Prelude.{◌≡◌, refl, false, [], str, pos, itoa, fixed_float, lookup, insert, beq}
use axigate_finops.Gateway.Store.Records.{
  Store, store_run, CallArgs, nobody, seen_at, put_seen, put_store_run,
}
use axigate_finops.Gateway.Store.Admit.{
  AdmitArgs, touch_run, touch_key, reserve_call, per_flight, cap_reached, binding_cap, run_code,
  script_admit,
}
use axigate_finops.Gateway.Store.Settle.{SettleArgs, script_record}
use axigate_finops.Gateway.Store.Trace.{StoreReach, start, then_step, admits, settles}

abbrev empty_store : Store
empty_store = record {
  killed = false;
  runs = [];
  keys = [];
  key_tokens = [];
  paused_runs = [];
  paused_keys = [];
}

abbrev first_call : CallArgs
first_call = record { run = str "a"; key = []; token = str "20260102.x1"; today = str "2026-01-02" }

abbrev second_call : CallArgs
second_call = record first_call { token = str "20260102.x2" }

-- One call for a run, and no cap in dollars.
abbrev one_call : AdmitArgs
one_call = record {
  call = first_call;
  bypass = false;
  shadow = false;
  max_calls = 1;
  cap = pos 0;
  floor = pos 0;
  key_day_cap = pos 0;
  key_life_cap = pos 0;
  who = nobody;
}

abbrev next_call : AdmitArgs
next_call = record one_call { call = second_call }

abbrev cost_of_call : SettleArgs
cost_of_call = record {
  call = first_call;
  cost = pos 250000;
  loop = false;
  max_calls = 1;
  cap = pos 0;
  pause_on_loop = false;
  key_day_cap = pos 0;
  key_life_cap = pos 0;
}

-- The second call in flight together with the first is refused, by its code.
second_refused :
    (script_admit fixed_float (script_admit fixed_float empty_store one_call).1 next_call).0.code
    ≡ str "calls:1"
unfolding script_admit touch_run touch_key run_code binding_cap per_flight cap_reached seen_at
    store_run lookup insert reserve_call put_seen put_store_run beq itoa
second_refused = refl

abbrev after_call : Store
after_call =
    (script_record fixed_float (script_admit fixed_float empty_store one_call).1 cost_of_call).2

abbrev admit_and_settle : StoreReach fixed_float empty_store after_call
admit_and_settle = then_step (then_step start (admits one_call)) (settles cost_of_call)
