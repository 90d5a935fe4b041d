-- ===== src/Gateway/Store/Operator.antt =====
-- internal/gateway/counter_redis.go: `luaCap`, `luaResume`, `luaKeyResume`, `luaPause` and
-- `luaKeyPause`, and what `SET` and `DEL` of the kill switch do.
use axigate_finops.Prelude.{
  Bool, true, false, ◌&&◌, [], none, some, Bytes, erase, ℤ, pos, if◌then◌else◌,
}
use axigate_finops.Gateway.Store.Records.{
  StoreKey, Store, store_run, store_key, put_store_run, put_store_key, bytes_less, is_new_day,
}
use axigate_finops.Gateway.Store.Admit.{pause_store_run, pause_store_key}

-- `luaCap`
unfoldable pub script_cap : Store → Bytes → ℤ → Store
script_cap s run cap = put_store_run s run (record (store_run s run) { cap = cap })

-- `luaResume`
unfoldable pub script_resume : Store → Bytes → Bool × Store
script_resume s run =
    let st = store_run s run in
    let resumed = record st {
      paused = false;
      reason = some [];
      calls = 0;
      spend = pos 0;
      inflight = 0;
    } in
    let s' = put_store_run s run resumed in
    if st.paused then (true, record s' { paused_runs = erase run s'.paused_runs }) else (false, s)

-- `luaKeyResume`
unfoldable pub script_key_resume : Store → Bytes → Bool × Store
script_key_resume s key =
    let ks = store_key s key in
    let resumed = record ks {
      life_calls = if ks.day_pause then ks.life_calls else 0;
      life_spend = if ks.day_pause then ks.life_spend else pos 0;
      paused = false;
      reason = some [];
      day_pause = false;
      day_calls = 0;
      day_spend = pos 0;
      inflight = 0;
    } in
    let s' = put_store_key s key resumed in
    if ks.paused then (true, record s' { paused_keys = erase key s'.paused_keys }) else (false, s)

-- `luaPause`
unfoldable pub script_pause : Store → Bytes → Bytes → Store
script_pause s run code = pause_store_run s run code

-- Whether a day is earlier than the one the store has for the key.
abbrev pub is_past_day : Bytes → StoreKey → Bool
is_past_day day ks = elim ks.day [ none ↦ false | some d ↦ bytes_less day d ]

-- `luaKeyPause`: whether the pause was written, and the store.
unfoldable pub script_key_pause : Store → Bytes → Bytes → Bool → Bytes → Bool × Store
script_key_pause s key code day_pause on_day =
    let ks = store_key s key in
    let dated = record ks { day = some on_day; day_calls = 0; day_spend = pos 0; inflight = 0 } in
    let s' = if day_pause && is_new_day on_day ks then put_store_key s key dated else s in
    if day_pause && is_past_day on_day ks
    then (false, s)
    else (true, pause_store_key s' key code day_pause)

-- `SET` and `DEL` of the kill switch.
unfoldable pub store_killed : Store → Bool → Store
store_killed s on = record s { killed = on }
