-- ===== src/Gateway/Store/Settle.antt =====
-- internal/gateway/counter_redis.go: `luaRecord` and `luaRelease`, by which the store settles a
-- call once for each id.
use axigate_finops.Prelude.{
  ℕ, ◌+◌, ◌-◌, Bool, true, false, not, ◌&&◌, [], ◌++◌, none, some, Bytes, str, lookup, insert,
  is_empty, ℤ, pos, ◌+ℤ◌, Float, itoa, ltb, leb, if◌then◌else◌,
}
use axigate_finops.Gateway.Store.Records.{
  Attribution, nobody, StoreRun, StoreKey, Store, store_run, store_key, put_store_run,
  put_store_key, decimal, CallArgs, seen_at, put_seen, roll_key,
}
use axigate_finops.Gateway.Store.Admit.{binding_cap, is_positive, pause_store_run, pause_store_key}

pub record SettleArgs : Type 0 where
  pub call : CallArgs
  pub cost : ℤ
  pub loop : Bool
  pub max_calls : ℕ
  pub cap : ℤ
  pub pause_on_loop : Bool
  pub key_day_cap : ℤ
  pub key_life_cap : ℤ

-- What the settlement says of a run or of a key: whether it stopped it, why, and the tallies.
pub record StopReply : Type 0 where
  pub transitioned : Bool
  pub code : Bytes
  pub calls : ℕ
  pub spend : ℤ
  pub who : Attribution

abbrev pub silent : Bytes → StopReply
silent code = record { transitioned = false; code = code; calls = 0; spend = pos 0; who = nobody }

unfoldable pub settled_before : Store → CallArgs → Bool
settled_before s a = elim (lookup a.token (seen_at s a).settled) [ none ↦ false | some _ ↦ true ]

-- `HSETNX` of the settlement's id.
unfoldable pub mark_settled : Store → CallArgs → Store
mark_settled s a =
    let ts = seen_at s a in put_seen s a (record ts { settled = insert a.token true ts.settled })

-- The call is no longer in flight and counts with its cost.
unfoldable pub tallied_run : ℤ → StoreRun → StoreRun
tallied_run cost st = record st {
  inflight = st.inflight - 1;
  calls = st.calls + 1;
  spend = st.spend +ℤ cost;
}

unfoldable pub tallied_key : ℤ → StoreKey → StoreKey
tallied_key cost ks = record ks {
  inflight = ks.inflight - 1;
  day_calls = ks.day_calls + 1;
  day_spend = ks.day_spend +ℤ cost;
  life_calls = ks.life_calls + 1;
  life_spend = ks.life_spend +ℤ cost;
}

module _ {D : Type 0} (f : Float D) where
  -- `amount >= cap`, for a cap that is set.
  abbrev pub settled_reaches : ℤ → ℤ → Bool
  settled_reaches amount cap = is_positive f cap && not (f.less (f.of_int amount) (f.of_int cap))

  -- The code of what the settled run has reached.
  unfoldable pub settled_code : SettleArgs → StoreRun → Bytes
  settled_code a st =
      let cap = binding_cap f a.cap st.cap in
      if st.paused
      then []
      else if ltb 0 a.max_calls && leb a.max_calls st.calls
      then str "calls:" ++ itoa a.max_calls
      else if settled_reaches st.spend cap
      then str "spend:" ++ decimal cap
      else if a.loop && a.pause_on_loop
      then str "loop"
      else []

  unfoldable pub settled_key_code : SettleArgs → StoreKey → Bytes × Bool
  settled_key_code a ks =
      if ks.paused
      then ([], false)
      else if settled_reaches ks.life_spend a.key_life_cap
      then (str "klife:" ++ decimal a.key_life_cap, false)
      else if settled_reaches ks.day_spend a.key_day_cap
      then (str "kday:" ++ decimal a.key_day_cap, true)
      else ([], false)

  abbrev pub settle_run : Store → SettleArgs → StopReply × Store
  settle_run s a =
      let st = tallied_run a.cost (store_run s a.call.run) in
      let s' = put_store_run s a.call.run st in
      let code = settled_code a st in
      let reply : StopReply = record {
        transitioned = not (is_empty code);
        code = code;
        calls = st.calls;
        spend = st.spend;
        who = st.who;
      } in
      if is_empty a.call.run
      then (silent [], s)
      else (reply, if is_empty code then s' else pause_store_run s' a.call.run code)

  abbrev pub settled_key_reply : StoreKey → Bytes × Bool → StopReply
  settled_key_reply ks (code, day_pause) = record {
    transitioned = not (is_empty code);
    code = code;
    calls = if day_pause then ks.day_calls else ks.life_calls;
    spend = if day_pause then ks.day_spend else ks.life_spend;
    who = ks.who;
  }

  abbrev pub settled_key_store : Store → Bytes → Bytes × Bool → Store
  settled_key_store s key (code, day_pause) =
      if is_empty code then s else pause_store_key s key code day_pause

  abbrev pub settle_key : Store → SettleArgs → StopReply × Store
  settle_key s a =
      let rolled = roll_key s a.call.key a.call.today in
      let ks = tallied_key a.cost (store_key rolled a.call.key) in
      let s' = put_store_key rolled a.call.key ks in
      let stop = settled_key_code a ks in
      if is_empty a.call.key
      then (silent [], s)
      else (settled_key_reply ks stop, settled_key_store s' a.call.key stop)

  -- `luaRecord`: the run's part of the reply, the key's, and the store.
  unfoldable pub script_record : Store → SettleArgs → StopReply × StopReply × Store
  script_record s a =
      let (run_part, s') = settle_run (mark_settled s a.call) a in
      let (key_part, s'') = settle_key s' a in
      if settled_before s a.call
      then (silent (str "dup"), silent [], s)
      else (run_part, key_part, s'')

abbrev pub drop_run_inflight : Store → Bytes → Store
drop_run_inflight s run =
    let st = store_run s run in
    if is_empty run then s else put_store_run s run (record st { inflight = st.inflight - 1 })

abbrev pub drop_key_inflight : Store → Bytes → Store
drop_key_inflight s key =
    let ks = store_key s key in
    if is_empty key
    then s
    else if ltb 0 ks.inflight
    then put_store_key s key (record ks { inflight = ks.inflight - 1 })
    else s

-- `luaRelease`: whether the release counted, and the store.
unfoldable pub script_release : Store → CallArgs → Bool × Store
script_release s a =
    let s' = drop_run_inflight (mark_settled s a) a.run in
    if settled_before s a then (false, s) else (true, drop_key_inflight s' a.key)
