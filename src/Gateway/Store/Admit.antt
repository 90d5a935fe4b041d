-- ===== src/Gateway/Store/Admit.antt =====
-- internal/gateway/counter_redis.go: `luaAdmit`, the admission of a call by the shared store.
--
-- Lua's numbers are doubles: a comparison of amounts is one of the operations of float64.
use axigate_finops.Prelude.{
  ℕ, ◌+◌, Bool, true, false, not, ◌&&◌, ◌||◌, [], ◌++◌, Option, none, some, Bytes, str, lookup,
  insert, beq, is_empty, starts_with, ℤ, pos, Float, itoa, ltb, leb, if◌then◌else◌,
}
use axigate_finops.Gateway.Store.Records.{
  Attribution, StoreRun, StoreKey, Store, or_else, store_run, store_key, put_store_run,
  put_store_key, decimal, CallArgs, seen_at, put_seen, roll_key,
}

pub record AdmitArgs : Type 0 where
  pub call : CallArgs
  pub bypass : Bool
  pub shadow : Bool
  pub max_calls : ℕ
  pub cap : ℤ
  pub floor : ℤ
  pub key_day_cap : ℤ
  pub key_life_cap : ℤ
  pub who : Attribution

pub record AdmitReply : Type 0 where
  pub ok : Bool
  pub code : Bytes
  pub transitioned : Bool
  pub calls : ℕ
  pub spend : ℤ
  pub who : Attribution
  pub by_key : Bool

abbrev pub served : Bytes
served = str "1"

abbrev pub bare_reply : Bool → Bytes → Bool → AdmitReply
bare_reply ok code by_key = record {
  ok = ok;
  code = code;
  transitioned = false;
  calls = 0;
  spend = pos 0;
  who = record { agent = []; team = []; model = [] };
  by_key = by_key;
}

-- A field is set only to a text that is not empty.
abbrev pub attributed : Attribution → Attribution → Attribution
attributed old new = record {
  agent = if is_empty new.agent then old.agent else new.agent;
  team = if is_empty new.team then old.team else new.team;
  model = if is_empty new.model then old.model else new.model;
}

unfoldable pub touch_run : Store → AdmitArgs → Store
touch_run s a =
    let st = store_run s a.call.run in
    if is_empty a.call.run
    then s
    else put_store_run s a.call.run (record st { who = attributed st.who a.who })

abbrev attribute_key : Store → AdmitArgs → Store
attribute_key s a =
    let ks = store_key s a.call.key in
    put_store_key s a.call.key (record ks { who = attributed ks.who a.who })

unfoldable pub touch_key : Store → AdmitArgs → Store
touch_key s a =
    if is_empty a.call.key then s else attribute_key (roll_key s a.call.key a.call.today) a

-- The answer to the id is written where it is looked for.
abbrev pub remember : Store → CallArgs → Bytes → Store
remember s a code =
    let ts = seen_at s a in put_seen s a (record ts { admits = insert a.token code ts.admits })

abbrev pub add_run_inflight : Store → Bytes → Store
add_run_inflight s run =
    let st = store_run s run in put_store_run s run (record st { inflight = st.inflight + 1 })

abbrev pub add_key_inflight : Store → Bytes → Store
add_key_inflight s key =
    let ks = store_key s key in put_store_key s key (record ks { inflight = ks.inflight + 1 })

-- `reserve`
unfoldable pub reserve_call : Store → CallArgs → Store
reserve_call s a =
    let s' = if is_empty a.run then s else remember (add_run_inflight s a.run) a served in
    let with_key = add_key_inflight s' a.key in
    if is_empty a.key then s' else if is_empty a.run then remember with_key a served else with_key

abbrev pub run_reply : StoreRun → Bool → Bytes → Bool → AdmitReply
run_reply st ok code transitioned = record {
  ok = ok;
  code = code;
  transitioned = transitioned;
  calls = st.calls;
  spend = st.spend;
  who = st.who;
  by_key = false;
}

abbrev pub key_reply : StoreKey → Bool → Bytes → Bool → ℕ → ℤ → AdmitReply
key_reply ks ok code transitioned calls spend = record {
  ok = ok;
  code = code;
  transitioned = transitioned;
  calls = calls;
  spend = spend;
  who = ks.who;
  by_key = true;
}

abbrev pub paused_text : Option Bytes → Bytes
paused_text r = or_else (str "paused") r

abbrev pub pause_store_run : Store → Bytes → Bytes → Store
pause_store_run s run code =
    let s' = record s { paused_runs = insert run true s.paused_runs } in
    put_store_run s' run (record (store_run s run) { paused = true; reason = some code })

abbrev pub pause_store_key : Store → Bytes → Bytes → Bool → Store
pause_store_key s key code day_pause =
    let s' = record s { paused_keys = insert key true s.paused_keys } in
    put_store_key s' key
      (record (store_key s key) { paused = true; reason = some code; day_pause = day_pause })

-- An id that was answered before.
abbrev pub replayed : Bytes → AdmitReply
replayed seen =
    if beq seen served
    then bare_reply true (str "dup") false
    else bare_reply false seen (starts_with (str "k") seen)

module _ {D : Type 0} (f : Float D) where
  abbrev pub is_positive : ℤ → Bool
  is_positive n = f.less (f.literal 0 0) (f.of_int n)

  -- What a call in flight is taken to cost: the floor, or the average so far if that is higher.
  unfoldable pub per_flight : ℤ → ℕ → ℤ → D
  per_flight floor calls spend =
      let avg = f.div (f.of_int spend) (f.of_int (pos calls)) in
      if ltb 0 calls && f.less (f.of_int floor) avg then avg else f.of_int floor

  -- `spend + per * inflight >= cap`, for a cap that is set.
  unfoldable pub cap_reached : D → ℤ → ℕ → ℤ → Bool
  cap_reached per spend inflight cap =
      is_positive cap
      && not (f.less (f.add (f.of_int spend) (f.mul per (f.of_int (pos inflight)))) (f.of_int cap))

  -- The code of the key's cap that the call meets, and whether it is the daily one.
  unfoldable pub key_code : AdmitArgs → StoreKey → Bytes × Bool
  key_code a ks =
      let per = per_flight a.floor ks.life_calls ks.life_spend in
      if cap_reached per ks.life_spend ks.inflight a.key_life_cap
      then (str "klife:" ++ decimal a.key_life_cap, false)
      else if cap_reached per ks.day_spend ks.inflight a.key_day_cap
      then (str "kday:" ++ decimal a.key_day_cap, true)
      else ([], false)

  -- The stricter of the server's cap and the run's own.
  unfoldable pub binding_cap : ℤ → ℤ → ℤ
  binding_cap cap own =
      if is_positive own
        && (f.equal (f.of_int cap) (f.literal 0 0) || f.less (f.of_int own) (f.of_int cap))
      then own
      else cap

  -- The code of the run's cap that the call meets.
  unfoldable pub run_code : AdmitArgs → StoreRun → Bytes
  run_code a st =
      let cap = binding_cap a.cap st.cap in
      let per = per_flight a.floor st.calls st.spend in
      if ltb 0 a.max_calls && leb a.max_calls (st.calls + st.inflight)
      then str "calls:" ++ itoa a.max_calls
      else if cap_reached per st.spend st.inflight cap
      then str "spend:" ++ decimal cap
      else []

  -- The caps of the run.
  abbrev pub admit_run_caps : Store → AdmitArgs → AdmitReply × Store
  admit_run_caps s a =
      let st = store_run s a.call.run in
      let code = run_code a st in
      let stopped = pause_store_run s a.call.run code in
      if is_empty a.call.run || (a.bypass || is_empty code)
      then (run_reply st true [] false, reserve_call s a.call)
      else if a.shadow
      then (run_reply st true code true, reserve_call stopped a.call)
      else (run_reply st false code true, remember stopped a.call code)

  abbrev pub key_stop : Store → AdmitArgs → StoreKey → Bytes × Bool → AdmitReply × Store
  key_stop s a ks (code, day_pause) =
      let stopped = pause_store_key s a.call.key code day_pause in
      let calls = if day_pause then ks.day_calls else ks.life_calls in
      let spend = if day_pause then ks.day_spend else ks.life_spend in
      if is_empty code
      then admit_run_caps s a
      else if a.shadow
      then (key_reply ks true code true calls spend, reserve_call stopped a.call)
      else (key_reply ks false code true calls spend, remember stopped a.call code)

  -- The caps of the key.
  abbrev pub admit_key_caps : Store → AdmitArgs → AdmitReply × Store
  admit_key_caps s a =
      let ks = store_key s a.call.key in
      if is_empty a.call.key || a.bypass
      then admit_run_caps s a
      else key_stop s a ks (key_code a ks)

  -- A pause of the run or of the key that stands already.
  abbrev pub admit_paused : Store → AdmitArgs → AdmitReply × Store
  admit_paused s a =
      let st = store_run s a.call.run in
      let ks = store_key s a.call.key in
      let run_reason = if a.shadow then paused_text st.reason else [] in
      let key_reason = if a.shadow then paused_text ks.reason else [] in
      let by_run = not (is_empty a.call.run) && st.paused in
      let by_key = not (is_empty a.call.key) && ks.paused in
      if by_run
      then (if a.bypass || a.shadow
          then (run_reply st true run_reason false, reserve_call s a.call)
          else (run_reply st false (paused_text st.reason) false, s))
      else if by_key
      then (if a.bypass || a.shadow
          then (key_reply ks true key_reason false ks.day_calls ks.day_spend, reserve_call s a.call)
          else (key_reply ks false (paused_text ks.reason) false ks.day_calls ks.day_spend, s))
      else admit_key_caps s a

  -- The answer, given what the id was answered before.
  abbrev pub admit_once : Store → AdmitArgs → Option Bytes → AdmitReply × Store
  admit_once s a (some seen) = (replayed seen, s)
  admit_once s a none =
      if s.killed
      then (bare_reply false (str "killed") false, s)
      else admit_paused (touch_key (touch_run s a) a) a

  -- `luaAdmit`
  unfoldable pub script_admit : Store → AdmitArgs → AdmitReply × Store
  script_admit s a = admit_once s a (lookup a.call.token (seen_at s a.call).admits)
