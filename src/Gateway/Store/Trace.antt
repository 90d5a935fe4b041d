-- ===== src/Gateway/Store/Trace.antt =====
-- internal/gateway/counter_redis.go: the scripts as steps of the store, whichever replica sends
-- them, and the call cap over every sequence of them.
--
-- The steps are all that the scripts allow; `IsCapped` says which sequences the cap binds: those
-- whose calls carry neither the bypass nor shadow mode, and without a settlement whose reservation a
-- resume has dropped, since the script then counts that call on top of those let through since.
use axigate_finops.Prelude.{ℕ, ◌<◌, ◌≡◌, ◌⊎◌, Bool, true, Bytes, is_empty, ℤ, Float}
use axigate_finops.Gateway.Store.Records.{Store, store_run, CallArgs}
use axigate_finops.Gateway.Store.Admit.{AdmitArgs, script_admit}
use axigate_finops.Gateway.Store.Settle.{SettleArgs, script_record, script_release}
use axigate_finops.Gateway.Store.Operator.{
  script_cap, script_resume, script_key_resume, script_pause, script_key_pause, store_killed,
}
use axigate_finops.Gateway.Store.Within.{IsDecided}

-- A script that any replica sends.
pub data StoreStep {D : Type 0} (f : Float D) (s : Store) : Store → Type 0 where
  admits : (a : AdmitArgs) → StoreStep f s (script_admit f s a).1
  settles : (a : SettleArgs) → StoreStep f s (script_record f s a).2
  releases : (a : CallArgs) → StoreStep f s (script_release s a).1
  caps : (run : Bytes) (cap : ℤ) → StoreStep f s (script_cap s run cap)
  resumes : (run : Bytes) → StoreStep f s (script_resume s run).1
  pauses : (run code : Bytes) → StoreStep f s (script_pause s run code)
  resumes_key : (key : Bytes) → StoreStep f s (script_key_resume s key).1
  pauses_key :
      (key code : Bytes) (day_pause : Bool) (on_day : Bytes)
      → StoreStep f s (script_key_pause s key code day_pause on_day).1
  kills : (on : Bool) → StoreStep f s (store_killed s on)

pub data StoreReach {D : Type 0} (f : Float D) (s : Store) : Store → Type 0 where
  start : StoreReach f s s
  then_step : {t u : Store} → StoreReach f s t → StoreStep f t u → StoreReach f s u

-- A script that the call cap `max` binds.
abbrev KeepsCap : {D : Type 0} → (f : Float D) (max : ℕ) {s t : Store} → StoreStep f s t → Type 0
KeepsCap f max (admits a) = IsDecided max f a
KeepsCap f max {s} (settles a) =
    (is_empty a.call.run ≡ true) ⊎ (0 < (store_run s a.call.run).inflight)
KeepsCap f max (releases a) = Unit
KeepsCap f max (caps run c) = Unit
KeepsCap f max (resumes run) = Unit
KeepsCap f max (pauses run code) = Unit
KeepsCap f max (resumes_key key) = Unit
KeepsCap f max (pauses_key key code d o) = Unit
KeepsCap f max (kills k) = Unit

abbrev pub IsCapped :
    {D : Type 0} → (f : Float D) (max : ℕ) {s t : Store} → StoreReach f s t → Type 0
IsCapped f max start = Unit
IsCapped f max (then_step r st) = IsCapped f max r × KeepsCap f max st
