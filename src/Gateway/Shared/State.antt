-- ===== src/Gateway/Shared/State.antt =====
-- internal/gateway/counter_redis.go: the state of the shared counter, what the store still has to
-- take, and what is asked of the store.
--
-- Each method runs as a whole here: another goroutine that holds the lock in between is another
-- method that runs before or after. What a goroutine of its own does (`go s.flush()`) is the method
-- that it calls, which may run at any later time.
use axigate_finops.Prelude.{
  ℕ, ◌+◌, Bool, true, false, not, ◌&&◌, ◌||◌, List, [], ◌∷◌, ◌++◌, Bytes, str, starts_with, Dict, ℤ,
  Float, micro,
}
use axigate_finops.Gateway.Control.State.{Policy, StopEvent, Controller}
use axigate_finops.Gateway.Store.Records.{Attribution, CallArgs}
use axigate_finops.Gateway.Store.Admit.{AdmitArgs}
use axigate_finops.Gateway.Store.Settle.{SettleArgs}
pub use axigate_finops.Gateway.Resp.Client.{
  StoreError, pool_busy, error_reply, dial_failed, answer_dropped, error_text, Outcome, answer,
  failed,
}
use axigate_finops.Gateway.Shared.Date.{today_text, compact_date, base36}

-- The kind of an owed item, a letter in the source: r, l, p, P, u, U, c.
pub data OwedKind : Type 0 where
  owes_record : OwedKind
  owes_release : OwedKind
  owes_pause : OwedKind
  owes_key_pause : OwedKind
  owes_resume : OwedKind
  owes_key_resume : OwedKind
  owes_cap : OwedKind

-- `owed`
pub record Owed (D : Type 0) : Type 0 where
  pub kind : OwedKind
  pub run : Bytes
  pub key : Bytes
  pub token : Bytes
  pub cost_usd : D
  pub loop : Bool
  pub reason : Bytes
  pub cap_usd : D
  pub day : Bool
  pub on_day : Bytes

-- `keyPauseNote`; the day is empty unless the pause was made by the daily cap.
pub record KeyPauseNote : Type 0 where
  pub reason : Bytes
  pub day : Bytes

-- `sharedCounter`, less what never changes and is told apart by no method (addresses and names of
-- keys). `on_pause` says whether the callback is set, and `alerts` has what it was called with.
pub record Shared (D : Type 0) : Type 0 where
  pub policy : Policy D
  pub token_base : Bytes
  pub token_seq : ℕ
  pub local : Controller D
  pub degraded : Bool
  pub degraded_since : ℕ
  pub last_err : Bytes
  pub outages : ℕ
  pub last_since : ℕ
  pub last_until : ℕ
  pub local_decided : ℕ
  pub busy_decided : ℕ
  pub one_off_decided : ℕ
  pub fail_streak : ℕ
  pub killed : Bool
  pub kill_dirty : Bool
  pub kill_gen : ℕ
  pub paused_seen : Dict Bytes
  pub keys_seen : Dict KeyPauseNote
  pub notes : Dict Attribution
  pub key_notes : Dict Attribution
  pub owed : List (Owed D)
  pub delivered_count : ℕ
  pub dropped_count : ℕ
  pub refused_count : ℕ
  pub flushing : Bool
  pub recovering : Bool
  pub on_pause : Bool
  pub alerts : List (StopEvent D)

-- A command or a script with its arguments; amounts are in micro-dollars.
pub data Request : Type 0 where
  ping : Request
  set_kill : Bool → Request
  kill_exists : Request
  ask_status : Request
  send_admit : AdmitArgs → Request
  send_record : SettleArgs → Request
  send_release : CallArgs → Request
  send_pause : Bytes → Bytes → Request
  send_key_pause : Bytes → Bytes → Bool → Bytes → Request
  send_resume : Bytes → Request
  send_key_resume : Bytes → Request
  send_cap : Bytes → ℤ → Request

-- `respClient.do` and `eval`: an outcome of a request, and what becomes of everything beyond this
-- process.
abbrev pub Client : Type 0 → Type 0
Client W = Request → W → Outcome × W

-- The counter with everything beyond it.
pub record Live (D W : Type 0) : Type 0 where
  pub counter : Shared D
  pub world : W

abbrev pub with_counter : {D W : Type 0} → Live D W → Shared D → Live D W
with_counter l s = record l { counter = s }

abbrev pub max_owed : ℕ
max_owed = 10000

abbrev pub max_status_runs : ℕ
max_status_runs = 200

abbrev pub max_notes : ℕ
max_notes = 10000

abbrev pub flush_batch : ℕ
flush_batch = 200

abbrev pub write_back_passes : ℕ
write_back_passes = 3

abbrev pub fail_streak_to_degrade : ℕ
fail_streak_to_degrade = 3

abbrev starts_with_any : List Bytes → Bytes → Bool
starts_with_any [] s = false
starts_with_any (p ∷ ps) s = starts_with p s || starts_with_any ps s

-- `cannotServe`
unfoldable pub cannot_serve : Bytes → Bool
cannot_serve e =
    starts_with_any
      (str "NOAUTH"
        ∷ str "WRONGPASS"
        ∷ str "ERR AUTH"
        ∷ str "LOADING"
        ∷ str "READONLY"
        ∷ str "MOVED"
        ∷ str "ASK"
        ∷ str "MASTERDOWN"
        ∷ str "NOPERM"
        ∷ str "MISCONF"
        ∷ str "OOM"
        ∷ str "NOREPLICAS"
        ∷ str "BUSY"
        ∷ [])
      e

-- `refusal`
unfoldable pub refusal : StoreError → Bool
refusal (error_reply e) = not (cannot_serve e)
refusal (pool_busy e) = false
refusal (dial_failed e) = false
refusal (answer_dropped e) = false

abbrev pub call_args : ℕ → Bytes → Bytes → Bytes → CallArgs
call_args now run key token = record { run = run; key = key; token = token; today = today_text now }

-- `owed{…}` with the fields that the kind does not use left at their zero values.
module _ {D : Type 0} ⦃f : Float D⦄ where
  abbrev pub owed_item : OwedKind → Bytes → Bytes → Owed D
  owed_item kind run key = record {
    kind = kind;
    run = run;
    key = key;
    token = [];
    cost_usd = f.literal 0 0;
    loop = false;
    reason = [];
    cap_usd = f.literal 0 0;
    day = false;
    on_day = [];
  }

  -- `token`, which counts before it writes.
  unfoldable pub next_token : Shared D → ℕ → Bytes × Shared D
  next_token s now =
      let s' = record s { token_seq = s.token_seq + 1 } in
      (compact_date now ++ str "." ++ (s.token_base ++ base36 s'.token_seq), s')

  -- The arguments of the record script.
  unfoldable pub record_args : Shared D → ℕ → Owed D → SettleArgs
  record_args s now o = record {
    call = call_args now o.run o.key o.token;
    cost = micro o.cost_usd;
    loop = o.loop;
    max_calls = s.policy.max_calls_per_run;
    cap = micro s.policy.max_spend_usd_per_run;
    pause_on_loop = s.policy.pause_on_suspected_loop;
    key_day_cap = micro s.policy.max_spend_usd_per_key_day;
    key_life_cap = micro s.policy.max_spend_usd_per_key;
  }

  -- The arguments of the admit script.
  unfoldable pub admit_args : Shared D → ℕ → CallArgs → Bool → Attribution → AdmitArgs
  admit_args s now call bypass who = record {
    call = call;
    bypass = bypass;
    shadow = s.policy.shadow && not bypass;
    max_calls = s.policy.max_calls_per_run;
    cap = micro s.policy.max_spend_usd_per_run;
    floor = micro s.policy.reserve_usd_per_call;
    key_day_cap = micro s.policy.max_spend_usd_per_key_day;
    key_life_cap = micro s.policy.max_spend_usd_per_key;
    who = who;
  }

abbrev pub is_empty_queue : {D : Type 0} → List (Owed D) → Bool
is_empty_queue [] = true
is_empty_queue (o ∷ os) = false

-- `pending`
unfoldable pub still_owing : {D : Type 0} → Shared D → Bool
still_owing s = s.degraded || s.kill_dirty || not (is_empty_queue s.owed)
