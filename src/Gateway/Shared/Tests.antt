-- ===== src/Gateway/Shared/Tests.antt =====
-- internal/gateway/counter_redis.go: the shared counter with a store that answers so many requests.
use axigate_finops.Prelude.{
  ℕ, ◌+◌, ◌*◌, ◌-◌, ◌≤◌, ◌≡◌, ◌⊎◌, refl, Bool, true, false, List, [], ◌∷◌, ◌++◌, Bytes, str, pos,
  itoa, arith, fixed_float, length, ◌==◌, if◌then◌else◌,
}
use axigate_finops.Gateway.Control.State.{
  Policy, new_controller, killed_reason, call_cap_reason, spend_cap_reason, loop_reason,
  key_cap_reason, key_day_reason,
}
use axigate_finops.Gateway.Store.Records.{decimal}
use axigate_finops.Gateway.Resp.Value.{Value, nil}
use axigate_finops.Gateway.Shared.Date.{civil_date, today_text}
use axigate_finops.Gateway.Shared.Reasons.{reason_text, key_reason, micro_dollars}
use axigate_finops.Gateway.Shared.State.{
  Owed, owed_item, owes_pause, owes_resume, Shared, answer_dropped, set_kill, answer, failed,
  Client, Live, refusal, max_owed,
}
use axigate_finops.Gateway.Shared.Fallback.{put_back, answered}
use axigate_finops.Gateway.Shared.Deliver.{take_item, request_of, deliver_queue, deliver}
use axigate_finops.Gateway.Shared.Recover.{recovered}
use axigate_finops.Gateway.Shared.Calls.{admit_by_script, here, admit_where}
use axigate_finops.Gateway.Shared.Asked.{ask_killed}
use axigate_finops.Gateway.Shared.Fifo.{Delivered, deliver-Delivered}
use axigate_finops.Gateway.Shared.Gap.{Ended, recovered-Ended}
use axigate_finops.Gateway.Shared.Owing.{owe_all, keep_last, owe_all-keep_last}
use axigate_finops.Gateway.Shared.Kill.{ask_killed-refuses}
use axigate_finops.Gateway.Shared.Words.{IsSent, noting, admit_by_script-IsSent}
use axigate_finops.Gateway.Shared.Codes.{reason_text-codes}

-- A store that answers `n` requests more, each with nil, and drops the rest.
abbrev answers_for : Client ℕ
answers_for q n = if n == 0 then (failed (answer_dropped (str "EOF")), 0) else (answer nil, n - 1)

abbrev shared_policy : Policy ℕ
shared_policy = record {
  max_calls_per_run = 5;
  max_spend_usd_per_run = 0;
  reserve_usd_per_call = 0;
  pause_on_suspected_loop = false;
  max_spend_usd_per_key_day = 0;
  max_spend_usd_per_key = 0;
  shadow = false;
  admin_token = [];
  allow_request_caps = false;
  max_runs = 10;
}

abbrev owed_three : List (Owed ℕ)
owed_three =
    owed_item owes_pause (str "a") []
    ∷ owed_item owes_resume (str "b") []
    ∷ owed_item owes_resume (str "a") []
    ∷ []

-- A counter in a gap, with the kill switch set and three items owed.
abbrev in_gap : Shared ℕ
in_gap = record {
  policy = shared_policy;
  token_base = str "t";
  token_seq = 0;
  local = new_controller shared_policy;
  degraded = true;
  degraded_since = 7;
  last_err = [];
  outages = 1;
  last_since = 7;
  last_until = 0;
  local_decided = 0;
  busy_decided = 0;
  one_off_decided = 0;
  fail_streak = 0;
  killed = true;
  kill_dirty = true;
  kill_gen = 1;
  paused_seen = [];
  keys_seen = [];
  notes = [];
  key_notes = [];
  owed = owed_three;
  delivered_count = 0;
  dropped_count = 0;
  refused_count = 0;
  flushing = false;
  recovering = false;
  on_pause = false;
  alerts = [];
}

-- The store takes the kill switch and the first item, and drops the second.
abbrev two_answers : Live ℕ ℕ
two_answers = record { counter = in_gap; world = 2 }

deliver_two :
    (deliver answers_for 9 two_answers).2.counter.owed
    ≡ owed_item owes_resume (str "b") [] ∷ owed_item owes_resume (str "a") [] ∷ []
unfolding deliver deliver_queue take_item request_of put_back answered refusal
deliver_two = refl

today_text_2024 : today_text (738944 * 86400000000000 + 5) ≡ str "2024-02-29"
unfolding today_text civil_date
today_text_2024 = refl

deliver-Delivered_example :
    Delivered in_gap
      (deliver answers_for 9 two_answers).1
      (deliver answers_for 9 two_answers).2.counter
deliver-Delivered_example = deliver-Delivered answers_for 9 two_answers

recovered-Ended_example : Ended in_gap (recovered answers_for 9 two_answers).counter
recovered-Ended_example = recovered-Ended answers_for 9 two_answers refl refl

owe_all-keep_last_example :
    ((owe_all in_gap owed_three).owed ≡ keep_last max_owed (owed_three ++ owed_three))
    × ((owe_all in_gap owed_three).dropped_count + length (owe_all in_gap owed_three).owed
        ≡ 0 + 3 + 3)
    × (length (owe_all in_gap owed_three).owed ≤ max_owed)
owe_all-keep_last_example = owe_all-keep_last in_gap owed_three (omega arith)

ask_killed-refuses_example :
    ((v : Value) × ((answers_for (set_kill true) 2).0 ≡ answer v))
    ⊎ ((later : ℕ) (run key : Bytes) (bypass : Bool)
        → (admit_where answers_for later
            (ask_killed answers_for 9 two_answers true)
            run
            key
            bypass).0
          ≡ (false, killed_reason, here))
ask_killed-refuses_example = ask_killed-refuses answers_for 9 two_answers

reason_text-codes_example :
    (reason_text fixed_float (str "calls:" ++ itoa 5) ≡ call_cap_reason 5)
    × (reason_text fixed_float (str "spend:" ++ decimal (pos 5))
        ≡ spend_cap_reason (micro_dollars fixed_float (pos 5)))
    × (reason_text fixed_float (str "loop") ≡ loop_reason)
    × (reason_text fixed_float (str "text:" ++ str "x") ≡ str "x")
    × (key_reason fixed_float (str "kday:" ++ decimal (pos 5)) (str "k")
        ≡ key_day_reason (str "k") (micro_dollars fixed_float (pos 5)))
    × (key_reason fixed_float (str "klife:" ++ decimal (pos 5)) (str "k")
        ≡ key_cap_reason (str "k") (micro_dollars fixed_float (pos 5)))
reason_text-codes_example = reason_text-codes fixed_float 5 (str "k") (str "x") (omega arith)

admit_by_script-IsSent_example :
    let r =
      admit_by_script
        (noting answers_for)
        9
        (record { counter = in_gap; world = (2, []) })
        (str "a")
        (str "k")
        false in
    IsSent (str "a") (str "k") false r.1.world.1 r.0
admit_by_script-IsSent_example =
    admit_by_script-IsSent answers_for 9 in_gap 2 (str "a") (str "k") false
