-- ===== src/Gateway/Control/Tests.antt =====
-- internal/gateway/control.go: the theorems at concrete controllers, with dollars in nano-dollars.
use axigate_finops.Prelude.{
  ℕ, ◌≡◌, refl, inr, true, false, [], ◌∷◌, some, Bytes, str, lookup, insert, beq, arith,
  fixed_float, fixed_laws, micro, itoa, ap, Dict,
}
use axigate_finops.Gateway.Control.State.{
  projected, per_call, Policy, RunState, KeyState, Controller, fresh_run, fresh_key,
}
use axigate_finops.Gateway.Control.Pause.{spend_cap, key_state, run_state, run_stop}
use axigate_finops.Gateway.Control.Evict.{evict}
use axigate_finops.Gateway.Control.Admit.{Answer, admit_locked}
use axigate_finops.Gateway.Control.Settle.{record_run, release_keyed, tally_run}
use axigate_finops.Gateway.Control.Operator.{resume_run}
use axigate_finops.Gateway.Control.Refusal.{admit-refuses_spent_run, admit-refuses_spent_key}
use axigate_finops.Gateway.Control.Modes.{admit_bypassed, admit_shadow, in_shadow, served_anyway}
use axigate_finops.Gateway.Control.Rollover.{day_pause_expires}
use axigate_finops.Gateway.Control.Resume.{release-admit, admit-resume}
use axigate_finops.Gateway.Control.Crossing.{record_run-stops, record_run-forgets}
use axigate_finops.Gateway.Control.Bound.{evict_bounded}

abbrev bot : Bytes
bot = str "bot"

abbrev key : Bytes
key = str "ci"

-- Two calls or one dollar for each run; three dollars for each key, two in a day.
abbrev policy : Policy ℕ
policy = record {
  max_calls_per_run = 2;
  max_spend_usd_per_run = 1000000000;
  reserve_usd_per_call = 0;
  pause_on_suspected_loop = true;
  max_spend_usd_per_key_day = 2000000000;
  max_spend_usd_per_key = 3000000000;
  shadow = false;
  admin_token = [];
  allow_request_caps = false;
  max_runs = 1;
}

abbrev spent : RunState ℕ
spent = record fresh_run { calls = 1; spend_usd = 1000000000 }

abbrev flying : RunState ℕ
flying = record fresh_run { calls = 1; inflight = 1; spend_usd = 400000000 }

abbrev paused_run : RunState ℕ
paused_run = record spent { paused = true; reason = str "run reached the call cap of 2" }

abbrev key_at_total : KeyState ℕ
key_at_total = record (fresh_key 0) { life_calls = 3; life_spend = 3000000000; paused = true }

abbrev key_at_daily : KeyState ℕ
key_at_daily = record (fresh_key 0) {
  day_calls = 1;
  day_spend = 2000000000;
  life_calls = 1;
  life_spend = 2000000000;
  paused = true;
  day_pause = true;
}

abbrev holding : Dict (RunState ℕ) → Dict (KeyState ℕ) → Controller ℕ
holding runs keys = record {
  policy = policy;
  killed = false;
  runs = runs;
  keys = keys;
  on_pause = true;
  on_pause_sync = false;
  pending = [];
}

admit-refuses_spent_run_example :
    (admit_locked (holding ((bot, spent) ∷ []) []) 7 bot key false).0.0 ≡ false
unfolding lookup beq micro spend_cap projected per_call
admit-refuses_spent_run_example =
    admit-refuses_spent_run fixed_laws (holding ((bot, spent) ∷ []) []) 7 bot key spent refl refl
      refl refl (refl, refl) (inr (refl, refl))

admit-refuses_spent_key_example :
    (admit_locked (holding [] ((key, key_at_daily) ∷ [])) 7 bot key false).0.0 ≡ false
unfolding lookup beq micro key_state projected per_call
admit-refuses_spent_key_example =
    admit-refuses_spent_key fixed_laws (holding [] ((key, key_at_daily) ∷ [])) 7 bot key refl refl
      refl ((refl, refl), (refl, refl)) (inr (refl, refl))

admit_shadow_example :
    (admit_locked (in_shadow (holding ((bot, paused_run) ∷ []) []) true) 7 bot key false).0
    ≡ served_anyway
        (admit_locked (in_shadow (holding ((bot, paused_run) ∷ []) []) false) 7 bot key false).0
admit_shadow_example = admit_shadow (holding ((bot, paused_run) ∷ []) []) 7 bot key false

day_pause_expires_example :
    (admit_locked (holding [] ((key, key_at_daily) ∷ [])) 90000000000000 [] key false).0
    ≡ (true, [])
unfolding lookup beq micro
day_pause_expires_example =
    day_pause_expires fixed_laws (holding [] ((key, key_at_daily) ∷ [])) 90000000000000 key
      key_at_daily refl refl refl refl (omega arith) (inr refl, inr (omega arith))

release-admit_example :
    let c = holding ((bot, record spent { spend_usd = 0 }) ∷ []) [] in
    (run_state (release_keyed (admit_locked c 7 bot [] true).1 bot []) bot).inflight ≡ 0
unfolding lookup beq
release-admit_example =
    (release-admit (holding ((bot, record spent { spend_usd = 0 }) ∷ []) []) 7 bot [] bot true
      (refl, tt) refl
      (ap (λ (a : Answer). a.0)
        (admit_bypassed (holding ((bot, record spent { spend_usd = 0 }) ∷ []) []) 7 bot []))).1

admit-resume_example :
    (admit_locked (resume_run (holding ((bot, paused_run) ∷ []) []) bot).1 7 bot [] false).0
    ≡ (true, [])
unfolding lookup beq micro spend_cap
admit-resume_example =
    (admit-resume fixed_laws (holding ((bot, paused_run) ∷ []) []) 7 bot paused_run refl refl refl
      refl (inr (omega arith))).1

record_run-stops_example :
    (record_run (holding ((bot, flying) ∷ []) []) 7 bot 100000000 false).pending
    ≡ run_stop policy 7 bot
        (record spent { calls = 2; spend_usd = 500000000; last_seen = 7 })
        (str "run reached the call cap of 2")
      ∷ []
unfolding lookup beq micro spend_cap tally_run itoa
record_run-stops_example =
    (record_run-stops (holding ((bot, flying) ∷ []) []) 7 bot 100000000 false (refl, tt) refl
      refl).1

record_run-forgets_example :
    run_state (record_run (holding ((str "old", paused_run) ∷ []) []) 7 bot 900000000 false) bot
    ≡ fresh_run
unfolding lookup beq micro spend_cap tally_run insert
record_run-forgets_example =
    record_run-forgets (holding ((str "old", paused_run) ∷ []) []) 7 bot 900000000 false (refl, tt)
      refl refl (omega arith)

evict_bounded_example :
    lookup bot (evict (holding ((str "a", spent) ∷ (bot, paused_run) ∷ []) [])).runs
    ≡ some paused_run
unfolding lookup beq
evict_bounded_example =
    (evict_bounded (holding ((str "a", spent) ∷ (bot, paused_run) ∷ []) []) bot
        (refl, (refl, tt))).0
      bot paused_run refl refl
