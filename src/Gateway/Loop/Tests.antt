-- ===== src/Gateway/Loop/Tests.antt =====
-- internal/gateway/loop.go: the detector on concrete calls.
use axigate_finops.Prelude.{
  ◌≤◌, ◌≡◌, refl, true, insert, beq, lookup, List, [], ◌∷◌, str, length, arith,
}
use axigate_finops.Gateway.Control.Evict.{evict_map}
use axigate_finops.Gateway.Loop.Detect.{
  windowed, events_of, evict_windows, tally, expire, LoopPolicy, new_detector, observe, decide,
  most_repeated,
}
use axigate_finops.Gateway.Loop.History.{Ordered, Call, observed, history, named_runs}
use axigate_finops.Gateway.Loop.Window.{observe-decides}

abbrev loop_policy : LoopPolicy
loop_policy = record { window = 100; max_per_run = 3; max_repeat = 2; max_runs = 2 }

-- Two runs: a request of run a at 10 that leaves the window, then two alike at 105 and 108.
abbrev past_calls : List Call
past_calls =
    (str "a", str "x", 108)
    ∷ (str "b", str "x", 107)
    ∷ (str "a", str "x", 105)
    ∷ (str "a", str "x", 10)
    ∷ []

observe_rate_repeat :
    (observe (observed loop_policy past_calls) (str "a") (str "y") 120).0
    ≡ record { suspected = true; signal = str "rate+repeat"; count = 3; repeat = 2 }
unfolding observe decide observed windowed new_detector events_of lookup most_repeated evict_windows
    tally evict_map expire insert beq
observe_rate_repeat = refl

past-Ordered : Ordered 120 past_calls
past-Ordered = (omega arith, (omega arith, (omega arith, (omega arith, tt))))

past_named : length (named_runs past_calls) ≤ (new_detector loop_policy).policy.max_runs
unfolding named_runs new_detector insert beq
past_named = omega arith

observe-decides_example :
    (observe (observed loop_policy past_calls) (str "a") (str "y") 120).0
    ≡ decide (new_detector loop_policy).policy (
        history
          (new_detector loop_policy).policy.window
          120
          (str "a")
          ((str "a", str "y", 120) ∷ past_calls))
observe-decides_example =
    observe-decides loop_policy (str "a") (str "y") 120 past_calls past-Ordered past_named
