-- ===== src/Gateway/Loop/Detect.antt =====
-- internal/gateway/loop.go: the detector's state, `newDetector`, `observe` and `evict`.
--
-- Times are nanoseconds since the zero `time.Time`, a window is a number of nanoseconds, and a
-- time after the cutoff `now - window` is one whose sum with the window is past `now`. A limit
-- that is negative means what 0 means.
use axigate_finops.Prelude.{
  ℕ, suc, ◌+◌, Bool, false, List, [], ◌∷◌, ◌++◌, none, some, Bytes, str, Dict, lookup, insert, leb,
  ltb, ◌==◌, if◌then◌else◌, ◌&&◌, ◌||◌, length, filter,
}
use axigate_finops.Gateway.Control.Evict.{evict_map}

pub record LoopPolicy : Type 0 where
  pub window : ℕ
  pub max_per_run : ℕ
  pub max_repeat : ℕ
  pub max_runs : ℕ

pub record Decision : Type 0 where
  pub suspected : Bool
  pub signal : Bytes
  pub count : ℕ
  pub repeat : ℕ

-- `ev`: the time and the signature of a request.
abbrev pub Ev : Type 0
Ev = ℕ × Bytes

pub record RunWindow : Type 0 where
  pub events : List Ev
  pub last_seen : ℕ

pub record Detector : Type 0 where
  pub policy : LoopPolicy
  pub runs : Dict RunWindow

-- `active`
unfoldable pub detection_active : LoopPolicy → Bool
detection_active p = ltb 0 p.max_per_run || ltb 0 p.max_repeat

abbrev default_if_zero : ℕ → ℕ → ℕ
default_if_zero d n = if n == 0 then d else n

-- `newDetector`
unfoldable pub new_detector : LoopPolicy → Detector
new_detector p = record {
  policy = record p {
    max_runs = default_if_zero 10000 p.max_runs;
    window = default_if_zero 60000000000 p.window;
  };
  runs = [];
}

abbrev pub count_of : Bytes → Dict ℕ → ℕ
count_of s m = elim (lookup s m) [ none ↦ 0 | some n ↦ n ]

-- The loop over `bySig`: how often each signature stands so far, and the largest such number.
unfoldable pub tally : List Ev → Dict ℕ → ℕ → ℕ
tally [] by_sig repeat = repeat
tally ((t, s) ∷ es) by_sig repeat =
    let n = suc (count_of s by_sig) in
    tally es (insert s n by_sig) (if ltb repeat n then n else repeat)

unfoldable pub most_repeated : List Ev → ℕ
most_repeated es = tally es [] 0

-- `strings.Join(signals, "+")`
abbrev join_signals : Bool → Bool → Bytes
join_signals rate repeat =
    if rate
    then (if repeat then str "rate+repeat" else str "rate")
    else if repeat
    then str "repeat"
    else []

-- The decision on the requests of one run in the window, this one included.
unfoldable pub decide : LoopPolicy → List Ev → Decision
decide p es =
    let count = length es in
    let repeat = if ltb 0 p.max_repeat then most_repeated es else 0 in
    let by_rate = ltb 0 p.max_per_run && leb p.max_per_run count in
    let by_repeat = ltb 0 p.max_repeat && leb p.max_repeat repeat in
    record {
      suspected = by_rate || by_repeat;
      signal = join_signals by_rate by_repeat;
      count = count;
      repeat = repeat;
    }

-- `t.After(cutoff)`
abbrev pub after_cutoff : ℕ → ℕ → ℕ → Bool
after_cutoff window now t = ltb now (t + window)

abbrev pub in_window : ℕ → ℕ → Ev → Bool
in_window window now e = after_cutoff window now e.0

unfoldable pub events_of : Bytes → Dict RunWindow → List Ev
events_of run m = elim (lookup run m) [ none ↦ [] | some w ↦ w.events ]

-- The runs whose last request is still in the window.
unfoldable pub expire : ℕ → ℕ → Dict RunWindow → Dict RunWindow
expire window now [] = []
expire window now ((r, w) ∷ m) =
    let rest = expire window now m in
    if after_cutoff window now w.last_seen then (r, w) ∷ rest else rest

abbrev pub never : RunWindow → Bool
never w = false

abbrev pub window_seen : RunWindow → ℕ
window_seen w = w.last_seen

-- `evict`
unfoldable pub evict_windows : LoopPolicy → ℕ → Dict RunWindow → Dict RunWindow
evict_windows p now m = evict_map never window_seen p.max_runs (expire p.window now m)

-- The requests of the run that are kept, and this one.
unfoldable pub windowed : LoopPolicy → Dict RunWindow → Bytes → Bytes → ℕ → List Ev
windowed p m run sig now = filter (in_window p.window now) (events_of run m) ++ (now, sig) ∷ []

-- `observe`
unfoldable pub observe : Detector → Bytes → Bytes → ℕ → Decision × Detector
observe d run sig now =
    let es = windowed d.policy d.runs run sig now in
    let runs = insert run (record { events = es; last_seen = now }) d.runs in
    (decide d.policy es, record d { runs = evict_windows d.policy now runs })
