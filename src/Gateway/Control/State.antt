-- ===== src/Gateway/Control/State.antt =====
-- internal/gateway/control.go: the policy, the tallies of a run and of a key, the controller, and
-- how a dollar figure, a key and a reason are written.
--
-- Times are nanoseconds since the zero `time.Time` (the start of year 1, UTC), so the zero time is
-- 0 and the UTC day of a time is a quotient. Numbers that Go keeps as `int` only count calls: they
-- start at 0 and are never driven below it, and a limit that is negative means what 0 means.
use mathlib.Core.List.{reverse}
use axigate_finops.Prelude.{
  ℕ, zero, suc, ◌-◌, ◌/◌, Bool, true, false, ◌&&◌, ◌||◌, List, [], ◌∷◌, ◌++◌, Option, none, some,
  Bytes, str, starts_with, itoa, Dict, Float, zero_usd, positive, micro, leb, ltb, pos, leb_ℤ, ◌==◌,
  if◌then◌else◌, length, take, drop,
}

pub record Policy (D : Type 0) : Type 0 where
  pub max_calls_per_run : ℕ
  pub max_spend_usd_per_run : D
  pub reserve_usd_per_call : D
  pub pause_on_suspected_loop : Bool
  pub max_spend_usd_per_key_day : D
  pub max_spend_usd_per_key : D
  pub shadow : Bool
  pub admin_token : Bytes
  pub allow_request_caps : Bool
  pub max_runs : ℕ

pub record RunState (D : Type 0) : Type 0 where
  pub calls : ℕ
  pub inflight : ℕ
  pub spend_usd : D
  pub max_spend_usd : D
  pub paused : Bool
  pub reason : Bytes
  pub last_seen : ℕ
  pub agent : Bytes
  pub team : Bytes
  pub model : Bytes

pub record KeyState (D : Type 0) : Type 0 where
  pub day : ℕ
  pub day_calls : ℕ
  pub day_spend : D
  pub life_calls : ℕ
  pub life_spend : D
  pub inflight : ℕ
  pub paused : Bool
  pub reason : Bytes
  pub day_pause : Bool
  pub last_seen : ℕ
  pub agent : Bytes
  pub team : Bytes
  pub model : Bytes

pub record StopEvent (D : Type 0) : Type 0 where
  pub run : Bytes
  pub key : Bytes
  pub agent : Bytes
  pub team : Bytes
  pub model : Bytes
  pub reason : Bytes
  pub calls : ℕ
  pub spend_usd : D
  pub at : ℕ
  pub shadow : Bool
  pub day_pause : Bool

-- `on_pause` and `on_pause_sync` say whether a callback is set.
pub record Controller (D : Type 0) : Type 0 where
  pub policy : Policy D
  pub killed : Bool
  pub runs : Dict (RunState D)
  pub keys : Dict (KeyState D)
  pub on_pause : Bool
  pub on_pause_sync : Bool
  pub pending : List (StopEvent D)

-- Nanoseconds in a UTC day. The source compares days as "2006-01-02" texts, which order like the
-- days themselves.
abbrev pub nanos_per_day : ℕ
nanos_per_day = 86400000000000

abbrev pub day_of : ℕ → ℕ
day_of now = now / nanos_per_day

unfoldable pub trim_zeros_left : Bytes → Bytes
trim_zeros_left [] = []
trim_zeros_left (c ∷ s) = if c == b'0' then trim_zeros_left s else c ∷ s

-- `strings.TrimRight(s, "0")`
unfoldable pub trim_zeros : Bytes → Bytes
unfolding trim_zeros_left
trim_zeros s = reverse (trim_zeros_left (reverse s))

-- The bytes behind the first '.', if there is one.
unfoldable pub after_dot : Bytes → Option ℕ
after_dot [] = none
after_dot (c ∷ s) = if c == b'.' then some (length s) else after_dot s

abbrev pub zeros : ℕ → Bytes
zeros zero = []
zeros (suc n) = b'0' ∷ zeros n

abbrev pub pad_cents : Bytes → Option ℕ → Bytes
pad_cents s none = s
pad_cents s (some n) = if ltb n 2 then s ++ zeros (2 - n) else s

-- `[0-9a-f]`
abbrev pub is_hex : ℕ → Bool
is_hex c = (leb b'0' c && leb c b'9') || (leb b'a' c && leb c b'f')

abbrev pub all_hex : Bytes → Bool
all_hex [] = true
all_hex (c ∷ s) = is_hex c && all_hex s

-- `fingerprintShape`, the expression `^k-[0-9a-f]{12}-`.
unfoldable pub is_fingerprint : Bytes → Bool
unfolding starts_with
is_fingerprint key =
    starts_with (str "k-") key
    && length (take 12 (drop 2 key)) == 12
    && all_hex (take 12 (drop 2 key))
    && starts_with (str "-") (drop 14 key)

-- The character '…' in UTF-8.
abbrev pub ellipsis : Bytes
ellipsis = 226 ∷ 128 ∷ 166 ∷ []

abbrev pub suffix_label : Bytes → Bytes → Bytes
suffix_label key [] = str "key " ++ take 12 (drop 2 key)
suffix_label key (c ∷ s) = str "key " ++ ellipsis ++ c ∷ s

unfoldable pub key_label : Bytes → Bytes
key_label key = if is_fingerprint key then suffix_label key (drop 15 key) else str "key " ++ key

abbrev pub killed_reason : Bytes
killed_reason = str "kill switch engaged"

abbrev pub loop_reason : Bytes
loop_reason = str "suspected loop"

abbrev pub call_cap_reason : ℕ → Bytes
call_cap_reason n = str "run reached the call cap of " ++ itoa n

module _ {D : Type 0} ⦃f : Float D⦄ where
  unfoldable pub money : D → Bytes
  unfolding trim_zeros after_dot
  money v = let s = trim_zeros (f.format_fixed 4 v) in str "$" ++ pad_cents s (after_dot s)

  abbrev pub spend_cap_reason : D → Bytes
  spend_cap_reason cap = str "run reached the spend cap of " ++ money cap

  abbrev pub key_cap_reason : Bytes → D → Bytes
  key_cap_reason key cap = key_label key ++ str " reached its spend cap of " ++ money cap

  abbrev pub key_day_reason : Bytes → D → Bytes
  key_day_reason key cap =
      key_label key
      ++ str " reached its daily spend cap of "
      ++ money cap
      ++ str " (resets at midnight UTC)"

  -- `keyCaps`
  unfoldable pub key_caps : Policy D → Bool
  key_caps p = positive p.max_spend_usd_per_key_day || positive p.max_spend_usd_per_key

  -- `active`
  unfoldable pub active : Policy D → Bool
  active p =
      ltb 0 p.max_calls_per_run
      || positive p.max_spend_usd_per_run
      || p.pause_on_suspected_loop
      || p.allow_request_caps
      || positive p.max_spend_usd_per_key_day
      || positive p.max_spend_usd_per_key

  -- `&runState{}`
  abbrev pub fresh_run : RunState D
  fresh_run = record {
    calls = 0;
    inflight = 0;
    spend_usd = zero_usd;
    max_spend_usd = zero_usd;
    paused = false;
    reason = [];
    last_seen = 0;
    agent = [];
    team = [];
    model = [];
  }

  -- `&keyState{day: c.keyDay()}`
  abbrev pub fresh_key : ℕ → KeyState D
  fresh_key now = record {
    day = day_of now;
    day_calls = 0;
    day_spend = zero_usd;
    life_calls = 0;
    life_spend = zero_usd;
    inflight = 0;
    paused = false;
    reason = [];
    day_pause = false;
    last_seen = 0;
    agent = [];
    team = [];
    model = [];
  }

  abbrev pub or_fresh_run : Option (RunState D) → RunState D
  or_fresh_run none = fresh_run
  or_fresh_run (some st) = st

  abbrev pub or_fresh_key : ℕ → Option (KeyState D) → KeyState D
  or_fresh_key now none = fresh_key now
  or_fresh_key now (some ks) = ks

  -- `newController`
  unfoldable pub new_controller : Policy D → Controller D
  new_controller p = record {
    policy = record p { max_runs = if p.max_runs == 0 then 10000 else p.max_runs };
    killed = false;
    runs = [];
    keys = [];
    on_pause = false;
    on_pause_sync = false;
    pending = [];
  }

  -- `micro(v) >= micro(cap)`
  abbrev pub reaches : D → D → Bool
  reaches v cap = leb_ℤ (micro cap) (micro v)

  -- The least a call in flight is taken to cost: the average so far, or the operator's floor when
  -- that is higher.
  unfoldable pub per_call : D → ℕ → D → D
  per_call floor calls spend =
      let avg = f.div spend (f.of_int (pos calls)) in
      if ltb 0 calls && f.less floor avg then avg else floor

  -- Spend with the calls in flight reserved.
  unfoldable pub projected : D → ℕ → D → ℕ → D → D
  projected floor calls average_over inflight spend =
      f.add spend (f.mul (per_call floor calls average_over) (f.of_int (pos inflight)))
