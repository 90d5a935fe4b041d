-- ===== src/Gateway/Shared/Status.antt =====
-- internal/gateway/counter_redis.go: `status` of the shared counter.
use axigate_finops.Prelude.{
  ℕ, ◌%◌, Bool, ◌&&◌, ◌||◌, List, [], ◌∷◌, ◌++◌, Option, none, some, Bytes, str, Dict, insert, ℤ,
  pos_part, pos, Float, itoa, ◌==◌, if◌then◌else◌,
}
use axigate_finops.Gateway.Control.Status.{
  PausedRun, PausedKey, Status, status, policy_report, shadow_note, sort_paused, sort_paused_keys,
}
use axigate_finops.Gateway.Resp.Value.{
  Values, no_values, value, count_values, items, item, as_int, as_string,
}
use axigate_finops.Gateway.Shared.Reasons.{reason_text, key_reason, micro_dollars}
use axigate_finops.Gateway.Shared.State.{
  KeyPauseNote, Shared, StoreError, error_reply, ask_status, Outcome, answer, failed, Client, Live,
}
use axigate_finops.Gateway.Shared.Fallback.{answered, key_note, mirror_kill, is_one, fail}
use axigate_finops.Gateway.Shared.Asked.{CounterReport, report}

-- `Status` with the report of the counter; `paused_total` is `PausedTotal` of the report.
pub record SharedStatus (D : Type 0) : Type 0 where
  pub view : Status D
  pub counter : CounterReport
  pub paused_total : ℕ

abbrev or_zero : Option ℤ → ℤ
or_zero none = pos 0
or_zero (some n) = n

abbrev count_at : ℕ → Values → ℕ
count_at i vs = pos_part (or_zero (as_int (item i vs)))

abbrev is_status_reply : Values → Bool
is_status_reply r =
    count_values r == 4
    && count_values (items (item 2 r)) % 4 == 0
    && count_values (items (item 3 r)) % 5 == 0

module _ {D : Type 0} ⦃f : Float D⦄ where
  abbrev dollars_at : ℕ → Values → D
  dollars_at i vs = micro_dollars f (or_zero (as_int (item i vs)))

  -- The loop over the runs of the reply, four values each.
  unfoldable pub read_runs : Values → List (PausedRun D)
  read_runs (value a (value b (value c (value d vs)))) =
      let one = value a (value b (value c (value d no_values))) in
      record {
        run = as_string a;
        reason = reason_text f (as_string b);
        calls = count_at 2 one;
        spend_usd = dollars_at 3 one;
      }
      ∷ read_runs vs
  read_runs _ = []

  -- The loop over the keys of the reply, five values each.
  unfoldable pub read_keys : Values → List (PausedKey D)
  read_keys (value a (value b (value c (value d (value e vs))))) =
      let one = value a (value b (value c (value d (value e no_values)))) in
      record {
        key = as_string a;
        reason = key_reason f (as_string b) (as_string a);
        calls_today = count_at 2 one;
        spend_usd_today = dollars_at 3 one;
        total_usd = dollars_at 4 one;
      }
      ∷ read_keys vs
  read_keys _ = []

  abbrev runs_noted : List (PausedRun D) → Dict Bytes → Dict Bytes
  runs_noted [] m = m
  runs_noted (p ∷ ps) m = runs_noted ps (insert p.run p.reason m)

  abbrev keys_noted : ℕ → List (PausedKey D) → Dict KeyPauseNote → Dict KeyPauseNote
  keys_noted now [] m = m
  keys_noted now (p ∷ ps) m = keys_noted now ps (insert p.key (key_note now p.reason) m)

  -- What the counter keeps of a reply of the status script.
  unfoldable pub noted_status : ℕ → Shared D → Values → Shared D
  noted_status now s r =
      let s' = mirror_kill (answered s) (is_one (as_int (item 0 r))) in
      record s' {
        paused_seen = runs_noted (read_runs (items (item 2 r))) [];
        keys_seen = keys_noted now (read_keys (items (item 3 r))) [];
      }

  unfoldable pub status_of_store : ℕ → Shared D → Values → SharedStatus D × Shared D
  status_of_store now s r =
      let s' = noted_status now s r in
      let killed = is_one (as_int (item 0 r)) || (s'.kill_dirty && s'.killed) in
      (
        record {
          view = record {
            killed = killed;
            note = shadow_note s'.policy killed;
            paused_runs = sort_paused (read_runs (items (item 2 r)));
            paused_keys = sort_paused_keys (read_keys (items (item 3 r)));
            runs = count_at 1 r;
            policy = policy_report s'.policy;
          };
          counter = report s';
          paused_total = count_at 1 r;
        },
        s',
      )

  -- The view of the fallback.
  unfoldable pub status_of_fallback : ℕ → Shared D → SharedStatus D × Shared D
  status_of_fallback now s =
      let own = status s.local now in
      (
        record {
          view = record own {
            note = shadow_note s.policy own.killed;
            policy = policy_report s.policy;
          };
          counter = report s;
          paused_total = 0;
        },
        s,
      )

  abbrev status_failed : ℕ → Shared D → StoreError → SharedStatus D × Shared D
  status_failed now s e = status_of_fallback now (fail s now e)

  abbrev status_answered : ℕ → Shared D → Outcome → SharedStatus D × Shared D
  status_answered now s (failed e) = status_failed now s e
  status_answered now s (answer v) =
      let r = items v in
      let text = str "ERR status script returned " ++ itoa (count_values r) ++ str " values" in
      if is_status_reply r then status_of_store now s r else status_failed now s (error_reply text)

-- `status`
unfoldable pub shared_status :
    {D W : Type 0} → ⦃f : Float D⦄ → Client W → ℕ → Live D W → SharedStatus D × Live D W
shared_status client now l =
    let (outcome, w) = client ask_status l.world in
    let here = status_of_fallback now l.counter in
    let asked = status_answered now l.counter outcome in
    if l.counter.degraded then (here.0, l) else (asked.0, record { counter = asked.1; world = w })
