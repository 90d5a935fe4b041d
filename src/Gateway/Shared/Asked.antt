-- ===== src/Gateway/Shared/Asked.antt =====
-- internal/gateway/counter_redis.go: what an operator or a caller asks of the shared counter, and its
-- report.
use axigate_finops.Prelude.{
  ℕ, ◌+◌, Bool, true, false, not, ◌||◌, [], Bytes, is_empty, Float, positive, micro, if◌then◌else◌,
  length,
}
use axigate_finops.Gateway.Control.Operator.{resume_key, resume_run, set_run_cap, set_killed}
use axigate_finops.Gateway.Resp.Value.{as_int}
use axigate_finops.Gateway.Shared.State.{
  Owed, owed_item, owes_resume, owes_key_resume, owes_cap, Shared, Request, set_kill, send_resume,
  send_key_resume, send_cap, Outcome, answer, failed, Client, Live, with_counter, refusal,
}
use axigate_finops.Gateway.Shared.Fallback.{
  owe, answered, forget_paused, forget_key_paused, is_one, fail,
}
use axigate_finops.Gateway.Shared.Deliver.{count_refused, kill_taken}

abbrev pub cleared_run : {D : Type 0} → ⦃f : Float D⦄ → Bytes → Shared D → Shared D
cleared_run run s = record s { local = (resume_run s.local run).1 }

abbrev pub cleared_key : {D : Type 0} → ⦃f : Float D⦄ → Bytes → Shared D → Shared D
cleared_key key s = record s { local = (resume_key s.local key).1 }

-- `CounterReport`, less its fixed texts and the times.
pub record CounterReport : Type 0 where
  pub is_degraded : Bool
  pub last_error : Bytes
  pub outages : ℕ
  pub local_decided : ℕ
  pub busy_decided : ℕ
  pub one_off_decided : ℕ
  pub pending : ℕ
  pub delivered : ℕ
  pub dropped : ℕ
  pub refused : ℕ

-- `report`
unfoldable pub report : {D : Type 0} → Shared D → CounterReport
report s = record {
  is_degraded = s.degraded;
  last_error = s.last_err;
  outages = s.outages;
  local_decided = s.local_decided;
  busy_decided = s.busy_decided;
  one_off_decided = s.one_off_decided;
  pending = if s.kill_dirty then length s.owed + 1 else length s.owed;
  delivered = s.delivered_count;
  dropped = s.dropped_count;
  refused = s.refused_count;
}

module _ {D W : Type 0} ⦃f : Float D⦄ (now : ℕ) where
  -- A resume that failed. The copy that is cleared is the one from before the failure, which is
  -- no longer in use if the failure switched the counter over.
  abbrev pub resume_failed : (Shared D → Shared D) → Owed D → Live D W → Shared D → Bool × Live D W
  resume_failed clear o l s = (true, with_counter l (owe (if s.degraded then s else clear s) o))

  abbrev pub resumed : (Shared D → Shared D) → Owed D → Live D W → Outcome → Bool × Live D W
  resumed clear o l (answer v) = (is_one (as_int v), with_counter l (clear (answered l.counter)))
  resumed clear o l (failed e) =
      if refusal e
      then (false, with_counter l (fail l.counter now e))
      else resume_failed clear o l (fail l.counter now e)

  -- The outcome of a request for a cap that the local copy has taken.
  abbrev pub capped : Owed D → Live D W → Outcome → Live D W
  capped o l (answer v) = with_counter l (answered l.counter)
  capped o l (failed e) =
      with_counter l (fail (if refusal e then l.counter else owe l.counter o) now e)

  -- The outcome of a request to set the kill switch.
  abbrev pub kill_sent : Live D W → Outcome → Live D W
  kill_sent l (answer v) = kill_taken l.counter.kill_gen (with_counter l (answered l.counter))
  kill_sent l (failed e) =
      let l' = if refusal e then count_refused l else l in with_counter l' (fail l'.counter now e)

module _ {D W : Type 0} ⦃f : Float D⦄ (client : Client W) (now : ℕ) where
  -- In a gap a resume is done here and owed; otherwise the store is asked.
  abbrev resume_by : (Shared D → Shared D) → Owed D → Request → Live D W → Bool × Live D W
  resume_by clear o request l =
      let (outcome, w) = client request l.world in
      if l.counter.degraded
      then (true, with_counter l (owe (clear l.counter) o))
      else resumed now clear o (record l { world = w }) outcome

  -- `resumeRun`
  unfoldable pub ask_resume_run : Live D W → Bytes → Bool × Live D W
  ask_resume_run l run =
      resume_by (cleared_run run) (owed_item owes_resume run []) (send_resume run)
        (with_counter l (forget_paused l.counter run))

  -- `resumeKey`
  unfoldable pub ask_resume_key : Live D W → Bytes → Bool × Live D W
  ask_resume_key l key =
      resume_by (cleared_key key) (owed_item owes_key_resume [] key) (send_key_resume key)
        (with_counter l (forget_key_paused l.counter key))

  -- `setRunCap`
  unfoldable pub ask_run_cap : Live D W → Bytes → D → Live D W
  ask_run_cap l run cap =
      let s = record l.counter { local = set_run_cap l.counter.local now run cap } in
      let o = record (owed_item owes_cap run []) { cap_usd = cap } in
      let (outcome, w) = client (send_cap run (micro cap)) l.world in
      if is_empty run || not (positive cap)
      then l
      else if s.degraded
      then with_counter l (owe s o)
      else capped now o (record { counter = s; world = w }) outcome

  -- `setKilled`
  unfoldable pub ask_killed : Live D W → Bool → Live D W
  ask_killed l on =
      let s = record l.counter {
        killed = on;
        kill_dirty = true;
        kill_gen = l.counter.kill_gen + 1;
        local = set_killed l.counter.local on;
      } in
      let (outcome, w) = client (set_kill on) l.world in
      if s.degraded
      then with_counter l s
      else kill_sent now (record { counter = s; world = w }) outcome
