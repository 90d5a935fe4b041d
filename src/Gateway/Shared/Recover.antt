-- ===== src/Gateway/Shared/Recover.antt =====
-- internal/gateway/counter_redis.go: `recovered`, the end of a gap, and one round of `probeLoop`. The
-- line that a recovery logs is left out, and the total that only it tells.
use axigate_finops.Prelude.{
  ℕ, zero, suc, Bool, true, false, not, ◌&&◌, ◌||◌, none, some, Float, if◌then◌else◌,
}
use axigate_finops.Gateway.Resp.Value.{as_int}
use axigate_finops.Gateway.Shared.State.{
  Shared, StoreError, error_text, ping, kill_exists, Outcome, answer, failed, Client, Live,
  with_counter, write_back_passes, is_empty_queue,
}
use axigate_finops.Gateway.Shared.Fallback.{answered, is_one, fresh_fallback, degrade}
use axigate_finops.Gateway.Shared.Deliver.{Trouble, Delivery, deliver, flush}

abbrev pub is_quiet : {D : Type 0} → Shared D → Bool
is_quiet s = not s.kill_dirty && is_empty_queue s.owed

abbrev pub set_recovering : {D W : Type 0} → Bool → Live D W → Live D W
set_recovering on l = with_counter l (record l.counter { recovering = on })

-- A recovery that failed before the swap: the gap goes on.
abbrev pub kept_gap : {D W : Type 0} → StoreError → Live D W → Live D W
kept_gap e l = with_counter l (record l.counter { last_err = error_text e; recovering = false })

abbrev pub written_back :
    {D W : Type 0} → (Live D W → Trouble × Live D W) → Delivery D W → Trouble × Live D W
written_back more (n, some e, l) = (some e, l)
written_back more (n, none, l) = if is_quiet l.counter then (none, l) else more l

module _ {D W : Type 0} ⦃f : Float D⦄ (client : Client W) (now : ℕ) where
  -- The deliveries while the fallback still decides: an error ends them, and so does a queue that
  -- is empty.
  unfoldable pub write_back : ℕ → Live D W → Trouble × Live D W
  write_back zero l = (none, l)
  write_back (suc passes) l = written_back (write_back passes) (deliver client now l)

  -- The store decides again, with a fresh fallback.
  unfoldable pub swapped : Bool → Live D W → Live D W
  swapped store_killed l =
      let s = l.counter in
      let killed = if s.kill_dirty then s.killed else store_killed in
      with_counter l (record s {
        killed = killed;
        local = fresh_fallback (record s { killed = killed }) now killed false;
        degraded = false;
        fail_streak = 0;
        last_until = now;
      })

  -- What the last delivery leaves.
  abbrev pub settled_gap : Delivery D W → Live D W
  settled_gap (n, none, l) = set_recovering false l
  settled_gap (n, some e, l) = set_recovering false (with_counter l (degrade l.counter now e true))

  abbrev pub after_exists : Live D W → Outcome → Live D W
  after_exists l (failed e) = kept_gap e l
  after_exists l (answer v) = settled_gap (deliver client now (swapped (is_one (as_int v)) l))

  abbrev pub after_write_back : Trouble × Live D W → Live D W
  after_write_back (some e, l) = kept_gap e l
  after_write_back (none, l) =
      let (outcome, w) = client kill_exists l.world in
      let asked = after_exists (record l { world = w }) outcome in
      if l.counter.kill_dirty then settled_gap (deliver client now (swapped false l)) else asked

  -- `recovered`
  unfoldable pub recovered : Live D W → Live D W
  recovered l =
      if not l.counter.degraded || l.counter.recovering
      then l
      else after_write_back (write_back write_back_passes (set_recovering true l))

  abbrev pinged : Live D W → Outcome → Live D W
  pinged l (failed e) = l
  pinged l (answer v) = recovered (with_counter l (answered l.counter))

  -- A tick of `probeLoop`
  unfoldable pub probe : Live D W → Live D W
  probe l =
      let (outcome, w) = client ping l.world in
      if l.counter.degraded then pinged (record l { world = w }) outcome else flush client now l
