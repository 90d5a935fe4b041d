-- ===== src/Gateway/Shared/Fallback.antt =====
-- internal/gateway/counter_redis.go: the fallback of this process, when it takes over, and what is
-- remembered for it.
use axigate_finops.Prelude.{
  ℕ, ◌+◌, Bool, true, false, not, ◌&&◌, ◌||◌, List, [], ◌∷◌, ◌++◌, Option, none, some, Bytes, str,
  starts_with, Dict, lookup, insert, erase, is_empty, ℤ, pos, pos_part, Float, ltb, leb, leb_ℤ,
  if◌then◌else◌, length,
}
use axigate_finops.Gateway.Control.State.{StopEvent, Controller, new_controller}
use axigate_finops.Gateway.Control.Operator.{keep_or, mark_paused, mark_key_paused, set_killed}
use axigate_finops.Gateway.Store.Records.{Attribution, nobody, bytes_less}
use axigate_finops.Gateway.Resp.Value.{Value, as_int, as_string}
use axigate_finops.Gateway.Shared.Date.{today_text}
use axigate_finops.Gateway.Shared.Reasons.{
  is_day_pause_reason, reason_text, key_reason, micro_dollars,
}
use axigate_finops.Gateway.Shared.State.{
  Owed, owes_pause, owes_key_pause, owed_item, KeyPauseNote, Shared, StoreError, pool_busy,
  error_reply, dial_failed, answer_dropped, error_text, cannot_serve, max_owed, max_status_runs,
  max_notes, fail_streak_to_degrade,
}

-- The same queue, less its first item.
abbrev pub behind_first {ℓ} : {A : Type ℓ} → List A → List A
behind_first [] = []
behind_first (x ∷ xs) = xs

-- `owe`
unfoldable pub owe : {D : Type 0} → Shared D → Owed D → Shared D
owe s o =
    if leb max_owed (length s.owed)
    then record s { owed = behind_first s.owed ++ o ∷ []; dropped_count = s.dropped_count + 1 }
    else record s { owed = s.owed ++ o ∷ [] }

-- `putBack`
unfoldable pub put_back : {D : Type 0} → Shared D → List (Owed D) → Shared D
put_back s items = record s { owed = items ++ s.owed }

-- `answered`
unfoldable pub answered : {D : Type 0} → Shared D → Shared D
answered s = record s { fail_streak = 0 }

-- A map with at most so many entries, where a known one may be set again.
abbrev set_within {ℓ} : {V : Type ℓ} → ℕ → Bytes → V → Dict V → Dict V
set_within most k v m = elim (lookup k m) [
  | some _ ↦ insert k v m
  | none ↦ if ltb (length m) most then insert k v m else m
]

-- `notePaused` and `forgetPaused`
unfoldable pub note_paused : {D : Type 0} → Shared D → Bytes → Bytes → Shared D
note_paused s run reason = record s {
  paused_seen = set_within max_status_runs run reason s.paused_seen;
}

unfoldable pub forget_paused : {D : Type 0} → Shared D → Bytes → Shared D
forget_paused s run = record s { paused_seen = erase run s.paused_seen }

-- `keyNote`
unfoldable pub key_note : ℕ → Bytes → KeyPauseNote
key_note now reason = record {
  reason = reason;
  day = if is_day_pause_reason reason then today_text now else [];
}

-- `noteKeyPaused` and `forgetKeyPaused`
unfoldable pub note_key_paused : {D : Type 0} → Shared D → ℕ → Bytes → Bytes → Shared D
note_key_paused s now key reason = record s {
  keys_seen = set_within max_status_runs key (key_note now reason) s.keys_seen;
}

unfoldable pub forget_key_paused : {D : Type 0} → Shared D → Bytes → Shared D
forget_key_paused s key = record s { keys_seen = erase key s.keys_seen }

-- Attribution with what a caller says now in place of what was there.
unfoldable pub tagged_over : Attribution → Bytes → Bytes → Bytes → Attribution
tagged_over n agent team model = record {
  agent = keep_or n.agent agent;
  team = keep_or n.team team;
  model = keep_or n.model model;
}

-- What is empty filled from other attribution.
unfoldable pub tagged_under : Attribution → Attribution → Attribution
tagged_under n other = record {
  agent = if is_empty n.agent then other.agent else n.agent;
  team = if is_empty n.team then other.team else n.team;
  model = if is_empty n.model then other.model else n.model;
}

abbrev pub or_nobody : Option Attribution → Attribution
or_nobody none = nobody
or_nobody (some n) = n

abbrev pub is_nobody : Attribution → Bool
is_nobody n = is_empty n.agent && is_empty n.team && is_empty n.model

-- `noteRun` and `noteKey` while the store decides.
abbrev pub note_tags : Dict Attribution → Bytes → Bytes → Bytes → Bytes → Dict Attribution
note_tags m k agent team model =
    set_within max_notes k (tagged_over (or_nobody (lookup k m)) agent team model) m

-- `keepNote`
unfoldable pub keep_note : {D : Type 0} → Shared D → Bytes → Attribution → Shared D
keep_note s run n =
    let known = or_nobody (lookup run s.notes) in
    let cur = tagged_under known n in
    if not (is_nobody cur) && (ltb (length s.notes) max_notes || not (is_nobody known))
    then record s { notes = insert run cur s.notes }
    else s

-- A number in a reply, or 0 for anything else.
abbrev pub int_or_zero : Option ℤ → ℤ
int_or_zero none = pos 0
int_or_zero (some n) = n

abbrev pub is_one : Option ℤ → Bool
is_one none = false
is_one (some z) = leb_ℤ z (pos 1) && leb_ℤ (pos 1) z

-- Whether an error that is no busy pool makes the counter fall back, by the answers that were
-- dropped before it.
unfoldable pub switches : StoreError → ℕ → Bool
switches (pool_busy e) streak = false
switches (error_reply e) streak = cannot_serve e
switches (dial_failed e) streak = true
switches (answer_dropped e) streak = leb fail_streak_to_degrade (streak + 1)

abbrev counts_drop : StoreError → ℕ → ℕ
counts_drop (answer_dropped e) streak = streak + 1
counts_drop _ streak = streak

module _ {D : Type 0} ⦃f : Float D⦄ where
  -- `stop`: the alert, if a callback is set. A count that the store reports is not negative.
  unfoldable pub stop :
      Shared D → ℕ → Bytes → Bytes → Bytes → Value → Value → Value → Value → Value → Shared D
  stop s now run key code calls spend agent team model =
      let event : StopEvent D = record {
        run = run;
        key = key;
        agent = as_string agent;
        team = as_string team;
        model = as_string model;
        reason = if is_empty key then reason_text f code else key_reason f code key;
        calls = pos_part (int_or_zero (as_int calls));
        spend_usd = micro_dollars f (int_or_zero (as_int spend));
        at = now;
        shadow = s.policy.shadow;
        day_pause = starts_with (str "kday:") code;
      } in
      if s.on_pause then record s { alerts = s.alerts ++ event ∷ [] } else s

  abbrev pub mark_runs : Dict Bytes → Controller D → Controller D
  mark_runs [] c = c
  mark_runs ((run, reason) ∷ seen) c = mark_runs seen (mark_paused c run reason)

  abbrev pub mark_keys : ℕ → Dict KeyPauseNote → Controller D → Controller D
  mark_keys now [] c = c
  mark_keys now ((key, n) ∷ seen) c = mark_keys now seen (
      if not (is_empty n.day) && bytes_less n.day (today_text now)
      then c
      else mark_key_paused c now key n.reason (not (is_empty n.day)))

  -- `freshFallback`
  unfoldable pub fresh_fallback : Shared D → ℕ → Bool → Bool → Controller D
  fresh_fallback s now killed gap =
      let c =
        mark_keys now s.keys_seen
          (mark_runs s.paused_seen (set_killed (new_controller s.policy) killed)) in
      if gap then record c { on_pause = true; on_pause_sync = true } else c

  -- What a pause of the fallback owes to the store.
  unfoldable pub owed_pause : StopEvent D → Owed D
  owed_pause ev =
      if not (is_empty ev.key) && is_empty ev.run
      then record (owed_item owes_key_pause [] ev.key) {
        reason = ev.reason;
        day = ev.day_pause;
        on_day = today_text ev.at;
      }
      else record (owed_item owes_pause ev.run []) { reason = ev.reason }

  abbrev owe_pauses : Shared D → List (StopEvent D) → Shared D
  owe_pauses s [] = s
  owe_pauses s (ev ∷ evs) = owe_pauses (owe s (owed_pause ev)) evs

  -- What the callbacks of a fallback's controller do with the stops that it hands out.
  unfoldable pub hand_out : Shared D → List (StopEvent D) → List (StopEvent D) → Shared D
  hand_out s sync async =
      let s' = owe_pauses s sync in
      if s'.on_pause then record s' { alerts = s'.alerts ++ async } else s'

  -- `degrade`
  unfoldable pub degrade : Shared D → ℕ → StoreError → Bool → Shared D
  degrade s now e keep =
      let begun = if keep then s else record s {
        degraded_since = now;
        outages = s.outages + 1;
        last_since = now;
        last_until = 0;
        local_decided = 0;
      } in
      if s.degraded then s else record begun {
        degraded = true;
        fail_streak = 0;
        last_err = error_text e;
        local = fresh_fallback begun now s.killed true;
      }

  -- `fail`
  unfoldable pub fail : Shared D → ℕ → StoreError → Shared D
  fail s now e =
      let noted = record s { last_err = error_text e } in
      let counted = record noted { fail_streak = counts_drop e s.fail_streak } in
      if s.degraded
      then noted
      else if switches e s.fail_streak
      then degrade counted now e false
      else counted

  -- `mirrorKill`
  unfoldable pub mirror_kill : Shared D → Bool → Shared D
  mirror_kill s on =
      let same = if on then s.killed else not s.killed in
      if not s.kill_dirty && not same
      then record s { killed = on; local = set_killed s.local on }
      else s
