-- ===== src/Gateway/Shared/Calls.antt =====
-- internal/gateway/counter_redis.go: a call through the shared counter, `admitWhere`, `settle`,
-- `record`, `release`, `noteRun` and `noteKey`.
use axigate_finops.Prelude.{
  ℕ, ◌+◌, Bool, true, false, not, ◌&&◌, ◌||◌, [], ◌++◌, none, some, Bytes, str, lookup, insert,
  erase, beq, is_empty, Float, itoa, ◌==◌, if◌then◌else◌,
}
use axigate_finops.Gateway.Control.State.{killed_reason}
use axigate_finops.Gateway.Control.Admit.{admit_keyed}
use axigate_finops.Gateway.Control.Settle.{record_keyed, release_keyed}
use axigate_finops.Gateway.Control.Operator.{note_run, note_key}
use axigate_finops.Gateway.Store.Records.{Attribution, nobody}
use axigate_finops.Gateway.Resp.Value.{Values, count_values, items, item, as_int, as_string}
use axigate_finops.Gateway.Shared.Reasons.{reason_text, key_reason, cut_colon}
use axigate_finops.Gateway.Shared.State.{
  Owed, owed_item, owes_record, owes_release, Shared, StoreError, pool_busy, error_reply,
  kill_exists, send_admit, Outcome, answer, failed, Client, Live, with_counter, refusal, next_token,
  call_args, admit_args,
}
use axigate_finops.Gateway.Shared.Fallback.{
  owe, answered, note_paused, forget_paused, note_key_paused, forget_key_paused, tagged_under,
  or_nobody, is_nobody, note_tags, keep_note, is_one, stop, hand_out, fail, mirror_kill,
}
use axigate_finops.Gateway.Shared.Deliver.{Trouble, take_item, count_refused}

-- What `admitWhere` answers: the controller's answer, and the word to settle the call with.
abbrev pub Placed : Type 0
Placed = Bool × Bytes × Bytes

abbrev pub here : Bytes
here = str "local"

abbrev pub by_store : Bytes
by_store = str "shared"

-- The word for a call that the store let through, with the id that it was reserved under.
abbrev pub by_store_as : Bytes → Bytes
by_store_as token = str "shared:" ++ token

-- `takeNote`
unfoldable pub take_note : {D : Type 0} → Shared D → Bytes → Attribution × Shared D
take_note s run = (or_nobody (lookup run s.notes), record s { notes = erase run s.notes })

unfoldable pub take_key_note : {D : Type 0} → Shared D → Bytes → Attribution × Shared D
take_key_note s key =
    (or_nobody (lookup key s.key_notes), record s { key_notes = erase key s.key_notes })

-- A key's note put back after an admit that failed.
unfoldable pub keep_key_note : {D : Type 0} → Shared D → Bytes → Attribution → Shared D
keep_key_note s key n = elim (lookup key s.key_notes) [
  | some _ ↦ s
  | none ↦ if is_nobody n then s else record s { key_notes = insert key n s.key_notes }
]

-- The counters of calls that were decided here after a failure of the store.
unfoldable pub count_local : {D : Type 0} → Shared D → StoreError → Shared D
count_local s e = if s.degraded then record s { local_decided = s.local_decided + 1 } else elim e [
  | pool_busy _ ↦ record s { busy_decided = s.busy_decided + 1 }
  | _ ↦ record s { one_off_decided = s.one_off_decided + 1 }
]

module _ {D : Type 0} ⦃f : Float D⦄ (now : ℕ) where
  -- A call that the fallback decides.
  unfoldable pub decide_here : Shared D → Bytes → Bytes → Bool → Placed × Shared D
  decide_here s run key bypass =
      let (a, sync, async, c) = admit_keyed s.local now run key bypass in
      ((a.0, a.1, here), hand_out (record s { local = c }) sync async)

  -- `admitLocally`
  unfoldable pub admit_locally : Shared D → Bytes → Bytes → Bool → StoreError → Placed × Shared D
  admit_locally s run key bypass e = decide_here (count_local (fail s now e) e) run key bypass

  -- An untagged call without a key, by what `EXISTS` of the kill switch gave.
  abbrev pub admit_untagged : Shared D → Bytes → Bytes → Bool → Outcome → Placed × Shared D
  admit_untagged s run key bypass (failed e) = admit_locally s run key bypass e
  admit_untagged s run key bypass (answer v) =
      let on = is_one (as_int v) in
      let s' = mirror_kill (answered s) on in
      if on then ((false, killed_reason, by_store), s') else ((true, [], by_store), s')

  -- A stop that the admit script reports.
  abbrev reported_stop : Shared D → Bytes → Bytes → Bytes → Bool → Values → Shared D
  reported_stop s run key code by_key r =
      if by_key
      then stop s now [] key code (item 3 r) (item 4 r) (item 5 r) (item 6 r) (item 7 r)
      else stop s now run [] code (item 3 r) (item 4 r) (item 5 r) (item 6 r) (item 7 r)

  -- What is remembered of a stop, and the sentence for it.
  abbrev noted_stop : Shared D → Bytes → Bytes → Bytes → Bool → Bytes × Shared D
  noted_stop s run key code by_key =
      if by_key
      then (key_reason f code key, note_key_paused s now key (key_reason f code key))
      else (reason_text f code, note_paused s run (reason_text f code))

  abbrev placed : Bool → Bytes → Bytes × Shared D → Placed × Shared D
  placed ok where' x = ((ok, x.0, where'), x.1)

  -- What is done with the nine values of the admit script.
  unfoldable pub read_admit : Shared D → Bytes → Bytes → Bool → Bytes → Values → Placed × Shared D
  read_admit s run key bypass token r =
      let code = as_string (item 1 r) in
      let by_key = beq (as_string (item 8 r)) (str "key") in
      let mirrored = mirror_kill (answered s) (beq code (str "killed")) in
      let s' =
        if is_one (as_int (item 2 r))
        then reported_stop mirrored run key code by_key r
        else mirrored in
      let no_stop = is_empty code || beq code (str "dup") in
      let cleared =
        if not bypass && is_empty code then forget_key_paused (forget_paused s' run) key else s' in
      if beq code (str "killed")
      then ((false, killed_reason, by_store), mirrored)
      else if is_one (as_int (item 0 r))
      then (if no_stop
          then ((true, [], by_store_as token), cleared)
          else placed true (by_store_as token) (noted_stop s' run key code by_key))
      else if no_stop
      then ((false, reason_text f code, by_store), s')
      else placed false by_store (noted_stop s' run key code by_key)

  -- The notes that an admit took are put back when it failed.
  abbrev kept_notes : Shared D → Bytes → Bytes → Attribution → Attribution → Shared D
  kept_notes s run key n kn =
      let s' = if is_empty run then s else keep_note s run n in
      if is_empty key then s' else keep_key_note s' key kn

  abbrev pub admit_failed :
      Shared D → Bytes → Bytes → Bool → Attribution → Attribution → StoreError → Placed × Shared D
  admit_failed s run key bypass n kn e = admit_locally (kept_notes s run key n kn) run key bypass e

  abbrev pub admit_answered :
      Shared D
      → Bytes
      → Bytes
      → Bool
      → Bytes
      → Attribution
      → Attribution
      → Outcome
      → Placed × Shared D
  admit_answered s run key bypass token n kn (failed e) = admit_failed s run key bypass n kn e
  admit_answered s run key bypass token n kn (answer v) =
      let r = items v in
      let text = str "ERR admit script returned " ++ itoa (count_values r) ++ str " values" in
      if count_values r == 9
      then read_admit s run key bypass token r
      else admit_failed s run key bypass n kn (error_reply text)

  -- The note of a call, what the key's own calls said under what the run's said, and the key's.
  unfoldable pub take_notes : Shared D → Bytes → Bytes → Attribution × Attribution × Shared D
  take_notes s run key =
      let (n, s1) = if is_empty run then (nobody, s) else take_note s run in
      let (kn, s2) = if is_empty key then (nobody, s1) else take_key_note s1 key in
      (tagged_under n kn, kn, s2)

module _ {D W : Type 0} ⦃f : Float D⦄ (client : Client W) (now : ℕ) where
  abbrev replied_to : Live D W → W → Placed × Shared D → Placed × Live D W
  replied_to l w (p, s) = (p, record { counter = s; world = w })

  -- The admit script for a call, with a new id.
  unfoldable pub admit_by_script : Live D W → Bytes → Bytes → Bool → Placed × Live D W
  admit_by_script l run key bypass =
      let (n, kn, s) = take_notes now l.counter run key in
      let (token, s') = next_token s now in
      let (outcome, w) =
        client (send_admit (admit_args s' now (call_args now run key token) bypass n)) l.world in
      replied_to l w (admit_answered now s' run key bypass token n kn outcome)

  -- `admitWhere`
  unfoldable pub admit_where : Live D W → Bytes → Bytes → Bool → Placed × Live D W
  admit_where l run key bypass =
      let s = l.counter in
      let counted = record s { local_decided = s.local_decided + 1 } in
      let (outcome, w) = client kill_exists l.world in
      if s.degraded
      then replied_to l l.world (decide_here now counted run key bypass)
      else if s.kill_dirty && s.killed
      then ((false, killed_reason, here), l)
      else if is_empty run && is_empty key
      then replied_to l w (admit_untagged now s run key bypass outcome)
      else admit_by_script l run key bypass

  -- A settlement that was sent: what the store could not take is owed, what it refused is dropped.
  abbrev pub sent : Owed D → Trouble × Live D W → Live D W
  sent o (none, l) = l
  sent o (some e, l) =
      if refusal e
      then (let l' = count_refused l in with_counter l' (fail l'.counter now e))
      else with_counter l (owe (fail l.counter now e) o)

  -- `settle`, with what `apply` makes of the counter when the call was decided here.
  unfoldable pub settle : Live D W → Owed D → Bytes → Shared D → Live D W
  settle l o where' applied =
      let (label, token) = cut_colon where' in
      let o' = record o { token = token } in
      if not (beq label by_store)
      then with_counter l applied
      else if l.counter.degraded
      then with_counter l (owe l.counter o')
      else sent o' (take_item client now l o')

  abbrev recorded_here : Shared D → Bytes → Bytes → D → Bool → Shared D
  recorded_here s run key cost suspected_loop =
      let (sync, async, c) = record_keyed s.local now run key cost suspected_loop in
      hand_out (record s { local = c }) sync async

  -- `record`
  unfoldable pub record_call : Live D W → Bytes → Bytes → D → Bool → Bytes → Live D W
  record_call l run key cost suspected_loop where' =
      let o = record (owed_item owes_record run key) { cost_usd = cost; loop = suspected_loop } in
      if is_empty run && is_empty key
      then l
      else settle l o where' (recorded_here l.counter run key cost suspected_loop)

  -- `release`
  unfoldable pub release_call : Live D W → Bytes → Bytes → Bytes → Live D W
  release_call l run key where' =
      let s = l.counter in
      if is_empty run && is_empty key
      then l
      else settle l (owed_item owes_release run key) where'
          (record s { local = release_keyed s.local run key })

-- `noteRun` and `noteKey`
module _ {D : Type 0} ⦃f : Float D⦄ where
  unfoldable pub note_run_tags : Shared D → Bytes → Bytes → Bytes → Bytes → Shared D
  note_run_tags s run agent team model =
      if is_empty run
      then s
      else if s.degraded
      then record s { local = note_run s.local run agent team model }
      else record s { notes = note_tags s.notes run agent team model }

  unfoldable pub note_key_tags : Shared D → ℕ → Bytes → Bytes → Bytes → Bytes → Shared D
  note_key_tags s now key agent team model =
      if is_empty key
      then s
      else if s.degraded
      then record s { local = note_key s.local now key agent team model }
      else record s { key_notes = note_tags s.key_notes key agent team model }
