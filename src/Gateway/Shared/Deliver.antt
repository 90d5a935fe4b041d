-- ===== src/Gateway/Shared/Deliver.antt =====
-- internal/gateway/counter_redis.go: `take`, `deliver` and `flush`, what the store is still owed sent
-- to it in order.
use axigate_finops.Prelude.{
  ℕ, zero, suc, ◌+◌, true, false, not, ◌&&◌, ◌||◌, List, [], ◌∷◌, ◌++◌, Option, none, some, Bytes,
  str, Float, micro, itoa, ◌==◌, if◌then◌else◌, length, take, drop,
}
use axigate_finops.Gateway.Resp.Value.{Values, count_values, items, item, as_int, as_string}
use axigate_finops.Gateway.Shared.Reasons.{reason_text, key_reason}
use axigate_finops.Gateway.Shared.State.{
  OwedKind, owes_record, owes_release, owes_pause, owes_key_pause, owes_resume, owes_key_resume,
  owes_cap, Owed, Shared, StoreError, error_reply, Request, set_kill, send_record, send_release,
  send_pause, send_key_pause, send_resume, send_key_resume, send_cap, Outcome, answer, failed,
  Client, Live, with_counter, flush_batch, refusal, call_args, record_args, is_empty_queue,
}
use axigate_finops.Gateway.Shared.Fallback.{
  put_back, answered, note_paused, note_key_paused, is_one, stop, fail,
}

abbrev pub Trouble : Type 0
Trouble = Option StoreError

abbrev count_text : Values → Bytes
count_text r = itoa (count_values r)

-- How a delivery ends: how many items the store took, why it stopped short, and the state.
abbrev pub Delivery : Type 0 → Type 0 → Type 0
Delivery D W = ℕ × Trouble × Live D W

module _ {D : Type 0} ⦃f : Float D⦄ (now : ℕ) where
  -- The run's stop and the key's stop in the reply of the record script.
  unfoldable pub noted_run_stop : Shared D → Owed D → Values → Shared D
  noted_run_stop s o r =
      let noted = note_paused s o.run (reason_text f (as_string (item 1 r))) in
      if is_one (as_int (item 0 r))
      then stop noted now o.run [] (as_string (item 1 r)) (item 2 r) (item 3 r) (item 4 r)
          (item 5 r) (item 6 r)
      else s

  unfoldable pub noted_key_stop : Shared D → Owed D → Values → Shared D
  noted_key_stop s o r =
      let noted = note_key_paused s now o.key (key_reason f (as_string (item 8 r)) o.key) in
      if is_one (as_int (item 7 r))
      then stop noted now [] o.key (as_string (item 8 r)) (item 9 r) (item 10 r) (item 11 r)
          (item 12 r) (item 13 r)
      else s

  -- What a reply of the record script does here.
  unfoldable pub taken_record : Shared D → Owed D → Values → Trouble × Shared D
  taken_record s o r =
      if count_values r == 14
      then (none, answered (noted_key_stop (noted_run_stop s o r) o r))
      else (
        some (error_reply (str "ERR record script returned " ++ (count_text r ++ str " values"))),
        s,
      )

  abbrev pub taken_answer : Shared D → Owed D → Values → OwedKind → Trouble × Shared D
  taken_answer s o r owes_record = taken_record s o r
  taken_answer s o r _ = (none, answered s)

  abbrev pub taken : Shared D → Owed D → Outcome → Trouble × Shared D
  taken s o (failed e) = (some e, s)
  taken s o (answer v) = taken_answer s o (items v) o.kind

  -- The script that an owed item is for.
  unfoldable pub request_of : Shared D → Owed D → Request
  request_of s o = elim o.kind [
    | owes_release ↦ send_release (call_args now o.run o.key o.token)
    | owes_pause ↦ send_pause o.run (str "text:" ++ o.reason)
    | owes_key_pause ↦ send_key_pause o.key (str "text:" ++ o.reason) o.day o.on_day
    | owes_resume ↦ send_resume o.run
    | owes_key_resume ↦ send_key_resume o.key
    | owes_cap ↦ send_cap o.run (micro o.cap_usd)
    | owes_record ↦ send_record (record_args s now o)
  ]

module _ {D W : Type 0} where
  abbrev pub count_delivered : Live D W → Live D W
  count_delivered l =
      with_counter l (record l.counter { delivered_count = l.counter.delivered_count + 1 })

  abbrev pub count_refused : Live D W → Live D W
  count_refused l =
      with_counter l (record l.counter { refused_count = l.counter.refused_count + 1 })

  -- One item: the store took it, the store refused it, or the delivery stops and it is put back
  -- with those behind it.
  abbrev pub after_item :
      (ℕ → Live D W → Delivery D W) → ℕ → Owed D → List (Owed D) → Trouble × Live D W → Delivery D W
  after_item more n o os (none, l) = more (n + 1) (count_delivered l)
  after_item more n o os (some e, l) =
      if refusal e
      then more n (count_refused l)
      else (n, some e, with_counter l (put_back l.counter (o ∷ os)))

  -- The kill switch is clean if nobody has set it since.
  abbrev pub kill_taken : ℕ → Live D W → Live D W
  kill_taken gen l =
      if l.counter.kill_gen == gen
      then with_counter l (record l.counter { kill_dirty = false })
      else l

module _ {D W : Type 0} ⦃f : Float D⦄ (client : Client W) (now : ℕ) where
  -- `take`
  unfoldable pub take_item : Live D W → Owed D → Trouble × Live D W
  take_item l o =
      let (outcome, w) = client (request_of now l.counter o) l.world in
      let (trouble, s) = taken now l.counter o outcome in
      (trouble, record { counter = s; world = w })

  -- The loop over a batch, and what is done when all of it is through.
  abbrev pub deliver_batch :
      (ℕ → Live D W → Delivery D W) → ℕ → List (Owed D) → Live D W → Delivery D W
  deliver_batch rest n [] l = rest n l
  deliver_batch rest n (o ∷ os) l =
      after_item (λ n' l'. deliver_batch rest n' os l') n o os (take_item l o)

  -- The loop over batches; the fuel bounds how many there are.
  unfoldable pub deliver_queue : ℕ → ℕ → Live D W → Delivery D W
  deliver_queue zero n l = (n, none, l)
  deliver_queue (suc fuel) n l =
      let batch = take flush_batch l.counter.owed in
      let kept = record l.counter { owed = drop flush_batch l.counter.owed } in
      let through = deliver_batch (deliver_queue fuel) n batch (with_counter l kept) in
      if is_empty_queue l.counter.owed then (n, none, l) else through

  abbrev pub after_kill : ℕ → ℕ → Live D W → Outcome → Delivery D W
  after_kill fuel gen l (answer v) =
      deliver_queue fuel 1 (kill_taken gen (count_delivered (with_counter l (answered l.counter))))
  after_kill fuel gen l (failed e) =
      if refusal e then deliver_queue fuel 0 (kill_taken gen (count_refused l)) else (0, some e, l)

  -- `deliver`
  unfoldable pub deliver : Live D W → Delivery D W
  deliver l =
      let fuel = suc (length l.counter.owed) in
      let (outcome, w) = client (set_kill l.counter.killed) l.world in
      if l.counter.kill_dirty
      then after_kill fuel l.counter.kill_gen (record l { world = w }) outcome
      else deliver_queue fuel 0 l

  abbrev flushed : Delivery D W → Live D W
  flushed (n, none, l) = with_counter l (record l.counter { flushing = false })
  flushed (n, some e, l) =
      let s = fail l.counter now e in with_counter l (record s { flushing = false })

  -- `flush`
  unfoldable pub flush : Live D W → Live D W
  flush l =
      let s = l.counter in
      if s.flushing || s.recovering || s.degraded || (not s.kill_dirty && is_empty_queue s.owed)
      then l
      else flushed (deliver (with_counter l (record s { flushing = true })))
