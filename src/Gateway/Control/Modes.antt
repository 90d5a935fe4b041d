-- ===== src/Gateway/Control/Modes.antt =====
-- internal/gateway/control.go: the kill switch, the bypass and shadow mode of `admitKeyed`.
use axigate_finops.Prelude.{
  ℕ, ◌≡◌, refl, true, false, ◌&&◌, [], some, none, Option, Bytes, is_empty, Float, arith,
  if◌then◌else◌, Bool,
}
use axigate_finops.Gateway.Control.State.{
  Policy, RunState, KeyState, Controller, killed_reason, key_label, call_cap_reason,
  spend_cap_reason, key_cap_reason, key_day_reason,
}
use axigate_finops.Gateway.Control.Pause.{
  key_state, key_cap, pause_key, pause_run, spend_cap, key_total_met, key_day_met,
}
use axigate_finops.Gateway.Control.Admit.{
  Answer, stopped, admit_locked, admit_run, run_pause, key_pause, call_cap_met, spend_cap_met,
}
use axigate_finops.Gateway.Control.Entry.{entered, seen_run, entered-policy, admit_locked_lem}

-- What shadow mode answers where the caps answer `a`.
abbrev pub served_anyway : Answer → Answer
served_anyway a = if a.0 then (true, []) else (true, a.1)

module _ {D : Type 0} ⦃f : Float D⦄ where
  bypass_serves :
      (c : Controller D) (now : ℕ) (run key : Bytes) (st : Option (RunState D))
      (ks : Option (KeyState D))
      → (run_pause c now run key true st ks).0 ≡ (true, [])
  unfolding stopped
  bypass_serves c now run key none none = ground arith
  bypass_serves c now run key none (some ks) = ground arith
  bypass_serves c now run key (some st) none = ground arith
  bypass_serves c now run key (some st) (some ks) = ground arith

  -- A call with the bypass is refused exactly while the kill switch is engaged, whatever is paused
  -- or over a cap, and never comes back with a reason.
  pub admit_bypassed :
      (c : Controller D) (now : ℕ) (run key : Bytes)
      → (admit_locked c now run key true).0
        ≡ (if c.killed then (false, killed_reason) else (true, []))
  admit_bypassed c now run key = ground (
    arith,
    admit_locked_lem c now run key true,
    bypass_serves (entered c now run key) now run key
        (if is_empty run then none else some (seen_run c now run))
        (if is_empty key then none else some (key_state c now key)),
  )

  abbrev pub with_shadow : Policy D → Bool → Policy D
  with_shadow p on = record p { shadow = on }

  -- The answers of the stages of `admitKeyed` without a bypass, which read the policy and the two
  -- states alone.
  stop_answer : Policy D → Bytes → Answer
  stop_answer p reason = if p.shadow then (true, reason) else (false, reason)

  run_answer : Policy D → Option (RunState D) → Answer
  run_answer p none = (true, [])
  run_answer p (some st) =
      if call_cap_met p st
      then stop_answer p (call_cap_reason p.max_calls_per_run)
      else if spend_cap_met p st
      then stop_answer p (spend_cap_reason (spend_cap p st))
      else (true, [])

  key_answer : Policy D → Bytes → Option (RunState D) → Option (KeyState D) → Answer
  key_answer p key st none = run_answer p st
  key_answer p key st (some ks) =
      if ks.paused
      then stop_answer p ks.reason
      else if key_total_met p ks
      then stop_answer p (key_cap_reason key p.max_spend_usd_per_key)
      else if key_day_met p ks
      then stop_answer p (key_day_reason key p.max_spend_usd_per_key_day)
      else run_answer p st

  call_answer : Policy D → Bytes → Option (RunState D) → Option (KeyState D) → Answer
  call_answer p key none ks = key_answer p key none ks
  call_answer p key (some st) ks =
      if st.paused then stop_answer p st.reason else key_answer p key (some st) ks

  admit_run-answer :
      (c : Controller D) (now : ℕ) (run key : Bytes) (st : Option (RunState D))
      → (admit_run c now run key false st).0 ≡ run_answer c.policy st
  unfolding stopped run_answer stop_answer pause_run
  admit_run-answer c now run key none = refl
  admit_run-answer c now run key (some st) = ground arith

  key_pause-answer :
      (c : Controller D) (now : ℕ) (run key : Bytes) (st : Option (RunState D))
      (ks : Option (KeyState D))
      → (key_pause c now run key false st ks).0 ≡ key_answer c.policy key st ks
  unfolding stopped key_answer stop_answer key_cap pause_key key_label
  key_pause-answer c now run key st none = admit_run-answer c now run key st
  key_pause-answer c now run key st (some ks) = ground (arith, admit_run-answer c now run key st)

  run_pause-answer :
      (c : Controller D) (now : ℕ) (run key : Bytes) (st : Option (RunState D))
      (ks : Option (KeyState D))
      → (run_pause c now run key false st ks).0 ≡ call_answer c.policy key st ks
  unfolding stopped call_answer stop_answer
  run_pause-answer c now run key none ks = key_pause-answer c now run key none ks
  run_pause-answer c now run key (some st) ks =
      ground (arith, key_pause-answer c now run key (some st) ks)

  call_answer_shadow :
      (p : Policy D) (key : Bytes) (st : Option (RunState D)) (ks : Option (KeyState D))
      → call_answer (with_shadow p true) key st ks
        ≡ served_anyway (call_answer (with_shadow p false) key st ks)
  unfolding call_answer key_answer run_answer stop_answer spend_cap
  call_answer_shadow p key none none = refl
  call_answer_shadow p key none (some ks) = ground arith
  call_answer_shadow p key (some st) none = ground arith
  call_answer_shadow p key (some st) (some ks) = ground arith

  abbrev pub in_shadow : Controller D → Bool → Controller D
  in_shadow c on = record c { policy = with_shadow c.policy on }

  admit_locked-answer :
      (c : Controller D) (now : ℕ) (run key : Bytes)
      → (admit_locked c now run key false).0 ≡ (
          if c.killed
          then (false, killed_reason)
          else if is_empty run && is_empty key
          then (true, [])
          else call_answer c.policy key
              (if is_empty run then none else some (seen_run c now run))
              (if is_empty key then none else some (key_state c now key)))
  admit_locked-answer c now run key = ground (
    arith,
    admit_locked_lem c now run key false,
    entered-policy c now run key,
    run_pause-answer (entered c now run key) now run key
        (if is_empty run then none else some (seen_run c now run))
        (if is_empty key then none else some (key_state c now key)),
  )

  -- On the same tallies and pauses, shadow mode serves every call that the caps would refuse and
  -- returns the reason they would have given; it serves the others with no reason, those with the
  -- bypass among them, and the kill switch refuses under both.
  pub admit_shadow :
      (c : Controller D) (now : ℕ) (run key : Bytes) (bypass : Bool)
      → (admit_locked (in_shadow c true) now run key bypass).0 ≡ (
          if c.killed
          then (false, killed_reason)
          else served_anyway (admit_locked (in_shadow c false) now run key bypass).0)
  unfolding key_state
  admit_shadow c now run key true = ground (
    arith,
    admit_bypassed (in_shadow c true) now run key,
    admit_bypassed (in_shadow c false) now run key,
  )
  admit_shadow c now run key false = ground (
    arith,
    admit_locked-answer (in_shadow c true) now run key,
    admit_locked-answer (in_shadow c false) now run key,
    call_answer_shadow c.policy key (if is_empty run then none else some (seen_run c now run))
        (if is_empty key then none else some (key_state c now key)),
  )
