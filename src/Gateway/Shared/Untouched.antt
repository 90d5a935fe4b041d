-- ===== src/Gateway/Shared/Untouched.antt =====
-- internal/gateway/counter_redis.go: `take` and the queue.
use axigate_finops.Prelude.{ℕ, ◌≡◌, refl, ◌∙◌, Bool, [], Float, if_both, ◌==◌, Bytes}
use axigate_finops.Gateway.Resp.Value.{Value, Values, count_values, items, item, as_int, as_string}
use axigate_finops.Gateway.Shared.Reasons.{reason_text, key_reason}
use axigate_finops.Gateway.Shared.State.{
  OwedKind, owes_record, owes_release, owes_pause, owes_key_pause, owes_resume, owes_key_resume,
  owes_cap, Owed, Shared, Outcome, answer, failed,
}
use axigate_finops.Gateway.Shared.Fallback.{answered, note_paused, note_key_paused, stop, is_one}
use axigate_finops.Gateway.Shared.Deliver.{
  Trouble, taken, taken_record, taken_answer, noted_run_stop, noted_key_stop,
}

module _ {D : Type 0} where
  -- What no delivery touches: the items dropped, and the gap.
  abbrev pub frame : Shared D → ℕ × Bool × ℕ × ℕ
  frame s = (s.dropped_count, s.degraded, s.degraded_since, s.outages)

  -- Nothing of the queue, its counters and the kill switch is touched.
  abbrev pub SameQueue : Shared D → Shared D → Type 0
  SameQueue s s' =
      (s'.owed ≡ s.owed)
      × (s'.delivered_count ≡ s.delivered_count)
      × (s'.refused_count ≡ s.refused_count)
      × (frame s' ≡ frame s)
      × (s'.kill_dirty ≡ s.kill_dirty)
      × (s'.kill_gen ≡ s.kill_gen)

  stop-SameQueue :
      ⦃f : Float D⦄ (s : Shared D) (now : ℕ) (run key code : Bytes) (a b c d e : Value)
      → SameQueue s (stop s now run key code a b c d e)
  unfolding stop
  stop-SameQueue s now run key code a b c d e =
      if_both (SameQueue s) s.on_pause (refl, refl, refl, refl, refl, refl)
        (refl, refl, refl, refl, refl, refl)

  SameQueue-trans : (s t u : Shared D) → SameQueue s t → SameQueue t u → SameQueue s u
  SameQueue-trans s t u h k = (k.0 ∙ h.0, k.1 ∙ h.1, k.2 ∙ h.2, k.3 ∙ h.3, k.4 ∙ h.4, k.5 ∙ h.5)

  noted_run_stop-SameQueue :
      ⦃f : Float D⦄ (now : ℕ) (s : Shared D) (o : Owed D) (r : Values)
      → SameQueue s (noted_run_stop now s o r)
  unfolding noted_run_stop note_paused
  noted_run_stop-SameQueue ⦃f = f⦄ now s o r =
      if_both (SameQueue s) (is_one (as_int (item 0 r)))
        (stop-SameQueue (note_paused s o.run (reason_text f (as_string (item 1 r)))) now o.run [] _
          _ _ _ _ _)
        (refl, refl, refl, refl, refl, refl)

  noted_key_stop-SameQueue :
      ⦃f : Float D⦄ (now : ℕ) (s : Shared D) (o : Owed D) (r : Values)
      → SameQueue s (noted_key_stop now s o r)
  unfolding noted_key_stop note_key_paused
  noted_key_stop-SameQueue ⦃f = f⦄ now s o r =
      if_both (SameQueue s) (is_one (as_int (item 7 r)))
        (stop-SameQueue (note_key_paused s now o.key (key_reason f (as_string (item 8 r)) o.key))
          now [] o.key _ _ _ _ _ _)
        (refl, refl, refl, refl, refl, refl)

  taken_record-SameQueue :
      ⦃f : Float D⦄ (now : ℕ) (s : Shared D) (o : Owed D) (r : Values)
      → SameQueue s (taken_record now s o r).1
  unfolding taken_record answered
  taken_record-SameQueue now s o r =
      if_both (λ (x : Trouble × Shared D). SameQueue s x.1) (count_values r == 14)
        (SameQueue-trans s (noted_run_stop now s o r)
          (noted_key_stop now (noted_run_stop now s o r) o r) (noted_run_stop-SameQueue now s o r)
          (noted_key_stop-SameQueue now (noted_run_stop now s o r) o r))
        (refl, refl, refl, refl, refl, refl)

  taken_answer-SameQueue :
      ⦃f : Float D⦄ (now : ℕ) (s : Shared D) (o : Owed D) (r : Values) (k : OwedKind)
      → SameQueue s (taken_answer now s o r k).1
  unfolding answered
  taken_answer-SameQueue now s o r owes_record = taken_record-SameQueue now s o r
  taken_answer-SameQueue now s o r owes_release = (refl, refl, refl, refl, refl, refl)
  taken_answer-SameQueue now s o r owes_pause = (refl, refl, refl, refl, refl, refl)
  taken_answer-SameQueue now s o r owes_key_pause = (refl, refl, refl, refl, refl, refl)
  taken_answer-SameQueue now s o r owes_resume = (refl, refl, refl, refl, refl, refl)
  taken_answer-SameQueue now s o r owes_key_resume = (refl, refl, refl, refl, refl, refl)
  taken_answer-SameQueue now s o r owes_cap = (refl, refl, refl, refl, refl, refl)

  pub taken-SameQueue :
      ⦃f : Float D⦄ (now : ℕ) (s : Shared D) (o : Owed D) (outcome : Outcome)
      → SameQueue s (taken now s o outcome).1
  taken-SameQueue now s o (failed e) = (refl, refl, refl, refl, refl, refl)
  taken-SameQueue now s o (answer v) = taken_answer-SameQueue now s o (items v) o.kind
