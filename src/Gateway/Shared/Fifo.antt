-- ===== src/Gateway/Shared/Fifo.antt =====
-- internal/gateway/counter_redis.go: `deliver`, with the kill switch and the queue.
use axigate_finops.Prelude.{
  ℕ, suc, ◌+◌, ◌≡◌, refl, ap, ◌∙◌, subst, Bool, true, false, List, [], none, Float, if◌then◌else◌,
  length, arith, if_both, if_cases,
}
use axigate_finops.Gateway.Shared.State.{
  Owed, Shared, Outcome, answer, failed, Client, Live, with_counter, refusal, set_kill,
}
use axigate_finops.Gateway.Shared.Fallback.{answered}
use axigate_finops.Gateway.Shared.Deliver.{
  Trouble, count_delivered, count_refused, kill_taken, Delivery, deliver_queue, after_kill, deliver,
}
use axigate_finops.Gateway.Shared.Queue.{
  accounted, Remains, Remains-refl, After, deliver_queue-After,
}
use axigate_finops.Gateway.Shared.Untouched.{frame}
use axigate_finops.Gateway.Shared.Asked.{report}

-- What a delivery keeps: the items that the store took, those it refused and those that are still
-- pending are as many as before, no item is dropped, what is left of the queue is its end in the
-- same order, without an error neither an item nor the kill switch is left, and the gap, if there is one, is the same.
abbrev pub Delivered : {D : Type 0} → Shared D → Trouble → Shared D → Type 0
Delivered s t s' =
    (s'.delivered_count + s'.refused_count + (report s').pending
      ≡ s.delivered_count + s.refused_count + (report s).pending)
    × Remains s.owed s'.owed
    × (t ≡ none → (s'.owed ≡ []) × (s'.kill_dirty ≡ false))
    × (frame s' ≡ frame s)

-- The kill switch that the store took, or refused, was clean from then on if nobody set it.
kill_taken-clean :
    {D W : Type 0}
    → (gen : ℕ) (l : Live D W) → l.counter.kill_gen ≡ gen
    → ((kill_taken gen l).counter.kill_dirty ≡ false)
      × ((kill_taken gen l).counter.owed ≡ l.counter.owed)
      × ((kill_taken gen l).counter.delivered_count ≡ l.counter.delivered_count)
      × ((kill_taken gen l).counter.refused_count ≡ l.counter.refused_count)
      × (frame (kill_taken gen l).counter ≡ frame l.counter)
kill_taken-clean gen l g = ground arith

abbrev flag : Bool → ℕ
flag b = if b then 1 else 0

abbrev pending_of : {D : Type 0} → Shared D → ℕ
pending_of s = (report s).pending

pending-parts : {D : Type 0} → (s : Shared D) → pending_of s ≡ length s.owed + flag s.kill_dirty
unfolding report
pending-parts s = ground arith

pending-eq :
    {D : Type 0}
    → (s s1 s' : Shared D) → accounted s' ≡ accounted s1
    → s'.kill_dirty ≡ s1.kill_dirty
    → s1.delivered_count + s1.refused_count + pending_of s1
      ≡ s.delivered_count + s.refused_count + pending_of s
    → s'.delivered_count + s'.refused_count + pending_of s'
      ≡ s.delivered_count + s.refused_count + pending_of s
pending-eq s s1 s' a k p =
    let same : flag s'.kill_dirty ≡ flag s1.kill_dirty = ap flag k in
    omega (arith, a, same, p, pending-parts s1, pending-parts s')

kill-pending :
    {D : Type 0}
    → (s s1 : Shared D) → s.kill_dirty ≡ true
    → s1.kill_dirty ≡ false
    → s1.owed ≡ s.owed
    → s1.delivered_count + s1.refused_count ≡ s.delivered_count + s.refused_count + 1
    → s1.delivered_count + s1.refused_count + pending_of s1
      ≡ s.delivered_count + s.refused_count + pending_of s
kill-pending s s1 t u q d =
    let set : flag s.kill_dirty ≡ 1 = ap flag t in
    let clean : flag s1.kill_dirty ≡ 0 = ap flag u in
    let same : length s1.owed ≡ length s.owed = ap (λ x. length x) q in
    omega (arith, set, clean, same, d, pending-parts s, pending-parts s1)

After-Delivered :
    {D W : Type 0}
    → (l l1 : Live D W) (r : Delivery D W) → l1.counter.owed ≡ l.counter.owed
    → l1.counter.delivered_count + l1.counter.refused_count + (report l1.counter).pending
      ≡ l.counter.delivered_count + l.counter.refused_count + (report l.counter).pending
    → l1.counter.kill_dirty ≡ false
    → frame l1.counter ≡ frame l.counter
    → After [] l1 r
    → Delivered l.counter r.1 r.2.counter
unfolding report
After-Delivered l l1 r q p clean d (a, m, n, d', k) = (
  pending-eq l.counter l1.counter r.2.counter (omega (arith, a)) k p,
  subst (λ (x : List (Owed _)). Remains x r.2.counter.owed) q m,
  λ t. (n t, k ∙ clean),
  d' ∙ d,
)

module _ {D W : Type 0} ⦃f : Float D⦄ (client : Client W) (now : ℕ) where
  -- The queue behind a kill switch that the store has taken or refused.
  behind-kill :
      (n : ℕ) (l base : Live D W)
      → l.counter.kill_dirty ≡ true
      → base.counter.kill_gen ≡ l.counter.kill_gen
      → base.counter.owed ≡ l.counter.owed
      → base.counter.delivered_count + base.counter.refused_count
        ≡ l.counter.delivered_count + l.counter.refused_count + 1
      → frame base.counter ≡ frame l.counter
      → let r =
          deliver_queue client now
            (suc (length l.counter.owed))
            n
            (kill_taken l.counter.kill_gen base) in
        Delivered l.counter r.1 r.2.counter
  behind-kill n l base t g q d k =
      let (clean, owed, del, ref, dro) = kill_taken-clean l.counter.kill_gen base g in
      let l1 = kill_taken l.counter.kill_gen base in
      After-Delivered l l1 (deliver_queue client now (suc (length l.counter.owed)) n l1) (owed ∙ q)
        (kill-pending l.counter l1.counter t clean (owed ∙ q) (omega (arith, del, ref, d))) clean
        (dro ∙ k)
        (deliver_queue-After client now (suc (length l.counter.owed)) n l1
          (omega (arith, ap (λ x. length x) (owed ∙ q))))

  after_kill-Delivered :
      (l : Live D W) (x : Outcome) (w : W)
      → l.counter.kill_dirty ≡ true
      → let r =
          after_kill client now
            (suc (length l.counter.owed))
            l.counter.kill_gen
            (record l { world = w })
            x in
        Delivered l.counter r.1 r.2.counter
  unfolding answered
  after_kill-Delivered l (answer v) w t =
      let l0 = record l { world = w } in
      behind-kill 1 l (count_delivered (with_counter l0 (answered l.counter))) t refl refl
        (omega arith) refl
  after_kill-Delivered l (failed e) w t =
      let l0 = record l { world = w } in
      if_both (λ (r : Delivery D W). Delivered l.counter r.1 r.2.counter) (refusal e)
        (behind-kill 0 l (count_refused l0) t refl refl (omega arith) refl)
        (refl, Remains-refl l.counter.owed, λ h. cc, refl)

  -- Whatever the store answers, a delivery accounts for everything that was owed, the kill switch
  -- included, and ends with an error or with nothing left to send, the kill switch included.
  pub deliver-Delivered :
      (l : Live D W) → Delivered l.counter (deliver client now l).1 (deliver client now l).2.counter
  unfolding deliver report answered
  deliver-Delivered l =
      if_cases (λ (r : Delivery D W). Delivered l.counter r.1 r.2.counter) l.counter.kill_dirty
        (λ e.
          let (x, w) = client (set_kill l.counter.killed) l.world in after_kill-Delivered l x w e)
        (λ e.
          After-Delivered l l (deliver_queue client now (suc (length l.counter.owed)) 0 l) refl refl
            e refl (deliver_queue-After client now (suc (length l.counter.owed)) 0 l (omega arith)))
