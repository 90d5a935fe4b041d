-- ===== src/Gateway/Shared/Gap.antt =====
-- internal/gateway/counter_redis.go: `recovered`.
use axigate_finops.Prelude.{
  ℕ, zero, suc, ◌+◌, ◌≡◌, refl, sym, ap, ◌∙◌, Bool, true, false, not, ◌||◌, List, [], ◌∷◌, ◌++◌,
  none, some, Float, if_both, if_not,
}
use axigate_finops.Gateway.Resp.Value.{as_int}
use axigate_finops.Gateway.Shared.State.{
  Owed, Shared, Outcome, answer, failed, Client, Live, kill_exists, write_back_passes,
}
use axigate_finops.Gateway.Shared.Fallback.{degrade, is_one}
use axigate_finops.Gateway.Shared.Deliver.{Trouble, Delivery, deliver}
use axigate_finops.Gateway.Shared.Asked.{report}
use axigate_finops.Gateway.Shared.Recover.{
  is_quiet, set_recovering, written_back, write_back, swapped, settled_gap, after_exists,
  after_write_back, recovered,
}
use axigate_finops.Gateway.Shared.Queue.{Remains, Remains-refl}
use axigate_finops.Gateway.Shared.Fifo.{Delivered, deliver-Delivered}

abbrev held : {D : Type 0} → Shared D → ℕ × ℕ × ℕ
held s = (s.dropped_count, s.degraded_since, s.outages)

-- Everything owed is accounted for, in order, and the gap is the same one.
abbrev pub Carries : {D : Type 0} → Shared D → Shared D → Type 0
Carries s s' =
    (s'.delivered_count + s'.refused_count + (report s').pending
      ≡ s.delivered_count + s.refused_count + (report s).pending)
    × Remains s.owed s'.owed
    × (held s' ≡ held s)

append_assoc : {A : Type 0} → (a b c : List A) → (a ++ b) ++ c ≡ a ++ (b ++ c)
append_assoc [] b c = refl
append_assoc (x ∷ a) b c = ap (λ s. x ∷ s) (append_assoc a b c)

module _ {D : Type 0} where
  Remains-trans : (a b c : List (Owed D)) → Remains a b → Remains b c → Remains a c
  Remains-trans a b c (f, e) (g, h) = (f ++ g, e ∙ ap (λ q. f ++ q) h ∙ sym (append_assoc f g c))

  Carries-trans : (s t u : Shared D) → Carries s t → Carries t u → Carries s u
  Carries-trans s t u (a, r, h) (b, q, k) = (b ∙ a, Remains-trans s.owed t.owed u.owed r q, k ∙ h)

  Delivered-Carries : (s : Shared D) (t : Trouble) (s' : Shared D) → Delivered s t s' → Carries s s'
  Delivered-Carries s t s' (a, r, n, e) = (a, r, ap (λ (x : ℕ × Bool × ℕ × ℕ). (x.0, x.2, x.3)) e)

  -- Either the gap goes on or nothing is owed, no item and no kill switch.
  abbrev pub Ended : Shared D → Shared D → Type 0
  Ended s s' = Carries s s' × (s'.degraded ≡ false → (s'.owed ≡ []) × (s'.kill_dirty ≡ false))

  Carries-Ended : (s t u : Shared D) → Carries s t → Ended t u → Ended s u
  Carries-Ended s t u c (d, e) = (Carries-trans s t u c d, e)

module _ {D W : Type 0} ⦃f : Float D⦄ (client : Client W) (now : ℕ) where
  -- The gap has not ended on the way.
  abbrev Goes : Live D W → Live D W → Type 0
  Goes l l' = Carries l.counter l'.counter × (l'.counter.degraded ≡ l.counter.degraded)

  written_back-Goes :
      (l : Live D W) (more : Live D W → Trouble × Live D W)
      → ((l' : Live D W) → Goes l' (more l').1)
      → (x : Delivery D W) → Delivered l.counter x.1 x.2.counter
      → Goes l (written_back more x).1
  written_back-Goes l more h (n, some e, l1) d =
      (Delivered-Carries l.counter (some e) l1.counter d, ap (λ (x : ℕ × Bool × ℕ × ℕ). x.1) d.3)
  written_back-Goes l more h (n, none, l1) d =
      let c = Delivered-Carries l.counter none l1.counter d in
      let g : l1.counter.degraded ≡ l.counter.degraded = ap (λ (x : ℕ × Bool × ℕ × ℕ). x.1) d.3 in
      if_both (λ (x : Trouble × Live D W). Goes l x.1) (is_quiet l1.counter) (c, g)
        (Carries-trans l.counter l1.counter (more l1).1.counter c (h l1).0, (h l1).1 ∙ g)

  write_back-Goes : (passes : ℕ) (l : Live D W) → Goes l (write_back client now passes l).1
  unfolding write_back
  write_back-Goes zero l = ((refl, Remains-refl l.counter.owed, refl), refl)
  write_back-Goes (suc passes) l =
      written_back-Goes l (write_back client now passes) (write_back-Goes passes)
        (deliver client now l) (deliver-Delivered client now l)

  settled_gap-Ended :
      (l : Live D W) (x : Delivery D W)
      → l.counter.degraded ≡ false
      → Delivered l.counter x.1 x.2.counter
      → Ended l.counter (settled_gap client now x).counter
  unfolding degrade report
  settled_gap-Ended l (n, none, l1) g d =
      (Delivered-Carries l.counter none l1.counter d, λ e. d.2 refl)
  settled_gap-Ended l (n, some e, l1) g d =
      let c = Delivered-Carries l.counter (some e) l1.counter d in
      if_not (λ (s : Shared D). Ended l.counter (record s { recovering = false }))
        l1.counter.degraded _ (ap (λ (x : ℕ × Bool × ℕ × ℕ). x.1) d.3 ∙ g) (c, λ h. cc)

  swapped-Ended :
      (k : Bool) (l : Live D W)
      → Ended l.counter
          (settled_gap client now (deliver client now (swapped client now k l))).counter
  unfolding swapped report
  swapped-Ended k l =
      let l' = swapped client now k l in
      settled_gap-Ended l' (deliver client now l') refl (deliver-Delivered client now l')

  after_exists-Ended :
      (l : Live D W) (x : Outcome) (w : W)
      → l.counter.degraded ≡ true
      → Ended l.counter (after_exists client now (record l { world = w }) x).counter
  unfolding report
  after_exists-Ended l (failed e) w g = ((refl, Remains-refl l.counter.owed, refl), λ h. cc)
  after_exists-Ended l (answer v) w g = swapped-Ended (is_one (as_int v)) (record l { world = w })

  after_write_back-Ended :
      (l : Live D W) (x : Trouble × Live D W)
      → l.counter.degraded ≡ true
      → Goes l x.1
      → Ended l.counter (after_write_back client now x).counter
  unfolding report
  after_write_back-Ended l (some e, l1) g h = (h.0, λ k. cc)
  after_write_back-Ended l (none, l1) g h =
      let (x, w) = client kill_exists l1.world in
      if_both (λ (r : Live D W). Ended l.counter r.counter) l1.counter.kill_dirty
        (Carries-Ended l.counter l1.counter
          (settled_gap client now (deliver client now (swapped client now false l1))).counter h.0
          (swapped-Ended false l1))
        (Carries-Ended l.counter l1.counter
          (after_exists client now (record l1 { world = w }) x).counter h.0
          (after_exists-Ended l1 x w (h.1 ∙ g)))

  -- A recovery of a counter in a gap, with no other under way, accounts for everything that was
  -- owed, whatever the store answers, keeps the order of what is left and the clock and the count of
  -- the gap, and ends the gap only with no item owed and the kill switch sent.
  pub recovered-Ended :
      (l : Live D W)
      → l.counter.degraded ≡ true
      → l.counter.recovering ≡ false
      → Ended l.counter (recovered client now l).counter
  unfolding recovered report
  recovered-Ended l g r =
      if_not (λ (x : Live D W). Ended l.counter x.counter)
        (not l.counter.degraded || l.counter.recovering) _ (rw (g, r) refl)
        (after_write_back-Ended (set_recovering true l)
          (write_back client now write_back_passes (set_recovering true l)) g
          (write_back-Goes write_back_passes (set_recovering true l)))
