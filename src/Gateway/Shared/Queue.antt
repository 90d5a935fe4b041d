-- ===== src/Gateway/Shared/Queue.antt =====
-- internal/gateway/counter_redis.go: the loops of `deliver` over batches and items.
use axigate_finops.Prelude.{
  ℕ, zero, suc, ◌+◌, ◌<◌, ◌≤◌, ◌≡◌, refl, sym, ap, ◌∙◌, subst, true, false, List, [], ◌∷◌, ◌++◌,
  none, some, Float, length, take, drop, arith, if_both, if_cases, length-append,
}
use axigate_finops.Gateway.Shared.State.{
  Owed, Shared, Client, Live, with_counter, flush_batch, refusal, is_empty_queue,
}
use axigate_finops.Gateway.Shared.Fallback.{put_back}
use axigate_finops.Gateway.Shared.Deliver.{
  Trouble, take_item, request_of, count_delivered, count_refused, after_item, Delivery,
  deliver_batch, deliver_queue,
}
use axigate_finops.Gateway.Shared.Untouched.{frame, SameQueue, taken-SameQueue}

module _ {D : Type 0} where
  abbrev pub accounted : Shared D → ℕ
  accounted s = s.delivered_count + s.refused_count + length s.owed

  -- The queue is what is left behind some of its first items.
  abbrev pub Remains : List (Owed D) → List (Owed D) → Type 0
  Remains os os' = (first : List (Owed D)) × (os ≡ first ++ os')

  -- What becomes of the items `pre` and the queue behind them.
  abbrev pub Kept : List (Owed D) → Shared D → Trouble → Shared D → Type 0
  Kept pre s t s' =
      (accounted s' ≡ length pre + accounted s)
      × Remains (pre ++ s.owed) s'.owed
      × (t ≡ none → s'.owed ≡ [])
      × (frame s' ≡ frame s)
      × (s'.kill_dirty ≡ s.kill_dirty)

  pub Remains-refl : (os : List (Owed D)) → Remains os os
  Remains-refl os = ([], refl)

  Remains-behind : (o : Owed D) (os os' : List (Owed D)) → Remains os os' → Remains (o ∷ os) os'
  Remains-behind o os os' (first, e) = (o ∷ first, ap (λ q. o ∷ q) e)

  -- One item more that was taken or refused.
  Kept-step :
      (o : Owed D) (os : List (Owed D)) (s s1 s' : Shared D) (t : Trouble)
      → s1.owed ≡ s.owed
      → accounted s1 ≡ suc (accounted s)
      → frame s1 ≡ frame s
      → s1.kill_dirty ≡ s.kill_dirty
      → Kept os s1 t s'
      → Kept (o ∷ os) s t s'
  Kept-step o os s s1 s' t q a d k (h, r, n, d', k') = (
    omega (arith, h, a),
    Remains-behind o (os ++ s.owed) s'.owed
        (subst (λ (x : List (Owed D)). Remains (os ++ x) s'.owed) q r),
    n,
    d' ∙ d,
    k' ∙ k,
  )

module _ {D W : Type 0} where
  abbrev pub After : List (Owed D) → Live D W → Delivery D W → Type 0
  After os l r = Kept os l.counter r.1 r.2.counter

  after_item-After :
      (more : ℕ → Live D W → Delivery D W) (n : ℕ) (o : Owed D) (os : List (Owed D)) (l : Live D W)
      (x : Trouble × Live D W)
      → SameQueue l.counter x.1.counter
      → ((n' : ℕ) (l' : Live D W) → l'.counter.owed ≡ l.counter.owed → After os l' (more n' l'))
      → After (o ∷ os) l (after_item more n o os x)
  unfolding put_back
  after_item-After more n o os l (none, l1) same ih =
      let e : length l1.counter.owed ≡ length l.counter.owed = ap (λ q. length q) same.0 in
      let r = more (n + 1) (count_delivered l1) in
      Kept-step o os l.counter (count_delivered l1).counter r.2.counter r.1 same.0
        (omega (arith, e, same.1, same.2)) same.3 same.4 (ih (n + 1) (count_delivered l1) same.0)
  after_item-After more n o os l (some err, l1) same ih =
      let e : length l1.counter.owed ≡ length l.counter.owed = ap (λ q. length q) same.0 in
      let r = more n (count_refused l1) in
      if_both (After (o ∷ os) l) (refusal err)
        (Kept-step o os l.counter (count_refused l1).counter r.2.counter r.1 same.0
          (omega (arith, e, same.1, same.2)) same.3 same.4 (ih n (count_refused l1) same.0))
        (
          omega (arith, e, same.1, same.2, length-append (o ∷ os) l1.counter.owed),
          ([], ap (λ q. o ∷ (os ++ q)) (sym same.0)),
          (λ h. cc),
          same.3,
          same.4,
        )

take-drop-append : {A : Type 0} → (n : ℕ) (xs : List A) → take n xs ++ drop n xs ≡ xs
take-drop-append zero xs = refl
take-drop-append (suc n) [] = refl
take-drop-append (suc n) (x ∷ xs) = ap (λ q. x ∷ q) (take-drop-append n xs)

length-drop : {A : Type 0} → (n : ℕ) (xs : List A) → length (drop n xs) ≤ length xs
length-drop zero xs = omega arith
length-drop (suc n) [] = omega arith
length-drop (suc n) (x ∷ xs) = omega (arith, length-drop n xs)

empty_queue : {D : Type 0} → (os : List (Owed D)) → is_empty_queue os ≡ true → os ≡ []
empty_queue [] e = refl
empty_queue (o ∷ os) e = cc

drop-Shorter :
    {D : Type 0}
    → (n : ℕ) (os : List (Owed D)) → is_empty_queue os ≡ false
    → length (drop (suc n) os) < length os
drop-Shorter n [] e = cc
drop-Shorter n (o ∷ os) e = omega (arith, length-drop n os)

-- A batch cut off the front of the queue accounts for the whole of it.
batch-After :
    {D W : Type 0}
    → (l : Live D W) (r : Delivery D W)
    → After
        (take flush_batch l.counter.owed)
        (with_counter l (record l.counter { owed = drop flush_batch l.counter.owed }))
        r
    → After [] l r
batch-After l r (a, m, n, d, k) =
    let whole = take-drop-append flush_batch l.counter.owed in
    (
      omega (
        arith,
        a,
        ap (λ q. length q) whole,
        length-append (take flush_batch l.counter.owed) (drop flush_batch l.counter.owed),
      ),
      subst (λ (q : List (Owed _)). Remains q r.2.counter.owed) whole m,
      n,
      d,
      k,
    )

module _ {D W : Type 0} ⦃f : Float D⦄ (client : Client W) (now : ℕ) where
  take_item-SameQueue :
      (l : Live D W) (o : Owed D) → SameQueue l.counter (take_item client now l o).1.counter
  unfolding take_item
  take_item-SameQueue l o =
      taken-SameQueue now l.counter o (client (request_of now l.counter o) l.world).0

  deliver_batch-After :
      (rest : ℕ → Live D W → Delivery D W) (q : List (Owed D))
      → ((n' : ℕ) (l' : Live D W) → l'.counter.owed ≡ q → After [] l' (rest n' l'))
      → (os : List (Owed D)) (n : ℕ) (l : Live D W) → l.counter.owed ≡ q
      → After os l (deliver_batch client now rest n os l)
  deliver_batch-After rest q h [] n l b = h n l b
  deliver_batch-After rest q h (o ∷ os) n l b =
      after_item-After (λ n' l'. deliver_batch client now rest n' os l') n o os l
        (take_item client now l o) (take_item-SameQueue l o)
        (λ n' l' e. deliver_batch-After rest q h os n' l' (e ∙ b))

  pub deliver_queue-After :
      (fuel n : ℕ) (l : Live D W)
      → length l.counter.owed < fuel
      → After [] l (deliver_queue client now fuel n l)
  unfolding deliver_queue
  deliver_queue-After zero n l b = absurd (omega (arith, b))
  deliver_queue-After (suc fuel) n l b =
      if_cases (After [] l) (is_empty_queue l.counter.owed)
        (λ e.
          (omega arith, Remains-refl l.counter.owed, λ h. empty_queue l.counter.owed e, refl, refl))
        (λ e.
          let kept = with_counter l (record l.counter { owed = drop flush_batch l.counter.owed }) in
          let batch = take flush_batch l.counter.owed in
          batch-After l (deliver_batch client now (deliver_queue client now fuel) n batch kept) (
            deliver_batch-After (deliver_queue client now fuel) (drop flush_batch l.counter.owed)
              (λ n' l' q.
                deliver_queue-After fuel n' l'
                  (omega (arith, b, ap (λ x. length x) q, drop-Shorter 199 l.counter.owed e)))
              batch n kept refl))
