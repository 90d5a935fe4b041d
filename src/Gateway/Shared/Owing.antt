-- ===== src/Gateway/Shared/Owing.antt =====
-- internal/gateway/counter_redis.go: a sequence of items that come to be owed.
use axigate_finops.Prelude.{
  ℕ, suc, ◌+◌, ◌≤◌, ◌<◌, ◌≡◌, refl, sym, ap, ◌∙◌, List, [], ◌∷◌, ◌++◌, if◌then◌else◌, length, leb,
  arith, if_cases, if_not, length-append,
}
use axigate_finops.Gateway.Shared.State.{Owed, Shared, max_owed}
use axigate_finops.Gateway.Shared.Fallback.{behind_first, owe}

abbrev pub owe_all : {D : Type 0} → Shared D → List (Owed D) → Shared D
owe_all s [] = s
owe_all s (o ∷ os) = owe_all (owe s o) os

-- The last `n` items.
abbrev pub keep_last : {D : Type 0} → ℕ → List (Owed D) → List (Owed D)
keep_last n [] = []
keep_last n (o ∷ os) = if leb (suc (length os)) n then o ∷ os else keep_last n os

module _ {D : Type 0} where
  keep_last-short : (n : ℕ) (os : List (Owed D)) → length os ≤ n → keep_last n os ≡ os
  keep_last-short n [] h = refl
  keep_last-short n (o ∷ os) h = ground arith

  keep_last-long :
      (n : ℕ) (os : List (Owed D)) → length os ≡ suc n → keep_last n os ≡ behind_first os
  keep_last-long n [] h = refl
  keep_last-long n (o ∷ os) h = ground (arith, keep_last-short n os)

  length-keep_last : (n : ℕ) (os : List (Owed D)) → length (keep_last n os) ≤ n
  length-keep_last n [] = omega arith
  length-keep_last n (o ∷ os) = ground (arith, length-keep_last n os)

  append_assoc : (a b c : List (Owed D)) → (a ++ b) ++ c ≡ a ++ (b ++ c)
  append_assoc [] b c = refl
  append_assoc (x ∷ a) b c = ap (λ q. x ∷ q) (append_assoc a b c)

  append_nil : (a : List (Owed D)) → a ++ [] ≡ a
  append_nil [] = refl
  append_nil (x ∷ a) = ap (λ q. x ∷ q) (append_nil a)

  -- What is kept of a queue that goes on is what is kept of what was kept and goes on.
  keep_last-again :
      (n : ℕ) (os more : List (Owed D))
      → keep_last n (keep_last n os ++ more) ≡ keep_last n (os ++ more)
  keep_last-again n [] more = refl
  keep_last-again n (o ∷ os) more =
      if_cases (λ q. keep_last n (q ++ more) ≡ keep_last n (o ∷ (os ++ more)))
        (leb (suc (length os)) n) (λ e. refl)
        (λ e.
          keep_last-again n os more
          ∙ sym (
              if_not (λ q. q ≡ keep_last n (os ++ more)) (leb (suc (length (os ++ more))) n) _
                (ground (arith, e, length-append os more)) refl))

  behind_first-append :
      (os more : List (Owed D))
      → 0 < length os
      → behind_first os ++ more ≡ behind_first (os ++ more)
  behind_first-append [] more h = absurd (omega (arith, h))
  behind_first-append (o ∷ os) more h = refl

  length-behind_first :
      (os : List (Owed D)) → 0 < length os → suc (length (behind_first os)) ≡ length os
  length-behind_first [] h = absurd (omega (arith, h))
  length-behind_first (o ∷ os) h = refl

  -- The queue after an item more, and what is counted.
  abbrev Queued : Shared D → List (Owed D) → Shared D → Type 0
  Queued s os s' =
      (s'.owed ≡ keep_last max_owed (s.owed ++ os))
      × (s'.dropped_count + length s'.owed ≡ s.dropped_count + length s.owed + length os)

  owe-Queued : (s : Shared D) (o : Owed D) → length s.owed ≤ max_owed → Queued s (o ∷ []) (owe s o)
  unfolding owe
  owe-Queued s o h =
      let one = o ∷ [] in
      if_cases (Queued s (o ∷ [])) (leb max_owed (length s.owed))
        (λ e. (
          behind_first-append s.owed one (ground (arith, e))
              ∙ sym (
                  keep_last-long max_owed (s.owed ++ one)
                    (ground (arith, e, h, length-append s.owed one))),
          ground (arith, e, length-append (behind_first s.owed) one, length-behind_first s.owed),
        ))
        (λ e. (
          sym (
              keep_last-short max_owed (s.owed ++ one)
                (ground (arith, e, length-append s.owed one))),
          omega (arith, length-append s.owed one),
        ))

  -- A queue that is not over its bound never is, however much the store comes to owe: it has the
  -- last 10,000 of the items in their order, and each item is in it or counted as dropped.
  pub owe_all-keep_last :
      (s : Shared D) (os : List (Owed D))
      → length s.owed ≤ max_owed
      → ((owe_all s os).owed ≡ keep_last max_owed (s.owed ++ os))
        × ((owe_all s os).dropped_count + length (owe_all s os).owed
            ≡ s.dropped_count + length s.owed + length os)
        × (length (owe_all s os).owed ≤ max_owed)
  owe_all-keep_last s [] h =
      let e : s.owed ++ [] ≡ s.owed = append_nil s.owed in
      (sym (ap (keep_last max_owed) e ∙ keep_last-short max_owed s.owed h), omega arith, h)
  owe_all-keep_last s (o ∷ os) h =
      let (q, n) = owe-Queued s o h in
      let short : length (owe s o).owed ≤ max_owed =
        omega (arith, ap (λ x. length x) q, length-keep_last max_owed (s.owed ++ o ∷ [])) in
      let (a, b, c) = owe_all-keep_last (owe s o) os short in
      (
        a
            ∙ ap (λ x. keep_last max_owed (x ++ os)) q
            ∙ keep_last-again max_owed (s.owed ++ o ∷ []) os
            ∙ ap (keep_last max_owed) (append_assoc s.owed (o ∷ []) os),
        omega (arith, n, b),
        c,
      )
