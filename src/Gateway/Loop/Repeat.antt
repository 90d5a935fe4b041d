-- ===== src/Gateway/Loop/Repeat.antt =====
-- internal/gateway/loop.go: what `Decision.Repeat` is.
use axigate_finops.Prelude.{
  ℕ, suc, ◌+◌, ◌≤◌, ◌≡◌, refl, ◌⊎◌, inl, inr, List, [], ◌∷◌, Bytes, Dict, lookup, insert,
  lookup-insert, beq, beq_iff, ltb, if◌then◌else◌, count_if, arith, Bool, Bool-cases,
}
use axigate_finops.Gateway.Loop.Detect.{Ev, count_of, tally, most_repeated}

-- How often a signature stands in a list of requests.
abbrev pub has_sig : Bytes → Ev → Bool
has_sig s e = beq e.1 s

abbrev pub occurrences : Bytes → List Ev → ℕ
occurrences s es = count_if (has_sig s) es

count_of-insert :
    (s r : Bytes) (n : ℕ) (m : Dict ℕ)
    → count_of s (insert r n m) ≡ (if beq r s then n else count_of s m)
count_of-insert s r n m = ground (arith, lookup-insert s r n m)

count_of-step :
    (s r : Bytes) (m : Dict ℕ)
    → count_of s (insert r (suc (count_of r m)) m) ≡ (if beq r s then 1 else 0) + count_of s m
count_of-step s r m = ground (arith, count_of-insert s r (suc (count_of r m)) m, beq_iff r s)

-- The tally is at least what it starts from and at least the total of each signature.
tally-above :
    (es : List Ev) (m : Dict ℕ) (k : ℕ) (s : Bytes)
    → (k ≤ tally es m k) × (occurrences s es ≡ 0 ⊎ (occurrences s es + count_of s m ≤ tally es m k))
unfolding tally
tally-above [] m k s = (omega arith, inl refl)
tally-above ((t, r) ∷ es) m k s =
    let k' = if ltb k (suc (count_of r m)) then suc (count_of r m) else k in
    let m' = insert r (suc (count_of r m)) m in
    ground (arith, count_of-step s r m, beq_iff r s, tally-above es m' k' s)

-- The tally is what it starts from or the total of some signature.
tally-attained :
    (es : List Ev) (m : Dict ℕ) (k : ℕ)
    → (tally es m k ≡ k) ⊎ ((s : Bytes) × (occurrences s es + count_of s m ≡ tally es m k))
unfolding tally
tally-attained [] m k = inl refl
tally-attained ((t, r) ∷ es) m k =
    let n = suc (count_of r m) in
    elim (tally-attained es (insert r n m) (if ltb k n then n else k)) [
      | inl e ↦ elim (Bool-cases (ltb k n)) [
        | inl b ↦ elim (tally-above es (insert r n m) n r).1 [
          | inl z ↦ inr (r, ground (arith, beq_iff r r))
          | inr l ↦ inr (r, ground (arith, beq_iff r r, count_of-step r r m))
        ]
        | inr b ↦ inl (ground arith)
      ]
      | inr (s, e) ↦ inr (s, ground (arith, count_of-step s r m, beq_iff r s))
    ]

-- `Repeat` is the number of the most frequent signature: no signature stands more often, and one
-- stands as often, unless there are no requests.
pub most_repeated_lem :
    (es : List Ev) (s : Bytes)
    → (occurrences s es ≤ most_repeated es)
      × ((most_repeated es ≡ 0) ⊎ ((r : Bytes) × (occurrences r es ≡ most_repeated es)))
unfolding most_repeated lookup
most_repeated_lem es s = (
  ground (arith, (tally-above es [] 0 s).1),
  elim (tally-attained es [] 0) [ inl e ↦ inl e | inr (r, e) ↦ inr (r, ground arith) ],
)
