-- ===== src/Report/Sums.antt =====
-- internal/report/report.go: the lines of a table against the events that it was made of.
use axigate_finops.Prelude.{
  ℕ, suc, sort_by, insert_by, ◌+◌, ◌≡◌, refl, ap, ◌∙◌, List, [], ◌∷◌, none, some, Bytes, Dict,
  IsDict, lookup, insert, Float, zero_usd, beq, beq_iff, arith, if◌then◌else◌, filter, Bool-cases,
  inl, inr, lookup-insert, insert-IsDict, length, All, map, All-sort_by, beq_refl,
}
use axigate_finops.Ledger.Event.{Event}
use axigate_finops.Report.Totals.{sum_costs}
use axigate_finops.Report.Lines.{Line, Acc, line_of, line_before, lines_of, add, add_to, or_no_acc}

module _ {D : Type 0} ⦃f : Float D⦄ where
  -- A table of events by a key, each event added in turn.
  unfoldable pub add_all : (Event D → Bytes) → List (Event D) → Dict (Acc D) → Dict (Acc D)
  add_all κ [] m = m
  add_all κ (e ∷ es) m = add_all κ es (add m (κ e) e)

  abbrev pub with_key : (Event D → Bytes) → Bytes → List (Event D) → List (Event D)
  with_key κ k es = filter (λ (e : Event D). beq (κ e) k) es

  add-lookup :
      (m : Dict (Acc D)) (j k : Bytes) (e : Event D)
      → lookup k (add m j e)
        ≡ (if beq j k then some (add_to (or_no_acc (lookup j m)) e) else lookup k m)
  unfolding add
  add-lookup m j k e =
      ground
        (arith, lookup-insert k j (add_to (or_no_acc (lookup j m)) e) m, beq_iff j k, beq_iff k j)

  -- The tally of a key, before and after some events.
  add_all-usd :
      (κ : Event D → Bytes) (k : Bytes) (es : List (Event D)) (m : Dict (Acc D))
      → (or_no_acc (lookup k (add_all κ es m))).usd
        ≡ sum_costs (with_key κ k es) (or_no_acc (lookup k m)).usd
  unfolding add_all sum_costs
  add_all-usd κ k [] m = refl
  add_all-usd κ k (e ∷ es) m = elim (Bool-cases (beq (κ e) k)) [
    | inl h ↦
        ground (arith, add_all-usd κ k es (add m (κ e) e), add-lookup m (κ e) k e, beq_iff (κ e) k)
    | inr h ↦ ground (arith, add_all-usd κ k es (add m (κ e) e), add-lookup m (κ e) k e)
  ]

  add_all-events :
      (κ : Event D → Bytes) (k : Bytes) (es : List (Event D)) (m : Dict (Acc D))
      → (or_no_acc (lookup k (add_all κ es m))).n
        ≡ (or_no_acc (lookup k m)).n + length (with_key κ k es)
  unfolding add_all
  add_all-events κ k [] m = omega arith
  add_all-events κ k (e ∷ es) m = elim (Bool-cases (beq (κ e) k)) [
    | inl h ↦
        ground
          (arith, add_all-events κ k es (add m (κ e) e), add-lookup m (κ e) k e, beq_iff (κ e) k)
    | inr h ↦ ground (arith, add_all-events κ k es (add m (κ e) e), add-lookup m (κ e) k e)
  ]

  add_all-IsDict :
      (κ : Event D → Bytes) (es : List (Event D)) (m : Dict (Acc D))
      → IsDict m
      → IsDict (add_all κ es m)
  unfolding add_all add
  add_all-IsDict κ [] m d = d
  add_all-IsDict κ (e ∷ es) m d =
      add_all-IsDict κ es (add m (κ e) e)
        (insert-IsDict (κ e) (add_to (or_no_acc (lookup (κ e) m)) e) m d)

-- A line stands for an entry of a map.
abbrev Stands : {D : Type 0} → Dict (Acc D) → Line D → Type 0
Stands {D} m l = (a : Acc D) × (lookup l.key m ≡ some a) × (l ≡ line_of (l.key, a))

Stands-cons :
    {D : Type 0} (k : Bytes) (a : Acc D) (m : Dict (Acc D)) (ls : List (Line D))
    → lookup k m ≡ none
    → All (Stands m) ls
    → All (Stands ((k, a) ∷ m)) ls
unfolding lookup
Stands-cons k a m [] new h = tt
Stands-cons k a m (l ∷ ls) new ((b, found, same), h) =
    ((b, ground (arith, found, new, beq_iff k l.key), same), Stands-cons k a m ls new h)

lines-Stand : {D : Type 0} (m : Dict (Acc D)) → IsDict m → All (Stands m) (map line_of m)
unfolding lookup
lines-Stand [] d = tt
lines-Stand ((k, a) ∷ m) d =
    ((a, rw (beq_refl k) refl, refl), Stands-cons k a m (map line_of m) d.0 (lines-Stand m d.1))

-- The events that some lines stand for.
abbrev pub total_events : {D : Type 0} → List (Line D) → ℕ
total_events [] = 0
total_events (l ∷ ls) = l.events + total_events ls

module _ {D : Type 0} ⦃f : Float D⦄ where
  total_events-insert_by :
      (l : Line D) (ls : List (Line D))
      → total_events (insert_by line_before l ls) ≡ l.events + total_events ls
  total_events-insert_by l [] = refl
  total_events-insert_by l (k ∷ ls) = ground (arith, total_events-insert_by l ls)

  total_events-sort_by :
      (ls : List (Line D)) → total_events (sort_by line_before ls) ≡ total_events ls
  unfolding sort_by
  total_events-sort_by [] = refl
  total_events-sort_by (l ∷ ls) =
      total_events-insert_by l (sort_by line_before ls)
      ∙ ap (λ n. l.events + n) (total_events-sort_by ls)

  total_events-add_from :
      (key : Bytes) (m : Dict (Acc D)) (v : Acc D)
      → v.n ≡ suc (or_no_acc (lookup key m)).n
      → total_events (map line_of (insert key v m)) ≡ suc (total_events (map line_of m))
  unfolding insert lookup
  total_events-add_from key [] v h = ground arith
  total_events-add_from key ((k, a) ∷ m) v h = ground (arith, total_events-add_from key m v)

  total_events-add_all :
      (κ : Event D → Bytes) (es : List (Event D)) (m : Dict (Acc D))
      → total_events (map line_of (add_all κ es m)) ≡ length es + total_events (map line_of m)
  unfolding add_all add
  total_events-add_all κ [] m = omega arith
  total_events-add_all κ (e ∷ es) m = omega (
    arith,
    total_events-add_all κ es (add m (κ e) e),
    total_events-add_from (κ e) m (add_to (or_no_acc (lookup (κ e) m)) e) (omega arith),
  )

  -- Each line has the dollars of the events with its key, added up in their order, and their
  -- number, and no event is left out of the lines.
  abbrev pub IsTally : (Event D → Bytes) → List (Event D) → List (Line D) → Type 0
  IsTally κ es ls =
      All
        (λ (l : Line D).
          (l.usd ≡ sum_costs (with_key κ l.key es) zero_usd)
          × (l.events ≡ length (with_key κ l.key es)))
        ls
      × (total_events ls ≡ length es)

  Stands-tally :
      (κ : Event D → Bytes) (es : List (Event D)) (ls : List (Line D))
      → All (Stands (add_all κ es [])) ls
      → All
          (λ (l : Line D).
            (l.usd ≡ sum_costs (with_key κ l.key es) zero_usd)
            × (l.events ≡ length (with_key κ l.key es)))
          ls
  unfolding lookup
  Stands-tally κ es [] h = tt
  Stands-tally κ es (l ∷ ls) ((a, found, same), h) = (
    (
      ground (arith, found, same, add_all-usd κ l.key es []),
      ground (arith, found, same, add_all-events κ l.key es []),
    ),
    Stands-tally κ es ls h,
  )

  pub lines_of-IsTally :
      (κ : Event D → Bytes) (es : List (Event D)) → IsTally κ es (lines_of (add_all κ es []))
  unfolding lines_of
  lines_of-IsTally κ es =
      let m = add_all κ es [] in
      (
        Stands-tally κ es (sort_by line_before (map line_of m)) (
            All-sort_by line_before (Stands m) (map line_of m)
              (lines-Stand m (add_all-IsDict κ es [] tt))),
        omega (arith, total_events-sort_by (map line_of m), total_events-add_all κ es []),
      )
