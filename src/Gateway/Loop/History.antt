-- ===== src/Gateway/Loop/History.antt =====
-- internal/gateway/loop.go: the history of the detector's calls, and its map of windows.
use axigate_finops.Prelude.{
  ℕ, ◌≤◌, ◌≡◌, refl, inl, inr, Bool, false, List, [], ◌∷◌, ◌++◌, none, some, Bytes, Dict, IsDict,
  lookup, insert, erase, beq, beq_iff, insert-IsDict, lookup-erase_ne, length-erase, erase-IsDict,
  if◌then◌else◌, ◌&&◌, length, filter, All, arith, Bool-cases, Option-cases, ap,
}
use axigate_finops.Gateway.Loop.Detect.{
  LoopPolicy, Ev, RunWindow, Detector, new_detector, after_cutoff, in_window, expire, windowed,
  observe,
}

-- A call of the detector: the run, the signature and the time.
abbrev pub Call : Type 0
Call = Bytes × Bytes × ℕ

-- The detector after a history of calls, the last one first.
unfoldable pub observed : LoopPolicy → List Call → Detector
unfolding observe
observed p [] = new_detector p
observed p ((run, sig, t) ∷ cs) = (observe (observed p cs) run sig t).1

-- The requests of a run that are in the window at a time, from the whole history, the first one
-- first.
unfoldable pub history : ℕ → ℕ → Bytes → List Call → List Ev
history window now run [] = []
history window now run ((r, sig, t) ∷ cs) =
    let rest = history window now run cs in
    if beq r run && after_cutoff window now t then rest ++ (t, sig) ∷ [] else rest

-- The runs that a history names.
unfoldable pub named_runs : List Call → Dict Bytes
named_runs [] = []
named_runs ((run, sig, t) ∷ cs) = insert run sig (named_runs cs)

-- The windows of the runs after a call.
abbrev pub stored : LoopPolicy → Dict RunWindow → Bytes → Bytes → ℕ → Dict RunWindow
stored p m run sig now =
    insert run (record { events = windowed p m run sig now; last_seen = now }) m

-- No call comes before an earlier one, and none after `now`.
abbrev pub Ordered : ℕ → List Call → Type 0
Ordered now [] = Unit
Ordered now ((run, sig, t) ∷ cs) = (t ≤ now) × Ordered t cs

-- Maps of windows.
pub filter-append {ℓ} :
    {A : Type ℓ} (q : A → Bool) (xs ys : List A) → filter q (xs ++ ys) ≡ filter q xs ++ filter q ys
filter-append q [] ys = refl
filter-append q (x ∷ xs) ys = ground (arith, filter-append q xs ys)

pub append-nil {ℓ} : {A : Type ℓ} (xs : List A) → xs ++ [] ≡ xs
append-nil [] = refl
append-nil (x ∷ xs) = ground (arith, append-nil xs)

-- A later window keeps no more than an earlier one.
pub filter-filter_later :
    (w t now : ℕ)
    → t ≤ now
    → (es : List Ev)
    → filter (in_window w now) (filter (in_window w t) es) ≡ filter (in_window w now) es
filter-filter_later w t now h [] = refl
filter-filter_later w t now h (e ∷ es) = ground (arith, filter-filter_later w t now h es)

pub filter-old :
    (w now seen : ℕ)
    → after_cutoff w now seen ≡ false
    → (es : List Ev) → All (λ e. e.0 ≤ seen) es
    → filter (in_window w now) es ≡ []
filter-old w now seen h [] a = refl
filter-old w now seen h (e ∷ es) a = ground (arith, filter-old w now seen h es a.1)

pub lookup-expire :
    (w now : ℕ) (r : Bytes) (m : Dict RunWindow)
    → IsDict m
    → lookup r (expire w now m) ≡ elim (lookup r m) [
      | none ↦ none
      | some v ↦ if after_cutoff w now v.last_seen then some v else none
    ]
unfolding lookup expire
lookup-expire w now r [] d = refl
lookup-expire w now r ((k, v) ∷ m) d =
    ground (arith, beq_iff k r, lookup-expire w now r m d.1, ap (λ (j : Bytes). lookup j m))

pub expire-IsDict : (w now : ℕ) (m : Dict RunWindow) → IsDict m → IsDict (expire w now m)
unfolding expire
expire-IsDict w now [] d = tt
expire-IsDict w now ((k, v) ∷ m) d =
    ground (arith, lookup-expire w now k m d.1, expire-IsDict w now m d.1)

-- A map whose keys all stand in another is no longer.
pub length-contained {ℓ κ} :
    {V : Type ℓ} {W : Type κ} (m : Dict V) (h : Dict W)
    → IsDict m
    → IsDict h
    → ((k : Bytes) → lookup k h ≡ none → lookup k m ≡ none)
    → length m ≤ length h
unfolding lookup
length-contained [] h dm dh c = omega arith
length-contained ((k, v) ∷ m) h dm dh c = elim (Option-cases (lookup k h)) [
  | inl e ↦ ground (arith, c k e, beq_iff k k)
  | inr (w, e) ↦
      omega (
        arith,
        length-erase k h w e,
        length-contained m (erase k h) dm.1 (erase-IsDict k h dh) rest,
      )
]
  where
    rest : (j : Bytes) → lookup j (erase k h) ≡ none → lookup j m ≡ none
    rest j g = elim (Bool-cases (beq k j)) [
      | inl b ↦ ground (arith, beq_iff k j, ap (λ (i : Bytes). lookup i m))
      | inr b ↦ ground (arith, c j, beq_iff k j, lookup-erase_ne j k h)
    ]

pub named_runs-IsDict : (cs : List Call) → IsDict (named_runs cs)
unfolding named_runs
named_runs-IsDict [] = tt
named_runs-IsDict ((run, sig, t) ∷ cs) =
    insert-IsDict run sig (named_runs cs) (named_runs-IsDict cs)

pub length-insert {ℓ} :
    {V : Type ℓ} (k : Bytes) (v : V) (m : Dict V) → length m ≤ length (insert k v m)
unfolding insert
length-insert k v [] = omega arith
length-insert k v ((j, w) ∷ m) = ground (arith, length-insert k v m)

pub observed-policy :
    (p : LoopPolicy) (cs : List Call) → (observed p cs).policy ≡ (new_detector p).policy
unfolding observed observe
observed-policy p [] = refl
observed-policy p ((run, sig, t) ∷ cs) = observed-policy p cs
