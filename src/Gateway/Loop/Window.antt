-- ===== src/Gateway/Loop/Window.antt =====
-- internal/gateway/loop.go: what the detector decides against the whole history of its calls.
use axigate_finops.Prelude.{
  ℕ, ◌≤◌, ◌<◌, ◌≡◌, refl, inl, inr, true, List, [], ◌∷◌, ◌++◌, Option, none, some, Bytes, Dict,
  IsDict, lookup, beq, beq_iff, lookup-insert, insert-IsDict, leb, if◌then◌else◌, ◌&&◌, length,
  filter, All, arith, Bool-cases, ap, ◌∙◌, subst,
}
use axigate_finops.Gateway.Control.Evict.{evict_map}
use axigate_finops.Gateway.Loop.Detect.{
  LoopPolicy, Ev, RunWindow, new_detector, decide, after_cutoff, in_window, events_of, expire,
  evict_windows, windowed, observe,
}
use axigate_finops.Gateway.Loop.History.{
  observed-policy, Call, observed, history, named_runs, stored, Ordered, filter-append, append-nil,
  filter-filter_later, filter-old, lookup-expire, expire-IsDict, length-contained,
  named_runs-IsDict, length-insert,
}

module _ (p : LoopPolicy) where
  abbrev IsAged : Dict RunWindow → ℕ → Type 0
  IsAged m now =
      (r : Bytes) (w : RunWindow)
      → lookup r m ≡ some w
      → (w.last_seen ≤ now) × All (λ (e : Ev). e.0 ≤ w.last_seen) w.events

  abbrev IsNamed : Dict RunWindow → List Call → Type 0
  IsNamed m cs = (k : Bytes) → lookup k (named_runs cs) ≡ none → lookup k m ≡ none

  stored-IsNamed :
      (m : Dict RunWindow) (run sig : Bytes) (t : ℕ) (cs : List Call)
      → IsNamed m cs
      → IsNamed (stored p m run sig t) ((run, sig, t) ∷ cs)
  unfolding named_runs
  stored-IsNamed m run sig t cs h k e = ground (
    arith,
    h k,
    lookup-insert k run sig (named_runs cs),
    lookup-insert k run (record { events = windowed p m run sig t; last_seen = t }) m,
  )

  expire-IsNamed :
      (t : ℕ) (m : Dict RunWindow) (cs : List Call)
      → IsDict m
      → IsNamed m cs
      → IsNamed (expire p.window t m) cs
  expire-IsNamed t m cs d h k e = ground (arith, h k e, lookup-expire p.window t k m d)

  All-events :
      (t : ℕ) (es : List Ev) (sig : Bytes) (seen : ℕ)
      → seen ≤ t
      → All (λ (e : Ev). e.0 ≤ seen) es
      → All (λ (e : Ev). e.0 ≤ t) (filter (in_window p.window t) es ++ (t, sig) ∷ [])
  All-events t [] sig seen h a = (omega arith, tt)
  All-events t (e ∷ es) sig seen h a = ground (arith, All-events t es sig seen h a.1)

  windowed-aged :
      (m : Dict RunWindow) (run sig : Bytes) (t : ℕ)
      → IsAged m t
      → All (λ (e : Ev). e.0 ≤ t) (windowed p m run sig t)
  unfolding windowed events_of
  windowed-aged m run sig t a = go (lookup run m) refl
    where
      go :
          (o : Option RunWindow)
          → lookup run m ≡ o
          → All
              (λ (e : Ev). e.0 ≤ t)
              (filter (in_window p.window t) (elim o [ none ↦ [] | some w ↦ w.events ])
                ++ (t, sig) ∷ [])
      go none e = (omega arith, tt)
      go (some w) e = All-events t w.events sig w.last_seen (a run w e).0 (a run w e).1

  stored-IsAged :
      (m : Dict RunWindow) (run sig : Bytes) (t : ℕ) → IsAged m t → IsAged (stored p m run sig t) t
  stored-IsAged m run sig t a r w e = elim (Bool-cases (beq run r)) [
    | inl b ↦
        subst (λ (v : RunWindow). (v.last_seen ≤ t) × All (λ (e : Ev). e.0 ≤ v.last_seen) v.events)
          (found b) (omega arith, windowed-aged m run sig t a)
    | inr b ↦ ground (arith, a r w, lookup-insert r run now_seen m)
  ]
    where
      now_seen : RunWindow
      now_seen = record { events = windowed p m run sig t; last_seen = t }

      found : beq run r ≡ true → now_seen ≡ w
      found b = ground (arith, lookup-insert r run now_seen m)

  expire-IsAged :
      (m : Dict RunWindow) (t : ℕ) → IsDict m → IsAged m t → IsAged (expire p.window t m) t
  expire-IsAged m t d a r w e = ground (arith, a r w, lookup-expire p.window t r m d)

  later-IsAged : (m : Dict RunWindow) (t now : ℕ) → t ≤ now → IsAged m t → IsAged m now
  later-IsAged m t now h a r w e = (omega (arith, (a r w e).0), (a r w e).1)

  -- Dropping the runs that left the window changes nothing that a later window sees.
  events_of-expire :
      (m : Dict RunWindow) (t now : ℕ) (r : Bytes)
      → t ≤ now
      → IsDict m
      → IsAged m t
      → filter (in_window p.window now) (events_of r (expire p.window t m))
        ≡ filter (in_window p.window now) (events_of r m)
  unfolding events_of
  events_of-expire m t now r h d a = go (lookup r m) refl
    where
      go :
          (o : Option RunWindow)
          → lookup r m ≡ o
          → filter (in_window p.window now) (events_of r (expire p.window t m))
            ≡ filter (in_window p.window now) (events_of r m)
      go none e = ground (arith, lookup-expire p.window t r m d)
      go (some w) e = elim (Bool-cases (after_cutoff p.window t w.last_seen)) [
        | inl b ↦ ground (arith, lookup-expire p.window t r m d)
        | inr b ↦ ground (
          arith,
          lookup-expire p.window t r m d,
          filter-old p.window now w.last_seen (ground arith) w.events (a r w e).1,
        )
      ]

  -- A call adds itself to what a later window sees of its run.
  events_of-stored :
      (m : Dict RunWindow) (run sig r : Bytes) (t now : ℕ)
      → t ≤ now
      → filter (in_window p.window now) (events_of r (stored p m run sig t)) ≡ (
          if beq run r && after_cutoff p.window now t
          then filter (in_window p.window now) (events_of r m) ++ (t, sig) ∷ []
          else filter (in_window p.window now) (events_of r m))
  unfolding events_of windowed
  events_of-stored m run sig r t now h = elim (Bool-cases (beq run r)) [
    | inl b ↦ ground (
      arith,
      beq_iff run r,
      lookup-insert r run (record { events = windowed p m run sig t; last_seen = t }) m,
      filter-append (in_window p.window now) (filter (in_window p.window t) (events_of run m))
          ((t, sig) ∷ []),
      filter-filter_later p.window t now h (events_of run m),
      append-nil (filter (in_window p.window now) (events_of run m)),
    )
    | inr b ↦
        ground
          (arith, lookup-insert r run (record { events = windowed p m run sig t; last_seen = t }) m)
  ]

  -- The map of windows shows, from `now` on, what the history shows.
  record IsTracking (m : Dict RunWindow) (cs : List Call) (now : ℕ) : Type 0 where
    is_dict : IsDict m
    is_named : IsNamed m cs
    is_aged : IsAged m now
    shows :
        (later : ℕ) (r : Bytes)
        → now ≤ later
        → filter (in_window p.window later) (events_of r m) ≡ history p.window later r cs

  later-IsTracking :
      (m : Dict RunWindow) (cs : List Call) (t now : ℕ)
      → t ≤ now
      → IsTracking m cs t
      → IsTracking m cs now
  later-IsTracking m cs t now h k = record {
    is_dict = k.is_dict;
    is_named = k.is_named;
    is_aged = later-IsAged m t now h k.is_aged;
    shows = λ later r l. k.shows later r (omega arith);
  }

  expire-IsTracking :
      (m : Dict RunWindow) (cs : List Call) (t : ℕ)
      → IsTracking m cs t
      → IsTracking (expire p.window t m) cs t
  expire-IsTracking m cs t k = record {
    is_dict = expire-IsDict p.window t m k.is_dict;
    is_named = expire-IsNamed t m cs k.is_dict k.is_named;
    is_aged = expire-IsAged m t k.is_dict k.is_aged;
    shows = λ later r l. events_of-expire m t later r l k.is_dict k.is_aged ∙ k.shows later r l;
  }

  stored-IsTracking :
      (m : Dict RunWindow) (run sig : Bytes) (t : ℕ) (cs : List Call)
      → IsTracking m cs t
      → IsTracking (stored p m run sig t) ((run, sig, t) ∷ cs) t
  unfolding history
  stored-IsTracking m run sig t cs k = record {
    is_dict = insert-IsDict run _ m k.is_dict;
    is_named = stored-IsNamed m run sig t cs k.is_named;
    is_aged = stored-IsAged m run sig t k.is_aged;
    shows = λ later r l. ground (arith, events_of-stored m run sig r t later l, k.shows later r l);
  }

evict-IsTracking :
    (p : LoopPolicy) (m : Dict RunWindow) (cs : List Call) (t : ℕ)
    → IsTracking p m cs t
    → length (named_runs cs) ≤ p.max_runs
    → IsTracking p (evict_windows p t m) cs t
unfolding evict_windows evict_map
evict-IsTracking p m cs t k h = let e = expire-IsTracking p m cs t k in rw (fits e) e
  where
    fits :
        IsTracking p (expire p.window t m) cs t
        → leb (length (expire p.window t m)) p.max_runs ≡ true
    fits e = ground (
      arith,
      length-contained (expire p.window t m) (named_runs cs) e.is_dict (named_runs-IsDict cs)
          e.is_named,
    )

observed-IsTracking :
    (p : LoopPolicy) (now : ℕ) (cs : List Call)
    → Ordered now cs
    → length (named_runs cs) ≤ (new_detector p).policy.max_runs
    → IsTracking (new_detector p).policy (observed p cs).runs cs now
unfolding observed observe named_runs new_detector events_of lookup history
observed-IsTracking p now [] o h = record {
  is_dict = tt;
  is_named = λ k e. refl;
  is_aged = λ r w e. cc;
  shows = λ later r l. refl;
}
observed-IsTracking p now ((run, sig, t) ∷ cs) o h =
    let q = (new_detector p).policy in
    let m = (observed p cs).runs in
    let before : IsTracking q m cs t =
      observed-IsTracking p t cs o.1 (omega (arith, h, length-insert run sig (named_runs cs))) in
    rw (observed-policy p cs) (
      later-IsTracking q _ _ t now o.0 (
        evict-IsTracking q (stored q m run sig t) ((run, sig, t) ∷ cs) t
          (stored-IsTracking q m run sig t cs before) h))

window_positive : (p : LoopPolicy) → 0 < (new_detector p).policy.window
unfolding new_detector
window_positive p = ground arith

windowed-history :
    (q : LoopPolicy) (m : Dict RunWindow) (run sig : Bytes) (now : ℕ) (cs : List Call)
    → 0 < q.window
    → IsTracking q m cs now
    → windowed q m run sig now ≡ history q.window now run ((run, sig, now) ∷ cs)
unfolding windowed history
windowed-history q m run sig now cs b k =
    ground (arith, beq_iff run run, k.shows now run (omega arith))

-- The detector decides on a call as on the requests of its run that are in the window, taken
-- from the whole history, if no call came before an earlier one and the history names no more
-- runs than the detector may track.
pub observe-decides :
    (p : LoopPolicy) (run sig : Bytes) (now : ℕ) (cs : List Call)
    → Ordered now cs
    → length (named_runs cs) ≤ (new_detector p).policy.max_runs
    → (observe (observed p cs) run sig now).0
      ≡ decide
          (new_detector p).policy
          (history (new_detector p).policy.window now run ((run, sig, now) ∷ cs))
unfolding observe
observe-decides p run sig now cs o h = rw (observed-policy p cs) (
    ap (decide (new_detector p).policy) (
      windowed-history (new_detector p).policy (observed p cs).runs run sig now cs
        (window_positive p) (observed-IsTracking p now cs o h)))
