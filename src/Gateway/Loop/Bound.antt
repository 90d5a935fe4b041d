-- ===== src/Gateway/Loop/Bound.antt =====
-- internal/gateway/loop.go: `evict`, the bound on the runs that the detector tracks.
use axigate_finops.Prelude.{
  ℕ, ◌≤◌, ◌≡◌, refl, subst, List, [], ◌∷◌, Bytes, Dict, IsDict, insert-IsDict, length, count_if,
  arith,
}
use axigate_finops.Gateway.Control.Bound.{evict_map_bound, evict_map-IsDict}
use axigate_finops.Gateway.Loop.Detect.{
  LoopPolicy, RunWindow, new_detector, expire, evict_windows, observe, never, window_seen,
}
use axigate_finops.Gateway.Loop.History.{Call, observed, expire-IsDict, observed-policy}

count-never : (m : Dict RunWindow) → count_if (λ (e : Bytes × RunWindow). never e.1) m ≡ 0
count-never [] = refl
count-never (e ∷ m) = omega (arith, count-never m)

evict_windows-IsDict :
    (p : LoopPolicy) (now : ℕ) (m : Dict RunWindow) → IsDict m → IsDict (evict_windows p now m)
unfolding evict_windows
evict_windows-IsDict p now m d =
    evict_map-IsDict never window_seen p.max_runs (expire p.window now m)
      (expire-IsDict p.window now m d)

length-evict_windows :
    (p : LoopPolicy) (now : ℕ) (m : Dict RunWindow)
    → IsDict m
    → length (evict_windows p now m) ≤ p.max_runs
unfolding evict_windows
length-evict_windows p now m d = omega (
  arith,
  evict_map_bound never window_seen p.max_runs (expire p.window now m)
      (expire-IsDict p.window now m d),
  count-never (expire p.window now m),
)

observed-IsDict : (p : LoopPolicy) (cs : List Call) → IsDict (observed p cs).runs
unfolding observed observe new_detector
observed-IsDict p [] = tt
observed-IsDict p ((run, sig, t) ∷ cs) =
    evict_windows-IsDict _ t _ (insert-IsDict run _ _ (observed-IsDict p cs))

-- After every history of calls, in whatever order, the detector tracks no more runs than its
-- policy allows.
pub length-observed :
    (p : LoopPolicy) (cs : List Call)
    → length (observed p cs).runs ≤ (new_detector p).policy.max_runs
unfolding observed observe new_detector
length-observed p [] = omega arith
length-observed p ((run, sig, t) ∷ cs) =
    subst (λ (q : LoopPolicy). length (observed p ((run, sig, t) ∷ cs)).runs ≤ q.max_runs)
      (observed-policy p cs)
      (length-evict_windows (observed p cs).policy t _
        (insert-IsDict run _ _ (observed-IsDict p cs)))
