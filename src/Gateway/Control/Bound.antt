-- ===== src/Gateway/Control/Bound.antt =====
-- internal/gateway/control.go: what `evict` and `evictKeys` keep, and how many.
mod Deletion
use axigate_finops.Prelude.{
  leb→le, ℕ, zero, suc, ◌+◌, ◌-◌, ◌≤◌, ◌<◌, ◌≡◌, refl, ◌≢◌, ◌⊎◌, inl, inr, Bool, true, false, List,
  [], ◌∷◌, map, Option, none, some, Bytes, Dict, IsDict, lookup, erase, beq, beq_iff,
  lookup-erase_self, lookup-erase_ne, erase-IsDict, length-erase, arith, length, take, leb, All,
  All-take, sort_by, insert_by, All-insert_by, All-sort_by, length-sort_by, length-take, Bool-cases,
  if◌then◌else◌, sym, ap, ◌∙◌, beq_refl, count_if,
}
use axigate_finops.Gateway.Control.Evict.{
  Age, older, age_id, delete_all, ages, victims, evict_map, evict, run_paused, run_seen,
}
use axigate_finops.Gateway.Control.State.{RunState, Controller}
use Deletion.{
  All-imp, Apart, Apart-insert_by, Apart-sort_by, Apart-take, HasId, HasId-insert_by, HasId-sort_by,
  Kept, Present, delete_all-IsDict, delete_all-Kept, delete_all_gone, delete_all_hit,
  delete_all_other, leb-false, length-delete_all, lt→leb, take_all,
}

module _ {V : Type 0} (paused : V → Bool) (last_seen : V → ℕ) where
  ages-HasId :
      (r : Bytes) (v : V) (m : Dict V)
      → lookup r m ≡ some v
      → paused v ≡ false
      → HasId r (ages paused last_seen m)
  unfolding ages lookup
  ages-HasId r v [] e p = cc
  ages-HasId r v ((k, w) ∷ m) e p = ground (arith, beq_iff k r, ages-HasId r v m)

  -- An age that is that of an unpaused entry.
  IsLive : Dict V → Age → Type 0
  IsLive m a = (v : V) × (lookup a.0 m ≡ some v) × (paused v ≡ false)

  IsLive-cons :
      (k : Bytes) (v : V) (m : Dict V)
      → lookup k m ≡ none
      → (a : Age) → IsLive m a
      → (k ≢ a.0) × IsLive ((k, v) ∷ m) a
  unfolding IsLive lookup
  IsLive-cons k v m new a (w, e, p) = (ne, (w, ground (arith, beq_iff k a.0), p))
    where
      ne : k ≢ a.0
      ne q = ground (arith, ap (λ (j : Bytes). lookup j m) q)

  ages-IsLive : (m : Dict V) → IsDict m → All (IsLive m) (ages paused last_seen m)
  unfolding ages IsLive lookup
  ages-IsLive [] d = tt
  ages-IsLive ((k, v) ∷ m) d =
      let rest : All (IsLive ((k, v) ∷ m)) (ages paused last_seen m) =
        All-imp (ages paused last_seen m) (λ a h. (IsLive-cons k v m d.0 a h).1)
          (ages-IsLive m d.1) in
      elim (Bool-cases (paused v)) [
        | inl e ↦ rw e rest
        | inr e ↦ rw e ((v, rw (beq_refl k), e), rest)
      ]

  ages-Apart : (m : Dict V) → IsDict m → Apart (ages paused last_seen m)
  unfolding ages IsLive
  ages-Apart [] d = tt
  ages-Apart ((k, v) ∷ m) d = ground (
    arith,
    ages-Apart m d.1,
    All-imp (ages paused last_seen m) (λ a h. (IsLive-cons k v m d.0 a h).0) (ages-IsLive m d.1),
  )

  length-ages :
      (m : Dict V)
      → length (ages paused last_seen m) + count_if (λ (e : Bytes × V). paused e.1) m ≡ length m
  unfolding ages
  length-ages [] = omega arith
  length-ages ((k, v) ∷ m) = ground (arith, length-ages m)

  victims-IsLive :
      (max : ℕ) (m : Dict V)
      → IsDict m
      → All (IsLive m) (take (length m - max) (sort_by older (ages paused last_seen m)))
  victims-IsLive max m d =
      All-take (IsLive m) (length m - max) (sort_by older (ages paused last_seen m))
        (All-sort_by older (IsLive m) (ages paused last_seen m) (ages-IsLive m d))

  pub evict_map-Kept :
      (r : Bytes) (max : ℕ) (m : Dict V) → IsDict m → Kept r m (evict_map paused last_seen max m)
  unfolding evict_map
  evict_map-Kept r max m d = ground (arith, delete_all-Kept r (victims paused last_seen max m) m d)

  pub evict_map-IsDict :
      (max : ℕ) (m : Dict V) → IsDict m → IsDict (evict_map paused last_seen max m)
  unfolding evict_map
  evict_map-IsDict max m d = ground (arith, delete_all-IsDict (victims paused last_seen max m) m d)

  -- A paused entry is never dropped.
  pub evict_map_paused :
      (r : Bytes) (v : V) (max : ℕ) (m : Dict V)
      → IsDict m
      → lookup r m ≡ some v
      → paused v ≡ true
      → lookup r (evict_map paused last_seen max m) ≡ some v
  unfolding evict_map victims IsLive
  evict_map_paused r v max m d e p = ground (
    arith,
    delete_all_other r (victims paused last_seen max m) m (others live (victims-IsLive max m d)),
  )
    where
      live : List Age
      live = take (length m - max) (sort_by older (ages paused last_seen m))

      others : (bs : List Age) → All (IsLive m) bs → All (λ (k : Bytes). k ≢ r) (map age_id bs)
      others [] h = tt
      others (b ∷ bs) h = (λ q. ground (arith, ap (λ (j : Bytes). lookup j m) q), others bs h.1)

  -- Afterwards there are no more entries than the bound, or all that are left are paused.
  pub evict_map_bound :
      (max : ℕ) (m : Dict V)
      → IsDict m
      → (length (evict_map paused last_seen max m) ≤ max)
        ⊎ (length (evict_map paused last_seen max m) ≡ count_if (λ (e : Bytes × V). paused e.1) m)
  unfolding evict_map victims Present IsLive
  evict_map_bound max m d = elim (Bool-cases (leb (length m) max)) [
    | inl e ↦ rw e (inl (leb→le _ _ e))
    | inr e ↦ rw e (
        omega (
          arith,
          leb-false (length m) max e,
          dropped,
          length-take (length m - max) (sort_by older (ages paused last_seen m)),
          length-sort_by older (ages paused last_seen m),
          length-ages m,
        ))
  ]
    where
      live : List Age
      live = take (length m - max) (sort_by older (ages paused last_seen m))

      dropped : length (delete_all (map age_id live) m) + length live ≡ length m
      dropped =
          length-delete_all live m (All-imp live (λ a h. (h.0, h.1)) (victims-IsLive max m d))
            (Apart-take _ _ (Apart-sort_by _ (ages-Apart m d)))

  -- With as many paused entries as the bound allows, every unpaused one is dropped.
  pub evict_map_full :
      (r : Bytes) (v : V) (max : ℕ) (m : Dict V)
      → IsDict m
      → lookup r m ≡ some v
      → paused v ≡ false
      → max ≤ count_if (λ (e : Bytes × V). paused e.1) m
      → max < length m
      → lookup r (evict_map paused last_seen max m) ≡ none
  unfolding evict_map victims
  evict_map_full r v max m d e p h over = rw (lt→leb max (length m) over) (
      delete_all_hit r (take (length m - max) (sort_by older (ages paused last_seen m))) m d (
        rw (take_all (length m - max) (sort_by older (ages paused last_seen m)) enough)
          (HasId-sort_by r (ages paused last_seen m) (ages-HasId r v m e p))))
    where
      enough : length (sort_by older (ages paused last_seen m)) ≤ length m - max
      enough = omega (arith, length-sort_by older (ages paused last_seen m), length-ages m)

  count-le-length : (m : Dict V) → count_if (λ (e : Bytes × V). paused e.1) m ≤ length m
  count-le-length [] = omega arith
  count-le-length ((k, v) ∷ m) = ground (arith, count-le-length m)

  -- An unpaused entry leaves fewer paused ones than there are entries.
  pub count-lt-length :
      (r : Bytes) (v : V) (m : Dict V)
      → lookup r m ≡ some v
      → paused v ≡ false
      → count_if (λ (e : Bytes × V). paused e.1) m < length m
  unfolding lookup
  count-lt-length r v [] e p = cc
  count-lt-length r v ((k, w) ∷ m) e p = ground (arith, count-le-length m, count-lt-length r v m)

module _ {D : Type 0} where
  -- Each paused run of `m` is the same in `m'`.
  abbrev pub PausedKept : Dict (RunState D) → Dict (RunState D) → Type 0
  PausedKept m m' =
      (r : Bytes) (st : RunState D)
      → lookup r m ≡ some st
      → st.paused ≡ true
      → lookup r m' ≡ some st

  -- An eviction keeps every paused run as it is, keeps each other run as it is or drops it, and
  -- leaves no more runs than the bound, or as many as are paused, whether a run is paused or not.
  pub evict_bounded :
      (c : Controller D) (q : Bytes)
      → IsDict c.runs
      → PausedKept c.runs (evict c).runs
        × Kept q c.runs (evict c).runs
        × ((length (evict c).runs ≤ c.policy.max_runs)
            ⊎ (length (evict c).runs
                ≡ count_if (λ (e : Bytes × RunState D). run_paused e.1) c.runs))
  unfolding evict
  evict_bounded c q d = (
    λ r st e p. evict_map_paused run_paused run_seen r st c.policy.max_runs c.runs d e p,
    evict_map-Kept run_paused run_seen q c.policy.max_runs c.runs d,
    evict_map_bound run_paused run_seen c.policy.max_runs c.runs d,
  )
