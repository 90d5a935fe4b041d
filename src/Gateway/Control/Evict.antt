-- ===== src/Gateway/Control/Evict.antt =====
-- internal/gateway/control.go: `evict` and `evictKeys`, the bound on the tracked runs and keys.
use axigate_finops.Prelude.{
  ℕ, ◌-◌, Bool, List, [], ◌∷◌, map, Bytes, Dict, erase, leb, ltb, if◌then◌else◌, length, take,
  sort_by,
}
use axigate_finops.Gateway.Control.State.{RunState, KeyState, Controller}

-- `age`: an id and when it was last seen.
abbrev pub Age : Type 0
Age = Bytes × ℕ

abbrev pub older : Age → Age → Bool
older a b = ltb a.1 b.1

abbrev pub delete_all {ℓ} : {V : Type ℓ} → List Bytes → Dict V → Dict V
delete_all [] m = m
delete_all (k ∷ ks) m = delete_all ks (erase k m)

abbrev pub age_id : Age → Bytes
age_id a = a.0

module _ {V : Type 0} (paused : V → Bool) (last_seen : V → ℕ) where
  -- The entries that may be dropped.
  unfoldable pub ages : Dict V → List Age
  ages [] = []
  ages ((id, v) ∷ m) = let rest = ages m in if paused v then rest else (id, last_seen v) ∷ rest

  -- The ids that are dropped: as many of the unpaused as there are entries over the bound, the
  -- least recently seen first.
  unfoldable pub victims : ℕ → Dict V → List Bytes
  unfolding ages
  victims max m = map age_id (take (length m - max) (sort_by older (ages m)))

  unfoldable pub evict_map : ℕ → Dict V → Dict V
  evict_map max m = if leb (length m) max then m else delete_all (victims max m) m

module _ {D : Type 0} where
  abbrev pub run_paused : RunState D → Bool
  run_paused st = st.paused

  abbrev pub run_seen : RunState D → ℕ
  run_seen st = st.last_seen

  abbrev pub key_paused : KeyState D → Bool
  key_paused ks = ks.paused

  abbrev pub key_seen : KeyState D → ℕ
  key_seen ks = ks.last_seen

  -- `evict`
  unfoldable pub evict : Controller D → Controller D
  evict c = record c { runs = evict_map run_paused run_seen c.policy.max_runs c.runs }

  -- `evictKeys`
  unfoldable pub evict_keys : Controller D → Controller D
  evict_keys c = record c { keys = evict_map key_paused key_seen c.policy.max_runs c.keys }
