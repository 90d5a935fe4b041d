-- ===== src/Owners/Precedence.antt =====
-- internal/owners/owners.go: which dimension `Resolve` goes by, and what `Apply` counts.
use axigate_finops.Prelude.{
  ◌≡◌, ◌↔◌, ◌⊎◌, inl, inr, List, [], ◌∷◌, Option, none, some, Bytes, Dict, lookup, arith,
  Option-cases,
}
use axigate_finops.Ledger.Event.{Tags}
use axigate_finops.Owners.Mapping.{OwnerMap, precedence, find_tags, resolve_in, resolve_owner}

-- What the mapping has for one dimension of an event.
abbrev pub found_by : Dict (Dict Tags) → Dict Bytes → Bytes → Option Tags
found_by m dims dim = elim (lookup dim dims) [ none ↦ none | some v ↦ find_tags dim v m ]

-- A dimension of the list has the tags, and none before it has any.
abbrev pub FirstFound : Dict (Dict Tags) → Dict Bytes → List Bytes → Tags → Bytes → Type 0
FirstFound m dims [] t by = ⊥
FirstFound m dims (dim ∷ ds) t by =
    ((dim ≡ by) × (found_by m dims dim ≡ some t))
    ⊎ ((found_by m dims dim ≡ none) × FirstFound m dims ds t by)

resolve_in-cons :
    (d : Bytes) (ds : List Bytes) (m : Dict (Dict Tags)) (dims : Dict Bytes)
    → resolve_in (d ∷ ds) m dims
      ≡ elim (found_by m dims d) [ none ↦ resolve_in ds m dims | some t ↦ some (t, d) ]
unfolding resolve_in
resolve_in-cons d ds m dims = ground arith

resolve_in-FirstFound :
    (ds : List Bytes) (m : Dict (Dict Tags)) (dims : Dict Bytes) (t : Tags) (by : Bytes)
    → resolve_in ds m dims ≡ some (t, by)
    → FirstFound m dims ds t by
unfolding resolve_in
resolve_in-FirstFound [] m dims t by h = cc
resolve_in-FirstFound (d ∷ ds) m dims t by h = elim (Option-cases (found_by m dims d)) [
  | inl e ↦
      inr (e, resolve_in-FirstFound ds m dims t by (ground (arith, resolve_in-cons d ds m dims)))
  | inr (u, e) ↦ inl (ground (arith, resolve_in-cons d ds m dims))
]

FirstFound-resolve_in :
    (ds : List Bytes) (m : Dict (Dict Tags)) (dims : Dict Bytes) (t : Tags) (by : Bytes)
    → FirstFound m dims ds t by
    → resolve_in ds m dims ≡ some (t, by)
unfolding resolve_in
FirstFound-resolve_in [] m dims t by h = absurd h
FirstFound-resolve_in (d ∷ ds) m dims t by (inl (q, e)) =
    ground (arith, resolve_in-cons d ds m dims)
FirstFound-resolve_in (d ∷ ds) m dims t by (inr (e, h)) =
    ground (arith, resolve_in-cons d ds m dims, FirstFound-resolve_in ds m dims t by h)

-- An event is given the tags that the mapping has for the first of its dimensions, in the fixed
-- order of precedence, that it has any for, and for no other.
pub resolve_owner-FirstFound :
    (m : OwnerMap) (dims : Dict Bytes) (t : Tags) (by : Bytes)
    → (resolve_owner m dims ≡ some (t, by)) ↔ FirstFound m.by_dim dims precedence t by
unfolding resolve_owner
resolve_owner-FirstFound m dims t by = (
  resolve_in-FirstFound precedence m.by_dim dims t by,
  FirstFound-resolve_in precedence m.by_dim dims t by,
)
