-- ===== src/Owners/Loading.antt =====
-- internal/owners/owners.go: what a loaded mapping holds.
use axigate_finops.Prelude.{
  ℕ, ◌+◌, ◌≡◌, ◌⊎◌, inl, inr, List, [], ◌∷◌, Option, none, some, Bytes, Dict, insert, lookup-insert,
  beq, beq_iff, if◌then◌else◌, length, arith, subst,
}
use axigate_finops.Ledger.Event.{Tags}
use axigate_finops.Owners.Mapping.{
  OwnerMap, loaded, row_dim, row_value, row_tags, values_of, find_tags, add_row, load_rows,
  empty_map, load, columns,
}

find_tags-add_row :
    (m : OwnerMap) (dim v d w : Bytes) (t : Tags)
    → find_tags d w (add_row m dim v t).by_dim ≡ (
        if beq dim d
        then (if beq v w then some t else find_tags d w m.by_dim)
        else find_tags d w m.by_dim)
unfolding find_tags
find_tags-add_row m dim v d w t = ground (
  arith,
  beq_iff dim d,
  lookup-insert d dim (insert v t (values_of dim m.by_dim)) m.by_dim,
  lookup-insert w v t (values_of dim m.by_dim),
)

-- Rows that are loaded later leave an entry as it is.
load_rows-keeps :
    (col : Dict ℕ) (line : ℕ) (rs : List (Option (List Bytes))) (m m' : OwnerMap) (d w : Bytes)
    (t : Tags)
    → load_rows col line rs m ≡ loaded m'
    → find_tags d w m.by_dim ≡ some t
    → find_tags d w m'.by_dim ≡ some t
unfolding load_rows
load_rows-keeps col line [] m m' d w t e h = ground arith
load_rows-keeps col line (none ∷ rs) m m' d w t e h = cc
load_rows-keeps col line (some rec ∷ rs) m m' d w t e h = ground (
  arith,
  find_tags-add_row m (row_dim col rec) (row_value col rec) d w (row_tags col rec),
  beq_iff (row_dim col rec) d,
  beq_iff (row_value col rec) w,
  load_rows-keeps col (line + 1) rs
      (add_row m (row_dim col rec) (row_value col rec) (row_tags col rec)) m' d w t,
)

-- The records that a reader gave without an error.
abbrev pub Given : List Bytes → List (Option (List Bytes)) → Type 0
Given rec [] = ⊥
Given rec (none ∷ rs) = Given rec rs
Given rec (some r ∷ rs) = (r ≡ rec) ⊎ Given rec rs

load_rows-step :
    (col : Dict ℕ) (line : ℕ) (r : List Bytes) (rs : List (Option (List Bytes))) (m m' : OwnerMap)
    → load_rows col line (some r ∷ rs) m ≡ loaded m'
    → load_rows col (line + 1) rs (add_row m (row_dim col r) (row_value col r) (row_tags col r))
      ≡ loaded m'
unfolding load_rows
load_rows-step col line r rs m m' e = ground arith

load_rows-rows :
    (col : Dict ℕ) (line : ℕ) (rs : List (Option (List Bytes))) (m m' : OwnerMap)
    → load_rows col line rs m ≡ loaded m'
    → m'.rows ≡ m.rows + length rs
unfolding load_rows
load_rows-rows col line [] m m' e = ground arith
load_rows-rows col line (none ∷ rs) m m' e = cc
load_rows-rows col line (some r ∷ rs) m m' e = omega (
  arith,
  load_rows-rows col (line + 1) rs (add_row m (row_dim col r) (row_value col r) (row_tags col r)) m'
      (load_rows-step col line r rs m m' e),
)

load_rows-finds :
    (col : Dict ℕ) (line : ℕ) (rs : List (Option (List Bytes))) (m m' : OwnerMap) (rec : List Bytes)
    → load_rows col line rs m ≡ loaded m'
    → Given rec rs
    → find_tags (row_dim col rec) (row_value col rec) m'.by_dim ≡ some (row_tags col rec)
unfolding load_rows
load_rows-finds col line [] m m' rec e g = absurd g
load_rows-finds col line (none ∷ rs) m m' rec e g = cc
load_rows-finds col line (some r ∷ rs) m m' rec e (inr g) =
    load_rows-finds col (line + 1) rs (add_row m (row_dim col r) (row_value col r) (row_tags col r))
      m' rec (load_rows-step col line r rs m m' e) g
load_rows-finds col line (some r ∷ rs) m m' rec e (inl q) =
    subst (λ k. find_tags (row_dim col k) (row_value col k) m'.by_dim ≡ some (row_tags col k)) q
      (load_rows-keeps col (line + 1) rs
        (add_row m (row_dim col r) (row_value col r) (row_tags col r)) m' (row_dim col r)
        (row_value col r) (row_tags col r) (load_rows-step col line r rs m m' e)
        (ground (
          arith,
          find_tags-add_row m (row_dim col r) (row_value col r) (row_dim col r) (row_value col r)
              (row_tags col r),
          beq_iff (row_dim col r) (row_dim col r),
          beq_iff (row_value col r) (row_value col r),
        )))

-- A load that succeeds holds every record under its dimension and value, with its tags, and
-- counts the records: no record takes the place of another.
pub load-finds :
    (header : List Bytes) (rs : List (Option (List Bytes))) (m : OwnerMap) (rec : List Bytes)
    → load header rs ≡ loaded m
    → Given rec rs
    → (find_tags (row_dim (columns 0 header []) rec) (row_value (columns 0 header []) rec) m.by_dim
        ≡ some (row_tags (columns 0 header []) rec))
      × (m.rows ≡ length rs)
unfolding load
load-finds header rs m rec e g = (
  load_rows-finds (columns 0 header []) 1 rs empty_map m rec accepted g,
  omega (arith, load_rows-rows (columns 0 header []) 1 rs empty_map m accepted),
)
  where
    accepted : load_rows (columns 0 header []) 1 rs empty_map ≡ loaded m
    accepted = ground arith
