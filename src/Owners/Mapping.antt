-- ===== src/Owners/Mapping.antt =====
-- internal/owners/owners.go: `Map`, `Load`, `Resolve` and `Apply`.
--
-- The records that the CSV reader gives are an argument: none for a record that it cannot read.
use axigate_finops.Prelude.{
  ℕ, zero, suc, ◌+◌, Bool, true, false, List, [], ◌∷◌, Option, none, some, Bytes, str, Dict, lookup,
  insert, is_empty, trim_space, leb, if◌then◌else◌, ◌&&◌, ◌||◌, map,
}
use axigate_finops.Ledger.Event.{Event, Tags, tags_are_empty}

-- `Precedence`
abbrev pub precedence : List Bytes
precedence =
    str "api_key_id"
    ∷ str "service_account_id"
    ∷ str "user_id"
    ∷ str "account_id"
    ∷ str "project_id"
    ∷ str "workspace_id"
    ∷ []

pub record OwnerMap : Type 0 where
  pub by_dim : Dict (Dict Tags)
  pub rows : ℕ

-- `Empty`
abbrev pub empty_map : OwnerMap
empty_map = record { by_dim = []; rows = 0 }

pub data LoadError : Type 0 where
  no_column : Bytes → LoadError
  unreadable : ℕ → LoadError
  incomplete : ℕ → LoadError
  mapped_twice : ℕ → LoadError

pub data Loaded : Type 0 where
  failed : LoadError → Loaded
  loaded : OwnerMap → Loaded

-- `strings.ToLower` on ASCII text.
abbrev lower_byte : ℕ → ℕ
lower_byte c = if leb 65 c && leb c 90 then c + 32 else c

unfoldable pub lower : Bytes → Bytes
lower s = map lower_byte s

-- The columns by name; the last one of a name counts.
unfoldable pub columns : ℕ → List Bytes → Dict ℕ → Dict ℕ
columns i [] col = col
columns i (h ∷ hs) col = columns (suc i) hs (insert (lower (trim_space h)) i col)

-- `rec[i]`, or "" beyond the end.
abbrev cell : ℕ → List Bytes → Bytes
cell i [] = []
cell zero (x ∷ xs) = x
cell (suc i) (x ∷ xs) = cell i xs

-- The closure `get`.
unfoldable pub get : Dict ℕ → List Bytes → Bytes → Bytes
get col rec name = elim (lookup name col) [ none ↦ [] | some i ↦ trim_space (cell i rec) ]

unfoldable pub row_dim : Dict ℕ → List Bytes → Bytes
row_dim col rec = lower (get col rec (str "dimension"))

unfoldable pub row_value : Dict ℕ → List Bytes → Bytes
row_value col rec = get col rec (str "value")

unfoldable pub row_tags : Dict ℕ → List Bytes → Tags
row_tags col rec = record {
  team = get col rec (str "team");
  project = get col rec (str "project");
  customer = get col rec (str "customer");
  agent = get col rec (str "agent");
  run = [];
}

-- `m.byDim[dim][v]`, where a missing map has nothing.
abbrev pub values_of : Bytes → Dict (Dict Tags) → Dict Tags
values_of dim m = elim (lookup dim m) [ none ↦ [] | some vs ↦ vs ]

unfoldable pub find_tags : Bytes → Bytes → Dict (Dict Tags) → Option Tags
find_tags dim v m = lookup v (values_of dim m)

abbrev pub add_row : OwnerMap → Bytes → Bytes → Tags → OwnerMap
add_row m dim v t = record {
  by_dim = insert dim (insert v t (values_of dim m.by_dim)) m.by_dim;
  rows = m.rows + 1;
}

-- The loop of `Load`, with the number of the line before.
unfoldable pub load_rows : Dict ℕ → ℕ → List (Option (List Bytes)) → OwnerMap → Loaded
load_rows col line [] m = loaded m
load_rows col line (none ∷ rs) m = failed (unreadable (line + 1))
load_rows col line (some rec ∷ rs) m =
    let dim = row_dim col rec in
    let v = row_value col rec in
    let rest = load_rows col (line + 1) rs (add_row m dim v (row_tags col rec)) in
    if is_empty dim || is_empty v
    then failed (incomplete (line + 1))
    else elim (find_tags dim v m.by_dim) [ some _ ↦ failed (mapped_twice (line + 1)) | none ↦ rest ]

abbrev missing : Bytes → Dict ℕ → Bool
missing name col = elim (lookup name col) [ none ↦ true | some _ ↦ false ]

-- `Load`, once the header has been read.
unfoldable pub load : List Bytes → List (Option (List Bytes)) → Loaded
load header rs =
    let col = columns 0 header [] in
    if missing (str "dimension") col
    then failed (no_column (str "dimension"))
    else if missing (str "value") col
    then failed (no_column (str "value"))
    else load_rows col 1 rs empty_map

-- The loop of `Resolve` over the dimensions.
unfoldable pub resolve_in : List Bytes → Dict (Dict Tags) → Dict Bytes → Option (Tags × Bytes)
resolve_in [] m dims = none
resolve_in (dim ∷ ds) m dims =
    let rest = resolve_in ds m dims in
    elim (lookup dim dims) [
      | none ↦ rest
      | some v ↦ elim (find_tags dim v m) [ none ↦ rest | some t ↦ some (t, dim) ]
    ]

-- `Resolve`
unfoldable pub resolve_owner : OwnerMap → Dict Bytes → Option (Tags × Bytes)
resolve_owner m dims = resolve_in precedence m.by_dim dims

module _ {D : Type 0} where
  -- `Apply`: how many events stay unknown, and the events.
  unfoldable pub apply_owners : OwnerMap → List (Event D) → ℕ × List (Event D)
  apply_owners m [] = (0, [])
  apply_owners m (e ∷ es) =
      let (unknown, rest) = apply_owners m es in
      elim (resolve_owner m e.dimensions) [
        | none ↦ ((if tags_are_empty e.tags then unknown + 1 else unknown), e ∷ rest)
        | some (t, by) ↦ (unknown, record e { tags = t } ∷ rest)
      ]
