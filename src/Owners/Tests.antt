-- ===== src/Owners/Tests.antt =====
-- internal/owners/owners.go: a mapping loaded from a concrete file.
use axigate_finops.Prelude.{
  ◌≡◌, refl, ◌↔◌, inl, List, [], ◌∷◌, Option, some, Bytes, Dict, str, length, beq, lookup, insert,
  trim_space,
}
use axigate_finops.Owners.Mapping.{
  OwnerMap, row_value, loaded, load, resolve_owner, precedence, columns, find_tags, row_dim,
  row_tags, get, lower, load_rows,
}
use axigate_finops.Owners.Precedence.{FirstFound, resolve_owner-FirstFound}
use axigate_finops.Owners.Loading.{load-finds}

abbrev header : List Bytes
header = str "Dimension" ∷ str "value" ∷ str "team" ∷ []

abbrev first_record : List Bytes
first_record = str "api_key_id" ∷ str "k1" ∷ str "red" ∷ []

abbrev records : List (Option (List Bytes))
records = some first_record ∷ some (str "project_id" ∷ str "p1" ∷ str "blue" ∷ []) ∷ []

loaded_map : OwnerMap
loaded_map = record {
  by_dim =
      (str "api_key_id", (str "k1", row_tags (columns 0 header []) first_record) ∷ [])
      ∷ (
        str "project_id",
        (str "p1", row_tags (columns 0 header []) (str "project_id" ∷ str "p1" ∷ str "blue" ∷ []))
            ∷ [],
      )
      ∷ [];
  rows = 2;
}

header_loads : load header records ≡ loaded loaded_map
unfolding load loaded_map lookup columns insert beq lower trim_space load_rows row_dim get row_value
    find_tags
header_loads = refl

load-finds_example :
    (find_tags
        (row_dim (columns 0 header []) first_record)
        (row_value (columns 0 header []) first_record)
        loaded_map.by_dim
      ≡ some (row_tags (columns 0 header []) first_record))
    × (loaded_map.rows ≡ length records)
load-finds_example = load-finds header records loaded_map first_record header_loads (inl refl)

abbrev both_ids : Dict Bytes
both_ids = (str "project_id", str "p1") ∷ (str "api_key_id", str "k1") ∷ []

resolve_owner-FirstFound_example :
    (resolve_owner loaded_map both_ids
      ≡ some (row_tags (columns 0 header []) first_record, str "api_key_id"))
    ↔ FirstFound loaded_map.by_dim both_ids precedence
        (row_tags (columns 0 header []) first_record)
        (str "api_key_id")
resolve_owner-FirstFound_example =
    resolve_owner-FirstFound loaded_map both_ids (row_tags (columns 0 header []) first_record)
      (str "api_key_id")
