-- ===== src/Ledger/Identify.antt =====
-- internal/ledger/event.go: `DeriveID`. The SHA-256 digest is a parameter.
use axigate_finops.Prelude.{
  ℕ, ◌/◌, ◌%◌, List, [], ◌∷◌, ◌++◌, none, some, Bytes, str, Dict, lookup, ltb, if◌then◌else◌, map,
  take, sort_by, ◌+◌,
}
use axigate_finops.Ledger.Event.{Event}
use axigate_finops.Gateway.Control.State.{day_of}
use axigate_finops.Gateway.Shared.Date.{two_digits, four_digits, civil_date, today_text}
use axigate_finops.Gateway.Store.Records.{bytes_less}

abbrev hex_digit : ℕ → ℕ
hex_digit n = if ltb n 10 then 48 + n else 87 + n

-- `hex.EncodeToString`
unfoldable pub hex_text : Bytes → Bytes
hex_text [] = []
hex_text (c ∷ s) = hex_digit (c / 16) ∷ hex_digit (c % 16) ∷ hex_text s

-- The layout of `time.RFC3339` for a UTC time.
unfoldable pub rfc3339 : ℕ → Bytes
rfc3339 t =
    let seconds = t / 1000000000 in
    today_text t
    ++ str "T"
    ++ two_digits (seconds / 3600 % 24)
    ++ str ":"
    ++ two_digits (seconds / 60 % 60)
    ++ str ":"
    ++ two_digits (seconds % 60)
    ++ str "Z"

-- The layout "2006-01".
unfoldable pub month_text : ℕ → Bytes
month_text t =
    let date = civil_date (day_of t) in four_digits date.0 ++ str "-" ++ two_digits date.1

abbrev pub dict_keys : Dict Bytes → List Bytes
dict_keys m = map (λ (e : Bytes × Bytes). e.0) m

abbrev or_empty : Bytes → Dict Bytes → Bytes
or_empty k m = elim (lookup k m) [ none ↦ [] | some v ↦ v ]

-- The loop over the sorted names of the dimensions.
unfoldable pub write_dimensions : Dict Bytes → List Bytes → Bytes
write_dimensions m [] = []
write_dimensions m (k ∷ ks) = str "|" ++ k ++ str "=" ++ or_empty k m ++ write_dimensions m ks

module _ {D : Type 0} where
  -- The text that the digest is taken of.
  unfoldable pub identity_text : Event D → Bytes
  identity_text e =
      e.source
      ++ str "|"
      ++ e.provider
      ++ str "|"
      ++ e.model
      ++ str "|"
      ++ rfc3339 e.starts_at
      ++ str "|"
      ++ rfc3339 e.ends_at
      ++ write_dimensions e.dimensions (sort_by bytes_less (dict_keys e.dimensions))

  -- `DeriveID`
  unfoldable pub derive_id : (Bytes → Bytes) → Event D → Event D
  derive_id digest e = record e {
    id = hex_text (take 16 (digest (identity_text e)));
    period = month_text e.starts_at;
  }
