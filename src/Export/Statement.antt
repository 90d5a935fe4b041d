-- ===== src/Export/Statement.antt =====
-- internal/statement/statement.go: the flat CSV of all events. What the CSV writer is handed are
-- lists of cells.
use axigate_finops.Prelude.{
  Bool, List, [], ◌∷◌, Bytes, str, beq, Float, if◌then◌else◌, map, sort_by,
}
use axigate_finops.Ledger.Event.{Event}
use axigate_finops.Gateway.Store.Records.{bytes_less}
use axigate_finops.Export.Field.{field}
use axigate_finops.Export.Focus.{format_int}

abbrev pub header : List Bytes
header =
    str "period"
    ∷ str "provider"
    ∷ str "model"
    ∷ str "team"
    ∷ str "project"
    ∷ str "customer"
    ∷ str "agent"
    ∷ str "confidence"
    ∷ str "cost_usd"
    ∷ str "input_tokens"
    ∷ str "cache_read"
    ∷ str "cache_write_5m"
    ∷ str "cache_write_1h"
    ∷ str "output_tokens"
    ∷ str "requests"
    ∷ str "source"
    ∷ str "price_version"
    ∷ str "event_id"
    ∷ []

abbrev pub statement_before : {D : Type 0} → Event D → Event D → Bool
statement_before d e =
    if beq d.period e.period
    then (if beq d.provider e.provider
        then bytes_less d.id e.id
        else bytes_less d.provider e.provider)
    else bytes_less d.period e.period

module _ {D : Type 0} ⦃f : Float D⦄ where
  unfoldable pub statement_cells : Event D → List Bytes
  statement_cells e =
      e.period
      ∷ field e.provider
      ∷ field e.model
      ∷ field e.tags.team
      ∷ field e.tags.project
      ∷ field e.tags.customer
      ∷ field e.tags.agent
      ∷ e.confidence
      ∷ f.format_fixed 6 e.cost_usd
      ∷ format_int e.usage.input_tokens
      ∷ format_int e.usage.cache_read
      ∷ format_int e.usage.cache_write_5m
      ∷ format_int e.usage.cache_write_1h
      ∷ format_int e.usage.output_tokens
      ∷ format_int e.usage.requests
      ∷ e.source
      ∷ e.price_version
      ∷ e.id
      ∷ []

  -- `WriteCSV`: the records, the header first.
  unfoldable pub write_statement : List (Event D) → List (List Bytes)
  write_statement es = header ∷ map statement_cells (sort_by statement_before es)
