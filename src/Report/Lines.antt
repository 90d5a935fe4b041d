-- ===== src/Report/Lines.antt =====
-- internal/report/report.go: `Line`, `acc`, `add` and `linesOf`.
use axigate_finops.Prelude.{
  ℕ, ◌+◌, Bool, List, [], Option, none, some, Bytes, Dict, lookup, insert, Float, zero_usd,
  if◌then◌else◌, map, sort_by,
}
use axigate_finops.Ledger.Event.{Event, Confidence}
use axigate_finops.Report.Rows.{lowest_confidence}
use axigate_finops.Gateway.Store.Records.{bytes_less}

pub record Line (D : Type 0) : Type 0 where
  pub key : Bytes
  pub usd : D
  pub confidence : Confidence
  pub events : ℕ

-- `acc`
pub record Acc (D : Type 0) : Type 0 where
  pub usd : D
  pub conf : Confidence
  pub n : ℕ

abbrev pub line_of : {D : Type 0} → Bytes × Acc D → Line D
line_of (key, a) = record { key = key; usd = a.usd; confidence = a.conf; events = a.n }

module _ {D : Type 0} ⦃f : Float D⦄ where
  abbrev pub no_acc : Acc D
  no_acc = record { usd = zero_usd; conf = []; n = 0 }

  abbrev pub or_no_acc : Option (Acc D) → Acc D
  or_no_acc none = no_acc
  or_no_acc (some a) = a

  abbrev pub add_to : Acc D → Event D → Acc D
  add_to a e = record {
    usd = f.add a.usd e.cost_usd;
    conf = lowest_confidence a.conf e.confidence;
    n = a.n + 1;
  }

  -- `add`
  unfoldable pub add : Dict (Acc D) → Bytes → Event D → Dict (Acc D)
  add m key e = insert key (add_to (or_no_acc (lookup key m)) e) m

  -- The order of `linesOf`: dollars downwards, then keys.
  abbrev pub line_before : Line D → Line D → Bool
  line_before i j = if f.equal i.usd j.usd then bytes_less i.key j.key else f.less j.usd i.usd

  -- `linesOf`
  unfoldable pub lines_of : Dict (Acc D) → List (Line D)
  lines_of m = sort_by line_before (map line_of m)
