-- ===== src/Gateway/Handler/Ledger.antt =====
-- internal/gateway/ledger.go: `ParseLedger`, the read side of the recorder. What `json.Unmarshal`
-- gives for a line is a parameter.
use axigate_finops.Prelude.{
  ℕ, ◌+◌, ◌≡◌, refl, ap, sym, ◌∙◌, Bool, true, false, not, List, [], ◌∷◌, ◌++◌, Option, none, some,
  Bytes, str, trim_space, is_empty, Float, arith, if◌then◌else◌, filter, leb, length, All, ◌==◌,
  Bool-cases, inl, inr, if_cases, if_both, map,
}
use axigate_finops.Ledger.Event.{Event, validate}
use axigate_finops.Gateway.Stream.Lines.{Cut, cut_lines}
use axigate_finops.Gateway.Stream.Chunks.{append_assoc, append_nil}
use axigate_finops.Gateway.Handler.Record.{Journal, write_row}

-- `ScanLines`: the lines of a text, the last of which need not end, less a carriage return.
abbrev pub drop_return : Bytes → Bytes
drop_return [] = []
drop_return (c ∷ []) = if c == 13 then [] else c ∷ []
drop_return (c ∷ d ∷ s) = c ∷ drop_return (d ∷ s)

abbrev last_line : Bytes → List Bytes
last_line s = if is_empty s then [] else s ∷ []

unfoldable pub scanned : Bytes → List Bytes
scanned s = let cut = cut_lines s in cut.0 ++ last_line cut.1

-- The buffer of the scanner, which a line has to fit into with its line feed.
abbrev pub max_line : ℕ
max_line = 8388608

-- The events, the number of a line that is malformed or not valid, or a line that is too long.
pub data Parsed (D : Type 0) : Type 0 where
  parsed : List (Event D) → Parsed D
  bad_line : ℕ → Parsed D
  too_long : Parsed D

module _ {D : Type 0} ⦃f : Float D⦄ (unmarshal : Bytes → Option (Event D)) where
  -- One line that is not blank.
  abbrev pub parse_line :
      (List (Event D) → Parsed D) → ℕ → List (Event D) → Option (Event D) → Parsed D
  parse_line more line out none = bad_line line
  parse_line more line out (some e) = elim (validate e) [
    | some err ↦ bad_line line
    | none ↦ more (out ++ e ∷ [])
  ]

  -- The loop over the lines.
  unfoldable pub read_lines : ℕ → List (Event D) → List Bytes → Parsed D
  read_lines line out [] = parsed out
  read_lines line out (s ∷ ss) =
      let b = trim_space (drop_return s) in
      let skipped = read_lines (line + 1) out ss in
      let read = parse_line (λ out'. read_lines (line + 1) out' ss) (line + 1) out (unmarshal b) in
      if not (leb (length s + 1) max_line) then too_long else if is_empty b then skipped else read

  -- `ParseLedger`
  unfoldable pub parse_ledger : Bytes → Parsed D
  parse_ledger s = read_lines 0 [] (scanned s)

abbrev pub has_feed : Bytes → Bool
has_feed [] = false
has_feed (c ∷ s) = if c == 10 then true else has_feed s

-- The JSON text of an event, empty if there is none.
abbrev pub text_of : {D : Type 0} → (Event D → Option Bytes) → Event D → Bytes
text_of marshal e = elim (marshal e) [ none ↦ [] | some b ↦ b ]

-- What the recorder and this reader rely on of the JSON text of an event: there is one, it is one
-- line that is not blank at its ends and fits the scanner, and it is read back as the event.
pub record IsLine {D : Type 0} (marshal : Event D → Option Bytes)
    (unmarshal : Bytes → Option (Event D)) (e : Event D) : Type 0 where
  pub marshals : marshal e ≡ some (text_of marshal e)
  pub one_line : has_feed (text_of marshal e) ≡ false
  pub no_return : drop_return (text_of marshal e) ≡ text_of marshal e
  pub trimmed : trim_space (text_of marshal e) ≡ text_of marshal e
  pub filled : is_empty (text_of marshal e) ≡ false
  pub fits : leb (length (text_of marshal e) + 1) max_line ≡ true
  pub reads : unmarshal (text_of marshal e) ≡ some e

abbrev pub joined : List Bytes → Bytes
joined [] = []
joined (l ∷ ls) = l ++ joined ls

cut_lines-feed_after :
    (p s : Bytes)
    → has_feed p ≡ false
    → cut_lines (p ++ 10 ∷ s) ≡ (p ∷ (cut_lines s).0, (cut_lines s).1)
unfolding cut_lines
cut_lines-feed_after [] s h = refl
cut_lines-feed_after (c ∷ p) s h = ground (arith, cut_lines-feed_after p s)

module _ {D : Type 0} ⦃f : Float D⦄ where
  abbrev pub is_valid : Event D → Bool
  is_valid e = elim (validate e) [ some _ ↦ false | none ↦ true ]

  -- A recorder once it was handed some events.
  abbrev pub write_rows :
      (Event D → Option Bytes) → (Bytes → Bytes → Bytes × Bool) → Journal → List (Event D) → Journal
  write_rows marshal write j [] = j
  write_rows marshal write j (e ∷ es) = write_rows marshal write (write_row marshal write j e) es

  abbrev feed_line : (Event D → Option Bytes) → Event D → Bytes
  feed_line marshal e = text_of marshal e ++ str "\n"

  parse_line_valid :
      (unmarshal : Bytes → Option (Event D)) (more : List (Event D) → Parsed D) (n : ℕ)
      (out : List (Event D)) (e : Event D)
      → validate e ≡ none
      → parse_line unmarshal more n out (some e) ≡ more (out ++ e ∷ [])
  parse_line_valid unmarshal more n out e v = ground (arith)

  is_valid-none : (e : Event D) → is_valid e ≡ true → validate e ≡ none
  is_valid-none e h = ground arith

  module _ (marshal : Event D → Option Bytes) (unmarshal : Bytes → Option (Event D)) where
    cut_lines-joined :
        (es : List (Event D))
        → All (IsLine marshal unmarshal) es
        → cut_lines (joined (map (feed_line marshal) es)) ≡ (map (text_of marshal) es, [])
    unfolding cut_lines
    cut_lines-joined [] k = refl
    cut_lines-joined (e ∷ es) k =
        let rest = joined (map (feed_line marshal) es) in
        ap cut_lines (append_assoc (text_of marshal e) (str "\n") rest)
        ∙ cut_lines-feed_after (text_of marshal e) rest k.0.one_line
        ∙ ap (λ (c : Cut). (text_of marshal e ∷ c.0, c.1)) (cut_lines-joined es k.1)

    read_lines-marshal :
        (n : ℕ) (out es : List (Event D))
        → All (IsLine marshal unmarshal) es
        → All (λ (e : Event D). validate e ≡ none) es
        → read_lines unmarshal n out (map (text_of marshal) es) ≡ parsed (out ++ es)
    unfolding read_lines
    read_lines-marshal n out [] k h = ap parsed (sym (append_nil out))
    read_lines-marshal n out (e ∷ es) k h =
        rw (k.0.no_return, k.0.trimmed, k.0.fits, k.0.filled, k.0.reads)
          (parse_line_valid unmarshal
              (λ x. read_lines unmarshal (n + 1) x (map (text_of marshal) es)) (n + 1) out e h.0
            ∙ read_lines-marshal (n + 1) (out ++ e ∷ []) es k.1 h.1
            ∙ ap parsed (append_assoc out (e ∷ []) es))

    filter-valid :
        (es : List (Event D)) → All (λ (e : Event D). validate e ≡ none) (filter is_valid es)
    filter-valid [] = tt
    filter-valid (e ∷ es) =
        if_cases (λ (x : List (Event D)). All (λ (d : Event D). validate d ≡ none) x) (is_valid e)
          (λ v. (is_valid-none e v, filter-valid es)) (λ v. filter-valid es)

    All-filter :
        (es : List (Event D))
        → All (IsLine marshal unmarshal) es
        → All (IsLine marshal unmarshal) (filter is_valid es)
    All-filter [] k = tt
    All-filter (e ∷ es) k =
        if_both (λ (x : List (Event D)). All (IsLine marshal unmarshal) x) (is_valid e)
          (k.0, All-filter es k.1) (All-filter es k.1)

    module _ (write : Bytes → Bytes → Bytes × Bool)
        (whole : (s b : Bytes) → write s b ≡ (s ++ b, false)) where
      write_row_valid :
          (j : Journal) (e : Event D)
          → IsLine marshal unmarshal e
          → write_row marshal write j e ≡ (
              if is_valid e
              then record j { written = j.written ++ feed_line marshal e }
              else record j { errors = j.errors + 1 })
      unfolding write_row
      write_row_valid j e k = ground (arith, k.marshals, whole j.written (feed_line marshal e))

      -- The rows that were written, and those that were reported.
      write_rows-filter :
          (j : Journal) (es : List (Event D))
          → All (IsLine marshal unmarshal) es
          → ((write_rows marshal write j es).written
              ≡ j.written ++ joined (map (feed_line marshal) (filter is_valid es)))
            × ((write_rows marshal write j es).errors + length (filter is_valid es)
                ≡ j.errors + length es)
      write_rows-filter j [] k = (sym (append_nil j.written), refl)
      write_rows-filter j (e ∷ es) k = elim (Bool-cases (is_valid e)) [
        | inl v ↦
            let j' : Journal = record j { written = j.written ++ feed_line marshal e } in
            let here : write_row marshal write j e ≡ j' = write_row_valid j e k.0 ∙ rw v refl in
            let rest = write_rows-filter j' es k.1 in
            rw v (
              ap (λ x. (write_rows marshal write x es).written) here
                  ∙ rest.0
                  ∙ append_assoc j.written (feed_line marshal e) _,
              omega (arith, rest.1, ap (λ x. (write_rows marshal write x es).errors) here),
            )
        | inr v ↦
            let j' : Journal = record j { errors = j.errors + 1 } in
            let here : write_row marshal write j e ≡ j' = write_row_valid j e k.0 ∙ rw v refl in
            let rest = write_rows-filter j' es k.1 in
            rw v (
              ap (λ x. (write_rows marshal write x es).written) here ∙ rest.0,
              omega (arith, rest.1, ap (λ x. (write_rows marshal write x es).errors) here),
            )
      ]

      -- The file that a recorder has written from the start is read back as the events that it was
      -- handed and that are valid, in their order, and each other one was reported, if no write
      -- fails and the JSON text of each event is one line that fits the scanner and is read back as
      -- the event.
      pub parse_ledger-write_rows :
          (es : List (Event D))
          → All (IsLine marshal unmarshal) es
          → let j = write_rows marshal write (record { written = []; errors = 0 }) es in
            (parse_ledger unmarshal j.written ≡ parsed (filter is_valid es))
            × (j.errors + length (filter is_valid es) ≡ length es)
      unfolding parse_ledger scanned
      parse_ledger-write_rows es k =
          let vs = filter is_valid es in
          let wrote = write_rows-filter (record { written = []; errors = 0 }) es k in
          (
            rw
                (
                  wrote.0,
                  cut_lines-joined vs (All-filter es k),
                  append_nil (map (text_of marshal) vs),
                )
                (read_lines-marshal 0 [] vs (All-filter es k) (filter-valid es)),
            omega (arith, wrote.1),
          )
