-- ===== src/Export/Field.antt =====
-- internal/csvsafe/csvsafe.go: `Field`, which keeps a spreadsheet from running a cell.
use axigate_finops.Prelude.{
  ℕ, ◌≡◌, refl, ◌⊎◌, inl, Bool, true, false, [], ◌∷◌, Bytes, List, str, All, starts_with, ◌==◌,
  if◌then◌else◌, ◌||◌, arith,
}

-- The first bytes that a spreadsheet takes for a formula or a command: = + - @ tab return.
unfoldable pub is_trigger : ℕ → Bool
is_trigger c = c == 61 || (c == 43 || (c == 45 || (c == 64 || (c == 9 || c == 13))))

-- `Field`
unfoldable pub field : Bytes → Bytes
unfolding is_trigger
field [] = []
field (c ∷ s) = if is_trigger c then 39 ∷ c ∷ s else c ∷ s

-- The signs and white space that a cell must not begin with, spelled out.
abbrev pub formula_starts : List Bytes
formula_starts = str "=" ∷ str "+" ∷ str "-" ∷ str "@" ∷ (9 ∷ []) ∷ (13 ∷ []) ∷ []

abbrev pub IsSafe : Bytes → Type 0
IsSafe cell = All (λ (t : Bytes). starts_with t cell ≡ false) formula_starts

abbrev pub begins_with_trigger : Bytes → Bool
begins_with_trigger [] = false
begins_with_trigger (c ∷ s) = is_trigger c

-- A cell that was passed through `Field` does not begin with a trigger, passing it again changes
-- nothing, and the cell is left as it is or, if it begins with a trigger, has one quote before it.
pub field_lem :
    (s : Bytes)
    → (begins_with_trigger (field s) ≡ false)
      × (field (field s) ≡ field s)
      × ((field s ≡ s) ⊎ ((field s ≡ 39 ∷ s) × (begins_with_trigger s ≡ true)))
unfolding field is_trigger
field_lem [] = (refl, refl, inl refl)
field_lem (c ∷ s) = ground arith

-- No cell that was passed through `Field` begins with one of them.
pub field-IsSafe : (s : Bytes) → IsSafe (field s)
unfolding field is_trigger starts_with
field-IsSafe [] = ground arith
field-IsSafe (c ∷ s) = ground arith
