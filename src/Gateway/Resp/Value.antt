-- ===== src/Gateway/Resp/Value.antt =====
-- internal/gateway/resp.go: the values of replies, `asInt` and `asString`, and the decimal numbers of
-- `strconv.ParseInt(s, 10, 64)` and `strconv.Atoi`, which are the same for an `int` of 64 bits.
use axigate_finops.Prelude.{
  ℕ, zero, suc, ◌+◌, ◌-◌, ◌*◌, [], ◌∷◌, Option, none, some, Bytes, ℤ, pos, negsuc, ltb, leb, ◌==◌,
  ◌&&◌, if◌then◌else◌,
}

-- A reply: nil, a string, an int64, an array, or the error that stands for an item of an array.
mutual
  pub data Value : Type 0 where
    nil : Value
    text : Bytes → Value
    int : ℤ → Value
    array : Values → Value
    refused : Bytes → Value

  pub data Values : Type 0 where
    no_values : Values
    value : Value → Values → Values

-- The number that digits spell behind `n`, or none at another byte.
unfoldable pub scan_digits : Bytes → ℕ → Option ℕ
scan_digits [] n = some n
scan_digits (c ∷ s) n =
    let rest = scan_digits s (n * 10 + (c - 48)) in if leb 48 c && leb c 57 then rest else none

unfoldable pub parse_digits : Bytes → Option ℕ
parse_digits [] = none
parse_digits (c ∷ s) = scan_digits (c ∷ s) 0

abbrev pub in_int64 : ℤ → Option ℤ
in_int64 (pos n) = if ltb n 9223372036854775808 then some (pos n) else none
in_int64 (negsuc n) = if ltb n 9223372036854775808 then some (negsuc n) else none

abbrev pub negated : ℕ → ℤ
negated zero = pos 0
negated (suc n) = negsuc n

abbrev pub unsigned : Option ℕ → Option ℤ
unsigned none = none
unsigned (some n) = in_int64 (pos n)

abbrev pub negative : Option ℕ → Option ℤ
negative none = none
negative (some n) = in_int64 (negated n)

-- `strconv.ParseInt`: a sign or none, then digits, and a value that an int64 holds.
unfoldable pub parse_int : Bytes → Option ℤ
parse_int [] = none
parse_int (c ∷ s) =
    if c == 45
    then negative (parse_digits s)
    else if c == 43
    then unsigned (parse_digits s)
    else unsigned (parse_digits (c ∷ s))

-- `asInt`: none for its `false`.
unfoldable pub as_int : Value → Option ℤ
as_int (int n) = some n
as_int (text s) = parse_int s
as_int _ = none

-- `asString`
unfoldable pub as_string : Value → Bytes
as_string (text s) = s
as_string _ = []

abbrev pub count_values : Values → ℕ
count_values no_values = 0
count_values (value v vs) = suc (count_values vs)

-- `r, _ := v.([]any)`: no items for a value that is no array.
abbrev pub items : Value → Values
items (array vs) = vs
items _ = no_values

-- `r[i]`
abbrev pub item : ℕ → Values → Value
item i no_values = nil
item zero (value v vs) = v
item (suc i) (value v vs) = item i vs
