-- ===== src/Gateway/Resp/Wire.antt =====
-- internal/gateway/resp.go: `writeCommand`, `readLine` and `readReply`.
--
-- The reader is the bytes that are still to come, and the stream ends behind them.
use axigate_finops.Prelude.{
  Bool, not, ◌&&◌, ◌*◌, ℕ, zero, suc, ◌+◌, List, [], ◌∷◌, ◌++◌, Option, none, some, Bytes, itoa, ℤ,
  pos, negsuc, ltb, ◌==◌, if◌then◌else◌, length, take, drop,
}
use axigate_finops.Gateway.Resp.Value.{
  Value, Values, nil, text, int, array, refused, no_values, value, parse_int,
}

abbrev pub crlf : Bytes
crlf = 13 ∷ 10 ∷ []

abbrev pub bulk : Bytes → Bytes
bulk a = 36 ∷ (itoa (length a) ++ (crlf ++ (a ++ crlf)))

abbrev pub bulks : List Bytes → Bytes
bulks [] = []
bulks (a ∷ as') = bulk a ++ bulks as'

-- `writeCommand`: the bytes that it writes and flushes.
unfoldable pub write_command : List Bytes → Bytes
write_command args = 42 ∷ (itoa (length args) ++ (crlf ++ bulks args))

pub data ReadError : Type 0 where
  end_of_stream : ReadError
  malformed : ReadError
  empty_reply : ReadError
  bad_integer : Bytes → ReadError
  bad_bulk_length : Bytes → ReadError
  bad_array_length : Bytes → ReadError
  unknown_type : ℕ → ReadError
  make_panics : ReadError
  out_of_fuel : ReadError

abbrev pub push_line : ℕ → Option (Bytes × Bytes) → Option (Bytes × Bytes)
push_line c none = none
push_line c (some (l, t)) = some (c ∷ l, t)

-- The bytes up to a line feed, and those behind it.
unfoldable pub split_line : Bytes → Option (Bytes × Bytes)
split_line [] = none
split_line (c ∷ s) = let rest = split_line s in if c == 10 then some ([], s) else push_line c rest

-- The text without the carriage return that it must end with.
unfoldable pub strip_return : Bytes → Option Bytes
strip_return [] = none
strip_return (c ∷ []) = if c == 13 then some [] else none
strip_return (c ∷ d ∷ s) = elim (strip_return (d ∷ s)) [ none ↦ none | some l ↦ some (c ∷ l) ]

pub data Line : Type 0 where
  line : Bytes → Bytes → Line
  no_line : ReadError → Line

abbrev pub finish_line : Option Bytes → Bytes → Line
finish_line none rest = no_line malformed
finish_line (some l) rest = line l rest

abbrev pub check_line : Option (Bytes × Bytes) → Line
check_line none = no_line end_of_stream
check_line (some (l, rest)) = finish_line (strip_return l) rest

-- `readLine`
unfoldable pub read_line : Bytes → Line
read_line s = check_line (split_line s)

-- What a read gives, with the bytes behind it: a value, the server's refusal, or an error that
-- leaves the connection unusable.
pub data Reply : Type 0 where
  replied : Value → Bytes → Reply
  rejected : Bytes → Bytes → Reply
  broken : ReadError → Reply

pub data Items : Type 0 where
  listed : Values → Bytes → Items
  cut_short : ReadError → Items

abbrev pub read_int : Bytes → Option ℤ → Bytes → Reply
read_int body none rest = broken (bad_integer body)
read_int body (some n) rest = replied (int n) rest

-- Whether `make` gives a buffer of so many bytes: their number is an `int`, and the runtime has to
-- allocate it, which is a parameter. Otherwise `make` panics.
abbrev pub allocated : (ℕ → Bool) → ℕ → Bool
allocated makes n = ltb n 9223372036854775808 && makes n

-- `n` bytes and the two behind them, which are not looked at.
abbrev pub read_bulk : (ℕ → Bool) → Bytes → Option ℤ → Bytes → Reply
read_bulk makes body none rest = broken (bad_bulk_length body)
read_bulk makes body (some (negsuc n)) rest = replied nil rest
read_bulk makes body (some (pos n)) rest =
    if not (allocated makes (n + 2))
    then broken make_panics
    else if ltb (length rest) (n + 2)
    then broken end_of_stream
    else replied (text (take n rest)) (drop (n + 2) rest)

abbrev pub as_array : Items → Reply
as_array (listed vs rest) = replied (array vs) rest
as_array (cut_short e) = broken e

abbrev pub push_item : Value → Items → Items
push_item v (listed vs rest) = listed (value v vs) rest
push_item v (cut_short e) = cut_short e

-- The next item, by what was read of it, and the items behind it.
abbrev pub read_more : (Bytes → Items) → Reply → Items
read_more more (broken e) = cut_short e
read_more more (replied v rest) = push_item v (more rest)
read_more more (rejected e rest) = push_item (refused e) (more rest)

-- The loop over the items of an array, with the reader of one.
unfoldable pub read_items : (Bytes → Reply) → ℕ → Bytes → Items
read_items read zero s = listed no_values s
read_items read (suc n) s = read_more (read_items read n) (read s)

-- An item takes two words of eight bytes.
abbrev pub read_array : (ℕ → Bool) → (Bytes → Reply) → Bytes → Option ℤ → Bytes → Reply
read_array makes read body none rest = broken (bad_array_length body)
read_array makes read body (some (negsuc n)) rest = replied nil rest
read_array makes read body (some (pos n)) rest =
    let items = as_array (read_items read n rest) in
    if not (allocated makes (16 * n)) then broken make_panics else items

unfoldable pub read_typed : (ℕ → Bool) → (Bytes → Reply) → Line → Reply
read_typed makes read (no_line e) = broken e
read_typed makes read (line [] rest) = broken empty_reply
read_typed makes read (line (c ∷ body) rest) =
    if c == 43
    then replied (text body) rest
    else if c == 45
    then rejected body rest
    else if c == 58
    then read_int body (parse_int body) rest
    else if c == 36
    then read_bulk makes body (parse_int body) rest
    else if c == 42
    then read_array makes read body (parse_int body) rest
    else broken (unknown_type c)

-- `readReply`; the fuel bounds how deep arrays stand in arrays.
unfoldable pub read_reply : (ℕ → Bool) → ℕ → Bytes → Reply
read_reply makes zero s = broken out_of_fuel
read_reply makes (suc f) s = read_typed makes (read_reply makes f) (read_line s)
