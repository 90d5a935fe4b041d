-- ===== src/Gateway/Resp/RoundTrip.antt =====
-- internal/gateway/resp.go: the command that `writeCommand` writes, read with `readReply`.
use axigate_finops.Prelude.{
  ◌≤◌, ◌*◌, Bool, true, ℕ, suc, ◌+◌, ◌<◌, ◌≡◌, refl, ap, false, List, [], ◌∷◌, ◌++◌, Option, some,
  Bytes, pos, itoa, ltb, ◌==◌, All, arith, length, take, drop, if_not, ◌≢◌, length-append,
}
use axigate_finops.Gateway.Resp.Value.{Values, no_values, value, text, array}
use axigate_finops.Gateway.Resp.Wire.{
  crlf, bulk, bulks, write_command, split_line, strip_return, line, read_line, replied, listed,
  allocated, read_bulk, read_items, read_typed, read_reply,
}
use axigate_finops.Gateway.Resp.Number.{IsDigit, itoa-IsDigit, parse_int-itoa}

abbrev IsInLine : ℕ → Type 0
IsInLine c = c ≢ 10

All-IsInLine : (l : Bytes) → All IsDigit l → All IsInLine l
All-IsInLine [] h = tt
All-IsInLine (c ∷ l) h = ((λ e. omega (arith, h.0)), All-IsInLine l h.1)

append_assoc : (a b c : Bytes) → (a ++ b) ++ c ≡ a ++ (b ++ c)
append_assoc [] b c = refl
append_assoc (x ∷ a) b c = ap (λ s. x ∷ s) (append_assoc a b c)

take-append : (a b : Bytes) → take (length a) (a ++ b) ≡ a
take-append [] b = refl
take-append (x ∷ a) b = ap (λ s. x ∷ s) (take-append a b)

drop-append : (n : ℕ) (a b : Bytes) → drop (length a + n) (a ++ b) ≡ drop n b
drop-append n [] b = let e : 0 + n ≡ n = omega arith in rw e refl
drop-append n (x ∷ a) b =
    let e : suc (length a) + n ≡ suc (length a + n) = omega arith in rw e (drop-append n a b)

split_line-append :
    (l rest : Bytes) → All IsInLine l → split_line (l ++ (crlf ++ rest)) ≡ some (l ++ 13 ∷ [], rest)
unfolding split_line
split_line-append [] rest h = refl
split_line-append (c ∷ l) rest h = rw (split_line-append l rest h.1) (
    if_not (λ (r : Option (Bytes × Bytes)). r ≡ some (c ∷ (l ++ 13 ∷ []), rest)) (c == 10) _
      (ground (arith, h.0)) refl)

strip_return-append : (l : Bytes) → strip_return (l ++ 13 ∷ []) ≡ some l
unfolding strip_return
strip_return-append [] = refl
strip_return-append (c ∷ []) = refl
strip_return-append (c ∷ d ∷ l) = rw (strip_return-append (d ∷ l)) refl

read_line-append : (l rest : Bytes) → All IsInLine l → read_line (l ++ (crlf ++ rest)) ≡ line l rest
unfolding read_line
read_line-append l rest h = rw (split_line-append l rest h, strip_return-append l) refl

-- A line of a type byte and a number.
read_line-number :
    (c n : ℕ) (rest : Bytes)
    → c ≢ 10
    → read_line (c ∷ (itoa n ++ (crlf ++ rest))) ≡ line (c ∷ itoa n) rest
read_line-number c n rest h =
    read_line-append (c ∷ itoa n) rest (h, All-IsInLine (itoa n) (itoa-IsDigit n))

-- There is room for a text with the two bytes behind it.
abbrev pub Short : (ℕ → Bool) → Bytes → Type 0
Short makes a = allocated makes (length a + 2) ≡ true

below_limit :
    (makes : ℕ → Bool) (n k : ℕ) → allocated makes k ≡ true → n ≤ k → n < 9223372036854775808
below_limit makes n k h l = ground (arith, h, l)

abbrev pub texts : List Bytes → Values
texts [] = no_values
texts (a ∷ as') = value (text a) (texts as')

module _ (makes : ℕ → Bool) where
  read_bulk-append :
      (a rest : Bytes) (body : Bytes)
      → Short makes a
      → read_bulk makes body (some (pos (length a))) (a ++ (crlf ++ rest)) ≡ replied (text a) rest
  read_bulk-append a rest body room =
      let fits : ltb (length (a ++ (crlf ++ rest))) (length a + 2) ≡ false =
        ground (arith, length-append a (crlf ++ rest)) in
      rw (room, fits, take-append a (crlf ++ rest), drop-append 2 a (crlf ++ rest)) refl

  read_reply-bulk :
      (f : ℕ) (a rest : Bytes)
      → Short makes a
      → read_reply makes (suc f) (bulk a ++ rest) ≡ replied (text a) rest
  unfolding read_reply read_typed
  read_reply-bulk f a rest h =
      rw
        (
          append_assoc (itoa (length a)) (crlf ++ (a ++ crlf)) rest,
          append_assoc a crlf rest,
          read_line-number 36 (length a) (a ++ (crlf ++ rest)) (λ e. cc),
          parse_int-itoa (length a) (below_limit makes (length a) (length a + 2) h (omega arith)),
          read_bulk-append a rest (itoa (length a)) h,
        )
        refl

  read_items-bulks :
      (f : ℕ) (args : List Bytes) (rest : Bytes)
      → All (Short makes) args
      → read_items (read_reply makes (suc f)) (length args) (bulks args ++ rest)
        ≡ listed (texts args) rest
  unfolding read_items
  read_items-bulks f [] rest h = refl
  read_items-bulks f (a ∷ as') rest h =
      rw
        (
          append_assoc (bulk a) (bulks as') rest,
          read_reply-bulk f a (bulks as' ++ rest) h.0,
          read_items-bulks f as' rest h.1,
        )
        refl

  -- The command that is written from arguments is read back as the array of those texts, with
  -- nothing lost of what stands behind it, if there is room for each text and for as many items.
  pub read_reply-write_command :
      (f : ℕ) (args : List Bytes) (rest : Bytes)
      → allocated makes (16 * length args) ≡ true
      → All (Short makes) args
      → read_reply makes (suc (suc f)) (write_command args ++ rest)
        ≡ replied (array (texts args)) rest
  unfolding read_reply read_typed write_command
  read_reply-write_command f args rest h hs =
      rw
        (
          append_assoc (itoa (length args)) (crlf ++ bulks args) rest,
          read_line-number 42 (length args) (bulks args ++ rest) (λ e. cc),
          parse_int-itoa (length args)
              (below_limit makes (length args) (16 * length args) h (omega arith)),
          h,
          read_items-bulks f args rest hs,
        )
        refl
