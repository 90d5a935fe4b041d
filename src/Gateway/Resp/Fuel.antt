-- ===== src/Gateway/Resp/Fuel.antt =====
-- internal/gateway/resp.go: `readReply` and the length of its input.
use axigate_finops.Prelude.{
  Bool, not, ◌*◌, ℕ, zero, suc, ◌+◌, ◌≤◌, ◌<◌, ◌≢◌, [], ◌∷◌, Option, none, some, Bytes, ℤ, pos,
  negsuc, ltb, ◌==◌, length, drop, arith, if_both,
}
use axigate_finops.Gateway.Resp.Value.{Value, refused, parse_int}
use axigate_finops.Gateway.Resp.Wire.{
  out_of_fuel, split_line, push_line, strip_return, Line, line, no_line, finish_line, check_line,
  read_line, Reply, replied, rejected, broken, Items, listed, cut_short, read_int, read_bulk,
  allocated, as_array, push_item, read_more, read_items, read_array, read_typed, read_reply,
}

-- A read that ends of itself, on no more bytes than there were.
abbrev pub Ends : ℕ → Reply → Type 0
Ends n (broken e) = e ≢ out_of_fuel
Ends n (replied v rest) = length rest < n
Ends n (rejected e rest) = length rest < n

abbrev EndsItems : ℕ → Items → Type 0
EndsItems n (cut_short e) = e ≢ out_of_fuel
EndsItems n (listed vs rest) = length rest ≤ n

abbrev EndsLine : ℕ → Line → Type 0
EndsLine n (no_line e) = e ≢ out_of_fuel
EndsLine n (line l rest) = length rest < n

length-drop : (n : ℕ) (s : Bytes) → length (drop n s) ≤ length s
length-drop zero s = omega arith
length-drop (suc n) [] = omega arith
length-drop (suc n) (c ∷ s) = omega (arith, length-drop n s)

-- What stands behind a line is shorter.
abbrev Shorter : ℕ → Option (Bytes × Bytes) → Type 0
Shorter n none = Unit
Shorter n (some (l, t)) = length t < n

push_line-Shorter :
    (n c : ℕ) (o : Option (Bytes × Bytes)) → Shorter n o → Shorter (suc n) (push_line c o)
push_line-Shorter n c none h = tt
push_line-Shorter n c (some (l, t)) h = omega (arith, h)

split_line-Shorter : (s : Bytes) → Shorter (length s) (split_line s)
unfolding split_line
split_line-Shorter [] = tt
split_line-Shorter (c ∷ s) =
    if_both (Shorter (suc (length s))) (c == 10) (omega arith)
      (push_line-Shorter (length s) c (split_line s) (split_line-Shorter s))

finish_line-EndsLine :
    (n : ℕ) (o : Option Bytes) (rest : Bytes) → length rest < n → EndsLine n (finish_line o rest)
finish_line-EndsLine n none rest h = λ e. cc
finish_line-EndsLine n (some l) rest h = h

check_line-EndsLine : (n : ℕ) (o : Option (Bytes × Bytes)) → Shorter n o → EndsLine n (check_line o)
check_line-EndsLine n none h = λ g. cc
check_line-EndsLine n (some (l, t)) h = finish_line-EndsLine n (strip_return l) t h

read_line-EndsLine : (s : Bytes) → EndsLine (length s) (read_line s)
unfolding read_line
read_line-EndsLine s = check_line-EndsLine (length s) (split_line s) (split_line-Shorter s)

later-EndsItems : (m n : ℕ) (r : Items) → m ≤ n → EndsItems m r → EndsItems n r
later-EndsItems m n (cut_short e) h k = k
later-EndsItems m n (listed vs rest) h k = omega (arith, h, k)

push_item-EndsItems :
    (n : ℕ) (v : Value) (is : Items) → EndsItems n is → EndsItems n (push_item v is)
push_item-EndsItems n v (cut_short e) k = k
push_item-EndsItems n v (listed vs rest) k = k

as_array-Ends : (m n : ℕ) (is : Items) → n < m → EndsItems n is → Ends m (as_array is)
as_array-Ends m n (cut_short e) l k = k
as_array-Ends m n (listed vs rest) l k = omega (arith, l, k)

read_more-EndsItems :
    (m : ℕ) (more : Bytes → Items) (r : Reply)
    → Ends m r
    → ((rest : Bytes) → length rest < m → EndsItems (length rest) (more rest))
    → EndsItems m (read_more more r)
read_more-EndsItems m more (broken e) k h = k
read_more-EndsItems m more (replied v rest) k h =
    push_item-EndsItems m v (more rest)
      (later-EndsItems (length rest) m (more rest) (omega (arith, k)) (h rest k))
read_more-EndsItems m more (rejected e rest) k h =
    push_item-EndsItems m (refused e) (more rest)
      (later-EndsItems (length rest) m (more rest) (omega (arith, k)) (h rest k))

read_int-Ends :
    (m : ℕ) (body : Bytes) (o : Option ℤ) (rest : Bytes)
    → length rest < m
    → Ends m (read_int body o rest)
read_int-Ends m body none rest l = λ g. cc
read_int-Ends m body (some n) rest l = l

read_bulk-Ends :
    (makes : ℕ → Bool) (m : ℕ) (body : Bytes) (o : Option ℤ) (rest : Bytes)
    → length rest < m
    → Ends m (read_bulk makes body o rest)
read_bulk-Ends makes m body none rest l = λ g. cc
read_bulk-Ends makes m body (some (negsuc n)) rest l = l
read_bulk-Ends makes m body (some (pos n)) rest l =
    if_both (Ends m) (not (allocated makes (n + 2))) (λ g. cc)
      (if_both (Ends m) (ltb (length rest) (n + 2)) (λ g. cc)
        (omega (arith, length-drop (n + 2) rest, l)))

module _ (makes : ℕ → Bool) (read : Bytes → Reply) (k : ℕ)
    (h : (s : Bytes) → length s < k → Ends (length s) (read s)) where
  read_items-EndsItems :
      (n : ℕ) (s : Bytes) → length s < k → EndsItems (length s) (read_items read n s)
  unfolding read_items
  read_items-EndsItems zero s b = omega arith
  read_items-EndsItems (suc n) s b =
      read_more-EndsItems (length s) (read_items read n) (read s) (h s b)
        (λ rest l. read_items-EndsItems n rest (omega (arith, l, b)))

  read_array-Ends :
      (m : ℕ) (body : Bytes) (o : Option ℤ) (rest : Bytes)
      → length rest < m
      → length rest < k
      → Ends m (read_array makes read body o rest)
  read_array-Ends m body none rest l b = λ g. cc
  read_array-Ends m body (some (negsuc n)) rest l b = l
  read_array-Ends m body (some (pos n)) rest l b =
      if_both (Ends m) (not (allocated makes (16 * n))) (λ g. cc)
        (as_array-Ends m (length rest) (read_items read n rest) l (read_items-EndsItems n rest b))

  read_typed-Ends : (m : ℕ) (ln : Line) → m ≤ k → EndsLine m ln → Ends m (read_typed makes read ln)
  unfolding read_typed
  read_typed-Ends m (no_line e) b l = l
  read_typed-Ends m (line [] rest) b l = λ g. cc
  read_typed-Ends m (line (c ∷ body) rest) b l = if_both (Ends m) (c == 43) l (
      if_both (Ends m) (c == 45) l (
        if_both (Ends m) (c == 58) (read_int-Ends m body (parse_int body) rest l) (
          if_both (Ends m) (c == 36) (read_bulk-Ends makes m body (parse_int body) rest l) (
            if_both (Ends m) (c == 42)
              (read_array-Ends m body (parse_int body) rest l (omega (arith, l, b))) (λ g. cc)))))

-- With as much fuel as there are bytes and one more, `readReply` gives a value, a refusal or an
-- error of the stream, never for want of fuel, and a reply takes at least one byte.
pub read_reply-Ends :
    (makes : ℕ → Bool) (f : ℕ) (s : Bytes) → length s < f → Ends (length s) (read_reply makes f s)
unfolding read_reply
read_reply-Ends makes zero s h = absurd (omega (arith, h))
read_reply-Ends makes (suc f) s h =
    read_typed-Ends makes (read_reply makes f) f (λ t l. read_reply-Ends makes f t l) (length s)
      (read_line s) (omega (arith, h)) (read_line-EndsLine s)
