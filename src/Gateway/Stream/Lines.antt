-- ===== src/Gateway/Stream/Lines.antt =====
-- internal/gateway/stream.go: the lines of a text, which `Write` is compared with.
use axigate_finops.Prelude.{
  ℕ, suc, ◌<◌, ◌≡◌, refl, ap, ◌∙◌, sym, true, false, List, [], ◌∷◌, ◌++◌, Option, none, some, Bytes,
  ◌==◌, if◌then◌else◌, length, arith, if_cases, Bool-cases, inl, inr, if_both,
}
use axigate_finops.Gateway.Resp.Wire.{split_line, push_line}

-- The lines that a text ends with a line feed, and what stands behind the last of these.
abbrev pub Cut : Type 0
Cut = List Bytes × Bytes

abbrev pub put_byte : ℕ → Cut → Cut
put_byte c ([], r) = ([], c ∷ r)
put_byte c (l ∷ ls, r) = ((c ∷ l) ∷ ls, r)

unfoldable pub cut_lines : Bytes → Cut
cut_lines [] = ([], [])
cut_lines (c ∷ s) = let cut = cut_lines s in if c == 10 then ([] ∷ cut.0, cut.1) else put_byte c cut

abbrev pub behind : List Bytes → Cut → Cut
behind ls (ms, r) = (ls ++ ms, r)

cut_lines-feed :
    (c : ℕ) (s : Bytes)
    → (c == 10) ≡ true
    → cut_lines (c ∷ s) ≡ ([] ∷ (cut_lines s).0, (cut_lines s).1)
unfolding cut_lines
cut_lines-feed c s e = rw e refl

cut_lines-byte :
    (c : ℕ) (s : Bytes) → (c == 10) ≡ false → cut_lines (c ∷ s) ≡ put_byte c (cut_lines s)
unfolding cut_lines
cut_lines-byte c s e = rw e refl

put_byte-behind :
    (c : ℕ) (q : Bytes) (x : Cut)
    → (c == 10) ≡ false
    → put_byte c (behind x.0 (cut_lines (x.1 ++ q)))
      ≡ behind (put_byte c x).0 (cut_lines ((put_byte c x).1 ++ q))
put_byte-behind c q ([], r) e = sym (cut_lines-byte c (r ++ q) e)
put_byte-behind c q (l ∷ ls, r) e = refl

cut_lines-nil :
    (q : Bytes) → cut_lines q ≡ behind (cut_lines []).0 (cut_lines ((cut_lines []).1 ++ q))
unfolding cut_lines
cut_lines-nil q = refl

-- The lines of a text that goes on: those that it ended, and those of what was left with what comes.
pub cut_lines-append :
    (p q : Bytes) → cut_lines (p ++ q) ≡ behind (cut_lines p).0 (cut_lines ((cut_lines p).1 ++ q))
cut_lines-append [] q = cut_lines-nil q
cut_lines-append (c ∷ p) q = elim (Bool-cases (c == 10)) [
  | inl e ↦
      (cut_lines-feed c (p ++ q) e
        ∙ ap (λ (x : Cut). ([] ∷ x.0, x.1)) (cut_lines-append p q)
        ∙ ap (λ (x : Cut). behind x.0 (cut_lines (x.1 ++ q))) (sym (cut_lines-feed c p e)))
  | inr e ↦
      (cut_lines-byte c (p ++ q) e
        ∙ ap (put_byte c) (cut_lines-append p q)
        ∙ put_byte-behind c q (cut_lines p) e
        ∙ ap (λ (x : Cut). behind x.0 (cut_lines (x.1 ++ q))) (sym (cut_lines-byte c p e)))
]

-- The first line of a text and the rest, by its lines.
abbrev pub Splits : Bytes → Option (Bytes × Bytes) → Type 0
Splits s none = cut_lines s ≡ ([], s)
Splits s (some (l, r)) = cut_lines s ≡ (l ∷ (cut_lines r).0, (cut_lines r).1)

push_line-Splits :
    (c : ℕ) (s : Bytes) (o : Option (Bytes × Bytes))
    → (c == 10) ≡ false
    → Splits s o
    → Splits (c ∷ s) (push_line c o)
push_line-Splits c s none e h = cut_lines-byte c s e ∙ ap (put_byte c) h
push_line-Splits c s (some (l, r)) e h = cut_lines-byte c s e ∙ ap (put_byte c) h

pub split_line-Splits : (s : Bytes) → Splits s (split_line s)
unfolding split_line cut_lines
split_line-Splits [] = refl
split_line-Splits (c ∷ s) =
    if_cases (Splits (c ∷ s)) (c == 10) (λ e. cut_lines-feed c s e)
      (λ e. push_line-Splits c s (split_line s) e (split_line-Splits s))

-- A rest is shorter.
abbrev pub Shorter : ℕ → Option (Bytes × Bytes) → Type 0
Shorter n none = Unit
Shorter n (some (l, r)) = length r < n

push_line-Shorter :
    (n c : ℕ) (o : Option (Bytes × Bytes)) → Shorter n o → Shorter (suc n) (push_line c o)
push_line-Shorter n c none h = tt
push_line-Shorter n c (some (l, r)) h = omega (arith, h)

pub split_line-Shorter : (s : Bytes) → Shorter (length s) (split_line s)
unfolding split_line
split_line-Shorter [] = tt
split_line-Shorter (c ∷ s) =
    if_both (Shorter (length (c ∷ s))) (c == 10) (omega arith)
      (push_line-Shorter (length s) c (split_line s) (split_line-Shorter s))
