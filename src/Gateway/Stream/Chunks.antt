-- ===== src/Gateway/Stream/Chunks.antt =====
-- internal/gateway/stream.go: `Write` for the chunks of a stream.
use axigate_finops.Prelude.{
  ℕ, zero, suc, ◌≤◌, ◌<◌, ◌≡◌, refl, ap, subst, ◌∙◌, sym, List, [], ◌∷◌, ◌++◌, Option, none, some,
  Bytes, ltb, length, arith, if_both, if_not,
}
use axigate_finops.Gateway.Resp.Wire.{split_line}
use axigate_finops.Gateway.Stream.Usage.{
  SseFrame, Seen, SseUsage, consume, next_line, write_lines, cut_over, write,
}
use axigate_finops.Gateway.Stream.Lines.{
  Cut, cut_lines, cut_lines-append, Splits, split_line-Splits, Shorter, split_line-Shorter,
}

pub append_assoc {ℓ} : {A : Type ℓ} (a b c : List A) → (a ++ b) ++ c ≡ a ++ (b ++ c)
append_assoc [] b c = refl
append_assoc (x ∷ a) b c = ap (λ s. x ∷ s) (append_assoc a b c)

pub append_nil {ℓ} : {A : Type ℓ} (a : List A) → a ++ [] ≡ a
append_nil [] = refl
append_nil (x ∷ a) = ap (λ s. x ∷ s) (append_nil a)

abbrev pub concat : List Bytes → Bytes
concat [] = []
concat (p ∷ ps) = p ++ concat ps

-- What is left of a text behind its last line is within the limit.
abbrev pub Fits : ℕ → Bytes → Type 0
Fits limit s = length (cut_lines s).1 ≤ limit

-- After each chunk, what stands behind the last line of all that came is within the limit.
abbrev pub AllFit : ℕ → Bytes → List Bytes → Type 0
AllFit limit s [] = Unit
AllFit limit s (p ∷ ps) = Fits limit (s ++ p) × AllFit limit (s ++ p) ps

module _ (unmarshal : Bytes → Option SseFrame) where
  -- What the lines of a text add, in their order.
  abbrev pub consume_all : Bytes → List Bytes → Seen → Seen
  consume_all provider [] s = s
  consume_all provider (l ∷ ls) s = consume_all provider ls (consume unmarshal provider l s)

  consume_all-append :
      (provider : Bytes) (ls ms : List Bytes) (s : Seen)
      → consume_all provider (ls ++ ms) s ≡ consume_all provider ms (consume_all provider ls s)
  consume_all-append provider [] ms s = refl
  consume_all-append provider (l ∷ ls) ms s =
      consume_all-append provider ls ms (consume unmarshal provider l s)

  -- The state once the lines of its buffer are consumed.
  abbrev after_lines : SseUsage → Cut → SseUsage
  after_lines s (ls, r) = record s { buf = r; seen = consume_all s.provider ls s.seen }

  next_line-after :
      (fuel : ℕ) (s : SseUsage) (o : Option (Bytes × Bytes))
      → ((t : SseUsage)
          → length t.buf < length s.buf
          → write_lines unmarshal fuel t ≡ after_lines t (cut_lines t.buf))
      → Splits s.buf o
      → Shorter (length s.buf) o
      → next_line unmarshal (write_lines unmarshal fuel) s o ≡ after_lines s (cut_lines s.buf)
  next_line-after fuel s none ih h b = ap (after_lines s) (sym h)
  next_line-after fuel s (some (l, r)) ih h b =
      ih (record s { buf = r; seen = consume unmarshal s.provider l s.seen }) b
      ∙ ap (after_lines s) (sym h)

  write_lines-after :
      (fuel : ℕ) (s : SseUsage)
      → length s.buf < fuel
      → write_lines unmarshal fuel s ≡ after_lines s (cut_lines s.buf)
  unfolding write_lines
  write_lines-after zero s h = absurd (omega (arith, h))
  write_lines-after (suc fuel) s h =
      next_line-after fuel s (split_line s.buf)
        (λ t b. write_lines-after fuel t (omega (arith, h, b))) (split_line-Splits s.buf)
        (split_line-Shorter s.buf)

  abbrev loaded : SseUsage → Bytes → SseUsage
  loaded s p = record s { buf = s.buf ++ p }

  write-after :
      (s : SseUsage) (p : Bytes)
      → write unmarshal s p ≡ cut_over (after_lines s (cut_lines (s.buf ++ p)))
  unfolding write
  write-after s p =
      ap cut_over (write_lines-after (suc (length (s.buf ++ p))) (loaded s p) (omega arith))

  cut_over-within : (s : SseUsage) → length s.buf ≤ s.limit → cut_over s ≡ s
  cut_over-within s h =
      if_not (λ (x : SseUsage). x ≡ s) (ltb s.limit (length s.buf)) _ (ground arith) refl

  write-seen :
      (s : SseUsage) (p : Bytes)
      → (write unmarshal s p).seen ≡ consume_all s.provider (cut_lines (s.buf ++ p)).0 s.seen
  write-seen s p =
      let t = after_lines s (cut_lines (s.buf ++ p)) in
      ap (λ (x : SseUsage). x.seen) (write-after s p)
      ∙ if_both (λ (x : SseUsage). x.seen ≡ t.seen) (ltb t.limit (length t.buf)) refl refl

  -- A chunk and the next one are as good as both in one.
  write-write :
      (s : SseUsage) (p q : Bytes)
      → Fits s.limit (s.buf ++ p)
      → write unmarshal (write unmarshal s p) q ≡ write unmarshal s (p ++ q)
  write-write s p q h =
      let first = cut_lines (s.buf ++ p) in
      let mid = after_lines s first in
      ap (λ t. write unmarshal t q) (write-after s p ∙ cut_over-within mid h)
      ∙ write-after mid q
      ∙ ap (λ (x : SseUsage). cut_over x)
          (ap (λ z. record s { buf = (cut_lines (first.1 ++ q)).1; seen = z })
              (sym (consume_all-append s.provider first.0 (cut_lines (first.1 ++ q)).0 s.seen))
            ∙ ap (after_lines s)
                (sym (cut_lines-append (s.buf ++ p) q) ∙ ap cut_lines (append_assoc s.buf p q)))
      ∙ sym (write-after s (p ++ q))

  -- `Write` for each chunk of a stream.
  abbrev pub write_all : SseUsage → List Bytes → SseUsage
  write_all s [] = s
  write_all s (p ∷ ps) = write_all (write unmarshal s p) ps

  -- However a stream is cut into chunks, what is seen of it is what is seen of all of it at once,
  -- which is what its complete lines add, each once and in order, if what stands behind the last
  -- line feed at the end of each chunk is within the limit.
  pub write_all-write :
      (s : SseUsage) (p : Bytes) (ps : List Bytes)
      → AllFit s.limit s.buf (p ∷ ps)
      → (write_all s (p ∷ ps) ≡ write unmarshal s (p ++ concat ps))
        × ((write_all s (p ∷ ps)).seen
            ≡ consume_all s.provider (cut_lines (s.buf ++ (p ++ concat ps))).0 s.seen)
  write_all-write s p [] h = (
    ap (write unmarshal s) (sym (append_nil p)),
    write-seen s p
        ∙ ap (λ (z : Bytes). consume_all s.provider (cut_lines (s.buf ++ z)).0 s.seen)
            (sym (append_nil p)),
  )
  write_all-write s p (q ∷ ps) h =
      let (a, b) = write_all-write s (p ++ q) ps (
        subst (λ (z : Bytes). Fits s.limit z × AllFit s.limit z ps) (append_assoc s.buf p q) h.1) in
      let e = append_assoc p q (concat ps) in
      let first = ap (λ (t : SseUsage). write_all t ps) (write-write s p q h.0) in
      (
        first ∙ a ∙ ap (write unmarshal s) e,
        ap (λ (t : SseUsage). t.seen) first
            ∙ b
            ∙ ap (λ (z : Bytes). consume_all s.provider (cut_lines (s.buf ++ z)).0 s.seen) e,
      )
