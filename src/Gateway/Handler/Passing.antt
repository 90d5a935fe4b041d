-- ===== src/Gateway/Handler/Passing.antt =====
-- internal/gateway/gateway.go: what of a request and of a response is passed on, and what is kept of
-- a response to be read.
use axigate_finops.Prelude.{
  ℕ, ◌-◌, ◌≡◌, refl, ap, sym, ◌∙◌, true, false, List, [], ◌∷◌, ◌++◌, Option, some, Bytes, Float,
  arith, leb, length, take, zero, suc, length-take,
}
use axigate_finops.Gateway.Stream.Chunks.{concat, append_nil, append_assoc}
use axigate_finops.Gateway.Shared.Calls.{Placed}
use axigate_finops.Gateway.Handler.Request.{HttpRequest, HttpResponse, Platform}
use axigate_finops.Gateway.Handler.Budget.{Budget}
use axigate_finops.Gateway.Handler.Record.{Times, Gateway, cap_write, cap_all}
use axigate_finops.Gateway.Handler.Serve.{
  Outbound, caller_of, decided, placed_call, serve_call, serve, is_admin,
}

take-append : (n : ℕ) (s p : Bytes) → take n (s ++ p) ≡ take n s ++ take (n - length s) p
take-append zero [] p = refl
take-append zero (c ∷ s) p =
    let none_left : 0 ≡ 0 - length (c ∷ s) = omega arith in ap (λ n. take n p) none_left
take-append (suc n) [] p =
    let whole : suc n ≡ suc n - length {A = ℕ} [] = omega arith in ap (λ m. take m p) whole
take-append (suc n) (c ∷ s) p = ground (arith, take-append n s p)

take-all : (n : ℕ) (s : Bytes) → leb (length s) n ≡ true → take n s ≡ s
take-all zero [] h = refl
take-all (suc n) [] h = refl
take-all zero (c ∷ s) h = ground arith
take-all (suc n) (c ∷ s) h = ground (arith, take-all n s)

take_nil : (n : ℕ) → take {A = ℕ} n [] ≡ []
take_nil zero = refl
take_nil (suc n) = refl

-- A write keeps the bytes that there is room for.
cap_write_lem : (limit : ℕ) (s p : Bytes) → cap_write limit (take limit s) p ≡ take limit (s ++ p)
unfolding cap_write
cap_write_lem limit s p = ground (
  arith,
  take-append limit s p,
  length-take limit s,
  take-all (limit - length s) p,
  take-all limit s,
  append_nil (take limit s),
)

cap_all-from :
    (limit : ℕ) (s : Bytes) (ps : List Bytes)
    → cap_all limit (take limit s) ps ≡ take limit (s ++ concat ps)
unfolding cap_all
cap_all-from limit s [] = ap (take limit) (sym (append_nil s))
cap_all-from limit s (p ∷ ps) =
    ap (λ t. cap_all limit t ps) (cap_write_lem limit s p)
    ∙ cap_all-from limit (s ++ p) ps
    ∙ ap (take limit) (append_assoc s p (concat ps))

-- However the body of a response is cut into chunks, what is kept of it for reading are its first
-- bytes up to the limit, and all of it if it is within the limit.
pub cap_all-take :
    (limit : ℕ) (chunks : List Bytes)
    → (cap_all limit [] chunks ≡ take limit (concat chunks))
      × (leb (length (concat chunks)) limit ≡ true → cap_all limit [] chunks ≡ concat chunks)
cap_all-take limit chunks =
    let kept : cap_all limit [] chunks ≡ take limit (concat chunks) =
      ap (λ s. cap_all limit s chunks) (sym (take_nil limit)) ∙ cap_all-from limit [] chunks in
    (kept, λ h. kept ∙ take-all limit (concat chunks) h)

module _ {D S T : Type 0} ⦃f : Float D⦄ (os : Platform D) (b : Budget D S T) (at : Times) where
  -- The decision of the counter on a request.
  abbrev pub decision_on : Gateway D S → HttpRequest → S → Placed × S
  decision_on g r s = decided os b at g.config (caller_of os g.config at.start r) s

  -- A request that the counter refuses never reaches the provider: what the client gets, and what
  -- becomes of the gateway, are the same whatever the provider would have answered.
  pub serve-refused :
      (upstream other : Outbound → Option HttpResponse) (g : Gateway D S) (r : HttpRequest) (s : S)
      → g.ctrl ≡ some s
      → is_admin r ≡ false
      → (decision_on g r s).0.0 ≡ false
      → serve os b at upstream g r ≡ serve os b at other g r
  unfolding serve serve_call placed_call
  serve-refused upstream other g r s e a h = ground (arith)
