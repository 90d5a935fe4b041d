-- ===== src/Gateway/Handler/Request.antt =====
-- internal/gateway/gateway.go and internal/gateway/keyid.go: what a request says of its caller.
--
-- What the handler uses of the standard library on texts that have no simple form is a parameter.
use axigate_finops.Prelude.{
  ℕ, ◌+◌, ◌-◌, Bool, true, false, not, ◌&&◌, ◌||◌, List, [], ◌∷◌, ◌++◌, Option, none, some, Bytes,
  str, starts_with, trim_space, beq, is_empty, Float, zero_usd, positive, ltb, leb, ◌==◌,
  if◌then◌else◌, length, take, drop, filter,
}
use axigate_finops.Ledger.Event.{Tags}
use axigate_finops.Ledger.Identify.{hex_text}
use axigate_finops.Gateway.Control.State.{is_fingerprint}
use axigate_finops.Gateway.Identity.Headers.{identity_from_headers}
use axigate_finops.Gateway.Stream.Usage.{SseFrame}
use axigate_finops.Gateway.Stream.Body.{Decoders}

-- The fields of a header, in their order, under the names they were given.
abbrev pub Headers : Type 0
Headers = List (Bytes × Bytes)

-- `query` is `URL.Query().Get`, and `body` what the handler read of the body.
pub record HttpRequest : Type 0 where
  pub method : Bytes
  pub path : Bytes
  pub raw_query : Bytes
  pub query : Bytes → Bytes
  pub headers : Headers
  pub body : Bytes

-- `chunks` are what the reads of the body give until it ends or fails.
pub record HttpResponse : Type 0 where
  pub status : ℕ
  pub headers : Headers
  pub chunks : List Bytes

-- What is used of the standard library: `http.CanonicalHeaderKey`; the model that `json.Unmarshal`
-- gives for a body, and the shapes of usage; `sha256.Sum256`; `strconv.ParseFloat`, with none for
-- an error, an infinity or not a number; the first characters of a text, or all of it if it has no
-- more; and whether `http.NewRequest` takes a method and a target.
pub record Platform (D : Type 0) : Type 0 where
  pub canonical : Bytes → Bytes
  pub body_model : Bytes → Bytes
  pub decoders : Decoders
  pub sse_frame : Bytes → Option SseFrame
  pub digest : Bytes → Bytes
  pub parse_float : Bytes → Option D
  pub first_runes : ℕ → Bytes → Bytes
  pub makes_request : Bytes → Bytes → Bool

-- `Header.Get`
unfoldable pub header_get : (Bytes → Bytes) → Headers → Bytes → Bytes
header_get canonical [] name = []
header_get canonical ((k, v) ∷ hs) name =
    let rest = header_get canonical hs name in if beq k (canonical name) then v else rest

-- `hopByHop`
abbrev pub hop_by_hop : List Bytes
hop_by_hop =
    str "Connection"
    ∷ str "Keep-Alive"
    ∷ str "Proxy-Authenticate"
    ∷ str "Proxy-Authorization"
    ∷ str "Te"
    ∷ str "Trailer"
    ∷ str "Transfer-Encoding"
    ∷ str "Upgrade"
    ∷ []

abbrev pub among : Bytes → List Bytes → Bool
among k [] = false
among k (j ∷ js) = beq j k || among k js

-- `copyHeaders`
unfoldable pub copy_headers : (Bytes → Bytes) → Headers → Headers → Headers
copy_headers canonical dst [] = dst
copy_headers canonical dst ((k, v) ∷ hs) =
    let dst' = if among (canonical k) hop_by_hop then dst else dst ++ (canonical k, v) ∷ [] in
    copy_headers canonical dst' hs

-- `Header.Del`
unfoldable pub header_del : (Bytes → Bytes) → Bytes → Headers → Headers
header_del canonical name hs = filter (λ (h : Bytes × Bytes). not (beq h.0 (canonical name))) hs

-- `tagsFromHeaders`
unfoldable pub tags_from_headers : (Bytes → Bytes) → Tags
tags_from_headers header =
    let id = identity_from_headers header in
    record {
      team = trim_space (header (str "X-AxiGate-Team"));
      project = trim_space (header (str "X-AxiGate-Project"));
      customer = trim_space (header (str "X-AxiGate-Customer"));
      agent = id.agent;
      run = id.run;
    }

abbrev max_key_name : ℕ
max_key_name = 64

abbrev min_key_len_for_suffix : ℕ
min_key_len_for_suffix = 8

abbrev lower : ℕ → ℕ
lower c = if leb b'A' c && leb c b'Z' then c + 32 else c

-- `strings.EqualFold` on ASCII text.
abbrev equal_fold : Bytes → Bytes → Bool
equal_fold [] [] = true
equal_fold [] (d ∷ t) = false
equal_fold (c ∷ s) [] = false
equal_fold (c ∷ s) (d ∷ t) = lower c == lower d && equal_fold s t

-- The first of some texts that is not blank, trimmed.
abbrev pub first_given : List Bytes → Bytes
first_given [] = []
first_given (c ∷ cs) =
    let rest = first_given cs in if is_empty (trim_space c) then rest else trim_space c

-- The bearer token of an `Authorization` header.
unfoldable pub bearer_token : Bytes → Bytes
bearer_token v =
    if ltb 7 (length v) && equal_fold (take 7 v) (str "bearer ") then trim_space (drop 7 v) else []

-- The credentials of a request, the provider's own header first.
unfoldable pub credentials : Bytes → (Bytes → Bytes) → (Bytes → Bytes) → List Bytes
credentials provider header query =
    let bearer = bearer_token (header (str "Authorization")) in
    if beq provider (str "anthropic")
    then header (str "X-Api-Key") ∷ bearer ∷ []
    else if beq provider (str "gemini")
    then header (str "X-Goog-Api-Key") ∷ query (str "key") ∷ bearer ∷ []
    else bearer ∷ header (str "X-Api-Key") ∷ []

module _ {D : Type 0} (os : Platform D) where
  -- `keyName`
  unfoldable pub key_name : (Bytes → Bytes) → Bytes
  key_name header = os.first_runes max_key_name (trim_space (header (str "X-AxiGate-Key")))

  -- The fingerprint of a credential.
  unfoldable pub fingerprint : Bytes → Bytes
  fingerprint raw =
      let suffix =
        if leb min_key_len_for_suffix (length raw) then drop (length raw - 4) raw else [] in
      str "k-" ++ hex_text (take 6 (os.digest raw)) ++ str "-" ++ suffix

  -- `keyFingerprint`
  unfoldable pub key_fingerprint : Bytes → (Bytes → Bytes) → (Bytes → Bytes) → Bytes
  key_fingerprint provider header query =
      let raw = first_given (credentials provider header query) in
      if not (is_empty raw)
      then fingerprint raw
      else if is_fingerprint (key_name header)
      then []
      else key_name header

  abbrev live_cap : ⦃f : Float D⦄ → Option D → D
  live_cap none = zero_usd
  live_cap (some v) = if positive v then v else zero_usd

  abbrev trim_prefix : Bytes → Bytes → Bytes
  trim_prefix p s = if starts_with p s then drop (length p) s else s

  -- `parseMoney`
  unfoldable pub parse_money : ⦃f : Float D⦄ → Bytes → D
  parse_money s =
      let amount = trim_prefix (str "$") (trim_space s) in
      if is_empty amount then zero_usd else live_cap (os.parse_float (trim_space amount))

-- What stands behind the first place of a text that is not empty.
unfoldable pub text_behind : Bytes → Bytes → Option Bytes
text_behind p [] = none
text_behind p (c ∷ s) =
    let rest = text_behind p s in
    if starts_with p (c ∷ s) then some (drop (length p) (c ∷ s)) else rest

-- `strings.Contains`
abbrev pub contains : Bytes → Bytes → Bool
contains p s = elim (text_behind p s) [ none ↦ false | some _ ↦ true ]

abbrev until_separator : Bytes → Bytes
until_separator [] = []
until_separator (c ∷ s) =
    let rest = until_separator s in if c == b':' || c == b'/' then [] else c ∷ rest

-- `geminiModelFromPath`
unfoldable pub gemini_model_from_path : Bytes → Bytes
gemini_model_from_path path = elim (text_behind (str "/models/") path) [
  | none ↦ []
  | some rest ↦ until_separator rest
]

-- `preferRequestModel`
unfoldable pub prefer_request_model : Bytes → Bytes → Bool
prefer_request_model provider model = beq provider (str "gemini") && not (is_empty model)
