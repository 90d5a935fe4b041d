-- ===== src/Gateway/Identity/Headers.antt =====
-- internal/gateway/identity.go: `identity`, `identityFromHeaders`, `dims` and `traceID`.
--
-- `header` is the request's `Header.Get`.
use axigate_finops.Prelude.{
  ℕ, Bool, true, List, [], ◌∷◌, Bytes, str, Dict, insert, is_empty, trim_space, leb, ◌==◌,
  if◌then◌else◌, not, ◌&&◌, ◌||◌, length,
}

pub record Identity : Type 0 where
  pub run : Bytes
  pub agent : Bytes
  pub parent : Bytes
  pub run_from : Bytes

-- `strings.Split(s, "-")`
abbrev pub push_byte : ℕ → List Bytes → List Bytes
push_byte c [] = (c ∷ []) ∷ []
push_byte c (p ∷ ps) = (c ∷ p) ∷ ps

unfoldable pub split_dashes : Bytes → List Bytes
split_dashes [] = [] ∷ []
split_dashes (c ∷ s) = let rest = split_dashes s in if c == 45 then [] ∷ rest else push_byte c rest

unfoldable pub is_hex : ℕ → Bool
is_hex c = (leb 48 c && leb c 57) || (leb 97 c && leb c 102)

abbrev pub all_hex : Bytes → Bool
all_hex [] = true
all_hex (c ∷ s) = is_hex c && all_hex s

abbrev pub all_zero : Bytes → Bool
all_zero [] = true
all_zero (c ∷ s) = (c == 48) && all_zero s

-- The checks on the second part; the first digit that is not hexadecimal ends the loop.
unfoldable pub checked_id : Bytes → Bytes
checked_id p =
    if not (length p == 32)
    then []
    else if not (all_hex p)
    then []
    else if all_zero p
    then []
    else p

unfoldable pub trace_id_of : List Bytes → Bytes
trace_id_of (v ∷ p ∷ parent ∷ flags ∷ rest) = checked_id p
trace_id_of _ = []

-- `traceID`
unfoldable pub trace_id : Bytes → Bytes
trace_id v = trace_id_of (split_dashes (trim_space v))

-- The run that a request without an explicit one is given, and the header it comes from.
unfoldable pub native_run : (Bytes → Bytes) → Bytes × Bytes
native_run header =
    let session = trim_space (header (str "X-Claude-Code-Session-Id")) in
    let litellm = trim_space (header (str "X-Litellm-Trace-Id")) in
    let trace = trace_id (header (str "Traceparent")) in
    if not (is_empty session)
    then (session, str "claude-code")
    else if not (is_empty litellm)
    then (litellm, str "litellm")
    else if not (is_empty trace)
    then (trace, str "traceparent")
    else ([], [])

-- `identityFromHeaders`
unfoldable pub identity_from_headers : (Bytes → Bytes) → Identity
identity_from_headers header =
    let run = trim_space (header (str "X-AxiGate-Run")) in
    let agent = trim_space (header (str "X-AxiGate-Agent")) in
    record {
      run = if is_empty run then (native_run header).0 else run;
      agent = if is_empty agent then trim_space (header (str "X-Claude-Code-Agent-Id")) else agent;
      parent = trim_space (header (str "X-Claude-Code-Parent-Agent-Id"));
      run_from = if is_empty run then (native_run header).1 else [];
    }

-- `dims`
unfoldable pub identity_dims : Identity → Dict Bytes → Dict Bytes
identity_dims id m =
    let m' = if is_empty id.run_from then m else insert (str "run_id_from") id.run_from m in
    if is_empty id.parent then m' else insert (str "parent_agent") id.parent m'
