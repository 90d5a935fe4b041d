-- ===== src/Gateway/Handler/Admin.antt =====
-- internal/gateway/admin.go: the control plane of a gateway, and what a gateway answers.
use axigate_finops.Prelude.{
  ℕ, Bool, true, false, not, ◌++◌, Option, none, some, Bytes, str, beq, is_empty, if◌then◌else◌,
}
use axigate_finops.Gateway.Handler.Request.{Headers, HttpRequest}
use axigate_finops.Gateway.Handler.Budget.{Budget}

-- The body of an admin reply; the last flag says whether it has the note about what is owed.
pub data AdminBody (T : Type 0) : Type 0 where
  status_body : T → AdminBody T
  killed_body : Bool → Bool → AdminBody T
  run_body : Bytes → Bool → Bool → AdminBody T
  key_body : Bytes → Bool → Bool → AdminBody T

-- What the client gets: `http.NotFound`, `writeJSONError` with its type and message, `writeJSON` of
-- an admin reply with status 200, `http.Error`, or the provider's answer.
pub data Reply (T : Type 0) : Type 0 where
  not_found : Reply T
  json_error : ℕ → Bytes → Bytes → Reply T
  admin_reply : AdminBody T → Reply T
  plain_error : ℕ → Bytes → Reply T
  forwarded : ℕ → Headers → Bytes → Reply T

abbrev pub admin_prefix : Bytes
admin_prefix = str "/_axigate/"

module _ {D S T : Type 0} (b : Budget D S T) (now : ℕ) where
  -- The reply of an operation that says whether it found what it resumes.
  abbrev resumed : (Bool → Bool → AdminBody T) → Bool × S → Reply T × S
  resumed body (found, s) = (admin_reply (body found (b.pending s)), s)

  abbrev switched : Bool → S → Reply T × S
  switched on s = (admin_reply (killed_body on (b.pending s)), s)

  abbrev reported : T × S → Reply T × S
  reported (t, s) = (admin_reply (status_body t), s)

  abbrev posted : HttpRequest → Bytes → S → Reply T × S → Reply T × S
  posted r message s done =
      if beq r.method (str "POST") then done else (json_error 405 (str "method") message, s)

  -- A resume names what it resumes.
  abbrev named : Bytes → Bytes → S → Reply T × S → Reply T × S
  named name message s done =
      if is_empty name then (json_error 400 (str "bad_request") message, s) else done

  -- The switch over the paths, for a caller with the token.
  unfoldable pub route_admin : HttpRequest → S → Reply T × S
  route_admin r s =
      let run = r.query (str "run") in
      let key = r.query (str "key") in
      if beq r.path (admin_prefix ++ str "status")
      then reported (b.reporting now s)
      else if beq r.path (admin_prefix ++ str "kill")
      then posted r (str "POST to engage the kill switch") s (switched true (b.killing now s true))
      else if beq r.path (admin_prefix ++ str "resume")
      then posted r (str "POST to clear the kill switch") s (switched false (b.killing now s false))
      else if beq r.path (admin_prefix ++ str "runs/resume")
      then posted r (str "POST to resume a run") s (
          named run (str "name the run to resume with ?run=<id>") s
            (resumed (run_body run) (b.resuming_run now s run)))
      else if beq r.path (admin_prefix ++ str "keys/resume")
      then posted r (str "POST to resume a key") s (
          named key (str "name the key to resume with ?key=<fingerprint or name>") s
            (resumed (key_body key) (b.resuming_key now s key)))
      else (not_found, s)

  abbrev pub with_counter : Reply T × S → Reply T × Option S
  with_counter (reply, s) = (reply, some s)

  -- `serveAdmin`, given what the caller has in `X-AxiGate-Admin`.
  unfoldable pub serve_admin : Bytes → Bytes → HttpRequest → Option S → Reply T × Option S
  serve_admin token given r none = (not_found, none)
  serve_admin token given r (some s) =
      let message = str "the admin endpoints need a matching X-AxiGate-Admin header" in
      if is_empty token
      then (not_found, some s)
      else if not (beq given token)
      then (json_error 401 (str "unauthorized") message, some s)
      else with_counter (route_admin r s)
