-- ===== src/Gateway/Resp/Pool.antt =====
-- internal/gateway/resp.go: the pool of connections, `get`, `put`, `discard`, `do` and `eval`.
--
-- A wait for a slot or for a turn to dial finds none, since a method runs as a whole. A panic in the
-- reading of a reply leaves the slot of its connection taken: nothing gives it back on the way out.
use axigate_finops.Prelude.{
  ℕ, zero, suc, ◌+◌, ◌-◌, Bool, true, false, not, ◌&&◌, List, [], ◌∷◌, ◌++◌, Option, none, some,
  Bytes, str, starts_with, is_empty, itoa, ltb, if◌then◌else◌, length,
}
use axigate_finops.Gateway.Resp.Client.{
  StoreError, pool_busy, error_reply, dial_failed, answer_dropped, Outcome, answer, failed,
  net_text, stale_read, Net, Said, said, said_no, unusable, said_panic, do_on,
}

-- `respClient`, less what only a dial reads; `db` is the text of the database number, empty for 0.
-- The last idle connection comes first.
pub record Pool (C : Type 0) : Type 0 where
  pub user : Bytes
  pub password : Bytes
  pub db : Bytes
  pub slots : ℕ
  pub dials : ℕ
  pub idle : List C

abbrev pub max_slots : ℕ
max_slots = 64

abbrev pub max_dials : ℕ
max_dials = 8

abbrev pub busy : StoreError
busy = pool_busy (str "shared counter: every connection busy")

pub data Got (C : Type 0) : Type 0 where
  got : C → Bool → Got C
  not_got : StoreError → Got C
  get_panic : Got C

-- A step of the greeting: the connection goes on unless the command gives an error of any kind.
pub data Greeting : Type 0 where
  welcome : Greeting
  turned_away : StoreError → Greeting
  greeting_panic : Greeting

abbrev pub greeted : Said → Greeting
greeted (said v) = welcome
greeted (said_no e) = turned_away (error_reply e)
greeted (unusable e) = turned_away (answer_dropped (net_text e))
greeted said_panic = greeting_panic

-- How a command ends: with an outcome, in a panic, or for want of rounds.
pub data Ending : Type 0 where
  ended : Outcome → Ending
  panicked : Ending
  out_of_rounds : Ending

module _ {C : Type 0} where
  -- `drop`
  unfoldable pub drop_slot : Pool C → Pool C
  drop_slot p = record p { slots = p.slots - 1 }

  -- `put`
  unfoldable pub put_conn : Pool C → C → Pool C
  put_conn p c = drop_slot (record p { idle = c ∷ p.idle })

  abbrev pub auth_args : Pool C → List Bytes
  auth_args p =
      if is_empty p.user
      then str "AUTH" ∷ p.password ∷ []
      else str "AUTH" ∷ p.user ∷ p.password ∷ []

module _ {C W : Type 0} (net : Net C W) where
  abbrev pub greet_by : Bool → C → List Bytes → W → Greeting × W
  greet_by needed c args w =
      let (s, w') = do_on net c args w in if needed then (greeted s, w') else (welcome, w)

  abbrev pub after_auth : Pool C → C → Greeting × W → Greeting × W
  after_auth p c (turned_away e, w) = (turned_away e, w)
  after_auth p c (greeting_panic, w) = (greeting_panic, w)
  after_auth p c (welcome, w) = greet_by (not (is_empty p.db)) c (str "SELECT" ∷ p.db ∷ []) w

  abbrev pub after_greeting : Pool C → C → Greeting × W → Got C × Pool C × W
  after_greeting p c (welcome, w) = (got c false, p, w)
  after_greeting p c (greeting_panic, w) = (get_panic, p, w)
  after_greeting p c (turned_away e, w) = (not_got e, drop_slot p, w)

  abbrev pub after_dial : Pool C → (Option C × Bytes) × W → Got C × Pool C × W
  after_dial p ((none, e), w) = (not_got (dial_failed e), drop_slot p, w)
  after_dial p ((some c, e), w) =
      after_greeting p c (after_auth p c (greet_by (not (is_empty p.password)) c (auth_args p) w))

  -- `get` behind the slot: an idle connection, or a new one.
  abbrev pub get_conn : Pool C → List C → W → Got C × Pool C × W
  get_conn p (c ∷ idle) w = (got c true, record p { idle = idle }, w)
  get_conn p [] w =
      if ltb p.dials max_dials then after_dial p (net.dial w) else (not_got busy, drop_slot p, w)

  -- `get`
  unfoldable pub take_conn : Pool C → W → Got C × Pool C × W
  take_conn p w =
      let p' = record p { slots = p.slots + 1 } in
      if ltb p.slots max_slots then get_conn p' p'.idle w else (not_got busy, p, w)

  abbrev pub Done : Type 0
  Done = Ending × Pool C × W

  -- What a reply on a connection leads to; `again` is the next round of the loop.
  abbrev pub after_reply : (Pool C → W → Done) → Pool C → C → Bool → Said × W → Done
  after_reply again p c reused (said v, w) = (ended (answer v), put_conn p c, w)
  after_reply again p c reused (said_no e, w) = (ended (failed (error_reply e)), put_conn p c, w)
  after_reply again p c reused (unusable e, w) =
      if reused && stale_read e
      then again (drop_slot p) w
      else (ended (failed (answer_dropped (net_text e))), drop_slot p, w)
  after_reply again p c reused (said_panic, w) = (panicked, p, w)

  abbrev pub after_get : (Pool C → W → Done) → List Bytes → Got C × Pool C × W → Done
  after_get again args (not_got e, p, w) = (ended (failed e), p, w)
  after_get again args (get_panic, p, w) = (panicked, p, w)
  after_get again args (got c reused, p, w) = after_reply again p c reused (do_on net c args w)

  -- `do`; the fuel bounds the rounds.
  unfoldable pub do_command : ℕ → List Bytes → Pool C → W → Done
  do_command zero args p w = (out_of_rounds, p, w)
  do_command (suc fuel) args p w = after_get (do_command fuel args) args (take_conn p w)

  abbrev pub eval_args : Bytes → Bytes → List Bytes → List Bytes → List Bytes
  eval_args cmd body keys args = cmd ∷ body ∷ itoa (length keys) ∷ (keys ++ args)

  abbrev pub loaded : (Pool C → W → Done) → Done → Done
  loaded again (ended (failed (error_reply e)), p, w) =
      if starts_with (str "NOSCRIPT") e then again p w else (ended (failed (error_reply e)), p, w)
  loaded again (o, p, w) = (o, p, w)

  -- `eval`: by the digest of the script, and by the script if the store does not have it.
  unfoldable pub eval_script : ℕ → Bytes → Bytes → List Bytes → List Bytes → Pool C → W → Done
  eval_script fuel script sha keys args p w =
      loaded (do_command fuel (eval_args (str "EVAL") script keys args))
        (do_command fuel (eval_args (str "EVALSHA") sha keys args) p w)
