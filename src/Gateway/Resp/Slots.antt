-- ===== src/Gateway/Resp/Slots.antt =====
-- internal/gateway/resp.go: `do`, its rounds and the slots of the pool.
use axigate_finops.Prelude.{
  str, ℕ, zero, suc, ◌+◌, ◌≤◌, ◌<◌, ◌≡◌, refl, ap, Bool, true, false, not, List, [], ◌∷◌, Option,
  none, some, Bytes, ltb, length, arith, if_both, is_empty,
}
use axigate_finops.Gateway.Resp.Client.{
  Net, stale_read, Said, said, said_no, unusable, said_panic, do_on,
}
use axigate_finops.Gateway.Resp.Pool.{
  Greeting, welcome, turned_away, greeting_panic, greeted, ended, panicked, out_of_rounds,
  get_panic, Pool, max_slots, max_dials, Got, got, not_got, drop_slot, put_conn, auth_args,
  greet_by, after_auth, after_greeting, after_dial, get_conn, take_conn, Done, after_reply,
  after_get, do_command,
}

greeted_panic : (r : Said) → greeted r ≡ greeting_panic → r ≡ said_panic
greeted_panic (said v) e = cc
greeted_panic (said_no t) e = cc
greeted_panic (unusable t) e = cc
greeted_panic said_panic e = refl

module _ {C W : Type 0} (net : Net C W) where
  -- The reading of some reply panics, since its size is not allocated.
  pub record Panics : Type 0 where
    pub conn : C
    pub args : List Bytes
    pub world : W
    pub panics : (do_on net conn args world).0 ≡ said_panic

  -- A slot more for a connection that was got, and one idle connection less if it was one.
  abbrev Takes : Pool C → Got C × Pool C × W → Type 0
  Takes p (got c true, p', w) = (p'.slots ≡ p.slots) × (suc (length p'.idle) ≡ length p.idle)
  Takes p (got c false, p', w) = (p'.slots ≡ p.slots) × (length p'.idle ≡ length p.idle)
  Takes p (not_got e, p', w) = (p'.slots + 1 ≡ p.slots) × (length p'.idle ≡ length p.idle)
  Takes p (get_panic, p', w) = Panics × (p'.slots ≡ p.slots) × (length p'.idle ≡ length p.idle)

  -- A greeting that panics does so in an exchange.
  abbrev Greets : Greeting × W → Type 0
  Greets x = x.0 ≡ greeting_panic → Panics

  greet_by-Greets :
      (needed : Bool) (c : C) (args : List Bytes) (w : W) → Greets (greet_by net needed c args w)
  greet_by-Greets needed c args w =
      if_both Greets needed
        (λ e. record {
          conn = c;
          args = args;
          world = w;
          panics = greeted_panic (do_on net c args w).0 e;
        })
        (λ e. cc)

  after_auth-Greets :
      (p : Pool C) (c : C) (x : Greeting × W) → Greets x → Greets (after_auth net p c x)
  after_auth-Greets p c (turned_away e, w) h = h
  after_auth-Greets p c (greeting_panic, w) h = h
  after_auth-Greets p c (welcome, w) h =
      greet_by-Greets (not (is_empty p.db)) c (str "SELECT" ∷ p.db ∷ []) w

  after_greeting-Takes :
      (p : Pool C) (c : C) (x : Greeting × W)
      → 0 < p.slots
      → Greets x
      → Takes p (after_greeting net p c x)
  unfolding drop_slot
  after_greeting-Takes p c (welcome, w) h g = (refl, refl)
  after_greeting-Takes p c (greeting_panic, w) h g = (g refl, refl, refl)
  after_greeting-Takes p c (turned_away e, w) h g = (omega (arith, h), refl)

  after_dial-Takes :
      (p : Pool C) (x : (Option C × Bytes) × W) → 0 < p.slots → Takes p (after_dial net p x)
  unfolding drop_slot
  after_dial-Takes p ((none, e), w) h = (omega (arith, h), refl)
  after_dial-Takes p ((some c, e), w) h =
      let x = greet_by net (not (is_empty p.password)) c (auth_args p) w in
      after_greeting-Takes p c (after_auth net p c x) h
        (after_auth-Greets p c x (greet_by-Greets (not (is_empty p.password)) c (auth_args p) w))

  get_conn-Takes :
      (p : Pool C) (idle : List C) (w : W)
      → idle ≡ p.idle
      → 0 < p.slots
      → Takes p (get_conn net p idle w)
  unfolding drop_slot
  get_conn-Takes p (c ∷ idle) w e h = (refl, ap (λ x. length x) e)
  get_conn-Takes p [] w e h =
      if_both (Takes p) (ltb p.dials max_dials) (after_dial-Takes p (net.dial w) h)
        (omega (arith, h), refl)

  take_conn-Takes :
      (p : Pool C) (w : W) → Takes (record p { slots = p.slots + 1 }) (take_conn net p w)
  unfolding take_conn
  take_conn-Takes p w =
      if_both (Takes (record p { slots = p.slots + 1 })) (ltb p.slots max_slots)
        (get_conn-Takes (record p { slots = p.slots + 1 }) p.idle w refl (omega arith)) (refl, refl)

  -- The command has ended: with an outcome, as many slots in use and at most one idle connection
  -- more; or in a panic, where the reading of some reply panics, with one slot more in use for good.
  abbrev pub Ended : Pool C → Done net → Type 0
  Ended p (ended o, p', w) = (p'.slots ≡ p.slots) × (length p'.idle ≤ suc (length p.idle))
  Ended p (panicked, p', w) = Panics × (p'.slots ≡ suc p.slots) × (length p'.idle ≤ length p.idle)
  Ended p (out_of_rounds, p', w) = ⊥

  after_reply-Ended :
      (again : Pool C → W → Done net) (p p' : Pool C) (c : C) (reused : Bool) (x : Said × W)
      (w0 : W)
      → Takes (record p { slots = p.slots + 1 }) (got c reused, p', w0)
      → (x.0 ≡ said_panic → Panics)
      → ((q : Pool C) (w : W)
          → q.slots ≡ p.slots
          → suc (length q.idle) ≡ length p.idle
          → Ended p (again q w))
      → Ended p (after_reply net again p' c reused x)
  unfolding drop_slot put_conn stale_read
  after_reply-Ended again p p' c true (said v, w) w0 (a, b) g h =
      (omega (arith, a), omega (arith, b))
  after_reply-Ended again p p' c false (said v, w) w0 (a, b) g h =
      (omega (arith, a), omega (arith, b))
  after_reply-Ended again p p' c true (said_no t, w) w0 (a, b) g h =
      (omega (arith, a), omega (arith, b))
  after_reply-Ended again p p' c false (said_no t, w) w0 (a, b) g h =
      (omega (arith, a), omega (arith, b))
  after_reply-Ended again p p' c false (unusable t, w) w0 (a, b) g h =
      (omega (arith, a), omega (arith, b))
  after_reply-Ended again p p' c true (said_panic, w) w0 (a, b) g h =
      (g refl, omega (arith, a), omega (arith, b))
  after_reply-Ended again p p' c false (said_panic, w) w0 (a, b) g h =
      (g refl, omega (arith, a), omega (arith, b))
  after_reply-Ended again p p' c true (unusable t, w) w0 (a, b) g h =
      if_both (Ended p) (stale_read t) (h (drop_slot p') w (omega (arith, a)) b)
        (omega (arith, a), omega (arith, b))

  after_get-Ended :
      (again : Pool C → W → Done net) (args : List Bytes) (p : Pool C) (x : Got C × Pool C × W)
      → Takes (record p { slots = p.slots + 1 }) x
      → ((q : Pool C) (w : W)
          → q.slots ≡ p.slots
          → suc (length q.idle) ≡ length p.idle
          → Ended p (again q w))
      → Ended p (after_get net again args x)
  after_get-Ended again args p (not_got e, p', w) (a, b) h = (omega (arith, a), omega (arith, b))
  after_get-Ended again args p (get_panic, p', w) (q, a, b) h =
      (q, omega (arith, a), omega (arith, b))
  after_get-Ended again args p (got c reused, p', w) t h =
      after_reply-Ended again p p' c reused (do_on net c args w) w t
        (λ e. record { conn = c; args = args; world = w; panics = e }) h

  -- A less demanding start: more idle connections and as many slots.
  Ended-later :
      (p q : Pool C) (r : Done net)
      → q.slots ≡ p.slots
      → suc (length q.idle) ≡ length p.idle
      → Ended q r
      → Ended p r
  Ended-later p q (ended o, p', w) s n (a, b) = (omega (arith, a, s), omega (arith, b, n))
  Ended-later p q (panicked, p', w) s n (k, a, b) = (k, omega (arith, a, s), omega (arith, b, n))
  Ended-later p q (out_of_rounds, p', w) s n h = h

  -- With one round for each idle connection and one more, a command ends, whatever the network does:
  -- with a value or an error, as many slots in use as before it and at most one idle connection
  -- more, or in a panic, where the reading of some reply panics, with one slot more in use.
  pub do_command-Ended :
      (fuel : ℕ) (args : List Bytes) (p : Pool C) (w : W)
      → length p.idle < fuel
      → Ended p (do_command net fuel args p w)
  unfolding do_command
  do_command-Ended zero args p w h = absurd (omega (arith, h))
  do_command-Ended (suc fuel) args p w h =
      after_get-Ended (do_command net fuel args) args p (take_conn net p w) (take_conn-Takes p w)
        (λ q w' s n.
          Ended-later p q (do_command net fuel args q w') s n
            (do_command-Ended fuel args q w' (omega (arith, h, n))))
