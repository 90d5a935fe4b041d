-- ===== src/Gateway/Shared/Words.antt =====
-- internal/gateway/counter_redis.go: the word that a call is settled with.
use axigate_finops.Prelude.{
  List, [], ◌∷◌, ℕ, ◌≡◌, refl, Bool, true, false, ◌||◌, ◌⊎◌, inl, inr, Bytes, str, Float, if_both,
  is_empty, beq, ◌==◌,
}
use axigate_finops.Gateway.Store.Records.{Attribution}
use axigate_finops.Gateway.Store.Admit.{AdmitArgs}
use axigate_finops.Gateway.Resp.Value.{Values, count_values, items, item, as_int, as_string}
use axigate_finops.Gateway.Shared.Reasons.{cut_colon}
use axigate_finops.Gateway.Shared.State.{
  Shared, StoreError, Outcome, answer, failed, Client, next_token, call_args, admit_args,
  send_admit, Request,
}
use axigate_finops.Gateway.Shared.Fallback.{is_one}
use axigate_finops.Gateway.Shared.Calls.{
  Placed, here, by_store, by_store_as, decide_here, admit_locally, admit_failed, read_admit,
  admit_answered, take_notes, admit_by_script,
}

-- A call that was decided here, one that the store refused, or one that the store let through under
-- an id that the word gives back.
abbrev pub IsWord : Bytes → Placed → Type 0
IsWord token p =
    (p.2 ≡ here)
    ⊎ (((p.0 ≡ false) × (p.2 ≡ by_store)) ⊎ ((p.0 ≡ true) × (cut_colon p.2 ≡ (by_store, token))))

store_lets : (token : Bytes) → cut_colon (by_store_as token) ≡ (by_store, token)
unfolding cut_colon
store_lets token = refl

module _ {D : Type 0} ⦃f : Float D⦄ (now : ℕ) where
  abbrev Words : Bytes → Placed × Shared D → Type 0
  Words token x = IsWord token x.0

  admit_failed-Words :
      (s : Shared D) (run key token : Bytes) (bypass : Bool) (n kn : Attribution) (e : StoreError)
      → Words token (admit_failed now s run key bypass n kn e)
  unfolding admit_locally decide_here
  admit_failed-Words s run key token bypass n kn e = inl refl

  read_admit-Words :
      (s : Shared D) (run key token : Bytes) (bypass : Bool) (r : Values)
      → Words token (read_admit now s run key bypass token r)
  unfolding read_admit
  read_admit-Words s run key token bypass r =
      let code = as_string (item 1 r) in
      let no_stop = is_empty code || beq code (str "dup") in
      if_both (Words token) (beq code (str "killed")) (inr (inl (refl, refl))) (
        if_both (Words token) (is_one (as_int (item 0 r)))
          (if_both (Words token) no_stop (inr (inr (refl, store_lets token)))
            (inr (inr (refl, store_lets token))))
          (if_both (Words token) no_stop (inr (inl (refl, refl))) (inr (inl (refl, refl)))))

  admit_answered-Words :
      (s : Shared D) (run key token : Bytes) (bypass : Bool) (n kn : Attribution) (o : Outcome)
      → Words token (admit_answered now s run key bypass token n kn o)
  admit_answered-Words s run key token bypass n kn (failed e) =
      admit_failed-Words s run key token bypass n kn e
  admit_answered-Words s run key token bypass n kn (answer v) =
      if_both (Words token) (count_values (items v) == 9)
        (read_admit-Words s run key token bypass (items v))
        (admit_failed-Words s run key token bypass n kn _)

-- A client that keeps what it was asked.
abbrev pub noting : {W : Type 0} → Client W → Client (W × List Request)
noting client q (w, qs) = let (o, w') = client q w in (o, (w', q ∷ qs))

-- The world was asked for one admission, of this run and key, and the call's word has the id that
-- was sent.
pub record IsSent (run key : Bytes) (bypass : Bool) (qs : List Request) (p : Placed) : Type 0 where
  pub sent : AdmitArgs
  pub asked : qs ≡ send_admit sent ∷ []
  pub same_run : sent.call.run ≡ run
  pub same_key : sent.call.key ≡ key
  pub same_bypass : sent.bypass ≡ bypass
  pub word : IsWord sent.call.token p

-- The admit script is sent once, with the call's run, key and bypass, and whatever the store
-- answers, a call that it let through is to be settled under the id that was sent with it; one that
-- it refused, and one that was decided here, carry no id.
pub admit_by_script-IsSent :
    {D W : Type 0}
    → ⦃f : Float D⦄ (client : Client W) (now : ℕ) (s : Shared D) (w : W) (run key : Bytes)
      (bypass : Bool)
    → let r =
        admit_by_script
          (noting client)
          now
          (record { counter = s; world = (w, []) })
          run
          key
          bypass in
      IsSent run key bypass r.1.world.1 r.0
unfolding admit_by_script admit_args
admit_by_script-IsSent client now s w run key bypass =
    let (n, kn, s1) = take_notes now s run key in
    let (token, s2) = next_token s1 now in
    let args = admit_args s2 now (call_args now run key token) bypass n in
    record {
      sent = args;
      asked = refl;
      same_run = refl;
      same_key = refl;
      same_bypass = refl;
      word = admit_answered-Words now s2 run key token bypass n kn (client (send_admit args) w).0;
    }
