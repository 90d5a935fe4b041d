-- ===== src/Gateway/Control/Entry.antt =====
-- internal/gateway/control.go: the states that `admitKeyed` finds under the lock, before it decides.
use axigate_finops.Prelude.{
  ℕ, ◌≡◌, refl, ◌∙◌, true, false, ◌&&◌, [], ◌∷◌, some, none, Bytes, lookup, insert, is_empty,
  lookup-insert, lookup-insert_self, Float, arith, if◌then◌else◌, Bool, beq,
}
use axigate_finops.Gateway.Control.State.{RunState, Controller, killed_reason}
use axigate_finops.Gateway.Control.Pause.{key_state, run_state}
use axigate_finops.Gateway.Control.Admit.{
  admit_locked, enter_run, enter_key, run_pause, key_ptr, run_ptr,
}

module _ {D : Type 0} ⦃f : Float D⦄ where
  abbrev pub entered : Controller D → ℕ → Bytes → Bytes → Controller D
  entered c now run key = enter_run (enter_key c now key) now run

  -- The run as the call finds it.
  abbrev pub seen_run : Controller D → ℕ → Bytes → RunState D
  seen_run c now run = record (run_state c run) { last_seen = now }

  pub run_ptr-entered :
      (c : Controller D) (now : ℕ) (run key : Bytes)
      → run_ptr (entered c now run key) run
        ≡ (if is_empty run then none else some (seen_run c now run))
  unfolding enter_run enter_key
  run_ptr-entered c now [] key = refl
  run_ptr-entered c now (x ∷ xs) [] = lookup-insert_self (x ∷ xs) (seen_run c now (x ∷ xs)) c.runs
  run_ptr-entered c now (x ∷ xs) (k ∷ ks) =
      lookup-insert_self (x ∷ xs) (seen_run c now (x ∷ xs)) c.runs

  pub key_ptr-entered :
      (c : Controller D) (now : ℕ) (run key : Bytes)
      → key_ptr (entered c now run key) key
        ≡ (if is_empty key then none else some (key_state c now key))
  unfolding enter_run enter_key
  key_ptr-entered c now run [] = refl
  key_ptr-entered c now [] (k ∷ ks) = lookup-insert_self (k ∷ ks) (key_state c now (k ∷ ks)) c.keys
  key_ptr-entered c now (x ∷ xs) (k ∷ ks) =
      lookup-insert_self (k ∷ ks) (key_state c now (k ∷ ks)) c.keys

  -- Entering changes no run but for `last_seen` of the call's own.
  pub entered-lookup :
      (c : Controller D) (now : ℕ) (run key r : Bytes)
      → lookup r (entered c now run key).runs ≡ (
          if is_empty run
          then lookup r c.runs
          else if beq run r
          then some (seen_run c now run)
          else lookup r c.runs)
  unfolding enter_run enter_key
  entered-lookup c now [] [] r = refl
  entered-lookup c now [] (k ∷ ks) r = refl
  entered-lookup c now (x ∷ xs) [] r = lookup-insert r (x ∷ xs) (seen_run c now (x ∷ xs)) c.runs
  entered-lookup c now (x ∷ xs) (k ∷ ks) r =
      lookup-insert r (x ∷ xs) (seen_run c now (x ∷ xs)) c.runs

  pub entered-policy :
      (c : Controller D) (now : ℕ) (run key : Bytes) → (entered c now run key).policy ≡ c.policy
  unfolding enter_run enter_key
  entered-policy c now run key = ground arith

  -- A call that is neither killed nor without both a run and a key is decided on what it finds.
  pub admit_locked_lem :
      (c : Controller D) (now : ℕ) (run key : Bytes) (bypass : Bool)
      → admit_locked c now run key bypass ≡ (
          if c.killed
          then ((false, killed_reason), c)
          else if is_empty run && is_empty key
          then ((true, []), c)
          else run_pause
              (entered c now run key)
              now
              run
              key
              bypass
              (if is_empty run then none else some (seen_run c now run))
              (if is_empty key then none else some (key_state c now key)))
  unfolding admit_locked
  admit_locked_lem c now run key bypass =
      rw (run_ptr-entered c now run key, key_ptr-entered c now run key)

  pub admit_with_run :
      (c : Controller D) (now : ℕ) (run key : Bytes) (bypass : Bool)
      → is_empty run ≡ false
      → c.killed ≡ false
      → admit_locked c now run key bypass
        ≡ run_pause
            (entered c now run key)
            now
            run
            key
            bypass
            (some (seen_run c now run))
            (if is_empty key then none else some (key_state c now key))
  admit_with_run c now [] key bypass h k = cc
  admit_with_run c now (x ∷ xs) key bypass h k = admit_locked_lem c now (x ∷ xs) key bypass ∙ (λ i.
      if k i
      then ((false, killed_reason), c)
      else run_pause (entered c now (x ∷ xs) key) now (x ∷ xs) key bypass
          (some (seen_run c now (x ∷ xs)))
          (if is_empty key then none else some (key_state c now key)))

  pub entered-runs :
      (c : Controller D) (now : ℕ) (run key : Bytes)
      → is_empty run ≡ false
      → (entered c now run key).runs ≡ insert run (seen_run c now run) c.runs
  unfolding enter_run enter_key
  entered-runs c now run key h = ground arith
