-- ===== src/Gateway/Control/Rollover.antt =====
-- internal/gateway/control.go: a paused key across UTC days, through `keyLocked` and `admitKeyed`.
use axigate_finops.Prelude.{
  ℕ, ◌<◌, ◌<ℤ◌, ◌≡◌, ◌⊎◌, true, false, [], some, none, Bytes, lookup, Float, FloatLaws, arith,
  zero_usd, is_empty, positive, micro, if◌then◌else◌,
}
use axigate_finops.Gateway.Control.State.{
  Policy, KeyState, Controller, day_of, reaches, projected, per_call,
}
use axigate_finops.Gateway.Control.Pause.{key_state, key_cap}
use axigate_finops.Gateway.Control.Admit.{admit_locked, run_pause, stopped}
use axigate_finops.Gateway.Control.Entry.{entered, seen_run, entered-policy, admit_locked_lem}

module _ {D : Type 0} ⦃f : Float D⦄ where
  paused_key_refuses :
      (c : Controller D) (now : ℕ) (run key : Bytes) (ks : KeyState D) (st : _)
      → c.policy.shadow ≡ false
      → ks.paused ≡ true
      → (run_pause c now run key false st (some ks)).0.0 ≡ false
  unfolding stopped
  paused_key_refuses c now run key ks none h p = ground arith
  paused_key_refuses c now run key ks (some st) h p = ground arith

  -- A key that its total cap has paused is refused on every later day, whatever the clock says and
  -- whatever run it names: only a resume lets it back in.
  pub total_pause_stays :
      (c : Controller D) (now : ℕ) (run key : Bytes) (ks : KeyState D)
      → is_empty key ≡ false
      → c.policy.shadow ≡ false
      → lookup key c.keys ≡ some ks
      → ks.paused ≡ true
      → ks.day_pause ≡ false
      → (admit_locked c now run key false).0.0 ≡ false
  unfolding key_state
  total_pause_stays c now run key ks filled shadow found paused total = ground (
    arith,
    admit_locked_lem c now run key false,
    entered-policy c now run key,
    paused_key_refuses (entered c now run key) now run key (key_state c now key)
        (if is_empty run then none else some (seen_run c now run)),
  )

  -- The key's total cap is not met by what it has settled, and its daily cap leaves room.
  abbrev pub KeyHasRoom : Policy D → KeyState D → Type 0
  KeyHasRoom p ks =
      ((positive p.max_spend_usd_per_key ≡ false)
        ⊎ (reaches ks.life_spend p.max_spend_usd_per_key ≡ false))
      × ((positive p.max_spend_usd_per_key_day ≡ false)
          ⊎ (micro {D = D} zero_usd <ℤ micro p.max_spend_usd_per_key_day))

  module _ (laws : FloatLaws D) where
    rolled_served :
        (c : Controller D) (now : ℕ) (key : Bytes) (ks : KeyState D)
        → ks.paused ≡ false
        → ks.inflight ≡ 0
        → ks.day_spend ≡ zero_usd
        → KeyHasRoom c.policy ks
        → (run_pause c now [] key false none (some ks)).0 ≡ (true, [])
    unfolding key_cap projected
    rolled_served c now key ks p i s room = ground (
      arith,
      laws.mul_zero (per_call c.policy.reserve_usd_per_call ks.life_calls ks.life_spend),
      laws.add_zero ks.life_spend,
      laws.add_zero zero_usd,
    )

    -- The first call on a later day of a key that its daily cap has paused is let through with no
    -- reason, if the call names no run, the kill switch is off, what the key has settled does not
    -- meet its total cap, the daily cap, if any, is at least a micro-dollar, and dollars obey the
    -- laws of finite numbers.
    pub day_pause_expires :
        (c : Controller D) (now : ℕ) (key : Bytes) (ks : KeyState D)
        → is_empty key ≡ false
        → c.killed ≡ false
        → lookup key c.keys ≡ some ks
        → ks.day_pause ≡ true
        → ks.day < day_of now
        → KeyHasRoom c.policy ks
        → (admit_locked c now [] key false).0 ≡ (true, [])
    unfolding key_state
    day_pause_expires c now key ks filled alive found daily later room = ground (
      arith,
      admit_locked_lem c now [] key false,
      entered-policy c now [] key,
      rolled_served (entered c now [] key) now key (key_state c now key),
    )
