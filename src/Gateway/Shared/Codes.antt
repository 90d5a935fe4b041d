-- ===== src/Gateway/Shared/Codes.antt =====
-- internal/gateway/counter_redis.go: the codes that the scripts write, and the sentences of
-- internal/gateway/control.go.
use axigate_finops.Prelude.{ℕ, ◌<◌, ◌≡◌, refl, ◌++◌, Bytes, str, starts_with, beq, pos, Float, itoa}
use axigate_finops.Gateway.Control.State.{
  call_cap_reason, spend_cap_reason, loop_reason, key_cap_reason, key_day_reason,
}
use axigate_finops.Gateway.Store.Records.{decimal}
use axigate_finops.Gateway.Resp.Number.{parse_int-itoa}
use axigate_finops.Gateway.Shared.Reasons.{reason_text, key_reason, micro_dollars}

-- The codes of the scripts, with a number below 2^63, stand for the sentences that the counter of
-- one process makes of the same caps in dollars, and a reason that this gateway sent to the store
-- comes back as it was.
pub reason_text-codes :
    {D : Type 0} (f : Float D) (n : ℕ) (key text : Bytes)
    → n < 9223372036854775808
    → (reason_text f (str "calls:" ++ itoa n) ≡ call_cap_reason n)
      × (reason_text f (str "spend:" ++ decimal (pos n))
          ≡ spend_cap_reason ⦃f = f⦄ (micro_dollars f (pos n)))
      × (reason_text f (str "loop") ≡ loop_reason)
      × (reason_text f (str "text:" ++ text) ≡ text)
      × (key_reason f (str "kday:" ++ decimal (pos n)) key
          ≡ key_day_reason ⦃f = f⦄ key (micro_dollars f (pos n)))
      × (key_reason f (str "klife:" ++ decimal (pos n)) key
          ≡ key_cap_reason ⦃f = f⦄ key (micro_dollars f (pos n)))
unfolding reason_text key_reason starts_with beq decimal
reason_text-codes f n key text h = (
  refl,
  rw (parse_int-itoa n h) refl,
  refl,
  refl,
  rw (parse_int-itoa n h) refl,
  rw (parse_int-itoa n h) refl,
)
