-- ===== src/Gateway/Shared/Reasons.antt =====
-- internal/gateway/counter_redis.go: the sentences that reason codes of the store stand for, and the
-- word for where a decision was made.
use mathlib.Core.List.{reverse}
use axigate_finops.Prelude.{
  Bool, [], ◌∷◌, ◌++◌, Option, none, some, Bytes, str, starts_with, beq, ℤ, Float, if◌then◌else◌,
  drop, ◌==◌,
}
use axigate_finops.Gateway.Control.State.{key_label, money, loop_reason}
use axigate_finops.Gateway.Resp.Value.{parse_int}

-- `strings.HasSuffix`
unfoldable pub ends_with : Bytes → Bytes → Bool
ends_with suffix s = starts_with (reverse suffix) (reverse s)

-- `isDayPauseReason`
unfoldable pub is_day_pause_reason : Bytes → Bool
is_day_pause_reason reason = ends_with (str "(resets at midnight UTC)") reason

-- The bytes before the first ':', all of them without one, and the bytes behind it.
unfoldable pub cut_colon : Bytes → Bytes × Bytes
cut_colon [] = ([], [])
cut_colon (c ∷ s) =
    let (before, after) = cut_colon s in if c == b':' then ([], s) else (c ∷ before, after)

-- `counterLabel`
unfoldable pub counter_label : Bytes → Bytes
counter_label where' = (cut_colon where').0

module _ {D : Type 0} (f : Float D) where
  abbrev pub micro_dollars : ℤ → D
  micro_dollars n = f.div (f.of_int n) (f.literal 1000000 0)

  abbrev spend_text : Bytes → Option ℤ → Bytes
  spend_text code none = code
  spend_text code (some n) = str "run reached the spend cap of " ++ money ⦃f = f⦄ (micro_dollars n)

  -- `reasonText`
  unfoldable pub reason_text : Bytes → Bytes
  reason_text code =
      if starts_with (str "spend:") code
      then spend_text code (parse_int (drop 6 code))
      else if starts_with (str "calls:") code
      then str "run reached the call cap of " ++ drop 6 code
      else if beq code (str "loop")
      then loop_reason
      else if starts_with (str "text:") code
      then drop 5 code
      else code

  abbrev day_text : Bytes → Bytes → Option ℤ → Bytes
  day_text code key none = reason_text code
  day_text code key (some n) =
      key_label key
      ++ str " reached its daily spend cap of "
      ++ money ⦃f = f⦄ (micro_dollars n)
      ++ str " (resets at midnight UTC)"

  abbrev total_text : Bytes → Bytes → Option ℤ → Bytes
  total_text code key none = reason_text code
  total_text code key (some n) =
      key_label key ++ str " reached its spend cap of " ++ money ⦃f = f⦄ (micro_dollars n)

  -- `keyReason`
  unfoldable pub key_reason : Bytes → Bytes → Bytes
  key_reason code key =
      if starts_with (str "kday:") code
      then day_text code key (parse_int (drop 5 code))
      else if starts_with (str "klife:") code
      then total_text code key (parse_int (drop 6 code))
      else reason_text code
