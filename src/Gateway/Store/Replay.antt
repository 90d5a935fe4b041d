-- ===== src/Gateway/Store/Replay.antt =====
-- internal/gateway/counter_redis.go: an admission that is sent again with the same id.
use axigate_finops.Prelude.{◌≡◌, true, some, Bytes, lookup, Float}
use axigate_finops.Gateway.Store.Records.{Store, CallArgs, seen_at}
use axigate_finops.Gateway.Store.Admit.{AdmitArgs, AdmitReply, served}

-- The id was answered with a word.
abbrev Answered : Bytes → CallArgs → Store → Type 0
Answered code a s = lookup a.token (seen_at s a).admits ≡ some code

module _ {D : Type 0} (f : Float D) (a : AdmitArgs) where
  abbrev Served : AdmitReply × Store → Type 0
  Served x = x.0.ok ≡ true → Answered served a.call x.1
