-- ===== src/Gateway/Identity/Tests.antt =====
-- internal/gateway/identity.go: a concrete traceparent header.
use axigate_finops.Prelude.{◌≡◌, refl, Bytes, str, trim_space}
use axigate_finops.Gateway.Identity.Headers.{trace_id, is_hex}
use axigate_finops.Gateway.Identity.Trace.{IsTraceId, trace_id-finds}

abbrev traceparent : Bytes
traceparent = str "00-0af7651916cd43dd8448eb211c80319c-b7ad6b7169203331-01"

abbrev trace_digits : Bytes
trace_digits = str "0af7651916cd43dd8448eb211c80319c"

traceparent_text : trim_space traceparent ≡ traceparent
unfolding trim_space
traceparent_text = refl

trace_digits-IsTraceId : IsTraceId trace_digits
unfolding is_hex
trace_digits-IsTraceId = (refl, refl, refl)

trace_id-finds_example : trace_id traceparent ≡ trace_digits
trace_id-finds_example =
    trace_id-finds traceparent (str "00") trace_digits (str "b7ad6b7169203331") (str "01")
      traceparent_text trace_digits-IsTraceId refl refl
