-- ===== src/Gateway/Store/Once.antt =====
-- internal/gateway/counter_redis.go: settlements that are sent again.
use axigate_finops.Prelude.{
  ◌≡◌, refl, Bytes, lookup-insert, lookup-insert_self, beq, beq_iff, if◌then◌else◌, arith,
}
use axigate_finops.Gateway.Store.Records.{
  Tokens, StoreRun, StoreKey, Store, store_run, key_bucket, put_store_run, put_store_key,
  put_bucket, CallArgs, bucket_of, seen_at, put_seen,
}

pub store_run-put :
    (s : Store) (run r : Bytes) (st : StoreRun)
    → store_run (put_store_run s run st) r ≡ (if beq run r then st else store_run s r)
unfolding store_run put_store_run
store_run-put s run r st = ground (arith, lookup-insert r run st s.runs)

-- What is written of a call's ids is read back.
pub seen_at-put_seen : (s : Store) (a : CallArgs) (ts : Tokens) → seen_at (put_seen s a ts) a ≡ ts
unfolding seen_at put_seen key_bucket put_bucket
seen_at-put_seen s a ts = ground (
  arith,
  beq_iff a.run a.run,
  store_run-put s a.run a.run (record (store_run s a.run) { tokens = ts }),
  lookup-insert_self (bucket_of a) ts s.key_tokens,
)

pub seen_at-put_key :
    (s : Store) (a : CallArgs) (key : Bytes) (ks : StoreKey)
    → seen_at (put_store_key s key ks) a ≡ seen_at s a
unfolding seen_at put_store_key store_run key_bucket
seen_at-put_key s a key ks = refl
