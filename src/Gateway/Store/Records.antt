-- ===== src/Gateway/Store/Records.antt =====
-- internal/gateway/counter_redis.go: the records that the scripts keep in the store, and the
-- names of the keys.
--
-- A hash of the store is a record with a value for each field; a field that a script reads with a
-- default is missing exactly if it has that default, and the two whose absence a script tells from
-- every value are options. Expiry, which only says when the store may forget a record, is left out:
-- the records are those of a store that has forgotten nothing yet. A number that a script takes
-- with `tonumber` is the number itself, and 1 and 0 for a flag are true and false.
use axigate_finops.Prelude.{
  ℕ, Bool, true, false, [], ◌∷◌, ◌++◌, Option, none, some, Bytes, str, Dict, lookup, insert, erase,
  is_empty, ℤ, pos, negsuc, suc, itoa, ltb, ◌==◌, if◌then◌else◌, take,
}

-- The ids of calls: 'a:<token>' with the answer that an admission gave, and 's:<token>' for a
-- settlement.
pub record Tokens : Type 0 where
  pub admits : Dict Bytes
  pub settled : Dict Bool

abbrev pub no_tokens : Tokens
no_tokens = record { admits = []; settled = [] }

-- Who a call is attributed to.
pub record Attribution : Type 0 where
  pub agent : Bytes
  pub team : Bytes
  pub model : Bytes

abbrev pub nobody : Attribution
nobody = record { agent = []; team = []; model = [] }

-- The hash of a run; spend and cap in micro-dollars.
pub record StoreRun : Type 0 where
  pub calls : ℕ
  pub inflight : ℕ
  pub spend : ℤ
  pub cap : ℤ
  pub paused : Bool
  pub reason : Option Bytes
  pub who : Attribution
  pub tokens : Tokens

-- The hash of a key.
pub record StoreKey : Type 0 where
  pub day : Option Bytes
  pub day_calls : ℕ
  pub day_spend : ℤ
  pub life_calls : ℕ
  pub life_spend : ℤ
  pub inflight : ℕ
  pub paused : Bool
  pub reason : Option Bytes
  pub day_pause : Bool
  pub who : Attribution

-- `key_tokens` has the buckets of the ids of keyed calls without a run.
pub record Store : Type 0 where
  pub killed : Bool
  pub runs : Dict StoreRun
  pub keys : Dict StoreKey
  pub key_tokens : Dict Tokens
  pub paused_runs : Dict Bool
  pub paused_keys : Dict Bool

abbrev pub fresh_store_run : StoreRun
fresh_store_run = record {
  calls = 0;
  inflight = 0;
  spend = pos 0;
  cap = pos 0;
  paused = false;
  reason = none;
  who = nobody;
  tokens = no_tokens;
}

abbrev pub fresh_store_key : StoreKey
fresh_store_key = record {
  day = none;
  day_calls = 0;
  day_spend = pos 0;
  life_calls = 0;
  life_spend = pos 0;
  inflight = 0;
  paused = false;
  reason = none;
  day_pause = false;
  who = nobody;
}

abbrev pub or_else {ℓ} : {A : Type ℓ} → A → Option A → A
or_else d none = d
or_else d (some a) = a

unfoldable pub store_run : Store → Bytes → StoreRun
store_run s run = or_else fresh_store_run (lookup run s.runs)

unfoldable pub store_key : Store → Bytes → StoreKey
store_key s key = or_else fresh_store_key (lookup key s.keys)

unfoldable pub key_bucket : Store → Bytes → Tokens
key_bucket s bucket = or_else no_tokens (lookup bucket s.key_tokens)

unfoldable pub put_store_run : Store → Bytes → StoreRun → Store
put_store_run s run st = record s { runs = insert run st s.runs }

unfoldable pub put_store_key : Store → Bytes → StoreKey → Store
put_store_key s key ks = record s { keys = insert key ks s.keys }

unfoldable pub put_bucket : Store → Bytes → Tokens → Store
put_bucket s bucket ts = record s { key_tokens = insert bucket ts s.key_tokens }

-- `a < b` on texts, byte by byte.
unfoldable pub bytes_less : Bytes → Bytes → Bool
bytes_less a [] = false
bytes_less [] (y ∷ ys) = true
bytes_less (x ∷ xs) (y ∷ ys) =
    let rest = bytes_less xs ys in if ltb x y then true else if x == y then rest else false

-- The text of an integer in decimal.
unfoldable pub decimal : ℤ → Bytes
decimal (pos n) = itoa n
decimal (negsuc n) = b'-' ∷ itoa (suc n)

abbrev dot_at_eight : Bytes → Bool
dot_at_eight [] = false
dot_at_eight (c ∷ s) = c == b'.'

-- Where the first '.' of a text is.
abbrev pub index_dot : Bytes → Option ℕ
index_dot [] = none
index_dot (c ∷ s) =
    let rest = index_dot s in
    if c == b'.' then some 0 else elim rest [ none ↦ none | some n ↦ some (suc n) ]

-- `tokenDay`
unfoldable pub token_day : Bytes → Bytes
token_day token = elim (index_dot token) [
  | none ↦ []
  | some n ↦ if n == 8 then take 8 token else []
]

-- `keyTokKey`, less the prefix of every such name.
unfoldable pub key_tok_key : Bytes → Bytes → Bytes
key_tok_key key token = key ++ str ":" ++ token_day token

-- What a script is told of the run, the key and the id of a call.
pub record CallArgs : Type 0 where
  pub run : Bytes
  pub key : Bytes
  pub token : Bytes
  pub today : Bytes

abbrev pub bucket_of : CallArgs → Bytes
bucket_of a = key_tok_key a.key a.token

-- Where the id of a call is kept: the run's hash, or the key's bucket without a run.
unfoldable pub seen_at : Store → CallArgs → Tokens
seen_at s a = if is_empty a.run then key_bucket s (bucket_of a) else (store_run s a.run).tokens

unfoldable pub put_seen : Store → CallArgs → Tokens → Store
put_seen s a ts =
    if is_empty a.run
    then put_bucket s (bucket_of a) ts
    else put_store_run s a.run (record (store_run s a.run) { tokens = ts })

-- A new day for a key: today's budget is fresh, and a pause by the daily cap is over.
unfoldable pub rolled_key : Bytes → StoreKey → StoreKey
rolled_key today ks =
    let fresh = record ks { day = some today; day_calls = 0; day_spend = pos 0; inflight = 0 } in
    let resumed = record fresh { paused = false; reason = some []; day_pause = false } in
    if ks.day_pause then resumed else fresh

abbrev pub is_new_day : Bytes → StoreKey → Bool
is_new_day today ks = elim ks.day [ none ↦ true | some d ↦ bytes_less d today ]

-- The rollover at the first touch of a day, with the key taken off the set of paused keys.
unfoldable pub roll_key : Store → Bytes → Bytes → Store
roll_key s key today =
    let ks = store_key s key in
    let rolled = put_store_key s key (rolled_key today ks) in
    if is_new_day today ks
    then (if ks.day_pause
        then record rolled { paused_keys = erase key rolled.paused_keys }
        else rolled)
    else s
