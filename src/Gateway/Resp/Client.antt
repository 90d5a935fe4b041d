-- ===== src/Gateway/Resp/Client.antt =====
-- internal/gateway/resp.go: a command and its reply on one connection, and what a client gives.
use axigate_finops.Prelude.{ℕ, suc, Bool, true, false, List, [], Option, Bytes, str, length}
use axigate_finops.Gateway.Resp.Value.{Value}
use axigate_finops.Gateway.Resp.Wire.{
  ReadError, end_of_stream, malformed, empty_reply, bad_integer, bad_bulk_length, bad_array_length,
  unknown_type, make_panics, out_of_fuel, Reply, replied, rejected, broken, write_command,
  read_reply,
}

-- Why the client has no answer: every connection was busy, the store replied with an error, the
-- dial failed, or a connection that was open went wrong; with the error's text.
pub data StoreError : Type 0 where
  pool_busy : Bytes → StoreError
  error_reply : Bytes → StoreError
  dial_failed : Bytes → StoreError
  answer_dropped : Bytes → StoreError

abbrev pub error_text : StoreError → Bytes
error_text (pool_busy e) = e
error_text (error_reply e) = e
error_text (dial_failed e) = e
error_text (answer_dropped e) = e

pub data Outcome : Type 0 where
  answer : Value → Outcome
  failed : StoreError → Outcome

-- An error of a connection: a deadline that passed, the other side gone (the end of the stream, a
-- reset, a broken pipe), or any other.
pub data NetError : Type 0 where
  timed_out : Bytes → NetError
  gone : Bytes → NetError
  other_error : Bytes → NetError

abbrev pub net_text : NetError → Bytes
net_text (timed_out e) = e
net_text (gone e) = e
net_text (other_error e) = e

-- `staleRead`
unfoldable pub stale_read : NetError → Bool
stale_read (gone e) = true
stale_read (timed_out e) = false
stale_read (other_error e) = false

-- What a connection does with bytes that are written to it: an error before anything comes back,
-- or the bytes that come back and the error behind the last of them.
pub data Heard : Type 0 where
  unsent : NetError → Heard
  heard : Bytes → NetError → Heard

-- The network, for connections `C`: a dial and an exchange on a connection, with what becomes of
-- everything beyond the process; and the sizes that the runtime allocates.
pub record Net (C W : Type 0) : Type 0 where
  pub dial : W → (Option C × Bytes) × W
  pub talk : C → Bytes → W → Heard × W
  pub makes : ℕ → Bool

-- What `doOn` returns: a value, the server's refusal, or an error that leaves the connection
-- unusable. Or it panics.
pub data Said : Type 0 where
  said : Value → Said
  said_no : Bytes → Said
  unusable : NetError → Said
  said_panic : Said

-- The texts of the errors of `readLine` and `readReply`, less what they quote.
abbrev read_text : ReadError → Bytes
read_text (bad_integer s) = str "shared counter: bad integer reply"
read_text (bad_bulk_length s) = str "shared counter: bad bulk length"
read_text (bad_array_length s) = str "shared counter: bad array length"
read_text (unknown_type c) = str "shared counter: unknown reply type"
read_text empty_reply = str "shared counter: empty reply"
read_text end_of_stream = []
read_text malformed = str "shared counter: malformed reply"
read_text out_of_fuel = []
read_text make_panics = []

abbrev read_failure : ReadError → NetError → NetError
read_failure end_of_stream end = end
read_failure e end = other_error (read_text e)

abbrev pub said_broken : NetError → ReadError → Said
said_broken end make_panics = said_panic
said_broken end e = unusable (read_failure e end)

abbrev pub said_of : NetError → Reply → Said
said_of end (replied v rest) = said v
said_of end (rejected e rest) = said_no e
said_of end (broken e) = said_broken end e

abbrev pub read_heard : (ℕ → Bool) → Heard → Said
read_heard makes (unsent e) = unusable e
read_heard makes (heard s end) = said_of end (read_reply makes (suc (length s)) s)

-- `doOn`
unfoldable pub do_on : {C W : Type 0} → Net C W → C → List Bytes → W → Said × W
do_on net c args w = let (h, w') = net.talk c (write_command args) w in (read_heard net.makes h, w')
