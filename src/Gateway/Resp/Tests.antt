-- ===== src/Gateway/Resp/Tests.antt =====
-- internal/gateway/resp.go: the wire protocol on concrete texts.
use axigate_finops.Prelude.{
  ℕ, ◌+◌, ltb, if◌then◌else◌, ◌≡◌, refl, List, [], ◌∷◌, ◌++◌, Bytes, str, pos, negsuc, some, arith,
  itoa, All,
}
use axigate_finops.Gateway.Resp.Value.{
  nil, text, int, array, refused, no_values, value, scan_digits, parse_digits, parse_int,
}
use axigate_finops.Gateway.Resp.Number.{parse_int-itoa}
use axigate_finops.Gateway.Resp.Wire.{
  crlf, write_command, split_line, strip_return, read_line, replied, broken, end_of_stream,
  make_panics, read_items, read_typed, read_reply,
}
use axigate_finops.Gateway.Resp.Client.{
  answer, timed_out, gone, stale_read, unsent, heard, Net, do_on,
}
use axigate_finops.Gateway.Resp.Pool.{ended, Pool, drop_slot, put_conn, take_conn, do_command}
use axigate_finops.Gateway.Resp.Slots.{Ended, do_command-Ended}
use axigate_finops.Gateway.Resp.RoundTrip.{texts, Short, read_reply-write_command}

-- A network where connections below 5 are gone and others answer.
abbrev partly_gone : Net ℕ ℕ
partly_gone = record {
  dial = λ w. ((some w, []), w + 1);
  makes = λ n. ltb n 1000;
  talk = λ c s w.
      if ltb c 5
      then (unsent (gone (str "EOF")), w)
      else (heard (str "+PONG" ++ crlf) (timed_out (str "timeout")), w);
}

-- Two idle connections, both gone.
abbrev two_idle : Pool ℕ
two_idle = record { user = []; password = []; db = []; slots = 3; dials = 0; idle = 1 ∷ 2 ∷ [] }

-- Both are discarded, and the command is answered on a new connection.
do_command_stale :
    do_command partly_gone 3 (str "PING" ∷ []) two_idle 9
    ≡ (ended (answer (text (str "PONG"))), record two_idle { idle = 9 ∷ [] }, 10)
unfolding do_command take_conn drop_slot put_conn stale_read do_on write_command read_reply
    read_typed read_line split_line strip_return
do_command_stale = refl

do_command-Ended_example :
    Ended partly_gone two_idle (do_command partly_gone 3 (str "PING" ∷ []) two_idle 9)
do_command-Ended_example = do_command-Ended partly_gone 3 (str "PING" ∷ []) two_idle 9 (omega arith)

-- An array of an integer, an error, nil and a text, with a byte behind it.
abbrev nested_reply : Bytes
nested_reply =
    str "*4"
    ++ crlf
    ++ str ":-12"
    ++ crlf
    ++ str "-ERR x"
    ++ crlf
    ++ str "$-1"
    ++ crlf
    ++ str "$2"
    ++ crlf
    ++ str "ab"
    ++ crlf
    ++ str "+"

read_reply_nested :
    read_reply (λ n. ltb n 1000) 2 nested_reply
    ≡ replied
        (array (
          value
            (int (negsuc 11))
            (value (refused (str "ERR x")) (value nil (value (text (str "ab")) no_values)))))
        (str "+")
unfolding read_reply read_typed read_items read_line split_line strip_return parse_int parse_digits
    scan_digits
read_reply_nested = refl

read_reply_short :
    read_reply (λ n. ltb n 1000) 2 (str "$5" ++ crlf ++ str "abc") ≡ broken end_of_stream
unfolding read_reply read_typed read_items read_line split_line strip_return parse_int parse_digits
    scan_digits
read_reply_short = refl

-- A length that no buffer can have.
read_reply_panics :
    read_reply (λ n. ltb n 1000) 2 (str "$9223372036854775807" ++ crlf) ≡ broken make_panics
unfolding read_reply read_typed read_items read_line split_line strip_return parse_int parse_digits
    scan_digits
read_reply_panics = refl

write_command_ping :
    write_command (str "PING" ∷ []) ≡ str "*1" ++ crlf ++ str "$4" ++ crlf ++ str "PING" ++ crlf
unfolding write_command itoa
write_command_ping = refl

parse_int-itoa_example : parse_int (itoa 90210) ≡ some (pos 90210)
parse_int-itoa_example = parse_int-itoa 90210 (omega arith)

abbrev hset : List Bytes
hset = str "HSET" ∷ str "run" ∷ [] ∷ []

hset-Short : All (Short (λ n. ltb n 1000)) hset
hset-Short = (refl, (refl, (refl, tt)))

read_reply-write_command_example :
    read_reply (λ n. ltb n 1000) 3 (write_command hset ++ str "*")
    ≡ replied (array (texts hset)) (str "*")
read_reply-write_command_example =
    read_reply-write_command (λ n. ltb n 1000) 1 hset (str "*") refl hset-Short
