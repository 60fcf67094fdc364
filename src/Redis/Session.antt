-- ===== src/Redis/Session.antt =====
-- src/verifier/redis.rs: the interface between the stages and the connection, with the client that
-- the source has, and the tests of a reply.
use subdollar_llm_coding_ben.Base.{
  ℕ, ◌-◌, Bool, ◌||◌, Option, none, some, List, ◌∷◌, ◌++◌, if◌then◌else◌, leb, length, drop,
}
use subdollar_llm_coding_ben.Text.{Text, Bytes, is_empty, show, text_eq, trim, crlf}
use subdollar_llm_coding_ben.Stage.{Result}
use subdollar_llm_coding_ben.Redis.Client.{Peer, connect, send_resp_cmd, pipeline}

-- What the stages do: connect, send a command and await its reply, write bytes and read what comes,
-- wait.
pub record Client : Type 1 where
  pub State : Type 0
  pub connect : State → Result (Unit {0}) × State
  pub send : List Text → State → Result Text × State
  pub pipeline : Bytes → State → Option Text × State
  pub sleep : ℕ → State → State

-- The client of src/verifier/redis.rs.
pub tcp_client : Peer → (Text → Text) → ℕ → Client
tcp_client p debug port = record {
  State = p.State;
  connect = connect p debug port;
  send = send_resp_cmd p debug;
  pipeline = pipeline p debug;
  sleep = p.sleep;
}

-- `get_seed_prefix`; a seed is ASCII, so its last 8 bytes are a text.
unfoldable pub get_seed_prefix : Option Text → Text → Text
get_seed_prefix none default = default
get_seed_prefix (some seed) default =
    if is_empty seed
    then default
    else if leb (length seed) 8
    then seed
    else drop (length seed - 8) seed

-- A reply that is a bulk string, as the stages expect it, with no line end behind it.
unfoldable pub bulk_reply : Text → Text
bulk_reply val = b'$' ∷ (show (length val) ++ (crlf ++ val))

-- `res.trim() == expected || res == format!("{}\r\n", expected)`
unfoldable pub is_bulk_reply : Text → Text → Bool
unfolding bulk_reply
is_bulk_reply val res = text_eq (trim res) (bulk_reply val) || text_eq res (bulk_reply val ++ crlf)

-- `res.trim() == expected`
unfoldable pub is_line : Text → Text → Bool
is_line expected res = text_eq (trim res) expected
