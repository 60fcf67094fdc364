-- ===== src/Dns/Socket.antt =====
-- src/verifier/dns.rs: `send_query`, over a UDP network that is a parameter.
use subdollar_llm_coding_ben.Base.{ℕ, ◌++◌, take, Option, none, some}
use subdollar_llm_coding_ben.Text.{Text, Bytes, codes}
use subdollar_llm_coding_ben.Stage.{Result, ok, err}
use subdollar_llm_coding_ben.Dns.Query.{build_query}

-- What `timeout(1500ms, socket.recv_from(..))` returns.
pub data Datagram : Type 0 where
  datagram : Bytes → Datagram
  receive_failed : Text → Datagram
  timed_out : Datagram

-- The network with the server behind it; `none` means that the call went well.
pub record Network : Type 1 where
  pub State : Type 0
  pub bind : State → Option Text × State
  pub send_to : Bytes → State → Option Text × State
  pub recv_from : State → Datagram × State

module _ (n : Network) where
  open n use {State, bind, send_to, recv_from}

  -- The buffer holds 1024 bytes; what is longer is cut.
  pub received : Datagram × State → Result Bytes × State
  received (datagram bytes, s) = (ok (take 1024 bytes), s)
  received (receive_failed e, s) = (err (codes "Error receiving DNS response: " ++ e), s)
  received (timed_out, s) = (err (codes "Timeout waiting for DNS response"), s)

  pub sent : Option Text × State → Result Bytes × State
  unfolding received
  sent (some e, s) = (err (codes "Failed to send query: " ++ e), s)
  sent (none, s) = received (recv_from s)

  pub bound : Bytes → Option Text × State → Result Bytes × State
  unfolding sent
  bound query (some e, s) = (err (codes "Failed to bind client socket: " ++ e), s)
  bound query (none, s) = sent (send_to query s)

  unfoldable pub send_query : ℕ → Text → ℕ → State → Result Bytes × State
  unfolding bound
  send_query id domain qtype s = bound (build_query id domain qtype) (bind s)
