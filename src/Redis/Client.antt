-- ===== src/Redis/Client.antt =====
-- src/verifier/redis.rs: `connect`, `send_resp_cmd` and the pipelined exchange of stage 2, over a
-- TCP peer whose behaviour is a parameter. Times are in nanoseconds.
pub mod Deadline
pub mod Delivery
use subdollar_llm_coding_ben.Base.{
  ◌^◌, ℕ, zero, suc, ◌+◌, ◌-◌, ◌*◌, ◌<◌, ◌≤◌, ◌≡◌, refl, Bool, true, false, not, ◌&&◌, ◌||◌, Option,
  none, some, List, [], ◌∷◌, ◌++◌, arith, if◌then◌else◌, leb, ltb, length,
}
use subdollar_llm_coding_ben.Text.{Text, Bytes, codes, is_empty, show, from_utf8_lossy}
use subdollar_llm_coding_ben.Stage.{Result, ok, err}
use subdollar_llm_coding_ben.Redis.Frame.{format_resp_cmd, is_complete_resp_frame}

-- What `timeout(remaining, stream.read(..))` returns; no bytes stand for a closed connection.
pub data Received : Type 0 where
  bytes : Bytes → Received
  failed : Text → Received
  late : Received

-- What `timeout(3s, TcpStream::connect(..))` returns.
pub data Connected : Type 0 where
  open_stream : Connected
  refused : Text → Connected
  timed_out : Connected

-- The network and the server behind it. `none` means that a write or a flush went well.
pub record Peer : Type 1 where
  pub State : Type 0
  pub now : State → ℕ
  pub connect_to : ℕ → State → Connected × State
  pub write_all : Bytes → State → Option Text × State
  pub flush : State → Option Text × State
  pub read : ℕ → State → Received × State
  pub sleep : ℕ → State → State

-- The clock moves on in every read.
abbrev pub Ticks : Peer → Type 0
Ticks p = (r : ℕ) (s : p.State) → p.now s < p.now (p.read r s).1

-- 3 seconds, and 600 and 200 milliseconds.
abbrev pub reply_timeout : ℕ
reply_timeout = 3 * 10 ^ 9

abbrev pub pipe_timeout : ℕ
pipe_timeout = 600 * 10 ^ 6

abbrev pub pipe_read_timeout : ℕ
pipe_read_timeout = 200 * 10 ^ 6

-- `debug` prints a text as `{:?}` does.
module _ (p : Peer) (debug : Text → Text) where
  open p use {State, now, connect_to, write_all, flush, read}

  address : ℕ → Text
  address port = codes "127.0.0.1:" ++ show port

  connect_result : ℕ → Connected × State → Result (Unit {0}) × State
  unfolding address
  connect_result port (open_stream, s) = (ok tt, s)
  connect_result port (timed_out, s) = (err (codes "Connection timed out to " ++ address port), s)
  connect_result port (refused e, s) =
      (err (codes "Failed to connect to " ++ (address port ++ (codes ": " ++ e))), s)

  pub connect : ℕ → State → Result (Unit {0}) × State
  unfolding connect_result
  connect port s = connect_result port (connect_to port s)

  -- The deadline has passed.
  pub expired : Bytes → Result Text
  expired [] = err (codes "Read timed out")
  expired (c ∷ buf) = err (
      codes "Read timed out with partial incomplete RESP frame: "
      ++ debug (from_utf8_lossy (c ∷ buf)))

  -- The server has closed the connection.
  pub closed : Bytes → Result Text
  closed [] = err (codes "Server closed connection prematurely")
  closed (c ∷ buf) = err (
      codes "Server closed connection with incomplete RESP frame: "
      ++ debug (from_utf8_lossy (c ∷ buf)))

  -- The end of one round of the loop; `again` is the next round.
  pub after_read :
      (Bytes → State → Result Text × State) → Bytes → Received × State → Result Text × State
  unfolding closed
  after_read again buf (late, s) = (err (codes "Read timed out"), s)
  after_read again buf (failed e, s) = (err e, s)
  after_read again buf (bytes [], s) = (closed buf, s)
  after_read again buf (bytes (c ∷ cs), s) = again (buf ++ c ∷ cs) s

  -- `while !is_complete_resp_frame(&buf)`; the fuel bounds the reads.
  pub receive : ℕ → ℕ → Bytes → State → Result Text × State
  receive zero start buf s =
      if is_complete_resp_frame buf then (ok (from_utf8_lossy buf), s) else (expired buf, s)
  receive (suc fuel) start buf s =
      let elapsed = now s - start in
      let more = after_read (receive fuel start) buf (read (reply_timeout - elapsed) s) in
      if is_complete_resp_frame buf
      then (ok (from_utf8_lossy buf), s)
      else if leb reply_timeout elapsed
      then (expired buf, s)
      else more

  pub after_flush : Option Text × State → Result Text × State
  unfolding receive expired after_read
  after_flush (some e, s) = (err e, s)
  after_flush (none, s) = receive (suc reply_timeout) (now s) [] s

  pub send_result : Option Text × State → Result Text × State
  unfolding after_flush
  send_result (some e, s) = (err e, s)
  send_result (none, s) = after_flush (flush s)

  pub send_resp_cmd : List Text → State → Result Text × State
  unfolding send_result
  send_resp_cmd args s = send_result (write_all (format_resp_cmd args) s)

  -- The read loop behind the pipelined commands: 24 bytes, or 600 milliseconds, or a failed read.
  pub pipe_after : (Bytes → State → Text × State) → Bytes → Received × State → Text × State
  pipe_after again buf (bytes (c ∷ cs), s) = again (buf ++ c ∷ cs) s
  pipe_after again buf (_, s) = (from_utf8_lossy buf, s)

  pub pipe_receive : ℕ → ℕ → Bytes → State → Text × State
  pipe_receive zero start buf s = (from_utf8_lossy buf, s)
  pipe_receive (suc fuel) start buf s =
      let more = pipe_after (pipe_receive fuel start) buf (read pipe_read_timeout s) in
      if ltb (length buf) 24 && ltb (now s - start) pipe_timeout
      then more
      else (from_utf8_lossy buf, s)

  pub pipe_result : Option Text × State → Option Text × State
  unfolding pipe_receive pipe_after
  pipe_result (some e, s) = (none, s)
  pipe_result (none, s) =
      let s1 = (flush s).1 in
      let (text, s2) = pipe_receive (suc pipe_timeout) (now s1) [] s1 in (some text, s2)

  -- `none` if the commands could not be written, which the stage lets pass.
  pub pipeline : Bytes → State → Option Text × State
  unfolding pipe_result
  pipeline payload s = pipe_result (write_all payload s)
