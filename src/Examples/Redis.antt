-- ===== src/Examples/Redis.antt =====
-- Tests of src/verifier/redis.rs, some of them the source's own, and instances of the theorems.
use subdollar_llm_coding_ben.Base.{
  suc, ◌^◌, ℕ, ◌+◌, ◌≡◌, ◌≤◌, ◌<◌, refl, none, some, List, [], ◌∷◌, ◌++◌, arith, length, take,
}
use subdollar_llm_coding_ben.Text.{Text, Bytes, codes, show, from_utf8_lossy}
use subdollar_llm_coding_ben.Stage.{Result, ok, err}
use subdollar_llm_coding_ben.Redis.Frame.{format_resp_cmd, parse_frame, parse_resp_frame}
use subdollar_llm_coding_ben.Redis.Frame.Bounds.{parse_resp_frame-Fits}
use subdollar_llm_coding_ben.Redis.Frame.Depth.{parse_frame_fuel}
use subdollar_llm_coding_ben.Redis.Frame.Stable.{parse_resp_frame-append, parse_resp_frame-take}
use subdollar_llm_coding_ben.Redis.Frame.RoundTrip.{parse_resp_frame-format}
use subdollar_llm_coding_ben.Redis.Client.{
  Received, bytes, late, open_stream, Peer, Ticks, reply_timeout, receive, send_resp_cmd,
}
use subdollar_llm_coding_ben.Redis.Client.Deadline.{receive_fuel}
use subdollar_llm_coding_ben.Redis.Session.{Client}
use subdollar_llm_coding_ben.Redis.Stages.{run_all}
use subdollar_llm_coding_ben.Redis.Stages.Passing.{AnswersAll, run_all_passed}
use subdollar_llm_coding_ben.Stage.{summarize}
use subdollar_llm_coding_ben.Text.{text_eq, trim, starts_with}
use subdollar_llm_coding_ben.Base.{◌↔◌}
use subdollar_llm_coding_ben.Redis.Client.Delivery.{Delivers, done, chunk, send_resp_cmd-Delivers}

abbrev set_cmd : List Text
set_cmd = codes "SET" ∷ codes "k" ∷ codes "v" ∷ []

abbrev nested : Bytes
nested = codes "*2\r\n$3\r\nabc\r\n*1\r\n:5\r\n"

format_set : format_resp_cmd set_cmd ≡ codes "*3\r\n$3\r\nSET\r\n$1\r\nk\r\n$1\r\nv\r\n"
unfolding format_resp_cmd
format_set = refl

parse_nested : parse_resp_frame nested ≡ some 21
unfolding parse_resp_frame
parse_nested = refl

parse_partial : parse_resp_frame (codes "$5\r\nhel") ≡ none
unfolding parse_resp_frame
parse_partial = refl

-- The length wraps around: a frame is reported that ends inside its own first line.
parse_overflow : parse_resp_frame (codes "$18446744073709551612\r\n") ≡ some 21
unfolding parse_resp_frame
parse_overflow = refl

parse_resp_frame-Fits_example : 21 ≤ length nested
parse_resp_frame-Fits_example = parse_resp_frame-Fits nested 21 parse_nested

parse_frame_fuel_example : parse_frame 30 nested ≡ parse_resp_frame nested
parse_frame_fuel_example = parse_frame_fuel 30 nested (omega arith)

parse_resp_frame-append_example : parse_resp_frame (nested ++ codes "+O") ≡ some 21
parse_resp_frame-append_example = parse_resp_frame-append nested (codes "+O") 21 parse_nested

parse_resp_frame-take_example : parse_resp_frame (take 16 nested) ≡ none
parse_resp_frame-take_example = parse_resp_frame-take nested 21 16 parse_nested (omega arith)

set_small : length (format_resp_cmd set_cmd) < 2 ^ 64
unfolding format_resp_cmd
set_small = omega arith

parse_resp_frame-format_example :
    parse_resp_frame (format_resp_cmd set_cmd ++ codes "*1")
    ≡ some (length (format_resp_cmd set_cmd))
parse_resp_frame-format_example = parse_resp_frame-format set_cmd (codes "*1") set_small

-- A server that sends prepared pieces, one in each read; the time counts the reads.
record Script : Type 0 where
  time : ℕ
  pieces : List Bytes

abbrev next_piece : List Bytes → ℕ → Received × Script
next_piece [] time = (late, record { time = time; pieces = [] })
next_piece (cs ∷ rest) time = (bytes cs, record { time = time; pieces = rest })

abbrev scripted_read : ℕ → Script → Received × Script
scripted_read r s = next_piece s.pieces (s.time + 1)

abbrev scripted : Peer
scripted = record {
  State = Script;
  now = λ s. s.time;
  connect_to = λ port s. (open_stream, s);
  write_all = λ data' s. (none, s);
  flush = λ s. (none, s);
  read = scripted_read;
  sleep = λ ns s. record s { time = s.time + ns };
}

scripted-Ticks : Ticks scripted
scripted-Ticks r s = ticks s.pieces s.time
  where
    ticks : (l : List Bytes) (t : ℕ) → t < (next_piece l (t + 1)).1.time
    ticks [] t = omega arith
    ticks (cs ∷ l) t = omega arith

receive_fuel_example :
    receive scripted (λ t. t) (10 ^ 10) 0 [] (record { time = 0; pieces = [] })
    ≡ receive scripted (λ t. t) (suc reply_timeout) 0 [] (record { time = 0; pieces = [] })
receive_fuel_example =
    receive_fuel scripted (λ t. t) (10 ^ 10) (record { time = 0; pieces = [] }) scripted-Ticks
      (omega arith)

-- "+PO" and "NG\r\n" in two reads.
pong_delivered :
    Delivers scripted 0
      (record { time = 0; pieces = codes "+PO" ∷ codes "NG\r\n" ∷ [] })
      (codes "+PO" ∷ codes "NG\r\n" ∷ [])
      (record { time = 2; pieces = [] })
pong_delivered = chunk (cc) (omega arith) refl (chunk (cc) (omega arith) refl done)

pong_frame : parse_resp_frame (codes "+PONG\r\n") ≡ some 7
unfolding parse_resp_frame
pong_frame = refl

send_resp_cmd-Delivers_example :
    send_resp_cmd scripted
      (λ t. t)
      (codes "PING" ∷ [])
      (record { time = 0; pieces = codes "+PO" ∷ codes "NG\r\n" ∷ [] })
    ≡ (ok (from_utf8_lossy (codes "+PONG\r\n")), record { time = 2; pieces = [] })
send_resp_cmd-Delivers_example =
    send_resp_cmd-Delivers scripted (λ t. t) (codes "PING" ∷ []) refl refl pong_delivered
      (omega arith) pong_frame

-- A client whose server gives prepared replies, one to each command, and takes every pipe.
abbrev next_reply : List Text → Result Text × List Text
next_reply [] = (err (codes "Read timed out"), [])
next_reply (r ∷ rest) = (ok r, rest)

abbrev prepared : Client
prepared = record {
  State = List Text;
  connect = λ s. (ok tt, s);
  send = λ args s. next_reply s;
  pipeline = λ payload s. (none, s);
  sleep = λ ns s. s;
}

abbrev good_replies : List Text
good_replies =
    codes "+PONG\r\n"
    ∷ codes "$14\r\nsubdollar_test\r\n"
    ∷ codes "+OK\r\n"
    ∷ codes "$7\r\nv_bench\r\n"
    ∷ codes ":1\r\n"
    ∷ codes ":1\r\n"
    ∷ codes "$-1\r\n"
    ∷ codes ":0\r\n"
    ∷ codes "+OK\r\n"
    ∷ codes "$7\r\nval_ttl\r\n"
    ∷ codes "$-1\r\n"
    ∷ codes ":1\r\n"
    ∷ codes ":2\r\n"
    ∷ codes ":1\r\n"
    ∷ codes "+OK\r\n"
    ∷ codes "-ERR value is not an integer\r\n"
    ∷ []

run_all_passed_example :
    (((run_all prepared (λ t. t) none good_replies).0.passed_count ≡ 4)
      × ((run_all prepared (λ t. t) none good_replies).1 ≡ []))
    ↔ AnswersAll prepared (λ t. t) none good_replies []
run_all_passed_example = run_all_passed prepared (λ t. t) none good_replies []

good_server :
    ((run_all prepared (λ t. t) none good_replies).0.passed_count ≡ 4)
    × ((run_all prepared (λ t. t) none good_replies).1 ≡ [])
unfolding run_all summarize text_eq trim show starts_with
good_server = (refl, refl)
