-- ===== src/Redis/Stages.antt =====
-- src/verifier/redis.rs: `RedisVerifier`, its four stages and `run_all`, over the interface `Client`.
pub mod Replies
pub mod Dialogue
pub mod Passing
use subdollar_llm_coding_ben.Base.{
  ℕ, zero, suc, ◌+◌, ◌-◌, ◌*◌, ◌^◌, ◌<◌, ◌≤◌, ◌≡◌, refl, Bool, true, false, not, ◌&&◌, ◌||◌, Option,
  none, some, List, [], ◌∷◌, ◌++◌, arith, if◌then◌else◌,
}
use subdollar_llm_coding_ben.Text.{Text, Bytes, codes, text_eq, contains, starts_with}
use subdollar_llm_coding_ben.Stage.{
  Result, ok, err, StageResult, stage_result, Step, bind_result, ◌>>=◌, ◌>>◌, ensure, map_err,
  Summary, summarize,
}
use subdollar_llm_coding_ben.Redis.Frame.{format_resp_cmd}
use subdollar_llm_coding_ben.Redis.Session.{
  Client, get_seed_prefix, bulk_reply, is_bulk_reply, is_line,
}

pub echo_text : Option Text → Text
echo_text seed =
    let prefix = get_seed_prefix seed (codes "test") in
    if text_eq prefix (codes "test") then codes "subdollar_test" else codes "echo_" ++ prefix

pub pipe_payload : Text → Bytes
pipe_payload key =
    let pipe_k1 = key ++ codes "_p1" in
    let pipe_k2 = key ++ codes "_p2" in
    format_resp_cmd (codes "SET" ∷ pipe_k1 ∷ codes "v1" ∷ [])
    ++ (format_resp_cmd (codes "SET" ∷ pipe_k2 ∷ codes "v2" ∷ [])
        ++ (format_resp_cmd (codes "GET" ∷ pipe_k1 ∷ [])
            ++ format_resp_cmd (codes "GET" ∷ pipe_k2 ∷ [])))

pub pipe_accepts : Text → Bool
pipe_accepts resp = contains resp (codes "+OK") && contains resp (codes "v1")

module _ (c : Client) (debug : Text → Text) where
  open c use {State, send, connect, sleep}

  -- Sends a command: `Err(e)` ends the stage with "<what> failed: <e>".
  pub ask : Text → List Text → Step State Text
  ask what args s =
      let (r, s') = send args s in (map_err (λ e. what ++ (codes " failed: " ++ e)) r, s')

  -- Sends a command, and ends the stage if its reply is not accepted.
  pub expect : Text → List Text → (Text → Bool) → Text → Step State (Unit {0})
  expect what args accepts complaint = do
    res ← ask what args
    ensure (accepts res) (complaint ++ debug res)

  pub handshake : Option Text → Step State (Unit {0})
  handshake seed = do
    let echo = echo_text seed
    expect (codes "PING") (codes "PING" ∷ []) (is_line (codes "+PONG"))
        (codes "Expected +PONG\\r\\n, got: ")
    expect (codes "ECHO") (codes "ECHO" ∷ echo ∷ []) (is_bulk_reply echo)
        (codes "Expected ECHO with '" ++ (bulk_reply echo ++ codes "\\r\\n', got: "))

  -- The commands of stage 2, up to the pipelining.
  pub key_value : Text → Text → Step State (Unit {0})
  key_value key val = do
    expect (codes "SET") (codes "SET" ∷ key ∷ val ∷ []) (is_line (codes "+OK"))
        (codes "Expected +OK, got ")
    expect (codes "GET") (codes "GET" ∷ key ∷ []) (is_bulk_reply val)
        (codes "Expected '" ++ (bulk_reply val ++ codes "', got "))
    expect (codes "EXISTS") (codes "EXISTS" ∷ key ∷ []) (is_line (codes ":1"))
        (codes "Expected :1, got ")
    expect (codes "DEL") (codes "DEL" ∷ key ∷ []) (is_line (codes ":1"))
        (codes "Expected :1 from DEL, got ")
    expect (codes "GET after DEL") (codes "GET" ∷ key ∷ []) (is_line (codes "$-1"))
        (codes "Expected nil ($-1\\r\\n), got ")
    expect (codes "EXISTS after DEL") (codes "EXISTS" ∷ key ∷ []) (is_line (codes ":0"))
        (codes "Expected :0, got ")

  -- A failed write is let pass.
  pub check_pipe : Option Text × State → Result (Unit {0}) × State
  check_pipe (none, s) = (ok tt, s)
  check_pipe (some resp, s) =
      ensure (pipe_accepts resp) (codes "TCP pipelining failed, got response: " ++ debug resp) s

  pub pipelining : Text → Step State (Unit {0})
  pipelining key s = check_pipe (c.pipeline (pipe_payload key) s)

  pub basic_commands : Option Text → Step State (Unit {0})
  basic_commands seed = do
    let seed_prefix = get_seed_prefix seed (codes "bench")
    let key = codes "k_" ++ seed_prefix
    key_value key (codes "v_" ++ seed_prefix)
    pipelining key

  -- `sleep(Duration::from_millis(250))`
  pub wait : ℕ → Step State (Unit {0})
  wait ns s = (ok tt, sleep ns s)

  pub expiration : Option Text → Step State (Unit {0})
  expiration seed = do
    let seed_prefix = get_seed_prefix seed (codes "ttl")
    let ttl_key = codes "ttl_" ++ seed_prefix
    let ttl_val = codes "val_" ++ seed_prefix
    expect (codes "SET PX") (codes "SET" ∷ ttl_key ∷ ttl_val ∷ codes "PX" ∷ codes "150" ∷ [])
        (is_line (codes "+OK")) (codes "Expected +OK for SET PX, got ")
    expect (codes "Immediate GET") (codes "GET" ∷ ttl_key ∷ []) (is_bulk_reply ttl_val)
        (codes "Expected immediate GET to return '" ++ (bulk_reply ttl_val ++ codes "', got "))
    wait (250 * 10 ^ 6)
    expect (codes "Post-TTL GET") (codes "GET" ∷ ttl_key ∷ []) (is_line (codes "$-1"))
        (codes "Expected expired key to return nil ($-1\\r\\n), got ")

  -- `let _ = send_resp_cmd(..)`
  pub send_anyway : List Text → Step State (Unit {0})
  send_anyway args s = (ok tt, (send args s).1)

  pub counters : Option Text → Step State (Unit {0})
  counters seed = do
    let seed_prefix = get_seed_prefix seed (codes "num")
    let counter_key = codes "cnt_" ++ seed_prefix
    let non_num_key = codes "str_" ++ seed_prefix
    expect (codes "INCR 1") (codes "INCR" ∷ counter_key ∷ []) (is_line (codes ":1"))
        (codes "Expected :1, got ")
    expect (codes "INCR 2") (codes "INCR" ∷ counter_key ∷ []) (is_line (codes ":2"))
        (codes "Expected :2, got ")
    expect (codes "DECR") (codes "DECR" ∷ counter_key ∷ []) (is_line (codes ":1"))
        (codes "Expected :1, got ")
    send_anyway (codes "SET" ∷ non_num_key ∷ codes "invalid_number" ∷ [])
    expect (codes "Negative test") (codes "INCR" ∷ non_num_key ∷ [])
        (λ res. starts_with res (codes "-")) (codes "Expected RESP error (-ERR ...), got ")

  -- Every stage opens a connection of its own, and is judged by how its part ends.
  pub run_stage : ℕ → Text → Step State (Unit {0}) → State → StageResult × State
  run_stage n name body s = let (r, s') = (connect >> body) s in (stage_result n name r, s')

  pub test_stage1_handshake : Option Text → State → StageResult × State
  test_stage1_handshake seed = run_stage 1 (codes "Stage 1: PING & ECHO Handshake") (handshake seed)

  pub test_stage2_key_value : Option Text → State → StageResult × State
  test_stage2_key_value seed =
      run_stage 2 (codes "Stage 2: Basic Key-Value (SET/GET/DEL/EXISTS)") (basic_commands seed)

  pub test_stage3_expiration : Option Text → State → StageResult × State
  test_stage3_expiration seed =
      run_stage 3 (codes "Stage 3: Expiration (SET ... PX <ms>)") (expiration seed)

  pub test_stage4_counters : Option Text → State → StageResult × State
  test_stage4_counters seed = run_stage 4 (codes "Stage 4: INCR & DECR Arithmetic") (counters seed)

  unfoldable pub run_all : Option Text → State → Summary × State
  unfolding ask expect echo_text get_seed_prefix is_line is_bulk_reply handshake key_value
      pipe_payload pipe_accepts check_pipe pipelining basic_commands wait expiration send_anyway
      counters run_stage test_stage1_handshake test_stage2_key_value test_stage3_expiration
      test_stage4_counters
  run_all seed s =
      let (r1, s1) = test_stage1_handshake seed s in
      let (r2, s2) = test_stage2_key_value seed s1 in
      let (r3, s3) = test_stage3_expiration seed s2 in
      let (r4, s4) = test_stage4_counters seed s3 in (summarize (r1 ∷ r2 ∷ r3 ∷ r4 ∷ []), s4)
