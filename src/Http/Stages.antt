-- ===== src/Http/Stages.antt =====
-- src/verifier/http.rs: `HttpVerifier`, its five stages and `run_all`.
pub mod Leaks
pub mod Passing
use subdollar_llm_coding_ben.Base.{
  ℕ, Bool, true, false, ◌&&◌, ◌||◌, Option, none, some, List, [], ◌∷◌, ◌++◌, ◌==◌, if◌then◌else◌,
}
use subdollar_llm_coding_ben.Text.{Text, codes, contains, text_eq}
use subdollar_llm_coding_ben.Stage.{
  Result, ok, err, StageResult, stage_result, Step, bind_result, ◌>>=◌, ◌>>◌, ensure, Summary,
  summarize,
}
use subdollar_llm_coding_ben.Redis.Session.{get_seed_prefix}
use subdollar_llm_coding_ben.Http.Requests.{
  post, Request, Response, Web, get_request, url_of, request, expect_status, expect_plain_text,
  expect_length, expect_body,
}

abbrev pub traversal_payloads : List Text
traversal_payloads =
    codes "../../../../etc/passwd" ∷ codes "../start.sh" ∷ codes "..%2F..%2Fetc%2Fpasswd" ∷ []

-- `resp.text().await.unwrap_or_default()`
abbrev pub body_or_default : Result Text → Text
body_or_default (ok text) = text
body_or_default (err e) = []

pub leaks : Response → Bool
leaks resp =
    let body = body_or_default resp.body in
    resp.status == 200
    && (contains body (codes "root:")
        || contains body (codes "#!/bin")
        || contains body (codes "exec "))

pub echo_word : Option Text → Text
echo_word seed =
    let prefix = get_seed_prefix seed (codes "test") in
    if text_eq prefix (codes "test") then codes "subdollar_speed_test" else codes "echo_" ++ prefix

abbrev pub agent : Text
agent = codes "SubDollarBench-Agent/1.0"

abbrev pub file_name : Text → Text
file_name seed_prefix = codes "bench_" ++ (seed_prefix ++ codes ".txt")

abbrev pub file_content : Text → Text
file_content seed_prefix = codes "SubDollarBench payload " ++ seed_prefix

module _ (w : Web) (lower : Text → Text) (port : ℕ) where
  open w use {State, send}

  pub ask_root : Step State (Unit {0})
  ask_root = do
    resp ← request w lower [] (get_request port (codes "/"))
    expect_status w lower 200 (codes "Expected 200 OK, got ") resp

  pub ask_missing_route : Step State (Unit {0})
  ask_missing_route = do
    resp ← request w lower [] (get_request port (codes "/nonexistent-route-1234"))
    expect_status w lower 404 (codes "Expected 404 Not Found, got ") resp

  pub ask_echo : Option Text → Step State (Unit {0})
  ask_echo seed = do
    let word = echo_word seed
    resp ← request w lower [] (get_request port (codes "/echo/" ++ word))
    expect_status w lower 200 (codes "Expected 200 OK, got ") resp
    expect_plain_text w lower resp
    expect_length w lower word resp
    expect_body w lower (codes "Body didn't match '") word (codes "', got: '") resp

  pub agent_request : Request
  agent_request = record (get_request port (codes "/user-agent")) { user_agent = some agent }

  pub ask_user_agent : Step State (Unit {0})
  unfolding agent_request
  ask_user_agent = do
    resp ← request w lower [] agent_request
    expect_status w lower 200 (codes "Expected 200 OK, got ") resp
    expect_plain_text w lower resp
    expect_length w lower agent resp
    expect_body w lower (codes "Expected UA '") agent (codes "', got '") resp

  pub post_request : Text → Request
  post_request seed_prefix = record {
    method = post (file_content seed_prefix);
    url = url_of port (codes "/files/" ++ file_name seed_prefix);
    user_agent = none;
  }

  pub store_file : Text → Step State (Unit {0})
  unfolding post_request
  store_file seed_prefix = do
    resp ← request w lower (codes "POST error: ") (post_request seed_prefix)
    expect_status w lower 201 (codes "POST /files expected 201 Created, got status: ") resp

  pub read_file : Text → Step State (Unit {0})
  read_file seed_prefix = do
    resp ← request w lower [] (get_request port (codes "/files/" ++ file_name seed_prefix))
    expect_status w lower 200 (codes "GET /files failed with status: ") resp
    expect_length w lower (file_content seed_prefix) resp
    expect_body w lower (codes "File content mismatch! Expected '") (file_content seed_prefix)
        (codes "', got '") resp

  pub ask_missing_file : Text → Step State (Unit {0})
  ask_missing_file seed_prefix = do
    resp ←
        request w lower (codes "GET missing file error: ")
          (get_request port (codes "/files/missing_" ++ (seed_prefix ++ codes ".txt")))
    expect_status w lower 404 (codes "Expected 404 Not Found for missing file, got ") resp

  -- A request that fails is let pass.
  pub judge_traversal : Text → Result Response × State → Result (Unit {0}) × State
  unfolding leaks
  judge_traversal payload (err e, s) = (ok tt, s)
  judge_traversal payload (ok resp, s) =
      if leaks resp
      then (
        err (
            codes "Security failure: server allows directory traversal ("
            ++ (payload ++ codes ") leaking sensitive content")),
        s,
      )
      else (ok tt, s)

  pub try_traversals : List Text → Step State (Unit {0})
  unfolding judge_traversal
  try_traversals [] s = (ok tt, s)
  try_traversals (payload ∷ payloads) s =
      bind_result (λ _. try_traversals payloads)
        (judge_traversal payload (send (get_request port (codes "/files/" ++ payload)) s))

  pub store_and_read : Option Text → Step State (Unit {0})
  store_and_read seed = do
    let seed_prefix = get_seed_prefix seed (codes "artifact")
    store_file seed_prefix
    read_file seed_prefix
    ask_missing_file seed_prefix
    try_traversals traversal_payloads

  pub judge_stage : ℕ → Text → Step State (Unit {0}) → State → StageResult × State
  judge_stage n name body s = let (r, s') = body s in (stage_result n name r, s')

  pub test_stage1_root : State → StageResult × State
  test_stage1_root = judge_stage 1 (codes "Stage 1: GET / (Root 200 OK)") ask_root

  pub test_stage2_not_found : State → StageResult × State
  test_stage2_not_found = judge_stage 2 (codes "Stage 2: 404 Not Found Handling") ask_missing_route

  pub test_stage3_echo : Option Text → State → StageResult × State
  test_stage3_echo seed = judge_stage 3 (codes "Stage 3: GET /echo/{str}") (ask_echo seed)

  pub test_stage4_user_agent : State → StageResult × State
  test_stage4_user_agent =
      judge_stage 4 (codes "Stage 4: GET /user-agent Header Echo") ask_user_agent

  pub test_stage5_file_storage : Option Text → State → StageResult × State
  test_stage5_file_storage seed =
      judge_stage 5 (codes "Stage 5: POST & GET /files/{filename}") (store_and_read seed)

  unfoldable pub run_all : Option Text → State → Summary × State
  unfolding test_stage1_root test_stage2_not_found test_stage3_echo test_stage4_user_agent
      test_stage5_file_storage
  run_all seed s =
      let (r1, s1) = test_stage1_root s in
      let (r2, s2) = test_stage2_not_found s1 in
      let (r3, s3) = test_stage3_echo seed s2 in
      let (r4, s4) = test_stage4_user_agent s3 in
      let (r5, s5) = test_stage5_file_storage seed s4 in
      (summarize (r1 ∷ r2 ∷ r3 ∷ r4 ∷ r5 ∷ []), s5)
