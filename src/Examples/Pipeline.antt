-- ===== src/Examples/Pipeline.antt =====
-- Tests of src/pipeline.rs and src/sandbox/docker.rs on a small machine, and instances of the theorems.
use subdollar_llm_coding_ben.Base.{
  ◌↔◌, ◌≤◌, ◌++◌, length, arith, if◌then◌else◌, ◌*◌, ℕ, ◌+◌, ◌≡◌, refl, true, false, none, some,
  List, ◌∷◌, [],
}
use subdollar_llm_coding_ben.Text.{Text, codes, ascii_lower, show, text_eq}
use subdollar_llm_coding_ben.Stage.{
  Result, ok, err, StageResult, pass, fail, summarize, count_passed,
}
use subdollar_llm_coding_ben.Config.{TaskType, redis, http, dns}
use subdollar_llm_coding_ben.Compliance.Workspace.{
  Entries, nil, cons, file, check_no_frameworks, verdict, scan_dir,
}
use subdollar_llm_coding_ben.Sandbox.{instance_id, keep_safe, is_safe}
use subdollar_llm_coding_ben.Sandbox.Safe.{IsInstanceId, instance_id-IsInstanceId}
use subdollar_llm_coding_ben.Redis.Session.{get_seed_prefix}
use subdollar_llm_coding_ben.Pipeline.Seed.{hash_seed}
use subdollar_llm_coding_ben.Pipeline.Seed.Whole.{get_seed_prefix-hash_seed}
use subdollar_llm_coding_ben.Pipeline.World.{World, BenchmarkConfig, finished}
use subdollar_llm_coding_ben.Pipeline.Phases.Endings.{IsCause}
use subdollar_llm_coding_ben.Redis.Session.{Client}
use subdollar_llm_coding_ben.Http.Requests.{Web}
use subdollar_llm_coding_ben.Dns.Socket.{Network, receive_failed}
use subdollar_llm_coding_ben.Dns.Stages.{Burst}
use subdollar_llm_coding_ben.Redis.Stages as RedisStages
use subdollar_llm_coding_ben.Http.Stages as HttpStages
use subdollar_llm_coding_ben.Dns.Stages as DnsStages
use subdollar_llm_coding_ben.Pipeline.Judge.Verdicts.{VerifiesFairly, summarize-IsFairSummary}
use subdollar_llm_coding_ben.Pipeline.Phases.{
  id_or_new, choose_run_id, announce, prepare, report_network, set_up_network, stop_if,
  stop_if_cancelled, query, report_spend, initial_spend, report_reference, start_reference,
  or_unreadable, read_prompt, limits_of, spec_of, report_agent, spawn_agent, skip_agent, run_agent,
  report_compliance, check_compliance,
}
use subdollar_llm_coding_ben.Pipeline.Judge.{
  wait_ready, report_ready, report_stages, report_lines, diagnose, report_rate, measure,
  measure_both, measure_task, report_ratio, load_test, bench, diagnose_failures, verify_candidate,
  no_candidate, skip_verification, judge,
}
use subdollar_llm_coding_ben.Pipeline.Account.{
  PipelineOutput, status_of, effective, efficiency, throughput_points, manifest_of, result_of,
  spend_delta, query_again, live_spend, account, save, report_telemetry, finish,
}
use subdollar_llm_coding_ben.Pipeline.Run.{
  open_sandbox, start, cancel_agent, try_candidate, conclude, execute,
}
use subdollar_llm_coding_ben.Pipeline.Run.Stops.{execute-IsCause, execute_ok}
use subdollar_llm_coding_ben.Pipeline.Run.Outcome.{HasRunAgent}
use subdollar_llm_coding_ben.Pipeline.Phases.Checked.{reads_at}
use subdollar_llm_coding_ben.Sandbox.{instance_id, keep_safe, is_safe}
use subdollar_llm_coding_ben.Pipeline.Run.Verdict.{IsToldBy, execute-check_no_frameworks}
use subdollar_llm_coding_ben.Pipeline.Run.Scored.{
  AreCounts, IsUnscored, execute-AreCounts, execute-IsUnscored,
}
use subdollar_llm_coding_ben.Examples.Numbers.{decimals, decimals-ZeroIsLe, scale}

-- The stages that a server of each task passes; of the HTTP server's one fails.
abbrev stages_of : TaskType → List StageResult
stages_of redis = pass 1 [] ∷ pass 2 [] ∷ pass 3 [] ∷ pass 4 [] ∷ []
stages_of http = pass 1 [] ∷ pass 2 [] ∷ fail 3 [] [] ∷ pass 4 [] ∷ pass 5 [] ∷ []
stages_of dns = pass 1 [] ∷ pass 2 [] ∷ pass 3 [] ∷ pass 4 [] ∷ pass 5 [] ∷ pass 6 [] ∷ []

-- The state is the number of containers and networks. The prompt of DNS is missing.
abbrev prompt_of : Text → Result Text
prompt_of name =
    if text_eq name (codes "dns") then err (codes "not found") else ok (codes "Build a server.")

abbrev machine : Entries → World decimals
machine workdir = record {
  State = ℕ;
  log = λ t s. s;
  console_log = λ s. [];
  now_rfc3339 = λ s. (codes "2025-01-01T00:00:00Z", s);
  now_compact = λ s. (codes "20250101_000000", s);
  elapsed = λ s. (60 * scale, s);
  sleep_millis = λ n s. s;
  prepare_workspace = λ s. (ok tt, s);
  read_workspace = λ s. (workdir, s);
  scan_workspace_files = λ s. ([], s);
  read_prompt = λ task s. (prompt_of task, s);
  is_cancelled = λ s. (false, s);
  ensure_network = λ id s. (ok tt, s + 1);
  start_reference = λ task port id s. (ok tt, s + 1);
  ensure_runnable_candidate = λ id s. (ok true, s);
  start_candidate = λ port id s. s + 1;
  wait_for_port = λ port seconds s. (true, s);
  candidate_logs = λ id s. ([], s);
  docker = λ args s. 0;
  remove_file = λ path s. s;
  temp_path = λ name. codes "/tmp/" ++ name;
  process_id = 42;
  run_agent = λ spec s. (
    finished (record {
      prompt_tokens = 1000;
      completion_tokens = 500;
      cached_tokens = 0;
      total_tokens = 1500;
      steps_taken = 12;
    }),
    s,
  );
  wait_for_dns = λ port seconds seed s. (true, s);
  verify = λ task port seed s. (summarize (stages_of task), s);
  run_benchmark = λ task port s. (some (50000 * scale), s);
  query_usage = λ key s. (none, s);
  fetch_catalog = λ s. (none, s);
  archive_run = λ m t s. s;
  save_result = λ r s. s;
  export_portal = λ n s. s;
  show_num = λ n a. show a;
  to_lowercase = ascii_lower;
  json_strings = λ t. none;
  parse_f64 = λ t. none;
  prompt_path = λ task. task;
  version = codes "1";
}

abbrev config : TaskType → BenchmarkConfig decimals
config task = record {
  model = codes "openai/gpt-4o-mini";
  task = task;
  effort = codes "high";
  max_turns = 50;
  budget_usd = scale;
  timeout_min = 30;
  api_key = none;
  eval_only = false;
  run_id = some (codes "redis_1");
  save_results = true;
}

abbrev honest : World decimals
honest = machine nil

-- A script that starts a ready server.
abbrev cheating : World decimals
cheating = machine (cons (file (codes "start.sh") (some (codes "redis-server --port 6379"))) nil)

fair : VerifiesFairly decimals honest
fair redis port seed s = summarize-IsFairSummary redis (stages_of redis) refl
fair http port seed s = summarize-IsFairSummary http (stages_of http) refl
fair dns port seed s = summarize-IsFairSummary dns (stages_of dns) refl

-- A container or network of any name is there as long as one is.
abbrev IsPresent : Text → ℕ → Type 0
IsPresent name s = 1 ≤ s

execute_ok_example :
    (out : PipelineOutput decimals) × ((execute decimals honest (config http) 0).0 ≡ ok out)
unfolding text_eq
execute_ok_example =
    execute_ok decimals honest (config http) (λ s. refl) (λ s. refl)
      (λ s. (codes "Build a server.", refl)) 0

-- The run of the HTTP server; it has an output.
abbrev partial_run : PipelineOutput decimals
partial_run = elim (execute decimals honest (config http) 0).0 [
  | ok out ↦ out
  | err e ↦ execute_ok_example.0
]

has_run : (execute decimals honest (config http) 0).0 ≡ ok partial_run
unfolding id_or_new choose_run_id announce prepare report_network set_up_network stop_if
    stop_if_cancelled query report_spend initial_spend report_reference start_reference
    or_unreadable read_prompt limits_of spec_of report_agent spawn_agent skip_agent run_agent
    report_compliance check_compliance wait_ready report_ready report_stages report_lines diagnose
    report_rate measure measure_both measure_task report_ratio load_test bench diagnose_failures
    verify_candidate no_candidate skip_verification judge status_of effective efficiency
    throughput_points manifest_of result_of spend_delta query_again live_spend account save
    report_telemetry finish open_sandbox start cancel_agent try_candidate conclude execute text_eq
    summarize count_passed check_no_frameworks verdict scan_dir
has_run = refl

partial :
    (partial_run.manifest.passed_stages ≡ 4) × (partial_run.manifest.status ≡ codes "failed_tests")
unfolding id_or_new choose_run_id announce prepare report_network set_up_network stop_if
    stop_if_cancelled query report_spend initial_spend report_reference start_reference
    or_unreadable read_prompt limits_of spec_of report_agent spawn_agent skip_agent run_agent
    report_compliance check_compliance wait_ready report_ready report_stages report_lines diagnose
    report_rate measure measure_both measure_task report_ratio load_test bench diagnose_failures
    verify_candidate no_candidate skip_verification judge status_of effective efficiency
    throughput_points manifest_of result_of spend_delta query_again live_spend account save
    report_telemetry finish open_sandbox start cancel_agent try_candidate conclude execute text_eq
    summarize count_passed check_no_frameworks verdict scan_dir
partial = (refl, refl)

-- The run of the server of a cheat, up to its verdict.
banned_run :
    (out : PipelineOutput decimals) × ((execute decimals cheating (config redis) 0).0 ≡ ok out)
unfolding text_eq
banned_run =
    execute_ok decimals cheating (config redis) (λ s. refl) (λ s. refl)
      (λ s. (codes "Build a server.", refl)) 0

execute-check_no_frameworks_example :
    (here : ℕ) × HasRunAgent decimals cheating (config redis) 0 here
    × IsToldBy decimals cheating
        (config redis)
        banned_run.0
        (cheating.read_workspace (reads_at decimals cheating here)).0
execute-check_no_frameworks_example =
    execute-check_no_frameworks decimals cheating (config redis) 0 banned_run.0 banned_run.1

execute-AreCounts_example : AreCounts decimals honest (config http) partial_run
execute-AreCounts_example =
    execute-AreCounts decimals honest (config http) fair 0 partial_run has_run

not_all : ¬ (partial_run.manifest.passed_stages ≡ partial_run.manifest.total_stages)
unfolding id_or_new choose_run_id announce prepare report_network set_up_network stop_if
    stop_if_cancelled query report_spend initial_spend report_reference start_reference
    or_unreadable read_prompt limits_of spec_of report_agent spawn_agent skip_agent run_agent
    report_compliance check_compliance wait_ready report_ready report_stages report_lines diagnose
    report_rate measure measure_both measure_task report_ratio load_test bench diagnose_failures
    verify_candidate no_candidate skip_verification judge status_of effective efficiency
    throughput_points manifest_of result_of spend_delta query_again live_spend account save
    report_telemetry finish open_sandbox start cancel_agent try_candidate conclude execute text_eq
    summarize count_passed check_no_frameworks verdict scan_dir
not_all e = omega (arith, e)

execute-IsUnscored_example : IsUnscored decimals honest (config http) partial_run.manifest
execute-IsUnscored_example =
    execute-IsUnscored decimals honest (config http) fair decimals-ZeroIsLe 0 partial_run has_run
      not_all

-- The prompt of DNS cannot be read, and two things are left.
unread : execute decimals honest (config dns) 0 ≡ (err (codes "Could not read prompt file: dns"), 2)
unfolding id_or_new choose_run_id announce prepare report_network set_up_network stop_if
    stop_if_cancelled query report_spend initial_spend report_reference start_reference
    or_unreadable read_prompt limits_of spec_of report_agent spawn_agent skip_agent run_agent
    report_compliance check_compliance wait_ready report_ready report_stages report_lines diagnose
    report_rate measure measure_both measure_task report_ratio load_test bench diagnose_failures
    verify_candidate no_candidate skip_verification judge status_of effective efficiency
    throughput_points manifest_of result_of spend_delta query_again live_spend account save
    report_telemetry finish open_sandbox start cancel_agent try_candidate conclude execute text_eq
    summarize count_passed check_no_frameworks verdict scan_dir
unread = refl

execute-IsCause_example :
    IsCause decimals honest
      (config dns)
      (codes "redis_1")
      (codes "Could not read prompt file: dns")
      2
unfolding choose_run_id id_or_new instance_id keep_safe is_safe
execute-IsCause_example =
    execute-IsCause decimals honest (config dns) (codes "redis_1") 0
      (codes "Could not read prompt file: dns") 2 refl unread

-- A server that answers nothing, for each verifier.
abbrev mute_redis : Client
mute_redis = record {
  State = ℕ;
  connect = λ s. (err (codes "refused"), s);
  send = λ args s. (err (codes "refused"), s);
  pipeline = λ payload s. (none, s);
  sleep = λ ns s. s;
}

abbrev mute_http : Web
mute_http = record { State = ℕ; send = λ r s. (err (codes "refused"), s); status_text = show }

abbrev mute_dns : Network
mute_dns = record {
  State = ℕ;
  bind = λ s. (none, s);
  send_to = λ bytes s. (none, s);
  recv_from = λ s. (receive_failed (codes "refused"), s);
}

abbrev mute_burst : Burst mute_dns
mute_burst = record { burst = λ queries s. ([], s) }

instance_id-IsInstanceId_example :
    IsInstanceId (instance_id (codes "redis/a b;rm"))
    × ((instance_id (codes "redis/a b;rm") ≡ codes "redis/a b;rm")
        ↔ IsInstanceId (codes "redis/a b;rm"))
instance_id-IsInstanceId_example = instance_id-IsInstanceId (codes "redis/a b;rm")

cleaned_id : instance_id (codes "redis/a b;rm") ≡ codes "redisabrm"
unfolding instance_id keep_safe is_safe
cleaned_id = refl

get_seed_prefix-hash_seed_example :
    (length (hash_seed (codes "redis_1")) ≡ 8)
    × (get_seed_prefix (some (hash_seed (codes "redis_1"))) (codes "test")
        ≡ hash_seed (codes "redis_1"))
get_seed_prefix-hash_seed_example = get_seed_prefix-hash_seed (codes "redis_1") (codes "test")
