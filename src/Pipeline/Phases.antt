-- ===== src/Pipeline/Phases.antt =====
-- src/pipeline.rs: the parts of `execute` up to the clean-up, in the order in which it takes them.
pub mod Checked
pub mod Endings
use subdollar_llm_coding_ben.Base.{
  ℕ, ◌+◌, ◌*◌, ◌%◌, Bool, true, false, not, ◌&&◌, ◌||◌, Option, none, some, List, [], ◌∷◌, ◌++◌,
  map, ◌==◌, if◌then◌else◌, ltb,
}
use subdollar_llm_coding_ben.Text.{Text, codes, show, word}
use subdollar_llm_coding_ben.Stage.{
  Result, ok, err, StageResult, Rate, Summary, Step, bind_result, ◌>>=◌, ◌>>◌,
}
use subdollar_llm_coding_ben.Config.{
  TaskType, redis, http, dns, total_stages, default_port, task_name,
}
use subdollar_llm_coding_ben.Float.{F64, is_gt, is_full, below_full}
use subdollar_llm_coding_ben.Cost.{whole, gt}
use subdollar_llm_coding_ben.Compliance.Workspace.{check_no_frameworks}
use subdollar_llm_coding_ben.Sandbox.{cleanup, instance_id, network_name}
use subdollar_llm_coding_ben.Pipeline.World.{
  SessionStats, AgentOutcome, finished, agent_error, join_error, AgentExecutionLimits, AgentRunSpec,
  BenchmarkConfig, World,
}

abbrev pub no_stats : SessionStats
no_stats = record {
  prompt_tokens = 0;
  completion_tokens = 0;
  cached_tokens = 0;
  total_tokens = 0;
  steps_taken = 0;
}

pub record AgentRun : Type 0 where
  pub stats : SessionStats
  pub failed : Bool

abbrev pub or_no_stats : Option SessionStats → SessionStats
or_no_stats none = no_stats
or_no_stats (some stats) = stats

-- `Option<u32>` and `Option<u64>` of a limit.
abbrev pub if_positive : ℕ → Option ℕ
if_positive n = if ltb 0 n then some n else none

abbrev pub unwrap_or_false : Result Bool → Bool
unwrap_or_false (ok b) = b
unwrap_or_false (err e) = false

abbrev pub cancelled_by_user : Text
cancelled_by_user = codes "Benchmark run was cancelled by user"

-- `'/'` and `':'` become `_`.
abbrev pub file_name_of : Text → Text
file_name_of = map (λ c. if c == b'/' || c == b':' then b'_' else c)

-- The port of the reference server.
abbrev pub reference_port : TaskType → ℕ
reference_port redis = 6380
reference_port http = 8081
reference_port dns = 5354

abbrev pub reference_label : TaskType → Text
reference_label redis = codes "Redis"
reference_label http = codes "HTTP"
reference_label dns = codes "DNS"

abbrev pub status_word : Bool → Text
status_word true = codes "PASS"
status_word false = codes "FAIL"

abbrev pub or_empty : Option Text → Text
or_empty none = []
or_empty (some t) = t

module _ (f : F64) where
  open f use {Num, lit, div, mul}

  -- What section 7 of `execute` leaves.
  pub record Judgement : Type 0 where
    pub pass_rate : Rate
    pub passed_stages : ℕ
    pub total : ℕ
    pub stages : List StageResult
    pub throughput : Option Num
    pub reference_throughput : Option Num

  -- A run that is not verified.
  abbrev pub unverified : TaskType → List StageResult → Judgement
  unverified task stages = record {
    pass_rate = record { part = 0; whole = 1 };
    passed_stages = 0;
    total = total_stages task;
    stages = stages;
    throughput = none;
    reference_throughput = none;
  }

  abbrev pub cheating : Text → StageResult
  cheating reason = record {
    stage = 0;
    name = codes "Anti-Cheat Compliance";
    passed = false;
    error = some reason;
  }

  module _ (w : World f) where
    open w use {State}

    -- An operation that cannot fail, and one that only changes the state.
    abbrev pub lift : {A : Type 0} → (State → A × State) → Step State A
    lift m s = let (a, s') = m s in (ok a, s')

    abbrev pub run : (State → State) → Step State (Unit {0})
    run m s = (ok tt, m s)

    abbrev pub say : Text → Step State (Unit {0})
    say message = run (w.log message)

    abbrev pub skip : Step State (Unit {0})
    skip s = (ok tt, s)

    abbrev pub return : {A : Type 0} → A → Step State A
    return a s = (ok a, s)

    abbrev pub stop : {A : Type 0} → Text → Step State A
    stop why s = (err why, s)

    -- `sandbox.cleanup()`
    unfoldable pub clean_up : Text → State → State
    clean_up = cleanup w.docker w.remove_file w.temp_path w.process_id

    unfoldable pub id_or_new : BenchmarkConfig f → Option Text → Step State Text
    id_or_new c (some id) = return id
    id_or_new c none = lift (w.now_compact) >>= λ now.
        return (task_name c.task ++ (codes "_" ++ (file_name_of c.model ++ (codes "_" ++ now))))

    unfoldable pub choose_run_id : BenchmarkConfig f → Step State Text
    unfolding id_or_new
    choose_run_id c = id_or_new c c.run_id

    unfoldable pub announce : BenchmarkConfig f → Text → Step State (Unit {0})
    announce c run_id = say (
        codes "[PIPELINE] Starting benchmark run '"
        ++ (run_id
            ++ (codes "' (Model: "
                ++ (c.model
                    ++ (codes ", Task: "
                        ++ (task_name c.task
                            ++ (codes ", Effort: "
                                ++ (c.effort
                                    ++ (codes ", Budget: $"
                                        ++ (w.show_num 2 c.budget_usd ++ codes ")"))))))))))

    unfoldable pub prepare : BenchmarkConfig f → Step State (Unit {0})
    prepare c = if c.eval_only then skip else w.prepare_workspace

    unfoldable pub report_network : Text → Result (Unit {0}) → Step State (Unit {0})
    report_network id (ok u) = say (
        codes "[SETUP] Private run network '"
        ++ (network_name id ++ codes "' ready (reference aliases: ref-redis / ref-http / ref-dns)"))
    report_network id (err e) = say (
        codes "[SETUP] Warning: could not create run network: "
        ++ (e ++ codes ". Reference servers may be unavailable."))

    unfoldable pub set_up_network : Text → Step State (Unit {0})
    unfolding report_network
    set_up_network id = lift (w.ensure_network id) >>= report_network id

    -- A cancelled run ends with the message; before that `last` is done.
    unfoldable pub stop_if : Step State (Unit {0}) → Text → Bool → Step State (Unit {0})
    stop_if last why true = last >> stop why
    stop_if last why false = skip

    unfoldable pub stop_if_cancelled : Step State (Unit {0}) → Text → Step State (Unit {0})
    unfolding stop_if
    stop_if_cancelled last why = lift w.is_cancelled >>= stop_if last why

    unfoldable pub query : Option Text → Step State (Option Num)
    query none = return none
    query (some key) = lift (w.query_usage key)

    unfoldable pub report_spend : Option Num → Step State (Unit {0})
    report_spend none = skip
    report_spend (some init) =
        say
          (codes "[ACCOUNT] OpenRouter initial key spend: $" ++ (w.show_num 4 init ++ codes " USD"))

    unfoldable pub initial_spend : BenchmarkConfig f → Step State (Option Num)
    unfolding query report_spend
    initial_spend c = do spend ← query c.api_key; report_spend spend; return spend

    unfoldable pub report_reference : TaskType → Result (Unit {0}) → Step State (Unit {0})
    report_reference task (ok u) = skip
    report_reference task (err e) = say (
        codes "[SETUP] Warning: reference "
        ++ (reference_label task ++ (codes " unavailable: " ++ e)))

    unfoldable pub start_reference : BenchmarkConfig f → Text → Step State (Unit {0})
    unfolding report_reference
    start_reference c id = do
      say (codes "[SETUP] Starting official reference server in Docker...")
      lift (w.start_reference c.task (reference_port c.task) id) >>= report_reference c.task

    unfoldable pub or_unreadable : TaskType → Result Text → Step State Text
    or_unreadable task (ok prompt) = return prompt
    or_unreadable task (err e) =
        stop (codes "Could not read prompt file: " ++ w.prompt_path (task_name task))

    unfoldable pub read_prompt : BenchmarkConfig f → Step State Text
    unfolding or_unreadable
    read_prompt c = lift (w.read_prompt (task_name c.task)) >>= or_unreadable c.task

    unfoldable pub limits_of : BenchmarkConfig f → AgentExecutionLimits f
    limits_of c = record {
      max_turns = if_positive c.max_turns;
      max_budget_usd = if gt f c.budget_usd (lit 0) then some c.budget_usd else none;
      timeout_seconds = if ltb 0 c.timeout_min then some (c.timeout_min * 60 % word) else none;
    }

    unfoldable pub spec_of : BenchmarkConfig f → Text → Text → AgentRunSpec f
    unfolding limits_of
    spec_of c id prompt = record {
      model = c.model;
      prompt = prompt;
      api_key = c.api_key;
      limits = limits_of c;
      effort = c.effort;
      network = network_name id;
    }

    unfoldable pub report_agent : AgentOutcome → Step State AgentRun
    report_agent (finished stats) = do
      say (
          codes "[OMP] Finished! Tokens: prompt="
          ++ (show stats.prompt_tokens
              ++ (codes ", cached="
                  ++ (show stats.cached_tokens
                      ++ (codes ", completion=" ++ show stats.completion_tokens)))))
      return (record { stats = stats; failed = false })
    report_agent (agent_error e partial) = do
      say (codes "[OMP ERROR] Agent execution failed: " ++ e)
      return (record { stats = or_no_stats partial; failed = true })
    report_agent (join_error e) = do
      say (codes "[OMP ERROR] Task execution error: " ++ e)
      return (record { stats = no_stats; failed = true })

    unfoldable pub spawn_agent : BenchmarkConfig f → Text → Text → Step State AgentRun
    unfolding spec_of report_agent
    spawn_agent c id prompt = do
      say (
          codes "[OMP] Spawning OMP agent inside isolated Docker sandbox with model '"
          ++ (c.model ++ (codes "' (Effort: " ++ (c.effort ++ codes ")..."))))
      lift (w.run_agent (spec_of c id prompt)) >>= report_agent

    unfoldable pub skip_agent : Step State AgentRun
    skip_agent = do
      say (codes "[OMP] Skipped (--eval-only)")
      return (record { stats = no_stats; failed = false })

    unfoldable pub run_agent : BenchmarkConfig f → Text → Text → Step State AgentRun
    unfolding spawn_agent skip_agent
    run_agent c id prompt = if c.eval_only then skip_agent else spawn_agent c id prompt

    -- The reason for which a run is disqualified.
    unfoldable pub report_compliance : Result (Unit {0}) → Step State (Option Text)
    report_compliance (ok u) = do say (codes "[VERIFY] Anti-cheat compliance passed."); return none
    report_compliance (err violation) = do
      say (codes "[ANTI-CHEAT VIOLATION] " ++ violation)
      return (some violation)

    unfoldable pub check_compliance : Step State (Option Text)
    unfolding report_compliance
    check_compliance = do
      say (codes "[VERIFY] Checking anti-cheat compliance (no prebuilt frameworks/daemons)...")
      workdir ← lift w.read_workspace
      report_compliance (check_no_frameworks w.to_lowercase w.json_strings workdir)
