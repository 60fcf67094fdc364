-- ===== src/Pipeline/World.antt =====
-- What src/pipeline.rs calls: the interface to sandbox, agent, verifiers, load tests, clock, file system
-- and OpenRouter, over a state that stands for the machine. The compliance checker, the prices and
--  the language detection are those of this library; the rest are operations of a `World`.
use subdollar_llm_coding_ben.Base.{ℕ, Bool, Option, List}
use subdollar_llm_coding_ben.Text.{Text}
use subdollar_llm_coding_ben.Stage.{Result, StageResult, Rate, Summary}
use subdollar_llm_coding_ben.Config.{TaskType}
use subdollar_llm_coding_ben.Float.{F64}
use subdollar_llm_coding_ben.Cost.{CatalogEntry}
use subdollar_llm_coding_ben.Compliance.Workspace.{Entries}
use subdollar_llm_coding_ben.Report.Leaderboard.{BenchmarkRunResult}

-- `OmpSessionStats` of src/sandbox/omp.rs.
pub record SessionStats : Type 0 where
  pub prompt_tokens : ℕ
  pub completion_tokens : ℕ
  pub cached_tokens : ℕ
  pub total_tokens : ℕ
  pub steps_taken : ℕ

-- How the agent's task ends: with its numbers, with an error that may carry partial ones, or not
-- joined.
pub data AgentOutcome : Type 0 where
  finished : SessionStats → AgentOutcome
  agent_error : Text → Option SessionStats → AgentOutcome
  join_error : Text → AgentOutcome

pub record FileInfo : Type 0 where
  pub name : Text
  pub size_bytes : ℕ

pub record RunTokenUsage : Type 0 where
  pub prompt_tokens : ℕ
  pub cached_tokens : ℕ
  pub completion_tokens : ℕ
  pub total_tokens : ℕ

module _ (f : F64) where
  open f use {Num}

  pub record AgentExecutionLimits : Type 0 where
    pub max_turns : Option ℕ
    pub max_budget_usd : Option Num
    pub timeout_seconds : Option ℕ

  pub record AgentRunSpec : Type 0 where
    pub model : Text
    pub prompt : Text
    pub api_key : Option Text
    pub limits : AgentExecutionLimits
    pub effort : Text
    pub network : Text

  pub record BenchmarkConfig : Type 0 where
    pub model : Text
    pub task : TaskType
    pub effort : Text
    pub max_turns : ℕ
    pub budget_usd : Num
    pub timeout_min : ℕ
    pub api_key : Option Text
    pub eval_only : Bool
    pub run_id : Option Text
    pub save_results : Bool

  -- The pass rate is a fraction; `env`, `git_commit` and `is_published` are empty here.
  pub record RunManifest : Type 0 where
    pub run_id : Text
    pub model : Text
    pub task : Text
    pub status : Text
    pub language : Text
    pub effort : Option Text
    pub started_at : Text
    pub completed_at : Text
    pub duration_seconds : Num
    pub turns : Option ℕ
    pub pass_rate : Rate
    pub passed_stages : ℕ
    pub total_stages : ℕ
    pub stages : List StageResult
    pub throughput_req_sec : Option Num
    pub reference_throughput_req_sec : Option Num
    pub tokens : RunTokenUsage
    pub cost_usd : Num
    pub effective_cost_usd : Option Num
    pub savings_percent : Num
    pub efficiency_score : Num
    pub throughput_score : Option Num
    pub files : List FileInfo
    pub method_version : Option Text

  -- `workdir`, `tasks` and `results` are places that the run's configuration fixes.
  pub record World : Type 1 where
    pub State : Type 0
    pub log : Text → State → State
    pub console_log : State → Text
    pub now_rfc3339 : State → Text × State
    pub now_compact : State → Text × State
    pub elapsed : State → Num × State
    pub sleep_millis : ℕ → State → State
    -- `remove_dir_all`, `create_dir_all` and `set_permissions` of the workspace
    pub prepare_workspace : State → Result (Unit {0}) × State
    pub read_workspace : State → Entries × State
    pub scan_workspace_files : State → List FileInfo × State
    pub read_prompt : Text → State → Result Text × State
    -- the flag of the caller, if there is one
    pub is_cancelled : State → Bool × State
    -- `SandboxManager` of the run, by its instance id
    pub ensure_network : Text → State → Result (Unit {0}) × State
    pub start_reference : TaskType → ℕ → Text → State → Result (Unit {0}) × State
    pub ensure_runnable_candidate : Text → State → Result Bool × State
    pub start_candidate : ℕ → Text → State → State
    pub wait_for_port : ℕ → ℕ → State → Bool × State
    pub candidate_logs : Text → State → List Text × State
    -- a command of docker and the removal of a file, whose answers are dropped, the directory of temporary
    -- files, and the number of the process: what the clean-up of a sandbox uses
    pub docker : List Text → State → State
    pub remove_file : Text → State → State
    pub temp_path : Text → Text
    pub process_id : ℕ
    pub run_agent : AgentRunSpec → State → AgentOutcome × State
    -- the verifiers of a task on a port, with a seed
    pub wait_for_dns : ℕ → ℕ → Text → State → Bool × State
    pub verify : TaskType → ℕ → Text → State → Summary × State
    pub run_benchmark : TaskType → ℕ → State → Option Num × State
    pub query_usage : Text → State → Option Num × State
    pub fetch_catalog : State → Option (List CatalogEntry) × State
    -- what is saved; errors are dropped
    pub archive_run : RunManifest → Text → State → State
    pub save_result : BenchmarkRunResult f → State → State
    pub export_portal : ℕ → State → State
    -- formats: a number with decimals, and the names that the standard library and others make
    pub show_num : ℕ → Num → Text
    pub to_lowercase : Text → Text
    pub json_strings : Text → Option (List Text)
    pub parse_f64 : Text → Option Num
    pub prompt_path : Text → Text
    pub version : Text
