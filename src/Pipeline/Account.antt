-- ===== src/Pipeline/Account.antt =====
-- src/pipeline.rs: sections 10 and 11 of `execute`, the accounting, the manifest, the leaderboard entry
-- and what is saved.
pub mod Carries
pub mod Endings
use subdollar_llm_coding_ben.Base.{
  ℕ, ◌+◌, ◌*◌, ◌/◌, ◌%◌, Bool, true, false, Option, none, some, List, [], ◌∷◌, ◌++◌, if◌then◌else◌,
  leb,
}
use subdollar_llm_coding_ben.Text.{Text, codes, show, word}
use subdollar_llm_coding_ben.Stage.{
  Result, ok, err, StageResult, Rate, Step, bind_result, ◌>>=◌, ◌>>◌,
}
use subdollar_llm_coding_ben.Config.{TaskType, task_name}
use subdollar_llm_coding_ben.Float.{F64, is_full, is_le}
use subdollar_llm_coding_ben.Cost.{
  whole, le, CostBreakdown, ModelPricing, for_model_async, compute_cost_with_cache,
  calculate_effective_cost, calculate_efficiency_score, calculate_throughput_score,
}
use subdollar_llm_coding_ben.Report.Leaderboard.{BenchmarkRunResult}
use subdollar_llm_coding_ben.Report.Language.{detect_language}
use subdollar_llm_coding_ben.Pipeline.World.{
  SessionStats, FileInfo, RunTokenUsage, BenchmarkConfig, RunManifest, World,
}
use subdollar_llm_coding_ben.Pipeline.Phases.{
  AgentRun, Judgement, query, lift, run, say, skip, return,
}

-- `status`
unfoldable pub status_of : Bool → Bool → Bool → Text
status_of disqualified full agent_failed =
    if disqualified
    then codes "disqualified_cheat"
    else if full
    then (if agent_failed then codes "agent_killed" else codes "completed")
    else if agent_failed
    then codes "agent_failed"
    else codes "failed_tests"

abbrev pub is_some {ℓ} : {A : Type ℓ} → Option A → Bool
is_some none = false
is_some (some a) = true

abbrev pub max : ℕ → ℕ → ℕ
max a b = if leb a b then b else a

-- `total_tokens.max(prompt_tokens + completion_tokens)`
unfoldable pub total_run_tokens : SessionStats → ℕ
total_run_tokens stats =
    max stats.total_tokens ((stats.prompt_tokens + stats.completion_tokens) % word)

module _ (f : F64) where
  open f use {Num, lit, of_nat, div, mul, sub, partial_cmp}

  -- `passed / total * 100.0`
  unfoldable pub percent : Rate → Num
  percent r = mul (div (of_nat (r.part / 100)) (of_nat r.whole)) (whole f 100)

  -- What the manifest and the leaderboard entry are made of.
  pub record Facts : Type 0 where
    pub run_id : Text
    pub started_at : Text
    pub completed_at : Text
    pub duration_seconds : Num
    pub stats : SessionStats
    pub agent_failed : Bool
    pub disqualified : Bool
    pub judged : Judgement f
    pub breakdown : CostBreakdown f
    pub cost_usd : Num
    pub language : Text
    pub files : List FileInfo

  unfoldable pub effective : Facts → Num
  effective x = calculate_effective_cost f x.cost_usd x.duration_seconds (total_run_tokens x.stats)

  unfoldable pub efficiency : Facts → Num
  unfolding effective
  efficiency x = calculate_efficiency_score f x.judged.pass_rate (effective x)

  unfoldable pub throughput_points : Facts → Num
  unfolding effective
  throughput_points x =
      calculate_throughput_score f x.judged.pass_rate (effective x) x.judged.throughput
        x.judged.reference_throughput

  unfoldable pub manifest_of : Text → BenchmarkConfig f → Facts → RunManifest f
  unfolding effective efficiency throughput_points
  manifest_of version c x = record {
    run_id = x.run_id;
    model = c.model;
    task = task_name c.task;
    status = status_of x.disqualified (is_full x.judged.pass_rate) x.agent_failed;
    language = x.language;
    effort = some c.effort;
    started_at = x.started_at;
    completed_at = x.completed_at;
    duration_seconds = x.duration_seconds;
    turns = some x.stats.steps_taken;
    pass_rate = x.judged.pass_rate;
    passed_stages = x.judged.passed_stages;
    total_stages = x.judged.total;
    stages = x.judged.stages;
    throughput_req_sec = x.judged.throughput;
    reference_throughput_req_sec = x.judged.reference_throughput;
    tokens = record {
      prompt_tokens = x.stats.prompt_tokens;
      cached_tokens = x.stats.cached_tokens;
      completion_tokens = x.stats.completion_tokens;
      total_tokens = total_run_tokens x.stats;
    };
    cost_usd = x.cost_usd;
    effective_cost_usd = some (effective x);
    savings_percent = x.breakdown.savings_percent;
    efficiency_score = efficiency x;
    throughput_score = some (throughput_points x);
    files = x.files;
    method_version = some version;
  }

  unfoldable pub result_of : Text → BenchmarkConfig f → Facts → BenchmarkRunResult f
  unfolding effective efficiency throughput_points
  result_of version c x = record {
    id = x.run_id;
    model = c.model;
    task = task_name c.task;
    language = x.language;
    effort = some c.effort;
    pass_rate = percent x.judged.pass_rate;
    passed_stages = x.judged.passed_stages;
    total_stages = x.judged.total;
    throughput_req_sec = x.judged.throughput;
    reference_throughput_req_sec = x.judged.reference_throughput;
    prompt_tokens = x.stats.prompt_tokens;
    cached_tokens = x.stats.cached_tokens;
    completion_tokens = x.stats.completion_tokens;
    total_cost_usd = x.cost_usd;
    effective_cost_usd = some (effective x);
    duration_seconds = some x.duration_seconds;
    turns = some x.stats.steps_taken;
    savings_percent = x.breakdown.savings_percent;
    efficiency_score = efficiency x;
    throughput_score = some (throughput_points x);
    timestamp = x.completed_at;
    method_version = some version;
  }

  pub record PipelineOutput : Type 0 where
    pub manifest : RunManifest f
    pub benchmark_result : BenchmarkRunResult f
    pub agent_failed : Bool
    pub disqualified : Bool

  module _ (w : World f) where
    open w use {State}

    -- The difference of two spends, if it is not negative.
    unfoldable pub spend_delta : Num → Option Num → Option Num
    spend_delta init none = none
    spend_delta init (some fin) = if le f init fin then some (sub fin init) else none

    unfoldable pub query_again : Text → Num → Step State (Option Num)
    unfolding spend_delta
    query_again key init = do
      run f w (w.sleep_millis 1500)
      fin ← query f w (some key)
      return f w (spend_delta init fin)

    unfoldable pub live_spend : Option Text → Option Num → Step State (Option Num)
    unfolding query_again
    live_spend (some key) (some init) = query_again key init
    live_spend (some key) none = return f w none
    live_spend none init = return f w none

    abbrev pub or_listed : Option Num → Num → Num
    or_listed (some spent) listed = spent
    or_listed none listed = listed

    unfoldable pub account :
        BenchmarkConfig f
        → Text
        → Text
        → Option Num
        → AgentRun
        → Bool
        → Judgement f
        → Step State Facts
    unfolding live_spend
    account c run_id started_at init agent disqualified judged = do
      let stats = agent.stats
      completed_at ← lift f w w.now_rfc3339
      duration_seconds ← lift f w w.elapsed
      pricing ← lift f w (for_model_async f w.to_lowercase w.parse_f64 w.fetch_catalog c.model)
      let breakdown =
          compute_cost_with_cache f pricing stats.prompt_tokens stats.cached_tokens
            stats.completion_tokens
      spent ← live_spend c.api_key init
      workdir ← lift f w w.read_workspace
      files ← lift f w w.scan_workspace_files
      return f w (record {
        run_id = run_id;
        started_at = started_at;
        completed_at = completed_at;
        duration_seconds = duration_seconds;
        stats = stats;
        agent_failed = agent.failed;
        disqualified = disqualified;
        judged = judged;
        breakdown = breakdown;
        cost_usd = or_listed spent breakdown.total_cost_usd;
        language = detect_language workdir;
        files = files;
      })

    unfoldable pub save : PipelineOutput → State → State
    save out s =
        let s1 = w.archive_run out.manifest (w.console_log s) s in
        w.export_portal 200 (w.save_result out.benchmark_result s1)

    unfoldable pub report_telemetry : BenchmarkConfig f → Facts → Step State (Unit {0})
    report_telemetry c x = say f w (
        codes "[TELEMETRY] turn="
        ++ (show x.stats.steps_taken
            ++ (codes " max_turns="
                ++ (show c.max_turns
                    ++ (codes " spent="
                        ++ (w.show_num 6 x.cost_usd
                            ++ (codes " tokens=" ++ show (total_run_tokens x.stats))))))))

    abbrev pub output_of : BenchmarkConfig f → Facts → PipelineOutput
    output_of c x = record {
      manifest = manifest_of w.version c x;
      benchmark_result = result_of w.version c x;
      agent_failed = x.agent_failed;
      disqualified = x.disqualified;
    }

    unfoldable pub finish : BenchmarkConfig f → Facts → Step State PipelineOutput
    unfolding report_telemetry save
    finish c x = do
      let out = output_of c x
      report_telemetry c x
      run f w (if c.save_results then save out else (λ s. s))
      return f w out
