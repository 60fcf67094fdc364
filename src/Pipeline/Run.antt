-- ===== src/Pipeline/Run.antt =====
-- src/pipeline.rs: `BenchmarkPipeline::execute`.
pub mod Outcome
pub mod Cleanup
pub mod Stops
pub mod Verdict
pub mod Scored
use subdollar_llm_coding_ben.Base.{Bool, Option, none, some, ◌++◌}
use subdollar_llm_coding_ben.Text.{Text, codes}
use subdollar_llm_coding_ben.Stage.{Result, ok, err, Step, bind_result, ◌>>=◌, ◌>>◌}
use subdollar_llm_coding_ben.Float.{F64}
use subdollar_llm_coding_ben.Sandbox.{instance_id}
use subdollar_llm_coding_ben.Pipeline.Seed.{hash_seed}
use subdollar_llm_coding_ben.Pipeline.World.{World, BenchmarkConfig}
use subdollar_llm_coding_ben.Pipeline.Phases.{
  AgentRun, Judgement, lift, clean_up, run, say, skip, return, cancelled_by_user, choose_run_id,
  announce, prepare, set_up_network, stop_if_cancelled, initial_spend, start_reference, read_prompt,
  run_agent, check_compliance,
}
use subdollar_llm_coding_ben.Pipeline.Judge.{judge}
use subdollar_llm_coding_ben.Pipeline.Account.{PipelineOutput, is_some, account, finish}

module _ (f : F64) (w : World f) where
  open w use {State}
  open f use {Num}

  -- Up to the prompt: what the rest of a run reads.
  pub record Start : Type 0 where
    pub run_id : Text
    pub started_at : Text
    pub spend : Option Num
    pub prompt : Text

  -- The sandbox's network and the reference server.
  unfoldable pub open_sandbox : BenchmarkConfig f → Text → Step State (Option Num)
  open_sandbox c id = do
    set_up_network f w id
    stop_if_cancelled f w (run f w (clean_up f w id)) cancelled_by_user
    spend ← initial_spend f w c
    start_reference f w c id
    return f w spend

  unfoldable pub start : BenchmarkConfig f → Step State Start
  unfolding open_sandbox
  start c = do
    started_at ← lift f w w.now_rfc3339
    run_id ← choose_run_id f w c
    announce f w c run_id
    prepare f w c
    spend ← open_sandbox c (instance_id run_id)
    prompt ← read_prompt f w c
    return f w (record { run_id = run_id; started_at = started_at; spend = spend; prompt = prompt })

  -- Cancelled behind the agent: the containers go.
  unfoldable pub cancel_agent : Text → Step State (Unit {0})
  cancel_agent id =
      say f w (codes "[PIPELINE] Execution cancelled by user. Terminating sandbox containers...")
      >> run f w (clean_up f w id)

  pub record Tried : Type 0 where
    pub agent : AgentRun
    pub disqualification : Option Text
    pub judged : Judgement f

  -- From the agent to the clean-up.
  unfoldable pub try_candidate : BenchmarkConfig f → Start → Step State Tried
  unfolding cancel_agent
  try_candidate c st = do
    let id = instance_id st.run_id
    agent ← run_agent f w c id st.prompt
    stop_if_cancelled f w (cancel_agent id) cancelled_by_user
    disqualification ← check_compliance f w
    judged ← judge f w c id (hash_seed st.run_id) agent.failed disqualification
    run f w (clean_up f w id)
    return f w (record { agent = agent; disqualification = disqualification; judged = judged })

  -- Behind the clean-up.
  unfoldable pub conclude : BenchmarkConfig f → Start → Tried → Step State (PipelineOutput f)
  conclude c st t = do
    stop_if_cancelled f w (say f w (codes "[PIPELINE] Run cancelled before archiving."))
        (codes "Benchmark run cancelled by user")
    facts ←
        account f w c st.run_id st.started_at st.spend t.agent (is_some t.disqualification) t.judged
    finish f w c facts

  unfoldable pub execute : BenchmarkConfig f → Step State (PipelineOutput f)
  unfolding open_sandbox start try_candidate conclude
  execute c = do st ← start c; t ← try_candidate c st; conclude c st t
