-- ===== src/Pipeline/Account/Carries.antt =====
-- What `account` and `finish` pass on.
use subdollar_llm_coding_ben.Base.{true, ◌≡◌, refl, Bool, Option}
use subdollar_llm_coding_ben.Text.{Text}
use subdollar_llm_coding_ben.Stage.Returns.{Returns, Yields-after}
use subdollar_llm_coding_ben.Float.{F64, below_full}
use subdollar_llm_coding_ben.Cost.Scores.{ZeroIsLe, calculate_throughput_score-below_full}
use subdollar_llm_coding_ben.Pipeline.World.{World, BenchmarkConfig}
use subdollar_llm_coding_ben.Pipeline.Phases.{AgentRun, Judgement}
use subdollar_llm_coding_ben.Pipeline.Account.{
  throughput_points, effective, Facts, account, finish, output_of, live_spend,
}

module _ (f : F64) (w : World f) where
  open f use {Num}
  open w use {State}

  -- The facts are about this run.
  pub record AreFactsOf (run_id : Text) (agent : AgentRun) (disqualified : Bool)
      (judged : Judgement f) (x : Facts f) : Type 0 where
    pub same_id : x.run_id ≡ run_id
    pub same_stats : x.stats ≡ agent.stats
    pub same_failed : x.agent_failed ≡ agent.failed
    pub same_disqualified : x.disqualified ≡ disqualified
    pub same_judged : x.judged ≡ judged

  pub account-AreFactsOf :
      (c : BenchmarkConfig f) (run_id started_at : Text) (init : Option Num) (agent : AgentRun)
      (disqualified : Bool) (judged : Judgement f)
      → Returns
          (account f w c run_id started_at init agent disqualified judged)
          (AreFactsOf run_id agent disqualified judged)
  unfolding account
  account-AreFactsOf c run_id started_at init agent disqualified judged s =
      Yields-after _ (AreFactsOf run_id agent disqualified judged) (live_spend f w c.api_key init _)
        (λ spent s1. record {
          same_id = refl;
          same_stats = refl;
          same_failed = refl;
          same_disqualified = refl;
          same_judged = refl;
        })

  pub finish-output :
      (c : BenchmarkConfig f) (x : Facts f)
      → Returns (finish f w c x) (λ out. out ≡ output_of f w c x)
  unfolding finish
  finish-output c x s = refl

module _ (f : F64) where
  pub throughput_points-below_full :
      ZeroIsLe f
      → (x : Facts f) → below_full x.judged.pass_rate ≡ true
      → throughput_points f x ≡ f.lit 0
  unfolding throughput_points
  throughput_points-below_full zero_le x h =
      calculate_throughput_score-below_full f zero_le x.judged.pass_rate (effective f x)
        x.judged.throughput x.judged.reference_throughput h
