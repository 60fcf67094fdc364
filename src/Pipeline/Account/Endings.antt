-- ===== src/Pipeline/Account/Endings.antt =====
-- The accounting does not fail, and what it leaves.
use subdollar_llm_coding_ben.Base.{Bool, Option, none, some, Bool-cases, inl, inr}
use subdollar_llm_coding_ben.Text.{Text}
use subdollar_llm_coding_ben.Stage.Returns.{Ends, Ends-bind}
use subdollar_llm_coding_ben.Float.{F64}
use subdollar_llm_coding_ben.Cost.{for_model_async}
use subdollar_llm_coding_ben.Cost.Scores.{for_model_async-keeps}
use subdollar_llm_coding_ben.Pipeline.World.{World, BenchmarkConfig}
use subdollar_llm_coding_ben.Pipeline.Phases.{AgentRun, Judgement, query}
use subdollar_llm_coding_ben.Pipeline.Phases.Endings.{Keeps, query-Ends}
use subdollar_llm_coding_ben.Pipeline.Account.{
  Facts, query_again, live_spend, account, save, report_telemetry, finish,
}

module _ (f : F64) (w : World f) (c : BenchmarkConfig f) (id : Text) (IsReleased : w.State → Type 0)
    (law : Keeps f w c id IsReleased) (E : Text → w.State → Type 0) where
  open f use {Num}
  open w use {State}

  abbrev IsClear : {A : Type 0} → A → State → Type 0
  IsClear a s = IsReleased s

  live_spend-Ends :
      (key : Option Text) (init : Option Num) (s : State)
      → IsReleased s
      → Ends IsClear E (live_spend f w key init s)
  unfolding live_spend query_again
  live_spend-Ends (some key) (some init) s h =
      Ends-bind _ IsClear IsClear E (query f w (some key) (w.sleep_millis 1500 s))
        (query-Ends f w c id IsReleased law E (some key) (w.sleep_millis 1500 s)
          (law.slept 1500 s h))
        (λ fin s1 h1. h1)
  live_spend-Ends (some key) none s h = h
  live_spend-Ends none (some init) s h = h
  live_spend-Ends none none s h = h

  priced-IsReleased :
      (s : State)
      → IsReleased s
      → IsReleased (for_model_async f w.to_lowercase w.parse_f64 w.fetch_catalog c.model s).1
  priced-IsReleased s h =
      for_model_async-keeps f w.to_lowercase w.parse_f64 w.fetch_catalog IsReleased law.fetched
        c.model s h

  pub account-Ends :
      (run_id started_at : Text) (init : Option Num) (agent : AgentRun) (disqualified : Bool)
      (judged : Judgement f) (s : State)
      → IsReleased s
      → Ends IsClear E (account f w c run_id started_at init agent disqualified judged s)
  unfolding account
  account-Ends run_id started_at init agent disqualified judged s h =
      Ends-bind _ IsClear IsClear E (live_spend f w c.api_key init _)
        (live_spend-Ends c.api_key init _ (priced-IsReleased _ (law.elapsed _ (law.timed s h))))
        (λ spent s1 h1. law.scanned _ (law.read _ h1))

  pub finish-Ends : (x : Facts f) (s : State) → IsReleased s → Ends IsClear E (finish f w c x s)
  unfolding finish report_telemetry save
  finish-Ends x s h = elim (Bool-cases c.save_results) [
    | inl e ↦ rw (e) (law.exported 200 _ (law.saved _ _ (law.archived _ _ _ (law.logged _ s h))))
    | inr e ↦ rw (e) (law.logged _ s h)
  ]
