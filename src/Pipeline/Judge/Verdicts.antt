-- ===== src/Pipeline/Judge/Verdicts.antt =====
-- What `judge` returns.
use mathlib.Core.Option.{some-ne-none}
use subdollar_llm_coding_ben.Base.{
  length, ℕ, ◌*◌, ◌≤◌, ◌≡◌, ◌↔◌, refl, sym, Bool, true, false, Option, none, some, List, [], ◌∷◌,
  if◌then◌else◌, arith,
}
use subdollar_llm_coding_ben.Text.{Text}
use subdollar_llm_coding_ben.Stage.{
  Result, Rate, Summary, StageResult, summarize, count_passed-le, bind_result, ◌>>=◌, ◌>>◌,
}
use subdollar_llm_coding_ben.Stage.Returns.{Returns, Yields, Yields-bind, Yields-after, Yields-any}
use subdollar_llm_coding_ben.Config.{TaskType, redis, http, dns, total_stages, default_port}
use subdollar_llm_coding_ben.Float.{F64, is_full}
use subdollar_llm_coding_ben.Pipeline.World.{World, BenchmarkConfig}
use subdollar_llm_coding_ben.Pipeline.Phases.{
  Judgement, unverified, cheating, return, unwrap_or_false,
}
use subdollar_llm_coding_ben.Pipeline.Judge.{
  report_ready, wait_ready, report_stages, diagnose_failures, Rates, no_rates, bench, load_test,
  judgement, verify_candidate, skip_verification, judge,
}

-- Passed and total stages fit the task, and the rate is at most 100 and full just where all passed.
abbrev pub IsFairCount : TaskType → Rate → ℕ → ℕ → Type 0
IsFairCount task rate passed total =
    (total ≡ total_stages task)
    × (passed ≤ total)
    × (rate.part ≤ 100 * rate.whole)
    × ((is_full rate ≡ true) ↔ (passed ≡ total))

-- A summary of a verifier.
abbrev pub IsFairSummary : TaskType → Summary → Type 0
IsFairSummary task s = IsFairCount task s.pass_rate s.passed_count s.total_stages

-- A summary of as many stages as the task has is fair.
pub summarize-IsFairSummary :
    (task : TaskType) (stages : List StageResult)
    → length stages ≡ total_stages task
    → IsFairSummary task (summarize stages)
unfolding summarize
summarize-IsFairSummary task stages h = (
  h,
  count_passed-le stages,
  omega (arith, count_passed-le stages),
  (λ e. ground arith, λ e. ground arith),
)

module _ (f : F64) where
  open f use {Num}

  abbrev pub IsFairJudgement : TaskType → Judgement f → Type 0
  IsFairJudgement task j = IsFairCount task j.pass_rate j.passed_stages j.total

  unverified-IsFair :
      (task : TaskType) (stages : List StageResult)
      → IsFairJudgement task (unverified f task stages)
  unverified-IsFair redis stages = ground arith
  unverified-IsFair http stages = ground arith
  unverified-IsFair dns stages = ground arith

  module _ (w : World f) where
    open w use {State}

    -- What is relied on of the verifiers: `verify` returns a fair summary.
    abbrev pub VerifiesFairly : Type 0
    VerifiesFairly =
        (task : TaskType) (port : ℕ) (seed : Text) (s : State)
        → IsFairSummary task (w.verify task port seed s).0

    -- Load is measured only at 100 %.
    abbrev RatesFit : Rate → Rates f w → Type 0
    RatesFit rate r = (tp : Num) → r.candidate ≡ some tp → is_full rate ≡ true

    bench-RatesFit : (task : TaskType) (rate : Rate) → Returns (bench f w task rate) (RatesFit rate)
    unfolding bench
    bench-RatesFit task rate s = fit (is_full rate) refl
      where
        fit :
            (b : Bool)
            → is_full rate ≡ b
            → Yields
                (RatesFit rate)
                ((if b then load_test f w task else return f w (no_rates f w)) s)
        fit true e = Yields-any (RatesFit rate) (load_test f w task s) (λ r tp k. e)
        fit false e = λ tp k. absurd (some-ne-none tp (sym k))

    -- A judgement is fair, and load was measured only at 100 %.
    pub record IsSound (task : TaskType) (j : Judgement f) : Type 0 where
      pub fair : IsFairJudgement task j
      pub measured : (tp : Num) → j.throughput ≡ some tp → is_full j.pass_rate ≡ true

    unverified-IsSound :
        (task : TaskType) (stages : List StageResult) → IsSound task (unverified f task stages)
    unverified-IsSound task stages = record {
      fair = unverified-IsFair task stages;
      measured = λ tp k. absurd (some-ne-none tp (sym k));
    }

    -- From the summary on.
    verified-IsSound :
        (c : BenchmarkConfig f) (summary : Summary) (said : Result (Unit {0}) × State)
        (diagnosed : State → Result (Unit {0}) × State)
        → IsFairSummary c.task summary
        → Yields (IsSound c.task) (
            bind_result
              (λ u.
                diagnosed
                >> (bench f w c.task summary.pass_rate >>= λ rates.
                    return f w (judgement f w summary rates)))
              said)
    verified-IsSound c summary said diagnosed fair = Yields-after _ (IsSound c.task) said (λ u s1.
        Yields-after _ (IsSound c.task) (diagnosed s1) (λ v s2.
          Yields-bind _ (RatesFit summary.pass_rate) (IsSound c.task)
            (bench f w c.task summary.pass_rate s2) (bench-RatesFit c.task summary.pass_rate s2)
            (λ rates s3 fit. record { fair = fair; measured = fit })))

    verify_candidate-IsSound :
        VerifiesFairly
        → (c : BenchmarkConfig f) (id seed : Text)
        → Returns (verify_candidate f w c id seed) (IsSound c.task)
    unfolding verify_candidate
    verify_candidate-IsSound law c id seed s =
        Yields-after _ (IsSound c.task) (wait_ready f w c.task seed _) (λ ready s1.
          Yields-after _ (IsSound c.task) (report_ready f w (default_port c.task) ready s1) (λ u s2.
            let (summary, s3) = w.verify c.task (default_port c.task) seed s2 in
            verified-IsSound c summary (report_stages f w summary.stages s3)
              (diagnose_failures f w id summary.pass_rate)
              (law c.task (default_port c.task) seed s2)))

    skip_verification-IsSound :
        (c : BenchmarkConfig f) (agent_failed : Bool)
        → Returns (skip_verification f w c agent_failed) (IsSound c.task)
    unfolding skip_verification
    skip_verification-IsSound c agent_failed s = unverified-IsSound c.task []

    pub judge-IsSound :
        VerifiesFairly
        → (c : BenchmarkConfig f) (id seed : Text) (agent_failed : Bool) (reason : Option Text)
        → Returns (judge f w c id seed agent_failed reason) (IsSound c.task)
    unfolding judge
    judge-IsSound law c id seed agent_failed (some why) s =
        unverified-IsSound c.task (cheating f why ∷ [])
    judge-IsSound law c id seed agent_failed none s =
        verified (unwrap_or_false (w.ensure_runnable_candidate id s).0)
          (w.ensure_runnable_candidate id s).1
      where
        verified :
            (b : Bool) (s1 : State)
            → Yields (IsSound c.task) (
                (if b then verify_candidate f w c id seed else skip_verification f w c agent_failed)
                  s1)
        verified true s1 = verify_candidate-IsSound law c id seed s1
        verified false s1 = skip_verification-IsSound c agent_failed s1

    -- A disqualified candidate is not verified.
    pub judge_disqualified :
        (c : BenchmarkConfig f) (id seed : Text) (agent_failed : Bool) (why : Text)
        → Returns
            (judge f w c id seed agent_failed (some why))
            (λ j. j ≡ unverified f c.task (cheating f why ∷ []))
    unfolding judge
    judge_disqualified c id seed agent_failed why s = refl
