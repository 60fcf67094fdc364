-- ===== src/Pipeline/Judge.antt =====
-- src/pipeline.rs: sections 7 and 8 of `execute`, the verification of the candidate and the load test.
pub mod Verdicts
pub mod Endings
pub mod Fairness
use subdollar_llm_coding_ben.Base.{
  ℕ, Bool, true, false, not, Option, none, some, List, [], ◌∷◌, ◌++◌, if◌then◌else◌,
}
use subdollar_llm_coding_ben.Text.{Text, codes, show}
use subdollar_llm_coding_ben.Stage.{
  Result, ok, err, StageResult, Rate, Summary, Step, bind_result, ◌>>=◌, ◌>>◌,
}
use subdollar_llm_coding_ben.Config.{TaskType, redis, http, dns, default_port}
use subdollar_llm_coding_ben.Float.{F64, is_full, below_full}
use subdollar_llm_coding_ben.Cost.{whole, gt}
use subdollar_llm_coding_ben.Pipeline.World.{World, BenchmarkConfig}
use subdollar_llm_coding_ben.Pipeline.Phases.{
  AgentRun, Judgement, unverified, cheating, reference_port, status_word, or_empty, unwrap_or_false,
  lift, run, say, skip, return,
}

module _ (f : F64) (w : World f) where
  open f use {Num, lit, div, mul}
  open w use {State}

  -- `wait_for_ready(25)` of the DNS verifier, `wait_for_port(port, 25)` else.
  unfoldable pub wait_ready : TaskType → Text → Step State Bool
  wait_ready dns seed = lift f w (w.wait_for_dns 5353 25 seed)
  wait_ready redis seed = lift f w (w.wait_for_port 6379 25)
  wait_ready http seed = lift f w (w.wait_for_port 8080 25)

  unfoldable pub report_ready : ℕ → Bool → Step State (Unit {0})
  report_ready port true = say f w (
      codes "[SETUP] Server on port " ++ (show port ++ codes " is online! Proceeding to verifier."))
  report_ready port false = say f w (
      codes "[WARN] Port "
      ++ (show port ++ codes " not responding within 25s timeout. Proceeding with verification."))

  unfoldable pub report_stages : List StageResult → Step State (Unit {0})
  report_stages [] = skip f w
  report_stages (s ∷ stages) =
      say f w (
        codes "  Stage "
        ++ (show s.stage
            ++ (codes ": "
                ++ (s.name
                    ++ (codes " -> "
                        ++ (status_word s.passed ++ (codes " " ++ or_empty s.error)))))))
      >> report_stages stages

  unfoldable pub report_lines : List Text → Step State (Unit {0})
  report_lines [] = skip f w
  report_lines (line ∷ lines) = say f w (codes "  | " ++ line) >> report_lines lines

  unfoldable pub diagnose : Text → Step State (Unit {0})
  unfolding report_lines
  diagnose id = do
    diag ← lift f w (w.candidate_logs id)
    say f w (codes "[DIAGNOSTICS] Candidate container runtime output:")
    report_lines diag

  unfoldable pub report_rate : Text → Option Num → Step State (Option Num)
  report_rate label none = return f w none
  report_rate label (some tp) = do
    say f w (label ++ (w.show_num 0 tp ++ codes " req/sec"))
    return f w (some tp)

  -- One load test; an error leaves no rate.
  unfoldable pub measure : TaskType → ℕ → Text → Step State (Option Num)
  unfolding report_rate
  measure task port label = lift f w (w.run_benchmark task port) >>= report_rate label

  pub record Rates : Type 0 where
    pub candidate : Option Num
    pub reference : Option Num

  abbrev pub no_rates : Rates
  no_rates = record { candidate = none; reference = none }

  unfoldable pub measure_both : TaskType → Text → Text → Step State Rates
  unfolding measure
  measure_both task calibrating reference_line = do
    tp ← measure task (default_port task) (codes "  Candidate Throughput: ")
    say f w calibrating
    ref_tp ← measure task (reference_port task) reference_line
    return f w (record { candidate = tp; reference = ref_tp })

  unfoldable pub measure_task : TaskType → Step State Rates
  unfolding measure_both
  measure_task redis =
      measure_both redis
        (codes "[BENCH] Calibrating live official Redis baseline (redis:alpine on port 6380)...")
        (codes "  Official Reference Redis: ")
  measure_task http =
      measure_both http
        (codes "[BENCH] Calibrating live official Nginx baseline (nginx:alpine on port 8081)...")
        (codes "  Official Reference Nginx: ")
  measure_task dns = return f w no_rates

  -- The line begins with two spaces, the sign U+26A1 and a space.
  unfoldable pub report_ratio : Rates → Step State (Unit {0})
  report_ratio r = elim r.candidate [
    | none ↦ skip f w
    | some cand_tp ↦ elim r.reference [
      | none ↦ skip f w
      | some ref_tp ↦
          let line =
            codes "  "
            ++ (0xE2
                ∷ 0x9A
                ∷ 0xA1
                ∷ (codes " Relative Performance: "
                    ++ (w.show_num 1 (mul (div cand_tp ref_tp) (whole f 100))
                        ++ codes "% of official reference"))) in
          if gt f ref_tp (lit 0) then say f w line else skip f w
    ]
  ]

  unfoldable pub load_test : TaskType → Step State Rates
  unfolding measure_task report_ratio
  load_test task = do
    say f w (codes "[BENCH] 100% tests passed! Running live throughput load test on candidate...")
    rates ← measure_task task
    report_ratio rates
    return f w rates

  -- The load test only at 100 %.
  unfoldable pub bench : TaskType → Rate → Step State Rates
  unfolding load_test
  bench task rate = if is_full rate then load_test task else return f w no_rates

  abbrev pub judgement : Summary → Rates → Judgement f
  judgement summary rates = record {
    pass_rate = summary.pass_rate;
    passed_stages = summary.passed_count;
    total = summary.total_stages;
    stages = summary.stages;
    throughput = rates.candidate;
    reference_throughput = rates.reference;
  }

  unfoldable pub diagnose_failures : Text → Rate → Step State (Unit {0})
  unfolding diagnose
  diagnose_failures id rate = if below_full rate then diagnose id else skip f w

  -- The candidate is started, awaited, verified and, at 100 %, measured.
  unfoldable pub verify_candidate : BenchmarkConfig f → Text → Text → Step State (Judgement f)
  unfolding wait_ready report_ready report_stages diagnose_failures bench
  verify_candidate c id seed = do
    let port = default_port c.task
    run f w (w.start_candidate port id)
    say f w (
        codes "[SETUP] Waiting for server port "
        ++ (show port ++ codes " to become ready (timeout: 25s)..."))
    ready ← wait_ready c.task seed
    report_ready port ready
    summary ← lift f w (w.verify c.task port seed)
    report_stages summary.stages
    diagnose_failures id summary.pass_rate
    rates ← bench c.task summary.pass_rate
    return f w (judgement summary rates)

  unfoldable pub no_candidate : Bool → Text
  no_candidate true =
      codes "[SETUP] Candidate did not produce runnable code. Skipping verification."
  no_candidate false =
      codes
        "[SETUP] No runnable start.sh or Dockerfile found in ./workspace! Skipping verification."

  unfoldable pub skip_verification : BenchmarkConfig f → Bool → Step State (Judgement f)
  unfolding no_candidate
  skip_verification c agent_failed = do
    say f w (no_candidate agent_failed)
    return f w (unverified f c.task [])

  unfoldable pub judge :
      BenchmarkConfig f → Text → Text → Bool → Option Text → Step State (Judgement f)
  unfolding verify_candidate skip_verification
  judge c id seed agent_failed disqualification = do
    has_runnable ← lift f w (w.ensure_runnable_candidate id)
    elim disqualification [
      | some reason ↦ return f w (unverified f c.task (cheating f reason ∷ []))
      | none ↦
          if unwrap_or_false has_runnable
          then verify_candidate c id seed
          else skip_verification c agent_failed
    ]
