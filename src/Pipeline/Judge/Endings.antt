-- ===== src/Pipeline/Judge/Endings.antt =====
-- The judge does not fail.
use subdollar_llm_coding_ben.Base.{
  ◌++◌, ℕ, Bool, true, false, Option, none, some, List, [], ◌∷◌, Bool-cases, inl, inr,
}
use subdollar_llm_coding_ben.Text.{Text}
use subdollar_llm_coding_ben.Stage.{Result, StageResult, Rate, Step}
use subdollar_llm_coding_ben.Stage.Returns.{Ends, Ends-bind}
use subdollar_llm_coding_ben.Config.{TaskType, redis, http, dns, default_port}
use subdollar_llm_coding_ben.Float.{F64, is_full, below_full}
use subdollar_llm_coding_ben.Cost.{gt}
use subdollar_llm_coding_ben.Pipeline.World.{World, BenchmarkConfig}
use subdollar_llm_coding_ben.Pipeline.Phases.{unwrap_or_false}
use subdollar_llm_coding_ben.Pipeline.Judge.{
  show, reference_port, codes, bind_result, Rates, wait_ready, report_ready, report_stages,
  report_lines, diagnose, diagnose_failures, report_rate, measure, measure_both, measure_task,
  report_ratio, load_test, bench, verify_candidate, skip_verification, judge,
}

module _ (f : F64) (w : World f) (E : Text → w.State → Type 0) where
  open f use {Num, lit}
  open w use {State}

  abbrev IsAny : {A : Type 0} → A → State → Type 0
  IsAny a s = Unit

  -- `Ends-bind` where nothing is asked of the first value.
  both :
      {A B : Type 0} (k : A → Step State B) (r : Result A × State)
      → Ends IsAny E r
      → ((a : A) (s : State) → Ends IsAny E (k a s))
      → Ends IsAny E (bind_result k r)
  both k r h hk = Ends-bind k IsAny IsAny E r h (λ a s u. hk a s)

  wait_ready-Ends :
      (task : TaskType) (seed : Text) (s : State) → Ends IsAny E (wait_ready f w task seed s)
  unfolding wait_ready
  wait_ready-Ends redis seed s = tt
  wait_ready-Ends http seed s = tt
  wait_ready-Ends dns seed s = tt

  report_ready-Ends : (port : ℕ) (b : Bool) (s : State) → Ends IsAny E (report_ready f w port b s)
  unfolding report_ready
  report_ready-Ends port true s = tt
  report_ready-Ends port false s = tt

  report_stages-Ends :
      (stages : List StageResult) (s : State) → Ends IsAny E (report_stages f w stages s)
  unfolding report_stages
  report_stages-Ends [] s = tt
  report_stages-Ends (x ∷ stages) s = report_stages-Ends stages _

  report_lines-Ends : (lines : List Text) (s : State) → Ends IsAny E (report_lines f w lines s)
  unfolding report_lines
  report_lines-Ends [] s = tt
  report_lines-Ends (x ∷ lines) s = report_lines-Ends lines _

  diagnose_failures-Ends :
      (id : Text) (r : Rate) (s : State) → Ends IsAny E (diagnose_failures f w id r s)
  unfolding diagnose_failures diagnose
  diagnose_failures-Ends id r s = elim (Bool-cases (below_full r)) [
    | inl e ↦ rw (e) (report_lines-Ends (w.candidate_logs id s).0 _)
    | inr e ↦ rw (e) tt
  ]

  report_rate-Ends :
      (label : Text) (o : Option Num) (s : State) → Ends IsAny E (report_rate f w label o s)
  unfolding report_rate
  report_rate-Ends label none s = tt
  report_rate-Ends label (some tp) s = tt

  measure-Ends :
      (task : TaskType) (port : ℕ) (label : Text) (s : State)
      → Ends IsAny E (measure f w task port label s)
  unfolding measure
  measure-Ends task port label s = report_rate-Ends label (w.run_benchmark task port s).0 _

  measure_both-Ends :
      (task : TaskType) (calibrating line : Text) (s : State)
      → Ends IsAny E (measure_both f w task calibrating line s)
  unfolding measure_both
  measure_both-Ends task calibrating line s =
      let label = codes "  Candidate Throughput: " in
      both {B = Rates f w} _ (measure f w task (default_port task) label s)
        (measure-Ends task _ label s)
        (λ tp s1.
          let s2 = w.log calibrating s1 in
          both {B = Rates f w} _ (measure f w task (reference_port task) line s2)
            (measure-Ends task _ line s2) (λ ref s3. tt))

  measure_task-Ends : (task : TaskType) (s : State) → Ends IsAny E (measure_task f w task s)
  unfolding measure_task
  measure_task-Ends redis s = measure_both-Ends redis _ (codes "  Official Reference Redis: ") s
  measure_task-Ends http s = measure_both-Ends http _ (codes "  Official Reference Nginx: ") s
  measure_task-Ends dns s = tt

  report_ratio-Ends : (r : Rates f w) (s : State) → Ends IsAny E (report_ratio f w r s)
  unfolding report_ratio
  report_ratio-Ends r s = outcome r.candidate r.reference
    where
      outcome :
          (a b : Option Num)
          → Ends IsAny E (report_ratio f w (record { candidate = a; reference = b }) s)
      outcome none b = tt
      outcome (some tp) none = tt
      outcome (some tp) (some ref) = elim (Bool-cases (gt f ref (lit 0))) [
        | inl e ↦ rw (e) tt
        | inr e ↦ rw (e) tt
      ]

  load_test-Ends : (task : TaskType) (s : State) → Ends IsAny E (load_test f w task s)
  unfolding load_test
  load_test-Ends task s =
      let s0 =
        w.log (codes "[BENCH] 100% tests passed! Running live throughput load test on candidate...")
          s in
      both {B = Rates f w} _ (measure_task f w task s0) (measure_task-Ends task s0) (λ rates s1.
        both {B = Rates f w} _ (report_ratio f w rates s1) (report_ratio-Ends rates s1)
          (λ u s2. tt))

  bench-Ends : (task : TaskType) (rate : Rate) (s : State) → Ends IsAny E (bench f w task rate s)
  unfolding bench
  bench-Ends task rate s = elim (Bool-cases (is_full rate)) [
    | inl e ↦ rw (e) (load_test-Ends task s)
    | inr e ↦ rw (e) tt
  ]

  verify_candidate-Ends :
      (c : BenchmarkConfig f) (id seed : Text) (s : State)
      → Ends IsAny E (verify_candidate f w c id seed s)
  unfolding verify_candidate
  verify_candidate-Ends c id seed s =
      let port = default_port c.task in
      let s0 =
        w.log
          (codes "[SETUP] Waiting for server port "
            ++ (show port ++ codes " to become ready (timeout: 25s)..."))
          (w.start_candidate port id s) in
      both _ (wait_ready f w c.task seed s0) (wait_ready-Ends c.task seed s0) (λ ready s1.
        both _ (report_ready f w port ready s1) (report_ready-Ends port ready s1) (λ u s2.
          let (sm, s3) = w.verify c.task port seed s2 in
          both _ (report_stages f w sm.stages s3) (report_stages-Ends sm.stages s3) (λ v s4.
            both _ (diagnose_failures f w id sm.pass_rate s4)
              (diagnose_failures-Ends id sm.pass_rate s4)
              (λ x s5.
                both _ (bench f w c.task sm.pass_rate s5) (bench-Ends c.task sm.pass_rate s5)
                  (λ rates s6. tt)))))

  pub judge-Ends :
      (c : BenchmarkConfig f) (id seed : Text) (agent_failed : Bool) (reason : Option Text)
      (s : State)
      → Ends IsAny E (judge f w c id seed agent_failed reason s)
  unfolding judge skip_verification
  judge-Ends c id seed agent_failed (some why) s = tt
  judge-Ends c id seed agent_failed none s =
      elim (Bool-cases (unwrap_or_false (w.ensure_runnable_candidate id s).0)) [
        | inl e ↦ rw (e) (verify_candidate-Ends c id seed (w.ensure_runnable_candidate id s).1)
        | inr e ↦ rw (e) tt
      ]
