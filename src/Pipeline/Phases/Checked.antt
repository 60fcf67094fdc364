-- ===== src/Pipeline/Phases/Checked.antt =====
-- What `check_compliance` finds out.
use subdollar_llm_coding_ben.Base.{Bool, true, false, Bool, ◌≡◌, refl, Option, none, some}
use subdollar_llm_coding_ben.Text.{Text}
use subdollar_llm_coding_ben.Stage.{Result, ok, err}
use subdollar_llm_coding_ben.Stage.Returns.{Yields}
use subdollar_llm_coding_ben.Float.{F64}
use subdollar_llm_coding_ben.Compliance.Workspace.{Entries, check_no_frameworks}
use subdollar_llm_coding_ben.Pipeline.World.{World}
use subdollar_llm_coding_ben.Pipeline.Phases.{
  stop, bind_result, Step, stop_if_cancelled, stop_if, codes, check_compliance, report_compliance,
}

module _ (f : F64) (w : World f) where
  open w use {State}

  -- The reason agrees with the compliance checker's verdict on these files.
  abbrev pub IsVerdictOn : Entries → Option Text → Type 0
  IsVerdictOn es none = check_no_frameworks w.to_lowercase w.json_strings es ≡ ok tt
  IsVerdictOn es (some why) = check_no_frameworks w.to_lowercase w.json_strings es ≡ err why

  -- From state `s` the files are read behind the first line of the report.
  abbrev pub reads_at : State → State
  reads_at s =
      w.log (codes "[VERIFY] Checking anti-cheat compliance (no prebuilt frameworks/daemons)...") s

  abbrev pub IsVerdictAt : State → Option Text → Type 0
  IsVerdictAt s reason = IsVerdictOn (w.read_workspace (reads_at s)).0 reason

  pub check_compliance-IsVerdictAt : (s : State) → Yields (IsVerdictAt s) (check_compliance f w s)
  unfolding check_compliance report_compliance
  check_compliance-IsVerdictAt s = verdict _ refl
    where
      verdict :
          (r : Result (Unit {0}))
          → check_no_frameworks w.to_lowercase w.json_strings (w.read_workspace (reads_at s)).0 ≡ r
          → Yields (IsVerdictAt s) (report_compliance f w r (w.read_workspace (reads_at s)).1)
      verdict (ok u) e = e
      verdict (err why) e = e

  resume :
      {A : Type 0} (last : Step State (Unit {0})) (why : Text) (k : Unit {0} → Step State A)
      (Q : A → Type 0) (s : State) (cancelled : Bool)
      → Yields Q (k tt s)
      → Yields Q (bind_result k (stop_if f w last why cancelled s))
  unfolding stop_if
  resume last why k Q s false h = h
  resume last why k Q s true h = stopped (last s)
    where
      stopped :
          (r : Result (Unit {0}) × State)
          → Yields Q (bind_result k (bind_result (λ u. stop f w why) r))
      stopped (ok u, t) = tt
      stopped (err e, t) = tt

  -- A run goes on behind the question whether it is cancelled.
  pub Yields-stop_if_cancelled :
      {A : Type 0} (last : Step State (Unit {0})) (why : Text) (k : Unit {0} → Step State A)
      (Q : A → Type 0) (s : State)
      → Yields Q (k tt (w.is_cancelled s).1)
      → Yields Q (bind_result k (stop_if_cancelled f w last why s))
  unfolding stop_if_cancelled
  Yields-stop_if_cancelled last why k Q s h =
      resume last why k Q (w.is_cancelled s).1 (w.is_cancelled s).0 h
