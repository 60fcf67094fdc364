-- ===== src/Pipeline/Run/Verdict.antt =====
-- What the output of `execute` says of the candidate: its disqualification, its status and its counts.
use mathlib.Core.Bool.{false≢true}
use subdollar_llm_coding_ben.Base.{
  ◌≡◌, ◌↔◌, refl, sym, ap, ◌∙◌, Bool, true, false, Option, none, some, [], ◌∷◌, inl, inr, ◌⊎◌,
}
use subdollar_llm_coding_ben.Text.{Text, codes}
use subdollar_llm_coding_ben.Stage.{Result, ok, err}
use subdollar_llm_coding_ben.Stage.Returns.{Yields-any, Returns, Yields-ok}
use subdollar_llm_coding_ben.Float.{F64, is_full}
use subdollar_llm_coding_ben.Compliance.Workspace.{Entries, check_no_frameworks}
use subdollar_llm_coding_ben.Pipeline.World.{World, BenchmarkConfig}
use subdollar_llm_coding_ben.Pipeline.Phases.{Judgement, unverified, cheating}
use subdollar_llm_coding_ben.Pipeline.Phases.Checked.{IsVerdictAt, reads_at}
use subdollar_llm_coding_ben.Pipeline.Judge.Verdicts.{judge_disqualified}
use subdollar_llm_coding_ben.Pipeline.Judge.{judge}
use subdollar_llm_coding_ben.Pipeline.Account.{PipelineOutput, status_of, is_some, manifest_of}
use subdollar_llm_coding_ben.Pipeline.Run.{execute}
use subdollar_llm_coding_ben.Pipeline.Run.Outcome.{HasRunAgent, IsTraced, execute-IsTraced}

-- When a run is "completed".
pub status_of-completed :
    (disqualified full failed : Bool)
    → (status_of disqualified full failed ≡ codes "completed")
      ↔ ((disqualified ≡ false) × (full ≡ true) × (failed ≡ false))
unfolding status_of
status_of-completed true full failed = (λ e. absurd cc, λ h. absurd (false≢true (sym h.0)))
status_of-completed false true true = (λ e. absurd cc, λ h. absurd (false≢true (sym h.2)))
status_of-completed false true false = (λ e. (refl, refl, refl), λ h. refl)
status_of-completed false false true = (λ e. absurd cc, λ h. absurd (false≢true h.1))
status_of-completed false false false = (λ e. absurd cc, λ h. absurd (false≢true h.1))

module _ (f : F64) (w : World f) (c : BenchmarkConfig f) where
  open w use {State}

  -- The judgement of a disqualified run is fixed.
  abbrev IsCheating : Option Text → Judgement f → Type 0
  IsCheating none j = Unit
  IsCheating (some why) j = j ≡ unverified f c.task (cheating f why ∷ [])

  judge-IsCheating :
      (id seed : Text) (agent_failed : Bool) (reason : Option Text)
      → Returns (judge f w c id seed agent_failed reason) (IsCheating reason)
  judge-IsCheating id seed agent_failed none s =
      Yields-any (IsCheating none) (judge f w c id seed agent_failed none s) (λ j. tt)
  judge-IsCheating id seed agent_failed (some why) s =
      judge_disqualified f w c id seed agent_failed why s

  -- The checker passed these files, and the run is not disqualified.
  abbrev pub IsCleared : PipelineOutput f → Result (Unit {0}) → Type 0
  IsCleared out verdict = (verdict ≡ ok tt) × (out.disqualified ≡ false)

  -- The checker found `why`: nothing was verified, and the only stage says why.
  abbrev pub IsBanned : PipelineOutput f → Result (Unit {0}) → Text → Type 0
  IsBanned out verdict why =
      (verdict ≡ err why)
      × (out.disqualified ≡ true)
      × (out.manifest.status ≡ codes "disqualified_cheat")
      × (out.manifest.passed_stages ≡ 0)
      × (out.manifest.throughput_req_sec ≡ none)
      × (out.manifest.stages ≡ cheating f why ∷ [])

  -- What the output says, given what was read.
  abbrev pub IsToldBy : PipelineOutput f → Entries → Type 0
  IsToldBy out files =
      let verdict = check_no_frameworks w.to_lowercase w.json_strings files in
      IsCleared out verdict ⊎ ((why : Text) × IsBanned out verdict why)

  told_so :
      (s : State) (out : PipelineOutput f) (t : IsTraced f w c IsCheating s out)
      → IsToldBy out (w.read_workspace (reads_at f w t.here)).0
  unfolding status_of manifest_of
  told_so s out t = by_reason t.reason t.checked t.same t.judged
    where
      by_reason :
          (reason : Option Text)
          → IsVerdictAt f w t.here reason
          → t.facts.disqualified ≡ is_some reason
          → IsCheating reason t.facts.judged
          → IsToldBy out (w.read_workspace (reads_at f w t.here)).0
      by_reason none checked same judged = inl (checked, ap (λ o. o.disqualified) t.told ∙ same)
      by_reason (some why) checked same judged = inr (
        why,
        (
          checked,
          ap (λ o. o.disqualified) t.told ∙ same,
          ap (λ o. o.manifest.status) t.told
              ∙ ap (λ d. status_of d (is_full t.facts.judged.pass_rate) t.facts.agent_failed) same,
          ap (λ o. o.manifest.passed_stages) t.told ∙ ap (λ j. j.passed_stages) judged,
          ap (λ o. o.manifest.throughput_req_sec) t.told ∙ ap (λ j. j.throughput) judged,
          ap (λ o. o.manifest.stages) t.told ∙ ap (λ j. j.stages) judged,
        ),
      )

  -- A run with an output has started, its agent has run to its end (or was skipped, as the configuration
  -- says), and only then the workspace was read, in the state that the agent left, behind the question
  -- whether the run is cancelled and one line of the log. Either the compliance checker accepts what
  -- was read there and the run is not disqualified; or it rejects that, and then the run is
  -- disqualified with this status, no stage passed, no throughput, and the checker's reason as its
  -- only stage.
  pub execute-check_no_frameworks :
      (s : State) (out : PipelineOutput f)
      → (execute f w c s).0 ≡ ok out
      → (here : State) × HasRunAgent f w c s here
        × IsToldBy out (w.read_workspace (reads_at f w here)).0
  execute-check_no_frameworks s out h =
      let t =
        Yields-ok (IsTraced f w c IsCheating s) (execute f w c s) out
          (execute-IsTraced f w c IsCheating judge-IsCheating s) h in
      (t.here, t.has_run, told_so s out t)
