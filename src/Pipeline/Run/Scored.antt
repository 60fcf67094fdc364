-- ===== src/Pipeline/Run/Scored.antt =====
-- The counts, the status and the scores in the output of `execute`.
use subdollar_llm_coding_ben.Base.{
  ◌≡◌, ◌≤◌, ◌↔◌, refl, sym, ap, ◌∙◌, subst, ◌*◌, true, false, Option, none, some, inl, inr, arith,
  Bool-cases,
}
use mathlib.Core.Bool.{false≢true}
use subdollar_llm_coding_ben.Text.{codes}
use subdollar_llm_coding_ben.Stage.{ok, Rate}
use subdollar_llm_coding_ben.Stage.Returns.{Yields-ok}
use subdollar_llm_coding_ben.Config.{total_stages}
use subdollar_llm_coding_ben.Float.{F64, is_full, below_full}
use subdollar_llm_coding_ben.Cost.Scores.{ZeroIsLe}
use subdollar_llm_coding_ben.Pipeline.World.{World, BenchmarkConfig, RunManifest}
use subdollar_llm_coding_ben.Pipeline.Judge.Verdicts.{VerifiesFairly, IsSound, judge-IsSound}
use subdollar_llm_coding_ben.Pipeline.Account.{Facts, PipelineOutput, manifest_of, output_of}
use subdollar_llm_coding_ben.Pipeline.Account.Carries.{throughput_points-below_full}
use subdollar_llm_coding_ben.Pipeline.Run.{execute}
use subdollar_llm_coding_ben.Pipeline.Run.Outcome.{IsTraced, execute-IsTraced}
use subdollar_llm_coding_ben.Pipeline.Run.Verdict.{status_of-completed}

below : (rate : Rate) → rate.part ≤ 100 * rate.whole → is_full rate ≡ false → below_full rate ≡ true
below rate le h = ground arith

module _ (f : F64) (w : World f) (c : BenchmarkConfig f) where
  open f use {Num, lit}
  open w use {State}

  traced :
      VerifiesFairly f w
      → (s : State) (out : PipelineOutput f) → (execute f w c s).0 ≡ ok out
      → IsTraced f w c (λ reason. IsSound f w c.task) s out
  traced law s out h =
      Yields-ok (IsTraced f w c (λ reason. IsSound f w c.task) s) (execute f w c s) out
        (execute-IsTraced f w c (λ reason. IsSound f w c.task) (judge-IsSound f w law c) s) h

  -- What the manifest says of a run.
  abbrev pub AreCounts : PipelineOutput f → Type 0
  AreCounts out =
      let m = out.manifest in
      (m.total_stages ≡ total_stages c.task)
      × (m.passed_stages ≤ m.total_stages)
      × ((m.status ≡ codes "completed") ↔ (
          (out.disqualified ≡ false)
          × (m.passed_stages ≡ m.total_stages)
          × (out.agent_failed ≡ false)))

  facts-AreCounts : (x : Facts f) → IsSound f w c.task x.judged → AreCounts (output_of f w c x)
  unfolding manifest_of
  facts-AreCounts x sound =
      let (total, le, rate, full) = sound.fair in
      let (to, from) =
        status_of-completed x.disqualified (is_full x.judged.pass_rate) x.agent_failed in
      (total, le, (λ e. let (a, b, d) = to e in (a, full.0 b, d), λ h. from (h.0, full.1 h.1, h.2)))

  -- If the verifiers' summaries are fair, a run's manifest has as many stages as its task, at most
  -- these passed, and the status "completed" exactly when the run was not disqualified, every
  -- stage passed and the agent did not fail.
  pub execute-AreCounts :
      VerifiesFairly f w
      → (s : State) (out : PipelineOutput f) → (execute f w c s).0 ≡ ok out
      → AreCounts out
  execute-AreCounts law s out h =
      let t = traced law s out h in subst AreCounts (sym t.told) (facts-AreCounts t.facts t.judged)

  abbrev IsPartial : RunManifest f → Type 0
  IsPartial m = ¬ (m.passed_stages ≡ m.total_stages)

  -- No load was measured, and the score is zero.
  abbrev pub IsUnscored : RunManifest f → Type 0
  IsUnscored m = (m.throughput_req_sec ≡ none) × (m.throughput_score ≡ some (lit 0))

  facts-IsUnscored :
      ZeroIsLe f
      → (x : Facts f) → IsSound f w c.task x.judged
      → IsPartial (manifest_of f w.version c x)
      → IsUnscored (manifest_of f w.version c x)
  unfolding manifest_of
  facts-IsUnscored zero_le x sound partial =
      let (total, le, rate, full) = sound.fair in
      elim (Bool-cases (is_full x.judged.pass_rate)) [
        | inl e ↦ absurd (partial (full.0 e))
        | inr e ↦ (
          no_load x.judged.throughput sound.measured e,
          ap some (throughput_points-below_full f zero_le x (below x.judged.pass_rate rate e)),
        )
      ]
    where
      no_load :
          (o : Option Num)
          → ((tp : Num) → o ≡ some tp → is_full x.judged.pass_rate ≡ true)
          → is_full x.judged.pass_rate ≡ false
          → o ≡ none
      no_load none measured e = refl
      no_load (some tp) measured e = absurd (false≢true (sym e ∙ measured tp refl))

  -- If the verifiers' summaries are fair and zero is at most zero in `f64`, a run of which not all
  -- stages passed has no throughput in the manifest, and a throughput score of zero.
  pub execute-IsUnscored :
      VerifiesFairly f w
      → ZeroIsLe f
      → (s : State) (out : PipelineOutput f) → (execute f w c s).0 ≡ ok out
      → ¬ (out.manifest.passed_stages ≡ out.manifest.total_stages)
      → IsUnscored out.manifest
  execute-IsUnscored law zero_le s out h partial =
      let t = traced law s out h in
      let same = ap (λ o. o.manifest) t.told in
      subst IsUnscored (sym same)
        (facts-IsUnscored zero_le t.facts t.judged (subst IsPartial same partial))
