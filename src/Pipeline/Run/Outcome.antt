-- ===== src/Pipeline/Run/Outcome.antt =====
-- What the output of `execute` is made of.
use subdollar_llm_coding_ben.Base.{◌≡◌, refl, sym, subst, Bool, Option}
use subdollar_llm_coding_ben.Text.{Text}
use subdollar_llm_coding_ben.Stage.Returns.{
  Returns, Yields, Yields-bind, Yields-run, Yields-after, Yields-weaken,
}
use subdollar_llm_coding_ben.Stage.{ok}
use subdollar_llm_coding_ben.Float.{F64}
use subdollar_llm_coding_ben.Sandbox.{instance_id}
use subdollar_llm_coding_ben.Pipeline.Seed.{hash_seed}
use subdollar_llm_coding_ben.Pipeline.World.{World, BenchmarkConfig}
use subdollar_llm_coding_ben.Pipeline.Phases.{
  AgentRun, Judgement, cancelled_by_user, run_agent, check_compliance, stop_if_cancelled,
}
use subdollar_llm_coding_ben.Pipeline.Phases.Checked.{
  IsVerdictAt, check_compliance-IsVerdictAt, Yields-stop_if_cancelled,
}
use subdollar_llm_coding_ben.Pipeline.Judge.{judge}
use subdollar_llm_coding_ben.Pipeline.Account.{
  Facts, PipelineOutput, is_some, account, finish, output_of,
}
use subdollar_llm_coding_ben.Pipeline.Account.Carries.{
  AreFactsOf, account-AreFactsOf, finish-output,
}
use subdollar_llm_coding_ben.Pipeline.Run.{
  Start, Tried, start, try_candidate, conclude, cancel_agent, execute,
}

module _ (f : F64) (w : World f) (c : BenchmarkConfig f) where
  open w use {State}

  -- The run from state `s` has started, its agent has run to its end, and now the run is in state `s'`, behind
  -- the question whether it is cancelled.
  pub record HasRunAgent (s s' : State) : Type 0 where
    pub begun : Start f w
    pub at_agent : State
    pub started : start f w c s ≡ (ok begun, at_agent)
    pub agent : AgentRun
    pub after : State
    pub ran : run_agent f w c (instance_id begun.run_id) begun.prompt at_agent ≡ (ok agent, after)
    pub now : s' ≡ (w.is_cancelled after).1

module _ (f : F64) (w : World f) (c : BenchmarkConfig f)
    (P : Option Text → Judgement f → Type 0) where
  open w use {State}

  -- What the judge guarantees, whatever it is called with.
  abbrev pub Judges : Type 0
  Judges =
      (id seed : Text) (agent_failed : Bool) (reason : Option Text)
      → Returns (judge f w c id seed agent_failed reason) (P reason)

  -- From state `s`, in which the agent is started: it runs to an end, the workspace is then checked, and
  -- the judgement is one for the verdict.
  record IsTried (st : Start f w) (s : State) (t : Tried f w) : Type 0 where
    after : State
    ran : run_agent f w c (instance_id st.run_id) st.prompt s ≡ (ok t.agent, after)
    verdict : IsVerdictAt f w (w.is_cancelled after).1 t.disqualification
    sound : P t.disqualification t.judged

  -- The output is that of facts which agree with the verdict on the workspace, as the agent left it, and
  -- with the judgement.
  pub record IsTraced (s : State) (out : PipelineOutput f) : Type 0 where
    pub reason : Option Text
    pub here : State
    pub has_run : HasRunAgent f w c s here
    pub checked : IsVerdictAt f w here reason
    pub facts : Facts f
    pub told : out ≡ output_of f w c facts
    pub same : facts.disqualified ≡ is_some reason
    pub judged : P reason facts.judged

  try_candidate-IsTried :
      Judges → (st : Start f w) (s : State) → Yields (IsTried st s) (try_candidate f w c st s)
  unfolding try_candidate
  try_candidate-IsTried law st s =
      let id = instance_id st.run_id in
      Yields-run _ (IsTried st s) (run_agent f w c id st.prompt s) (λ agent s1 e.
        Yields-stop_if_cancelled f w (cancel_agent f w id) cancelled_by_user _ (IsTried st s) s1 (
          Yields-bind _ (IsVerdictAt f w (w.is_cancelled s1).1) (IsTried st s)
            (check_compliance f w (w.is_cancelled s1).1)
            (check_compliance-IsVerdictAt f w (w.is_cancelled s1).1)
            (λ reason s3 checked.
              Yields-bind _ (P reason) (IsTried st s)
                (judge f w c id (hash_seed st.run_id) agent.failed reason s3)
                (law id (hash_seed st.run_id) agent.failed reason s3)
                (λ j s4 sound. record { after = s1; ran = e; verdict = checked; sound = sound }))))

  conclude-IsTraced :
      (s : State) (st : Start f w) (s1 : State)
      → start f w c s ≡ (ok st, s1)
      → (t : Tried f w) → IsTried st s1 t
      → Returns (conclude f w c st t) (IsTraced s)
  unfolding conclude
  conclude-IsTraced s st s1 started t ht s2 =
      Yields-after _ (IsTraced s) (stop_if_cancelled f w _ _ s2) (λ u s3.
        Yields-bind _ (AreFactsOf f w st.run_id t.agent (is_some t.disqualification) t.judged)
          (IsTraced s)
          (account f w c st.run_id st.started_at st.spend t.agent (is_some t.disqualification)
            t.judged s3)
          (account-AreFactsOf f w c st.run_id st.started_at st.spend t.agent
            (is_some t.disqualification) t.judged s3)
          (λ x s4 same.
            Yields-weaken (λ out. out ≡ output_of f w c x) (IsTraced s) (finish f w c x s4)
              (λ out told. record {
                reason = t.disqualification;
                here = (w.is_cancelled ht.after).1;
                has_run = record {
                  begun = st;
                  at_agent = s1;
                  started = started;
                  agent = t.agent;
                  after = ht.after;
                  ran = ht.ran;
                  now = refl;
                };
                checked = ht.verdict;
                facts = x;
                told = told;
                same = same.same_disqualified;
                judged = subst (P t.disqualification) (sym same.same_judged) ht.sound;
              })
              (finish-output f w c x s4)))

  pub execute-IsTraced : Judges → (s : State) → Yields (IsTraced s) (execute f w c s)
  unfolding execute
  execute-IsTraced law s = Yields-run _ (IsTraced s) (start f w c s) (λ st s1 started.
      Yields-bind _ (IsTried st s1) (IsTraced s) (try_candidate f w c st s1)
        (try_candidate-IsTried law st s1) (λ t s2 ht. conclude-IsTraced s st s1 started t ht s2))
