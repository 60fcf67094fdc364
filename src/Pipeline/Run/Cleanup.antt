-- ===== src/Pipeline/Run/Cleanup.antt =====
-- How `execute` ends: a run without output has a cause, and what is left in the sandbox.
use subdollar_llm_coding_ben.Base.{◌≡◌, refl, ap, true}
use subdollar_llm_coding_ben.Text.{Text}
use subdollar_llm_coding_ben.Stage.{ok}
use subdollar_llm_coding_ben.Stage.Returns.{Ends, Ends-bind}
use subdollar_llm_coding_ben.Float.{F64}
use subdollar_llm_coding_ben.Sandbox.{instance_id}
use subdollar_llm_coding_ben.Pipeline.Seed.{hash_seed}
use subdollar_llm_coding_ben.Pipeline.World.{World, BenchmarkConfig}
use subdollar_llm_coding_ben.Pipeline.Phases.{
  clean_up, run, cancelled_by_user, choose_run_id, announce, prepare, set_up_network,
  stop_if_cancelled, initial_spend, start_reference, read_prompt, run_agent, check_compliance,
}
use subdollar_llm_coding_ben.Pipeline.Phases.Endings.{
  Releases, IsStopped, cleaned_at, terminating, not_archived, was_cancelled_early,
  was_cancelled_behind_agent, was_cancelled_late, choose_run_id-Ends, announce-Ends, prepare-Ends,
  stop_if_cancelled-Ends, set_up_network-Ends, initial_spend-Ends, start_reference-Ends,
  read_prompt-Ends, run_agent-Ends, check_compliance-Ends,
}
use subdollar_llm_coding_ben.Pipeline.Judge.{judge}
use subdollar_llm_coding_ben.Pipeline.Judge.Endings.{judge-Ends}
use subdollar_llm_coding_ben.Pipeline.Account.{account, is_some}
use subdollar_llm_coding_ben.Pipeline.Account.Endings.{account-Ends, finish-Ends}
use subdollar_llm_coding_ben.Pipeline.Run.{
  open_sandbox, Start, Tried, start, cancel_agent, try_candidate, conclude, execute,
}

module _ (f : F64) (w : World f) (c : BenchmarkConfig f) (run_id : Text)
    (IsReleased : w.State → Type 0) (law : Releases f w c (instance_id run_id) IsReleased) where
  open w use {State}

  abbrev own : Text
  own = instance_id run_id

  -- How the parts end: with an error that has a cause, or else loose, or clear.
  abbrev Stops : Text → State → Type 0
  Stops = IsStopped f w c own IsReleased

  abbrev Loose : {A : Type 0} → A → State → Type 0
  Loose a s = Unit

  abbrev Clear : {A : Type 0} → A → State → Type 0
  Clear a s = IsReleased s

  -- Cancelled before the agent.
  stopped_early :
      (id : Text)
      → id ≡ own
      → (s : State) → (w.is_cancelled s).0 ≡ true
      → Stops cancelled_by_user (clean_up f w id (w.is_cancelled s).1)
  stopped_early id same s e =
      let (here, released) =
        cleaned_at f w c own IsReleased law id same (w.is_cancelled s).1 _ refl in
      (was_cancelled_early s e refl here, λ other. released)

  -- Cancelled while the agent ran.
  stopped_behind_agent :
      (id : Text)
      → id ≡ own
      → (s : State) → (w.is_cancelled s).0 ≡ true
      → Stops cancelled_by_user (clean_up f w id (w.log terminating (w.is_cancelled s).1))
  stopped_behind_agent id same s e =
      let (here, released) =
        cleaned_at f w c own IsReleased law id same (w.log terminating (w.is_cancelled s).1) _
          refl in
      (was_cancelled_behind_agent s e refl here, λ other. released)

  cancel_agent_runs :
      (id : Text) (s : State)
      → cancel_agent f w id s ≡ (ok tt, clean_up f w id (w.log terminating s))
  unfolding cancel_agent
  cancel_agent_runs id s = refl

  -- From the network to the prompt.
  opened-Ends : (id : Text) → id ≡ own → (s : State) → Ends Loose Stops (open_sandbox f w c id s)
  unfolding open_sandbox
  opened-Ends id same s =
      Ends-bind _ Loose Loose Stops (set_up_network f w id s)
        (set_up_network-Ends f w c own Stops id s)
        (λ a s1 u.
          Ends-bind _ Loose Loose Stops
            (stop_if_cancelled f w (run f w (clean_up f w id)) cancelled_by_user s1)
            (stop_if_cancelled-Ends f w c own IsReleased law _ cancelled_by_user s1 _ (λ s'. Unit)
              tt refl (stopped_early id same s1))
            (λ b s2 v.
              Ends-bind _ Loose Loose Stops (initial_spend f w c s2)
                (initial_spend-Ends f w c own Stops s2)
                (λ spend s3 x.
                  Ends-bind _ Loose Loose Stops (start_reference f w c id s3)
                    (start_reference-Ends f w c own Stops id s3) (λ d s4 y. tt))))

  start-Ends :
      (s : State)
      → IsReleased s
      → (choose_run_id f w c (w.now_rfc3339 s).1).0 ≡ ok run_id
      → Ends (λ st s1. st.run_id ≡ run_id) Stops (start f w c s)
  unfolding start
  start-Ends s h chosen =
      Ends-bind _ (λ id s1. (id ≡ run_id) × IsReleased s1) (λ st s1. st.run_id ≡ run_id) Stops
        (choose_run_id f w c _)
        (choose_run_id-Ends f w c own IsReleased law run_id _ (law.keeps.timed s h) chosen)
        (λ id s1 (same, h1).
          Ends-bind _ Clear (λ st s2. st.run_id ≡ run_id) Stops (announce f w c id s1)
            (announce-Ends f w c own IsReleased law id s1 h1)
            (λ a s2 h2.
              Ends-bind _ Clear (λ st s3. st.run_id ≡ run_id) Stops (prepare f w c s2)
                (prepare-Ends f w c own IsReleased law s2 h2)
                (λ b s3 h3.
                  Ends-bind _ Loose (λ st s4. st.run_id ≡ run_id) Stops
                    (open_sandbox f w c (instance_id id) s3)
                    (opened-Ends (instance_id id) (ap instance_id same) s3)
                    (λ spend s4 u.
                      Ends-bind _ Loose (λ st s5. st.run_id ≡ run_id) Stops (read_prompt f w c s4)
                        (read_prompt-Ends f w c own IsReleased law s4) (λ prompt s5 v. same)))))

  try_candidate-Ends :
      (st : Start f w) (s : State)
      → st.run_id ≡ run_id
      → Ends Clear Stops (try_candidate f w c st s)
  unfolding try_candidate
  try_candidate-Ends st s same =
      let id = instance_id st.run_id in
      Ends-bind _ Loose Clear Stops (run_agent f w c id st.prompt s)
        (run_agent-Ends f w c own Stops id st.prompt s)
        (λ agent s1 u.
          Ends-bind _ Loose Clear Stops
            (stop_if_cancelled f w (cancel_agent f w id) cancelled_by_user s1)
            (stop_if_cancelled-Ends f w c own IsReleased law (cancel_agent f w id) cancelled_by_user
              s1 _ (λ s'. Unit) tt (cancel_agent_runs id _)
              (stopped_behind_agent id (ap instance_id same) s1))
            (λ a s2 v.
              Ends-bind _ Loose Clear Stops (check_compliance f w s2)
                (check_compliance-Ends f w c own Stops s2)
                (λ reason s3 x.
                  Ends-bind _ Loose Clear Stops
                    (judge f w c id (hash_seed st.run_id) agent.failed reason s3)
                    (judge-Ends f w Stops c id (hash_seed st.run_id) agent.failed reason s3)
                    (λ judged s4 y.
                      (cleaned_at f w c own IsReleased law id (ap instance_id same) s4 _ refl).1))))

  conclude-Ends :
      (st : Start f w) (t : Tried f w) (s : State)
      → IsReleased s
      → Ends Clear Stops (conclude f w c st t s)
  unfolding conclude
  conclude-Ends st t s h =
      let logged = law.keeps.logged not_archived _ (law.keeps.polled s h) in
      Ends-bind _ Clear Clear Stops (stop_if_cancelled f w _ _ s)
        (stop_if_cancelled-Ends f w c own IsReleased law _ _ s _ IsReleased (law.keeps.polled s h)
          refl (λ e. (was_cancelled_late s e refl refl, λ other. logged)))
        (λ u s1 h1.
          Ends-bind _ Clear Clear Stops
            (account f w c st.run_id st.started_at st.spend t.agent (is_some t.disqualification)
              t.judged s1)
            (account-Ends f w c own IsReleased law.keeps Stops st.run_id st.started_at st.spend
              t.agent (is_some t.disqualification) t.judged s1 h1)
            (λ x s2 h2. finish-Ends f w c own IsReleased law.keeps Stops x s2 h2))

  pub execute-Ends :
      (s : State)
      → IsReleased s
      → (choose_run_id f w c (w.now_rfc3339 s).1).0 ≡ ok run_id
      → Ends Clear Stops (execute f w c s)
  unfolding execute
  execute-Ends s h chosen =
      Ends-bind _ (λ st s1. st.run_id ≡ run_id) Clear Stops (start f w c s) (start-Ends s h chosen)
        (λ st s1 same.
          Ends-bind _ Clear Clear Stops (try_candidate f w c st s1) (try_candidate-Ends st s1 same)
            (λ t s2 h2. conclude-Ends st t s2 h2))
