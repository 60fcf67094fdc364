-- ===== src/Pipeline/Phases/Endings.antt =====
-- How the parts before the verification end: why a run stops, and what is left in the sandbox.
use subdollar_llm_coding_ben.Base.{
  sym, ap, ◌∙◌, if◌then◌else◌, subst, ℕ, ◌≡◌, refl, Bool, true, false, Option, none, some, inl, inr,
  Bool-cases, ◌++◌,
}
use subdollar_llm_coding_ben.Text.{Text, codes}
use subdollar_llm_coding_ben.Stage.{Result, ok, err, Step}
use subdollar_llm_coding_ben.Stage.Returns.{Ends, Ends-bind}
use subdollar_llm_coding_ben.Config.{task_name}
use subdollar_llm_coding_ben.Float.{F64}
use subdollar_llm_coding_ben.Pipeline.World.{
  World, BenchmarkConfig, RunManifest, AgentOutcome, finished, agent_error, join_error,
}
use subdollar_llm_coding_ben.Report.Leaderboard.{BenchmarkRunResult}
use subdollar_llm_coding_ben.Pipeline.Phases.{
  clean_up, cancelled_by_user, id_or_new, skip, run_agent, report_agent, check_compliance,
  report_compliance, spawn_agent, skip_agent, choose_run_id, announce, prepare, set_up_network,
  report_network, stop_if, stop_if_cancelled, query, report_spend, initial_spend, report_reference,
  start_reference, or_unreadable, read_prompt,
}

abbrev pub terminating : Text
terminating = codes "[PIPELINE] Execution cancelled by user. Terminating sandbox containers..."

abbrev pub not_archived : Text
not_archived = codes "[PIPELINE] Run cancelled before archiving."

abbrev pub unreadable_prompt : (f : F64) → World f → BenchmarkConfig f → Text
unreadable_prompt f w c = codes "Could not read prompt file: " ++ w.prompt_path (task_name c.task)

module _ (f : F64) (w : World f) (c : BenchmarkConfig f) (id : Text) where
  open w use {State}

  -- Why a run with this instance id ended in the last state with the error: behind the step that found
  -- out, it did these steps and no others.
  pub data IsCause (e : Text) (last : State) : Type 0 where
    was_cancelled_early :
        (s : State)
        → (w.is_cancelled s).0 ≡ true
        → e ≡ cancelled_by_user
        → last ≡ clean_up f w id (w.is_cancelled s).1
        → IsCause e last
    was_cancelled_behind_agent :
        (s : State)
        → (w.is_cancelled s).0 ≡ true
        → e ≡ cancelled_by_user
        → last ≡ clean_up f w id (w.log terminating (w.is_cancelled s).1)
        → IsCause e last
    was_cancelled_late :
        (s : State)
        → (w.is_cancelled s).0 ≡ true
        → e ≡ codes "Benchmark run cancelled by user"
        → last ≡ w.log not_archived (w.is_cancelled s).1
        → IsCause e last
    was_unreadable :
        (s : State) (why : Text)
        → w.read_prompt (task_name c.task) s ≡ (err why, last)
        → e ≡ unreadable_prompt f w c
        → IsCause e last
    was_unprepared : (s : State) → w.prepare_workspace s ≡ (err e, last) → IsCause e last

  -- A state without containers and network of the run: the clean-up makes it so, and what does not
  -- start any leaves it so.
  module _ (IsReleased : State → Type 0) where
    -- What starts neither container nor network.
    pub record Keeps : Type 0 where
      pub logged : (t : Text) (s : State) → IsReleased s → IsReleased (w.log t s)
      pub timed : (s : State) → IsReleased s → IsReleased (w.now_rfc3339 s).1
      pub dated : (s : State) → IsReleased s → IsReleased (w.now_compact s).1
      pub elapsed : (s : State) → IsReleased s → IsReleased (w.elapsed s).1
      pub slept : (n : ℕ) (s : State) → IsReleased s → IsReleased (w.sleep_millis n s)
      pub prepared : (s : State) → IsReleased s → IsReleased (w.prepare_workspace s).1
      pub polled : (s : State) → IsReleased s → IsReleased (w.is_cancelled s).1
      pub queried : (key : Text) (s : State) → IsReleased s → IsReleased (w.query_usage key s).1
      pub fetched : (s : State) → IsReleased s → IsReleased (w.fetch_catalog s).1
      pub read : (s : State) → IsReleased s → IsReleased (w.read_workspace s).1
      pub scanned : (s : State) → IsReleased s → IsReleased (w.scan_workspace_files s).1
      pub archived :
          (m : RunManifest f) (t : Text) (s : State)
          → IsReleased s
          → IsReleased (w.archive_run m t s)
      pub saved :
          (r : BenchmarkRunResult f) (s : State) → IsReleased s → IsReleased (w.save_result r s)
      pub exported : (n : ℕ) (s : State) → IsReleased s → IsReleased (w.export_portal n s)

    pub record Releases : Type 0 where
      pub cleaned : (s : State) → IsReleased (clean_up f w id s)
      pub keeps : Keeps

    -- An error has a cause, and only the unreadable prompt leaves something behind.
    abbrev pub IsStopped : Text → State → Type 0
    IsStopped e s = IsCause e s × (¬ (e ≡ unreadable_prompt f w c) → IsReleased s)

    abbrev pub IsLoose : {A : Type 0} → A → State → Type 0
    IsLoose a s = Unit

    abbrev pub IsClear : {A : Type 0} → A → State → Type 0
    IsClear a s = IsReleased s

    module _ (law : Releases) where
      open law use {cleaned, keeps}
      open keeps use {logged, timed, dated, prepared, polled}

      id_or_new-Ends :
          (o : Option Text) (run_id : Text) (s : State)
          → IsReleased s
          → (id_or_new f w c o s).0 ≡ ok run_id
          → Ends (λ chosen s1. (chosen ≡ run_id) × IsReleased s1) IsStopped (id_or_new f w c o s)
      unfolding id_or_new
      id_or_new-Ends none run_id s h e = (cc, dated s h)
      id_or_new-Ends (some chosen) run_id s h e = (cc, h)

      pub prepare-Ends : (s : State) → IsReleased s → Ends IsClear IsStopped (prepare f w c s)
      unfolding prepare
      prepare-Ends s h = outcome c.eval_only
        where
          prepared_so :
              (r : Result (Unit {0}) × State) → w.prepare_workspace s ≡ r → Ends IsClear IsStopped r
          prepared_so (ok u, s1) e = subst IsReleased (λ i. (e i).1) (prepared s h)
          prepared_so (err why, s1) e =
              (was_unprepared s e, λ other. subst IsReleased (λ i. (e i).1) (prepared s h))

          outcome :
              (b : Bool) → Ends IsClear IsStopped ((if b then skip f w else w.prepare_workspace) s)
          outcome true = h
          outcome false = prepared_so (w.prepare_workspace s) refl

      pub stop_if_cancelled-Ends :
          (last : Step State (Unit {0})) (why : Text) (s t : State) (P : State → Type 0)
          → P (w.is_cancelled s).1
          → last (w.is_cancelled s).1 ≡ (ok tt, t)
          → ((w.is_cancelled s).0 ≡ true → IsStopped why t)
          → Ends (λ (u : Unit {0}). P) IsStopped (stop_if_cancelled f w last why s)
      unfolding stop_if_cancelled stop_if
      stop_if_cancelled-Ends last why s t P h ends stopped = outcome (w.is_cancelled s).0 refl
        where
          outcome :
              (b : Bool)
              → (w.is_cancelled s).0 ≡ b
              → Ends (λ (u : Unit {0}). P) IsStopped (stop_if f w last why b (w.is_cancelled s).1)
          outcome true e = rw (ends) (stopped e)
          outcome false e = h

      -- The clean-up of the id that a run has chosen.
      pub cleaned_at :
          (i : Text)
          → i ≡ id
          → (s t : State) → t ≡ clean_up f w i s
          → (t ≡ clean_up f w id s) × IsReleased t
      cleaned_at i same s t e =
          let here = e ∙ ap (λ j. clean_up f w j s) same in
          (here, subst IsReleased (sym here) (cleaned s))

      pub choose_run_id-Ends :
          (run_id : Text) (s : State)
          → IsReleased s
          → (choose_run_id f w c s).0 ≡ ok run_id
          → Ends (λ chosen s1. (chosen ≡ run_id) × IsReleased s1) IsStopped (choose_run_id f w c s)
      unfolding choose_run_id
      choose_run_id-Ends run_id s h e = id_or_new-Ends c.run_id run_id s h e

      pub announce-Ends :
          (run_id : Text) (s : State)
          → IsReleased s
          → Ends IsClear IsStopped (announce f w c run_id s)
      unfolding announce
      announce-Ends run_id s h = logged _ s h

      pub read_prompt-Ends : (s : State) → Ends IsLoose IsStopped (read_prompt f w c s)
      unfolding read_prompt or_unreadable
      read_prompt-Ends s = outcome _ refl
        where
          outcome :
              (r : Result Text × State)
              → w.read_prompt (task_name c.task) s ≡ r
              → Ends IsLoose IsStopped (or_unreadable f w c.task r.0 r.1)
          outcome (ok prompt, s1) e = tt
          outcome (err why, s1) e = (was_unreadable s why e refl, λ other. absurd (other refl))

    -- A query keeps what was released.
    pub query-Ends :
        Keeps
        → (E : Text → State → Type 0) (key : Option Text) (s : State) → IsReleased s
        → Ends IsClear E (query f w key s)
    unfolding query
    query-Ends law E none s h = h
    query-Ends law E (some key) s h = law.queried key s h

  -- The rest of these parts does not fail.
  module _ (E : Text → State → Type 0) where
    abbrev IsAny : {A : Type 0} → A → State → Type 0
    IsAny a s = Unit

    pub set_up_network-Ends :
        (instance : Text) (s : State) → Ends IsAny E (set_up_network f w instance s)
    unfolding set_up_network report_network
    set_up_network-Ends instance s =
        outcome (w.ensure_network instance s).0 (w.ensure_network instance s).1
      where
        outcome :
            (r : Result (Unit {0})) (s1 : State) → Ends IsAny E (report_network f w instance r s1)
        outcome (ok u) s1 = tt
        outcome (err e) s1 = tt

    pub initial_spend-Ends : (s : State) → Ends IsAny E (initial_spend f w c s)
    unfolding initial_spend query report_spend
    initial_spend-Ends s =
        Ends-bind _ IsAny IsAny E (query f w c.api_key s) (asked c.api_key s) (λ spend s1 u.
          Ends-bind _ IsAny IsAny E (report_spend f w spend s1) (reported spend s1) (λ v s2 x. tt))
      where
        asked : (key : Option Text) (s1 : State) → Ends IsAny E (query f w key s1)
        asked none s1 = tt
        asked (some key) s1 = tt

        reported : (spend : Option f.Num) (s1 : State) → Ends IsAny E (report_spend f w spend s1)
        reported none s1 = tt
        reported (some spend) s1 = tt

    pub start_reference-Ends : (id : Text) (s : State) → Ends IsAny E (start_reference f w c id s)
    unfolding start_reference report_reference
    start_reference-Ends id s = outcome _ _
      where
        outcome :
            (r : Result (Unit {0})) (s1 : State) → Ends IsAny E (report_reference f w c.task r s1)
        outcome (ok u) s1 = tt
        outcome (err e) s1 = tt

    pub run_agent-Ends : (id prompt : Text) (s : State) → Ends IsAny E (run_agent f w c id prompt s)
    unfolding run_agent spawn_agent skip_agent report_agent
    run_agent-Ends id prompt s = elim (Bool-cases c.eval_only) [
      | inl e ↦ rw (e) tt
      | inr e ↦ rw (e) (outcome _ _)
    ]
      where
        outcome : (r : AgentOutcome) (s1 : State) → Ends IsAny E (report_agent f w r s1)
        outcome (finished stats) s1 = tt
        outcome (agent_error e partial) s1 = tt
        outcome (join_error e) s1 = tt

    pub check_compliance-Ends : (s : State) → Ends IsAny E (check_compliance f w s)
    unfolding check_compliance report_compliance
    check_compliance-Ends s = outcome _ _
      where
        outcome : (r : Result (Unit {0})) (s1 : State) → Ends IsAny E (report_compliance f w r s1)
        outcome (ok u) s1 = tt
        outcome (err e) s1 = tt
