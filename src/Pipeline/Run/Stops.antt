-- ===== src/Pipeline/Run/Stops.antt =====
-- Why a run of `execute` stops, and what it leaves in the sandbox.
use subdollar_llm_coding_ben.Base.{
  Option, none, some, List, [], ◌∷◌, ◌++◌, subst, ◌≡◌, refl, sym, ap, ◌∙◌, false,
}
use mathlib.Core.Bool.{false≢true}
use subdollar_llm_coding_ben.Text.{Text, codes}
use subdollar_llm_coding_ben.Stage.{Result, ok, err, err-ne-ok}
use subdollar_llm_coding_ben.Stage.Returns.{Ends}
use subdollar_llm_coding_ben.Float.{F64}
use subdollar_llm_coding_ben.Config.{task_name}
use subdollar_llm_coding_ben.Pipeline.World.{World, BenchmarkConfig}
use subdollar_llm_coding_ben.Pipeline.Phases.Endings.{
  Releases, IsStopped, IsCause, was_cancelled_early, was_cancelled_behind_agent, was_cancelled_late,
  was_unreadable, was_unprepared,
}
use subdollar_llm_coding_ben.Sandbox.{
  instance_id, candidate_container_name, ref_redis_name, ref_http_name, ref_dns_name, network_name,
}
use subdollar_llm_coding_ben.Pipeline.Phases.{choose_run_id, id_or_new}
use subdollar_llm_coding_ben.Pipeline.Account.{PipelineOutput}
use subdollar_llm_coding_ben.Pipeline.Run.{execute}
use subdollar_llm_coding_ben.Pipeline.Run.Cleanup.{execute-Ends}

module _ (f : F64) (w : World f) (c : BenchmarkConfig f) where
  open w use {State}

  -- The run has this id.
  abbrev pub IsRunOf : Text → State → Type 0
  IsRunOf run_id s = (choose_run_id f w c (w.now_rfc3339 s).1).0 ≡ ok run_id

  chosen : (s : State) → (run_id : Text) × IsRunOf run_id s
  unfolding choose_run_id id_or_new
  chosen s = by_config c.run_id
    where
      by_config :
          (o : Option Text)
          → (run_id : Text) × ((id_or_new f w c o (w.now_rfc3339 s).1).0 ≡ ok run_id)
      by_config none = (_, refl)
      by_config (some run_id) = (run_id, refl)

  -- Where nothing is asked of the states.
  loose : (id : Text) → Releases f w c id (λ s. Unit {0})
  loose id = record {
    cleaned = λ s. tt;
    keeps = record {
      logged = λ t s h. tt;
      timed = λ s h. tt;
      dated = λ s h. tt;
      elapsed = λ s h. tt;
      slept = λ n s h. tt;
      prepared = λ s h. tt;
      polled = λ s h. tt;
      queried = λ key s h. tt;
      fetched = λ s h. tt;
      read = λ s h. tt;
      scanned = λ s h. tt;
      archived = λ m t s h. tt;
      saved = λ r s h. tt;
      exported = λ n s h. tt;
    };
  }

  -- When execute ends with an error, then the last that the run did is one of these: it found that it was
  -- cancelled and cleaned up its own sandbox, before the agent started or behind it, and the error
  -- says that it was cancelled; it found that it was cancelled behind the verification, and the error
  -- says so; the prompt file could not be read and the error says so; or the workspace could not be
  -- prepared and the error is that one.
  pub execute-IsCause :
      (run_id : Text) (s : State) (e : Text) (last : State)
      → IsRunOf run_id s
      → execute f w c s ≡ (err e, last)
      → IsCause f w c (instance_id run_id) e last
  execute-IsCause run_id s e last named h =
      cause (execute f w c s)
        (execute-Ends f w c run_id (λ s'. Unit {0}) (loose (instance_id run_id)) s tt named) h
    where
      cause :
          (r : Result (PipelineOutput f) × State)
          → Ends (λ out s'. Unit {0}) (IsStopped f w c (instance_id run_id) (λ s'. Unit {0})) r
          → r ≡ (err e, last)
          → IsCause f w c (instance_id run_id) e last
      cause (ok out, s1) p k = absurd (err-ne-ok (sym (ap (λ r. r.0) k)))
      cause (err e1, s1) p k = ended (cc) (ap (λ r. r.1) k) p.0
        where
          ended :
              e1 ≡ e
              → s1 ≡ last
              → IsCause f w c (instance_id run_id) e1 s1
              → IsCause f w c (instance_id run_id) e last
          ended same here p =
              subst (λ e'. IsCause f w c (instance_id run_id) e' last) same
                (subst (λ s'. IsCause f w c (instance_id run_id) e1 s') here p)

  -- A run has an output when it is never cancelled, the workspace can be prepared and the prompt
  -- file can be read.
  pub execute_ok :
      ((s : State) → (w.is_cancelled s).0 ≡ false)
      → ((s : State) → (w.prepare_workspace s).0 ≡ ok tt)
      → ((s : State) → (prompt : Text) × ((w.read_prompt (task_name c.task) s).0 ≡ ok prompt))
      → (s : State) → (out : PipelineOutput f) × ((execute f w c s).0 ≡ ok out)
  execute_ok free prepares reads s = outcome (execute f w c s) refl
    where
      none_stops : (id e : Text) (last : State) → IsCause f w c id e last → ⊥
      none_stops id e last (was_cancelled_early s1 k said here) = false≢true (sym (free s1) ∙ k)
      none_stops id e last (was_cancelled_behind_agent s1 k said here) =
          false≢true (sym (free s1) ∙ k)
      none_stops id e last (was_cancelled_late s1 k said here) = false≢true (sym (free s1) ∙ k)
      none_stops id e last (was_unreadable s1 why k said) =
          err-ne-ok (sym (ap (λ r. r.0) k) ∙ (reads s1).1)
      none_stops id e last (was_unprepared s1 k) = err-ne-ok (sym (ap (λ r. r.0) k) ∙ prepares s1)

      outcome :
          (r : Result (PipelineOutput f) × State)
          → execute f w c s ≡ r
          → (out : PipelineOutput f) × ((execute f w c s).0 ≡ ok out)
      outcome (ok out, s1) k = (out, ap (λ r. r.0) k)
      outcome (err e, s1) k =
          let (run_id, named) = chosen s in
          absurd (none_stops (instance_id run_id) e s1 (execute-IsCause run_id s e s1 named k))

  -- What docker and the file system do: `docker rm -f` removes each container that it names, `docker network
  -- rm` removes the network that it names, and neither it nor the removal of a file starts anything.
  module _ (Container NetworkOf : Text → State → Type 0) where
    pub record Docker : Type 0 where
      pub removed :
          (before : List Text) (name : Text) (after : List Text) (s : State)
          → ¬ Container name (w.docker (codes "rm" ∷ codes "-f" ∷ (before ++ name ∷ after)) s)
      pub network_removed :
          (name : Text) (s : State)
          → ¬ NetworkOf name (w.docker (codes "network" ∷ codes "rm" ∷ name ∷ []) s)
      pub containers_stay_away :
          (name network : Text) (s : State)
          → ¬ Container name s
          → ¬ Container name (w.docker (codes "network" ∷ codes "rm" ∷ network ∷ []) s)
      pub file_removed :
          (name path : Text) (s : State)
          → ¬ Container name s
          → ¬ Container name (w.remove_file path s)
      pub file_removed_too :
          (name path : Text) (s : State)
          → ¬ NetworkOf name s
          → ¬ NetworkOf name (w.remove_file path s)

    -- Neither the candidate's container nor a reference server's nor the network of an instance.
    pub record IsGone (id : Text) (s : State) : Type 0 where
      pub candidate : ¬ Container (candidate_container_name id) s
      pub ref_redis : ¬ Container (ref_redis_name id) s
      pub ref_http : ¬ Container (ref_http_name id) s
      pub ref_dns : ¬ Container (ref_dns_name id) s
      pub network : ¬ NetworkOf (network_name id) s
