-- ===== src/Http/Stages/Passing.antt =====
-- When a server passes the HTTP stages, as conditions on its responses.
use subdollar_llm_coding_ben.Base.{ℕ, ◌≡◌, ◌↔◌, Option, List, [], ◌∷◌, ◌++◌}
use subdollar_llm_coding_ben.Text.{Text, codes}
use subdollar_llm_coding_ben.Stage.{Result, ok, Step}
use subdollar_llm_coding_ben.Redis.Session.{get_seed_prefix}
use subdollar_llm_coding_ben.Http.Requests.{Request, Response, Web, get_request}
use subdollar_llm_coding_ben.Http.Requests.Checks.{HasStatus, IsPlainText, Holds, Answered}
use subdollar_llm_coding_ben.Http.Stages.Leaks.{Leaks}
use subdollar_llm_coding_ben.Http.Stages.{
  traversal_payloads, echo_word, agent, agent_request, file_name, file_content, post_request,
}

module _ (w : Web) (lower : Text → Text) (port : ℕ) where
  open w use {State, send}

  -- A text that is asked for comes as plain text.
  abbrev pub EchoesText : Request → Text → State → State → Type 0
  EchoesText r text =
      Answered w lower r (λ resp. HasStatus 200 resp × (IsPlainText lower resp × Holds text resp))

  -- No payload is answered by a response that leaks. A failed request and another status are let pass.
  abbrev pub Refuses : List Text → State → State → Type 0
  Refuses [] s s' = s ≡ s'
  Refuses (payload ∷ payloads) s s' =
      (o : Result Response) × (m : State) × (send (get_request port (codes "/files/" ++ payload)) s
        ≡ (o, m))
      × ((resp : Response) → o ≡ ok resp → ¬ Leaks resp)
      × Refuses payloads m s'

  -- One exchange behind the other.
  abbrev pub Then : (State → State → Type 0) → (State → State → Type 0) → State → State → Type 0
  Then P Q s s' = (m : State) × P s m × Q m s'

  -- The file that is posted is read back, another is not there, and no payload leaks.
  abbrev pub StoresFile : Text → State → State → Type 0
  StoresFile seed_prefix =
      Then (Answered w lower (post_request w lower port seed_prefix) (HasStatus 201)) (
        Then
          (Answered w lower (get_request port (codes "/files/" ++ file_name seed_prefix))
            (λ resp. HasStatus 200 resp × Holds (file_content seed_prefix) resp))
          (Then
            (Answered w lower
              (get_request port (codes "/files/missing_" ++ (seed_prefix ++ codes ".txt")))
              (HasStatus 404))
            (Refuses traversal_payloads)))

  -- The responses to the requests of all stages, which lead from one state to another.
  abbrev pub AnswersAll : Option Text → State → State → Type 0
  AnswersAll seed = Then (Answered w lower (get_request port (codes "/")) (HasStatus 200)) (
      Then (Answered w lower (get_request port (codes "/nonexistent-route-1234")) (HasStatus 404)) (
        Then (EchoesText (get_request port (codes "/echo/" ++ echo_word seed)) (echo_word seed)) (
          Then (EchoesText (agent_request w lower port) agent)
            (StoresFile (get_seed_prefix seed (codes "artifact"))))))

  abbrev SucceedsIff : Step State (Unit {0}) → (State → State → Type 0) → Type 0
  SucceedsIff m P = (s s' : State) → (m s ≡ (ok tt, s')) ↔ P s s'
