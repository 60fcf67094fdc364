-- ===== src/Redis/Stages/Passing.antt =====
-- Each stage passes exactly when the server answers all its turns.
use subdollar_llm_coding_ben.Base.{
  subst, ℕ, ◌≡◌, ◌↔◌, ◌*◌, ◌^◌, refl, sym, ◌∙◌, ap, true, Option, List, [], ◌∷◌, ◌++◌,
}
use subdollar_llm_coding_ben.Text.{Text, codes}
use subdollar_llm_coding_ben.Stage.{
  bind_result-eq-ok, Result, ok, err, StageResult, Step, stage_result, count_passed,
  count_passed-All, summarize, bind_result, ◌>>◌,
}
use subdollar_llm_coding_ben.Redis.Session.{Client, get_seed_prefix}
use subdollar_llm_coding_ben.Redis.Stages.{
  echo_text, handshake, key_value, pipelining, pipe_payload, basic_commands, expiration, counters,
  run_stage, test_stage1_handshake, test_stage2_key_value, test_stage3_expiration,
  test_stage4_counters, run_all,
}
use subdollar_llm_coding_ben.Redis.Stages.Replies.{
  line_iff, bulk_iff, refusal_iff, line, bulk, refusal,
}
use subdollar_llm_coding_ben.Redis.Stages.Dialogue.{
  Turn, say, say_anyway, pipe, pause, Talk, Implements, Implements-seq, Implements-cons,
  Implements-expect, Implements-send_anyway, Implements-wait, Implements-pipelining,
}

-- The turns of the stages.
pub stage1_turns : Option Text → List Turn
stage1_turns seed =
    say (codes "PING" ∷ []) (line (codes "+PONG"))
    ∷ say (codes "ECHO" ∷ echo_text seed ∷ []) (bulk (echo_text seed))
    ∷ []

-- The turns before the pipelining.
key_value_sayings : Text → Text → List Turn
key_value_sayings key val =
    say (codes "SET" ∷ key ∷ val ∷ []) (line (codes "+OK"))
    ∷ say (codes "GET" ∷ key ∷ []) (bulk val)
    ∷ say (codes "EXISTS" ∷ key ∷ []) (line (codes ":1"))
    ∷ say (codes "DEL" ∷ key ∷ []) (line (codes ":1"))
    ∷ say (codes "GET" ∷ key ∷ []) (line (codes "$-1"))
    ∷ say (codes "EXISTS" ∷ key ∷ []) (line (codes ":0"))
    ∷ []

pub key_value_turns : Text → Text → List Turn
unfolding key_value_sayings
key_value_turns key val = key_value_sayings key val ++ pipe (pipe_payload key) ∷ []

pub expiration_turns : Text → Text → List Turn
expiration_turns key val =
    say (codes "SET" ∷ key ∷ val ∷ codes "PX" ∷ codes "150" ∷ []) (line (codes "+OK"))
    ∷ say (codes "GET" ∷ key ∷ []) (bulk val)
    ∷ pause (250 * 10 ^ 6)
    ∷ say (codes "GET" ∷ key ∷ []) (line (codes "$-1"))
    ∷ []

pub counters_turns : Text → Text → List Turn
counters_turns counter other =
    say (codes "INCR" ∷ counter ∷ []) (line (codes ":1"))
    ∷ say (codes "INCR" ∷ counter ∷ []) (line (codes ":2"))
    ∷ say (codes "DECR" ∷ counter ∷ []) (line (codes ":1"))
    ∷ say_anyway (codes "SET" ∷ other ∷ codes "invalid_number" ∷ [])
    ∷ say (codes "INCR" ∷ other ∷ []) refusal
    ∷ []

pub stage2_turns : Option Text → List Turn
stage2_turns seed =
    let seed_prefix = get_seed_prefix seed (codes "bench") in
    key_value_turns (codes "k_" ++ seed_prefix) (codes "v_" ++ seed_prefix)

pub stage3_turns : Option Text → List Turn
stage3_turns seed =
    let seed_prefix = get_seed_prefix seed (codes "ttl") in
    expiration_turns (codes "ttl_" ++ seed_prefix) (codes "val_" ++ seed_prefix)

pub stage4_turns : Option Text → List Turn
stage4_turns seed =
    let seed_prefix = get_seed_prefix seed (codes "num") in
    counters_turns (codes "cnt_" ++ seed_prefix) (codes "str_" ++ seed_prefix)

module _ (c : Client) (debug : Text → Text) where
  open c use {State, connect}

  -- The server takes a connection, and then all turns go well.
  pub record Answers (turns : List Turn) (s s' : State) : Type 0 where
    pub opened : State
    pub connects : connect s ≡ (ok tt, opened)
    pub talk : Talk c turns opened s'

  passed_iff :
      (n : ℕ) (name : Text) (r : Result (Unit {0}))
      → ((stage_result n name r).passed ≡ true) ↔ (r ≡ ok tt)
  passed_iff n name (ok u) = (λ h. refl, λ h. refl)
  passed_iff n name (err why) = (λ h. absurd cc, λ h. absurd cc)

  -- The stage passes and leaves the connection's state `s'`.
  abbrev pub PassesTo : StageResult × State → State → Type 0
  PassesTo r s' = (r.0.passed ≡ true) × (r.1 ≡ s')

  run_stage_iff :
      (n : ℕ) (name : Text) (body : Step State (Unit {0})) (turns : List Turn)
      → Implements c body turns
      → (s s' : State) → PassesTo (run_stage c debug n name body s) s' ↔ Answers turns s s'
  unfolding run_stage
  run_stage_iff n name body turns h s s' =
      let r = (connect >> body) s in
      (
        λ p.
            let e = (passed_iff n name r.0).0 p.0 in
            let q = p.1 in
            let (u, opens, rest) =
              bind_result-eq-ok (λ _. body) (connect s) tt s' (λ i. (e i, q i)) in
            record {
              opened = (connect s).1;
              connects = λ i. (opens i, (connect s).1);
              talk = (h.succeeds_iff (connect s).1 s').0 rest;
            },
        λ a.
            let rest = (h.succeeds_iff a.opened s').1 a.talk in
            let whole : r ≡ (ok tt, s') = ap (bind_result (λ _. body)) a.connects ∙ rest in
            ((passed_iff n name r.0).1 (ap (λ q. q.0) whole), ap (λ q. q.1) whole),
      )

  Implements-handshake :
      (seed : Option Text) → Implements c (handshake c debug seed) (stage1_turns seed)
  unfolding handshake stage1_turns
  Implements-handshake seed =
      Implements-cons c (Implements-expect c debug _ _ _ _ _ (line_iff _))
        (Implements-expect c debug _ _ _ _ _ (bulk_iff _))

  Implements-basic_commands :
      (key val : Text)
      → Implements c (key_value c debug key val >> pipelining c debug key) (key_value_turns key val)
  unfolding key_value key_value_turns
  Implements-basic_commands key val =
      Implements-seq c (key_value_sayings key val) _
        (Implements-cons c (Implements-expect c debug _ _ _ _ _ (line_iff _)) (
          Implements-cons c (Implements-expect c debug _ _ _ _ _ (bulk_iff _)) (
            Implements-cons c (Implements-expect c debug _ _ _ _ _ (line_iff _)) (
              Implements-cons c (Implements-expect c debug _ _ _ _ _ (line_iff _)) (
                Implements-cons c (Implements-expect c debug _ _ _ _ _ (line_iff _))
                  (Implements-expect c debug _ _ _ _ _ (line_iff _)))))))
        (Implements-pipelining c debug key)

  Implements-expiration :
      (seed : Option Text)
      → Implements c (expiration c debug seed) (
          expiration_turns
            (codes "ttl_" ++ get_seed_prefix seed (codes "ttl"))
            (codes "val_" ++ get_seed_prefix seed (codes "ttl")))
  unfolding expiration expiration_turns
  Implements-expiration seed =
      Implements-cons c (Implements-expect c debug _ _ _ _ _ (line_iff _)) (
        Implements-cons c (Implements-expect c debug _ _ _ _ _ (bulk_iff _)) (
          Implements-cons c (Implements-wait c debug _)
            (Implements-expect c debug _ _ _ _ _ (line_iff _))))

  Implements-counters :
      (seed : Option Text)
      → Implements c (counters c debug seed) (
          counters_turns
            (codes "cnt_" ++ get_seed_prefix seed (codes "num"))
            (codes "str_" ++ get_seed_prefix seed (codes "num")))
  unfolding counters counters_turns
  Implements-counters seed = Implements-cons c (Implements-expect c debug _ _ _ _ _ (line_iff _)) (
      Implements-cons c (Implements-expect c debug _ _ _ _ _ (line_iff _)) (
        Implements-cons c (Implements-expect c debug _ _ _ _ _ (line_iff _)) (
          Implements-cons c (Implements-send_anyway c debug _)
            (Implements-expect c debug _ _ _ _ _ refusal_iff))))

  stage1_iff :
      (seed : Option Text) (s s' : State)
      → PassesTo (test_stage1_handshake c debug seed s) s' ↔ Answers (stage1_turns seed) s s'
  unfolding test_stage1_handshake
  stage1_iff seed = run_stage_iff 1 _ _ _ (Implements-handshake seed)

  stage2_iff :
      (seed : Option Text) (s s' : State)
      → PassesTo (test_stage2_key_value c debug seed s) s' ↔ Answers (stage2_turns seed) s s'
  unfolding test_stage2_key_value basic_commands stage2_turns
  stage2_iff seed = run_stage_iff 2 _ _ _ (Implements-basic_commands _ _)

  stage3_iff :
      (seed : Option Text) (s s' : State)
      → PassesTo (test_stage3_expiration c debug seed s) s' ↔ Answers (stage3_turns seed) s s'
  unfolding test_stage3_expiration stage3_turns
  stage3_iff seed = run_stage_iff 3 _ _ _ (Implements-expiration seed)

  stage4_iff :
      (seed : Option Text) (s s' : State)
      → PassesTo (test_stage4_counters c debug seed s) s' ↔ Answers (stage4_turns seed) s s'
  unfolding test_stage4_counters stage4_turns
  stage4_iff seed = run_stage_iff 4 _ _ _ (Implements-counters seed)

  -- The states between the stages, and their results.
  module _ (seed : Option Text) (s : State) where
    first : StageResult × State
    first = test_stage1_handshake c debug seed s

    second : StageResult × State
    second = test_stage2_key_value c debug seed first.1

    third : StageResult × State
    third = test_stage3_expiration c debug seed second.1

    fourth : StageResult × State
    fourth = test_stage4_counters c debug seed third.1

    results : List StageResult
    results = first.0 ∷ second.0 ∷ third.0 ∷ fourth.0 ∷ []

    run_all_count : (run_all c debug seed s).0.passed_count ≡ count_passed results
    unfolding run_all summarize results first second third fourth
    run_all_count = refl

    run_all_state : (run_all c debug seed s).1 ≡ fourth.1
    unfolding run_all first second third fourth
    run_all_state = refl

  -- One connection after the other, the server answers all turns of the four stages.
  pub record AnswersAll (seed : Option Text) (s s' : State) : Type 0 where
    pub after1 : State
    pub after2 : State
    pub after3 : State
    pub handshake_answers : Answers (stage1_turns seed) s after1
    pub key_value_answers : Answers (stage2_turns seed) after1 after2
    pub expiration_answers : Answers (stage3_turns seed) after2 after3
    pub counters_answers : Answers (stage4_turns seed) after3 s'

  all_passed :
      (r1 r2 r3 r4 : StageResult)
      → r1.passed ≡ true
      → r2.passed ≡ true
      → r3.passed ≡ true
      → r4.passed ≡ true
      → count_passed (r1 ∷ r2 ∷ r3 ∷ r4 ∷ []) ≡ 4
  unfolding count_passed
  all_passed r1 r2 r3 r4 p1 p2 p3 p4 = rw (p1, p2, p3, p4)

  answers-run_all :
      (seed : Option Text) (s s' : State)
      → AnswersAll seed s s'
      → ((run_all c debug seed s).0.passed_count ≡ 4) × ((run_all c debug seed s).1 ≡ s')
  unfolding first second third fourth results
  answers-run_all seed s s' a =
      let p1 = (stage1_iff seed s a.after1).1 a.handshake_answers in
      let a2 = subst (λ x. Answers (stage2_turns seed) x a.after2) (sym p1.1) a.key_value_answers in
      let p2 = (stage2_iff seed (first seed s).1 a.after2).1 a2 in
      let a3 =
        subst (λ x. Answers (stage3_turns seed) x a.after3) (sym p2.1) a.expiration_answers in
      let p3 = (stage3_iff seed (second seed s).1 a.after3).1 a3 in
      let a4 = subst (λ x. Answers (stage4_turns seed) x s') (sym p3.1) a.counters_answers in
      let p4 = (stage4_iff seed (third seed s).1 s').1 a4 in
      (run_all_count seed s ∙ all_passed _ _ _ _ p1.0 p2.0 p3.0 p4.0, run_all_state seed s ∙ p4.1)

  run_all-answers :
      (seed : Option Text) (s s' : State)
      → (run_all c debug seed s).0.passed_count ≡ 4
      → (run_all c debug seed s).1 ≡ s'
      → AnswersAll seed s s'
  unfolding first second third fourth results
  run_all-answers seed s s' h e =
      let all = count_passed-All (results seed s) (sym (run_all_count seed s) ∙ h) in
      record {
        after1 = (first seed s).1;
        after2 = (second seed s).1;
        after3 = (third seed s).1;
        handshake_answers = (stage1_iff seed _ _).0 (all.0, refl);
        key_value_answers = (stage2_iff seed _ _).0 (all.1.0, refl);
        expiration_answers = (stage3_iff seed _ _).0 (all.1.1.0, refl);
        counters_answers = (stage4_iff seed _ _).0 (all.1.1.1.0, sym (run_all_state seed s) ∙ e);
      }

  -- run_all counts four passed stages and leaves the server in a state exactly when the server takes four
  -- connections in turn, replies on each to the commands of the stage as its turns have it, and ends in
  -- that state: most replies are, once trimmed, one line that is written out, those with a value are
  -- its bulk string, the reply to INCR of a text begins with `-`, the reply to the SET before it is not
  -- looked at, and in the response to the piped commands stand `+OK` and `v1`, or their write
  -- failed.
  pub run_all_passed :
      (seed : Option Text) (s s' : State)
      → (((run_all c debug seed s).0.passed_count ≡ 4) × ((run_all c debug seed s).1 ≡ s'))
        ↔ AnswersAll seed s s'
  run_all_passed seed s s' = (λ h. run_all-answers seed s s' h.0 h.1, answers-run_all seed s s')
