-- ===== src/Redis/Stages/Dialogue.antt =====
-- What a stage asks of the server, as a list of turns, and when a server answers all of them.
use subdollar_llm_coding_ben.Base.{
  some-injective, ℕ, ◌≡◌, ◌↔◌, refl, sym, ◌∙◌, ap, subst, Bool, true, Option, none, some, List, [],
  ◌∷◌, ◌++◌,
}
use subdollar_llm_coding_ben.Text.{Text, Bytes, codes}
use subdollar_llm_coding_ben.Stage.{
  bind_result-eq-ok, ensure-eq-ok, err-ne-ok, Result, ok, err, Step, bind_result, ◌>>◌, ensure,
  map_err,
}
use subdollar_llm_coding_ben.Redis.Session.{Client}
use subdollar_llm_coding_ben.Redis.Stages.Replies.{Reply, Accepts, IsPipeAnswer, pipe_accepts_iff}
use subdollar_llm_coding_ben.Redis.Stages.{
  ask, expect, check_pipe, pipelining, pipe_payload, pipe_accepts, wait, send_anyway,
}

pub data Turn : Type 0 where
  -- a command, and the reply that is accepted
  say : List Text → Reply → Turn
  -- a command whose reply is not looked at
  say_anyway : List Text → Turn
  -- bytes that are written at once; a response that comes answers them, and a failed write is let pass
  pipe : Bytes → Turn
  pause : ℕ → Turn

module _ (c : Client) where
  open c use {State, send, sleep}

  -- The turn goes well in state `s`, and leaves state `s'`.
  abbrev pub Happens : Turn → State → State → Type 0
  Happens (say args reply) s s' = (res : Text) × (send args s ≡ (ok res, s')) × Accepts reply res
  Happens (say_anyway args) s s' = (send args s).1 ≡ s'
  Happens (pipe payload) s s' =
      (r : Option Text) × (c.pipeline payload s ≡ (r, s'))
      × ((resp : Text) → r ≡ some resp → IsPipeAnswer resp)
  Happens (pause ns) s s' = sleep ns s ≡ s'

  -- All turns go well, one after the other.
  abbrev pub Talk : List Turn → State → State → Type 0
  Talk [] s s' = s ≡ s'
  Talk (t ∷ turns) s s' = (m : State) × Happens t s m × Talk turns m s'

  Talk-append :
      (ts us : List Turn) (s m s' : State) → Talk ts s m → Talk us m s' → Talk (ts ++ us) s s'
  Talk-append [] us s m s' e h = subst (λ x. Talk us x s') (sym e) h
  Talk-append (t ∷ ts) us s m s' (k, happens, rest) h =
      (k, happens, Talk-append ts us k m s' rest h)

  Talk-split :
      (ts us : List Turn) (s s' : State)
      → Talk (ts ++ us) s s'
      → (m : State) × Talk ts s m × Talk us m s'
  Talk-split [] us s s' h = (s, refl, h)
  Talk-split (t ∷ ts) us s s' (k, happens, rest) =
      let (m, before, after) = Talk-split ts us k s' rest in (m, (k, happens, before), after)

  -- The code ends with success exactly in the states that the turns lead to.
  pub record Implements (m : Step State (Unit {0})) (turns : List Turn) : Type 0 where
    pub succeeds_iff : (s s' : State) → (m s ≡ (ok tt, s')) ↔ Talk turns s s'

  seq_iff :
      (m k : Step State (Unit {0})) (ts us : List Turn)
      → Implements m ts
      → Implements k us
      → (s s' : State) → ((m >> k) s ≡ (ok tt, s')) ↔ Talk (ts ++ us) s s'
  seq_iff m k ts us hm hk s s' = (
    λ h.
        let (u, e, rest) = bind_result-eq-ok (λ _. k) (m s) tt s' h in
        Talk-append ts us s (m s).1 s' ((hm.succeeds_iff s (m s).1).0 (λ i. (e i, (m s).1)))
          ((hk.succeeds_iff (m s).1 s').0 rest),
    λ h.
        let (mid, before, after) = Talk-split ts us s s' h in
        rw ((hm.succeeds_iff s mid).1 before) ((hk.succeeds_iff mid s').1 after),
  )

  pub Implements-seq :
      {m k : Step State (Unit {0})} (ts us : List Turn)
      → Implements m ts
      → Implements k us
      → Implements (m >> k) (ts ++ us)
  Implements-seq {m} {k} ts us hm hk = record { succeeds_iff = seq_iff m k ts us hm hk }

  pub Implements-cons :
      {m k : Step State (Unit {0})} {t : Turn} {us : List Turn}
      → Implements m (t ∷ [])
      → Implements k us
      → Implements (m >> k) (t ∷ us)
  Implements-cons {t = t} {us = us} hm hk = Implements-seq (t ∷ []) us hm hk

module _ (c : Client) (debug : Text → Text) where
  open c use {State, send, sleep}

  expect_iff :
      (what : Text) (args : List Text) (accepts : Text → Bool) (complaint : Text) (reply : Reply)
      → ((res : Text) → (accepts res ≡ true) ↔ Accepts reply res)
      → (s s' : State)
      → (expect c debug what args accepts complaint s ≡ (ok tt, s'))
        ↔ Talk c (say args reply ∷ []) s s'
  unfolding expect ask
  expect_iff what args accepts complaint reply law s s' = (
    λ h. split (send args s) refl h,
    λ h. let (m, (res, e, a), q) = h in rw (e, (law res).1 a) (ap (λ t. (ok tt, t)) q),
  )
    where
      split :
          (r : Result Text × State)
          → send args s ≡ r
          → bind_result
              (λ res. ensure (accepts res) (complaint ++ debug res))
              (map_err (λ e. what ++ (codes " failed: " ++ e)) r.0, r.1)
            ≡ (ok tt, s')
          → Talk c (say args reply ∷ []) s s'
      split (ok res, t) e h =
          let (a, q) = ensure-eq-ok (accepts res) (complaint ++ debug res) t s' h in
          (t, (res, e, (law res).0 a), q)
      split (err why, t) e h = absurd (err-ne-ok (ap (λ p. p.0) h))

  send_anyway_iff :
      (args : List Text) (s s' : State)
      → (send_anyway c debug args s ≡ (ok tt, s')) ↔ Talk c (say_anyway args ∷ []) s s'
  unfolding send_anyway
  send_anyway_iff args s s' = (
    λ h. ((send args s).1, refl, ap (λ p. p.1) h),
    λ h. let (m, e, q) = h in ap (λ t. (ok tt, t)) (e ∙ q),
  )

  wait_iff :
      (ns : ℕ) (s s' : State) → (wait c debug ns s ≡ (ok tt, s')) ↔ Talk c (pause ns ∷ []) s s'
  unfolding wait
  wait_iff ns s s' = (
    λ h. (sleep ns s, refl, ap (λ p. p.1) h),
    λ h. let (m, e, q) = h in ap (λ t. (ok tt, t)) (e ∙ q),
  )

  check_pipe_iff :
      (r : Option Text × State) (s' : State)
      → (check_pipe c debug r ≡ (ok tt, s'))
        ↔ (((resp : Text) → r.0 ≡ some resp → IsPipeAnswer resp) × (r.1 ≡ s'))
  unfolding check_pipe
  check_pipe_iff (none, s) s' =
      (λ h. (λ resp e. absurd cc, ap (λ p. p.1) h), λ h. ap (λ t. (ok tt, t)) h.1)
  check_pipe_iff (some resp, s) s' = (
    λ h.
        let (a, q) = ensure-eq-ok (pipe_accepts resp) _ s s' h in
        (λ resp' e. (pipe_accepts_iff resp').0 (ap pipe_accepts (sym (some-injective e)) ∙ a), q),
    λ h. rw ((pipe_accepts_iff resp).1 (h.0 resp refl)) (ap (λ t. (ok tt, t)) h.1),
  )

  pipelining_iff :
      (key : Text) (s s' : State)
      → (pipelining c debug key s ≡ (ok tt, s')) ↔ Talk c (pipe (pipe_payload key) ∷ []) s s'
  unfolding pipelining
  pipelining_iff key s s' =
      let r = c.pipeline (pipe_payload key) s in
      (
        λ h. let (a, q) = (check_pipe_iff r s').0 h in (r.1, (r.0, refl, a), q),
        λ h.
            let (m, (o, e, a), q) = h in
            (check_pipe_iff r s').1
              (λ resp f. a resp (sym (ap (λ p. p.0) e) ∙ f), ap (λ p. p.1) e ∙ q),
      )

  pub Implements-expect :
      (what : Text) (args : List Text) (accepts : Text → Bool) (complaint : Text) (reply : Reply)
      → ((res : Text) → (accepts res ≡ true) ↔ Accepts reply res)
      → Implements c (expect c debug what args accepts complaint) (say args reply ∷ [])
  Implements-expect what args accepts complaint reply law = record {
    succeeds_iff = expect_iff what args accepts complaint reply law;
  }

  pub Implements-send_anyway :
      (args : List Text) → Implements c (send_anyway c debug args) (say_anyway args ∷ [])
  Implements-send_anyway args = record { succeeds_iff = send_anyway_iff args }

  pub Implements-wait : (ns : ℕ) → Implements c (wait c debug ns) (pause ns ∷ [])
  Implements-wait ns = record { succeeds_iff = wait_iff ns }

  pub Implements-pipelining :
      (key : Text) → Implements c (pipelining c debug key) (pipe (pipe_payload key) ∷ [])
  Implements-pipelining key = record { succeeds_iff = pipelining_iff key }
