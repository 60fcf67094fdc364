-- ===== src/Http/Requests/Checks.antt =====
-- What the stages ask of a response, and when the checks of one go well.
use subdollar_llm_coding_ben.Base.{
  true, ℕ, ◌≡◌, ◌↔◌, refl, ap, ◌∙◌, Bool, ◌++◌, ◌==◌, ==_iff, length,
}
use subdollar_llm_coding_ben.Text.{Text, codes, show, trim, text_eq, text_eq_iff, starts_with}
use subdollar_llm_coding_ben.Stage.{
  Result, ok, err, Step, bind_result, ◌>>=◌, ◌>>◌, ensure, map_err, err-ne-ok, ensure-eq-ok,
  bind_result-eq-ok,
}
use subdollar_llm_coding_ben.Http.Requests.{
  Request, Response, Web, header_of, request, expect_status, expect_plain_text, expect_length,
  expect_body, read_text,
}

-- What a stage may ask of a response.
abbrev pub HasStatus : ℕ → Response → Type 0
HasStatus status resp = resp.status ≡ status

abbrev pub IsPlainText : (Text → Text) → Response → Type 0
IsPlainText lower resp =
    starts_with (lower (header_of resp (codes "content-type"))) (codes "text/plain") ≡ true

-- The length in the header, and the body up to the space around it.
abbrev pub Holds : Text → Response → Type 0
Holds text resp =
    (header_of resp (codes "content-length") ≡ show (length text))
    × ((body : Text) × (resp.body ≡ ok body) × (trim body ≡ text))

module _ (w : Web) (lower : Text → Text) where
  open w use {State, send}

  -- The request is answered by a response of which `P` holds.
  abbrev pub Answered : Request → (Response → Type 0) → State → State → Type 0
  Answered r P s s' = (resp : Response) × (send r s ≡ (ok resp, s')) × P resp

  -- The check of a response changes nothing, and goes well exactly if `P` holds.
  abbrev pub Checks : (Response → Step State (Unit {0})) → (Response → Type 0) → Type 0
  Checks check P =
      (resp : Response) (s s' : State) → (check resp s ≡ (ok tt, s')) ↔ (P resp × (s ≡ s'))

  ensure_iff :
      (b : Bool) (why : Text) (s s' : State)
      → (ensure b why s ≡ (ok tt, s')) ↔ ((b ≡ true) × (s ≡ s'))
  ensure_iff b why s s' = (λ h. ensure-eq-ok b why s s' h, λ h. rw (h.0) (ap (λ t. (ok tt, t)) h.1))

  pub Checks-status :
      (status : ℕ) (why : Text) → Checks (expect_status w lower status why) (HasStatus status)
  unfolding expect_status
  Checks-status status why resp s s' =
      let checks = ensure_iff (resp.status == status) (why ++ w.status_text resp.status) s s' in
      let test = ==_iff resp.status status in
      (λ h. let (e, q) = checks.0 h in (test.0 e, q), λ h. checks.1 (test.1 h.0, h.1))

  pub Checks-IsPlainText : Checks (expect_plain_text w lower) (IsPlainText lower)
  unfolding expect_plain_text
  Checks-IsPlainText resp s s' = ensure_iff _ _ s s'

  pub Checks-length :
      (text : Text)
      → Checks
          (expect_length w lower text)
          (λ resp. header_of resp (codes "content-length") ≡ show (length text))
  unfolding expect_length
  Checks-length text resp s s' =
      let test = text_eq_iff (header_of resp (codes "content-length")) (show (length text)) in
      let checks =
        ensure_iff (text_eq (header_of resp (codes "content-length")) (show (length text))) _ s
          s' in
      (λ h. let (e, q) = checks.0 h in (test.0 e, q), λ h. checks.1 (test.1 h.0, h.1))

  pub Checks-body :
      (before text between : Text)
      → Checks
          (expect_body w lower before text between)
          (λ resp. (body : Text) × (resp.body ≡ ok body) × (trim body ≡ text))
  unfolding expect_body read_text
  Checks-body before text between resp s s' = (
    λ h.
        let (body, e, rest) = bind_result-eq-ok _ (resp.body, s) tt s' h in
        let (same, q) = ensure-eq-ok (text_eq (trim body) text) _ s s' rest in
        ((body, e, (text_eq_iff (trim body) text).0 same), q),
    λ h.
        let ((body, e, same), q) = h in
        rw (e, (text_eq_iff (trim body) text).1 same) (ap (λ t. (ok tt, t)) q),
  )

  -- Two checks behind each other.
  pub Checks-seq :
      {f g : Response → Step State (Unit {0})} {P Q : Response → Type 0}
      → Checks f P
      → Checks g Q
      → Checks (λ resp. f resp >> g resp) (λ resp. P resp × Q resp)
  Checks-seq {f} {g} hf hg resp s s' = (
    λ h.
        let (u, e, rest) = bind_result-eq-ok (λ _. g resp) (f resp s) tt s' h in
        let (p, q) = (hf resp s (f resp s).1).0 (λ i. (e i, (f resp s).1)) in
        let (p', q') = (hg resp (f resp s).1 s').0 rest in ((p, p'), q ∙ q'),
    λ h. rw ((hf resp s s).1 (h.0.0, refl)) ((hg resp s s').1 (h.0.1, h.1)),
  )

  -- A request whose response is checked.
  pub request_iff :
      (label : Text) (r : Request) {check : Response → Step State (Unit {0})}
      {P : Response → Type 0}
      → Checks check P
      → (s s' : State) → ((request w lower label r >>= check) s ≡ (ok tt, s')) ↔ Answered r P s s'
  unfolding request
  request_iff label r {check} {P} checks s s' = (
    λ h. split (send r s) refl h,
    λ h. let (resp, e, p) = h in rw (e) ((checks resp s' s').1 (p, refl)),
  )
    where
      split :
          (o : Result Response × State)
          → send r s ≡ o
          → bind_result check (map_err (λ e. label ++ e) o.0, o.1) ≡ (ok tt, s')
          → Answered r P s s'
      split (ok resp, t) e h =
          let (p, q) = (checks resp t s').0 h in (resp, e ∙ ap (λ x. (ok resp, x)) q, p)
      split (err why, t) e h = absurd (err-ne-ok (ap (λ p. p.0) h))
