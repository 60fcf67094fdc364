-- ===== src/Http/Stages/Leaks.antt =====
-- What stage 5 of the HTTP verifier takes for a leak, in place of its Boolean test.
use mathlib.Core.Bool.{false≢true}
use subdollar_llm_coding_ben.Base.{
  arith, Bool, true, false, ◌≡◌, ◌↔◌, ◌⊎◌, ◌||◌, refl, [], inl, inr,
}
use subdollar_llm_coding_ben.Text.{Text, codes, contains}
use subdollar_llm_coding_ben.Text.Occurs.{Occurs, contains_iff}
use subdollar_llm_coding_ben.Stage.{Result, ok, err}
use subdollar_llm_coding_ben.Http.Requests.{Response}
use subdollar_llm_coding_ben.Http.Stages.{body_or_default, leaks}

-- What the verifier takes for sensitive content: one of three markers stands in the text.
abbrev pub IsSensitive : Text → Type 0
IsSensitive text =
    Occurs (codes "root:") text ⊎ Occurs (codes "#!/bin") text ⊎ Occurs (codes "exec ") text

-- The response has status 200, and its body could be read and is sensitive.
abbrev pub Leaks : Response → Type 0
Leaks resp = (resp.status ≡ 200) × (text : Text) × (resp.body ≡ ok text) × IsSensitive text

any_of :
    (a b c : Bool) {P Q R : Type 0}
    → ((a ≡ true) ↔ P)
    → ((b ≡ true) ↔ Q)
    → ((c ≡ true) ↔ R)
    → (a || b || c ≡ true) ↔ (P ⊎ Q ⊎ R)
any_of true b c p q r = (λ h. inl (p.0 refl), λ h. refl)
any_of false true c p q r = (λ h. inr (inl (q.0 refl)), λ h. refl)
any_of false false c p q r = (
  λ h. inr (inr (r.0 h)),
  λ h. elim h [
    | inl x ↦ absurd (false≢true (p.1 x))
    | inr y ↦ elim y [ inl z ↦ absurd (false≢true (q.1 z)) | inr z ↦ r.1 z ]
  ],
)

marked_iff :
    (text : Text)
    → (contains text (codes "root:")
          || contains text (codes "#!/bin")
          || contains text (codes "exec ")
        ≡ true)
      ↔ IsSensitive text
marked_iff text =
    any_of _ _ _ (contains_iff text (codes "root:")) (contains_iff text (codes "#!/bin"))
      (contains_iff text (codes "exec "))

no_marker :
    contains [] (codes "root:") || contains [] (codes "#!/bin") || contains [] (codes "exec ")
      ≡ true
    → ⊥
unfolding contains
no_marker h = false≢true h

pub leaks_iff : (resp : Response) → (leaks resp ≡ true) ↔ Leaks resp
unfolding leaks
leaks_iff resp = (
  λ h. of_body resp.body refl (ground arith) (ground arith),
  λ (ok_status, text, e, marked). rw (ok_status, e) ((marked_iff text).1 marked),
)
  where
    of_body :
        (body : Result Text)
        → resp.body ≡ body
        → resp.status ≡ 200
        → contains (body_or_default body) (codes "root:")
            || contains (body_or_default body) (codes "#!/bin")
            || contains (body_or_default body) (codes "exec ")
          ≡ true
        → Leaks resp
    of_body (ok text) e status h = (status, text, e, (marked_iff text).0 h)
    of_body (err why) e status h = absurd (no_marker h)
