-- ===== src/Stage.antt =====
-- src/verifier/mod.rs, and what the verifiers share: results with an error text, one stage's result,
-- and the summary that each `run_all` makes of its stages.
pub mod Returns
use subdollar_llm_coding_ben.Base.{
  refl, ap, Bool-cases, inl, inr, ℕ, suc, ◌*◌, ◌≤◌, ◌≡◌, Bool, true, false, Option, none, some,
  List, [], ◌∷◌, arith, if◌then◌else◌, length, All,
}
use subdollar_llm_coding_ben.Text.{Text}

-- `Result<A, E>`; of an error only its text is read.
pub data Result {ℓ} (A : Type ℓ) : Type ℓ where
  ok : A → Result A
  err : Text → Result A

abbrev pub map_err {ℓ} : {A : Type ℓ} → (Text → Text) → Result A → Result A
map_err f (ok a) = ok a
map_err f (err e) = err (f e)

abbrev pub is_ok {ℓ} : {A : Type ℓ} → Result A → Bool
is_ok (ok a) = true
is_ok (err e) = false

pub record StageResult : Type 0 where
  pub stage : ℕ
  pub name : Text
  pub passed : Bool
  pub error : Option Text

-- The two literals of `StageResult` that the stages return.
abbrev pub pass : ℕ → Text → StageResult
pass n name = record { stage = n; name = name; passed = true; error = none }

abbrev pub fail : ℕ → Text → Text → StageResult
fail n name why = record { stage = n; name = name; passed = false; error = some why }

-- A stage that returns early with an error is a result.
abbrev pub stage_result : ℕ → Text → Result (Unit {0}) → StageResult
stage_result n name (ok u) = pass n name
stage_result n name (err why) = fail n name why

-- A part of a stage: it changes the connection, and may end the stage with an error.
abbrev pub Step : Type 0 → Type 0 → Type 0
Step S A = S → Result A × S

abbrev pub bind_result : {S A B : Type 0} → (A → Step S B) → Result A × S → Result B × S
bind_result f (ok a, s) = f a s
bind_result f (err e, s) = (err e, s)

infixl 5 ◌>>=◌ ◌>>◌
abbrev pub ◌>>=◌ : {S A B : Type 0} → Step S A → (A → Step S B) → Step S B
◌>>=◌ m f s = bind_result f (m s)

abbrev pub ◌>>◌ : {S B : Type 0} → Step S (Unit {0}) → Step S B → Step S B
m >> k = m >>= λ _. k

abbrev pub ensure : {S : Type 0} → Bool → Text → Step S (Unit {0})
ensure true why s = (ok tt, s)
ensure false why s = (err why, s)

-- A percentage, as the fraction `part / whole`: `passed_count / total_stages * 100`.
pub record Rate : Type 0 where
  pub part : ℕ
  pub whole : ℕ

pub record Summary : Type 0 where
  pub stages : List StageResult
  pub passed_count : ℕ
  pub total_stages : ℕ
  pub pass_rate : Rate

-- `stages.iter().filter(|s| s.passed).count()`
unfoldable pub count_passed : List StageResult → ℕ
count_passed [] = 0
count_passed (s ∷ stages) = if s.passed then suc (count_passed stages) else count_passed stages

-- The end of `run_all`.
unfoldable pub summarize : List StageResult → Summary
unfolding count_passed
summarize stages = record {
  stages = stages;
  passed_count = count_passed stages;
  total_stages = length stages;
  pass_rate = record { part = 100 * count_passed stages; whole = length stages };
}

pub count_passed-le : (stages : List StageResult) → count_passed stages ≤ length stages
unfolding count_passed
count_passed-le [] = omega arith
count_passed-le (s ∷ stages) = ground (arith, count_passed-le stages)

-- All stages are counted exactly when each has passed.
pub count_passed-All :
    (stages : List StageResult)
    → count_passed stages ≡ length stages
    → All (λ s. s.passed ≡ true) stages
unfolding count_passed
count_passed-All [] h = tt
count_passed-All (s ∷ stages) h = elim (Bool-cases s.passed) [
  | inl e ↦ (e, count_passed-All stages (ground arith))
  | inr e ↦ absurd (ground (arith, count_passed-le stages))
]

-- What a step that succeeds has done.
pub err-ne-ok : {A : Type 0} {why : Text} {a : A} → err why ≡ ok a → ⊥
err-ne-ok h = cc

pub ensure-eq-ok :
    {State : Type 0} (b : Bool) (why : Text) (s s' : State)
    → ensure b why s ≡ (ok tt, s')
    → (b ≡ true) × (s ≡ s')
ensure-eq-ok true why s s' h = (refl, ap (λ p. p.1) h)
ensure-eq-ok false why s s' h = absurd (err-ne-ok (ap (λ p. p.0) h))

pub bind_result-eq-ok :
    {State A B : Type 0} (f : A → Step State B) (m : Result A × State) (b : B) (s' : State)
    → bind_result f m ≡ (ok b, s')
    → (a : A) × (m.0 ≡ ok a) × (f a m.1 ≡ (ok b, s'))
bind_result-eq-ok f (ok a, s) b s' h = (a, refl, h)
bind_result-eq-ok f (err e, s) b s' h = absurd cc
