-- ===== src/Stage/Returns.antt =====
-- Postconditions of steps: what holds of the value of a step that succeeds.
use subdollar_llm_coding_ben.Base.{◌≡◌, refl, subst}
use subdollar_llm_coding_ben.Text.{Text}
use subdollar_llm_coding_ben.Stage.{Result, ok, err, Step, bind_result, err-ne-ok}

-- A step's result satisfies `P`, if it is no error.
abbrev pub Yields {ℓ} : {S A : Type 0} → (A → Type ℓ) → Result A × S → Type ℓ
Yields P (ok a, s) = P a
Yields P (err e, s) = Unit

abbrev pub Returns {ℓ} : {S A : Type 0} → Step S A → (A → Type ℓ) → Type ℓ
Returns {S = S} m P = (s : S) → Yields P (m s)

pub Yields-bind :
    {S A B : Type 0} (k : A → Step S B) (P : A → Type 0) (Q : B → Type 0) (r : Result A × S)
    → Yields P r
    → ((a : A) (s : S) → P a → Yields Q (k a s))
    → Yields Q (bind_result k r)
Yields-bind k P Q (ok a, s) p hk = hk a s p
Yields-bind k P Q (err e, s) p hk = tt

-- Where nothing of the first value matters.
pub Yields-after :
    {S A B : Type 0} (k : A → Step S B) (Q : B → Type 0) (r : Result A × S)
    → ((a : A) (s : S) → Yields Q (k a s))
    → Yields Q (bind_result k r)
Yields-after k Q (ok a, s) hk = hk a s
Yields-after k Q (err e, s) hk = tt

-- Where the first step is known by its run.
pub Yields-run :
    {S A B : Type 0} (k : A → Step S B) (Q : B → Type 0) (r : Result A × S)
    → ((a : A) (s : S) → r ≡ (ok a, s) → Yields Q (k a s))
    → Yields Q (bind_result k r)
Yields-run k Q (ok a, s) hk = hk a s refl
Yields-run k Q (err e, s) hk = tt

-- A step that succeeds.
pub Yields-ok :
    {S A : Type 0} (P : A → Type 0) (r : Result A × S) (a : A) → Yields P r → r.0 ≡ ok a → P a
Yields-ok P (ok b, s) a p e = subst P (cc) p
Yields-ok P (err why, s) a p e = absurd (err-ne-ok e)

pub Yields-any : {S A : Type 0} (P : A → Type 0) (r : Result A × S) → ((a : A) → P a) → Yields P r
Yields-any P (ok a, s) h = h a
Yields-any P (err e, s) h = tt

pub Yields-weaken :
    {S A : Type 0} (P Q : A → Type 0) (r : Result A × S)
    → ((a : A) → P a → Q a)
    → Yields P r
    → Yields Q r
Yields-weaken P Q (ok a, s) h p = h a p
Yields-weaken P Q (err e, s) h p = tt

-- A step ends with a value and a state as in `P`, or with an error and a state as in `E`.
abbrev pub Ends {ℓ} :
    {S A : Type 0} → (A → S → Type ℓ) → (Text → S → Type ℓ) → Result A × S → Type ℓ
Ends P E (ok a, s) = P a s
Ends P E (err e, s) = E e s

pub Ends-bind :
    {S A B : Type 0} (k : A → Step S B) (P : A → S → Type 0) (Q : B → S → Type 0)
    (E : Text → S → Type 0) (r : Result A × S)
    → Ends P E r
    → ((a : A) (s : S) → P a s → Ends Q E (k a s))
    → Ends Q E (bind_result k r)
Ends-bind k P Q E (ok a, s) p hk = hk a s p
Ends-bind k P Q E (err e, s) p hk = p

pub Ends-weaken :
    {S A : Type 0} (P Q : A → S → Type 0) (E : Text → S → Type 0) (r : Result A × S)
    → ((a : A) (s : S) → P a s → Q a s)
    → Ends P E r
    → Ends Q E r
Ends-weaken P Q E (ok a, s) h p = h a s p
Ends-weaken P Q E (err e, s) h p = p

pub Ends-ok :
    {S A : Type 0} (P : S → Type 0) (E : Text → S → Type 0) (r : Result A × S) (a : A)
    → Ends (λ b s. P s) E r
    → r.0 ≡ ok a
    → P r.1
Ends-ok P E (ok b, s) a p e = p
Ends-ok P E (err why, s) a p e = absurd (err-ne-ok e)
