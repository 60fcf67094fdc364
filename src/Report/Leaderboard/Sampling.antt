-- ===== src/Report/Leaderboard/Sampling.antt =====
-- `compute_pass_at_k` as the chance that a sample of trials holds a success.
use native.Mathlib.Nat.{mul-sub}
use subdollar_llm_coding_ben.Base.{
  Bool-cases, inl, inr, ltb→lt, ℕ, zero, suc, ◌+◌, ◌-◌, ◌*◌, ◌≤◌, ◌<◌, ◌≡◌, refl, sym, ap, ap₂, ◌∙◌,
  Bool, true, false, List, [], ◌∷◌, ◌++◌, map, arith, if◌then◌else◌, length, length-append, any,
  ltb,
}
use subdollar_llm_coding_ben.Report.Leaderboard.{Fraction, falling, compute_pass_at_k}

-- The samples of `k` of the trials; a trial is true if it is a success.
pub samples : ℕ → List Bool → List (List Bool)
samples zero ts = [] ∷ []
samples (suc k) [] = []
samples (suc k) (t ∷ ts) = map (λ s. t ∷ s) (samples k ts) ++ samples (suc k) ts

pub count_successes : List Bool → ℕ
count_successes [] = 0
count_successes (true ∷ ts) = suc (count_successes ts)
count_successes (false ∷ ts) = count_successes ts

-- The samples without a success.
pub count_failing : List (List Bool) → ℕ
count_failing [] = 0
count_failing (s ∷ ss) = (if any (λ t. t) s then 0 else 1) + count_failing ss

-- The number of choices of `k` out of `n`.
choose : ℕ → ℕ → ℕ
choose n zero = 1
choose zero (suc k) = 0
choose (suc n) (suc k) = choose n k + choose n (suc k)

factorial : ℕ → ℕ
factorial zero = 1
factorial (suc k) = suc k * factorial k

choose-absorb : (n k : ℕ) → suc k * choose (suc n) (suc k) ≡ suc n * choose n k
unfolding choose
choose-absorb zero zero = refl
choose-absorb zero (suc k) = omega arith
choose-absorb (suc n) zero = omega (arith, choose-absorb n zero)
choose-absorb (suc n) (suc k) = grind (arith, choose-absorb n k, choose-absorb n (suc k))

falling-choose : (n k : ℕ) → falling n k ≡ factorial k * choose n k
unfolding falling choose factorial
falling-choose n zero = refl
falling-choose zero (suc k) = omega arith
falling-choose (suc n) (suc k) =
    let scaled = ap (λ (t : ℕ). factorial k * t) (choose-absorb n k) in
    let shorter = ap (λ (t : ℕ). suc n * t) (falling-choose n k) in
    let pred : suc n - 1 ≡ n = omega arith in rw (pred) (grind (arith, scaled, shorter))

length-map {ℓ κ} :
    {A : Type ℓ} {B : Type κ} (g : A → B) (xs : List A) → length (map g xs) ≡ length xs
length-map g [] = refl
length-map g (x ∷ xs) = ap suc (length-map g xs)

length-samples : (k : ℕ) (ts : List Bool) → length (samples k ts) ≡ choose (length ts) k
unfolding samples choose
length-samples zero ts = refl
length-samples (suc k) [] = refl
length-samples (suc k) (t ∷ ts) =
    length-append (map (λ s. t ∷ s) (samples k ts)) (samples (suc k) ts)
    ∙ ap₂ ◌+◌ (length-map (λ s. t ∷ s) (samples k ts) ∙ length-samples k ts)
        (length-samples (suc k) ts)

count_failing-append :
    (xs ys : List (List Bool)) → count_failing (xs ++ ys) ≡ count_failing xs + count_failing ys
unfolding count_failing
count_failing-append [] ys = omega arith
count_failing-append (x ∷ xs) ys = omega (arith, count_failing-append xs ys)

count_failing-true : (ss : List (List Bool)) → count_failing (map (λ s. true ∷ s) ss) ≡ 0
unfolding count_failing
count_failing-true [] = refl
count_failing-true (s ∷ ss) = omega (arith, count_failing-true ss)

count_failing-false :
    (ss : List (List Bool)) → count_failing (map (λ s. false ∷ s) ss) ≡ count_failing ss
unfolding count_failing
count_failing-false [] = refl
count_failing-false (s ∷ ss) = omega (arith, count_failing-false ss)

count_successes-le : (ts : List Bool) → count_successes ts ≤ length ts
unfolding count_successes
count_successes-le [] = omega arith
count_successes-le (true ∷ ts) = omega (arith, count_successes-le ts)
count_successes-le (false ∷ ts) = omega (arith, count_successes-le ts)

-- The samples without a success are those of the failures.
count_failing-samples :
    (k : ℕ) (ts : List Bool)
    → count_failing (samples k ts) ≡ choose (length ts - count_successes ts) k
unfolding samples choose count_failing count_successes
count_failing-samples zero ts = refl
count_failing-samples (suc k) [] = refl
count_failing-samples (suc k) (true ∷ ts) =
    let same : suc (length ts) - suc (count_successes ts) ≡ length ts - count_successes ts =
      omega arith in
    count_failing-append (map (λ s. true ∷ s) (samples k ts)) (samples (suc k) ts)
    ∙ ap₂ ◌+◌ (count_failing-true (samples k ts)) (count_failing-samples (suc k) ts)
    ∙ rw (same) (omega arith)
count_failing-samples (suc k) (false ∷ ts) =
    let more : suc (length ts) - count_successes ts ≡ suc (length ts - count_successes ts) =
      omega (arith, count_successes-le ts) in
    count_failing-append (map (λ s. false ∷ s) (samples k ts)) (samples (suc k) ts)
    ∙ ap₂ ◌+◌ (count_failing-false (samples k ts) ∙ count_failing-samples k ts)
        (count_failing-samples (suc k) ts)
    ∙ rw (more) refl

choose_small : (n k : ℕ) → n < k → choose n k ≡ 0
unfolding choose
choose_small n zero h = elim h [ ]
choose_small zero (suc k) h = refl
choose_small (suc n) (suc k) h =
    omega (arith, choose_small n k (omega arith), choose_small n (suc k) (omega arith))

-- The code's three branches, for 1 ≤ k ≤ n and c ≤ n.
pass_none : (n k : ℕ) → 0 < k → k ≤ n → compute_pass_at_k n 0 k ≡ record { num = 0; den = 1 }
unfolding compute_pass_at_k
pass_none n k h l = ground arith

pass_sure :
    (n c k : ℕ)
    → 0 < c
    → c ≤ n
    → 0 < k
    → k ≤ n
    → n - c < k
    → compute_pass_at_k n c k ≡ record { num = 1; den = 1 }
unfolding compute_pass_at_k
pass_sure n c k p q h l less = ground arith

pass_drawn :
    (n c k : ℕ)
    → 0 < c
    → c ≤ n
    → 0 < k
    → k ≤ n
    → k ≤ n - c
    → compute_pass_at_k n c k ≡ record { num = falling n k - falling (n - c) k; den = falling n k }
unfolding compute_pass_at_k
pass_drawn n c k p q h l enough = ground arith

cross : (g a b : ℕ) → (g * a - g * b) * a ≡ (a - b) * (g * a)
cross g a b = rw (sym (mul-sub g a b)) (grind arith)

-- The fraction, crosswise, with the choices.
Crosswise : ℕ → ℕ → ℕ → Fraction → Type 0
Crosswise n c k r = r.num * choose n k ≡ (choose n k - choose (n - c) k) * r.den

pass-Crosswise : (n c k : ℕ) → c ≤ n → 0 < k → k ≤ n → Crosswise n c k (compute_pass_at_k n c k)
unfolding Crosswise
pass-Crosswise n zero k q h l =
    let all : n - 0 ≡ n = omega arith in rw (pass_none n k h l, all) (omega arith)
pass-Crosswise n (suc c) k q h l = elim (Bool-cases (ltb (n - suc c) k)) [
  | inl e ↦
      let less = ltb→lt (n - suc c) k e in
      rw (pass_sure n (suc c) k (omega arith) q h l less, choose_small (n - suc c) k less)
        (omega arith)
  | inr e ↦
      rw
        (
          pass_drawn n (suc c) k (omega arith) q h l (ground arith),
          falling-choose n k,
          falling-choose (n - suc c) k,
        )
        (cross (factorial k) (choose n k) (choose (n - suc c) k))
]

-- For trials and a sample size from 1 to their number, compute_pass_at_k of the numbers of trials and
-- successes is the share of the samples of that size that hold a success, as a fraction: crosswise
-- multiplication makes it equal to the number of those samples over the number of all.
pub compute_pass_at_k-samples :
    (k : ℕ) (ts : List Bool)
    → 0 < k
    → k ≤ length ts
    → (compute_pass_at_k (length ts) (count_successes ts) k).num * length (samples k ts)
      ≡ (length (samples k ts) - count_failing (samples k ts))
        * (compute_pass_at_k (length ts) (count_successes ts) k).den
compute_pass_at_k-samples k ts h l =
    rw (length-samples k ts, count_failing-samples k ts)
      (unfold Crosswise in
        pass-Crosswise (length ts) (count_successes ts) k (count_successes-le ts) h l)
