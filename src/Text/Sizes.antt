-- ===== src/Text/Sizes.antt =====
-- Trimming and cutting make no text longer.
use subdollar_llm_coding_ben.Base.{
  ap₂, Option-cases, ℕ-cases, ℕ, zero, suc, ◌≤◌, ◌≡◌, refl, List, [], ◌∷◌, reverse, arith, length,
  length-append, Option, none, some, All, inl, inr,
}
use mathlib.Core.Option.{some-ne-none}
use mathlib.Core.List.{reverse-append}
use subdollar_llm_coding_ben.Text.Search.{Text}
use subdollar_llm_coding_ben.Text.Space.{
  space_len, space_len_back, skip_space, trim, trim_start, trim_end,
}
use subdollar_llm_coding_ben.Text.Lines.{first_some}

length-reverse : (s : Text) → length (reverse s) ≡ length s
length-reverse [] = refl
length-reverse (c ∷ s) =
    rw (reverse-append (c ∷ []) s)
      (omega (arith, length-append (reverse s) (c ∷ []), length-reverse s))

length-skip_space : (len : Text → ℕ) (k : ℕ) (s : Text) → length (skip_space len k s) ≤ length s
unfolding skip_space
length-skip_space len k [] = omega arith
length-skip_space len (suc k) (c ∷ s) = omega (arith, length-skip_space len k s)
length-skip_space len zero (c ∷ s) = elim (ℕ-cases (len (c ∷ s))) [
  | inl e ↦ rw (e, skip_space) (omega arith)
  | inr (k, e) ↦ rw (e, skip_space) (omega (arith, length-skip_space len k s))
]

length-trim_end : (s : Text) → length (trim_end s) ≤ length s
unfolding trim_end
length-trim_end s =
    let skipped = length-skip_space space_len_back 0 (reverse s) in
    omega
      (arith, skipped, length-reverse s, length-reverse (skip_space space_len_back 0 (reverse s)))

pub length-trim : (s : Text) → length (trim s) ≤ length s
unfolding trim trim_start
length-trim s = omega (arith, length-trim_end (trim_start s), length-skip_space space_len 0 s)

-- Loops with an early return agree where their steps agree.
pub first_some_ext {ℓ κ} :
    {A : Type ℓ} {B : Type κ} (f g : A → Option B) (xs : List A)
    → All (λ x. f x ≡ g x) xs
    → first_some f xs ≡ first_some g xs
unfolding first_some
first_some_ext f g [] h = refl
first_some_ext f g (x ∷ xs) (h, hs) =
    ap₂ (λ o r. elim o [ none ↦ r | some b ↦ some b ]) h (first_some_ext f g xs hs)

-- Such a loop finds nothing only if no step does.
pub first_some-eq-none {ℓ κ} :
    {A : Type ℓ} {B : Type κ} (f : A → Option B) (xs : List A)
    → first_some f xs ≡ none
    → All (λ x. f x ≡ none) xs
unfolding first_some
first_some-eq-none f [] h = tt
first_some-eq-none f (x ∷ xs) h = elim (Option-cases (f x)) [
  | inl e ↦ (e, first_some-eq-none f xs (rw (e, first_some) at h))
  | inr (b, e) ↦ absurd (some-ne-none _ (rw (e, first_some) at h))
]
