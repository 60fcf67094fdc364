-- ===== src/Compliance/Tokens/Sizes.antt =====
-- A cleaned token is no longer than the token.
use subdollar_llm_coding_ben.Base.{
  ℕ, ◌-◌, ◌≤◌, ◌&&◌, ◌||◌, arith, length, take, length-take, drop, length-drop, Bool-cases, inl,
  inr,
}
use subdollar_llm_coding_ben.Text.{Text, codes, trim, starts_with, ends_with, length-trim}
use subdollar_llm_coding_ben.Compliance.Tokens.{
  enclosed, clean_token, strip_substitution, strip_backticks, strip_quotes,
}

length-inside : (n : ℕ) (t : Text) → length (drop n (take (length t - 1) t)) ≤ length t
length-inside n t =
    omega (arith, length-drop n (take (length t - 1) t), length-take (length t - 1) t)

length-strip_substitution : (t : Text) → length (strip_substitution t) ≤ length t
unfolding strip_substitution
length-strip_substitution t =
    elim (Bool-cases (starts_with t (codes "$(") && ends_with t (codes ")"))) [
      | inl e ↦ rw (e) (length-inside 2 t)
      | inr e ↦ rw (e) (omega arith)
    ]

length-strip_backticks : (t : Text) → length (strip_backticks t) ≤ length t
unfolding strip_backticks
length-strip_backticks t = elim (Bool-cases (enclosed (codes "`") t)) [
  | inl e ↦ rw (e) (length-inside 1 t)
  | inr e ↦ rw (e) (omega arith)
]

length-strip_quotes : (t : Text) → length (strip_quotes t) ≤ length t
unfolding strip_quotes
length-strip_quotes t = elim (Bool-cases (enclosed (codes "\"") t || enclosed (codes "'") t)) [
  | inl e ↦ rw (e) (length-inside 1 t)
  | inr e ↦ rw (e) (omega arith)
]

pub length-clean_token : (t : Text) → length (clean_token t) ≤ length t
unfolding clean_token
length-clean_token t =
    let t1 = strip_substitution (trim t) in
    let t2 = strip_backticks t1 in
    omega (
      arith,
      length-trim t,
      length-strip_substitution (trim t),
      length-strip_backticks t1,
      length-strip_quotes t2,
      length-trim (strip_quotes t2),
    )
