-- ===== src/Report/Html/Escaped.antt =====
-- What `esc` makes of a text.
use subdollar_llm_coding_ben.Base.{
  All-append, ap₂, ℕ, ◌≡◌, ◌≢◌, refl, sym, ap, ◌∙◌, subst, Bool-cases, inl, inr, [], ◌∷◌, ◌++◌,
  append_assoc, if◌then◌else◌, ◌==◌, All, arith,
}
use subdollar_llm_coding_ben.Text.{Text, codes}
use subdollar_llm_coding_ben.Report.Html.{replace, esc}

-- How a character stands in HTML.
abbrev pub entity_of : ℕ → Text
entity_of c =
    if c == b'&'
    then codes "&amp;"
    else if c == b'<'
    then codes "&lt;"
    else if c == b'>'
    then codes "&gt;"
    else if c == b'"'
    then codes "&quot;"
    else c ∷ []

-- Every character by itself.
pub escape_each : Text → Text
escape_each [] = []
escape_each (c ∷ s) = entity_of c ++ escape_each s

replace-append : (c : ℕ) (t a b : Text) → replace c t (a ++ b) ≡ replace c t a ++ replace c t b
unfolding replace
replace-append c t [] b = refl
replace-append c t (x ∷ a) b = elim (Bool-cases (x == c)) [
  | inl e ↦
      rw (e) (
        ap (◌++◌ t) (replace-append c t a b) ∙ sym (append_assoc t (replace c t a) (replace c t b)))
  | inr e ↦ rw (e) (ap (λ r. x ∷ r) (replace-append c t a b))
]

esc-append : (a b : Text) → esc (a ++ b) ≡ esc a ++ esc b
unfolding esc
esc-append a b =
    rw
      (
        replace-append b'&' (codes "&amp;") a b,
        replace-append b'<' (codes "&lt;") (replace b'&' (codes "&amp;") a)
            (replace b'&' (codes "&amp;") b),
        replace-append b'>' (codes "&gt;")
            (replace b'<' (codes "&lt;") (replace b'&' (codes "&amp;") a))
            (replace b'<' (codes "&lt;") (replace b'&' (codes "&amp;") b)),
      )
      (replace-append b'"' (codes "&quot;") _ _)

esc-entity_of : (c : ℕ) → esc (c ∷ []) ≡ entity_of c
unfolding esc replace
esc-entity_of c = elim (Bool-cases (c == b'&')) [
  | inl e ↦ let same : c ≡ b'&' = ground arith in rw (same) refl
  | inr e ↦ elim (Bool-cases (c == b'<')) [
    | inl k ↦ let same : c ≡ b'<' = ground arith in rw (same) refl
    | inr k ↦ elim (Bool-cases (c == b'>')) [
      | inl j ↦ let same : c ≡ b'>' = ground arith in rw (same) refl
      | inr j ↦ elim (Bool-cases (c == b'"')) [
        | inl i ↦ let same : c ≡ b'"' = ground arith in rw (same) refl
        | inr i ↦ rw (e, k, j, i) refl
      ]
    ]
  ]
]

-- The four replacements of esc, one behind another, are one replacement of every character by itself: none
-- of them changes what another has put in.
pub esc-escape_each : (s : Text) → esc s ≡ escape_each s
unfolding escape_each
esc-escape_each [] = nothing_to_do
  where
    nothing_to_do : esc [] ≡ []
    nothing_to_do = unfold esc in unfold replace in refl
esc-escape_each (c ∷ s) = esc-append (c ∷ []) s ∙ ap₂ ◌++◌ (esc-entity_of c) (esc-escape_each s)

-- A character that neither opens a tag nor ends an attribute.
abbrev pub IsInert : ℕ → Type 0
IsInert c = (c ≢ b'<') × (c ≢ b'>') × (c ≢ b'"')

entity_of-IsInert : (c : ℕ) → All IsInert (entity_of c)
entity_of-IsInert c = ground arith

escape_each-IsInert : (s : Text) → All IsInert (escape_each s)
unfolding escape_each
escape_each-IsInert [] = tt
escape_each-IsInert (c ∷ s) =
    All-append IsInert (entity_of c) (escape_each s) (entity_of-IsInert c) (escape_each-IsInert s)

-- What esc returns holds no character that opens a tag or ends an attribute.
pub esc-IsInert : (s : Text) → All IsInert (esc s)
esc-IsInert s = subst (All IsInert) (sym (esc-escape_each s)) (escape_each-IsInert s)
