-- ===== src/Text/Occurs.antt =====
-- When `contains` finds a text in another.
use subdollar_llm_coding_ben.Base.{
  ◌≡◌, ◌↔◌, refl, ap, ◌∙◌, true, Bool-cases, inl, inr, [], ◌∷◌, ◌++◌, arith,
}
use subdollar_llm_coding_ben.Text.Search.{Text, starts_with, starts_with-append, contains}

-- `p` stands somewhere in `t`.
abbrev pub Occurs : Text → Text → Type 0
Occurs p t = (before after : Text) × (t ≡ before ++ (p ++ after))

pub start_of : (s p : Text) → starts_with s p ≡ true → (after : Text) × (s ≡ p ++ after)
unfolding starts_with
start_of s [] h = (s, refl)
start_of [] (x ∷ p) h = absurd cc
start_of (c ∷ s) (x ∷ p) h =
    let same : c ≡ x = ground arith in
    let rest : starts_with s p ≡ true = ground arith in
    let (after, e) = start_of s p rest in (after, λ i. same i ∷ e i)

occurs : (t p : Text) → contains t p ≡ true → Occurs p t
unfolding contains
occurs [] [] h = ([], [], refl)
occurs [] (x ∷ p) h = absurd cc
occurs (c ∷ t) p h = elim (Bool-cases (starts_with (c ∷ t) p)) [
  | inl e ↦ let (after, q) = start_of (c ∷ t) p e in ([], after, q)
  | inr e ↦
      let (before, after, q) = occurs t p (rw (e, contains) at h) in
      (c ∷ before, after, ap (λ r. c ∷ r) q)
]

found : (before p after : Text) → contains (before ++ (p ++ after)) p ≡ true
unfolding contains starts_with
found [] [] [] = refl
found [] [] (c ∷ after) = refl
found [] (x ∷ p) after = rw (starts_with-append (x ∷ p) after) refl
found (c ∷ before) p after = elim (Bool-cases (starts_with (c ∷ (before ++ (p ++ after))) p)) [
  | inl e ↦ rw (e, contains) refl
  | inr e ↦ rw (e, contains) (found before p after)
]

pub contains_iff : (t p : Text) → (contains t p ≡ true) ↔ Occurs p t
contains_iff t p =
    (occurs t p, λ (before, after, e). ap (λ s. contains s p) e ∙ found before p after)
