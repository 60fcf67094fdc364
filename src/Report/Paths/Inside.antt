-- ===== src/Report/Paths/Inside.antt =====
-- Paths that lead nowhere but down.
use subdollar_llm_coding_ben.Base.{
  subst, ◌⊎◌, ◌||◌, ℕ, ◌≡◌, refl, sym, ap, ◌∙◌, true, false, none, some, List, [], ◌∷◌, ◌++◌,
  append_assoc, ◌==◌, All, Bool-cases, inl, inr, arith, ◌≢◌, append-nil,
}
use subdollar_llm_coding_ben.Text.{text_eq_iff, Text, codes, text_eq, starts_with, contains}
use subdollar_llm_coding_ben.Report.Paths.{
  keep_component, Component, root, parent, normal, push, split_slash, component_of,
  collect_components, components, resolve,
}

-- A piece is not `..`.
abbrev IsDown : Text → Type 0
IsDown p = p ≢ codes ".."

first : List Text → Text
first [] = []
first (p ∷ ps) = p

rest : List Text → List Text
rest [] = []
rest (p ∷ ps) = ps

first-push : (c : ℕ) (ps : List Text) → first (push c ps) ≡ c ∷ first ps
unfolding push first
first-push c [] = refl
first-push c (p ∷ ps) = refl

split_cases :
    (c : ℕ) (s : Text)
    → (split_slash (c ∷ s) ≡ [] ∷ split_slash s) ⊎ (split_slash (c ∷ s) ≡ push c (split_slash s))
unfolding split_slash
split_cases c s = elim (Bool-cases (c == b'/')) [
  | inl e ↦ inl (rw (e) refl)
  | inr e ↦ inr (rw (e) refl)
]

-- A first piece of one byte stands at the front.
first_at_front : (c : ℕ) (s : Text) → first (split_slash s) ≡ c ∷ [] → starts_with s (c ∷ []) ≡ true
unfolding starts_with first split_slash
first_at_front c [] h = absurd cc
first_at_front c (x ∷ s) h = elim (split_cases x s) [
  | inl e ↦ absurd (nil_cons (sym (ap first e) ∙ h))
  | inr e ↦ same (sym (first-push x (split_slash s)) ∙ sym (ap first e) ∙ h)
]
  where
    nil_cons : [] ≡ c ∷ [] → ⊥
    nil_cons k = cc

    same : x ∷ first (split_slash s) ≡ c ∷ [] → starts_with (x ∷ s) (c ∷ []) ≡ true
    same k = let e : x ≡ c = cc in rw (e) (ground arith)

push-IsDown :
    (c : ℕ) (ps : List Text) → All IsDown ps → c ∷ first ps ≢ codes ".." → All IsDown (push c ps)
unfolding push first
push-IsDown c [] h no_parent = (no_parent, tt)
push-IsDown c (p ∷ ps) (h, hs) no_parent = (no_parent, hs)

split_slash-IsDown : (s : Text) → contains s (codes "..") ≡ false → All IsDown (split_slash s)
unfolding split_slash contains starts_with
split_slash-IsDown [] h = (λ e. cc, tt)
split_slash-IsDown (c ∷ s) h =
    let below = split_slash-IsDown s (ground arith) in
    elim (split_cases c s) [
      | inl e ↦ subst (All IsDown) (sym e) (λ k. cc, below)
      | inr e ↦ subst (All IsDown) (sym e) (push-IsDown c (split_slash s) below dots)
    ]
  where
    dots : c ∷ first (split_slash s) ≢ codes ".."
    dots k =
        let at : c ≡ b'.' = cc in
        let one : first (split_slash s) ≡ codes "." = cc in
        let start = first_at_front b'.' s one in ground arith

-- A component that is a name.
abbrev pub IsName : Component → Type 0
IsName root = ⊥
IsName parent = ⊥
IsName (normal n) = Unit

component_of_cases :
    (p : Text) → IsDown p → (component_of p ≡ none) ⊎ (component_of p ≡ some (normal p))
unfolding component_of
component_of_cases p h = elim (Bool-cases (text_eq p (codes ".."))) [
  | inl e ↦ absurd (h ((text_eq_iff p (codes "..")).0 e))
  | inr e ↦ elim (Bool-cases (text_eq p [] || text_eq p (codes "."))) [
    | inl k ↦ inl (rw (k) refl)
    | inr k ↦ inr (rw (k, e) refl)
  ]
]

collect-IsName : (ps : List Text) → All IsDown ps → All IsName (collect_components ps)
unfolding collect_components keep_component
collect-IsName [] h = tt
collect-IsName (p ∷ ps) (h, hs) = elim (component_of_cases p h) [
  | inl e ↦
      subst (λ o. All IsName (keep_component o (collect_components ps))) (sym e)
        (collect-IsName ps hs)
  | inr e ↦
      subst (λ o. All IsName (keep_component o (collect_components ps))) (sym e)
        (tt, collect-IsName ps hs)
]

pub components-IsName :
    (s : Text)
    → contains s (codes "..") ≡ false
    → starts_with s (codes "/") ≡ false
    → All IsName (components s)
unfolding components
components-IsName s down relative =
    rw (relative) (collect-IsName (split_slash s) (split_slash-IsDown s down))

pub resolve-IsName :
    (at : List Text) (cs : List Component)
    → All IsName cs
    → (names : List Text) × (resolve at cs ≡ at ++ names)
unfolding resolve
resolve-IsName at [] h = ([], sym (append-nil at))
resolve-IsName at (root ∷ cs) (h, hs) = absurd h
resolve-IsName at (parent ∷ cs) (h, hs) = absurd h
resolve-IsName at (normal n ∷ cs) (h, hs) =
    let (names, e) = resolve-IsName (at ++ n ∷ []) cs hs in
    (n ∷ names, e ∙ append_assoc at (n ∷ []) names)
