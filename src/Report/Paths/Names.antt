-- ===== src/Report/Paths/Names.antt =====
-- What `file_name` returns is one name.
use mathlib.Core.Option.{some-ne-none, some-injective}
use subdollar_llm_coding_ben.Base.{
  subst, ◌||◌, ◌≡◌, refl, sym, ap, ◌∙◌, true, false, Option, none, some, List, [], ◌∷◌, ◌++◌, ◌==◌,
  All, Bool-cases, inl, inr, arith,
}
use subdollar_llm_coding_ben.Text.{Text, codes, text_eq, starts_with}
use subdollar_llm_coding_ben.Report.Paths.{
  keep_component, Component, root, parent, normal, push, split_slash, component_of,
  collect_components, components, last_name, file_name, resolve,
}

-- A piece between slashes has none.
abbrev IsPiece : Text → Type 0
IsPiece p = split_slash p ≡ p ∷ []

split_slash-IsPiece : (s : Text) → All IsPiece (split_slash s)
unfolding split_slash push
split_slash-IsPiece [] = (refl, tt)
split_slash-IsPiece (c ∷ s) = elim (Bool-cases (c == b'/')) [
  | inl e ↦ rw (e) (refl, split_slash-IsPiece s)
  | inr e ↦ rw (e) (pushed (split_slash s) (split_slash-IsPiece s) e)
]
  where
    pushed : (ps : List Text) → All IsPiece ps → (c == b'/') ≡ false → All IsPiece (push c ps)
    pushed [] h e = (rw (e) refl, tt)
    pushed (p ∷ ps) (h, hs) e = (rw (e) (ap (push c) h), hs)

-- A name that is a component by itself.
abbrev pub IsAlone : Component → Type 0
IsAlone root = Unit
IsAlone parent = Unit
IsAlone (normal n) = IsPiece n × (component_of n ≡ some (normal n))

component_of-IsAlone :
    (p : Text) → IsPiece p → (c : Component) → component_of p ≡ some c → IsAlone c
unfolding component_of
component_of-IsAlone p h root e = tt
component_of-IsAlone p h parent e = tt
component_of-IsAlone p h (normal n) e =
    let same : p ≡ n = named in
    subst (λ q. IsPiece q × (component_of q ≡ some (normal q))) same
      (h, e ∙ ap (λ q. some (normal q)) (sym same))
  where
    named : p ≡ n
    named = elim (Bool-cases (text_eq p [] || text_eq p (codes "."))) [
      | inl k ↦ let o : component_of p ≡ none = rw (k) refl in absurd cc
      | inr k ↦ elim (Bool-cases (text_eq p (codes ".."))) [
        | inl j ↦ let o : component_of p ≡ some parent = rw (k, j) refl in absurd cc
        | inr j ↦ let o : component_of p ≡ some (normal p) = rw (k, j) refl in cc
      ]
    ]

keep_component-IsAlone :
    (o : Option Component) (cs : List Component)
    → ((c : Component) → o ≡ some c → IsAlone c)
    → All IsAlone cs
    → All IsAlone (keep_component o cs)
unfolding keep_component
keep_component-IsAlone none cs h hs = hs
keep_component-IsAlone (some c) cs h hs = (h c refl, hs)

collect-IsAlone : (ps : List Text) → All IsPiece ps → All IsAlone (collect_components ps)
unfolding collect_components
collect-IsAlone [] h = tt
collect-IsAlone (p ∷ ps) (h, hs) =
    keep_component-IsAlone (component_of p) (collect_components ps) (component_of-IsAlone p h)
      (collect-IsAlone ps hs)

components-IsAlone : (s : Text) → All IsAlone (components s)
unfolding components
components-IsAlone s = elim (Bool-cases (starts_with s (codes "/"))) [
  | inl e ↦ rw (e) (tt, collect-IsAlone (split_slash s) (split_slash-IsPiece s))
  | inr e ↦ rw (e) (collect-IsAlone (split_slash s) (split_slash-IsPiece s))
]

last_name-IsAlone :
    (cs : List Component) (n : Text) → All IsAlone cs → last_name cs ≡ some n → IsAlone (normal n)
unfolding last_name
last_name-IsAlone [] n h e = absurd (some-ne-none n (sym e))
last_name-IsAlone (normal m ∷ []) n (h, hs) e =
    subst (λ q. IsAlone (normal q)) (some-injective m n e) h
last_name-IsAlone (root ∷ []) n h e = absurd (some-ne-none n (sym e))
last_name-IsAlone (parent ∷ []) n h e = absurd (some-ne-none n (sym e))
last_name-IsAlone (c ∷ d ∷ cs) n (h, hs) e = last_name-IsAlone (d ∷ cs) n hs e

slash_no_piece : (m : Text) → starts_with m (codes "/") ≡ true → IsPiece m → ⊥
unfolding starts_with split_slash
slash_no_piece [] h piece = cc
slash_no_piece (c ∷ s) h piece = elim (Bool-cases (c == b'/')) [
  | inl e ↦
      let cut : split_slash (c ∷ s) ≡ [] ∷ split_slash s = rw (e) refl in no_piece (sym cut ∙ piece)
  | inr e ↦ ground arith
]
  where
    no_piece : [] ∷ split_slash s ≡ (c ∷ s) ∷ [] → ⊥
    no_piece k = cc

-- Joined to a directory, the name of a path is one step down.
pub resolve-file_name :
    (at : List Text) (s n : Text) → file_name s ≡ some n → resolve at (components n) ≡ at ++ n ∷ []
unfolding file_name components resolve collect_components keep_component
resolve-file_name at s n e =
    by_start n (last_name-IsAlone (components s) n (components-IsAlone s) e)
  where
    by_start : (m : Text) → IsAlone (normal m) → resolve at (components m) ≡ at ++ m ∷ []
    by_start m (piece, alone) = elim (Bool-cases (starts_with m (codes "/"))) [
      | inl k ↦ absurd (slash_no_piece m k piece)
      | inr k ↦ rw (k, piece, alone) refl
    ]
