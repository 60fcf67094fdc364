-- ===== src/Sandbox/Safe.antt =====
-- The instance id of a sandbox.
use subdollar_llm_coding_ben.Base.{
  subst, ◌≡◌, ◌≢◌, ◌↔◌, ◌⊎◌, ◌≤◌, ℕ, refl, ap, true, Bool-cases, inl, inr, [], ◌∷◌, if◌then◌else◌,
  All, arith,
}
use subdollar_llm_coding_ben.Text.{Text, codes, is_empty}
use subdollar_llm_coding_ben.Sandbox.{is_safe, keep_safe, instance_id}

-- A byte that names of containers and networks may have: an ASCII digit, an ASCII letter, `-` or `_`.
abbrev pub IsNameByte : ℕ → Type 0
IsNameByte c = (48 ≤ c × c ≤ 57) ⊎ (65 ≤ c × c ≤ 90) ⊎ (97 ≤ c × c ≤ 122) ⊎ (c ≡ 45) ⊎ (c ≡ 95)

is_safe_iff : (c : ℕ) → (is_safe c ≡ true) ↔ IsNameByte c
unfolding is_safe
is_safe_iff c = (λ h. ground arith, λ h. ground arith)

-- A name for a sandbox: not empty, and of such bytes only.
abbrev pub IsInstanceId : Text → Type 0
IsInstanceId s = All IsNameByte s × (s ≢ [])

keep_safe-All : (s : Text) → All IsNameByte (keep_safe s)
unfolding keep_safe
keep_safe-All [] = tt
keep_safe-All (c ∷ s) = elim (Bool-cases (is_safe c)) [
  | inl e ↦ rw (e) ((is_safe_iff c).0 e, keep_safe-All s)
  | inr e ↦ rw (e) (keep_safe-All s)
]

keep_safe_same : (s : Text) → All IsNameByte s → keep_safe s ≡ s
unfolding keep_safe
keep_safe_same [] h = refl
keep_safe_same (c ∷ s) (h, hs) = rw ((is_safe_iff c).1 h) (ap (λ r. c ∷ r) (keep_safe_same s hs))

or_default :
    (s : Text) → All IsNameByte s → IsInstanceId (if is_empty s then codes "default" else s)
or_default [] h = (ground arith, λ e. cc)
or_default (c ∷ s) h = (h, λ e. cc)

instance_id_same : (s : Text) → IsInstanceId s → instance_id s ≡ s
unfolding instance_id
instance_id_same [] (h, no_text) = absurd (no_text refl)
instance_id_same (c ∷ s) (h, no_text) = rw (keep_safe_same (c ∷ s) h) refl

-- For every run id the instance id of its sandbox is not empty and holds only ASCII letters, digits, `-`
-- and `_`, and a run id stays as it is exactly if it is not empty and holds only these.
pub instance_id-IsInstanceId :
    (id : Text) → IsInstanceId (instance_id id) × ((instance_id id ≡ id) ↔ IsInstanceId id)
unfolding instance_id
instance_id-IsInstanceId id =
    let valid = or_default (keep_safe id) (keep_safe-All id) in
    (valid, (λ e. subst IsInstanceId e valid, instance_id_same id))
