-- ===== src/Compliance/Command/Depth.antt =====
-- The fuel of `check_line` is the depth of the subshells, and an inner command is shorter than its line.
use subdollar_llm_coding_ben.Base.{
  ℕ, zero, suc, ◌+◌, ◌<◌, ◌≤◌, ◌≡◌, refl, ap, true, ◌||◌, Option, none, some, ◌>>=◌, List, [], ◌∷◌,
  arith, if◌then◌else◌, some-injective, subst, length, drop, length-drop, All, Bool-cases,
  Option-cases, inl, inr,
}
use subdollar_llm_coding_ben.Text.{
  Text, codes, is_empty, trim, starts_with, text_eq, find, find_bound, first_some, first_some_ext,
  length-trim, is_one_of,
}
use subdollar_llm_coding_ben.Compliance.Segments.{split_command_segments}
use subdollar_llm_coding_ben.Compliance.Segments.Sizes.{length-split_command_segments}
use subdollar_llm_coding_ben.Compliance.Forbidden.{forbidden_daemons}
use subdollar_llm_coding_ben.Compliance.Tokens.{clean_token, base_name}
use subdollar_llm_coding_ben.Compliance.Tokens.Sizes.{length-clean_token}
use subdollar_llm_coding_ben.Compliance.Command.{
  package_managers, shells, executes_daemon, is_command_flag, find_flag, check_subshell, check_kind,
  check_words, check_segment, check_line, check_daemon_command,
}

flag-length : (a : Text) → is_command_flag a ≡ true → 1 ≤ length a
unfolding is_command_flag text_eq starts_with
flag-length [] h = absurd cc
flag-length (c ∷ a) h = omega arith

find_flag-length : (args : List Text) (a : Text) → find_flag args ≡ some a → 1 ≤ length a
unfolding find_flag
find_flag-length [] a h = absurd cc
find_flag-length (x ∷ args) a h = elim (Bool-cases (is_command_flag x)) [
  | inl e ↦ subst (λ y. 1 ≤ length y) (some-injective (rw (e, find_flag) at h)) (flag-length x e)
  | inr e ↦ find_flag-length args a (rw (e, find_flag) at h)
]

-- Two checkers that agree on every text shorter than the segment.
abbrev Agree : (Text → Option Text) → (Text → Option Text) → Text → Type 0
Agree d d' segment = (t : Text) → length t < length segment → d t ≡ d' t

module _ (lower : Text → Text) (d d' : Text → Option Text) where
  check_subshell_ext :
      (segment base flag : Text)
      → Agree d d' segment
      → 1 ≤ length flag
      → check_subshell lower d segment base flag ≡ check_subshell lower d' segment base flag
  unfolding check_subshell
  check_subshell_ext segment base flag h long = elim (Option-cases (find segment flag)) [
    | inl e ↦ rw (e) refl
    | inr (i, e) ↦
        let rest = drop (i + length flag) segment in
        let inner = clean_token (trim rest) in
        let shorter : length inner < length segment = omega (
          arith,
          find_bound segment flag i e,
          length-drop (i + length flag) segment,
          length-trim rest,
          length-clean_token (trim rest),
        ) in
        rw (e, h inner shorter) refl
  ]

  check_shell_ext :
      (segment base : Text) (args : List Text)
      → Agree d d' segment
      → (find_flag args >>= check_subshell lower d segment base)
        ≡ (find_flag args >>= check_subshell lower d' segment base)
  check_shell_ext segment base args h = elim (Option-cases (find_flag args)) [
    | inl e ↦ rw (e) refl
    | inr (flag, e) ↦ rw (e) (check_subshell_ext segment base flag h (find_flag-length args flag e))
  ]

  check_kind_ext :
      (segment base : Text) (args : List Text)
      → Agree d d' segment
      → check_kind lower d segment base args ≡ check_kind lower d' segment base args
  unfolding check_kind
  check_kind_ext segment base args h = elim (Bool-cases (is_one_of package_managers base)) [
    | inl e ↦ rw (e) refl
    | inr e ↦ elim (Bool-cases (is_one_of (codes "systemctl" ∷ codes "service" ∷ []) base)) [
      | inl f ↦ rw (e, f) refl
      | inr f ↦ elim (Bool-cases (is_one_of (codes "docker" ∷ codes "podman" ∷ []) base)) [
        | inl g ↦ rw (e, f, g) refl
        | inr g ↦
            rw (e, f, g)
              (ap (λ shell. if is_one_of shells base then shell else none)
                (check_shell_ext segment base args h))
      ]
    ]
  ]

  check_words_ext :
      (segment : Text) (tokens : List Text)
      → Agree d d' segment
      → check_words lower d segment tokens ≡ check_words lower d' segment tokens
  unfolding check_words
  check_words_ext segment [] h = refl
  check_words_ext segment (t ∷ args) h =
      ap
        (λ kind. elim (first_some (executes_daemon lower (lower t)) forbidden_daemons) [
          | some v ↦ some v
          | none ↦ kind
        ])
        (check_kind_ext segment (base_name (lower t)) args h)

  -- Only texts shorter than the segment are given to the checker.
  check_segment_ext :
      (segment : Text)
      → Agree d d' segment
      → check_segment lower d segment ≡ check_segment lower d' segment
  unfolding check_segment
  check_segment_ext segment h = check_words_ext segment _ h

module _ (lower : Text → Text) where
  segments_ext :
      (d d' : Text → Option Text) (b : ℕ) (ts : List Text)
      → ((t : Text) → length t < b → d t ≡ d' t)
      → All (λ s. length s ≤ b) ts
      → All (λ s. check_segment lower d s ≡ check_segment lower d' s) ts
  segments_ext d d' b [] h _ = tt
  segments_ext d d' b (s ∷ ts) h (le, les) =
      (check_segment_ext lower d d' s (λ t lt. h t (omega arith)), segments_ext d d' b ts h les)

  check_line_ext :
      (f g : ℕ) (line : Text)
      → length line < f
      → length line < g
      → check_line lower f line ≡ check_line lower g line
  unfolding check_line
  check_line_ext zero g line hf hg = elim hf [ ]
  check_line_ext (suc f) zero line hf hg = elim hg [ ]
  check_line_ext (suc f) (suc g) line hf hg =
      let trimmed = trim line in
      let shorter = length-trim line in
      let same =
        first_some_ext (check_segment lower (check_line lower f))
          (check_segment lower (check_line lower g)) (split_command_segments trimmed)
          (segments_ext (check_line lower f) (check_line lower g) (length trimmed)
            (split_command_segments trimmed)
            (λ t lt. check_line_ext f g t (omega (arith, shorter)) (omega (arith, shorter)))
            (length-split_command_segments trimmed)) in
      ap (λ found. if is_empty trimmed || starts_with trimmed (codes "#") then none else found) same

  -- The recursion of check_daemon_command on the commands of subshells ends: with any fuel above the
  -- length of the line the result is the same.
  pub check_line_fuel :
      (fuel : ℕ) (line : Text)
      → length line < fuel
      → check_line lower fuel line ≡ check_daemon_command lower line
  unfolding check_daemon_command
  check_line_fuel fuel line h = check_line_ext fuel (suc (length line)) line h (omega arith)

  -- check_daemon_command satisfies the equation that the code states, with itself called on the
  -- commands of subshells and no bound on their depth.
  pub check_daemon_command-eq :
      (line : Text)
      → check_daemon_command lower line ≡ (
          if is_empty (trim line) || starts_with (trim line) (codes "#")
          then none
          else first_some
              (check_segment lower (check_daemon_command lower))
              (split_command_segments (trim line)))
  unfolding check_daemon_command check_line
  check_daemon_command-eq line =
      let trimmed = trim line in
      let shorter = length-trim line in
      ap (λ found. if is_empty trimmed || starts_with trimmed (codes "#") then none else found)
        (first_some_ext (check_segment lower (check_line lower (length line)))
          (check_segment lower (check_daemon_command lower)) (split_command_segments trimmed)
          (segments_ext (check_line lower (length line)) (check_daemon_command lower)
            (length trimmed) (split_command_segments trimmed)
            (λ t lt. check_line_fuel (length line) t (omega (arith, shorter)))
            (length-split_command_segments trimmed)))
