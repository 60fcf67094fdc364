-- ===== src/Compliance/Command/Verdict.antt =====
-- What a line that `check_daemon_command` accepts can start.
use mathlib.Core.Bool.{false≢true}
use mathlib.Core.Option.{some-ne-none}
use subdollar_llm_coding_ben.Base.{
  refl, subst, ℕ, ◌+◌, ◌≡◌, ◌≢◌, Bool, true, false, ◌||◌, Option, none, some, List, [], ◌∷◌, arith,
  length, drop, any, All, Bool-cases, Option-cases, inl, inr,
}
use subdollar_llm_coding_ben.Text.{
  Text, codes, is_empty, trim, starts_with, text_eq, text_eq_iff, has, find, first_some,
  first_some-eq-none, is_one_of,
}
use subdollar_llm_coding_ben.Compliance.Forbidden.{forbidden_daemons}
use subdollar_llm_coding_ben.Compliance.Segments.{split_command_segments}
use subdollar_llm_coding_ben.Compliance.Tokens.{
  clean_token, base_name, system_prefixes, segment_tokens, is_allowed_local_build_output,
}
use subdollar_llm_coding_ben.Compliance.Command.{
  at_word, package_managers, shells, mentions, find_flag, skip_prefixes, skip_assignments,
  executes_daemon, installs_daemon, scan_args, check_subshell, check_kind, check_words,
  check_segment, check_daemon_command,
}
use subdollar_llm_coding_ben.Compliance.Command.Depth.{check_daemon_command-eq}

any-eq-false {ℓ} :
    {A : Type ℓ} (p : A → Bool) (xs : List A) → any p xs ≡ false → All (λ x. p x ≡ false) xs
any-eq-false p [] h = tt
any-eq-false p (x ∷ xs) h = elim (Bool-cases (p x)) [
  | inl e ↦ absurd (ground arith)
  | inr e ↦ (e, any-eq-false p xs (ground arith))
]

map-All {ℓ κ} :
    {A : Type ℓ} {P Q : A → Type κ} (f : (x : A) → P x → Q x) (xs : List A) → All P xs → All Q xs
map-All f [] h = tt
map-All f (x ∷ xs) (h, hs) = (f x h, map-All f xs hs)

any-elim {ℓ κ} :
    {A : Type ℓ} {R : Type κ} (p : A → Bool) (xs : List A)
    → any p xs ≡ true
    → All (λ x. p x ≡ true → R) xs
    → R
any-elim p [] h _ = absurd (false≢true h)
any-elim p (x ∷ xs) h (k, ks) = elim (Bool-cases (p x)) [
  | inl e ↦ k e
  | inr e ↦ any-elim p xs (rw (e) at h) ks
]

-- A command that no other rule than that for shells is about.
abbrev IsNoOtherKind : Text → Type 0
IsNoOtherKind base =
    (is_one_of package_managers base ≡ false)
    × (is_one_of (codes "systemctl" ∷ codes "service" ∷ []) base ≡ false)
    × (is_one_of (codes "docker" ∷ codes "podman" ∷ []) base ≡ false)

shell-IsNoOtherKind : (base : Text) → is_one_of shells base ≡ true → IsNoOtherKind base
unfolding is_one_of text_eq
shell-IsNoOtherKind base h =
    let same = λ (t : Text) (e : text_eq t base ≡ true) (k : IsNoOtherKind t).
      subst IsNoOtherKind ((text_eq_iff t base).0 e) k in
    any-elim (λ t. text_eq t base) shells h
      (
        λ e. same (codes "sh") e (refl, refl, refl),
        (
          λ e. same (codes "bash") e (refl, refl, refl),
          (
            λ e. same (codes "dash") e (refl, refl, refl),
            (λ e. same (codes "zsh") e (refl, refl, refl), tt),
          ),
        ),
      )

module _ (lower : Text → Text) where
  -- A path that stands in none of the system's directories.
  abbrev pub IsLocalPath : Text → Type 0
  IsLocalPath word =
      (has b'/' word ≡ true)
      × All (λ prefix. starts_with (lower word) prefix ≡ false) system_prefixes

  -- The command word runs no server: its last part is the name of none, or it is a local path.
  abbrev pub RunsNoDaemon : Text → Type 0
  RunsNoDaemon word = All (λ daemon. base_name word ≡ daemon → IsLocalPath word) forbidden_daemons

  -- If the command installs packages, none of its words is the name of a server.
  abbrev pub InstallsNoDaemon : Text → List Text → Type 0
  InstallsNoDaemon base args =
      is_one_of package_managers base ≡ true
      → mentions (codes "install" ∷ codes "add" ∷ []) args ≡ true
      → All (λ arg. All (λ daemon. base_name (lower arg) ≢ daemon) forbidden_daemons) args

  -- If the command is a shell with `-c`, what stands behind the first place of the flag's text in the
  -- segment is accepted too.
  abbrev pub SubshellIsAccepted : Text → Text → List Text → Type 0
  SubshellIsAccepted segment base args =
      is_one_of shells base ≡ true
      → (flag : Text) (i : ℕ) → find_flag args ≡ some flag
      → find segment flag ≡ some i
      → check_daemon_command lower (clean_token (trim (drop (i + length flag) segment))) ≡ none

  abbrev pub WordsAreHarmless : Text → List Text → Type 0
  WordsAreHarmless segment [] = Unit
  WordsAreHarmless segment (word ∷ args) =
      RunsNoDaemon (lower word)
      × InstallsNoDaemon (base_name (lower word)) args
      × SubshellIsAccepted segment (base_name (lower word)) args

  -- The words of a segment behind assignments and prefixes.
  pub command_words : Text → List Text
  command_words segment = skip_prefixes lower at_word (skip_assignments (segment_tokens segment))

  allowed-IsLocalPath :
      (word daemon : Text)
      → is_allowed_local_build_output lower word daemon ≡ true
      → IsLocalPath word
  unfolding is_allowed_local_build_output
  allowed-IsLocalPath word daemon h = elim (Bool-cases (has b'/' word)) [
    | inr e ↦ absurd (false≢true (rw (e) at h))
    | inl e ↦ elim (Bool-cases (text_eq (base_name (lower word)) daemon)) [
      | inr f ↦ absurd (false≢true (rw (e, f) at h))
      | inl f ↦ elim (Bool-cases (any (starts_with (lower word)) system_prefixes)) [
        | inl g ↦ absurd (false≢true (rw (e, f, g) at h))
        | inr g ↦ (e, any-eq-false (starts_with (lower word)) system_prefixes g)
      ]
    ]
  ]

  executes_daemon-none :
      (word daemon : Text)
      → executes_daemon lower word daemon ≡ none
      → base_name word ≡ daemon
      → IsLocalPath word
  unfolding executes_daemon
  executes_daemon-none word daemon h e =
      let same = (text_eq_iff (base_name word) daemon).1 e in
      elim (Bool-cases (is_allowed_local_build_output lower word daemon)) [
        | inl a ↦ allowed-IsLocalPath word daemon a
        | inr a ↦ absurd (some-ne-none _ (rw (same, a) at h))
      ]

  installs_daemon-none :
      (base arg daemon : Text)
      → installs_daemon lower base arg daemon ≡ none
      → base_name (lower arg) ≢ daemon
  unfolding installs_daemon
  installs_daemon-none base arg daemon h e =
      let same = (text_eq_iff (base_name (lower arg)) daemon).1 e in some-ne-none _ (rw (same) at h)

  check_kind-InstallsNoDaemon :
      (d : Text → Option Text) (segment base : Text) (args : List Text)
      → check_kind lower d segment base args ≡ none
      → InstallsNoDaemon base args
  unfolding check_kind scan_args
  check_kind-InstallsNoDaemon d segment base args h manager install =
      let found = rw (manager, install) at h in
      map-All
        (λ arg none_found.
          map-All (installs_daemon-none base arg) forbidden_daemons
            (first_some-eq-none (installs_daemon lower base arg) forbidden_daemons none_found))
        args
        (first_some-eq-none (λ arg. first_some (installs_daemon lower base arg) forbidden_daemons)
          args found)

  check_kind-SubshellIsAccepted :
      (segment base : Text) (args : List Text)
      → check_kind lower (check_daemon_command lower) segment base args ≡ none
      → SubshellIsAccepted segment base args
  unfolding check_kind check_subshell
  check_kind-SubshellIsAccepted segment base args h shell flag i is_flag place =
      let (e, f, g) = shell-IsNoOtherKind base shell in
      let inner = clean_token (trim (drop (i + length flag) segment)) in
      elim (Option-cases (check_daemon_command lower inner)) [
        | inl accepted ↦ accepted
        | inr (v, found) ↦ absurd (some-ne-none _ (rw (e, f, g, shell, is_flag, place, found) at h))
      ]

  check_words-WordsAreHarmless :
      (segment : Text) (words : List Text)
      → check_words lower (check_daemon_command lower) segment words ≡ none
      → WordsAreHarmless segment words
  unfolding check_words
  check_words-WordsAreHarmless segment [] h = tt
  check_words-WordsAreHarmless segment (t ∷ args) h =
      elim (Option-cases (first_some (executes_daemon lower (lower t)) forbidden_daemons)) [
        | inr (v, e) ↦ absurd (some-ne-none _ (rw (e, check_words) at h))
        | inl e ↦
            let kind = rw (e, check_words) at h in
            (
              map-All (executes_daemon-none (lower t)) forbidden_daemons
                  (first_some-eq-none (executes_daemon lower (lower t)) forbidden_daemons e),
              check_kind-InstallsNoDaemon (check_daemon_command lower) segment (base_name (lower t))
                  args kind,
              check_kind-SubshellIsAccepted segment (base_name (lower t)) args kind,
            )
      ]

  check_segment-WordsAreHarmless :
      (segment : Text)
      → check_segment lower (check_daemon_command lower) segment ≡ none
      → WordsAreHarmless segment (command_words segment)
  unfolding check_segment command_words
  check_segment-WordsAreHarmless segment h =
      check_words-WordsAreHarmless segment (command_words segment) h

  -- If check_daemon_command accepts a line that is not empty and no comment, then in each of its
  -- segments, behind assignments and prefixes: the command word is the name of no forbidden server,
  -- unless it is a path outside the system's directories; a package manager with install or add has
  -- no such name among its words; and of a shell with a command flag, what stands behind the first
  -- place of the flag's text in the segment is accepted in turn.
  pub check_daemon_command-WordsAreHarmless :
      (line : Text)
      → (is_empty (trim line) || starts_with (trim line) (codes "#")) ≡ false
      → check_daemon_command lower line ≡ none
      → All
          (λ segment. WordsAreHarmless segment (command_words segment))
          (split_command_segments (trim line))
  check_daemon_command-WordsAreHarmless line is_code h =
      let found = rw (check_daemon_command-eq lower line, is_code) at h in
      map-All check_segment-WordsAreHarmless (split_command_segments (trim line)) (
        first_some-eq-none (check_segment lower (check_daemon_command lower))
          (split_command_segments (trim line)) found)
