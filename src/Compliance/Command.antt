-- ===== src/Compliance/Command.antt =====
-- src/verifier/compliance.rs: `check_daemon_command` and `check_command_segment`. A shell started by
-- `-c` is checked in turn, by a recursion on fuel. `lower` is Unicode's `to_lowercase`.
pub mod Depth
pub mod Verdict
use subdollar_llm_coding_ben.Base.{
  ℕ, zero, suc, ◌+◌, Bool, true, false, not, ◌&&◌, ◌||◌, Option, none, some, List, [], ◌∷◌, ◌++◌,
  if◌then◌else◌, length, drop, any, ◌>>=◌,
}
use subdollar_llm_coding_ben.Text.{
  Text, codes, is_empty, trim, starts_with, ends_with, text_eq, contains, find, has, first_some,
  is_one_of,
}
use subdollar_llm_coding_ben.Compliance.Forbidden.{forbidden_base_images, forbidden_daemons}
use subdollar_llm_coding_ben.Compliance.Segments.{split_command_segments}
use subdollar_llm_coding_ben.Compliance.Tokens.{
  clean_token, base_name, is_allowed_local_build_output, segment_tokens,
}

-- FOO=bar
pub is_assignment : Text → Bool
is_assignment t = has b'=' t && not (starts_with t (codes "-"))

pub skip_assignments : List Text → List Text
unfolding is_assignment
skip_assignments [] = []
skip_assignments (t ∷ ts) = if is_assignment t then skip_assignments ts else t ∷ ts

-- Where the loop over the prefixes stands: at a word, behind a prefix, or behind `-u` or `-g`.
pub data Place : Type 0 where
  at_word behind_prefix behind_user : Place

abbrev pub package_managers : List Text
package_managers =
    codes "apt" ∷ codes "apt-get" ∷ codes "apk" ∷ codes "yum" ∷ codes "dnf" ∷ codes "pacman" ∷ []

abbrev pub runner_prefixes : List Text
runner_prefixes =
    codes "sudo"
    ∷ codes "nohup"
    ∷ codes "exec"
    ∷ codes "env"
    ∷ codes "command"
    ∷ codes "builtin"
    ∷ codes "time"
    ∷ []

abbrev pub shells : List Text
shells = codes "sh" ∷ codes "bash" ∷ codes "dash" ∷ codes "zsh" ∷ []

-- `args.iter().any(|a| a == x || ..)`
abbrev pub mentions : List Text → List Text → Bool
mentions words args = any (is_one_of words) args

-- `-c`, or a group of flags that ends in `c`.
pub is_command_flag : Text → Bool
is_command_flag a = text_eq a (codes "-c") || (starts_with a (codes "-") && ends_with a (codes "c"))

pub find_flag : List Text → Option Text
unfolding is_command_flag
find_flag [] = none
find_flag (a ∷ args) = if is_command_flag a then some a else find_flag args

module _ (lower : Text → Text) where
  pub is_runner : Text → Bool
  is_runner t = is_one_of runner_prefixes (base_name (lower t))

  pub skip_prefixes : Place → List Text → List Text
  skip_prefixes place [] = []
  skip_prefixes behind_user (t ∷ ts) = skip_prefixes behind_prefix ts
  skip_prefixes at_word (t ∷ ts) = elim (is_runner t) [
    | true ↦ skip_prefixes behind_prefix ts
    | false ↦ t ∷ ts
  ]
  skip_prefixes behind_prefix (t ∷ ts) =
      let user = skip_prefixes behind_user ts in
      let more = skip_prefixes behind_prefix ts in
      if starts_with t (codes "-")
      then (if text_eq t (codes "-u") || text_eq t (codes "-g") then user else more)
      else if is_runner t
      then more
      else t ∷ ts

  pub executes_daemon : Text → Text → Option Text
  executes_daemon cmd_token daemon =
      if text_eq (base_name cmd_token) daemon
        && not (is_allowed_local_build_output lower cmd_token daemon)
      then some (codes "executes forbidden server daemon '" ++ (daemon ++ codes "'"))
      else none

  pub installs_daemon : Text → Text → Text → Option Text
  installs_daemon cmd_base arg daemon =
      let arg_base = base_name (lower arg) in
      if text_eq arg_base daemon || starts_with arg_base (daemon ++ codes "-")
      then some
          (codes "installs forbidden server daemon '" ++ (daemon ++ (codes "' via " ++ cmd_base)))
      else none

  pub starts_service : Text → Text → Text → Option Text
  starts_service cmd_base arg daemon =
      if contains (lower arg) daemon
      then some (codes "starts forbidden service '" ++ (daemon ++ (codes "' via " ++ cmd_base)))
      else none

  pub runs_image : Text → Text → Text → Option Text
  runs_image cmd_base arg img =
      let arg_lower = lower arg in
      if text_eq arg_lower img
        || starts_with arg_lower (img ++ codes ":")
        || contains arg_lower (codes "/" ++ img)
      then some (codes "runs forbidden container image '" ++ (img ++ (codes "' via " ++ cmd_base)))
      else none

  -- `for arg in args { for x in list { .. return Some(..) } }`, if one of the words is there.
  pub scan_args : List Text → (Text → Text → Option Text) → List Text → List Text → Option Text
  scan_args words test list args =
      if mentions words args then first_some (λ arg. first_some (test arg) list) args else none

  -- What stands behind the first place of the flag in the segment is the inner command. `daemon` is
  -- the recursive call.
  pub check_subshell : (Text → Option Text) → Text → Text → Text → Option Text
  check_subshell daemon segment cmd_base flag = do
    flag_idx ← find segment flag
    let inner_cmd = clean_token (trim (drop (flag_idx + length flag) segment))
    v ← daemon inner_cmd
    some (codes "subshell executes forbidden command via " ++ (cmd_base ++ (codes ": " ++ v)))

  -- A command that is no daemon itself, by its kind.
  pub check_kind : (Text → Option Text) → Text → Text → List Text → Option Text
  check_kind daemon segment cmd_base args =
      if is_one_of package_managers cmd_base
      then scan_args (codes "install" ∷ codes "add" ∷ []) (installs_daemon cmd_base)
          forbidden_daemons args
      else if is_one_of (codes "systemctl" ∷ codes "service" ∷ []) cmd_base
      then scan_args (codes "start" ∷ codes "restart" ∷ codes "enable" ∷ codes "run" ∷ [])
          (starts_service cmd_base) forbidden_daemons args
      else if is_one_of (codes "docker" ∷ codes "podman" ∷ []) cmd_base
      then scan_args (codes "run" ∷ codes "start" ∷ []) (runs_image cmd_base) forbidden_base_images
          args
      else if is_one_of shells cmd_base
      then (find_flag args >>= check_subshell daemon segment cmd_base)
      else none

  -- The words behind assignments and prefixes.
  pub check_words : (Text → Option Text) → Text → List Text → Option Text
  check_words daemon segment [] = none
  check_words daemon segment (t ∷ args) =
      let cmd_token = lower t in
      elim (first_some (executes_daemon cmd_token) forbidden_daemons) [
        | some v ↦ some v
        | none ↦ check_kind daemon segment (base_name cmd_token) args
      ]

  pub check_segment : (Text → Option Text) → Text → Option Text
  check_segment daemon segment =
      check_words daemon segment (skip_prefixes at_word (skip_assignments (segment_tokens segment)))

  -- The fuel bounds the depth of the subshells.
  pub check_line : ℕ → Text → Option Text
  check_line zero line = none
  check_line (suc fuel) line =
      let trimmed = trim line in
      if is_empty trimmed || starts_with trimmed (codes "#")
      then none
      else first_some (check_segment (check_line fuel)) (split_command_segments trimmed)

  -- An inner command is shorter than its line, so the depth is below the length of the line.
  unfoldable pub check_daemon_command : Text → Option Text
  unfolding is_assignment skip_assignments find_flag is_runner skip_prefixes executes_daemon
      installs_daemon starts_service runs_image scan_args check_subshell check_kind check_words
      check_segment check_line
  check_daemon_command line = check_line (suc (length line)) line

  unfoldable pub check_command_segment : Text → Option Text
  unfolding check_daemon_command
  check_command_segment segment = check_segment check_daemon_command segment
