-- ===== src/Compliance/Files.antt =====
-- src/verifier/compliance.rs: `inspect_file`, one function for each kind of file. `lower` is Unicode's
-- `to_lowercase`, and `json_strings` is `serde_json::from_str::<Vec<String>>`.
use subdollar_llm_coding_ben.Base.{
  any, Bool, ◌&&◌, ◌||◌, Option, none, some, List, [], ◌∷◌, ◌++◌, if◌then◌else◌, drop,
}
use subdollar_llm_coding_ben.Text.{
  Text, codes, trim, starts_with, ends_with, text_eq, contains, eq_ignore_ascii_case, has,
  after_last, is_one_of,
}
use subdollar_llm_coding_ben.Compliance.Forbidden.{forbidden_base_images, forbidden_daemons}
use subdollar_llm_coding_ben.Compliance.Logical.{normalize_lines}
use subdollar_llm_coding_ben.Compliance.Tokens.{base_name}
use subdollar_llm_coding_ben.Compliance.Command.{check_daemon_command}

-- `if let Some(v) = found { violations.push(format!("{}{}", label, v)) }`
abbrev pub report : Text → Option Text → List Text
report label none = []
report label (some v) = (label ++ v) ∷ []

-- `if test { violations.push(message) }`
abbrev pub push_if : Bool → Text → List Text
push_if test message = if test then message ∷ [] else []

-- Violations of several inputs, in order.
pub collect {ℓ} : {A : Type ℓ} → (A → List Text) → List A → List Text
collect f [] = []
collect f (x ∷ xs) = f x ++ collect f xs

-- `path.extension()`: what stands behind the last dot, if a dot stands behind the first character.
unfoldable pub extension : Text → Text
extension [] = []
extension (c ∷ name) = if has b'.' name then after_last b'.' name else []

abbrev pub docker_label : Text
docker_label = codes "Dockerfile: "

module _ (lower : Text → Text) (json_strings : Text → Option (List Text)) where
  -- `arr[1] == "-c"`, and the command that the shell gets.
  pub check_exec_shell : Text → List Text → List Text
  check_exec_shell base (first ∷ flag ∷ cmd ∷ arr) =
      if is_one_of (codes "sh" ∷ codes "bash" ∷ []) base && text_eq flag (codes "-c")
      then report docker_label (check_daemon_command lower cmd)
      else []
  check_exec_shell base _ = []

  -- `CMD ["program", ..]`
  pub check_exec : Text → Option (List Text) → List Text
  check_exec line none = []
  check_exec line (some []) = []
  check_exec line (some (first ∷ arr)) =
      let base = base_name (lower first) in
      if is_one_of forbidden_daemons base
      then (codes "Dockerfile: specifies forbidden daemon '"
          ++ (base ++ (codes "' in '" ++ (line ++ codes "'"))))
        ∷ []
      else check_exec_shell base (first ∷ arr)

  -- What stands behind CMD or ENTRYPOINT.
  pub check_start : Text → Text → List Text
  check_start line rest =
      if starts_with rest (codes "[") && ends_with rest (codes "]")
      then check_exec line (json_strings rest)
      else report docker_label (check_daemon_command lower rest)

  -- One logical line of a Dockerfile; the slices take as many bytes as the keyword has.
  pub check_instruction : Text → List Text
  check_instruction line =
      let lowered = lower line in
      if starts_with lowered (codes "from ")
      then push_if (any (contains lowered) forbidden_base_images)
          (codes "Dockerfile uses forbidden base image '" ++ (line ++ codes "'"))
      else if starts_with lowered (codes "run ")
      then report docker_label (check_daemon_command lower (drop 4 line))
      else if starts_with lowered (codes "cmd")
      then check_start line (trim (drop 3 line))
      else if starts_with lowered (codes "entrypoint")
      then check_start line (trim (drop 10 line))
      else []

  pub inspect_dockerfile : Text → Text → List Text
  inspect_dockerfile filename content =
      if eq_ignore_ascii_case filename (codes "Dockerfile")
        || contains filename (codes "Dockerfile")
      then collect check_instruction (normalize_lines content)
      else []

  pub check_script_line : Text → Text → List Text
  check_script_line filename line =
      let lowered = lower line in
      push_if
        (contains lowered (codes "base64 -d |") || contains lowered (codes "base64 --decode |"))
        (filename ++ codes ": uses obfuscated base64 pipeline execution")
      ++ report (filename ++ codes ": ") (check_daemon_command lower line)

  pub inspect_script : Text → Text → List Text
  inspect_script filename content =
      if ends_with filename (codes ".sh")
        || ends_with filename (codes ".bash")
        || text_eq filename (codes "start.sh")
      then collect (check_script_line filename) (normalize_lines content)
      else []
