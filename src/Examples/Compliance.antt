-- ===== src/Examples/Compliance.antt =====
-- Tests of src/verifier/compliance.rs, some of them the source's own, and instances of the theorems.
use subdollar_llm_coding_ben.Base.{◌++◌, ◌≡◌, refl, none, some, [], ◌∷◌}
use subdollar_llm_coding_ben.Text.{
  if_any, codes, trim, text_eq, ascii_lower, starts_with, ends_with, split_whitespace, after_last,
  first_some, is_one_of, find, contains, lines, strip_suffix,
}
use subdollar_llm_coding_ben.Compliance.Logical.{normalize, normalize_lines}
use subdollar_llm_coding_ben.Compliance.Logical.Continued.{joined, normalize_lines-joined}
use subdollar_llm_coding_ben.Compliance.Segments.{split_command_segments}
use subdollar_llm_coding_ben.Compliance.Tokens.{
  segment_tokens, base_name, is_allowed_local_build_output,
}
use subdollar_llm_coding_ben.Compliance.Command.{check_daemon_command}
use subdollar_llm_coding_ben.Base.{◌↔◌, false, ◌||◌, Option, List, if◌then◌else◌, All, arith}
use subdollar_llm_coding_ben.Text.{Text, is_empty}
use subdollar_llm_coding_ben.Stage.{ok}
use subdollar_llm_coding_ben.Compliance.Segments.Script.{
  Piece, plain, single_quoted, double_quoted, Separator, and_then, semicolon, IsPiece, IsCommand,
  write_script, commands_of, split_command_segments-write_script,
}
use subdollar_llm_coding_ben.Compliance.Command.{check_segment}
use subdollar_llm_coding_ben.Compliance.Command.Depth.{check_daemon_command-eq}
use subdollar_llm_coding_ben.Compliance.Command.Verdict.{
  WordsAreHarmless, command_words, check_daemon_command-WordsAreHarmless,
}
use subdollar_llm_coding_ben.Compliance.Workspace.{
  Entries, nil, cons, file, dir, check_no_frameworks,
}
use subdollar_llm_coding_ben.Compliance.Workspace.Reach.{InDir, Clean, check_no_frameworks_iff}

continued :
    normalize_lines (codes "RUN apt-get install \\\n  nginx\n# c \\\n\nCMD x")
    ≡ codes "RUN apt-get install nginx" ∷ codes "# c \\" ∷ codes "CMD x" ∷ []
unfolding normalize_lines lines trim strip_suffix starts_with
continued = refl

cut :
    split_command_segments (codes "echo 'a;b' && nginx | x; y")
    ≡ codes "echo 'a;b'" ∷ codes "nginx" ∷ codes "x" ∷ codes "y" ∷ []
unfolding split_command_segments trim
cut = refl

bare :
    check_daemon_command ascii_lower (codes "cd /app && sudo -u root Nginx -g x")
    ≡ some (codes "executes forbidden server daemon 'nginx'")
unfolding check_daemon_command split_command_segments trim text_eq ascii_lower segment_tokens
    split_whitespace base_name after_last first_some is_one_of starts_with ends_with
    is_allowed_local_build_output find contains
bare = refl

inner :
    check_daemon_command ascii_lower (codes "bash -c 'redis-server --port 1'")
    ≡ some (
        codes
          "subshell executes forbidden command via bash: executes forbidden server daemon 'redis-server'")
unfolding check_daemon_command split_command_segments trim text_eq ascii_lower segment_tokens
    split_whitespace base_name after_last first_some is_one_of starts_with ends_with
    is_allowed_local_build_output find contains
inner = refl

own_build : check_daemon_command ascii_lower (codes "/workspace/redis-server") ≡ none
unfolding check_daemon_command split_command_segments trim text_eq ascii_lower segment_tokens
    split_whitespace base_name after_last first_some is_one_of starts_with ends_with
    is_allowed_local_build_output find contains
own_build = refl

-- An assignment behind `env` hides the command.
env_hides : check_daemon_command ascii_lower (codes "env A=1 nginx") ≡ none
unfolding check_daemon_command split_command_segments trim text_eq ascii_lower segment_tokens
    split_whitespace base_name after_last first_some is_one_of starts_with ends_with
    is_allowed_local_build_output find contains
env_hides = refl

-- The flag is looked for as a text, and found inside an earlier word.
flag_hides : check_daemon_command ascii_lower (codes "bash --rcfile x-c -c nginx") ≡ none
unfolding check_daemon_command split_command_segments trim text_eq ascii_lower segment_tokens
    split_whitespace base_name after_last first_some is_one_of starts_with ends_with
    is_allowed_local_build_output find contains
flag_hides = refl

abbrev quoted_command : List Piece
quoted_command = plain b'a' ∷ plain b' ' ∷ single_quoted (codes "x;y") ∷ []

abbrev commands_behind : List (Separator × List Piece)
commands_behind =
    (and_then, plain b' ' ∷ double_quoted (codes "p|q") ∷ []) ∷ (semicolon, plain b'z' ∷ []) ∷ []

split_command_segments-write_script_example :
    split_command_segments (write_script quoted_command commands_behind)
    ≡ commands_of quoted_command commands_behind
split_command_segments-write_script_example =
    split_command_segments-write_script quoted_command commands_behind
      (unfold IsPiece in ground arith) (unfold IsCommand in unfold IsPiece in ground arith)

check_daemon_command-eq_example : check_daemon_command ascii_lower (codes "a; sh -c 'nginx'") ≡ (
    if is_empty (trim (codes "a; sh -c 'nginx'"))
      || starts_with (trim (codes "a; sh -c 'nginx'")) (codes "#")
    then none
    else first_some
        (check_segment ascii_lower (check_daemon_command ascii_lower))
        (split_command_segments (trim (codes "a; sh -c 'nginx'"))))
check_daemon_command-eq_example = check_daemon_command-eq ascii_lower (codes "a; sh -c 'nginx'")

not_empty :
    (is_empty (trim (codes "/workspace/redis-server"))
      || starts_with (trim (codes "/workspace/redis-server")) (codes "#"))
    ≡ false
unfolding trim starts_with
not_empty = refl

check_daemon_command-WordsAreHarmless_example :
    All
      (λ segment. WordsAreHarmless ascii_lower segment (command_words ascii_lower segment))
      (split_command_segments (trim (codes "/workspace/redis-server")))
check_daemon_command-WordsAreHarmless_example =
    check_daemon_command-WordsAreHarmless ascii_lower (codes "/workspace/redis-server") not_empty
      own_build

-- A source file, and one that is skipped.
abbrev workspace : Entries
workspace =
    cons (dir (codes "src") (cons (file (codes "main.rs") (some (codes "use axum::Router;"))) nil))
      (cons (dir (codes "target") (cons (file (codes "x.rs") (some (codes "axum::"))) nil)) nil)

check_no_frameworks_iff_example :
    (check_no_frameworks ascii_lower (λ t. none) workspace ≡ ok tt) ↔ (
      (name : Text) (content : Option Text)
      → InDir name content workspace
      → Clean ascii_lower (λ t. none) name content)
check_no_frameworks_iff_example = check_no_frameworks_iff ascii_lower (λ t. none) workspace

abbrev run_lines : Text
run_lines = codes "RUN a \\\n# b \\\n c\nCMD d"

run_lines-lines :
    lines run_lines ≡ codes "RUN a \\" ∷ codes "# b \\" ∷ codes " c" ∷ codes "CMD d" ∷ []
unfolding lines
run_lines-lines = refl

normalize_lines-joined_example :
    normalize_lines run_lines
    ≡ if_any (
        trim (
          joined (
            record { raw = codes "RUN a \\"; body = codes "RUN a " }
            ∷ record { raw = codes "# b \\"; body = codes "# b " }
            ∷ [])
          ++ trim (codes " c")))
      ++ normalize [] (codes "CMD d" ∷ [])
unfolding strip_suffix trim starts_with
normalize_lines-joined_example =
    normalize_lines-joined run_lines (record { raw = codes "RUN a \\"; body = codes "RUN a " })
      (record { raw = codes "# b \\"; body = codes "# b " } ∷ []) (codes " c") (codes "CMD d" ∷ [])
      run_lines-lines refl (refl, (refl, tt)) refl
