-- ===== src/Compliance/Workspace.antt =====
-- src/verifier/compliance.rs: `inspect_file`, `scan_dir` and `check_no_frameworks`, over the tree of
-- the workspace's files.
pub mod Reach
use subdollar_llm_coding_ben.Base.{
  Bool, ◌||◌, Option, none, some, List, [], ◌∷◌, ◌++◌, if◌then◌else◌,
}
use subdollar_llm_coding_ben.Text.{Text, codes, starts_with, is_one_of}
use subdollar_llm_coding_ben.Stage.{Result, ok, err}
use subdollar_llm_coding_ben.Compliance.Files.{inspect_dockerfile, inspect_script}
use subdollar_llm_coding_ben.Compliance.Manifests.{
  inspect_package_json, inspect_requirements, inspect_cargo_toml, inspect_go_mod, inspect_source,
}

-- A directory's entries in the order in which they are read. `none` is a content that is no text or
-- cannot be read, and `other` an entry that is neither a file nor a directory. A directory that cannot
-- be read is empty.
mutual
  pub data Entry : Type 0 where
    file : Text → Option Text → Entry
    dir : Text → Entries → Entry
    other : Text → Entry

  pub data Entries : Type 0 where
    nil : Entries
    cons : Entry → Entries → Entries

pub entry_name : Entry → Text
entry_name (file name content) = name
entry_name (dir name entries) = name
entry_name (other name) = name

-- Hidden entries, build results and dependencies are skipped.
pub is_skipped : Text → Bool
is_skipped name =
    starts_with name (codes ".")
    || is_one_of (codes "target" ∷ codes "node_modules" ∷ codes "vendor" ∷ codes "__pycache__" ∷ [])
        name

-- `violations.join("; ")`
pub join_semicolon : List Text → Text
join_semicolon [] = []
join_semicolon (v ∷ []) = v
join_semicolon (v ∷ w ∷ vs) = v ++ (codes "; " ++ join_semicolon (w ∷ vs))

module _ (lower : Text → Text) (json_strings : Text → Option (List Text)) where
  pub inspect_file : Text → Option Text → List Text
  inspect_file filename none = []
  inspect_file filename (some content) =
      inspect_dockerfile lower json_strings filename content
      ++ (inspect_script lower json_strings filename content
          ++ (inspect_package_json filename content
              ++ (inspect_requirements lower filename content
                  ++ (inspect_cargo_toml filename content
                      ++ (inspect_go_mod filename content
                          ++ inspect_source lower filename content)))))

  unfoldable mutual
    pub scan_entry : Entry → List Text
    scan_entry (file name content) = if is_skipped name then [] else inspect_file name content
    scan_entry (dir name entries) =
        let inner = scan_dir entries in if is_skipped name then [] else inner
    scan_entry (other name) = []

    pub scan_dir : Entries → List Text
    scan_dir nil = []
    scan_dir (cons e es) = scan_entry e ++ scan_dir es

  -- The verdict on the violations.
  unfoldable pub verdict : List Text → Result (Unit {0})
  verdict [] = ok tt
  verdict (v ∷ vs) = err (
      codes "Anti-Cheat Violation: Found forbidden framework/daemon usage: "
      ++ join_semicolon (v ∷ vs))

  unfoldable pub check_no_frameworks : Entries → Result (Unit {0})
  check_no_frameworks workdir = verdict (scan_dir workdir)
