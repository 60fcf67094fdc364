-- ===== src/Report/Archive.antt =====
-- src/report/archive.rs: `RunArchiver`, over a disk that is a parameter.
pub mod Saved
pub mod Confined
pub mod Listing
use subdollar_llm_coding_ben.Base.{
  ℕ, Bool, true, false, ◌||◌, Option, none, some, List, [], ◌∷◌, ◌++◌, if◌then◌else◌,
}
use Prim.Native.Nat.{compare}
use subdollar_llm_coding_ben.Text.{Text, codes, text_eq, contains, starts_with}
use subdollar_llm_coding_ben.Stage.{Result, ok, err, Step, bind_result, ◌>>=◌, ◌>>◌}
use subdollar_llm_coding_ben.Order.{Ordering, then_with, sort_by}
use subdollar_llm_coding_ben.Float.{F64}
use subdollar_llm_coding_ben.Report.Paths.{components, file_name, resolve}
use subdollar_llm_coding_ben.Pipeline.World.{RunManifest, FileInfo}

-- What `read_dir` yields of a workspace. The content of a file that cannot be read is `none`; a link
-- leads to a file of some size, to a directory, or nowhere.
mutual
  pub data Node : Type 0 where
    file : Text → ℕ → Option Text → Node
    dir : Text → Nodes → Node
    link_to_file : Text → ℕ → Node
    link_to_dir : Text → Nodes → Node
    dead_link : Text → Node

  pub data Nodes : Type 0 where
    nil : Nodes
    cons : Node → Nodes → Nodes

abbrev pub is_left_out : Text → Bool
is_left_out name =
    text_eq name (codes ".git")
    || text_eq name (codes "target")
    || text_eq name (codes "node_modules")

-- `String::cmp`
unfoldable pub cmp_text : Text → Text → Ordering
cmp_text [] [] = Ordering.eq
cmp_text [] (y ∷ t) = Ordering.lt
cmp_text (x ∷ s) [] = Ordering.gt
cmp_text (x ∷ s) (y ∷ t) = then_with (compare x y) (cmp_text s t)

abbrev pub relative_name : Text → Text → Text
relative_name [] name = name
relative_name (c ∷ prefix) name = (c ∷ prefix) ++ (b'/' ∷ name)

abbrev pub info : Text → ℕ → FileInfo
info name size = record { name = name; size_bytes = size }

mutual
  pub scan_node : Text → Node → List FileInfo
  scan_node prefix (file name size content) =
      if is_left_out name then [] else info (relative_name prefix name) size ∷ []
  scan_node prefix (dir name es) =
      let inner = scan_recursive (relative_name prefix name) es in
      if is_left_out name then [] else inner
  scan_node prefix (link_to_file name size) =
      if is_left_out name then [] else info (relative_name prefix name) size ∷ []
  scan_node prefix (link_to_dir name es) =
      let inner = scan_recursive (relative_name prefix name) es in
      if is_left_out name then [] else inner
  scan_node prefix (dead_link name) = []

  pub scan_recursive : Text → Nodes → List FileInfo
  scan_recursive prefix nil = []
  scan_recursive prefix (cons e es) = scan_node prefix e ++ scan_recursive prefix es

unfoldable pub scan_workspace_files : Nodes → List FileInfo
unfolding cmp_text scan_recursive
scan_workspace_files es = sort_by (λ a b. cmp_text a.name b.name) (scan_recursive [] es)

-- The file system, by paths from its root.
pub record Disk : Type 1 where
  pub State : Type 0
  pub create_dir_all : List Text → State → Result (Unit {0}) × State
  pub write : List Text → Text → State → Result (Unit {0}) × State
  pub read_to_string : List Text → State → Option Text

module _ (d : Disk) where
  open d use {State, create_dir_all, write, read_to_string}

  abbrev pub skip : Step State (Unit {0})
  skip s = (ok tt, s)

  -- `let _ = fs::copy(...)`
  pub copy_file : List Text → Option Text → Step State (Unit {0})
  copy_file to none s = (ok tt, s)
  copy_file to (some content) s = (ok tt, (write to content s).1)

  mutual
    unfolding copy_file

    pub copy_entry : List Text → Node → Step State (Unit {0})
    copy_entry dst (file name size content) = copy_file (dst ++ name ∷ []) content
    copy_entry dst (dir name es) =
        let inner = copy_dir_recursive (dst ++ name ∷ []) es in
        if is_left_out name then skip else create_dir_all (dst ++ name ∷ []) >> inner
    copy_entry dst (link_to_file name size) = skip
    copy_entry dst (link_to_dir name es) = skip
    copy_entry dst (dead_link name) = skip

    pub copy_dir_recursive : List Text → Nodes → Step State (Unit {0})
    copy_dir_recursive dst nil = skip
    copy_dir_recursive dst (cons e es) = copy_entry dst e >> copy_dir_recursive dst es

  abbrev pub join : List Text → Text → List Text
  join at path = resolve at (components path)

  pub write_json : List Text → Result Text → Step State (Unit {0})
  write_json path (ok json) s = write path json s
  write_json path (err e) s = (err e, s)

  pub snapshot : List Text → Option Nodes → Step State (Unit {0})
  unfolding copy_dir_recursive
  snapshot dst none = skip
  snapshot dst (some workspace) = copy_dir_recursive dst workspace

  -- The workspace's file of an archived run.
  unfoldable pub get_workspace_file : List Text → Text → Text → State → Option Text
  get_workspace_file runs run_id filename s = elim (file_name run_id) [
    | none ↦ none
    | some clean_id ↦
        if contains filename (codes "..") || starts_with filename (codes "/")
        then none
        else read_to_string (join (join runs clean_id ++ codes "workspace" ∷ []) filename) s
  ]

  unfoldable pub get_console_log : List Text → Text → State → Option Text
  get_console_log runs run_id s = elim (file_name run_id) [
    | none ↦ none
    | some clean_id ↦ read_to_string (join runs clean_id ++ codes "console.log" ∷ []) s
  ]

  module _ (f : F64) where
    -- The environment of a run, and the manifest with what the archive adds to it.
    module _ (Env : Type 0) (commit_of : Env → Text) where
      pub record SavedManifest : Type 0 where
        pub manifest : RunManifest f
        pub git_commit : Option Text
        pub env : Option Env

      module _ (to_json : SavedManifest → Result Text) (env_to_json : Env → Result Text)
          (from_json : Text → Option SavedManifest) where
        -- Where there is no environment yet, the detected one is put in.
        abbrev pub with_env : Env → SavedManifest → SavedManifest
        with_env detected m = elim m.env [
          | some env ↦ m
          | none ↦ record {
            manifest = m.manifest;
            git_commit = some (commit_of detected);
            env = some detected;
          }
        ]

        -- An error does not count.
        pub write_env : List Text → Option Env → Step State (Unit {0})
        unfolding write_json
        write_env path none s = (ok tt, s)
        write_env path (some env) s = (ok tt, (write_json path (env_to_json env) s).1)

        abbrev pub unwrap_or_id : Option Text → Text → Text
        unwrap_or_id none run_id = run_id
        unwrap_or_id (some name) run_id = name

        -- The environment and the snapshot of the workspace.
        pub fill_rest : List Text → SavedManifest → Option Nodes → Step State (List Text)
        unfolding write_env snapshot
        fill_rest run_dir m workspace = do
          write_env (run_dir ++ codes "env.json" ∷ []) m.env
          create_dir_all (run_dir ++ codes "workspace" ∷ [])
          snapshot (run_dir ++ codes "workspace" ∷ []) workspace
          λ s. (ok run_dir, s)

        pub fill_run_dir : List Text → SavedManifest → Option Nodes → Text → Step State (List Text)
        unfolding fill_rest write_json
        fill_run_dir run_dir m workspace console_log = do
          create_dir_all run_dir
          write_json (run_dir ++ codes "manifest.json" ∷ []) (to_json m)
          write (run_dir ++ codes "console.log" ∷ []) console_log
          fill_rest run_dir m workspace

        -- The workspace is `none` if there is no such directory.
        unfoldable pub archive_run :
            Env → List Text → SavedManifest → Option Nodes → Text → Step State (List Text)
        unfolding fill_run_dir
        archive_run detected runs m workspace console_log =
            let run_id = m.manifest.run_id in
            fill_run_dir (join runs (unwrap_or_id (file_name run_id) run_id)) (with_env detected m)
              workspace console_log

        unfoldable pub get_run : List Text → Text → State → Option SavedManifest
        get_run runs run_id s = elim (file_name run_id) [
          | none ↦ none
          | some clean_id ↦
              (elim (read_to_string (join runs clean_id ++ codes "manifest.json" ∷ []) s) [
                | none ↦ none
                | some content ↦ from_json content
              ])
        ]

        -- The manifests of the directories, `none` where there is none that can be read.
        pub found_manifests : List (Option Text) → List SavedManifest
        found_manifests [] = []
        found_manifests (none ∷ files) = found_manifests files
        found_manifests (some content ∷ files) =
            let rest = found_manifests files in
            elim (from_json content) [ none ↦ rest | some m ↦ m ∷ rest ]

        unfoldable pub list_runs : List (Option Text) → List SavedManifest
        unfolding found_manifests cmp_text
        list_runs files =
            sort_by (λ a b. cmp_text b.manifest.started_at a.manifest.started_at)
              (found_manifests files)
