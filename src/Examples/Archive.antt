-- ===== src/Examples/Archive.antt =====
-- Tests of src/report/archive.rs on a disk in memory, and instances of the theorems.
use mathlib.Core.List.{Perm}
use subdollar_llm_coding_ben.Base.{
  ◌≡◌, ◌↔◌, refl, ap, Bool, true, false, ◌&&◌, Option, none, some, List, [], ◌∷◌, ◌++◌, Bool-cases,
  inl, inr, arith, if◌then◌else◌,
}
use subdollar_llm_coding_ben.Text.{Text, codes, text_eq, text_eq_iff, starts_with, contains}
use subdollar_llm_coding_ben.Stage.{Result, ok}
use subdollar_llm_coding_ben.Order.{sort_by, insert_by}
use subdollar_llm_coding_ben.Report.Paths.{file_name, components, resolve}
use subdollar_llm_coding_ben.Report.Archive.{
  cmp_text, Disk, Nodes, nil, cons, file, dir, SavedManifest, archive_run, get_run, get_console_log,
  get_workspace_file, list_runs, scan_workspace_files,
}
use subdollar_llm_coding_ben.Report.Archive.Saved.{IsFaithful, get_run-archive_run}
use subdollar_llm_coding_ben.Report.Archive.Confined.{IsBelow, get_workspace_file-IsBelow}
use subdollar_llm_coding_ben.Report.Archive.Listing.{
  Reads, AreNewestFirst, list_runs-AreNewestFirst,
}
use subdollar_llm_coding_ben.Pipeline.World.{RunManifest}
use subdollar_llm_coding_ben.Examples.Numbers.{decimals}

paths_eq : List Text → List Text → Bool
paths_eq [] [] = true
paths_eq (p ∷ ps) (q ∷ qs) = text_eq p q && paths_eq ps qs
paths_eq [] (q ∷ qs) = false
paths_eq (p ∷ ps) [] = false

paths_eq_iff : (ps qs : List Text) → (paths_eq ps qs ≡ true) ↔ (ps ≡ qs)
unfolding paths_eq
paths_eq_iff [] [] = ground arith
paths_eq_iff (p ∷ ps) (q ∷ qs) = ground (arith, paths_eq_iff ps qs, text_eq_iff p q)
paths_eq_iff [] (q ∷ qs) = ground arith
paths_eq_iff (p ∷ ps) [] = ground arith

look_up : List Text → List (List Text × Text) → Option Text
look_up q [] = none
look_up q ((p, content) ∷ files) = if paths_eq q p then some content else look_up q files

abbrev memory : Disk
memory = record {
  State = List (List Text × Text);
  create_dir_all = λ p s. (ok tt, s);
  write = λ p content s. (ok tt, (p, content) ∷ s);
  read_to_string = look_up;
}

memory-IsFaithful : IsFaithful memory
unfolding look_up
memory-IsFaithful = record {
  written = λ p t s h. rw ((paths_eq_iff p p).1 refl) refl;
  write_keeps = λ p q t s no_same. elim (Bool-cases (paths_eq q p)) [
    | inl e ↦ absurd (no_same ((paths_eq_iff q p).0 e))
    | inr e ↦ rw (e) refl
  ];
  create_keeps = λ p q s. refl;
}

abbrev manifest : Text → RunManifest decimals
manifest id = record {
  run_id = id;
  model = codes "m";
  task = codes "redis";
  status = codes "completed";
  language = codes "Rust";
  effort = none;
  started_at = codes "2026-09-04T06:30:00Z";
  completed_at = codes "2026-09-04T06:31:00Z";
  duration_seconds = 0;
  turns = none;
  pass_rate = record { part = 400; whole = 4 };
  passed_stages = 4;
  total_stages = 4;
  stages = [];
  throughput_req_sec = none;
  reference_throughput_req_sec = none;
  tokens = record { prompt_tokens = 1; cached_tokens = 0; completion_tokens = 1; total_tokens = 2 };
  cost_usd = 0;
  effective_cost_usd = none;
  savings_percent = 0;
  efficiency_score = 0;
  throughput_score = none;
  files = [];
  method_version = none;
}

abbrev Saved : Type 0
Saved = SavedManifest memory decimals Text (λ e. e)

-- A manifest is written as its run id.
abbrev saved : Text → Saved
saved id = record {
  manifest = manifest id;
  git_commit = some (codes "abc");
  env = some (codes "abc");
}

abbrev to_json : Saved → Result Text
to_json m = ok m.manifest.run_id

abbrev from_json : Text → Option Saved
from_json t = some (saved t)

abbrev env_to_json : Text → Result Text
env_to_json e = ok e

abbrev runs : List Text
runs = codes "repo" ∷ codes "runs" ∷ []

abbrev workspace : Nodes
workspace = cons (file (codes "start.sh") 10 (some (codes "./server"))) (
    cons (dir (codes "src") (cons (file (codes "main.rs") 12 (some (codes "fn main() {}"))) nil))
      nil)

listed :
    scan_workspace_files workspace
    ≡ record { name = codes "src/main.rs"; size_bytes = 12 }
      ∷ record { name = codes "start.sh"; size_bytes = 10 }
      ∷ []
unfolding scan_workspace_files sort_by insert_by text_eq cmp_text
listed = refl

abbrev archived : Result (List Text) × List (List Text × Text)
archived =
    archive_run memory decimals Text (λ e. e) to_json env_to_json from_json (codes "abc") runs
      (saved (codes "redis_1")) (some workspace) (codes "log") []

abbrev run_dir : List Text
run_dir = codes "repo" ∷ codes "runs" ∷ codes "redis_1" ∷ []

succeeded : archived.0 ≡ ok run_dir
unfolding archive_run file_name components resolve text_eq starts_with
succeeded = refl

-- The last part of an id names the run, and a run above the directory is none.
named : file_name (codes "redis_1") ≡ some (codes "redis_1")
unfolding file_name components text_eq starts_with
named = refl

unnamed : file_name (codes "..") ≡ none
unfolding file_name components text_eq starts_with
unnamed = refl

get_run-archive_run_example :
    (get_run memory decimals Text
        (λ e. e)
        to_json
        env_to_json
        from_json
        runs
        (codes "redis_1")
        archived.1
      ≡ some (saved (codes "redis_1")))
    × (get_console_log memory runs (codes "redis_1") archived.1 ≡ some (codes "log"))
get_run-archive_run_example =
    get_run-archive_run memory memory-IsFaithful decimals Text (λ e. e) to_json env_to_json
      from_json (codes "abc") runs (saved (codes "redis_1")) (some workspace) (codes "log")
      (codes "redis_1") [] run_dir (λ json e. ap from_json (ok_text e)) named succeeded
  where
    ok_text : {json : Text} → ok (codes "redis_1") ≡ ok json → json ≡ codes "redis_1"
    ok_text e = cc

abbrev served : Text → List (List Text × Text)
served content = (run_dir ++ codes "workspace" ∷ codes "src" ∷ codes "main.rs" ∷ [], content) ∷ []

read :
    get_workspace_file memory runs
      (codes "x/redis_1")
      (codes "./src//main.rs")
      (served (codes "fn"))
    ≡ some (codes "fn")
unfolding get_workspace_file file_name components resolve text_eq starts_with contains look_up
    paths_eq
read = refl

get_workspace_file-IsBelow_example :
    (clean_id : Text) × (file_name (codes "x/redis_1") ≡ some clean_id)
    × IsBelow memory runs clean_id (served (codes "fn")) (codes "fn")
get_workspace_file-IsBelow_example =
    get_workspace_file-IsBelow memory runs (codes "x/redis_1") (codes "./src//main.rs")
      (served (codes "fn")) (codes "fn") read

abbrev stored : List (Option Text)
stored = some (codes "a") ∷ none ∷ some (codes "b") ∷ []

list_runs-AreNewestFirst_example :
    ((ms : List (SavedManifest memory decimals Text (λ e. e))) × Reads memory decimals Text
        (λ e. e)
        to_json
        env_to_json
        from_json
        stored
        ms
      × Perm (list_runs memory decimals Text (λ e. e) to_json env_to_json from_json stored) ms)
    × AreNewestFirst memory decimals Text
        (λ e. e)
        to_json
        env_to_json
        from_json
        (list_runs memory decimals Text (λ e. e) to_json env_to_json from_json stored)
list_runs-AreNewestFirst_example =
    list_runs-AreNewestFirst memory decimals Text (λ e. e) to_json env_to_json from_json stored
