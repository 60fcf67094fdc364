-- ===== src/Examples/Report.antt =====
-- Tests of src/report/leaderboard.rs and src/report/portal.rs, and instances of the theorems.
use mathlib.Core.Bool.{false≢true}
use mathlib.Core.List.{Perm}
use subdollar_llm_coding_ben.Base.{
  All, arith, ℕ, ◌-◌, ◌*◌, ◌≡◌, refl, Bool, true, false, none, some, List, ◌∷◌, [], map, length,
}
use subdollar_llm_coding_ben.Text.{Text, codes, text_eq, starts_with, ends_with}
use subdollar_llm_coding_ben.Compliance.Workspace.{Entries, nil, cons, file, dir}
use subdollar_llm_coding_ben.Order.{sort_by, insert_by}
use subdollar_llm_coding_ben.Report.Leaderboard.{
  BenchmarkRunResult, ResultFile, parsed_results, load_all, compute_pass_at_k,
}
use subdollar_llm_coding_ben.Report.Leaderboard.Ranking.{Reads, IsRanked, load_all-IsRanked}
use subdollar_llm_coding_ben.Report.Leaderboard.Sampling.{
  samples, count_failing, count_successes, compute_pass_at_k-samples,
}
use subdollar_llm_coding_ben.Report.Html.{replace, esc}
use subdollar_llm_coding_ben.Report.Html.Escaped.{
  escape_each, IsInert, esc-escape_each, esc-IsInert,
}
use subdollar_llm_coding_ben.Report.Language.{
  detect_language, scan_extensions, marker_of, is_scanned, language_of,
}
use subdollar_llm_coding_ben.Report.Language.Markers.{
  HasFile, first, later, here, below, HaveSameFiles, detect_language-HaveSameFiles,
}
use subdollar_llm_coding_ben.Examples.Numbers.{decimals, decimals-IsOrder, scale}

-- A result with a rate, a score and a cost.
abbrev result : Text → ℕ → ℕ → ℕ → BenchmarkRunResult decimals
result id rate score cost = record {
  id = id;
  model = codes "m";
  task = codes "redis";
  language = codes "Rust";
  effort = none;
  pass_rate = rate * scale;
  passed_stages = 0;
  total_stages = 4;
  throughput_req_sec = none;
  reference_throughput_req_sec = none;
  prompt_tokens = 0;
  cached_tokens = 0;
  completion_tokens = 0;
  total_cost_usd = cost;
  effective_cost_usd = none;
  duration_seconds = none;
  turns = none;
  savings_percent = 0;
  efficiency_score = score;
  throughput_score = none;
  timestamp = codes "t";
  method_version = none;
}

abbrev json : BenchmarkRunResult decimals → ResultFile decimals
json r = record { extension = codes "json"; parsed = some r }

-- Four results, a file that is no JSON, and one that is not named so.
abbrev files : List (ResultFile decimals)
files =
    json (result (codes "cheap_half") 50 0 1)
    ∷ json (result (codes "full_low") 100 20 9)
    ∷ record { extension = codes "json"; parsed = none }
    ∷ json (result (codes "full_high") 100 90 9)
    ∷ record { extension = codes "txt"; parsed = some (result (codes "hidden") 100 99 1) }
    ∷ json (result (codes "dear_half") 50 0 7)
    ∷ []

ranking :
    map (λ (r : BenchmarkRunResult decimals). r.id) (load_all decimals files)
    ≡ codes "full_high" ∷ codes "full_low" ∷ codes "cheap_half" ∷ codes "dear_half" ∷ []
unfolding load_all parsed_results sort_by insert_by text_eq
ranking = refl

load_all-IsRanked_example :
    ((rs : List (BenchmarkRunResult decimals)) × Reads decimals files rs
      × Perm (load_all decimals files) rs)
    × IsRanked decimals (load_all decimals files)
load_all-IsRanked_example = load_all-IsRanked decimals decimals-IsOrder files

-- Two successes in four trials: a pair holds one in five of six cases.
pairs : compute_pass_at_k 4 2 2 ≡ record { num = 10; den = 12 }
unfolding compute_pass_at_k
pairs = refl

abbrev trials : List Bool
trials = true ∷ false ∷ false ∷ true ∷ []

compute_pass_at_k-samples_example :
    (compute_pass_at_k 4 (count_successes trials) 2).num * length (samples 2 trials)
    ≡ (length (samples 2 trials) - count_failing (samples 2 trials))
      * (compute_pass_at_k 4 (count_successes trials) 2).den
compute_pass_at_k-samples_example = compute_pass_at_k-samples 2 trials (omega arith) (omega arith)

-- A crate with what a build leaves, and without.
abbrev built : Entries
built =
    cons (dir (codes "target") (cons (file (codes "a.py") none) nil)) (
      cons (dir (codes "src") (cons (file (codes "main.rs") (some (codes "fn main() {}"))) nil))
        nil)

abbrev fresh : Entries
fresh = cons (dir (codes "src") (cons (file (codes "main.rs") none) nil)) nil

rust_server : detect_language built ≡ codes "Rust"
unfolding detect_language scan_extensions marker_of is_scanned text_eq starts_with ends_with
    language_of
rust_server = refl

to_fresh : (name : Text) → HasFile name built → HasFile name fresh
unfolding is_scanned text_eq starts_with
to_fresh name (first (below scanned h)) = absurd (false≢true scanned)
to_fresh name (later (first (below scanned (first here)))) = first (below scanned (first here))
to_fresh name (later (first (below scanned (later h)))) = elim h [ ]
to_fresh name (later (later h)) = elim h [ ]

to_built : (name : Text) → HasFile name fresh → HasFile name built
to_built name (first (below scanned (first here))) = later (first (below scanned (first here)))
to_built name (first (below scanned (later h))) = elim h [ ]
to_built name (later h) = elim h [ ]

built_as_fresh : HaveSameFiles built fresh
built_as_fresh name = (to_fresh name, to_built name)

detect_language-HaveSameFiles_example : detect_language built ≡ detect_language fresh
detect_language-HaveSameFiles_example = detect_language-HaveSameFiles built fresh built_as_fresh

-- A run id that is a link.
abbrev link : Text
link = codes "<a href=\"x\">&"

escaped : esc link ≡ codes "&lt;a href=&quot;x&quot;&gt;&amp;"
unfolding esc replace
escaped = refl

esc-escape_each_example : esc link ≡ escape_each link
esc-escape_each_example = esc-escape_each link

esc-IsInert_example : All IsInert (esc link)
esc-IsInert_example = esc-IsInert link
