-- ===== src/Report/Leaderboard.antt =====
-- src/report/leaderboard.rs: `BenchmarkRunResult`, the order of `load_all`, the tasks and views of
-- `print_leaderboard_views`, and `compute_pass_at_k`, whose product is kept as a fraction. The cells of the
-- table are not modelled.
pub mod Ranking
pub mod Sampling
use subdollar_llm_coding_ben.Base.{
  ℕ, zero, suc, ◌+◌, ◌-◌, ◌*◌, Bool, true, false, not, ◌&&◌, ◌||◌, Option, none, some, List, [],
  ◌∷◌, ◌++◌, if◌then◌else◌, ◌==◌, ltb, any,
}
use Prim.Native.Nat.{compare}
use subdollar_llm_coding_ben.Text.{Text, codes, is_empty, trim, text_eq, eq_ignore_ascii_case}
use subdollar_llm_coding_ben.Stage.{Rate}
use subdollar_llm_coding_ben.Order.{Ordering, then_with, cmp_bool, or_equal, sort_by}
use subdollar_llm_coding_ben.Float.{F64, is_le}

-- A probability, as a fraction.
pub record Fraction : Type 0 where
  pub num : ℕ
  pub den : ℕ

-- The numerators and denominators of the product, `i` factors from the front.
pub falling : ℕ → ℕ → ℕ
falling n zero = 1
falling n (suc k) = n * falling (n - 1) k

unfoldable pub compute_pass_at_k : ℕ → ℕ → ℕ → Fraction
unfolding falling
compute_pass_at_k n c k =
    if n == 0 || c == 0 || k == 0 || ltb n c || ltb n k
    then (if ltb 0 n && c == n then record { num = 1; den = 1 } else record { num = 0; den = 1 })
    else if ltb (n - c) k
    then record { num = 1; den = 1 }
    else record { num = falling n k - falling (n - c) k; den = falling n k }

-- The fields of a result that ranking and selection read, and those that they only carry along.
module _ (f : F64) where
  open f use {Num, lit, partial_cmp}

  pub record BenchmarkRunResult : Type 0 where
    pub id : Text
    pub model : Text
    pub task : Text
    pub language : Text
    pub effort : Option Text
    pub pass_rate : Num
    pub passed_stages : ℕ
    pub total_stages : ℕ
    pub throughput_req_sec : Option Num
    pub reference_throughput_req_sec : Option Num
    pub prompt_tokens : ℕ
    pub cached_tokens : ℕ
    pub completion_tokens : ℕ
    pub total_cost_usd : Num
    pub effective_cost_usd : Option Num
    pub duration_seconds : Option Num
    pub turns : Option ℕ
    pub savings_percent : Num
    pub efficiency_score : Num
    pub throughput_score : Option Num
    pub timestamp : Text
    pub method_version : Option Text

  abbrev pub unwrap_or : Option Num → Num → Num
  unwrap_or none d = d
  unwrap_or (some a) d = a

  abbrev pub effective_cost : BenchmarkRunResult → Num
  effective_cost r = unwrap_or r.effective_cost_usd r.total_cost_usd

  abbrev pub score : BenchmarkRunResult → Num
  score r = unwrap_or r.throughput_score r.efficiency_score

  abbrev pub throughput : BenchmarkRunResult → Num
  throughput r = unwrap_or r.throughput_req_sec (lit 0)

  -- `r.pass_rate >= 100.0`
  abbrev pub passed_all : BenchmarkRunResult → Bool
  passed_all r = is_le (partial_cmp (lit (100000000 * 100)) r.pass_rate)

  abbrev pub cmp_num : Num → Num → Ordering
  cmp_num a b = or_equal (partial_cmp a b)

  abbrev pub compare_results : BenchmarkRunResult → BenchmarkRunResult → Ordering
  compare_results a b = then_with (cmp_bool (passed_all b) (passed_all a)) (
      then_with (cmp_num b.pass_rate a.pass_rate) (
        then_with (cmp_num (score b) (score a)) (
          then_with (cmp_num (effective_cost a) (effective_cost b))
            (cmp_num (throughput b) (throughput a)))))

  -- A file of the directory: its extension, and what its text reads as; `none` is a file that
  -- cannot be read or parsed.
  pub record ResultFile : Type 0 where
    pub extension : Text
    pub parsed : Option BenchmarkRunResult

  unfoldable pub parsed_results : List ResultFile → List BenchmarkRunResult
  parsed_results [] = []
  parsed_results (p ∷ ps) =
      let rest = parsed_results ps in
      if text_eq p.extension (codes "json")
      then (elim p.parsed [ none ↦ rest | some r ↦ r ∷ rest ])
      else rest

  unfoldable pub load_all : List ResultFile → List BenchmarkRunResult
  load_all files = sort_by compare_results (parsed_results files)

  -- The distinct tasks in the order in which they come up; the first argument holds those before.
  distinct_tasks : List Text → List BenchmarkRunResult → List Text
  distinct_tasks tasks [] = tasks
  distinct_tasks tasks (r ∷ rs) =
      distinct_tasks (if any (λ t. text_eq t r.task) tasks then tasks else tasks ++ r.task ∷ []) rs

  unfoldable pub results_of : Text → List BenchmarkRunResult → List BenchmarkRunResult
  results_of task [] = []
  results_of task (r ∷ rs) =
      let rest = results_of task rs in if eq_ignore_ascii_case r.task task then r ∷ rest else rest

  -- What is printed: a table with its title, or that there are no results of a task.
  pub data View : Type 0 where
    table : Text → List BenchmarkRunResult → View
    no_results : Text → View

  module _ (lower : Text → Text) (task_title : Text → Text) (global_title : Text) where
    views_of : List BenchmarkRunResult → List Text → List View
    views_of results [] = table global_title results ∷ []
    views_of results (task ∷ tasks) =
        table (task_title task) (results_of task results) ∷ views_of results tasks

    view_of : Text → List BenchmarkRunResult → List View
    view_of task [] = no_results task ∷ []
    view_of task (r ∷ rs) = table (task_title task) (r ∷ rs) ∷ []

    -- The titles, which hold characters beyond ASCII, are parameters.
    unfoldable pub leaderboard_views : List BenchmarkRunResult → Text → List View
    unfolding distinct_tasks views_of view_of
    leaderboard_views results task_filter =
        let trimmed = trim task_filter in
        if is_empty trimmed || eq_ignore_ascii_case trimmed (codes "all")
        then views_of results (distinct_tasks [] results)
        else view_of trimmed (results_of trimmed results)
