-- ===== src/Report/Paths.antt =====
-- `std::path::Path` as src/report/archive.rs uses it: `components`, `file_name`, and where a path leads
-- below a directory, without links.
pub mod Inside
pub mod Names
use subdollar_llm_coding_ben.Base.{
  ◌||◌, ℕ, Bool, true, false, Option, none, some, List, [], ◌∷◌, ◌++◌, if◌then◌else◌, ◌==◌,
}
use subdollar_llm_coding_ben.Text.{Text, codes, text_eq, starts_with}

-- `.` is left out.
pub data Component : Type 0 where
  root : Component
  parent : Component
  normal : Text → Component

pub push : ℕ → List Text → List Text
push c [] = (c ∷ []) ∷ []
push c (p ∷ ps) = (c ∷ p) ∷ ps

-- What stands between the slashes.
pub split_slash : Text → List Text
unfolding push
split_slash [] = [] ∷ []
split_slash (c ∷ s) = let rest = split_slash s in if c == b'/' then [] ∷ rest else push c rest

pub component_of : Text → Option Component
component_of p =
    if text_eq p [] || text_eq p (codes ".")
    then none
    else if text_eq p (codes "..")
    then some parent
    else some (normal p)

pub keep_component : Option Component → List Component → List Component
keep_component none cs = cs
keep_component (some c) cs = c ∷ cs

pub collect_components : List Text → List Component
unfolding component_of keep_component
collect_components [] = []
collect_components (p ∷ ps) = keep_component (component_of p) (collect_components ps)

unfoldable pub components : Text → List Component
unfolding split_slash collect_components
components s =
    if starts_with s (codes "/")
    then root ∷ collect_components (split_slash s)
    else collect_components (split_slash s)

pub last_name : List Component → Option Text
last_name [] = none
last_name (normal n ∷ []) = some n
last_name (root ∷ []) = none
last_name (parent ∷ []) = none
last_name (c ∷ d ∷ cs) = last_name (d ∷ cs)

-- `Path::new(s).file_name()`
unfoldable pub file_name : Text → Option Text
unfolding components last_name
file_name s = last_name (components s)

pub without_last : List Text → List Text
without_last [] = []
without_last (p ∷ []) = []
without_last (p ∷ q ∷ ps) = p ∷ without_last (q ∷ ps)

-- The directory or file that is reached from one by a path.
unfoldable pub resolve : List Text → List Component → List Text
unfolding without_last
resolve at [] = at
resolve at (root ∷ cs) = resolve [] cs
resolve at (parent ∷ cs) = resolve (without_last at) cs
resolve at (normal n ∷ cs) = resolve (at ++ n ∷ []) cs
