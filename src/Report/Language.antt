-- ===== src/Report/Language.antt =====
-- src/report/leaderboard.rs: `detect_language` and `scan_extensions`.
pub mod Markers
use subdollar_llm_coding_ben.Base.{
  Bool, true, false, not, ◌&&◌, ◌||◌, Option, none, some, List, [], ◌∷◌, if◌then◌else◌,
}
use subdollar_llm_coding_ben.Text.{Text, codes, starts_with, ends_with, text_eq}
use subdollar_llm_coding_ben.Compliance.Workspace.{Entry, file, dir, other, Entries, nil, cons}

-- What a file's name tells, by the chain of tests; `plain` is a name that tells nothing.
pub data Marker : Type 0 where
  rust go c_family python node plain : Marker

unfoldable pub marker_of : Text → Marker
marker_of name =
    if text_eq name (codes "Cargo.toml") || ends_with name (codes ".rs")
    then rust
    else if text_eq name (codes "go.mod") || ends_with name (codes ".go")
    then go
    else if ends_with name (codes ".c")
        || ends_with name (codes ".cpp")
        || ends_with name (codes ".cc")
    then c_family
    else if ends_with name (codes ".py") || text_eq name (codes "requirements.txt")
    then python
    else if ends_with name (codes ".js")
        || ends_with name (codes ".ts")
        || text_eq name (codes "package.json")
    then node
    else plain

-- The five flags that a scan sets.
pub record Found : Type 0 where
  pub has_c : Bool
  pub has_rust : Bool
  pub has_go : Bool
  pub has_py : Bool
  pub has_js : Bool

abbrev pub nothing : Found
nothing = record { has_c = false; has_rust = false; has_go = false; has_py = false; has_js = false }

abbrev pub mark : Marker → Found → Found
mark rust f = record f { has_rust = true }
mark go f = record f { has_go = true }
mark c_family f = record f { has_c = true }
mark python f = record f { has_py = true }
mark node f = record f { has_js = true }
mark plain f = f

-- A directory that is scanned.
unfoldable pub is_scanned : Text → Bool
is_scanned name =
    not (starts_with name (codes "."))
    && not (text_eq name (codes "target"))
    && not (text_eq name (codes "node_modules"))

unfoldable mutual
  unfolding marker_of is_scanned

  pub scan_extension : Entry → Found → Found
  scan_extension (file name content) f = mark (marker_of name) f
  scan_extension (dir name entries) f =
      let inner = scan_extensions entries f in if is_scanned name then inner else f
  scan_extension (other name) f = f

  pub scan_extensions : Entries → Found → Found
  scan_extensions nil f = f
  scan_extensions (cons e es) f = scan_extensions es (scan_extension e f)

unfoldable pub language_of : Found → Text
language_of f =
    if f.has_rust
    then codes "Rust"
    else if f.has_go
    then codes "Go"
    else if f.has_c
    then codes "C/C++"
    else if f.has_js
    then codes "Node.js"
    else if f.has_py
    then codes "Python"
    else codes "Unknown"

unfoldable pub detect_language : Entries → Text
unfolding scan_extension scan_extensions language_of
detect_language workdir = language_of (scan_extensions workdir nothing)
