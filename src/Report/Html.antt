-- ===== src/Report/Html.antt =====
-- src/report/portal.rs: `esc` and `redact`. A pattern's `replace_all` is a parameter.
pub mod Escaped
use subdollar_llm_coding_ben.Base.{ℕ, List, [], ◌∷◌, ◌++◌, if◌then◌else◌, ◌==◌}
use subdollar_llm_coding_ben.Text.{Text, codes}

-- `s.replace(c, t)`
unfoldable pub replace : ℕ → Text → Text → Text
replace c t [] = []
replace c t (x ∷ s) = let rest = replace c t s in if x == c then t ++ rest else x ∷ rest

unfoldable pub esc : Text → Text
esc s =
    replace b'"' (codes "&quot;")
      (replace b'>' (codes "&gt;") (replace b'<' (codes "&lt;") (replace b'&' (codes "&amp;") s)))

-- A pattern is what it makes of a text and a replacement.
unfoldable pub redact : List (Text → Text → Text) → Text → Text
redact [] out = out
redact (replace_all ∷ patterns) out = redact patterns (replace_all out (codes "***REDACTED***"))
