-- ===== src/Compliance/Logical.antt =====
-- src/verifier/compliance.rs: `normalize_lines`, which joins the lines that end in a backslash.
pub mod Continued
use subdollar_llm_coding_ben.Base.{◌&&◌, Option, none, some, List, [], ◌∷◌, ◌++◌, if◌then◌else◌}
use subdollar_llm_coding_ben.Text.{
  Text, codes, is_empty, lines, trim, trim_end, starts_with, strip_suffix, if_any,
}

-- What one line adds to the logical lines, and the text that waits for the next line.
pub join_line : Text → Text → Option Text → List Text × Text
join_line current trimmed (some stripped) = ([], current ++ (trim_end stripped ++ codes " "))
join_line current trimmed none = (if_any (trim (current ++ trimmed)), [])

pub take_line : Text → Text → List Text × Text
unfolding join_line
take_line current raw_line =
    let trimmed = trim raw_line in
    if is_empty current && starts_with trimmed (codes "#")
    then (trimmed ∷ [], current)
    else join_line current trimmed (strip_suffix trimmed b'\\')

pub normalize : Text → List Text → List Text
normalize current [] = if_any (trim current)
normalize current (raw_line ∷ rest) =
    let (out, waiting) = take_line current raw_line in out ++ normalize waiting rest

unfoldable pub normalize_lines : Text → List Text
unfolding normalize take_line
normalize_lines content = normalize [] (lines content)
