-- ===== src/Compliance/Segments.antt =====
-- src/verifier/compliance.rs: `split_command_segments`, the scanner for `;`, `&&`, `||`, `|` and `&`
-- outside quotes.
pub mod Script
pub mod Sizes
use subdollar_llm_coding_ben.Base.{
  ℕ, zero, suc, Bool, true, false, not, ◌&&◌, ◌||◌, List, [], ◌∷◌, ◌++◌, ◌==◌, if◌then◌else◌,
}
use subdollar_llm_coding_ben.Text.{Text, trim, if_any}

-- `in_single_quote` and `in_double_quote`.
pub record Quotes : Type 0 where
  pub single : Bool
  pub double : Bool

abbrev pub unquoted : Quotes
unquoted = record { single = false; double = false }

-- What the scanner does with a character: keep it, end the segment, or end it and skip one more.
pub data Action : Type 0 where
  keep : Quotes → Action
  cut : Action
  cut_two : Action

-- `c == '&' && next == '&'`, and the same for `|`.
pub doubled : ℕ → Text → Bool
doubled c [] = false
doubled c (d ∷ s) = (c == b'&' && d == b'&') || (c == b'|' && d == b'|')

pub classify : Quotes → ℕ → Text → Action
unfolding doubled
classify q c rest =
    if c == b'\'' && not q.double
    then keep (record q { single = not q.single })
    else if c == b'"' && not q.single
    then keep (record q { double = not q.double })
    else if not q.single && not q.double
    then (if c == b';'
        then cut
        else if doubled c rest
        then cut_two
        else if c == b'|' || c == b'&'
        then cut
        else keep q)
    else keep q

-- The flag is set behind the first of two characters.
pub segments : Bool → Quotes → Text → Text → List Text
segments skip q current [] = if_any (trim current)
segments true q current (c ∷ s) = segments false q current s
segments false q current (c ∷ s) = elim (classify q c s) [
  | keep q' ↦ segments false q' (current ++ c ∷ []) s
  | cut ↦ trim current ∷ segments false q [] s
  | cut_two ↦ trim current ∷ segments true q [] s
]

unfoldable pub split_command_segments : Text → List Text
unfolding segments classify
split_command_segments line = segments false unquoted [] line
