-- ===== src/Compliance/Logical/Continued.antt =====
-- Lines that end with a backslash, and the logical line that `normalize_lines` makes of them.
use subdollar_llm_coding_ben.Base.{
  ℕ, ◌≡◌, refl, ap, ◌∙◌, false, none, some, List, [], ◌∷◌, ◌++◌, append_assoc, append-nil, All, map,
}
use subdollar_llm_coding_ben.Text.{
  Text, codes, is_empty, lines, trim, trim_end, starts_with, strip_suffix, if_any,
}
use subdollar_llm_coding_ben.Compliance.Logical.{join_line, take_line, normalize, normalize_lines}

-- A line, and what stands before the backslash at its end.
pub record Part : Type 0 where
  pub raw : Text
  pub body : Text

abbrev pub IsContinued : Part → Type 0
IsContinued p = strip_suffix (trim p.raw) b'\\' ≡ some p.body

-- The parts, each with one space behind it.
abbrev pub joined : List Part → Text
joined [] = []
joined (p ∷ parts) = (trim_end p.body ++ codes " ") ++ joined parts

is_empty-append : (s : Text) (c : ℕ) → is_empty (s ++ c ∷ []) ≡ false
is_empty-append [] c = refl
is_empty-append (d ∷ s) c = refl

is_empty-part : (current s : Text) → is_empty (current ++ (s ++ codes " ")) ≡ false
is_empty-part [] s = is_empty-append s b' '
is_empty-part (c ∷ current) s = refl

normalize-parts :
    (current : Text) (parts : List Part) (last : Text) (rest : List Text)
    → is_empty current ≡ false
    → All IsContinued parts
    → strip_suffix (trim last) b'\\' ≡ none
    → normalize current (map (λ p. p.raw) parts ++ last ∷ rest)
      ≡ if_any (trim ((current ++ joined parts) ++ trim last)) ++ normalize [] rest
unfolding normalize take_line join_line
normalize-parts current [] last rest waits h ends = rw (waits, ends, append-nil) refl
normalize-parts current (p ∷ parts) last rest waits (h, hs) ends =
    rw (waits, h)
      (normalize-parts (current ++ (trim_end p.body ++ codes " ")) parts last rest
          (is_empty-part current (trim_end p.body)) hs ends
        ∙ ap (λ s. if_any (trim (s ++ trim last)) ++ normalize [] rest)
            (append_assoc current (trim_end p.body ++ codes " ") (joined parts)))

-- If a text begins with lines that end with a backslash, of which the first is no comment, and a line
-- that does not, then normalize_lines makes one line of them, each without its backslash and with
-- one space behind it, or none if they are blank; a comment between them is part of it, and the
-- lines behind them are read afresh.
pub normalize_lines-joined :
    (content : Text) (first : Part) (parts : List Part) (last : Text) (rest : List Text)
    → lines content ≡ map (λ p. p.raw) (first ∷ parts) ++ last ∷ rest
    → starts_with (trim first.raw) (codes "#") ≡ false
    → All IsContinued (first ∷ parts)
    → strip_suffix (trim last) b'\\' ≡ none
    → normalize_lines content
      ≡ if_any (trim (joined (first ∷ parts) ++ trim last)) ++ normalize [] rest
unfolding normalize_lines normalize take_line join_line
normalize_lines-joined content first parts last rest split no_comment (h, hs) ends =
    rw (split, no_comment, h)
      (normalize-parts (trim_end first.body ++ codes " ") parts last rest
        (is_empty-append (trim_end first.body) b' ') hs ends)
