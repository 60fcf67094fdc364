-- ===== src/Text/Lines.antt =====
-- Lines, suffixes and letters: `lines`, `strip_suffix`, `rsplit`, `eq_ignore_ascii_case`.
use subdollar_llm_coding_ben.Base.{
  ℕ, ◌+◌, Bool, true, false, Option, none, some, List, [], ◌∷◌, ◌++◌, reverse, map, ◌==◌,
  if◌then◌else◌, within, any,
}
use subdollar_llm_coding_ben.Text.Search.{Text, text_eq}

-- A line end takes a `\r` before it along.
strip_return : Text → Text
strip_return line = elim (reverse line) [
  | [] ↦ []
  | c ∷ rest ↦ if c == 13 then reverse rest else line
]

-- `s.lines()`; the first argument is the line so far. A last line without a line end counts if it
-- is not empty.
lines_from : Text → Text → List Text
unfolding strip_return
lines_from [] [] = []
lines_from (c ∷ line) [] = (c ∷ line) ∷ []
lines_from line (c ∷ s) = elim (c == 10) [
  | true ↦ strip_return line ∷ lines_from [] s
  | false ↦ lines_from (line ++ c ∷ []) s
]

unfoldable pub lines : Text → List Text
unfolding lines_from
lines s = lines_from [] s

-- `s.strip_suffix(c)` for a character of one byte.
unfoldable pub strip_suffix : Text → ℕ → Option Text
strip_suffix s x = elim (reverse s) [
  | [] ↦ none
  | c ∷ rest ↦ if c == x then some (reverse rest) else none
]

-- `s.split(c).next_back()`: what stands behind the last `c`.
after_last_from : ℕ → Text → Text → Text
after_last_from x part [] = part
after_last_from x part (c ∷ s) = after_last_from x (if c == x then [] else part ++ c ∷ []) s

unfoldable pub after_last : ℕ → Text → Text
unfolding after_last_from
after_last x s = after_last_from x [] s

-- `s.contains(c)` for a character of one byte.
abbrev pub has : ℕ → Text → Bool
has x = any (λ c. c == x)

unfoldable pub ascii_lower : Text → Text
ascii_lower = map (λ c. if within b'A' b'Z' c then c + 32 else c)

unfoldable pub eq_ignore_ascii_case : Text → Text → Bool
unfolding ascii_lower
eq_ignore_ascii_case s t = text_eq (ascii_lower s) (ascii_lower t)

-- The first result that a loop with an early return finds.
unfoldable pub first_some {ℓ κ} : {A : Type ℓ} {B : Type κ} → (A → Option B) → List A → Option B
first_some f [] = none
first_some f (x ∷ xs) = let rest = first_some f xs in elim (f x) [ none ↦ rest | some b ↦ some b ]

-- `list.contains(&s)`
unfoldable pub is_one_of : List Text → Text → Bool
is_one_of list s = any (λ t. text_eq t s) list
