-- ===== src/Compliance/Segments/Sizes.antt =====
-- No segment of a command line is longer than the line.
use subdollar_llm_coding_ben.Base.{
  ℕ, ◌+◌, ◌≤◌, Bool, true, false, [], ◌∷◌, ◌++◌, arith, length, length-append, All,
}
use subdollar_llm_coding_ben.Text.{Text, trim, if_any, length-trim}
use subdollar_llm_coding_ben.Compliance.Segments.{
  Quotes, unquoted, keep, cut, cut_two, classify, segments, split_command_segments,
}

length-if_any : (b : ℕ) (w : Text) → length w ≤ b → All (λ s. length s ≤ b) (if_any w)
length-if_any b [] h = tt
length-if_any b (c ∷ w) h = (h, tt)

length-segments :
    (b : ℕ) (skip : Bool) (q : Quotes) (current s : Text)
    → length current + length s ≤ b
    → All (λ t. length t ≤ b) (segments skip q current s)
unfolding segments
length-segments b skip q current [] h =
    length-if_any b (trim current) (omega (arith, length-trim current))
length-segments b true q current (c ∷ s) h = length-segments b false q current s (omega arith)
length-segments b false q current (c ∷ s) h =
    elim (classify q c s)
      as (λ a.
        All (λ t. length t ≤ b)
          (elim a [
            | keep q' ↦ segments false q' (current ++ c ∷ []) s
            | cut ↦ trim current ∷ segments false q [] s
            | cut_two ↦ trim current ∷ segments true q [] s
          ])) [
            | keep q' ↦
                length-segments b false q' (current ++ c ∷ []) s
                  (omega (arith, length-append current (c ∷ [])))
            | cut ↦
                (omega (arith, length-trim current), length-segments b false q [] s (omega arith))
            | cut_two ↦
                (omega (arith, length-trim current), length-segments b true q [] s (omega arith))
          ]

pub length-split_command_segments :
    (s : Text) → All (λ t. length t ≤ length s) (split_command_segments s)
unfolding split_command_segments
length-split_command_segments s = length-segments (length s) false unquoted [] s (omega arith)
