-- ===== src/Text/Space.antt =====
-- White space: `trim`, `trim_start`, `trim_end`, `split_whitespace`, over Unicode's White_Space.
use mathlib.Core.List.{reverse-append, reverse-reverse}
use subdollar_llm_coding_ben.Base.{
  ◌∙◌, refl, All, All-append, ap, ℕ, zero, suc, ◌≡◌, Bool, false, ◌&&◌, ◌||◌, List, [], ◌∷◌, ◌++◌,
  reverse, arith, ◌==◌, if◌then◌else◌, within, ◌<◌,
}
use subdollar_llm_coding_ben.Text.Search.{Text}

-- The white space of one byte, of two and of three.
unfoldable pub is_space : ℕ → Bool
is_space a = within 9 13 a || a == 32

is_space2 : ℕ → ℕ → Bool
is_space2 a b = a == 0xC2 && (b == 0x85 || b == 0xA0)

is_space3 : ℕ → ℕ → ℕ → Bool
is_space3 a b c =
    (a == 0xE1 && b == 0x9A && c == 0x80)
    || (a == 0xE2 && b == 0x80 && (within 0x80 0x8A c || c == 0xA8 || c == 0xA9 || c == 0xAF))
    || (a == 0xE2 && b == 0x81 && c == 0x9F)
    || (a == 0xE3 && b == 0x80 && c == 0x80)

-- The bytes of the white space that a text begins with, 0 if it begins with none.
space_len2 : ℕ → Text → ℕ
unfolding is_space2 is_space3
space_len2 a [] = 0
space_len2 a (b ∷ []) = if is_space2 a b then 2 else 0
space_len2 a (b ∷ c ∷ s) = if is_space2 a b then 2 else if is_space3 a b c then 3 else 0

unfoldable pub space_len : Text → ℕ
unfolding is_space space_len2
space_len [] = 0
space_len (a ∷ s) = if is_space a then 1 else space_len2 a s

-- The same for the end of a text that is read backwards.
space_len_back2 : ℕ → Text → ℕ
unfolding is_space2 is_space3
space_len_back2 c [] = 0
space_len_back2 c (b ∷ []) = if is_space2 b c then 2 else 0
space_len_back2 c (b ∷ a ∷ s) = if is_space2 b c then 2 else if is_space3 a b c then 3 else 0

unfoldable pub space_len_back : Text → ℕ
unfolding is_space space_len_back2
space_len_back [] = 0
space_len_back (c ∷ s) = if is_space c then 1 else space_len_back2 c s

-- Skips white space; the number counts the bytes left of the character being skipped.
unfoldable pub skip_space : (Text → ℕ) → ℕ → Text → Text
skip_space len k [] = []
skip_space len (suc k) (c ∷ s) = skip_space len k s
skip_space len zero (c ∷ s) = elim (len (c ∷ s)) [ zero ↦ c ∷ s | suc k ↦ skip_space len k s ]

unfoldable pub trim_start : Text → Text
unfolding skip_space space_len
trim_start s = skip_space space_len 0 s

unfoldable pub trim_end : Text → Text
unfolding skip_space space_len_back
trim_end s = reverse (skip_space space_len_back 0 (reverse s))

unfoldable pub trim : Text → Text
unfolding trim_start trim_end
trim s = trim_end (trim_start s)

abbrev pub if_any : Text → List Text
if_any [] = []
if_any (c ∷ w) = (c ∷ w) ∷ []

-- The words of a text; the number is that of `skip_space`, the second argument the word so far.
unfoldable pub words : ℕ → Text → Text → List Text
words k w [] = if_any w
words (suc k) w (c ∷ s) = words k w s
words zero w (c ∷ s) = elim (space_len (c ∷ s)) [
  | zero ↦ words zero (w ++ c ∷ []) s
  | suc k ↦ if_any w ++ words k [] s
]

unfoldable pub split_whitespace : Text → List Text
unfolding words space_len
split_whitespace s = words 0 [] s

-- A byte of ASCII that is no white space: a text that begins or ends with it stays as it is there.
abbrev pub IsGraphic : ℕ → Type 0
IsGraphic c = (c < 128) × (is_space c ≡ false)

space_len-graphic : (c : ℕ) (s : Text) → IsGraphic c → space_len (c ∷ s) ≡ 0
unfolding space_len is_space2 is_space3
space_len-graphic c [] h = ground arith
space_len-graphic c (b ∷ []) h = ground arith
space_len-graphic c (b ∷ a ∷ s) h = ground arith

pub trim_start-graphic : (c : ℕ) (s : Text) → IsGraphic c → trim_start (c ∷ s) ≡ c ∷ s
unfolding trim_start
trim_start-graphic c s h = ground (arith, space_len-graphic c s h)

space_len_back-graphic : (c : ℕ) (s : Text) → IsGraphic c → space_len_back (c ∷ s) ≡ 0
unfolding space_len_back is_space2 is_space3
space_len_back-graphic c [] h = ground arith
space_len_back-graphic c (b ∷ []) h = ground arith
space_len_back-graphic c (b ∷ a ∷ s) h = ground arith

skip_space-graphic : (s : Text) → All IsGraphic s → skip_space space_len_back 0 s ≡ s
unfolding skip_space
skip_space-graphic [] h = refl
skip_space-graphic (c ∷ s) (h, hs) = ground (arith, space_len_back-graphic c s h)

All-reverse : (s : Text) → All IsGraphic s → All IsGraphic (reverse s)
All-reverse [] h = tt
All-reverse (c ∷ s) (h, hs) =
    rw (reverse-append (c ∷ []) s)
      (All-append IsGraphic (reverse s) (c ∷ []) (All-reverse s hs) (h, tt))

trim_end-graphic : (s : Text) → All IsGraphic s → trim_end s ≡ s
unfolding trim_end
trim_end-graphic s h =
    ap reverse (skip_space-graphic (reverse s) (All-reverse s h)) ∙ reverse-reverse s

-- A text without white space is not trimmed.
pub trim-graphic : (s : Text) → All IsGraphic s → trim s ≡ s
unfolding trim trim_start
trim-graphic [] h = refl
trim-graphic (c ∷ s) (h, hs) =
    ap trim_end (trim_start-graphic c s h) ∙ trim_end-graphic (c ∷ s) (h, hs)
