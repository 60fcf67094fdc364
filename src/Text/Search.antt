-- ===== src/Text/Search.antt =====
-- Comparing and searching texts: `==`, `starts_with`, `ends_with`, `find`, `contains`, `windows`.
use Prim.Native.Char.{code}
use Prim.Native.String.{String}
use subdollar_llm_coding_ben.Base.{
  All, ◌-◌, ◌≢◌, ◌+◌, ◌≤◌, ap, length, Bool-cases, Option-cases, inl, inr, ℕ, suc, ◌≡◌, refl, ◌↔◌,
  Bool, true, false, ◌&&◌, Option, none, some, List, [], ◌∷◌, ◌++◌, reverse, arith, ◌==◌,
  if◌then◌else◌,
}

abbrev pub Bytes : Type 0
Bytes = List ℕ

abbrev pub Text : Type 0
Text = Bytes

-- The code points of a literal, which are its bytes: every literal of the program is ASCII.
abbrev pub codes : String → Text
codes String.[] = []
codes (String.◌∷◌ c s) = code c ∷ codes s

-- `s == t`
unfoldable pub text_eq : Text → Text → Bool
text_eq [] [] = true
text_eq (x ∷ s) (y ∷ t) = x == y && text_eq s t
text_eq _ _ = false

-- `s.is_empty()`
abbrev pub is_empty : Text → Bool
is_empty [] = true
is_empty (c ∷ s) = false

-- `s.starts_with(p)`
unfoldable pub starts_with : Text → Text → Bool
starts_with s [] = true
starts_with [] (x ∷ p) = false
starts_with (c ∷ s) (x ∷ p) = c == x && starts_with s p

-- `s.ends_with(p)`
unfoldable pub ends_with : Text → Text → Bool
unfolding starts_with
ends_with s p = starts_with (reverse s) (reverse p)

-- `s.find(p)`: the first place where `p` stands. On bytes it is also
-- `s.windows(p.len()).position(|w| w == p)`, for a `p` that is not empty.
unfoldable pub find : Text → Text → Option ℕ
find [] p = if is_empty p then some 0 else none
find (c ∷ s) p =
    if starts_with (c ∷ s) p
    then some 0
    else elim (find s p) [ none ↦ none | some i ↦ some (suc i) ]

-- `s.contains(p)`
unfoldable pub contains : Text → Text → Bool
contains [] p = is_empty p
contains (c ∷ s) p = if starts_with (c ∷ s) p then true else contains s p

pub text_eq_iff : (s t : Text) → (text_eq s t ≡ true) ↔ (s ≡ t)
unfolding text_eq
text_eq_iff (x ∷ s) (y ∷ t) = ground (arith, text_eq_iff s t)
text_eq_iff _ _ = ground arith

pub text_eq_refl : (s : Text) → text_eq s s ≡ true
text_eq_refl s = (text_eq_iff s s).1 refl

pub starts_with-append : (p s : Text) → starts_with (p ++ s) p ≡ true
unfolding starts_with
starts_with-append [] s = refl
starts_with-append (c ∷ p) s = ground (arith, starts_with-append p s)

-- Where there is room for `p`, a longer text changes nothing.
pub starts_with-append_right :
    (s p t : Text) → length p ≤ length s → starts_with (s ++ t) p ≡ starts_with s p
unfolding starts_with
starts_with-append_right s [] t h = refl
starts_with-append_right [] (x ∷ p) t h = elim h [ ]
starts_with-append_right (c ∷ s) (x ∷ p) t h =
    ap (◌&&◌ (c == x)) (starts_with-append_right s p t (omega arith))

-- A text is at least as long as its start.
pub length-le-of-starts_with : (s p : Text) → starts_with s p ≡ true → length p ≤ length s
unfolding starts_with
length-le-of-starts_with s [] h = omega arith
length-le-of-starts_with [] (x ∷ p) h = cc
length-le-of-starts_with (c ∷ s) (x ∷ p) h = ground (arith, length-le-of-starts_with s p)

-- What is found lies inside the text.
pub find_bound : (s p : Text) (i : ℕ) → find s p ≡ some i → i + length p ≤ length s
unfolding find
find_bound [] [] i h = ground arith
find_bound [] (x ∷ p) i h = cc
find_bound (c ∷ s) p i h = elim (Bool-cases (starts_with (c ∷ s) p)) [
  | inl e ↦ ground (arith, length-le-of-starts_with (c ∷ s) p e)
  | inr e ↦ elim (Option-cases (find s p)) [
    | inl f ↦ ground arith
    | inr (j, f) ↦ ground (arith, find_bound s p j f)
  ]
]

-- The first place stays the first when the text grows.
pub find-append : (s p t : Text) (i : ℕ) → find s p ≡ some i → p ≢ [] → find (s ++ t) p ≡ some i
unfolding find
find-append [] [] t i h e = absurd (e refl)
find-append [] (x ∷ p) t i h e = cc
find-append (c ∷ s) p t i h e =
    let room = find_bound (c ∷ s) p i h in
    ground
      (arith, room, starts_with-append_right (c ∷ s) p t (omega arith), find-append s p t (i - 1))

-- `\r\n`
abbrev pub crlf : Text
crlf = 13 ∷ 10 ∷ []

-- The first line end of a text stands behind a line that holds no `\r`.
pub find-crlf :
    (line rest : Text)
    → All (λ c. c ≢ 13) line
    → find (line ++ (crlf ++ rest)) crlf ≡ some (length line)
unfolding find starts_with
find-crlf [] rest h = refl
find-crlf (c ∷ line) rest (h, hs) = ground (arith, find-crlf line rest hs)
