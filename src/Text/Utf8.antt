-- ===== src/Text/Utf8.antt =====
-- UTF-8: `std::str::from_utf8`, which accepts or refuses, and `String::from_utf8_lossy`.
use mathlib.Core.Bool.{false≢true}
use subdollar_llm_coding_ben.Base.{
  Option, none, some, ℕ-cases, ℕ, zero, suc, ◌<◌, ◌≡◌, refl, ap, Bool, true, false, [], ◌∷◌, ◌++◌,
  arith, inl, inr, ◌==◌, if◌then◌else◌, ltb, within, All,
}
use subdollar_llm_coding_ben.Text.Search.{Text, Bytes}

is_cont : ℕ → Bool
is_cont = within 0x80 0xBF

-- The bytes that may stand second, by the first byte of a character of three or four.
second_of : ℕ → ℕ → Bool
unfolding is_cont
second_of a b =
    if a == 0xE0
    then within 0xA0 0xBF b
    else if a == 0xED
    then within 0x80 0x9F b
    else if a == 0xF0
    then within 0x90 0xBF b
    else if a == 0xF4
    then within 0x80 0x8F b
    else is_cont b

-- The bytes at the head, at most `n`, that continue a character.
conts : ℕ → Bytes → ℕ
unfolding is_cont
conts zero s = 0
conts (suc n) [] = 0
conts (suc n) (c ∷ s) = if is_cont c then suc (conts n s) else 0

-- Of a character of `n` more bytes: the bytes behind the first that fit, until one does not.
fitting : ℕ → ℕ → Bytes → ℕ
unfolding second_of conts
fitting zero a s = 0
fitting (suc n) a [] = 0
fitting (suc n) a (b ∷ s) = if second_of a b then suc (conts n s) else 0

-- How many bytes follow the first byte of a character; 4 stands for a byte that begins none.
follow : ℕ → ℕ
follow a =
    if ltb a 0x80
    then 0
    else if within 0xC2 0xDF a
    then 1
    else if within 0xE0 0xEF a
    then 2
    else if within 0xF0 0xF4 a
    then 3
    else 4

-- The length of the character at the head, 0 if there is none.
unfoldable pub char_len : Bytes → ℕ
unfolding follow fitting
char_len [] = 0
char_len (a ∷ s) =
    if follow a == 4 then 0 else if fitting (follow a) a s == follow a then suc (follow a) else 0

-- Where there is none, the length of the longest start of a character, at least 1.
unfoldable pub bad_rest : Bytes → ℕ
unfolding follow fitting
bad_rest [] = 0
bad_rest (a ∷ s) = if follow a == 4 then 0 else fitting (follow a) a s

-- `from_utf8(s).is_ok()`; the number counts the bytes left of a character.
valid_from : ℕ → Bytes → Bool
valid_from zero [] = true
valid_from (suc k) [] = false
valid_from (suc k) (c ∷ s) = valid_from k s
valid_from zero (c ∷ s) = elim (char_len (c ∷ s)) [ zero ↦ false | suc k ↦ valid_from k s ]

unfoldable pub is_utf8 : Bytes → Bool
unfolding valid_from char_len
is_utf8 s = valid_from 0 s

-- `from_utf8(s).ok()`
abbrev pub from_utf8 : Bytes → Option Text
from_utf8 s = if is_utf8 s then some s else none

abbrev replacement : Text
replacement = 0xEF ∷ 0xBF ∷ 0xBD ∷ []

-- The numbers count the bytes left to keep, and to drop.
lossy : ℕ → ℕ → Bytes → Text
lossy k d [] = []
lossy (suc k) d (c ∷ s) = c ∷ lossy k d s
lossy zero (suc d) (c ∷ s) = lossy zero d s
lossy zero zero (c ∷ s) = elim (char_len (c ∷ s)) [
  | zero ↦ replacement ++ lossy zero (bad_rest (c ∷ s)) s
  | suc k ↦ c ∷ lossy k zero s
]

unfoldable pub from_utf8_lossy : Bytes → Text
unfolding lossy char_len bad_rest
from_utf8_lossy s = lossy 0 0 s

abbrev pub IsAscii : Text → Type 0
IsAscii = All (λ c. c < 128)

char_len-ascii : (c : ℕ) (s : Bytes) → c < 128 → char_len (c ∷ s) ≡ 1
unfolding char_len
char_len-ascii c s h = ground arith

valid_from-ascii : (s : Bytes) → IsAscii s → valid_from 0 s ≡ true
unfolding valid_from
valid_from-ascii [] h = refl
valid_from-ascii (c ∷ s) (h, t) = rw (char_len-ascii c s h, valid_from) (valid_from-ascii s t)

pub is_utf8-ascii : (s : Bytes) → IsAscii s → is_utf8 s ≡ true
unfolding is_utf8
is_utf8-ascii s h = valid_from-ascii s h

-- A text that is valid is kept as it is.
lossy-valid : (k : ℕ) (s : Bytes) → valid_from k s ≡ true → lossy k 0 s ≡ s
unfolding lossy valid_from
lossy-valid zero [] h = refl
lossy-valid (suc k) [] h = refl
lossy-valid (suc k) (c ∷ s) h = ap (◌∷◌ c) (lossy-valid k s h)
lossy-valid zero (c ∷ s) h = elim (ℕ-cases (char_len (c ∷ s))) [
  | inl e ↦ absurd (false≢true (rw (e, valid_from) at h))
  | inr (k, e) ↦ rw (e, lossy) (ap (◌∷◌ c) (lossy-valid k s (rw (e, valid_from) at h)))
]

pub from_utf8_lossy-valid : (s : Bytes) → is_utf8 s ≡ true → from_utf8_lossy s ≡ s
unfolding from_utf8_lossy is_utf8
from_utf8_lossy-valid s h = lossy-valid 0 s h
