-- ===== src/Text/Decimal.antt =====
-- Decimal numbers: `str::parse::<usize>` and the `{}` format of an unsigned number.
use mathlib.Core.List.{cons-ne-nil, concat-ne-nil}
use subdollar_llm_coding_ben.Base.{
  ℕ, zero, suc, ◌+◌, ◌-◌, ◌*◌, ◌/◌, ◌%◌, ◌^◌, ◌<◌, ◌≤◌, ◌≡◌, refl, true, false, ◌&&◌, [], ◌∷◌, ◌++◌,
  arith, ◌==◌, if◌then◌else◌, ltb, within, All, Option, none, some, ◌≢◌, append_assoc, append-nil,
  sym, ◌≢◌, ◌∙◌, ap, Bool-cases, inl, inr, ltb→lt, All-append,
}
use subdollar_llm_coding_ben.Text.Search.{Text}

-- A machine word of 64 bits.
abbrev pub word : ℕ
word = 2 ^ 64

-- The value of a text of digits behind the number `n`, if it fits into a word.
unfoldable pub scan : Text → ℕ → Option ℕ
scan [] n = some n
scan (c ∷ s) n =
    let rest = scan s (n * 10 + (c - b'0')) in
    if within b'0' b'9' c && ltb (n * 10 + (c - b'0')) word then rest else none

unsigned : Text → Option ℕ
unfolding scan
unsigned [] = none
unsigned (c ∷ s) = scan (c ∷ s) 0

-- `s.parse::<usize>().ok()`: one `+` may stand in front.
unfoldable pub parse_usize : Text → Option ℕ
unfolding unsigned
parse_usize [] = none
parse_usize (c ∷ s) = if c == b'+' then unsigned s else unsigned (c ∷ s)

-- The digits of `n`; a number has fewer digits than the fuel `n + 1`.
digits : ℕ → ℕ → Text
digits zero n = []
digits (suc f) n = elim (ltb n 10) [
  | true ↦ (b'0' + n) ∷ []
  | false ↦ digits f (n / 10) ++ (b'0' + n % 10) ∷ []
]

unfoldable pub show : ℕ → Text
unfolding digits
show n = digits (suc n) n

abbrev pub IsDigit : ℕ → Type 0
IsDigit c = (b'0' ≤ c) × (c ≤ b'9')

scan_digit :
    (n d : ℕ) (rest : Text)
    → d < 10
    → n * 10 + d < word
    → scan ((b'0' + d) ∷ rest) n ≡ scan rest (n * 10 + d)
unfolding scan
scan_digit n d rest h w = ground arith

digits_small : (f n : ℕ) → ltb n 10 ≡ true → digits (suc f) n ≡ (b'0' + n) ∷ []
unfolding digits
digits_small f n e = rw (e, digits)

digits_large :
    (f n : ℕ) → ltb n 10 ≡ false → digits (suc f) n ≡ digits f (n / 10) ++ (b'0' + n % 10) ∷ []
unfolding digits
digits_large f n e = rw (e, digits)

scan-digits : (f n : ℕ) (rest : Text) → n < f → n < word → scan (digits f n ++ rest) 0 ≡ scan rest n
scan-digits zero n rest h w = elim h [ ]
scan-digits (suc f) n rest h w = elim (Bool-cases (ltb n 10)) [
  | inl e ↦
      rw (digits_small f n e)
        (scan_digit 0 n rest (ltb→lt n 10 e) (omega arith) ∙ ap (scan rest) (omega arith))
  | inr e ↦
      rw (digits_large f n e, append_assoc)
        (scan-digits f (n / 10) ((b'0' + n % 10) ∷ rest) (ground arith) (omega arith)
          ∙ scan_digit (n / 10) (n % 10) rest (omega arith) (omega arith)
          ∙ ap (scan rest) (omega arith))
]

digits-IsDigit : (f n : ℕ) → All IsDigit (digits f n)
digits-IsDigit zero n = unfold digits in tt
digits-IsDigit (suc f) n = elim (Bool-cases (ltb n 10)) [
  | inl e ↦ rw (digits_small f n e) (omega (arith, ltb→lt n 10 e))
  | inr e ↦
      rw (digits_large f n e) (All-append IsDigit _ _ (digits-IsDigit f (n / 10)) (omega arith))
]

-- The digits of a number are digits, and there is at least one.
pub show-IsDigit : (n : ℕ) → All IsDigit (show n)
unfolding show
show-IsDigit n = digits-IsDigit (suc n) n

digits-ne-nil : (f n : ℕ) → n < f → digits f n ≢ []
digits-ne-nil zero n h = elim h [ ]
digits-ne-nil (suc f) n h = elim (Bool-cases (ltb n 10)) [
  | inl e ↦ rw (digits_small f n e) (cons-ne-nil _ _)
  | inr e ↦ rw (digits_large f n e) (concat-ne-nil _ _)
]

-- A text of digits is read as a number with no sign.
parse_usize-scan : (s : Text) → s ≢ [] → All IsDigit s → parse_usize s ≡ scan s 0
unfolding parse_usize
parse_usize-scan [] h d = absurd (h refl)
parse_usize-scan (c ∷ s) h d = ground arith

-- Every number of 64 bits is read back from its print.
pub parse_usize-show : (n : ℕ) → n < word → parse_usize (show n) ≡ some n
unfolding show scan
parse_usize-show n w =
    parse_usize-scan (show n) (digits-ne-nil (suc n) n (omega arith)) (show-IsDigit n)
    ∙ ap (λ s. scan s 0) (sym (append-nil (show n)))
    ∙ scan-digits (suc n) n [] (omega arith) w
