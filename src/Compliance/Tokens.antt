-- ===== src/Compliance/Tokens.antt =====
-- src/verifier/compliance.rs: `clean_token`, `is_allowed_local_build_output`, `tokenize_command`,
-- and the words of a segment. `to_lowercase` is Unicode's, a parameter.
pub mod Sizes
use subdollar_llm_coding_ben.Base.{
  ℕ, ◌-◌, Bool, true, false, not, ◌&&◌, ◌||◌, List, [], ◌∷◌, ◌++◌, map, ◌==◌, if◌then◌else◌, leb,
  length, take, drop, any,
}
use subdollar_llm_coding_ben.Text.{
  Text, codes, is_empty, trim, starts_with, ends_with, text_eq, contains, has, after_last,
  split_whitespace, is_one_of,
}

-- `&t[n..t.len() - 1]`
abbrev inside : ℕ → Text → Text
inside n t = drop n (take (length t - 1) t)

pub strip_substitution : Text → Text
strip_substitution t =
    if starts_with t (codes "$(") && ends_with t (codes ")") then inside 2 t else t

abbrev enclosed : Text → Text → Bool
enclosed quote t = starts_with t quote && ends_with t quote && leb 2 (length t)

pub strip_backticks : Text → Text
strip_backticks t = if enclosed (codes "`") t then inside 1 t else t

pub strip_quotes : Text → Text
strip_quotes t = if enclosed (codes "\"") t || enclosed (codes "'") t then inside 1 t else t

unfoldable pub clean_token : Text → Text
unfolding strip_substitution strip_backticks strip_quotes
clean_token token = trim (strip_quotes (strip_backticks (strip_substitution (trim token))))

-- `t.split('/').next_back().unwrap_or(t)`
unfoldable pub base_name : Text → Text
base_name = after_last b'/'

abbrev pub system_prefixes : List Text
system_prefixes =
    codes "/usr/"
    ∷ codes "/bin/"
    ∷ codes "/sbin/"
    ∷ codes "/etc/"
    ∷ codes "/opt/"
    ∷ codes "/snap/"
    ∷ codes "/lib/"
    ∷ []

-- `retain`: empty tokens and brackets go.
pub is_word : Text → Bool
is_word t =
    not (is_empty t) && not (is_one_of (codes "[" ∷ codes "]" ∷ codes "(" ∷ codes ")" ∷ []) t)

pub retain : List Text → List Text
unfolding is_word
retain [] = []
retain (t ∷ ts) = if is_word t then t ∷ retain ts else retain ts

unfoldable pub segment_tokens : Text → List Text
unfolding retain clean_token
segment_tokens segment = retain (map clean_token (split_whitespace segment))

-- The characters that `tokenize_command` reads as spaces.
delimiters : Text
delimiters = codes "[](){}\"'`$;&|,=!<>\t"

unfoldable pub tokenize_command : Text → List Text
unfolding delimiters
tokenize_command cmd = split_whitespace (map (λ c. if has c delimiters then b' ' else c) cmd)

module _ (to_lowercase : Text → Text) where
  unfoldable pub is_allowed_local_build_output : Text → Text → Bool
  is_allowed_local_build_output cmd_token daemon =
      let lower = to_lowercase cmd_token in
      if not (has b'/' cmd_token)
      then false
      else if not (text_eq (base_name lower) daemon)
      then false
      else not (any (starts_with lower) system_prefixes)
