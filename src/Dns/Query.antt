-- ===== src/Dns/Query.antt =====
-- src/verifier/dns.rs: `build_query`, the DNS message that the harness sends.
pub mod Wire
use subdollar_llm_coding_ben.Base.{
  ℕ, ◌/◌, ◌%◌, Bool, true, false, List, [], ◌∷◌, ◌++◌, ◌==◌, if◌then◌else◌, length,
}
use subdollar_llm_coding_ben.Text.{Text, Bytes, is_empty}

-- `n.to_be_bytes()` of a `u16`.
abbrev pub be_bytes : ℕ → Bytes
be_bytes n = n / 256 ∷ n % 256 ∷ []

-- `domain.split('.')`; the first argument is the part so far.
pub split_dots : Text → Text → List Text
split_dots part [] = part ∷ []
split_dots part (c ∷ s) = elim (c == b'.') [
  | true ↦ part ∷ split_dots [] s
  | false ↦ split_dots (part ++ c ∷ []) s
]

-- The loop over the labels; `label.len() as u8` keeps the low 8 bits.
pub push_labels : List Text → Bytes
push_labels [] = []
push_labels (label ∷ labels) =
    let rest = push_labels labels in
    if is_empty label then rest else (length label % 256) ∷ (label ++ rest)

-- Standard query with RD, one question, no other records.
abbrev pub query_header : Bytes
query_header = 0x01 ∷ 0x00 ∷ 0x00 ∷ 0x01 ∷ 0 ∷ 0 ∷ 0 ∷ 0 ∷ 0 ∷ 0 ∷ []

unfoldable pub build_query : ℕ → Text → ℕ → Bytes
unfolding split_dots push_labels
build_query id domain qtype =
    be_bytes id
    ++ (query_header
        ++ (push_labels (split_dots [] domain) ++ (0 ∷ (be_bytes qtype ++ (0 ∷ 1 ∷ [])))))
