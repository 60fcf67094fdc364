-- ===== src/Dns/Query/Wire.antt =====
-- The question of a DNS message read back, with the format of RFC 1035, section 4.1, as the reference.
use subdollar_llm_coding_ben.Base.{
  ℕ, zero, suc, ◌+◌, ◌*◌, ◌/◌, ◌%◌, ◌<◌, ◌≡◌, ◌≢◌, refl, ap, ◌∙◌, true, false, Option, none, some,
  ◌>>=◌, List, [], ◌∷◌, ◌++◌, append_assoc, append-nil, arith, ◌==◌, if◌then◌else◌, leb, length,
  drop, All, Bool-cases, inl, inr, ==_iff, le→leb,
}
use subdollar_llm_coding_ben.Text.{Text, Bytes, starts_with}
use subdollar_llm_coding_ben.Dns.Query.{build_query, split_dots, push_labels}

-- Labels behind each other, up to the empty one; a length of 64 or more is no label. The number
-- counts the bytes left of a label, whose part so far is the second argument.
read_name : ℕ → Text → Bytes → Option (List Text × Bytes)
read_name k part [] = none
read_name zero part (zero ∷ s) = some ([], s)
read_name zero part (suc n ∷ s) =
    let labels = read_name (suc n) [] s in if leb n 62 then labels else none
read_name (suc zero) part (c ∷ s) = do
  (labels, rest) ← read_name zero [] s
  some ((part ++ c ∷ []) ∷ labels, rest)
read_name (suc (suc k)) part (c ∷ s) = read_name (suc k) (part ++ c ∷ []) s

-- A message with the flags of a standard query that asks for recursion, and one question.
pub record Question : Type 0 where
  pub id : ℕ
  pub labels : List Text
  pub qtype : ℕ
  pub qclass : ℕ

read_end : ℕ → List Text × Bytes → Option Question
read_end id (labels, t1 ∷ t0 ∷ c1 ∷ c0 ∷ []) =
    some (record { id = id; labels = labels; qtype = t1 * 256 + t0; qclass = c1 * 256 + c0 })
read_end id _ = none

-- The flags 0x0100 and the four counts, of which that of the questions is 1.
abbrev header_rest : Bytes
header_rest = 1 ∷ 0 ∷ 0 ∷ 1 ∷ 0 ∷ 0 ∷ 0 ∷ 0 ∷ 0 ∷ 0 ∷ []

unfoldable pub read_query : Bytes → Option Question
unfolding read_name read_end
read_query (i1 ∷ i0 ∷ s) = elim (starts_with s header_rest) [
  | true ↦ read_name 0 [] (drop 10 s) >>= read_end (i1 * 256 + i0)
  | false ↦ none
]
read_query _ = none

-- A name as a text.
unfoldable pub join_dots : List Text → Text
join_dots [] = []
join_dots (l ∷ []) = l
join_dots (l ∷ m ∷ ls) = l ++ (b'.' ∷ join_dots (m ∷ ls))

-- A label of a name: 1 to 63 bytes, none of which is a dot.
abbrev pub IsLabel : Text → Type 0
IsLabel l = (l ≢ []) × (length l < 64) × All (λ c. c ≢ b'.') l

split_dots-dot :
    (l part rest : Text)
    → All (λ c. c ≢ b'.') l
    → split_dots part (l ++ (b'.' ∷ rest)) ≡ (part ++ l) ∷ split_dots [] rest
unfolding split_dots
split_dots-dot [] part rest h = ap (λ p. p ∷ split_dots [] rest) (cc (append-nil part))
split_dots-dot (c ∷ l) part rest (h, hs) = elim (Bool-cases (c == b'.')) [
  | inl e ↦ absurd (h ((==_iff c b'.').0 e))
  | inr e ↦
      rw (e, split_dots)
        (split_dots-dot l (part ++ c ∷ []) rest hs
          ∙ ap (λ p. p ∷ split_dots [] rest) (append_assoc part (c ∷ []) l))
]

split_dots-plain : (l part : Text) → All (λ c. c ≢ b'.') l → split_dots part l ≡ (part ++ l) ∷ []
unfolding split_dots
split_dots-plain [] part h = ap (λ p. p ∷ []) (cc (append-nil part))
split_dots-plain (c ∷ l) part (h, hs) = elim (Bool-cases (c == b'.')) [
  | inl e ↦ absurd (h ((==_iff c b'.').0 e))
  | inr e ↦
      rw (e, split_dots)
        (split_dots-plain l (part ++ c ∷ []) hs ∙ ap (λ p. p ∷ []) (append_assoc part (c ∷ []) l))
]

split_dots-join :
    (l : Text) (ls : List Text) → All IsLabel (l ∷ ls) → split_dots [] (join_dots (l ∷ ls)) ≡ l ∷ ls
unfolding join_dots
split_dots-join l [] (h, _) = split_dots-plain l [] h.2
split_dots-join l (m ∷ ls) (h, hs) =
    split_dots-dot l [] (join_dots (m ∷ ls)) h.2 ∙ ap (◌∷◌ l) (split_dots-join m ls hs)

-- What a name's end leaves is read on.
prepend : Text → Option (List Text × Bytes) → Option (List Text × Bytes)
prepend l o = do (labels, rest) ← o; some (l ∷ labels, rest)

read_name-label :
    (c : ℕ) (l part : Text) (s : Bytes)
    → read_name (suc (length l)) part (c ∷ (l ++ s)) ≡ prepend (part ++ c ∷ l) (read_name 0 [] s)
unfolding read_name prepend
read_name-label c [] part s = refl
read_name-label c (d ∷ l) part s =
    read_name-label d l (part ++ c ∷ []) s
    ∙ ap (λ p. prepend p (read_name 0 [] s)) (append_assoc part (c ∷ []) (d ∷ l))

read_name-push_labels :
    (ls : List Text) (s : Bytes)
    → All IsLabel ls
    → read_name 0 [] (push_labels ls ++ (0 ∷ s)) ≡ some (ls, s)
unfolding read_name push_labels prepend
read_name-push_labels [] s h = refl
read_name-push_labels ([] ∷ ls) s (h, hs) = absurd (h.0 refl)
read_name-push_labels ((c ∷ l) ∷ ls) s ((ne, len, dots), hs) =
    let small : suc (length l) % 256 ≡ suc (length l) = omega arith in
    let fits = le→leb (length l) 62 (omega arith) in
    rw (small, fits)
      (ap (λ x. read_name (suc (length l)) [] (c ∷ x)) (append_assoc l (push_labels ls) (0 ∷ s))
        ∙ read_name-label c l [] (push_labels ls ++ (0 ∷ s))
        ∙ ap (prepend (c ∷ l)) (read_name-push_labels ls s hs))

-- The name that the labels make is split into them again, and read back.
read_name-split_dots :
    (ls : List Text) (s : Bytes)
    → All IsLabel ls
    → read_name 0 [] (push_labels (split_dots [] (join_dots ls)) ++ (0 ∷ s)) ≡ some (ls, s)
unfolding join_dots split_dots push_labels read_name
read_name-split_dots [] s h = refl
read_name-split_dots (l ∷ ls) s h =
    ap (λ x. read_name 0 [] (push_labels x ++ (0 ∷ s))) (split_dots-join l ls h)
    ∙ read_name-push_labels (l ∷ ls) s h

-- For a name of labels of 1 to 63 bytes without dots, and for an id and a query type of 16 bits, the
-- message that build_query makes is read, by the format of RFC 1035, as one question with just that
-- id, these labels, this type and the class IN.
pub read_query-build_query :
    (id qtype : ℕ) (labels : List Text)
    → id < 65536
    → qtype < 65536
    → All IsLabel labels
    → read_query (build_query id (join_dots labels) qtype)
      ≡ some (record { id = id; labels = labels; qtype = qtype; qclass = 1 })
unfolding read_query build_query read_end starts_with
read_query-build_query id qtype labels hid ht h =
    let back : id / 256 * 256 + id % 256 ≡ id = omega arith in
    let back' : qtype / 256 * 256 + qtype % 256 ≡ qtype = omega arith in
    rw (read_name-split_dots labels (qtype / 256 ∷ qtype % 256 ∷ 0 ∷ 1 ∷ []) h, back, back') refl
