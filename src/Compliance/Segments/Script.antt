-- ===== src/Compliance/Segments/Script.antt =====
-- Command lines as the shell reads them, commands with separators between them, and what
-- `split_command_segments` makes of them.
use subdollar_llm_coding_ben.Base.{
  ℕ, ◌≡◌, ◌≢◌, refl, sym, ap, ◌∙◌, true, false, List, [], ◌∷◌, ◌++◌, append_assoc, append-nil,
  arith, All,
}
use subdollar_llm_coding_ben.Text.{Text, codes, trim, if_any}
use subdollar_llm_coding_ben.Compliance.Segments.{
  Quotes, unquoted, keep, cut, doubled, classify, segments, split_command_segments,
}

-- A part of a command: a byte with no meaning of its own, or a text in quotes.
pub data Piece : Type 0 where
  plain : ℕ → Piece
  single_quoted : Text → Piece
  double_quoted : Text → Piece

pub data Separator : Type 0 where
  semicolon and_then or_else pipe background : Separator

write_piece : Piece → Text
write_piece (plain c) = c ∷ []
write_piece (single_quoted t) = b'\'' ∷ (t ++ b'\'' ∷ [])
write_piece (double_quoted t) = b'"' ∷ (t ++ b'"' ∷ [])

write : List Piece → Text
unfolding write_piece
write [] = []
write (p ∷ ps) = write_piece p ++ write ps

symbol : Separator → Text
symbol semicolon = codes ";"
symbol and_then = codes "&&"
symbol or_else = codes "||"
symbol pipe = codes "|"
symbol background = codes "&"

abbrev IsPlain : ℕ → Type 0
IsPlain c = (c ≢ b'\'') × (c ≢ b'"') × (c ≢ b';') × (c ≢ b'&') × (c ≢ b'|')

unfoldable pub IsPiece : Piece → Type 0
IsPiece (plain c) = IsPlain c
IsPiece (single_quoted t) = All (λ c. c ≢ b'\'') t
IsPiece (double_quoted t) = All (λ c. c ≢ b'"') t

-- A command, and behind each separator another that is not empty.
unfoldable pub write_script : List Piece → List (Separator × List Piece) → Text
unfolding write symbol
write_script cmd [] = write cmd
write_script cmd ((sep, next) ∷ rest) = write cmd ++ (symbol sep ++ write_script next rest)

unfoldable pub IsCommand : Separator × List Piece → Type 0
unfolding IsPiece
IsCommand (sep, next) = (next ≢ []) × All IsPiece next

-- The texts of the commands without the space around them; an empty last one is left out.
unfoldable pub commands_of : List Piece → List (Separator × List Piece) → List Text
unfolding write
commands_of cmd [] = if_any (trim (write cmd))
commands_of cmd ((sep, next) ∷ rest) = trim (write cmd) ∷ commands_of next rest

single_open : Quotes
single_open = record { single = true; double = false }

double_open : Quotes
double_open = record { single = false; double = true }

segments_keep :
    (q q' : Quotes) (current : Text) (c : ℕ) (s : Text)
    → classify q c s ≡ keep q'
    → segments false q current (c ∷ s) ≡ segments false q' (current ++ c ∷ []) s
unfolding segments
segments_keep q q' current c s e = rw (e, segments) refl

classify_plain : (c : ℕ) (s : Text) → IsPlain c → classify unquoted c s ≡ keep unquoted
unfolding classify
classify_plain c [] h = ground arith
classify_plain c (d ∷ s) h = ground arith

classify_single : (c : ℕ) (s : Text) → c ≢ b'\'' → classify single_open c s ≡ keep single_open
unfolding classify single_open
classify_single c s h = ground arith

classify_double : (c : ℕ) (s : Text) → c ≢ b'"' → classify double_open c s ≡ keep double_open
unfolding classify double_open
classify_double c s h = ground arith

-- Bytes that keep the state of the quotes go to the segment.
segments_run :
    (q : Quotes) (P : ℕ → Type 0)
    → ((c : ℕ) (s : Text) → P c → classify q c s ≡ keep q)
    → (t current s : Text) → All P t
    → segments false q current (t ++ s) ≡ segments false q (current ++ t) s
segments_run q P k [] current s h = ap (λ x. segments false q x s) (sym (append-nil current))
segments_run q P k (c ∷ t) current s (h, hs) =
    segments_keep q q current c (t ++ s) (k c (t ++ s) h)
    ∙ segments_run q P k t (current ++ c ∷ []) s hs
    ∙ ap (λ x. segments false q x s) (append_assoc current (c ∷ []) t)

-- A text in quotes goes to the segment with its quotes.
segments_quoted :
    (q : Quotes) (P : ℕ → Type 0) (x : ℕ)
    → ((c : ℕ) (s : Text) → P c → classify q c s ≡ keep q)
    → ((s : Text) → classify unquoted x s ≡ keep q)
    → ((s : Text) → classify q x s ≡ keep unquoted)
    → (t current s : Text) → All P t
    → segments false unquoted current ((x ∷ (t ++ x ∷ [])) ++ s)
      ≡ segments false unquoted (current ++ (x ∷ (t ++ x ∷ []))) s
segments_quoted q P x k opens closes t current s h =
    segments_keep unquoted q current x _ (opens _)
    ∙ ap (segments false q (current ++ x ∷ [])) (append_assoc t (x ∷ []) s)
    ∙ segments_run q P k t (current ++ x ∷ []) (x ∷ s) h
    ∙ segments_keep q unquoted ((current ++ x ∷ []) ++ t) x s (closes s)
    ∙ ap (λ y. segments false unquoted y s)
        (append_assoc (current ++ x ∷ []) t (x ∷ []) ∙ append_assoc current (x ∷ []) (t ++ x ∷ []))

segments_piece :
    (p : Piece) (current s : Text)
    → IsPiece p
    → segments false unquoted current (write_piece p ++ s)
      ≡ segments false unquoted (current ++ write_piece p) s
unfolding write_piece IsPiece
segments_piece (plain c) current s h =
    segments_keep unquoted unquoted current c s (classify_plain c s h)
segments_piece (single_quoted t) current s h =
    segments_quoted single_open (λ c. c ≢ b'\'') b'\'' classify_single
      (λ s. unfold classify single_open in refl) (λ s. unfold classify single_open in refl) t
      current s h
segments_piece (double_quoted t) current s h =
    segments_quoted double_open (λ c. c ≢ b'"') b'"' classify_double
      (λ s. unfold classify double_open in refl) (λ s. unfold classify double_open in refl) t
      current s h

segments-write :
    (ps : List Piece) (current s : Text)
    → All IsPiece ps
    → segments false unquoted current (write ps ++ s)
      ≡ segments false unquoted (current ++ write ps) s
unfolding write
segments-write [] current s h = ap (λ x. segments false unquoted x s) (sym (append-nil current))
segments-write (p ∷ ps) current s (h, hs) =
    ap (segments false unquoted current) (append_assoc (write_piece p) (write ps) s)
    ∙ segments_piece p current (write ps ++ s) h
    ∙ segments-write ps (current ++ write_piece p) s hs
    ∙ ap (λ x. segments false unquoted x s) (append_assoc current (write_piece p) (write ps))

-- A command that is not empty does not begin with `&` or `|`.
write-doubled :
    (ps : List Piece) (s : Text) (c : ℕ)
    → ps ≢ []
    → All IsPiece ps
    → doubled c (write ps ++ s) ≡ false
unfolding write write_piece IsPiece doubled
write-doubled [] s c ne h = absurd (ne refl)
write-doubled (plain d ∷ ps) s c ne (h, hs) = ground arith
write-doubled (single_quoted t ∷ ps) s c ne h = ground arith
write-doubled (double_quoted t ∷ ps) s c ne h = ground arith

segments-cut :
    (current : Text) (c : ℕ) (s : Text)
    → classify unquoted c s ≡ cut
    → segments false unquoted current (c ∷ s) ≡ trim current ∷ segments false unquoted [] s
unfolding segments
segments-cut current c s e = rw (e, segments) refl

-- A separator ends the segment.
segments-symbol :
    (sep : Separator) (current s : Text)
    → ((c : ℕ) → doubled c s ≡ false)
    → segments false unquoted current (symbol sep ++ s)
      ≡ trim current ∷ segments false unquoted [] s
unfolding symbol classify segments
segments-symbol semicolon current s h = segments-cut current b';' s (ground arith)
segments-symbol and_then current s h = refl
segments-symbol or_else current s h = refl
segments-symbol pipe current s h = segments-cut current b'|' s (ground (arith, h b'|'))
segments-symbol background current s h = segments-cut current b'&' s (ground (arith, h b'&'))

script-doubled :
    (next : List Piece) (rest : List (Separator × List Piece)) (c : ℕ)
    → next ≢ []
    → All IsPiece next
    → doubled c (write_script next rest) ≡ false
unfolding write_script
script-doubled next [] c ne h =
    ap (doubled c) (sym (append-nil (write next))) ∙ write-doubled next [] c ne h
script-doubled next ((sep, after) ∷ rest) c ne h =
    write-doubled next (symbol sep ++ write_script after rest) c ne h

-- Of a line of commands, each a sequence of plain bytes and texts in quotes, with `;`, `&&`, `||`,
-- `|` or `&` between them and no empty one behind a separator, split_command_segments returns
-- the commands without the space around them; what stands in quotes never separates.
pub split_command_segments-write_script :
    (cmd : List Piece) (rest : List (Separator × List Piece))
    → All IsPiece cmd
    → All IsCommand rest
    → split_command_segments (write_script cmd rest) ≡ commands_of cmd rest
unfolding split_command_segments write_script commands_of IsCommand
split_command_segments-write_script cmd [] h hs =
    ap (segments false unquoted []) (sym (append-nil (write cmd)))
    ∙ segments-write cmd [] [] h
    ∙ refl
split_command_segments-write_script cmd ((sep, next) ∷ rest) h ((ne, hn), hs) =
    segments-write cmd [] (symbol sep ++ write_script next rest) h
    ∙ segments-symbol sep (write cmd) (write_script next rest)
        (λ c. script-doubled next rest c ne hn)
    ∙ ap (◌∷◌ (trim (write cmd))) (split_command_segments-write_script next rest hn hs)
