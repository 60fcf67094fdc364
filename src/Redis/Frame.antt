-- ===== src/Redis/Frame.antt =====
-- src/verifier/redis.rs: the RESP wire format, `format_resp_cmd`, `parse_resp_frame` and
-- `is_complete_resp_frame`. `usize` has 64 bits, and the sums wrap around as in a release build.
pub mod Bounds
pub mod Depth
pub mod Stable
pub mod RoundTrip
use subdollar_llm_coding_ben.Base.{
  ℕ, zero, suc, ◌+◌, ◌%◌, Bool, true, false, ◌||◌, Option, none, some, List, [], ◌∷◌, ◌++◌, ◌==◌,
  if◌then◌else◌, leb, length, take, drop, ◌>>=◌, ◌≡◌, refl,
}
use subdollar_llm_coding_ben.Text.{
  Bytes, Text, codes, crlf, find, starts_with, text_eq, trim, from_utf8, is_utf8, show, parse_usize,
  word,
}

-- The loop over the arguments: each is appended with its length in bytes.
pub push_args : List Text → Text → Text
push_args [] payload = payload
push_args (a ∷ args) payload =
    push_args args (payload ++ (b'$' ∷ (show (length a) ++ (crlf ++ (a ++ crlf)))))

unfoldable pub format_resp_cmd : List Text → Text
unfolding push_args show
format_resp_cmd args = push_args args (b'*' ∷ (show (length args) ++ crlf))

-- `buf.windows(2).position(|w| w == b"\r\n")`
abbrev pub line_end : Bytes → Option ℕ
line_end buf = find buf crlf

-- The trimmed text of `buf[1..pos]`, for the length of a string and the count of an array.
pub header : Bytes → ℕ → Option Text
header buf pos = do line ← from_utf8 (drop 1 (take pos buf)); some (trim line)

-- `+`, `-`, `:` and every other first byte: the frame is one line.
pub parse_line : Bytes → Option ℕ
parse_line buf = do pos ← line_end buf; some (pos + 2)

-- The length is read, and the payload must be there with its line end.
pub parse_payload : Bytes → ℕ → Text → Option ℕ
parse_payload buf pos len_str = do
  len ← parse_usize len_str
  let total = (pos + 2 + len + 2) % word
  if leb total (length buf) then some total else none

-- `$`
pub parse_bulk_at : Bytes → ℕ → Option ℕ
unfolding header parse_payload
parse_bulk_at buf pos = do
  len_str ← header buf pos
  if text_eq len_str (codes "-1") then some (pos + 2) else parse_payload buf pos len_str

pub parse_bulk : Bytes → Option ℕ
unfolding parse_bulk_at
parse_bulk buf = do pos ← line_end buf; parse_bulk_at buf pos

-- The loop of `*`: `count` frames from `offset` on. `frame` is the recursive call.
pub parse_items : (Bytes → Option ℕ) → ℕ → Bytes → ℕ → Option ℕ
parse_items frame zero buf offset = some offset
parse_items frame (suc count) buf offset =
    if leb (length buf) offset
    then none
    else (frame (drop offset buf) >>= λ consumed. parse_items frame count buf (offset + consumed))

-- The count is read, and the frames follow.
pub parse_counted : (Bytes → Option ℕ) → Bytes → ℕ → Text → Option ℕ
parse_counted frame buf pos count_str = do
  count ← parse_usize count_str
  parse_items frame count buf (pos + 2)

-- `*`
pub parse_array_at : (Bytes → Option ℕ) → Bytes → ℕ → Option ℕ
unfolding header parse_items parse_counted
parse_array_at frame buf pos = do
  count_str ← header buf pos
  let no_items = text_eq count_str (codes "-1") || text_eq count_str (codes "0")
  if no_items then some (pos + 2) else parse_counted frame buf pos count_str

pub parse_array : (Bytes → Option ℕ) → Bytes → Option ℕ
unfolding parse_array_at
parse_array frame buf = do pos ← line_end buf; parse_array_at frame buf pos

-- Arrays nest: the fuel bounds the depth.
pub parse_frame : ℕ → Bytes → Option ℕ
parse_frame zero buf = none
parse_frame (suc fuel) [] = none
parse_frame (suc fuel) (c ∷ s) =
    if c == b'+' || c == b'-' || c == b':'
    then parse_line (c ∷ s)
    else if c == b'$'
    then parse_bulk (c ∷ s)
    else if c == b'*'
    then parse_array (parse_frame fuel) (c ∷ s)
    else parse_line (c ∷ s)

-- A nested frame lies inside its array, so its depth is below the length of the buffer.
unfoldable pub parse_resp_frame : Bytes → Option ℕ
unfolding parse_frame parse_line parse_bulk parse_array find starts_with text_eq trim is_utf8
    parse_usize
parse_resp_frame buf = parse_frame (suc (length buf)) buf

unfoldable pub is_complete_resp_frame : Bytes → Bool
unfolding parse_resp_frame
is_complete_resp_frame buf = elim (parse_resp_frame buf) [ none ↦ false | some n ↦ true ]
