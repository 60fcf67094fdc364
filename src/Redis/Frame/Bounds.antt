-- ===== src/Redis/Frame/Bounds.antt =====
-- `parse_resp_frame` stays inside the buffer, and its recursion is bounded by the buffer's length.
use subdollar_llm_coding_ben.Base.{
  ℕ, zero, suc, ◌+◌, ◌≤◌, ◌≡◌, Option, none, some, [], ◌∷◌, arith, leb, length, drop, length-drop,
  Bool-cases, inl, inr, >>=-eq-some,
}
use subdollar_llm_coding_ben.Text.{Bytes, Text, find_bound, crlf}
use subdollar_llm_coding_ben.Redis.Frame.{
  line_end, header, parse_line, parse_payload, parse_bulk_at, parse_bulk, parse_items,
  parse_counted, parse_array_at, parse_array, parse_frame, parse_resp_frame,
}

-- A frame parser whose frames end inside the buffer.
abbrev pub Fits : (Bytes → Option ℕ) → Type 0
Fits frame = (b : Bytes) (n : ℕ) → frame b ≡ some n → n ≤ length b

pub none-ne-some : {n : ℕ} {A : Type 0} → ◌≡◌ {A = Option ℕ} none (some n) → A
none-ne-some h = absurd cc

parse_line-Fits : Fits parse_line
unfolding parse_line
parse_line-Fits b n h =
    let (pos, e, r) = >>=-eq-some (line_end b) (λ pos. some (pos + 2)) h in
    let bound = find_bound b crlf pos e in ground arith

parse_payload-Fits :
    (b : Bytes) (pos : ℕ) (len_str : Text) (n : ℕ)
    → parse_payload b pos len_str ≡ some n
    → n ≤ length b
unfolding parse_payload
parse_payload-Fits b pos len_str n h = ground arith

parse_bulk-Fits : Fits parse_bulk
unfolding parse_bulk parse_bulk_at
parse_bulk-Fits b n h =
    let (pos, e, r) = >>=-eq-some (line_end b) (parse_bulk_at b) h in
    let bound = find_bound b crlf pos e in
    let (len_str, _, q) = >>=-eq-some (header b pos) _ r in
    ground (arith, parse_payload-Fits b pos len_str n)

module _ (frame : Bytes → Option ℕ) (fits : Fits frame) where
  pub parse_items-fits :
      (count : ℕ) (b : Bytes) (offset n : ℕ)
      → offset ≤ length b
      → parse_items frame count b offset ≡ some n
      → n ≤ length b
  unfolding parse_items
  parse_items-fits zero b offset n o h = ground arith
  parse_items-fits (suc count) b offset n o h = elim (Bool-cases (leb (length b) offset)) [
    | inl e ↦ none-ne-some (rw e at h)
    | inr e ↦
        let (consumed, f, r) =
          >>=-eq-some (frame (drop offset b)) (λ k. parse_items frame count b (offset + k))
            (rw e at h) in
        let bound = fits (drop offset b) consumed f in
        parse_items-fits count b (offset + consumed) n (omega (arith, length-drop offset b)) r
  ]

  parse_counted-fits :
      (b : Bytes) (pos : ℕ) (count_str : Text) (n : ℕ)
      → pos + 2 ≤ length b
      → parse_counted frame b pos count_str ≡ some n
      → n ≤ length b
  unfolding parse_counted
  parse_counted-fits b pos count_str n o h =
      let (count, _, r) = >>=-eq-some _ (λ count. parse_items frame count b (pos + 2)) h in
      parse_items-fits count b (pos + 2) n o r

  parse_array-Fits : Fits (parse_array frame)
  unfolding parse_array parse_array_at
  parse_array-Fits b n h =
      let (pos, e, r) = >>=-eq-some (line_end b) (parse_array_at frame b) h in
      let bound = find_bound b crlf pos e in
      let (count_str, _, q) = >>=-eq-some (header b pos) _ r in
      ground (arith, parse_counted-fits b pos count_str n)

pub parse_frame-Fits : (fuel : ℕ) → Fits (parse_frame fuel)
unfolding parse_frame
parse_frame-Fits zero b n h = none-ne-some h
parse_frame-Fits (suc fuel) [] n h = none-ne-some h
parse_frame-Fits (suc fuel) (c ∷ s) n h = ground (
  arith,
  parse_line-Fits (c ∷ s) n,
  parse_bulk-Fits (c ∷ s) n,
  parse_array-Fits (parse_frame fuel) (parse_frame-Fits fuel) (c ∷ s) n,
)

-- A frame that is reported lies inside the buffer: the offsets of nested frames never leave it.
pub parse_resp_frame-Fits : (buf : Bytes) (n : ℕ) → parse_resp_frame buf ≡ some n → n ≤ length buf
unfolding parse_resp_frame
parse_resp_frame-Fits buf n h = parse_frame-Fits (suc (length buf)) buf n h
