-- ===== src/Redis/Frame/Stable.antt =====
-- A complete frame stays the same frame when more bytes arrive, and no shorter buffer is complete.
use subdollar_llm_coding_ben.Base.{
  ℕ, zero, suc, ◌+◌, ◌≤◌, ◌<◌, ◌≡◌, false, Option, none, some, [], ◌∷◌, ◌++◌, arith, leb, length,
  drop, length-drop, Bool-cases, Option-cases, inl, inr, >>=-eq-some, sym, ◌∙◌, take, length-append,
  take-append, drop-append, take-append-drop, length-take,
}
use subdollar_llm_coding_ben.Text.{Bytes, Text, find_bound, find-append, crlf}
use subdollar_llm_coding_ben.Redis.Frame.{
  line_end, header, parse_line, parse_payload, parse_bulk_at, parse_bulk, parse_items,
  parse_counted, parse_array_at, parse_array, parse_frame, parse_resp_frame,
}
use subdollar_llm_coding_ben.Redis.Frame.Bounds.{
  Fits, none-ne-some, parse_frame-Fits, parse_resp_frame-Fits,
}
use subdollar_llm_coding_ben.Redis.Frame.Depth.{parse_frame_fuel}
use subdollar_llm_coding_ben.Base.{some-injective}

-- What a parser reports for a buffer it reports for every longer one.
abbrev pub Stable : (Bytes → Option ℕ) → Bytes → Type 0
Stable frame t = (b : Bytes) (n : ℕ) → frame b ≡ some n → frame (b ++ t) ≡ some n

module _ (t : Bytes) where
  line_end-append : (b : Bytes) (pos : ℕ) → line_end b ≡ some pos → line_end (b ++ t) ≡ some pos
  line_end-append b pos h = find-append b crlf t pos h cc

  header-append : (b : Bytes) (pos : ℕ) → pos ≤ length b → header (b ++ t) pos ≡ header b pos
  unfolding header
  header-append b pos h = rw (take-append pos b t h)

  parse_line-Stable : Stable parse_line t
  unfolding parse_line
  parse_line-Stable b n h =
      let (pos, e, r) = >>=-eq-some (line_end b) (λ pos. some (pos + 2)) h in
      rw (line_end-append b pos e) r

  parse_payload-append :
      (b : Bytes) (pos : ℕ) (len_str : Text) (n : ℕ)
      → parse_payload b pos len_str ≡ some n
      → parse_payload (b ++ t) pos len_str ≡ some n
  unfolding parse_payload
  parse_payload-append b pos len_str n h = ground (arith, length-append b t)

  parse_bulk-Stable : Stable parse_bulk t
  unfolding parse_bulk parse_bulk_at
  parse_bulk-Stable b n h =
      let (pos, e, r) = >>=-eq-some (line_end b) (parse_bulk_at b) h in
      let (len_str, l, q) = >>=-eq-some (header b pos) _ r in
      let same = header-append b pos (omega (arith, find_bound b crlf pos e)) in
      rw (line_end-append b pos e, same, l) (ground (arith, parse_payload-append b pos len_str n))

  module _ (frame : Bytes → Option ℕ) (fits : Fits frame) (stable : Stable frame t) where
    parse_items-stable :
        (count : ℕ) (b : Bytes) (offset n : ℕ)
        → offset ≤ length b
        → parse_items frame count b offset ≡ some n
        → parse_items frame count (b ++ t) offset ≡ some n
    unfolding parse_items
    parse_items-stable zero b offset n o h = h
    parse_items-stable (suc count) b offset n o h = elim (Bool-cases (leb (length b) offset)) [
      | inl e ↦ none-ne-some (rw e at h)
      | inr e ↦
          let (consumed, f, r) =
            >>=-eq-some (frame (drop offset b)) (λ k. parse_items frame count b (offset + k))
              (rw e at h) in
          let bound = fits (drop offset b) consumed f in
          let more : leb (length (b ++ t)) offset ≡ false = ground (arith, length-append b t) in
          rw (more, drop-append offset b t o, stable (drop offset b) consumed f)
            (parse_items-stable count b (offset + consumed) n (omega (arith, length-drop offset b))
              r)
    ]

    parse_counted-stable :
        (b : Bytes) (pos : ℕ) (count_str : Text) (n : ℕ)
        → pos + 2 ≤ length b
        → parse_counted frame b pos count_str ≡ some n
        → parse_counted frame (b ++ t) pos count_str ≡ some n
    unfolding parse_counted
    parse_counted-stable b pos count_str n o h =
        let (count, e, r) = >>=-eq-some _ (λ count. parse_items frame count b (pos + 2)) h in
        rw e (parse_items-stable count b (pos + 2) n o r)

    parse_array-Stable : Stable (parse_array frame) t
    unfolding parse_array parse_array_at
    parse_array-Stable b n h =
        let (pos, e, r) = >>=-eq-some (line_end b) (parse_array_at frame b) h in
        let bound = find_bound b crlf pos e in
        let (count_str, l, q) = >>=-eq-some (header b pos) _ r in
        let same = header-append b pos (omega arith) in
        rw (line_end-append b pos e, same, l)
          (ground (arith, parse_counted-stable b pos count_str n bound))

  parse_frame-Stable : (fuel : ℕ) → Stable (parse_frame fuel) t
  unfolding parse_frame
  parse_frame-Stable zero b n h = none-ne-some h
  parse_frame-Stable (suc fuel) [] n h = none-ne-some h
  parse_frame-Stable (suc fuel) (c ∷ s) n h = ground (
    arith,
    parse_line-Stable (c ∷ s) n,
    parse_bulk-Stable (c ∷ s) n,
    parse_array-Stable (parse_frame fuel) (parse_frame-Fits fuel) (parse_frame-Stable fuel) (c ∷ s)
        n,
  )

-- Bytes that arrive behind a complete frame do not change it.
pub parse_resp_frame-append :
    (buf more : Bytes) (n : ℕ)
    → parse_resp_frame buf ≡ some n
    → parse_resp_frame (buf ++ more) ≡ some n
parse_resp_frame-append buf more n h =
    let fuel = suc (length (buf ++ more)) in
    let same = parse_frame_fuel fuel buf (omega (arith, length-append buf more)) in
    sym (parse_frame_fuel fuel (buf ++ more) (omega arith))
    ∙ parse_frame-Stable more fuel buf n (same ∙ h)

-- As long as fewer bytes than the frame has are there, the buffer is not complete.
pub parse_resp_frame-take :
    (buf : Bytes) (n k : ℕ)
    → parse_resp_frame buf ≡ some n
    → k < n
    → parse_resp_frame (take k buf) ≡ none
parse_resp_frame-take buf n k h lt = elim (Option-cases (parse_resp_frame (take k buf))) [
  | inl e ↦ e
  | inr (m, e) ↦
      let whole = parse_resp_frame-append (take k buf) (drop k buf) m e in
      let same : m ≡ n = some-injective (sym whole ∙ rw (take-append-drop k buf) h) in
      absurd (omega (arith, parse_resp_frame-Fits (take k buf) m e, length-take k buf))
]
