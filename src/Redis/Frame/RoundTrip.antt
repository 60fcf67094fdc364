-- ===== src/Redis/Frame/RoundTrip.antt =====
-- The commands that `format_resp_cmd` writes are complete frames for `parse_resp_frame`.
use subdollar_llm_coding_ben.Base.{
  ap₂, ℕ, suc, ◌+◌, ◌≤◌, ◌<◌, ◌≡◌, ◌≢◌, refl, Bool, true, false, Option, none, some, List, [], ◌∷◌,
  ◌++◌, arith, length, drop, sym, ◌∙◌, ap, length-append, take-length-append, drop-length-append,
  append_assoc, append-nil, All,
}
use subdollar_llm_coding_ben.Redis.Frame.Depth.{parse_frame_fuel}
use subdollar_llm_coding_ben.Text.{
  find, starts_with, is_space, Bytes, Text, codes, find-crlf, crlf, text_eq, text_eq_iff,
  parse_usize, parse_usize-show, show, show-IsDigit, IsDigit, IsGraphic, trim-graphic,
  is_utf8-ascii, IsAscii, word, is_utf8, trim,
}
use subdollar_llm_coding_ben.Redis.Frame.{
  push_args, format_resp_cmd, line_end, header, parse_payload, parse_bulk_at, parse_bulk,
  parse_items, parse_counted, parse_array_at, parse_array, parse_frame, parse_resp_frame,
}

-- The bytes of one argument, and of all.
bulk : Text → Text
bulk a = b'$' ∷ (show (length a) ++ (crlf ++ (a ++ crlf)))

bulks : List Text → Text
bulks [] = []
bulks (a ∷ args) = bulk a ++ bulks args

push_args-bulks :
    (args : List Text) (payload : Text) → push_args args payload ≡ payload ++ bulks args
unfolding push_args bulks bulk
push_args-bulks [] payload = sym (append-nil payload)
push_args-bulks (a ∷ args) payload =
    push_args-bulks args (payload ++ bulk a) ∙ append_assoc payload (bulk a) (bulks args)

format_resp_cmd-bulks :
    (args : List Text) → format_resp_cmd args ≡ b'*' ∷ (show (length args) ++ (crlf ++ bulks args))
unfolding format_resp_cmd
format_resp_cmd-bulks args =
    push_args-bulks args _ ∙ ap (◌∷◌ b'*') (append_assoc (show (length args)) crlf (bulks args))

digits-no_return : (s : Text) → All IsDigit s → All (λ c. c ≢ 13) s
digits-no_return [] h = tt
digits-no_return (c ∷ s) (h, hs) = (omega arith, digits-no_return s hs)

digits-IsGraphic : (s : Text) → All IsDigit s → All IsGraphic s
unfolding is_space
digits-IsGraphic [] h = tt
digits-IsGraphic (c ∷ s) (h, hs) = ((omega arith, ground arith), digits-IsGraphic s hs)

digits-IsAscii : (s : Text) → All IsDigit s → IsAscii s
digits-IsAscii [] h = tt
digits-IsAscii (c ∷ s) (h, hs) = (omega arith, digits-IsAscii s hs)

-- A frame header: a mark, a number, a line end.
module _ (c n : ℕ) (rest : Text) where
  line_end-show : c ≢ 13 → line_end (c ∷ (show n ++ (crlf ++ rest))) ≡ some (suc (length (show n)))
  line_end-show h = find-crlf (c ∷ show n) rest (h, digits-no_return (show n) (show-IsDigit n))

  header-show : header (c ∷ (show n ++ (crlf ++ rest))) (suc (length (show n))) ≡ some (show n)
  unfolding header
  header-show =
      rw
        (
          take-length-append (show n) (crlf ++ rest),
          is_utf8-ascii (show n) (digits-IsAscii (show n) (show-IsDigit n)),
        )
        (ap some (trim-graphic (show n) (digits-IsGraphic (show n) (show-IsDigit n))))

Bool-false : (b : Bool) → (b ≡ true → ⊥) → b ≡ false
Bool-false true h = absurd (h refl)
Bool-false false h = refl

show-ne-nil_mark : (n : ℕ) → n < word → text_eq (show n) (codes "-1") ≡ false
unfolding parse_usize
show-ne-nil_mark n w = Bool-false _ λ e.
    let same = (text_eq_iff (show n) (codes "-1")).0 e in
    let read : parse_usize (codes "-1") ≡ none = refl in cc (parse_usize-show n w, same, read)

show-ne-zero : (n : ℕ) → suc n < word → text_eq (show (suc n)) (codes "0") ≡ false
unfolding parse_usize
show-ne-zero n w = Bool-false _ λ e.
    let same = (text_eq_iff (show (suc n)) (codes "0")).0 e in
    let read : parse_usize (codes "0") ≡ some 0 = refl in
    cc (parse_usize-show (suc n) w, same, read)

length-bulk : (a : Text) → length (bulk a) ≡ length (show (length a)) + length a + 5
unfolding bulk
length-bulk a =
    omega (arith, length-append (show (length a)) (crlf ++ (a ++ crlf)), length-append a crlf)

bulk-append :
    (a rest : Text) → bulk a ++ rest ≡ b'$' ∷ (show (length a) ++ (crlf ++ (a ++ (crlf ++ rest))))
unfolding bulk
bulk-append a rest = simp append_assoc

parse_payload-bulk :
    (a : Text) (b : Bytes)
    → length (bulk a) < word
    → length (bulk a) ≤ length b
    → parse_payload b (suc (length (show (length a)))) (show (length a)) ≡ some (length (bulk a))
unfolding parse_payload
parse_payload-bulk a b small room =
    rw (parse_usize-show (length a) (omega (arith, length-bulk a))) (ground (arith, length-bulk a))

module _ (a rest : Text) (small : length (bulk a) < word) where
  parse_bulk-bulk : parse_bulk (bulk a ++ rest) ≡ some (length (bulk a))
  unfolding parse_bulk parse_bulk_at
  parse_bulk-bulk =
      let n = length a in
      let tail = a ++ (crlf ++ rest) in
      let size = length-bulk a in
      let room = ap length (bulk-append a rest) in
      rw
        (
          bulk-append a rest,
          line_end-show b'$' n tail (omega arith),
          header-show b'$' n tail,
          show-ne-nil_mark n (omega arith),
        )
        (parse_payload-bulk a (b'$' ∷ (show n ++ (crlf ++ tail))) small
          (omega (arith, length-append (bulk a) rest)))

  parse_frame-bulk : (fuel : ℕ) → parse_frame (suc fuel) (bulk a ++ rest) ≡ some (length (bulk a))
  unfolding parse_frame
  parse_frame-bulk fuel = rw (bulk-append a rest) (rw (bulk-append a rest) at parse_bulk-bulk)

parse_items_step :
    (frame : Bytes → Option ℕ) (count : ℕ) (b : Bytes) (offset consumed : ℕ)
    → offset < length b
    → frame (drop offset b) ≡ some consumed
    → parse_items frame (suc count) b offset ≡ parse_items frame count b (offset + consumed)
unfolding parse_items
parse_items_step frame count b offset consumed lt e = rw e (ground arith)

bulks-cons :
    (a : Text) (args : List Text) (rest : Text)
    → bulks (a ∷ args) ++ rest ≡ bulk a ++ (bulks args ++ rest)
unfolding bulks
bulks-cons a args rest = append_assoc (bulk a) (bulks args) rest

-- The loop over the arguments takes one bulk string in each round.
parse_items-bulks :
    (fuel : ℕ) (args : List Text) (done rest : Text)
    → length done + length (bulks args) < word
    → parse_items
        (parse_frame (suc fuel))
        (length args)
        (done ++ (bulks args ++ rest))
        (length done)
      ≡ some (length done + length (bulks args))
parse_items-bulks fuel [] done rest small = unfold parse_items bulks in ap some (omega arith)
parse_items-bulks fuel (a ∷ args) done rest small =
    let more = bulks args ++ rest in
    let frame = parse_frame (suc fuel) in
    let size = length-append done (bulk a) in
    let whole = ap length (bulks-cons a args []) in
    let parts = length-append (bulks (a ∷ args)) [] in
    let parts' = length-append (bulk a) (bulks args ++ []) in
    let parts'' = length-append (bulks args) [] in
    let here = length-append done (bulk a ++ more) in
    let here' = length-append (bulk a) more in
    rw (bulks-cons a args rest) (
      parse_items_step frame (length args) (done ++ (bulk a ++ more)) (length done)
        (length (bulk a)) (omega (arith, length-bulk a))
        (ap frame (drop-length-append done (bulk a ++ more))
          ∙ parse_frame-bulk a more (omega arith) fuel)
      ∙ ap₂ (parse_items frame (length args)) (sym (append_assoc done (bulk a) more)) (sym size)
      ∙ parse_items-bulks fuel args (done ++ bulk a) rest (omega arith)
      ∙ ap some (omega arith))

length-args-le : (args : List Text) → length args ≤ length (bulks args)
length-args-le [] = omega arith
length-args-le (a ∷ args) =
    let whole = ap length (bulks-cons a args []) in
    let parts = length-append (bulks (a ∷ args)) [] in
    let parts' = length-append (bulk a) (bulks args ++ []) in
    let parts'' = length-append (bulks args) [] in omega (arith, length-args-le args, length-bulk a)

-- The command's first line.
abbrev count_line : ℕ → Text
count_line n = b'*' ∷ (show n ++ crlf)

format_resp_cmd-append :
    (args : List Text) (rest : Text)
    → format_resp_cmd args ++ rest ≡ count_line (length args) ++ (bulks args ++ rest)
unfolding format_resp_cmd
format_resp_cmd-append args rest =
    ap (λ s. s ++ rest) (push_args-bulks args (count_line (length args)))
    ∙ append_assoc (count_line (length args)) (bulks args) rest

length-format_resp_cmd :
    (args : List Text)
    → length (format_resp_cmd args) ≡ length (show (length args)) + 3 + length (bulks args)
unfolding format_resp_cmd
length-format_resp_cmd args =
    let line = length-append (show (length args)) crlf in
    let both = length-append (count_line (length args)) (bulks args) in
    let same = ap length (push_args-bulks args (count_line (length args))) in omega arith

count_line-append : (n : ℕ) (tail : Text) → count_line n ++ tail ≡ b'*' ∷ (show n ++ (crlf ++ tail))
count_line-append n tail = ap (◌∷◌ b'*') (append_assoc (show n) crlf tail)

parse_counted-bulks :
    (fuel : ℕ) (args : List Text) (rest : Bytes)
    → length (format_resp_cmd args) < word
    → parse_counted
        (parse_frame (suc fuel))
        (count_line (length args) ++ (bulks args ++ rest))
        (suc (length (show (length args))))
        (show (length args))
      ≡ some (length (format_resp_cmd args))
unfolding parse_counted
parse_counted-bulks fuel args rest small =
    let line = count_line (length args) in
    let size = length-format_resp_cmd args in
    let start : suc (length (show (length args))) + 2 ≡ length line =
      omega (arith, length-append (show (length args)) crlf) in
    rw (parse_usize-show (length args) (omega (arith, length-args-le args))) (
      ap (parse_items (parse_frame (suc fuel)) (length args) (line ++ (bulks args ++ rest))) start
      ∙ parse_items-bulks fuel args line rest (omega arith)
      ∙ ap some (omega arith))

parse_array-zero :
    (frame : Bytes → Option ℕ) (rest : Bytes)
    → parse_array frame (count_line 0 ++ (bulks [] ++ rest)) ≡ some (length (format_resp_cmd []))
unfolding parse_array find starts_with trim is_utf8 text_eq show bulks format_resp_cmd
parse_array-zero frame rest = refl

parse_array-bulks :
    (fuel : ℕ) (args : List Text) (rest : Bytes)
    → length (format_resp_cmd args) < word
    → parse_array (parse_frame (suc fuel)) (count_line (length args) ++ (bulks args ++ rest))
      ≡ some (length (format_resp_cmd args))
unfolding parse_array parse_array_at
parse_array-bulks fuel [] rest small = parse_array-zero (parse_frame (suc fuel)) rest
parse_array-bulks fuel (a ∷ args) rest small =
    let n = suc (length args) in
    let tail = bulks (a ∷ args) ++ rest in
    let size = length-format_resp_cmd (a ∷ args) in
    let counted = parse_counted-bulks fuel (a ∷ args) rest small in
    let fits : n < word = omega (arith, length-args-le (a ∷ args)) in
    rw
      (
        count_line-append n tail,
        line_end-show b'*' n tail (omega arith),
        header-show b'*' n tail,
        show-ne-nil_mark n fits,
        show-ne-zero (length args) fits,
      )
      (rw (count_line-append n tail) at counted)

-- Every command that the harness writes is one complete frame, whatever bytes its arguments hold
-- and whatever follows it, and the frame is exactly the command.
pub parse_resp_frame-format :
    (args : List Text) (rest : Bytes)
    → length (format_resp_cmd args) < word
    → parse_resp_frame (format_resp_cmd args ++ rest) ≡ some (length (format_resp_cmd args))
parse_resp_frame-format args rest small =
    let buf = format_resp_cmd args ++ rest in
    sym (parse_frame_fuel (suc (suc (length buf))) buf (omega arith))
    ∙ ap (parse_frame (suc (suc (length buf)))) (format_resp_cmd-append args rest)
    ∙ unfold parse_frame in parse_array-bulks (length buf) args rest small
