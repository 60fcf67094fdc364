-- ===== src/Redis/Frame/Depth.antt =====
-- The fuel of `parse_frame` is enough: more of it never changes the result.
use subdollar_llm_coding_ben.Base.{
  ℕ, zero, suc, ◌+◌, ◌<◌, ◌≡◌, refl, Option, [], ◌∷◌, arith, leb, length, drop, length-drop,
  Bool-cases, Option-cases, inl, inr,
}
use subdollar_llm_coding_ben.Text.{Bytes, Text, parse_usize}
use subdollar_llm_coding_ben.Redis.Frame.{
  parse_items, parse_counted, parse_array_at, parse_array, parse_frame, parse_resp_frame,
}

-- Two frame parsers agree on what is shorter than `b`.
abbrev AgreeBelow : Bytes → (Bytes → Option ℕ) → (Bytes → Option ℕ) → Type 0
AgreeBelow b f g = (s : Bytes) → length s < length b → f s ≡ g s

module _ (f g : Bytes → Option ℕ) (b : Bytes) (agree : AgreeBelow b f g) where
  parse_items-agree :
      (count offset : ℕ) → 0 < offset → parse_items f count b offset ≡ parse_items g count b offset
  unfolding parse_items
  parse_items-agree zero offset o = refl
  parse_items-agree (suc count) offset o = elim (Bool-cases (leb (length b) offset)) [
    | inl e ↦ rw e
    | inr e ↦
        rw (e, agree (drop offset b) (ground (arith, length-drop offset b)))
          (elim (Option-cases (g (drop offset b))) [
            | inl r ↦ rw r
            | inr (k, r) ↦ rw r (parse_items-agree count (offset + k) (omega arith))
          ])
  ]

  parse_counted-agree :
      (pos : ℕ) (count_str : Text)
      → parse_counted f b pos count_str ≡ parse_counted g b pos count_str
  unfolding parse_counted
  parse_counted-agree pos count_str = elim (Option-cases (parse_usize count_str)) [
    | inl e ↦ rw e
    | inr (count, e) ↦ rw e (parse_items-agree count (pos + 2) (omega arith))
  ]

  parse_array-agree : parse_array f b ≡ parse_array g b
  unfolding parse_array parse_array_at
  parse_array-agree = simp parse_counted-agree

parse_frame-agree :
    (m n : ℕ) (b : Bytes) → length b < m → length b < n → parse_frame m b ≡ parse_frame n b
unfolding parse_frame
parse_frame-agree zero n b h k = elim h [ ]
parse_frame-agree (suc m) zero b h k = elim k [ ]
parse_frame-agree (suc m) (suc n) [] h k = refl
parse_frame-agree (suc m) (suc n) (c ∷ s) h k =
    let nested =
      parse_array-agree (parse_frame m) (parse_frame n) (c ∷ s)
        (λ t lt. parse_frame-agree m n t (omega arith) (omega arith)) in
    rw nested

-- Nesting never runs out of fuel: with any fuel above the length of the buffer the parser returns
-- what `parse_resp_frame` returns.
pub parse_frame_fuel :
    (fuel : ℕ) (buf : Bytes) → length buf < fuel → parse_frame fuel buf ≡ parse_resp_frame buf
unfolding parse_resp_frame
parse_frame_fuel fuel buf h = parse_frame-agree fuel (suc (length buf)) buf h (omega arith)
