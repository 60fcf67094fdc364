-- ===== src/Dns/Stages/Verdicts.antt =====
-- When a server passes the DNS stages, as conditions on its replies, and how the stages are numbered.
use subdollar_llm_coding_ben.Base.{
  inl, inr, Bool-cases, ltb, ℕ, ◌≤◌, ◌≡◌, ◌↔◌, ◌⊎◌, refl, true, Option, List, [], ◌∷◌, map, arith,
  length,
}
use subdollar_llm_coding_ben.Text.{Text, Bytes, codes, contains, from_utf8_lossy}
use subdollar_llm_coding_ben.Stage.{Result, ok, err, summarize}
use subdollar_llm_coding_ben.Dns.Socket.{Network, send_query}
use subdollar_llm_coding_ben.Dns.Stages.{
  Burst, be_word, is_response, rcode_of, has_address, judge1, judge2, judge3, judge4, judge5,
  judge6, count_answers, burst_queries, run_all,
}

-- A reply with a whole header, of which `P` holds.
abbrev pub Answer : (Bytes → Type 0) → Result Bytes → Type 0
Answer P (ok resp) = (12 ≤ length resp) × P resp
Answer P (err e) = ⊥

-- The id of the query, and the bit of a response.
abbrev pub IsResponse : Bytes → Type 0
IsResponse resp = (be_word resp 0 ≡ 0x1234) × (is_response (be_word resp 2) ≡ true)

-- At least one answer, and the bytes of the address somewhere.
abbrev pub HasAddress : Bytes → Bytes → Type 0
HasAddress ip resp = (1 ≤ be_word resp 6) × (has_address ip resp ≡ true)

abbrev pub HasPayload : Bytes → Type 0
HasPayload resp = contains (from_utf8_lossy resp) (codes "subdollar-benchmark") ≡ true

-- NXDOMAIN, or no answers.
abbrev pub IsUnknown : Bytes → Type 0
IsUnknown resp = (rcode_of (be_word resp 2) ≡ 3) ⊎ (be_word resp 6 ≡ 0)

-- A reply that came is not cut in its header.
abbrev pub Uncut : Result Bytes → Type 0
Uncut (ok resp) = 12 ≤ length resp
Uncut (err e) = Unit

-- The number of a result: its own, or another if the reply is cut.
abbrev pub IsNumbered : ℕ → ℕ → Result Bytes → ℕ → Type 0
IsNumbered own other r n = ((n ≡ own) × Uncut r) ⊎ ((n ≡ other) × ¬ Uncut r)

judge2_stage_iff : (r : Result Bytes) → ((judge2 r).stage ≡ 2) ↔ Uncut r
unfolding judge2
judge2_stage_iff (err e) = ground arith
judge2_stage_iff (ok resp) = ground arith

judge3_stage_iff : (r : Result Bytes) → ((judge3 r).stage ≡ 3) ↔ Uncut r
unfolding judge3
judge3_stage_iff (err e) = ground arith
judge3_stage_iff (ok resp) = ground arith

judge2_cut : (r : Result Bytes) → ¬ Uncut r → (judge2 r).stage ≡ 3
unfolding judge2
judge2_cut (err e) cut = absurd (cut tt)
judge2_cut (ok resp) cut = ground arith

judge3_cut : (r : Result Bytes) → ¬ Uncut r → (judge3 r).stage ≡ 2
unfolding judge3
judge3_cut (err e) cut = absurd (cut tt)
judge3_cut (ok resp) cut = ground arith

numbered2 : (r : Result Bytes) → IsNumbered 2 3 r (judge2 r).stage
numbered2 (err e) = inl ((judge2_stage_iff (err e)).1 tt, tt)
numbered2 (ok resp) = elim (Bool-cases (ltb (length resp) 12)) [
  | inl e ↦ let cut : ¬ Uncut (ok resp) = λ h. ground arith in inr (judge2_cut (ok resp) cut, cut)
  | inr e ↦
      let whole : Uncut (ok resp) = ground arith in
      inl ((judge2_stage_iff (ok resp)).1 whole, whole)
]

numbered3 : (r : Result Bytes) → IsNumbered 3 2 r (judge3 r).stage
numbered3 (err e) = inl ((judge3_stage_iff (err e)).1 tt, tt)
numbered3 (ok resp) = elim (Bool-cases (ltb (length resp) 12)) [
  | inl e ↦ let cut : ¬ Uncut (ok resp) = λ h. ground arith in inr (judge3_cut (ok resp) cut, cut)
  | inr e ↦
      let whole : Uncut (ok resp) = ground arith in
      inl ((judge3_stage_iff (ok resp)).1 whole, whole)
]

judge1_stage : (hex4 : ℕ → Text) (r : Result Bytes) → (judge1 hex4 r).stage ≡ 1
unfolding judge1
judge1_stage hex4 (err e) = refl
judge1_stage hex4 (ok resp) = ground arith

judge4_stage : (r : Result Bytes) → (judge4 r).stage ≡ 4
unfolding judge4
judge4_stage (err e) = refl
judge4_stage (ok resp) = ground arith

judge5_stage : (r : Result Bytes) → (judge5 r).stage ≡ 5
unfolding judge5
judge5_stage (err e) = refl
judge5_stage (ok resp) = ground arith

judge6_stage : (tasks : List (Option (Result Bytes))) → (judge6 tasks).stage ≡ 6
unfolding judge6
judge6_stage tasks = ground arith

-- What the server replies to the queries of the six stages, one after the other.
pub record Replies : Type 0 where
  pub root : Result Bytes
  pub example : Result Bytes
  pub localhost : Result Bytes
  pub txt : Result Bytes
  pub unknown : Result Bytes
  pub burst : List (Option (Result Bytes))

-- The conditions of the six stages.
pub record AreAnswers (r : Replies) : Type 0 where
  pub header : Answer IsResponse r.root
  pub address : Answer (HasAddress (93 ∷ 184 ∷ 216 ∷ 34 ∷ [])) r.example
  pub loopback : Answer (HasAddress (127 ∷ 0 ∷ 0 ∷ 1 ∷ [])) r.localhost
  pub payload : Answer HasPayload r.txt
  pub error : Answer IsUnknown r.unknown
  pub eight : 8 ≤ count_answers r.burst

module _ (n : Network) (b : Burst n) (hex4 : ℕ → Text) where
  open n use {State}

  pub replies : State → Replies
  replies s =
      let (r1, s1) = send_query n 0x1234 (codes "example.com") 1 s in
      let (r2, s2) = send_query n 0x2345 (codes "example.com") 1 s1 in
      let (r3, s3) = send_query n 0x3456 (codes "localhost") 1 s2 in
      let (r4, s4) = send_query n 0x4567 (codes "test.example.com") 16 s3 in
      let (r5, s5) = send_query n 0x5678 (codes "nonexistent.subdollar.invalid") 1 s4 in
      let (r6, s6) = b.burst (burst_queries 10 0) s5 in
      record { root = r1; example = r2; localhost = r3; txt = r4; unknown = r5; burst = r6 }

  -- run_all gives six results, the first numbered 1 and the last three 4, 5 and 6. The one of stage 2
  -- is numbered 2 if the reply to its query is not cut in its header, and 3 if it is; the one of stage
  -- 3 is numbered 3 if the reply to its query is not cut in its header, and 2 if it is.
  pub run_all_numbers :
      (s : State)
      → (second third : ℕ) × (map (λ result. result.stage) (run_all n b hex4 s).0.stages
          ≡ 1 ∷ second ∷ third ∷ 4 ∷ 5 ∷ 6 ∷ [])
        × IsNumbered 2 3 (replies s).example second
        × IsNumbered 3 2 (replies s).localhost third
  unfolding run_all replies summarize
  run_all_numbers s =
      let r = replies s in
      (
        (judge2 r.example).stage,
        (judge3 r.localhost).stage,
        rw
            (
              judge1_stage hex4 r.root,
              judge4_stage r.txt,
              judge5_stage r.unknown,
              judge6_stage r.burst,
            )
            refl,
        numbered2 r.example,
        numbered3 r.localhost,
      )
