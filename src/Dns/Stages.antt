-- ===== src/Dns/Stages.antt =====
-- src/verifier/dns.rs: the six stages and `run_all`. `hex4` prints a number as `{:04x}`.
pub mod Verdicts
use subdollar_llm_coding_ben.Base.{
  ℕ, zero, suc, ◌+◌, ◌*◌, ◌/◌, ◌%◌, ◌^◌, Bool, true, false, not, ◌&&◌, ◌||◌, Option, none, some,
  List, [], ◌∷◌, ◌++◌, ◌==◌, if◌then◌else◌, leb, ltb, length,
}
use subdollar_llm_coding_ben.Text.{Text, Bytes, codes, show, contains, from_utf8_lossy}
use subdollar_llm_coding_ben.Stage.{Result, ok, err, StageResult, pass, fail, Summary, summarize}
use subdollar_llm_coding_ben.Dns.Socket.{Network, send_query}

-- `u16::from_be_bytes([buf[i], buf[i + 1]])`; the stages ask only for places inside.
abbrev pub byte_at : Bytes → ℕ → ℕ
byte_at [] i = 0
byte_at (b ∷ bs) zero = b
byte_at (b ∷ bs) (suc i) = byte_at bs i

abbrev pub be_word : Bytes → ℕ → ℕ
be_word buf i = byte_at buf i * 256 + byte_at buf (suc i)

-- `flags & 0x8000 != 0` and `flags & 0x000F`.
abbrev pub is_response : ℕ → Bool
is_response flags = flags / 2 ^ 15 % 2 == 1

abbrev pub rcode_of : ℕ → ℕ
rcode_of flags = flags % 16

-- `resp.windows(4).any(|w| w == ip)`, which is a search for the four bytes.
abbrev pub has_address : Bytes → Bytes → Bool
has_address ip resp = contains resp ip

abbrev pub too_short : Bytes → Bool
too_short resp = ltb (length resp) 12

module _ (hex4 : ℕ → Text) where
  pub judge1 : Result Bytes → StageResult
  judge1 r =
      let name = codes "Stage 1: Header Handshake & Valid Query Response" in
      elim r [
        | err e ↦ fail 1 name e
        | ok resp ↦
            let flags = be_word resp 2 in
            let id = be_word resp 0 in
            if too_short resp
            then fail 1 name
                (codes "Response too short: " ++ (show (length resp) ++ codes " bytes"))
            else if id == 0x1234 && is_response flags
            then pass 1 name
            else fail 1 name
                (codes "Invalid header flags: 0x" ++ (hex4 flags ++ (codes ", id: 0x" ++ hex4 id)))
      ]

-- A response that is cut is reported as stage 3.
pub judge2 : Result Bytes → StageResult
judge2 r =
    let name = codes "Stage 2: example.com A Record Resolution (93.184.216.34)" in
    elim r [
      | err e ↦ fail 2 name e
      | ok resp ↦
          let ancount = be_word resp 6 in
          if too_short resp
          then fail 3 name (codes "Response truncated")
          else if leb 1 ancount && has_address (93 ∷ 184 ∷ 216 ∷ 34 ∷ []) resp
          then pass 2 name
          else fail 2 name
              (codes "ancount=" ++ (show ancount ++ codes ", expected IP 93.184.216.34 in answer"))
    ]

-- A response that is cut is reported as stage 2.
pub judge3 : Result Bytes → StageResult
judge3 r =
    let name = codes "Stage 3: localhost A Record Resolution (127.0.0.1)" in
    elim r [
      | err e ↦ fail 3 name e
      | ok resp ↦
          let ancount = be_word resp 6 in
          if too_short resp
          then fail 2 name (codes "Response truncated")
          else if leb 1 ancount && has_address (127 ∷ 0 ∷ 0 ∷ 1 ∷ []) resp
          then pass 3 name
          else fail 3 name (codes "ancount=" ++ (show ancount ++ codes ", expected IP 127.0.0.1"))
    ]

pub judge4 : Result Bytes → StageResult
judge4 r =
    let name = codes "Stage 4: test.example.com TXT Record Query" in
    elim r [
      | err e ↦ fail 4 name e
      | ok resp ↦
          if too_short resp
          then fail 4 name (codes "Response truncated")
          else if contains (from_utf8_lossy resp) (codes "subdollar-benchmark")
          then pass 4 name
          else fail 4 name (codes "TXT record payload 'subdollar-benchmark' not found")
    ]

pub judge5 : Result Bytes → StageResult
judge5 r =
    let name = codes "Stage 5: Unknown Domain NXDOMAIN / Error Response" in
    elim r [
      | err e ↦ fail 5 name e
      | ok resp ↦
          let rcode = rcode_of (be_word resp 2) in
          let ancount = be_word resp 6 in
          if too_short resp
          then fail 5 name (codes "Response truncated")
          else if rcode == 3 || ancount == 0
          then pass 5 name
          else fail 5 name (
              codes "Expected RCODE 3 or ANCOUNT 0, got rcode="
              ++ (show rcode ++ (codes ", ancount=" ++ show ancount)))
    ]

-- `none` is a task that panicked.
pub count_answers : List (Option (Result Bytes)) → ℕ
count_answers [] = 0
count_answers (some (ok resp) ∷ tasks) = suc (count_answers tasks)
count_answers (some (err e) ∷ tasks) = count_answers tasks
count_answers (none ∷ tasks) = count_answers tasks

pub judge6 : List (Option (Result Bytes)) → StageResult
judge6 tasks =
    let name = codes "Stage 6: Concurrent Burst Query Handling (10 queries)" in
    let success = count_answers tasks in
    if leb 8 success
    then pass 6 name
    else fail 6 name
        (codes "Only " ++ (show success ++ codes " of 10 concurrent queries succeeded"))

-- The ten tasks of stage 6 run at once: `burst` is what they return for these queries.
pub record Burst (n : Network) : Type 0 where
  pub burst : List (ℕ × Text × ℕ) → n.State → List (Option (Result Bytes)) × n.State

pub burst_queries : ℕ → ℕ → List (ℕ × Text × ℕ)
burst_queries zero i = []
burst_queries (suc k) i = (0x6000 + i, codes "example.com", 1) ∷ burst_queries k (i + 1)

module _ (n : Network) (b : Burst n) (hex4 : ℕ → Text) where
  open n use {State}

  unfoldable pub run_all : State → Summary × State
  unfolding judge1 judge2 judge3 judge4 judge5 judge6 count_answers burst_queries
  run_all s =
      let (r1, s1) = send_query n 0x1234 (codes "example.com") 1 s in
      let (r2, s2) = send_query n 0x2345 (codes "example.com") 1 s1 in
      let (r3, s3) = send_query n 0x3456 (codes "localhost") 1 s2 in
      let (r4, s4) = send_query n 0x4567 (codes "test.example.com") 16 s3 in
      let (r5, s5) = send_query n 0x5678 (codes "nonexistent.subdollar.invalid") 1 s4 in
      let (r6, s6) = b.burst (burst_queries 10 0) s5 in
      (
        summarize (judge1 hex4 r1 ∷ judge2 r2 ∷ judge3 r3 ∷ judge4 r4 ∷ judge5 r5 ∷ judge6 r6 ∷ []),
        s6,
      )
