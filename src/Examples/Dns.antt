-- ===== src/Examples/Dns.antt =====
-- Tests of src/verifier/dns.rs, and instances of the theorems.
use mathlib.Core.List.{cons-ne-nil}
use subdollar_llm_coding_ben.Base.{
  ℕ, ◌≡◌, refl, Option, none, some, List, [], ◌∷◌, ◌++◌, map, arith, All, take,
}
use subdollar_llm_coding_ben.Text.{Text, Bytes, codes, show}
use subdollar_llm_coding_ben.Stage.{Result, ok}
use subdollar_llm_coding_ben.Dns.Query.{build_query}
use subdollar_llm_coding_ben.Dns.Query.Wire.{IsLabel, read_query, join_dots, read_query-build_query}
use subdollar_llm_coding_ben.Dns.Socket.{Network, datagram}
use subdollar_llm_coding_ben.Dns.Stages.{Burst, run_all}
use subdollar_llm_coding_ben.Dns.Stages.Verdicts.{IsNumbered, Replies, replies, run_all_numbers}

-- The message of the source's test server.
example_query :
    build_query 0x1234 (codes "example.com") 1
    ≡ 0x12
      ∷ 0x34
      ∷ 1
      ∷ 0
      ∷ 0
      ∷ 1
      ∷ 0
      ∷ 0
      ∷ 0
      ∷ 0
      ∷ 0
      ∷ 0
      ∷ 7
      ∷ (codes "example" ++ (3 ∷ (codes "com" ++ (0 ∷ 0 ∷ 1 ∷ 0 ∷ 1 ∷ []))))
unfolding build_query
example_query = refl

abbrev labels : List Text
labels = codes "example" ∷ codes "com" ∷ []

labels-IsLabel : All IsLabel labels
labels-IsLabel = (
  (cons-ne-nil _ _, omega arith, ground arith),
  ((cons-ne-nil _ _, omega arith, ground arith), tt),
)

read_query-build_query_example :
    read_query (build_query 0x1234 (join_dots labels) 16)
    ≡ some (record { id = 0x1234; labels = labels; qtype = 16; qclass = 1 })
read_query-build_query_example =
    read_query-build_query 0x1234 16 labels (omega arith) (omega arith) labels-IsLabel

-- A server that answers every query with the query's id, no error and both addresses and the text.
abbrev answer : Bytes → Bytes
answer query =
    take 2 query
    ++ (0x81
        ∷ 0x80
        ∷ 0
        ∷ 1
        ∷ 0
        ∷ 1
        ∷ 0
        ∷ 0
        ∷ 0
        ∷ 0
        ∷ (93 ∷ 184 ∷ 216 ∷ 34 ∷ 127 ∷ 0 ∷ 0 ∷ 1 ∷ codes "subdollar-benchmark"))

-- What is sent next is the state; the reply to a question for `reply_of` is made by it.
abbrev server : (Bytes → Bytes) → Network
server reply_of = record {
  State = Bytes;
  bind = λ s. (none, s);
  send_to = λ query s. (none, query);
  recv_from = λ query. (datagram (reply_of query), query);
}

abbrev answer_all : {A : Type 0} → List A → List (Option (Result Bytes))
answer_all [] = []
answer_all (q ∷ qs) = some (ok []) ∷ answer_all qs

abbrev bursts : (r : Bytes → Bytes) → Burst (server r)
bursts r = record { burst = λ queries s. (answer_all queries, s) }

-- Every reply is the first five bytes of its query.
abbrev cut_replies : Replies
cut_replies = replies (server (take 5)) (bursts (take 5)) show []

run_all_numbers_example :
    (second third : ℕ) × (map
        (λ result. result.stage)
        (run_all (server (take 5)) (bursts (take 5)) show []).0.stages
      ≡ 1 ∷ second ∷ third ∷ 4 ∷ 5 ∷ 6 ∷ [])
    × IsNumbered 2 3 cut_replies.example second
    × IsNumbered 3 2 cut_replies.localhost third
run_all_numbers_example = run_all_numbers (server (take 5)) (bursts (take 5)) show []
