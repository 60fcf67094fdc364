-- ===== src/Examples/Http.antt =====
-- Instances of the theorems about src/verifier/http.rs.
use subdollar_llm_coding_ben.Base.{ℕ, none, some, List, [], ◌∷◌, if◌then◌else◌, length}
use subdollar_llm_coding_ben.Text.{Text, codes, show, text_eq}
use subdollar_llm_coding_ben.Stage.{Result, ok, err}
use subdollar_llm_coding_ben.Http.Requests.{Response, Web}

-- A server with its responses prepared; behind the last one requests fail.
abbrev next_response : List Response → Result Response × List Response
next_response [] = (err (codes "refused"), [])
next_response (r ∷ rs) = (ok r, rs)

abbrev prepared : Web
prepared = record { State = List Response; send = λ r s. next_response s; status_text = show }

abbrev plain_text : ℕ → Text → Response
plain_text status text = record {
  status = status;
  header = λ name.
      if text_eq name (codes "content-type")
      then some (codes "Text/Plain; charset=utf-8")
      else if text_eq name (codes "content-length")
      then some (show (length text))
      else none;
  body = ok text;
}

abbrev good_responses : List Response
good_responses =
    plain_text 200 []
    ∷ plain_text 404 []
    ∷ plain_text 200 (codes "subdollar_speed_test")
    ∷ plain_text 200 (codes "SubDollarBench-Agent/1.0")
    ∷ plain_text 201 []
    ∷ plain_text 200 (codes "SubDollarBench payload artifact")
    ∷ plain_text 404 []
    ∷ plain_text 200 (codes "nothing")
    ∷ []
