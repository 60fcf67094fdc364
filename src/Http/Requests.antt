-- ===== src/Http/Requests.antt =====
-- src/verifier/http.rs: the calls of the HTTP client, which is `reqwest` and a parameter, and the tests
-- of a response that several stages share.
pub mod Checks
use subdollar_llm_coding_ben.Base.{
  ℕ, Bool, not, Option, none, some, List, [], ◌∷◌, ◌++◌, ◌==◌, if◌then◌else◌, length,
}
use subdollar_llm_coding_ben.Text.{Text, codes, show, trim, text_eq, starts_with}
use subdollar_llm_coding_ben.Stage.{
  Result, ok, err, Step, bind_result, ◌>>=◌, ◌>>◌, ensure, map_err,
}

pub data Method : Type 0 where
  get : Method
  post : Text → Method

pub record Request : Type 0 where
  pub method : Method
  pub url : Text
  pub user_agent : Option Text

-- `header` is `headers().get(name).and_then(|v| v.to_str().ok())`, and `body` what `text()` returns.
pub record Response : Type 0 where
  pub status : ℕ
  pub header : Text → Option Text
  pub body : Result Text

-- The client and the server; `status_text` prints a status as `{}` does.
pub record Web : Type 1 where
  pub State : Type 0
  pub send : Request → State → Result Response × State
  pub status_text : ℕ → Text

abbrev pub unwrap_or_empty : Option Text → Text
unwrap_or_empty none = []
unwrap_or_empty (some t) = t

abbrev pub header_of : Response → Text → Text
header_of resp name = unwrap_or_empty (resp.header name)

-- `format!("http://127.0.0.1:{}{}", port, path)`
pub url_of : ℕ → Text → Text
url_of port path = codes "http://127.0.0.1:" ++ (show port ++ path)

pub get_request : ℕ → Text → Request
unfolding url_of
get_request port path = record { method = get; url = url_of port path; user_agent = none }

module _ (w : Web) (lower : Text → Text) where
  open w use {State, send, status_text}

  -- A request; `Err(e)` ends the stage with the label and `e`.
  pub request : Text → Request → Step State Response
  request label r s = let (res, s') = send r s in (map_err (λ e. label ++ e) res, s')

  pub expect_status : ℕ → Text → Response → Step State (Unit {0})
  expect_status status complaint resp =
      ensure (resp.status == status) (complaint ++ status_text resp.status)

  pub expect_plain_text : Response → Step State (Unit {0})
  expect_plain_text resp =
      let content_type = header_of resp (codes "content-type") in
      ensure (starts_with (lower content_type) (codes "text/plain"))
        (codes "Expected Content-Type 'text/plain', got '" ++ (content_type ++ codes "'"))

  pub expect_length : Text → Response → Step State (Unit {0})
  expect_length expected resp =
      let content_length = header_of resp (codes "content-length") in
      ensure (text_eq content_length (show (length expected))) (
        codes "Expected Content-Length '"
        ++ (show (length expected) ++ (codes "', got '" ++ (content_length ++ codes "'"))))

  pub read_text : Response → Step State Text
  read_text resp s = (resp.body, s)

  -- The message of a body that does not match stands around the expected text.
  pub expect_body : Text → Text → Text → Response → Step State (Unit {0})
  unfolding read_text
  expect_body before expected between resp = do
    text ← read_text resp
    ensure (text_eq (trim text) expected) (before ++ (expected ++ (between ++ (text ++ codes "'"))))
