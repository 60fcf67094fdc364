-- ===== src/Redis/Stages/Replies.antt =====
-- Which replies the Redis stages accept, in place of their Boolean tests.
use subdollar_llm_coding_ben.Base.{
  ◌≡◌, ◌↔◌, ◌∙◌, refl, ap, true, ◌++◌, ◌⊎◌, inl, inr, arith, length,
}
use subdollar_llm_coding_ben.Text.{
  Text, codes, show, trim, starts_with, starts_with-append, text_eq, text_eq_iff,
}
use subdollar_llm_coding_ben.Text.Occurs.{Occurs, contains_iff, start_of}
use subdollar_llm_coding_ben.Redis.Session.{is_line, is_bulk_reply, bulk_reply}
use subdollar_llm_coding_ben.Redis.Stages.{pipe_accepts}

-- What kind of reply is accepted.
pub data Reply : Type 0 where
  -- this text, once blanks at both ends are trimmed
  line : Text → Reply
  -- a bulk string of this text, with its length in front
  bulk : Text → Reply
  -- whatever begins with `-`
  refusal : Reply

abbrev pub bulk_text : Text → Text
bulk_text val = codes "$" ++ (show (length val) ++ (codes "\r\n" ++ val))

abbrev pub Accepts : Reply → Text → Type 0
Accepts (line expected) res = trim res ≡ expected
Accepts (bulk val) res = (trim res ≡ bulk_text val) ⊎ (res ≡ bulk_text val ++ codes "\r\n")
Accepts refusal res = (rest : Text) × (res ≡ codes "-" ++ rest)

-- Both a positive answer and the value that was set stand in the response.
abbrev pub IsPipeAnswer : Text → Type 0
IsPipeAnswer resp = Occurs (codes "+OK") resp × Occurs (codes "v1") resp

pub line_iff : (expected res : Text) → (is_line expected res ≡ true) ↔ Accepts (line expected) res
unfolding is_line
line_iff expected res = text_eq_iff (trim res) expected

pub bulk_iff : (val res : Text) → (is_bulk_reply val res ≡ true) ↔ Accepts (bulk val) res
unfolding is_bulk_reply bulk_reply
bulk_iff val res = (λ h. accepted (ground arith), λ h. ground (arith, accepts h))
  where
    accepted :
        (text_eq (trim res) (bulk_text val) ≡ true)
          ⊎ (text_eq res (bulk_text val ++ codes "\r\n") ≡ true)
        → Accepts (bulk val) res
    accepted (inl e) = inl ((text_eq_iff (trim res) (bulk_text val)).0 e)
    accepted (inr e) = inr ((text_eq_iff res (bulk_text val ++ codes "\r\n")).0 e)

    accepts :
        Accepts (bulk val) res
        → (text_eq (trim res) (bulk_text val) ≡ true)
          ⊎ (text_eq res (bulk_text val ++ codes "\r\n") ≡ true)
    accepts (inl e) = inl ((text_eq_iff (trim res) (bulk_text val)).1 e)
    accepts (inr e) = inr ((text_eq_iff res (bulk_text val ++ codes "\r\n")).1 e)

pub refusal_iff : (res : Text) → (starts_with res (codes "-") ≡ true) ↔ Accepts refusal res
refusal_iff res = (
  start_of res (codes "-"),
  λ (rest, e). ap (λ t. starts_with t (codes "-")) e ∙ starts_with-append (codes "-") rest,
)

pub pipe_accepts_iff : (resp : Text) → (pipe_accepts resp ≡ true) ↔ IsPipeAnswer resp
unfolding pipe_accepts
pipe_accepts_iff resp = (
  λ h. (
    (contains_iff resp (codes "+OK")).0 (ground arith),
    (contains_iff resp (codes "v1")).0 (ground arith),
  ),
  λ h. rw ((contains_iff resp (codes "+OK")).1 h.0, (contains_iff resp (codes "v1")).1 h.1) refl,
)
