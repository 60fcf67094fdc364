-- ===== src/Redis/Client/Delivery.antt =====
-- However a reply is split into reads, `send_resp_cmd` returns exactly the reply.
use mathlib.Core.List.{cons-ne-nil}
use subdollar_llm_coding_ben.Base.{
  ℕ, zero, suc, ◌+◌, ◌-◌, ◌<◌, ◌≤◌, ◌≡◌, ◌≢◌, refl, sym, ◌∙◌, ap, true, false, none, some, List, [],
  ◌∷◌, ◌++◌, arith, leb, length, length-append, append_assoc, append-nil, take-length-append,
}
use subdollar_llm_coding_ben.Text.{Text, Bytes, from_utf8_lossy}
use subdollar_llm_coding_ben.Stage.{ok}
use subdollar_llm_coding_ben.Redis.Frame.{is_complete_resp_frame, parse_resp_frame, format_resp_cmd}
use subdollar_llm_coding_ben.Redis.Frame.Stable.{parse_resp_frame-take}
use subdollar_llm_coding_ben.Redis.Client.{
  bytes, Peer, reply_timeout, after_read, receive, send_resp_cmd,
}

module _ (p : Peer) where
  open p use {State, now, read, write_all}

  -- From state `s` the reads of a reply loop that began at `start` bring these chunks in time, and
  -- leave state `s'`.
  pub data Delivers (start : ℕ) : State → List Bytes → State → Type 0 where
    done : {s : State} → Delivers start s [] s
    chunk :
        {s s' s'' : State} {cs : Bytes} {chunks : List Bytes}
        → cs ≢ []
        → now s < start + reply_timeout
        → read (reply_timeout - (now s - start)) s ≡ (bytes cs, s')
        → Delivers start s' chunks s''
        → Delivers start s (cs ∷ chunks) s''

-- All chunks in order.
abbrev pub joined : List Bytes → Bytes
joined [] = []
joined (cs ∷ chunks) = cs ++ joined chunks

incomplete : (buf : Bytes) → parse_resp_frame buf ≡ none → is_complete_resp_frame buf ≡ false
unfolding is_complete_resp_frame
incomplete buf h = rw (h, is_complete_resp_frame)

complete : (buf : Bytes) (n : ℕ) → parse_resp_frame buf ≡ some n → is_complete_resp_frame buf ≡ true
unfolding is_complete_resp_frame
complete buf n h = rw (h, is_complete_resp_frame)

-- A start of a frame that is not the whole frame is not complete.
incomplete_start :
    (buf more : Bytes)
    → more ≢ []
    → parse_resp_frame (buf ++ more) ≡ some (length (buf ++ more))
    → is_complete_resp_frame buf ≡ false
incomplete_start buf [] ne h = absurd (ne refl)
incomplete_start buf (c ∷ more) ne h = incomplete buf (
    ap parse_resp_frame (sym (take-length-append buf (c ∷ more)))
    ∙ parse_resp_frame-take (buf ++ c ∷ more) _ (length buf) h
        (omega (arith, length-append buf (c ∷ more))))

append-ne-nil : (s t : Bytes) → s ≢ [] → s ++ t ≢ []
append-ne-nil [] t h = absurd (h refl)
append-ne-nil (c ∷ s) t h = cons-ne-nil c (s ++ t)

module _ (p : Peer) (debug : Text → Text) where
  open p use {State, now, read, write_all, flush}

  receive_round :
      (fuel start : ℕ) (buf cs : Bytes) (s s' : State)
      → is_complete_resp_frame buf ≡ false
      → cs ≢ []
      → now s < start + reply_timeout
      → read (reply_timeout - (now s - start)) s ≡ (bytes cs, s')
      → receive p debug (suc fuel) start buf s ≡ receive p debug fuel start (buf ++ cs) s'
  unfolding receive after_read
  receive_round fuel start buf [] s s' i ne lt h = absurd (ne refl)
  receive_round fuel start buf (c ∷ cs) s s' i ne lt h =
      let early : leb reply_timeout (now s - start) ≡ false = ground arith in rw (i, early, h)

  receive_complete :
      (fuel start : ℕ) (buf : Bytes) (s : State)
      → is_complete_resp_frame buf ≡ true
      → receive p debug fuel start buf s ≡ (ok (from_utf8_lossy buf), s)
  unfolding receive
  receive_complete zero start buf s c = rw c
  receive_complete (suc fuel) start buf s c = rw c

  receive-Delivers :
      (start fuel : ℕ) {s : State} {chunks : List Bytes} {s' : State} (buf : Bytes)
      → Delivers p start s chunks s'
      → length chunks ≤ fuel
      → parse_resp_frame (buf ++ joined chunks) ≡ some (length (buf ++ joined chunks))
      → receive p debug fuel start buf s ≡ (ok (from_utf8_lossy (buf ++ joined chunks)), s')
  receive-Delivers start fuel {s} buf done room h =
      let whole = append-nil buf in
      rw whole (receive_complete fuel start buf s (complete buf (length buf) (rw whole at h)))
  receive-Delivers start zero buf (chunk ne lt e d) room h = absurd (omega arith)
  receive-Delivers start (suc fuel) {s} {s' = s'} buf (chunk {s' = t} {cs} {chunks} ne lt e d) room
        h =
      let whole = append_assoc buf cs (joined chunks) in
      receive_round fuel start buf cs s t
        (incomplete_start buf (cs ++ joined chunks) (append-ne-nil cs (joined chunks) ne) h) ne lt e
      ∙ receive-Delivers start fuel (buf ++ cs) d (omega arith) (rw whole h)
      ∙ ap (λ b. (ok (from_utf8_lossy b), s')) whole

  -- If the command is written and flushed, and the server's reply is one frame that arrives before the deadline
  -- in reads of any size, one for each nanosecond of the deadline at most, then the call returns the whole
  -- reply and reads nothing more.
  pub send_resp_cmd-Delivers :
      (args : List Text) {s r t s' : State} {chunks : List Bytes}
      → write_all (format_resp_cmd args) s ≡ (none, r)
      → flush r ≡ (none, t)
      → Delivers p (now t) t chunks s'
      → length chunks ≤ reply_timeout
      → parse_resp_frame (joined chunks) ≡ some (length (joined chunks))
      → send_resp_cmd p debug args s ≡ (ok (from_utf8_lossy (joined chunks)), s')
  unfolding send_resp_cmd
  send_resp_cmd-Delivers args {t = t} w f d few h =
      rw (w, f) (receive-Delivers (now t) (suc reply_timeout) [] d (omega arith) h)
