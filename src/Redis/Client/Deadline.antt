-- ===== src/Redis/Client/Deadline.antt =====
-- The reply loop ends by its deadline: the fuel is enough wherever the clock moves on.
use subdollar_llm_coding_ben.Base.{
  ℕ, zero, suc, ◌+◌, ◌-◌, ◌<◌, ◌≤◌, ◌≡◌, refl, sym, [], ◌∷◌, ◌++◌, arith,
}
use subdollar_llm_coding_ben.Text.{Text, Bytes}
use subdollar_llm_coding_ben.Stage.{Result}
use subdollar_llm_coding_ben.Redis.Client.{
  Received, bytes, failed, late, Peer, Ticks, reply_timeout, after_read, receive,
}

module _ (p : Peer) (debug : Text → Text) where
  open p use {State, now, read}

  -- Two versions of the next round agree from the time `t` on.
  after_read-agree :
      (f g : Bytes → State → Result Text × State) (t : ℕ)
      → ((buf : Bytes) (s : State) → t < now s → f buf s ≡ g buf s)
      → (buf : Bytes) (r : Received × State) → t < now r.1
      → after_read p debug f buf r ≡ after_read p debug g buf r
  unfolding after_read
  after_read-agree f g t same buf (late, s) h = refl
  after_read-agree f g t same buf (failed e, s) h = refl
  after_read-agree f g t same buf (bytes [], s) h = refl
  after_read-agree f g t same buf (bytes (c ∷ cs), s) h = same (buf ++ c ∷ cs) s h

  -- Past the deadline no fuel is used.
  receive_expired :
      (fuel start : ℕ) (buf : Bytes) (s : State)
      → start + reply_timeout ≤ now s
      → receive p debug fuel start buf s ≡ receive p debug 0 start buf s
  unfolding receive
  receive_expired zero start buf s h = refl
  receive_expired (suc fuel) start buf s h = ground arith

  -- A round turns on what `after_read` returns.
  receive_round :
      (m n start : ℕ) (buf : Bytes) (s : State)
      → (let r = read (reply_timeout - (now s - start)) s in
          after_read p debug (receive p debug m start) buf r
          ≡ after_read p debug (receive p debug n start) buf r)
      → receive p debug (suc m) start buf s ≡ receive p debug (suc n) start buf s
  unfolding receive
  receive_round m n start buf s same = rw same

  module _ (ticks : Ticks p) where
    receive-agree :
        (m n start : ℕ) (buf : Bytes) (s : State)
        → start + reply_timeout < now s + m
        → start + reply_timeout < now s + n
        → start ≤ now s
        → receive p debug m start buf s ≡ receive p debug n start buf s
    receive-agree zero n start buf s hm hn h = sym (receive_expired n start buf s (omega arith))
    receive-agree (suc m) zero start buf s hm hn h =
        receive_expired (suc m) start buf s (omega arith)
    receive-agree (suc m) (suc n) start buf s hm hn h =
        let r = read (reply_timeout - (now s - start)) s in
        receive_round m n start buf s (
          after_read-agree (receive p debug m start) (receive p debug n start) (now s)
            (λ buf' s' lt.
              receive-agree m n start buf' s' (omega arith) (omega arith) (omega arith))
            buf r (ticks _ s))

  -- The loop ends: more fuel than there are nanoseconds to the deadline never changes the reply.
  pub receive_fuel :
      (fuel : ℕ) (s : State)
      → Ticks p
      → reply_timeout < fuel
      → receive p debug fuel (now s) [] s ≡ receive p debug (suc reply_timeout) (now s) [] s
  receive_fuel fuel s ticks h =
      receive-agree ticks fuel (suc reply_timeout) (now s) [] s (omega arith) (omega arith)
        (omega arith)
