-- ===== src/Pipeline/Seed/Whole.antt =====
-- The seed of a run, as the verifiers read it.
use Prim.Native.Nat.{bit_xor}
use subdollar_llm_coding_ben.Base.{
  inl, inr, ltb, Bool-cases, lt→ltb, ◌^◌, ℕ, zero, suc, ◌+◌, ◌-◌, ◌/◌, ◌%◌, ◌≡◌, ◌≤◌, ◌<◌, refl, ap,
  ◌∙◌, some, [], ◌∷◌, length, length-append, arith,
}
use subdollar_llm_coding_ben.Text.{Text}
use subdollar_llm_coding_ben.Redis.Session.{get_seed_prefix}
use subdollar_llm_coding_ben.Pipeline.Seed.{
  zeros, hash_bytes, hex_digit, lower_hex, pad_hex, hash_seed,
}

-- A number under 16 ^ k is printed with at most k digits.
length-lower_hex : (fuel k n : ℕ) → n < 16 ^ suc k → length (lower_hex fuel n) ≤ suc k
unfolding lower_hex
length-lower_hex zero k n h = omega arith
length-lower_hex (suc fuel) zero n h = rw (lt→ltb n 16 (omega (arith, h))) (omega arith)
length-lower_hex (suc fuel) (suc k) n h = elim (Bool-cases (ltb n 16)) [
  | inl e ↦ rw (e) (omega arith)
  | inr e ↦
      let high = length-lower_hex fuel k (n / 16) (omega (arith, h)) in
      rw (e, length-append (lower_hex fuel (n / 16)) (hex_digit (n % 16) ∷ []))
        (omega (arith, high))
]

length-zeros : (k : ℕ) → length (zeros k) ≡ k
unfolding zeros
length-zeros zero = refl
length-zeros (suc k) = omega (arith, length-zeros k)

length-pad_hex : (n : ℕ) → n < 2 ^ 32 → length (pad_hex n) ≡ 8
unfolding pad_hex
length-pad_hex n h =
    let digits = lower_hex 16 n in
    length-append (zeros (8 - length digits)) digits
    ∙ ap (λ l. l + length digits) (length-zeros (8 - length digits))
    ∙ omega (arith, length-lower_hex 16 7 n h)

-- A seed of one to eight bytes is its own prefix.
get_seed_prefix-whole :
    (seed default : Text)
    → 1 ≤ length seed
    → length seed ≤ 8
    → get_seed_prefix (some seed) default ≡ seed
unfolding get_seed_prefix
get_seed_prefix-whole [] default low high = absurd (omega arith)
get_seed_prefix-whole (c ∷ seed) default low high = ground arith

length-hash_seed : (run_id : Text) → length (hash_seed run_id) ≡ 8
unfolding hash_seed
length-hash_seed run_id =
    let hash = hash_bytes 0xcbf29ce484222325 run_id in
    length-pad_hex (bit_xor hash (hash / 2 ^ 32) % 2 ^ 32) (omega arith)

-- The seed that execute makes of a run id has eight digits, and the verifiers use it whole: get_seed_prefix
-- cuts nothing off and never falls back to the default.
pub get_seed_prefix-hash_seed :
    (run_id default : Text)
    → (length (hash_seed run_id) ≡ 8)
      × (get_seed_prefix (some (hash_seed run_id)) default ≡ hash_seed run_id)
get_seed_prefix-hash_seed run_id default =
    let eight = length-hash_seed run_id in
    (
      eight,
      get_seed_prefix-whole (hash_seed run_id) default (omega (arith, eight))
          (omega (arith, eight)),
    )
