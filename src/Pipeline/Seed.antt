-- ===== src/Pipeline/Seed.antt =====
-- src/pipeline.rs: `hash_seed`, FNV-1a over 64 bits, folded to 32 and printed in hexadecimal with at least eight digits.
pub mod Whole
use Prim.Native.Nat.{bit_xor}
use subdollar_llm_coding_ben.Base.{
  length, ℕ, zero, suc, ◌+◌, ◌-◌, ◌*◌, ◌/◌, ◌%◌, ◌^◌, [], ◌∷◌, ◌++◌, if◌then◌else◌, ltb,
}
use subdollar_llm_coding_ben.Text.{Text, word}

abbrev pub hash_step : ℕ → ℕ → ℕ
hash_step hash byte = bit_xor hash byte * 0x100000001b3 % word

unfoldable pub hash_bytes : ℕ → Text → ℕ
hash_bytes hash [] = hash
hash_bytes hash (byte ∷ s) = hash_bytes (hash_step hash byte) s

abbrev pub hex_digit : ℕ → ℕ
hex_digit d = if ltb d 10 then b'0' + d else b'a' + (d - 10)

-- `{:x}`: as many digits as the number has. The fuel is at least that many, sixteen for 64 bits.
unfoldable pub lower_hex : ℕ → ℕ → Text
lower_hex zero n = []
lower_hex (suc fuel) n =
    let high = lower_hex fuel (n / 16) in
    if ltb n 16 then hex_digit n ∷ [] else high ++ hex_digit (n % 16) ∷ []

unfoldable pub zeros : ℕ → Text
zeros zero = []
zeros (suc k) = b'0' ∷ zeros k

-- `{:08x}` of at most 64 bits: zeros in front up to eight digits, which is the least width.
unfoldable pub pad_hex : ℕ → Text
unfolding lower_hex zeros
pad_hex n = let digits = lower_hex 16 n in zeros (8 - length digits) ++ digits

unfoldable pub hash_seed : Text → Text
unfolding hash_bytes pad_hex
hash_seed s =
    let hash = hash_bytes 0xcbf29ce484222325 s in pad_hex (bit_xor hash (hash / 2 ^ 32) % 2 ^ 32)
