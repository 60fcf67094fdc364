-- ===== src/Float.antt =====
-- `f64`: its arithmetic is the machine's and a parameter, of which the theorems name what they need.
use subdollar_llm_coding_ben.Base.{ℕ, ◌*◌, Bool, true, false, Option, some, ltb, ◌==◌}
use subdollar_llm_coding_ben.Order.{Ordering}
use subdollar_llm_coding_ben.Stage.{Rate}

-- `lit n` is the literal nearest to n / 10^8, `of_nat n` is `n as f64`, and `partial_cmp` is `none`
-- where a number is NaN.
pub record F64 : Type 1 where
  pub Num : Type 0
  pub lit : ℕ → Num
  pub of_nat : ℕ → Num
  pub add : Num → Num → Num
  pub sub : Num → Num → Num
  pub mul : Num → Num → Num
  pub div : Num → Num → Num
  pub max : Num → Num → Num
  pub partial_cmp : Num → Num → Option Ordering

-- `<`, `<=` and `>` of an order that two numbers may have.
abbrev pub is_lt : Option Ordering → Bool
is_lt (some Ordering.lt) = true
is_lt _ = false

abbrev pub is_le : Option Ordering → Bool
is_le (some Ordering.lt) = true
is_le (some Ordering.eq) = true
is_le _ = false

abbrev pub is_gt : Option Ordering → Bool
is_gt (some Ordering.gt) = true
is_gt _ = false

-- `pass_rate == 100.0` and `pass_rate < 100.0`, where the rate is a fraction.
abbrev pub is_full : Rate → Bool
is_full r = r.part == 100 * r.whole

abbrev pub below_full : Rate → Bool
below_full r = ltb r.part (100 * r.whole)
