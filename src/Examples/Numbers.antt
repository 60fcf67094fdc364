-- ===== src/Examples/Numbers.antt =====
-- Numbers with eight decimals and no rounding up, in place of `f64`.
use Prim.Native.Nat.{compare}
use subdollar_llm_coding_ben.Base.{ℕ, ◌+◌, ◌-◌, ◌*◌, ◌/◌, refl, some, arith, if◌then◌else◌, leb}
use subdollar_llm_coding_ben.Order.Laws.{IsOrder}
use subdollar_llm_coding_ben.Float.{F64}
use subdollar_llm_coding_ben.Cost.Scores.{ZeroIsLe}

abbrev pub scale : ℕ
scale = 100000000

abbrev pub decimals : F64
decimals = record {
  Num = ℕ;
  lit = λ n. n;
  of_nat = λ n. scale * n;
  add = λ a b. a + b;
  sub = λ a b. a - b;
  mul = λ a b. a * b / scale;
  div = λ a b. a * scale / b;
  max = λ a b. if leb a b then b else a;
  partial_cmp = λ a b. some (compare a b);
}

pub decimals-IsOrder : IsOrder compare
decimals-IsOrder = record { reversed = λ a b. ground arith; passes = λ a b c h k. ground arith }

pub decimals-ZeroIsLe : ZeroIsLe decimals
decimals-ZeroIsLe = refl
