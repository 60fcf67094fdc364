-- ===== src/Order/Laws.antt =====
-- Comparisons that order their values: reversed, by a key, and one behind another they stay so.
use subdollar_llm_coding_ben.Base.{◌≡◌, ◌≢◌, arith}
use subdollar_llm_coding_ben.Order.{Ordering, then_with, reverse_order, cmp_bool}

-- A total order up to ties: the other way round it is reversed, and what does not come behind passes on.
pub record IsOrder {ℓ} {A : Type ℓ} (cmp : A → A → Ordering) : Type ℓ where
  pub reversed : (a b : A) → cmp b a ≡ reverse_order (cmp a b)
  pub passes : (a b c : A) → cmp a b ≢ Ordering.gt → cmp b c ≢ Ordering.gt → cmp a c ≢ Ordering.gt

module _ {ℓ} {A : Type ℓ} (cmp : A → A → Ordering) (o : IsOrder cmp) where
  pub tie_passes :
      (a b c : A) → cmp a b ≡ Ordering.eq → cmp b c ≡ Ordering.eq → cmp a c ≡ Ordering.eq
  tie_passes a b c h k =
      ground (arith, o.passes a b c, o.passes c b a, o.reversed a b, o.reversed b c, o.reversed a c)

  pub strict_left :
      (a b c : A) → cmp a b ≡ Ordering.lt → cmp b c ≢ Ordering.gt → cmp a c ≡ Ordering.lt
  strict_left a b c h k =
      ground (arith, o.passes a b c, o.passes b c a, o.reversed a b, o.reversed a c)

  pub strict_right :
      (a b c : A) → cmp a b ≢ Ordering.gt → cmp b c ≡ Ordering.lt → cmp a c ≡ Ordering.lt
  strict_right a b c h k =
      ground (arith, o.passes a b c, o.passes c a b, o.reversed b c, o.reversed a c)

pub cmp_bool-IsOrder : IsOrder cmp_bool
cmp_bool-IsOrder = record { reversed = λ a b. ground arith; passes = λ a b c h k. ground arith }

-- The comparison of a key.
pub IsOrder-key {ℓ κ} :
    {A : Type ℓ} {B : Type κ} (cmp : A → A → Ordering) (f : B → A)
    → IsOrder cmp
    → IsOrder (λ a b. cmp (f a) (f b))
IsOrder-key cmp f o = record {
  reversed = λ a b. o.reversed (f a) (f b);
  passes = λ a b c. o.passes (f a) (f b) (f c);
}

-- `b.cmp(a)`: the greatest first.
pub IsOrder-flip {ℓ} :
    {A : Type ℓ} (cmp : A → A → Ordering) → IsOrder cmp → IsOrder (λ a b. cmp b a)
IsOrder-flip cmp o = record {
  reversed = λ a b. o.reversed b a;
  passes = λ a b c h k. o.passes c b a k h;
}

-- `c.then_with(d)`
module _ {ℓ} {A : Type ℓ} (c d : A → A → Ordering) (oc : IsOrder c) (od : IsOrder d) where
  then_reversed : (x y : A) → then_with (c y x) (d y x) ≡ reverse_order (then_with (c x y) (d x y))
  then_reversed x y = ground (arith, oc.reversed x y, od.reversed x y)

  then_passes :
      (x y z : A)
      → then_with (c x y) (d x y) ≢ Ordering.gt
      → then_with (c y z) (d y z) ≢ Ordering.gt
      → then_with (c x z) (d x z) ≢ Ordering.gt
  then_passes x y z h k = ground (
    arith,
    oc.passes x y z,
    od.passes x y z,
    tie_passes c oc x y z,
    strict_left c oc x y z,
    strict_right c oc x y z,
  )

  pub IsOrder-then_with : IsOrder (λ x y. then_with (c x y) (d x y))
  IsOrder-then_with = record { reversed = then_reversed; passes = then_passes }
