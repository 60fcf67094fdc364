-- ===== src/Order.antt =====
-- `std::cmp::Ordering` with `reverse` and `then_with`, and `sort_by`, which is stable.
pub mod Laws
pub mod Sort
use Prim.Native.Nat.{compare}
pub use Prim.Native.Nat.{Ordering}
use subdollar_llm_coding_ben.Base.{ℕ, Bool, true, false, Option, none, some, List, [], ◌∷◌}

abbrev pub then_with : Ordering → Ordering → Ordering
then_with Ordering.lt o = Ordering.lt
then_with Ordering.eq o = o
then_with Ordering.gt o = Ordering.gt

abbrev pub reverse_order : Ordering → Ordering
reverse_order Ordering.lt = Ordering.gt
reverse_order Ordering.eq = Ordering.eq
reverse_order Ordering.gt = Ordering.lt

-- `false.cmp(&true)` is less.
abbrev pub cmp_bool : Bool → Bool → Ordering
cmp_bool false true = Ordering.lt
cmp_bool true false = Ordering.gt
cmp_bool true true = Ordering.eq
cmp_bool false false = Ordering.eq

-- `.unwrap_or(Ordering::Equal)`
abbrev pub or_equal : Option Ordering → Ordering
or_equal none = Ordering.eq
or_equal (some o) = o

module _ {ℓ} {A : Type ℓ} (cmp : A → A → Ordering) where
  -- An element goes in front of those that it does not follow.
  unfoldable pub insert_by : A → List A → List A
  insert_by x [] = x ∷ []
  insert_by x (y ∷ ys) = elim (cmp x y) [
    | Ordering.gt ↦ y ∷ insert_by x ys
    | Ordering.eq ↦ x ∷ y ∷ ys
    | Ordering.lt ↦ x ∷ y ∷ ys
  ]

  -- `list.sort_by(cmp)`
  unfoldable pub sort_by : List A → List A
  unfolding insert_by
  sort_by [] = []
  sort_by (x ∷ xs) = insert_by x (sort_by xs)
