-- ===== src/Order/Sort.antt =====
-- What `sort_by` returns: the same elements, none behind one that it precedes.
use mathlib.Core.List.{Perm}
use mathlib.Core.List.Perm
use subdollar_llm_coding_ben.Base.{◌≡◌, ◌≢◌, refl, List, [], ◌∷◌, ◌⊎◌, inl, inr, arith, All}
use subdollar_llm_coding_ben.Order.{Ordering, insert_by, sort_by}
use subdollar_llm_coding_ben.Order.Laws.{IsOrder}

module _ {ℓ} {A : Type ℓ} (cmp : A → A → Ordering) where
  -- No element stands behind one that comes after it.
  abbrev pub IsSortedBy : List A → Type ℓ
  IsSortedBy [] = Unit
  IsSortedBy (x ∷ xs) = All (λ y. cmp x y ≢ Ordering.gt) xs × IsSortedBy xs

  Ordering-cases : (o : Ordering) → (o ≡ Ordering.gt) ⊎ (o ≢ Ordering.gt)
  Ordering-cases Ordering.gt = inl refl
  Ordering-cases Ordering.eq = inr (λ e. cc)
  Ordering-cases Ordering.lt = inr (λ e. cc)

  insert_in_front :
      (x y : A) (ys : List A) → cmp x y ≢ Ordering.gt → insert_by cmp x (y ∷ ys) ≡ x ∷ y ∷ ys
  unfolding insert_by
  insert_in_front x y ys h = ground arith

  insert_behind :
      (x y : A) (ys : List A)
      → cmp x y ≡ Ordering.gt
      → insert_by cmp x (y ∷ ys) ≡ y ∷ insert_by cmp x ys
  unfolding insert_by
  insert_behind x y ys h = ground arith

  insert_by-perm : (x : A) (ys : List A) → Perm (insert_by cmp x ys) (x ∷ ys)
  insert_by-perm x [] = unfold insert_by in Perm.refl (x ∷ [])
  insert_by-perm x (y ∷ ys) = elim (Ordering-cases (cmp x y)) [
    | inl e ↦
        rw (insert_behind x y ys e)
          (Perm.trans (Perm.cons y (insert_by-perm x ys)) (Perm.swap x y ys))
    | inr e ↦ rw (insert_in_front x y ys e) (Perm.refl (x ∷ y ∷ ys))
  ]

  pub sort_by-perm : (xs : List A) → Perm (sort_by cmp xs) xs
  unfolding sort_by
  sort_by-perm [] = Perm.refl []
  sort_by-perm (x ∷ xs) =
      Perm.trans (insert_by-perm x (sort_by cmp xs)) (Perm.cons x (sort_by-perm xs))

module _ {ℓ} {A : Type ℓ} (cmp : A → A → Ordering) (o : IsOrder cmp) where
  All-insert : (P : A → Type 0) (x : A) (ys : List A) → P x → All P ys → All P (insert_by cmp x ys)
  unfolding insert_by
  All-insert P x [] h _ = (h, tt)
  All-insert P x (y ∷ ys) h (k, ks) = elim (Ordering-cases cmp (cmp x y)) [
    | inl e ↦ rw (insert_behind cmp x y ys e) (k, All-insert P x ys h ks)
    | inr e ↦ rw (insert_in_front cmp x y ys e) (h, (k, ks))
  ]

  All-passes :
      (x y : A) (ys : List A)
      → cmp x y ≢ Ordering.gt
      → All (λ z. cmp y z ≢ Ordering.gt) ys
      → All (λ z. cmp x z ≢ Ordering.gt) ys
  All-passes x y [] h _ = tt
  All-passes x y (z ∷ zs) h (k, ks) = (o.passes x y z h k, All-passes x y zs h ks)

  insert_by-IsSortedBy :
      (x : A) (ys : List A) → IsSortedBy cmp ys → IsSortedBy cmp (insert_by cmp x ys)
  unfolding insert_by
  insert_by-IsSortedBy x [] _ = (tt, tt)
  insert_by-IsSortedBy x (y ∷ ys) (h, hs) = elim (Ordering-cases cmp (cmp x y)) [
    | inl e ↦
        let back : cmp y x ≢ Ordering.gt = ground (arith, o.reversed x y) in
        rw (insert_behind cmp x y ys e)
          (All-insert (λ z. cmp y z ≢ Ordering.gt) x ys back h, insert_by-IsSortedBy x ys hs)
    | inr e ↦ rw (insert_in_front cmp x y ys e) ((e, All-passes x y ys e h), (h, hs))
  ]

  pub sort_by-IsSortedBy : (xs : List A) → IsSortedBy cmp (sort_by cmp xs)
  unfolding sort_by
  sort_by-IsSortedBy [] = tt
  sort_by-IsSortedBy (x ∷ xs) = insert_by-IsSortedBy x (sort_by cmp xs) (sort_by-IsSortedBy xs)
