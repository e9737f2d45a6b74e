-- ===== src/Prelude/Sums.antt =====
-- Sums of signed amounts over a list.
use ikiot_be.Prelude.{
  ◌≡◌, refl, ap, ◌∙◌, Bool, List, [], ◌∷◌, ◌++◌, insert_by, sort_by, Bool-cases, inl, inr,
}
use ikiot_be.Prelude.Int.{ℤ, pos, ◌+ℤ◌, int_laws}

module _ {ℓ} {A : Type ℓ} where
  abbrev pub sum_ℤ : (A → ℤ) → List A → ℤ
  sum_ℤ f [] = pos 0
  sum_ℤ f (x ∷ xs) = f x +ℤ sum_ℤ f xs

module _ {ℓ} {A : Type ℓ} (f : A → ℤ) where
  pub sum_ℤ-append : (xs ys : List A) → sum_ℤ f (xs ++ ys) ≡ sum_ℤ f xs +ℤ sum_ℤ f ys
  sum_ℤ-append [] ys = omega int_laws
  sum_ℤ-append (x ∷ xs) ys = rw (sum_ℤ-append xs ys) (omega int_laws)

  sum_ℤ-insert_by :
      (before : A → A → Bool) (x : A) (ys : List A)
      → sum_ℤ f (insert_by before x ys) ≡ f x +ℤ sum_ℤ f ys
  unfolding insert_by
  sum_ℤ-insert_by before x [] = refl
  sum_ℤ-insert_by before x (y ∷ ys) = elim (Bool-cases (before y x)) [
    | inl e ↦ rw (e, sum_ℤ-insert_by before x ys) (omega int_laws)
    | inr e ↦ rw e refl
  ]

  pub sum_ℤ-sort_by :
      (before : A → A → Bool) (xs : List A) → sum_ℤ f (sort_by before xs) ≡ sum_ℤ f xs
  unfolding sort_by
  sum_ℤ-sort_by before [] = refl
  sum_ℤ-sort_by before (x ∷ xs) =
      sum_ℤ-insert_by before x (sort_by before xs) ∙ ap (λ s. f x +ℤ s) (sum_ℤ-sort_by before xs)
