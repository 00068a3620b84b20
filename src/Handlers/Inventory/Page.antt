-- ===== src/Handlers/Inventory/Page.antt =====
-- The slice of a page (handlers/inventory.go).
use zerohttp_example.Base.{
  ℕ, suc, ◌+◌, ◌-◌, ◌<◌, ◌≤◌, ◌^◌, ◌≡◌, ◌∙◌, sym, refl, ap, inl, inr, Bool-cases, some, List, [],
  ◌∷◌, length, take, drop, arith, zero,
}
use zerohttp_example.Base.Int.{pos, add_int-pos, ltb_ℤ}
use zerohttp_example.Handlers.Inventory.{slice, page_of}

module _ {ℓ} {A : Type ℓ} where
  take_all : (n : ℕ) (xs : List A) → length xs ≤ n → take n xs ≡ xs
  take_all zero [] h = refl
  take_all (suc n) [] h = refl
  take_all zero (x ∷ xs) h = absurd (omega arith)
  take_all (suc n) (x ∷ xs) h = ap (◌∷◌ x) (take_all n xs (omega arith))

  take_none : (n : ℕ) → take {A = A} n [] ≡ []
  take_none zero = refl
  take_none (suc n) = refl

  drop_all : (n : ℕ) (xs : List A) → length xs ≤ n → drop n xs ≡ []
  drop_all zero [] h = refl
  drop_all (suc n) [] h = refl
  drop_all zero (x ∷ xs) h = absurd (omega arith)
  drop_all (suc n) (x ∷ xs) h = drop_all n xs (omega arith)

  length-drop : (n : ℕ) (xs : List A) → length (drop n xs) ≡ length xs - n
  length-drop zero xs = omega arith
  length-drop (suc n) [] = omega arith
  length-drop (suc n) (x ∷ xs) = omega (arith, length-drop n xs)

slice-within :
    {A : Type 0} (xs : List A) (lo hi : ℕ)
    → lo ≤ hi
    → hi ≤ length xs
    → slice xs (pos lo) (pos hi) ≡ some (take (hi - lo) (drop lo xs))
unfolding slice
slice-within xs lo hi h k = ground arith

-- Whatever the numbers, a page from a non-negative offset does not panic and holds the items from
-- the offset on, as many as a page has; where the sum of offset and page size is an `int`.
pub page_of-take-drop :
    {A : Type 0} (xs : List A) (o p : ℕ)
    → o + p < 2 ^ 63
    → page_of xs (pos o) (pos p) ≡ some (take p (drop o xs))
unfolding page_of
page_of-take-drop xs o p h =
    let rest = length-drop o xs in
    rw (add_int-pos o p h) (elim (Bool-cases (ltb_ℤ (pos o) (pos (length xs)))) [
      | inl e ↦ rw e (elim (Bool-cases (ltb_ℤ (pos (length xs)) (pos (o + p)))) [
        | inl f ↦ rw f (
            slice-within xs o (length xs) (ground arith) (omega arith)
            ∙ ap some (
                take_all (length xs - o) (drop o xs) (omega arith)
                ∙ sym (take_all p (drop o xs) (ground arith))))
        | inr f ↦ rw f (
            slice-within xs o (o + p) (omega arith) (ground arith)
            ∙ ap (λ n. some (take n (drop o xs))) (omega arith))
      ])
      | inr e ↦ rw e (ap some (sym (ap (take p) (drop_all o xs (ground arith)) ∙ take_none p)))
    ])
