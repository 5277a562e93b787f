-- ===== src/Base/Unique.antt =====
-- Lists without repetition under a Boolean test, as the program checks them with a `HashSet`.
use mathlib.Core.Path.{◌≡◌, refl}
use mathlib.Core.Bool.{Bool, true, false, not, ◌&&◌}
use mathlib.Core.Logic.{◌↔◌}
use mathlib.Core.List.{List, [], ◌∷◌, ◌++◌}
use native.Mathlib.Omega.{arith}
use onshape_export.Base.Lists.{All, any, All-append}

module _ {ℓ} {A : Type ℓ} (eq : A → A → Bool) where
  -- No item equals a later one.
  abbrev pub Distinct : List A → Type 0
  Distinct [] = Unit
  Distinct (x ∷ xs) = All (λ y. eq x y ≡ false) xs × Distinct xs

  pub Distinct-snoc :
      (xs : List A) (z : A) → Distinct xs → any (λ y. eq y z) xs ≡ false → Distinct (xs ++ z ∷ [])
  Distinct-snoc [] z h new = (tt, tt)
  Distinct-snoc (x ∷ xs) z h new = (
    All-append (λ y. eq x y ≡ false) xs (z ∷ []) h.0 (ground arith, tt),
    Distinct-snoc xs z h.1 (ground arith),
  )

  -- `seen.insert(x)` over a list: is every item new to the set and to the items before it?
  unfoldable pub all_new : List A → List A → Bool
  all_new seen [] = true
  all_new seen (x ∷ xs) = not (any (λ y. eq y x) seen) && all_new (x ∷ seen) xs

  pub all_new-cons :
      (seen : List A) (x : A) (xs : List A)
      → (all_new seen (x ∷ xs) ≡ true)
        ↔ ((any (λ y. eq y x) seen ≡ false) × (all_new (x ∷ seen) xs ≡ true))
  unfolding all_new
  all_new-cons seen x xs = ground arith

  abbrev pub NewTo : List A → List A → Type 0
  NewTo seen xs = All (λ x. any (λ y. eq y x) seen ≡ false) xs

  NewTo-cons :
      (seen : List A) (z : A) (xs : List A)
      → NewTo (z ∷ seen) xs ↔ (All (λ y. eq z y ≡ false) xs × NewTo seen xs)
  NewTo-cons seen z [] = (λ h. (tt, tt), λ h. tt)
  NewTo-cons seen z (x ∷ xs) =
      let ih = NewTo-cons seen z xs in
      (
        λ h.
            let later = ih.0 h.1 in
            ((ground (arith, h.0), later.0), (ground (arith, h.0), later.1)),
        λ h. (ground (arith, h.0.0, h.1.0), ih.1 (h.0.1, h.1.1)),
      )

  -- The walk succeeds exactly on lists that repeat nothing, neither the set's items nor their own.
  pub all_new_iff : (seen xs : List A) → (all_new seen xs ≡ true) ↔ (NewTo seen xs × Distinct xs)
  unfolding all_new
  all_new_iff seen [] = (λ h. (tt, tt), λ h. refl)
  all_new_iff seen (x ∷ xs) =
      let ih = all_new_iff (x ∷ seen) xs in
      let step = NewTo-cons seen x xs in
      (
        λ h.
            let later = ih.0 (ground arith) in
            let parts = step.0 later.0 in ((ground arith, parts.1), (parts.0, later.1)),
        λ h. let later = ih.1 (step.1 (h.1.0, h.0.1), h.1.1) in ground (arith, h.0.0),
      )
