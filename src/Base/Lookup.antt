-- ===== src/Base/Lookup.antt =====
-- A table as a map from the texts of its key column to its rows.
use mathlib.Core.Path.{◌≡◌, refl, subst, ap}
use mathlib.Core.Logic.{◌↔◌}
use mathlib.Core.Bool.{Bool, true, false, ◌&&◌}
use mathlib.Core.Option.{Option, none, some, some-injective}
use mathlib.Core.List.{List, [], ◌∷◌, ◌++◌}
use native.Mathlib.Omega.{arith}
use onshape_export.Base.Tests.{if◌then◌else◌, Bool-cases}
use mathlib.Core.Logic.{inl, inr}
use onshape_export.Base.Lists.{All, any}
use onshape_export.Base.Texts.{Text, text_eq, text_eq_iff, text_eq_refl}
use onshape_export.Base.Rows.{update_where}
use onshape_export.Base.Unique.{Distinct}

module _ {ℓ} {A : Type ℓ} (column : A → Text) where
  -- SELECT ... WHERE column = ?
  unfoldable pub find_by : Text → List A → Option A
  find_by key [] = none
  find_by key (x ∷ xs) =
      let later = find_by key xs in if text_eq (column x) key then some x else later

  abbrev pub HasUniqueKeys : List A → Type 0
  HasUniqueKeys xs = Distinct (λ a b. text_eq (column a) (column b)) xs

  pub find_by-key : (key : Text) (xs : List A) {x : A} → find_by key xs ≡ some x → column x ≡ key
  unfolding find_by
  find_by-key key [] e = cc
  find_by-key key (y ∷ xs) {x} e =
      ground (arith, text_eq_iff (column y) key, find_by-key key xs {x = x})

  -- Is the key taken?
  pub any-find_by :
      (key : Text) (xs : List A) {x : A}
      → find_by key xs ≡ some x
      → any (λ y. text_eq (column y) key) xs ≡ true
  unfolding find_by
  any-find_by key [] e = cc
  any-find_by key (y ∷ xs) {x} e = ground (arith, any-find_by key xs {x = x})

  pub find_by-append :
      (key : Text) (xs : List A) (z : A)
      → text_eq (column z) key ≡ false
      → find_by key (xs ++ z ∷ []) ≡ find_by key xs
  unfolding find_by
  find_by-append key [] z apart = ground arith
  find_by-append key (y ∷ xs) z apart = ground (arith, find_by-append key xs z apart)

  pub find_by-append-new :
      (key : Text) (xs : List A) (z : A)
      → any (λ y. text_eq (column y) key) xs ≡ false
      → text_eq (column z) key ≡ true
      → find_by key (xs ++ z ∷ []) ≡ some z
  unfolding find_by
  find_by-append-new key [] z new at = ground arith
  find_by-append-new key (y ∷ xs) z new at = ground (arith, find_by-append-new key xs z)

  abbrev pub changed : (A → Bool) → (A → A) → Option A → Option A
  changed p f none = none
  changed p f (some x) = some (if p x then f x else x)

  -- An UPDATE that leaves the key column alone changes each entry of the map for itself.
  pub find_by-update_where :
      (p : A → Bool) (f : A → A)
      → ((x : A) → column (f x) ≡ column x)
      → (key : Text) (xs : List A)
      → find_by key (update_where p f xs) ≡ changed p f (find_by key xs)
  unfolding find_by update_where
  find_by-update_where p f keeps key [] = refl
  find_by-update_where p f keeps key (x ∷ xs) =
      ground (arith, keeps x, find_by-update_where p f keeps key xs)

  others_apart :
      (p : A → Bool) (key : Text) (x : A) (xs : List A)
      → text_eq (column x) key ≡ true
      → All (λ y. text_eq (column x) (column y) ≡ false) xs
      → All (λ y. (text_eq (column y) key && p y) ≡ false) xs
  others_apart p key x [] here h = tt
  others_apart p key x (y ∷ xs) here h = (
    ground (
      arith,
      text_eq_iff (column x) key,
      text_eq_iff (column y) key,
      text_eq_iff (column x) (column y),
      h.0,
    ),
    others_apart p key x xs here h.1,
  )

  -- With unique keys, the rows at the key are the one row that the map has there.
  pub All-find_by :
      (p : A → Bool) (key : Text) (xs : List A)
      → HasUniqueKeys xs
      → ((x : A) → find_by key xs ≡ some x → p x ≡ false)
      → All (λ y. (text_eq (column y) key && p y) ≡ false) xs
  unfolding find_by
  All-find_by p key [] h excluded = tt
  All-find_by p key (y ∷ xs) h excluded = elim (Bool-cases (text_eq (column y) key)) [
    | inl here ↦ (ground (arith, excluded y), others_apart p key y xs here h.0)
    | inr other ↦ (ground arith, All-find_by p key xs h.1 (λ x e. excluded x (rw other e)))
  ]

  shifted :
      (x : A) (xs ys : List A)
      → All (λ y. text_eq (column x) (column y) ≡ false) ys
      → All (λ y. find_by (column y) xs ≡ some y) ys
      → All (λ y. find_by (column y) (x ∷ xs) ≡ some y) ys
  unfolding find_by
  shifted x xs [] apart found = tt
  shifted x xs (y ∷ ys) apart found =
      (ground (arith, apart.0, found.0), shifted x xs ys apart.1 found.1)

  -- With unique keys the map has each row of the table.
  pub All-found : (xs : List A) → HasUniqueKeys xs → All (λ y. find_by (column y) xs ≡ some y) xs
  unfolding find_by
  All-found [] h = tt
  All-found (x ∷ xs) h =
      (ground (arith, text_eq_refl (column x)), shifted x xs xs h.0 (All-found xs h.1))

  -- What holds of all rows holds of the one that is found.
  pub find_by-All {κ} :
      (P : A → Type κ) (key : Text) (xs : List A) {x : A} → All P xs → find_by key xs ≡ some x → P x
  unfolding find_by
  find_by-All P key [] h e = absurd (cc e)
  find_by-All P key (y ∷ xs) {x} h e = elim (Bool-cases (text_eq (column y) key)) [
    | inl here ↦ let same : y ≡ x = ground (arith, e) in subst P same h.0
    | inr other ↦ find_by-All P key xs h.1 (ground (arith, e))
  ]

-- `==` on two optional strings.
unfoldable pub optional_text_eq : Option Text → Option Text → Bool
optional_text_eq none none = true
optional_text_eq (some a) (some b) = text_eq a b
optional_text_eq _ _ = false

pub optional_text_eq_iff : (a b : Option Text) → (optional_text_eq a b ≡ true) ↔ (a ≡ b)
unfolding optional_text_eq
optional_text_eq_iff none none = (λ _. refl, λ _. refl)
optional_text_eq_iff none (some b) = (λ e. absurd (cc e), λ e. absurd (cc e))
optional_text_eq_iff (some a) none = (λ e. absurd (cc e), λ e. absurd (cc e))
optional_text_eq_iff (some a) (some b) =
    (λ e. ap some ((text_eq_iff a b).0 e), λ e. (text_eq_iff a b).1 (some-injective a b e))
