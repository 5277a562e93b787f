-- ===== src/Base/Rows.antt =====
-- UPDATE ... WHERE on the rows of a table, and what it keeps.
use Prim.Native.Nat.{ℕ, ◌+◌}
use mathlib.Core.Path.{◌≡◌, refl, subst}
use mathlib.Core.Bool.{Bool, true, false}
use mathlib.Core.List.{List, [], ◌∷◌}
use native.Mathlib.Omega.{arith}
use onshape_export.Base.Tests.{if◌then◌else◌}
use onshape_export.Base.Lists.{All}
use onshape_export.Base.Unique.{Distinct}

module _ {ℓ} {A : Type ℓ} where
  unfoldable pub update_where : (A → Bool) → (A → A) → List A → List A
  update_where p f [] = []
  update_where p f (x ∷ xs) = (if p x then f x else x) ∷ update_where p f xs

  -- `rows_affected()`
  unfoldable pub affected : (A → Bool) → List A → ℕ
  affected p [] = 0
  affected p (x ∷ xs) = (if p x then 1 else 0) + affected p xs

  -- `ON CONFLICT`: is there a row that the test picks?
  pub affected_none : (p : A → Bool) (xs : List A) → All (λ x. p x ≡ false) xs → affected p xs ≡ 0
  unfolding affected
  affected_none p [] h = refl
  affected_none p (x ∷ xs) h = ground (arith, affected_none p xs h.1)

  pub update_where_none :
      (p : A → Bool) (f : A → A) (xs : List A) → affected p xs ≡ 0 → update_where p f xs ≡ xs
  unfolding affected update_where
  update_where_none p f [] h = refl
  update_where_none p f (x ∷ xs) h = ground (arith, update_where_none p f xs)

module _ {ℓ κ} {A : Type ℓ} (P : A → Type κ) where
  -- What the updated rows and the rows left alone all satisfy holds of the table.
  pub update_where-All :
      (p : A → Bool) (f : A → A) (xs : List A)
      → ((x : A) → P x → p x ≡ true → P (f x))
      → All P xs
      → All P (update_where p f xs)
  unfolding update_where
  update_where-All p f [] keep h = tt
  update_where-All p f (x ∷ xs) keep h = (pick (p x) (keep x h.0), update_where-All p f xs keep h.1)
    where
      pick : (b : Bool) → (b ≡ true → P (f x)) → P (if b then f x else x)
      pick true k = k refl
      pick false k = h.0

-- A column that the update leaves alone stays free of repetitions.
module _ {ℓ} {A : Type ℓ} {K : Type 0} (eq : K → K → Bool) (column : A → K) where
  column_apart :
      (p : A → Bool) (f : A → A) (keeps : (x : A) → column (f x) ≡ column x) (k : K) (xs : List A)
      → All (λ y. eq k (column y) ≡ false) xs
      → All (λ y. eq k (column y) ≡ false) (update_where p f xs)
  column_apart p f keeps k xs h =
      update_where-All (λ y. eq k (column y) ≡ false) p f xs (λ x e _. rw keeps e) h

  column_same :
      (p : A → Bool) (f : A → A) (keeps : (x : A) → column (f x) ≡ column x) (x : A)
      → column x ≡ column (if p x then f x else x)
  column_same p f keeps x = ground (arith, keeps x)

  pub update_where-Distinct :
      (p : A → Bool) (f : A → A) (keeps : (x : A) → column (f x) ≡ column x) (xs : List A)
      → Distinct (λ a b. eq (column a) (column b)) xs
      → Distinct (λ a b. eq (column a) (column b)) (update_where p f xs)
  unfolding update_where
  update_where-Distinct p f keeps [] h = tt
  update_where-Distinct p f keeps (x ∷ xs) h = (
    subst (λ k. All (λ y. eq k (column y) ≡ false) (update_where p f xs)) (column_same p f keeps x)
        (column_apart p f keeps (column x) xs h.0),
    update_where-Distinct p f keeps xs h.1,
  )
