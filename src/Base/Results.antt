-- ===== src/Base/Results.antt =====
-- Fallible code: `Result` with the program's `?` as bind, and `ensure!`.
use mathlib.Core.Path.{◌≡◌, refl, ap, ◌∙◌}
use mathlib.Core.Bool.{Bool, true, false}
use mathlib.Core.Option.{Option, none, some}
use mathlib.Core.Logic.{◌↔◌, ◌≢◌}
use mathlib.Core.List.{List, [], ◌∷◌}
use onshape_export.Base.Lists.{All}

pub data Result {ℓ κ} (E : Type ℓ) (A : Type κ) : Type (ℓ ⊔ κ) where
  ok : A → Result E A
  err : E → Result E A

infixl 5 ◌>>=◌ ◌>>◌
abbrev pub ◌>>=◌ {ℓ κ} :
    {E : Type 0} {A : Type ℓ} {B : Type κ} → Result E A → (A → Result E B) → Result E B
ok value >>= next = next value
err failure >>= next = err failure

abbrev pub ◌>>◌ {ℓ} : {E : Type 0} {B : Type ℓ} → Result E (Unit {0}) → Result E B → Result E B
m >> k = m >>= λ _. k

abbrev pub ensure : {E : Type 0} → Bool → E → Result E (Unit {0})
ensure true e = ok tt
ensure false e = err e

-- `if let Some(value) = option { check(value)?; }`
abbrev pub for_some {ℓ} :
    {E : Type 0} {A : Type ℓ} → Option A → (A → Result E (Unit {0})) → Result E (Unit {0})
for_some none check = ok tt
for_some (some a) check = check a

pub >>-eq-ok {ℓ} :
    {E : Type 0} {B : Type ℓ} (m : Result E (Unit {0})) (k : Result E B) {b : B}
    → (m >> k) ≡ ok b
    → (m ≡ ok tt) × (k ≡ ok b)
>>-eq-ok (ok tt) k h = (refl, h)
>>-eq-ok (err e) k h = cc

-- `for item in items { check(item)?; }`
unfoldable pub for_each {ℓ} :
    {E : Type 0} {A : Type ℓ} → (A → Result E (Unit {0})) → List A → Result E (Unit {0})
for_each check [] = ok tt
for_each check (x ∷ xs) = check x >> for_each check xs

pub for_each-ok_iff {ℓ} :
    {E : Type 0} {A : Type ℓ} (check : A → Result E (Unit {0})) (xs : List A)
    → (for_each check xs ≡ ok tt) ↔ All (λ x. check x ≡ ok tt) xs
unfolding for_each
for_each-ok_iff check [] = (λ h. tt, λ h. refl)
for_each-ok_iff check (x ∷ xs) =
    let ih = for_each-ok_iff check xs in
    (
      λ h. let parts = >>-eq-ok (check x) (for_each check xs) h in (parts.0, ih.0 parts.1),
      λ h. rw (h.0) (ih.1 h.1),
    )

-- A chain succeeds when its first step does and the rest succeeds on what that yields.
pub >>=-eq-ok {ℓ κ} :
    {E : Type 0} {A : Type ℓ} {B : Type κ} (first : Result E A) (rest : A → Result E B) {out : B}
    → (first >>= rest) ≡ ok out
    → (mid : A) × (first ≡ ok mid) × (rest mid ≡ ok out)
>>=-eq-ok (ok mid) rest done = (mid, refl, done)
>>=-eq-ok (err failure) rest done = cc

pub ensure-eq-ok : {E : Type 0} (b : Bool) (e : E) → ensure b e ≡ ok tt → b ≡ true
ensure-eq-ok true e h = refl
ensure-eq-ok false e h = cc

-- Code that cannot fail in one particular way.
module _ {E : Type 0} (e : E) where
  pub >>-ne-err {ℓ} :
      {B : Type ℓ} (m : Result E (Unit {0})) (k : Result E B)
      → m ≢ err e
      → k ≢ err e
      → (m >> k) ≢ err e
  >>-ne-err (ok tt) k no_m no_k = no_k
  >>-ne-err (err x) k no_m no_k = λ h. no_m (cc h)

  pub ensure-ne-err : (b : Bool) (x : E) → x ≢ e → ensure b x ≢ err e
  ensure-ne-err true x other = λ h. cc h
  ensure-ne-err false x other = λ h. other (cc h)

  pub for_some-ne-err {ℓ} :
      {A : Type ℓ} (o : Option A) (check : A → Result E (Unit {0}))
      → ((a : A) → check a ≢ err e)
      → for_some o check ≢ err e
  for_some-ne-err none check h = λ k. cc k
  for_some-ne-err (some a) check h = h a

  pub for_each-ne-err {ℓ} :
      {A : Type ℓ} (check : A → Result E (Unit {0})) (xs : List A)
      → ((a : A) → check a ≢ err e)
      → for_each check xs ≢ err e
  unfolding for_each
  for_each-ne-err check [] h = λ k. cc k
  for_each-ne-err check (x ∷ xs) h = >>-ne-err (check x) _ (h x) (for_each-ne-err check xs h)

-- A chain goes on with the value of its first step.
pub >>=-ok {ℓ κ} :
    {E : Type 0} {A : Type ℓ} {B : Type κ} {first : Result E A} (rest : A → Result E B) {mid : A}
    {out : Result E B}
    → first ≡ ok mid
    → rest mid ≡ out
    → (first >>= rest) ≡ out
>>=-ok rest e done = ap (λ x. x >>= rest) e ∙ done

pub >>-ok {ℓ} :
    {E : Type 0} {B : Type ℓ} {first : Result E (Unit {0})} {second out : Result E B}
    → first ≡ ok tt
    → second ≡ out
    → (first >> second) ≡ out
>>-ok {second = second} e done = ap (λ x. x >> second) e ∙ done
