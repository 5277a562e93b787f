-- ===== src/Failure/Safe.antt =====
-- No diagnostic that `new` and `operation` make holds anything but short, safe ASCII.
use onshape_export.Base.{
  ℕ, zero, suc, ◌≤◌, ◌≡◌, refl, Text, text, bytes, Bool, true, false, Option, none, some, List, [],
  ◌∷◌, arith, if◌then◌else◌, all, is_empty, length, take, filter_by, is_ascii_graphic, All,
}
use onshape_export.Failure.{
  FailureKind, SafeDiagnostic, ApiFailure, is_code_byte, safe_code_text, failure_text, new,
  operation,
}

module _ {ℓ} {A : Type ℓ} (p : A → Bool) where
  all-filter_by : (xs : List A) → all p (filter_by p xs) ≡ true
  all-filter_by [] = refl
  all-filter_by (x ∷ xs) = ground (arith, all-filter_by xs)

  all-take : (n : ℕ) (xs : List A) → all p xs ≡ true → all p (take n xs) ≡ true
  all-take zero xs h = refl
  all-take (suc n) [] h = refl
  all-take (suc n) (x ∷ xs) h = ground (arith, all-take n xs)

length-take-le {ℓ} : {A : Type ℓ} (n : ℕ) (xs : List A) → length (take n xs) ≤ n
length-take-le zero xs = omega arith
length-take-le (suc n) [] = omega arith
length-take-le (suc n) (x ∷ xs) = omega (arith, length-take-le n xs)

-- The text is of safe characters, and short: what `Display` asks of a code before it prints it.
abbrev pub IsSafeCode : Text → Type 0
IsSafeCode code = (is_empty code ≡ false) × (length code ≤ 128) × (all is_code_byte code ≡ true)

abbrev pub IsSafeOperation : Option Text → Type 0
IsSafeOperation none = Unit
IsSafeOperation (some name) = (length name ≤ 128) × (all is_ascii_graphic name ≡ true)

code_of :
    (code : Text) (b : Bool)
    → is_empty (safe_code_text code) ≡ b
    → IsSafeCode (if b then failure_text else safe_code_text code)
unfolding failure_text text
code_of code true e = (refl, omega arith, refl)
code_of code false e = (
  e,
  length-take-le 128 (filter_by is_code_byte (bytes code)),
  all-take is_code_byte 128 (filter_by is_code_byte (bytes code))
      (all-filter_by is_code_byte (bytes code)),
)

abbrev pub HasSafeDiagnostics : ApiFailure → Type 0
HasSafeDiagnostics f =
    All (λ (d : SafeDiagnostic). IsSafeCode d.code × IsSafeOperation d.operation) f.diagnostics

-- Whatever code and operation text is handed in, the diagnostics hold a code of 1 to 128 lowercase
-- letters, digits, and `_.-`, and an operation of at most 128 visible ASCII characters.
pub new-operation-HasSafeDiagnostics :
    (kind : FailureKind) (code name : Text)
    → HasSafeDiagnostics (new kind code) × HasSafeDiagnostics (operation name (new kind code))
unfolding new operation
new-operation-HasSafeDiagnostics kind code name =
    let safe = code_of code (is_empty (safe_code_text code)) refl in
    (
      ((safe, tt), tt),
      (
        (
          safe,
          (
            length-take-le 128 (filter_by is_ascii_graphic (bytes name)),
            all-take is_ascii_graphic 128 (filter_by is_ascii_graphic (bytes name))
                (all-filter_by is_ascii_graphic (bytes name)),
          ),
        ),
        tt,
      ),
    )
