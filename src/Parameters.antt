-- ===== src/Parameters.antt =====
-- The parameters of a model, src/parameters.rs: overrides by the catalog, and the validation of submitted
-- values. A HashMap that is only looked up is a function; one that is gone through is its list of entries.
pub mod Collected
pub mod Accepted
pub mod Fits
pub mod Kinds
pub mod Fitted
pub mod Numbers
pub mod Decimals
pub mod Quantities
pub mod Trimmed
pub mod Factors
pub mod Division
pub mod Printed
pub mod Reread
pub mod Values
pub mod Roundtrip
pub mod Units
pub mod Canonical
pub mod Agreement
pub mod Stored
mod Fractions
mod Tests
mod NumberTests
use onshape_export.Base.{
  ℕ, Text, text, text_eq, Bool, true, false, not, ◌&&◌, ◌||◌, Option, none, some, List, [], ◌∷◌,
  ◌++◌, map, any, find_by, is_empty, is_none, Result, ok, err, if◌then◌else◌,
}
use onshape_export.Catalog.{ParameterOverride}

pub data ParameterKind : Type 0 where
  plain_text number boolean enumeration unsupported_kind : ParameterKind

pub record ParameterOption : Type 0 where
  pub value : Text
  pub label : Text

-- Without the visibility condition and the raw JSON, which validation does not read.
pub record Parameter : Type 0 where
  pub id : Text
  pub label : Text
  pub description : Option Text
  pub kind : ParameterKind
  pub required : Bool
  pub default_value : Option Text
  pub options : List ParameterOption
  pub hidden : Bool
  pub precision : Option ℕ
  pub widget : Option Text
  pub units : Option Text

pub data QuantityDimension : Type 0 where
  length_dimension angle_dimension : QuantityDimension

pub data CanonicalParameterValue : Type 0 where
  text_value enum_value : Text → CanonicalParameterValue
  number_value : Text → Text → CanonicalParameterValue
  quantity_value : QuantityDimension → Text → Text → Text → CanonicalParameterValue
  boolean_value : Bool → CanonicalParameterValue

pub record ValidatedConfiguration : Type 0 where
  pub values : Text → Option Text
  pub typed_values : Text → Option CanonicalParameterValue

abbrev pub or_kept : {A : Type 0} → Option A → A → A
or_kept none kept = kept
or_kept (some a) kept = a

abbrev pub or_else : {A : Type 0} → Option A → Option A → Option A
or_else none other = other
or_else (some a) other = some a

abbrev pub overridden : Parameter → Option ParameterOverride → Parameter
overridden p none = p
overridden p (some o) = record p {
  label = or_kept o.label p.label;
  description = or_else o.description p.description;
  hidden = o.hidden || p.hidden;
  precision = or_else o.precision p.precision;
  widget = or_else o.widget p.widget;
}

unfoldable pub apply_overrides : (Text → Option ParameterOverride) → List Parameter → List Parameter
apply_overrides overrides [] = []
apply_overrides overrides (p ∷ parameters) =
    overridden p (overrides p.id) ∷ apply_overrides overrides parameters

unfoldable pub normalize_bool : Text → Text
normalize_bool value =
    if text_eq value (text "on") || text_eq value (text "1")
    then text "true"
    else if text_eq value (text "0")
    then text "false"
    else value

abbrev pub is_boolean : Text → Bool
is_boolean value =
    any (text_eq value) (text "true" ∷ text "false" ∷ text "on" ∷ text "0" ∷ text "1" ∷ [])

abbrev pub Entry : Type 0
Entry = Text × CanonicalParameterValue

unfoldable pub accept_boolean : Parameter → Text → Result Text Entry
unfolding normalize_bool
accept_boolean p value =
    if is_boolean value
    then ok (normalize_bool value, boolean_value (text_eq (normalize_bool value) (text "true")))
    else err (p.label ++ text " must be a boolean")

unfoldable pub accept_enum : Parameter → Text → Result Text Entry
accept_enum p value =
    if any (λ (o : ParameterOption). text_eq o.value value) p.options
    then ok (value, enum_value value)
    else err (p.label ++ text " has an invalid option")

-- `submitted.get(id).filter(..)`
abbrev pub nonempty : Option (Text × Text) → Option Text
nonempty none = none
nonempty (some (name, value)) = if is_empty value then none else some value

abbrev pub chosen : List (Text × Text) → Parameter → Option Text
chosen submitted p =
    or_else (nonempty (find_by (λ (e : Text × Text). e.0) p.id submitted)) p.default_value

-- What the loops have gathered.
pub record Validation : Type 0 where
  pub errors : List Text
  pub values : Text → Option Text
  pub typed_values : Text → Option CanonicalParameterValue

abbrev pub insert : {A : Type 0} → Text → A → (Text → Option A) → Text → Option A
insert key a m k = if text_eq key k then some a else m k

abbrev pub insert_entry : Text → Entry → Validation → Validation
insert_entry key (value, typed) v = record v {
  values = insert key value v.values;
  typed_values = insert key typed v.typed_values;
}

abbrev pub push_error : Text → Validation → Validation
push_error message v = record v { errors = v.errors ++ message ∷ [] }

abbrev pub settle : Parameter → Result Text (Option Entry) → Validation → Validation
settle p (ok none) v = v
settle p (ok (some entry)) v = insert_entry p.id entry v
settle p (err message) v = push_error message v

abbrev pub some_entry : Result Text Entry → Result Text (Option Entry)
some_entry (ok entry) = ok (some entry)
some_entry (err message) = err message

abbrev pub unsupported_parameter_message : Parameter → Text
unsupported_parameter_message p =
    p.label ++ text " (" ++ p.id ++ text ") uses an unsupported parameter type"

abbrev pub is_known : List Parameter → Text → Bool
is_known parameters name = any (λ (p : Parameter). text_eq p.id name) parameters

-- The names that are refused, unless unknown ones are allowed.
unfoldable pub unknown_errors : List Parameter → List (Text × Text) → List Text
unknown_errors parameters [] = []
unknown_errors parameters ((name, value) ∷ submitted) =
    let rest = unknown_errors parameters submitted in
    if is_known parameters name then rest else (text "unknown parameter: " ++ name) ∷ rest

-- The last loop: unknown values that are not empty are taken as texts.
unfoldable pub take_unknown : List Parameter → List (Text × Text) → Validation → Validation
take_unknown parameters [] v = v
take_unknown parameters ((name, value) ∷ submitted) v =
    let taken = take_unknown parameters submitted (insert_entry name (value, text_value value) v) in
    let passed = take_unknown parameters submitted v in
    if is_known parameters name || is_empty value then passed else taken

abbrev pub finished : Validation → Result (List Text) ValidatedConfiguration
finished v =
    if is_empty v.errors
    then ok (record { values = v.values; typed_values = v.typed_values })
    else err v.errors

module _ (accept_number : Parameter → Text → Result Text Entry) where
  -- The value of a parameter, by its kind.
  unfoldable pub accept_value : Parameter → ParameterKind → Text → Result Text Entry
  unfolding accept_boolean accept_enum
  accept_value p plain_text value = ok (value, text_value value)
  accept_value p number value = accept_number p value
  accept_value p boolean value = accept_boolean p value
  accept_value p enumeration value = accept_enum p value
  accept_value p unsupported_kind value = err (unsupported_parameter_message p)

  abbrev pub accept_chosen : Parameter → Option Text → Result Text (Option Entry)
  accept_chosen p (some value) = some_entry (accept_value p p.kind value)
  accept_chosen p none = if p.required then err (p.label ++ text " is required") else ok none

  abbrev pub accept_kind : ParameterKind → Parameter → Option Text → Result Text (Option Entry)
  accept_kind unsupported_kind p value = err (unsupported_parameter_message p)
  accept_kind _ p value = accept_chosen p value

  abbrev pub accept : List (Text × Text) → Parameter → Result Text (Option Entry)
  accept submitted p = accept_kind p.kind p (chosen submitted p)

  -- The loop over the parameters.
  unfoldable pub collect : List (Text × Text) → List Parameter → Validation → Validation
  unfolding accept_value
  collect submitted [] v = v
  collect submitted (p ∷ parameters) v =
      collect submitted parameters (settle p (accept submitted p) v)

  unfoldable pub validate_values :
      List Parameter → List (Text × Text) → Bool → Result (List Text) ValidatedConfiguration
  unfolding unknown_errors take_unknown collect
  validate_values parameters submitted allow_unknown =
      let before = if allow_unknown then [] else unknown_errors parameters submitted in
      let start : Validation = record {
        errors = before;
        values = λ _. none;
        typed_values = λ _. none;
      } in
      let gathered = collect submitted parameters start in
      finished (if allow_unknown then take_unknown parameters submitted gathered else gathered)
